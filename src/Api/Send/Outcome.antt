-- ===== src/Api/Send/Outcome.antt =====
-- How processSend ends: with the message queued, or with everything that it took given back.
use mathlib.Core.List.{append_assoc}
use mux_mail.Prelude.{
  ℕ, ◌≡◌, refl, sym, ap, ◌∙◌, subst, ◌⊎◌, inl, inr, String, false, Option, none, some, [], ◌∷◌,
  ◌++◌, ◌==◌, string_eq, Option-cases, Bool-cases, true, List,
}
use mux_mail.Prelude.Assoc.{lookup}
use mux_mail.Domain.Types.{Message}
use mux_mail.Domain.Email.{codes}
use mux_mail.Domain.Route
use mux_mail.Domain.Route.{RouteSelection, Selected, selection, select_route}
use mux_mail.Lite.Queue
use mux_mail.Lite.Queue.{MemoryQueue, commit}
use mux_mail.Lite.Queue.Reservation.{reserved-IsOpen, commit-ok}
use mux_mail.Lite.RateLimiter
use mux_mail.Lite.RateLimiter.{
  RateLimitCounterKey, RateLimitDecision, Counters, AllowResult, granted, exceeded,
  limit_not_positive, allow, key_eq,
}
use mux_mail.Lite.RateLimiter.Counts.{IsCoherent}
use mux_mail.Lite.RateLimiter.Rollback.{rollback-allow}
use mux_mail.Lite.Idempotency
use mux_mail.Lite.Idempotency.{
  IdempotencyError, Reserved, reserved, replayed, complete_queued, key_eq as idempotency_key_eq,
}
use mux_mail.Lite.Idempotency.Invariant.{IsValid}
use mux_mail.Lite.Idempotency.Storing.{reserve-IsValid}
use mux_mail.Lite.Idempotency.Outcome.{open_completes}
use mux_mail.Lite.Suppression.{contains}
use mux_mail.Api.Send.{
  SendEnv, SendTimes, SendInput, SendState, SendResult, SendError, queued, replay, refused,
  idempotency_refused, suppressed_recipient, no_route, queue_refused, rate_limited,
  rate_limit_invalid, message_id_failed, log_failed, commit_failed, key_of, limit_request,
  message_of, task_of, record_stat, undo_key, undo_slot, undo_all,
}
use mux_mail.Api.Send.Stages.{
  records_unless, logged, failed_message, closed_if, complete_send, commit_send, log_send,
  write_send, limit_send, slot_send, route_send, recipient_send, process_send, queue_full_stats,
}
use mux_mail.Api.Send.Undo.{
  SameTasks, SameTasks-refl, release-reserve, reserve_refused, allow_exceeded, allow_invalid,
  IsHeld, commit-close, reserve-IsHeld, release-IsHeld, ttl-reserve,
}

-- A counter is as it was, the expired ones aside.
abbrev pub QuotaKept : SendTimes → SendState → SendState → Type 0
QuotaKept times s s' =
    (k : RateLimitCounterKey)
    → (lookup k s'.rate_limit ≡ lookup k s.rate_limit)
      ⊎ (lookup k s'.rate_limit
          ≡ lookup k (RateLimiter.delete_expired times.limited_at s.rate_limit))

-- Nothing is left of the request: no task, no slot, no quota, no record in the log, no key.
pub record IsUndone (env : SendEnv) (times : SendTimes) (i : SendInput) (s s' : SendState)
    : Type 0 where
  pub tasks : SameTasks s.queue s'.queue
  pub quota : QuotaKept times s s'
  pub log : s'.log ≡ s.log
  pub key_free : lookup (key_of env i) s'.idempotent.entries ≡ none

-- The message as queued and, if this write succeeds, as failed.
abbrev pub late_records : SendEnv → SendInput → RouteSelection → String → List Message
late_records env i route message_id =
    let message = message_of env i route message_id in
    message ∷ records_unless (env.log_fails (failed_message message)) (failed_message message)

-- The queue was closed after the slot had been reserved, and the commit refused: nothing is in the
-- queue, the key is free, and the log has the message.
pub record IsLate (env : SendEnv) (times : SendTimes) (i : SendInput) (s s' : SendState)
    : Type 0 where
  pub route : RouteSelection
  pub message_id : String
  pub closes : times.queue_closes ≡ true
  pub closed : s'.queue.closed ≡ true
  pub no_ready : s'.queue.ready ≡ []
  pub no_delayed : s'.queue.delayed ≡ []
  pub no_pending : s'.queue.pending ≡ 0
  pub quota : QuotaKept times s s'
  pub log : s'.log ≡ s.log ++ late_records env i route message_id
  pub key_free : lookup (key_of env i) s'.idempotent.entries ≡ none

-- What the steps after the key's reservation `r` come to, from the state `s`.
pub data Ends (env : SendEnv) (times : SendTimes) (i : SendInput) (r : ℕ) (s : SendState)
    (p : SendResult × SendState) : Type 0 where
  undone : (e : SendError) → p.0 ≡ refused e → IsUndone env times i s p.1 → Ends env times i r s p
  late :
      p.0 ≡ refused (commit_failed Queue.memory_queue_closed)
      → IsLate env times i s p.1
      → Ends env times i r s p
  sent :
      (message_id : String) (n : ℕ) (q : MemoryQueue) (route : RouteSelection)
      (d : RateLimitDecision)
      → contains s.suppressed (codes i.app_code) i.normalized_to_email ≡ none
      → select_route env.parse_address i.scene i.normalized_to_email env.max_attempts
        ≡ selection route
      → Queue.reserve s.queue ≡ (Queue.ok n, q)
      → allow (limit_request i) times.limited_at s.rate_limit ≡ (granted d, p.1.rate_limit)
      → env.new_message_id ≡ some message_id
      → p.0 ≡ queued message_id
      → p.1.queue
        ≡ (commit (some n) (task_of (message_of env i route message_id)) times.queued_at q).1
      → p.1.log ≡ s.log ++ message_of env i route message_id ∷ []
      → p.1.idempotent ≡ (complete_queued (some r) message_id times.completed_at s.idempotent).1
      → Ends env times i r s p

closed_if-false : (q : MemoryQueue) → closed_if false q ≡ q
unfolding closed_if
closed_if-false q = refl

closed_if-true : (q : MemoryQueue) → closed_if true q ≡ Queue.close q
unfolding closed_if
closed_if-true q = refl

-- NewMessageID puts a prefix before the random part.
abbrev pub HasMessageIds : SendEnv → Type 0
HasMessageIds env =
    (message_id : String) → env.new_message_id ≡ some message_id → (message_id == "") ≡ false

module _ (env : SendEnv) (times : SendTimes) (i : SendInput) (r n : ℕ) (d : RateLimitDecision)
    (route : RouteSelection) (s : SendState) where
  write_send_none :
      env.new_message_id ≡ none
      → write_send env times i r n d route s ≡ (refused message_id_failed, undo_all r n d s)
  unfolding write_send
  write_send_none e = rw (e, write_send)

  write_send-some :
      (message_id : String)
      → env.new_message_id ≡ some message_id
      → write_send env times i r n d route s
        ≡ log_send env times i r n d (message_of env i route message_id) s
  unfolding write_send
  write_send-some message_id e = rw (e, write_send)

module _ (env : SendEnv) (times : SendTimes) (i : SendInput) (ids : HasMessageIds env) (r : ℕ)
    (s : SendState) (held : IsHeld (key_of env i) i.fingerprint times.reserved_at r s.idempotent)
    (coherent : IsCoherent s.rate_limit) where
  IsUndone-all :
      (n : ℕ) (q : MemoryQueue) (d : RateLimitDecision) (l : Counters)
      → Queue.reserve s.queue ≡ (Queue.ok n, q)
      → allow (limit_request i) times.limited_at s.rate_limit ≡ (granted d, l)
      → IsUndone env times i s (undo_all r n d (record s { queue = q; rate_limit = l }))
  unfolding undo_all
  IsUndone-all n q d l hq hl = record {
    tasks = release-reserve s.queue q n hq;
    quota =
        λ k. inr (rollback-allow (limit_request i) times.limited_at s.rate_limit l d coherent hl k);
    log = refl;
    key_free = release-IsHeld (key_of env i) i.fingerprint times.reserved_at r s.idempotent held;
  }

  module _ (route : RouteSelection)
      (clear : contains s.suppressed (codes i.app_code) i.normalized_to_email ≡ none)
      (found : select_route env.parse_address i.scene i.normalized_to_email env.max_attempts
        ≡ selection route) where
    module _ (n : ℕ) (q : MemoryQueue) (d : RateLimitDecision) (l : Counters) (message_id : String)
        (hq : Queue.reserve s.queue ≡ (Queue.ok n, q))
        (hl : allow (limit_request i) times.limited_at s.rate_limit ≡ (granted d, l))
        (e : env.new_message_id ≡ some message_id)
        (g : env.log_fails (message_of env i route message_id) ≡ none) where
      abbrev written : MemoryQueue → SendState
      written q = record s {
        queue = q;
        rate_limit = l;
        log = s.log ++ message_of env i route message_id ∷ [];
      }

      abbrev Committed : MemoryQueue → Type 0
      Committed q =
          Ends env times i r s
            (commit_send env times i r n d (message_of env i route message_id) (written q))

      sent-Ends : Committed q
      unfolding commit_send complete_send
      sent-Ends =
          let committed : (commit (some n) (task_of (message_of env i route message_id))
                times.queued_at q).0
              ≡ Queue.ok tt =
            unfold commit in
            commit-ok n (task_of (message_of env i route message_id)) _ times.queued_at q
              (reserved-IsOpen s.queue q n hq) in
          let completed =
            open_completes r _ s.idempotent held.valid held.at_r refl message_id times.completed_at
              (ids message_id e) in
          rw (committed, commit_send)
            (rw (completed, complete_send)
              (sent message_id n q route d clear found hq hl e refl refl refl refl))

      IsLate-all :
          times.queue_closes ≡ true
          → IsLate env times i s (
              undo_all r n d (
                logged env
                  (failed_message (message_of env i route message_id))
                  (record (written (Queue.close q)) {
                    queue =
                        (commit
                          (some n)
                          (task_of (message_of env i route message_id))
                          times.queued_at
                          (Queue.close q)).1;
                  })))
      unfolding undo_all
      IsLate-all closes =
          let empty =
            (commit-close s.queue q n (task_of (message_of env i route message_id)) times.queued_at
              hq).1 in
          record {
            route = route;
            message_id = message_id;
            closes = closes;
            closed = empty.closed;
            no_ready = empty.ready;
            no_delayed = empty.delayed;
            no_pending = empty.pending;
            quota = λ k.
                inr (
                  rollback-allow (limit_request i) times.limited_at s.rate_limit l d coherent hl k);
            log = append_assoc s.log (message_of env i route message_id ∷ []) _;
            key_free =
                release-IsHeld (key_of env i) i.fingerprint times.reserved_at r s.idempotent held;
          }

      late-Ends : times.queue_closes ≡ true → Committed (Queue.close q)
      unfolding commit_send
      late-Ends closes =
          let refusal =
            (commit-close s.queue q n (task_of (message_of env i route message_id)) times.queued_at
              hq).0 in
          rw (refusal, commit_send) (late refl (IsLate-all closes))

    log-Ends :
        (n : ℕ) (q : MemoryQueue) (d : RateLimitDecision) (l : Counters) (message_id : String)
        → Queue.reserve s.queue ≡ (Queue.ok n, q)
        → allow (limit_request i) times.limited_at s.rate_limit ≡ (granted d, l)
        → env.new_message_id ≡ some message_id
        → Ends env times i r s (
            log_send env times i r n d
              (message_of env i route message_id)
              (record s { queue = q; rate_limit = l }))
    unfolding log_send
    log-Ends n q d l message_id hq hl e =
        elim (Option-cases (env.log_fails (message_of env i route message_id))) [
          | inr (f, g) ↦ rw (g, log_send) (undone (log_failed f) refl (IsUndone-all n q d l hq hl))
          | inl g ↦
              rw (g, log_send)
                (elim (Bool-cases times.queue_closes) [
                  | inl b ↦
                      subst (Committed n q d l message_id hq hl e g)
                        (sym (ap (λ b. closed_if b q) b ∙ closed_if-true q))
                        (late-Ends n q d l message_id hq hl e g b)
                  | inr b ↦
                      subst (Committed n q d l message_id hq hl e g)
                        (sym (ap (λ b. closed_if b q) b ∙ closed_if-false q))
                        (sent-Ends n q d l message_id hq hl e g)
                ])
        ]

    write-Ends :
        (n : ℕ) (q : MemoryQueue) (d : RateLimitDecision) (l : Counters)
        → Queue.reserve s.queue ≡ (Queue.ok n, q)
        → allow (limit_request i) times.limited_at s.rate_limit ≡ (granted d, l)
        → Ends env times i r s
            (write_send env times i r n d route (record s { queue = q; rate_limit = l }))
    write-Ends n q d l hq hl = by_id env.new_message_id refl
      where
        state : SendState
        state = record s { queue = q; rate_limit = l }

        by_id :
            (o : Option String)
            → env.new_message_id ≡ o
            → Ends env times i r s (write_send env times i r n d route state)
        by_id none e =
            subst (Ends env times i r s) (sym (write_send_none env times i r n d route state e))
              (undone message_id_failed refl (IsUndone-all n q d l hq hl))
        by_id (some message_id) e =
            subst (Ends env times i r s)
              (sym (write_send-some env times i r n d route state message_id e))
              (log-Ends n q d l message_id hq hl e)

    limit-Ends :
        (n : ℕ) (q : MemoryQueue)
        → Queue.reserve s.queue ≡ (Queue.ok n, q)
        → Ends env times i r s (limit_send env times i r n route (record s { queue = q }))
    unfolding limit_send undo_key undo_slot
    limit-Ends n q hq = by_result _ refl
      where
        kept :
            (x : AllowResult)
            → (allow (limit_request i) times.limited_at s.rate_limit).0 ≡ x
            → allow (limit_request i) times.limited_at s.rate_limit
              ≡ (x, (allow (limit_request i) times.limited_at s.rate_limit).1)
        kept x h = ap (λ y. (y, (allow (limit_request i) times.limited_at s.rate_limit).1)) h

        limited :
            (allow (limit_request i) times.limited_at s.rate_limit).1
              ≡ RateLimiter.delete_expired times.limited_at s.rate_limit
            → IsUndone env times i s (
                undo_key r (
                  undo_slot n (
                    record_stat i "requests_rate_limited" (record s {
                      queue = q;
                      rate_limit = (allow (limit_request i) times.limited_at s.rate_limit).1;
                    }))))
        limited e = record {
          tasks = release-reserve s.queue q n hq;
          quota = λ k. inr (ap (lookup k) e);
          log = refl;
          key_free =
              release-IsHeld (key_of env i) i.fingerprint times.reserved_at r s.idempotent held;
        }

        by_result :
            (x : AllowResult)
            → (allow (limit_request i) times.limited_at s.rate_limit).0 ≡ x
            → Ends env times i r s (limit_send env times i r n route (record s { queue = q }))
        by_result (granted d) h = rw (h, limit_send) (write-Ends n q d _ hq (kept (granted d) h))
        by_result (exceeded d) h =
            rw (h, limit_send)
              (undone (rate_limited d) refl (
                limited (
                  allow_exceeded (limit_request i) times.limited_at s.rate_limit _ d
                    (kept (exceeded d) h))))
        by_result (limit_not_positive rule) h =
            rw (h, limit_send)
              (undone (rate_limit_invalid rule) refl (
                limited (
                  allow_invalid (limit_request i) times.limited_at s.rate_limit _ rule
                    (kept (limit_not_positive rule) h))))

    slot-Ends : Ends env times i r s (slot_send env times i r route s)
    unfolding slot_send undo_key
    slot-Ends = by_slot _ refl
      where
        reserve_is :
            (x : Queue.Result ℕ)
            → (Queue.reserve s.queue).0 ≡ x
            → Queue.reserve s.queue ≡ (x, (Queue.reserve s.queue).1)
        reserve_is x h = ap (λ y. (y, (Queue.reserve s.queue).1)) h

        untouched :
            (e : Queue.QueueError)
            → (Queue.reserve s.queue).1 ≡ s.queue
            → IsUndone env times i s (
                undo_key r (record s {
                  queue = (Queue.reserve s.queue).1;
                  stats = s.stats ++ queue_full_stats env times i e;
                }))
        untouched e h = record {
          tasks = subst (SameTasks s.queue) (sym h) (SameTasks-refl s.queue);
          quota = λ k. inl refl;
          log = refl;
          key_free =
              release-IsHeld (key_of env i) i.fingerprint times.reserved_at r s.idempotent held;
        }

        by_slot :
            (x : Queue.Result ℕ)
            → (Queue.reserve s.queue).0 ≡ x
            → Ends env times i r s (slot_send env times i r route s)
        by_slot (Queue.ok n) h = rw (h, slot_send) (limit-Ends n _ (reserve_is (Queue.ok n) h))
        by_slot (Queue.err e) h =
            rw (h, slot_send)
              (undone (queue_refused e) refl
                (untouched e (reserve_refused s.queue _ e (reserve_is (Queue.err e) h))))

  key-IsUndone : IsUndone env times i s (undo_key r s)
  unfolding undo_key
  key-IsUndone = record {
    tasks = SameTasks-refl s.queue;
    quota = λ k. inl refl;
    log = refl;
    key_free = release-IsHeld (key_of env i) i.fingerprint times.reserved_at r s.idempotent held;
  }

  recipient-Ends : Ends env times i r s (recipient_send env times i r s)
  unfolding recipient_send route_send
  recipient-Ends =
      elim (Option-cases (contains s.suppressed (codes i.app_code) i.normalized_to_email)) [
        | inr (entry, c) ↦
            rw (c, recipient_send) (undone (suppressed_recipient entry.reason) refl key-IsUndone)
        | inl c ↦ rw (c, recipient_send) (by_route c _ refl)
      ]
    where
      by_route :
          contains s.suppressed (codes i.app_code) i.normalized_to_email ≡ none
          → (x : Selected)
          → select_route env.parse_address i.scene i.normalized_to_email env.max_attempts ≡ x
          → Ends env times i r s (route_send env times i r s)
      by_route c (Route.refused e) h = rw (h, route_send) (undone (no_route e) refl key-IsUndone)
      by_route c (selection route) h = rw (h, route_send) (slot-Ends route c h)

-- The ways in which processSend ends.
pub data Processed (env : SendEnv) (times : SendTimes) (i : SendInput) (s : SendState)
    (p : SendResult × SendState) : Type 0 where
  key_refused :
      (e : IdempotencyError)
      → p.0 ≡ refused (idempotency_refused e)
      → p.1.queue ≡ s.queue
      → p.1.rate_limit ≡ s.rate_limit
      → p.1.log ≡ s.log
      → Processed env times i s p
  repeated :
      (message_id : String)
      → p.0 ≡ replay message_id
      → p.1.queue ≡ s.queue
      → p.1.rate_limit ≡ s.rate_limit
      → p.1.log ≡ s.log
      → Processed env times i s p
  went_on :
      (r : ℕ) (held_state : SendState)
      → IsHeld (key_of env i) i.fingerprint times.reserved_at r held_state.idempotent
      → held_state.queue ≡ s.queue
      → held_state.rate_limit ≡ s.rate_limit
      → held_state.log ≡ s.log
      → held_state.idempotent.ttl ≡ s.idempotent.ttl
      → Ends env times i r held_state p
      → Processed env times i s p

pub process_send-Processed :
    (env : SendEnv) (times : SendTimes) (i : SendInput) (s : SendState)
    → HasMessageIds env
    → IsValid s.idempotent
    → IsCoherent s.rate_limit
    → Processed env times i s (process_send env times i s)
unfolding process_send
process_send-Processed env times i s ids valid coherent = by_key _ refl
  where
    by_key :
        (x : Idempotency.Result Reserved)
        → (Idempotency.reserve (key_of env i) i.fingerprint times.reserved_at s.idempotent).0 ≡ x
        → Processed env times i s (process_send env times i s)
    by_key (Idempotency.err e) h = rw (h, process_send) (key_refused e refl refl refl refl)
    by_key (Idempotency.ok (replayed message_id status)) h =
        rw (h, process_send) (repeated message_id refl refl refl refl)
    by_key (Idempotency.ok (reserved r)) h =
        let c =
          (Idempotency.reserve (key_of env i) i.fingerprint times.reserved_at s.idempotent).1 in
        let valid' =
          reserve-IsValid (key_of env i) i.fingerprint times.reserved_at s.idempotent valid in
        let held =
          reserve-IsHeld (key_of env i) i.fingerprint times.reserved_at r s.idempotent c valid
            valid' (ap (λ y. (y, c)) h) in
        rw (h, process_send)
          (went_on r (record s { idempotent = c }) held refl refl refl
            (ttl-reserve (key_of env i) i.fingerprint times.reserved_at s.idempotent)
            (recipient-Ends env times i ids r (record s { idempotent = c }) held coherent))
