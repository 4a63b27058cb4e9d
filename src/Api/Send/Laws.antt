-- ===== src/Api/Send/Laws.antt =====
-- What a client of processSend can rely on.
use mux_mail.Prelude.{
  ℕ, ◌+◌, ◌<◌, ◌≡◌, get_elem?-append_last, refl, sym, ap, subst, ◌∙◌, inl, String, false, some, [],
  ◌∷◌, ◌++◌, string_eq, beq_refl, arith,
}
use mux_mail.Domain.Types.{Message}
use mux_mail.Lite.Time.{Time}
use mux_mail.Lite.Queue
use mux_mail.Lite.Queue.{
  MemoryQueue, QueuedTask, queued_item, commit, commit_delayed, commit_unused, enqueue_item,
}
use mux_mail.Lite.RateLimiter.Counts.{IsCoherent}
use mux_mail.Lite.Idempotency
use mux_mail.Lite.Idempotency.{IdempotencyCache, IdempotencyError, complete_queued, replayed}
use mux_mail.Lite.Idempotency.Invariant.{IsValid}
use mux_mail.Lite.Idempotency.Outcome.{replay_after_complete}
use mux_mail.Api.Send.{
  SendEnv, SendTimes, SendInput, SendState, SendResult, SendError, queued, replay, refused,
  idempotency_refused, commit_failed, key_of, message_of, task_of, record_stat,
}
use mux_mail.Api.Send.Stages.{process_send}
use mux_mail.Api.Send.Undo.{SameTasks, SameTasks-refl}
use mux_mail.Api.Send.Outcome.{
  QuotaKept, IsUndone, IsLate, late_records, undone, late, sent, HasMessageIds, Processed,
  key_refused, repeated, went_on, process_send-Processed,
}

abbrev Untouched : SendTimes → SendState → SendState → Type 0
Untouched times s s' = SameTasks s.queue s'.queue × QuotaKept times s s' × (s'.log ≡ s.log)

Untouched-by :
    (times : SendTimes) (s h s' : SendState)
    → h.queue ≡ s.queue
    → h.rate_limit ≡ s.rate_limit
    → h.log ≡ s.log
    → SameTasks h.queue s'.queue
    → QuotaKept times h s'
    → s'.log ≡ h.log
    → Untouched times s s'
Untouched-by times s h s' q l g tasks quota log = (
  subst (λ x. SameTasks x s'.queue) q tasks,
  subst (λ x. QuotaKept times (record s { rate_limit = x }) s') l quota,
  log ∙ g,
)

-- What a refusal leaves. If it is of the idempotency key, nothing is touched; if the queue was closed
-- between the reservation of the slot and the commit, this is the error, and the log has the message;
-- else what the request took is given back.
pub data Refusal (env : SendEnv) (times : SendTimes) (i : SendInput) (s : SendState) (e : SendError)
    (s' : SendState) : Type 0 where
  no_key :
      (x : IdempotencyError)
      → e ≡ idempotency_refused x
      → Untouched times s s'
      → Refusal env times i s e s'
  given_back : IsUndone env times i s s' → Refusal env times i s e s'
  too_late :
      e ≡ commit_failed Queue.memory_queue_closed
      → IsLate env times i s s'
      → Refusal env times i s e s'

IsUndone-from :
    (env : SendEnv) (times : SendTimes) (i : SendInput) (s h s' : SendState)
    → h.queue ≡ s.queue
    → h.rate_limit ≡ s.rate_limit
    → h.log ≡ s.log
    → IsUndone env times i h s'
    → IsUndone env times i s s'
IsUndone-from env times i s h s' q l g u =
    let (tasks, quota, log) = Untouched-by times s h s' q l g u.tasks u.quota u.log in
    record { tasks = tasks; quota = quota; log = log; key_free = u.key_free }

IsLate-from :
    (env : SendEnv) (times : SendTimes) (i : SendInput) (s h s' : SendState)
    → h.rate_limit ≡ s.rate_limit
    → h.log ≡ s.log
    → IsLate env times i h s'
    → IsLate env times i s s'
IsLate-from env times i s h s' l g u = record {
  route = u.route;
  message_id = u.message_id;
  closes = u.closes;
  closed = u.closed;
  no_ready = u.no_ready;
  no_delayed = u.no_delayed;
  no_pending = u.no_pending;
  quota = subst (λ x. QuotaKept times (record s { rate_limit = x }) s') l u.quota;
  log = u.log ∙ ap (λ x. x ++ late_records env i u.route u.message_id) g;
  key_free = u.key_free;
}

-- A send that is refused, however far it came, leaves the queue, its slots included, the message log
-- and the quota as they were, the counters that have expired aside, and its idempotency key free,
-- unless it is the key that is refused. The one exception is a queue that is closed after the slot has
-- been reserved: then the error says so, nothing is queued, the quota is given back and the key is free,
-- and the log has two new records, the message as queued and, if this write succeeds, as failed.
pub refused_untouched :
    (env : SendEnv) (times : SendTimes) (i : SendInput) (s : SendState) (e : SendError)
    → HasMessageIds env
    → IsValid s.idempotent
    → IsCoherent s.rate_limit
    → (process_send env times i s).0 ≡ refused e
    → Refusal env times i s e (process_send env times i s).1
refused_untouched env times i s e ids valid coherent h =
    by_case (process_send-Processed env times i s ids valid coherent) h
  where
    error_is : (x : SendError) → {a : SendResult} → a ≡ refused x → a ≡ refused e → e ≡ x
    error_is x o h = cc (o, h)

    by_case :
        {p : SendResult × SendState}
        → Processed env times i s p
        → p.0 ≡ refused e
        → Refusal env times i s e p.1
    by_case {p = p} (key_refused x o q l g) h =
        no_key x (error_is (idempotency_refused x) o h)
          (Untouched-by times s p.1 p.1 q l g (SameTasks-refl p.1.queue) (λ k. inl refl) refl)
    by_case (repeated x o q l g) h = absurd (cc (o, h))
    by_case {p = p} (went_on r hs held q l g ttl (undone x o u)) h =
        given_back (IsUndone-from env times i s hs p.1 q l g u)
    by_case {p = p} (went_on r hs held q l g ttl (late o u)) h =
        too_late (error_is (commit_failed Queue.memory_queue_closed) o h)
          (IsLate-from env times i s hs p.1 l g u)
    by_case (went_on r hs held q l g ttl (sent x n y z d a b c f t o u v w)) h = absurd (cc (o, h))

process_send_replay :
    (env : SendEnv) (times : SendTimes) (i : SendInput) (s : SendState) (message_id : String)
    (status : Idempotency.IdempotencyStatus)
    → (Idempotency.reserve (key_of env i) i.fingerprint times.reserved_at s.idempotent).0
      ≡ Idempotency.ok (replayed message_id status)
    → process_send env times i s ≡ (
      replay message_id,
      record_stat i "requests_idempotent_replay" (record s {
        idempotent =
            (Idempotency.reserve (key_of env i) i.fingerprint times.reserved_at s.idempotent).1;
      }),
    )
unfolding process_send
process_send_replay env times i s message_id status h = rw (h, process_send) refl

same_key :
    (env : SendEnv) (i j : SendInput)
    → j.app_code ≡ i.app_code
    → j.scene.code ≡ i.scene.code
    → j.idempotency_key ≡ i.idempotency_key
    → key_of env j ≡ key_of env i
same_key env i j app scene key = rw (app, scene, key) refl

-- The same request sent again, with a request ID of its own but the app, the scene, the
-- Idempotency-Key and the fingerprint of the first, before the TTL of its key is over and with no
-- other request in between, is answered with the message ID of the first, and nothing is queued,
-- logged or counted against the quota.
pub send_twice :
    (env : SendEnv) (times later : SendTimes) (i j : SendInput) (s : SendState)
    (message_id : String)
    → HasMessageIds env
    → IsValid s.idempotent
    → IsCoherent s.rate_limit
    → j.app_code ≡ i.app_code
    → j.scene.code ≡ i.scene.code
    → j.idempotency_key ≡ i.idempotency_key
    → j.fingerprint ≡ i.fingerprint
    → later.reserved_at < times.completed_at + s.idempotent.ttl
    → (process_send env times i s).0 ≡ queued message_id
    → ((process_send env later j (process_send env times i s).1).0 ≡ replay message_id)
      × ((process_send env later j (process_send env times i s).1).1.queue
          ≡ (process_send env times i s).1.queue)
      × ((process_send env later j (process_send env times i s).1).1.log
          ≡ (process_send env times i s).1.log)
      × ((process_send env later j (process_send env times i s).1).1.rate_limit
          ≡ (process_send env times i s).1.rate_limit)
send_twice env times later i j s message_id ids valid coherent app scene key print soon h =
    by_case (process_send-Processed env times i s ids valid coherent) h
  where
    by_case :
        {p : SendResult × SendState}
        → Processed env times i s p
        → p.0 ≡ queued message_id
        → ((process_send env later j p.1).0 ≡ replay message_id)
          × ((process_send env later j p.1).1.queue ≡ p.1.queue)
          × ((process_send env later j p.1).1.log ≡ p.1.log)
          × ((process_send env later j p.1).1.rate_limit ≡ p.1.rate_limit)
    by_case (key_refused x o q l g) h = absurd (cc (o, h))
    by_case (repeated x o q l g) h = absurd (cc (o, h))
    by_case (went_on r hs held q l g ttl (undone x o u)) h = absurd (cc (o, h))
    by_case (went_on r hs held q l g ttl (late o u)) h = absurd (cc (o, h))
    by_case {p = p} (went_on r hs held q l g ttl (sent x n y z d a b c f t o u v w)) h =
        let same : x ≡ message_id = cc (o, h) in
        let again =
          replay_after_complete r (record { key = key_of env i; used = false }) hs.idempotent
            held.valid held.at_r refl x i.fingerprint times.completed_at later.reserved_at _
            (ids x t) held.entry (omega (arith, soon, ttl)) in
        let answer : (Idempotency.reserve (key_of env i) i.fingerprint later.reserved_at
              p.1.idempotent).0
            ≡ Idempotency.ok (replayed message_id Idempotency.queued) =
          rw w (
            again
            ∙ rw (beq_refl i.fingerprint)
                (ap (λ y. Idempotency.ok (replayed y Idempotency.queued)) same)) in
        let e = process_send_replay env later j p.1 message_id Idempotency.queued (
          subst
            (λ k.
              (Idempotency.reserve k j.fingerprint later.reserved_at p.1.idempotent).0
              ≡ Idempotency.ok (replayed message_id Idempotency.queued))
            (sym (same_key env i j app scene key))
            (subst
              (λ x.
                (Idempotency.reserve (key_of env i) x later.reserved_at p.1.idempotent).0
                ≡ Idempotency.ok (replayed message_id Idempotency.queued))
              (sym print) answer)) in
        (ap (λ y. y.0) e, ap (λ y. y.1.queue) e, ap (λ y. y.1.log) e, ap (λ y. y.1.rate_limit) e)

commit-ready :
    (q q' : MemoryQueue) (n : ℕ) (task : Queue.QueueTask) (now : Time)
    → Queue.reserve q ≡ (Queue.ok n, q')
    → ((commit (some n) task now q').1.ready
        ≡ q.ready ++ queued_item task (now + 0) (q.next_seq + 1) ∷ [])
      × ((commit (some n) task now q').1.delayed ≡ q.delayed)
      × ((commit (some n) task now q').1.pending ≡ q.pending + 1)
unfolding Queue.reserve commit commit_delayed commit_unused enqueue_item
commit-ready q q' n task now h = ground (arith, get_elem?-append_last q.reservations false)

-- A send that is accepted with a message ID queues one task, behind all others, which is the first
-- attempt of a message with this ID, and takes one slot for it; the message is the one new record of
-- the message log.
pub queued_once :
    (env : SendEnv) (times : SendTimes) (i : SendInput) (s : SendState) (message_id : String)
    → HasMessageIds env
    → IsValid s.idempotent
    → IsCoherent s.rate_limit
    → (process_send env times i s).0 ≡ queued message_id
    → (message : Message) × (message.message_id ≡ message_id)
      × ((process_send env times i s).1.queue.ready
          ≡ s.queue.ready
            ++ queued_item (task_of message) (times.queued_at + 0) (s.queue.next_seq + 1) ∷ [])
      × ((process_send env times i s).1.queue.delayed ≡ s.queue.delayed)
      × ((process_send env times i s).1.queue.pending ≡ s.queue.pending + 1)
      × ((process_send env times i s).1.log ≡ s.log ++ message ∷ [])
queued_once env times i s message_id ids valid coherent h =
    by_case (process_send-Processed env times i s ids valid coherent) h
  where
    by_case :
        {p : SendResult × SendState}
        → Processed env times i s p
        → p.0 ≡ queued message_id
        → (message : Message) × (message.message_id ≡ message_id)
          × (p.1.queue.ready
              ≡ s.queue.ready
                ++ queued_item (task_of message) (times.queued_at + 0) (s.queue.next_seq + 1) ∷ [])
          × (p.1.queue.delayed ≡ s.queue.delayed)
          × (p.1.queue.pending ≡ s.queue.pending + 1)
          × (p.1.log ≡ s.log ++ message ∷ [])
    by_case (key_refused x o q l g) h = absurd (cc (o, h))
    by_case (repeated x o q l g) h = absurd (cc (o, h))
    by_case (went_on r hs held q l g ttl (undone x o u)) h = absurd (cc (o, h))
    by_case (went_on r hs held q l g ttl (late o u)) h = absurd (cc (o, h))
    by_case (went_on r hs held q l g ttl (sent x n y z d a b c f t o u v w)) h =
        let m = message_of env i z x in
        let done =
          commit-ready s.queue y n (task_of m) times.queued_at (ap Queue.reserve (sym q) ∙ c) in
        (
          m,
          cc (o, h),
          ap (λ k. k.ready) u ∙ done.0,
          ap (λ k. k.delayed) u ∙ done.1,
          ap (λ k. k.pending) u ∙ done.2,
          v ∙ ap (λ k. k ++ m ∷ []) g,
        )
