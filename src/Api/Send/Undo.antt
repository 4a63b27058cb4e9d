-- ===== src/Api/Send/Undo.antt =====
-- What each component is left with when its reservation is undone.
use mux_mail.Prelude.{
  ℕ, ◌≡◌, refl, ap, ◌∙◌, inl, inr, String, Bool, true, false, none, some, [], arith, get_elem?,
  get_elem?-append_last, string_eq, Option-cases, beq_refl,
}
use mux_mail.Prelude.Assoc.{
  lookup, insert, lookup-insert, lookup-delete, insert-Distinct, length-insert_new,
}
use mux_mail.Lite.Time.{Time}
use mux_mail.Lite.Queue
use mux_mail.Lite.Queue.{MemoryQueue, QueuedTask, release_slot}
use mux_mail.Lite.RateLimiter
use mux_mail.Lite.RateLimiter.{
  RateLimitRequest, RateLimitRule, RateLimitDecision, RateLimitCounterKey, Counters, exceeded,
  limit_not_positive, granted, allow, allow_checks,
}
use mux_mail.Lite.Idempotency
use mux_mail.Lite.Idempotency.{
  IdempotencyKey, IdempotencyEntry, ReservationCell, IdempotencyCache, Reserved, reserved, replayed,
  key_eq, is_pending, pending_entry, settle_reservation, evict_overflow_except_pending, as_reserved,
  decide_existing, release_unused, Entries,
}
use mux_mail.Lite.Idempotency.Eviction.{evict-cases}
use mux_mail.Lite.Idempotency.Invariant.{IsValid, delete_expired-IsValid}

-- The same tasks, in the same order, and as many slots taken.
pub record SameTasks (q q' : MemoryQueue) : Type 0 where
  pub pending : q'.pending ≡ q.pending
  pub ready : q'.ready ≡ q.ready
  pub delayed : q'.delayed ≡ q.delayed
  pub closed : q'.closed ≡ q.closed

pub SameTasks-refl : (q : MemoryQueue) → SameTasks q q
SameTasks-refl q = record { pending = refl; ready = refl; delayed = refl; closed = refl }

-- A slot that is reserved and released is free again.
pub release-reserve :
    (q q' : MemoryQueue) (n : ℕ)
    → Queue.reserve q ≡ (Queue.ok n, q')
    → SameTasks q (Queue.release (some n) q')
unfolding Queue.reserve Queue.release
release-reserve q q' n h = ground (arith, get_elem?-append_last q.reservations false)

-- The queue of a Close: it holds nothing and takes nothing.
pub record IsClosedEmpty (q : MemoryQueue) : Type 0 where
  pub closed : q.closed ≡ true
  pub ready : q.ready ≡ []
  pub delayed : q.delayed ≡ []
  pub pending : q.pending ≡ 0

-- A Close between Reserve and Commit: the commit refuses, and the release after it changes nothing.
pub commit-close :
    (q q' : MemoryQueue) (n : ℕ) (task : Queue.QueueTask) (now : Time)
    → Queue.reserve q ≡ (Queue.ok n, q')
    → ((Queue.commit (some n) task now (Queue.close q')).0 ≡ Queue.err Queue.memory_queue_closed)
      × IsClosedEmpty (Queue.release (some n) (Queue.commit (some n) task now (Queue.close q')).1)
unfolding Queue.reserve Queue.commit Queue.commit_delayed Queue.commit_unused Queue.close
    Queue.release release_slot Queue.signal_locked
commit-close q q' n task now h = ground (arith, get_elem?-append_last q.reservations false)

pub reserve_refused :
    (q q' : MemoryQueue) (e : Queue.QueueError) → Queue.reserve q ≡ (Queue.err e, q') → q' ≡ q
unfolding Queue.reserve
reserve_refused q q' e h = ground arith

-- A request over the limit changes no counter, the expired ones aside.
pub allow_exceeded :
    (request : RateLimitRequest) (now : Time) (l l' : Counters) (d : RateLimitDecision)
    → allow request now l ≡ (exceeded d, l')
    → l' ≡ RateLimiter.delete_expired now l
unfolding allow allow_checks
allow_exceeded request now l l' d h = ground arith

pub allow_invalid :
    (request : RateLimitRequest) (now : Time) (l l' : Counters) (rule : RateLimitRule)
    → allow request now l ≡ (limit_not_positive rule, l')
    → l' ≡ RateLimiter.delete_expired now l
unfolding allow allow_checks
allow_invalid request now l l' rule h = ground arith

-- The reservation `r` is open, and its entry is the one that Reserve stored.
pub record IsHeld (key : IdempotencyKey) (fingerprint : String) (now : Time) (r : ℕ)
    (c : IdempotencyCache) : Type 0 where
  pub valid : IsValid c
  pub at_r : get_elem? c.reservations r ≡ some (record { key = key; used = false })
  pub entry : lookup key c.entries ≡ some (pending_entry fingerprint now)

-- What the end of Reserve gives, once the eviction is done.
abbrev Settles : IdempotencyKey → String → Time → ℕ → IdempotencyCache → Bool × Entries → Type 0
Settles key fingerprint now r c' result =
    (c : IdempotencyCache)
    → settle_reservation key result c ≡ (Idempotency.ok (reserved r), c')
    → (get_elem? c'.reservations r ≡ some (record { key = key; used = false }))
      × (lookup key c'.entries ≡ some (pending_entry fingerprint now))

settle-kept :
    (key : IdempotencyKey) (fingerprint : String) (now : Time) (r : ℕ) (c' : IdempotencyCache)
    (m : Entries)
    → lookup key m ≡ some (pending_entry fingerprint now)
    → Settles key fingerprint now r c' (true, m)
unfolding settle_reservation
settle-kept key fingerprint now r c' m l c h =
    let done = rw (l, settle_reservation) at h in
    (
      ground
          (arith, done, get_elem?-append_last c.reservations (record { key = key; used = false })),
      ground (arith, done, l),
    )

settle-evicted :
    (key : IdempotencyKey) (fingerprint : String) (now : Time) (r : ℕ) (c' : IdempotencyCache)
    (m : Entries)
    → Settles key fingerprint now r c' (false, m)
unfolding settle_reservation
settle-evicted key fingerprint now r c' m c h = absurd (cc h)

-- A reservation that Reserve grants is open, and owns the entry that Reserve stored.
pub reserve-IsHeld :
    (key : IdempotencyKey) (fingerprint : String) (now : Time) (r : ℕ) (c c' : IdempotencyCache)
    → IsValid c
    → IsValid c'
    → Idempotency.reserve key fingerprint now c ≡ (Idempotency.ok (reserved r), c')
    → IsHeld key fingerprint now r c'
unfolding Idempotency.reserve
reserve-IsHeld key fingerprint now r c c' v v' h =
    let live = Idempotency.delete_expired now c in
    let w = delete_expired-IsValid now c v in
    elim (Option-cases (lookup key live.entries)) [
      | inr (e, l) ↦ absurd (never e (ap (λ x. x.0) (rw (l, Idempotency.reserve) at h)))
      | inl l ↦
          let x = pending_entry fingerprint now in
          let m = insert key x live.entries in
          let here : lookup key m ≡ some x =
            lookup-insert key key x live.entries ∙ rw (beq_refl key) refl in
          let settled =
            evict-cases (Settles key fingerprint now r c') live.limit m
              (insert-Distinct key x live.entries w.distinct)
              (omega (arith, length-insert_new key x live.entries l, w.within))
              (λ m' s _. settle-kept key fingerprint now r c' m' (s.pending_kept key x here refl))
              (λ _. settle-evicted key fingerprint now r c' m) in
          let both = settled live (rw (l, Idempotency.reserve) at h) in
          record { valid = v'; at_r = both.0; entry = both.1 }
    ]
  where
    never :
        (e : IdempotencyEntry)
        → as_reserved (decide_existing e fingerprint) ≡ Idempotency.ok (reserved r)
        → ⊥
    never e h = unfold decide_existing in ground arith

-- Released, its key has no entry.
pub release-IsHeld :
    (key : IdempotencyKey) (fingerprint : String) (now : Time) (r : ℕ) (c : IdempotencyCache)
    → IsHeld key fingerprint now r c
    → lookup key (Idempotency.release (some r) c).entries ≡ none
unfolding Idempotency.release release_unused
release-IsHeld key fingerprint now r c h =
    rw (h.at_r, Idempotency.release)
      (rw (h.entry, release_unused) (lookup-delete key key c.entries ∙ rw (beq_refl key) refl))

ttl-settle :
    (key : IdempotencyKey) (result : Bool × Entries) (c : IdempotencyCache)
    → (settle_reservation key result c).1.ttl ≡ c.ttl
unfolding settle_reservation
ttl-settle key (false, m) c = refl
ttl-settle key (true, m) c = ground arith

pub ttl-reserve :
    (key : IdempotencyKey) (fingerprint : String) (now : Time) (c : IdempotencyCache)
    → (Idempotency.reserve key fingerprint now c).1.ttl ≡ c.ttl
unfolding Idempotency.reserve Idempotency.delete_expired
ttl-reserve key fingerprint now c =
    let live = Idempotency.delete_expired now c in
    elim (Option-cases (lookup key live.entries)) [
      | inr (e, l) ↦ rw (l, Idempotency.reserve) refl
      | inl l ↦ rw (l, Idempotency.reserve) (ttl-settle key _ live)
    ]
