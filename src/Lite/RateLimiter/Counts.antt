-- ===== src/Lite/RateLimiter/Counts.antt =====
-- The counters as a function of the key: what consuming and rolling back do to each of them.
use mux_mail.Prelude.{
  ◌+◌, ◌-◌, ◌<◌, ◌≡◌, refl, Option, none, some, List, [], ◌∷◌, arith, ◌==◌, if◌then◌else◌, leb, ltb,
  Option-cases, inl, inr, ap, ◌∙◌,
}
use mux_mail.Prelude.Assoc.{
  lookup, Distinct, lookup-insert, lookup-delete, lookup-retain, retain-Distinct, keep_value,
}
use mux_mail.Lite.Time.{Time, minute, hour, day}
use mux_mail.Lite.RateLimiter.{
  RateLimitRule, email_minute, email_day, user_ip_hour, caller_ip_hour, RateLimitCounterKey,
  RateLimitCounter, Counters, RateLimitCheck, RateLimitRequest, key_eq, check_key, count_in,
  consume_one, consume, rollback_one, rollback_keys, delete_expired,
}

-- What consuming one unit under `expires_at` makes of a counter.
abbrev pub bumped : Time → Option RateLimitCounter → Option RateLimitCounter
bumped expires_at o = some (record { count = count_in o + 1; expires_at = expires_at })

-- What rolling back one unit makes of a counter.
abbrev pub dropped : Option RateLimitCounter → Option RateLimitCounter
dropped none = none
dropped (some c) = if leb c.count 1 then none else some (record c { count = c.count - 1 })

abbrev pub bumped_by :
    RateLimitRequest
    → List RateLimitCheck
    → RateLimitCounterKey
    → Option RateLimitCounter
    → Option RateLimitCounter
bumped_by request [] k o = o
bumped_by request (check ∷ rest) k o =
    bumped_by request rest k (if check_key request check == k then bumped check.expires_at o else o)

abbrev pub dropped_by :
    List RateLimitCounterKey
    → RateLimitCounterKey
    → Option RateLimitCounter
    → Option RateLimitCounter
dropped_by [] k o = o
dropped_by (key ∷ keys) k o = dropped_by keys k (if key == k then dropped o else o)

lookup-consume_one :
    (key k : RateLimitCounterKey) (e : Time) (l : Counters)
    → lookup k (consume_one key e l) ≡ (if key == k then bumped e (lookup k l) else lookup k l)
unfolding consume_one
lookup-consume_one key k e l = ground (
  arith,
  key_eq.beq_iff key k,
  lookup-insert key k (record { count = count_in (lookup key l) + 1; expires_at = e }) l,
)

pub lookup-consume :
    (request : RateLimitRequest) (checks : List RateLimitCheck) (k : RateLimitCounterKey)
    (l : Counters)
    → lookup k (consume request checks l) ≡ bumped_by request checks k (lookup k l)
unfolding consume
lookup-consume request [] k l = refl
lookup-consume request (check ∷ rest) k l =
    lookup-consume request rest k (consume_one (check_key request check) check.expires_at l)
    ∙ ap (bumped_by request rest k)
        (lookup-consume_one (check_key request check) k check.expires_at l)

lookup-rollback_one :
    (key k : RateLimitCounterKey) (l : Counters)
    → lookup k (rollback_one key l) ≡ (if key == k then dropped (lookup k l) else lookup k l)
unfolding rollback_one
lookup-rollback_one key k l = elim (Option-cases (lookup key l)) [
  | inl e ↦ rw (e, rollback_one) (ground (arith, key_eq.beq_iff key k, e))
  | inr (c, e) ↦
      rw (e, rollback_one)
        (ground (
          arith,
          key_eq.beq_iff key k,
          e,
          lookup-delete key k l,
          lookup-insert key k (record c { count = c.count - 1 }) l,
        ))
]

pub lookup-rollback_keys :
    (keys : List RateLimitCounterKey) (k : RateLimitCounterKey) (l : Counters)
    → lookup k (rollback_keys keys l) ≡ dropped_by keys k (lookup k l)
unfolding rollback_keys
lookup-rollback_keys [] k l = refl
lookup-rollback_keys (key ∷ keys) k l =
    lookup-rollback_keys keys k (rollback_one key l)
    ∙ ap (dropped_by keys k) (lookup-rollback_one key k l)

-- The length of a rule's window.
abbrev pub window_of : RateLimitRule → Time
window_of email_minute = minute
window_of email_day = day
window_of user_ip_hour = hour
window_of caller_ip_hour = hour

-- Every counter counts something, and runs out at the end of its window.
abbrev pub Coherent : RateLimitCounterKey → Option RateLimitCounter → Type 0
Coherent k none = Unit
Coherent k (some c) = (0 < c.count) × (c.expires_at ≡ k.window_start + window_of k.rule)

pub record IsCoherent (l : Counters) : Type 0 where
  pub distinct : Distinct l
  pub coherent : (k : RateLimitCounterKey) → Coherent k (lookup k l)

pub delete_expired-lookup :
    (now : Time) (l : Counters) (k : RateLimitCounterKey)
    → Distinct l
    → lookup k (delete_expired now l) ≡ keep_value (λ c. ltb now c.expires_at) (lookup k l)
unfolding delete_expired
delete_expired-lookup now l k d = lookup-retain (λ c. ltb now c.expires_at) k l d

pub delete_expired-IsCoherent :
    (now : Time) (l : Counters) → IsCoherent l → IsCoherent (delete_expired now l)
unfolding delete_expired
delete_expired-IsCoherent now l c = record {
  distinct = retain-Distinct _ l c.distinct;
  coherent =
      λ k. rw (delete_expired-lookup now l k c.distinct) (kept k (lookup k l) (c.coherent k));
}
  where
    kept :
        (k : RateLimitCounterKey) (o : Option RateLimitCounter)
        → Coherent k o
        → Coherent k (keep_value (λ c. ltb now c.expires_at) o)
    kept k none h = tt
    kept k (some c) h = ground arith
