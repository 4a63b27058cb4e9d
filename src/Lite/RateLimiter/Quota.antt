-- ===== src/Lite/RateLimiter/Quota.antt =====
-- The quota: in one window a key is granted no more requests than its limit.
use mux_mail.Prelude.{
  ℕ, ◌+◌, ◌≤◌, ◌<◌, ◌≡◌, refl, ap, subst, Bool, true, false, ◌||◌, Option, none, some, List, [],
  ◌∷◌, arith, ◌==◌, All, Bool-cases, Option-cases, inl, inr, ltb,
}
use mux_mail.Prelude.Assoc.{lookup, Distinct, insert-Distinct, keep_value}
use mux_mail.Prelude.Int.{ℤ, pos_part}
use mux_mail.Lite.Time.{Time}
use mux_mail.Lite.RateLimiter.{
  RateLimitRule, RateLimitCounterKey, RateLimitCounter, Counters, RateLimitCheck, RateLimitRequest,
  RateLimitDecision, AllowResult, granted, exceeded, limit_not_positive, key_eq, check_key,
  list_checks, first_exceeded, consume, consume_one, allow_checks, allow, delete_expired, count_in,
  first_not_positive,
}
use mux_mail.Lite.RateLimiter.Counts.{
  bumped, bumped_by, lookup-consume, window_of, Coherent, IsCoherent, delete_expired-IsCoherent,
  delete_expired-lookup,
}
use mux_mail.Lite.RateLimiter.Rollback.{
  HasWindow, Apart, IsSeparate, bumped_by-Apart, list_checks-IsSeparate, list_checks-HasWindow,
}

-- A key is among those that the checks of a request consume.
unfoldable pub uses : RateLimitRequest → List RateLimitCheck → RateLimitCounterKey → Bool
uses request [] k = false
uses request (check ∷ rest) k = check_key request check == k || uses request rest k

abbrev one_if : Bool → ℕ
one_if true = 1
one_if false = 0

module _ (request : RateLimitRequest) where
  uses-Apart :
      (checks : List RateLimitCheck) (k : RateLimitCounterKey)
      → Apart request k checks
      → uses request checks k ≡ false
  unfolding uses
  uses-Apart [] k a = refl
  uses-Apart (check ∷ rest) k a = rw a.0 (uses-Apart rest k a.1)

  count-bumped_by :
      (checks : List RateLimitCheck) (k : RateLimitCounterKey) (o : Option RateLimitCounter)
      → IsSeparate request checks
      → count_in (bumped_by request checks k o) ≡ count_in o + one_if (uses request checks k)
  unfolding uses
  count-bumped_by [] k o s = omega arith
  count-bumped_by (check ∷ rest) k o s = elim (Bool-cases (check_key request check == k)) [
    | inr e ↦ rw e (count-bumped_by rest k o s.1)
    | inl e ↦
        let apart =
          subst (λ j. Apart request j rest) ((key_eq.beq_iff (check_key request check) k).0 e)
            s.0 in
        rw e (ap count_in (bumped_by-Apart request rest k (bumped check.expires_at o) apart))
  ]

  bumped_by-Coherent :
      (checks : List RateLimitCheck) (k : RateLimitCounterKey) (o : Option RateLimitCounter)
      → All HasWindow checks
      → Coherent k o
      → Coherent k (bumped_by request checks k o)
  bumped_by-Coherent [] k o w c = c
  bumped_by-Coherent (check ∷ rest) k o w c = elim (Bool-cases (check_key request check == k)) [
    | inr e ↦ rw e (bumped_by-Coherent rest k o w.1 c)
    | inl e ↦
        let fresh : Coherent (check_key request check) (bumped check.expires_at o) =
          (omega arith, w.0) in
        rw e (
          bumped_by-Coherent rest k (bumped check.expires_at o) w.1 (
            subst (λ j. Coherent j (bumped check.expires_at o))
              ((key_eq.beq_iff (check_key request check) k).0 e) fresh))
  ]

  consume-Distinct :
      (checks : List RateLimitCheck) (l : Counters)
      → Distinct l
      → Distinct (consume request checks l)
  unfolding consume consume_one
  consume-Distinct [] l d = d
  consume-Distinct (check ∷ rest) l d = consume-Distinct rest _ (insert-Distinct _ _ l d)

  -- No check found its counter at the limit.
  first_exceeded-none :
      (now : Time) (checks : List RateLimitCheck) (l : Counters)
      → first_exceeded request now checks l ≡ none
      → All (λ check. count_in (lookup (check_key request check) l) < pos_part check.limit) checks
  unfolding first_exceeded
  first_exceeded-none now [] l h = tt
  first_exceeded-none now (check ∷ rest) l h = ground (arith, first_exceeded-none now rest l)

  -- The three ways in which Allow ends.
  allow-cases {ℓ} :
      (P : AllowResult × Counters → Type ℓ) (now : Time) (l : Counters)
      → ((rule : RateLimitRule) → P (limit_not_positive rule, delete_expired now l))
      → ((d : RateLimitDecision) → P (exceeded d, delete_expired now l))
      → ((d : RateLimitDecision)
          → first_exceeded request now (list_checks request now) (delete_expired now l) ≡ none
          → P (granted d, consume request (list_checks request now) (delete_expired now l)))
      → P (allow request now l)
  unfolding allow allow_checks
  allow-cases P now l bad over ok =
      elim (Option-cases (first_not_positive (list_checks request now))) [
        | inr (rule, e) ↦ rw (e, allow) (bad rule)
        | inl e ↦
            rw (e, allow)
              (elim (Option-cases
                (first_exceeded request now (list_checks request now) (delete_expired now l))) [
                  | inr (d, f) ↦ rw (f, allow_checks) (over d)
                  | inl f ↦ rw (f, allow_checks) (ok _ f)
                ])
      ]

  pub allow-IsCoherent :
      (now : Time) (l : Counters) → IsCoherent l → IsCoherent (allow request now l).1
  allow-IsCoherent now l c =
      let c' = delete_expired-IsCoherent now l c in
      allow-cases (λ r. IsCoherent r.1) now l (λ _. c') (λ _. c')
        λ d f. record {
          distinct = consume-Distinct (list_checks request now) (delete_expired now l) c'.distinct;
          coherent = λ k.
              rw (lookup-consume request (list_checks request now) k (delete_expired now l)) (
                bumped_by-Coherent (list_checks request now) k (lookup k (delete_expired now l))
                  (list_checks-HasWindow request now) (c'.coherent k));
        }

  -- The requests that count against a key: those that are granted and use it.
  abbrev counted : RateLimitCounterKey → Time → AllowResult → ℕ
  counted k now (granted d) = one_if (uses request (list_checks request now) k)
  counted k now (exceeded d) = 0
  counted k now (limit_not_positive rule) = 0

  live_count :
      (now : Time) (l : Counters) (k : RateLimitCounterKey)
      → IsCoherent l
      → now < k.window_start + window_of k.rule
      → count_in (lookup k (delete_expired now l)) ≡ count_in (lookup k l)
  live_count now l k c h =
      rw (delete_expired-lookup now l k c.distinct) (kept (lookup k l) (c.coherent k))
    where
      kept :
          (o : Option RateLimitCounter)
          → Coherent k o
          → count_in (keep_value (λ c. ltb now c.expires_at) o) ≡ count_in o
      kept none _ = refl
      kept (some c) w = ground arith

  count-allow :
      (now : Time) (l : Counters) (k : RateLimitCounterKey)
      → IsCoherent l
      → now < k.window_start + window_of k.rule
      → count_in (lookup k (allow request now l).1)
        ≡ count_in (lookup k l) + counted k now (allow request now l).0
  count-allow now l k c h =
      let same = live_count now l k c h in
      let checks = list_checks request now in
      allow-cases (λ r. count_in (lookup k r.1) ≡ count_in (lookup k l) + counted k now r.0) now l
        (λ _. omega (arith, same)) (λ _. omega (arith, same))
        λ d f. omega (
          arith,
          same,
          ap count_in (lookup-consume request checks k (delete_expired now l)),
          count-bumped_by checks k (lookup k (delete_expired now l))
              (list_checks-IsSeparate request now),
        )

  -- The limits that a request carries are those of `limit`.
  abbrev pub Governed : (RateLimitCounterKey → ℤ) → Time → Type 0
  Governed limit now =
      All (λ check. check.limit ≡ limit (check_key request check)) (list_checks request now)

  bumped-le :
      (limit : RateLimitCounterKey → ℤ) (checks : List RateLimitCheck) (k : RateLimitCounterKey)
      (l : Counters)
      → IsSeparate request checks
      → All (λ check. check.limit ≡ limit (check_key request check)) checks
      → All (λ check. count_in (lookup (check_key request check) l) < pos_part check.limit) checks
      → count_in (lookup k l) ≤ pos_part (limit k)
      → count_in (bumped_by request checks k (lookup k l)) ≤ pos_part (limit k)
  bumped-le limit [] k l s g b h = h
  bumped-le limit (check ∷ rest) k l s g b h = elim (Bool-cases (check_key request check == k)) [
    | inr e ↦ rw e (bumped-le limit rest k l s.1 g.1 b.1 h)
    | inl e ↦
        let same = (key_eq.beq_iff (check_key request check) k).0 e in
        let apart = subst (λ j. Apart request j rest) same s.0 in
        let below : count_in (lookup k l) < pos_part (limit k) =
          subst (λ j. count_in (lookup j l) < pos_part (limit j)) same
            (subst (λ (z : ℤ). count_in (lookup (check_key request check) l) < pos_part z) g.0
              b.0) in
        rw e (
          rw (bumped_by-Apart request rest k (bumped check.expires_at (lookup k l)) apart)
            (omega (arith, below)))
  ]

  count-allow-le :
      (limit : RateLimitCounterKey → ℤ) (now : Time) (l : Counters) (k : RateLimitCounterKey)
      → Governed limit now
      → count_in (lookup k (delete_expired now l)) ≤ pos_part (limit k)
      → count_in (lookup k (allow request now l).1) ≤ pos_part (limit k)
  count-allow-le limit now l k g h =
      let checks = list_checks request now in
      allow-cases (λ r. count_in (lookup k r.1) ≤ pos_part (limit k)) now l (λ _. h) (λ _. h)
        λ d f. rw (lookup-consume request checks k (delete_expired now l)) (
          bumped-le limit checks k (delete_expired now l) (list_checks-IsSeparate request now) g
            (first_exceeded-none now checks (delete_expired now l) f) h)

-- A series of requests, each with its time.
unfoldable pub serve : Counters → List (Time × RateLimitRequest) → Counters
serve l [] = l
serve l ((now, request) ∷ rest) = serve (allow request now l).1 rest

-- How many of a series' requests are granted and count against a key.
unfoldable pub grants : RateLimitCounterKey → Counters → List (Time × RateLimitRequest) → ℕ
grants k l [] = 0
grants k l ((now, request) ∷ rest) =
    counted request k now (allow request now l).0 + grants k (allow request now l).1 rest

abbrev pub Before : Time → List (Time × RateLimitRequest) → Type 0
Before end = All (λ r. r.0 < end)

abbrev pub AllGoverned : (RateLimitCounterKey → ℤ) → List (Time × RateLimitRequest) → Type 0
AllGoverned limit = All (λ r. Governed r.1 limit r.0)

count-serve :
    (k : RateLimitCounterKey) (l : Counters) (rs : List (Time × RateLimitRequest))
    → IsCoherent l
    → Before (k.window_start + window_of k.rule) rs
    → count_in (lookup k (serve l rs)) ≡ count_in (lookup k l) + grants k l rs
unfolding serve grants
count-serve k l [] c b = omega arith
count-serve k l ((now, request) ∷ rest) c b = omega (
  arith,
  count-allow request now l k c b.0,
  count-serve k (allow request now l).1 rest (allow-IsCoherent request now l c) b.1,
)

count-serve-le :
    (limit : RateLimitCounterKey → ℤ) (k : RateLimitCounterKey) (l : Counters)
    (rs : List (Time × RateLimitRequest))
    → IsCoherent l
    → Before (k.window_start + window_of k.rule) rs
    → AllGoverned limit rs
    → count_in (lookup k l) ≤ pos_part (limit k)
    → count_in (lookup k (serve l rs)) ≤ pos_part (limit k)
unfolding serve
count-serve-le limit k l [] c b g h = h
count-serve-le limit k l ((now, request) ∷ rest) c b g h =
    count-serve-le limit k (allow request now l).1 rest (allow-IsCoherent request now l c) b.1 g.1
      (count-allow-le request limit now l k g.0 (rw (live_count request now l k c b.0) h))

-- From a new limiter, whatever requests come before the end of a key's window, the counter of the key
-- is the number of those that were granted and use the key, and this is at most the limit, if the
-- requests carry the limits that `limit` gives.
pub quota :
    (limit : RateLimitCounterKey → ℤ) (k : RateLimitCounterKey)
    (rs : List (Time × RateLimitRequest))
    → Before (k.window_start + window_of k.rule) rs
    → AllGoverned limit rs
    → (count_in (lookup k (serve [] rs)) ≡ grants k [] rs) × (grants k [] rs ≤ pos_part (limit k))
quota limit k rs b g =
    let empty : IsCoherent [] = record { distinct = tt; coherent = λ k. unfold lookup in tt } in
    let counted = count-serve k [] rs empty b in
    let within = count-serve-le limit k [] rs empty b g (unfold lookup in omega arith) in
    let nothing : count_in (lookup k []) ≡ 0 = unfold lookup in refl in
    (omega (arith, counted, nothing), omega (arith, counted, nothing, within))
