-- ===== src/Lite/RateLimiter/Rollback.antt =====
-- Rolling back a decision restores every counter that the decision consumed.
use mux_mail.Prelude.{
  ◌+◌, ◌≡◌, ◌∙◌, refl, ap, sym, subst, Bool, true, false, Option, none, some, List, [], ◌∷◌, arith,
  ◌==◌, runes_eq, if◌then◌else◌, All, Bool-cases, inl, inr,
}
use mux_mail.Prelude.Assoc.{lookup}
use mux_mail.Lite.Time.{Time}
use mux_mail.Lite.RateLimiter.{
  RateLimitCounterKey, RateLimitCounter, Counters, RateLimitCheck, RateLimitRequest,
  RateLimitDecision, granted, key_eq, key_beq, check_key, check_keys, list_checks, first_exceeded,
  consume, rollback, allow_checks, allow, delete_expired,
}
use mux_mail.Lite.RateLimiter.Counts.{
  bumped, dropped, bumped_by, dropped_by, lookup-consume, lookup-rollback_keys, window_of, Coherent,
  IsCoherent, delete_expired-IsCoherent,
}

-- The window of a check ends where its rule says.
abbrev pub HasWindow : RateLimitCheck → Type 0
HasWindow check = check.expires_at ≡ check.window_start + window_of check.rule

module _ (request : RateLimitRequest) where
  abbrev pub Apart : RateLimitCounterKey → List RateLimitCheck → Type 0
  Apart k = All (λ check. (check_key request check == k) ≡ false)

  -- The checks' keys differ from one another.
  abbrev pub IsSeparate : List RateLimitCheck → Type 0
  IsSeparate [] = Unit
  IsSeparate (check ∷ rest) = Apart (check_key request check) rest × IsSeparate rest

  pub bumped_by-Apart :
      (checks : List RateLimitCheck) (k : RateLimitCounterKey) (o : Option RateLimitCounter)
      → Apart k checks
      → bumped_by request checks k o ≡ o
  bumped_by-Apart [] k o a = refl
  bumped_by-Apart (check ∷ rest) k o a = rw a.0 (bumped_by-Apart rest k o a.1)

  dropped_by-Apart :
      (checks : List RateLimitCheck) (k : RateLimitCounterKey) (o : Option RateLimitCounter)
      → Apart k checks
      → dropped_by (check_keys request checks) k o ≡ o
  unfolding check_keys
  dropped_by-Apart [] k o a = refl
  dropped_by-Apart (check ∷ rest) k o a =
      ap (λ b. dropped_by (check_keys request rest) k (if b then dropped o else o)) a.0
      ∙ dropped_by-Apart rest k o a.1

  dropped-bumped :
      (check : RateLimitCheck) (o : Option RateLimitCounter)
      → HasWindow check
      → Coherent (check_key request check) o
      → dropped (bumped check.expires_at o) ≡ o
  dropped-bumped check none w c = ground arith
  dropped-bumped check (some x) w c = ground arith

  dropped_by-bumped_by :
      (checks : List RateLimitCheck) (k : RateLimitCounterKey) (o : Option RateLimitCounter)
      → IsSeparate checks
      → All HasWindow checks
      → Coherent k o
      → dropped_by (check_keys request checks) k (bumped_by request checks k o) ≡ o
  unfolding check_keys
  dropped_by-bumped_by [] k o s w c = refl
  dropped_by-bumped_by (check ∷ rest) k o s w c =
      let key = check_key request check in
      let keys = check_keys request rest in
      let both = λ (b : Bool). dropped_by keys k (
        if b
        then dropped (bumped_by request rest k (if b then bumped check.expires_at o else o))
        else bumped_by request rest k (if b then bumped check.expires_at o else o)) in
      elim (Bool-cases (key == k)) [
        | inr e ↦ ap both e ∙ dropped_by-bumped_by rest k o s.1 w.1 c
        | inl e ↦
            let same = (key_eq.beq_iff key k).0 e in
            let apart = subst (λ j. Apart j rest) same s.0 in
            ap both e
            ∙ ap (λ x. dropped_by keys k (dropped x))
                (bumped_by-Apart rest k (bumped check.expires_at o) apart)
            ∙ dropped_by-Apart rest k (dropped (bumped check.expires_at o)) apart
            ∙ dropped-bumped check o w.0 (subst (λ j. Coherent j o) (sym same) c)
      ]

  pub list_checks-IsSeparate : (now : Time) → IsSeparate (list_checks request now)
  unfolding list_checks key_beq
  list_checks-IsSeparate now = elim (Bool-cases (request.user_ip == [])) [
    | inl e ↦ rw e (ground arith)
    | inr e ↦ rw e (ground arith)
  ]

  pub list_checks-HasWindow : (now : Time) → All HasWindow (list_checks request now)
  unfolding list_checks
  list_checks-HasWindow now = elim (Bool-cases (request.user_ip == [])) [
    | inl e ↦ rw e (ground arith)
    | inr e ↦ rw e (ground arith)
  ]

-- What Allow does if it grants a request: every check's counter was below its limit, and the state
-- is the one that the loop over the checks makes of the counters that had not expired.
pub allow-granted :
    (request : RateLimitRequest) (now : Time) (l l' : Counters) (d : RateLimitDecision)
    → allow request now l ≡ (granted d, l')
    → (d.allowed ≡ true)
      × (d.consumed ≡ check_keys request (list_checks request now))
      × (l' ≡ consume request (list_checks request now) (delete_expired now l))
      × (first_exceeded request now (list_checks request now) (delete_expired now l) ≡ none)
unfolding allow allow_checks
allow-granted request now l l' d h = ground arith

-- When a request has been granted, rolling its decision back at once gives every counter, of every
-- key, the count and the expiry that it had before the request, the expired ones aside.
pub rollback-allow :
    (request : RateLimitRequest) (now : Time) (l l' : Counters) (d : RateLimitDecision)
    → IsCoherent l
    → allow request now l ≡ (granted d, l')
    → (k : RateLimitCounterKey) → lookup k (rollback d l') ≡ lookup k (delete_expired now l)
unfolding rollback
rollback-allow request now l l' d c h k =
    let g = allow-granted request now l l' d h in
    let checks = list_checks request now in
    let l'' = delete_expired now l in
    rw (g.0, g.1, g.2)
      (lookup-rollback_keys (check_keys request checks) k (consume request checks l'')
        ∙ ap (dropped_by (check_keys request checks) k) (lookup-consume request checks k l'')
        ∙ dropped_by-bumped_by request checks k (lookup k l'') (list_checks-IsSeparate request now)
            (list_checks-HasWindow request now) ((delete_expired-IsCoherent now l c).coherent k))
