-- ===== src/Domain/Route/Laws.antt =====
-- What the candidates of a route are: the policy's channels, each once, the first few of them.
use mux_mail.Prelude.{
  ℕ, zero, suc, ◌≤◌, ◌<◌, String, ◌≡◌, refl, ◌≢◌, true, false, ◌||◌, List, [], ◌∷◌, arith, length,
  take, eq_iff, All, length-take-le, ◌==◌, string_eq, if◌then◌else◌,
}
use mux_mail.Prelude.Int.{ℤ, pos, negsuc, pos_part}
use mux_mail.Domain.Route.{has_seen, unique_loop, unique_and_truncate_channels}

-- The first occurrences of the non-empty names that are not in `seen`.
abbrev pub first_occurrences : List String → List String → List String
first_occurrences seen [] = []
first_occurrences seen (c ∷ cs) =
    let skip = first_occurrences seen cs in
    let more = first_occurrences (c ∷ seen) cs in
    if c == "" || has_seen c seen then skip else c ∷ more

unique_loop-eq :
    (n : ℕ) (seen cs : List String)
    → unique_loop (suc n) seen cs ≡ take (suc n) (first_occurrences seen cs)
unfolding unique_loop
unique_loop-eq n seen [] = refl
unique_loop-eq zero seen (c ∷ cs) = ground (arith, unique_loop-eq zero seen cs)
unique_loop-eq (suc n) seen (c ∷ cs) =
    ground (arith, unique_loop-eq (suc n) seen cs, unique_loop-eq n (c ∷ seen) cs)

-- The loop with its early exit computes the first `max` of the first occurrences; a limit that is not
-- positive gives none.
pub unique_and_truncate_channels-take :
    (channels : List String) (max : ℤ)
    → unique_and_truncate_channels channels max
      ≡ take (pos_part max) (first_occurrences [] channels)
unfolding unique_and_truncate_channels
unique_and_truncate_channels-take channels (negsuc n) = refl
unique_and_truncate_channels-take channels (pos zero) = refl
unique_and_truncate_channels-take channels (pos (suc n)) =
    ground (arith, unique_loop-eq n [] channels)

abbrev pub IsUnique : List String → Type 0
IsUnique [] = Unit
IsUnique (c ∷ cs) = (has_seen c cs ≡ false) × IsUnique cs

-- A name that the loop still finds is in the input, was not seen before, and is not empty.
first_occurrences-fresh :
    (x : String) (seen cs : List String)
    → has_seen x (first_occurrences seen cs) ≡ true
    → (has_seen x seen ≡ false) × (has_seen x cs ≡ true) × ((x == "") ≡ false)
unfolding has_seen
first_occurrences-fresh x seen [] h = cc
first_occurrences-fresh x seen (c ∷ cs) h = ground (
  arith,
  eq_iff c x,
  eq_iff c "",
  first_occurrences-fresh x seen cs,
  first_occurrences-fresh x (c ∷ seen) cs,
)

first_occurrences-IsUnique : (seen cs : List String) → IsUnique (first_occurrences seen cs)
unfolding has_seen
first_occurrences-IsUnique seen [] = tt
first_occurrences-IsUnique seen (c ∷ cs) = ground (
  arith,
  eq_iff c c,
  first_occurrences-fresh c (c ∷ seen) cs,
  first_occurrences-IsUnique seen cs,
  first_occurrences-IsUnique (c ∷ seen) cs,
)

has_seen-take :
    (x : String) (n : ℕ) (cs : List String) → has_seen x (take n cs) ≡ true → has_seen x cs ≡ true
unfolding has_seen
has_seen-take x zero cs h = cc
has_seen-take x (suc n) [] h = cc
has_seen-take x (suc n) (c ∷ cs) h = ground (arith, has_seen-take x n cs)

take-IsUnique : (n : ℕ) (cs : List String) → IsUnique cs → IsUnique (take n cs)
take-IsUnique zero cs u = tt
take-IsUnique (suc n) [] u = tt
take-IsUnique (suc n) (c ∷ cs) u = ground (arith, has_seen-take c n cs, take-IsUnique n cs u.1)

module _ {P : String → Type 0} where
  All-of_seen : (cs : List String) → ((x : String) → has_seen x cs ≡ true → P x) → All P cs
  unfolding has_seen
  All-of_seen [] h = tt
  All-of_seen (c ∷ cs) h =
      (h c (ground (arith, eq_iff c c)), All-of_seen cs λ x s. h x (ground (arith, s)))

-- The channels of a selection: some channel, no more than the limit, none twice, and each of them
-- named by the policy and not empty.
pub record IsCandidates (policy : List String) (max : ℤ) (channels : List String) : Type 0 where
  pub some_channel : channels ≢ []
  pub within : length channels ≤ pos_part max
  pub unique : IsUnique channels
  pub from_policy : All (λ c. (has_seen c policy ≡ true) × ((c == "") ≡ false)) channels

IsCandidates-take :
    (policy : List String) (max : ℤ)
    → take (pos_part max) (first_occurrences [] policy) ≢ []
    → IsCandidates policy max (take (pos_part max) (first_occurrences [] policy))
IsCandidates-take policy max ne =
    let n = pos_part max in
    let found = first_occurrences [] policy in
    record {
      some_channel = ne;
      within = length-take-le n found;
      unique = take-IsUnique n found (first_occurrences-IsUnique [] policy);
      from_policy = All-of_seen (take n found) λ x h.
          let fresh = first_occurrences-fresh x [] policy (has_seen-take x n found h) in
          (fresh.1, fresh.2);
    }

pub candidates :
    (policy : List String) (max : ℤ)
    → unique_and_truncate_channels policy max ≢ []
    → IsCandidates policy max (unique_and_truncate_channels policy max)
candidates policy max =
    rw (unique_and_truncate_channels-take policy max) (IsCandidates-take policy max)

first_occurrences-ne :
    (seen cs : List String) (c : String)
    → has_seen c cs ≡ true
    → has_seen c seen ≡ false
    → (c == "") ≡ false
    → first_occurrences seen cs ≢ []
unfolding has_seen
first_occurrences-ne seen [] c h s e = cc
first_occurrences-ne seen (d ∷ cs) c h s e = ground (
  arith,
  eq_iff d c,
  eq_iff c d,
  first_occurrences-ne seen cs c,
  first_occurrences-ne (d ∷ seen) cs c,
)

take-ne : (n : ℕ) (cs : List String) → cs ≢ [] → 0 < n → take n cs ≢ []
take-ne zero cs h p = absurd (omega arith)
take-ne (suc n) [] h p = absurd (h refl)
take-ne (suc n) (c ∷ cs) h p = λ e. cc

pub candidates-ne :
    (policy : List String) (max : ℤ) (c : String)
    → has_seen c policy ≡ true
    → (c == "") ≡ false
    → 0 < pos_part max
    → unique_and_truncate_channels policy max ≢ []
unfolding has_seen
candidates-ne policy max c h e p =
    rw (unique_and_truncate_channels-take policy max)
      (take-ne _ _ (first_occurrences-ne [] policy c h refl e) p)
