-- ===== src/Lite/Idempotency/Eviction.antt =====
-- What the eviction loop does: it frees room, oldest first, and leaves pending entries alone.
use mux_mail.Prelude.{
  ℕ, zero, suc, ◌+◌, ◌≤◌, ◌<◌, ◌≡◌, ◌∙◌, ◌⊎◌, refl, sym, subst, Bool, true, false, Option, none,
  some, [], ◌∷◌, arith, length, leb, ◌==◌, if◌then◌else◌, Bool-cases, Option-cases, inl, inr,
}
use mux_mail.Prelude.Assoc.{
  lookup, delete, Distinct, lookup-delete, delete-Distinct, length-delete-le, length-delete-lt,
}
use mux_mail.Lite.Idempotency.{
  IdempotencyKey, key_eq, IdempotencyEntry, is_pending, Entries, is_older, better, find_oldest,
  evict_rounds, evict_overflow_except_pending,
}

abbrev Candidate : Type 0
Candidate = IdempotencyKey × IdempotencyEntry

-- What a step of the scan keeps: the old candidate, or the entry itself if it is not pending.
newest :
    (found : Option Candidate) (k : IdempotencyKey) (e : IdempotencyEntry) (rest : Entries)
    (a : Candidate)
    → (if is_pending e then found else some (better found (k, e))) ≡ some a
    → (found ≡ some a) ⊎ ((lookup a.0 ((k, e) ∷ rest) ≡ some a.1) × (is_pending a.1 ≡ false))
unfolding lookup
newest none k e rest a g = elim (Bool-cases (is_pending e)) [
  | inl p ↦ inl (rw p at g)
  | inr p ↦ inr (ground (arith, key_eq.beq_iff k a.0), ground (arith, p))
]
newest (some b) k e rest a g = elim (Bool-cases (is_pending e)) [
  | inl p ↦ inl (rw p at g)
  | inr p ↦ elim (Bool-cases (is_older (k, e) b)) [
    | inl o ↦ inr (ground (arith, key_eq.beq_iff k a.0, o), ground (arith, p, o))
    | inr o ↦ inl (ground (arith, p, o))
  ]
]

-- The scan's result is the candidate that it started with, or a queued entry of the map.
find_oldest-source :
    (m : Entries) (found : Option Candidate) (a : Candidate)
    → Distinct m
    → find_oldest m found ≡ some a
    → (found ≡ some a) ⊎ ((lookup a.0 m ≡ some a.1) × (is_pending a.1 ≡ false))
unfolding find_oldest lookup
find_oldest-source [] found a d h = inl h
find_oldest-source ((k, e) ∷ rest) found a d h =
    elim (find_oldest-source rest (if is_pending e then found else some (better found (k, e))) a d.1
      h) [
        | inr (l, q) ↦ inr (ground (arith, key_eq.beq_iff k a.0), q)
        | inl g ↦ newest found k e rest a g
      ]

-- The scan fails only if every entry is pending, or rather, it finds an entry if one is queued.
find_oldest-some :
    (m : Entries) (b : Candidate) → (a : Candidate) × (find_oldest m (some b) ≡ some a)
unfolding find_oldest
find_oldest-some [] b = (b, refl)
find_oldest-some ((k, e) ∷ rest) b = elim (Bool-cases (is_pending e)) [
  | inl p ↦ rw p (find_oldest-some rest b)
  | inr p ↦ rw p (find_oldest-some rest (better (some b) (k, e)))
]

-- An eviction of `m` that leaves `m'`: no key twice, nothing new, and no pending entry lost.
pub record Evicts (m m' : Entries) : Type 0 where
  pub distinct : Distinct m'
  pub shrinks : length m' ≤ length m
  pub pending_kept :
      (k : IdempotencyKey) (e : IdempotencyEntry)
      → lookup k m ≡ some e
      → is_pending e ≡ true
      → lookup k m' ≡ some e
  pub from_old :
      (k : IdempotencyKey) (e : IdempotencyEntry) → lookup k m' ≡ some e → lookup k m ≡ some e

Evicts-refl : (m : Entries) → Distinct m → Evicts m m
Evicts-refl m d = record {
  distinct = d;
  shrinks = omega arith;
  pending_kept = λ k e h p. h;
  from_old = λ k e h. h;
}

Evicts-trans : {m n o : Entries} → Evicts m n → Evicts n o → Evicts m o
Evicts-trans a b = record {
  distinct = b.distinct;
  shrinks = omega (arith, a.shrinks, b.shrinks);
  pending_kept = λ k e h p. b.pending_kept k e (a.pending_kept k e h p) p;
  from_old = λ k e h. a.from_old k e (b.from_old k e h);
}

delete-Evicts :
    (m : Entries) (j : IdempotencyKey) (x : IdempotencyEntry)
    → Distinct m
    → lookup j m ≡ some x
    → is_pending x ≡ false
    → Evicts m (delete j m)
delete-Evicts m j x d l q = record {
  distinct = delete-Distinct j m d;
  shrinks = length-delete-le j m;
  pending_kept = λ k e h p. lookup-delete j k m ∙ other k e h p;
  from_old = λ k e h. still k e (sym (lookup-delete j k m) ∙ h);
}
  where
    other :
        (k : IdempotencyKey) (e : IdempotencyEntry)
        → lookup k m ≡ some e
        → is_pending e ≡ true
        → (if j == k then none else lookup k m) ≡ some e
    other k e h p = elim (Bool-cases (j == k)) [
      | inr n ↦ rw n h
      | inl n ↦
          let same : lookup k m ≡ some x =
            subst (λ i. lookup i m ≡ some x) ((key_eq.beq_iff j k).0 n) l in
          absurd (ground (arith, same, h, p, q))
    ]

    still :
        (k : IdempotencyKey) (e : IdempotencyEntry)
        → (if j == k then none else lookup k m) ≡ some e
        → lookup k m ≡ some e
    still k e h = ground (arith, h)

-- The loop's answer is right: `true` leaves the map within the limit, and `false` above it with no
-- queued entry left; the fuel suffices when it is the map's length.
abbrev pub Evicted : ℕ → Entries → Bool × Entries → Type 0
Evicted limit m (true, m') = Evicts m m' × (length m' ≤ limit)
Evicted limit m (false, m') = Evicts m m' × (limit < length m') × (find_oldest m' none ≡ none)

Evicted-trans :
    (limit : ℕ) (m n : Entries) (r : Bool × Entries)
    → Evicts m n
    → Evicted limit n r
    → Evicted limit m r
Evicted-trans limit m n (true, m') s (t, l) = (Evicts-trans s t, l)
Evicted-trans limit m n (false, m') s (t, l, f) = (Evicts-trans s t, l, f)

-- What the scan finds from nothing is a queued entry of the map.
pub found_queued :
    (m : Entries) (a : Candidate)
    → Distinct m
    → find_oldest m none ≡ some a
    → (lookup a.0 m ≡ some a.1) × (is_pending a.1 ≡ false)
found_queued m a d n = elim (find_oldest-source m none a d n) [ inl e ↦ cc | inr q ↦ q ]

evict_rounds-Evicted :
    (fuel limit : ℕ) (m : Entries)
    → length m ≤ fuel
    → Distinct m
    → Evicted limit m (evict_rounds fuel limit m)
unfolding evict_rounds
evict_rounds-Evicted zero limit m f d = (Evicts-refl m d, omega arith)
evict_rounds-Evicted (suc fuel) limit m f d = elim (Bool-cases (leb (length m) limit)) [
  | inl w ↦ rw w (Evicts-refl m d, ground arith)
  | inr w ↦ elim (Option-cases (find_oldest m none)) [
    | inl n ↦ rw w (rw (n, evict_rounds) (Evicts-refl m d, ground arith, n))
    | inr (a, n) ↦
        let (l, q) = found_queued m a d n in
        rw w (
          rw (n, evict_rounds)
            (Evicted-trans limit m (delete a.0 m) (evict_rounds fuel limit (delete a.0 m))
              (delete-Evicts m a.0 a.1 d l q)
              (evict_rounds-Evicted fuel limit (delete a.0 m)
                (omega (arith, length-delete-lt a.0 a.1 m l)) (delete-Distinct a.0 m d))))
  ]
]

pub evict_overflow-Evicted :
    (limit : ℕ) (m : Entries) → Distinct m → Evicted limit m (evict_overflow_except_pending limit m)
unfolding evict_overflow_except_pending
evict_overflow-Evicted limit m d = evict_rounds-Evicted (length m) limit m (omega arith) d

evict_rounds-within :
    (fuel limit : ℕ) (m : Entries) → length m ≤ limit → evict_rounds fuel limit m ≡ (true, m)
unfolding evict_rounds
evict_rounds-within zero limit m h = refl
evict_rounds-within (suc fuel) limit m h = ground arith

pub evict_overflow_within :
    (limit : ℕ) (m : Entries) → length m ≤ limit → evict_overflow_except_pending limit m ≡ (true, m)
unfolding evict_overflow_except_pending
evict_overflow_within limit m h = evict_rounds-within (length m) limit m h

-- One eviction's outcome: `false` and the map as it was if no entry is queued, else the map without
-- the oldest of the queued ones.
abbrev pub evict_one : Entries → Bool × Entries
evict_one m = elim (find_oldest m none) [ none ↦ (false, m) | some a ↦ (true, delete a.0 m) ]

evict_rounds_exact :
    (fuel limit : ℕ) (m : Entries)
    → length m ≤ suc fuel
    → Distinct m
    → length m ≤ limit + 1
    → evict_rounds (suc fuel) limit m ≡ (if leb (length m) limit then (true, m) else evict_one m)
unfolding evict_rounds
evict_rounds_exact fuel limit m f d h = elim (Option-cases (find_oldest m none)) [
  | inl n ↦ rw (n, evict_rounds, evict_one) refl
  | inr (a, n) ↦
      let (l, q) = found_queued m a d n in
      let smaller : length (delete a.0 m) ≤ limit = omega (arith, length-delete-lt a.0 a.1 m l) in
      rw (n, evict_rounds, evict_one)
        (rw (evict_rounds-within fuel limit (delete a.0 m) smaller) refl)
]

pub evict_overflow_exact :
    (limit : ℕ) (m : Entries)
    → Distinct m
    → length m ≤ limit + 1
    → evict_overflow_except_pending limit m
      ≡ (if leb (length m) limit then (true, m) else evict_one m)
unfolding evict_overflow_except_pending
evict_overflow_exact limit [] d h = evict_rounds-within 0 limit [] (omega arith) ∙ ground arith
evict_overflow_exact limit (x ∷ xs) d h =
    evict_rounds_exact (length xs) limit (x ∷ xs) (omega arith) d h

-- The two outcomes of an eviction from a map with at most one entry too many.
pub evict-cases {ℓ} :
    (P : Bool × Entries → Type ℓ) (limit : ℕ) (m : Entries)
    → Distinct m
    → length m ≤ limit + 1
    → ((m' : Entries) → Evicts m m' → length m' ≤ limit → P (true, m'))
    → (limit < length m → P (false, m))
    → P (evict_overflow_except_pending limit m)
evict-cases P limit m d h kept full = rw (evict_overflow_exact limit m d h) (split d)
  where
    one :
        (o : Option Candidate)
        → find_oldest m none ≡ o
        → limit < length m
        → P (elim o [ none ↦ (false, m) | some a ↦ (true, delete a.0 m) ])
    one none e over = full over
    one (some a) e over =
        let (l, q) = found_queued m a d e in
        kept (delete a.0 m) (delete-Evicts m a.0 a.1 d l q)
          (omega (arith, length-delete-lt a.0 a.1 m l))

    split : Distinct m → P (if leb (length m) limit then (true, m) else evict_one m)
    split d = elim (Bool-cases (leb (length m) limit)) [
      | inl w ↦ rw w (kept m (Evicts-refl m d) (ground arith))
      | inr w ↦ rw w (one (find_oldest m none) refl (ground arith))
    ]
