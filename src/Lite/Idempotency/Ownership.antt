-- ===== src/Lite/Idempotency/Ownership.antt =====
-- CompleteQueued and Release keep the invariant, and so does every history.
use mux_mail.Prelude.{
  ℕ, zero, suc, ◌≡◌, ◌∙◌, ◌⊎◌, refl, subst, String, true, false, Option, none, some, List, [], ◌∷◌,
  arith, set, get_elem?, ◌==◌, string_eq, Bool-cases, Option-cases, inl, inr, All, All-get, All-set,
  All-both,
}
use mux_mail.Prelude.Assoc.{
  lookup, insert, delete, lookup-delete, delete-Distinct, length-delete-le, lookup-insert,
  insert-Distinct, length-insert_old,
}
use mux_mail.Prelude.Int.{ℤ}
use mathlib.Core.Option.{some-injective}
use mux_mail.Lite.Time.{Time}
use mux_mail.Lite.Idempotency.{
  queued, IdempotencyKey, key_eq, Entries, ReservationCell, IdempotencyCache, ok, use_cell,
  complete_unused, complete_queued, release_unused, release, new_idempotency_cache,
}
use mux_mail.Lite.Idempotency.History.{
  Call, checks, reserves, marks, completes, releases, step, run,
}
use mux_mail.Lite.Idempotency.Invariant.{IsValid, IsOwned, HasPending, HasUniqueOwners, ApartFrom}
use mux_mail.Lite.Idempotency.Storing.{check-IsValid, reserve-IsValid, mark_queued-IsValid}

abbrev used_cell : ReservationCell → ReservationCell
used_cell cell = record cell { used = true }

-- Marking a reservation used leaves the open ones as they were.
unique-set :
    (cells : List ReservationCell) (r : ℕ) (cell : ReservationCell)
    → get_elem? cells r ≡ some cell
    → HasUniqueOwners cells
    → HasUniqueOwners (set cells r (used_cell cell))
unique-set [] r cell e u = tt
unique-set (x ∷ xs) zero cell e u = (inl refl, u.1)
unique-set (x ∷ xs) (suc r) cell e u = (head u.0, unique-set xs r cell e u.1)
  where
    head :
        (x.used ≡ true) ⊎ All (ApartFrom x.key) xs
        → (x.used ≡ true) ⊎ All (ApartFrom x.key) (set xs r (used_cell cell))
    head (inl d) = inl d
    head (inr a) = inr (All-set (ApartFrom x.key) xs r (used_cell cell) a (inl refl))

flip_beq : (a b : IdempotencyKey) → (a == b) ≡ false → (b == a) ≡ false
flip_beq a b h = ground (arith, key_eq.beq_iff a b, key_eq.beq_iff b a, h)

-- The other reservations are used, or for other keys.
others_apart :
    (cells : List ReservationCell) (r : ℕ) (cell : ReservationCell)
    → get_elem? cells r ≡ some cell
    → cell.used ≡ false
    → HasUniqueOwners cells
    → All (ApartFrom cell.key) (set cells r (used_cell cell))
others_apart [] r cell e n u = tt
others_apart (x ∷ xs) zero cell e n u = (inl refl, rest u.0)
  where
    rest : (x.used ≡ true) ⊎ All (ApartFrom x.key) xs → All (ApartFrom cell.key) xs
    rest (inl d) = absurd (ground (arith, e, n, d))
    rest (inr a) =
        subst (λ (y : ReservationCell). All (ApartFrom y.key) xs) (some-injective x cell e) a
others_apart (x ∷ xs) (suc r) cell e n u = (head u.0, others_apart xs r cell e n u.1)
  where
    pick : ApartFrom x.key cell → ApartFrom cell.key x
    pick (inl d) = absurd (ground (arith, n, d))
    pick (inr a) = inr (flip_beq x.key cell.key a)

    head : (x.used ≡ true) ⊎ All (ApartFrom x.key) xs → ApartFrom cell.key x
    head (inl d) = inl d
    head (inr a) = pick (All-get (ApartFrom x.key) xs r cell a e)

-- A map that agrees with the old one on every other key still holds what the others own.
IsOwned-others :
    (m m' : Entries) (key : IdempotencyKey) (cells : List ReservationCell)
    → ((k : IdempotencyKey) → (key == k) ≡ false → lookup k m' ≡ lookup k m)
    → All (IsOwned m) cells
    → All (ApartFrom key) cells
    → All (IsOwned m') cells
IsOwned-others m m' key cells same = All-both (IsOwned m) keep cells
  where
    keep : (cell : ReservationCell) → IsOwned m cell → ApartFrom key cell → IsOwned m' cell
    keep cell (inl d) a = inl d
    keep cell (inr p) (inl d) = inl d
    keep cell (inr (e, l, p)) (inr n) = inr (e, same cell.key n ∙ l, p)

module _ (r : ℕ) (cell : ReservationCell) (c : IdempotencyCache) (v : IsValid c)
    (at_r : get_elem? c.reservations r ≡ some cell) (unused : cell.used ≡ false) where
  used-IsOwned :
      (m : Entries)
      → ((k : IdempotencyKey) → (cell.key == k) ≡ false → lookup k m ≡ lookup k c.entries)
      → All (IsOwned m) (set c.reservations r (used_cell cell))
  used-IsOwned m same =
      IsOwned-others c.entries m cell.key (set c.reservations r (used_cell cell)) same
        (All-set (IsOwned c.entries) c.reservations r (used_cell cell) v.owned (inl refl))
        (others_apart c.reservations r cell at_r unused v.unique)

  -- Its entry is there, and pending.
  pub owns : HasPending c.entries cell.key
  owns = held (All-get (IsOwned c.entries) c.reservations r cell v.owned at_r)
    where
      held : IsOwned c.entries cell → HasPending c.entries cell.key
      held (inl d) = absurd (ground (arith, unused, d))
      held (inr p) = p

  complete_unused-IsValid :
      (message_id : String) (now : Time)
      → IsValid (complete_unused cell.key message_id now (use_cell r cell c)).1
  unfolding complete_unused
  complete_unused-IsValid message_id now =
      let (e, l, p) = owns in
      let x = record e { message_id = message_id; status = queued; created_at = now } in
      rw (l, complete_unused)
        (rw p (record {
          distinct = insert-Distinct cell.key x c.entries v.distinct;
          within = omega (arith, length-insert_old cell.key x e c.entries l, v.within);
          owned =
              used-IsOwned (insert cell.key x c.entries)
                (λ k n. lookup-insert cell.key k x c.entries ∙ rw n refl);
          unique = unique-set c.reservations r cell at_r v.unique;
        }))

  -- An open reservation completes.
  pub complete_unused_ok :
      (message_id : String) (now : Time)
      → (complete_unused cell.key message_id now (use_cell r cell c)).0 ≡ ok tt
  unfolding complete_unused
  complete_unused_ok message_id now = let (e, l, p) = owns in rw (l, complete_unused) (rw p refl)

  release_unused-IsValid : IsValid (release_unused cell.key (use_cell r cell c))
  unfolding release_unused
  release_unused-IsValid =
      let (e, l, p) = owns in
      rw (l, release_unused)
        (rw p (record {
          distinct = delete-Distinct cell.key c.entries v.distinct;
          within = omega (arith, length-delete-le cell.key c.entries, v.within);
          owned =
              used-IsOwned (delete cell.key c.entries)
                (λ k n. lookup-delete cell.key k c.entries ∙ rw n refl);
          unique = unique-set c.reservations r cell at_r v.unique;
        }))

pub complete_queued-IsValid :
    (r : Option ℕ) (message_id : String) (now : Time) (c : IdempotencyCache)
    → IsValid c
    → IsValid (complete_queued r message_id now c).1
unfolding complete_queued
complete_queued-IsValid none message_id now c v = v
complete_queued-IsValid (some r) message_id now c v = elim (Bool-cases (message_id == "")) [
  | inl b ↦ rw (b, complete_queued) v
  | inr b ↦ elim (Option-cases (get_elem? c.reservations r)) [
    | inl g ↦ rw (b, complete_queued) (rw (g, complete_queued) v)
    | inr (cell, g) ↦ elim (Bool-cases cell.used) [
      | inl u ↦ rw (b, complete_queued) (rw (g, complete_queued) (rw u v))
      | inr u ↦
          rw (b, complete_queued)
            (rw (g, complete_queued) (rw u (complete_unused-IsValid r cell c v g u message_id now)))
    ]
  ]
]

release-IsValid : (r : Option ℕ) (c : IdempotencyCache) → IsValid c → IsValid (release r c)
unfolding release
release-IsValid none c v = v
release-IsValid (some r) c v = elim (Option-cases (get_elem? c.reservations r)) [
  | inl g ↦ rw (g, release) v
  | inr (cell, g) ↦ elim (Bool-cases cell.used) [
    | inl u ↦ rw (g, release) (rw u v)
    | inr u ↦ rw (g, release) (rw u (release_unused-IsValid r cell c v g u))
  ]
]

pub step-IsValid : (c : IdempotencyCache) (x : Call) → IsValid c → IsValid (step c x)
unfolding step
step-IsValid c (checks key fingerprint now) v = check-IsValid key fingerprint now c v
step-IsValid c (reserves key fingerprint now) v = reserve-IsValid key fingerprint now c v
step-IsValid c (marks key fingerprint message_id now) v =
    mark_queued-IsValid key fingerprint message_id now c v
step-IsValid c (completes r message_id now) v = complete_queued-IsValid r message_id now c v
step-IsValid c (releases r) v = release-IsValid r c v

-- Every history keeps the cache within its capacity, with no key twice, and every open reservation
-- the sole owner of a pending entry.
pub history-IsValid : (c : IdempotencyCache) (xs : List Call) → IsValid c → IsValid (run c xs)
unfolding run
history-IsValid c [] v = v
history-IsValid c (x ∷ xs) v = history-IsValid (step c x) xs (step-IsValid c x v)

pub new_idempotency_cache-IsValid :
    (capacity ttl : ℤ) (c : IdempotencyCache)
    → new_idempotency_cache capacity ttl ≡ ok c
    → IsValid c
unfolding new_idempotency_cache
new_idempotency_cache-IsValid capacity ttl c h = ground arith
