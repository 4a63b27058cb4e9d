-- ===== src/Lite/Idempotency/Invariant.antt =====
-- What holds of the cache between two calls: it is within its capacity, and every open reservation
-- owns the pending entry of its key, which no other open reservation shares.
use mux_mail.Prelude.{
  ◌≤◌, ◌≡◌, ◌∙◌, ◌⊎◌, refl, sym, subst, true, false, none, some, List, [], ◌∷◌, ◌++◌, arith, length,
  ◌==◌, string_eq, Bool-cases, inl, inr, All, All-mono, All-append,
}
use mux_mail.Prelude.Assoc.{
  lookup, insert, retain, Distinct, lookup-insert, lookup-retain, retain-Distinct, length-retain-le,
}
use mux_mail.Lite.Time.{Time}
use mux_mail.Lite.Idempotency.{
  IdempotencyKey, key_eq, IdempotencyEntry, is_pending, Entries, ReservationCell, IdempotencyCache,
  outlives, delete_expired,
}
use mux_mail.Lite.Idempotency.Eviction.{Evicts}

abbrev pub HasPending : Entries → IdempotencyKey → Type 0
HasPending m k = (e : IdempotencyEntry) × (lookup k m ≡ some e) × (is_pending e ≡ true)

-- A reservation that is open owns a pending entry.
abbrev pub IsOwned : Entries → ReservationCell → Type 0
IsOwned m cell = (cell.used ≡ true) ⊎ HasPending m cell.key

abbrev pub ApartFrom : IdempotencyKey → ReservationCell → Type 0
ApartFrom key cell = (cell.used ≡ true) ⊎ ((key == cell.key) ≡ false)

-- Two reservations that are open have different keys.
abbrev pub HasUniqueOwners : List ReservationCell → Type 0
HasUniqueOwners [] = Unit
HasUniqueOwners (cell ∷ rest) =
    ((cell.used ≡ true) ⊎ All (ApartFrom cell.key) rest) × HasUniqueOwners rest

pub record IsValid (c : IdempotencyCache) : Type 0 where
  pub distinct : Distinct c.entries
  pub within : length c.entries ≤ c.limit
  pub owned : All (IsOwned c.entries) c.reservations
  pub unique : HasUniqueOwners c.reservations

-- `m'` still has every pending entry of `m`.
abbrev pub Keeps : Entries → Entries → Type 0
Keeps m m' = (k : IdempotencyKey) → HasPending m k → HasPending m' k

pub IsOwned-after :
    (m m' : Entries) (cells : List ReservationCell)
    → Keeps m m'
    → All (IsOwned m) cells
    → All (IsOwned m') cells
IsOwned-after m m' cells keeps = All-mono (IsOwned m) (λ cell o. after cell o) cells
  where
    after : (cell : ReservationCell) → IsOwned m cell → IsOwned m' cell
    after cell (inl u) = inl u
    after cell (inr p) = inr (keeps cell.key p)

pub Evicts-Keeps : (m m' : Entries) → Evicts m m' → Keeps m m'
Evicts-Keeps m m' v k (e, l, p) = (e, v.pending_kept k e l p, p)

-- An entry is put where none is pending.
pub insert-Keeps :
    (key : IdempotencyKey) (e : IdempotencyEntry) (m : Entries)
    → ((x : IdempotencyEntry) → lookup key m ≡ some x → is_pending x ≡ false)
    → Keeps m (insert key e m)
insert-Keeps key e m free k (x, l, p) = elim (Bool-cases (key == k)) [
  | inr n ↦ (x, lookup-insert key k e m ∙ rw n l, p)
  | inl n ↦
      let same = subst (λ j. lookup j m ≡ some x) (sym ((key_eq.beq_iff key k).0 n)) l in
      absurd (ground (arith, free x same, p))
]

pub delete_expired-IsValid :
    (now : Time) (c : IdempotencyCache) → IsValid c → IsValid (delete_expired now c)
unfolding delete_expired
delete_expired-IsValid now c v = record {
  distinct = retain-Distinct (outlives c.ttl now) c.entries v.distinct;
  within = omega (arith, length-retain-le (outlives c.ttl now) c.entries, v.within);
  owned = IsOwned-after c.entries _ c.reservations kept v.owned;
  unique = v.unique;
}
  where
    kept : Keeps c.entries (retain (outlives c.ttl now) c.entries)
    kept k (e, l, p) =
        (e, lookup-retain (outlives c.ttl now) k c.entries v.distinct ∙ rw l (rw p refl), p)

-- A new reservation of a key that has no entry.
pub unique-append :
    (m : Entries) (key : IdempotencyKey) (cells : List ReservationCell)
    → lookup key m ≡ none
    → All (IsOwned m) cells
    → HasUniqueOwners cells
    → HasUniqueOwners (cells ++ record { key = key; used = false } ∷ [])
unique-append m key [] l o u = (inr tt, tt)
unique-append m key (cell ∷ rest) l o u = (head o.0 u.0, unique-append m key rest l o.1 u.1)
  where
    head :
        IsOwned m cell
        → (cell.used ≡ true) ⊎ All (ApartFrom cell.key) rest
        → (cell.used ≡ true)
          ⊎ All (ApartFrom cell.key) (rest ++ record { key = key; used = false } ∷ [])
    head (inl d) a = inl d
    head (inr p) (inl d) = inl d
    head (inr (e, h, p)) (inr a) =
        inr (
          All-append (ApartFrom cell.key) rest _ a (inr (apart (Bool-cases (cell.key == key))), tt))
      where
        apart :
            (((cell.key == key) ≡ true) ⊎ ((cell.key == key) ≡ false)) → (cell.key == key) ≡ false
        apart (inr n) = n
        apart (inl n) = absurd (
            ground
              (arith, subst (λ j. lookup j m ≡ some e) ((key_eq.beq_iff cell.key key).0 n) h, l))
