-- ===== src/Lite/Idempotency.antt =====
-- internal/lite/idempotency_cache.go. Each operation runs under the cache's mutex; `now` is what
-- c.now() returned. A reservation is a pointer, `none` for nil, to a cell of `reservations`.
pub mod History
pub mod Eviction
pub mod Invariant
pub mod Storing
pub mod Ownership
pub mod Outcome
use Prim.Native.Nat.{Ordering}
use Prim.Native.String.{compare}
use mux_mail.Prelude.{
  ℕ, zero, suc, ◌+◌, ◌≡◌, ◌↔◌, String, Bool, true, false, ◌&&◌, ◌||◌, not, Option, none, some, List,
  [], ◌∷◌, ◌++◌, arith, length, set, get_elem?, leb, ltb, eq_iff, ◌==◌, nat_eq, string_eq, Equality,
  if◌then◌else◌,
}
use mux_mail.Prelude.Assoc.{Assoc, lookup, insert, delete, retain}
use mux_mail.Prelude.Int.{ℤ, pos, negsuc, pos_part, leb_ℤ}
use mux_mail.Lite.Time.{Time}

pub data IdempotencyStatus : Type 0 where
  queued pending : IdempotencyStatus

pub record IdempotencyKey : Type 0 where
  pub app_code : String
  pub scene_code : String
  pub idempotency_hash : String

unfoldable pub key_beq : IdempotencyKey → IdempotencyKey → Bool
key_beq a b =
    a.app_code == b.app_code
    && a.scene_code == b.scene_code
    && a.idempotency_hash == b.idempotency_hash

pub key_beq_iff : (a b : IdempotencyKey) → (key_beq a b ≡ true) ↔ (a ≡ b)
unfolding key_beq
key_beq_iff a b = ground (
  arith,
  eq_iff a.app_code b.app_code,
  eq_iff a.scene_code b.scene_code,
  eq_iff a.idempotency_hash b.idempotency_hash,
)

instance abbrev pub key_eq : Equality IdempotencyKey
key_eq = record { beq = key_beq; beq_iff = key_beq_iff }

pub record IdempotencyEntry : Type 0 where
  pub message_id : String
  pub request_fingerprint : String
  pub status : IdempotencyStatus
  pub created_at : Time

abbrev pub is_pending : IdempotencyEntry → Bool
is_pending e = elim e.status [ pending ↦ true | queued ↦ false ]

abbrev pub Entries : Type 0
Entries = Assoc IdempotencyKey IdempotencyEntry

-- What an IdempotencyReservation points to.
pub record ReservationCell : Type 0 where
  pub key : IdempotencyKey
  pub used : Bool

pub record IdempotencyCache : Type 0 where
  pub ttl : ℕ
  pub limit : ℕ
  pub entries : Entries
  pub reservations : List ReservationCell

pub data IdempotencyError : Type 0 where
  idempotency_conflict capacity_full evicted_before_completion message_id_required :
      IdempotencyError
  already_queued reservation_required reservation_already_used no_longer_pending : IdempotencyError
  capacity_not_positive ttl_not_positive : IdempotencyError

pub data Result (A : Type 0) : Type 0 where
  ok : A → Result A
  err : IdempotencyError → Result A

-- IdempotencyDecision: IdempotencyDecisionNew, or IdempotencyDecisionReplay with the message ID and
-- the status.
pub data IdempotencyDecision : Type 0 where
  new : IdempotencyDecision
  replay : String → IdempotencyStatus → IdempotencyDecision

-- What Reserve returns with no error: a reservation beside IdempotencyDecisionNew, or a nil
-- reservation beside a replay.
pub data Reserved : Type 0 where
  reserved : ℕ → Reserved
  replayed : String → IdempotencyStatus → Reserved

-- NewIdempotencyCache
unfoldable pub new_idempotency_cache : ℤ → ℤ → Result IdempotencyCache
new_idempotency_cache capacity ttl =
    if leb_ℤ capacity (pos 0)
    then err capacity_not_positive
    else if leb_ℤ ttl (pos 0)
    then err ttl_not_positive
    else ok
        (record { ttl = pos_part ttl; limit = pos_part capacity; entries = []; reservations = [] })

-- `continue` for a pending entry, else deleted unless `CreatedAt.After(now.Add(-ttl))`.
abbrev pub outlives : ℕ → Time → IdempotencyEntry → Bool
outlives ttl now e = if is_pending e then true else ltb now (e.created_at + ttl)

-- deleteExpired
unfoldable pub delete_expired : Time → IdempotencyCache → IdempotencyCache
delete_expired now c = record c { entries = retain (outlives c.ttl now) c.entries }

-- left < right on strings
abbrev string_less : String → String → Bool
string_less a b = elim (compare a b) [ Ordering.lt ↦ true | _ ↦ false ]

-- idempotencyKeyLess
unfoldable pub idempotency_key_less : IdempotencyKey → IdempotencyKey → Bool
idempotency_key_less a b =
    if not (a.app_code == b.app_code)
    then string_less a.app_code b.app_code
    else if not (a.scene_code == b.scene_code)
    then string_less a.scene_code b.scene_code
    else string_less a.idempotency_hash b.idempotency_hash

-- The test of the eviction loop: `(key, entry)` goes before the oldest found so far.
unfoldable pub is_older :
    IdempotencyKey × IdempotencyEntry → IdempotencyKey × IdempotencyEntry → Bool
unfolding idempotency_key_less
is_older a b =
    ltb (a.1).created_at (b.1).created_at
    || ((a.1).created_at == (b.1).created_at && idempotency_key_less a.0 b.0)

abbrev pub better :
    Option (IdempotencyKey × IdempotencyEntry)
    → IdempotencyKey × IdempotencyEntry
    → IdempotencyKey × IdempotencyEntry
better none a = a
better (some b) a = if is_older a b then a else b

-- The scan for the oldest entry that is not pending.
unfoldable pub find_oldest :
    Entries
    → Option (IdempotencyKey × IdempotencyEntry)
    → Option (IdempotencyKey × IdempotencyEntry)
find_oldest [] found = found
find_oldest ((k, e) ∷ rest) found =
    find_oldest rest (if is_pending e then found else some (better found (k, e)))

-- evictOverflowExceptPending. Each round deletes an entry, so the number of entries is enough fuel.
unfoldable pub evict_rounds : ℕ → ℕ → Entries → Bool × Entries
evict_rounds zero limit m = (true, m)
evict_rounds (suc fuel) limit m =
    if leb (length m) limit then (true, m) else elim (find_oldest m none) [
      | none ↦ (false, m)
      | some (k, e) ↦ evict_rounds fuel limit (delete k m)
    ]

unfoldable pub evict_overflow_except_pending : ℕ → Entries → Bool × Entries
evict_overflow_except_pending limit m = evict_rounds (length m) limit m

-- The decision on an entry that is there, in Check and in Reserve.
unfoldable pub decide_existing : IdempotencyEntry → String → Result IdempotencyDecision
decide_existing e fingerprint =
    if not (e.request_fingerprint == fingerprint) then err idempotency_conflict else elim e.status [
      | pending ↦ err idempotency_conflict
      | queued ↦ ok (replay e.message_id e.status)
    ]

-- Check
unfoldable pub check :
    IdempotencyKey
    → String
    → Time
    → IdempotencyCache
    → Result IdempotencyDecision × IdempotencyCache
check key fingerprint now c =
    let c' = delete_expired now c in
    elim (lookup key c'.entries) [
      | none ↦ (ok new, c')
      | some e ↦ (decide_existing e fingerprint, c')
    ]

abbrev pub pending_entry : String → Time → IdempotencyEntry
pending_entry fingerprint now = record {
  message_id = "";
  request_fingerprint = fingerprint;
  status = pending;
  created_at = now;
}

abbrev pub queued_entry : String → String → Time → IdempotencyEntry
queued_entry message_id fingerprint now = record {
  message_id = message_id;
  request_fingerprint = fingerprint;
  status = queued;
  created_at = now;
}

-- The end of Reserve, after the eviction.
unfoldable pub settle_reservation :
    IdempotencyKey → Bool × Entries → IdempotencyCache → Result Reserved × IdempotencyCache
settle_reservation key (false, m) c = (err capacity_full, record c { entries = delete key m })
settle_reservation key (true, m) c = elim (lookup key m) [
  | none ↦ (err evicted_before_completion, record c { entries = m })
  | some e ↦ (
    ok (reserved (length c.reservations)),
    record c {
      entries = m;
      reservations = c.reservations ++ record { key = key; used = false } ∷ [];
    },
  )
]

abbrev pub as_reserved : Result IdempotencyDecision → Result Reserved
as_reserved (err e) = err e
as_reserved (ok (replay message_id status)) = ok (replayed message_id status)
-- no decision on an entry is `new`
as_reserved (ok new) = err idempotency_conflict

-- Reserve
unfoldable pub reserve :
    IdempotencyKey → String → Time → IdempotencyCache → Result Reserved × IdempotencyCache
reserve key fingerprint now c =
    let c' = delete_expired now c in
    elim (lookup key c'.entries) [
      | some e ↦ (as_reserved (decide_existing e fingerprint), c')
      | none ↦
          settle_reservation key
            (evict_overflow_except_pending c'.limit
              (insert key (pending_entry fingerprint now) c'.entries))
            c'
    ]

-- The checks of MarkQueued on an entry that is there.
unfoldable pub mark_refused : IdempotencyEntry → String → String → Option IdempotencyError
mark_refused e fingerprint message_id =
    if not (e.request_fingerprint == fingerprint)
    then some idempotency_conflict
    else if is_pending e
    then some idempotency_conflict
    else if not (e.message_id == "") && not (e.message_id == message_id)
    then some already_queued
    else none

-- `if hadPrevious { c.entries[key] = previous }`, with the entries otherwise as `otherwise` says.
abbrev pub restore : IdempotencyKey → Option IdempotencyEntry → Entries → Entries → Entries
restore key none otherwise m = otherwise
restore key (some previous) otherwise m = insert key previous m

-- The end of MarkQueued, after the eviction.
unfoldable pub settle_mark :
    IdempotencyKey
    → Option IdempotencyEntry
    → Bool × Entries
    → IdempotencyCache
    → Result (Unit {0}) × IdempotencyCache
settle_mark key previous (false, m) c =
    (err capacity_full, record c { entries = restore key previous (delete key m) m })
settle_mark key previous (true, m) c = elim (lookup key m) [
  | none ↦ (err evicted_before_completion, record c { entries = restore key previous m m })
  | some e ↦ (ok tt, record c { entries = m })
]

unfoldable pub store_mark :
    IdempotencyKey
    → String
    → String
    → Time
    → IdempotencyCache
    → Result (Unit {0}) × IdempotencyCache
store_mark key fingerprint message_id now c =
    settle_mark key (lookup key c.entries)
      (evict_overflow_except_pending c.limit
        (insert key (queued_entry message_id fingerprint now) c.entries))
      c

-- MarkQueued
unfoldable pub mark_queued :
    IdempotencyKey
    → String
    → String
    → Time
    → IdempotencyCache
    → Result (Unit {0}) × IdempotencyCache
mark_queued key fingerprint message_id now c =
    let c' = delete_expired now c in
    let store = store_mark key fingerprint message_id now c' in
    if message_id == "" then (err message_id_required, c) else elim (lookup key c'.entries) [
      | none ↦ store
      | some e ↦ elim (mark_refused e fingerprint message_id) [
        | some refusal ↦ (err refusal, c')
        | none ↦ store
      ]
    ]

abbrev pub use_cell : ℕ → ReservationCell → IdempotencyCache → IdempotencyCache
use_cell r cell c = record c { reservations = set c.reservations r (record cell { used = true }) }

-- CompleteQueued after its check of `r.used`.
unfoldable pub complete_unused :
    IdempotencyKey → String → Time → IdempotencyCache → Result (Unit {0}) × IdempotencyCache
complete_unused key message_id now c = elim (lookup key c.entries) [
  | none ↦ (err no_longer_pending, c)
  | some e ↦
      if is_pending e
      then (
        ok tt,
        record c {
          entries =
              insert key (record e { message_id = message_id; status = queued; created_at = now })
                c.entries;
        },
      )
      else (err no_longer_pending, c)
]

-- CompleteQueued
unfoldable pub complete_queued :
    Option ℕ → String → Time → IdempotencyCache → Result (Unit {0}) × IdempotencyCache
complete_queued none message_id now c = (err reservation_required, c)
complete_queued (some r) message_id now c =
    if message_id == "" then (err message_id_required, c) else elim (get_elem? c.reservations r) [
      | none ↦ (err reservation_required, c)
      | some cell ↦
          if cell.used
          then (err reservation_already_used, c)
          else complete_unused cell.key message_id now (use_cell r cell c)
    ]

unfoldable pub release_unused : IdempotencyKey → IdempotencyCache → IdempotencyCache
release_unused key c = elim (lookup key c.entries) [
  | none ↦ c
  | some e ↦ if is_pending e then record c { entries = delete key c.entries } else c
]

-- Release
unfoldable pub release : Option ℕ → IdempotencyCache → IdempotencyCache
release none c = c
release (some r) c = elim (get_elem? c.reservations r) [
  | none ↦ c
  | some cell ↦ if cell.used then c else release_unused cell.key (use_cell r cell c)
]
