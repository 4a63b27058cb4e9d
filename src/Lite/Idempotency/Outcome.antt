-- ===== src/Lite/Idempotency/Outcome.antt =====
-- What a client sees of one key: while a reservation is open, and after it has been completed.
use mux_mail.Prelude.{
  ℕ, ◌+◌, ◌<◌, ◌≡◌, ◌∙◌, refl, String, true, false, some, arith, get_elem?, ◌==◌, string_eq, ltb,
  lt→ltb, beq_refl, if◌then◌else◌,
}
use mux_mail.Prelude.Assoc.{lookup, lookup-insert, lookup-retain}
use mux_mail.Lite.Time.{Time}
use mux_mail.Lite.Idempotency.{
  IdempotencyKey, key_eq, IdempotencyEntry, ReservationCell, IdempotencyCache, ok, err,
  idempotency_conflict, outlives, delete_expired, decide_existing, as_reserved, reserve,
  complete_queued, complete_unused, replayed, queued, is_pending,
}
use mux_mail.Lite.Idempotency.Invariant.{IsValid}
use mux_mail.Lite.Idempotency.Ownership.{owns, complete_unused_ok, complete_queued-IsValid}

-- What Reserve answers on an entry that is there and has not expired.
reserve_existing :
    (key : IdempotencyKey) (fingerprint : String) (now : Time) (c : IdempotencyCache)
    (e : IdempotencyEntry)
    → IsValid c
    → lookup key c.entries ≡ some e
    → outlives c.ttl now e ≡ true
    → (reserve key fingerprint now c).0 ≡ as_reserved (decide_existing e fingerprint)
unfolding reserve
reserve_existing key fingerprint now c e v l o =
    let found : lookup key (delete_expired now c).entries ≡ some e =
      unfold delete_expired in
      lookup-retain (outlives c.ttl now) key c.entries v.distinct ∙ rw l (rw o refl) in
    rw (found, reserve) refl

module _ (r : ℕ) (cell : ReservationCell) (c : IdempotencyCache) (v : IsValid c)
    (at_r : get_elem? c.reservations r ≡ some cell) (unused : cell.used ≡ false) where
  -- While a reservation is open, a Reserve of its key is a conflict, with any fingerprint, at any time.
  pub open_conflicts :
      (fingerprint : String) (now : Time)
      → (reserve cell.key fingerprint now c).0 ≡ err idempotency_conflict
  unfolding decide_existing
  open_conflicts fingerprint now =
      let (e, l, p) = owns r cell c v at_r unused in
      reserve_existing cell.key fingerprint now c e v l (rw p refl) ∙ ground (arith, p)

  -- An open reservation completes, with any message ID that is not empty: its entry has neither
  -- expired nor been evicted.
  pub open_completes :
      (message_id : String) (now : Time)
      → (message_id == "") ≡ false
      → (complete_queued (some r) message_id now c).0 ≡ ok tt
  unfolding complete_queued
  open_completes message_id now b =
      rw (b, complete_queued)
        (rw (at_r, complete_queued)
          (rw unused (complete_unused_ok r cell c v at_r unused message_id now)))

  completed_entry :
      (message_id : String) (past : Time) (e : IdempotencyEntry)
      → (message_id == "") ≡ false
      → lookup cell.key c.entries ≡ some e
      → is_pending e ≡ true
      → lookup cell.key (complete_queued (some r) message_id past c).1.entries
        ≡ some (record e { message_id = message_id; status = queued; created_at = past })
  unfolding complete_queued complete_unused
  completed_entry message_id past e b l p =
      let x = record e { message_id = message_id; status = queued; created_at = past } in
      rw (b, complete_queued)
        (rw (at_r, complete_queued)
          (rw unused (
            rw (l, complete_unused)
              (rw p (lookup-insert cell.key cell.key x c.entries ∙ rw (beq_refl cell.key) refl)))))

  ttl_complete :
      (message_id : String) (now : Time) → (complete_queued (some r) message_id now c).1.ttl ≡ c.ttl
  unfolding complete_queued complete_unused
  ttl_complete message_id now = ground arith

  -- Right after an open reservation has been completed with a message ID, with no other call in
  -- between, a Reserve of its key before the TTL is over replays that message ID if it has the
  -- fingerprint of the reservation's request, and is a conflict if it has another.
  pub replay_after_complete :
      (message_id fingerprint : String) (past now : Time) (e : IdempotencyEntry)
      → (message_id == "") ≡ false
      → lookup cell.key c.entries ≡ some e
      → now < past + c.ttl
      → (reserve cell.key fingerprint now (complete_queued (some r) message_id past c).1).0 ≡ (
          if e.request_fingerprint == fingerprint
          then ok (replayed message_id queued)
          else err idempotency_conflict)
  unfolding decide_existing
  replay_after_complete message_id fingerprint past now e b l h =
      let (x, k, p) = owns r cell c v at_r unused in
      let same : is_pending e ≡ true = ground (arith, l, k, p) in
      let c' = (complete_queued (some r) message_id past c).1 in
      let live : ltb now (past + c'.ttl) ≡ true =
        rw (ttl_complete message_id past) (lt→ltb now (past + c.ttl) h) in
      reserve_existing cell.key fingerprint now c' _
        (complete_queued-IsValid (some r) message_id past c v)
        (completed_entry message_id past e b l same) live
      ∙ ground arith
