-- ===== src/Lite/Idempotency/Storing.antt =====
-- Check, Reserve and MarkQueued keep the invariant.
use mux_mail.Prelude.{
  ◌+◌, ◌≤◌, ◌≡◌, ◌∙◌, ◌⊎◌, refl, sym, subst, String, true, false, Option, none, some, arith, length,
  ◌==◌, string_eq, if◌then◌else◌, Bool-cases, Option-cases, inl, inr, All-append, beq_refl,
}
use mux_mail.Prelude.Assoc.{
  lookup, insert, delete, Distinct, lookup-delete, delete-Distinct, length-delete-lt, lookup-insert,
  insert-Distinct, length-insert_new, length-insert_old,
}
use mux_mail.Lite.Time.{Time}
use mux_mail.Lite.Idempotency.{
  IdempotencyKey, key_eq, IdempotencyEntry, is_pending, Entries, IdempotencyCache, ok,
  delete_expired, evict_overflow_except_pending, check, pending_entry, queued_entry,
  settle_reservation, reserve, mark_refused, settle_mark, store_mark, mark_queued,
}
use mux_mail.Lite.Idempotency.Eviction.{Evicts, evict-cases, evict_overflow_within}
use mux_mail.Lite.Idempotency.Invariant.{
  IsValid, IsOwned, HasPending, Keeps, IsOwned-after, Evicts-Keeps, insert-Keeps,
  delete_expired-IsValid, unique-append,
}

settle_mark_kept :
    (key : IdempotencyKey) (previous : Option IdempotencyEntry) (m : Entries) (e : IdempotencyEntry)
    (c : IdempotencyCache)
    → lookup key m ≡ some e
    → settle_mark key previous (true, m) c ≡ (ok tt, record c { entries = m })
unfolding settle_mark
settle_mark_kept key previous m e c l = rw (l, settle_mark)

module _ (key : IdempotencyKey) (c : IdempotencyCache) (v : IsValid c)
    (gone : lookup key c.entries ≡ none) (e : IdempotencyEntry) where
  stored : Entries
  stored = insert key e c.entries

  stored-Distinct : Distinct stored
  unfolding stored
  stored-Distinct = insert-Distinct key e c.entries v.distinct

  stored-length : length stored ≤ c.limit + 1
  unfolding stored
  stored-length = omega (arith, length-insert_new key e c.entries gone, v.within)

  stored-Keeps : Keeps c.entries stored
  unfolding stored
  stored-Keeps = insert-Keeps key e c.entries (λ x l. absurd (ground (arith, l, gone)))

  stored-lookup : lookup key stored ≡ some e
  unfolding stored
  stored-lookup = lookup-insert key key e c.entries ∙ rw (beq_refl key) refl

  -- A key that had no entry is no open reservation's.
  deleted-Keeps : Keeps c.entries (delete key stored)
  unfolding stored
  deleted-Keeps k (x, l, p) =
      (x, lookup-delete key k (insert key e c.entries) ∙ other (Bool-cases (key == k)), p)
    where
      other :
          (((key == k) ≡ true) ⊎ ((key == k) ≡ false))
          → (if key == k then none else lookup k (insert key e c.entries)) ≡ some x
      other (inr n) = rw n (lookup-insert key k e c.entries ∙ rw n l)
      other (inl n) = absurd (
          ground (
            arith,
            subst (λ j. lookup j c.entries ≡ some x) (sym ((key_eq.beq_iff key k).0 n)) l,
            gone,
          ))

  deleted-IsValid : IsValid (record c { entries = delete key stored })
  deleted-IsValid = record {
    distinct = delete-Distinct key stored stored-Distinct;
    within = omega (arith, length-delete-lt key e stored stored-lookup, stored-length);
    owned = IsOwned-after c.entries (delete key stored) c.reservations deleted-Keeps v.owned;
    unique = v.unique;
  }

  kept-IsValid :
      (m : Entries) → Evicts stored m → length m ≤ c.limit → IsValid (record c { entries = m })
  kept-IsValid m s w = record {
    distinct = s.distinct;
    within = w;
    owned =
        IsOwned-after stored m c.reservations (Evicts-Keeps stored m s)
          (IsOwned-after c.entries stored c.reservations stored-Keeps v.owned);
    unique = v.unique;
  }

  settled-IsValid :
      (m : Entries)
      → IsValid (record c { entries = m })
      → HasPending m key
      → IsValid (settle_reservation key (true, m) c).1
  unfolding settle_reservation
  settled-IsValid m w (x, l, q) =
      rw (l, settle_reservation)
        (record {
          distinct = w.distinct;
          within = w.within;
          owned = All-append (IsOwned m) c.reservations _ w.owned (inr (x, l, q), tt);
          unique = unique-append c.entries key c.reservations gone v.owned v.unique;
        })

  reserve_new-IsValid :
      is_pending e ≡ true
      → IsValid (settle_reservation key (evict_overflow_except_pending c.limit stored) c).1
  reserve_new-IsValid p =
      evict-cases (λ r. IsValid (settle_reservation key r c).1) c.limit stored stored-Distinct
        stored-length
        (λ m s w.
          settled-IsValid m (kept-IsValid m s w) (e, s.pending_kept key e stored-lookup p, p))
        (λ _. unfold settle_reservation in deleted-IsValid)

  mark_settled-IsValid :
      (m : Entries)
      → IsValid (record c { entries = m })
      → IsValid (settle_mark key none (true, m) c).1
  unfolding settle_mark
  mark_settled-IsValid m w = elim (Option-cases (lookup key m)) [
    | inl l ↦ rw (l, settle_mark) w
    | inr (x, l) ↦ rw (l, settle_mark) w
  ]

  mark_new-IsValid :
      IsValid (settle_mark key none (evict_overflow_except_pending c.limit stored) c).1
  mark_new-IsValid =
      evict-cases (λ r. IsValid (settle_mark key none r c).1) c.limit stored stored-Distinct
        stored-length (λ m s w. mark_settled-IsValid m (kept-IsValid m s w))
        (λ _. unfold settle_mark in deleted-IsValid)

pub reserve-IsValid :
    (key : IdempotencyKey) (fingerprint : String) (now : Time) (c : IdempotencyCache)
    → IsValid c
    → IsValid (reserve key fingerprint now c).1
unfolding reserve
reserve-IsValid key fingerprint now c v =
    let c' = delete_expired now c in
    let v' = delete_expired-IsValid now c v in
    elim (Option-cases (lookup key c'.entries)) [
      | inr (e, l) ↦ rw (l, reserve) v'
      | inl l ↦
          rw (l, reserve)
            (unfold stored in reserve_new-IsValid key c' v' l (pending_entry fingerprint now) refl)
    ]

pub check-IsValid :
    (key : IdempotencyKey) (fingerprint : String) (now : Time) (c : IdempotencyCache)
    → IsValid c
    → IsValid (check key fingerprint now c).1
unfolding check
check-IsValid key fingerprint now c v =
    let v' = delete_expired-IsValid now c v in
    elim (Option-cases (lookup key (delete_expired now c).entries)) [
      | inr (e, l) ↦ rw (l, check) v'
      | inl l ↦ rw (l, check) v'
    ]

-- MarkQueued over an entry that is queued: no eviction is needed, and the new entry stays.
mark_over-IsValid :
    (key : IdempotencyKey) (e x : IdempotencyEntry) (c : IdempotencyCache)
    → IsValid c
    → lookup key c.entries ≡ some x
    → is_pending x ≡ false
    → IsValid
        (settle_mark key
          (some x)
          (evict_overflow_except_pending c.limit (insert key e c.entries))
          c).1
mark_over-IsValid key e x c v l q =
    let m = insert key e c.entries in
    let d = insert-Distinct key e c.entries v.distinct in
    let size = length-insert_old key e x c.entries l in
    let keeps = insert-Keeps key e c.entries (λ y h. ground (arith, l, h, q)) in
    let found : lookup key m ≡ some e =
      lookup-insert key key e c.entries ∙ rw (beq_refl key) refl in
    rw (evict_overflow_within c.limit m (omega (arith, size, v.within))) (
      rw (settle_mark_kept key (some x) m e c found) (record {
        distinct = d;
        within = omega (arith, size, v.within);
        owned = IsOwned-after c.entries m c.reservations keeps v.owned;
        unique = v.unique;
      }))

mark_refused-pending :
    (x : IdempotencyEntry) (fingerprint message_id : String)
    → mark_refused x fingerprint message_id ≡ none
    → is_pending x ≡ false
unfolding mark_refused
mark_refused-pending x fingerprint message_id h = ground arith

pub mark_queued-IsValid :
    (key : IdempotencyKey) (fingerprint message_id : String) (now : Time) (c : IdempotencyCache)
    → IsValid c
    → IsValid (mark_queued key fingerprint message_id now c).1
unfolding mark_queued store_mark
mark_queued-IsValid key fingerprint message_id now c v =
    let c' = delete_expired now c in
    let v' = delete_expired-IsValid now c v in
    let e = queued_entry message_id fingerprint now in
    elim (Bool-cases (message_id == "")) [
      | inl b ↦ rw (b, mark_queued) v
      | inr b ↦ elim (Option-cases (lookup key c'.entries)) [
        | inl l ↦
            rw (b, mark_queued)
              (rw (l, mark_queued)
                (rw (l, store_mark) (unfold stored in mark_new-IsValid key c' v' l e)))
        | inr (x, l) ↦ elim (Option-cases (mark_refused x fingerprint message_id)) [
          | inr (r, f) ↦ rw (b, mark_queued) (rw (l, mark_queued) (rw (f, mark_queued) v'))
          | inl f ↦
              rw (b, mark_queued)
                (rw (l, mark_queued)
                  (rw (f, mark_queued)
                    (rw (l, store_mark)
                      (mark_over-IsValid key e x c' v' l
                        (mark_refused-pending x fingerprint message_id f)))))
        ]
      ]
    ]
