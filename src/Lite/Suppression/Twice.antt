-- ===== src/Lite/Suppression/Twice.antt =====
-- An Add that has succeeded changes nothing when it is repeated.
use mux_mail.Prelude.{
  ◌≡◌, refl, sym, ap, ◌∙◌, inl, inr, String, Bool, true, false, ◌&&◌, Option, none, some, ◌==◌,
  runes_eq, string_eq, beq_refl, Bool-cases, Option-cases,
}
use mux_mail.Prelude.Assoc.{lookup, insert, delete, lookup-insert}
use mux_mail.Domain.Constants.{SuppressionReason}
use mux_mail.Domain.Types.{Runes, SuppressionEntry}
use mux_mail.Lite.Suppression.{
  SuppressionEntries, SuppressionError, AddResult, added, refused, Checked, normalized, invalid,
  not_persisted, suppression_key, same_reason, upgrades, check_entry, persist_or_undo, store_entry,
  add,
}

same_reason_refl : (r : SuppressionReason) → same_reason r r ≡ true
same_reason_refl SuppressionReason.hard_bounce = refl
same_reason_refl SuppressionReason.complaint = refl
same_reason_refl SuppressionReason.manual = refl
same_reason_refl (SuppressionReason.other s) = beq_refl s

module _ (parse_address : Runes → Option Runes) (persist : SuppressionEntries → Option String) where
  -- The three ways in which a checked entry ends.
  data Stored (entry : SuppressionEntry) (m : SuppressionEntries)
      : AddResult × SuppressionEntries → Type 0 where
    left_alone :
        store_entry parse_address persist entry m ≡ (added false, m)
        → Stored entry m (added false, m)
    stored :
        Stored entry m
          (added true, insert (suppression_key entry.app_code entry.normalized_email) entry m)
    not_stored : (e : SuppressionError) (m' : SuppressionEntries) → Stored entry m (refused e, m')

  persisted :
      (entry : SuppressionEntry) (m undone : SuppressionEntries)
      → Stored entry m (
          persist_or_undo parse_address persist
            (insert (suppression_key entry.app_code entry.normalized_email) entry m)
            undone)
  unfolding persist_or_undo
  persisted entry m undone =
      by_persist (persist (insert (suppression_key entry.app_code entry.normalized_email) entry m))
    where
      by_persist :
          (p : Option String)
          → Stored entry m (elim p [
            | none ↦
                (added true, insert (suppression_key entry.app_code entry.normalized_email) entry m)
            | some e ↦ (refused (not_persisted e), undone)
          ])
      by_persist none = stored
      by_persist (some e) = not_stored (not_persisted e) undone

  store_entry-Stored :
      (entry : SuppressionEntry) (m : SuppressionEntries)
      → Stored entry m (store_entry parse_address persist entry m)
  unfolding store_entry
  store_entry-Stored entry m =
      let key = suppression_key entry.app_code entry.normalized_email in
      elim (Option-cases (lookup key m)) [
        | inl n ↦ rw (n, store_entry) (persisted entry m (delete key (insert key entry m)))
        | inr (existing, s) ↦
            elim (Bool-cases
              (same_reason existing.reason entry.reason && existing.email == entry.email)) [
                | inl same ↦ rw (s, same, store_entry) (left_alone (rw (s, same, store_entry) refl))
                | inr other ↦ elim (Bool-cases (upgrades existing.reason entry.reason)) [
                  | inl up ↦
                      rw (s, other, up, store_entry)
                        (persisted entry m (insert key existing (insert key entry m)))
                  | inr kept ↦
                      rw (s, other, kept, store_entry)
                        (left_alone (rw (s, other, kept, store_entry) refl))
                ]
              ]
      ]

  stored_again :
      (entry : SuppressionEntry) (m : SuppressionEntries)
      → store_entry parse_address persist entry
          (insert (suppression_key entry.app_code entry.normalized_email) entry m)
        ≡ (added false, insert (suppression_key entry.app_code entry.normalized_email) entry m)
  unfolding store_entry
  stored_again entry m =
      let key = suppression_key entry.app_code entry.normalized_email in
      let found : lookup key (insert key entry m) ≡ some entry =
        lookup-insert key key entry m ∙ rw (beq_refl key) refl in
      rw (found, store_entry, same_reason_refl entry.reason, beq_refl entry.email) refl

  store_entry_twice :
      (entry : SuppressionEntry) (m : SuppressionEntries) (b : Bool)
      → (store_entry parse_address persist entry m).0 ≡ added b
      → store_entry parse_address persist entry (store_entry parse_address persist entry m).1
        ≡ (added false, (store_entry parse_address persist entry m).1)
  store_entry_twice entry m b h = by_end (store_entry-Stored entry m) h
    where
      by_end :
          {p : AddResult × SuppressionEntries}
          → Stored entry m p
          → p.0 ≡ added b
          → store_entry parse_address persist entry p.1 ≡ (added false, p.1)
      by_end (left_alone e) d = e
      by_end stored d = stored_again entry m
      by_end (not_stored e m') d = absurd (cc d)

  add_normalized :
      (entry x : SuppressionEntry) (m : SuppressionEntries)
      → check_entry parse_address persist entry ≡ normalized x
      → add parse_address persist entry m ≡ store_entry parse_address persist x m
  unfolding add
  add_normalized entry x m e = rw (e, add) refl

  pub add_invalid :
      (entry : SuppressionEntry) (x : SuppressionError) (m : SuppressionEntries)
      → check_entry parse_address persist entry ≡ invalid x
      → add parse_address persist entry m ≡ (refused x, m)
  unfolding add
  add_invalid entry x m e = rw (e, add) refl

  -- After an Add that has succeeded, the same Add changes nothing and says so.
  pub add_twice :
      (entry : SuppressionEntry) (m : SuppressionEntries) (b : Bool)
      → (add parse_address persist entry m).0 ≡ added b
      → add parse_address persist entry (add parse_address persist entry m).1
        ≡ (added false, (add parse_address persist entry m).1)
  add_twice entry m b h = by_check _ refl
    where
      by_check :
          (c : Checked)
          → check_entry parse_address persist entry ≡ c
          → add parse_address persist entry (add parse_address persist entry m).1
            ≡ (added false, (add parse_address persist entry m).1)
      by_check (invalid x) e = absurd (cc (ap (λ p. p.0) (add_invalid entry x m e), h))
      by_check (normalized x) e =
          let once = add_normalized entry x m e in
          add_normalized entry x (add parse_address persist entry m).1 e
          ∙ ap (λ p. store_entry parse_address persist x p.1) once
          ∙ store_entry_twice x m b (sym (ap (λ p. p.0) once) ∙ h)
          ∙ ap (λ p. (added false, p.1)) (sym once)
