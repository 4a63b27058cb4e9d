-- ===== src/Lite/Suppression/Laws.antt =====
-- What Add does to the list: it takes no recipient off, and a refused one leaves the list alone.
use mux_mail.Prelude.{
  ◌≡◌, refl, sym, ap, subst, ◌∙◌, ◌⊎◌, inl, inr, String, Bool, ◌&&◌, Option, none, some, ◌==◌,
  runes_eq, beq_refl, Bool-cases, Option-cases,
}
use mux_mail.Prelude.Assoc.{lookup, insert, delete, lookup-insert, lookup-delete}
use mux_mail.Domain.Types.{Runes, SuppressionEntry}
use mux_mail.Lite.Suppression.{
  SuppressionEntries, SuppressionError, AddResult, added, refused, Checked, normalized, invalid,
  suppression_key, contains, same_reason, upgrades, check_entry, persist_or_undo, store_entry, add,
}

-- What is looked up under one key after an Add, as it was or with the new entry.
abbrev Kept : Option SuppressionEntry → AddResult → Option SuppressionEntry → Type 0
Kept before (refused e) after = after ≡ before
Kept before (added b) after = (after ≡ before) ⊎ ((x : SuppressionEntry) × (after ≡ some x))

module _ (parse_address : Runes → Option Runes) (persist : SuppressionEntries → Option String) where
  -- Undone, a change leaves every key as it was.
  persist_or_undo-Kept :
      (key k : Runes) (entry : SuppressionEntry) (m undone : SuppressionEntries)
      → lookup k undone ≡ lookup k m
      → Kept
          (lookup k m)
          (persist_or_undo parse_address persist (insert key entry m) undone).0
          (lookup k (persist_or_undo parse_address persist (insert key entry m) undone).1)
  unfolding persist_or_undo
  persist_or_undo-Kept key k entry m undone u = elim (Option-cases (persist (insert key entry m))) [
    | inr (e, p) ↦ rw (p, persist_or_undo) u
    | inl p ↦
        rw (p, persist_or_undo)
          (elim (Bool-cases (key == k)) [
            | inl e ↦ inr (entry, lookup-insert key k entry m ∙ rw e refl)
            | inr e ↦ inl (lookup-insert key k entry m ∙ rw e refl)
          ])
  ]

  undo_new :
      (key k : Runes) (entry : SuppressionEntry) (m : SuppressionEntries)
      → lookup key m ≡ none
      → lookup k (delete key (insert key entry m)) ≡ lookup k m
  undo_new key k entry m n =
      lookup-delete key k (insert key entry m) ∙ elim (Bool-cases (key == k)) [
        | inr e ↦ rw e (lookup-insert key k entry m ∙ rw e refl)
        | inl e ↦ rw e (sym n ∙ ap (λ j. lookup j m) ((runes_eq.beq_iff key k).0 e))
      ]

  undo_replaced :
      (key k : Runes) (entry existing : SuppressionEntry) (m : SuppressionEntries)
      → lookup key m ≡ some existing
      → lookup k (insert key existing (insert key entry m)) ≡ lookup k m
  undo_replaced key k entry existing m s =
      lookup-insert key k existing (insert key entry m) ∙ elim (Bool-cases (key == k)) [
        | inr e ↦ rw e (lookup-insert key k entry m ∙ rw e refl)
        | inl e ↦ rw e (sym s ∙ ap (λ j. lookup j m) ((runes_eq.beq_iff key k).0 e))
      ]

  store_entry-Kept :
      (k : Runes) (entry : SuppressionEntry) (m : SuppressionEntries)
      → Kept
          (lookup k m)
          (store_entry parse_address persist entry m).0
          (lookup k (store_entry parse_address persist entry m).1)
  unfolding store_entry
  store_entry-Kept k entry m =
      let key = suppression_key entry.app_code entry.normalized_email in
      elim (Option-cases (lookup key m)) [
        | inl n ↦
            rw (n, store_entry) (persist_or_undo-Kept key k entry m _ (undo_new key k entry m n))
        | inr (existing, s) ↦
            rw (s, store_entry)
              (elim (Bool-cases
                (same_reason existing.reason entry.reason && existing.email == entry.email)) [
                  | inl e ↦ rw e (inl refl)
                  | inr e ↦ rw e (elim (Bool-cases (upgrades existing.reason entry.reason)) [
                    | inr f ↦ rw f (inl refl)
                    | inl f ↦ rw f (
                        persist_or_undo-Kept key k entry m _
                          (undo_replaced key k entry existing m s))
                  ])
                ])
      ]

  add-Kept :
      (k : Runes) (entry : SuppressionEntry) (m : SuppressionEntries)
      → Kept
          (lookup k m)
          (add parse_address persist entry m).0
          (lookup k (add parse_address persist entry m).1)
  unfolding add
  add-Kept k entry m = by_check _ refl
    where
      by_check :
          (c : Checked)
          → check_entry parse_address persist entry ≡ c
          → Kept
              (lookup k m)
              (add parse_address persist entry m).0
              (lookup k (add parse_address persist entry m).1)
      by_check (invalid x) e = rw (e, add) refl
      by_check (normalized x) e = rw (e, add) (store_entry-Kept k x m)

  Kept-some :
      (r : AddResult) (before after : Option SuppressionEntry) (x : SuppressionEntry)
      → Kept before r after
      → before ≡ some x
      → (y : SuppressionEntry) × (after ≡ some y)
  Kept-some (refused e) before after x k h = (x, k ∙ h)
  Kept-some (added b) before after x (inl k) h = (x, k ∙ h)
  Kept-some (added b) before after x (inr (y, k)) h = (y, k)

  -- Whatever entry is added and whether this succeeds or not, a recipient who was on an app's list is
  -- still on it.
  pub add_keeps :
      (entry x : SuppressionEntry) (m : SuppressionEntries) (app_code email : Runes)
      → contains (some m) app_code email ≡ some x
      → (y : SuppressionEntry) × (contains
            (some (add parse_address persist entry m).1)
            app_code
            email
          ≡ some y)
  unfolding contains
  add_keeps entry x m app_code email h =
      Kept-some (add parse_address persist entry m).0 _ _ x
        (add-Kept (suppression_key app_code email) entry m) h

  -- An Add that returns an error, for a failed check or since the list could not be persisted, leaves
  -- what Contains finds, for every app and recipient, as it was.
  pub add_refused :
      (entry : SuppressionEntry) (m : SuppressionEntries) (e : SuppressionError)
      (app_code email : Runes)
      → (add parse_address persist entry m).0 ≡ refused e
      → contains (some (add parse_address persist entry m).1) app_code email
        ≡ contains (some m) app_code email
  unfolding contains
  add_refused entry m e app_code email h =
      subst
        (λ r.
          Kept (lookup (suppression_key app_code email) m) r
            (lookup (suppression_key app_code email) (add parse_address persist entry m).1))
        h (add-Kept (suppression_key app_code email) entry m)

  -- What is found under the key of the entry itself.
  abbrev Found : AddResult → Option SuppressionEntry → Type 0
  Found (refused e) after = Unit
  Found (added b) after = (x : SuppressionEntry) × (after ≡ some x)

  persist_or_undo-Found :
      (key : Runes) (entry : SuppressionEntry) (m undone : SuppressionEntries)
      → Found
          (persist_or_undo parse_address persist (insert key entry m) undone).0
          (lookup key (persist_or_undo parse_address persist (insert key entry m) undone).1)
  unfolding persist_or_undo
  persist_or_undo-Found key entry m undone = elim (Option-cases (persist (insert key entry m))) [
    | inr (e, p) ↦ rw (p, persist_or_undo) tt
    | inl p ↦
        rw (p, persist_or_undo) (entry, lookup-insert key key entry m ∙ rw (beq_refl key) refl)
  ]

  store_entry-Found :
      (entry : SuppressionEntry) (m : SuppressionEntries)
      → Found (store_entry parse_address persist entry m).0 (
          lookup
            (suppression_key entry.app_code entry.normalized_email)
            (store_entry parse_address persist entry m).1)
  unfolding store_entry
  store_entry-Found entry m =
      let key = suppression_key entry.app_code entry.normalized_email in
      elim (Option-cases (lookup key m)) [
        | inl n ↦ rw (n, store_entry) (persist_or_undo-Found key entry m _)
        | inr (existing, s) ↦
            rw (s, store_entry)
              (elim (Bool-cases
                (same_reason existing.reason entry.reason && existing.email == entry.email)) [
                  | inl e ↦ rw e (existing, s)
                  | inr e ↦ rw e (elim (Bool-cases (upgrades existing.reason entry.reason)) [
                    | inr f ↦ rw f (existing, s)
                    | inl f ↦ rw f (persist_or_undo-Found key entry m _)
                  ])
                ])
      ]

  -- After an Add with no error the recipient of the entry, in the form that the checks give it, is on
  -- the app's list, also when Add says that it changed nothing.
  pub add_suppresses :
      (entry checked : SuppressionEntry) (m : SuppressionEntries) (b : Bool)
      → check_entry parse_address persist entry ≡ normalized checked
      → (add parse_address persist entry m).0 ≡ added b
      → (x : SuppressionEntry) × (contains
            (some (add parse_address persist entry m).1)
            checked.app_code
            checked.normalized_email
          ≡ some x)
  unfolding contains add
  add_suppresses entry checked m b c h =
      let stored : add parse_address persist entry m ≡ store_entry parse_address persist checked m =
        rw (c, add) refl in
      let key = suppression_key checked.app_code checked.normalized_email in
      subst (λ r. Found r (lookup key (add parse_address persist entry m).1)) h
        (subst (λ p. Found p.0 (lookup key p.1)) (sym stored) (store_entry-Found checked m))
