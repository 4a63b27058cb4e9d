-- ===== src/Lite/Suppression.antt =====
-- internal/lite/suppression.go: the recipients that an app does not send to. The map is the state;
-- each operation runs under the store's lock.
pub mod Laws
pub mod Twice
use mux_mail.Prelude.{
  ℕ, ◌-◌, String, Bool, true, false, ◌&&◌, ◌||◌, not, Option, none, some, List, [], ◌∷◌, ◌++◌,
  length, ltb, leb, ◌==◌, nat_eq, string_eq, runes_eq, if◌then◌else◌,
}
use mux_mail.Prelude.Assoc.{Assoc, lookup, insert, delete}
use mux_mail.Domain.Constants.{SuppressionReason, suppression_reason_is_valid}
use mux_mail.Domain.Types.{Runes, SuppressionEntry}
use mux_mail.Domain.Email.{trim_space, normalize_addr_spec_email}

abbrev pub SuppressionEntries : Type 0
SuppressionEntries = Assoc Runes SuppressionEntry

pub data SuppressionError : Type 0 where
  app_required app_invalid email_invalid reason_invalid : SuppressionError
  not_persisted : String → SuppressionError

pub data AddResult : Type 0 where
  added : Bool → AddResult
  refused : SuppressionError → AddResult

-- The entry without its key's parts missing, or what is wrong with it.
pub data Checked : Type 0 where
  normalized : SuppressionEntry → Checked
  invalid : SuppressionError → Checked

-- The app code, a NUL and the address.
unfoldable pub suppression_key : Runes → Runes → Runes
suppression_key app_code normalized_email = app_code ++ 0 ∷ normalized_email

abbrev is_code_end : ℕ → Bool
is_code_end c = (leb b'a' c && leb c b'z') || (leb b'0' c && leb c b'9')

-- What follows the first character: at the end a letter or digit, before it also _ and -.
unfoldable pub code_rest_ok : Runes → Bool
code_rest_ok [] = true
code_rest_ok (c ∷ []) = is_code_end c
code_rest_ok (c ∷ d ∷ cs) = (is_code_end c || c == b'_' || c == b'-') && code_rest_ok (d ∷ cs)

-- ^[a-z0-9](?:[a-z0-9_-]{0,62}[a-z0-9])?$
unfoldable pub is_valid_suppression_app_code : Runes → Bool
unfolding code_rest_ok
is_valid_suppression_app_code [] = false
is_valid_suppression_app_code (c ∷ cs) = is_code_end c && leb (length cs) 63 && code_rest_ok cs

-- Contains; a nil store is `none`.
unfoldable pub contains : Option SuppressionEntries → Runes → Runes → Option SuppressionEntry
unfolding suppression_key
contains none app_code normalized_email = none
contains (some entries) app_code normalized_email =
    lookup (suppression_key app_code normalized_email) entries

abbrev pub is_blank : Runes → Bool
is_blank [] = true
is_blank (c ∷ cs) = false

abbrev pub email_source : SuppressionEntry → Runes
email_source entry =
    let email = trim_space entry.email in
    if is_blank email then trim_space entry.normalized_email else email

abbrev pub same_reason : SuppressionReason → SuppressionReason → Bool
same_reason SuppressionReason.hard_bounce SuppressionReason.hard_bounce = true
same_reason SuppressionReason.complaint SuppressionReason.complaint = true
same_reason SuppressionReason.manual SuppressionReason.manual = true
same_reason (SuppressionReason.other s) (SuppressionReason.other t) = s == t
same_reason _ _ = false

-- The one reason that another replaces.
abbrev pub upgrades : SuppressionReason → SuppressionReason → Bool
upgrades SuppressionReason.hard_bounce SuppressionReason.complaint = true
upgrades _ _ = false

-- `parse_address` is net/mail's ParseAddress. `persist` is persistLocked, with `none` for no error.
module _ (parse_address : Runes → Option Runes) (persist : SuppressionEntries → Option String) where
  -- The checks of Add, in its order.
  unfoldable pub check_entry : SuppressionEntry → Checked
  unfolding is_valid_suppression_app_code
  check_entry entry =
      let app_code = trim_space entry.app_code in
      let email = trim_space entry.email in
      let normalized_email = normalize_addr_spec_email parse_address (email_source entry) in
      if is_blank app_code
      then invalid app_required
      else if not (is_valid_suppression_app_code app_code)
      then invalid app_invalid
      else elim normalized_email [
        | none ↦ invalid email_invalid
        | some address ↦
            if not (suppression_reason_is_valid entry.reason)
            then invalid reason_invalid
            else normalized (record {
              app_code = app_code;
              email = if is_blank email then address else email;
              normalized_email = address;
              reason = entry.reason;
            })
      ]

  -- The map with the new entry, unless it cannot be persisted: then with what undoes the change.
  unfoldable pub persist_or_undo :
      SuppressionEntries → SuppressionEntries → AddResult × SuppressionEntries
  persist_or_undo changed undone = elim (persist changed) [
    | none ↦ (added true, changed)
    | some e ↦ (refused (not_persisted e), undone)
  ]

  -- Add after its checks.
  unfoldable pub store_entry :
      SuppressionEntry → SuppressionEntries → AddResult × SuppressionEntries
  unfolding suppression_key persist_or_undo
  store_entry entry entries =
      let key = suppression_key entry.app_code entry.normalized_email in
      let changed = insert key entry entries in
      elim (lookup key entries) [
        | none ↦ persist_or_undo changed (delete key changed)
        | some existing ↦
            if same_reason existing.reason entry.reason && existing.email == entry.email
            then (added false, entries)
            else if upgrades existing.reason entry.reason
            then persist_or_undo changed (insert key existing changed)
            else (added false, entries)
      ]

  -- Add
  unfoldable pub add : SuppressionEntry → SuppressionEntries → AddResult × SuppressionEntries
  unfolding check_entry store_entry
  add entry entries = elim (check_entry entry) [
    | invalid e ↦ (refused e, entries)
    | normalized checked ↦ store_entry checked entries
  ]
