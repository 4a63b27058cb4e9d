-- ===== src/Tests/Suppression.antt =====
-- The suppression store: one recipient on the list of the app `shop`, and a complaint about another.
use mux_mail.Prelude.{◌≡◌, refl, String, true, Option, none, some, [], ◌∷◌, runes_eq}
use mux_mail.Prelude.Assoc.{lookup}
use mux_mail.Domain.Constants.{SuppressionReason, suppression_reason_is_valid}
use mux_mail.Domain.Types.{Runes, SuppressionEntry}
use mux_mail.Domain.Email.{codes, trim_space, normalize_addr_spec_email}
use mux_mail.Lite.Suppression.{
  SuppressionEntries, not_persisted, added, refused, normalized, contains, suppression_key,
  is_valid_suppression_app_code, code_rest_ok, check_entry, persist_or_undo, store_entry, add,
}
use mux_mail.Lite.Suppression.Laws.{add_keeps, add_refused, add_suppresses}

abbrev entry_for : Runes → SuppressionEntry
entry_for email = record {
  app_code = codes "shop";
  email = email;
  normalized_email = email;
  reason = SuppressionReason.complaint;
}

abbrev first_email : Runes
first_email = codes "a@b.com"

abbrev second_email : Runes
second_email = codes "c@d.com"

abbrev listed : SuppressionEntries
listed = (suppression_key (codes "shop") first_email, entry_for first_email) ∷ []

abbrev saved : SuppressionEntries → Option String
saved m = none

abbrev broken : SuppressionEntries → Option String
broken m = some "disk full"

found : contains (some listed) (codes "shop") first_email ≡ some (entry_for first_email)
unfolding contains suppression_key lookup runes_eq
found = refl

checks : check_entry some saved (entry_for second_email) ≡ normalized (entry_for second_email)
unfolding check_entry is_valid_suppression_app_code code_rest_ok trim_space
    normalize_addr_spec_email runes_eq suppression_reason_is_valid
checks = refl

stored : (add some saved (entry_for second_email) listed).0 ≡ added true
unfolding add check_entry is_valid_suppression_app_code code_rest_ok trim_space
    normalize_addr_spec_email runes_eq suppression_reason_is_valid store_entry persist_or_undo
    suppression_key lookup
stored = refl

not_stored :
    (add some broken (entry_for second_email) listed).0 ≡ refused (not_persisted "disk full")
unfolding add check_entry is_valid_suppression_app_code code_rest_ok trim_space
    normalize_addr_spec_email runes_eq suppression_reason_is_valid store_entry persist_or_undo
    suppression_key lookup
not_stored = refl

add_keeps_example :
    (y : SuppressionEntry) × (contains
        (some (add some saved (entry_for second_email) listed).1)
        (codes "shop")
        first_email
      ≡ some y)
add_keeps_example =
    add_keeps some saved (entry_for second_email) (entry_for first_email) listed (codes "shop")
      first_email found

add_refused_example :
    contains (some (add some broken (entry_for second_email) listed).1) (codes "shop") second_email
    ≡ contains (some listed) (codes "shop") second_email
add_refused_example =
    add_refused some broken (entry_for second_email) listed (not_persisted "disk full")
      (codes "shop") second_email not_stored

add_suppresses_example :
    (x : SuppressionEntry) × (contains
        (some (add some saved (entry_for second_email) listed).1)
        (codes "shop")
        second_email
      ≡ some x)
add_suppresses_example =
    add_suppresses some saved (entry_for second_email) (entry_for second_email) listed true checks
      stored
