-- ===== src/Tests/Json.antt =====
-- A line of JSON, and bytes that are not UTF-8.
use mux_mail.Prelude.{◌≡◌, refl, true, false, some, none, [], ◌∷◌}
use mux_mail.Prelude.Int.{pos}
use mux_mail.Prelude.Utf8.{rune_width, width_of, byte_at}
use mux_mail.Lite.Json.{
  text, number, open_brace, close_brace, comma, colon, literal, coerce_to_utf8, coerced_bytes,
  append_json_string, append_json_field, append_json_int_field, marshal, parse_object,
  parse_members,
}
use mux_mail.Worker.ErrorText.{safe_error_message, to_valid_utf8, valid_bytes}

-- {"app":"shop","attempt_no":2
two_fields :
    append_json_int_field
      (append_json_field (open_brace ∷ []) "app" (text "shop") true)
      "attempt_no"
      (pos 2)
      false
    ≡ open_brace
      ∷ literal (text "app")
      ∷ colon
      ∷ literal (text "shop")
      ∷ comma
      ∷ literal (text "attempt_no")
      ∷ colon
      ∷ literal (number (pos 2))
      ∷ []
unfolding append_json_field append_json_int_field append_json_string marshal
two_fields = refl

parsed :
    parse_object
      (open_brace ∷ literal (text "app") ∷ colon ∷ literal (text "shop") ∷ close_brace ∷ [])
    ≡ some (("app", text "shop") ∷ [])
unfolding parse_object parse_members
parsed = refl

missing_comma :
    parse_object (
      open_brace
      ∷ literal (text "app")
      ∷ colon
      ∷ literal (text "shop")
      ∷ literal (text "to")
      ∷ colon
      ∷ literal (text "x")
      ∷ close_brace
      ∷ [])
    ≡ none
unfolding parse_object parse_members
missing_comma = refl

coerced :
    coerce_to_utf8 (0x61 ∷ 0xff ∷ 0xc3 ∷ 0xa9 ∷ []) ≡ 0x61 ∷ 0xef ∷ 0xbf ∷ 0xbd ∷ 0xc3 ∷ 0xa9 ∷ []
unfolding coerce_to_utf8 coerced_bytes rune_width width_of byte_at
coerced = refl

dropped : safe_error_message (0x61 ∷ 0xff ∷ 0xc3 ∷ []) ≡ 0x61 ∷ []
unfolding safe_error_message to_valid_utf8 valid_bytes rune_width width_of byte_at
dropped = refl
