-- ===== src/Lite/Json.antt =====
-- The lines of JSON that internal/lite/jsonl.go builds, with appendJSONField, appendJSONIntField and
-- appendJSONString, and what json.Unmarshal of encoding/json finds in one. A line is its text, read as
-- tokens: a mark, or a whole literal, which json.Marshal or the verb %d writes. The escapes inside a
-- string's literal are undone by json.Unmarshal and are not seen here, but what json.Marshal does to bytes
-- that are not UTF-8 is. A literal keeps the Go type of the value that it was written from.
pub mod Kept
use mux_mail.Prelude.{
  ℕ, zero, suc, Bool, String, Option, none, some, List, [], ◌∷◌, ◌++◌, if◌then◌else◌,
}
use mux_mail.Prelude.Int.{ℤ}
use mux_mail.Prelude.Assoc.{Assoc}
use mux_mail.Prelude.Utf8.{rune_width}
use mux_mail.Domain.Constants.{
  MessageStatus, AttemptStatus, FailureClass, ErrorCode, Provider, Transport, ProviderEventType,
}
use mux_mail.Domain.Types.{Runes, Bytes}

pub data Value : Type 0 where
  text : String → Value
  runes : Runes → Value
  bytes : Bytes → Value
  number : ℤ → Value
  message_status : MessageStatus → Value
  attempt_status : AttemptStatus → Value
  failure_class : FailureClass → Value
  error_code : ErrorCode → Value
  provider : Provider → Value
  transport : Transport → Value
  event_type : ProviderEventType → Value

abbrev pub Object : Type 0
Object = Assoc String Value

abbrev pub as_text : Value → Option String
as_text (text s) = some s
as_text _ = none

abbrev pub as_runes : Value → Option Runes
as_runes (runes s) = some s
as_runes _ = none

abbrev pub as_bytes : Value → Option Bytes
as_bytes (bytes s) = some s
as_bytes _ = none

abbrev pub as_number : Value → Option ℤ
as_number (number n) = some n
as_number _ = none

abbrev pub as_message_status : Value → Option MessageStatus
as_message_status (message_status s) = some s
as_message_status _ = none

abbrev pub as_attempt_status : Value → Option AttemptStatus
as_attempt_status (attempt_status s) = some s
as_attempt_status _ = none

abbrev pub as_failure_class : Value → Option FailureClass
as_failure_class (failure_class c) = some c
as_failure_class _ = none

abbrev pub as_error_code : Value → Option ErrorCode
as_error_code (error_code c) = some c
as_error_code _ = none

abbrev pub as_provider : Value → Option Provider
as_provider (provider p) = some p
as_provider _ = none

abbrev pub as_transport : Value → Option Transport
as_transport (transport t) = some t
as_transport _ = none

abbrev pub as_event_type : Value → Option ProviderEventType
as_event_type (event_type e) = some e
as_event_type _ = none

-- A byte that is in no valid rune is replaced by U+FFFD. The first argument counts the bytes that the rune
-- in hand still has.
unfoldable pub coerced_bytes : ℕ → Bytes → Bytes
unfolding rune_width
coerced_bytes left [] = []
coerced_bytes (suc left) (b ∷ bs) = b ∷ coerced_bytes left bs
coerced_bytes zero (b ∷ bs) = elim (rune_width b bs) [
  | zero ↦ 0xef ∷ 0xbf ∷ 0xbd ∷ coerced_bytes zero bs
  | suc left ↦ b ∷ coerced_bytes left bs
]

-- What is read back of bytes that json.Marshal has written.
unfoldable pub coerce_to_utf8 : Bytes → Bytes
unfolding coerced_bytes
coerce_to_utf8 s = coerced_bytes zero s

-- json.Marshal of a string. Texts and addresses are valid Unicode already.
unfoldable pub marshal : Value → Value
unfolding coerce_to_utf8
marshal (bytes s) = bytes (coerce_to_utf8 s)
marshal v = v

pub data Token : Type 0 where
  open_brace close_brace comma colon : Token
  literal : Value → Token

abbrev pub Line : Type 0
Line = List Token

-- appendJSONString
unfoldable pub append_json_string : Line → Value → Line
unfolding marshal
append_json_string line value = line ++ literal (marshal value) ∷ []

-- appendJSONField
unfoldable pub append_json_field : Line → String → Value → Bool → Line
unfolding append_json_string
append_json_field line name value first =
    let line = if first then line else line ++ comma ∷ [] in
    let line = append_json_string line (text name) in
    let line = line ++ colon ∷ [] in append_json_string line value

-- appendJSONIntField
unfoldable pub append_json_int_field : Line → String → ℤ → Bool → Line
unfolding append_json_string
append_json_int_field line name value first =
    let line = if first then line else line ++ comma ∷ [] in
    let line = append_json_string line (text name) in
    let line = line ++ colon ∷ [] in line ++ literal (number value) ∷ []

abbrev with_member : String → Value → Option Object → Option Object
with_member name value none = none
with_member name value (some o) = some ((name, value) ∷ o)

-- The members of an object, each after a comma, and its end.
unfoldable pub parse_members : Line → Option Object
parse_members (close_brace ∷ []) = some []
parse_members (comma ∷ literal (text name) ∷ colon ∷ literal value ∷ rest) =
    with_member name value (parse_members rest)
parse_members _ = none

-- The object that a line denotes, if it is one of strings and integers.
unfoldable pub parse_object : Line → Option Object
unfolding parse_members
parse_object (open_brace ∷ close_brace ∷ []) = some []
parse_object (open_brace ∷ rest) = parse_members (comma ∷ rest)
parse_object _ = none
