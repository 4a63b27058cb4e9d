-- ===== src/Lite/Records.antt =====
-- The records of internal/lite/message_log.go: the lines that it writes to its files, and what its
-- queries read back. No encoder writes a name twice.
pub mod RoundTrip
pub mod Decode
use mux_mail.Prelude.{
  ℕ, Bool, true, false, ◌||◌, not, ◌&&◌, String, Option, none, some, List, [], ◌∷◌, ◌++◌, ◌==◌,
  string_eq, if◌then◌else◌,
}
use mux_mail.Prelude.Int.{ℤ, pos, leb_ℤ}
use mux_mail.Prelude.Assoc.{Assoc, lookup}
use mux_mail.Domain.Constants.{
  MessageStatus, message_status_is_valid, AttemptStatus, attempt_status_is_valid, FailureClass,
  failure_class_is_valid, ErrorCode, Provider, provider_is_valid, Transport, transport_is_valid,
  ProviderEventType, provider_event_type_is_valid,
}
use mux_mail.Lite.Json.{
  Value, text, runes, bytes, number, message_status, attempt_status, failure_class, error_code,
  provider, transport, event_type, open_brace, close_brace, as_text, append_json_field,
  append_json_int_field, Object,
}
pub use mux_mail.Lite.Json.{Line}
use mux_mail.Domain.Types.{Runes, Bytes, Message, Attempt, ProviderEvent}
use mux_mail.Lite.Time.{Time}

-- What a read of the log can fail with.
pub data QueryError : Type 0 where
  not_an_object bad_timestamp fields_invalid line_too_long log_disabled : QueryError

pub data Query {ℓ} (A : Type ℓ) : Type ℓ where
  answer : A → Query A
  failed : QueryError → Query A

infixl 5 ◌>>=◌
abbrev pub ◌>>=◌ {ℓ κ} : {A : Type ℓ} {B : Type κ} → Query A → (A → Query B) → Query B
answer a >>= f = f a
failed e >>= f = failed e

abbrev pub answer_or : {A : Type 0} → QueryError → Option A → Query A
answer_or e none = failed e
answer_or e (some a) = answer a

-- One field of the struct that json.Unmarshal fills: its zero value if the object does not name it, and
-- an error if it names a value of another type.
unfoldable pub read : {A : Type 0} → (Value → Option A) → A → String → Object → Query A
unfolding lookup
read as_type zero_value name o = elim (lookup name o) [
  | none ↦ answer zero_value
  | some v ↦ answer_or not_an_object (as_type v)
]

abbrev pub read_text : String → Object → Query String
read_text name o = read as_text "" name o

pub record MessageSnapshot : Type 0 where
  pub timestamp : Time
  pub request_id : String
  pub business_request_id : String
  pub message_id : String
  pub app_code : String
  pub api_key_name : String
  pub scene_code : String
  pub to_domain : Runes
  pub to_hash : String
  pub locale : String
  pub status : MessageStatus
  pub error_code : ErrorCode
  pub error_message : Bytes

pub record AttemptSnapshot : Type 0 where
  pub timestamp : Time
  pub message_id : String
  pub app_code : String
  pub attempt_no : ℤ
  pub provider : Provider
  pub provider_account_code : String
  pub provider_channel_code : String
  pub transport : Transport
  pub status : AttemptStatus
  pub failure_class : FailureClass
  pub error_code : ErrorCode
  pub error_message : Bytes
  pub provider_message_id : String
  pub duration_ms : ℤ

pub record ProviderEventSnapshot : Type 0 where
  pub timestamp : Time
  pub message_id : String
  pub app_code : String
  pub provider : Provider
  pub provider_account_code : String
  pub provider_channel_code : String
  pub provider_message_id : String
  pub event_type : ProviderEventType
  pub occurred_at : String

-- provider == "", transport == ""
abbrev pub provider_is_empty : Provider → Bool
provider_is_empty (Provider.other s) = s == ""
provider_is_empty _ = false

abbrev pub transport_is_empty : Transport → Bool
transport_is_empty (Transport.other s) = s == ""
transport_is_empty _ = false

abbrev pub is_failed_status : AttemptStatus → Bool
is_failed_status AttemptStatus.failed = true
is_failed_status _ = false

abbrev pub is_channel_class : FailureClass → Bool
is_channel_class FailureClass.channel = true
is_channel_class _ = false

unfoldable pub is_valid_attempt_provider_metadata :
    Provider → String → String → Transport → AttemptStatus → FailureClass → Bool
is_valid_attempt_provider_metadata p account channel t status class =
    if provider_is_valid p && not (account == "") && not (channel == "") && transport_is_valid t
    then true
    else provider_is_empty p
      && account == ""
      && not (channel == "")
      && transport_is_empty t
      && is_failed_status status
      && is_channel_class class

-- `format_time` and `parse_time` are the RFC3339Nano format of the package time, in UTC.
module _ (format_time : Time → String) where
  -- encodeMessageRecord
  unfoldable pub encode_message_record : Time → Message → Line
  unfolding append_json_field append_json_int_field
  encode_message_record ts message =
      let line = open_brace ∷ [] in
      let line = append_json_field line "ts" (text (format_time ts)) true in
      let line = append_json_field line "request_id" (text message.request_id) false in
      let line =
        append_json_field line "business_request_id" (text message.business_request_id) false in
      let line = append_json_field line "message_id" (text message.message_id) false in
      let line = append_json_field line "app" (text message.app_code) false in
      let line = append_json_field line "api_key_name" (text message.api_key_name) false in
      let line = append_json_field line "scene" (text message.scene_code) false in
      let line = append_json_field line "to_domain" (runes message.to_domain) false in
      let line = append_json_field line "to_hash" (text message.to_hash) false in
      let line = append_json_field line "locale" (text message.locale) false in
      let line = append_json_field line "status" (message_status message.status) false in
      let line = append_json_field line "idempotency_hash" (text message.idempotency_hash) false in
      let line =
        append_json_field line "request_fingerprint" (text message.request_fingerprint) false in
      let line = append_json_field line "caller_ip" (runes message.caller_ip) false in
      let line = append_json_field line "user_ip" (runes message.user_ip) false in
      let line = append_json_field line "user_id_hash" (text message.user_id_hash) false in
      let line = append_json_field line "error_code" (error_code message.error_code) false in
      let line = append_json_field line "error_message" (bytes message.error_message) false in
      line ++ close_brace ∷ []

  unfoldable pub encode_attempt_record : Time → Attempt → Line
  unfolding append_json_field append_json_int_field
  encode_attempt_record ts attempt =
      let line = open_brace ∷ [] in
      let line = append_json_field line "ts" (text (format_time ts)) true in
      let line = append_json_field line "message_id" (text attempt.message_id) false in
      let line = append_json_field line "app" (text attempt.app_code) false in
      let line = append_json_int_field line "attempt_no" attempt.attempt_no false in
      let line = append_json_field line "provider" (provider attempt.provider) false in
      let line =
        append_json_field line "provider_account" (text attempt.provider_account_code) false in
      let line =
        append_json_field line "provider_channel" (text attempt.provider_channel_code) false in
      let line = append_json_field line "transport" (transport attempt.transport) false in
      let line = append_json_field line "status" (attempt_status attempt.status) false in
      let line =
        append_json_field line "failure_class" (failure_class attempt.failure_class) false in
      let line = append_json_field line "error_code" (error_code attempt.error_code) false in
      let line = append_json_field line "error_message" (bytes attempt.error_message) false in
      let line =
        append_json_field line "provider_message_id" (text attempt.provider_message_id) false in
      let line = append_json_int_field line "duration_ms" (pos attempt.duration_ms) false in
      line ++ close_brace ∷ []

  unfoldable pub encode_provider_event_record : Time → ProviderEvent → Line
  unfolding append_json_field append_json_int_field
  encode_provider_event_record ts event =
      let line = open_brace ∷ [] in
      let line = append_json_field line "ts" (text (format_time ts)) true in
      let line = append_json_field line "message_id" (text event.message_id) false in
      let line = append_json_field line "app" (text event.app_code) false in
      let line = append_json_field line "provider" (provider event.provider) false in
      let line =
        append_json_field line "provider_account" (text event.provider_account_code) false in
      let line =
        append_json_field line "provider_channel" (text event.provider_channel_code) false in
      let line =
        append_json_field line "provider_message_id" (text event.provider_message_id) false in
      let line = append_json_field line "event_type" (event_type event.event_type) false in
      let line = append_json_field line "event_payload" (text event.event_payload) false in
      let line = append_json_field line "occurred_at" (text event.occurred_at) false in
      line ++ close_brace ∷ []
