-- ===== src/Domain/Constants.antt =====
-- internal/domain/constants.go. A Go string type with named constants is a data type with a
-- constructor for each constant; `other s` is any other string, "" among them.
use mux_mail.Prelude.{
  ℕ, String, Bool, true, false, ◌||◌, List, [], ◌∷◌, ltb, ◌==◌, string_eq, length, if◌then◌else◌,
}

pub data MessageStatus : Type 0 where
  queued sending retrying sent failed delivered bounced complained : MessageStatus
  other : String → MessageStatus

unfoldable pub message_status_is_valid : MessageStatus → Bool
message_status_is_valid (MessageStatus.other s) = false
message_status_is_valid _ = true

pub data AttemptStatus : Type 0 where
  sending sent failed : AttemptStatus
  other : String → AttemptStatus

unfoldable pub attempt_status_is_valid : AttemptStatus → Bool
attempt_status_is_valid (AttemptStatus.other s) = false
attempt_status_is_valid _ = true

-- `none` is the empty string.
pub data FailureClass : Type 0 where
  none temporary channel message_permanent : FailureClass
  other : String → FailureClass

unfoldable pub failure_class_is_valid : FailureClass → Bool
failure_class_is_valid (FailureClass.other s) = false
failure_class_is_valid _ = true

pub data ProviderEventType : Type 0 where
  delivered bounced complained : ProviderEventType
  other : String → ProviderEventType

unfoldable pub provider_event_type_is_valid : ProviderEventType → Bool
provider_event_type_is_valid (ProviderEventType.other s) = false
provider_event_type_is_valid _ = true

-- ProviderEventType.MessageStatus
unfoldable pub event_message_status : ProviderEventType → MessageStatus
event_message_status ProviderEventType.delivered = MessageStatus.delivered
event_message_status ProviderEventType.bounced = MessageStatus.bounced
event_message_status ProviderEventType.complained = MessageStatus.complained
event_message_status (ProviderEventType.other s) = MessageStatus.other ""

pub data Provider : Type 0 where
  mock resend brevo : Provider
  other : String → Provider

unfoldable pub provider_is_valid : Provider → Bool
provider_is_valid (Provider.other s) = false
provider_is_valid _ = true

pub data Transport : Type 0 where
  api smtp : Transport
  other : String → Transport

unfoldable pub transport_is_valid : Transport → Bool
transport_is_valid (Transport.other s) = false
transport_is_valid _ = true

unfoldable pub supports_transport : Provider → Transport → Bool
supports_transport Provider.mock Transport.api = true
supports_transport Provider.resend Transport.api = true
supports_transport Provider.resend Transport.smtp = true
supports_transport Provider.brevo Transport.api = true
supports_transport Provider.brevo Transport.smtp = true
supports_transport _ _ = false

abbrev pub min_api_key_bytes : ℕ
min_api_key_bytes = 24

abbrev pub max_api_key_bytes : ℕ
max_api_key_bytes = 128

all_visible : List ℕ → Bool
all_visible [] = true
all_visible (c ∷ cs) = if ltb c 0x21 || ltb 0x7e c then false else all_visible cs

-- A key is its list of bytes. A byte from 0x80 up starts or continues a rune above 0x7e, or is
-- invalid and read as U+FFFD, so the loop over runes refuses the same keys.
unfoldable pub is_valid_api_key_value : List ℕ → Bool
unfolding all_visible
is_valid_api_key_value value =
    if ltb (length value) min_api_key_bytes || ltb max_api_key_bytes (length value)
    then false
    else all_visible value

pub data ErrorCode : Type 0 where
  unauthorized app_disabled scene_not_found scene_disabled message_not_found : ErrorCode
  webhook_disabled missing_idempotency_key invalid_idempotency_key : ErrorCode
  request_too_large unsupported_media_type invalid_json invalid_query : ErrorCode
  invalid_recipient invalid_context invalid_locale invalid_template_vars : ErrorCode
  missing_template_var template_locale_not_found template_render_failed : ErrorCode
  rate_limited suppressed_recipient idempotency_conflict route_not_found : ErrorCode
  provider_unavailable queue_full internal : ErrorCode
  other : String → ErrorCode

unfoldable pub error_code_is_valid : ErrorCode → Bool
error_code_is_valid (ErrorCode.other s) = false
error_code_is_valid _ = true

-- code == ""
unfoldable pub error_code_is_empty : ErrorCode → Bool
error_code_is_empty (ErrorCode.other s) = s == ""
error_code_is_empty _ = false

pub data SuppressionReason : Type 0 where
  hard_bounce complaint manual : SuppressionReason
  other : String → SuppressionReason

unfoldable pub suppression_reason_is_valid : SuppressionReason → Bool
suppression_reason_is_valid (SuppressionReason.other s) = false
suppression_reason_is_valid _ = true
