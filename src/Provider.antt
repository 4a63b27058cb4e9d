-- ===== src/Provider.antt =====
-- internal/provider/provider.go: the normalized result of a send. A pointer to a result is an Option.
use mux_mail.Prelude.{String, Bool, true, false, Option, none, some, ◌&&◌, if◌then◌else◌}
use mux_mail.Prelude.Int.{ℤ, pos, ltb_ℤ}
use mux_mail.Domain.Constants.{FailureClass, ErrorCode}
use mux_mail.Domain.Types.{Bytes, Message, ProviderAccount, ProviderChannel}

pub record SendRequest : Type 0 where
  pub message : Message
  pub account : ProviderAccount
  pub channel : ProviderChannel
  pub attempt : ℤ

pub record AcceptedResult : Type 0 where
  pub provider_message_id : String

pub record FailedResult : Type 0 where
  pub failure_class : FailureClass
  pub error_code : ErrorCode
  pub error_message : Bytes

pub record SendResult : Type 0 where
  pub accepted : Option AcceptedResult
  pub failed : Option FailedResult
  pub retry_after_seconds : ℤ

abbrev pub accepted_result : String → SendResult
accepted_result provider_message_id = record {
  accepted = some (record { provider_message_id = provider_message_id });
  failed = none;
  retry_after_seconds = pos 0;
}

abbrev pub failed_result : FailureClass → ErrorCode → Bytes → SendResult
failed_result failure_class error_code error_message = record {
  accepted = none;
  failed = some (record {
    failure_class = failure_class;
    error_code = error_code;
    error_message = error_message;
  });
  retry_after_seconds = pos 0;
}

abbrev pub temporary_failure : ErrorCode → Bytes → SendResult
temporary_failure error_code error_message =
    failed_result FailureClass.temporary error_code error_message

abbrev pub channel_failure : ErrorCode → Bytes → SendResult
channel_failure error_code error_message =
    failed_result FailureClass.channel error_code error_message

abbrev pub message_permanent_failure : ErrorCode → Bytes → SendResult
message_permanent_failure error_code error_message =
    failed_result FailureClass.message_permanent error_code error_message

abbrev pub with_retry_after : SendResult → ℤ → SendResult
with_retry_after result seconds =
    if ltb_ℤ (pos 0) seconds then record result { retry_after_seconds = seconds } else result

abbrev is_set {ℓ} : {A : Type ℓ} → Option A → Bool
is_set none = false
is_set (some a) = true

abbrev is_nil {ℓ} : {A : Type ℓ} → Option A → Bool
is_nil none = true
is_nil (some a) = false

abbrev pub is_accepted : SendResult → Bool
is_accepted r = is_set r.accepted && is_nil r.failed

abbrev pub is_failed : SendResult → Bool
is_failed r = is_set r.failed && is_nil r.accepted
