-- ===== src/Domain/Types.antt =====
-- internal/domain/types.go. Addresses and domains, and the app code of a suppression entry, are lists of
-- code points, since the program walks them; error messages are lists of bytes, since the program cuts them; the other texts are only
-- compared. A Go `int` that a configuration may set is a ℤ.
use mux_mail.Prelude.{ℕ, String, Bool, Option, List}
use mux_mail.Prelude.Assoc.{Assoc}
use mux_mail.Prelude.Int.{ℤ}
use mux_mail.Domain.Constants.{
  MessageStatus, AttemptStatus, FailureClass, Provider, Transport, ErrorCode, SuppressionReason,
  ProviderEventType,
}

abbrev pub Bytes : Type 0
Bytes = List ℕ

abbrev pub Runes : Type 0
Runes = List ℕ

pub record ApiKeyMetadata : Type 0 where
  pub name : String
  pub enabled : Bool
  pub key_hash : String

pub record RateLimitPolicy : Type 0 where
  pub same_email_per_minute : ℤ
  pub same_email_per_day : ℤ
  pub same_user_ip_per_hour : ℤ
  pub same_caller_ip_per_hour : ℤ

-- RoutePolicy maps recipient domains to ordered provider channel codes.
abbrev pub RoutePolicy : Type 0
RoutePolicy = Assoc Runes (List String)

pub record Scene : Type 0 where
  pub code : String
  pub name : String
  pub enabled : Bool
  pub template : String
  pub rate_limit : RateLimitPolicy
  pub route_policy : RoutePolicy

pub record Template : Type 0 where
  pub code : String
  pub locale : String
  pub enabled : Bool
  pub subject : String
  pub required_vars : List String
  pub html_body : String
  pub text_body : String

pub record App : Type 0 where
  pub code : String
  pub name : String
  pub enabled : Bool
  pub default_locale : String
  pub allowed_locales : List String
  pub api_keys : List ApiKeyMetadata
  pub scenes : List Scene
  pub templates : List Template

pub record ProviderAccount : Type 0 where
  pub code : String
  pub provider : Provider
  pub enabled : Bool
  pub credential_refs : Assoc String String

pub record SmtpSettings : Type 0 where
  pub host : String
  pub port : ℤ
  pub username : String
  pub password_ref : String

pub record ProviderChannel : Type 0 where
  pub code : String
  pub account : String
  pub transport : Transport
  pub enabled : Bool
  pub sender_domain : String
  pub from_name : String
  pub from : String
  pub smtp : Option SmtpSettings

pub record Message : Type 0 where
  pub request_id : String
  pub business_request_id : String
  pub message_id : String
  pub app_code : String
  pub api_key_name : String
  pub scene_code : String
  pub to_email : Runes
  pub normalized_to_email : Runes
  pub to_domain : Runes
  pub to_hash : String
  pub locale : String
  pub subject : String
  pub html_body : String
  pub text_body : String
  pub provider_channels : List String
  pub status : MessageStatus
  pub idempotency_hash : String
  pub request_fingerprint : String
  pub caller_ip : Runes
  pub user_ip : Runes
  pub user_id_hash : String
  pub error_code : ErrorCode
  pub error_message : Bytes

pub record Attempt : Type 0 where
  pub message_id : String
  pub app_code : String
  pub attempt_no : ℤ
  pub provider : Provider
  pub provider_account_code : String
  pub provider_channel_code : String
  pub transport : Transport
  pub status : AttemptStatus
  pub failure_class : FailureClass
  pub error_code : ErrorCode
  pub error_message : Bytes
  pub provider_message_id : String
  pub duration_ms : ℕ

pub record SuppressionEntry : Type 0 where
  pub app_code : Runes
  pub email : Runes
  pub normalized_email : Runes
  pub reason : SuppressionReason

pub record ProviderEvent : Type 0 where
  pub message_id : String
  pub app_code : String
  pub provider : Provider
  pub provider_account_code : String
  pub provider_channel_code : String
  pub provider_message_id : String
  pub event_type : ProviderEventType
  pub recipient_email : Runes
  pub event_payload : String
  pub occurred_at : String
