-- ===== src/Lite/Records/Decode.antt =====
-- The decoders of internal/lite/message_log.go: what a query takes a line of a file for.
use mux_mail.Prelude.{
  Bool, true, false, ◌||◌, not, ◌&&◌, String, Option, none, some, [], ◌==◌, string_eq,
  if◌then◌else◌,
}
use mux_mail.Prelude.Int.{pos, leb_ℤ}
use mux_mail.Domain.Constants.{
  MessageStatus, message_status_is_valid, AttemptStatus, attempt_status_is_valid, FailureClass,
  failure_class_is_valid, ErrorCode, Provider, provider_is_valid, Transport, ProviderEventType,
  provider_event_type_is_valid,
}
use mux_mail.Domain.Types.{ProviderEvent}
use mux_mail.Lite.Time.{Time}
use mux_mail.Lite.Json.{
  parse_object, as_runes, as_bytes, as_number, as_message_status, as_attempt_status,
  as_failure_class, as_error_code, as_provider, as_transport, as_event_type,
}
use mux_mail.Lite.Records.{
  ◌>>=◌, Line, Query, answer_or, read, read_text, MessageSnapshot, AttemptSnapshot,
  ProviderEventSnapshot, is_valid_attempt_provider_metadata, answer, bad_timestamp, failed,
  fields_invalid, not_an_object,
}

module _ (parse_time : String → Option Time) where
  -- decodeMessageSnapshot
  unfoldable pub decode_message_snapshot : Line → Query MessageSnapshot
  unfolding parse_object read
  decode_message_snapshot line = do
    o ← answer_or not_an_object (parse_object line)
    ts ← read_text "ts" o
    request_id ← read_text "request_id" o
    business_request_id ← read_text "business_request_id" o
    message_id ← read_text "message_id" o
    app_code ← read_text "app" o
    api_key_name ← read_text "api_key_name" o
    scene_code ← read_text "scene" o
    to_domain ← read as_runes [] "to_domain" o
    to_hash ← read_text "to_hash" o
    locale ← read_text "locale" o
    status ← read as_message_status (MessageStatus.other "") "status" o
    error ← read as_error_code (ErrorCode.other "") "error_code" o
    error_message ← read as_bytes [] "error_message" o
    timestamp ← answer_or bad_timestamp (parse_time ts)
    if message_id == "" || not (message_status_is_valid status)
        then failed fields_invalid
        else answer (record {
          timestamp = timestamp;
          request_id = request_id;
          business_request_id = business_request_id;
          message_id = message_id;
          app_code = app_code;
          api_key_name = api_key_name;
          scene_code = scene_code;
          to_domain = to_domain;
          to_hash = to_hash;
          locale = locale;
          status = status;
          error_code = error;
          error_message = error_message;
        })

  -- decodeAttemptSnapshot
  unfoldable pub decode_attempt_snapshot : Line → Query AttemptSnapshot
  unfolding parse_object read is_valid_attempt_provider_metadata
  decode_attempt_snapshot line = do
    o ← answer_or not_an_object (parse_object line)
    ts ← read_text "ts" o
    message_id ← read_text "message_id" o
    app_code ← read_text "app" o
    attempt_no ← read as_number (pos 0) "attempt_no" o
    p ← read as_provider (Provider.other "") "provider" o
    account ← read_text "provider_account" o
    channel ← read_text "provider_channel" o
    t ← read as_transport (Transport.other "") "transport" o
    status ← read as_attempt_status (AttemptStatus.other "") "status" o
    class ← read as_failure_class FailureClass.none "failure_class" o
    error ← read as_error_code (ErrorCode.other "") "error_code" o
    error_message ← read as_bytes [] "error_message" o
    provider_message_id ← read_text "provider_message_id" o
    duration_ms ← read as_number (pos 0) "duration_ms" o
    timestamp ← answer_or bad_timestamp (parse_time ts)
    if message_id == ""
          || leb_ℤ attempt_no (pos 0)
          || not (attempt_status_is_valid status)
          || not (failure_class_is_valid class)
          || not (is_valid_attempt_provider_metadata p account channel t status class)
        then failed fields_invalid
        else answer (record {
          timestamp = timestamp;
          message_id = message_id;
          app_code = app_code;
          attempt_no = attempt_no;
          provider = p;
          provider_account_code = account;
          provider_channel_code = channel;
          transport = t;
          status = status;
          failure_class = class;
          error_code = error;
          error_message = error_message;
          provider_message_id = provider_message_id;
          duration_ms = duration_ms;
        })

  -- validateProviderEventLogFields
  unfoldable pub provider_event_fields_ok : ProviderEventSnapshot → Bool
  provider_event_fields_ok e =
      not (e.message_id == "")
      && not (e.app_code == "")
      && not (e.provider_account_code == "")
      && not (e.provider_channel_code == "")
      && not (e.provider_message_id == "")
      && not (e.occurred_at == "")
      && provider_is_valid e.provider
      && provider_event_type_is_valid e.event_type
      && elim (parse_time e.occurred_at) [ none ↦ false | some t ↦ true ]

  abbrev checked_event : ProviderEventSnapshot → Query ProviderEventSnapshot
  unfolding provider_event_fields_ok
  checked_event e = if provider_event_fields_ok e then answer e else failed fields_invalid

  -- decodeProviderEventQuerySnapshot
  unfoldable pub decode_provider_event_query_snapshot : Line → Query ProviderEventSnapshot
  unfolding parse_object read provider_event_fields_ok
  decode_provider_event_query_snapshot line = do
    o ← answer_or not_an_object (parse_object line)
    ts ← read_text "ts" o
    message_id ← read_text "message_id" o
    app_code ← read_text "app" o
    p ← read as_provider (Provider.other "") "provider" o
    account ← read_text "provider_account" o
    channel ← read_text "provider_channel" o
    provider_message_id ← read_text "provider_message_id" o
    kind ← read as_event_type (ProviderEventType.other "") "event_type" o
    occurred_at ← read_text "occurred_at" o
    timestamp ← answer_or bad_timestamp (parse_time ts)
    checked_event (record {
      timestamp = timestamp;
      message_id = message_id;
      app_code = app_code;
      provider = p;
      provider_account_code = account;
      provider_channel_code = channel;
      provider_message_id = provider_message_id;
      event_type = kind;
      occurred_at = occurred_at;
    })

  -- decodeProviderEventSnapshot: the payload is read too, and the recipient is not in the log.
  unfoldable pub decode_provider_event_snapshot : Line → Query ProviderEvent
  unfolding parse_object read decode_provider_event_query_snapshot
  decode_provider_event_snapshot line = do
    o ← answer_or not_an_object (parse_object line)
    event_payload ← read_text "event_payload" o
    e ← decode_provider_event_query_snapshot line
    answer (record {
      message_id = e.message_id;
      app_code = e.app_code;
      provider = e.provider;
      provider_account_code = e.provider_account_code;
      provider_channel_code = e.provider_channel_code;
      provider_message_id = e.provider_message_id;
      event_type = e.event_type;
      recipient_email = [];
      event_payload = event_payload;
      occurred_at = e.occurred_at;
    })
