-- ===== src/Lite/Records/RoundTrip.antt =====
-- What a query reads of a record is what was written, where the record is one that the decoder takes.
use mux_mail.Prelude.{
  ◌≡◌, refl, true, false, String, Option, some, [], ◌==◌, ◌≢◌, string_eq, Bool-cases, inl, inr,
}
use mux_mail.Prelude.Int.{pos, leb_ℤ}
use mux_mail.Prelude.Assoc.{lookup}
use mux_mail.Domain.Constants.{
  message_status_is_valid, attempt_status_is_valid, failure_class_is_valid,
}
use mux_mail.Domain.Types.{Message, Attempt, ProviderEvent}
use mux_mail.Lite.Time.{Time}
use mux_mail.Lite.Json.{coerce_to_utf8, parse_object, parse_members}
use mux_mail.Lite.Records.{
  answer, MessageSnapshot, AttemptSnapshot, ProviderEventSnapshot, encode_message_record,
  encode_attempt_record, encode_provider_event_record, is_valid_attempt_provider_metadata,
}
use mux_mail.Lite.Records.Decode.{
  decode_message_snapshot, decode_attempt_snapshot, decode_provider_event_snapshot,
  provider_event_fields_ok,
}

pub not_blank : (s : String) → s ≢ "" → (s == "") ≡ false
not_blank s h = elim (Bool-cases (s == "")) [
  | inl e ↦ absurd (h ((string_eq.beq_iff s "").0 e))
  | inr e ↦ e
]

module _ (format_time : Time → String) (parse_time : String → Option Time)
    (parse-format : (t : Time) → parse_time (format_time t) ≡ some t) where
  abbrev pub snapshot_of : Time → Message → MessageSnapshot
  snapshot_of t m = record {
    timestamp = t;
    request_id = m.request_id;
    business_request_id = m.business_request_id;
    message_id = m.message_id;
    app_code = m.app_code;
    api_key_name = m.api_key_name;
    scene_code = m.scene_code;
    to_domain = m.to_domain;
    to_hash = m.to_hash;
    locale = m.locale;
    status = m.status;
    error_code = m.error_code;
    error_message = coerce_to_utf8 m.error_message;
  }

  -- A record of a message that has an ID and one of the statuses is read back with the time and the fields
  -- that were written, the error message as UTF-8, with U+FFFD for every byte of no rune.
  pub decode_message_snapshot-encode_message_record :
      (t : Time) (m : Message)
      → m.message_id ≢ ""
      → message_status_is_valid m.status ≡ true
      → decode_message_snapshot parse_time (encode_message_record format_time t m)
        ≡ answer (snapshot_of t m)
  unfolding decode_message_snapshot encode_message_record lookup parse_object parse_members
  decode_message_snapshot-encode_message_record t m some_id valid =
      rw (parse-format t, not_blank m.message_id some_id, valid) refl

  abbrev pub attempt_snapshot_of : Time → Attempt → AttemptSnapshot
  attempt_snapshot_of t a = record {
    timestamp = t;
    message_id = a.message_id;
    app_code = a.app_code;
    attempt_no = a.attempt_no;
    provider = a.provider;
    provider_account_code = a.provider_account_code;
    provider_channel_code = a.provider_channel_code;
    transport = a.transport;
    status = a.status;
    failure_class = a.failure_class;
    error_code = a.error_code;
    error_message = coerce_to_utf8 a.error_message;
    provider_message_id = a.provider_message_id;
    duration_ms = pos a.duration_ms;
  }

  -- A record of an attempt with a message ID, a number above 0, a valid status and failure class, and provider
  -- fields that are all there, or only the channel's if the attempt failed for its channel, is read back
  -- with the time and the fields that were written, the error message as UTF-8, with U+FFFD for every byte
  -- of no rune.
  pub decode_attempt_snapshot-encode_attempt_record :
      (t : Time) (a : Attempt)
      → a.message_id ≢ ""
      → leb_ℤ a.attempt_no (pos 0) ≡ false
      → attempt_status_is_valid a.status ≡ true
      → failure_class_is_valid a.failure_class ≡ true
      → is_valid_attempt_provider_metadata a.provider a.provider_account_code
          a.provider_channel_code a.transport a.status a.failure_class
        ≡ true
      → decode_attempt_snapshot parse_time (encode_attempt_record format_time t a)
        ≡ answer (attempt_snapshot_of t a)
  unfolding decode_attempt_snapshot encode_attempt_record lookup parse_object parse_members
  decode_attempt_snapshot-encode_attempt_record t a some_id number valid class metadata =
      rw (parse-format t, not_blank a.message_id some_id, number, valid, class, metadata) refl

  abbrev pub event_snapshot_of : Time → ProviderEvent → ProviderEventSnapshot
  event_snapshot_of t e = record {
    timestamp = t;
    message_id = e.message_id;
    app_code = e.app_code;
    provider = e.provider;
    provider_account_code = e.provider_account_code;
    provider_channel_code = e.provider_channel_code;
    provider_message_id = e.provider_message_id;
    event_type = e.event_type;
    occurred_at = e.occurred_at;
  }

  -- A record of a provider event whose fields are all there and valid is read back with the fields that were
  -- written, less the address of its recipient.
  pub decode_provider_event_snapshot-encode_provider_event_record :
      (t : Time) (e : ProviderEvent)
      → provider_event_fields_ok parse_time (event_snapshot_of t e) ≡ true
      → decode_provider_event_snapshot parse_time (encode_provider_event_record format_time t e)
        ≡ answer (record e { recipient_email = [] })
  unfolding decode_provider_event_snapshot encode_provider_event_record lookup parse_object
      parse_members
  decode_provider_event_snapshot-encode_provider_event_record t e ok = rw (parse-format t, ok) refl
