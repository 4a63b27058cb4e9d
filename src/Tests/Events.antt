-- ===== src/Tests/Events.antt =====
-- A bounce of a message that was sent, delivered twice, and the records that it writes.
use mathlib.Core.Bool.{false≢true}
use mux_mail.Prelude.{
  All, zero, suc, ◌≡◌, ◌≢◌, refl, ap, true, false, Option, none, some, String, List, [], ◌∷◌,
  string_eq, runes_eq,
}
use mux_mail.Prelude.Int.{pos}
use mux_mail.Prelude.Assoc.{lookup, insert}
use mux_mail.Domain.Constants.{
  MessageStatus, AttemptStatus, FailureClass, ErrorCode, Provider, Transport, ProviderEventType,
  SuppressionReason, message_status_is_valid, event_message_status, provider_is_valid,
  provider_event_type_is_valid, attempt_status_is_valid, failure_class_is_valid, transport_is_valid,
  suppression_reason_is_valid,
}
use mux_mail.Domain.Types.{Message, Attempt, ProviderEvent, SuppressionEntry}
use mux_mail.Domain.Email.{codes, normalize_addr_spec_email}
use mux_mail.Domain.Hash.{to_hash}
use mux_mail.Lite.Time.{Time}
use mux_mail.Lite.Suppression.{added, add, check_entry, normalized, contains}
use mux_mail.Api.Events.Suppressed.{entry_for, applied_suppresses}
use mux_mail.Api.Events.{suppression_reason_for_event}
use mux_mail.Lite.Suppression.Twice.{add_twice}
use mux_mail.Lite.Jsonl.{JsonlWriter, append_line}
use mux_mail.Lite.Records.{
  Line, answer, encode_message_record, encode_attempt_record, encode_provider_event_record,
  is_valid_attempt_provider_metadata,
}
use mux_mail.Lite.Records.Decode.{
  decode_message_snapshot, decode_attempt_snapshot, decode_provider_event_snapshot,
  provider_event_fields_ok,
}
use mux_mail.Lite.Records.RoundTrip.{
  snapshot_of, attempt_snapshot_of, event_snapshot_of,
  decode_message_snapshot-encode_message_record, decode_attempt_snapshot-encode_attempt_record,
  decode_provider_event_snapshot-encode_provider_event_record,
}
use mux_mail.Lite.MessageLog.{
  MessageLog, find_latest_message, find_latest_in_paths, find_latest_in_path, list_attempts,
  list_in_paths, list_in_path, append_message, append_provider_event_once, append_once,
  exists_in_paths, exists_in_path, append_webhook_message_status,
}
use mux_mail.Lite.MessageLog.Laws.{find_latest_message-append_message}
use mux_mail.Api.Events.{
  EventEnv, EventTimes, EventState, response, apply_provider_event, attempt_error, recipient_error,
  record_event, after_event, suppress_for_event, move_status, next_provider_event_message_status,
  latest_attempts_by_number, any_attempt_matches,
}
use mux_mail.Api.Events.Redelivery.{applied_once}
use mux_mail.Api.Events.Status.{after_events, max, rank, highest_rank, rank-after_events}
use mux_mail.Worker.Process.{process_task}
use mux_mail.Worker.Process.Decoded.{IsDecoded, process_task-IsDecoded}
use mux_mail.Tests.Worker.{two_channels, readings, idle}
use mux_mail.Tests.Data.{task_of, recipient, sample_message}

-- A time in unary.
format_time : Time → String
format_time zero = ""
format_time (suc n) = String.◌∷◌ "a" (format_time n)

abbrev next_time : Option Time → Option Time
next_time none = none
next_time (some n) = some (suc n)

parse_time : String → Option Time
parse_time String.[] = some 0
parse_time (String.◌∷◌ c s) = next_time (parse_time s)

parse-format : (t : Time) → parse_time (format_time t) ≡ some t
unfolding format_time parse_time
parse-format zero = refl
parse-format (suc n) = ap next_time (parse-format n)

abbrev env : EventEnv
env = record {
  size = λ line. 10;
  format_time = format_time;
  parse_time = parse_time;
  sha256_hex = λ s. "h";
  parse_address = some;
  persist = λ m. none;
}

abbrev attempt : Attempt
attempt = record {
  message_id = "msg_1";
  app_code = "shop";
  attempt_no = pos 1;
  provider = Provider.resend;
  provider_account_code = "acct";
  provider_channel_code = "a";
  transport = Transport.api;
  status = AttemptStatus.sent;
  failure_class = FailureClass.none;
  error_code = ErrorCode.other "";
  error_message = [];
  provider_message_id = "p_1";
  duration_ms = 7;
}

abbrev bounce : ProviderEvent
bounce = record {
  message_id = "msg_1";
  app_code = "shop";
  provider = Provider.resend;
  provider_account_code = "acct";
  provider_channel_code = "a";
  provider_message_id = "p_1";
  event_type = ProviderEventType.bounced;
  recipient_email = recipient;
  event_payload = "{}";
  occurred_at = "aa";
}

abbrev sent_message : Message
sent_message = record sample_message { status = MessageStatus.sent }

abbrev file_with : List Line → JsonlWriter Line
file_with lines = record {
  max_bytes = 1000;
  is_open = true;
  current_size = 0;
  current = some lines;
  backups = none ∷ [];
}

abbrev log : MessageLog
log = record {
  messages = file_with (encode_message_record format_time 1 sent_message ∷ []);
  attempts = file_with (encode_attempt_record format_time 1 attempt ∷ []);
  events = some (file_with []);
}

abbrev start : EventState
start = record { log = log; suppressed = []; stats = [] }

abbrev times : EventTimes
times = record { event_at = 2; event_fault = none; status_at = 3; status_fault = none }

abbrev later : EventTimes
later = record { event_at = 4; event_fault = none; status_at = 5; status_fault = none }

fields :
    provider_event_fields_ok parse_time
      (event_snapshot_of format_time parse_time parse-format 2 bounce)
    ≡ true
unfolding provider_event_fields_ok parse_time format_time provider_is_valid
    provider_event_type_is_valid
fields = refl

applies :
    (apply_provider_event env times bounce start).0 ≡ response "msg_1" "shop" MessageStatus.bounced
unfolding apply_provider_event attempt_error recipient_error record_event after_event
    suppress_for_event move_status next_provider_event_message_status latest_attempts_by_number
    any_attempt_matches find_latest_message find_latest_in_paths find_latest_in_path list_attempts
    list_in_paths list_in_path append_provider_event_once append_once exists_in_paths exists_in_path
    append_webhook_message_status append_line decode_message_snapshot decode_attempt_snapshot
    decode_provider_event_snapshot encode_message_record encode_attempt_record
    encode_provider_event_record format_time parse_time lookup insert to_hash add runes_eq
    event_message_status append_message message_status_is_valid attempt_status_is_valid
    failure_class_is_valid provider_is_valid transport_is_valid normalize_addr_spec_email
    suppression_reason_is_valid
applies = refl

applied_once_example :
    apply_provider_event env later bounce (apply_provider_event env times bounce start).1 ≡ (
      response "msg_1" "shop" MessageStatus.bounced,
      (apply_provider_event env times bounce start).1,
    )
applied_once_example =
    applied_once env bounce parse-format times later start (file_with []) "msg_1" "shop"
      MessageStatus.bounced refl (λ e. cc e) (λ e. cc e) fields refl (λ snapshot found kind. refl)
      applies

rank-after_events_example :
    rank (
      after_events MessageStatus.sent
        (ProviderEventType.bounced ∷ ProviderEventType.delivered ∷ []))
    ≡ max 0 (highest_rank (ProviderEventType.bounced ∷ ProviderEventType.delivered ∷ []))
rank-after_events_example =
    rank-after_events MessageStatus.sent
      (ProviderEventType.bounced ∷ ProviderEventType.delivered ∷ [])

some_id : sent_message.message_id ≢ ""
some_id e = absurd (false≢true ((string_eq.beq_iff "msg_1" "").1 e))

valid_status : message_status_is_valid sent_message.status ≡ true
unfolding message_status_is_valid
valid_status = refl

decode_message_snapshot-encode_message_record_example :
    decode_message_snapshot parse_time (encode_message_record format_time 1 sent_message)
    ≡ answer (snapshot_of format_time parse_time parse-format 1 sent_message)
decode_message_snapshot-encode_message_record_example =
    decode_message_snapshot-encode_message_record format_time parse_time parse-format 1 sent_message
      some_id valid_status

decode_attempt_snapshot-encode_attempt_record_example :
    decode_attempt_snapshot parse_time (encode_attempt_record format_time 1 attempt)
    ≡ answer (attempt_snapshot_of format_time parse_time parse-format 1 attempt)
unfolding attempt_status_is_valid failure_class_is_valid is_valid_attempt_provider_metadata
    provider_is_valid transport_is_valid
decode_attempt_snapshot-encode_attempt_record_example =
    decode_attempt_snapshot-encode_attempt_record format_time parse_time parse-format 1 attempt
      some_id refl refl refl refl

decode_provider_event_snapshot-encode_provider_event_record_example :
    decode_provider_event_snapshot parse_time (encode_provider_event_record format_time 2 bounce)
    ≡ answer (record bounce { recipient_email = [] })
decode_provider_event_snapshot-encode_provider_event_record_example =
    decode_provider_event_snapshot-encode_provider_event_record format_time parse_time parse-format
      2 bounce fields

abbrev failed_message : Message
failed_message = record sample_message { status = MessageStatus.failed }

failed_status : message_status_is_valid failed_message.status ≡ true
unfolding message_status_is_valid
failed_status = refl

found_before :
    find_latest_message env.size format_time parse_time "shop" "msg_1" log
    ≡ answer (some (snapshot_of format_time parse_time parse-format 1 sent_message))
unfolding find_latest_message find_latest_in_paths find_latest_in_path decode_message_snapshot
    encode_message_record format_time parse_time lookup message_status_is_valid
found_before = refl

appended : (append_message env.size format_time parse_time none 2 failed_message log).0 ≡ none
unfolding append_message append_line
appended = refl

find_latest_message-append_message_example :
    find_latest_message env.size format_time parse_time "shop" "msg_1"
      (append_message env.size format_time parse_time none 2 failed_message log).1
    ≡ answer (some (snapshot_of format_time parse_time parse-format 2 failed_message))
find_latest_message-append_message_example =
    find_latest_message-append_message env.size format_time parse_time parse-format none 2
      failed_message log (some (snapshot_of format_time parse_time parse-format 1 sent_message))
      (λ e. cc e) found_before some_id failed_status refl appended

abbrev entry : SuppressionEntry
entry = record {
  app_code = codes "shop";
  email = recipient;
  normalized_email = [];
  reason = SuppressionReason.hard_bounce;
}

adds : (add some (λ m. none) entry []).0 ≡ added true
unfolding add lookup insert runes_eq normalize_addr_spec_email suppression_reason_is_valid
adds = refl

add_twice_example :
    add some (λ m. none) entry (add some (λ m. none) entry []).1
    ≡ (added false, (add some (λ m. none) entry []).1)
add_twice_example = add_twice some (λ m. none) entry [] true adds

process_task-IsDecoded_example :
    All
      (IsDecoded format_time parse_time parse-format)
      (process_task two_channels readings (task_of 1) idle).events
process_task-IsDecoded_example =
    process_task-IsDecoded format_time parse_time parse-format two_channels readings (task_of 1)
      idle some_id

bounce_reason : suppression_reason_for_event bounce.event_type ≡ some SuppressionReason.hard_bounce
unfolding suppression_reason_for_event
bounce_reason = refl

applied_suppresses_example :
    (checked : SuppressionEntry) × (check_entry some env.persist
        (entry_for env bounce SuppressionReason.hard_bounce)
      ≡ normalized checked)
    × (x : SuppressionEntry) × (contains
          (some (apply_provider_event env times bounce start).1.suppressed)
          checked.app_code
          checked.normalized_email
        ≡ some x)
applied_suppresses_example =
    applied_suppresses env bounce times start (file_with []) SuppressionReason.hard_bounce "msg_1"
      "shop" MessageStatus.bounced refl bounce_reason applies
