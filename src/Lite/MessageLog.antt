-- ===== src/Lite/MessageLog.antt =====
-- internal/lite/message_log.go: the files of messages, attempts and provider events, and the queries that read
-- them, the oldest backup first. `size` is the length of a line in bytes; the scanner refuses a line that
-- does not fit its buffer with its newline. Each operation runs under the mutex of its file.
pub mod Reads
pub mod Exists
pub mod Laws
use mux_mail.Prelude.{
  ℕ, ◌*◌, Bool, true, false, ◌&&◌, ◌||◌, not, Option, none, some, String, List, [], ◌∷◌, ◌++◌, ◌==◌,
  string_eq, leb, if◌then◌else◌,
}
use mux_mail.Prelude.Int.{ℤ}
use mux_mail.Domain.Constants.{
  MessageStatus, Provider, ProviderEventType, ErrorCode, event_message_status,
}
use mux_mail.Domain.Types.{Message, Attempt, ProviderEvent}
use mux_mail.Lite.Time.{Time}
use mux_mail.Lite.Jsonl.{Fault, AppendError, JsonlWriter, query_paths, append_line, close_writer}
use mux_mail.Lite.Records.{
  Line, Query, answer, failed, QueryError, line_too_long, log_disabled, ◌>>=◌, MessageSnapshot,
  AttemptSnapshot, ProviderEventSnapshot, encode_message_record, encode_attempt_record,
  encode_provider_event_record,
}
use mux_mail.Lite.Records.Decode.{
  decode_message_snapshot, decode_attempt_snapshot, decode_provider_event_snapshot,
  decode_provider_event_query_snapshot,
}

pub record MessageLog : Type 0 where
  pub messages : JsonlWriter Line
  pub attempts : JsonlWriter Line
  pub events : Option (JsonlWriter Line)

pub data LogResult (A : Type 0) : Type 0 where
  done : A → LogResult A
  unread : QueryError → LogResult A
  unwritten : AppendError → LogResult A

abbrev pub max_line_bytes : ℕ
max_line_bytes = 1024 * 1024

-- Go strings compared
abbrev pub same_provider : Provider → Provider → Bool
same_provider Provider.mock Provider.mock = true
same_provider Provider.resend Provider.resend = true
same_provider Provider.brevo Provider.brevo = true
same_provider (Provider.other s) (Provider.other t) = s == t
same_provider _ _ = false

abbrev pub same_event_type : ProviderEventType → ProviderEventType → Bool
same_event_type ProviderEventType.delivered ProviderEventType.delivered = true
same_event_type ProviderEventType.bounced ProviderEventType.bounced = true
same_event_type ProviderEventType.complained ProviderEventType.complained = true
same_event_type (ProviderEventType.other s) (ProviderEventType.other t) = s == t
same_event_type _ _ = false

unfoldable pub same_provider_event_identity : ProviderEvent → ProviderEvent → Bool
same_provider_event_identity a b =
    a.message_id == b.message_id
    && a.app_code == b.app_code
    && same_provider a.provider b.provider
    && a.provider_account_code == b.provider_account_code
    && a.provider_channel_code == b.provider_channel_code
    && a.provider_message_id == b.provider_message_id
    && same_event_type a.event_type b.event_type
    && a.occurred_at == b.occurred_at

abbrev pub or_earlier : {A : Type 0} → Option A → Option A → Option A
or_earlier none earlier = earlier
or_earlier (some a) earlier = some a

module _ (size : Line → ℕ) (format_time : Time → String) (parse_time : String → Option Time) where
  -- scanner.Scan and the decoding of what it returns
  abbrev pub scan : {A : Type 0} → (Line → Query A) → Line → Query A
  scan decode line = if leb max_line_bytes (size line) then failed line_too_long else decode line

  abbrev pub is_message_of : String → String → MessageSnapshot → Bool
  is_message_of app_code message_id s = s.app_code == app_code && s.message_id == message_id

  -- findLatestMessageInPath; `latest` is what the lines before have.
  unfoldable pub find_latest_in_path :
      String → String → Option MessageSnapshot → List Line → Query (Option MessageSnapshot)
  find_latest_in_path app_code message_id latest [] = answer latest
  find_latest_in_path app_code message_id latest (line ∷ lines) = do
    s ← scan (decode_message_snapshot parse_time) line
    find_latest_in_path app_code message_id
        (if is_message_of app_code message_id s then some s else latest) lines

  unfoldable pub find_latest_in_paths :
      String → String → Option MessageSnapshot → List (List Line) → Query (Option MessageSnapshot)
  unfolding find_latest_in_path
  find_latest_in_paths app_code message_id latest [] = answer latest
  find_latest_in_paths app_code message_id latest (path ∷ paths) = do
    found ← find_latest_in_path app_code message_id none path
    find_latest_in_paths app_code message_id (or_earlier found latest) paths

  -- FindLatestMessage
  unfoldable pub find_latest_message : String → String → MessageLog → Query (Option MessageSnapshot)
  unfolding find_latest_in_paths query_paths
  find_latest_message app_code message_id l =
      find_latest_in_paths app_code message_id none (query_paths l.messages)

  -- providerEventExistsInPath: it stops at the first event that has the identity.
  unfoldable pub exists_in_path : ProviderEvent → List Line → Query Bool
  exists_in_path target [] = answer false
  exists_in_path target (line ∷ lines) = do
    recorded ← scan (decode_provider_event_snapshot parse_time) line
    elim (same_provider_event_identity recorded target) [
      | true ↦ answer true
      | false ↦ exists_in_path target lines
    ]

  unfoldable pub exists_in_paths : ProviderEvent → List (List Line) → Query Bool
  unfolding exists_in_path
  exists_in_paths target [] = answer false
  exists_in_paths target (path ∷ paths) = do
    found ← exists_in_path target path
    elim found [ true ↦ answer true | false ↦ exists_in_paths target paths ]

  -- HasProviderEvent
  unfoldable pub has_provider_event : ProviderEvent → MessageLog → Query Bool
  unfolding exists_in_paths query_paths
  has_provider_event event l = elim l.events [
    | none ↦ answer false
    | some w ↦ exists_in_paths event (query_paths w)
  ]

  -- listAttemptsInPath, listProviderEventsInPath and listRecentProviderEventsInPath: the records that pass the
  -- filter, in the order of the file.
  unfoldable pub list_in_path :
      {A : Type 0} → (Line → Query A) → (A → Bool) → List Line → Query (List A)
  list_in_path decode keeps [] = answer []
  list_in_path decode keeps (line ∷ lines) = do
    recorded ← scan decode line
    rest ← list_in_path decode keeps lines
    answer (if keeps recorded then recorded ∷ rest else rest)

  unfoldable pub list_in_paths :
      {A : Type 0} → (Line → Query A) → (A → Bool) → List (List Line) → Query (List A)
  unfolding list_in_path
  list_in_paths decode keeps [] = answer []
  list_in_paths decode keeps (path ∷ paths) = do
    batch ← list_in_path decode keeps path
    rest ← list_in_paths decode keeps paths
    answer (batch ++ rest)

  -- ListAttempts
  unfoldable pub list_attempts : String → String → MessageLog → Query (List AttemptSnapshot)
  unfolding list_in_paths query_paths
  list_attempts app_code message_id l =
      list_in_paths (decode_attempt_snapshot parse_time)
        (λ a. a.app_code == app_code && a.message_id == message_id) (query_paths l.attempts)

  -- ListProviderEvents
  unfoldable pub list_provider_events :
      String → String → MessageLog → Query (List ProviderEventSnapshot)
  unfolding list_in_paths query_paths
  list_provider_events app_code message_id l = elim l.events [
    | none ↦ answer []
    | some w ↦
        list_in_paths (decode_provider_event_query_snapshot parse_time)
          (λ e. e.app_code == app_code && e.message_id == message_id) (query_paths w)
  ]

  -- AppendMessage
  unfoldable pub append_message :
      Option Fault → Time → Message → MessageLog → Option AppendError × MessageLog
  append_message fault now message l =
      let (e, w) =
        append_line size fault (encode_message_record format_time now message) l.messages in
      (e, record l { messages = w })

  -- AppendAttempt
  unfoldable pub append_attempt :
      Option Fault → Time → Attempt → MessageLog → Option AppendError × MessageLog
  append_attempt fault now attempt l =
      let (e, w) =
        append_line size fault (encode_attempt_record format_time now attempt) l.attempts in
      (e, record l { attempts = w })

  -- AppendProviderEventOnce over the file of the events.
  unfoldable pub append_once :
      Option Fault → Time → ProviderEvent → JsonlWriter Line → LogResult Bool × JsonlWriter Line
  unfolding exists_in_paths
  append_once fault now event w = elim (exists_in_paths event (query_paths w)) [
    | failed e ↦ (unread e, w)
    | answer true ↦ (done false, w)
    | answer false ↦
        let (e, w') =
          append_line size fault (encode_provider_event_record format_time now event) w in
        (elim e [ some e ↦ unwritten e | none ↦ done true ], w')
  ]

  -- AppendProviderEventOnce
  unfoldable pub append_provider_event_once :
      Option Fault → Time → ProviderEvent → MessageLog → LogResult Bool × MessageLog
  unfolding append_once
  append_provider_event_once fault now event l = elim l.events [
    | none ↦ (unread log_disabled, l)
    | some w ↦
        let (result, w') = append_once fault now event w in (result, record l { events = some w' })
  ]

  -- AppendWebhookMessageStatus
  abbrev pub webhook_message : MessageSnapshot → ProviderEventType → Message
  webhook_message snapshot event_type = record {
    request_id = snapshot.request_id;
    business_request_id = snapshot.business_request_id;
    message_id = snapshot.message_id;
    app_code = snapshot.app_code;
    api_key_name = snapshot.api_key_name;
    scene_code = snapshot.scene_code;
    to_email = [];
    normalized_to_email = [];
    to_domain = snapshot.to_domain;
    to_hash = snapshot.to_hash;
    locale = snapshot.locale;
    subject = "";
    html_body = "";
    text_body = "";
    provider_channels = [];
    status = event_message_status event_type;
    idempotency_hash = "";
    request_fingerprint = "";
    caller_ip = [];
    user_ip = [];
    user_id_hash = "";
    error_code = ErrorCode.other "";
    error_message = [];
  }

  unfoldable pub append_webhook_message_status :
      Option Fault
      → Time
      → MessageSnapshot
      → ProviderEventType
      → MessageLog
      → Option AppendError × MessageLog
  unfolding append_message
  append_webhook_message_status fault now snapshot event_type =
      append_message fault now (webhook_message snapshot event_type)

-- Close
unfoldable pub close_log : MessageLog → MessageLog
close_log l = record l {
  messages = close_writer l.messages;
  attempts = close_writer l.attempts;
  events = elim l.events [ none ↦ none | some w ↦ some (close_writer w) ];
}
