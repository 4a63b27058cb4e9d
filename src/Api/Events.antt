-- ===== src/Api/Events.antt =====
-- internal/api/provider_event.go: applyProviderEvent, which takes a provider's event about a message that was sent:
-- it records the event, suppresses the recipient of a bounce or complaint, and moves the status of the
-- message. It runs under the lock `eventMu`.
pub mod Status
pub mod Steps
pub mod Redelivery
pub mod Suppressed
use mux_mail.Prelude.{
  ℕ, Bool, true, false, ◌&&◌, ◌||◌, not, Option, none, some, String, List, [], ◌∷◌, ◌++◌, ◌==◌,
  string_eq, nat_eq, if◌then◌else◌,
}
use mux_mail.Prelude.Int.{ℤ, pos, negsuc}
use mux_mail.Prelude.Assoc.{Assoc, insert}
use mux_mail.Domain.Constants.{
  MessageStatus, AttemptStatus, ProviderEventType, SuppressionReason, event_message_status,
}
use mux_mail.Domain.Types.{Runes, ProviderEvent, SuppressionEntry}
use mux_mail.Domain.Email.{codes, normalize_addr_spec_email}
use mux_mail.Domain.Hash.{to_hash}
use mux_mail.Lite.Time.{Time}
use mux_mail.Lite.Stats.{StatsRecord, count_of}
use mux_mail.Lite.Suppression
use mux_mail.Lite.Suppression.{SuppressionEntries, SuppressionError, added, add}
use mux_mail.Lite.Jsonl.{Fault, AppendError}
use mux_mail.Lite.Records.{
  Line, Query, answer, failed, QueryError, MessageSnapshot, AttemptSnapshot,
}
use mux_mail.Lite.MessageLog.{
  MessageLog, LogResult, done, unread, unwritten, same_provider, find_latest_message, list_attempts,
  append_provider_event_once, append_webhook_message_status,
}

abbrev pub same_message_status : MessageStatus → MessageStatus → Bool
same_message_status MessageStatus.queued MessageStatus.queued = true
same_message_status MessageStatus.sending MessageStatus.sending = true
same_message_status MessageStatus.retrying MessageStatus.retrying = true
same_message_status MessageStatus.sent MessageStatus.sent = true
same_message_status MessageStatus.failed MessageStatus.failed = true
same_message_status MessageStatus.delivered MessageStatus.delivered = true
same_message_status MessageStatus.bounced MessageStatus.bounced = true
same_message_status MessageStatus.complained MessageStatus.complained = true
same_message_status (MessageStatus.other s) (MessageStatus.other t) = s == t
same_message_status _ _ = false

abbrev pub message_status_is_empty : MessageStatus → Bool
message_status_is_empty (MessageStatus.other s) = s == ""
message_status_is_empty _ = false

-- The switch of nextProviderEventMessageStatus over the current status.
abbrev pub moves_to : MessageStatus → MessageStatus → Bool
moves_to MessageStatus.failed next = false
moves_to MessageStatus.complained next = false
moves_to MessageStatus.bounced next = same_message_status next MessageStatus.complained
moves_to MessageStatus.delivered next =
    not (same_message_status next MessageStatus.delivered)
    && (same_message_status next MessageStatus.bounced
        || same_message_status next MessageStatus.complained)
moves_to _ next = true

-- nextProviderEventMessageStatus
unfoldable pub next_provider_event_message_status :
    MessageStatus → ProviderEventType → Option MessageStatus
next_provider_event_message_status current event_type =
    let next = event_message_status event_type in
    if message_status_is_empty next || same_message_status current next
    then none
    else if moves_to current next
    then some next
    else none

unfoldable pub event_type_for_message_status : MessageStatus → ProviderEventType
event_type_for_message_status MessageStatus.delivered = ProviderEventType.delivered
event_type_for_message_status MessageStatus.bounced = ProviderEventType.bounced
event_type_for_message_status MessageStatus.complained = ProviderEventType.complained
event_type_for_message_status _ = ProviderEventType.other ""

unfoldable pub provider_event_metric : ProviderEventType → Option String
provider_event_metric ProviderEventType.delivered = some "provider_events_delivered"
provider_event_metric ProviderEventType.bounced = some "provider_events_bounced"
provider_event_metric ProviderEventType.complained = some "provider_events_complained"
provider_event_metric (ProviderEventType.other s) = none

unfoldable pub suppression_reason_for_event : ProviderEventType → Option SuppressionReason
suppression_reason_for_event ProviderEventType.bounced = some SuppressionReason.hard_bounce
suppression_reason_for_event ProviderEventType.complained = some SuppressionReason.complaint
suppression_reason_for_event _ = none

abbrev pub same_int : ℤ → ℤ → Bool
same_int (pos m) (pos n) = m == n
same_int (negsuc m) (negsuc n) = m == n
same_int _ _ = false

-- latestAttemptsByNumber: a later attempt takes the place of one with its number.
abbrev pub set_attempt : AttemptSnapshot → List AttemptSnapshot → List AttemptSnapshot
set_attempt attempt [] = attempt ∷ []
set_attempt attempt (a ∷ latest) =
    let rest = set_attempt attempt latest in
    if same_int a.attempt_no attempt.attempt_no then attempt ∷ latest else a ∷ rest

unfoldable pub latest_attempts_by_number :
    List AttemptSnapshot → List AttemptSnapshot → List AttemptSnapshot
latest_attempts_by_number latest [] = latest
latest_attempts_by_number latest (attempt ∷ attempts) =
    latest_attempts_by_number (set_attempt attempt latest) attempts

abbrev pub is_sent_status : AttemptStatus → Bool
is_sent_status AttemptStatus.sent = true
is_sent_status _ = false

-- The test of the loop of validateProviderEventAttempt.
abbrev pub matches_attempt : ProviderEvent → AttemptSnapshot → Bool
matches_attempt event a =
    is_sent_status a.status
    && same_provider a.provider event.provider
    && a.provider_account_code == event.provider_account_code
    && a.provider_channel_code == event.provider_channel_code
    && (a.provider_message_id == event.provider_message_id || a.provider_message_id == "")

unfoldable pub any_attempt_matches : ProviderEvent → List AttemptSnapshot → Bool
any_attempt_matches event [] = false
any_attempt_matches event (a ∷ attempts) =
    matches_attempt event a || any_attempt_matches event attempts

-- What is not the program's own: the length of a line, the formats of the package time, SHA-256, net/mail's
-- parser, and the file of the suppression store.
pub record EventEnv : Type 0 where
  pub size : Line → ℕ
  pub format_time : Time → String
  pub parse_time : String → Option Time
  pub sha256_hex : Runes → String
  pub parse_address : Runes → Option Runes
  pub persist : SuppressionEntries → Option String

-- What the clock says at the two writes, and the faults that their rotations would meet.
pub record EventTimes : Type 0 where
  pub event_at : Time
  pub event_fault : Option Fault
  pub status_at : Time
  pub status_fault : Option Fault

pub record EventState : Type 0 where
  pub log : MessageLog
  pub suppressed : SuppressionEntries
  pub stats : List StatsRecord

pub data EventError : Type 0 where
  message_unread attempts_unread events_unread : QueryError → EventError
  message_not_found no_sent_attempt recipient_invalid recipient_mismatch : EventError
  event_unwritten status_unwritten : AppendError → EventError
  not_suppressed : SuppressionError → EventError

-- providerEventResponse, or what writeAPIError is given.
pub data EventResult : Type 0 where
  response : String → String → MessageStatus → EventResult
  refused : EventError → EventResult

module _ (env : EventEnv) where
  -- validateProviderEventRecipientMatchesMessage, with `none` for no error.
  unfoldable pub recipient_error : MessageSnapshot → ProviderEvent → Option EventError
  unfolding suppression_reason_for_event
  recipient_error snapshot event = elim (suppression_reason_for_event event.event_type) [
    | none ↦ none
    | some reason ↦ elim (normalize_addr_spec_email env.parse_address event.recipient_email) [
      | none ↦ some recipient_invalid
      | some address ↦
          if snapshot.to_hash == ""
            || not (to_hash env.sha256_hex snapshot.app_code address == snapshot.to_hash)
          then some recipient_mismatch
          else none
    ]
  ]

  -- validateProviderEventAttempt, with `none` for no error.
  unfoldable pub attempt_error : ProviderEvent → MessageLog → Option EventError
  unfolding latest_attempts_by_number any_attempt_matches
  attempt_error event l =
      elim (list_attempts env.size env.format_time env.parse_time event.app_code event.message_id
        l) [
          | failed e ↦ some (attempts_unread e)
          | answer attempts ↦
              if any_attempt_matches event (latest_attempts_by_number [] attempts)
              then none
              else some no_sent_attempt
        ]

  -- recordProviderEventStat
  unfoldable pub event_stats : MessageSnapshot → ProviderEvent → List StatsRecord
  unfolding provider_event_metric
  event_stats snapshot event = elim (provider_event_metric event.event_type) [
    | none ↦ []
    | some metric ↦ count_of snapshot.app_code snapshot.scene_code metric ∷ []
  ]

  -- applySuppressionForEvent, with `none` for no error.
  unfoldable pub suppress_for_event :
      ProviderEvent → SuppressionEntries → Option SuppressionError × SuppressionEntries
  unfolding suppression_reason_for_event
  suppress_for_event event entries = elim (suppression_reason_for_event event.event_type) [
    | none ↦ (none, entries)
    | some reason ↦
        let (result, entries') =
          add env.parse_address env.persist
            (record {
              app_code = codes event.app_code;
              email = event.recipient_email;
              normalized_email = [];
              reason = reason;
            })
            entries in
        (elim result [ added b ↦ none | Suppression.refused e ↦ some e ], entries')
  ]

  -- appendProviderEventMessageStatus and the response.
  unfoldable pub move_status :
      EventTimes → MessageSnapshot → ProviderEvent → EventState → EventResult × EventState
  unfolding next_provider_event_message_status event_type_for_message_status
  move_status times snapshot event s =
      elim (next_provider_event_message_status snapshot.status event.event_type) [
        | none ↦ (response event.message_id event.app_code snapshot.status, s)
        | some status ↦
            let (e, l) =
              append_webhook_message_status env.size env.format_time env.parse_time
                times.status_fault times.status_at snapshot (event_type_for_message_status status)
                s.log in
            let s' = record s { log = l } in
            elim e [
              | some e ↦ (refused (status_unwritten e), s')
              | none ↦ (response event.message_id event.app_code status, s')
            ]
      ]

  -- What comes after the record of the event, which is the same for one that was there.
  unfoldable pub after_event :
      EventTimes → MessageSnapshot → ProviderEvent → EventState → EventResult × EventState
  unfolding suppress_for_event move_status
  after_event times snapshot event s =
      let (e, entries) = suppress_for_event event s.suppressed in
      let s' = record s { suppressed = entries } in
      elim e [
        | some e ↦ (refused (not_suppressed e), s')
        | none ↦ move_status times snapshot event s'
      ]

  unfoldable pub record_event :
      EventTimes → MessageSnapshot → ProviderEvent → EventState → EventResult × EventState
  unfolding event_stats after_event
  record_event times snapshot event s =
      let (result, l) =
        append_provider_event_once env.size env.format_time env.parse_time times.event_fault
          times.event_at event s.log in
      let s' = record s { log = l } in
      elim result [
        | unread e ↦ (refused (events_unread e), s')
        | unwritten e ↦ (refused (event_unwritten e), s')
        | done false ↦ after_event times snapshot event s'
        | done true ↦
            after_event times snapshot event
              (record s' { stats = s.stats ++ event_stats snapshot event })
      ]

  -- applyProviderEvent
  unfoldable pub apply_provider_event :
      EventTimes → ProviderEvent → EventState → EventResult × EventState
  unfolding attempt_error recipient_error record_event
  apply_provider_event times event s =
      elim (find_latest_message env.size env.format_time env.parse_time event.app_code
        event.message_id s.log) [
          | failed e ↦ (refused (message_unread e), s)
          | answer none ↦ (refused message_not_found, s)
          | answer (some snapshot) ↦ elim (attempt_error event s.log) [
            | some e ↦ (refused e, s)
            | none ↦ elim (recipient_error snapshot event) [
              | some e ↦ (refused e, s)
              | none ↦ record_event times snapshot event s
            ]
          ]
        ]
