-- ===== src/Api/Events/Redelivery.antt =====
-- A provider that delivers an event again.
use mux_mail.Prelude.{
  ◌≡◌, ◌≢◌, refl, sym, ap, ◌∙◌, Bool, true, false, Option, none, some, String, [], ◌==◌, string_eq,
  arith,
}
use mux_mail.Domain.Constants.{
  MessageStatus, ProviderEventType, SuppressionReason, message_status_is_valid,
}
use mux_mail.Domain.Email.{codes}
use mux_mail.Domain.Types.{ProviderEvent, SuppressionEntry}
use mux_mail.Lite.Time.{Time}
use mux_mail.Lite.Suppression
use mux_mail.Lite.Suppression.{SuppressionEntries, SuppressionError, AddResult, added, add}
use mux_mail.Lite.Suppression.Twice.{add_twice}
use mux_mail.Lite.Jsonl.{JsonlWriter, query_paths}
use mux_mail.Lite.Jsonl.Contents.{HasBackups}
use mux_mail.Lite.Records.{
  Line, answer, MessageSnapshot, ProviderEventSnapshot, encode_message_record,
  encode_provider_event_record,
}
use mux_mail.Lite.Records.Decode.{provider_event_fields_ok}
use mux_mail.Lite.Records.RoundTrip.{snapshot_of, event_snapshot_of}
use mux_mail.Lite.MessageLog.{
  done, find_latest_message, list_attempts, exists_in_paths, webhook_message, append_message,
  append_once, append_provider_event_once, append_webhook_message_status,
}
use mux_mail.Lite.MessageLog.Laws.{
  IsShort, find_latest_message-append_message, find_latest_message-asked, append_once-found,
  once_again,
}
use mux_mail.Api.Events.{
  EventEnv, EventTimes, EventState, EventResult, response, next_provider_event_message_status,
  event_type_for_message_status, suppression_reason_for_event, recipient_error, attempt_error,
  suppress_for_event, move_status, after_event, record_event, apply_provider_event,
}
use mux_mail.Api.Events.Status.{written-status, next_is_valid, next-again}
use mux_mail.Api.Events.Steps.{
  went_through, Moved, move_status-Moved, after_event-went, record_event-went, apply-went,
  not_moved, stayed, moved,
}

module _ (env : EventEnv) (event : ProviderEvent) where
  -- The event has had all its effects on the message.
  record Settled (t : EventState) (status : MessageStatus) : Type 0 where
    snapshot : MessageSnapshot
    is_latest :
        find_latest_message env.size env.format_time env.parse_time event.app_code event.message_id
          t.log
        ≡ answer (some snapshot)
    has_attempt : attempt_error env event t.log ≡ none
    has_recipient : recipient_error env snapshot event ≡ none
    events : JsonlWriter Line
    open_log : t.log.events ≡ some events
    is_recorded :
        exists_in_paths env.size env.format_time env.parse_time event (query_paths events)
        ≡ answer true
    is_suppressed : suppress_for_event env event t.suppressed ≡ (none, t.suppressed)
    is_moved : next_provider_event_message_status snapshot.status event.event_type ≡ none
    has_status : snapshot.status ≡ status

  record_event-there :
      (times : EventTimes) (t : EventState) (snapshot : MessageSnapshot)
      → append_provider_event_once env.size env.format_time env.parse_time times.event_fault
          times.event_at event t.log
        ≡ (done false, t.log)
      → record_event env times snapshot event t ≡ after_event env times snapshot event t
  unfolding record_event
  record_event-there times t snapshot h =
      rw (h, record_event)
        (ap (λ p. after_event env times snapshot event (record t { log = p.1 })) h)

  after_event-there :
      (times : EventTimes) (t : EventState) (snapshot : MessageSnapshot)
      → suppress_for_event env event t.suppressed ≡ (none, t.suppressed)
      → after_event env times snapshot event t ≡ move_status env times snapshot event t
  unfolding after_event
  after_event-there times t snapshot h =
      rw (h, after_event)
        (ap (λ p. move_status env times snapshot event (record t { suppressed = p.1 })) h)

  move_status-there :
      (times : EventTimes) (t : EventState) (snapshot : MessageSnapshot)
      → next_provider_event_message_status snapshot.status event.event_type ≡ none
      → move_status env times snapshot event t
        ≡ (response event.message_id event.app_code snapshot.status, t)
  unfolding move_status
  move_status-there times t snapshot h = rw (h, move_status) refl

  module _ (parse-format : (t : Time) → env.parse_time (env.format_time t) ≡ some t) where
    Settled-again :
        (times : EventTimes) (t : EventState) (status : MessageStatus)
        → Settled t status
        → apply_provider_event env times event t
          ≡ (response event.message_id event.app_code status, t)
    Settled-again times t status k =
        went_through env event times t k.snapshot k.is_latest k.has_attempt k.has_recipient
        ∙ record_event-there times t k.snapshot (
            once_again env.size env.format_time env.parse_time parse-format event t.log k.events
              k.open_log k.is_recorded times.event_fault times.event_at)
        ∙ after_event-there times t k.snapshot k.is_suppressed
        ∙ move_status-there times t k.snapshot k.is_moved
        ∙ ap (λ x. (response event.message_id event.app_code x, t)) k.has_status

    suppress_twice :
        (entries : SuppressionEntries)
        → (suppress_for_event env event entries).0 ≡ none
        → suppress_for_event env event (suppress_for_event env event entries).1
          ≡ (none, (suppress_for_event env event entries).1)
    unfolding suppress_for_event
    suppress_twice entries h = by_reason (suppression_reason_for_event event.event_type) h
      where
        entry_of : SuppressionReason → SuppressionEntry
        entry_of reason = record {
          app_code = codes event.app_code;
          email = event.recipient_email;
          normalized_email = [];
          reason = reason;
        }

        error_of : AddResult → Option SuppressionError
        error_of r = elim r [ added b ↦ none | Suppression.refused e ↦ some e ]

        after :
            Option SuppressionReason
            → SuppressionEntries
            → Option SuppressionError × SuppressionEntries
        after r m = elim r [
          | none ↦ (none, m)
          | some reason ↦
              let (result, m') = add env.parse_address env.persist (entry_of reason) m in
              (error_of result, m')
        ]

        is_added : (r : AddResult) → error_of r ≡ none → (b : Bool) × (r ≡ added b)
        is_added (added b) e = (b, refl)
        is_added (Suppression.refused x) e = absurd (cc e)

        by_reason :
            (r : Option SuppressionReason)
            → (after r entries).0 ≡ none
            → after r (after r entries).1 ≡ (none, (after r entries).1)
        by_reason none h = refl
        by_reason (some reason) h =
            let (b, e) =
              is_added (add env.parse_address env.persist (entry_of reason) entries).0 h in
            ap (λ p. (error_of p.0, p.1))
              (add_twice env.parse_address env.persist (entry_of reason) entries b e)

    -- Every status that this step could write has a record that the scanner takes.
    abbrev pub HasShortStatus : EventTimes → MessageSnapshot → Type 0
    HasShortStatus times snapshot =
        (kind : ProviderEventType)
        → IsShort env.size (
            encode_message_record env.format_time times.status_at
              (webhook_message env.size env.format_time env.parse_time snapshot kind))

    moved_latest :
        (times : EventTimes) (snapshot : MessageSnapshot) (s : EventState) (status : MessageStatus)
        → find_latest_message env.size env.format_time env.parse_time event.app_code
            event.message_id s.log
          ≡ answer (some snapshot)
        → event.message_id ≢ ""
        → HasBackups s.log.messages
        → HasShortStatus times snapshot
        → next_provider_event_message_status snapshot.status event.event_type ≡ some status
        → (append_webhook_message_status env.size env.format_time env.parse_time times.status_fault
            times.status_at snapshot
            (event_type_for_message_status status)
            s.log).0
          ≡ none
        → find_latest_message env.size env.format_time env.parse_time event.app_code
            event.message_id
            (append_webhook_message_status env.size env.format_time env.parse_time
              times.status_fault times.status_at snapshot
              (event_type_for_message_status status)
              s.log).1
          ≡ answer (
              some (
                snapshot_of env.format_time env.parse_time parse-format times.status_at (
                  webhook_message env.size env.format_time env.parse_time snapshot
                    (event_type_for_message_status status))))
    unfolding append_webhook_message_status
    moved_latest times snapshot s status found some_id some_backup short n ok =
        let (same_app, same_id) =
          find_latest_message-asked env.size env.format_time env.parse_time event.app_code
            event.message_id s.log snapshot found in
        let message =
          webhook_message env.size env.format_time env.parse_time snapshot
            (event_type_for_message_status status) in
        let l =
          (append_message env.size env.format_time env.parse_time times.status_fault times.status_at
            message s.log).1 in
        ap (λ a. find_latest_message env.size env.format_time env.parse_time a event.message_id l)
          (sym same_app)
        ∙ ap
            (λ i. find_latest_message env.size env.format_time env.parse_time snapshot.app_code i l)
            (sym same_id)
        ∙ find_latest_message-append_message env.size env.format_time env.parse_time parse-format
            times.status_fault times.status_at message s.log (some snapshot) some_backup
            (ap
                (λ a.
                  find_latest_message env.size env.format_time env.parse_time a snapshot.message_id
                    s.log)
                same_app
              ∙ ap
                  (λ i.
                    find_latest_message env.size env.format_time env.parse_time event.app_code i
                      s.log)
                  same_id
              ∙ found)
            (λ e. some_id (sym same_id ∙ e))
            (ap message_status_is_valid (written-status snapshot.status event.event_type status n)
              ∙ next_is_valid snapshot.status event.event_type status n)
            (short (event_type_for_message_status status)) ok

    Moved-Settled :
        (times : EventTimes) (snapshot : MessageSnapshot) (s : EventState)
        (events : JsonlWriter Line)
        → find_latest_message env.size env.format_time env.parse_time event.app_code
            event.message_id s.log
          ≡ answer (some snapshot)
        → attempt_error env event s.log ≡ none
        → recipient_error env snapshot event ≡ none
        → s.log.events ≡ some events
        → exists_in_paths env.size env.format_time env.parse_time event (query_paths events)
          ≡ answer true
        → suppress_for_event env event s.suppressed ≡ (none, s.suppressed)
        → event.message_id ≢ ""
        → HasBackups s.log.messages
        → HasShortStatus times snapshot
        → {p : EventResult × EventState} → Moved env event times snapshot s p
        → (message_id app_code : String) (status : MessageStatus)
        → p.0 ≡ response message_id app_code status
        → Settled p.1 status × (p.0 ≡ response event.message_id event.app_code status)
    unfolding append_webhook_message_status append_message attempt_error list_attempts
        recipient_error
    Moved-Settled times snapshot s events found a r o x p some_id some_backup short (not_moved e t)
          i c status h =
        absurd (cc h)
    Moved-Settled times snapshot s events found a r o x p some_id some_backup short (stayed n) i c
          status h =
        (
          record {
            snapshot = snapshot;
            is_latest = found;
            has_attempt = a;
            has_recipient = r;
            events = events;
            open_log = o;
            is_recorded = x;
            is_suppressed = p;
            is_moved = n;
            has_status = cc h;
          },
          ap (response event.message_id event.app_code) (cc h),
        )
    Moved-Settled times snapshot s events found a r o x p some_id some_backup short (moved next n e)
          i c status h =
        let written = written-status snapshot.status event.event_type next n in
        (
          record {
            snapshot = snapshot_of env.format_time env.parse_time parse-format times.status_at (
                webhook_message env.size env.format_time env.parse_time snapshot
                  (event_type_for_message_status next));
            is_latest = moved_latest times snapshot s next found some_id some_backup short n e;
            has_attempt = a;
            has_recipient = r;
            events = events;
            open_log = o;
            is_recorded = x;
            is_suppressed = p;
            is_moved =
                ap (λ t. next_provider_event_message_status t event.event_type) written
                ∙ next-again snapshot.status event.event_type next n;
            has_status = written ∙ cc h;
          },
          ap (response event.message_id event.app_code) (cc h),
        )

  fields-message_id :
      (x : ProviderEventSnapshot)
      → provider_event_fields_ok env.parse_time x ≡ true
      → (x.message_id == "") ≡ true
      → ⊥
  unfolding provider_event_fields_ok
  fields-message_id x h e = ground arith

  module _ (parse-format : (t : Time) → env.parse_time (env.format_time t) ≡ some t) where
    -- When an event that a provider sends has been applied, and the provider sends it again, at any later
    -- time but with no other call in between, then the answer is the same and nothing is changed: no record
    -- is written, no stat is counted and no suppression is touched. The log of the events is open, its files
    -- and those of the messages have a backup, the event's fields are valid, and the records of the event
    -- and of the status fit the scanner.
    pub applied_once :
        (times again : EventTimes) (s : EventState) (w : JsonlWriter Line)
        (message_id app_code : String) (status : MessageStatus)
        → s.log.events ≡ some w
        → HasBackups w
        → HasBackups s.log.messages
        → provider_event_fields_ok env.parse_time
            (event_snapshot_of env.format_time env.parse_time parse-format times.event_at event)
          ≡ true
        → IsShort env.size (encode_provider_event_record env.format_time times.event_at event)
        → ((snapshot : MessageSnapshot)
            → find_latest_message env.size env.format_time env.parse_time event.app_code
                event.message_id s.log
              ≡ answer (some snapshot)
            → HasShortStatus parse-format times snapshot)
        → (apply_provider_event env times event s).0 ≡ response message_id app_code status
        → apply_provider_event env again event (apply_provider_event env times event s).1
          ≡ (response message_id app_code status, (apply_provider_event env times event s).1)
    unfolding find_latest_message attempt_error list_attempts provider_event_fields_ok
    applied_once times again s w i c status open_log events_backup messages_backup fields short
          short_status h =
        let (snapshot, found, a, r, e1) = apply-went env event times s i c status h in
        let (b, stats, d, e2) =
          record_event-went env event times snapshot s w i c status open_log
            (sym (ap (λ p. p.0) e1) ∙ h) in
        let w' =
          (append_once env.size env.format_time env.parse_time times.event_fault times.event_at
            event w).1 in
        let s1 : EventState = record s { log = record s.log { events = some w' }; stats = stats } in
        let (q, e3) =
          after_event-went env event times snapshot s1 i c status
            (sym (ap (λ p. p.0) (e1 ∙ e2)) ∙ h) in
        let s2 : EventState = record s1 {
          suppressed = (suppress_for_event env event s1.suppressed).1;
        } in
        let whole = e1 ∙ e2 ∙ e3 in
        let last = move_status env times snapshot event s2 in
        let answered = sym (ap (λ p. p.0) whole) ∙ h in
        let (k, same) =
          Moved-Settled parse-format times snapshot s2 w' found a r refl
            (append_once-found env.size env.format_time env.parse_time parse-format
              times.event_fault times.event_at event b w events_backup fields short d)
            (suppress_twice parse-format s1.suppressed q)
            (λ e.
              fields-message_id
                (event_snapshot_of env.format_time env.parse_time parse-format times.event_at event)
                fields ((string_eq.beq_iff event.message_id "").1 e))
            messages_backup (short_status snapshot found)
            (move_status-Moved env event times snapshot s2) i c status answered in
        ap (λ p. apply_provider_event env again event p.1) whole
        ∙ Settled-again parse-format again last.1 status k
        ∙ ap (λ x. (x, last.1)) (sym same ∙ answered)
        ∙ ap (λ p. (response i c status, p.1)) (sym whole)
