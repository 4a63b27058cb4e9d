-- ===== src/Api/Events/Steps.antt =====
-- The steps of applyProviderEvent, for a call that ends with a response.
use mux_mail.Prelude.{
  ◌≡◌, refl, sym, ap, ◌∙◌, Bool, true, false, Option, none, some, String, List, ◌++◌, string_eq,
}
use mux_mail.Domain.Constants.{MessageStatus}
use mux_mail.Domain.Types.{ProviderEvent}
use mux_mail.Lite.Stats.{StatsRecord}
use mux_mail.Lite.Suppression.{SuppressionError}
use mux_mail.Lite.Jsonl.{AppendError, JsonlWriter}
use mux_mail.Lite.Records.{Line, Query, answer, failed, MessageSnapshot}
use mux_mail.Lite.MessageLog.{
  MessageLog, LogResult, done, unread, unwritten, find_latest_message, append_once,
  append_webhook_message_status,
}
use mux_mail.Lite.MessageLog.Laws.{once_in_log}
use mux_mail.Api.Events.{
  EventEnv, EventTimes, EventState, EventError, EventResult, response, refused, event_stats,
  next_provider_event_message_status, event_type_for_message_status, recipient_error, attempt_error,
  suppress_for_event, move_status, after_event, record_event, apply_provider_event,
  status_unwritten, not_suppressed, events_unread, event_unwritten, message_unread,
  message_not_found,
}

module _ (env : EventEnv) (event : ProviderEvent) where
  pub went_through :
      (times : EventTimes) (t : EventState) (snapshot : MessageSnapshot)
      → find_latest_message env.size env.format_time env.parse_time event.app_code event.message_id
          t.log
        ≡ answer (some snapshot)
      → attempt_error env event t.log ≡ none
      → recipient_error env snapshot event ≡ none
      → apply_provider_event env times event t ≡ record_event env times snapshot event t
  unfolding apply_provider_event
  went_through times t snapshot f a r = rw (f, a, r, apply_provider_event) refl

  -- How the last step ends, without an error.
  pub data Moved (times : EventTimes) (snapshot : MessageSnapshot) (s : EventState)
      : EventResult × EventState → Type 0 where
    not_moved : (e : EventError) (t : EventState) → Moved times snapshot s (refused e, t)
    stayed :
        next_provider_event_message_status snapshot.status event.event_type ≡ none
        → Moved times snapshot s (response event.message_id event.app_code snapshot.status, s)
    moved :
        (status : MessageStatus)
        → next_provider_event_message_status snapshot.status event.event_type ≡ some status
        → (append_webhook_message_status env.size env.format_time env.parse_time times.status_fault
            times.status_at snapshot
            (event_type_for_message_status status)
            s.log).0
          ≡ none
        → Moved times snapshot s (
          response event.message_id event.app_code status,
          record s {
            log =
                (append_webhook_message_status env.size env.format_time env.parse_time
                  times.status_fault times.status_at snapshot
                  (event_type_for_message_status status)
                  s.log).1;
          },
        )

  pub move_status-Moved :
      (times : EventTimes) (snapshot : MessageSnapshot) (s : EventState)
      → Moved times snapshot s (move_status env times snapshot event s)
  unfolding move_status
  move_status-Moved times snapshot s = by_next _ refl
    where
      append : MessageStatus → Option AppendError × MessageLog
      append status =
          append_webhook_message_status env.size env.format_time env.parse_time times.status_fault
            times.status_at snapshot (event_type_for_message_status status) s.log

      by_append :
          (status : MessageStatus) (e : Option AppendError)
          → next_provider_event_message_status snapshot.status event.event_type ≡ some status
          → (append status).0 ≡ e
          → Moved times snapshot s (elim e [
            | some e ↦ (refused (status_unwritten e), record s { log = (append status).1 })
            | none ↦ (
              response event.message_id event.app_code status,
              record s { log = (append status).1 },
            )
          ])
      by_append status (some e) n a = not_moved (status_unwritten e) _
      by_append status none n a = moved status n a

      by_next :
          (n : Option MessageStatus)
          → next_provider_event_message_status snapshot.status event.event_type ≡ n
          → Moved times snapshot s (elim n [
            | none ↦ (response event.message_id event.app_code snapshot.status, s)
            | some status ↦ elim (append status).0 [
              | some e ↦ (refused (status_unwritten e), record s { log = (append status).1 })
              | none ↦ (
                response event.message_id event.app_code status,
                record s { log = (append status).1 },
              )
            ]
          ])
      by_next none n = stayed n
      by_next (some status) n = by_append status _ n refl

  pub after_event-went :
      (times : EventTimes) (snapshot : MessageSnapshot) (s : EventState)
      (message_id app_code : String) (status : MessageStatus)
      → (after_event env times snapshot event s).0 ≡ response message_id app_code status
      → ((suppress_for_event env event s.suppressed).0 ≡ none)
        × (after_event env times snapshot event s
            ≡ move_status env times snapshot event
                (record s { suppressed = (suppress_for_event env event s.suppressed).1 }))
  unfolding after_event
  after_event-went times snapshot s i c status h = by_error _ refl h
    where
      next : EventState
      next = record s { suppressed = (suppress_for_event env event s.suppressed).1 }

      outcome : Option SuppressionError → EventResult × EventState
      outcome e = elim e [
        | some e ↦ (refused (not_suppressed e), next)
        | none ↦ move_status env times snapshot event next
      ]

      by_error :
          (e : Option SuppressionError)
          → (suppress_for_event env event s.suppressed).0 ≡ e
          → (outcome e).0 ≡ response i c status
          → ((suppress_for_event env event s.suppressed).0 ≡ none)
            × (outcome e ≡ move_status env times snapshot event next)
      by_error (some x) e h = absurd (cc h)
      by_error none e h = (e, refl)

  pub record_event-went :
      (times : EventTimes) (snapshot : MessageSnapshot) (s : EventState) (w : JsonlWriter Line)
      (message_id app_code : String) (status : MessageStatus)
      → s.log.events ≡ some w
      → (record_event env times snapshot event s).0 ≡ response message_id app_code status
      → (b : Bool) × (stats : List StatsRecord) × ((append_once env.size env.format_time
            env.parse_time times.event_fault times.event_at event w).0
          ≡ done b)
        × (record_event env times snapshot event s
            ≡ after_event env times snapshot event (record s {
              log = record s.log {
                events =
                    some
                      (append_once env.size env.format_time env.parse_time times.event_fault
                        times.event_at event w).1;
              };
              stats = stats;
            }))
  unfolding record_event
  record_event-went times snapshot s w i c status open_log h =
      let eq =
        once_in_log env.size env.format_time env.parse_time times.event_fault times.event_at event
          s.log w open_log in
      let (b, stats, d, e) =
        by_result
          (append_once env.size env.format_time env.parse_time times.event_fault times.event_at
            event w).0
          refl (sym (ap (λ p. (outcome p).0) eq) ∙ h) in
      (b, stats, d, ap outcome eq ∙ e)
    where
      outcome : LogResult Bool × MessageLog → EventResult × EventState
      outcome p = elim p.0 [
        | unread e ↦ (refused (events_unread e), record s { log = p.1 })
        | unwritten e ↦ (refused (event_unwritten e), record s { log = p.1 })
        | done false ↦ after_event env times snapshot event (record s { log = p.1 })
        | done true ↦
            after_event env times snapshot event
              (record s { log = p.1; stats = s.stats ++ event_stats env snapshot event })
      ]

      l : MessageLog
      l = record s.log {
        events =
            some
              (append_once env.size env.format_time env.parse_time times.event_fault times.event_at
                event w).1;
      }

      by_result :
          (r : LogResult Bool)
          → (append_once env.size env.format_time env.parse_time times.event_fault times.event_at
              event w).0
            ≡ r
          → (outcome (r, l)).0 ≡ response i c status
          → (b : Bool) × (stats : List StatsRecord) × ((append_once env.size env.format_time
                env.parse_time times.event_fault times.event_at event w).0
              ≡ done b)
            × (outcome (r, l)
                ≡ after_event env times snapshot event (record s { log = l; stats = stats }))
      by_result (unread x) e h = absurd (cc h)
      by_result (unwritten x) e h = absurd (cc h)
      by_result (done false) e h = (false, s.stats, e, refl)
      by_result (done true) e h = (true, s.stats ++ event_stats env snapshot event, e, refl)

  pub apply-went :
      (times : EventTimes) (s : EventState) (message_id app_code : String) (status : MessageStatus)
      → (apply_provider_event env times event s).0 ≡ response message_id app_code status
      → (snapshot : MessageSnapshot) × (find_latest_message env.size env.format_time env.parse_time
            event.app_code event.message_id s.log
          ≡ answer (some snapshot))
        × (attempt_error env event s.log ≡ none)
        × (recipient_error env snapshot event ≡ none)
        × (apply_provider_event env times event s ≡ record_event env times snapshot event s)
  unfolding apply_provider_event
  apply-went times s i c status h = by_find _ refl h
    where
      gate : Option EventError → EventResult × EventState → EventResult × EventState
      gate x rest = elim x [ some e ↦ (refused e, s) | none ↦ rest ]

      outcome : Query (Option MessageSnapshot) → EventResult × EventState
      outcome q = elim q [
        | failed e ↦ (refused (message_unread e), s)
        | answer none ↦ (refused message_not_found, s)
        | answer (some snapshot) ↦
            gate (attempt_error env event s.log)
              (gate (recipient_error env snapshot event) (record_event env times snapshot event s))
      ]

      by_errors :
          (snapshot : MessageSnapshot) (a r : Option EventError)
          → attempt_error env event s.log ≡ a
          → recipient_error env snapshot event ≡ r
          → (gate a (gate r (record_event env times snapshot event s))).0 ≡ response i c status
          → (attempt_error env event s.log ≡ none) × (recipient_error env snapshot event ≡ none)
      by_errors snapshot (some x) r a b h = absurd (cc h)
      by_errors snapshot none (some x) a b h = absurd (cc h)
      by_errors snapshot none none a b h = (a, b)

      by_find :
          (q : Query (Option MessageSnapshot))
          → find_latest_message env.size env.format_time env.parse_time event.app_code
              event.message_id s.log
            ≡ q
          → (outcome q).0 ≡ response i c status
          → (snapshot : MessageSnapshot) × (find_latest_message env.size env.format_time
                env.parse_time event.app_code event.message_id s.log
              ≡ answer (some snapshot))
            × (attempt_error env event s.log ≡ none)
            × (recipient_error env snapshot event ≡ none)
            × (apply_provider_event env times event s ≡ record_event env times snapshot event s)
      by_find (failed e) q h = absurd (cc h)
      by_find (answer none) q h = absurd (cc h)
      by_find (answer (some snapshot)) q h =
          let (a, r) = by_errors snapshot _ _ refl refl h in
          (snapshot, q, a, r, went_through times s snapshot q a r)
