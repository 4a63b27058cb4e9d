-- ===== src/Api/Events/Suppressed.antt =====
-- The recipient of a bounce or a complaint.
use mux_mail.Prelude.{◌≡◌, refl, sym, ap, ◌∙◌, Bool, Option, none, some, []}
use mux_mail.Domain.Constants.{MessageStatus, SuppressionReason}
use mux_mail.Domain.Types.{ProviderEvent, SuppressionEntry}
use mux_mail.Domain.Email.{codes}
use mux_mail.Prelude.{String}
use mux_mail.Lite.Suppression
use mux_mail.Lite.Suppression.{
  SuppressionEntries, SuppressionError, AddResult, added, Checked, normalized, invalid, check_entry,
  contains, add,
}
use mux_mail.Lite.Suppression.Laws.{add_suppresses}
use mux_mail.Lite.Suppression.Twice.{add_invalid}
use mux_mail.Lite.Jsonl.{JsonlWriter}
use mux_mail.Lite.Records.{Line, MessageSnapshot}
use mux_mail.Lite.MessageLog.{append_once}
use mux_mail.Api.Events.{
  EventEnv, EventTimes, EventState, EventResult, response, suppression_reason_for_event,
  suppress_for_event, apply_provider_event,
}
use mux_mail.Api.Events.Steps.{
  Moved, move_status-Moved, not_moved, stayed, moved, after_event-went, record_event-went,
  apply-went,
}

module _ (env : EventEnv) (event : ProviderEvent) where
  abbrev pub entry_for : SuppressionReason → SuppressionEntry
  entry_for reason = record {
    app_code = codes event.app_code;
    email = event.recipient_email;
    normalized_email = [];
    reason = reason;
  }

  is_added :
      (r : AddResult)
      → (elim r [ added b ↦ none | Suppression.refused e ↦ some e ]) ≡ none
      → (b : Bool) × (r ≡ added b)
  is_added (added b) e = (b, refl)
  is_added (Suppression.refused x) e = absurd (cc e)

  add-Found :
      (reason : SuppressionReason) (entries : SuppressionEntries) (b : Bool)
      → (add env.parse_address env.persist (entry_for reason) entries).0 ≡ added b
      → (checked : SuppressionEntry) × (check_entry env.parse_address env.persist (entry_for reason)
          ≡ normalized checked)
        × (x : SuppressionEntry) × (contains
              (some (add env.parse_address env.persist (entry_for reason) entries).1)
              checked.app_code
              checked.normalized_email
            ≡ some x)
  add-Found reason entries b h = by_check _ refl
    where
      by_check :
          (c : Checked)
          → check_entry env.parse_address env.persist (entry_for reason) ≡ c
          → (checked : SuppressionEntry) × (check_entry env.parse_address env.persist
                (entry_for reason)
              ≡ normalized checked)
            × (x : SuppressionEntry) × (contains
                  (some (add env.parse_address env.persist (entry_for reason) entries).1)
                  checked.app_code
                  checked.normalized_email
                ≡ some x)
      by_check (invalid e) c = absurd (
          cc (
            ap (λ p. p.0)
                (add_invalid env.parse_address env.persist (entry_for reason) e entries c),
            h,
          ))
      by_check (normalized checked) c =
          let (x, found) =
            add_suppresses env.parse_address env.persist (entry_for reason) checked entries b c h in
          (checked, c, x, found)

  suppress_for_event-some :
      (entries : SuppressionEntries) (reason : SuppressionReason)
      → suppression_reason_for_event event.event_type ≡ some reason
      → (suppress_for_event env event entries).0 ≡ none
      → (b : Bool) × ((add env.parse_address env.persist (entry_for reason) entries).0 ≡ added b)
        × ((suppress_for_event env event entries).1
            ≡ (add env.parse_address env.persist (entry_for reason) entries).1)
  unfolding suppress_for_event
  suppress_for_event-some entries reason r h =
      by_reason (suppression_reason_for_event event.event_type) r h
    where
      suppress : Option SuppressionReason → Option SuppressionError × SuppressionEntries
      suppress o = elim o [
        | none ↦ (none, entries)
        | some reason ↦
            let (result, entries') = add env.parse_address env.persist (entry_for reason) entries in
            (elim result [ added b ↦ none | Suppression.refused e ↦ some e ], entries')
      ]

      by_reason :
          (o : Option SuppressionReason)
          → o ≡ some reason
          → (suppress o).0 ≡ none
          → (b : Bool) × ((add env.parse_address env.persist (entry_for reason) entries).0
              ≡ added b)
            × ((suppress o).1 ≡ (add env.parse_address env.persist (entry_for reason) entries).1)
      by_reason o r h =
          let (b, e) =
            is_added (add env.parse_address env.persist (entry_for reason) entries).0
              (sym (ap (λ o. (suppress o).0) r) ∙ h) in
          (b, e, ap (λ o. (suppress o).1) r)

  Moved-suppressed :
      (times : EventTimes) (snapshot : MessageSnapshot) (s : EventState)
      (p : EventResult × EventState)
      → Moved env event times snapshot s p
      → (message_id app_code : String) (status : MessageStatus)
      → p.0 ≡ response message_id app_code status
      → p.1.suppressed ≡ s.suppressed
  Moved-suppressed times snapshot s _ (not_moved e t) i c status h = absurd (cc h)
  Moved-suppressed times snapshot s _ (stayed n) i c status h = refl
  Moved-suppressed times snapshot s _ (moved next n e) i c status h = refl

  -- When a bounce or a complaint has been applied, its recipient, as Add reads the address, is on the list of
  -- the event's app. The log of the events is open.
  pub applied_suppresses :
      (times : EventTimes) (s : EventState) (w : JsonlWriter Line) (reason : SuppressionReason)
      (message_id app_code : String) (status : MessageStatus)
      → s.log.events ≡ some w
      → suppression_reason_for_event event.event_type ≡ some reason
      → (apply_provider_event env times event s).0 ≡ response message_id app_code status
      → (checked : SuppressionEntry) × (check_entry env.parse_address env.persist (entry_for reason)
          ≡ normalized checked)
        × (x : SuppressionEntry) × (contains
              (some (apply_provider_event env times event s).1.suppressed)
              checked.app_code
              checked.normalized_email
            ≡ some x)
  applied_suppresses times s w reason i c status open_log r h =
      let (snapshot, found, a, m, e1) = apply-went env event times s i c status h in
      let (b, stats, d, e2) =
        record_event-went env event times snapshot s w i c status open_log
          (sym (ap (λ p. p.0) e1) ∙ h) in
      let w' =
        (append_once env.size env.format_time env.parse_time times.event_fault times.event_at event
          w).1 in
      let s1 : EventState = record s { log = record s.log { events = some w' }; stats = stats } in
      let (q, e3) =
        after_event-went env event times snapshot s1 i c status
          (sym (ap (λ p. p.0) (e1 ∙ e2)) ∙ h) in
      let s2 : EventState = record s1 {
        suppressed = (suppress_for_event env event s.suppressed).1;
      } in
      let whole = e1 ∙ e2 ∙ e3 in
      let (b', ok, same) = suppress_for_event-some s.suppressed reason r q in
      let (checked, k, x, there) = add-Found reason s.suppressed b' ok in
      let kept =
        ap (λ p. p.1.suppressed) whole
        ∙ Moved-suppressed times snapshot s2 _ (move_status-Moved env event times snapshot s2) i c
            status (sym (ap (λ p. p.0) whole) ∙ h)
        ∙ same in
      (
        checked,
        k,
        x,
        ap (λ l. contains (some l) checked.app_code checked.normalized_email) kept ∙ there,
      )
