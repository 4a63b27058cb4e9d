-- ===== src/Lite/MessageLog/Laws.antt =====
-- What is read after an append, whatever the rotation that it needs removes.
use mux_mail.Prelude.{
  ℕ, ◌≡◌, ◌≢◌, refl, sym, ap, subst, ◌∙◌, Bool, true, false, ◌||◌, ◌&&◌, Option, none, some, String,
  List, [], ◌∷◌, ◌++◌, leb, if◌then◌else◌, ◌==◌, string_eq, beq_refl, arith,
}
use mathlib.Core.Option.{some-injective}
use mux_mail.Domain.Constants.{Provider, ProviderEventType, message_status_is_valid}
use mux_mail.Domain.Types.{Message, ProviderEvent}
use mux_mail.Lite.Time.{Time}
use mux_mail.Lite.Jsonl.{Fault, AppendError, JsonlWriter, query_paths, append_line}
use mux_mail.Lite.Jsonl.Contents.{contents, HasBackups}
use mux_mail.Lite.Jsonl.Appends.{append_line-ends}
use mux_mail.Lite.Records.{
  Line, Query, answer, failed, QueryError, line_too_long, log_disabled, MessageSnapshot,
  encode_message_record, encode_provider_event_record,
}
use mux_mail.Lite.Records.Decode.{
  decode_message_snapshot, decode_provider_event_snapshot, provider_event_fields_ok,
}
use mux_mail.Lite.Records.RoundTrip.{
  snapshot_of, event_snapshot_of, decode_message_snapshot-encode_message_record,
  decode_provider_event_snapshot-encode_provider_event_record,
}
use mux_mail.Lite.MessageLog.{
  MessageLog, LogResult, done, unread, unwritten, max_line_bytes, scan, is_message_of,
  same_provider, same_event_type, same_provider_event_identity, find_latest_message,
  exists_in_paths, append_message, append_once, append_provider_event_once,
}
use mux_mail.Lite.MessageLog.Reads.{
  last_of, any_same, last_of-append, any_same-append, Reads, no_lines, next_line, Reads-append,
  Reads-split, asked, find_latest-Reads, Reads-find_latest,
}
use mux_mail.Lite.MessageLog.Exists.{exists-Reads, Reads-exists}

same_provider_refl : (p : Provider) → same_provider p p ≡ true
same_provider_refl Provider.mock = refl
same_provider_refl Provider.resend = refl
same_provider_refl Provider.brevo = refl
same_provider_refl (Provider.other s) = beq_refl s

same_event_type_refl : (t : ProviderEventType) → same_event_type t t ≡ true
same_event_type_refl ProviderEventType.delivered = refl
same_event_type_refl ProviderEventType.bounced = refl
same_event_type_refl ProviderEventType.complained = refl
same_event_type_refl (ProviderEventType.other s) = beq_refl s

same_provider_event_identity_refl : (e : ProviderEvent) → same_provider_event_identity e e ≡ true
unfolding same_provider_event_identity
same_provider_event_identity_refl e =
    rw
      (
        beq_refl e.message_id,
        beq_refl e.app_code,
        same_provider_refl e.provider,
        beq_refl e.provider_account_code,
        beq_refl e.provider_channel_code,
        beq_refl e.provider_message_id,
        same_event_type_refl e.event_type,
        beq_refl e.occurred_at,
      )
      refl

-- The identity does not include the recipient, whom the log does not keep.
same_recorded :
    (e : ProviderEvent) → same_provider_event_identity (record e { recipient_email = [] }) e ≡ true
unfolding same_provider_event_identity
same_recorded e = same_provider_event_identity_refl e

is_asked : (a b : String) → (a == a && b == b) ≡ true
is_asked a b = rw (beq_refl a, beq_refl b) refl

or_true : (b : Bool) → (b || true) ≡ true
or_true true = refl
or_true false = refl

-- A line that the scanner takes.
abbrev pub IsShort : (Line → ℕ) → Line → Type 0
IsShort size line = leb max_line_bytes (size line) ≡ false

module _ (size : Line → ℕ) (format_time : Time → String) (parse_time : String → Option Time) where
  scan-short :
      {A : Type 0} (decode : Line → Query A) (line : Line)
      → IsShort size line
      → scan size format_time parse_time decode line ≡ decode line
  scan-short decode line short = ap (λ b. if b then failed line_too_long else decode line) short

  -- What is read after an append ends with the record of its line.
  append_line-Reads :
      {A : Type 0} (decode : Line → Query A) (fault : Option Fault) (line : Line)
      (w : JsonlWriter Line) (records : List A) (a : A)
      → HasBackups w
      → (append_line size fault line w).0 ≡ none
      → Reads size format_time parse_time decode (contents w) records
      → IsShort size line
      → decode line ≡ answer a
      → (left : List A) × Reads size format_time parse_time decode
          (contents (append_line size fault line w).1)
          (left ++ a ∷ [])
  append_line-Reads decode fault line w records a some_backup ok r short e =
      let (gone, rest, split, ends) = append_line-ends size fault line w some_backup ok in
      let (before, left, r', r'', same) =
        Reads-split size format_time parse_time decode gone rest records
          (subst (λ l. Reads size format_time parse_time decode l records) (sym split) r) in
      (
        left,
        subst (λ l. Reads size format_time parse_time decode l (left ++ a ∷ [])) (sym ends)
            (Reads-append size format_time parse_time decode rest (line ∷ []) left (a ∷ []) r''
              (next_line line [] a [] (scan-short decode line short ∙ e) no_lines)),
      )

  last_of-asked :
      (app_code message_id : String) (latest : Option MessageSnapshot) (ss : List MessageSnapshot)
      (s : MessageSnapshot)
      → last_of (asked size format_time parse_time app_code message_id) latest ss ≡ some s
      → ((x : MessageSnapshot)
          → latest ≡ some x
          → is_message_of size format_time parse_time app_code message_id x ≡ true)
      → is_message_of size format_time parse_time app_code message_id s ≡ true
  last_of-asked app_code message_id latest [] s h before = before s h
  last_of-asked app_code message_id latest (x ∷ ss) s h before =
      last_of-asked app_code message_id
        (if asked size format_time parse_time app_code message_id x then some x else latest) ss s h
        (by_test (asked size format_time parse_time app_code message_id x) refl)
    where
      by_test :
          (b : Bool)
          → asked size format_time parse_time app_code message_id x ≡ b
          → (y : MessageSnapshot) → (if b then some x else latest) ≡ some y
          → is_message_of size format_time parse_time app_code message_id y ≡ true
      by_test true e y h =
          subst (λ z. is_message_of size format_time parse_time app_code message_id z ≡ true)
            (some-injective x y h) e
      by_test false e y h = before y h

  -- A message that is found is the one that was asked for.
  pub find_latest_message-asked :
      (app_code message_id : String) (l : MessageLog) (s : MessageSnapshot)
      → find_latest_message size format_time parse_time app_code message_id l ≡ answer (some s)
      → (s.app_code ≡ app_code) × (s.message_id ≡ message_id)
  unfolding find_latest_message
  find_latest_message-asked app_code message_id l s h =
      let (ss, r, same) =
        find_latest-Reads size format_time parse_time app_code message_id (some s) l.messages h in
      both s.app_code app_code s.message_id message_id
        (last_of-asked app_code message_id none ss s (sym same) (λ x e. absurd (cc e)))
    where
      both : (a b c d : String) → (a == b && c == d) ≡ true → (a ≡ b) × (c ≡ d)
      both a b c d h = ground (arith, string_eq.beq_iff a b, string_eq.beq_iff c d)

  pub once_in_log :
      (fault : Option Fault) (now : Time) (event : ProviderEvent) (l : MessageLog)
      (w : JsonlWriter Line)
      → l.events ≡ some w
      → append_provider_event_once size format_time parse_time fault now event l ≡ (
        (append_once size format_time parse_time fault now event w).0,
        record l { events = some (append_once size format_time parse_time fault now event w).1 },
      )
  unfolding append_provider_event_once
  once_in_log fault now event l w open_log =
      ap
        (λ o. elim o [
          | none ↦ (unread log_disabled, l)
          | some w ↦ (
            (append_once size format_time parse_time fault now event w).0,
            record l {
              events = some (append_once size format_time parse_time fault now event w).1;
            },
          )
        ])
        open_log

  module _ (parse-format : (t : Time) → parse_time (format_time t) ≡ some t) where
    -- Right after an append of a message's record that has succeeded, the latest message with its ID is this
    -- one, with the time of the append and its error message as UTF-8, if all files could be read before and
    -- the message has an ID, a valid status and a record that fits the scanner.
    pub find_latest_message-append_message :
        (fault : Option Fault) (now : Time) (m : Message) (l : MessageLog)
        (o : Option MessageSnapshot)
        → HasBackups l.messages
        → find_latest_message size format_time parse_time m.app_code m.message_id l ≡ answer o
        → m.message_id ≢ ""
        → message_status_is_valid m.status ≡ true
        → IsShort size (encode_message_record format_time now m)
        → (append_message size format_time parse_time fault now m l).0 ≡ none
        → find_latest_message size format_time parse_time m.app_code m.message_id
            (append_message size format_time parse_time fault now m l).1
          ≡ answer (some (snapshot_of format_time parse_time parse-format now m))
    unfolding find_latest_message append_message
    find_latest_message-append_message fault now m l o some_backup found some_id valid short ok =
        let (ss, r, same) =
          find_latest-Reads size format_time parse_time m.app_code m.message_id o l.messages
            found in
        let s = snapshot_of format_time parse_time parse-format now m in
        let (left, r') =
          append_line-Reads (decode_message_snapshot parse_time) fault
            (encode_message_record format_time now m) l.messages ss s some_backup ok r short
            (decode_message_snapshot-encode_message_record format_time parse_time parse-format now m
              some_id valid) in
        Reads-find_latest size format_time parse_time m.app_code m.message_id
          (append_line size fault (encode_message_record format_time now m) l.messages).1
          (left ++ s ∷ []) r'
        ∙ ap answer (
            last_of-append (asked size format_time parse_time m.app_code m.message_id) none left
              (s ∷ [])
            ∙ ap
                (λ b.
                  if b
                  then some s
                  else last_of (asked size format_time parse_time m.app_code m.message_id) none
                      left)
                (is_asked m.app_code m.message_id))

    -- The four ways in which a record of an event ends.
    data Once (fault : Option Fault) (now : Time) (event : ProviderEvent) (w : JsonlWriter Line)
        : LogResult Bool × JsonlWriter Line → Type 0 where
      not_read :
          (e : QueryError)
          → exists_in_paths size format_time parse_time event (query_paths w) ≡ failed e
          → Once fault now event w (unread e, w)
      was_there :
          exists_in_paths size format_time parse_time event (query_paths w) ≡ answer true
          → Once fault now event w (done false, w)
      is_new :
          exists_in_paths size format_time parse_time event (query_paths w) ≡ answer false
          → (e : Option AppendError)
          → (append_line size fault (encode_provider_event_record format_time now event) w).0 ≡ e
          → Once fault now event w (
            elim e [ some x ↦ unwritten x | none ↦ done true ],
            (append_line size fault (encode_provider_event_record format_time now event) w).1,
          )

    append_once-Once :
        (fault : Option Fault) (now : Time) (event : ProviderEvent) (w : JsonlWriter Line)
        → Once fault now event w (append_once size format_time parse_time fault now event w)
    unfolding append_once
    append_once-Once fault now event w = by_read _ refl
      where
        by_read :
            (q : Query Bool)
            → exists_in_paths size format_time parse_time event (query_paths w) ≡ q
            → Once fault now event w (elim q [
              | failed e ↦ (unread e, w)
              | answer true ↦ (done false, w)
              | answer false ↦ (
                elim (append_line size fault
                    (encode_provider_event_record format_time now event)
                    w).0 [ some x ↦ unwritten x | none ↦ done true ],
                (append_line size fault (encode_provider_event_record format_time now event) w).1,
              )
            ])
        by_read (failed e) h = not_read e h
        by_read (answer true) h = was_there h
        by_read (answer false) h = is_new h _ refl

    -- An event that has been recorded is found.
    pub append_once-found :
        (fault : Option Fault) (now : Time) (event : ProviderEvent) (b : Bool)
        (w : JsonlWriter Line)
        → HasBackups w
        → provider_event_fields_ok parse_time
            (event_snapshot_of format_time parse_time parse-format now event)
          ≡ true
        → IsShort size (encode_provider_event_record format_time now event)
        → (append_once size format_time parse_time fault now event w).0 ≡ done b
        → exists_in_paths size format_time parse_time event
            (query_paths (append_once size format_time parse_time fault now event w).1)
          ≡ answer true
    append_once-found fault now event b w some_backup fields short h =
        by_end (append_once-Once fault now event w) h
      where
        by_end :
            {p : LogResult Bool × JsonlWriter Line}
            → Once fault now event w p
            → p.0 ≡ done b
            → exists_in_paths size format_time parse_time event (query_paths p.1) ≡ answer true
        by_end (not_read e q) d = absurd (cc d)
        by_end (was_there q) d = q
        by_end (is_new q (some x) e) d = absurd (cc d)
        by_end (is_new q none e) d =
            let (es, r) = exists-Reads size format_time parse_time event w q in
            let line = encode_provider_event_record format_time now event in
            let recorded : ProviderEvent = record event { recipient_email = [] } in
            let (left, r') =
              append_line-Reads (decode_provider_event_snapshot parse_time) fault line w es recorded
                some_backup e r short
                (decode_provider_event_snapshot-encode_provider_event_record format_time parse_time
                  parse-format now event fields) in
            Reads-exists size format_time parse_time event (append_line size fault line w).1
              (left ++ recorded ∷ []) r'
            ∙ ap answer (
                any_same-append event left (recorded ∷ [])
                ∙ ap (λ c. any_same event left || c) (ap (λ c. c || false) (same_recorded event))
                ∙ or_true (any_same event left))

    -- A second record of an event is not made.
    pub once_again :
        (event : ProviderEvent) (l : MessageLog) (w : JsonlWriter Line)
        → l.events ≡ some w
        → exists_in_paths size format_time parse_time event (query_paths w) ≡ answer true
        → (fault : Option Fault) (now : Time)
        → append_provider_event_once size format_time parse_time fault now event l ≡ (done false, l)
    unfolding append_provider_event_once append_once
    once_again event l w open_log found fault now =
        once_in_log fault now event l w open_log
        ∙ ap (λ p. (p.0, record l { events = some p.1 })) there
        ∙ ap (λ o. (done false, record l { events = o })) (sym open_log)
      where
        there : append_once size format_time parse_time fault now event w ≡ (done false, w)
        there = rw (found, append_once) refl
