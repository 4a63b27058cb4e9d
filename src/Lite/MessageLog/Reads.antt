-- ===== src/Lite/MessageLog/Reads.antt =====
-- The queries as functions of the records that the files hold, one file after the other.
use mux_mail.Prelude.{
  ℕ, ◌≡◌, refl, sym, ap, subst, ◌∙◌, Bool, true, false, ◌||◌, Option, none, some, String, List, [],
  ◌∷◌, ◌++◌, if◌then◌else◌,
}
use mux_mail.Domain.Types.{ProviderEvent}
use mux_mail.Lite.Time.{Time}
use mux_mail.Lite.Jsonl.{JsonlWriter, query_paths}
use mux_mail.Lite.Jsonl.Contents.{contents, join, join-query_paths}
use mux_mail.Lite.Records.{Line, Query, answer, failed, ◌>>=◌, MessageSnapshot}
use mux_mail.Lite.Records.Decode.{decode_message_snapshot}
use mux_mail.Lite.MessageLog.{
  scan, is_message_of, or_earlier, find_latest_in_path, find_latest_in_paths,
  same_provider_event_identity,
}

-- The last message that is asked for, or what was found before.
abbrev pub last_of :
    (MessageSnapshot → Bool)
    → Option MessageSnapshot
    → List MessageSnapshot
    → Option MessageSnapshot
last_of asked latest [] = latest
last_of asked latest (s ∷ ss) = last_of asked (if asked s then some s else latest) ss

abbrev pub any_same : ProviderEvent → List ProviderEvent → Bool
any_same target [] = false
any_same target (e ∷ es) = same_provider_event_identity e target || any_same target es

pub last_of-append :
    (asked : MessageSnapshot → Bool) (latest : Option MessageSnapshot)
    (ss ts : List MessageSnapshot)
    → last_of asked latest (ss ++ ts) ≡ last_of asked (last_of asked latest ss) ts
last_of-append asked latest [] ts = refl
last_of-append asked latest (s ∷ ss) ts =
    last_of-append asked (if asked s then some s else latest) ss ts

last_of-or_earlier :
    (asked : MessageSnapshot → Bool) (latest found : Option MessageSnapshot)
    (ss : List MessageSnapshot)
    → or_earlier (last_of asked found ss) latest ≡ last_of asked (or_earlier found latest) ss
last_of-or_earlier asked latest found [] = refl
last_of-or_earlier asked latest found (s ∷ ss) =
    by_test (asked s) (last_of-or_earlier asked latest (some s) ss)
      (last_of-or_earlier asked latest found ss)
  where
    by_test :
        (b : Bool)
        → or_earlier (last_of asked (some s) ss) latest ≡ last_of asked (some s) ss
        → or_earlier (last_of asked found ss) latest ≡ last_of asked (or_earlier found latest) ss
        → or_earlier (last_of asked (if b then some s else found) ss) latest
          ≡ last_of asked (if b then some s else or_earlier found latest) ss
    by_test true taken passed = taken
    by_test false taken passed = passed

pub any_same-append :
    (target : ProviderEvent) (es fs : List ProviderEvent)
    → any_same target (es ++ fs) ≡ (any_same target es || any_same target fs)
any_same-append target [] fs = refl
any_same-append target (e ∷ es) fs =
    by_test (same_provider_event_identity e target) (any_same-append target es fs)
  where
    by_test :
        (b : Bool)
        → any_same target (es ++ fs) ≡ (any_same target es || any_same target fs)
        → (b || any_same target (es ++ fs)) ≡ ((b || any_same target es) || any_same target fs)
    by_test true h = refl
    by_test false h = h

module _ (size : Line → ℕ) (format_time : Time → String) (parse_time : String → Option Time) where
  -- Every line scans, and these are the records.
  pub data Reads {A : Type 0} (decode : Line → Query A) : List Line → List A → Type 0 where
    no_lines : Reads decode [] []
    next_line :
        (line : Line) (lines : List Line) (a : A) (records : List A)
        → scan size format_time parse_time decode line ≡ answer a
        → Reads decode lines records
        → Reads decode (line ∷ lines) (a ∷ records)

  pub Reads-append :
      {A : Type 0} (decode : Line → Query A) (xs ys : List Line) (xs_read ys_read : List A)
      → Reads decode xs xs_read
      → Reads decode ys ys_read
      → Reads decode (xs ++ ys) (xs_read ++ ys_read)
  Reads-append decode _ ys _ ys_read no_lines r = r
  Reads-append decode _ ys _ ys_read (next_line line lines a records e rest) r =
      next_line line (lines ++ ys) a (records ++ ys_read) e
        (Reads-append decode lines ys records ys_read rest r)

  pub Reads-split :
      {A : Type 0} (decode : Line → Query A) (xs ys : List Line) (cs : List A)
      → Reads decode (xs ++ ys) cs
      → (xs_read : List A) × (ys_read : List A) × Reads decode xs xs_read
        × Reads decode ys ys_read
        × (cs ≡ xs_read ++ ys_read)
  Reads-split decode [] ys cs r = ([], cs, no_lines, r, refl)
  Reads-split decode (x ∷ xs) ys _ (next_line _ _ a records e rest) =
      let (xs_read, ys_read, r, r', same) = Reads-split decode xs ys records rest in
      (a ∷ xs_read, ys_read, next_line x xs a xs_read e r, r', ap (λ l. a ∷ l) same)

  module _ (app_code message_id : String) where
    abbrev pub asked : MessageSnapshot → Bool
    asked s = is_message_of size format_time parse_time app_code message_id s

    find_in_path-Reads :
        (latest o : Option MessageSnapshot) (lines : List Line)
        → find_latest_in_path size format_time parse_time app_code message_id latest lines
          ≡ answer o
        → (ss : List MessageSnapshot) × Reads (decode_message_snapshot parse_time) lines ss
          × (o ≡ last_of asked latest ss)
    unfolding find_latest_in_path
    find_in_path-Reads latest o [] h = ([], no_lines, cc)
    find_in_path-Reads latest o (line ∷ lines) h =
        by_scan _ refl (λ s. find_in_path-Reads (if asked s then some s else latest) o lines) h
      where
        by_scan :
            (q : Query MessageSnapshot)
            → scan size format_time parse_time (decode_message_snapshot parse_time) line ≡ q
            → ((s : MessageSnapshot)
                → find_latest_in_path size format_time parse_time app_code message_id
                    (if asked s then some s else latest)
                    lines
                  ≡ answer o
                → (ss : List MessageSnapshot) × Reads (decode_message_snapshot parse_time) lines ss
                  × (o ≡ last_of asked (if asked s then some s else latest) ss))
            → (q >>= λ s.
                find_latest_in_path size format_time parse_time app_code message_id
                  (if asked s then some s else latest)
                  lines)
              ≡ answer o
            → (ss : List MessageSnapshot) × Reads
                (decode_message_snapshot parse_time)
                (line ∷ lines)
                ss
              × (o ≡ last_of asked latest ss)
        by_scan (failed e) q rest h = absurd (cc h)
        by_scan (answer s) q rest h =
            let (ss, r, same) = rest s h in (s ∷ ss, next_line line lines s ss q r, same)

    Reads-find_in_path :
        (latest : Option MessageSnapshot) (lines : List Line) (ss : List MessageSnapshot)
        → Reads (decode_message_snapshot parse_time) lines ss
        → find_latest_in_path size format_time parse_time app_code message_id latest lines
          ≡ answer (last_of asked latest ss)
    unfolding find_latest_in_path
    Reads-find_in_path latest _ _ no_lines = refl
    Reads-find_in_path latest _ _ (next_line line lines s ss e rest) =
        ap
          (λ q. q >>= λ s.
            find_latest_in_path size format_time parse_time app_code message_id
              (if asked s then some s else latest) lines)
          e
        ∙ Reads-find_in_path (if asked s then some s else latest) lines ss rest

    find_in_paths-Reads :
        (latest o : Option MessageSnapshot) (paths : List (List Line))
        → find_latest_in_paths size format_time parse_time app_code message_id latest paths
          ≡ answer o
        → (ss : List MessageSnapshot) × Reads (decode_message_snapshot parse_time) (join paths) ss
          × (o ≡ last_of asked latest ss)
    unfolding find_latest_in_paths
    find_in_paths-Reads latest o [] h = ([], no_lines, cc)
    find_in_paths-Reads latest o (path ∷ paths) h =
        by_path _ refl (λ found. find_in_paths-Reads (or_earlier found latest) o paths) h
      where
        by_path :
            (q : Query (Option MessageSnapshot))
            → find_latest_in_path size format_time parse_time app_code message_id none path ≡ q
            → ((found : Option MessageSnapshot)
                → find_latest_in_paths size format_time parse_time app_code message_id
                    (or_earlier found latest)
                    paths
                  ≡ answer o
                → (ss : List MessageSnapshot) × Reads
                    (decode_message_snapshot parse_time)
                    (join paths)
                    ss
                  × (o ≡ last_of asked (or_earlier found latest) ss))
            → (q >>= λ found.
                find_latest_in_paths size format_time parse_time app_code message_id
                  (or_earlier found latest)
                  paths)
              ≡ answer o
            → (ss : List MessageSnapshot) × Reads
                (decode_message_snapshot parse_time)
                (path ++ join paths)
                ss
              × (o ≡ last_of asked latest ss)
        by_path (failed e) q rest h = absurd (cc h)
        by_path (answer found) q rest h =
            let (ss, r, same) = find_in_path-Reads none found path q in
            let (ts, r', same') = rest found h in
            (
              ss ++ ts,
              Reads-append (decode_message_snapshot parse_time) path (join paths) ss ts r r',
              same'
                  ∙ ap (λ f. last_of asked f ts)
                      (ap (λ f. or_earlier f latest) same ∙ last_of-or_earlier asked latest none ss)
                  ∙ sym (last_of-append asked latest ss ts),
            )

    Reads-find_in_paths :
        (latest : Option MessageSnapshot) (paths : List (List Line)) (ss : List MessageSnapshot)
        → Reads (decode_message_snapshot parse_time) (join paths) ss
        → find_latest_in_paths size format_time parse_time app_code message_id latest paths
          ≡ answer (last_of asked latest ss)
    unfolding find_latest_in_paths
    Reads-find_in_paths latest [] _ no_lines = refl
    Reads-find_in_paths latest (path ∷ paths) ss r =
        let (as_path, as_rest, r, r', same) =
          Reads-split (decode_message_snapshot parse_time) path (join paths) ss r in
        ap
          (λ q. q >>= λ found.
            find_latest_in_paths size format_time parse_time app_code message_id
              (or_earlier found latest) paths)
          (Reads-find_in_path none path as_path r)
        ∙ Reads-find_in_paths (or_earlier (last_of asked none as_path) latest) paths as_rest r'
        ∙ ap (λ f. answer (last_of asked f as_rest)) (last_of-or_earlier asked latest none as_path)
        ∙ ap answer (
            sym (last_of-append asked latest as_path as_rest)
            ∙ ap (last_of asked latest) (sym same))

    -- A search answers with the last record of the message, in the order of the writes, if every
    -- line of every file can be read, and only then.
    pub find_latest-Reads :
        (o : Option MessageSnapshot) (w : JsonlWriter Line)
        → find_latest_in_paths size format_time parse_time app_code message_id none (query_paths w)
          ≡ answer o
        → (ss : List MessageSnapshot) × Reads (decode_message_snapshot parse_time) (contents w) ss
          × (o ≡ last_of asked none ss)
    find_latest-Reads o w h =
        let (ss, r, same) = find_in_paths-Reads none o (query_paths w) h in
        (
          ss,
          subst (λ l. Reads (decode_message_snapshot parse_time) l ss) (join-query_paths w) r,
          same,
        )

    pub Reads-find_latest :
        (w : JsonlWriter Line) (ss : List MessageSnapshot)
        → Reads (decode_message_snapshot parse_time) (contents w) ss
        → find_latest_in_paths size format_time parse_time app_code message_id none (query_paths w)
          ≡ answer (last_of asked none ss)
    Reads-find_latest w ss r =
        Reads-find_in_paths none (query_paths w) ss (
          subst (λ l. Reads (decode_message_snapshot parse_time) l ss) (sym (join-query_paths w)) r)
