-- ===== src/Lite/MessageLog/Exists.antt =====
-- The search for an event in the files of the events.
use mux_mail.Prelude.{
  ℕ, ◌≡◌, refl, sym, ap, subst, ◌∙◌, Bool, true, false, ◌||◌, Option, String, List, [], ◌∷◌, ◌++◌,
}
use mux_mail.Domain.Types.{ProviderEvent}
use mux_mail.Lite.Time.{Time}
use mux_mail.Lite.Jsonl.{JsonlWriter, query_paths}
use mux_mail.Lite.Jsonl.Contents.{contents, join, join-query_paths}
use mux_mail.Lite.Records.{Line, Query, answer, failed, ◌>>=◌}
use mux_mail.Lite.Records.Decode.{decode_provider_event_snapshot}
use mux_mail.Lite.MessageLog.{scan, exists_in_path, exists_in_paths, same_provider_event_identity}
use mux_mail.Lite.MessageLog.Reads.{
  any_same, any_same-append, Reads, Reads-append, Reads-split, next_line, no_lines,
}

module _ (size : Line → ℕ) (format_time : Time → String) (parse_time : String → Option Time) where
  module _ (target : ProviderEvent) where
    exists_in_path-Reads :
        (lines : List Line)
        → exists_in_path size format_time parse_time target lines ≡ answer false
        → (es : List ProviderEvent) × Reads size format_time parse_time
            (decode_provider_event_snapshot parse_time)
            lines
            es
    unfolding exists_in_path
    exists_in_path-Reads [] h = ([], no_lines)
    exists_in_path-Reads (line ∷ lines) h = by_scan _ refl (exists_in_path-Reads lines) h
      where
        by_scan :
            (q : Query ProviderEvent)
            → scan size format_time parse_time (decode_provider_event_snapshot parse_time) line ≡ q
            → (exists_in_path size format_time parse_time target lines ≡ answer false
                → (es : List ProviderEvent) × Reads size format_time parse_time
                    (decode_provider_event_snapshot parse_time)
                    lines
                    es)
            → (q >>= λ e. elim (same_provider_event_identity e target) [
              | true ↦ answer true
              | false ↦ exists_in_path size format_time parse_time target lines
            ])
              ≡ answer false
            → (es : List ProviderEvent) × Reads size format_time parse_time
                (decode_provider_event_snapshot parse_time)
                (line ∷ lines)
                es
        by_scan (failed e) q rest h = absurd (cc h)
        by_scan (answer e) q rest h = by_test (same_provider_event_identity e target) rest h
          where
            by_test :
                (b : Bool)
                → (exists_in_path size format_time parse_time target lines ≡ answer false
                    → (es : List ProviderEvent) × Reads size format_time parse_time
                        (decode_provider_event_snapshot parse_time)
                        lines
                        es)
                → (elim b [
                  | true ↦ answer true
                  | false ↦ exists_in_path size format_time parse_time target lines
                ])
                  ≡ answer false
                → (es : List ProviderEvent) × Reads size format_time parse_time
                    (decode_provider_event_snapshot parse_time)
                    (line ∷ lines)
                    es
            by_test true rest h = absurd (cc h)
            by_test false rest h = let (es, r) = rest h in (e ∷ es, next_line line lines e es q r)

    Reads-exists_in_path :
        (lines : List Line) (es : List ProviderEvent)
        → Reads size format_time parse_time (decode_provider_event_snapshot parse_time) lines es
        → exists_in_path size format_time parse_time target lines ≡ answer (any_same target es)
    unfolding exists_in_path
    Reads-exists_in_path _ _ no_lines = refl
    Reads-exists_in_path _ _ (next_line line lines e es q rest) =
        ap
          (λ q. q >>= λ e. elim (same_provider_event_identity e target) [
            | true ↦ answer true
            | false ↦ exists_in_path size format_time parse_time target lines
          ])
          q
        ∙ by_test (same_provider_event_identity e target) (Reads-exists_in_path lines es rest)
      where
        by_test :
            (b : Bool)
            → exists_in_path size format_time parse_time target lines ≡ answer (any_same target es)
            → (elim b [
              | true ↦ answer true
              | false ↦ exists_in_path size format_time parse_time target lines
            ])
              ≡ answer (b || any_same target es)
        by_test true h = refl
        by_test false h = h

    exists_in_paths-Reads :
        (paths : List (List Line))
        → exists_in_paths size format_time parse_time target paths ≡ answer false
        → (es : List ProviderEvent) × Reads size format_time parse_time
            (decode_provider_event_snapshot parse_time)
            (join paths)
            es
    unfolding exists_in_paths
    exists_in_paths-Reads [] h = ([], no_lines)
    exists_in_paths-Reads (path ∷ paths) h = by_path _ refl (exists_in_paths-Reads paths) h
      where
        by_path :
            (q : Query Bool)
            → exists_in_path size format_time parse_time target path ≡ q
            → (exists_in_paths size format_time parse_time target paths ≡ answer false
                → (es : List ProviderEvent) × Reads size format_time parse_time
                    (decode_provider_event_snapshot parse_time)
                    (join paths)
                    es)
            → (q >>= λ found. elim found [
              | true ↦ answer true
              | false ↦ exists_in_paths size format_time parse_time target paths
            ])
              ≡ answer false
            → (es : List ProviderEvent) × Reads size format_time parse_time
                (decode_provider_event_snapshot parse_time)
                (path ++ join paths)
                es
        by_path (failed e) q rest h = absurd (cc h)
        by_path (answer true) q rest h = absurd (cc h)
        by_path (answer false) q rest h =
            let (es, r) = exists_in_path-Reads path q in
            let (fs, r') = rest h in
            (
              es ++ fs,
              Reads-append size format_time parse_time (decode_provider_event_snapshot parse_time)
                  path (join paths) es fs r r',
            )

    Reads-exists_in_paths :
        (paths : List (List Line)) (es : List ProviderEvent)
        → Reads size format_time parse_time
            (decode_provider_event_snapshot parse_time)
            (join paths)
            es
        → exists_in_paths size format_time parse_time target paths ≡ answer (any_same target es)
    unfolding exists_in_paths
    Reads-exists_in_paths [] _ no_lines = refl
    Reads-exists_in_paths (path ∷ paths) es r =
        let (as_path, as_rest, r, r', same) =
          Reads-split size format_time parse_time (decode_provider_event_snapshot parse_time) path
            (join paths) es r in
        ap
          (λ q. q >>= λ found. elim found [
            | true ↦ answer true
            | false ↦ exists_in_paths size format_time parse_time target paths
          ])
          (Reads-exists_in_path path as_path r)
        ∙ by_test (any_same target as_path) as_rest (Reads-exists_in_paths paths as_rest r')
        ∙ ap answer (sym (any_same-append target as_path as_rest) ∙ ap (any_same target) (sym same))
      where
        by_test :
            (b : Bool) (fs : List ProviderEvent)
            → exists_in_paths size format_time parse_time target paths ≡ answer (any_same target fs)
            → (elim b [
              | true ↦ answer true
              | false ↦ exists_in_paths size format_time parse_time target paths
            ])
              ≡ answer (b || any_same target fs)
        by_test true fs h = refl
        by_test false fs h = h

    pub exists-Reads :
        (w : JsonlWriter Line)
        → exists_in_paths size format_time parse_time target (query_paths w) ≡ answer false
        → (es : List ProviderEvent) × Reads size format_time parse_time
            (decode_provider_event_snapshot parse_time)
            (contents w)
            es
    exists-Reads w h =
        let (es, r) = exists_in_paths-Reads (query_paths w) h in
        (
          es,
          subst
              (λ l.
                Reads size format_time parse_time (decode_provider_event_snapshot parse_time) l es)
              (join-query_paths w) r,
        )

    pub Reads-exists :
        (w : JsonlWriter Line) (es : List ProviderEvent)
        → Reads size format_time parse_time
            (decode_provider_event_snapshot parse_time)
            (contents w)
            es
        → exists_in_paths size format_time parse_time target (query_paths w)
          ≡ answer (any_same target es)
    Reads-exists w es r = Reads-exists_in_paths (query_paths w) es (
        subst
          (λ l. Reads size format_time parse_time (decode_provider_event_snapshot parse_time) l es)
          (sym (join-query_paths w)) r)
