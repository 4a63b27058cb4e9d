-- ===== src/Tests/Jsonl.antt =====
-- Lines of one byte each and their newline, in files of at most four bytes with two backups.
use mux_mail.Prelude.{ℕ, ◌≡◌, refl, ◌⊎◌, ◌≤◌, true, Option, none, some, List, [], ◌∷◌, ◌++◌}
use mux_mail.Prelude.Int.{pos}
use mux_mail.Lite.Jsonl.{
  Fault, rename_fails, open_fails, os_error, JsonlWriter, writer, lines_of, file_size, query_paths,
  append_line, new_jsonl_writer,
}
use mux_mail.Lite.Jsonl.Contents.{contents}
use mux_mail.Lite.Jsonl.Appends.{appends, acknowledged, all_dropped, appends-contents}
use mux_mail.Lite.Jsonl.Size.{IsCounted, append_line-IsCounted, failed_append_closes}

abbrev size : ℕ → ℕ
size line = 1

abbrev two_lines : JsonlWriter ℕ
two_lines = record {
  max_bytes = 4;
  is_open = true;
  current_size = 4;
  current = some (4 ∷ 5 ∷ []);
  backups = some (2 ∷ 3 ∷ []) ∷ some (1 ∷ []) ∷ [];
}

opens :
    new_jsonl_writer size (pos 4) (pos 1) (some (1 ∷ [])) (λ index. none)
    ≡ writer (record {
      max_bytes = 4;
      is_open = true;
      current_size = 2;
      current = some (1 ∷ []);
      backups = none ∷ [];
    })
unfolding new_jsonl_writer
opens = refl

rotates_once :
    query_paths (append_line size none 6 two_lines).1 ≡ (2 ∷ 3 ∷ []) ∷ (4 ∷ 5 ∷ []) ∷ (6 ∷ []) ∷ []
unfolding query_paths append_line
rotates_once = refl

abbrev history : List (Option Fault × ℕ)
history = (none, 6) ∷ (none, 7) ∷ (some (rename_fails 1), 8) ∷ (none, 9) ∷ []

appends-contents_example :
    all_dropped size history two_lines ++ contents (appends size history two_lines)
    ≡ contents two_lines ++ acknowledged size history two_lines
appends-contents_example = appends-contents size history two_lines (λ e. cc e)

history-acknowledged : acknowledged size history two_lines ≡ 6 ∷ 7 ∷ []
unfolding append_line
history-acknowledged = refl

history_dropped : all_dropped size history two_lines ≡ 1 ∷ 2 ∷ 3 ∷ []
unfolding append_line
history_dropped = refl

two_lines-IsCounted : IsCounted size two_lines
unfolding IsCounted
two_lines-IsCounted = λ e. refl

append_line-IsCounted_example :
    IsCounted size (append_line size none 6 two_lines).1
    × ((append_line size none 6 two_lines).0 ≡ none
        → (file_size size (lines_of (append_line size none 6 two_lines).1.current) ≤ 4)
          ⊎ (lines_of (append_line size none 6 two_lines).1.current ≡ 6 ∷ []))
append_line-IsCounted_example = append_line-IsCounted size none 6 two_lines two_lines-IsCounted

open_failure : (append_line size (some open_fails) 6 two_lines).0 ≡ some (os_error open_fails)
unfolding append_line
open_failure = refl

failed_append_closes_example :
    (acknowledged size history (append_line size (some open_fails) 6 two_lines).1 ≡ [])
    × (appends size history (append_line size (some open_fails) 6 two_lines).1
        ≡ (append_line size (some open_fails) 6 two_lines).1)
failed_append_closes_example =
    failed_append_closes size (some open_fails) 6 two_lines open_fails open_failure history
