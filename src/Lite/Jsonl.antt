-- ===== src/Lite/Jsonl.antt =====
-- internal/lite/jsonl.go: a file of lines with numbered backups. The directory is the state: the file
-- at `path` and those at `path.1`, `path.2`, …, each `none` if it does not exist.
pub mod Contents
pub mod Appends
pub mod Size
use mux_mail.Prelude.{
  ℕ, zero, suc, ◌+◌, Bool, true, false, ◌&&◌, Option, none, some, List, [], ◌∷◌, ◌++◌, ltb, leb,
  ◌==◌, nat_eq, if◌then◌else◌,
}
use mux_mail.Prelude.Int.{ℤ, pos, negsuc}

-- The step of a rotation at which the operating system refuses; `rename_fails k` is the one from
-- `path.k`.
pub data Fault : Type 0 where
  close_fails remove_fails rotate_fails open_fails : Fault
  rename_fails : ℕ → Fault

pub data AppendError : Type 0 where
  writer_closed : AppendError
  os_error : Fault → AppendError

pub data NewWriterError : Type 0 where
  max_bytes_not_positive max_backups_below_one : NewWriterError

-- `is_open` says that `file` is not nil.
pub record JsonlWriter (A : Type 0) : Type 0 where
  pub max_bytes : ℕ
  pub is_open : Bool
  pub current_size : ℕ
  pub current : Option (List A)
  pub backups : List (Option (List A))

pub data NewWriter (A : Type 0) : Type 0 where
  writer : JsonlWriter A → NewWriter A
  invalid : NewWriterError → NewWriter A

abbrev pub lines_of {ℓ} : {A : Type ℓ} → Option (List A) → List A
lines_of none = []
lines_of (some lines) = lines

-- The files in the order of the query paths, the highest backup first.
abbrev pub backup_lines : {A : Type 0} → List (Option (List A)) → List (List A)
backup_lines [] = []
backup_lines (b ∷ bs) = backup_lines bs ++ lines_of b ∷ []

unfoldable pub query_paths : {A : Type 0} → JsonlWriter A → List (List A)
query_paths w = backup_lines w.backups ++ lines_of w.current ∷ []

-- Remove of `path.maxBackups`, which may not exist.
unfoldable pub remove_oldest : {A : Type 0} → List (Option (List A)) → List (Option (List A))
remove_oldest [] = []
remove_oldest (b ∷ []) = none ∷ []
remove_oldest (b ∷ c ∷ bs) = b ∷ remove_oldest (c ∷ bs)

-- Rename of one backup to the next number: the file that it replaces is gone, and there is no error if
-- it does not exist itself.
abbrev pub rename_to_next :
    {A : Type 0} → Option (List A) → List (Option (List A)) → List (Option (List A))
rename_to_next b [] = b ∷ []
rename_to_next none (t ∷ ts) = none ∷ t ∷ ts
rename_to_next (some lines) (t ∷ ts) = none ∷ some lines ∷ ts

abbrev pub fails_at : Option Fault → ℕ → Bool
fails_at (some (rename_fails k)) index = k == index
fails_at _ index = false

-- The loop over the backups from the last but one down to the first; `index` is the number of the
-- first in the list. It says whether it came to its end.
unfoldable pub shift_backups :
    {A : Type 0} → Option Fault → ℕ → List (Option (List A)) → Bool × List (Option (List A))
shift_backups fault index [] = (true, [])
shift_backups fault index (b ∷ []) = (true, b ∷ [])
shift_backups fault index (b ∷ c ∷ bs) =
    let (done, rest) = shift_backups fault (suc index) (c ∷ bs) in
    if done
    then (if fails_at fault index then (false, b ∷ rest) else (true, rename_to_next b rest))
    else (false, b ∷ rest)

-- Rename of `path` to `path.1`.
abbrev pub rename_current :
    {A : Type 0} → Option (List A) → List (Option (List A)) → List (Option (List A))
rename_current none bs = bs
rename_current (some lines) [] = []
rename_current (some lines) (b ∷ bs) = some lines ∷ bs

module _ {A : Type 0} (size : A → ℕ) where
  -- Each line has its newline.
  abbrev pub file_size : List A → ℕ
  file_size [] = 0
  file_size (line ∷ lines) = (size line + 1) + file_size lines

  -- open: the file is created if it does not exist.
  unfoldable pub open_file : JsonlWriter A → JsonlWriter A
  open_file w = record w {
    is_open = true;
    current_size = file_size (lines_of w.current);
    current = some (lines_of w.current);
  }

  -- rotateLocked with no fault before the loop, and after it.
  unfoldable pub rotate_current : Option Fault → JsonlWriter A → Option Fault × JsonlWriter A
  unfolding open_file
  rotate_current (some rotate_fails) w = (some rotate_fails, w)
  rotate_current fault w =
      let w' = record w { current = none; backups = rename_current w.current w.backups } in
      elim fault [ some open_fails ↦ (some open_fails, w') | _ ↦ (none, open_file w') ]

  unfoldable pub rotate_shifted : Option Fault → JsonlWriter A → Option Fault × JsonlWriter A
  unfolding shift_backups remove_oldest rotate_current
  rotate_shifted fault w =
      let (done, bs) = shift_backups fault 1 (remove_oldest w.backups) in
      let w' = record w { backups = bs } in if done then rotate_current fault w' else (fault, w')

  -- rotateLocked. The file is closed first.
  unfoldable pub rotate : Option Fault → JsonlWriter A → Option Fault × JsonlWriter A
  unfolding rotate_shifted
  rotate (some close_fails) w = (some close_fails, record w { is_open = false })
  rotate (some remove_fails) w = (some remove_fails, record w { is_open = false })
  rotate fault w = rotate_shifted fault (record w { is_open = false })

  -- The write itself, which succeeds: a failed write leaves a part of the line, and is not modelled.
  unfoldable pub write_line : A → JsonlWriter A → JsonlWriter A
  write_line line w = record w {
    current_size = w.current_size + (size line + 1);
    current = some (lines_of w.current ++ line ∷ []);
  }

  abbrev pub needs_rotation : A → JsonlWriter A → Bool
  needs_rotation line w = ltb 0 w.current_size && ltb w.max_bytes (w.current_size + (size line + 1))

  -- appendLine
  unfoldable pub append_line : Option Fault → A → JsonlWriter A → Option AppendError × JsonlWriter A
  unfolding rotate write_line
  append_line fault line w =
      if w.is_open
      then (if needs_rotation line w
          then (let (failed, w') = rotate fault w in
              elim failed [ some f ↦ (some (os_error f), w') | none ↦ (none, write_line line w') ])
          else (none, write_line line w))
      else (some writer_closed, w)

  -- newJSONLWriter over the files that are there: `backup` gives those that a number has.
  existing : (ℕ → Option (List A)) → ℕ → ℕ → List (Option (List A))
  existing backup index zero = []
  existing backup index (suc n) = backup index ∷ existing backup (suc index) n

  unfoldable pub new_jsonl_writer : ℤ → ℤ → Option (List A) → (ℕ → Option (List A)) → NewWriter A
  unfolding existing open_file
  new_jsonl_writer (pos (suc max_bytes)) (pos (suc max_backups)) current backup = writer (
      open_file (record {
        max_bytes = suc max_bytes;
        is_open = false;
        current_size = 0;
        current = current;
        backups = existing backup 1 (suc max_backups);
      }))
  new_jsonl_writer (pos (suc max_bytes)) max_backups current backup = invalid max_backups_below_one
  new_jsonl_writer max_bytes max_backups current backup = invalid max_bytes_not_positive

-- close
unfoldable pub close_writer : {A : Type 0} → JsonlWriter A → JsonlWriter A
close_writer w = record w { is_open = false }
