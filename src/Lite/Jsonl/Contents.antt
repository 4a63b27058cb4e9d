-- ===== src/Lite/Jsonl/Contents.antt =====
-- internal/lite/jsonl.go: the lines of all files as one log, in the order of the query paths, and what
-- a rotation does to it.
use mux_mail.Prelude.{
  ℕ, suc, ◌≡◌, refl, sym, ap, ◌≢◌, ◌&&◌, ◌∙◌, Bool, true, false, Option, none, some, List, [], ◌∷◌,
  ◌++◌, if◌then◌else◌, Bool-cases, inl, inr,
}
use mathlib.Core.Bool.{false≢true}
use mathlib.Core.List.{append_assoc, append-nil}
use mux_mail.Lite.Jsonl.{
  Fault, close_fails, remove_fails, rotate_fails, open_fails, rename_fails, AppendError,
  JsonlWriter, lines_of, backup_lines, query_paths, remove_oldest, rename_to_next, shift_backups,
  fails_at, rename_current, open_file, rotate_current, rotate_shifted, rotate, needs_rotation,
}

-- The lines of all files in the order of the query paths.
abbrev pub backup_log : {A : Type 0} → List (Option (List A)) → List A
backup_log [] = []
backup_log (b ∷ bs) = backup_log bs ++ lines_of b

abbrev pub contents : {A : Type 0} → JsonlWriter A → List A
contents w = backup_log w.backups ++ lines_of w.current

abbrev last_lines : {A : Type 0} → List (Option (List A)) → List A
last_lines [] = []
last_lines (b ∷ []) = lines_of b
last_lines (b ∷ c ∷ bs) = last_lines (c ∷ bs)

-- The last backup does not exist.
abbrev HasEmptyLast : {A : Type 0} → List (Option (List A)) → Type 0
HasEmptyLast [] = ⊥
HasEmptyLast (b ∷ []) = b ≡ none
HasEmptyLast (b ∷ c ∷ bs) = HasEmptyLast (c ∷ bs)

abbrev HasEmptyFirst : {A : Type 0} → List (Option (List A)) → Type 0
HasEmptyFirst [] = ⊥
HasEmptyFirst (b ∷ bs) = b ≡ none

abbrev pub join : {A : Type 0} → List (List A) → List A
join [] = []
join (xs ∷ xss) = xs ++ join xss

module _ {A : Type 0} where
  join-append : (xss : List (List A)) (ys : List A) → join (xss ++ ys ∷ []) ≡ join xss ++ ys
  join-append [] ys = append-nil ys
  join-append (xs ∷ xss) ys =
      ap (λ l. xs ++ l) (join-append xss ys) ∙ sym (append_assoc xs (join xss) ys)

  join-backup_lines : (bs : List (Option (List A))) → join (backup_lines bs) ≡ backup_log bs
  join-backup_lines [] = refl
  join-backup_lines (b ∷ bs) =
      join-append (backup_lines bs) (lines_of b) ∙ ap (λ l. l ++ lines_of b) (join-backup_lines bs)

  -- The queries read the lines of all files.
  pub join-query_paths : (w : JsonlWriter A) → join (query_paths w) ≡ contents w
  unfolding query_paths
  join-query_paths w =
      join-append (backup_lines w.backups) (lines_of w.current)
      ∙ ap (λ l. l ++ lines_of w.current) (join-backup_lines w.backups)

  remove_oldest-log :
      (bs : List (Option (List A))) → last_lines bs ++ backup_log (remove_oldest bs) ≡ backup_log bs
  unfolding remove_oldest
  remove_oldest-log [] = refl
  remove_oldest-log (b ∷ []) = append-nil (lines_of b)
  remove_oldest-log (b ∷ c ∷ bs) =
      sym (append_assoc (last_lines (c ∷ bs)) (backup_log (remove_oldest (c ∷ bs))) (lines_of b))
      ∙ ap (λ l. l ++ lines_of b) (remove_oldest-log (c ∷ bs))

  remove_oldest-HasEmptyLast :
      (b : Option (List A)) (bs : List (Option (List A))) → HasEmptyLast (remove_oldest (b ∷ bs))
  unfolding remove_oldest
  remove_oldest-HasEmptyLast b [] = refl
  remove_oldest-HasEmptyLast b (c ∷ []) = refl
  remove_oldest-HasEmptyLast b (c ∷ d ∷ bs) = remove_oldest-HasEmptyLast c (d ∷ bs)

  -- A rename into a number that is free.
  rename-log :
      (b : Option (List A)) (bs : List (Option (List A)))
      → HasEmptyFirst bs
      → (backup_log (rename_to_next b bs) ≡ backup_log bs ++ lines_of b)
        × HasEmptyFirst (rename_to_next b bs)
  rename-log none [] h = absurd h
  rename-log (some lines) [] h = absurd h
  rename-log none (t ∷ ts) h = (refl, refl)
  rename-log (some lines) (t ∷ ts) h =
      (rw (h, append-nil (backup_log ts), append-nil (backup_log ts ++ lines)), refl)

  shift_backups-log :
      (fault : Option Fault) (index : ℕ) (b : Option (List A)) (bs : List (Option (List A)))
      → HasEmptyLast (b ∷ bs)
      → (backup_log (shift_backups fault index (b ∷ bs)).1 ≡ backup_log (b ∷ bs))
        × ((shift_backups fault index (b ∷ bs)).0 ≡ true
            → HasEmptyFirst (shift_backups fault index (b ∷ bs)).1)
  unfolding shift_backups
  shift_backups-log fault index b [] h = (refl, λ _. h)
  shift_backups-log fault index b (c ∷ bs) h =
      let (rest-log, rest-first) = shift_backups-log fault (suc index) c bs h in
      elim (Bool-cases (shift_backups fault (suc index) (c ∷ bs)).0) [
        | inl done ↦ elim (Bool-cases (fails_at fault index)) [
          | inl fails ↦
              rw (done, fails) (ap (λ l. l ++ lines_of b) rest-log, λ e. absurd (false≢true e))
          | inr passes ↦
              let (shifted, first) =
                rename-log b (shift_backups fault (suc index) (c ∷ bs)).1 (rest-first done) in
              rw (done, passes) (shifted ∙ ap (λ l. l ++ lines_of b) rest-log, λ _. first)
        ]
        | inr stopped ↦ rw stopped (ap (λ l. l ++ lines_of b) rest-log, λ e. absurd (false≢true e))
      ]

  rename_current-log :
      (current : Option (List A)) (bs : List (Option (List A)))
      → HasEmptyFirst bs
      → backup_log (rename_current current bs) ≡ backup_log bs ++ lines_of current
  rename_current-log none [] h = absurd h
  rename_current-log (some lines) [] h = absurd h
  rename_current-log none (b ∷ bs) h = sym (append-nil (backup_log (b ∷ bs)))
  rename_current-log (some lines) (b ∷ bs) h = rw (h, append-nil (backup_log bs))

-- There is at least one number for a backup.
abbrev pub HasBackups : {A : Type 0} → JsonlWriter A → Type 0
HasBackups w = w.backups ≢ []

-- The rotations that come as far as the removal of the oldest backup.
abbrev removes_oldest : Option Fault → Bool
removes_oldest (some close_fails) = false
removes_oldest (some remove_fails) = false
removes_oldest fault = true

module _ {A : Type 0} (size : A → ℕ) where
  rotate_current-log :
      (fault : Option Fault) (w : JsonlWriter A)
      → HasEmptyFirst w.backups
      → contents (rotate_current size fault w).1 ≡ contents w
  unfolding rotate_current open_file
  rotate_current-log none w h = append-nil _ ∙ rename_current-log w.current w.backups h
  rotate_current-log (some rotate_fails) w h = refl
  rotate_current-log (some open_fails) w h = append-nil _ ∙ rename_current-log w.current w.backups h
  rotate_current-log (some close_fails) w h =
      append-nil _ ∙ rename_current-log w.current w.backups h
  rotate_current-log (some remove_fails) w h =
      append-nil _ ∙ rename_current-log w.current w.backups h
  rotate_current-log (some (rename_fails k)) w h =
      append-nil _ ∙ rename_current-log w.current w.backups h

  shifted-log :
      (fault : Option Fault) (bs : List (Option (List A)))
      → bs ≢ []
      → (last_lines bs ++ backup_log (shift_backups fault 1 (remove_oldest bs)).1 ≡ backup_log bs)
        × ((shift_backups fault 1 (remove_oldest bs)).0 ≡ true
            → HasEmptyFirst (shift_backups fault 1 (remove_oldest bs)).1)
  unfolding remove_oldest
  shifted-log fault [] some_backup = absurd (some_backup refl)
  shifted-log fault (b ∷ []) some_backup =
      let (same, first) = shift_backups-log fault 1 none [] refl in
      (ap (λ l. lines_of b ++ l) same ∙ remove_oldest-log (b ∷ []), first)
  shifted-log fault (b ∷ c ∷ bs) some_backup =
      let (same, first) =
        shift_backups-log fault 1 b (remove_oldest (c ∷ bs))
          (remove_oldest-HasEmptyLast b (c ∷ bs)) in
      (ap (λ l. last_lines (c ∷ bs) ++ l) same ∙ remove_oldest-log (b ∷ c ∷ bs), first)

  rotate_shifted-log :
      (fault : Option Fault) (w : JsonlWriter A)
      → HasBackups w
      → last_lines w.backups ++ contents (rotate_shifted size fault w).1 ≡ contents w
  unfolding rotate_shifted
  rotate_shifted-log fault w some_backup =
      let (same, first) = shifted-log fault w.backups some_backup in
      let moved =
        sym (
          append_assoc (last_lines w.backups)
            (backup_log (shift_backups fault 1 (remove_oldest w.backups)).1) (lines_of w.current))
        ∙ ap (λ l. l ++ lines_of w.current) same in
      elim (Bool-cases (shift_backups fault 1 (remove_oldest w.backups)).0) [
        | inl done ↦ rw done (
            ap (λ l. last_lines w.backups ++ l)
              (rotate_current-log fault
                (record w { backups = (shift_backups fault 1 (remove_oldest w.backups)).1 })
                (first done))
            ∙ moved)
        | inr stopped ↦ rw stopped moved
      ]

  -- The lines that a rotation removes.
  abbrev pub oldest_lines : Option Fault → JsonlWriter A → List A
  oldest_lines fault w = if removes_oldest fault then last_lines w.backups else []

  pub rotate-log :
      (fault : Option Fault) (w : JsonlWriter A)
      → HasBackups w
      → oldest_lines fault w ++ contents (rotate size fault w).1 ≡ contents w
  unfolding rotate
  rotate-log none w h = rotate_shifted-log none (record w { is_open = false }) h
  rotate-log (some close_fails) w h = refl
  rotate-log (some remove_fails) w h = refl
  rotate-log (some rotate_fails) w h =
      rotate_shifted-log (some rotate_fails) (record w { is_open = false }) h
  rotate-log (some open_fails) w h =
      rotate_shifted-log (some open_fails) (record w { is_open = false }) h
  rotate-log (some (rename_fails k)) w h =
      rotate_shifted-log (some (rename_fails k)) (record w { is_open = false }) h

  -- The lines that an append removes.
  abbrev pub dropped : Option Fault → A → JsonlWriter A → List A
  dropped fault line w =
      if w.is_open && needs_rotation size line w then oldest_lines fault w else []

  abbrev pub accepted : Option AppendError → A → List A
  accepted none line = line ∷ []
  accepted (some e) line = []
