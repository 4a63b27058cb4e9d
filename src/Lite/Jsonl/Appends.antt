-- ===== src/Lite/Jsonl/Appends.antt =====
-- Appends as an observer of the whole log sees them: what each writes and what each removes.
use mux_mail.Prelude.{
  ℕ, suc, ◌≡◌, refl, sym, ap, ◌≢◌, ◌&&◌, ◌∙◌, Bool, true, false, Option, none, some, List, [], ◌∷◌,
  ◌++◌, if◌then◌else◌, Bool-cases, inl, inr,
}
use mathlib.Core.List.{append_assoc, append-nil}
use mux_mail.Lite.Jsonl.{
  Fault, close_fails, remove_fails, rotate_fails, open_fails, rename_fails, AppendError,
  writer_closed, os_error, JsonlWriter, lines_of, remove_oldest, rename_to_next, shift_backups,
  fails_at, rename_current, open_file, rotate_current, rotate_shifted, rotate, write_line,
  needs_rotation, append_line,
}
use mux_mail.Lite.Jsonl.Contents.{
  backup_log, contents, HasBackups, oldest_lines, rotate-log, dropped, accepted,
}

module _ {A : Type 0} (size : A → ℕ) where
  -- The four ways in which an append ends.
  pub data Appended (fault : Option Fault) (line : A) (w : JsonlWriter A)
      : Option AppendError × JsonlWriter A → Type 0 where
    was_closed : w.is_open ≡ false → Appended fault line w (some writer_closed, w)
    fitted :
        w.is_open ≡ true
        → needs_rotation size line w ≡ false
        → Appended fault line w (none, write_line size line w)
    rotated :
        w.is_open ≡ true
        → needs_rotation size line w ≡ true
        → (rotate size fault w).0 ≡ none
        → Appended fault line w (none, write_line size line (rotate size fault w).1)
    not_rotated :
        (f : Fault)
        → w.is_open ≡ true
        → needs_rotation size line w ≡ true
        → (rotate size fault w).0 ≡ some f
        → Appended fault line w (some (os_error f), (rotate size fault w).1)

  pub append_line-Appended :
      (fault : Option Fault) (line : A) (w : JsonlWriter A)
      → Appended fault line w (append_line size fault line w)
  unfolding append_line
  append_line-Appended fault line w = by_tests _ _ _ refl refl refl
    where
      by_tests :
          (is_open rotates : Bool) (failed : Option Fault)
          → w.is_open ≡ is_open
          → needs_rotation size line w ≡ rotates
          → (rotate size fault w).0 ≡ failed
          → Appended fault line w (
              if is_open
              then (if rotates
                  then (elim failed [
                    | some f ↦ (some (os_error f), (rotate size fault w).1)
                    | none ↦ (none, write_line size line (rotate size fault w).1)
                  ])
                  else (none, write_line size line w))
              else (some writer_closed, w))
      by_tests false rotates failed o r f = was_closed o
      by_tests true false failed o r f = fitted o r
      by_tests true true none o r f = rotated o r f
      by_tests true true (some x) o r f = not_rotated x o r f

  write_line-contents :
      (line : A) (w : JsonlWriter A) → contents (write_line size line w) ≡ contents w ++ line ∷ []
  unfolding write_line
  write_line-contents line w =
      sym (append_assoc (backup_log w.backups) (lines_of w.current) (line ∷ []))

  dropped-rotates :
      (fault : Option Fault) (line : A) (w : JsonlWriter A)
      → w.is_open ≡ true
      → needs_rotation size line w ≡ true
      → dropped size fault line w ≡ oldest_lines size fault w
  dropped-rotates fault line w o r =
      ap (λ b. if b then oldest_lines size fault w else [])
        (ap (λ b. b && needs_rotation size line w) o ∙ r)

  append_line-contents :
      (fault : Option Fault) (line : A) (w : JsonlWriter A)
      → HasBackups w
      → dropped size fault line w ++ contents (append_line size fault line w).1
        ≡ contents w ++ accepted size (append_line size fault line w).0 line
  append_line-contents fault line w h = by_end (append_line-Appended fault line w)
    where
      by_end :
          {p : Option AppendError × JsonlWriter A}
          → Appended fault line w p
          → dropped size fault line w ++ contents p.1 ≡ contents w ++ accepted size p.0 line
      by_end (was_closed o) =
          ap
            (λ b.
              (if b && needs_rotation size line w then oldest_lines size fault w else [])
              ++ contents w)
            o
          ∙ sym (append-nil (contents w))
      by_end (fitted o r) =
          ap
            (λ b.
              (if b then oldest_lines size fault w else []) ++ contents (write_line size line w))
            (ap (λ b. b && needs_rotation size line w) o ∙ r)
          ∙ write_line-contents line w
      by_end (rotated o r f) =
          let w' = (rotate size fault w).1 in
          ap (λ d. d ++ contents (write_line size line w')) (dropped-rotates fault line w o r)
          ∙ ap (λ l. oldest_lines size fault w ++ l) (write_line-contents line w')
          ∙ sym (append_assoc (oldest_lines size fault w) (contents w') (line ∷ []))
          ∙ ap (λ l. l ++ line ∷ []) (rotate-log size fault w h)
      by_end (not_rotated x o r f) =
          ap (λ d. d ++ contents (rotate size fault w).1) (dropped-rotates fault line w o r)
          ∙ rotate-log size fault w h
          ∙ sym (append-nil (contents w))

  -- After an append with no error the line is the last one, behind what the rotation left.
  pub append_line-ends :
      (fault : Option Fault) (line : A) (w : JsonlWriter A)
      → HasBackups w
      → (append_line size fault line w).0 ≡ none
      → (gone : List A) × (rest : List A) × (gone ++ rest ≡ contents w)
        × (contents (append_line size fault line w).1 ≡ rest ++ line ∷ [])
  append_line-ends fault line w h = by_end (append_line-Appended fault line w)
    where
      by_end :
          {p : Option AppendError × JsonlWriter A}
          → Appended fault line w p
          → p.0 ≡ none
          → (gone : List A) × (rest : List A) × (gone ++ rest ≡ contents w)
            × (contents p.1 ≡ rest ++ line ∷ [])
      by_end (was_closed o) e = absurd (cc e)
      by_end (fitted o r) e = ([], contents w, refl, write_line-contents line w)
      by_end (rotated o r f) e = (
        oldest_lines size fault w,
        contents (rotate size fault w).1,
        rotate-log size fault w h,
        write_line-contents line (rotate size fault w).1,
      )
      by_end (not_rotated x o r f) e = absurd (cc e)

  -- A history of appends, each with the fault that its rotation would meet.
  abbrev pub appends : List (Option Fault × A) → JsonlWriter A → JsonlWriter A
  appends [] w = w
  appends ((fault, line) ∷ rest) w = appends rest (append_line size fault line w).1

  -- The lines whose append has returned no error.
  abbrev pub acknowledged : List (Option Fault × A) → JsonlWriter A → List A
  acknowledged [] w = []
  acknowledged ((fault, line) ∷ rest) w =
      accepted size (append_line size fault line w).0 line
      ++ acknowledged rest (append_line size fault line w).1

  rename_to_next-some :
      (b : Option (List A)) (bs : List (Option (List A))) → rename_to_next b bs ≢ []
  rename_to_next-some b [] e = cc e
  rename_to_next-some none (t ∷ ts) e = cc e
  rename_to_next-some (some lines) (t ∷ ts) e = cc e

  rename_current-some :
      (current : Option (List A)) (bs : List (Option (List A)))
      → bs ≢ []
      → rename_current current bs ≢ []
  rename_current-some none bs h e = h e
  rename_current-some (some lines) [] h e = h e
  rename_current-some (some lines) (b ∷ bs) h e = cc e

  shift_backups-some :
      (fault : Option Fault) (index : ℕ) (bs : List (Option (List A)))
      → bs ≢ []
      → (shift_backups fault index bs).1 ≢ []
  unfolding shift_backups
  shift_backups-some fault index [] h = h
  shift_backups-some fault index (b ∷ []) h = λ e. cc e
  shift_backups-some fault index (b ∷ c ∷ bs) h =
      let rest = shift_backups fault (suc index) (c ∷ bs) in
      elim (Bool-cases rest.0) [
        | inr stopped ↦ rw stopped (λ e. cc e)
        | inl done ↦ elim (Bool-cases (fails_at fault index)) [
          | inl fails ↦ rw (done, fails) (λ e. cc e)
          | inr passes ↦ rw (done, passes) (rename_to_next-some b rest.1)
        ]
      ]

  remove_oldest-some : (bs : List (Option (List A))) → bs ≢ [] → remove_oldest bs ≢ []
  unfolding remove_oldest
  remove_oldest-some [] h e = h e
  remove_oldest-some (b ∷ []) h e = cc e
  remove_oldest-some (b ∷ c ∷ bs) h e = cc e

  rotate_current-HasBackups :
      (fault : Option Fault) (w : JsonlWriter A)
      → HasBackups w
      → HasBackups (rotate_current size fault w).1
  unfolding rotate_current open_file
  rotate_current-HasBackups none w h = rename_current-some w.current w.backups h
  rotate_current-HasBackups (some rotate_fails) w h = h
  rotate_current-HasBackups (some open_fails) w h = rename_current-some w.current w.backups h
  rotate_current-HasBackups (some close_fails) w h = rename_current-some w.current w.backups h
  rotate_current-HasBackups (some remove_fails) w h = rename_current-some w.current w.backups h
  rotate_current-HasBackups (some (rename_fails k)) w h = rename_current-some w.current w.backups h

  rotate_shifted-HasBackups :
      (fault : Option Fault) (w : JsonlWriter A)
      → HasBackups w
      → HasBackups (rotate_shifted size fault w).1
  unfolding rotate_shifted
  rotate_shifted-HasBackups fault w h =
      let shifted = shift_backups fault 1 (remove_oldest w.backups) in
      let left =
        shift_backups-some fault 1 (remove_oldest w.backups) (remove_oldest-some w.backups h) in
      elim (Bool-cases shifted.0) [
        | inl done ↦
            rw done (rotate_current-HasBackups fault (record w { backups = shifted.1 }) left)
        | inr stopped ↦ rw stopped left
      ]

  rotate-HasBackups :
      (fault : Option Fault) (w : JsonlWriter A) → HasBackups w → HasBackups (rotate size fault w).1
  unfolding rotate
  rotate-HasBackups none w h = rotate_shifted-HasBackups none (record w { is_open = false }) h
  rotate-HasBackups (some close_fails) w h = h
  rotate-HasBackups (some remove_fails) w h = h
  rotate-HasBackups (some rotate_fails) w h =
      rotate_shifted-HasBackups (some rotate_fails) (record w { is_open = false }) h
  rotate-HasBackups (some open_fails) w h =
      rotate_shifted-HasBackups (some open_fails) (record w { is_open = false }) h
  rotate-HasBackups (some (rename_fails k)) w h =
      rotate_shifted-HasBackups (some (rename_fails k)) (record w { is_open = false }) h

  append_line-HasBackups :
      (fault : Option Fault) (line : A) (w : JsonlWriter A)
      → HasBackups w
      → HasBackups (append_line size fault line w).1
  unfolding write_line
  append_line-HasBackups fault line w h = by_end (append_line-Appended fault line w)
    where
      by_end : {p : Option AppendError × JsonlWriter A} → Appended fault line w p → HasBackups p.1
      by_end (was_closed o) = h
      by_end (fitted o r) = h
      by_end (rotated o r f) = rotate-HasBackups fault w h
      by_end (not_rotated x o r f) = rotate-HasBackups fault w h

  -- What the appends remove: the oldest backup, at each rotation that comes as far as its removal.
  abbrev pub all_dropped : List (Option Fault × A) → JsonlWriter A → List A
  all_dropped [] w = []
  all_dropped ((fault, line) ∷ rest) w =
      dropped size fault line w ++ all_dropped rest (append_line size fault line w).1

  -- Over any history of appends, with any faults of the operating system during rotations, the lines
  -- that rotations removed with the oldest backup and then the lines of all files, in the order of the
  -- query paths, are the lines at the start and then those that were acknowledged, each once and in
  -- order: nothing else is lost or changed.
  pub appends-contents :
      (calls : List (Option Fault × A)) (w : JsonlWriter A)
      → HasBackups w
      → all_dropped calls w ++ contents (appends calls w) ≡ contents w ++ acknowledged calls w
  appends-contents [] w h = sym (append-nil (contents w))
  appends-contents ((fault, line) ∷ rest) w h =
      let w' = (append_line size fault line w).1 in
      append_assoc (dropped size fault line w) (all_dropped rest w') (contents (appends rest w'))
      ∙ ap (λ l. dropped size fault line w ++ l)
          (appends-contents rest w' (append_line-HasBackups fault line w h))
      ∙ sym (append_assoc (dropped size fault line w) (contents w') (acknowledged rest w'))
      ∙ ap (λ l. l ++ acknowledged rest w') (append_line-contents fault line w h)
      ∙ append_assoc (contents w) (accepted size (append_line size fault line w).0 line)
          (acknowledged rest w')
