-- ===== src/Lite/Jsonl/Size.antt =====
-- The size of the current file: the counter of the writer is the size of the file, and the limit holds for
-- every file of more than one line.
use mux_mail.Prelude.{
  ℕ, suc, ◌+◌, ◌≤◌, ◌≡◌, refl, sym, ap, ◌∙◌, ◌⊎◌, Bool, true, false, Option, none, some, List, [],
  ◌∷◌, ◌++◌, arith, subst, ◌&&◌, inl, inr, ltb, if◌then◌else◌,
}
use mathlib.Core.Bool.{false≢true}
use mux_mail.Lite.Jsonl.{
  Fault, close_fails, remove_fails, rotate_fails, open_fails, rename_fails, AppendError,
  writer_closed, os_error, JsonlWriter, lines_of, remove_oldest, shift_backups, open_file,
  file_size, rotate_current, rotate_shifted, rotate, write_line, append_line,
}
use mux_mail.Lite.Jsonl.Contents.{accepted}
use mux_mail.Lite.Jsonl.Appends.{
  Appended, was_closed, fitted, rotated, not_rotated, append_line-Appended, acknowledged, appends,
}

within : (n limit k : ℕ) → ltb 0 n ≡ true → ltb 0 n && ltb limit (n + k) ≡ false → n + k ≤ limit
within n limit k e r = ground arith

empty : (n : ℕ) → ltb 0 n ≡ false → n ≡ 0
empty n e = ground arith

module _ {A : Type 0} (size : A → ℕ) where
  -- An open writer counts the bytes of its file.
  unfoldable pub IsCounted : JsonlWriter A → Type 0
  IsCounted w = w.is_open ≡ true → w.current_size ≡ file_size size (lines_of w.current)

  file_size-append :
      (lines : List A) (line : A)
      → file_size size (lines ++ line ∷ []) ≡ file_size size lines + (size line + 1)
  file_size-append [] line = omega arith
  file_size-append (l ∷ lines) line =
      ap (λ n. (size l + 1) + n) (file_size-append lines line) ∙ omega arith

  file_size-zero : (lines : List A) → file_size size lines ≡ 0 → lines ≡ []
  file_size-zero [] h = refl
  file_size-zero (l ∷ lines) h = absurd (omega (arith, h))

  -- A rotation that fails leaves the writer closed, one that succeeds opens an empty file.
  data RotationEnd : Option Fault × JsonlWriter A → Type 0 where
    reopened :
        (w' : JsonlWriter A)
        → w'.current_size ≡ 0
        → lines_of w'.current ≡ []
        → RotationEnd (none, w')
    left_closed : (f : Fault) (w' : JsonlWriter A) → w'.is_open ≡ false → RotationEnd (some f, w')

  rotate_current-RotationEnd :
      (fault : Option Fault) (w : JsonlWriter A)
      → w.is_open ≡ false
      → RotationEnd (rotate_current size fault w)
  unfolding rotate_current open_file
  rotate_current-RotationEnd none w h = reopened _ refl refl
  rotate_current-RotationEnd (some close_fails) w h = reopened _ refl refl
  rotate_current-RotationEnd (some remove_fails) w h = reopened _ refl refl
  rotate_current-RotationEnd (some rotate_fails) w h = left_closed rotate_fails _ h
  rotate_current-RotationEnd (some open_fails) w h = left_closed open_fails _ h
  rotate_current-RotationEnd (some (rename_fails k)) w h = reopened _ refl refl

  shift_backups-stops :
      (index : ℕ) (bs : List (Option (List A))) → (shift_backups none index bs).0 ≡ true
  unfolding shift_backups
  shift_backups-stops index [] = refl
  shift_backups-stops index (b ∷ []) = refl
  shift_backups-stops index (b ∷ c ∷ bs) = rw (shift_backups-stops (suc index) (c ∷ bs)) refl

  rotate_shifted-RotationEnd :
      (fault : Option Fault) (w : JsonlWriter A)
      → w.is_open ≡ false
      → RotationEnd (rotate_shifted size fault w)
  unfolding rotate_shifted
  rotate_shifted-RotationEnd fault w h = by_done fault _ refl
    where
      by_done :
          (fault : Option Fault) (done : Bool)
          → (shift_backups fault 1 (remove_oldest w.backups)).0 ≡ done
          → (let w' = record w { backups = (shift_backups fault 1 (remove_oldest w.backups)).1 } in
              RotationEnd (if done then rotate_current size fault w' else (fault, w')))
      by_done fault true e =
          rotate_current-RotationEnd fault
            (record w { backups = (shift_backups fault 1 (remove_oldest w.backups)).1 }) h
      by_done none false e =
          absurd (false≢true (sym e ∙ shift_backups-stops 1 (remove_oldest w.backups)))
      by_done (some f) false e = left_closed f _ h

  rotate-RotationEnd :
      (fault : Option Fault) (w : JsonlWriter A) → RotationEnd (rotate size fault w)
  unfolding rotate
  rotate-RotationEnd none w = rotate_shifted-RotationEnd none (record w { is_open = false }) refl
  rotate-RotationEnd (some close_fails) w = left_closed close_fails _ refl
  rotate-RotationEnd (some remove_fails) w = left_closed remove_fails _ refl
  rotate-RotationEnd (some rotate_fails) w =
      rotate_shifted-RotationEnd (some rotate_fails) (record w { is_open = false }) refl
  rotate-RotationEnd (some open_fails) w =
      rotate_shifted-RotationEnd (some open_fails) (record w { is_open = false }) refl
  rotate-RotationEnd (some (rename_fails k)) w =
      rotate_shifted-RotationEnd (some (rename_fails k)) (record w { is_open = false }) refl

  reopened_empty :
      {p : Option Fault × JsonlWriter A}
      → RotationEnd p
      → p.0 ≡ none
      → (p.1.current_size ≡ 0) × (lines_of p.1.current ≡ [])
  reopened_empty (reopened w' a b) h = (a, b)
  reopened_empty (left_closed f w' c) h = absurd (cc h)

  failed_closed :
      {p : Option Fault × JsonlWriter A}
      → RotationEnd p
      → (f : Fault) → p.0 ≡ some f
      → p.1.is_open ≡ false
  failed_closed (reopened w' a b) f h = absurd (cc h)
  failed_closed (left_closed x w' c) f h = c

  -- An append keeps the counter of an open writer equal to the size of its file, and after one that is
  -- acknowledged the file is within the limit or holds this one line alone.
  pub append_line-IsCounted :
      (fault : Option Fault) (line : A) (w : JsonlWriter A)
      → IsCounted w
      → IsCounted (append_line size fault line w).1
        × ((append_line size fault line w).0 ≡ none
            → (file_size size (lines_of (append_line size fault line w).1.current) ≤ w.max_bytes)
              ⊎ (lines_of (append_line size fault line w).1.current ≡ line ∷ []))
  unfolding IsCounted write_line
  append_line-IsCounted fault line w h = by_end (append_line-Appended size fault line w)
    where
      by_end :
          {p : Option AppendError × JsonlWriter A}
          → Appended size fault line w p
          → IsCounted p.1
            × (p.0 ≡ none
                → (file_size size (lines_of p.1.current) ≤ w.max_bytes)
                  ⊎ (lines_of p.1.current ≡ line ∷ []))
      by_end (was_closed o) = (h, λ e. absurd (cc e))
      by_end (fitted o r) = (λ _. counted_lines o, λ _. fits (ltb 0 w.current_size) refl)
        where
          counted_lines :
              w.is_open ≡ true
              → w.current_size + (size line + 1) ≡ file_size size (lines_of w.current ++ line ∷ [])
          counted_lines o =
              ap (λ n. n + (size line + 1)) (h o) ∙ sym (file_size-append (lines_of w.current) line)

          fits :
              (b : Bool)
              → ltb 0 w.current_size ≡ b
              → (file_size size (lines_of w.current ++ line ∷ []) ≤ w.max_bytes)
                ⊎ (lines_of w.current ++ line ∷ [] ≡ line ∷ [])
          fits true e = inl (
              subst (λ n. n ≤ w.max_bytes) (counted_lines o)
                (within w.current_size w.max_bytes (size line + 1) e r))
          fits false e = inr (
              ap (λ l. l ++ line ∷ [])
                (file_size-zero (lines_of w.current) (sym (h o) ∙ empty w.current_size e)))
      by_end (rotated o r f) =
          let (zero_bytes, no_lines) = reopened_empty (rotate-RotationEnd fault w) f in
          let one_line = ap (λ l. l ++ line ∷ []) no_lines in
          (
            λ _.
                ap (λ n. n + (size line + 1)) zero_bytes
                ∙ omega arith
                ∙ sym (ap (file_size size) one_line),
            λ _. inr one_line,
          )
      by_end (not_rotated x o r f) = (
        λ e. absurd (false≢true (sym (failed_closed (rotate-RotationEnd fault w) x f) ∙ e)),
        λ e. absurd (cc e),
      )

  append_line-closed :
      (fault : Option Fault) (line : A) (w : JsonlWriter A)
      → w.is_open ≡ false
      → append_line size fault line w ≡ (some writer_closed, w)
  append_line-closed fault line w h = by_end (append_line-Appended size fault line w)
    where
      by_end :
          {p : Option AppendError × JsonlWriter A}
          → Appended size fault line w p
          → p ≡ (some writer_closed, w)
      by_end (was_closed o) = refl
      by_end (fitted o r) = absurd (false≢true (sym h ∙ o))
      by_end (rotated o r f) = absurd (false≢true (sym h ∙ o))
      by_end (not_rotated x o r f) = absurd (false≢true (sym h ∙ o))

  stays_closed :
      (calls : List (Option Fault × A)) (w : JsonlWriter A)
      → w.is_open ≡ false
      → (acknowledged size calls w ≡ []) × (appends size calls w ≡ w)
  stays_closed [] w h = (refl, refl)
  stays_closed ((fault, line) ∷ rest) w h =
      let e = append_line-closed fault line w h in
      let (none_more, same) = stays_closed rest w h in
      (
        ap (λ p. accepted size p.0 line ++ acknowledged size rest p.1) e ∙ none_more,
        ap (λ p. appends size rest p.1) e ∙ same,
      )

  -- After an append whose rotation has failed, every later append is refused and changes no file.
  pub failed_append_closes :
      (fault : Option Fault) (line : A) (w : JsonlWriter A) (f : Fault)
      → (append_line size fault line w).0 ≡ some (os_error f)
      → (calls : List (Option Fault × A))
      → (acknowledged size calls (append_line size fault line w).1 ≡ [])
        × (appends size calls (append_line size fault line w).1 ≡ (append_line size fault line w).1)
  failed_append_closes fault line w f h calls =
      stays_closed calls (append_line size fault line w).1
        (by_end (append_line-Appended size fault line w) h)
    where
      by_end :
          {p : Option AppendError × JsonlWriter A}
          → Appended size fault line w p
          → p.0 ≡ some (os_error f)
          → p.1.is_open ≡ false
      by_end (was_closed o) e = o
      by_end (fitted o r) e = absurd (cc e)
      by_end (rotated o r g) e = absurd (cc e)
      by_end (not_rotated x o r g) e = failed_closed (rotate-RotationEnd fault w) x g
