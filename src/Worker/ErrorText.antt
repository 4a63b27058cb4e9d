-- ===== src/Worker/ErrorText.antt =====
-- safeErrorMessage of internal/worker/worker.go, on bytes.
pub mod Valid
use mux_mail.Prelude.{
  ℕ, zero, suc, ◌≤◌, Bool, false, ◌&&◌, none, some, [], ◌∷◌, length, get_elem?, take,
  length-take-le, ltb, leb, leb→le, if◌then◌else◌, Bool-cases, inl, inr, arith, ◌==◌, nat_eq,
}
use mux_mail.Prelude.Utf8.{rune_width, is_continuation}
use mux_mail.Domain.Types.{Bytes}

-- The first argument counts the bytes that the rune in hand still has.
unfoldable pub valid_bytes : ℕ → Bytes → Bytes
unfolding rune_width
valid_bytes left [] = []
valid_bytes (suc left) (b ∷ bs) = b ∷ valid_bytes left bs
valid_bytes zero (b ∷ bs) = elim (rune_width b bs) [
  | zero ↦ valid_bytes zero bs
  | suc left ↦ b ∷ valid_bytes left bs
]

-- strings.ToValidUTF8 with no replacement
unfoldable pub to_valid_utf8 : Bytes → Bytes
unfolding valid_bytes
to_valid_utf8 message = valid_bytes zero message

-- !utf8.RuneStart(message[end]); an index past the end would panic.
abbrev pub continues_at : Bytes → ℕ → Bool
continues_at message end = elim (get_elem? message end) [
  | none ↦ false
  | some b ↦ is_continuation b
]

-- The loop that moves `end` back to the start of a rune.
unfoldable pub cut_back : Bytes → ℕ → ℕ
cut_back message zero = zero
cut_back message (suc n) =
    let rest = cut_back message n in if continues_at message (suc n) then rest else suc n

abbrev pub max_error_bytes : ℕ
max_error_bytes = 256

unfoldable pub safe_error_message : Bytes → Bytes
unfolding to_valid_utf8 cut_back
safe_error_message message =
    let valid = to_valid_utf8 message in
    if leb (length valid) max_error_bytes
    then valid
    else take (cut_back valid max_error_bytes) valid

cut_back-le : (message : Bytes) (n : ℕ) → cut_back message n ≤ n
unfolding cut_back
cut_back-le message zero = omega arith
cut_back-le message (suc n) = ground (arith, cut_back-le message n)

length-take-below : (n m : ℕ) (xs : Bytes) → n ≤ m → length (take n xs) ≤ m
length-take-below n m xs h = omega (arith, h, length-take-le n xs)

pub length-safe_error_message :
    (message : Bytes) → length (safe_error_message message) ≤ max_error_bytes
unfolding safe_error_message
length-safe_error_message message =
    elim (Bool-cases (leb (length (to_valid_utf8 message)) max_error_bytes)) [
      | inl e ↦ rw e (leb→le _ _ e)
      | inr e ↦ rw e (
          length-take-below (cut_back (to_valid_utf8 message) 256) 256 (to_valid_utf8 message)
            (cut_back-le (to_valid_utf8 message) 256))
    ]
