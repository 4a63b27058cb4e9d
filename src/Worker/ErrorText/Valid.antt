-- ===== src/Worker/ErrorText/Valid.antt =====
-- The text of safeErrorMessage is UTF-8.
use mux_mail.Prelude.{
  ℕ, zero, suc, ◌<◌, ◌≡◌, refl, true, [], ◌∷◌, take, length, leb, arith, Bool-cases, inl, inr, sym,
  ◌∙◌,
}
use mux_mail.Prelude.Utf8.{is_continuation, byte_at, rune_width}
use mux_mail.Prelude.Runes.{
  IsUtf8, done, starts, goes_on, SameStart, SameStart-cons, rune_width-continues, rune_width-lead,
  take-IsUtf8,
}
use mux_mail.Domain.Types.{Bytes}
use mux_mail.Worker.ErrorText.{
  valid_bytes, to_valid_utf8, continues_at, cut_back, max_error_bytes, safe_error_message,
}

valid_bytes_starts :
    (b : ℕ) (bs : Bytes) (left : ℕ)
    → rune_width b bs ≡ suc left
    → IsUtf8 left (valid_bytes left bs) × SameStart left (valid_bytes left bs) bs
    → IsUtf8 0 (valid_bytes zero (b ∷ bs))
unfolding valid_bytes
valid_bytes_starts b bs left e (v, same) =
    rw (e, valid_bytes)
      (starts b (valid_bytes left bs) left (rune_width-lead b bs (valid_bytes left bs) left e same)
        v)

valid_bytes_skips :
    (b : ℕ) (bs : Bytes)
    → rune_width b bs ≡ 0
    → IsUtf8 0 (valid_bytes zero bs)
    → IsUtf8 0 (valid_bytes zero (b ∷ bs))
unfolding valid_bytes
valid_bytes_skips b bs e v = rw (e, valid_bytes) v

valid_bytes-IsUtf8 :
    (left : ℕ) (bs : Bytes)
    → ((i : ℕ) → i < left → is_continuation (byte_at bs i) ≡ true)
    → IsUtf8 left (valid_bytes left bs) × SameStart left (valid_bytes left bs) bs
unfolding valid_bytes byte_at
valid_bytes-IsUtf8 zero [] h = (done, λ i k. refl)
valid_bytes-IsUtf8 (suc left) [] h = absurd (cc (h 0 (omega arith)))
valid_bytes-IsUtf8 (suc left) (b ∷ bs) h =
    let (v, same) = valid_bytes-IsUtf8 left bs (λ i k. h (suc i) (omega (arith, k))) in
    (
      goes_on b (valid_bytes left bs) left (h 0 (omega arith)) v,
      SameStart-cons left b (valid_bytes left bs) bs same,
    )
valid_bytes-IsUtf8 zero (b ∷ bs) h = (
  by_width (λ left. valid_bytes-IsUtf8 left bs) (rune_width b bs) refl,
  λ i k. absurd (omega (arith, k)),
)
  where
    by_width :
        ((left : ℕ)
          → ((i : ℕ) → i < left → is_continuation (byte_at bs i) ≡ true)
          → IsUtf8 left (valid_bytes left bs) × SameStart left (valid_bytes left bs) bs)
        → (n : ℕ) → rune_width b bs ≡ n
        → IsUtf8 0 (valid_bytes zero (b ∷ bs))
    by_width rest zero e = valid_bytes_skips b bs e (rest 0 (λ i k. absurd (omega (arith, k)))).0
    by_width rest (suc left) e =
        valid_bytes_starts b bs left e (rest left (rune_width-continues b bs left e))

continues_at-byte_at : (bs : Bytes) (n : ℕ) → continues_at bs n ≡ is_continuation (byte_at bs n)
unfolding byte_at
continues_at-byte_at [] n = refl
continues_at-byte_at (b ∷ bs) zero = refl
continues_at-byte_at (b ∷ bs) (suc n) = continues_at-byte_at bs n

take-cut_back-IsUtf8 : (bs : Bytes) (n : ℕ) → IsUtf8 0 bs → IsUtf8 0 (take (cut_back bs n) bs)
unfolding cut_back
take-cut_back-IsUtf8 bs zero u = done
take-cut_back-IsUtf8 bs (suc n) u = elim (Bool-cases (continues_at bs (suc n))) [
  | inl e ↦ rw (e, cut_back) (take-cut_back-IsUtf8 bs n u)
  | inr e ↦
      rw (e, cut_back) (take-IsUtf8 (suc n) 0 bs u (sym (continues_at-byte_at bs (suc n)) ∙ e)).0
]

-- The invalid bytes are dropped, and the cut is before the start of a rune.
pub safe_error_message-IsUtf8 : (message : Bytes) → IsUtf8 0 (safe_error_message message)
unfolding safe_error_message to_valid_utf8
safe_error_message-IsUtf8 message =
    let u : IsUtf8 0 (to_valid_utf8 message) =
      (valid_bytes-IsUtf8 0 message (λ i k. absurd (omega (arith, k)))).0 in
    elim (Bool-cases (leb (length (to_valid_utf8 message)) max_error_bytes)) [
      | inl e ↦ rw (e, safe_error_message) u
      | inr e ↦
          rw (e, safe_error_message)
            (take-cut_back-IsUtf8 (to_valid_utf8 message) max_error_bytes u)
    ]
