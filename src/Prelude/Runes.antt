-- ===== src/Prelude/Runes.antt =====
-- Strings of whole runes, as unicode/utf8 finds them.
use mux_mail.Prelude.{ℕ, zero, suc, ◌<◌, ◌≡◌, refl, true, false, List, [], ◌∷◌, take, arith}
use mux_mail.Prelude.Utf8.{is_continuation, byte_at, rune_width, width-continues, width-lead}

-- A string of whole runes, after the rest of a rune of which `left` bytes are still to come.
pub data IsUtf8 : ℕ → List ℕ → Type 0 where
  done : IsUtf8 0 []
  starts :
      (b : ℕ) (bs : List ℕ) (left : ℕ)
      → rune_width b bs ≡ suc left
      → IsUtf8 left bs
      → IsUtf8 0 (b ∷ bs)
  goes_on :
      (b : ℕ) (bs : List ℕ) (left : ℕ)
      → is_continuation b ≡ true
      → IsUtf8 left bs
      → IsUtf8 (suc left) (b ∷ bs)

-- Two strings that start with the same bytes.
abbrev pub SameStart : ℕ → List ℕ → List ℕ → Type 0
SameStart left xs ys = (i : ℕ) → i < left → byte_at xs i ≡ byte_at ys i

pub rune_width-continues :
    (a : ℕ) (bs : List ℕ) (left : ℕ)
    → rune_width a bs ≡ suc left
    → (i : ℕ) → i < left
    → is_continuation (byte_at bs i) ≡ true
unfolding rune_width
rune_width-continues a bs left e zero h =
    (width-continues a (byte_at bs 0) (byte_at bs 1) (byte_at bs 2) left e).1 (omega (arith, h))
rune_width-continues a bs left e (suc zero) h =
    (width-continues a (byte_at bs 0) (byte_at bs 1) (byte_at bs 2) left e).2 (omega (arith, h))
rune_width-continues a bs left e (suc (suc zero)) h =
    (width-continues a (byte_at bs 0) (byte_at bs 1) (byte_at bs 2) left e).3 (omega (arith, h))
rune_width-continues a bs left e (suc (suc (suc i))) h =
    absurd
      (omega (arith, h, (width-continues a (byte_at bs 0) (byte_at bs 1) (byte_at bs 2) left e).0))

pub rune_width-lead :
    (a : ℕ) (bs xs : List ℕ) (left : ℕ)
    → rune_width a bs ≡ suc left
    → SameStart left xs bs
    → rune_width a xs ≡ suc left
unfolding rune_width
rune_width-lead a bs xs left e same =
    width-lead a (byte_at bs 0) (byte_at bs 1) (byte_at bs 2) (byte_at xs 0) (byte_at xs 1)
      (byte_at xs 2) left e (λ h. same 0 (omega (arith, h))) (λ h. same 1 (omega (arith, h)))
      (λ h. same 2 (omega (arith, h)))

pub SameStart-cons :
    (m a : ℕ) (xs ys : List ℕ) → SameStart m xs ys → SameStart (suc m) (a ∷ xs) (a ∷ ys)
unfolding byte_at
SameStart-cons m a xs ys same zero k = refl
SameStart-cons m a xs ys same (suc i) k = same i (omega (arith, k))

-- A string of whole runes that is cut before the start of a rune is one of whole runes.
pub take-IsUtf8 :
    (n left : ℕ) (bs : List ℕ)
    → IsUtf8 left bs
    → is_continuation (byte_at bs n) ≡ false
    → IsUtf8 left (take n bs) × SameStart left (take n bs) bs
unfolding byte_at
take-IsUtf8 zero _ _ done h = (done, λ i k. refl)
take-IsUtf8 (suc n) _ _ done h = (done, λ i k. refl)
take-IsUtf8 zero _ _ (starts b bs left e u) h = (done, λ i k. absurd (omega (arith, k)))
take-IsUtf8 (suc n) _ _ (starts b bs left e u) h =
    let (v, same) = take-IsUtf8 n left bs u h in
    (
      starts b (take n bs) left (rune_width-lead b bs (take n bs) left e same) v,
      λ i k. absurd (omega (arith, k)),
    )
take-IsUtf8 zero _ _ (goes_on b bs left c u) h = absurd (cc (c, h))
take-IsUtf8 (suc n) _ _ (goes_on b bs left c u) h =
    let (v, same) = take-IsUtf8 n left bs u h in
    (goes_on b (take n bs) left c v, SameStart-cons left b (take n bs) bs same)
