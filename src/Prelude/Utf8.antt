-- ===== src/Prelude/Utf8.antt =====
-- How unicode/utf8 finds the runes of a string: bytes are natural numbers below 256.
use mux_mail.Prelude.{
  ℕ, zero, suc, ◌≤◌, ◌≡◌, refl, Bool, true, false, ◌&&◌, List, [], ◌∷◌, ltb, leb, if◌then◌else◌,
  arith, ◌==◌, nat_eq,
}

abbrev between : ℕ → ℕ → ℕ → Bool
between low high b = leb low b && leb b high

-- A byte that continues a rune.
abbrev pub is_continuation : ℕ → Bool
is_continuation = between 0x80 0xbf

-- The bytes that may come second after the first byte of a rune of two or more bytes.
abbrev second_byte : ℕ → ℕ → Bool
second_byte first b =
    if first == 0xe0
    then between 0xa0 0xbf b
    else if first == 0xed
    then between 0x80 0x9f b
    else if first == 0xf0
    then between 0x90 0xbf b
    else if first == 0xf4
    then between 0x80 0x8f b
    else between 0x80 0xbf b

-- How many bytes the rune has that starts with `a`, if b, c and d come after it; 0 if there is none.
unfoldable pub width_of : ℕ → ℕ → ℕ → ℕ → ℕ
width_of a b c d =
    if ltb a 0x80
    then 1
    else if between 0xc2 0xdf a && is_continuation b
    then 2
    else if between 0xe0 0xef a && (second_byte a b && is_continuation c)
    then 3
    else if between 0xf0 0xf4 a && (second_byte a b && (is_continuation c && is_continuation d))
    then 4
    else 0

-- The byte at an index; past the end a 0, which continues no rune.
unfoldable pub byte_at : List ℕ → ℕ → ℕ
byte_at [] i = 0
byte_at (b ∷ bs) zero = b
byte_at (b ∷ bs) (suc i) = byte_at bs i

-- How many bytes the rune has that starts with this byte and is followed by these; 0 if the byte
-- starts no valid rune.
unfoldable pub rune_width : ℕ → List ℕ → ℕ
unfolding width_of byte_at
rune_width a bs = width_of a (byte_at bs 0) (byte_at bs 1) (byte_at bs 2)

-- The bytes after the first of a rune continue it.
pub width-continues :
    (a b c d left : ℕ)
    → width_of a b c d ≡ suc left
    → (left ≤ 3)
      × (1 ≤ left → is_continuation b ≡ true)
      × (2 ≤ left → is_continuation c ≡ true)
      × (3 ≤ left → is_continuation d ≡ true)
unfolding width_of
width-continues a b c d left h =
    (ground arith, λ p. ground (arith, p), λ p. ground (arith, p), λ p. ground (arith, p))

-- The rune is the same whatever comes after it.
width_one : (a b c d x y z : ℕ) → width_of a b c d ≡ 1 → width_of a x y z ≡ 1
unfolding width_of
width_one a b c d x y z h = let low : ltb a 0x80 ≡ true = ground arith in rw low refl

width_two : (a b c d y z : ℕ) → width_of a b c d ≡ 2 → width_of a b y z ≡ 2
unfolding width_of
width_two a b c d y z h =
    let low : ltb a 0x80 ≡ false = ground arith in
    let two : (between 0xc2 0xdf a && is_continuation b) ≡ true = ground arith in rw (low, two) refl

width_three : (a b c d z : ℕ) → width_of a b c d ≡ 3 → width_of a b c z ≡ 3
unfolding width_of
width_three a b c d z h =
    let low : ltb a 0x80 ≡ false = ground arith in
    let two : (between 0xc2 0xdf a && is_continuation b) ≡ false = ground arith in
    let three : (between 0xe0 0xef a && (second_byte a b && is_continuation c)) ≡ true =
      ground arith in
    rw (low, two, three) refl

pub width-lead :
    (a b c d x y z left : ℕ)
    → width_of a b c d ≡ suc left
    → (1 ≤ left → x ≡ b)
    → (2 ≤ left → y ≡ c)
    → (3 ≤ left → z ≡ d)
    → width_of a x y z ≡ suc left
width-lead a b c d x y z zero h p q r = width_one a b c d x y z h
width-lead a b c d x y z (suc zero) h p q r = rw (p (omega arith)) (width_two a b c d y z h)
width-lead a b c d x y z (suc (suc zero)) h p q r =
    rw (p (omega arith), q (omega arith)) (width_three a b c d z h)
width-lead a b c d x y z (suc (suc (suc zero))) h p q r =
    rw (p (omega arith), q (omega arith), r (omega arith)) h
width-lead a b c d x y z (suc (suc (suc (suc n)))) h p q r =
    absurd (omega (arith, (width-continues a b c d (suc (suc (suc (suc n)))) h).0))
