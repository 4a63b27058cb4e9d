-- ===== src/Domain/Email.antt =====
-- The address checks of internal/domain/request_validation.go, and NormalizeEmail of
-- internal/domain/helpers.go. A text is its list of code points.
use Prim.Native.Char.{code}
use Prim.Native.String.{String}
use mux_mail.Prelude.{
  ℕ, ◌+◌, Bool, true, false, ◌&&◌, ◌||◌, not, Option, none, some, List, [], ◌∷◌, map, length, ltb,
  leb, ◌==◌, nat_eq, runes_eq, if◌then◌else◌,
}
use mathlib.Core.List.{reverse}
use mux_mail.Domain.Types.{Runes}

-- The code points of a text literal.
abbrev pub codes : String → Runes
codes String.[] = []
codes (String.◌∷◌ c s) = code c ∷ codes s

-- unicode.IsSpace
unfoldable pub is_space : ℕ → Bool
is_space c =
    (leb 0x9 c && leb c 0xd)
    || c == 0x20
    || c == 0x85
    || c == 0xa0
    || c == 0x1680
    || (leb 0x2000 c && leb c 0x200a)
    || c == 0x2028
    || c == 0x2029
    || c == 0x202f
    || c == 0x205f
    || c == 0x3000

unfoldable pub trim_left : Runes → Runes
unfolding is_space
trim_left [] = []
trim_left (c ∷ cs) = if is_space c then trim_left cs else c ∷ cs

-- strings.TrimSpace
unfoldable pub trim_space : Runes → Runes
unfolding trim_left
trim_space s = reverse (trim_left (reverse (trim_left s)))

-- `for _, r := range value { if test(r) { return true } }; return false`
unfoldable pub any_rune : (ℕ → Bool) → Runes → Bool
any_rune p [] = false
any_rune p (c ∷ cs) = if p c then true else any_rune p cs

unfoldable pub is_ascii : Runes → Bool
unfolding any_rune
is_ascii s = not (any_rune (λ c. ltb 0x7f c) s)

unfoldable pub contains_whitespace : Runes → Bool
unfolding any_rune is_space
contains_whitespace s = any_rune is_space s

-- strings.Split(s, sep), of a separator of one rune.
unfoldable pub split_from : ℕ → Runes → Runes → List Runes
split_from sep part [] = reverse part ∷ []
split_from sep part (c ∷ cs) =
    let rest = split_from sep [] cs in
    let more = split_from sep (c ∷ part) cs in if c == sep then reverse part ∷ rest else more

unfoldable pub split : ℕ → Runes → List Runes
unfolding split_from
split sep s = split_from sep [] s

unfoldable pub is_lower_alnum : ℕ → Bool
is_lower_alnum c = (leb b'a' c && leb c b'z') || (leb b'0' c && leb c b'9')

-- The loop over a label: every byte is allowed, and the first and the last is no dash. `first` says
-- that the loop stands at index 0.
unfoldable pub label_bytes_ok : Bool → Runes → Bool
unfolding is_lower_alnum
label_bytes_ok first [] = true
label_bytes_ok first (c ∷ []) = is_lower_alnum c
label_bytes_ok first (c ∷ d ∷ cs) =
    if not (is_lower_alnum c || c == b'-')
    then false
    else if first && not (is_lower_alnum c)
    then false
    else label_bytes_ok false (d ∷ cs)

unfoldable pub labels_ok : List Runes → Bool
unfolding label_bytes_ok
labels_ok [] = true
labels_ok (label ∷ rest) =
    if label == [] || ltb 63 (length label)
    then false
    else if label_bytes_ok true label
    then labels_ok rest
    else false

unfoldable pub is_addr_spec_domain : Runes → Bool
unfolding trim_space is_ascii split labels_ok runes_eq
is_addr_spec_domain value =
    if value == []
      || ltb 253 (length value)
      || not (trim_space value == value)
      || not (is_ascii value)
    then false
    else labels_ok (split b'.' value)

-- strings.ContainsRune(chars, c)
unfoldable pub contains_rune : Runes → ℕ → Bool
unfolding any_rune
contains_rune chars c = any_rune (λ d. d == c) chars

unfoldable pub contains_two_dots : Runes → Bool
contains_two_dots [] = false
contains_two_dots (c ∷ []) = false
contains_two_dots (c ∷ d ∷ cs) = if c == b'.' && d == b'.' then true else contains_two_dots (d ∷ cs)

unfoldable pub has_prefix_dot : Runes → Bool
has_prefix_dot [] = false
has_prefix_dot (c ∷ cs) = c == b'.'

unfoldable pub local_byte_ok : ℕ → Bool
unfolding contains_rune
local_byte_ok c =
    (leb b'A' c && leb c b'Z')
    || (leb b'a' c && leb c b'z')
    || (leb b'0' c && leb c b'9')
    || contains_rune (codes "!#$%&'*+/=?^_`{|}~-.") c

abbrev pub max_recipient_bytes : ℕ
max_recipient_bytes = 254

abbrev pub max_recipient_local_bytes : ℕ
max_recipient_local_bytes = 64

unfoldable pub is_addr_spec_local_part : Runes → Bool
unfolding has_prefix_dot contains_two_dots any_rune local_byte_ok runes_eq
is_addr_spec_local_part value =
    if value == []
      || ltb max_recipient_local_bytes (length value)
      || has_prefix_dot value
      || has_prefix_dot (reverse value)
      || contains_two_dots value
    then false
    else not (any_rune (λ c. not (local_byte_ok c)) value)

unfoldable pub to_lower_rune : ℕ → ℕ
to_lower_rune c = if leb b'A' c && leb c b'Z' then c + 32 else c

-- strings.ToLower. The program calls it on texts that are ASCII.
unfoldable pub normalize_email : Runes → Runes
unfolding to_lower_rune
normalize_email s = map to_lower_rune s

-- The last checks of AddrSpecEmailDomain, on the parts between the at signs.
unfoldable pub domain_of_parts : List Runes → Option Runes
unfolding is_addr_spec_local_part is_addr_spec_domain normalize_email runes_eq
domain_of_parts (local ∷ rest ∷ []) =
    if not (is_addr_spec_local_part local)
      || rest == []
      || ltb max_recipient_local_bytes (length local)
    then none
    else let domain_part = normalize_email rest in
      if is_addr_spec_domain domain_part then some domain_part else none
domain_of_parts _ = none

-- `parse_address` is net/mail's ParseAddress: the address it finds, or `none` for its error.
module _ (parse_address : Runes → Option Runes) where
  unfoldable pub addr_spec_email_domain : Runes → Option Runes
  unfolding trim_space is_ascii any_rune contains_whitespace split domain_of_parts runes_eq
  addr_spec_email_domain value =
      let trimmed = trim_space value in
      if trimmed == [] || ltb max_recipient_bytes (length trimmed) || not (is_ascii trimmed)
      then none
      else if any_rune (λ c. c == b'<' || c == b'>') trimmed || contains_whitespace trimmed
      then none
      else elim (parse_address trimmed) [
        | none ↦ none
        | some address ↦ if address == trimmed then domain_of_parts (split b'@' trimmed) else none
      ]

  unfoldable pub is_addr_spec_email : Runes → Bool
  unfolding addr_spec_email_domain
  is_addr_spec_email value = elim (addr_spec_email_domain value) [ none ↦ false | some d ↦ true ]

  unfoldable pub normalize_addr_spec_email : Runes → Option Runes
  unfolding trim_space is_addr_spec_email normalize_email
  normalize_addr_spec_email value =
      let trimmed = trim_space value in
      if is_addr_spec_email trimmed then some (normalize_email trimmed) else none
