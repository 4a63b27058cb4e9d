-- ===== src/Lite/Json/Kept.antt =====
-- What json.Marshal leaves as it is.
use mux_mail.Prelude.{ℕ, ◌≡◌, refl, ap, ◌∷◌}
use mux_mail.Prelude.Runes.{IsUtf8, done, starts, goes_on}
use mux_mail.Domain.Types.{Bytes}
use mux_mail.Lite.Json.{coerced_bytes, coerce_to_utf8}

coerced_bytes-kept : (left : ℕ) (bs : Bytes) → IsUtf8 left bs → coerced_bytes left bs ≡ bs
unfolding coerced_bytes
coerced_bytes-kept _ _ done = refl
coerced_bytes-kept _ _ (starts b bs left e u) =
    rw (e, coerced_bytes) (ap (◌∷◌ b) (coerced_bytes-kept left bs u))
coerced_bytes-kept _ _ (goes_on b bs left c u) = ap (◌∷◌ b) (coerced_bytes-kept left bs u)

-- A string of whole runes is read back as it was.
pub coerce_to_utf8-kept : (bs : Bytes) → IsUtf8 0 bs → coerce_to_utf8 bs ≡ bs
unfolding coerce_to_utf8
coerce_to_utf8-kept bs u = coerced_bytes-kept 0 bs u
