-- ===== src/Domain/Hash.antt =====
-- The hashes of internal/domain/helpers.go. `sha256_hex` is crypto/sha256 with the lowercase hex of its
-- sum; a text is hashed by its code points, which determine its bytes.
use mux_mail.Prelude.{String, ◌∷◌, ◌++◌, ◌==◌, string_eq, if◌then◌else◌}
use mux_mail.Domain.Types.{Runes}
use mux_mail.Domain.Email.{codes}

module _ (sha256_hex : Runes → String) where
  unfoldable pub to_hash : String → Runes → String
  to_hash app normalized_to_email = sha256_hex (codes app ++ b':' ∷ normalized_to_email)

  unfoldable pub user_id_hash : String → String → String
  user_id_hash app user_id =
      if user_id == "" then "" else sha256_hex (codes app ++ b':' ∷ codes user_id)

  unfoldable pub idempotency_hash_of : String → String → String → String
  idempotency_hash_of app scene idempotency_key =
      sha256_hex (codes app ++ (b':' ∷ codes scene ++ (b':' ∷ codes idempotency_key)))
