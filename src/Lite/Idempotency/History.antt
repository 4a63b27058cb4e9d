-- ===== src/Lite/Idempotency/History.antt =====
-- Histories of the cache: the calls of its clients, in the order in which they take the lock.
use mux_mail.Prelude.{ℕ, String, Option, List, [], ◌∷◌}
use mux_mail.Lite.Time.{Time}
use mux_mail.Lite.Idempotency.{
  IdempotencyKey, IdempotencyCache, check, reserve, mark_queued, complete_queued, release,
}

pub data Call : Type 0 where
  checks : IdempotencyKey → String → Time → Call
  reserves : IdempotencyKey → String → Time → Call
  marks : IdempotencyKey → String → String → Time → Call
  completes : Option ℕ → String → Time → Call
  releases : Option ℕ → Call

-- The state after a call.
unfoldable pub step : IdempotencyCache → Call → IdempotencyCache
step c (checks key fingerprint now) = (check key fingerprint now c).1
step c (reserves key fingerprint now) = (reserve key fingerprint now c).1
step c (marks key fingerprint message_id now) = (mark_queued key fingerprint message_id now c).1
step c (completes r message_id now) = (complete_queued r message_id now c).1
step c (releases r) = release r c

unfoldable pub run : IdempotencyCache → List Call → IdempotencyCache
unfolding step
run c [] = c
run c (x ∷ xs) = run (step c x) xs
