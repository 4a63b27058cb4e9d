-- ===== src/Worker/Delay.antt =====
-- The delay of a retry.
use mux_mail.Prelude.{ℕ, ◌*◌, ◌≡◌, List, arith, ltb, if◌then◌else◌}
use mux_mail.Prelude.Int.{ℤ, pos, negsuc, pos_part}
use mux_mail.Lite.Time.{second}
use mux_mail.Worker.Attempts.{
  backoff_for, retry_delay, at_most, larger, seconds_long, max_retry_after_seconds,
}

abbrev pub max_nat : ℕ → ℕ → ℕ
max_nat a b = if ltb a b then b else a

abbrev pub min_nat : ℕ → ℕ → ℕ
min_nat a b = if ltb b a then b else a

-- Read as 0 where it is negative, the delay is the larger of the attempt's backoff and the provider's
-- hint, read in the same way, but at most 300 seconds.
pub retry_delay_min_max :
    (retry_backoff : List ℤ) (next_attempt retry_after_seconds : ℤ)
    → pos_part (retry_delay retry_backoff next_attempt retry_after_seconds)
      ≡ min_nat 300 (
          max_nat
            (pos_part (backoff_for retry_backoff next_attempt))
            (pos_part retry_after_seconds))
        * second
unfolding retry_delay
retry_delay_min_max retry_backoff next_attempt hint =
    capped (backoff_for retry_backoff next_attempt) hint
  where
    capped :
        (a b : ℤ)
        → pos_part (
            seconds_long
              (at_most max_retry_after_seconds (larger a (at_most max_retry_after_seconds b))))
          ≡ min_nat 300 (max_nat (pos_part a) (pos_part b)) * second
    capped (pos a) (pos b) = ground arith
    capped (pos a) (negsuc b) = ground arith
    capped (negsuc a) (pos b) = ground arith
    capped (negsuc a) (negsuc b) = ground arith
