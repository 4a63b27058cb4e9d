-- ===== src/Tests/Limiter.antt =====
-- The limiter: a limit of one message per minute.
use mux_mail.Prelude.{
  true, none, runes_eq, ◌+◌, ◌*◌, ◌-◌, ◌≤◌, ◌<◌, ◌≡◌, refl, List, [], ◌∷◌, arith,
}
use mux_mail.Prelude.Assoc.{lookup, insert, retain}
use mux_mail.Prelude.Int.{ℤ, pos}
use mux_mail.Lite.Time.{Time, second, minute}
use mux_mail.Lite.RateLimiter.{
  email_minute, email_day, caller_ip_hour, user_ip_hour, RateLimitRequest, RateLimitCounterKey,
  RateLimitDecision, granted, key_eq, allow, rollback, delete_expired, count_in,
  retry_after_seconds, list_checks, allow_checks, first_not_positive, first_exceeded, consume,
  consume_one, key_beq, check_keys,
}
use mux_mail.Lite.RateLimiter.Counts.{IsCoherent}
use mux_mail.Lite.RateLimiter.Rollback.{rollback-allow}
use mux_mail.Lite.RateLimiter.Quota.{serve, uses, grants, quota}
use mux_mail.Lite.RateLimiter.Retry.{retry_after_least}
use mux_mail.Domain.Email.{codes}
use mux_mail.Tests.Data.{recipient, policy}

abbrev request : RateLimitRequest
request = record {
  app_code = "shop";
  scene_code = "login";
  normalized_to_email = recipient;
  user_ip = [];
  caller_ip = codes "192.0.2.1";
  policy = policy;
}

abbrev minute_key : RateLimitCounterKey
minute_key = record {
  rule = email_minute;
  app_code = "shop";
  scene_code = "login";
  subject = recipient;
  window_start = 0;
}

abbrev limit : RateLimitCounterKey → ℤ
limit k = elim k.rule [
  | email_minute ↦ pos 1
  | email_day ↦ pos 5
  | caller_ip_hour ↦ pos 9
  | user_ip_hour ↦ pos 9
]

abbrev two_requests : List (Time × RateLimitRequest)
two_requests = (5, request) ∷ (9, request) ∷ []

retry_after_least_example :
    (0 < retry_after_seconds 10 minute)
    × (minute ≤ 10 + retry_after_seconds 10 minute * second)
    × (10 + (retry_after_seconds 10 minute - 1) * second < minute)
retry_after_least_example = retry_after_least 10 minute (omega arith)

-- The second request in the minute is refused, and counts nothing.
grants_one : grants minute_key [] two_requests ≡ 1
unfolding grants allow allow_checks list_checks delete_expired retain lookup insert
    first_not_positive first_exceeded consume consume_one uses key_beq runes_eq retry_after_seconds
    check_keys
grants_one = refl

quota_example :
    (count_in (lookup minute_key (serve [] two_requests)) ≡ grants minute_key [] two_requests)
    × (grants minute_key [] two_requests ≤ 1)
unfolding list_checks runes_eq
quota_example =
    quota limit minute_key two_requests (omega arith)
      ((refl, (refl, (refl, tt))), ((refl, (refl, (refl, tt))), tt))

abbrev decision : RateLimitDecision
decision = record {
  allowed = true;
  rule = none;
  limit = pos 0;
  current_count = 0;
  retry_after_seconds = 0;
  consumed = check_keys request (list_checks request 5);
}

first_granted : allow request 5 [] ≡ (granted decision, (allow request 5 []).1)
unfolding allow allow_checks list_checks delete_expired retain lookup insert first_not_positive
    first_exceeded key_beq runes_eq
first_granted = refl

nothing_counted : IsCoherent []
unfolding lookup
nothing_counted = record { distinct = tt; coherent = λ k. tt }

rollback-allow_example :
    lookup minute_key (rollback decision (allow request 5 []).1)
    ≡ lookup minute_key (delete_expired 5 [])
rollback-allow_example =
    rollback-allow request 5 [] (allow request 5 []).1 decision nothing_counted first_granted
      minute_key
