-- ===== src/Lite/RateLimiter.antt =====
-- internal/lite/rate_limiter.go. Each operation runs under the limiter's mutex; `now` is what l.now()
-- returned. Go's counter is an int that starts at 0 and grows by one, so a number.
pub mod Counts
pub mod Rollback
pub mod Quota
pub mod Retry
use mux_mail.Prelude.{
  ℕ, ◌+◌, ◌-◌, ◌*◌, ◌/◌, ◌≡◌, ◌↔◌, refl, ap, String, Bool, true, false, ◌&&◌, Option, none, some,
  List, [], ◌∷◌, ◌++◌, arith, leb, ltb, eq_iff, ◌==◌, nat_eq, string_eq, runes_eq, Equality,
  if◌then◌else◌,
}
use mux_mail.Prelude.Assoc.{Assoc, lookup, insert, delete, retain}
use mux_mail.Prelude.Int.{ℤ, pos, negsuc, pos_part, neg_part, leb_ℤ}
use mux_mail.Lite.Time.{Time, second, minute, hour, day, truncate}
use mux_mail.Domain.Types.{Runes, RateLimitPolicy}

pub data RateLimitRule : Type 0 where
  email_minute email_day user_ip_hour caller_ip_hour : RateLimitRule

abbrev pub rule_beq : RateLimitRule → RateLimitRule → Bool
rule_beq email_minute email_minute = true
rule_beq email_day email_day = true
rule_beq user_ip_hour user_ip_hour = true
rule_beq caller_ip_hour caller_ip_hour = true
rule_beq _ _ = false

pub record RateLimitRequest : Type 0 where
  pub app_code : String
  pub scene_code : String
  pub normalized_to_email : Runes
  pub user_ip : Runes
  pub caller_ip : Runes
  pub policy : RateLimitPolicy

pub record RateLimitCounterKey : Type 0 where
  pub rule : RateLimitRule
  pub app_code : String
  pub scene_code : String
  pub subject : Runes
  pub window_start : Time

unfoldable pub key_beq : RateLimitCounterKey → RateLimitCounterKey → Bool
key_beq a b =
    rule_beq a.rule b.rule
    && a.app_code == b.app_code
    && a.scene_code == b.scene_code
    && a.subject == b.subject
    && a.window_start == b.window_start

rule_beq_iff : (a b : RateLimitRule) → (rule_beq a b ≡ true) ↔ (a ≡ b)
rule_beq_iff a b = ground arith

pub key_beq_iff : (a b : RateLimitCounterKey) → (key_beq a b ≡ true) ↔ (a ≡ b)
unfolding key_beq
key_beq_iff a b = ground (
  arith,
  rule_beq_iff a.rule b.rule,
  eq_iff a.app_code b.app_code,
  eq_iff a.scene_code b.scene_code,
  runes_eq.beq_iff a.subject b.subject,
)

instance abbrev pub key_eq : Equality RateLimitCounterKey
key_eq = record { beq = key_beq; beq_iff = key_beq_iff }

pub record RateLimitCounter : Type 0 where
  pub count : ℕ
  pub expires_at : Time

-- FixedWindowRateLimiter.counters
abbrev pub Counters : Type 0
Counters = Assoc RateLimitCounterKey RateLimitCounter

pub record RateLimitCheck : Type 0 where
  pub rule : RateLimitRule
  pub subject : Runes
  pub limit : ℤ
  pub window_start : Time
  pub expires_at : Time

-- `rule` is `none` for Go's empty string.
pub record RateLimitDecision : Type 0 where
  pub allowed : Bool
  pub rule : Option RateLimitRule
  pub limit : ℤ
  pub current_count : ℕ
  pub retry_after_seconds : ℕ
  pub consumed : List RateLimitCounterKey

-- The decision and the error of Allow: none, RateLimitExceededError with the decision's fields, or the
-- error of a limit that is not positive.
pub data AllowResult : Type 0 where
  granted : RateLimitDecision → AllowResult
  exceeded : RateLimitDecision → AllowResult
  limit_not_positive : RateLimitRule → AllowResult

-- deleteExpired
unfoldable pub delete_expired : Time → Counters → Counters
delete_expired now l = retain (λ c. ltb now c.expires_at) l

-- rateLimitCheck.key
abbrev pub check_key : RateLimitRequest → RateLimitCheck → RateLimitCounterKey
check_key request check = record {
  rule = check.rule;
  app_code = request.app_code;
  scene_code = request.scene_code;
  subject = check.subject;
  window_start = check.window_start;
}

-- The checks that buildRateLimitChecks lists.
unfoldable pub list_checks : RateLimitRequest → Time → List RateLimitCheck
list_checks request now =
    let minute_start = truncate now minute in
    let hour_start = truncate now hour in
    let day_start = truncate now day in
    let email_minute_check : RateLimitCheck = record {
      rule = email_minute;
      subject = request.normalized_to_email;
      limit = request.policy.same_email_per_minute;
      window_start = minute_start;
      expires_at = minute_start + minute;
    } in
    let email_day_check : RateLimitCheck = record {
      rule = email_day;
      subject = request.normalized_to_email;
      limit = request.policy.same_email_per_day;
      window_start = day_start;
      expires_at = day_start + day;
    } in
    let caller_ip_check : RateLimitCheck = record {
      rule = caller_ip_hour;
      subject = request.caller_ip;
      limit = request.policy.same_caller_ip_per_hour;
      window_start = hour_start;
      expires_at = hour_start + hour;
    } in
    let user_ip_check : RateLimitCheck = record {
      rule = user_ip_hour;
      subject = request.user_ip;
      limit = request.policy.same_user_ip_per_hour;
      window_start = hour_start;
      expires_at = hour_start + hour;
    } in
    email_minute_check
    ∷ email_day_check
    ∷ caller_ip_check
    ∷ (if request.user_ip == [] then [] else user_ip_check ∷ [])

-- The loop that refuses a limit that is not above 0, by its rule.
unfoldable pub first_not_positive : List RateLimitCheck → Option RateLimitRule
first_not_positive [] = none
first_not_positive (check ∷ rest) =
    if leb_ℤ check.limit (pos 0) then some check.rule else first_not_positive rest

-- `counter := l.counters[key]`, the zero value if the key is missing, and its Count.
abbrev pub count_in : Option RateLimitCounter → ℕ
count_in none = 0
count_in (some c) = c.count

unfoldable pub retry_after_seconds : Time → Time → ℕ
retry_after_seconds now expires_at =
    let duration = expires_at - now in if duration == 0 then 0 else (duration + second - 1) / second

-- The loop over the checks that returns at the first whose counter is at its limit.
unfoldable pub first_exceeded :
    RateLimitRequest → Time → List RateLimitCheck → Counters → Option RateLimitDecision
first_exceeded request now [] l = none
first_exceeded request now (check ∷ rest) l =
    let count = count_in (lookup (check_key request check) l) in
    let denied : RateLimitDecision = record {
      allowed = false;
      rule = some check.rule;
      limit = check.limit;
      current_count = count;
      retry_after_seconds = retry_after_seconds now check.expires_at;
      consumed = [];
    } in
    if leb_ℤ check.limit (pos count) then some denied else first_exceeded request now rest l

unfoldable pub consume_one : RateLimitCounterKey → Time → Counters → Counters
consume_one key expires_at l =
    insert key (record { count = count_in (lookup key l) + 1; expires_at = expires_at }) l

-- The loop that consumes quota for every check.
unfoldable pub consume : RateLimitRequest → List RateLimitCheck → Counters → Counters
consume request [] l = l
consume request (check ∷ rest) l =
    consume request rest (consume_one (check_key request check) check.expires_at l)

unfoldable pub check_keys : RateLimitRequest → List RateLimitCheck → List RateLimitCounterKey
check_keys request [] = []
check_keys request (check ∷ rest) = check_key request check ∷ check_keys request rest

-- Allow after its cleanup and with its checks built.
unfoldable pub allow_checks :
    RateLimitRequest → Time → List RateLimitCheck → Counters → AllowResult × Counters
allow_checks request now checks l = elim (first_exceeded request now checks l) [
  | some denied ↦ (exceeded denied, l)
  | none ↦ (
    granted (record {
      allowed = true;
      rule = none;
      limit = pos 0;
      current_count = 0;
      retry_after_seconds = 0;
      consumed = check_keys request checks;
    }),
    consume request checks l,
  )
]

-- Allow
unfoldable pub allow : RateLimitRequest → Time → Counters → AllowResult × Counters
allow request now l =
    let l' = delete_expired now l in
    let checks = list_checks request now in
    elim (first_not_positive checks) [
      | some rule ↦ (limit_not_positive rule, l')
      | none ↦ allow_checks request now checks l'
    ]

unfoldable pub rollback_one : RateLimitCounterKey → Counters → Counters
rollback_one key l = elim (lookup key l) [
  | none ↦ l
  | some c ↦ if leb c.count 1 then delete key l else insert key (record c { count = c.count - 1 }) l
]

unfoldable pub rollback_keys : List RateLimitCounterKey → Counters → Counters
rollback_keys [] l = l
rollback_keys (key ∷ keys) l = rollback_keys keys (rollback_one key l)

-- Rollback
unfoldable pub rollback : RateLimitDecision → Counters → Counters
rollback decision l = if decision.allowed then rollback_keys decision.consumed l else l
