-- ===== src/Worker/Attempts.antt =====
-- The pure helpers of internal/worker/worker.go: which channel an attempt uses, its log record, its
-- failure, and the delay of a retry.
use mux_mail.Prelude.{
  ℕ, zero, suc, ◌+◌, ◌-◌, ◌*◌, ◌/◌, String, Bool, true, false, ◌&&◌, ◌||◌, not, Option, none, some,
  List, [], ◌∷◌, length, get_elem?, ltb, ◌==◌, string_eq, nat_eq, if◌then◌else◌,
}
use mux_mail.Prelude.Int.{ℤ, pos, negsuc, pos_part, ltb_ℤ, leb_ℤ}
use mux_mail.Domain.Constants.{
  MessageStatus, AttemptStatus, FailureClass, failure_class_is_valid, Provider, provider_is_valid,
  Transport, transport_is_valid, ErrorCode, error_code_is_empty,
}
use mux_mail.Domain.Types.{Bytes, Message, Attempt}
use mux_mail.Domain.Email.{codes}
use mux_mail.Lite.Time.{second, millisecond}
use mux_mail.Lite.Queue.{QueueError, queue_full}
use mux_mail.Provider.{SendResult, FailedResult}
use mux_mail.Worker.Config.{ProviderChannelRuntime}
use mux_mail.Worker.ErrorText.{safe_error_message}

-- n + 1
abbrev pub suc_ℤ : ℤ → ℤ
suc_ℤ (pos n) = pos (suc n)
suc_ℤ (negsuc zero) = pos 0
suc_ℤ (negsuc (suc n)) = negsuc n

abbrev not_empty : String → Option String
not_empty code = if code == "" then none else some code

-- providerChannelForAttempt; `none` for false. With the guard passed the index is in range.
unfoldable pub provider_channel_for_attempt : Message → ℤ → ℤ → Option String
provider_channel_for_attempt message attempt_no max_attempts =
    if leb_ℤ attempt_no (pos 0)
      || ltb_ℤ max_attempts attempt_no
      || ltb (length message.provider_channels) (pos_part attempt_no)
    then none
    else elim (get_elem? message.provider_channels (pos_part attempt_no - 1)) [
      | none ↦ none
      | some code ↦ not_empty code
    ]

unfoldable pub has_provider_channel_for_attempt : Message → ℤ → ℤ → Bool
unfolding provider_channel_for_attempt
has_provider_channel_for_attempt message attempt_no max_attempts =
    elim (provider_channel_for_attempt message attempt_no max_attempts) [
      | none ↦ false
      | some c ↦ true
    ]

unfoldable pub has_runtime_attempt_metadata : String → ProviderChannelRuntime → Bool → Bool
has_runtime_attempt_metadata channel_code runtime resolved =
    resolved
    && not (channel_code == "")
    && not (runtime.account.code == "")
    && runtime.channel.code == channel_code
    && runtime.channel.account == runtime.account.code
    && provider_is_valid runtime.account.provider
    && transport_is_valid runtime.channel.transport

-- Attempt{} with the fields that attemptBase sets.
abbrev pub base_attempt : String → String → ℤ → Provider → String → String → Transport → Attempt
base_attempt message_id app_code attempt_no provider account_code channel_code transport = record {
  message_id = message_id;
  app_code = app_code;
  attempt_no = attempt_no;
  provider = provider;
  provider_account_code = account_code;
  provider_channel_code = channel_code;
  transport = transport;
  status = AttemptStatus.other "";
  failure_class = FailureClass.none;
  error_code = ErrorCode.other "";
  error_message = [];
  provider_message_id = "";
  duration_ms = 0;
}

unfoldable pub attempt_base : Message → ℤ → String → ProviderChannelRuntime → Bool → Attempt × Bool
unfolding has_runtime_attempt_metadata
attempt_base message attempt_no channel_code runtime resolved =
    if channel_code == ""
    then (base_attempt "" "" (pos 0) (Provider.other "") "" "" (Transport.other ""), false)
    else if has_runtime_attempt_metadata channel_code runtime resolved
    then (
      base_attempt message.message_id message.app_code attempt_no runtime.account.provider
          runtime.account.code channel_code runtime.channel.transport,
      true,
    )
    else (
      base_attempt message.message_id message.app_code attempt_no (Provider.other "") ""
          channel_code (Transport.other ""),
      true,
    )

unfoldable pub has_complete_attempt_metadata : Attempt → Bool
has_complete_attempt_metadata attempt =
    provider_is_valid attempt.provider
    && not (attempt.provider_account_code == "")
    && transport_is_valid attempt.transport

unfoldable pub attempt_with_status :
    Attempt → AttemptStatus → FailureClass → ErrorCode → Bytes → String → ℕ → Attempt
attempt_with_status attempt status failure_class error_code error_message provider_message_id
      duration_ms =
    record attempt {
      status = status;
      failure_class = failure_class;
      error_code = error_code;
      error_message = safe_error_message error_message;
      provider_message_id = provider_message_id;
      duration_ms = duration_ms;
    }

unfoldable pub message_with_status : Message → MessageStatus → ErrorCode → Bytes → Message
message_with_status message status error_code error_message = record message {
  status = status;
  error_code = error_code;
  error_message = safe_error_message error_message;
}

abbrev request_failed : Bytes
request_failed = codes "provider request failed"

is_empty : Bytes → Bool
is_empty [] = true
is_empty (b ∷ bs) = false

-- The failure class is no valid one, or is the empty one.
unfoldable pub is_no_failure : FailureClass → Bool
is_no_failure FailureClass.none = true
is_no_failure c = not (failure_class_is_valid c)

abbrev default_failure : FailedResult
default_failure = record {
  failure_class = FailureClass.temporary;
  error_code = ErrorCode.provider_unavailable;
  error_message = request_failed;
}

unfoldable pub normalized_failure : SendResult → FailedResult
unfolding is_no_failure is_empty
normalized_failure result = elim result.failed [
  | none ↦ default_failure
  | some failed ↦ if is_no_failure failed.failure_class then default_failure else record {
    failure_class = failed.failure_class;
    error_code =
        if error_code_is_empty failed.error_code
        then ErrorCode.provider_unavailable
        else failed.error_code;
    error_message = if is_empty failed.error_message then request_failed else failed.error_message;
  }
]

unfoldable pub retry_schedule_failure_code : QueueError → ErrorCode
retry_schedule_failure_code queue_full = ErrorCode.queue_full
retry_schedule_failure_code _ = ErrorCode.internal

-- roundedDurationMS. A duration below 0 is 0 here.
unfoldable pub rounded_duration_ms : ℕ → ℕ
rounded_duration_ms duration =
    if duration == 0 then 0 else (duration + millisecond / 2) / millisecond

abbrev pub max_retry_after_seconds : ℤ
max_retry_after_seconds = pos 300

-- retryBackoff[nextAttempt-1], or 0 out of range
unfoldable pub backoff_for : List ℤ → ℤ → ℤ
backoff_for retry_backoff next_attempt =
    if leb_ℤ next_attempt (pos 0)
    then pos 0
    else elim (get_elem? retry_backoff (pos_part next_attempt - 1)) [ none ↦ pos 0 | some s ↦ s ]

abbrev pub larger : ℤ → ℤ → ℤ
larger a b = if ltb_ℤ a b then b else a

abbrev pub at_most : ℤ → ℤ → ℤ
at_most limit a = if ltb_ℤ limit a then limit else a

-- time.Duration(seconds) * time.Second
abbrev pub seconds_long : ℤ → ℤ
seconds_long (pos n) = pos (n * second)
seconds_long (negsuc n) = negsuc (suc n * second - 1)

unfoldable pub retry_delay : List ℤ → ℤ → ℤ → ℤ
unfolding backoff_for
retry_delay retry_backoff next_attempt retry_after_seconds =
    let retry_after = at_most max_retry_after_seconds retry_after_seconds in
    let delay_seconds = larger (backoff_for retry_backoff next_attempt) retry_after in
    seconds_long (at_most max_retry_after_seconds delay_seconds)
