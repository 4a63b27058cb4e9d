-- ===== src/Tests/Worker.antt =====
-- The worker: a message with two channels, whose first fails for a time with a hint to wait.
use mathlib.Core.List.{Perm}
use mathlib.Core.List.Perm
use mux_mail.Lite.Queue.Delivery.{held}
use mux_mail.Prelude.{
  arith, ◌*◌, ◌≤◌, ◌≡◌, refl, String, true, false, Option, none, some, [], ◌∷◌, All, if◌then◌else◌,
  ◌==◌, string_eq,
}
use mux_mail.Prelude.Int.{pos, pos_part}
use mux_mail.Domain.Constants.{
  MessageStatus, ErrorCode, Provider, Transport, provider_is_valid, transport_is_valid,
  failure_class_is_valid,
}
use mux_mail.Lite.Time.{second}
use mux_mail.Lite.Queue.Invariant.{IsValid}
use mux_mail.Worker.Round.{error_of, run_round, run_rounds}
use mux_mail.Worker.Round.Laws.{retry_never_refused, run_rounds-IsValid}
use mux_mail.Lite.Queue.{
  MemoryQueue, QueueTask, queued_item, enqueue_delayed, reserve, commit_delayed, commit_unused,
  enqueue_item, heap_push,
}
use mux_mail.Provider.{
  SendRequest, SendResult, accepted_result, temporary_failure, with_retry_after,
}
use mux_mail.Worker.Config.{ProviderChannelRuntime, Worker}
use mux_mail.Worker.Attempts.{
  backoff_for, retry_delay, provider_channel_for_attempt, has_provider_channel_for_attempt,
  has_runtime_attempt_metadata, attempt_base, has_complete_attempt_metadata, message_with_status,
  normalized_failure, is_no_failure,
}
use mux_mail.Worker.Delay.{min_nat, max_nat, retry_delay_min_max}
use mux_mail.Worker.Events.{
  append_message, append_attempt, record_message_stat, record_attempt_stats, when,
}
use mux_mail.Worker.Process.{
  Readings, process_task, with_attempt_no, attempt_through, in_hand, sending_events,
  send_through_provider, settle, accepted_events, failed_attempt_events, after_failure,
  schedule_retry, is_message_permanent,
}
use mux_mail.Worker.Process.Trace.{statuses}
use mux_mail.Worker.Process.Outcome.{Outcome, process_task-Outcome}
use mux_mail.Worker.Process.Retries.{first, again, retry_bound, is_retrying}
use mux_mail.Worker.Process.ErrorLength.{IsShort, process_task-IsShort}
use mux_mail.Tests.Data.{task_of}

abbrev channel_with : String → (SendRequest → Option SendResult) → ProviderChannelRuntime
channel_with code send = record {
  account = record {
    code = "main";
    provider = Provider.mock;
    enabled = true;
    credential_refs = [];
  };
  channel = record {
    code = code;
    account = "main";
    transport = Transport.api;
    enabled = true;
    sender_domain = "example.com";
    from_name = "";
    from = "a@example.com";
    smtp = none;
  };
  provider = some send;
}

abbrev busy : SendRequest → Option SendResult
busy request = some (with_retry_after (temporary_failure ErrorCode.internal []) (pos 7))

abbrev accepting : SendRequest → Option SendResult
accepting request = some (accepted_result "p1")

abbrev pub two_channels : Worker
two_channels = record {
  message_log = record { append_message = λ m. none; append_attempt = λ a. none };
  resolver = λ code.
      if code == "a" then (channel_with "a" busy, true) else (channel_with "b" accepting, true);
  max_attempts = pos 3;
  retry_backoff = pos 0 ∷ pos 5 ∷ [];
  provider_timeout = pos 10;
  concurrency = pos 1;
}

abbrev pub idle : MemoryQueue
idle = record {
  capacity = 2;
  pending = 0;
  next_seq = 0;
  ready = [];
  delayed = [];
  closed = false;
  notify = 0;
  reservations = [];
}

abbrev pub readings : Readings
readings = record { started_at = 10; finished_at = 2000000; enqueued_at = 2000001 }

first_fails : statuses (process_task two_channels readings (task_of 1) idle).events ≡ is_retrying
unfolding process_task with_attempt_no attempt_through in_hand sending_events send_through_provider
    settle failed_attempt_events after_failure schedule_retry is_message_permanent
    normalized_failure is_no_failure append_message append_attempt record_attempt_stats when
    provider_channel_for_attempt has_provider_channel_for_attempt has_runtime_attempt_metadata
    attempt_base has_complete_attempt_metadata message_with_status enqueue_delayed reserve
    commit_delayed commit_unused enqueue_item provider_is_valid transport_is_valid
    failure_class_is_valid
first_fails = refl

second_succeeds :
    statuses (process_task two_channels readings (task_of 2) idle).events
    ≡ MessageStatus.sending ∷ MessageStatus.sent ∷ []
unfolding process_task with_attempt_no attempt_through in_hand sending_events send_through_provider
    settle accepted_events append_message append_attempt record_attempt_stats record_message_stat
    when provider_channel_for_attempt has_runtime_attempt_metadata attempt_base
    has_complete_attempt_metadata message_with_status provider_is_valid transport_is_valid
second_succeeds = refl

process_task-Outcome_example :
    Outcome two_channels 2000001
      (with_attempt_no (task_of 1))
      idle
      (process_task two_channels readings (task_of 1) idle)
process_task-Outcome_example = process_task-Outcome two_channels readings (task_of 1) idle

-- What the first attempt leaves: the second, after the provider's hint of 7 s.
abbrev second_task : QueueTask
second_task = record (task_of 2) { available_at = 7002000001 }

second_queued :
    Perm
      (held (process_task two_channels readings (task_of 1) idle).queue)
      (second_task ∷ held idle)
unfolding process_task with_attempt_no attempt_through in_hand sending_events send_through_provider
    settle failed_attempt_events after_failure schedule_retry is_message_permanent
    normalized_failure is_no_failure append_message append_attempt record_attempt_stats when
    provider_channel_for_attempt has_provider_channel_for_attempt has_runtime_attempt_metadata
    attempt_base has_complete_attempt_metadata message_with_status enqueue_delayed reserve
    commit_delayed commit_unused enqueue_item provider_is_valid transport_is_valid
    failure_class_is_valid retry_delay backoff_for heap_push
second_queued = Perm.refl _

retry_bound_example : (2 ≤ 3) × (2 ≤ 2)
unfolding with_attempt_no
retry_bound_example =
    retry_bound two_channels (task_of 1) 0
      (again (task_of 1) second_task readings idle first_fails second_queued (first second_task))

process_task-IsShort_example :
    All IsShort (process_task two_channels readings (task_of 1) idle).events
process_task-IsShort_example = process_task-IsShort two_channels readings (task_of 1) idle

retry_delay_min_max_example :
    pos_part (retry_delay (pos 0 ∷ pos 5 ∷ []) (pos 2) (pos 7)) ≡ min_nat 300 (max_nat 5 7) * second
unfolding backoff_for
retry_delay_min_max_example = retry_delay_min_max (pos 0 ∷ pos 5 ∷ []) (pos 2) (pos 7)

-- The queue is full: its one slot holds the task, and its other slot is reserved.
abbrev full : MemoryQueue
full = record idle {
  pending = 2;
  next_seq = 1;
  ready = queued_item (task_of 1) 0 1 ∷ [];
  reservations = false ∷ [];
}

full-IsValid : IsValid full
full-IsValid = ground arith

retry_never_refused_example : error_of (run_round two_channels 5 readings full).0 ≡ none
retry_never_refused_example = retry_never_refused two_channels 5 readings full full-IsValid

run_rounds-IsValid_example :
    IsValid (run_rounds two_channels ((5, readings) ∷ (6, readings) ∷ []) full)
run_rounds-IsValid_example =
    run_rounds-IsValid two_channels ((5, readings) ∷ (6, readings) ∷ []) full full-IsValid
