-- ===== src/Worker/Process.antt =====
-- ProcessTask of internal/worker/worker.go, with the queue of internal/lite as its queue. What the
-- worker passes to the message log, the stats sink and the error handler is a list of events.
pub mod Trace
pub mod Outcome
pub mod Retries
pub mod Safe
pub mod ErrorLength
pub mod Readable
pub mod Logged
pub mod Decoded
use mux_mail.Prelude.{
  ℕ, ◌-◌, String, Bool, true, false, ◌&&◌, ◌||◌, not, Option, none, some, List, [], ◌∷◌, ◌++◌,
  if◌then◌else◌,
}
use mux_mail.Prelude.Int.{ℤ, pos, negsuc, leb_ℤ}
use mux_mail.Domain.Constants.{MessageStatus, AttemptStatus, FailureClass, Transport, ErrorCode}
use mux_mail.Domain.Types.{Bytes, Message, Attempt, ProviderChannel}
use mux_mail.Domain.Email.{codes}
use mux_mail.Lite.Time.{Time}
use mux_mail.Lite.Queue.{MemoryQueue, QueueTask, QueueError, Result, ok, err, enqueue_delayed}
use mux_mail.Provider.{
  SendRequest, SendResult, AcceptedResult, FailedResult, channel_failure, temporary_failure,
  is_accepted,
}
use mux_mail.Worker.Config.{ProviderChannelRuntime, MessageLog, Worker}
use mux_mail.Worker.Events.{
  Event, append_message, append_attempt, record_message_stat, record_attempt_stats, when,
}
use mux_mail.Worker.Attempts.{
  suc_ℤ, provider_channel_for_attempt, has_provider_channel_for_attempt,
  has_runtime_attempt_metadata, attempt_base, has_complete_attempt_metadata, attempt_with_status,
  message_with_status, normalized_failure, retry_schedule_failure_code, rounded_duration_ms,
  retry_delay,
}

-- The error of ProcessTask: the retry, by its attempt number and message, could not be queued.
pub record RetryError : Type 0 where
  pub attempt_no : ℤ
  pub message_id : String
  pub cause : QueueError

pub record Processed : Type 0 where
  pub events : List Event
  pub error : Option RetryError
  pub queue : MemoryQueue

-- The readings of the clock: by the worker before and after the send, and by the queue.
pub record Readings : Type 0 where
  pub started_at : Time
  pub finished_at : Time
  pub enqueued_at : Time

no_code : ErrorCode
no_code = ErrorCode.other ""

unfoldable pub send_through_provider :
    QueueTask → String → ProviderChannelRuntime → Bool → SendResult
unfolding has_runtime_attempt_metadata
send_through_provider task channel_code runtime resolved =
    let unavailable =
      channel_failure ErrorCode.provider_unavailable (codes "provider channel unavailable") in
    elim runtime.provider [
      | none ↦ unavailable
      | some send ↦
          if not resolved
            || not (has_runtime_attempt_metadata channel_code runtime resolved)
            || not runtime.channel.enabled
            || not runtime.account.enabled
          then unavailable
          else elim (send (record {
            message = task.message;
            account = runtime.account;
            channel = runtime.channel;
            attempt = task.attempt_no;
          })) [
            | none ↦
                temporary_failure ErrorCode.provider_unavailable (codes "provider request failed")
            | some result ↦ result
          ]
    ]

-- The message's last failure: its status in the log, and its count in the stats.
unfoldable pub append_final_failure : Worker → Message → ErrorCode → Bytes → List Event
unfolding append_message record_message_stat
append_final_failure w message code error_message =
    append_message w (message_with_status message MessageStatus.failed code error_message)
    ++ record_message_stat message "messages_failed"

-- One attempt in hand: what ProcessTask knows before it sends.
pub record InHand : Type 0 where
  pub task : QueueTask
  pub channel_code : String
  pub channel : ProviderChannel
  pub attempt : Attempt
  pub log_attempt : Bool
  pub log_provider_stats : Bool

accepted_id : SendResult → String
accepted_id result = elim result.accepted [ none ↦ "" | some a ↦ a.provider_message_id ]

-- The branch of ProcessTask for an accepted result.
unfoldable pub accepted_events : Worker → InHand → SendResult → ℕ → List Event
unfolding append_attempt append_message record_attempt_stats record_message_stat when accepted_id
    no_code
accepted_events w h result duration_ms =
    let message = h.task.message in
    when h.log_provider_stats (
      append_attempt w (
        attempt_with_status h.attempt AttemptStatus.sent FailureClass.none no_code []
          (accepted_id result) duration_ms))
    ++ append_message w (message_with_status message MessageStatus.sent no_code [])
    ++ when h.log_provider_stats
        (record_attempt_stats message h.channel_code h.channel "attempts_sent" duration_ms)
    ++ record_message_stat message "messages_sent"

-- The log of a failed attempt.
unfoldable pub failed_attempt_events : Worker → InHand → FailedResult → ℕ → List Event
unfolding append_attempt record_attempt_stats when
failed_attempt_events w h failed duration_ms = when h.log_attempt (
    append_attempt w (
      attempt_with_status h.attempt AttemptStatus.failed failed.failure_class failed.error_code
        failed.error_message "" duration_ms)
    ++ when h.log_provider_stats (
        record_attempt_stats h.task.message h.channel_code h.channel "attempts_failed" duration_ms))

unfoldable pub is_message_permanent : FailureClass → Bool
is_message_permanent FailureClass.message_permanent = true
is_message_permanent _ = false

-- EnqueueDelayed for the retry, and what follows.
unfoldable pub schedule_retry :
    Worker → Time → QueueTask → FailedResult → ℤ → MemoryQueue → Processed
unfolding append_message append_final_failure retry_delay enqueue_delayed
schedule_retry w now task failed retry_after_seconds q =
    let next_attempt = suc_ℤ task.attempt_no in
    let retrying = append_message w (
      message_with_status task.message MessageStatus.retrying failed.error_code
        failed.error_message) in
    let delay = retry_delay w.retry_backoff next_attempt retry_after_seconds in
    let (queued, q') = enqueue_delayed (record task { attempt_no = next_attempt }) delay now q in
    elim queued [
      | ok u ↦ record { events = retrying; error = none; queue = q' }
      | err e ↦ record {
        events =
            retrying
            ++ append_final_failure w task.message (retry_schedule_failure_code e)
                (codes "retry enqueue failed");
        error =
            some (record {
              attempt_no = next_attempt;
              message_id = task.message.message_id;
              cause = e;
            });
        queue = q';
      }
    ]

-- ProcessTask after the log of a failed attempt.
unfoldable pub after_failure :
    Worker → Time → QueueTask → FailedResult → ℤ → MemoryQueue → Processed
unfolding is_message_permanent append_final_failure has_provider_channel_for_attempt schedule_retry
after_failure w now task failed retry_after_seconds q =
    if is_message_permanent failed.failure_class
    then record {
      events = append_final_failure w task.message failed.error_code failed.error_message;
      error = none;
      queue = q;
    }
    else if not
        (has_provider_channel_for_attempt task.message (suc_ℤ task.attempt_no) w.max_attempts)
    then record {
      events =
          append_final_failure w task.message ErrorCode.provider_unavailable
            (codes "provider unavailable");
      error = none;
      queue = q;
    }
    else schedule_retry w now task failed retry_after_seconds q

abbrev precede : List Event → Processed → Processed
precede es p = record p { events = es ++ p.events }

-- ProcessTask once the result is there.
unfoldable pub settle : Worker → Readings → InHand → SendResult → MemoryQueue → Processed
unfolding accepted_events failed_attempt_events after_failure normalized_failure rounded_duration_ms
settle w r h result q =
    let duration_ms = rounded_duration_ms (r.finished_at - r.started_at) in
    let failed = normalized_failure result in
    if is_accepted result
    then record { events = accepted_events w h result duration_ms; error = none; queue = q }
    else precede (failed_attempt_events w h failed duration_ms)
        (after_failure w r.enqueued_at h.task failed result.retry_after_seconds q)

-- What ProcessTask knows of an attempt before the send.
unfoldable pub in_hand : Worker → QueueTask → String → InHand
unfolding attempt_base has_complete_attempt_metadata
in_hand w task channel_code =
    let (runtime, resolved) = w.resolver channel_code in
    let (attempt, log_attempt) =
      attempt_base task.message task.attempt_no channel_code runtime resolved in
    record {
      task = task;
      channel_code = channel_code;
      channel = runtime.channel;
      attempt = attempt;
      log_attempt = log_attempt;
      log_provider_stats = log_attempt && has_complete_attempt_metadata attempt;
    }

-- The log of the attempt before the send.
unfoldable pub sending_events : Worker → InHand → List Event
unfolding append_message append_attempt when no_code
sending_events w h =
    append_message w (message_with_status h.task.message MessageStatus.sending no_code [])
    ++ when h.log_provider_stats (
        append_attempt w
          (attempt_with_status h.attempt AttemptStatus.sending FailureClass.none no_code [] "" 0))

-- What the send of a task over a channel gives.
abbrev pub send_result : Worker → QueueTask → String → SendResult
send_result w task channel_code =
    let (runtime, resolved) = w.resolver channel_code in
    send_through_provider task channel_code runtime resolved

-- ProcessTask for a task with a channel.
unfoldable pub attempt_through : Worker → Readings → QueueTask → String → MemoryQueue → Processed
unfolding in_hand sending_events send_through_provider settle
attempt_through w r task channel_code q =
    let h = in_hand w task channel_code in
    precede (sending_events w h) (settle w r h (send_result w task channel_code) q)

-- An attempt number that is not positive is read as 1.
unfoldable pub with_attempt_no : QueueTask → QueueTask
with_attempt_no task =
    if leb_ℤ task.attempt_no (pos 0) then record task { attempt_no = pos 1 } else task

-- ProcessTask
unfoldable pub process_task : Worker → Readings → QueueTask → MemoryQueue → Processed
unfolding with_attempt_no provider_channel_for_attempt append_final_failure attempt_through
process_task w r queued q =
    let task = with_attempt_no queued in
    elim (provider_channel_for_attempt task.message task.attempt_no w.max_attempts) [
      | none ↦ record {
        events =
            append_final_failure w task.message ErrorCode.provider_unavailable
              (codes "provider unavailable");
        error = none;
        queue = q;
      }
      | some channel_code ↦ attempt_through w r task channel_code q
    ]
