-- ===== src/Worker/Process/Safe.antt =====
-- The error texts that ProcessTask writes to the message log are those of safeErrorMessage.
use mux_mail.Prelude.{
  ℕ, ◌≡◌, refl, String, Bool, true, false, Option, none, some, List, ◌++◌, All, All-append,
  Bool-cases, Option-cases, inl, inr,
}
use mux_mail.Prelude.Int.{ℤ}
use mux_mail.Domain.Constants.{MessageStatus, AttemptStatus, FailureClass, ErrorCode}
use mux_mail.Domain.Types.{Bytes, Message, Attempt, ProviderChannel}
use mux_mail.Lite.Time.{Time}
use mux_mail.Lite.Queue.{MemoryQueue, QueueTask, Result, ok, err, enqueue_delayed}
use mux_mail.Provider.{SendResult, FailedResult, is_accepted}
use mux_mail.Worker.Config.{Worker}
use mux_mail.Worker.ErrorText.{safe_error_message}
use mux_mail.Worker.Attempts.{
  suc_ℤ, provider_channel_for_attempt, has_provider_channel_for_attempt, attempt_with_status,
  message_with_status, normalized_failure, retry_delay,
}
use mux_mail.Worker.Events.{
  Event, appended_message, appended_attempt, recorded_stat, handled_error, append_message,
  append_attempt, record_message_stat, record_attempt_stats, report, when,
}
use mux_mail.Worker.Process.{
  Readings, InHand, append_final_failure, accepted_events, failed_attempt_events, sending_events,
  is_message_permanent, schedule_retry, after_failure, settle, in_hand, attempt_through,
  send_result, with_attempt_no, process_task,
}

-- The error text that the event logs is one of safeErrorMessage.
abbrev pub IsSafe : Event → Type 0
IsSafe (appended_message m) = (t : Bytes) × (m.error_message ≡ safe_error_message t)
IsSafe (appended_attempt a) = (t : Bytes) × (a.error_message ≡ safe_error_message t)
IsSafe (recorded_stat s) = Unit
IsSafe (handled_error e) = Unit

record AreSafe (es : List Event) : Type 0 where
  each : All IsSafe es

none_logged : {es : List Event} → All IsSafe es → AreSafe es
none_logged h = record { each = h }

join : {xs ys : List Event} → AreSafe xs → AreSafe ys → AreSafe (xs ++ ys)
join {xs = xs} {ys = ys} a b = record { each = All-append IsSafe xs ys a.each b.each }

report-IsSafe : (o : Option String) → All IsSafe (report o)
report-IsSafe none = tt
report-IsSafe (some e) = (tt, tt)

when-IsSafe : (b : Bool) (es : List Event) → AreSafe es → AreSafe (when b es)
unfolding when
when-IsSafe true es h = h
when-IsSafe false es h = none_logged tt

module _ (w : Worker) where
  message-IsSafe :
      (m : Message) (s : MessageStatus) (c : ErrorCode) (t : Bytes)
      → AreSafe (append_message w (message_with_status m s c t))
  unfolding append_message message_with_status
  message-IsSafe m s c t = none_logged ((t, refl), report-IsSafe _)

  attempt-IsSafe :
      (a : Attempt) (s : AttemptStatus) (f : FailureClass) (c : ErrorCode) (t : Bytes) (i : String)
      (n : ℕ)
      → AreSafe (append_attempt w (attempt_with_status a s f c t i n))
  unfolding append_attempt attempt_with_status
  attempt-IsSafe a s f c t i n = none_logged ((t, refl), report-IsSafe _)

  stat-IsSafe : (m : Message) (metric : String) → AreSafe (record_message_stat m metric)
  unfolding record_message_stat
  stat-IsSafe m metric = none_logged (tt, tt)

  final-IsSafe : (m : Message) (c : ErrorCode) (t : Bytes) → AreSafe (append_final_failure w m c t)
  unfolding append_final_failure
  final-IsSafe m c t = join (message-IsSafe m MessageStatus.failed c t) (stat-IsSafe m _)

  stats-IsSafe :
      (m : Message) (c : String) (channel : ProviderChannel) (metric : String) (n : ℕ)
      → AreSafe (record_attempt_stats m c channel metric n)
  unfolding record_attempt_stats
  stats-IsSafe m c channel metric n = none_logged (tt, (tt, tt))

  accepted-IsSafe : (h : InHand) (r : SendResult) (n : ℕ) → AreSafe (accepted_events w h r n)
  unfolding accepted_events
  accepted-IsSafe h r n =
      search (join, when-IsSafe, message-IsSafe, attempt-IsSafe, stat-IsSafe, stats-IsSafe)

  failed-IsSafe : (h : InHand) (f : FailedResult) (n : ℕ) → AreSafe (failed_attempt_events w h f n)
  unfolding failed_attempt_events
  failed-IsSafe h f n = search (join, when-IsSafe, attempt-IsSafe, stats-IsSafe)

  sending-IsSafe : (h : InHand) → AreSafe (sending_events w h)
  unfolding sending_events
  sending-IsSafe h = search (join, when-IsSafe, message-IsSafe, attempt-IsSafe)

  retry-IsSafe :
      (now : Time) (task : QueueTask) (f : FailedResult) (hint : ℤ) (q : MemoryQueue)
      → AreSafe (schedule_retry w now task f hint q).events
  unfolding schedule_retry
  retry-IsSafe now task f hint q = by_result _ refl
    where
      by_result :
          (x : Result (Unit {0}))
          → (enqueue_delayed
              (record task { attempt_no = suc_ℤ task.attempt_no })
              (retry_delay w.retry_backoff (suc_ℤ task.attempt_no) hint)
              now
              q).0
            ≡ x
          → AreSafe (schedule_retry w now task f hint q).events
      by_result (ok u) e = rw (e, schedule_retry) (message-IsSafe _ _ _ _)
      by_result (err c) e =
          rw (e, schedule_retry) (join (message-IsSafe _ _ _ _) (final-IsSafe _ _ _))

  after-IsSafe :
      (now : Time) (task : QueueTask) (f : FailedResult) (hint : ℤ) (q : MemoryQueue)
      → AreSafe (after_failure w now task f hint q).events
  unfolding after_failure
  after-IsSafe now task f hint q = elim (Bool-cases (is_message_permanent f.failure_class)) [
    | inl e ↦ rw e (final-IsSafe _ _ _)
    | inr e ↦
        rw e
          (elim (Bool-cases (
            has_provider_channel_for_attempt task.message (suc_ℤ task.attempt_no) w.max_attempts)) [
              | inr n ↦ rw n (final-IsSafe _ _ _)
              | inl n ↦ rw n (retry-IsSafe now task f hint q)
            ])
  ]

  settle-IsSafe :
      (r : Readings) (h : InHand) (result : SendResult) (q : MemoryQueue)
      → AreSafe (settle w r h result q).events
  unfolding settle
  settle-IsSafe r h result q = elim (Bool-cases (is_accepted result)) [
    | inl e ↦ rw e (accepted-IsSafe h result _)
    | inr e ↦ rw e (
        join (failed-IsSafe h _ _) (
          after-IsSafe r.enqueued_at h.task (normalized_failure result) result.retry_after_seconds
            q))
  ]

  processed-IsSafe :
      (r : Readings) (queued : QueueTask) (q : MemoryQueue)
      → AreSafe (process_task w r queued q).events
  unfolding process_task attempt_through
  processed-IsSafe r queued q =
      let task = with_attempt_no queued in
      elim (Option-cases
        (provider_channel_for_attempt task.message task.attempt_no w.max_attempts)) [
          | inl e ↦ rw (e, process_task) (final-IsSafe _ _ _)
          | inr (channel_code, e) ↦
              rw (e, process_task)
                (join (sending-IsSafe (in_hand w task channel_code)) (
                  settle-IsSafe r (in_hand w task channel_code) (send_result w task channel_code)
                    q))
        ]

  pub process_task-IsSafe :
      (r : Readings) (queued : QueueTask) (q : MemoryQueue)
      → All IsSafe (process_task w r queued q).events
  process_task-IsSafe r queued q = (processed-IsSafe r queued q).each
