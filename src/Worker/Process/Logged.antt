-- ===== src/Worker/Process/Logged.antt =====
-- What ProcessTask writes to the message log, event by event.
use mux_mail.Prelude.{
  ℕ, ◌≡◌, refl, sym, ap, ◌∙◌, String, Bool, true, false, Option, none, some, List, ◌++◌, All,
  string_eq, All-append, Bool-cases, Option-cases, inl, inr,
}
use mux_mail.Prelude.Int.{ℤ}
use mux_mail.Domain.Constants.{
  MessageStatus, message_status_is_valid, AttemptStatus, attempt_status_is_valid, FailureClass,
  failure_class_is_valid, ErrorCode,
}
use mux_mail.Domain.Types.{Bytes, Attempt, ProviderChannel}
use mux_mail.Domain.Email.{codes}
use mux_mail.Lite.Time.{Time}
use mux_mail.Lite.Queue.{MemoryQueue, QueueTask, Result, ok, err, enqueue_delayed}
use mux_mail.Lite.Records.{is_valid_attempt_provider_metadata}
use mux_mail.Provider.{SendResult, FailedResult, channel_failure, is_accepted}
use mux_mail.Worker.Config.{Worker}
use mux_mail.Worker.Attempts.{
  suc_ℤ, provider_channel_for_attempt, has_provider_channel_for_attempt, attempt_with_status,
  message_with_status, normalized_failure, is_no_failure, retry_delay,
}
use mux_mail.Worker.Events.{
  Event, appended_message, appended_attempt, recorded_stat, handled_error, append_message,
  append_attempt, record_message_stat, record_attempt_stats, report, when,
}
use mux_mail.Worker.Process.{
  Readings, append_final_failure, accepted_events, failed_attempt_events, sending_events,
  is_message_permanent, schedule_retry, after_failure, settle, in_hand, attempt_through,
  send_result, with_attempt_no, process_task,
}
use mux_mail.Worker.Process.Readable.{
  IsComplete, IsFailed, not_sent, attempt_base-IsComplete, attempt_base-IsFailed,
}

-- What the decoders of the message log ask of a record.
abbrev pub IsReadable : QueueTask → Event → Type 0
IsReadable task (appended_message m) =
    (m.message_id ≡ task.message.message_id) × (message_status_is_valid m.status ≡ true)
IsReadable task (appended_attempt a) =
    (a.message_id ≡ task.message.message_id)
    × (a.attempt_no ≡ task.attempt_no)
    × (attempt_status_is_valid a.status ≡ true)
    × (failure_class_is_valid a.failure_class ≡ true)
    × (is_valid_attempt_provider_metadata a.provider a.provider_account_code a.provider_channel_code
          a.transport a.status a.failure_class
        ≡ true)
IsReadable task (recorded_stat s) = Unit
IsReadable task (handled_error e) = Unit

pub record AreReadable (task : QueueTask) (es : List Event) : Type 0 where
  pub each : All (IsReadable task) es

named_class-valid : (c : FailureClass) → is_no_failure c ≡ false → failure_class_is_valid c ≡ true
unfolding is_no_failure failure_class_is_valid
named_class-valid FailureClass.none h = refl
named_class-valid FailureClass.temporary h = refl
named_class-valid FailureClass.channel h = refl
named_class-valid FailureClass.message_permanent h = refl
named_class-valid (FailureClass.other s) h = sym h

normalized_failure-valid :
    (r : SendResult) → failure_class_is_valid (normalized_failure r).failure_class ≡ true
unfolding normalized_failure failure_class_is_valid
normalized_failure-valid r = by_failed r.failed
  where
    by_failed :
        (o : Option FailedResult)
        → failure_class_is_valid (normalized_failure (record r { failed = o })).failure_class ≡ true
    by_failed none = refl
    by_failed (some f) = elim (Bool-cases (is_no_failure f.failure_class)) [
      | inl e ↦ rw e refl
      | inr e ↦ rw e (named_class-valid f.failure_class e)
    ]

unavailable_class :
    (normalized_failure (
      channel_failure ErrorCode.provider_unavailable
        (codes "provider channel unavailable"))).failure_class
    ≡ FailureClass.channel
unfolding normalized_failure is_no_failure failure_class_is_valid
unavailable_class = refl

module _ (w : Worker) (task : QueueTask) where
  none_read : {es : List Event} → All (IsReadable task) es → AreReadable task es
  none_read h = record { each = h }

  join :
      {xs ys : List Event} → AreReadable task xs → AreReadable task ys → AreReadable task (xs ++ ys)
  join {xs = xs} {ys = ys} a b = record { each = All-append (IsReadable task) xs ys a.each b.each }

  report-IsReadable : (o : Option String) → All (IsReadable task) (report o)
  report-IsReadable none = tt
  report-IsReadable (some e) = (tt, tt)

  when-IsReadable :
      (b : Bool) (es : List Event) → (b ≡ true → AreReadable task es) → AreReadable task (when b es)
  unfolding when
  when-IsReadable true es h = h refl
  when-IsReadable false es h = none_read tt

  message-IsReadable :
      (s : MessageStatus) (c : ErrorCode) (t : Bytes)
      → message_status_is_valid s ≡ true
      → AreReadable task (append_message w (message_with_status task.message s c t))
  unfolding append_message message_with_status
  message-IsReadable s c t valid = none_read ((refl, valid), report-IsReadable _)

  stat-IsReadable : (metric : String) → AreReadable task (record_message_stat task.message metric)
  unfolding record_message_stat
  stat-IsReadable metric = none_read (tt, tt)

  stats-IsReadable :
      (c : String) (channel : ProviderChannel) (metric : String) (n : ℕ)
      → AreReadable task (record_attempt_stats task.message c channel metric n)
  unfolding record_attempt_stats
  stats-IsReadable c channel metric n = none_read (tt, (tt, tt))

  final-IsReadable :
      (c : ErrorCode) (t : Bytes) → AreReadable task (append_final_failure w task.message c t)
  unfolding append_final_failure message_status_is_valid
  final-IsReadable c t = join (message-IsReadable MessageStatus.failed c t refl) (stat-IsReadable _)

  complete-IsReadable :
      (a : Attempt) (s : AttemptStatus) (f : FailureClass) (c : ErrorCode) (t : Bytes) (i : String)
      (n : ℕ)
      → IsComplete task a
      → attempt_status_is_valid s ≡ true
      → failure_class_is_valid f ≡ true
      → AreReadable task (append_attempt w (attempt_with_status a s f c t i n))
  unfolding append_attempt attempt_with_status
  complete-IsReadable a s f c t i n k valid class =
      none_read ((k.same_id, k.same_no, valid, class, k.metadata s f), report-IsReadable _)

  failed-IsReadable :
      (a : Attempt) (f : FailureClass) (c : ErrorCode) (t : Bytes) (i : String) (n : ℕ)
      → IsFailed task a f
      → failure_class_is_valid f ≡ true
      → AreReadable task (append_attempt w (attempt_with_status a AttemptStatus.failed f c t i n))
  unfolding append_attempt attempt_with_status attempt_status_is_valid
  failed-IsReadable a f c t i n k class =
      none_read ((k.same_id, k.same_no, refl, class, k.metadata), report-IsReadable _)

  retry-IsReadable :
      (now : Time) (f : FailedResult) (hint : ℤ) (q : MemoryQueue)
      → AreReadable task (schedule_retry w now task f hint q).events
  unfolding schedule_retry message_status_is_valid
  retry-IsReadable now f hint q = by_result _ refl
    where
      by_result :
          (x : Result (Unit {0}))
          → (enqueue_delayed
              (record task { attempt_no = suc_ℤ task.attempt_no })
              (retry_delay w.retry_backoff (suc_ℤ task.attempt_no) hint)
              now
              q).0
            ≡ x
          → AreReadable task (schedule_retry w now task f hint q).events
      by_result (ok u) e =
          rw (e, schedule_retry) (message-IsReadable MessageStatus.retrying _ _ refl)
      by_result (err c) e =
          rw (e, schedule_retry)
            (join (message-IsReadable MessageStatus.retrying _ _ refl) (final-IsReadable _ _))

  after-IsReadable :
      (now : Time) (f : FailedResult) (hint : ℤ) (q : MemoryQueue)
      → AreReadable task (after_failure w now task f hint q).events
  unfolding after_failure
  after-IsReadable now f hint q = elim (Bool-cases (is_message_permanent f.failure_class)) [
    | inl e ↦ rw e (final-IsReadable _ _)
    | inr e ↦
        rw e
          (elim (Bool-cases (
            has_provider_channel_for_attempt task.message (suc_ℤ task.attempt_no) w.max_attempts)) [
              | inr n ↦ rw n (final-IsReadable _ _)
              | inl n ↦ rw n (retry-IsReadable now f hint q)
            ])
  ]

  module _ (channel_code : String) where
    sending-IsReadable : AreReadable task (sending_events w (in_hand w task channel_code))
    unfolding sending_events in_hand message_status_is_valid attempt_status_is_valid
        failure_class_is_valid
    sending-IsReadable = join (message-IsReadable MessageStatus.sending _ _ refl) (
        when-IsReadable _ _ (λ k.
          complete-IsReadable _ _ _ _ _ _ _
            (attempt_base-IsComplete task channel_code (w.resolver channel_code).0
              (w.resolver channel_code).1 k)
            refl refl))

    stats_when :
        (metric : String) (n : ℕ)
        → AreReadable task (
            when (in_hand w task channel_code).log_provider_stats (
              record_attempt_stats task.message channel_code
                (in_hand w task channel_code).channel
                metric
                n))
    stats_when metric n =
        when-IsReadable (in_hand w task channel_code).log_provider_stats
          (record_attempt_stats task.message channel_code (in_hand w task channel_code).channel
            metric n)
          (λ l. stats-IsReadable channel_code (in_hand w task channel_code).channel metric n)

    attempt_sent :
        (c : ErrorCode) (t : Bytes) (i : String) (n : ℕ)
        → AreReadable task (
            when (in_hand w task channel_code).log_provider_stats (
              append_attempt w (
                attempt_with_status
                  (in_hand w task channel_code).attempt
                  AttemptStatus.sent
                  FailureClass.none
                  c
                  t
                  i
                  n)))
    unfolding in_hand attempt_status_is_valid failure_class_is_valid
    attempt_sent c t i n = when-IsReadable _ _ (λ k.
        complete-IsReadable _ AttemptStatus.sent FailureClass.none c t i n
          (attempt_base-IsComplete task channel_code (w.resolver channel_code).0
            (w.resolver channel_code).1 k)
          refl refl)

    message_sent :
        (c : ErrorCode) (t : Bytes)
        → AreReadable task
            (append_message w (message_with_status task.message MessageStatus.sent c t))
    unfolding message_status_is_valid
    message_sent c t = message-IsReadable MessageStatus.sent c t refl

    accepted-IsReadable :
        (r : SendResult) (n : ℕ)
        → AreReadable task (accepted_events w (in_hand w task channel_code) r n)
    unfolding accepted_events in_hand
    accepted-IsReadable r n = search (join, attempt_sent, message_sent, stats_when, stat-IsReadable)

    refused-IsReadable :
        (n : ℕ)
        → AreReadable task (
            failed_attempt_events w
              (in_hand w task channel_code)
              (normalized_failure (send_result w task channel_code))
              n)
    unfolding failed_attempt_events in_hand
    refused-IsReadable n = when-IsReadable _ _ (λ k.
        join
          (failed-IsReadable _ _ _ _ _ _
            (attempt_base-IsFailed task channel_code (w.resolver channel_code).0
              (w.resolver channel_code).1 _ k
              (λ missing.
                ap (λ r. (normalized_failure r).failure_class)
                  (not_sent task channel_code (w.resolver channel_code).0
                    (w.resolver channel_code).1 missing)
                ∙ unavailable_class))
            (normalized_failure-valid (send_result w task channel_code)))
          (stats_when "attempts_failed" n))

    settle-IsReadable :
        (r : Readings) (q : MemoryQueue)
        → AreReadable task
            (settle w r (in_hand w task channel_code) (send_result w task channel_code) q).events
    unfolding settle in_hand
    settle-IsReadable r q = elim (Bool-cases (is_accepted (send_result w task channel_code))) [
      | inl e ↦ rw e (accepted-IsReadable (send_result w task channel_code) _)
      | inr e ↦ rw e (
          join (refused-IsReadable _) (
            after-IsReadable r.enqueued_at (normalized_failure (send_result w task channel_code))
              (send_result w task channel_code).retry_after_seconds q))
    ]

pub processed-IsReadable :
    (w : Worker) (r : Readings) (queued : QueueTask) (q : MemoryQueue)
    → AreReadable (with_attempt_no queued) (process_task w r queued q).events
unfolding process_task attempt_through
processed-IsReadable w r queued q =
    let task = with_attempt_no queued in
    elim (Option-cases (provider_channel_for_attempt task.message task.attempt_no w.max_attempts)) [
      | inl e ↦ rw (e, process_task) (final-IsReadable w task _ _)
      | inr (channel_code, e) ↦
          rw (e, process_task)
            (join w task (sending-IsReadable w task channel_code)
              (settle-IsReadable w task channel_code r q))
    ]
