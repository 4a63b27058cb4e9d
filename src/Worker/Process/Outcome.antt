-- ===== src/Worker/Process/Outcome.antt =====
-- How ProcessTask ends: what the message log gets, what is left in the queue, and when.
use mux_mail.Prelude.{
  ◌≡◌, refl, ap, ◌∙◌, subst, ◌⊎◌, inl, inr, String, Bool, true, false, none, some, List, [], ◌∷◌,
  ◌++◌, Bool-cases, Option-cases,
}
use mux_mail.Prelude.Int.{ℤ}
use mux_mail.Lite.Time.{Time}
use mux_mail.Lite.Queue.{MemoryQueue, QueueTask, QueueError, Result, ok, err, enqueue_delayed}
use mux_mail.Domain.Constants.{MessageStatus, ErrorCode}
use mux_mail.Domain.Types.{Message}
use mux_mail.Domain.Email.{codes}
use mux_mail.Provider.{SendResult, is_accepted}
use mux_mail.Worker.Config.{Worker}
use mux_mail.Worker.Attempts.{
  suc_ℤ, provider_channel_for_attempt, has_provider_channel_for_attempt, normalized_failure,
  retry_delay, retry_schedule_failure_code, message_with_status,
}
use mux_mail.Worker.Events.{Event}
use mux_mail.Worker.Process.{
  in_hand, sending_events, send_result, Processed, Readings, InHand, is_message_permanent,
  schedule_retry, after_failure, precede, settle, attempt_through, with_attempt_no, process_task,
  failed_attempt_events,
}
use mux_mail.Worker.Process.Trace.{
  statuses-sending_events, statuses, statuses-append, statuses-append_message,
  statuses-append_message_last, statuses-append_final_failure, statuses-accepted_events,
  statuses-failed_attempt_events,
}

-- What EnqueueDelayed does with the retry of a task.
abbrev pub retry_of : Worker → Time → QueueTask → ℤ → MemoryQueue → Result (Unit {0}) × MemoryQueue
retry_of w now task hint q =
    let next = suc_ℤ task.attempt_no in
    enqueue_delayed (record task { attempt_no = next }) (retry_delay w.retry_backoff next hint) now
      q

abbrev pub IsPermanent : SendResult → Bool → Type 0
IsPermanent result b = is_message_permanent (normalized_failure result).failure_class ≡ b

abbrev pub HasNext : Worker → QueueTask → Bool → Type 0
HasNext w task b =
    has_provider_channel_for_attempt task.message (suc_ℤ task.attempt_no) w.max_attempts ≡ b

-- How the attempt of a task ends whose send gave this result. `before` is what the log has of it.
pub data Ending (w : Worker) (now : Time) (task : QueueTask) (result : SendResult) (q : MemoryQueue)
    (before : List MessageStatus) (p : Processed) : Type 0 where
  delivered :
      is_accepted result ≡ true
      → statuses p.events ≡ before ++ MessageStatus.sent ∷ []
      → p.error ≡ none
      → p.queue ≡ q
      → Ending w now task result q before p
  given_up :
      is_accepted result ≡ false
      → IsPermanent result true ⊎ (IsPermanent result false × HasNext w task false)
      → statuses p.events ≡ before ++ MessageStatus.failed ∷ []
      → p.error ≡ none
      → p.queue ≡ q
      → Ending w now task result q before p
  retried :
      is_accepted result ≡ false
      → IsPermanent result false
      → HasNext w task true
      → statuses p.events ≡ before ++ MessageStatus.retrying ∷ []
      → p.error ≡ none
      → retry_of w now task result.retry_after_seconds q ≡ (ok tt, p.queue)
      → Ending w now task result q before p
  retry_refused :
      (cause : QueueError)
      → is_accepted result ≡ false
      → IsPermanent result false
      → HasNext w task true
      → statuses p.events ≡ before ++ MessageStatus.retrying ∷ MessageStatus.failed ∷ []
      → p.error
        ≡ some (record {
          attempt_no = suc_ℤ task.attempt_no;
          message_id = task.message.message_id;
          cause = cause;
        })
      → retry_of w now task result.retry_after_seconds q ≡ (err cause, p.queue)
      → Ending w now task result q before p

module _ (w : Worker) (now : Time) (task : QueueTask) (result : SendResult) (q : MemoryQueue) where
  -- More events before the ones at hand.
  precede-Ending :
      (es : List Event) (before : List MessageStatus) (p : Processed)
      → statuses es ≡ before
      → Ending w now task result q [] p
      → Ending w now task result q before (precede es p)
  precede-Ending es before p e (delivered a s x y) =
      delivered a (statuses-append es p.events ∙ rw (e, s) refl) x y
  precede-Ending es before p e (given_up a b s x y) =
      given_up a b (statuses-append es p.events ∙ rw (e, s) refl) x y
  precede-Ending es before p e (retried a b n s x y) =
      retried a b n (statuses-append es p.events ∙ rw (e, s) refl) x y
  precede-Ending es before p e (retry_refused c a b n s x y) =
      retry_refused c a b n (statuses-append es p.events ∙ rw (e, s) refl) x y

  abbrev retrying : Message
  retrying =
      message_with_status task.message MessageStatus.retrying (normalized_failure result).error_code
        (normalized_failure result).error_message

  queue_beside :
      (x : Result (Unit {0}))
      → (retry_of w now task result.retry_after_seconds q).0 ≡ x
      → retry_of w now task result.retry_after_seconds q
        ≡ (x, (retry_of w now task result.retry_after_seconds q).1)
  queue_beside x e = ap (λ o. (o, (retry_of w now task result.retry_after_seconds q).1)) e

  schedule_retry-Ending :
      (accepted : is_accepted result ≡ false)
      → IsPermanent result false
      → HasNext w task true
      → Ending w now task result q []
          (schedule_retry w now task (normalized_failure result) result.retry_after_seconds q)
  unfolding schedule_retry message_with_status
  schedule_retry-Ending a b n = scheduled _ refl
    where
      scheduled :
          (x : Result (Unit {0}))
          → (retry_of w now task result.retry_after_seconds q).0 ≡ x
          → Ending w now task result q []
              (schedule_retry w now task (normalized_failure result) result.retry_after_seconds q)
      scheduled (ok u) e =
          rw (e, schedule_retry)
            (retried a b n (statuses-append_message_last w retrying) refl (queue_beside (ok u) e))
      scheduled (err c) e =
          rw (e, schedule_retry)
            (retry_refused c a b n
              (statuses-append_message w retrying _
                ∙ ap (◌∷◌ MessageStatus.retrying) (
                    statuses-append_final_failure w task.message (retry_schedule_failure_code c)
                      (codes "retry enqueue failed")))
              refl (queue_beside (err c) e))

  after_failure-Ending :
      is_accepted result ≡ false
      → Ending w now task result q []
          (after_failure w now task (normalized_failure result) result.retry_after_seconds q)
  unfolding after_failure
  after_failure-Ending a =
      elim (Bool-cases (is_message_permanent (normalized_failure result).failure_class)) [
        | inl e ↦ rw e (
            given_up a (inl e)
              (statuses-append_final_failure w task.message (normalized_failure result).error_code
                (normalized_failure result).error_message)
              refl refl)
        | inr e ↦
            rw e
              (elim (Bool-cases (
                has_provider_channel_for_attempt task.message (suc_ℤ task.attempt_no)
                  w.max_attempts)) [
                    | inr n ↦ rw n (
                        given_up a (inr (e, n))
                          (statuses-append_final_failure w task.message
                            ErrorCode.provider_unavailable (codes "provider unavailable"))
                          refl refl)
                    | inl n ↦ rw n (schedule_retry-Ending a e n)
                  ])
      ]

settle-Ending :
    (w : Worker) (r : Readings) (h : InHand) (result : SendResult) (q : MemoryQueue)
    → Ending w r.enqueued_at h.task result q [] (settle w r h result q)
unfolding settle
settle-Ending w r h result q = elim (Bool-cases (is_accepted result)) [
  | inl e ↦ rw e (delivered e (statuses-accepted_events w h result _) refl refl)
  | inr e ↦ rw e (
      precede-Ending w r.enqueued_at h.task result q
        (failed_attempt_events w h (normalized_failure result) _) [] _
        (statuses-failed_attempt_events w h (normalized_failure result) _)
        (after_failure-Ending w r.enqueued_at h.task result q e))
]

attempt_through-Ending :
    (w : Worker) (r : Readings) (task : QueueTask) (channel_code : String) (q : MemoryQueue)
    → Ending w r.enqueued_at task
        (send_result w task channel_code)
        q
        (MessageStatus.sending ∷ [])
        (attempt_through w r task channel_code q)
unfolding attempt_through
attempt_through-Ending w r task channel_code q =
    let h = in_hand w task channel_code in
    precede-Ending w r.enqueued_at task (send_result w task channel_code) q (sending_events w h)
      (MessageStatus.sending ∷ []) _ (statuses-sending_events w h)
      (subst
        (λ t.
          Ending w r.enqueued_at t (send_result w task channel_code) q []
            (settle w r h (send_result w task channel_code) q))
        (unfold in_hand in refl) (settle-Ending w r h (send_result w task channel_code) q))

-- How ProcessTask ends. With no channel for the attempt, the log gets `failed` and nothing else.
pub data Outcome (w : Worker) (now : Time) (task : QueueTask) (q : MemoryQueue) (p : Processed)
    : Type 0 where
  no_channel :
      provider_channel_for_attempt task.message task.attempt_no w.max_attempts ≡ none
      → statuses p.events ≡ MessageStatus.failed ∷ []
      → p.error ≡ none
      → p.queue ≡ q
      → Outcome w now task q p
  attempted :
      (channel_code : String)
      → provider_channel_for_attempt task.message task.attempt_no w.max_attempts ≡ some channel_code
      → Ending w now task (send_result w task channel_code) q (MessageStatus.sending ∷ []) p
      → Outcome w now task q p

-- Every task ends in one of five ways: the attempt has no channel, and the log gets `failed`; or it
-- gets `sending` and, if the provider accepted the message, `sent`; else `failed`, if the failure is
-- permanent for the message or no attempt is left; else `retrying`, and the task with the next
-- attempt number is given to EnqueueDelayed with the retry delay; if the queue refuses it, the log
-- gets `failed` as well, and the error says so. In all other ways the queue stays as it was.
pub process_task-Outcome :
    (w : Worker) (r : Readings) (queued : QueueTask) (q : MemoryQueue)
    → Outcome w r.enqueued_at (with_attempt_no queued) q (process_task w r queued q)
unfolding process_task
process_task-Outcome w r queued q =
    let task = with_attempt_no queued in
    elim (Option-cases (provider_channel_for_attempt task.message task.attempt_no w.max_attempts)) [
      | inl e ↦
          rw (e, process_task)
            (no_channel e
              (statuses-append_final_failure w task.message ErrorCode.provider_unavailable
                (codes "provider unavailable"))
              refl refl)
      | inr (channel_code, e) ↦
          rw (e, process_task)
            (attempted channel_code e (attempt_through-Ending w r task channel_code q))
    ]
