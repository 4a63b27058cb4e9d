-- ===== src/Worker/Process/Retries.antt =====
-- The retries of one message come to an end.
use mathlib.Core.List.{Perm}
use mathlib.Core.List.Perm
use mux_mail.Prelude.{
  ℕ, zero, suc, ◌+◌, ◌≤◌, ◌≡◌, refl, ap, ◌∙◌, true, List, [], ◌∷◌, length, arith,
}
use mux_mail.Prelude.Int.{ℤ, pos, negsuc, pos_part}
use mux_mail.Domain.Constants.{MessageStatus}
use mux_mail.Domain.Types.{Message}
use mux_mail.Lite.Time.{Time}
use mux_mail.Lite.Queue.{MemoryQueue, QueueTask, ok}
use mux_mail.Lite.Queue.Delivery.{held}
use mux_mail.Lite.Queue.Added.{enqueue_delayed-perm, added-eq}
use mux_mail.Provider.{SendResult}
use mux_mail.Worker.Config.{Worker}
use mux_mail.Worker.Attempts.{suc_ℤ, provider_channel_for_attempt, has_provider_channel_for_attempt}
use mux_mail.Worker.Process.{Processed, Readings, with_attempt_no, process_task}
use mux_mail.Worker.Process.Trace.{statuses}
use mux_mail.Worker.Process.Outcome.{
  Ending, delivered, given_up, retried, retry_refused, Outcome, no_channel, attempted,
  process_task-Outcome, HasNext, retry_of,
}

-- The log says that a message waits for its next attempt.
abbrev pub is_retrying : List MessageStatus
is_retrying = MessageStatus.sending ∷ MessageStatus.retrying ∷ []

-- `RetryChain w t n`: the task `t` and the tasks that ProcessTask queued for its retries have been
-- retried n times in turn, each by some worker round with this configuration, at any times and with
-- any queues: `next` is the task that the queue holds besides those that it held before.
pub data RetryChain (w : Worker) : QueueTask → ℕ → Type 0 where
  first : (t : QueueTask) → RetryChain w t 0
  again :
      {n : ℕ} (t next : QueueTask) (r : Readings) (q : MemoryQueue)
      → statuses (process_task w r t q).events ≡ is_retrying
      → Perm (held (process_task w r t q).queue) (next ∷ held q)
      → RetryChain w next n
      → RetryChain w t (suc n)

abbrev attempt_number : QueueTask → ℕ
attempt_number t = pos_part (with_attempt_no t).attempt_no

has_channel-le :
    (m : Message) (a max : ℤ)
    → has_provider_channel_for_attempt m a max ≡ true
    → (pos_part a ≤ pos_part max) × (pos_part a ≤ length m.provider_channels)
unfolding has_provider_channel_for_attempt provider_channel_for_attempt
has_channel-le m (pos a) (pos b) h = ground arith
has_channel-le m (pos a) (negsuc b) h = ground arith
has_channel-le m (negsuc a) max h = ground arith

-- What a retry leaves: the next attempt has a channel, and EnqueueDelayed has queued its task.
abbrev Retries : Worker → Time → QueueTask → MemoryQueue → Processed → Type 0
Retries w now task q p =
    HasNext w task true × (hint : ℤ) × (retry_of w now task hint q ≡ (ok tt, p.queue))

Ending-Retries :
    {w : Worker} {now : Time} {task : QueueTask} {result : SendResult} {q : MemoryQueue}
    {p : Processed}
    → Ending w now task result q (MessageStatus.sending ∷ []) p
    → statuses p.events ≡ is_retrying
    → Retries w now task q p
Ending-Retries (delivered a s e k) h = absurd (cc (s, h))
Ending-Retries (given_up a b s e k) h = absurd (cc (s, h))
Ending-Retries {result = result} (retried a b n s e k) h = (n, result.retry_after_seconds, k)
Ending-Retries (retry_refused c a b n s e k) h = absurd (cc (s, h))

Outcome-Retries :
    {w : Worker} {now : Time} {task : QueueTask} {q : MemoryQueue} {p : Processed}
    → Outcome w now task q p
    → statuses p.events ≡ is_retrying
    → Retries w now task q p
Outcome-Retries (no_channel c s e k) h = absurd (cc (s, h))
Outcome-Retries (attempted channel_code c ending) h = Ending-Retries ending h

with_attempt_no-pos : (t : QueueTask) → (with_attempt_no t).attempt_no ≡ pos (attempt_number t)
unfolding with_attempt_no
with_attempt_no-pos t = by_sign t.attempt_no refl
  where
    by_sign : (a : ℤ) → t.attempt_no ≡ a → (with_attempt_no t).attempt_no ≡ pos (attempt_number t)
    by_sign (pos zero) e = ground arith
    by_sign (pos (suc n)) e = ground arith
    by_sign (negsuc n) e = ground arith

-- The task that is queued for the next attempt, available at any time.
abbrev retry_task : QueueTask → Time → QueueTask
retry_task t available = record (with_attempt_no t) {
  attempt_no = suc_ℤ (with_attempt_no t).attempt_no;
  available_at = available;
}

attempt_number-retry_task :
    (t : QueueTask) (available : Time)
    → attempt_number (retry_task t available) ≡ suc (attempt_number t)
attempt_number-retry_task t available =
    let e = with_attempt_no-pos t in
    ap
      (λ a.
        pos_part
          (with_attempt_no (record (retry_task t available) { attempt_no = suc_ℤ a })).attempt_no)
      e
    ∙ unfold with_attempt_no in ground arith

same_message : (t : QueueTask) → (with_attempt_no t).message ≡ t.message
unfolding with_attempt_no
same_message t = ground arith

abbrev channel_count : QueueTask → ℕ
channel_count t = length t.message.provider_channels

-- A retry has a channel, and what it queues is the next attempt at the same message.
retried_once :
    (w : Worker) (t next : QueueTask) (r : Readings) (q : MemoryQueue)
    → statuses (process_task w r t q).events ≡ is_retrying
    → Perm (held (process_task w r t q).queue) (next ∷ held q)
    → (1 + attempt_number t ≤ pos_part w.max_attempts)
      × (1 + attempt_number t ≤ channel_count t)
      × (attempt_number next ≡ suc (attempt_number t))
      × (channel_count next ≡ channel_count t)
retried_once w t next r q s added =
    let task = with_attempt_no t in
    let (has_next, hint, k) = Outcome-Retries (process_task-Outcome w r t q) s in
    let next_le = has_channel-le task.message (suc_ℤ task.attempt_no) w.max_attempts has_next in
    let number : pos_part (suc_ℤ task.attempt_no) ≡ suc (attempt_number t) =
      ap (λ a. pos_part (suc_ℤ a)) (with_attempt_no-pos t) in
    let channels = ap (λ m. length m.provider_channels) (same_message t) in
    let alike = Perm.trans (Perm.symm added) (
      enqueue_delayed-perm (record task { attempt_no = suc_ℤ task.attempt_no }) _ r.enqueued_at q _
        k) in
    (
      omega (arith, next_le.0, number),
      omega (arith, next_le.1, number, channels),
      added-eq attempt_number next _ (held q) alike ∙ attempt_number-retry_task t _,
      added-eq channel_count next _ (held q) alike ∙ channels,
    )

-- If a task and the tasks queued for its retries are retried n + 1 times in turn, this many more than
-- its own attempt number are within the limit of attempts and within the channels of its message: so
-- the retries of a message come to an end.
pub retry_bound :
    (w : Worker) (t : QueueTask) (n : ℕ)
    → RetryChain w t (suc n)
    → (suc n + attempt_number t ≤ pos_part w.max_attempts)
      × (suc n + attempt_number t ≤ length t.message.provider_channels)
retry_bound w _ zero (again t next r q s added c) =
    let once = retried_once w t next r q s added in (once.0, once.1)
retry_bound w _ (suc n) (again t next r q s added c) =
    let rest = retry_bound w next n c in
    let once = retried_once w t next r q s added in
    (omega (arith, rest.0, once.2), omega (arith, rest.1, once.2, once.3))
