-- ===== src/Api/Send/Stages.antt =====
-- The steps of processSend, the last one first.
use mux_mail.Prelude.{ℕ, String, Bool, Option, none, some, List, [], ◌∷◌, ◌++◌, if◌then◌else◌}
use mux_mail.Domain.Constants.{MessageStatus, ErrorCode}
use mux_mail.Domain.Types.{Message}
use mux_mail.Domain.Email.{codes}
use mux_mail.Domain.Route.{RouteSelection, selection, select_route}
use mux_mail.Domain.Route
use mux_mail.Lite.Queue
use mux_mail.Lite.Queue.{QueueError, MemoryQueue, commit}
use mux_mail.Lite.RateLimiter.{RateLimitDecision, granted, exceeded, limit_not_positive, allow}
use mux_mail.Lite.Idempotency
use mux_mail.Lite.Idempotency.{reserved, replayed, complete_queued}
use mux_mail.Lite.Suppression.{contains}
use mux_mail.Lite.Stats.{StatsRecord, count_of}
use mux_mail.Api.Send.{
  SendEnv, SendTimes, SendInput, SendState, SendResult, queued, replay, refused,
  idempotency_refused, suppressed_recipient, no_route, queue_refused, rate_limited,
  rate_limit_invalid, message_id_failed, log_failed, commit_failed, completion_failed, key_of,
  limit_request, message_of, task_of, record_stat, undo_key, undo_slot, undo_all,
}

-- AppendMessage: the log has the message if the write succeeds, so if there is no error.
unfoldable pub records_unless : Option String → Message → List Message
records_unless (some e) message = []
records_unless none message = message ∷ []

abbrev pub logged : SendEnv → Message → SendState → SendState
logged env message s = record s { log = s.log ++ records_unless (env.log_fails message) message }

abbrev pub failed_message : Message → Message
failed_message message = record message {
  status = MessageStatus.failed;
  error_code = ErrorCode.internal;
  error_message = codes "queue commit failed";
}

-- What another goroutine makes of the queue between Reserve and Commit.
unfoldable pub closed_if : Bool → MemoryQueue → MemoryQueue
closed_if closes q = if closes then Queue.close q else q

module _ (env : SendEnv) (times : SendTimes) (i : SendInput) where
  -- CompleteQueued. The slot and the quota are committed by now.
  unfoldable pub complete_send : ℕ → String → SendState → SendResult × SendState
  unfolding undo_key
  complete_send r message_id s =
      let (done, c) = complete_queued (some r) message_id times.completed_at s.idempotent in
      let s' = record s { idempotent = c } in
      elim done [
        | Idempotency.err e ↦ (refused (completion_failed e), undo_key r s')
        | Idempotency.ok u ↦ (queued message_id, record_stat i "messages_queued" s')
      ]

  -- commitInitialQueueTask
  unfoldable pub commit_send :
      ℕ → ℕ → RateLimitDecision → Message → SendState → SendResult × SendState
  unfolding complete_send undo_all records_unless
  commit_send r slot d message s =
      let (done, q) = commit (some slot) (task_of message) times.queued_at s.queue in
      let s' = record s { queue = q } in
      elim done [
        | Queue.err e ↦
            (refused (commit_failed e), undo_all r slot d (logged env (failed_message message) s'))
        | Queue.ok u ↦ complete_send r message.message_id s'
      ]

  -- The message's record in the log, and the commit, before which the queue may be closed.
  unfoldable pub log_send : ℕ → ℕ → RateLimitDecision → Message → SendState → SendResult × SendState
  unfolding commit_send undo_all closed_if
  log_send r slot d message s = elim (env.log_fails message) [
    | some e ↦ (refused (log_failed e), undo_all r slot d s)
    | none ↦
        commit_send r slot d message
          (record s { queue = closed_if times.queue_closes s.queue; log = s.log ++ message ∷ [] })
  ]

  -- The message and its ID.
  unfoldable pub write_send :
      ℕ → ℕ → RateLimitDecision → RouteSelection → SendState → SendResult × SendState
  unfolding log_send undo_all
  write_send r slot d route s = elim env.new_message_id [
    | none ↦ (refused message_id_failed, undo_all r slot d s)
    | some message_id ↦ log_send r slot d (message_of env i route message_id) s
  ]

  -- Allow
  unfoldable pub limit_send : ℕ → ℕ → RouteSelection → SendState → SendResult × SendState
  unfolding write_send undo_key undo_slot
  limit_send r slot route s =
      let (decision, l) = allow (limit_request i) times.limited_at s.rate_limit in
      let s' = record s { rate_limit = l } in
      let limited = undo_key r (undo_slot slot (record_stat i "requests_rate_limited" s')) in
      elim decision [
        | granted d ↦ write_send r slot d route s'
        | exceeded d ↦ (refused (rate_limited d), limited)
        | limit_not_positive rule ↦ (refused (rate_limit_invalid rule), limited)
      ]

  -- A full queue is counted, a closed one is not.
  unfoldable pub queue_full_stats : QueueError → List StatsRecord
  queue_full_stats Queue.queue_full = count_of i.app_code i.scene.code "requests_queue_full" ∷ []
  queue_full_stats _ = []

  -- Reserve of the queue
  unfoldable pub slot_send : ℕ → RouteSelection → SendState → SendResult × SendState
  unfolding limit_send undo_key queue_full_stats
  slot_send r route s =
      let (slot, q) = Queue.reserve s.queue in
      let s' = record s { queue = q } in
      elim slot [
        | Queue.err e ↦ (
          refused (queue_refused e),
          undo_key r (record s' { stats = s'.stats ++ queue_full_stats e }),
        )
        | Queue.ok n ↦ limit_send r n route s'
      ]

  -- SelectRoute
  unfoldable pub route_send : ℕ → SendState → SendResult × SendState
  unfolding slot_send undo_key
  route_send r s =
      elim (select_route env.parse_address i.scene i.normalized_to_email env.max_attempts) [
        | Route.refused e ↦ (refused (no_route e), undo_key r s)
        | selection route ↦ slot_send r route s
      ]

  -- Contains of the suppression store
  unfoldable pub recipient_send : ℕ → SendState → SendResult × SendState
  unfolding route_send undo_key
  recipient_send r s = elim (contains s.suppressed (codes i.app_code) i.normalized_to_email) [
    | some entry ↦ (refused (suppressed_recipient entry.reason), undo_key r s)
    | none ↦ route_send r s
  ]

  -- Reserve of the idempotency cache
  unfoldable pub process_send : SendState → SendResult × SendState
  unfolding recipient_send
  process_send s =
      let (answer, c) =
        Idempotency.reserve (key_of env i) i.fingerprint times.reserved_at s.idempotent in
      let s' = record s { idempotent = c } in
      elim answer [
        | Idempotency.err e ↦ (refused (idempotency_refused e), s')
        | Idempotency.ok (replayed message_id status) ↦
            (replay message_id, record_stat i "requests_idempotent_replay" s')
        | Idempotency.ok (reserved r) ↦ recipient_send r s'
      ]
