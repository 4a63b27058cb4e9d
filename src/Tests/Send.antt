-- ===== src/Tests/Send.antt =====
-- A send that is accepted, the same one again, and one that a closed queue refuses.
use mathlib.Core.Option.{some-injective}
use mux_mail.Prelude.{
  subst, ◌+◌, ◌≡◌, refl, true, false, none, some, [], ◌∷◌, ◌++◌, arith, string_eq, runes_eq, ◌==◌,
}
use mux_mail.Prelude.Int.{pos}
use mux_mail.Prelude.Assoc.{lookup, insert, delete, retain}
use mux_mail.Domain.Types.{Message}
use mux_mail.Domain.Email.{codes, addr_spec_email_domain}
use mux_mail.Domain.Hash.{idempotency_hash_of}
use mux_mail.Domain.Route.{select_route, policy_channels, unique_and_truncate_channels}
use mux_mail.Lite.Queue
use mux_mail.Lite.Queue.{
  MemoryQueue, queued_item, commit, commit_delayed, commit_unused, enqueue_item,
  memory_queue_closed,
}
use mux_mail.Lite.RateLimiter
use mux_mail.Lite.RateLimiter.{
  allow, allow_checks, list_checks, first_not_positive, first_exceeded, consume, consume_one,
  check_keys,
}
use mux_mail.Lite.RateLimiter.Counts.{IsCoherent}
use mux_mail.Lite.Idempotency
use mux_mail.Lite.Idempotency.{
  IdempotencyCache, complete_queued, complete_unused, settle_reservation,
  evict_overflow_except_pending, evict_rounds,
}
use mux_mail.Lite.Idempotency.Invariant.{IsValid}
use mux_mail.Lite.Suppression.{contains}
use mux_mail.Api.Send.{
  SendEnv, SendTimes, SendInput, SendState, queued, replay, refused, queue_refused, commit_failed,
  task_of,
}
use mux_mail.Api.Send.Stages.{
  process_send, recipient_send, route_send, slot_send, limit_send, write_send, log_send,
  commit_send, complete_send, closed_if,
}
use mux_mail.Api.Send.Outcome.{HasMessageIds}
use mux_mail.Api.Send.Laws.{Refusal, refused_untouched, send_twice, queued_once}
use mux_mail.Tests.Data.{recipient, scene}

abbrev env : SendEnv
env = record {
  parse_address = some;
  sha256_hex = λ s. "h";
  max_attempts = pos 2;
  log_fails = λ m. none;
  new_message_id = some "msg_1";
}

abbrev input : SendInput
input = record {
  request_id = "req_1";
  app_code = "shop";
  api_key_name = "main";
  scene = scene;
  idempotency_key = "k1";
  fingerprint = "f";
  to_email = recipient;
  normalized_to_email = recipient;
  business_request_id = "";
  user_ip = [];
  user_id = "";
  caller_ip = codes "192.0.2.1";
  locale = "en-US";
  subject = "Hello";
  html_body = "";
  text_body = "Hi";
}

-- The same request once more: the server gives it a request ID of its own.
abbrev resent : SendInput
resent = record input { request_id = "req_2"; caller_ip = codes "192.0.2.2" }

abbrev times : SendTimes
times = record {
  reserved_at = 1;
  limited_at = 2;
  queued_at = 3;
  completed_at = 4;
  queue_closes = false;
}

abbrev later : SendTimes
later = record {
  reserved_at = 50;
  limited_at = 51;
  queued_at = 52;
  completed_at = 53;
  queue_closes = false;
}

abbrev idle : MemoryQueue
idle = record {
  capacity = 2;
  pending = 0;
  next_seq = 0;
  ready = [];
  delayed = [];
  closed = false;
  notify = 0;
  reservations = [];
}

abbrev start : SendState
start = record {
  idempotent = record { ttl = 60; limit = 2; entries = []; reservations = [] };
  suppressed = none;
  queue = idle;
  rate_limit = [];
  log = [];
  stats = [];
}

abbrev shut : SendState
shut = record start { queue = record idle { closed = true } }

ids : HasMessageIds env
ids message_id e = subst (λ x. (x == "") ≡ false) (some-injective _ _ e) refl

empty-IsValid : IsValid start.idempotent
empty-IsValid = record { distinct = tt; within = omega arith; owned = tt; unique = tt }

empty-IsCoherent : IsCoherent []
unfolding lookup
empty-IsCoherent = record { distinct = tt; coherent = λ k. tt }

accepted : (process_send env times input start).0 ≡ queued "msg_1"
unfolding process_send recipient_send route_send slot_send limit_send write_send log_send
    commit_send complete_send Idempotency.reserve Idempotency.delete_expired settle_reservation
    evict_overflow_except_pending evict_rounds contains select_route addr_spec_email_domain
    policy_channels unique_and_truncate_channels Queue.reserve allow allow_checks list_checks
    RateLimiter.delete_expired first_not_positive first_exceeded consume consume_one check_keys
    commit commit_delayed commit_unused enqueue_item complete_queued complete_unused lookup insert
    delete retain runes_eq idempotency_hash_of Idempotency.key_beq RateLimiter.key_beq
accepted = refl

closed_queue : (process_send env times input shut).0 ≡ refused (queue_refused memory_queue_closed)
unfolding process_send recipient_send route_send slot_send Idempotency.reserve
    Idempotency.delete_expired settle_reservation evict_overflow_except_pending evict_rounds
    contains select_route addr_spec_email_domain policy_channels unique_and_truncate_channels
    Queue.reserve lookup insert delete retain runes_eq idempotency_hash_of Idempotency.key_beq
closed_queue = refl

-- Another goroutine closes the queue while the message is written.
closed_meanwhile :
    (process_send env (record times { queue_closes = true }) input start).0
    ≡ refused (commit_failed memory_queue_closed)
unfolding process_send recipient_send route_send slot_send limit_send write_send log_send
    commit_send complete_send Idempotency.reserve Idempotency.delete_expired settle_reservation
    evict_overflow_except_pending evict_rounds contains select_route addr_spec_email_domain
    policy_channels unique_and_truncate_channels Queue.reserve allow allow_checks list_checks
    RateLimiter.delete_expired first_not_positive first_exceeded consume consume_one check_keys
    commit commit_delayed commit_unused closed_if Queue.close lookup insert delete retain runes_eq
    idempotency_hash_of Idempotency.key_beq RateLimiter.key_beq Queue.signal_locked
closed_meanwhile = refl

refused_untouched_example :
    Refusal env
      (record times { queue_closes = true })
      input
      start
      (commit_failed memory_queue_closed)
      (process_send env (record times { queue_closes = true }) input start).1
refused_untouched_example =
    refused_untouched env (record times { queue_closes = true }) input start
      (commit_failed memory_queue_closed) ids empty-IsValid empty-IsCoherent closed_meanwhile

send_twice_example :
    ((process_send env later resent (process_send env times input start).1).0 ≡ replay "msg_1")
    × ((process_send env later resent (process_send env times input start).1).1.queue
        ≡ (process_send env times input start).1.queue)
    × ((process_send env later resent (process_send env times input start).1).1.log
        ≡ (process_send env times input start).1.log)
    × ((process_send env later resent (process_send env times input start).1).1.rate_limit
        ≡ (process_send env times input start).1.rate_limit)
send_twice_example =
    send_twice env times later input resent start "msg_1" ids empty-IsValid empty-IsCoherent refl
      refl refl refl (omega arith) accepted

queued_once_example :
    (message : Message) × (message.message_id ≡ "msg_1")
    × ((process_send env times input start).1.queue.ready
        ≡ [] ++ queued_item (task_of message) (3 + 0) (0 + 1) ∷ [])
    × ((process_send env times input start).1.queue.delayed ≡ [])
    × ((process_send env times input start).1.queue.pending ≡ 0 + 1)
    × ((process_send env times input start).1.log ≡ [] ++ message ∷ [])
queued_once_example =
    queued_once env times input start "msg_1" ids empty-IsValid empty-IsCoherent accepted
