-- ===== src/Api/Send.antt =====
-- processSend of internal/api/send.go, from the fingerprint of the request on: it reserves an
-- idempotency key and a slot of the queue, takes quota, writes the message to the log, and commits
-- all three. What Go defers until the return is undone at each return. No other request runs in
-- between, but the queue may be closed before the commit; the components' own theorems hold for every
-- interleaving.
pub mod Stages
pub mod Undo
pub mod Outcome
pub mod Laws
use mux_mail.Prelude.{
  ℕ, String, Bool, true, false, Option, none, some, List, [], ◌∷◌, ◌++◌, if◌then◌else◌, ◌==◌,
  string_eq,
}
use mux_mail.Prelude.Int.{ℤ, pos}
use mux_mail.Domain.Constants.{MessageStatus, ErrorCode, SuppressionReason}
use mux_mail.Domain.Types.{Bytes, Runes, App, Scene, Message}
use mux_mail.Domain.Email.{codes}
use mux_mail.Domain.Hash.{to_hash, user_id_hash, idempotency_hash_of}
use mux_mail.Domain.Route.{RouteSelection, RouteSelectionError, selection, select_route}
use mux_mail.Lite.Time.{Time}
use mux_mail.Lite.Queue
use mux_mail.Lite.Queue.{MemoryQueue, QueueTask, QueueError, queue_full, commit}
use mux_mail.Lite.RateLimiter.{
  RateLimitRule, RateLimitRequest, RateLimitDecision, Counters, AllowResult, granted, exceeded,
  limit_not_positive, allow, rollback,
}
use mux_mail.Lite.Idempotency
use mux_mail.Lite.Idempotency.{
  IdempotencyCache, IdempotencyKey, IdempotencyError, Reserved, reserved, replayed, complete_queued,
}
use mux_mail.Lite.Suppression.{SuppressionEntries, contains}
use mux_mail.Lite.Stats.{StatsRecord, count_of}

pub data SceneResult : Type 0 where
  found : Scene → SceneResult
  scene_disabled scene_not_found : SceneResult

-- findSceneByCode
unfoldable pub find_scene : List Scene → String → SceneResult
find_scene [] code = scene_not_found
find_scene (scene ∷ rest) code =
    if scene.code == code
    then (if scene.enabled then found scene else scene_disabled)
    else find_scene rest code

-- What the handler knows of a request that is authenticated, valid and rendered. The request ID is the
-- one that handleSend makes for each request.
pub record SendInput : Type 0 where
  pub request_id : String
  pub app_code : String
  pub api_key_name : String
  pub scene : Scene
  pub idempotency_key : String
  pub fingerprint : String
  pub to_email : Runes
  pub normalized_to_email : Runes
  pub business_request_id : String
  pub user_ip : Runes
  pub user_id : String
  pub caller_ip : Runes
  pub locale : String
  pub subject : String
  pub html_body : String
  pub text_body : String

-- What is not the program's own: net/mail's parser, SHA-256, the message log's file, which says with
-- `some` that a write failed, and the random message ID, `none` if the system has no randomness.
pub record SendEnv : Type 0 where
  pub parse_address : Runes → Option Runes
  pub sha256_hex : Runes → String
  pub max_attempts : ℤ
  pub log_fails : Message → Option String
  pub new_message_id : Option String

-- What the clock says in each component, and whether another goroutine closes the queue between the
-- reservation of the slot and its commit.
pub record SendTimes : Type 0 where
  pub reserved_at : Time
  pub limited_at : Time
  pub queued_at : Time
  pub completed_at : Time
  pub queue_closes : Bool

pub record SendState : Type 0 where
  pub idempotent : IdempotencyCache
  pub suppressed : Option SuppressionEntries
  pub queue : MemoryQueue
  pub rate_limit : Counters
  pub log : List Message
  pub stats : List StatsRecord

pub data SendError : Type 0 where
  idempotency_refused : IdempotencyError → SendError
  suppressed_recipient : SuppressionReason → SendError
  no_route : RouteSelectionError → SendError
  queue_refused : QueueError → SendError
  rate_limited : RateLimitDecision → SendError
  rate_limit_invalid : RateLimitRule → SendError
  message_id_failed : SendError
  log_failed : String → SendError
  commit_failed : QueueError → SendError
  completion_failed : IdempotencyError → SendError

-- sendResponse with the message ID, of a new message or of the one that is replayed.
pub data SendResult : Type 0 where
  queued : String → SendResult
  replay : String → SendResult
  refused : SendError → SendResult

abbrev pub key_of : SendEnv → SendInput → IdempotencyKey
key_of env i = record {
  app_code = i.app_code;
  scene_code = i.scene.code;
  idempotency_hash = idempotency_hash_of env.sha256_hex i.app_code i.scene.code i.idempotency_key;
}

abbrev pub limit_request : SendInput → RateLimitRequest
limit_request i = record {
  app_code = i.app_code;
  scene_code = i.scene.code;
  normalized_to_email = i.normalized_to_email;
  user_ip = i.user_ip;
  caller_ip = i.caller_ip;
  policy = i.scene.rate_limit;
}

abbrev pub message_of : SendEnv → SendInput → RouteSelection → String → Message
message_of env i route message_id = record {
  request_id = i.request_id;
  business_request_id = i.business_request_id;
  message_id = message_id;
  app_code = i.app_code;
  api_key_name = i.api_key_name;
  scene_code = i.scene.code;
  to_email = i.to_email;
  normalized_to_email = i.normalized_to_email;
  to_domain = route.recipient_domain;
  to_hash = to_hash env.sha256_hex i.app_code i.normalized_to_email;
  locale = i.locale;
  subject = i.subject;
  html_body = i.html_body;
  text_body = i.text_body;
  provider_channels = route.channels;
  status = MessageStatus.queued;
  idempotency_hash = idempotency_hash_of env.sha256_hex i.app_code i.scene.code i.idempotency_key;
  request_fingerprint = i.fingerprint;
  caller_ip = i.caller_ip;
  user_ip = i.user_ip;
  user_id_hash = user_id_hash env.sha256_hex i.app_code i.user_id;
  error_code = ErrorCode.other "";
  error_message = [];
}

abbrev pub task_of : Message → QueueTask
task_of message = record { message = message; attempt_no = pos 1; available_at = 0 }

-- r.stats.Record
abbrev pub record_stat : SendInput → String → SendState → SendState
record_stat i metric s = record s {
  stats = s.stats ++ count_of i.app_code i.scene.code metric ∷ [];
}

-- The three deferred calls.
unfoldable pub undo_key : ℕ → SendState → SendState
undo_key r s = record s { idempotent = Idempotency.release (some r) s.idempotent }

unfoldable pub undo_slot : ℕ → SendState → SendState
undo_slot slot s = record s { queue = Queue.release (some slot) s.queue }

unfoldable pub undo_quota : RateLimitDecision → SendState → SendState
undo_quota d s = record s { rate_limit = rollback d s.rate_limit }

unfoldable pub undo_all : ℕ → ℕ → RateLimitDecision → SendState → SendState
unfolding undo_key undo_slot undo_quota
undo_all r slot d s = undo_key r (undo_slot slot (undo_quota d s))
