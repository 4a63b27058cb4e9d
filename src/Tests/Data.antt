-- ===== src/Tests/Data.antt =====
-- Test data: a message, a scene with a route for one domain, and tasks.
use mux_mail.Prelude.{ℕ, true, [], ◌∷◌}
use mux_mail.Prelude.Int.{pos}
use mux_mail.Domain.Constants.{MessageStatus, ErrorCode}
use mux_mail.Domain.Types.{Runes, Message, Scene, RateLimitPolicy}
use mux_mail.Domain.Email.{codes}
use mux_mail.Lite.Queue.{QueueTask}

abbrev pub recipient : Runes
recipient = codes "user@example.com"

abbrev pub sample_message : Message
sample_message = record {
  request_id = "req_1";
  business_request_id = "";
  message_id = "msg_1";
  app_code = "shop";
  api_key_name = "main";
  scene_code = "login";
  to_email = recipient;
  normalized_to_email = recipient;
  to_domain = codes "example.com";
  to_hash = "h";
  locale = "en-US";
  subject = "Hello";
  html_body = "";
  text_body = "Hi";
  provider_channels = "a" ∷ "b" ∷ [];
  status = MessageStatus.queued;
  idempotency_hash = "i";
  request_fingerprint = "f";
  caller_ip = codes "192.0.2.1";
  user_ip = [];
  user_id_hash = "";
  error_code = ErrorCode.other "";
  error_message = [];
}

abbrev pub task_of : ℕ → QueueTask
task_of n = record { message = sample_message; attempt_no = pos n; available_at = 0 }

abbrev pub policy : RateLimitPolicy
policy = record {
  same_email_per_minute = pos 1;
  same_email_per_day = pos 5;
  same_user_ip_per_hour = pos 9;
  same_caller_ip_per_hour = pos 9;
}

abbrev pub scene : Scene
scene = record {
  code = "login";
  name = "Login";
  enabled = true;
  template = "code";
  rate_limit = policy;
  route_policy =
      (codes "*", "z" ∷ []) ∷ (codes "example.com", "a" ∷ "" ∷ "a" ∷ "b" ∷ "c" ∷ []) ∷ [];
}
