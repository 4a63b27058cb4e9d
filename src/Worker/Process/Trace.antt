-- ===== src/Worker/Process/Trace.antt =====
-- The statuses that a list of events writes to the message log, in order.
use mux_mail.Prelude.{ℕ, ◌≡◌, refl, ap, Bool, List, [], ◌∷◌, ◌++◌, arith}
use mux_mail.Domain.Constants.{MessageStatus, ErrorCode}
use mux_mail.Domain.Types.{Bytes, Message, Attempt}
use mux_mail.Provider.{SendResult, FailedResult}
use mux_mail.Worker.Config.{Worker}
use mux_mail.Worker.Attempts.{message_with_status}
use mux_mail.Worker.Events.{
  Event, appended_message, appended_attempt, recorded_stat, handled_error, append_message,
  append_attempt, record_message_stat, record_attempt_stats, when,
}
use mux_mail.Worker.Process.{
  InHand, sending_events, accepted_events, failed_attempt_events, append_final_failure,
}

abbrev pub statuses : List Event → List MessageStatus
statuses [] = []
statuses (appended_message m ∷ es) = m.status ∷ statuses es
statuses (appended_attempt a ∷ es) = statuses es
statuses (recorded_stat s ∷ es) = statuses es
statuses (handled_error e ∷ es) = statuses es

pub statuses-append : (xs ys : List Event) → statuses (xs ++ ys) ≡ statuses xs ++ statuses ys
statuses-append [] ys = refl
statuses-append (appended_message m ∷ xs) ys = ap (◌∷◌ m.status) (statuses-append xs ys)
statuses-append (appended_attempt a ∷ xs) ys = statuses-append xs ys
statuses-append (recorded_stat s ∷ xs) ys = statuses-append xs ys
statuses-append (handled_error e ∷ xs) ys = statuses-append xs ys

module _ (w : Worker) where
  pub statuses-append_message :
      (m : Message) (es : List Event) → statuses (append_message w m ++ es) ≡ m.status ∷ statuses es
  unfolding append_message
  statuses-append_message m es = ground arith

  pub statuses-append_message_last : (m : Message) → statuses (append_message w m) ≡ m.status ∷ []
  unfolding append_message
  statuses-append_message_last m = ground arith

  pub statuses-append_attempt :
      (b : Bool) (a : Attempt) (es : List Event)
      → statuses (when b (append_attempt w a) ++ es) ≡ statuses es
  unfolding append_attempt when
  statuses-append_attempt b a es = ground arith

  pub statuses-append_final_failure :
      (m : Message) (code : ErrorCode) (text : Bytes)
      → statuses (append_final_failure w m code text) ≡ MessageStatus.failed ∷ []
  unfolding append_final_failure append_message record_message_stat message_with_status
  statuses-append_final_failure m code text = ground arith

  pub statuses-sending_events :
      (h : InHand) → statuses (sending_events w h) ≡ MessageStatus.sending ∷ []
  unfolding sending_events append_message append_attempt when message_with_status
  statuses-sending_events h = ground arith

  pub statuses-accepted_events :
      (h : InHand) (result : SendResult) (n : ℕ)
      → statuses (accepted_events w h result n) ≡ MessageStatus.sent ∷ []
  unfolding accepted_events append_attempt append_message record_attempt_stats record_message_stat
      when message_with_status
  statuses-accepted_events h result n = ground arith

  pub statuses-failed_attempt_events :
      (h : InHand) (failed : FailedResult) (n : ℕ)
      → statuses (failed_attempt_events w h failed n) ≡ []
  unfolding failed_attempt_events append_attempt record_attempt_stats when message_with_status
  statuses-failed_attempt_events h failed n = ground arith
