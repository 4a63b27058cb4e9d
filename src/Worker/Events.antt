-- ===== src/Worker/Events.antt =====
-- What a worker passes to the message log, the stats sink and the error handler, in order: the
-- helpers appendMessage, appendAttempt, recordMessageStat and recordAttemptStats of
-- internal/worker/worker.go.
use mux_mail.Prelude.{ℕ, String, Bool, true, false, Option, none, some, List, [], ◌∷◌}
use mux_mail.Domain.Constants.{Transport}
use mux_mail.Domain.Types.{Message, Attempt, ProviderChannel}
use mux_mail.Lite.Stats.{StatsRecord}
use mux_mail.Worker.Config.{Worker}

pub data Event : Type 0 where
  appended_message : Message → Event
  appended_attempt : Attempt → Event
  recorded_stat : StatsRecord → Event
  handled_error : String → Event

abbrev pub report : Option String → List Event
report none = []
report (some e) = handled_error e ∷ []

unfoldable pub append_message : Worker → Message → List Event
append_message w message = appended_message message ∷ report (w.message_log.append_message message)

unfoldable pub append_attempt : Worker → Attempt → List Event
append_attempt w attempt = appended_attempt attempt ∷ report (w.message_log.append_attempt attempt)

unfoldable pub record_message_stat : Message → String → List Event
record_message_stat message metric =
    recorded_stat (record {
      app_code = message.app_code;
      scene_code = message.scene_code;
      provider_channel_code = "";
      transport = Transport.other "";
      metric = metric;
      value = 1;
    })
    ∷ []

abbrev attempt_stat : Message → String → ProviderChannel → String → ℕ → StatsRecord
attempt_stat message channel_code channel metric value = record {
  app_code = message.app_code;
  scene_code = message.scene_code;
  provider_channel_code = channel_code;
  transport = channel.transport;
  metric = metric;
  value = value;
}

unfoldable pub record_attempt_stats : Message → String → ProviderChannel → String → ℕ → List Event
record_attempt_stats message channel_code channel metric duration_ms =
    recorded_stat (attempt_stat message channel_code channel metric 1)
    ∷ recorded_stat (attempt_stat message channel_code channel "provider_duration_ms" duration_ms)
    ∷ []

-- The events of a call under an if.
unfoldable pub when : Bool → List Event → List Event
when true es = es
when false es = []
