-- ===== src/Lite/Stats.antt =====
-- internal/lite/stats.go: the record of one stats event.
use mux_mail.Prelude.{ℕ, String}
use mux_mail.Domain.Constants.{Transport}

-- StatsRecord, its timestamp aside: no caller in the model sets it, and the sink then takes the time.
-- Every value that the callers pass is a whole number.
pub record StatsRecord : Type 0 where
  pub app_code : String
  pub scene_code : String
  pub provider_channel_code : String
  pub transport : Transport
  pub metric : String
  pub value : ℕ

-- A record with no provider fields, of value 1.
abbrev pub count_of : String → String → String → StatsRecord
count_of app_code scene_code metric = record {
  app_code = app_code;
  scene_code = scene_code;
  provider_channel_code = "";
  transport = Transport.other "";
  metric = metric;
  value = 1;
}
