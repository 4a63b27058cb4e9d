-- ===== src/Lite/Time.antt =====
-- Go's `time.Time` in UTC as the nanoseconds since January 1 of year 1, the zero time, from which
-- Time.Truncate counts; `time.Duration` as nanoseconds. Days have 86400 seconds, as in Go.
use mux_mail.Prelude.{ℕ, ◌-◌, ◌%◌}

abbrev pub Time : Type 0
Time = ℕ

abbrev pub second : ℕ
second = 1000000000

abbrev pub millisecond : ℕ
millisecond = 1000000

abbrev pub minute : ℕ
minute = 60000000000

abbrev pub hour : ℕ
hour = 3600000000000

abbrev pub day : ℕ
day = 86400000000000

-- t.Truncate(d)
abbrev pub truncate : Time → ℕ → Time
truncate t d = t - t % d
