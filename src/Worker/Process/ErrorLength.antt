-- ===== src/Worker/Process/ErrorLength.antt =====
-- The error texts in what ProcessTask writes to the message log.
use mux_mail.Prelude.{◌≤◌, subst, sym, length, All, All-mono}
use mux_mail.Lite.Queue.{MemoryQueue, QueueTask}
use mux_mail.Worker.Config.{Worker}
use mux_mail.Worker.ErrorText.{max_error_bytes, length-safe_error_message}
use mux_mail.Worker.Events.{Event, appended_message, appended_attempt, recorded_stat, handled_error}
use mux_mail.Worker.Process.{Readings, process_task}
use mux_mail.Worker.Process.Safe.{IsSafe, process_task-IsSafe}

-- The error text that the event logs is not too long.
abbrev pub IsShort : Event → Type 0
IsShort (appended_message m) = length m.error_message ≤ max_error_bytes
IsShort (appended_attempt a) = length a.error_message ≤ max_error_bytes
IsShort (recorded_stat s) = Unit
IsShort (handled_error e) = Unit

IsSafe-IsShort : (e : Event) → IsSafe e → IsShort e
IsSafe-IsShort (appended_message m) (t, e) =
    subst (λ x. length x ≤ max_error_bytes) (sym e) (length-safe_error_message t)
IsSafe-IsShort (appended_attempt a) (t, e) =
    subst (λ x. length x ≤ max_error_bytes) (sym e) (length-safe_error_message t)
IsSafe-IsShort (recorded_stat s) h = tt
IsSafe-IsShort (handled_error e) h = tt

-- Whatever a provider answers, no error text that ProcessTask writes to the message log, in a
-- message or an attempt, is longer than 256 bytes.
pub process_task-IsShort :
    (w : Worker) (r : Readings) (queued : QueueTask) (q : MemoryQueue)
    → All IsShort (process_task w r queued q).events
process_task-IsShort w r queued q =
    All-mono IsSafe IsSafe-IsShort (process_task w r queued q).events
      (process_task-IsSafe w r queued q)
