-- ===== src/Worker/Process/Decoded.antt =====
-- What ProcessTask writes to the message log, read back by the log's decoders.
use mux_mail.Prelude.{
  ◌≢◌, ◌≡◌, refl, sym, ap, ◌∙◌, String, false, Option, some, All, List, [], ◌∷◌, Bool-cases, inl,
  inr,
}
use mux_mail.Prelude.Int.{pos, leb_ℤ}
use mux_mail.Lite.Time.{Time}
use mux_mail.Lite.Queue.{MemoryQueue, QueueTask}
use mux_mail.Lite.Records.{answer, encode_message_record, encode_attempt_record}
use mux_mail.Lite.Records.Decode.{decode_message_snapshot, decode_attempt_snapshot}
use mux_mail.Lite.Records.RoundTrip.{
  snapshot_of, attempt_snapshot_of, decode_message_snapshot-encode_message_record,
  decode_attempt_snapshot-encode_attempt_record,
}
use mux_mail.Domain.Types.{Bytes}
use mux_mail.Lite.Json.{coerce_to_utf8}
use mux_mail.Lite.Json.Kept.{coerce_to_utf8-kept}
use mux_mail.Worker.ErrorText.{safe_error_message}
use mux_mail.Worker.ErrorText.Valid.{safe_error_message-IsUtf8}
use mux_mail.Worker.Process.Safe.{IsSafe, process_task-IsSafe}
use mux_mail.Worker.Config.{Worker}
use mux_mail.Worker.Events.{Event, appended_message, appended_attempt, recorded_stat, handled_error}
use mux_mail.Worker.Process.{Readings, with_attempt_no, process_task}
use mux_mail.Worker.Process.Logged.{IsReadable, processed-IsReadable}

with_attempt_no-message : (task : QueueTask) → (with_attempt_no task).message ≡ task.message
unfolding with_attempt_no
with_attempt_no-message task = elim (Bool-cases (leb_ℤ task.attempt_no (pos 0))) [
  | inl e ↦ rw e refl
  | inr e ↦ rw e refl
]

with_attempt_no-positive :
    (task : QueueTask) → leb_ℤ (with_attempt_no task).attempt_no (pos 0) ≡ false
unfolding with_attempt_no
with_attempt_no-positive task = elim (Bool-cases (leb_ℤ task.attempt_no (pos 0))) [
  | inl e ↦ rw e refl
  | inr e ↦ rw e e
]

-- json.Marshal leaves a text of safeErrorMessage as it is.
safe-kept : (message t : Bytes) → message ≡ safe_error_message t → coerce_to_utf8 message ≡ message
safe-kept message t e =
    ap coerce_to_utf8 e
    ∙ coerce_to_utf8-kept (safe_error_message t) (safe_error_message-IsUtf8 t)
    ∙ sym e

module _ (format_time : Time → String) (parse_time : String → Option Time)
    (parse-format : (t : Time) → parse_time (format_time t) ≡ some t) where
  -- Written at any time, the record is read back with this time and with its fields, the error message
  -- byte for byte.
  abbrev pub IsDecoded : Event → Type 0
  IsDecoded (appended_message m) =
      (t : Time)
      → decode_message_snapshot parse_time (encode_message_record format_time t m)
        ≡ answer (record (snapshot_of format_time parse_time parse-format t m) {
          error_message = m.error_message;
        })
  IsDecoded (appended_attempt a) =
      (t : Time)
      → decode_attempt_snapshot parse_time (encode_attempt_record format_time t a)
        ≡ answer (record (attempt_snapshot_of format_time parse_time parse-format t a) {
          error_message = a.error_message;
        })
  IsDecoded (recorded_stat s) = Unit
  IsDecoded (handled_error e) = Unit

  IsReadable-IsDecoded :
      (queued : QueueTask)
      → queued.message.message_id ≢ ""
      → (e : Event) → IsReadable (with_attempt_no queued) e
      → IsSafe e
      → IsDecoded e
  IsReadable-IsDecoded queued some_id (appended_message m) k (x, safe) = λ t.
      decode_message_snapshot-encode_message_record format_time parse_time parse-format t m
        (λ e. some_id (sym (ap (λ m. m.message_id) (with_attempt_no-message queued)) ∙ sym k.0 ∙ e))
        k.1
      ∙ ap
          (λ b.
            answer
              (record (snapshot_of format_time parse_time parse-format t m) { error_message = b }))
          (safe-kept m.error_message x safe)
  IsReadable-IsDecoded queued some_id (appended_attempt a) k (x, safe) = λ t.
      decode_attempt_snapshot-encode_attempt_record format_time parse_time parse-format t a
        (λ e. some_id (sym (ap (λ m. m.message_id) (with_attempt_no-message queued)) ∙ sym k.0 ∙ e))
        (ap (λ n. leb_ℤ n (pos 0)) k.1 ∙ with_attempt_no-positive queued) k.2 k.3 k.4
      ∙ ap
          (λ b. answer (record (attempt_snapshot_of format_time parse_time parse-format t a) {
            error_message = b;
          }))
          (safe-kept a.error_message x safe)
  IsReadable-IsDecoded queued some_id (recorded_stat s) k safe = tt
  IsReadable-IsDecoded queued some_id (handled_error e) k safe = tt

  records-IsDecoded :
      (queued : QueueTask)
      → queued.message.message_id ≢ ""
      → (es : List Event) → All (IsReadable (with_attempt_no queued)) es
      → All IsSafe es
      → All IsDecoded es
  records-IsDecoded queued some_id [] k safe = tt
  records-IsDecoded queued some_id (e ∷ es) k safe = (
    IsReadable-IsDecoded queued some_id e k.0 safe.0,
    records-IsDecoded queued some_id es k.1 safe.1,
  )

  -- Every message and every attempt that ProcessTask writes to the message log, for a message with an ID and
  -- whatever the resolver gives and the provider answers, is one whose line the decoders take, and they read
  -- back its fields, the error message byte for byte.
  pub process_task-IsDecoded :
      (w : Worker) (r : Readings) (queued : QueueTask) (q : MemoryQueue)
      → queued.message.message_id ≢ ""
      → All IsDecoded (process_task w r queued q).events
  process_task-IsDecoded w r queued q some_id =
      records-IsDecoded queued some_id (process_task w r queued q).events
        (processed-IsReadable w r queued q).each (process_task-IsSafe w r queued q)
