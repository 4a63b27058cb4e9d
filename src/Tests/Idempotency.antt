-- ===== src/Tests/Idempotency.antt =====
-- The cache: one reservation, before and after it completes.
use mux_mail.Prelude.{◌≡◌, refl, false, some, [], ◌∷◌, string_eq, arith, inr}
use mux_mail.Prelude.Assoc.{lookup}
use mux_mail.Lite.Idempotency.{
  IdempotencyKey, key_beq, key_eq, IdempotencyEntry, queued, pending_entry, ReservationCell,
  IdempotencyCache, ok, err, idempotency_conflict, replayed, reserve, complete_queued,
}
use mux_mail.Lite.Idempotency.History.{reserves, completes, releases, run}
use mux_mail.Lite.Idempotency.Invariant.{IsValid}
use mux_mail.Lite.Idempotency.Ownership.{history-IsValid}
use mux_mail.Lite.Idempotency.Outcome.{open_conflicts, open_completes, replay_after_complete}

abbrev key : IdempotencyKey
key = record { app_code = "shop"; scene_code = "login"; idempotency_hash = "i" }

abbrev cell : ReservationCell
cell = record { key = key; used = false }

abbrev entry : IdempotencyEntry
entry = pending_entry "f" 5

abbrev held : IdempotencyCache
held = record { ttl = 60; limit = 1; entries = (key, entry) ∷ []; reservations = cell ∷ [] }

held-IsValid : IsValid held
unfolding lookup key_beq
held-IsValid = record {
  distinct = (refl, tt);
  within = omega arith;
  owned = (inr (entry, refl, refl), tt);
  unique = (inr tt, tt);
}

history-IsValid_example :
    IsValid (run held (reserves key "g" 6 ∷ completes (some 0) "msg_1" 7 ∷ releases (some 0) ∷ []))
history-IsValid_example =
    history-IsValid held
      (reserves key "g" 6 ∷ completes (some 0) "msg_1" 7 ∷ releases (some 0) ∷ []) held-IsValid

open_conflicts_example : (reserve key "f" 900 held).0 ≡ err idempotency_conflict
open_conflicts_example = open_conflicts 0 cell held held-IsValid refl refl "f" 900

open_completes_example : (complete_queued (some 0) "msg_1" 900 held).0 ≡ ok tt
open_completes_example = open_completes 0 cell held held-IsValid refl refl "msg_1" 900 refl

replay_after_complete_example :
    (reserve key "f" 20 (complete_queued (some 0) "msg_1" 10 held).1).0
    ≡ ok (replayed "msg_1" queued)
unfolding lookup key_beq
replay_after_complete_example =
    replay_after_complete 0 cell held held-IsValid refl refl "msg_1" "f" 10 20 entry refl refl
      (omega arith)
