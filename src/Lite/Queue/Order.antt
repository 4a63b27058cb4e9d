-- ===== src/Lite/Queue/Order.antt =====
-- The order in which one worker gets the tasks that are ready.
use mathlib.Core.List.{append-nil}
use mux_mail.Prelude.{
  ℕ, zero, suc, ◌-◌, ◌≡◌, refl, ap, false, none, some, List, [], ◌∷◌, ◌++◌, map, arith, take, ◌∙◌,
}
use mux_mail.Lite.Time.{Time}
use mux_mail.Lite.Queue.{
  QueueTask, QueuedTask, MemoryQueue, Round, returned, failed, waiting, due, not_due,
  move_ready_locked, take_ready, dequeue_round,
}
use mux_mail.Lite.Queue.Invariant.{dequeue_round_open}

-- The tasks that are ready at `now`, in line: those of `ready`, then the delayed ones that are due.
abbrev pub line : Time → MemoryQueue → List QueuedTask
line now q = q.ready ++ due now q.delayed

-- An open queue's round returns the first in line, if there is one.
pub dequeue_round_first :
    (now : Time) (q : MemoryQueue) (x : QueuedTask) (xs : List QueuedTask)
    → q.closed ≡ false
    → line now q ≡ x ∷ xs
    → dequeue_round now q ≡ (
      returned x.task,
      record q { ready = xs; delayed = not_due now q.delayed; pending = q.pending - 1 },
    )
unfolding take_ready move_ready_locked
dequeue_round_first now q x xs c h = dequeue_round_open now q c ∙ ground arith

pub dequeue_round_none :
    (now : Time) (q : MemoryQueue)
    → q.closed ≡ false
    → line now q ≡ []
    → dequeue_round now q ≡ (
      waiting (elim (not_due now q.delayed) [ [] ↦ none | x ∷ xs ↦ some (x.ready_at - now) ]),
      record q { ready = []; delayed = not_due now q.delayed },
    )
unfolding take_ready move_ready_locked
dequeue_round_none now q c h = dequeue_round_open now q c ∙ ground arith

abbrev after_round : (MemoryQueue → List QueueTask) → Round × MemoryQueue → List QueueTask
after_round more (returned t, q) = t ∷ more q
after_round more (failed e, q) = []
after_round more (waiting d, q) = []

-- What up to `n` rounds at one time return, until the first round that returns no task.
unfoldable pub drain : ℕ → Time → MemoryQueue → List QueueTask
drain zero now q = []
drain (suc n) now q = after_round (drain n now) (dequeue_round now q)

due-not_due : (now : Time) (xs : List QueuedTask) → due now (not_due now xs) ≡ []
unfolding due not_due
due-not_due now [] = refl
due-not_due now (x ∷ xs) = ground (arith, due-not_due now xs)

-- The next round's line is the rest of this one's.
line_after :
    (now : Time) (q : MemoryQueue) (xs : List QueuedTask) (n : ℕ)
    → line now (record q { ready = xs; delayed = not_due now q.delayed; pending = n }) ≡ xs
line_after now q xs n = rw (due-not_due now q.delayed) (append-nil xs)

drain-line :
    (n : ℕ) (now : Time) (q : MemoryQueue) (xs : List QueuedTask)
    → q.closed ≡ false
    → line now q ≡ xs
    → drain n now q ≡ take n (map (λ x. x.task) xs)
unfolding drain
drain-line zero now q xs c e = refl
drain-line (suc n) now q [] c e = ap (after_round (drain n now)) (dequeue_round_none now q c e)
drain-line (suc n) now q (x ∷ xs) c e =
    ap (after_round (drain n now)) (dequeue_round_first now q x xs c e)
    ∙ ap (◌∷◌ x.task) (
        drain-line n now
          (record q { ready = xs; delayed = not_due now q.delayed; pending = q.pending - 1 }) xs c
          (line_after now q xs (q.pending - 1)))

-- Rounds of an open queue at one time return the first tasks in line, in its order: those of `ready`
-- in the order in which they came there, then the delayed tasks that are due, in the heap's order.
pub drain-take :
    (n : ℕ) (now : Time) (q : MemoryQueue)
    → q.closed ≡ false
    → drain n now q ≡ take n (map (λ x. x.task) (line now q))
drain-take n now q c = drain-line n now q (line now q) c refl
