-- ===== src/Lite/Queue/Timing.antt =====
-- When tasks are returned: never before they are due, and no wait is too long.
use mux_mail.Prelude.{
  ℕ, ◌+◌, ◌-◌, ◌≤◌, ◌<◌, ◌≡◌, refl, true, false, ◌==◌, nat_eq, Option, none, some, List, [], ◌∷◌,
  ◌++◌, arith, inl, inr, All, All-append, All-mono, Bool-cases, set, sym, ◌∙◌, subst,
}
use mux_mail.Prelude.Int.{ℤ, pos_part}
use mux_mail.Lite.Time.{Time}
use mux_mail.Lite.Queue.{
  QueueTask, QueuedTask, MemoryQueue, Round, returned, failed, waiting, queued_item, heap_push,
  enqueue_item, commit_unused, commit_delayed, release_slot, reserve, release, due, not_due,
  dequeue_round, close,
}
use mux_mail.Lite.Queue.History.{Call, reserves, commits, releases, dequeues, closes, step}
use mux_mail.Lite.Queue.Invariant.{dequeue_round_closed}
use mux_mail.Lite.Queue.Order.{line, dequeue_round_first, dequeue_round_none}

-- A heap whose head is not due holds nothing that is; a head that is due is in line.
head_due :
    (now : Time) (xs : List QueuedTask) (x : QueuedTask) (rest : List QueuedTask)
    → not_due now xs ≡ x ∷ rest
    → now < x.ready_at
unfolding not_due
head_due now [] x rest h = cc
head_due now (y ∷ ys) x rest h = ground (arith, head_due now ys x rest)

due_head :
    (now : Time) (x : QueuedTask) (rest : List QueuedTask)
    → x.ready_at ≤ now
    → due now (x ∷ rest) ≡ x ∷ due now rest
unfolding due
due_head now x rest h = ground arith

not_due_nil : (now : Time) (xs : List QueuedTask) → due now xs ≡ [] → not_due now xs ≡ xs
unfolding due not_due
not_due_nil now [] h = refl
not_due_nil now (y ∷ ys) h = ground arith

append_nil_parts : {A : Type 0} (xs ys : List A) → xs ++ ys ≡ [] → (xs ≡ []) × (ys ≡ [])
append_nil_parts [] ys h = (refl, h)
append_nil_parts (x ∷ xs) ys h = cc

-- What a wait says of the queue that waits, without a timer or with one.
abbrev pub WaitsFor : Time → MemoryQueue → Option ℕ → Type 0
WaitsFor now q none = (q.ready ≡ []) × (q.delayed ≡ [])
WaitsFor now q (some d) =
    (0 < d) × (t : QueueTask) × (q' : MemoryQueue) × (dequeue_round (now + d) q ≡ (returned t, q'))

abbrev WaitsRound : Time → Round × MemoryQueue → Type 0
WaitsRound now (waiting wait, q) = WaitsFor now q wait
WaitsRound now (returned t, q) = Unit
WaitsRound now (failed e, q) = Unit

waits_empty :
    (now : Time) (q : MemoryQueue) (xs : List QueuedTask)
    → q.closed ≡ false
    → q.ready ≡ []
    → not_due now xs ≡ q.delayed
    → (ys : List QueuedTask) → q.delayed ≡ ys
    → WaitsFor now q (elim ys [ [] ↦ none | x ∷ xs ↦ some (x.ready_at - now) ])
waits_empty now q xs c r e [] f = (r, f)
waits_empty now q xs c r e (y ∷ ys) f =
    let late = head_due now xs y ys (e ∙ f) in
    (
      omega (arith, late),
      y.task,
      _,
      dequeue_round_first (now + (y.ready_at - now)) q y (due (now + (y.ready_at - now)) ys) c
          (rw (r, f) (due_head _ y ys (omega (arith, late)))),
    )

-- If a round of an open queue waits at `now` with no timer, the queue holds no task at all; if it
-- waits with a timer, this is for more than nothing, and a round at the time when it fires, with no other call in between, returns a task.
pub wait_exact :
    (now : Time) (q q' : MemoryQueue) (wait : Option ℕ)
    → q.closed ≡ false
    → dequeue_round now q ≡ (waiting wait, q')
    → WaitsFor now q' wait
wait_exact now q q' wait c h = elim_line (line now q) refl
  where
    elim_line : (l : List QueuedTask) → line now q ≡ l → WaitsFor now q' wait
    elim_line (x ∷ xs) e = absurd (cc (h, dequeue_round_first now q x xs c e))
    elim_line [] e = subst (WaitsRound now) (sym (dequeue_round_none now q c e) ∙ h) (
        waits_empty now (record q { ready = []; delayed = not_due now q.delayed }) q.delayed c refl
          refl _ refl)

-- The time that a call reads, if it reads one.
abbrev AtOrAfter : Time → Call → Type 0
AtOrAfter clock (commits r task delay now) = clock ≤ now
AtOrAfter clock (dequeues now) = clock ≤ now
AtOrAfter clock _ = Unit {0}

abbrev clock_after : Time → Call → Time
clock_after clock (commits r task delay now) = now
clock_after clock (dequeues now) = now
clock_after clock _ = clock

-- The clock does not run back.
abbrev pub IsTimed : Time → List Call → Type 0
IsTimed clock [] = Unit
IsTimed clock (c ∷ cs) = AtOrAfter clock c × IsTimed (clock_after clock c) cs

-- What waits in `ready` was due by the time on the clock; what waits in the heap is due when its
-- task says.
pub record IsPrompt (clock : Time) (q : MemoryQueue) : Type 0 where
  pub ready_due : All (λ x. x.task.available_at ≤ clock) q.ready
  pub delayed_due : All (λ x. x.task.available_at ≡ x.ready_at) q.delayed

-- The tasks that a history's rounds return, with the time of each round.
abbrev returns_at : Time → Round → List (Time × QueueTask)
returns_at now (returned t) = (now, t) ∷ []
returns_at now (failed e) = []
returns_at now (waiting d) = []

abbrev step_returns : MemoryQueue → Call → List (Time × QueueTask)
step_returns q (dequeues now) = returns_at now (dequeue_round now q).0
step_returns q _ = []

unfoldable pub all_returns : MemoryQueue → List Call → List (Time × QueueTask)
all_returns q [] = []
all_returns q (c ∷ cs) = step_returns q c ++ all_returns (step q c) cs

raise_clock : (clock now : Time) (q : MemoryQueue) → clock ≤ now → IsPrompt clock q → IsPrompt now q
raise_clock clock now q h p = record {
  ready_due = All-mono _ (λ x (b : x.task.available_at ≤ clock). omega arith) q.ready p.ready_due;
  delayed_due = p.delayed_due;
}

heap_push-due :
    (x : QueuedTask) (xs : List QueuedTask)
    → x.task.available_at ≡ x.ready_at
    → All (λ y. y.task.available_at ≡ y.ready_at) xs
    → All (λ y. y.task.available_at ≡ y.ready_at) (heap_push x xs)
unfolding heap_push
heap_push-due x [] h a = (h, tt)
heap_push-due x (y ∷ ys) h a = ground (arith, heap_push-due x ys h a.1)

due-due :
    (now : Time) (xs : List QueuedTask)
    → All (λ y. y.task.available_at ≡ y.ready_at) xs
    → All (λ y. y.task.available_at ≤ now) (due now xs)
      × All (λ y. y.task.available_at ≡ y.ready_at) (not_due now xs)
unfolding due not_due
due-due now [] a = (tt, tt)
due-due now (y ∷ ys) a = ground (arith, due-due now ys a.1)

enqueue_item-IsPrompt :
    (task : QueueTask) (delay : ℕ) (now : Time) (q : MemoryQueue)
    → IsPrompt now q
    → IsPrompt now (enqueue_item task delay now q)
unfolding enqueue_item
enqueue_item-IsPrompt task delay now q p =
    let item = queued_item task (now + delay) (q.next_seq + 1) in
    elim (Bool-cases (delay == 0)) [
      | inl e ↦
          let arrived : now + delay ≤ now = ground arith in
          rw (e, enqueue_item)
            (record {
              ready_due =
                  All-append (λ x. x.task.available_at ≤ now) q.ready (item ∷ []) p.ready_due
                    (arrived, tt);
              delayed_due = p.delayed_due;
            })
      | inr e ↦
          rw (e, enqueue_item)
            (record {
              ready_due = p.ready_due;
              delayed_due = heap_push-due item q.delayed refl p.delayed_due;
            })
    ]

commit-IsPrompt :
    (r : Option ℕ) (task : QueueTask) (delay : ℤ) (now : Time) (q : MemoryQueue)
    → IsPrompt now q
    → IsPrompt now (commit_delayed r task delay now q).1
unfolding commit_delayed commit_unused release_slot
commit-IsPrompt none task delay now q p = p
commit-IsPrompt (some r) task delay now q p = ground (
  arith,
  enqueue_item-IsPrompt task (pos_part delay) now
      (record q { reservations = set q.reservations r true })
      (record { ready_due = p.ready_due; delayed_due = p.delayed_due }),
)

abbrev Prompts : Time → Round × MemoryQueue → Type 0
Prompts now (round, q) = All (λ r. (r.1).available_at ≤ r.0) (returns_at now round) × IsPrompt now q

dequeue_line :
    (now : Time) (q : MemoryQueue) (l : List QueuedTask)
    → q.closed ≡ false
    → line now q ≡ l
    → All (λ x. x.task.available_at ≤ now) l
    → All (λ y. y.task.available_at ≡ y.ready_at) (not_due now q.delayed)
    → Prompts now (dequeue_round now q)
dequeue_line now q [] c e a d =
    rw (dequeue_round_none now q c e) (tt, record { ready_due = tt; delayed_due = d })
dequeue_line now q (x ∷ xs) c e a d =
    rw (dequeue_round_first now q x xs c e) ((a.0, tt), record { ready_due = a.1; delayed_due = d })

dequeue-Prompts :
    (now : Time) (q : MemoryQueue) → IsPrompt now q → Prompts now (dequeue_round now q)
dequeue-Prompts now q p = elim (Bool-cases q.closed) [
  | inl c ↦ rw (dequeue_round_closed now q c) (tt, p)
  | inr c ↦
      let split = due-due now q.delayed p.delayed_due in
      dequeue_line now q (line now q) c refl
        (All-append (λ x. x.task.available_at ≤ now) q.ready (due now q.delayed) p.ready_due
          split.0)
        split.1
]

step-Prompts :
    (clock : Time) (q : MemoryQueue) (c : Call)
    → AtOrAfter clock c
    → IsPrompt clock q
    → All (λ r. (r.1).available_at ≤ r.0) (step_returns q c)
      × IsPrompt (clock_after clock c) (step q c)
unfolding step
step-Prompts clock q reserves h p = (tt, unfold reserve in ground arith)
step-Prompts clock q (commits r task delay now) h p =
    (tt, commit-IsPrompt r task delay now q (raise_clock clock now q h p))
step-Prompts clock q (releases none) h p = (tt, unfold release in p)
step-Prompts clock q (releases (some r)) h p = (tt, unfold release in ground arith)
step-Prompts clock q (dequeues now) h p = dequeue-Prompts now q (raise_clock clock now q h p)
step-Prompts clock q closes h p = (tt, unfold close in ground arith)

-- While the clock does not run back, every task that a history returns is returned at or after the
-- time from which it is available, starting from a queue whose ready tasks are due.
pub never_early :
    (clock : Time) (q : MemoryQueue) (cs : List Call)
    → IsTimed clock cs
    → IsPrompt clock q
    → All (λ r. (r.1).available_at ≤ r.0) (all_returns q cs)
unfolding all_returns
never_early clock q [] t p = tt
never_early clock q (c ∷ cs) t p =
    let now = step-Prompts clock q c t.0 p in
    All-append _ (step_returns q c) (all_returns (step q c) cs) now.0
      (never_early (clock_after clock c) (step q c) cs t.1 now.1)
