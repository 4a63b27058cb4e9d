-- ===== src/Lite/Queue/Delivery.antt =====
-- Every task that the queue accepts is returned once, or still held: none is lost, none is doubled.
use mathlib.Core.List.{Perm, append_assoc, append-nil}
use mathlib.Core.List.{perm_append_singleton, perm_middle}
use mathlib.Core.List.Perm
use mux_mail.Prelude.{
  ℕ, ◌+◌, ◌≡◌, refl, ap, sym, ◌∙◌, subst, Bool, true, false, Option, none, some, List, [], ◌∷◌,
  ◌++◌, map, arith, get_elem?, set, Bool-cases, Option-cases, inl, inr, ◌==◌, nat_eq, if◌then◌else◌,
}
use mux_mail.Prelude.Int.{ℤ, pos_part}
use mux_mail.Lite.Time.{Time}
use mux_mail.Lite.Queue.{
  QueueTask, QueuedTask, MemoryQueue, Result, ok, err, Round, returned, failed, waiting,
  queued_item, heap_push, less, enqueue_item, memory_queue_closed, commit_unused, commit_delayed,
  reserve, release, release_slot, due, not_due, dequeue_round,
}
use mux_mail.Lite.Queue.History.{Call, reserves, commits, releases, dequeues, closes, step, run}
use mux_mail.Lite.Queue.Invariant.{dequeue_round_closed}
use mux_mail.Lite.Queue.Order.{line, dequeue_round_first, dequeue_round_none}

-- The tasks that the queue holds.
abbrev pub held : MemoryQueue → List QueueTask
held q = map (λ x. x.task) (q.ready ++ q.delayed)

abbrev pub if_ok : Result (Unit {0}) → QueueTask → List QueueTask
if_ok (ok u) t = t ∷ []
if_ok (err e) t = []

-- The task that a call adds: that of a commit that succeeds, with the time from which it is ready.
unfoldable pub accepted : MemoryQueue → Call → List QueueTask
accepted q (commits r task delay now) =
    if_ok (commit_delayed r task delay now q).0
      (record task { available_at = now + pos_part delay })
accepted q _ = []

abbrev if_returned : Round → List QueueTask
if_returned (returned t) = t ∷ []
if_returned (failed e) = []
if_returned (waiting d) = []

-- The task that a call hands to its caller.
unfoldable pub delivered : MemoryQueue → Call → List QueueTask
delivered q (dequeues now) = if_returned (dequeue_round now q).0
delivered q _ = []

unfoldable pub all_accepted : MemoryQueue → List Call → List QueueTask
unfolding accepted
all_accepted q [] = []
all_accepted q (c ∷ cs) = accepted q c ++ all_accepted (step q c) cs

unfoldable pub all_delivered : MemoryQueue → List Call → List QueueTask
unfolding delivered
all_delivered q [] = []
all_delivered q (c ∷ cs) = delivered q c ++ all_delivered (step q c) cs

-- No call of Close in a history.
unfoldable pub never_closes : List Call → Bool
never_closes [] = true
never_closes (closes ∷ cs) = false
never_closes (c ∷ cs) = never_closes cs

perm_of_eq : {A : Type 0} {xs ys : List A} → xs ≡ ys → Perm xs ys
perm_of_eq {A} {xs} e = subst (Perm xs) e (Perm.refl xs)

due-append-not_due : (now : Time) (xs : List QueuedTask) → due now xs ++ not_due now xs ≡ xs
unfolding due not_due
due-append-not_due now [] = refl
due-append-not_due now (x ∷ xs) = ground (arith, due-append-not_due now xs)

in_line :
    (now : Time) (q : MemoryQueue) (l : List QueuedTask)
    → line now q ≡ l
    → l ++ not_due now q.delayed ≡ q.ready ++ q.delayed
in_line now q l e =
    ap (λ l. l ++ not_due now q.delayed) (sym e)
    ∙ append_assoc q.ready (due now q.delayed) (not_due now q.delayed)
    ∙ ap (◌++◌ q.ready) (due-append-not_due now q.delayed)

heap_push-perm : (x : QueuedTask) (xs : List QueuedTask) → Perm (heap_push x xs) (x ∷ xs)
unfolding heap_push
heap_push-perm x [] = Perm.refl _
heap_push-perm x (y ∷ ys) = elim (Bool-cases (less x y)) [
  | inl e ↦ rw (e, heap_push) (Perm.refl _)
  | inr e ↦ rw (e, heap_push) (Perm.trans (Perm.cons y (heap_push-perm x ys)) (Perm.swap x y ys))
]

abbrev slots : MemoryQueue → List QueuedTask
slots q = q.ready ++ q.delayed

enqueue_item-perm :
    (task : QueueTask) (delay : ℕ) (now : Time) (q : MemoryQueue)
    → Perm
        (slots (enqueue_item task delay now q))
        (queued_item task (now + delay) (q.next_seq + 1) ∷ slots q)
unfolding enqueue_item
enqueue_item-perm task delay now q =
    let item = queued_item task (now + delay) (q.next_seq + 1) in
    elim (Bool-cases (delay == 0)) [
      | inl e ↦
          rw (e, enqueue_item)
            (Perm.trans (perm_of_eq (append_assoc q.ready (item ∷ []) q.delayed))
              (perm_middle q.ready q.delayed))
      | inr e ↦
          rw (e, enqueue_item)
            (Perm.trans (Perm.append_left q.ready (heap_push-perm item q.delayed))
              (perm_middle q.ready q.delayed))
    ]

same_slots :
    (q q' : MemoryQueue)
    → q'.ready ≡ q.ready
    → q'.delayed ≡ q.delayed
    → Perm (held q') (held q ++ [])
same_slots q q' r d = perm_of_eq (rw (append-nil, r, d))

pub ready-reserve :
    (q : MemoryQueue) → ((reserve q).1.ready ≡ q.ready) × ((reserve q).1.delayed ≡ q.delayed)
unfolding reserve
ready-reserve q = ground arith

ready-release :
    (r : Option ℕ) (q : MemoryQueue)
    → ((release r q).ready ≡ q.ready) × ((release r q).delayed ≡ q.delayed)
unfolding release
ready-release none q = (refl, refl)
ready-release (some r) q = ground arith

slots-release_slot :
    (q : MemoryQueue) → ((release_slot q).ready ≡ q.ready) × ((release_slot q).delayed ≡ q.delayed)
unfolding release_slot
slots-release_slot q = ground arith

abbrev Accepts : List QueueTask → QueueTask → Result (Unit {0}) × MemoryQueue → Type 0
Accepts before t (result, q) = Perm (held q) (before ++ if_ok result t)

commit_unused-perm :
    (r : ℕ) (task : QueueTask) (delay : ℤ) (now : Time) (q : MemoryQueue)
    → Accepts
        (held q)
        (record task { available_at = now + pos_part delay })
        (commit_unused r task delay now q)
unfolding commit_unused
commit_unused-perm r task delay now q =
    let q' = record q { reservations = set q.reservations r true } in
    let freed = slots-release_slot q' in
    let t = record task { available_at = now + pos_part delay } in
    elim q.closed
      as (λ b. Accepts (held q) t (
        if b
        then (err memory_queue_closed, release_slot q')
        else (ok tt, enqueue_item task (pos_part delay) now q'))) [
          | true ↦ same_slots q (release_slot q') freed.0 freed.1
          | false ↦
              Perm.trans (Perm.map (λ x. x.task) (enqueue_item-perm task (pos_part delay) now q'))
                (Perm.symm (perm_append_singleton t (held q)))
        ]

pub commit-perm :
    (r : Option ℕ) (task : QueueTask) (delay : ℤ) (now : Time) (q : MemoryQueue)
    → Perm (held (commit_delayed r task delay now q).1) (
        held q
        ++ if_ok
            (commit_delayed r task delay now q).0
            (record task { available_at = now + pos_part delay }))
unfolding commit_delayed
commit-perm none task delay now q = same_slots q q refl refl
commit-perm (some r) task delay now q = elim (Option-cases (get_elem? q.reservations r)) [
  | inl e ↦ rw (e, commit_delayed) (same_slots q q refl refl)
  | inr (true, e) ↦ rw (e, commit_delayed) (same_slots q q refl refl)
  | inr (false, e) ↦ rw (e, commit_delayed) (commit_unused-perm r task delay now q)
]

abbrev Delivers : List QueueTask → Round × MemoryQueue → Type 0
Delivers before (round, q) = Perm (if_returned round ++ held q) before

dequeue_open :
    (now : Time) (q : MemoryQueue) (l : List QueuedTask)
    → q.closed ≡ false
    → line now q ≡ l
    → Delivers (held q) (dequeue_round now q)
dequeue_open now q [] c e =
    rw (dequeue_round_none now q c e) (perm_of_eq (ap (map (λ x. x.task)) (in_line now q [] e)))
dequeue_open now q (x ∷ xs) c e =
    rw (dequeue_round_first now q x xs c e)
      (perm_of_eq (ap (map (λ x. x.task)) (in_line now q (x ∷ xs) e)))

dequeue-perm : (now : Time) (q : MemoryQueue) → Delivers (held q) (dequeue_round now q)
dequeue-perm now q = elim (Bool-cases q.closed) [
  | inl c ↦ rw (dequeue_round_closed now q c) (Perm.refl _)
  | inr c ↦ dequeue_open now q (line now q) c refl
]

step-perm :
    (q : MemoryQueue) (c : Call)
    → never_closes (c ∷ []) ≡ true
    → Perm (delivered q c ++ held (step q c)) (held q ++ accepted q c)
unfolding delivered accepted step never_closes
step-perm q reserves n = same_slots q (reserve q).1 (ready-reserve q).0 (ready-reserve q).1
step-perm q (commits r task delay now) n = commit-perm r task delay now q
step-perm q (releases r) n = same_slots q (release r q) (ready-release r q).0 (ready-release r q).1
step-perm q (dequeues now) n =
    Perm.trans (dequeue-perm now q) (perm_of_eq (sym (append-nil (held q))))
step-perm q closes n = cc

never_closes-parts :
    (c : Call) (cs : List Call)
    → never_closes (c ∷ cs) ≡ true
    → (never_closes (c ∷ []) ≡ true) × (never_closes cs ≡ true)
unfolding never_closes
never_closes-parts closes cs n = cc
never_closes-parts reserves cs n = (refl, n)
never_closes-parts (commits r task delay now) cs n = (refl, n)
never_closes-parts (releases r) cs n = (refl, n)
never_closes-parts (dequeues now) cs n = (refl, n)

-- One step's exchange, then the rest's.
regroup :
    {A : Type 0} (gone before added more rest_gone after middle : List A)
    → Perm (gone ++ middle) (before ++ added)
    → Perm (rest_gone ++ after) (middle ++ more)
    → Perm ((gone ++ rest_gone) ++ after) (before ++ (added ++ more))
regroup gone before added more rest_gone after middle h k =
    Perm.trans (perm_of_eq (append_assoc gone rest_gone after)) (
      Perm.trans (Perm.append_left gone k) (
        Perm.trans (perm_of_eq (sym (append_assoc gone middle more)))
          (Perm.trans (Perm.append_right more h) (perm_of_eq (append_assoc before added more)))))

-- Over any history without a Close, the tasks returned and the tasks still held are, as a multiset,
-- the tasks held at the start and the tasks whose commit succeeded: each is returned at most once,
-- and held until then.
pub exactly_once :
    (q : MemoryQueue) (cs : List Call)
    → never_closes cs ≡ true
    → Perm (all_delivered q cs ++ held (run q cs)) (held q ++ all_accepted q cs)
unfolding all_delivered all_accepted run
exactly_once q [] n = perm_of_eq (sym (append-nil (held q)))
exactly_once q (c ∷ cs) n =
    let parts = never_closes-parts c cs n in
    regroup (delivered q c) (held q) (accepted q c) (all_accepted (step q c) cs)
      (all_delivered (step q c) cs) (held (run (step q c) cs)) (held (step q c))
      (step-perm q c parts.0) (exactly_once (step q c) cs parts.1)
