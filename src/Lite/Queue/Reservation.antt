-- ===== src/Lite/Queue/Reservation.antt =====
-- A reservation is a promise: the slot is kept until its holder uses it, and it can be used once.
use mux_mail.Prelude.{
  ℕ, zero, suc, ◌≡◌, Bool, true, false, not, ◌&&◌, none, some, List, [], ◌∷◌, ◌++◌, arith,
  get_elem?, get_elem?-append_last, set, ◌==◌, nat_eq,
}
use mux_mail.Prelude.Int.{ℤ}
use mux_mail.Lite.Time.{Time}
use mux_mail.Lite.Queue.{
  QueueTask, MemoryQueue, ok, reserve, commit_delayed, commit_unused, release, release_slot,
  enqueue_item, dequeue_round, move_ready_locked, take_ready,
}
use mux_mail.Lite.Queue.History.{Call, reserves, commits, releases, dequeues, closes, step, run}

-- No call in a history uses the reservation, and none closes the queue.
abbrev spares_call : ℕ → Call → Bool
spares_call r (commits (some s) task delay now) = not (s == r)
spares_call r (releases (some s)) = not (s == r)
spares_call r closes = false
spares_call r _ = true

unfoldable pub spares : ℕ → List Call → Bool
spares r [] = true
spares r (c ∷ cs) = spares_call r c && spares r cs

-- The reservation is open in an open queue.
pub record IsOpen (r : ℕ) (q : MemoryQueue) : Type 0 where
  pub open_queue : q.closed ≡ false
  pub unused : get_elem? q.reservations r ≡ some false

get_elem?-set_other :
    (xs : List Bool) (s r : ℕ) (v w : Bool)
    → (s == r) ≡ false
    → get_elem? xs r ≡ some v
    → get_elem? (set xs s w) r ≡ some v
get_elem?-set_other [] s r v w n h = h
get_elem?-set_other (x ∷ xs) zero zero v w n h = cc
get_elem?-set_other (x ∷ xs) zero (suc r) v w n h = h
get_elem?-set_other (x ∷ xs) (suc s) zero v w n h = h
get_elem?-set_other (x ∷ xs) (suc s) (suc r) v w n h =
    get_elem?-set_other xs s r v w (ground arith) h

get_elem?-append_left :
    (xs ys : List Bool) (r : ℕ) (v : Bool)
    → get_elem? xs r ≡ some v
    → get_elem? (xs ++ ys) r ≡ some v
get_elem?-append_left [] ys r v h = cc
get_elem?-append_left (x ∷ xs) ys zero v h = h
get_elem?-append_left (x ∷ xs) ys (suc r) v h = get_elem?-append_left xs ys r v h

reserve-IsOpen : (r : ℕ) (q : MemoryQueue) → IsOpen r q → IsOpen r (reserve q).1
unfolding reserve
reserve-IsOpen r q o = ground (arith, get_elem?-append_left q.reservations (false ∷ []) r false)

commit-IsOpen :
    (r s : ℕ) (task : QueueTask) (delay : ℤ) (now : Time) (q : MemoryQueue)
    → (s == r) ≡ false
    → IsOpen r q
    → IsOpen r (commit_delayed (some s) task delay now q).1
unfolding commit_delayed commit_unused release_slot enqueue_item
commit-IsOpen r s task delay now q n o =
    ground (arith, get_elem?-set_other q.reservations s r false true)

release-IsOpen :
    (r s : ℕ) (q : MemoryQueue) → (s == r) ≡ false → IsOpen r q → IsOpen r (release (some s) q)
unfolding release
release-IsOpen r s q n o = ground (arith, get_elem?-set_other q.reservations s r false true)

dequeue-IsOpen :
    (r : ℕ) (now : Time) (q : MemoryQueue) → IsOpen r q → IsOpen r (dequeue_round now q).1
unfolding dequeue_round move_ready_locked take_ready
dequeue-IsOpen r now q o = ground arith

step-IsOpen :
    (r : ℕ) (q : MemoryQueue) (c : Call) → spares_call r c ≡ true → IsOpen r q → IsOpen r (step q c)
unfolding step
step-IsOpen r q reserves s o = reserve-IsOpen r q o
step-IsOpen r q (commits none task delay now) s o = unfold commit_delayed in o
step-IsOpen r q (commits (some t) task delay now) s o =
    commit-IsOpen r t task delay now q (ground arith) o
step-IsOpen r q (releases none) s o = unfold release in o
step-IsOpen r q (releases (some t)) s o = release-IsOpen r t q (ground arith) o
step-IsOpen r q (dequeues now) s o = dequeue-IsOpen r now q o
step-IsOpen r q closes s o = cc

run-IsOpen :
    (r : ℕ) (q : MemoryQueue) (cs : List Call)
    → spares r cs ≡ true
    → IsOpen r q
    → IsOpen r (run q cs)
unfolding run spares
run-IsOpen r q [] s o = o
run-IsOpen r q (c ∷ cs) s o =
    run-IsOpen r (step q c) cs (ground arith) (step-IsOpen r q c (ground arith) o)

pub reserved-IsOpen : (q q' : MemoryQueue) (r : ℕ) → reserve q ≡ (ok r, q') → IsOpen r q'
unfolding reserve
reserved-IsOpen q q' r h = ground (arith, get_elem?-append_last q.reservations false)

pub commit-ok :
    (r : ℕ) (task : QueueTask) (delay : ℤ) (now : Time) (q : MemoryQueue)
    → IsOpen r q
    → (commit_delayed (some r) task delay now q).0 ≡ ok tt
unfolding commit_delayed commit_unused
commit-ok r task delay now q o = ground arith

-- A reservation that Reserve has granted is kept: whatever calls follow, other than its own commit or
-- release and a Close, its commit then succeeds, also in a queue that is full.
pub reserved_commit_ok :
    (q q' : MemoryQueue) (r : ℕ) (cs : List Call) (task : QueueTask) (delay : ℤ) (now : Time)
    → reserve q ≡ (ok r, q')
    → spares r cs ≡ true
    → (commit_delayed (some r) task delay now (run q' cs)).0 ≡ ok tt
reserved_commit_ok q q' r cs task delay now h s =
    commit-ok r task delay now (run q' cs) (run-IsOpen r q' cs s (reserved-IsOpen q q' r h))
