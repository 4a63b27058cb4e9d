-- ===== src/Lite/Queue/Added.antt =====
-- The one task that EnqueueDelayed of internal/lite/memory_queue.go adds to a queue.
use mathlib.Core.List.{Perm, perm_append_singleton}
use mathlib.Core.List.Perm
use mux_mail.Prelude.{ℕ, ◌+◌, ◌≡◌, refl, sym, ap, ◌∙◌, subst, some, List, [], ◌∷◌, ◌++◌, arith}
use mux_mail.Prelude.Int.{ℤ, pos_part}
use mux_mail.Lite.Time.{Time}
use mux_mail.Lite.Queue.{
  QueueTask, QueueError, MemoryQueue, Result, ok, err, reserve, commit_delayed, enqueue_delayed,
}
use mux_mail.Lite.Queue.Delivery.{held, if_ok, ready-reserve, commit-perm}

enqueue_delayed-ok :
    (task : QueueTask) (delay : ℤ) (now : Time) (q : MemoryQueue) (r : ℕ)
    → (reserve q).0 ≡ ok r
    → enqueue_delayed task delay now q ≡ commit_delayed (some r) task delay now (reserve q).1
unfolding enqueue_delayed
enqueue_delayed-ok task delay now q r o = rw (o, enqueue_delayed) refl

enqueue_delayed_err :
    (task : QueueTask) (delay : ℤ) (now : Time) (q : MemoryQueue) (e : QueueError)
    → (reserve q).0 ≡ err e
    → (enqueue_delayed task delay now q).0 ≡ err e
unfolding enqueue_delayed
enqueue_delayed_err task delay now q e o = rw (o, enqueue_delayed) refl

pub enqueue_delayed-perm :
    (task : QueueTask) (delay : ℤ) (now : Time) (q q' : MemoryQueue)
    → enqueue_delayed task delay now q ≡ (ok tt, q')
    → Perm (held q') (record task { available_at = now + pos_part delay } ∷ held q)
unfolding enqueue_delayed
enqueue_delayed-perm task delay now q q' h = by_slot (reserve q).0 refl
  where
    t : QueueTask
    t = record task { available_at = now + pos_part delay }

    kept : held (reserve q).1 ≡ held q
    kept = rw ((ready-reserve q).0, (ready-reserve q).1) refl

    committed :
        (r : ℕ)
        → commit_delayed (some r) task delay now (reserve q).1 ≡ (ok tt, q')
        → Perm (held q') (t ∷ held q)
    committed r e =
        let p =
          subst
            (λ (y : Result (Unit {0}) × MemoryQueue).
              Perm (held y.1) (held (reserve q).1 ++ if_ok y.0 t))
            e (commit-perm (some r) task delay now (reserve q).1) in
        Perm.trans (subst (λ l. Perm (held q') (l ++ t ∷ [])) kept p)
          (perm_append_singleton t (held q))

    by_slot : (x : Result ℕ) → (reserve q).0 ≡ x → Perm (held q') (t ∷ held q)
    by_slot (err e) o = absurd (cc (ap (λ p. p.0) h, enqueue_delayed_err task delay now q e o))
    by_slot (ok r) o = committed r (sym (enqueue_delayed-ok task delay now q r o) ∙ h)

abbrev plus : (QueueTask → ℕ) → QueueTask → ℕ → ℕ
plus f t n = f t + n

-- Two tasks are alike in every number when one can stand for the other in a queue.
pub added-eq :
    (f : QueueTask → ℕ) (x y : QueueTask) (ts : List QueueTask) → Perm (x ∷ ts) (y ∷ ts) → f x ≡ f y
added-eq f x y ts p =
    let e = Perm.foldr-eq (hlevel) (plus f) (λ a b n. omega arith) p 0 in omega (arith, e)
