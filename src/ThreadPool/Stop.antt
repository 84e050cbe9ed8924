-- ===== src/ThreadPool/Stop.antt =====
-- asio/internal/ThreadPool.h, class ThreadPool: what the threads still do after `stop`.
use asio.Prelude.{◌+◌, ◌≤◌, ◌≡◌, refl, ap, ◌∙◌, false, length, arith}
use asio.ThreadPool.{ThreadPool, stop, take}
use asio.ThreadPool.Steps.{
  System, Step, Steps, enters, ends, takes_task, takes_none, finishes, queues_task, stops, none_yet,
  then_step, taken_front, queued_back, length_after,
}

module _ {T : Type 0} where
  unfoldable Stopped : System T → System T → Type 0
  Stopped s u =
      (u.pool.running ≡ false)
      × (u.accepted ≡ s.accepted)
      × (length u.taken + u.taking ≤ length s.taken + s.taking)

  Step-Stopped : (s u v : System T) → Stopped s u → Step u v → Stopped s v
  unfolding Stopped stop take
  Step-Stopped s u v (off, same, few) (enters r e) = cc
  Step-Stopped s u v (off, same, few) (ends r e) = (off, same, few)
  Step-Stopped s u v (off, same, few) (takes_task {t = t} {p = p} e h) =
      let (rest, front, eq) = taken_front u.pool.queue u.pool p t h in
      (
        ap (λ (x : ThreadPool T). x.running) eq ∙ off,
        same,
        omega (arith, length_after u.taken t, e, few),
      )
  Step-Stopped s u v (off, same, few) (takes_none e h) = (off, same, omega (arith, e, few))
  Step-Stopped s u v (off, same, few) (finishes e) = (off, same, few)
  Step-Stopped s u v (off, same, few) (queues_task {p = p} t h) =
      let (eq, on, free) = queued_back t u.pool p h in cc
  Step-Stopped s u v (off, same, few) stops = (refl, same, few)

  reached-Stopped : (s u : System T) → s.pool.running ≡ false → Steps s u → Stopped s u
  unfolding Stopped
  reached-Stopped s u off none_yet = (off, refl, omega arith)
  reached-Stopped s u off (then_step {u = w} before e) =
      Step-Stopped s w u (reached-Stopped s w off before) e

  -- Once the pool is stopped, no task is queued any more, and at most one task is still taken by each
  -- thread that was in `take` then. So tasks that were accepted can be left in the queue.
  pub after_stop :
      (s u : System T)
      → s.pool.running ≡ false
      → Steps s u
      → (u.accepted ≡ s.accepted) × (length u.taken + u.taking ≤ length s.taken + s.taking)
  unfolding Stopped
  after_stop s u off more = let r = reached-Stopped s u off more in (r.1, r.2)
