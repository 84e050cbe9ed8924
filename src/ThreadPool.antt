-- ===== src/ThreadPool.antt =====
-- asio/internal/ThreadPool.h, class ThreadPool. What runs under the lock in one go is a function of the
-- pool: the body of `run` and of `take` from a check of the waiting condition on. Where the condition
-- makes the caller wait, the function says so, and the caller tries again when it is woken.
pub mod Steps
pub mod Stop
mod Tests
use asio.Prelude.{
  ℕ, zero, suc, ◌+◌, ◌≤◌, ◌≡◌, Bool, true, false, not, ◌&&◌, List, [], ◌∷◌, ◌++◌, leb, ltb, ◌==◌,
  if◌then◌else◌, length,
}

-- `threads` is the number of `threads_`.
pub record ThreadPool (T : Type 0) : Type 0 where
  pub num : ℕ
  pub threads : ℕ
  pub queue : List T
  pub max_queue_size : ℕ
  pub running : Bool

-- What a call of `run` does: it runs the task itself, waits, gives the task up, or queues it.
pub data RunResult (T : Type 0) : Type 0 where
  runs_here : RunResult T
  run_waits : RunResult T
  gives_up : RunResult T
  queues : ThreadPool T → RunResult T

-- What a call of `take` does: it waits, returns an empty task, or returns a task.
pub data TakeResult (T : Type 0) : Type 0 where
  take_waits : TakeResult T
  no_task : TakeResult T
  takes : T → ThreadPool T → TakeResult T

module _ {T : Type 0} where
  -- The constructor.
  abbrev pub new_pool : ℕ → ThreadPool T
  new_pool n = record { num = n; threads = 0; queue = []; max_queue_size = 0; running = false }

  -- `setMaxQueueSize`.
  unfoldable pub set_max_queue_size : ℕ → ThreadPool T → ThreadPool T
  set_max_queue_size n p = record p { max_queue_size = n }

  -- `start`, on a pool without threads.
  unfoldable pub start : ThreadPool T → ThreadPool T
  start p = record p { running = true; threads = p.num }

  -- `stop`, before it joins the threads.
  unfoldable pub stop : ThreadPool T → ThreadPool T
  stop p = record p { running = false }

  -- `isFull`.
  unfoldable pub is_full : ThreadPool T → Bool
  is_full p = ltb 0 p.max_queue_size && leb p.max_queue_size (length p.queue)

  -- `run`.
  unfoldable pub run : T → ThreadPool T → RunResult T
  unfolding is_full
  run t p =
      if p.threads == 0
      then runs_here
      else if is_full p && p.running
      then run_waits
      else if not p.running
      then gives_up
      else queues (record p { queue = p.queue ++ (t ∷ []) })

  -- `take`, with the queue.
  abbrev pub take_from : List T → ThreadPool T → TakeResult T
  take_from [] p = if p.running then take_waits else no_task
  take_from (t ∷ rest) p = takes t (record p { queue = rest })

  unfoldable pub take : ThreadPool T → TakeResult T
  take p = take_from p.queue p
