-- ===== src/TaskManager.antt =====
-- asio/internal/TaskManager.h and TaskManager.cpp, class TaskManager: which thread handles a package.
-- A handler is a value of a type `H`; a job is a handler with the session and the package that it is
-- called with. The queue of a worker is what was posted on its io_service, in order, and `pooled` is
-- what `ThreadPool::run` has queued, in order: the queue of the pool has no limit, so `run` does not wait.
pub mod Order
mod Tests
use asio.Prelude.{
  ℕ, zero, suc, ◌+◌, ◌%◌, ◌≡◌, Bool, true, false, List, [], ◌∷◌, ◌++◌, Option, none, some, ◌==◌,
  ltb, if◌then◌else◌, Bytes, bytes_key, length, replicate,
}
use asio.Prelude.Assoc.{find, assign}
use asio.Prelude.Words.{size_of_int}
use asio.Package.{Package, isorder}

-- The session of a job is its id, the pattern of an `int`.
pub record Job (H M : Type 0) : Type 0 where
  pub handler : H
  pub session : ℕ
  pub pac : Package M

pub record TaskManager (H M : Type 0) : Type 0 where
  pub pre_task : Option H
  pub handlers : List (Bytes × H)
  pub workers : List (List (Job H M))
  pub pooled : List (Job H M)
  pub pool_running : Bool

-- The worker of a session; without workers the job is dropped, as `post_to` does.
unfoldable pub worker_of : ℕ → ℕ → ℕ
worker_of i zero = 0
worker_of i (suc n) = size_of_int i % suc n

module _ {H M : Type 0} where
  -- The constructor: at least one worker.
  unfoldable pub new_task_manager : ℕ → TaskManager H M
  new_task_manager work_size = record {
    pre_task = none;
    handlers = [];
    workers = replicate (if ltb work_size 1 then 1 else work_size) [];
    pooled = [];
    pool_running = true;
  }

  -- `addHandleTask` and `setPreHandleTask`.
  unfoldable pub add_handle_task : Bytes → H → TaskManager H M → TaskManager H M
  add_handle_task name h tm = record tm { handlers = assign name h tm.handlers }

  unfoldable pub set_pre_handle_task : Option H → TaskManager H M → TaskManager H M
  set_pre_handle_task h tm = record tm { pre_task = h }

  -- `workers_[i]->io.post(job)`.
  unfoldable pub post_to : ℕ → Job H M → List (List (Job H M)) → List (List (Job H M))
  post_to i job [] = []
  post_to zero job (q ∷ qs) = (q ++ (job ∷ [])) ∷ qs
  post_to (suc i) job (q ∷ qs) = q ∷ post_to i job qs

  abbrev pub the_job : H → ℕ → Package M → Job H M
  the_job h i p = record { handler = h; session = i; pac = p }

  -- The call of `preTask_`, where there is one.
  abbrev pub pre_call : Option H → ℕ → Package M → List (Job H M)
  pre_call none i p = []
  pre_call (some h) i p = the_job h i p ∷ []

  -- `pool_->run(job)`, which gives the job up when the pool has been stopped.
  unfoldable pub pool_run : Job H M → TaskManager H M → TaskManager H M
  pool_run job tm = if tm.pool_running then record tm { pooled = tm.pooled ++ (job ∷ []) } else tm

  -- `destory`.
  unfoldable pub destory : TaskManager H M → TaskManager H M
  destory tm = record tm { pool_running = false }

  abbrev pub hand_over : Option H → ℕ → Package M → TaskManager H M → TaskManager H M
  hand_over none i p tm = tm
  hand_over (some h) i p tm =
      let job = the_job h i p in
      if isorder p.header == 0
      then pool_run job tm
      else record tm { workers = post_to (worker_of i (length tm.workers)) job tm.workers }

  abbrev pub seen_by : (Package M → Package M) → Option H → Package M → Package M
  seen_by after_pre none p = p
  seen_by after_pre (some h) p = after_pre p

  -- `handleMessage`, with the id of the session: the calls made at once, and the state. The call of
  -- `preTask_` can change the package, which is shared, and its type name, which is looked up by reference behind the
  -- call: `after_pre` is the package as it is then.
  unfoldable pub handle_message :
      (Package M → Package M) → Package M → ℕ → TaskManager H M → List (Job H M) × TaskManager H M
  handle_message after_pre p i tm =
      let p' = seen_by after_pre tm.pre_task p in
      (pre_call tm.pre_task i p, hand_over (find p'.type_name tm.handlers) i p' tm)
