-- ===== src/TaskManager/Order.antt =====
-- asio/internal/TaskManager.cpp, class TaskManager: the ordered messages of a session stay in order.
use asio.Prelude.{
  ℕ, zero, suc, ◌<◌, ◌≡◌, refl, sym, ap, ◌∙◌, Bool, true, false, List, [], ◌∷◌, ◌++◌, Option, none,
  some, ◌==◌, if◌then◌else◌, bytes_key, length, arith, Bool-cases, inl, inr, append-nil,
  append_assoc,
}
use native.Mathlib.Nat.{mod-lt}
use asio.Prelude.Words.{size_of_int}
use asio.Prelude.Assoc.{find}
use asio.Package.{Package, isorder}
use asio.TaskManager.{
  Job, TaskManager, the_job, seen_by, post_to, worker_of, hand_over, handle_message, pool_run,
  destory,
}

-- What happens to a task manager: a package of a session arrives, or `destory` is called.
pub data Event (M : Type 0) : Type 0 where
  arrives : ℕ → Package M → Event M
  stops : Event M

worker_of-below : (i n : ℕ) → 0 < n → worker_of i n < n
unfolding worker_of
worker_of-below i zero h = omega arith
worker_of-below i (suc n) h = mod-lt (size_of_int i) h

either_nil : {A : Type 0} (b : Bool) (xs : List A) → xs ≡ xs ++ (if b then [] else [])
either_nil true xs = sym (append-nil xs)
either_nil false xs = sym (append-nil xs)

module _ {H M : Type 0} (after_pre : Package M → Package M) where
  unfoldable pub handle_all : List (Event M) → TaskManager H M → TaskManager H M
  unfolding handle_message destory
  handle_all [] tm = tm
  handle_all (arrives i p ∷ es) tm = handle_all es (handle_message after_pre p i tm).1
  handle_all (stops ∷ es) tm = handle_all es (destory tm)

module _ {H M : Type 0} where
  -- The jobs of a session in a queue.
  unfoldable pub jobs_of : ℕ → List (Job H M) → List (Job H M)
  jobs_of i [] = []
  jobs_of i (j ∷ js) = if j.session == i then j ∷ jobs_of i js else jobs_of i js

  unfoldable pub queue_at : ℕ → List (List (Job H M)) → List (Job H M)
  queue_at k [] = []
  queue_at zero (q ∷ qs) = q
  queue_at (suc k) (q ∷ qs) = queue_at k qs

  jobs_of-append :
      (i : ℕ) (xs ys : List (Job H M)) → jobs_of i (xs ++ ys) ≡ jobs_of i xs ++ jobs_of i ys
  unfolding jobs_of
  jobs_of-append i [] ys = refl
  jobs_of-append i (x ∷ xs) ys = ground (arith, jobs_of-append i xs ys)

  length-post_to :
      (k : ℕ) (job : Job H M) (qs : List (List (Job H M))) → length (post_to k job qs) ≡ length qs
  unfolding post_to
  length-post_to k job [] = refl
  length-post_to zero job (q ∷ qs) = refl
  length-post_to (suc k) job (q ∷ qs) = ap suc (length-post_to k job qs)

  queue_at-post_to :
      (k l : ℕ) (job : Job H M) (qs : List (List (Job H M)))
      → k < length qs
      → queue_at l (post_to k job qs)
        ≡ (if k == l then queue_at l qs ++ (job ∷ []) else queue_at l qs)
  unfolding post_to queue_at
  queue_at-post_to k l job [] h = absurd (omega arith)
  queue_at-post_to zero zero job (q ∷ qs) h = refl
  queue_at-post_to zero (suc l) job (q ∷ qs) h = ground arith
  queue_at-post_to (suc k) zero job (q ∷ qs) h = ground arith
  queue_at-post_to (suc k) (suc l) job (q ∷ qs) h =
      ground (arith, queue_at-post_to k l job qs (omega arith))

  -- A job in a worker's queue, as one session sees it.
  jobs_of-post_to :
      (k v w : ℕ) (job : Job H M) (qs : List (List (Job H M)))
      → v < length qs
      → (job.session ≡ k → v ≡ w)
      → jobs_of k (queue_at w (post_to v job qs))
        ≡ jobs_of k (queue_at w qs) ++ (if job.session == k then job ∷ [] else [])
  unfolding jobs_of
  jobs_of-post_to k v w job qs h same =
      let e = ap (jobs_of k) (queue_at-post_to v w job qs h) in
      ground (
        arith,
        e,
        same,
        jobs_of-append k (queue_at w qs) (job ∷ []),
        append-nil (jobs_of k (queue_at w qs)),
      )

  -- The jobs that a message of a session comes to on its worker.
  unfoldable pub wanted_job : Option H → Package M → ℕ → List (Job H M)
  wanted_job none p i = []
  wanted_job (some h) p i = if isorder p.header == 0 then [] else the_job h i p ∷ []

  -- The jobs of one session, on its own worker.
  unfoldable pub ordered : ℕ → TaskManager H M → List (Job H M)
  ordered k tm = jobs_of k (queue_at (worker_of k (length tm.workers)) tm.workers)

  -- A message leaves the handlers, and the number of workers.
  unfoldable Same : TaskManager H M → TaskManager H M → Type 0
  Same tm tm' =
      (tm'.handlers ≡ tm.handlers)
      × (tm'.pre_task ≡ tm.pre_task)
      × (length tm'.workers ≡ length tm.workers)

  pool_run-Same : (job : Job H M) (tm : TaskManager H M) → Same tm (pool_run job tm)
  unfolding Same pool_run
  pool_run-Same job tm = elim (Bool-cases tm.pool_running) [
    | inl e ↦ rw e (refl, refl, refl)
    | inr e ↦ rw e (refl, refl, refl)
  ]

  destory-Same : (tm : TaskManager H M) → Same tm (destory tm)
  unfolding Same destory
  destory-Same tm = (refl, refl, refl)

  pool_run-workers : (job : Job H M) (tm : TaskManager H M) → (pool_run job tm).workers ≡ tm.workers
  unfolding pool_run
  pool_run-workers job tm = elim (Bool-cases tm.pool_running) [
    | inl e ↦ rw e refl
    | inr e ↦ rw e refl
  ]

  ordered-hand_over :
      (f : Option H) (i k : ℕ) (p : Package M) (tm : TaskManager H M)
      → 0 < length tm.workers
      → ordered k (hand_over f i p tm) ≡ ordered k tm ++ (if i == k then wanted_job f p i else [])
  unfolding wanted_job ordered
  ordered-hand_over none i k p tm h = either_nil (i == k) (ordered k tm)
  ordered-hand_over (some g) i k p tm h = elim (Bool-cases (isorder p.header == 0)) [
    | inl e ↦ rw (e, pool_run-workers (the_job g i p) tm) (either_nil (i == k) (ordered k tm))
    | inr e ↦
        rw (e, length-post_to (worker_of i (length tm.workers)) (the_job g i p) tm.workers)
          (jobs_of-post_to k (worker_of i (length tm.workers)) (worker_of k (length tm.workers))
            (the_job g i p) tm.workers (worker_of-below i (length tm.workers) h)
            (λ same. ap (λ x. worker_of x (length tm.workers)) same))
  ]

  -- What one session's arrivals come to, in their order.
  unfoldable pub wanted :
      (Package M → Package M) → ℕ → TaskManager H M → List (Event M) → List (Job H M)
  wanted after_pre k tm [] = []
  wanted after_pre k tm (stops ∷ es) = wanted after_pre k tm es
  wanted after_pre k tm (arrives i p ∷ es) =
      (if i == k
        then (let p' = seen_by after_pre tm.pre_task p in
            wanted_job (find p'.type_name tm.handlers) p' i)
        else [])
      ++ wanted after_pre k tm es

  hand_over-Same :
      (f : Option H) (i : ℕ) (p : Package M) (tm : TaskManager H M) → Same tm (hand_over f i p tm)
  unfolding Same
  hand_over-Same none i p tm = (refl, refl, refl)
  hand_over-Same (some g) i p tm = elim (Bool-cases (isorder p.header == 0)) [
    | inl e ↦ rw e (pool_run-Same (the_job g i p) tm)
    | inr e ↦
        rw e
          (refl, refl, length-post_to (worker_of i (length tm.workers)) (the_job g i p) tm.workers)
  ]

  enough : (tm tm' : TaskManager H M) → Same tm tm' → 0 < length tm.workers → 0 < length tm'.workers
  unfolding Same
  enough tm tm' s h = omega (arith, s.2, h)

  wanted-Same :
      (after_pre : Package M → Package M) (k : ℕ) (es : List (Event M)) (tm tm' : TaskManager H M)
      → Same tm tm'
      → wanted after_pre k tm' es ≡ wanted after_pre k tm es
  unfolding wanted Same
  wanted-Same after_pre k [] tm tm' s = refl
  wanted-Same after_pre k (stops ∷ es) tm tm' s = wanted-Same after_pre k es tm tm' s
  wanted-Same after_pre k (arrives i p ∷ es) tm tm' s =
      rw (s.0, s.1, wanted-Same after_pre k es tm tm' s) refl

  -- After any sequence of messages and stops of the pool, the ordered jobs of a session stand on one
  -- worker, in the order in which its messages arrived, behind those that stood there: each ordered
  -- message with a handler gives exactly one, and neither a message of another session nor a stop
  -- changes them.
  pub ordered_per_session :
      (after_pre : Package M → Package M) (k : ℕ) (es : List (Event M)) (tm : TaskManager H M)
      → 0 < length tm.workers
      → ordered k (handle_all after_pre es tm) ≡ ordered k tm ++ wanted after_pre k tm es
  unfolding wanted handle_all handle_message destory ordered
  ordered_per_session after_pre k [] tm h = sym (append-nil (ordered k tm))
  ordered_per_session after_pre k (stops ∷ es) tm h =
      ordered_per_session after_pre k es (destory tm) h
      ∙ ap (λ xs. ordered k (destory tm) ++ xs)
          (wanted-Same after_pre k es tm (destory tm) (destory-Same tm))
  ordered_per_session after_pre k (arrives i p ∷ es) tm h =
      let p' = seen_by after_pre tm.pre_task p in
      let f = find p'.type_name tm.handlers in
      let s = hand_over-Same f i p' tm in
      ordered_per_session after_pre k es (hand_over f i p' tm) (enough tm _ s h)
      ∙ ap (λ xs. ordered k (hand_over f i p' tm) ++ xs) (wanted-Same after_pre k es tm _ s)
      ∙ ap (λ xs. xs ++ wanted after_pre k tm es) (ordered-hand_over f i k p' tm h)
      ∙ append_assoc (ordered k tm) _ (wanted after_pre k tm es)
