-- ===== src/ThreadPool/Steps.antt =====
-- asio/internal/ThreadPool.h, class ThreadPool: the threads of a pool and its callers, interleaved.
use asio.Prelude.{
  ℕ, suc, ◌+◌, ◌≤◌, ◌≡◌, refl, sym, ap, ◌∙◌, true, false, List, [], ◌∷◌, ◌++◌, ◌==◌, length, arith,
  Bool-cases, inl, inr,
}
use asio.ThreadPool.{
  ThreadPool, queues, no_task, takes, new_pool, start, stop, is_full, run, take, take_from,
}

-- A pool with its threads: how many stand before the test of `running_` in `threadFunc`, how many are
-- in `take`, how many run a task and how many have ended. `accepted` and `taken` are the history: the
-- tasks that `run` queued and that `take` returned, in order.
pub record System (T : Type 0) : Type 0 where
  pub pool : ThreadPool T
  pub testing : ℕ
  pub taking : ℕ
  pub working : ℕ
  pub ended : ℕ
  pub accepted : List T
  pub taken : List T

-- A started pool.
unfoldable pub started : {T : Type 0} → ℕ → ℕ → System T
unfolding start
started n limit = record {
  pool = start (record (new_pool n) { max_queue_size = limit });
  testing = n;
  taking = 0;
  working = 0;
  ended = 0;
  accepted = [];
  taken = [];
}

module _ {T : Type 0} where
  -- One step of a thread or of a caller.
  pub data Step : System T → System T → Type 0 where
    enters :
        {s : System T} {n : ℕ}
        → s.pool.running ≡ true
        → s.testing ≡ suc n
        → Step s (record s { testing = n; taking = suc s.taking })
    ends :
        {s : System T} {n : ℕ}
        → s.pool.running ≡ false
        → s.testing ≡ suc n
        → Step s (record s { testing = n; ended = suc s.ended })
    takes_task :
        {s : System T} {n : ℕ} {t : T} {p : ThreadPool T}
        → s.taking ≡ suc n
        → take s.pool ≡ takes t p
        → Step s (record s {
          pool = p;
          taking = n;
          working = suc s.working;
          taken = s.taken ++ (t ∷ []);
        })
    takes_none :
        {s : System T} {n : ℕ}
        → s.taking ≡ suc n
        → take s.pool ≡ no_task
        → Step s (record s { taking = n; testing = suc s.testing })
    finishes :
        {s : System T} {n : ℕ}
        → s.working ≡ suc n
        → Step s (record s { working = n; testing = suc s.testing })
    queues_task :
        {s : System T} {p : ThreadPool T} (t : T)
        → run t s.pool ≡ queues p
        → Step s (record s { pool = p; accepted = s.accepted ++ (t ∷ []) })
    stops : {s : System T} → Step s (record s { pool = stop s.pool })

  -- Any number of steps.
  pub data Steps : System T → System T → Type 0 where
    none_yet : {s : System T} → Steps s s
    then_step : {s u v : System T} → Steps s u → Step u v → Steps s v

  -- What holds in every state: nothing that was accepted is lost or overtaken, the queue stays within
  -- its limit, and no thread is lost.
  pub record IsSound (n limit : ℕ) (s : System T) : Type 0 where
    pub in_order : s.accepted ≡ s.taken ++ s.pool.queue
    pub same_limit : s.pool.max_queue_size ≡ limit
    pub within : 1 ≤ limit → length s.pool.queue ≤ limit
    pub same_threads : s.testing + s.taking + s.working + s.ended ≡ n

  pub taken_front :
      (q : List T) (p p' : ThreadPool T) (t : T)
      → take_from q p ≡ takes t p'
      → (rest : List T) × (q ≡ t ∷ rest) × (p' ≡ record p { queue = rest })
  taken_front [] p p' t e = elim (Bool-cases p.running) [ inl h ↦ cc | inr h ↦ cc ]
  taken_front (x ∷ rest) p p' t e = (rest, cc, cc)

  pub queued_back :
      (t : T) (p p' : ThreadPool T)
      → run t p ≡ queues p'
      → (p' ≡ record p { queue = p.queue ++ (t ∷ []) }) × (p.running ≡ true) × (is_full p ≡ false)
  unfolding run
  queued_back t p p' e = elim (Bool-cases (p.threads == 0)) [
    | inl a ↦ cc
    | inr a ↦ elim (Bool-cases (is_full p)) [
      | inl b ↦ elim (Bool-cases p.running) [ inl c ↦ cc | inr c ↦ cc ]
      | inr b ↦ elim (Bool-cases p.running) [ inl c ↦ (cc, c, b) | inr c ↦ cc ]
    ]
  ]

  pub length_after : (q : List T) (t : T) → length (q ++ (t ∷ [])) ≡ suc (length q)
  length_after [] t = refl
  length_after (x ∷ q) t = ap suc (length_after q t)

  append_assoc : (xs ys zs : List T) → (xs ++ ys) ++ zs ≡ xs ++ (ys ++ zs)
  append_assoc [] ys zs = refl
  append_assoc (x ∷ xs) ys zs = ap (λ rest. x ∷ rest) (append_assoc xs ys zs)

  not_full :
      (p : ThreadPool T) (limit : ℕ)
      → p.max_queue_size ≡ limit
      → is_full p ≡ false
      → 1 ≤ limit
      → suc (length p.queue) ≤ limit
  unfolding is_full
  not_full p limit same h one = ground arith

  take-IsSound :
      (n limit k : ℕ) (s : System T) (t : T) (p : ThreadPool T)
      → IsSound n limit s
      → s.taking ≡ suc k
      → take s.pool ≡ takes t p
      → IsSound n limit
          (record s { pool = p; taking = k; working = suc s.working; taken = s.taken ++ (t ∷ []) })
  unfolding take
  take-IsSound n limit k s t p v e h =
      let (rest, front, eq) = taken_front s.pool.queue s.pool p t h in
      let q = ap (λ (x : ThreadPool T). x.queue) eq in
      record {
        in_order =
            v.in_order
            ∙ ap (λ xs. s.taken ++ xs) (front ∙ ap (λ xs. t ∷ xs) (sym q))
            ∙ sym (append_assoc s.taken (t ∷ []) p.queue);
        same_limit = ap (λ (x : ThreadPool T). x.max_queue_size) eq ∙ v.same_limit;
        within = λ one. omega (arith, ap length front, ap length q, v.within one);
        same_threads = omega (arith, e, v.same_threads);
      }

  queue-IsSound :
      (n limit : ℕ) (s : System T) (t : T) (p : ThreadPool T)
      → IsSound n limit s
      → run t s.pool ≡ queues p
      → IsSound n limit (record s { pool = p; accepted = s.accepted ++ (t ∷ []) })
  queue-IsSound n limit s t p v h =
      let (eq, on, free) = queued_back t s.pool p h in
      let q = ap (λ (x : ThreadPool T). x.queue) eq in
      record {
        in_order =
            ap (λ xs. xs ++ (t ∷ [])) v.in_order
            ∙ append_assoc s.taken s.pool.queue (t ∷ [])
            ∙ ap (λ xs. s.taken ++ xs) (sym q);
        same_limit = ap (λ (x : ThreadPool T). x.max_queue_size) eq ∙ v.same_limit;
        within = λ one. omega (
          arith,
          ap length q,
          length_after s.pool.queue t,
          not_full s.pool limit v.same_limit free one,
        );
        same_threads = v.same_threads;
      }

  Step-IsSound : (n limit : ℕ) (s u : System T) → IsSound n limit s → Step s u → IsSound n limit u
  unfolding stop
  Step-IsSound n limit s u v (enters r e) = record {
    in_order = v.in_order;
    same_limit = v.same_limit;
    within = v.within;
    same_threads = omega (arith, e, v.same_threads);
  }
  Step-IsSound n limit s u v (ends r e) = record {
    in_order = v.in_order;
    same_limit = v.same_limit;
    within = v.within;
    same_threads = omega (arith, e, v.same_threads);
  }
  Step-IsSound n limit s u v (takes_task {n = k} {t = t} {p = p} e h) =
      take-IsSound n limit k s t p v e h
  Step-IsSound n limit s u v (takes_none e h) = record {
    in_order = v.in_order;
    same_limit = v.same_limit;
    within = v.within;
    same_threads = omega (arith, e, v.same_threads);
  }
  Step-IsSound n limit s u v (finishes e) = record {
    in_order = v.in_order;
    same_limit = v.same_limit;
    within = v.within;
    same_threads = omega (arith, e, v.same_threads);
  }
  Step-IsSound n limit s u v (queues_task {p = p} t h) = queue-IsSound n limit s t p v h
  Step-IsSound n limit s u v stops = record {
    in_order = v.in_order;
    same_limit = v.same_limit;
    within = v.within;
    same_threads = v.same_threads;
  }

  -- In every state that a started pool of `n` threads reaches: the tasks that `run` queued are those
  -- that `take` returned, in the order of the calls, followed by the queue; the queue holds no more
  -- than the limit, where there is one; and each thread is before the test, in `take`, at work or ended.
  pub reached-IsSound : (n limit : ℕ) (s : System T) → Steps (started n limit) s → IsSound n limit s
  unfolding started start
  reached-IsSound n limit s none_yet = record {
    in_order = refl;
    same_limit = refl;
    within = λ one. omega arith;
    same_threads = omega arith;
  }
  reached-IsSound n limit s (then_step {u = u} before e) =
      Step-IsSound n limit u s (reached-IsSound n limit u before) e
