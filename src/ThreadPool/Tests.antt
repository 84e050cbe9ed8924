-- ===== src/ThreadPool/Tests.antt =====
-- A pool with one thread, and the theorems about pools at concrete runs. A task is a number.
use asio.Prelude.{ℕ, ◌+◌, ◌≤◌, ◌≡◌, refl, true, false, [], ◌∷◌, length}
use asio.ThreadPool.{start, is_full, run, take}
use asio.ThreadPool.Steps.{
  System, Steps, enters, takes_task, queues_task, none_yet, then_step, started, IsSound,
  reached-IsSound,
}
use asio.ThreadPool.Stop.{after_stop}

abbrev queued : System ℕ
queued = record {
  pool = record { num = 1; threads = 1; queue = 7 ∷ []; max_queue_size = 1; running = true };
  testing = 0;
  taking = 1;
  working = 0;
  ended = 0;
  accepted = 7 ∷ [];
  taken = [];
}

abbrev taken_one : System ℕ
taken_one = record queued {
  pool = record { num = 1; threads = 1; queue = []; max_queue_size = 1; running = true };
  taking = 0;
  working = 1;
  taken = 7 ∷ [];
}

to_queued : Steps (started 1 1) queued
unfolding started start run is_full
to_queued = then_step (then_step none_yet (enters refl refl)) (queues_task 7 refl)

to_taken : Steps (started 1 1) taken_one
unfolding take
to_taken = then_step to_queued (takes_task refl refl)

reached-IsSound_example : IsSound 1 1 taken_one
reached-IsSound_example = reached-IsSound 1 1 taken_one to_taken

abbrev stopped : System ℕ
stopped = record queued {
  pool = record { num = 1; threads = 1; queue = 7 ∷ []; max_queue_size = 1; running = false };
}

abbrev drained : System ℕ
drained = record stopped {
  pool = record { num = 1; threads = 1; queue = []; max_queue_size = 1; running = false };
  taking = 0;
  working = 1;
  taken = 7 ∷ [];
}

to_drained : Steps stopped drained
unfolding take
to_drained = then_step none_yet (takes_task refl refl)

after_stop_example :
    (drained.accepted ≡ stopped.accepted)
    × (length drained.taken + drained.taking ≤ length stopped.taken + stopped.taking)
after_stop_example = after_stop stopped drained refl to_drained
