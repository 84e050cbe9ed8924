-- ===== src/AsioClient/Stuck.antt =====
-- asio/internal/AsioClient.cpp, class AsioClient: what a failed write does to the client.
use asio.Prelude.{
  Leaves, Leaves-if, Leaves-then, ℕ, ◌≡◌, refl, sym, ap, ◌∙◌, append-nil, append_assoc, Bool, true,
  false, List, [], ◌∷◌, ◌++◌, Option, none, some, Bytes, Exec, ok, overrun, thrown, out_of_fuel,
  ◌>>=◌,
}
use asio.Prelude.Int.{ℤ}
use asio.Package.{Package}
use asio.Platform.{Platform}
use asio.ProtoHelp.{encode}
use asio.Buffer.{Buffer, make, initial_size}
use asio.AsioClient.{
  Client, user, Task, start_writes, closes, close, start_write, start_write_front, on_written,
  finish_write,
}
use asio.AsioClient.Connection.{
  Outside, Event, starts, stops, adds_handler, posts_message, publishes, posts_package, runs_task,
  connected, wrote, reads, takes_response, times_out, beats, start, stop, add_handler, run_tasks,
  step, run,
}
use asio.AsioClient.Writer.{
  writing, writing-post_package, writing-on_timer, Keeps, connect-Keeps, writing-post_message,
  writing-publish_message, do_connect-Keeps, do_close-Keeps, writing-do_heartbeat,
  writing-take_response, do_read-Keeps,
}

-- The packages `p ∷ ps` stand in front, in this order, whatever stands behind them, and no write is under
-- way.
unfoldable pub IsStuck :
    {M : Type 0} → Package M → List (Package M) → List (Package M) × Option (Bytes × ℕ) → Type 0
IsStuck {M} p ps (pending, flight) =
    ((later : List (Package M)) × (pending ≡ p ∷ (ps ++ later))) × (flight ≡ none)

-- Whether the writer is stuck behind them.
unfoldable pub Stuck : {M R D F : Type 0} → Package M → List (Package M) → Client M R D F → Type 0
Stuck p ps c = IsStuck p ps (writing c)

module _ (env : Platform) {R D F : Type 0} (limit : ℤ) (outside : Outside env.Message)
    (p : Package env.Message) (ps : List (Package env.Message)) where
  Keeps-Stuck :
      (c : Client env.Message R D F) (x : Exec (Client env.Message R D F))
      → Stuck p ps c
      → Keeps env outside c x
      → Leaves (Stuck p ps) x
  unfolding Keeps Leaves Stuck
  Keeps-Stuck c (ok d) s k = rw k s
  Keeps-Stuck c overrun s k = tt
  Keeps-Stuck c thrown s k = tt
  Keeps-Stuck c out_of_fuel s k = tt

  start_write-Stuck :
      (q : Package env.Message) (c : Client env.Message R D F)
      → Stuck p ps c
      → Leaves (Stuck p ps) (start_write env limit q c)
  unfolding start_write Leaves Stuck IsStuck
  start_write-Stuck q c ((later, e), idle) =
      rw e ((later ++ (q ∷ []), ap (λ t. p ∷ t) (append_assoc ps later (q ∷ []))), idle)

  run_tasks-Stuck :
      (ts : List (Task env.Message)) (c : Client env.Message R D F)
      → Stuck p ps c
      → Leaves (Stuck p ps) (run_tasks env limit outside ts c)
  unfolding run_tasks Leaves Stuck
  run_tasks-Stuck [] c s = s
  run_tasks-Stuck (closes ∷ ts) c s =
      Leaves-if (Stuck p ps) c.is_stopped _ _ s
        (Keeps-Stuck _ _ s (do_close-Keeps env outside (record c { tasks = ts })))
  run_tasks-Stuck (start_writes q ∷ ts) c s =
      Leaves-if (Stuck p ps) c.is_stopped _ _ s (start_write-Stuck q (record c { tasks = ts }) s)

  finish_write-Stuck :
      (f : Option (Bytes × ℕ)) (error : Bool) (now : ℕ) (c : Client env.Message R D F)
      → f ≡ none
      → Stuck p ps c
      → Leaves (Stuck p ps) (finish_write env limit f error now c)
  unfolding Leaves Stuck finish_write
  finish_write-Stuck none error now c e s = s
  finish_write-Stuck (some w) error now c e s = cc

  on_written-Stuck :
      (error : Bool) (now : ℕ) (c : Client env.Message R D F)
      → Stuck p ps c
      → Leaves (Stuck p ps) (on_written env limit error now c)
  unfolding on_written Stuck IsStuck
  on_written-Stuck error now c s = finish_write-Stuck c.in_flight error now c s.1 s

  step-Stuck :
      (e : Event env.Message R D F) (c : Client env.Message R D F)
      → Stuck p ps c
      → Leaves (Stuck p ps) (step env limit outside e c)
  unfolding step Leaves Stuck start stop close add_handler
  step-Stuck starts c s = Keeps-Stuck c _ s (connect-Keeps env outside c c refl)
  step-Stuck stops c s = s
  step-Stuck (adds_handler h) c s = s
  step-Stuck (posts_message o m r ms now) c s =
      rw (writing-post_message env outside o m (user r) ms now c) s
  step-Stuck (publishes m) c s = rw (writing-publish_message env outside m c) s
  step-Stuck (posts_package q) c s = rw (writing-post_package q c) s
  step-Stuck runs_task c s = run_tasks-Stuck c.tasks c s
  step-Stuck (connected error now) c s =
      Keeps-Stuck c _ s (do_connect-Keeps env outside error now c)
  step-Stuck (wrote error now) c s = on_written-Stuck error now c s
  step-Stuck (reads bytes) c s = Keeps-Stuck c _ s (do_read-Keeps env outside bytes c)
  step-Stuck (takes_response now) c s = rw (writing-take_response env outside c.responses now c) s
  step-Stuck (times_out i now) c s = rw (writing-on_timer i now c) s
  step-Stuck (beats error now) c s = rw (writing-do_heartbeat env outside error now c) s

  run-Stuck :
      (es : List (Event env.Message R D F)) (c : Client env.Message R D F)
      → Stuck p ps c
      → Leaves (Stuck p ps) (run env limit outside es c)
  unfolding run Leaves
  run-Stuck [] c s = s
  run-Stuck (e ∷ es) c s =
      Leaves-then (Stuck p ps) (Stuck p ps) (step env limit outside e c) (run env limit outside es)
        (step-Stuck e c s) (run-Stuck es)

  written-Stuck :
      (f : Option (Bytes × ℕ)) (now : ℕ) (c : Client env.Message R D F)
      → c.pending_list ≡ p ∷ ps
      → (w : Bytes × ℕ) × (f ≡ some w)
      → Leaves (Stuck p ps) (finish_write env limit f true now c)
  unfolding Leaves Stuck IsStuck close finish_write
  written-Stuck none now c q h = cc
  written-Stuck (some w) now c q h = (([], q ∙ ap (λ t. p ∷ t) (sym (append-nil ps))), refl)

  -- After a write that fails, nothing is ever written again: whatever else is called and whatever the
  -- io_service runs, a new connection included, in every state that is reached no write is under way, and
  -- all the packages of `pendingList_` at the failure still stand at its front, in their order.
  pub failed_write :
      (now : ℕ) (es : List (Event env.Message R D F)) (c : Client env.Message R D F)
      → c.pending_list ≡ p ∷ ps
      → (w : Bytes × ℕ) × (c.in_flight ≡ some w)
      → Leaves (Stuck p ps) (run env limit outside (wrote true now ∷ es) c)
  unfolding run step on_written
  failed_write now es c q h =
      Leaves-then (Stuck p ps) (Stuck p ps) (finish_write env limit c.in_flight true now c)
        (run env limit outside es) (written-Stuck c.in_flight now c q h) (run-Stuck es)

module _ (env : Platform) {R D F : Type 0} (limit : ℤ) (outside : Outside env.Message) where
  -- When a package that `encode` refuses is given to the writer, with nothing waiting and no write under
  -- way, nothing is ever written again: whatever else is called and whatever the io_service runs, in every
  -- state that is reached no write is under way, and that package, as `encode` left it, stands at the
  -- front of `pendingList_`.
  pub refused_package :
      (p q : Package env.Message) (b : Buffer) (es : List (Event env.Message R D F))
      (c : Client env.Message R D F)
      → encode env limit p (make initial_size) ≡ ok (false, q, b)
      → c.pending_list ≡ []
      → c.in_flight ≡ none
      → Leaves (Stuck q []) (start_write env limit p c >>= run env limit outside es)
  unfolding start_write start_write_front Leaves Stuck IsStuck
  refused_package p q b es c h empty idle =
      Leaves-then (Stuck q []) (Stuck q []) (start_write env limit p c) (run env limit outside es)
        (rw (empty, h) (([], refl), idle)) (run-Stuck env limit outside q [] es)
