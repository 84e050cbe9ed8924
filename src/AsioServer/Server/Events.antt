-- ===== src/AsioServer/Server/Events.antt =====
-- asio/internal/AsioServer.cpp, class AsioServer: all that can happen to a server, as one step.
use asio.Prelude.{ℕ, Bool, List, [], ◌∷◌, Option, Bytes, Exec, ok, ◌>>=◌, if◌then◌else◌}
use asio.Prelude.Int.{ℤ}
use asio.Package.{Package}
use asio.Platform.{Platform}
use asio.AsioServer.Server.{
  Task, Service, AsioServer, add_handle_message, set_pre_handle_relay, on_accept, on_written,
  runs_posted, stop,
}
use asio.AsioServer.Server.Tasks.{
  publish, deliver, deliver_to, on_session_read, run_pooled, run_worker,
}

-- The calls from other threads, the handlers of the io_service, and the turns of the threads that run
-- tasks; what depends on the time takes it.
pub data Event (M U : Type 0) : Type 0 where
  adds : Bytes → Task U → Event M U
  sets_relay : Event M U
  accepts : Bool → Event M U
  reads : ℕ → Option Bytes → ℕ → Event M U
  writes : Bool → ℕ → Event M U
  runs_posts : ℕ → Event M U
  pool_turn : ℕ → Event M U
  worker_turn : ℕ → ℕ → Event M U
  publishes_message : M → Event M U
  delivers_package : Package M → Event M U
  delivers_to : ℕ → Package M → Event M U
  stops : Event M U

module _ (env : Platform) {U W : Type 0} (limit : ℤ) (service : Service env.Message U W) where
  -- A handler of the io_service runs unless it is stopped.
  abbrev pub unless_stopped :
      Exec (AsioServer env.Message U W)
      → AsioServer env.Message U W
      → Exec (AsioServer env.Message U W)
  unless_stopped after server = if server.is_stopped then ok server else after

  unfoldable pub step :
      Event env.Message U → AsioServer env.Message U W → Exec (AsioServer env.Message U W)
  step (adds name task) server = ok (add_handle_message name task server)
  step sets_relay server = ok (set_pre_handle_relay server)
  step (accepts error) server = unless_stopped (ok (on_accept error server)) server
  step (reads now bytes i) server =
      unless_stopped (on_session_read env limit service now bytes i server) server
  step (writes error i) server = unless_stopped (on_written error i server) server
  step (runs_posts i) server = unless_stopped (runs_posted i server) server
  step (pool_turn now) server = run_pooled env limit service now server
  step (worker_turn now k) server = run_worker env limit service now k server
  step (publishes_message msg) server = publish env limit msg server
  step (delivers_package p) server = do r ← deliver env limit p server; ok r.1
  step (delivers_to i p) server = do r ← deliver_to env limit i p server; ok r.1
  step stops server = ok (stop server)

  unfoldable pub run :
      List (Event env.Message U) → AsioServer env.Message U W → Exec (AsioServer env.Message U W)
  unfolding step
  run [] server = ok server
  run (e ∷ es) server = step e server >>= run es
