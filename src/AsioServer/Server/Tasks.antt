-- ===== src/AsioServer/Server/Tasks.antt =====
-- asio/internal/AsioServer.cpp, class AsioServer: publishing, delivering, and running the tasks of the
-- packages that a session reads (asio/internal/Session.cpp, asio/internal/TaskManager.cpp).
use asio.Prelude.{
  ℕ, zero, suc, Bool, true, false, List, [], ◌∷◌, Option, none, some, if◌then◌else◌, Bytes, Exec,
  ok, overrun, ◌>>=◌, nat_key, bytes_key,
}
use asio.Prelude.Assoc.{find}
use asio.Prelude.Int.{ℤ}
use asio.Package.{Package, new_package}
use asio.Platform.{Platform}
use asio.Session.{reply_message, publish_message, deliver_package, on_read}
use asio.SessionRoom.{
  Call, publishes, delivers, deliver_package_to, publish_message as room_publish,
  deliver_package as room_deliver,
}
use asio.TaskManager.{Job, handle_message}
use asio.MsgBus.{pre_handle_message}
use asio.AsioServer.{do_subscribe}
use asio.AsioServer.Server.{
  Task, subscribes, heartbeats, relays, advised, Service, AsioServer, put_session, with_found,
  update_session, leave_room,
}

module _ (env : Platform) {U W : Type 0} (limit : ℤ) where
  -- The calls that the room makes of its sessions, one after the other. Those that deliver a package
  -- share it, and each changes it.
  unfoldable pub make_calls :
      List (Call env.Message ℕ)
      → Package env.Message
      → AsioServer env.Message U W
      → Exec (Package env.Message × AsioServer env.Message U W)
  make_calls [] p server = ok (p, server)
  make_calls (publishes i msg ∷ calls) p server = do
    server' ← update_session i (publish_message env limit (some msg)) server
    make_calls calls p server'
  make_calls (delivers i q ∷ calls) p server = do
    r ← with_found (deliver_package env limit p) (find i server.sessions)
    make_calls calls r.0 (put_session i r.1 server)

  -- `publishMessage`; no package is shared.
  unfoldable pub publish :
      env.Message → AsioServer env.Message U W → Exec (AsioServer env.Message U W)
  unfolding make_calls
  publish msg server = do
    r ← make_calls (room_publish env msg server.room) (new_package env.Message) server
    ok r.1

  -- The two `deliverPackage`.
  unfoldable pub deliver :
      Package env.Message
      → AsioServer env.Message U W
      → Exec (Package env.Message × AsioServer env.Message U W)
  unfolding make_calls
  deliver p server = make_calls (room_deliver env p server.room) p server

  unfoldable pub deliver_to :
      ℕ
      → Package env.Message
      → AsioServer env.Message U W
      → Exec (Package env.Message × AsioServer env.Message U W)
  unfolding make_calls
  deliver_to i p server = make_calls (deliver_package_to env i p server.room).1 p server

  -- The call of the relay.
  unfoldable pub relay_package :
      ℕ
      → Package env.Message
      → AsioServer env.Message U W
      → Exec (Package env.Message × AsioServer env.Message U W)
  unfolding make_calls
  relay_package i p server =
      let h = pre_handle_message env server.room i p server.routes in
      make_calls h.calls h.pac (record server { routes = h.routes })

-- The queue of the worker `k`, and the workers with another queue there.
abbrev pub queue_at : {A : Type 0} → ℕ → List (List A) → List A
queue_at k [] = []
queue_at zero (q ∷ qs) = q
queue_at (suc k) (q ∷ qs) = queue_at k qs

abbrev pub with_queue : {A : Type 0} → ℕ → List A → List (List A) → List (List A)
with_queue k new [] = []
with_queue zero new (q ∷ qs) = new ∷ qs
with_queue (suc k) new (q ∷ qs) = q ∷ with_queue k new qs

abbrev pub is_error : Option Bytes → Bool
is_error none = true
is_error (some bytes) = false

module _ (env : Platform) {U W : Type 0} (limit : ℤ) (service : Service env.Message U W) where
  abbrev pub reply :
      ℕ
      → Package env.Message
      → env.Message
      → AsioServer env.Message U W
      → Exec (AsioServer env.Message U W)
  reply i req rsp server = update_session i (reply_message env limit (some req) (some rsp)) server

  -- `doSubscribe` with the message; the cast of a null pointer is read from.
  abbrev pub subscribe_with :
      ℕ
      → Package env.Message
      → Option env.Message
      → AsioServer env.Message U W
      → Exec (AsioServer env.Message U W)
  subscribe_with i req none server = overrun
  subscribe_with i req (some m) server =
      let (replies, room') = do_subscribe i (service.subscribe_fields m) server.room in
      if replies
      then reply i req (service.subscribe_rsp 0) (record server { room = room' })
      else ok (record server { room = room' })

  -- The lambda of `ADVISE_HANDLER`.
  abbrev pub call_method :
      U
      → ℕ
      → Package env.Message
      → Option env.Message
      → AsioServer env.Message U W
      → Exec (AsioServer env.Message U W)
  call_method u i req none server = overrun
  call_method u i req (some m) server =
      let (rsp, w) = service.method u m server.methods_state in
      reply i req rsp (record server { methods_state = w })

  -- A task runs, at a time: `doSubscribe`, `doHeartbeat`, the relay, or a method.
  unfoldable pub run_task :
      Task U
      → ℕ
      → ℕ
      → Package env.Message
      → AsioServer env.Message U W
      → Exec (AsioServer env.Message U W)
  run_task subscribes now i req server = subscribe_with i req req.msg_ptr server
  run_task heartbeats now i req server = reply i req (service.heartbeat_rsp now) server
  run_task relays now i req server = do r ← relay_package env limit i req server; ok r.1
  run_task (advised u) now i req server = call_method u i req req.msg_ptr server

  -- The call of `preTask_`, with the package as it is then.
  abbrev pub run_pre_task :
      Option (Task U)
      → ℕ
      → ℕ
      → Package env.Message
      → AsioServer env.Message U W
      → Exec (Package env.Message × AsioServer env.Message U W)
  run_pre_task none now i p server = ok (p, server)
  run_pre_task (some relays) now i p server = relay_package env limit i p server
  run_pre_task (some task) now i p server = do
    server' ← run_task task now i p server
    ok (p, server')

  -- `TaskManager::handleMessage`, with the effect of `preTask_`.
  unfoldable pub handle_package :
      ℕ → ℕ → Package env.Message → AsioServer env.Message U W → Exec (AsioServer env.Message U W)
  handle_package now i p server = do
    r ← run_pre_task server.task_manager.pre_task now i p server
    ok (record r.1 { task_manager = (handle_message (λ q. r.0) p i r.1.task_manager).1 })

  unfoldable pub handle_packages :
      ℕ
      → ℕ
      → List (Package env.Message)
      → AsioServer env.Message U W
      → Exec (AsioServer env.Message U W)
  unfolding handle_package
  handle_packages now i [] server = ok server
  handle_packages now i (p ∷ ps) server = handle_package now i p server >>= handle_packages now i ps

  -- The read handler of the session `i`.
  unfoldable pub on_session_read :
      ℕ → Option Bytes → ℕ → AsioServer env.Message U W → Exec (AsioServer env.Message U W)
  unfolding handle_packages
  on_session_read now bytes i server = do
    r ← with_found (on_read env bytes) (find i server.sessions)
    handle_packages now i r.0 (leave_room (is_error bytes) i (put_session i r.1 server))

  abbrev pub run_job :
      ℕ → Job (Task U) env.Message → AsioServer env.Message U W → Exec (AsioServer env.Message U W)
  run_job now job server = run_task job.handler now job.session job.pac server

  -- A thread of the pool takes the first of its jobs and runs it, and so does a worker.
  abbrev pub run_first :
      ℕ
      → List (Job (Task U) env.Message)
      → (List (Job (Task U) env.Message) → AsioServer env.Message U W)
      → Exec (AsioServer env.Message U W)
  run_first now [] left = ok (left [])
  run_first now (job ∷ rest) left = run_job now job (left rest)

  unfoldable pub run_pooled : ℕ → AsioServer env.Message U W → Exec (AsioServer env.Message U W)
  run_pooled now server =
      run_first now server.task_manager.pooled
        (λ rest. record server { task_manager = record server.task_manager { pooled = rest } })

  unfoldable pub run_worker : ℕ → ℕ → AsioServer env.Message U W → Exec (AsioServer env.Message U W)
  run_worker now k server = run_first now (queue_at k server.task_manager.workers) (λ rest.
      record server {
        task_manager = record server.task_manager {
          workers = with_queue k rest server.task_manager.workers;
        };
      })
