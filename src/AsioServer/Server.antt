-- ===== src/AsioServer/Server.antt =====
-- asio/internal/AsioServer.h and AsioServer.cpp, class AsioServer, with its sessions, the methods of
-- an asio/msgserver.h handler, and the relay of asio/msgbus.cpp: the server as one state. The sessions
-- are objects with ids; the room keeps pointers to them, which are the ids here.
pub mod Tasks
pub mod Events
pub mod Soundness
pub mod Turns
pub mod Invariant
pub mod Tests
use asio.Prelude.{
  ℕ, zero, suc, ◌+◌, ◌%◌, ◌^◌, Bool, true, false, List, [], ◌∷◌, ◌++◌, Option, none, some, leb,
  if◌then◌else◌, Bytes, Exec, ok, overrun, ◌>>=◌, nat_key, bytes_key,
}
use asio.Prelude.Assoc.{find, assign}
use asio.Prelude.Int.{ℤ}
use asio.Prelude.Words.{increment}
use asio.Package.{Package}
use asio.Platform.{Platform}
use asio.Session.{
  Session, new_session, start, run_posted, do_write, reply_message, publish_message,
  deliver_package, on_read,
}
use asio.SessionRoom.{
  SessionRoom, empty_room, join, leave, Call, publishes, delivers, deliver_package_to,
  publish_message as room_publish, deliver_package as room_deliver,
}
use asio.TaskManager.{
  TaskManager, Job, new_task_manager, add_handle_task, set_pre_handle_task, handle_message,
}
use asio.MsgBus.{Routes, Handled, pre_handle_message}
use asio.AsioServer.{SubscribeReq, do_subscribe}

-- A task of the server: its own two, the relay of the bus, or a method of a handler, as
-- `ADVISE_HANDLER` registers it.
pub data Task (U : Type 0) : Type 0 where
  subscribes : Task U
  heartbeats : Task U
  relays : Task U
  advised : U → Task U

-- What the server takes from the generated code and from the handlers: the names of the two requests
-- that it answers itself, the fields of a `SubscribeReq`, the two answers, and the methods, each of
-- which makes the response to a request and may change the handler's state.
pub record Service (M U W : Type 0) : Type 0 where
  pub subscribe_name : Bytes
  pub heartbeat_name : Bytes
  pub subscribe_fields : M → SubscribeReq
  pub subscribe_rsp : ℕ → M
  pub heartbeat_rsp : ℕ → M
  pub method : U → M → W → M × W

pub record AsioServer (M U W : Type 0) : Type 0 where
  pub task_manager : TaskManager (Task U) M
  pub room : SessionRoom ℕ
  pub sessions : List (ℕ × Session)
  -- `s_sessionIdInc`, the pattern of an `int`.
  pub next_session_id : ℕ
  -- `msgSessionCache_` of a bus.
  pub routes : Routes
  -- The state of the handlers.
  pub methods_state : W
  pub is_stopped : Bool

-- A method of the session that a pointer stands for; there is one.
abbrev pub with_found : {A : Type 0} → (Session → Exec A) → Option Session → Exec A
with_found act none = overrun
with_found act (some s) = act s

module _ {M U W : Type 0} where
  -- `init`.
  unfoldable pub init : Service M U W → TaskManager (Task U) M → TaskManager (Task U) M
  init service tm =
      add_handle_task service.heartbeat_name heartbeats
        (add_handle_task service.subscribe_name subscribes tm)

  -- The constructor; the port is left out.
  unfoldable pub new_server : Service M U W → W → ℕ → AsioServer M U W
  unfolding init
  new_server service w work_size = record {
    task_manager = init service (new_task_manager work_size);
    room = empty_room;
    sessions = [];
    next_session_id = 1;
    routes = [];
    methods_state = w;
    is_stopped = false;
  }

  -- `addHandleMessage`.
  unfoldable pub add_handle_message : Bytes → Task U → AsioServer M U W → AsioServer M U W
  add_handle_message name task server = record server {
    task_manager = add_handle_task name task server.task_manager;
  }

  -- `MsgServer::run` has each handler register its methods.
  unfoldable pub advise : List (Bytes × U) → AsioServer M U W → AsioServer M U W
  unfolding add_handle_message
  advise [] server = server
  advise ((name, u) ∷ rest) server = advise rest (add_handle_message name (advised u) server)

  -- `setPreHandleTask`, with the relay that the constructor of MsgBus gives it.
  unfoldable pub set_pre_handle_relay : AsioServer M U W → AsioServer M U W
  set_pre_handle_relay server = record server {
    task_manager = set_pre_handle_task (some relays) server.task_manager;
  }

  -- The handler of `startAccept`: a session with the next id, which joins the room and reads.
  unfoldable pub on_accept : Bool → AsioServer M U W → AsioServer M U W
  on_accept error server = if error then server else record server {
    sessions =
        assign server.next_session_id (start (new_session server.next_session_id)) server.sessions;
    room = join (λ i. i) (some server.next_session_id) server.room;
    next_session_id = increment server.next_session_id;
  }

  -- `stop`; what is queued on the io_service does not run any more.
  unfoldable pub stop : AsioServer M U W → AsioServer M U W
  stop server = record server { is_stopped = true }

  -- The session `i`, or what has become of it.
  abbrev pub put_session : ℕ → Session → AsioServer M U W → AsioServer M U W
  put_session i s server = record server { sessions = assign i s server.sessions }

  -- A call of a method that answers nothing.
  abbrev pub update_session :
      ℕ → (Session → Exec Session) → AsioServer M U W → Exec (AsioServer M U W)
  update_session i act server =
      with_found act (find i server.sessions) >>= λ s. ok (put_session i s server)

  -- Where the session has called `room_.leave`.
  abbrev pub leave_room : Bool → ℕ → AsioServer M U W → AsioServer M U W
  leave_room left i server =
      if left then record server { room = leave (λ j. j) (some i) server.room } else server

  -- `Session::doWrite` and the handler posted by `postPackage`.
  unfoldable pub on_written : Bool → ℕ → AsioServer M U W → Exec (AsioServer M U W)
  on_written error i server = do
    server' ← update_session i (λ s. ok (do_write error s)) server
    ok (leave_room error i server')

  unfoldable pub runs_posted : ℕ → AsioServer M U W → Exec (AsioServer M U W)
  runs_posted i server = update_session i (λ s. ok (run_posted s)) server
