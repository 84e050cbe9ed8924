-- ===== src/AsioClient/Connection.antt =====
-- asio/internal/AsioClient.cpp, class AsioClient: connecting, closing, subscribing, the heartbeat, and
-- all that can happen to a client as one step.
use asio.Prelude.{
  ℕ, ◌+◌, ◌%◌, ◌^◌, Bool, true, false, not, ◌&&◌, List, [], ◌∷◌, ◌++◌, Option, none, some, leb,
  if◌then◌else◌, Bytes, Exec, ok, overrun, thrown, ◌>>=◌, length,
}
use asio.Prelude.Int.{ℤ, pos, ltb_ℤ}
use asio.Package.{Package}
use asio.Platform.{Platform}
use asio.Handler.{Handler, subscriptions}
use asio.AsioClient.{
  user, Client, subscribe_answered, heartbeat_answered, Task, start_writes, closes, find_colon,
  address_at, close, post_package, publish_message, post_message, start_write, on_written,
  start_heartbeat_timer, do_read, on_timer, do_response,
}

-- What the connection takes from the outside: whether the resolver finds a host and a port (it throws
-- where it does not), and the two messages of the generated code: a `SubscribeReq` with these kinds
-- and names, and a `HeartbeatReq`.
pub record Outside (M : Type 0) : Type 0 where
  pub resolves : Bytes → Bytes → Bool
  pub subscribe_req : List (ℕ × Bytes) → M
  pub heartbeat_req : M

-- Sent to a client: the calls from other threads, and the handlers that its io_services run.
pub data Event (M R D F : Type 0) : Type 0 where
  starts : Event M R D F
  stops : Event M R D F
  adds_handler : Handler D F → Event M R D F
  posts_message : Bool → M → R → ℕ → ℕ → Event M R D F
  publishes : M → Event M R D F
  posts_package : Option (Package M) → Event M R D F
  runs_task : Event M R D F
  connected : Bool → ℕ → Event M R D F
  wrote : Bool → ℕ → Event M R D F
  reads : Option Bytes → Event M R D F
  takes_response : ℕ → Event M R D F
  times_out : ℕ → ℕ → Event M R D F
  beats : Bool → ℕ → Event M R D F

-- `kMsTimeout`.
abbrev pub ms_timeout_default : ℕ
ms_timeout_default = 5000

module _ {M R D F : Type 0} where
  unfoldable pub stop : Client M R D F → Client M R D F
  stop c = close (record c { is_stopped = true })

  -- `addHandler`.
  unfoldable pub add_handler : Handler D F → Client M R D F → Client M R D F
  add_handler h c = record c { handler_list = c.handler_list ++ (h ∷ []) }

  unfoldable pub take_response : List (Package M) → ℕ → Client M R D F → Client M R D F
  take_response [] now c = c
  take_response (p ∷ rest) now c = (do_response p now (record c { responses = rest })).2

-- The parts in front of and behind the first colon. Without one its index is -1, which makes both parts the
-- whole address; the assertion that there is a host is compiled out.
abbrev pub host_and_port : Bytes → Option (Bytes × Bytes) → Bytes × Bytes
host_and_port address none = (address, address)
host_and_port address (some parts) = parts

module _ (env : Platform) {R D F : Type 0} (outside : Outside env.Message) where
  -- The resolver throws where it finds nothing.
  abbrev pub dial : Bytes × Bytes → Client env.Message R D F → Exec (Client env.Message R D F)
  dial (host, port) c =
      if outside.resolves host port
      then ok (record c { connecting = some (host, port) })
      else thrown

  abbrev pub connect_to : Option Bytes → Client env.Message R D F → Exec (Client env.Message R D F)
  connect_to none c = overrun
  connect_to (some address) c = dial (host_and_port address (find_colon address)) c

  -- `connect`.
  unfoldable pub connect : Client env.Message R D F → Exec (Client env.Message R D F)
  connect c =
      let i = if leb (length c.address_list) c.address_index then 0 else c.address_index in
      connect_to (address_at c.address_list i) (record c { address_index = i })

  -- `startSubscribe`, with `handlerList_`.
  abbrev pub subscribe_to :
      List (Handler D F) → ℕ → Client env.Message R D F → Client env.Message R D F
  subscribe_to [] now c = c
  subscribe_to (h ∷ hs) now c =
      (post_message env false (outside.subscribe_req (subscriptions (h ∷ hs))) subscribe_answered
        ms_timeout_default now c).1

  unfoldable pub start_subscribe : ℕ → Client env.Message R D F → Client env.Message R D F
  start_subscribe now c = subscribe_to c.handler_list now c

  -- `doConnect`. The callback `connectSuccess_` is the user's.
  unfoldable pub do_connect : Bool → ℕ → Client env.Message R D F → Exec (Client env.Message R D F)
  unfolding connect start_subscribe
  do_connect error now c =
      let c' = record c { is_online = not error; is_open = not error; connecting = none } in
      let again = connect (record c' { address_index = (c'.address_index + 1) % 2 ^ 64 }) in
      if not error
      then ok (start_heartbeat_timer (start_subscribe now (record c' { is_reading = true })))
      else if ltb_ℤ (pos 0) c.reconnect_seconds
      then again
      else ok c'

  -- `doClose`.
  unfoldable pub do_close : Client env.Message R D F → Exec (Client env.Message R D F)
  unfolding connect
  do_close c =
      let c' = record c { is_open = false; is_online = false } in
      let again = connect c' in
      if not c.is_stopped && ltb_ℤ (pos 0) c.reconnect_seconds then again else ok c'

  -- `doHeartbeat`.
  unfoldable pub do_heartbeat : Bool → ℕ → Client env.Message R D F → Client env.Message R D F
  do_heartbeat error now c =
      let c' = record c { heartbeat_waits = false } in
      if error
      then c'
      else (post_message env false outside.heartbeat_req heartbeat_answered 10000 now c').1

  -- `start` and `stop`, less their threads.
  unfoldable pub start : Client env.Message R D F → Exec (Client env.Message R D F)
  unfolding connect
  start c = connect c

module _ (env : Platform) {R D F : Type 0} (limit : ℤ) (outside : Outside env.Message) where
  -- The task at the front of the queue runs, unless the io_service is stopped.
  abbrev pub run_task :
      Task env.Message → Client env.Message R D F → Exec (Client env.Message R D F)
  unfolding do_close
  run_task (start_writes p) c = start_write env limit p c
  run_task closes c = do_close env outside c

  unfoldable pub run_tasks :
      List (Task env.Message) → Client env.Message R D F → Exec (Client env.Message R D F)
  unfolding do_close
  run_tasks [] c = ok c
  run_tasks (t ∷ rest) c = if c.is_stopped then ok c else run_task t (record c { tasks = rest })

  unfoldable pub step :
      Event env.Message R D F → Client env.Message R D F → Exec (Client env.Message R D F)
  unfolding start do_connect run_tasks
  step starts c = start env outside c
  step stops c = ok (stop c)
  step (adds_handler h) c = ok (add_handler h c)
  step (posts_message o m r ms now) c = ok (post_message env o m (user r) ms now c).1
  step (publishes m) c = ok (publish_message env m c)
  step (posts_package p) c = ok (post_package p c).1
  step runs_task c = run_tasks c.tasks c
  step (connected error now) c = do_connect env outside error now c
  step (wrote error now) c = on_written env limit error now c
  step (reads bytes) c = do_read env bytes c
  step (takes_response now) c = ok (take_response c.responses now c)
  step (times_out i now) c = ok (on_timer i now c).1
  step (beats error now) c = ok (do_heartbeat env outside error now c)

  unfoldable pub run :
      List (Event env.Message R D F) → Client env.Message R D F → Exec (Client env.Message R D F)
  unfolding step
  run [] c = ok c
  run (e ∷ es) c = step e c >>= run es
