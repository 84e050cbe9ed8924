-- ===== src/AsioClient.antt =====
-- asio/internal/AsioClient.h and AsioClient.cpp, class AsioClient. Each handler of the client's
-- io_service, and each call from another thread, is a function of the state; what a handler starts is
-- kept in the state. The clock is an argument, and sleeping is left out.
pub mod Connection
pub mod Writer
pub mod Stuck
pub mod Order
pub mod Rotation
pub mod Requests
pub mod Waiting
pub mod Tests
use asio.Prelude.{
  ℕ, zero, suc, ◌+◌, ◌%◌, ◌^◌, Bool, true, false, not, List, [], ◌∷◌, ◌++◌, Option, none, some, ltb,
  leb, ◌==◌, if◌then◌else◌, Bytes, Exec, ok, overrun, thrown, ◌>>=◌, length, nat_key,
}
use asio.Prelude.Int.{ℤ, pos, ltb_ℤ}
use asio.Prelude.Words.{increment, rem_int_max}
use asio.Package.{
  Package, new_package, default_header, reqrep, pubsub, set_isorder, ErrorCode, success, params,
  service_stopped, disconnect, timeout,
}
use asio.Platform.{Platform}
use asio.Buffer.{Buffer, make, append, content, readable_bytes, initial_size}
use asio.ProtoHelp.{encode}
use asio.Session.{read_loop, pop_front}
use asio.RequestMessage.{Cache, Answer, put, start_timer, on_timeout, on_response}
use asio.Handler.{Handler, Effect, on_packages, subscriptions}

-- A `Response` callback: the user's, or one of the two that the client makes itself.
pub data Callback (R : Type 0) : Type 0 where
  user : R → Callback R
  subscribe_answered : Callback R
  heartbeat_answered : Callback R

-- What `io_.post` has queued: `startWrite` with a package, or `doClose`.
pub data Task (M : Type 0) : Type 0 where
  start_writes : Package M → Task M
  closes : Task M

pub record Client (M R D F : Type 0) : Type 0 where
  pub address_index : ℕ
  pub address_list : List Bytes
  pub is_stopped : Bool
  pub tasks : List (Task M)
  -- Packages for `doResponse`, queued on `ioDoResponse_`.
  pub responses : List (Package M)
  pub is_open : Bool
  -- The host and the port of the `async_connect` that is under way.
  pub connecting : Option (Bytes × Bytes)
  pub is_reading : Bool
  pub pending_list : List (Package M)
  -- The `async_write` that is under way: its bytes and the message id.
  pub in_flight : Option (Bytes × ℕ)
  -- `id_`, the pattern of an `int`.
  pub last_id : ℕ
  pub reconnect_seconds : ℤ
  pub heartbeat_seconds : ℤ
  pub heartbeat_waits : Bool
  pub is_online : Bool
  pub read_buffer : Buffer
  pub handler_list : List (Handler D F)
  pub cache : Cache M (Callback R)

-- A `':'` and its position in an address.
unfoldable pub find_colon : Bytes → Option (Bytes × Bytes)
find_colon [] = none
find_colon (c ∷ cs) =
    let rest = find_colon cs in
    if c == b':'
    then some ([], cs)
    else elim rest [ none ↦ none | some (host, port) ↦ some (c ∷ host, port) ]

-- `addressList_[i]`.
unfoldable pub address_at : List Bytes → ℕ → Option Bytes
address_at [] i = none
address_at (a ∷ rest) zero = some a
address_at (a ∷ rest) (suc i) = address_at rest i

module _ {M R D F : Type 0} where
  -- `close`.
  unfoldable pub close : Client M R D F → Client M R D F
  close c = record c { tasks = c.tasks ++ (closes ∷ []) }

  -- `postPackage`; `none` is a null pointer.
  unfoldable pub post_package : Option (Package M) → Client M R D F → ErrorCode × Client M R D F
  post_package none c = (params, c)
  post_package (some p) c =
      if c.is_stopped
      then (service_stopped, c)
      else if not c.is_online
      then (disconnect, c)
      else (success, record c { tasks = c.tasks ++ (start_writes p ∷ []) })

  -- `startHeartbeatTimer`.
  unfoldable pub start_heartbeat_timer : Client M R D F → Client M R D F
  start_heartbeat_timer c =
      if ltb_ℤ (pos 0) c.heartbeat_seconds then record c { heartbeat_waits = true } else c

  -- Sets the timer again where the heartbeat's callback was called.
  abbrev pub rearm_one : Callback R → Client M R D F → Client M R D F
  rearm_one (user r) c = c
  rearm_one subscribe_answered c = c
  rearm_one heartbeat_answered c = record c { heartbeat_waits = true }

  abbrev pub rearm : List (Answer M (Callback R)) → Client M R D F → Client M R D F
  rearm [] c = c
  rearm (a ∷ rest) c = rearm rest (rearm_one a.res c)

  -- The end of a timer that `startTimer` set: `RequestMessage::onTimeout`.
  unfoldable pub on_timer : ℕ → ℕ → Client M R D F → List (Answer M (Callback R)) × Client M R D F
  on_timer i now c =
      let (out, cache') = on_timeout i now c.cache in (out, rearm out (record c { cache = cache' }))

  -- `doResponse`: the callbacks called, and what the handlers do.
  unfoldable pub do_response :
      Package M
      → ℕ
      → Client M R D F
      → List (Answer M (Callback R)) × List (Effect M D F) × Client M R D F
  do_response pack now c =
      if pack.header.msg_type == reqrep
      then (let (out, cache') = on_response pack now c.cache in
          (out, [], rearm out (record c { cache = cache' })))
      else ([], on_packages pack c.handler_list, c)

  -- The handler of `async_write`.
  abbrev pub written : ℕ → ℕ → Client M R D F → Client M R D F
  written msg_id now c = record c { in_flight = none; cache = start_timer msg_id now c.cache }

module _ (env : Platform) where
  -- The package that a message is sent in.
  abbrev pub outgoing : ℕ → ℕ → ℕ → env.Message → Package env.Message
  outgoing msg_type next is_order msg = record (new_package env.Message) {
    header = set_isorder is_order (record default_header {
      msg_type = msg_type;
      msg_id = rem_int_max next;
      type_name_len = length (env.type_name_of msg) % 2 ^ 16;
    });
    type_name = env.type_name_of msg;
    msg_ptr = some msg;
  }

module _ (env : Platform) {R D F : Type 0} where
  -- `publishMessage`.
  unfoldable pub publish_message : env.Message → Client env.Message R D F → Client env.Message R D F
  unfolding post_package
  publish_message msg c =
      let next = increment c.last_id in
      (post_package (some (outgoing env pubsub next 0 msg)) (record c { last_id = next })).1

  -- `postMessage`, and `postOrderMessage` where the first argument is true.
  unfoldable pub post_message :
      Bool
      → env.Message
      → Callback R
      → ℕ
      → ℕ
      → Client env.Message R D F
      → ErrorCode × Client env.Message R D F
  unfolding post_package
  post_message is_order msg res ms_timeout now c =
      let next = increment c.last_id in
      let p = outgoing env reqrep next (if is_order then 1 else 0) msg in
      post_package (some p) (record c { last_id = next; cache = put p res ms_timeout now c.cache })

module _ (env : Platform) {R D F : Type 0} (limit : ℤ) where
  -- `startWrite()`. `front` of an empty deque is undefined.
  abbrev pub write_encoded :
      List (Package env.Message)
      → ℕ
      → Client env.Message R D F
      → Bool × Package env.Message × Buffer
      → Client env.Message R D F
  write_encoded rest msg_id c (true, p, b) = record c {
    pending_list = p ∷ rest;
    in_flight = some (content b, msg_id);
  }
  write_encoded rest msg_id c (false, p, b) = record c { pending_list = p ∷ rest }

  unfoldable pub start_write_front : Client env.Message R D F → Exec (Client env.Message R D F)
  start_write_front c = elim c.pending_list [
    | [] ↦ overrun
    | p ∷ rest ↦ (do
      r ← encode env limit p (make initial_size)
      ok (write_encoded rest p.header.msg_id c r))
  ]

  -- `startWrite(pacPtr)`.
  unfoldable pub start_write :
      Package env.Message → Client env.Message R D F → Exec (Client env.Message R D F)
  unfolding start_write_front
  start_write p c = elim c.pending_list [
    | [] ↦ start_write_front (record c { pending_list = p ∷ [] })
    | q ∷ rest ↦ ok (record c { pending_list = (q ∷ rest) ++ (p ∷ []) })
  ]

  unfoldable pub write_next :
      List (Package env.Message) → Client env.Message R D F → Exec (Client env.Message R D F)
  write_next [] c = ok c
  write_next (p ∷ rest) c = start_write_front c

  unfoldable pub finish_write :
      Option (Bytes × ℕ) → Bool → ℕ → Client env.Message R D F → Exec (Client env.Message R D F)
  unfolding close
  finish_write none error now c = ok c
  finish_write (some (bytes, msg_id)) true now c = ok (close (written msg_id now c))
  finish_write (some (bytes, msg_id)) false now c =
      write_next (pop_front c.pending_list)
        (record (written msg_id now c) { pending_list = pop_front c.pending_list })

  unfoldable pub on_written : Bool → ℕ → Client env.Message R D F → Exec (Client env.Message R D F)
  unfolding finish_write
  on_written error now c = finish_write c.in_flight error now c

module _ (env : Platform) {R D F : Type 0} where
  -- `doRead`, with the bytes read or with an error (`none`).
  unfoldable pub do_read : Option Bytes → Client env.Message R D F → Exec (Client env.Message R D F)
  unfolding close
  do_read none c = ok (close (record c { is_reading = false }))
  do_read (some bytes) c = do
    let filled = append bytes c.read_buffer
    r ← read_loop env (suc (readable_bytes filled)) filled
    ok (record c { responses = c.responses ++ r.0; read_buffer = r.1; is_reading = true })
