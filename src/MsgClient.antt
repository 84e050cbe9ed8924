-- ===== src/MsgClient.antt =====
-- asio/msgclient.h and msgclient.cpp, class MsgClient, and asio/msgbus.cpp, class BusStub: a client with
-- its handlers. Both keep pointers to handlers that are in the list of the client, which are the places
-- in that list here.
use asio.Prelude.{
  ℕ, zero, suc, Bool, false, List, [], ◌∷◌, Option, none, some, Bytes, if◌then◌else◌,
}
use asio.Prelude.Int.{ℤ, pos}
use asio.Package.{ErrorCode, disconnect}
use asio.Platform.{Platform}
use asio.Buffer.{make, initial_size}
use asio.RequestMessage.Answers.{Event}
use asio.Handler.{Handler, deliver_handler, publish_handler, add_handle_deliver, add_handle_publish}
use asio.AsioClient.{Client, Callback, post_message, publish_message}
use asio.AsioClient.Connection.{add_handler}
use asio.AsioClient.Waiting.{send_message}

-- A handler of the list is changed through its pointer.
abbrev pub with_handler :
    {D F : Type 0} → (Handler D F → Handler D F) → ℕ → List (Handler D F) → List (Handler D F)
with_handler change i [] = []
with_handler change zero (h ∷ hs) = change h ∷ hs
with_handler change (suc i) (h ∷ hs) = h ∷ with_handler change i hs

module _ {M R D F : Type 0} where
  -- The constructor of AsioClient.
  abbrev pub new_client : List Bytes → ℤ → ℤ → Client M R D F
  new_client addresses reconnect_seconds heartbeat_seconds = record {
    address_index = 0;
    address_list = addresses;
    is_stopped = false;
    tasks = [];
    responses = [];
    is_open = false;
    connecting = none;
    is_reading = false;
    pending_list = [];
    in_flight = none;
    last_id = 0;
    reconnect_seconds = reconnect_seconds;
    heartbeat_seconds = heartbeat_seconds;
    heartbeat_waits = false;
    is_online = false;
    read_buffer = make initial_size;
    handler_list = [];
    cache = [];
  }

  -- The constructor of MsgClient, which adds its publish handler, and that of BusStub, which adds a
  -- deliver handler behind it.
  unfoldable pub new_msg_client : List Bytes → ℤ → Client M R D F
  unfolding add_handler
  new_msg_client addresses heartbeat_seconds =
      add_handler (publish_handler []) (new_client addresses (pos 1) heartbeat_seconds)

  unfoldable pub new_bus_stub : List Bytes → ℤ → Client M R D F
  unfolding add_handler
  new_bus_stub addresses heartbeat_seconds =
      add_handler (deliver_handler [])
        (add_handler (publish_handler []) (new_client addresses (pos 1) heartbeat_seconds))

  -- `addHandlePublish` of both, and `addHandleDeliver` of a stub.
  unfoldable pub handle_publish : Bytes → F → Client M R D F → Client M R D F
  unfolding add_handle_publish
  handle_publish name func c = record c {
    handler_list = with_handler (add_handle_publish name func) 0 c.handler_list;
  }

  unfoldable pub handle_deliver : Bytes → D → Client M R D F → Client M R D F
  unfolding add_handle_deliver
  handle_deliver name func c = record c {
    handler_list = with_handler (add_handle_deliver name func) 1 c.handler_list;
  }

module _ (env : Platform) {R D F : Type 0} where
  -- `postMessage`, and `postOrderMessage` where the first argument is true.
  unfoldable pub msg_client_post :
      Bool
      → env.Message
      → Callback R
      → ℕ
      → ℕ
      → Client env.Message R D F
      → ErrorCode × Client env.Message R D F
  msg_client_post is_order msg res ms_timeout now c =
      if c.is_stopped then (disconnect, c) else post_message env is_order msg res ms_timeout now c

  -- `sendMessage`, with what happens to the cache then.
  unfoldable pub msg_client_send :
      env.Message
      → Callback R
      → ℕ
      → ℕ
      → List (Event env.Message (Callback R))
      → Client env.Message R D F
      → Option (ErrorCode × Option env.Message)
  msg_client_send msg res ms_timeout now es c =
      if c.is_stopped then some (disconnect, none) else send_message env msg res ms_timeout now es c

  -- `BusStub::publishMessage`.
  abbrev pub stub_publish : env.Message → Client env.Message R D F → Client env.Message R D F
  stub_publish msg c = publish_message env msg c
