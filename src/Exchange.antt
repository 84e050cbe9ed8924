-- ===== src/Exchange.antt =====
-- A request from a client to a server and back: asio/internal/AsioClient.cpp, asio/internal/Session.cpp,
-- asio/internal/TaskManager.cpp and asio/internal/AsioServer.cpp put together, with the network between
-- them, which hands the bytes of a write over in pieces.
pub mod Sends
pub mod Reading
pub mod Serving
pub mod Replying
pub mod Requesting
pub mod Parts
pub mod Answered
pub mod Publishing
mod Tests
use asio.Prelude.{
  ℕ, false, List, [], ◌∷◌, ◌++◌, Option, none, some, Bytes, Exec, ok, ◌>>=◌, nat_key,
}
use asio.Prelude.Assoc.{find}
use asio.Prelude.Int.{ℤ}
use asio.Package.{Package}
use asio.Platform.{Platform}
use asio.Session.{Session}
use asio.RequestMessage.{Answer}
use asio.AsioClient.{Client, Callback, on_written, do_read, do_response}
use asio.AsioClient.Connection.{Outside, run_tasks}
use asio.AsioServer.Server.{Service, AsioServer, runs_posted}
use asio.AsioServer.Server.Tasks.{on_session_read, run_pooled}

-- The bytes that are under way.
abbrev pub client_bytes : Option (Bytes × ℕ) → Bytes
client_bytes none = []
client_bytes (some (bytes, msg_id)) = bytes

abbrev pub flying : Option Bytes → Bytes
flying none = []
flying (some bytes) = bytes

abbrev pub session_bytes : Option Session → Bytes
session_bytes none = []
session_bytes (some s) = flying s.in_flight

module _ (env : Platform) {R D F : Type 0} where
  -- A client reads pieces, one after the other.
  unfoldable pub client_reads :
      List Bytes → Client env.Message R D F → Exec (Client env.Message R D F)
  client_reads [] c = ok c
  client_reads (piece ∷ pieces) c = do_read env (some piece) c >>= client_reads pieces

  -- The thread of `ioDoResponse_` takes all responses: the callbacks called.
  unfoldable pub take_responses :
      List (Package env.Message)
      → ℕ
      → Client env.Message R D F
      → List (Answer env.Message (Callback R)) × Client env.Message R D F
  take_responses [] now c = ([], c)
  take_responses (p ∷ ps) now c =
      let (out, effects, c') = do_response p now c in
      let (more, c'') = take_responses ps now c' in (out ++ more, c'')

module _ (env : Platform) {U W : Type 0} (limit : ℤ) (service : Service env.Message U W) where
  -- A session of a server reads pieces.
  unfoldable pub server_reads :
      ℕ → ℕ → List Bytes → AsioServer env.Message U W → Exec (AsioServer env.Message U W)
  server_reads now i [] server = ok server
  server_reads now i (piece ∷ pieces) server =
      on_session_read env limit service now (some piece) i server >>= server_reads now i pieces

  -- What a server does with the bytes of a request: the session `i` reads them, a thread of the pool
  -- runs the task, and the write that this posted is started.
  unfoldable pub serves :
      ℕ → ℕ → List Bytes → AsioServer env.Message U W → Exec (AsioServer env.Message U W)
  unfolding server_reads
  serves now i pieces server = do
    server1 ← server_reads now i pieces server
    server2 ← run_pooled env limit service now server1
    runs_posted i server2

module _ (env : Platform) {R D F U W : Type 0} (client_limit server_limit : ℤ)
    (outside : Outside env.Message) (service : Service env.Message U W)
    (to_server to_client : Bytes → List Bytes) where
  -- The whole way: the client writes, the server of its session `i` serves, the client's write ends,
  -- and the client reads and takes the responses. The times are those of the client and the server.
  unfoldable pub exchange :
      ℕ
      → ℕ
      → ℕ
      → Client env.Message R D F
      → AsioServer env.Message U W
      → Exec (
          (List (Answer env.Message (Callback R)) × Client env.Message R D F)
          × AsioServer env.Message U W)
  unfolding serves client_reads take_responses
  exchange now later i c server = do
    c1 ← run_tasks env client_limit outside c.tasks c
    server' ← serves env server_limit service later i (to_server (client_bytes c1.in_flight)) server
    c2 ← on_written env client_limit false now c1
    c3 ← client_reads env (to_client (session_bytes (find i server'.sessions))) c2
    ok (take_responses env c3.responses now (record c3 { responses = [] }), server')
