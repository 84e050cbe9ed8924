-- ===== src/Exchange/Tests.antt =====
-- A client and a server of byte-string messages, over a network that cuts after three bytes.
use asio.Prelude.{
  ℕ, true, false, ◌&&◌, ◌≡◌, refl, ap, ◌∙◌, List, [], ◌∷◌, ◌++◌, some, Bytes, ok, arith, append-nil,
  take, drop, take-append-drop, nat_key, bytes_key, bytes_beq,
}
use asio.Prelude.Assoc.{find}
use asio.Package.{pubsub}
use asio.SessionRoom.{SessionRoom, join, add_subscribe, ids_of}
use asio.SessionRoom.Subscriptions.{IsValid, Event, adds, run, step, subscribed, subscribed-run}
use asio.SessionRoom.Calls.{is_some}
use asio.AsioServer.Server.{new_server, on_accept}
use asio.AsioServer.Server.Tasks.{publish}
use asio.AsioServer.Server.Soundness.{IsSound, same_objects, on_accept-IsSound}
use asio.AsioServer.Server.Tests.{fresh-IsSound}
use asio.Exchange.Publishing.{same, Posted, publish-Posted}
use asio.Prelude.Int.{ℤ, pos}
use asio.Prelude.Words.{increment, rem_int_max}
use asio.Package.{success}
use asio.Platform.Sample.{sample, sample-IsLawful, sample_name}
use asio.Buffer.View.{make-IsValid, content-make}
use asio.ProtoHelp.{compress_content}
use asio.ProtoHelp.Samples.{hello, sample-Known}
use asio.Session.{Session, new_session}
use asio.AsioClient.{Client, user}
use asio.AsioClient.Tests.{fresh, outside}
use asio.TaskManager.{TaskManager}
use asio.AsioServer.Server.{Task, advised, AsioServer}
use asio.AsioServer.Server.Tests.{service, fresh as server}
use asio.Exchange.{exchange}
use asio.Exchange.Sends.{Travels}
use asio.Exchange.Serving.{server_with, idle}
use asio.Exchange.Requesting.{request_of, posted}
use asio.Exchange.Answered.{IsQuiet, Whole, response_read, request_read, request-answered}

abbrev large : ℤ
large = pos 1000

hello-Travels : Travels sample large hello
unfolding compress_content
hello-Travels = record {
  fresh = [];
  written = hello;
  known = sample-Known;
  serialized = refl;
  type_name_positive = omega arith;
  type_name_limit = omega arith;
  raw = omega arith;
  small = λ h. omega arith;
}

abbrev cuts : Bytes → List Bytes
cuts bytes = take 3 bytes ∷ drop 3 bytes ∷ []

cuts-Whole : Whole sample cuts
cuts-Whole bytes =
    ap (λ (t : Bytes). take 3 bytes ++ t) (append-nil (drop 3 bytes)) ∙ take-append-drop 3 bytes

abbrev tasks : TaskManager (Task ℕ) Bytes
tasks = record {
  pre_task = some (advised 1);
  handlers = (sample_name, advised 0) ∷ [];
  workers = [];
  pooled = [];
  pool_running = true;
}

abbrev sessions : List (ℕ × Session)
sessions = (4, new_session 4) ∷ []

session_there : find 4 sessions ≡ some (new_session 4)
unfolding find
session_there = refl

new_session-IsQuiet : IsQuiet (new_session 4)
new_session-IsQuiet = record {
  valid = make-IsValid 4096;
  nothing_read = content-make 4096;
  nothing_posted = refl;
  nothing_written = refl;
}

handler_there : find sample_name tasks.handlers ≡ some (advised 0)
unfolding find bytes_beq
handler_there = refl

request-answered_example :
    (c' : Client Bytes ℕ ℕ ℕ) × (server' : AsioServer Bytes ℕ ℕ) × (exchange sample large large
        outside service cuts cuts 5 6 4
        (posted sample hello (user 9) 1000 5 fresh)
        (server_with (idle tasks) sessions server)
      ≡ ok (
        (
          record {
            msg_id = rem_int_max (increment 0);
            res = user 9;
            error = success;
            request = request_of sample fresh hello;
            response = some (
                response_read sample large
                  (request_read sample large fresh hello hello-Travels)
                  hello
                  hello-Travels);
          }
              ∷ [],
          c',
        ),
        server',
      ))
    × (server'.methods_state ≡ server.methods_state)
request-answered_example =
    request-answered sample sample-IsLawful large large outside service cuts cuts hello (user 9)
      1000 5 6 4 fresh server tasks sessions (new_session 4) 0 hello-Travels hello-Travels
      cuts-Whole cuts-Whole (make-IsValid 4096) (content-make 4096) session_there
      new_session-IsQuiet handler_there

-- A server with two sessions, the second of which is subscribed to publications.
abbrev joined : AsioServer Bytes ℕ ℕ
joined = on_accept false (on_accept false server)

abbrev wishes : List (Event ℕ)
wishes = adds 1 pubsub sample_name ∷ []

abbrev room : SessionRoom ℕ
room = run same wishes joined.room

abbrev open_server : AsioServer Bytes ℕ ℕ
open_server = record joined { room = room }

open_server-IsSound : IsSound 3 open_server
unfolding run step add_subscribe
open_server-IsSound =
    same_objects 3 joined open_server
      (on_accept-IsSound 2 (on_accept false server) (omega arith)
        (on_accept-IsSound 1 server (omega arith) fresh-IsSound))
      refl refl refl (λ h. h)

empty-IsValid : IsValid joined.room
unfolding ids_of find server on_accept new_server join
empty-IsValid = record { subscribe_ascend = λ name. tt; deliver_ascend = λ name. tt }

room-IsValid : IsValid room
room-IsValid = (subscribed-run same pubsub sample_name 1 wishes joined.room empty-IsValid).0

publish-Posted_example :
    (server' : AsioServer Bytes ℕ ℕ) × (publish sample large hello open_server ≡ ok server')
    × ((j : ℕ) (s : Session)
        → find j open_server.sessions ≡ some s
        → Posted sample large hello hello-Travels
            (subscribed pubsub sample_name j open_server.room
              && is_some (find j open_server.room.session_cache))
            s
            (find j server'.sessions))
publish-Posted_example =
    publish-Posted sample large hello hello-Travels sample-IsLawful 3 open_server
      open_server-IsSound room-IsValid
