-- ===== src/Exchange/Answered.antt =====
-- asio/internal/AsioClient.cpp and asio/internal/AsioServer.cpp: a request is answered.
use asio.Prelude.{
  ℕ, ◌≡◌, refl, sym, ap, ◌∙◌, List, [], ◌∷◌, ◌++◌, some, Bytes, ok, arith, append-nil, nat_key,
  bytes_key,
}
use mathlib.Core.Path.{subst}
use asio.Prelude.Assoc.{find}
use asio.Prelude.Int.{ℤ}
use asio.Prelude.Words.{increment, rem_int_max}
use asio.Package.{Package, success}
use asio.Platform.{Platform, IsLawful}
use asio.Buffer.{Buffer, content}
use asio.Buffer.View.{IsValid}
use asio.ProtoHelp.{sized_header}
use asio.ProtoHelp.RoundTrip.{received}
use asio.RequestMessage.{Answer}
use asio.RequestMessage.Answers.{held}
use asio.Session.{Session}
use asio.Session.Stream.{join, any_pieces}
use asio.AsioClient.{Client, Callback}
use asio.AsioClient.Connection.{Outside}
use asio.TaskManager.{TaskManager}
use asio.AsioServer.Server.{Task, advised, Service, AsioServer}
use asio.Exchange.{exchange}
use asio.Exchange.Sends.{Sends, Travels, Travels-Sends}
use asio.Exchange.Serving.{server_with, idle}
use asio.Exchange.Replying.{reply_package, serves-replies}
use asio.Exchange.Parts.{take_response-answers, exchange-parts, client_reads-one}
use asio.Exchange.Requesting.{
  sized-Fits, request_of, request-Fits, posted, writes, run_tasks-writes, waits, on_written-waits,
  held-waits, waits-responses, waits-read_buffer,
}

-- A connection end with nothing to read and nothing to write.
pub record IsQuiet (s : Session) : Type 0 where
  pub valid : IsValid s.read_buffer
  pub nothing_read : content s.read_buffer ≡ []
  pub nothing_posted : s.posted ≡ []
  pub nothing_written : s.write_deque ≡ []

-- What the client makes of the response to a package that the server has read.
abbrev pub response_read :
    (env : Platform) (limit : ℤ) (q : Package env.Message) (rsp : env.Message)
    → Travels env limit rsp
    → Package env.Message
response_read env limit q rsp t = received env (reply_package env limit q rsp) rsp t.written

-- The network hands over what is written, in any pieces.
abbrev pub Whole : Platform → (Bytes → List Bytes) → Type 0
Whole env cut = (bytes : Bytes) → join env (cut bytes) ≡ bytes

module _ (env : Platform) {R D F : Type 0} (client_limit : ℤ) (c : Client env.Message R D F)
    (m : env.Message) (t : Travels env client_limit m) where
  -- What the server makes of a request that it has read.
  abbrev pub request_read : Package env.Message
  request_read = received env (request_of env c m) m t.written

  request-Sends : IsLawful env → Sends env client_limit (request_of env c m) request_read
  request-Sends law =
      Travels-Sends env client_limit law (request_of env c m) m t refl refl (request-Fits env c m)
        (omega arith)

  response-Sends :
      (law : IsLawful env) (server_limit : ℤ) (rsp : env.Message)
      (t' : Travels env server_limit rsp)
      → Sends env server_limit
          (reply_package env server_limit request_read rsp)
          (response_read env server_limit request_read rsp t')
  unfolding sized_header
  response-Sends law server_limit rsp t' =
      Travels-Sends env server_limit law (reply_package env server_limit request_read rsp) rsp t'
        refl refl (sized-Fits env (request_of env c m).header m t.written (request-Fits env c m))
        (omega arith)

-- A client that is online and has nothing else to do posts a message. It goes to a server of which
-- the session is quiet and which has no other task, and which has a method for messages of that type.
-- Both networks cut what is written in any way. Then the method is called once with the message, and
-- the client calls the callback of the message once, without an error, with its own request and a
-- response that carries what the method made; nothing on the way overruns, throws or does not end.
-- The message and the response are known to the other side and not too long to be sent.
pub request-answered :
    (env : Platform) {R D F U W : Type 0} (law : IsLawful env) (client_limit server_limit : ℤ)
    (outside : Outside env.Message) (service : Service env.Message U W)
    (to_server to_client : Bytes → List Bytes) (m : env.Message) (r : Callback R)
    (ms now later i : ℕ) (c : Client env.Message R D F) (server : AsioServer env.Message U W)
    (tm : TaskManager (Task U) env.Message) (sessions : List (ℕ × Session)) (s : Session) (u : U)
    (t : Travels env client_limit m)
    (t' : Travels env server_limit (service.method u m server.methods_state).0)
    → Whole env to_server
    → Whole env to_client
    → IsValid c.read_buffer
    → content c.read_buffer ≡ []
    → find i sessions ≡ some s
    → IsQuiet s
    → find (env.type_name_of m) tm.handlers ≡ some (advised u)
    → (c' : Client env.Message R D F) × (server' : AsioServer env.Message U W) × (exchange env
          client_limit server_limit outside service to_server to_client now later i
          (posted env m r ms now c)
          (server_with (idle tm) sessions server)
        ≡ ok (
          (
            record {
              msg_id = rem_int_max (increment c.last_id);
              res = r;
              error = success;
              request = request_of env c m;
              response = some (
                  response_read env server_limit
                    (request_read env client_limit c m t)
                    (service.method u m server.methods_state).0
                    t');
            }
                ∷ [],
            c',
          ),
          server',
        ))
      × (server'.methods_state ≡ (service.method u m server.methods_state).1)
unfolding sized_header
request-answered env {R} {D} {F} {U} {W} law client_limit server_limit outside service to_server
      to_client m r ms now later i c server tm sessions s u t t' whole whole' valid empty f quiet
      h =
    let rsp = (service.method u m server.methods_state).0 in
    let q = request_read env client_limit c m t in
    let q' = response_read env server_limit q rsp t' in
    let sends = request-Sends env client_limit c m t law in
    let sends' = response-Sends env client_limit c m t law server_limit rsp t' in
    let bytes = content sends.encodes.buffer in
    let fed =
      any_pieces env (to_server bytes) ((sends.wire, q) ∷ []) s (sends.carries, tt) quiet.valid
        quiet.nothing_read (whole bytes ∙ sends.encodes.holds ∙ sym (append-nil sends.wire)) in
    let served =
      serves-replies env server_limit service later i server (to_server bytes) s fed.0 q m u
        sends'.wire tm sessions sends'.encodes f
        (ap (λ (x : List Buffer). (x, s.write_deque)) quiet.nothing_posted
          ∙ ap (λ (x : List Buffer). ([], x)) quiet.nothing_written)
        fed.1 refl (omega arith) h in
    let waiting = waits env m r ms now c in
    let same = waits-read_buffer env m r ms now c in
    let read =
      client_reads-one env (to_client sends'.wire) sends'.wire q' waiting sends'.carries
        (whole' sends'.wire) (subst IsValid (sym same) valid) (ap content same ∙ empty) in
    let answers =
      take_response-answers env q' (request_of env c m) r now read.0
        (read.2
          ∙ ap (λ (ps : List (Package env.Message)). ps ++ (q' ∷ []))
              (waits-responses env m r ms now c))
        refl (ap (held q'.header.msg_id) read.3 ∙ held-waits env m r ms now c) in
    (
      answers.0,
      served.0,
      exchange-parts env client_limit server_limit outside service to_server to_client now later i
            (posted env m r ms now c) (writes env client_limit outside m r ms now c sends.encodes)
            waiting read.0 (server_with (idle tm) sessions server) served.0 sends'.wire
            (run_tasks-writes env client_limit outside m r ms now c sends.encodes) served.1
            (on_written-waits env client_limit outside m r ms now c sends.encodes) served.2 read.1
          ∙ ap
              (λ (y : List (Answer env.Message (Callback R)) × Client env.Message R D F).
                ok (y, served.0))
              answers.1,
      served.3,
    )
