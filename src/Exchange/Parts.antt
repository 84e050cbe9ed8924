-- ===== src/Exchange/Parts.antt =====
-- asio/internal/AsioClient.cpp and asio/internal/AsioServer.cpp: the parts of an exchange.
use asio.Prelude.{
  ℕ, ◌≡◌, refl, sym, ap, ◌∙◌, false, List, [], ◌∷◌, ◌++◌, some, Bytes, Exec, ok, ◌>>=◌, append-nil,
  nat_key, bytes_key,
}
use asio.Prelude.Assoc.{find}
use asio.Prelude.Int.{ℤ}
use asio.Package.{Package, reqrep, success}
use asio.Platform.{Platform}
use asio.Buffer.{content}
use asio.Buffer.View.{IsValid}
use asio.RequestMessage.{Answer}
use asio.RequestMessage.Answers.{held}
use asio.Session.{new_session}
use asio.Session.Stream.{Frame, join, any_pieces}
use asio.AsioClient.{Client, Callback, on_written, do_response}
use asio.AsioClient.Connection.{Outside, run_tasks}
use asio.AsioClient.Requests.{respond-held}
use asio.AsioServer.Server.{Service, AsioServer}
use asio.Exchange.{exchange, serves, client_reads, take_responses, session_bytes, client_bytes}
use asio.Exchange.Reading.{client_reads-feed}

module _ (env : Platform) {R D F : Type 0} where
  -- A response that is the only one, to a request that waits.
  pub take_response-answers :
      (q p : Package env.Message) (r : Callback R) (now : ℕ) (c : Client env.Message R D F)
      → c.responses ≡ q ∷ []
      → q.header.msg_type ≡ reqrep
      → held q.header.msg_id c.cache ≡ some (p, r)
      → (c' : Client env.Message R D F) × (take_responses env c.responses now
            (record c { responses = [] })
          ≡ (
            record {
              msg_id = q.header.msg_id;
              res = r;
              error = success;
              request = p;
              response = some q;
            }
                ∷ [],
            c',
          ))
  unfolding take_responses
  take_response-answers q p r now c e t h =
      let d = do_response q now (record c { responses = [] }) in
      (
        d.2,
        ap (λ ps. take_responses env ps now (record c { responses = [] })) e
            ∙ ap (λ (out : List (Answer env.Message (Callback R))). (out ++ [], d.2))
                (respond-held env q p r now (record c { responses = [] }) t h),
      )

-- The parts of an exchange, put together.
pub exchange-parts :
    (env : Platform) {R D F U W : Type 0} (client_limit server_limit : ℤ)
    (outside : Outside env.Message) (service : Service env.Message U W)
    (to_server to_client : Bytes → List Bytes) (now later i : ℕ)
    (c c1 c2 c3 : Client env.Message R D F) (server server' : AsioServer env.Message U W)
    (wire : Bytes)
    → run_tasks env client_limit outside c.tasks c ≡ ok c1
    → serves env server_limit service later i (to_server (client_bytes c1.in_flight)) server
      ≡ ok server'
    → on_written env client_limit false now c1 ≡ ok c2
    → session_bytes (find i server'.sessions) ≡ wire
    → client_reads env (to_client wire) c2 ≡ ok c3
    → exchange env client_limit server_limit outside service to_server to_client now later i c
        server
      ≡ ok (take_responses env c3.responses now (record c3 { responses = [] }), server')
unfolding exchange
exchange-parts env {R} {D} {F} {U} {W} client_limit server_limit outside service to_server to_client
      now later i c c1 c2 c3 server server' wire sent served ended w read =
    let finish : AsioServer env.Message U W
        → Client env.Message R D F
        → Exec (
            (List (Answer env.Message (Callback R)) × Client env.Message R D F)
            × AsioServer env.Message U W) =
      λ srv c3. ok (take_responses env c3.responses now (record c3 { responses = [] }), srv) in
    let reads = λ (srv : AsioServer env.Message U W) (c2 : Client env.Message R D F).
      client_reads env (to_client (session_bytes (find i srv.sessions))) c2 >>= finish srv in
    let ends = λ (c1 : Client env.Message R D F) (srv : AsioServer env.Message U W).
      on_written env client_limit false now c1 >>= reads srv in
    let begin = λ (c1 : Client env.Message R D F).
      serves env server_limit service later i (to_server (client_bytes c1.in_flight)) server
      >>= ends c1 in
    ap (λ (x : Exec (Client env.Message R D F)). x >>= begin) sent
    ∙ ap (λ (x : Exec (AsioServer env.Message U W)). x >>= ends c1) served
    ∙ ap (λ (x : Exec (Client env.Message R D F)). x >>= reads server') ended
    ∙ ap (λ (b : Bytes). client_reads env (to_client b) c2 >>= finish server') w
    ∙ ap (λ (x : Exec (Client env.Message R D F)). x >>= finish server') read

-- A client with an empty buffer reads the bytes of one package, in pieces.
pub client_reads-one :
    (env : Platform) {R D F : Type 0} (pieces : List Bytes) (wire : Bytes) (q : Package env.Message)
    (c : Client env.Message R D F)
    → Frame env (wire, q)
    → join env pieces ≡ wire
    → IsValid c.read_buffer
    → content c.read_buffer ≡ []
    → (c' : Client env.Message R D F) × (client_reads env pieces c ≡ ok c')
      × (c'.responses ≡ c.responses ++ (q ∷ []))
      × (c'.cache ≡ c.cache)
client_reads-one env pieces wire q c carries whole valid empty =
    let reader = record (new_session 0) { read_buffer = c.read_buffer } in
    let fed =
      any_pieces env pieces ((wire, q) ∷ []) reader (carries, tt) valid empty
        (whole ∙ sym (append-nil wire)) in
    client_reads-feed env pieces reader fed.0 (q ∷ []) c refl fed.1
