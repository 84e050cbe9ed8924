-- ===== src/Exchange/Replying.antt =====
-- asio/msgserver.h, `ADVISE_HANDLER`, and asio/internal/Session.cpp, `replyMessage`: the method of a
-- request runs, and its response is written.
use asio.Prelude.{
  ℕ, ◌≡◌, refl, ap, ◌∙◌, Bool, List, [], ◌∷◌, ◌++◌, Option, some, Bytes, Exec, ok, ◌>>=◌, nat_key,
  bytes_key, ◌==◌, ==_iff, chosen,
}
use asio.Prelude.Assoc.{find, assign, find-assign}
use asio.Prelude.Int.{ℤ}
use asio.Package.{Package, new_package, isorder}
use asio.Platform.{Platform}
use asio.Buffer.{Buffer, content}
use asio.Session.{Session, reply_message, post_package, post_encoded, run_posted, write_buffer}
use asio.Session.Stream.{feed}
use asio.TaskManager.{TaskManager, pool_run, handle_message, hand_over, the_job}
use asio.AsioClient.Order.{Encodes}
use asio.AsioServer.Server.{
  Task, advised, Service, AsioServer, with_found, put_session, runs_posted,
}
use asio.AsioServer.Server.Tasks.{run_pooled, run_task, call_method}
use asio.Exchange.{serves, session_bytes, flying}
use asio.Exchange.Reading.{outgoing, feed-outgoing}
use asio.Exchange.Serving.{idle, server_with, handled, server_reads-feed}

found_there : {V : Type 0} (i : ℕ) (v : V) (m : List (ℕ × V)) → find i (assign i v m) ≡ some v
found_there i v m = find-assign i i v m ∙ chosen (i == i) _ _ ((==_iff i i).1 refl)

-- The write of a buffer that was posted while nothing else is to be written.
run_posted-writes :
    (b : Buffer) (s : Session)
    → s.posted ≡ b ∷ []
    → s.write_deque ≡ []
    → (run_posted s).in_flight ≡ some (content b)
unfolding run_posted write_buffer
run_posted-writes b s p d = rw (p, d) refl

module _ (env : Platform) (limit : ℤ) where
  -- The package that a response is sent in.
  abbrev pub reply_package : Package env.Message → env.Message → Package env.Message
  reply_package req rsp = record (new_package env.Message) {
    header = req.header;
    type_name = env.type_name_of rsp;
    msg_ptr = some rsp;
  }

  reply_message-posts :
      (req : Package env.Message) (rsp : env.Message) (wire : Bytes) (s : Session)
      (e : Encodes env limit (reply_package req rsp) wire)
      → reply_message env limit (some req) (some rsp) s
        ≡ ok (record s { posted = s.posted ++ (e.buffer ∷ []) })
  unfolding reply_message post_package
  reply_message-posts req rsp wire s e =
      ap
        (λ (x : Exec (Bool × Package env.Message × Buffer)). (do
          r ← (do y ← x; ok (post_encoded env s y))
          ok r.1))
        e.encodes

module _ (env : Platform) {U W : Type 0} (limit : ℤ) (service : Service env.Message U W) (now i : ℕ)
    (server : AsioServer env.Message U W) where
  -- The method of a request that was read.
  abbrev pub called : U → env.Message → env.Message × W
  called u m = service.method u m server.methods_state

  abbrev queued :
      TaskManager (Task U) env.Message → U → Package env.Message → TaskManager (Task U) env.Message
  queued tm u q = record (idle tm) { pooled = the_job (advised u) i q ∷ [] }

  handled-queues :
      (q : Package env.Message) (u : U) (tm : TaskManager (Task U) env.Message)
      → isorder q.header ≡ 0
      → find q.type_name tm.handlers ≡ some (advised u)
      → handled i (q ∷ []) (idle tm) ≡ queued tm u q
  unfolding handle_message pool_run
  handled-queues q u tm o f =
      ap (λ (h : Option (Task U)). hand_over h i q (idle tm)) f
      ∙ chosen (isorder q.header == 0) (queued tm u q) _ ((==_iff _ 0).1 o)

  run_pooled-posts :
      (q : Package env.Message) (m : env.Message) (u : U) (wire : Bytes) (s : Session)
      (tm : TaskManager (Task U) env.Message) (sessions : List (ℕ × Session))
      (e : Encodes env limit (reply_package env limit q (called u m).0) wire)
      → q.msg_ptr ≡ some m
      → find i sessions ≡ some s
      → run_pooled env limit service now (server_with (queued tm u q) sessions server)
        ≡ ok
            (record (server_with
              (idle tm)
              (assign i (record s { posted = s.posted ++ (e.buffer ∷ []) }) sessions)
              server) { methods_state = (called u m).1 })
  unfolding run_pooled run_task
  run_pooled-posts q m u wire s tm sessions e holds f =
      let there = server_with (idle tm) sessions server in
      let after = record there { methods_state = (called u m).1 } in
      let rsp = (called u m).0 in
      ap (λ (o : Option env.Message). call_method env limit service u i q o there) holds
      ∙ ap
          (λ (o : Option Session).
            with_found (reply_message env limit (some q) (some rsp)) o >>= λ t.
            ok (put_session i t after))
          f
      ∙ ap (λ (x : Exec Session). x >>= λ t. ok (put_session i t after))
          (reply_message-posts env limit q rsp wire s e)

  -- The server has read the pieces of one request for a method, which carries its message: it calls
  -- the method, and the write of the response is under way.
  pub serves-replies :
      (pieces : List Bytes) (s s' : Session) (q : Package env.Message) (m : env.Message) (u : U)
      (wire : Bytes) (tm : TaskManager (Task U) env.Message) (sessions : List (ℕ × Session))
      → Encodes env limit (reply_package env limit q (called u m).0) wire
      → find i sessions ≡ some s
      → outgoing env s ≡ ([], [])
      → feed env pieces s ≡ ok (q ∷ [], s')
      → q.msg_ptr ≡ some m
      → isorder q.header ≡ 0
      → find q.type_name tm.handlers ≡ some (advised u)
      → (server' : AsioServer env.Message U W) × (serves env limit service now i pieces
            (server_with (idle tm) sessions server)
          ≡ ok server')
        × (session_bytes (find i server'.sessions) ≡ wire)
        × (server'.methods_state ≡ (called u m).1)
  unfolding serves runs_posted
  serves-replies pieces s s' q m u wire tm sessions e f o d holds ordered h =
      let r =
        server_reads-feed env limit service now i server pieces s s' (q ∷ []) (idle tm) sessions f d
          refl in
      let t = record s' { posted = s'.posted ++ (e.buffer ∷ []) } in
      let sessions2 = assign i t r.0 in
      let server2 = record (server_with (idle tm) sessions2 server) {
        methods_state = (called u m).1;
      } in
      let out = feed-outgoing env pieces s s' (q ∷ []) d ∙ o in
      let written =
        run_posted-writes e.buffer t
          (ap (λ (x : List Buffer × List Buffer). x.0 ++ (e.buffer ∷ [])) out)
          (ap (λ (x : List Buffer × List Buffer). x.1) out) in
      (
        put_session i (run_posted t) server2,
        ap
              (λ (x : Exec (AsioServer env.Message U W)).
                x >>= λ y. run_pooled env limit service now y >>= runs_posted i)
              r.1
            ∙ ap
                (λ (k : TaskManager (Task U) env.Message).
                  run_pooled env limit service now (server_with k r.0 server) >>= runs_posted i)
                (handled-queues q u tm ordered h)
            ∙ ap (λ (x : Exec (AsioServer env.Message U W)). x >>= runs_posted i)
                (run_pooled-posts q m u wire s' tm r.0 e holds r.2)
            ∙ ap
                (λ (x : Option Session).
                  with_found (λ y. ok (run_posted y)) x >>= λ y. ok (put_session i y server2))
                (found_there i t r.0),
        ap session_bytes (found_there i (run_posted t) sessions2) ∙ ap flying written ∙ e.holds,
        refl,
      )
