-- ===== src/Exchange/Serving.antt =====
-- asio/internal/Session.cpp, asio/internal/TaskManager.cpp and asio/internal/AsioServer.cpp: from the
-- pieces that a session reads to the reply that it writes.
use asio.Prelude.{
  true, ℕ, ◌≡◌, refl, sym, ap, ◌∙◌, List, [], ◌∷◌, ◌++◌, Option, none, some, Bytes, Exec, ok, ◌>>=◌,
  bind_ok, ok_injective, nat_key, bytes_key, if-same, ◌==◌, ==_iff, chosen,
}
use asio.Prelude.Assoc.{find, assign, find-assign}
use asio.Prelude.Int.{ℤ}
use asio.Package.{Package, isorder}
use asio.Platform.{Platform}
use asio.Session.{Session, on_read}
use asio.Session.Stream.{feed}
use asio.TaskManager.{Job, TaskManager, pool_run, handle_message, hand_over, seen_by}
use asio.AsioServer.Server.{Task, Service, AsioServer, with_found}
use asio.AsioServer.Server.Tasks.{on_session_read, handle_packages, handle_package, run_pre_task}
use asio.Exchange.{server_reads}

module _ {M U W : Type 0} where
  -- A server with another task manager and other sessions.
  abbrev pub server_with :
      TaskManager (Task U) M → List (ℕ × Session) → AsioServer M U W → AsioServer M U W
  server_with tm sessions server = record server { task_manager = tm; sessions = sessions }

module _ {M H : Type 0} where
  -- A task manager with nothing for the pool to do, and without a `preTask_`.
  abbrev pub idle : TaskManager H M → TaskManager H M
  idle tm = record tm { pre_task = none; pooled = []; pool_running = true }

  -- The task manager after some packages, where there is no `preTask_`.
  abbrev pub handled : ℕ → List (Package M) → TaskManager H M → TaskManager H M
  handled i [] tm = tm
  handled i (p ∷ ps) tm = handled i ps (handle_message (λ q. p) p i tm).1

  handled-append :
      (i : ℕ) (ps qs : List (Package M)) (tm : TaskManager H M)
      → handled i (ps ++ qs) tm ≡ handled i qs (handled i ps tm)
  handled-append i [] qs tm = refl
  handled-append i (p ∷ ps) qs tm = handled-append i ps qs _

  pool_run-pre_task :
      (job : Job H M) (tm : TaskManager H M) → (pool_run job tm).pre_task ≡ tm.pre_task
  unfolding pool_run
  pool_run-pre_task job tm =
      if-same (λ (t : TaskManager H M). t.pre_task) tm.pool_running _ _ _ refl refl

  hand_over-pre_task :
      (h : Option H) (i : ℕ) (p : Package M) (tm : TaskManager H M)
      → (hand_over h i p tm).pre_task ≡ tm.pre_task
  hand_over-pre_task none i p tm = refl
  hand_over-pre_task (some h) i p tm =
      if-same (λ (t : TaskManager H M). t.pre_task) (isorder p.header == 0) (pool_run _ tm) _ _
        (pool_run-pre_task _ tm) refl

  handle_message-pre_task :
      (f : Package M → Package M) (p : Package M) (i : ℕ) (tm : TaskManager H M)
      → (handle_message f p i tm).1.pre_task ≡ tm.pre_task
  unfolding handle_message
  handle_message-pre_task f p i tm =
      let p' = seen_by f tm.pre_task p in hand_over-pre_task (find p'.type_name tm.handlers) i p' tm

module _ (env : Platform) {U W : Type 0} (limit : ℤ) (service : Service env.Message U W) (now i : ℕ)
    (server : AsioServer env.Message U W) where
  handle_package-plain :
      (p : Package env.Message) (tm : TaskManager (Task U) env.Message)
      (sessions : List (ℕ × Session))
      → tm.pre_task ≡ none
      → handle_package env limit service now i p (server_with tm sessions server)
        ≡ ok (server_with (handle_message (λ q. p) p i tm).1 sessions server)
  unfolding handle_package
  handle_package-plain p tm sessions e =
      ap
        (λ (t : Option (Task U)).
          run_pre_task env limit service t now i p (server_with tm sessions server) >>= λ r.
          ok (record r.1 { task_manager = (handle_message (λ q. r.0) p i r.1.task_manager).1 }))
        e

  handle_packages-plain :
      (ps : List (Package env.Message)) (tm : TaskManager (Task U) env.Message)
      (sessions : List (ℕ × Session))
      → tm.pre_task ≡ none
      → (handle_packages env limit service now i ps (server_with tm sessions server)
          ≡ ok (server_with (handled i ps tm) sessions server))
        × ((handled i ps tm).pre_task ≡ none)
  unfolding handle_packages
  handle_packages-plain [] tm sessions e = (refl, e)
  handle_packages-plain (p ∷ ps) tm sessions e =
      let rest =
        handle_packages-plain ps (handle_message (λ q. p) p i tm).1 sessions
          (handle_message-pre_task (λ q. p) p i tm ∙ e) in
      (
        ap
              (λ (x : Exec (AsioServer env.Message U W)).
                x >>= handle_packages env limit service now i ps)
              (handle_package-plain p tm sessions e)
            ∙ rest.0,
        rest.1,
      )

  -- What a server has read: its packages are handled in order.
  pub server_reads-feed :
      (pieces : List Bytes) (s s' : Session) (ps : List (Package env.Message))
      (tm : TaskManager (Task U) env.Message) (sessions : List (ℕ × Session))
      → find i sessions ≡ some s
      → feed env pieces s ≡ ok (ps, s')
      → tm.pre_task ≡ none
      → (sessions' : List (ℕ × Session)) × (server_reads env limit service now i pieces
            (server_with tm sessions server)
          ≡ ok (server_with (handled i ps tm) sessions' server))
        × (find i sessions' ≡ some s')
  unfolding feed server_reads on_session_read
  server_reads-feed [] s s' ps tm sessions f e n =
      let q = ok_injective e in
      (
        sessions,
        ap
            (λ (x : List (Package env.Message) × Session).
              ok (server_with (handled i x.0 tm) sessions server))
            q,
        f ∙ ap (λ (x : List (Package env.Message) × Session). some x.1) q,
      )
  server_reads-feed (piece ∷ pieces) s s' ps tm sessions f e n =
      let r = bind_ok (on_read env (some piece) s) _ (ps, s') e in
      let q = bind_ok (feed env pieces r.0.1) _ (ps, s') r.2 in
      let sessions1 = assign i r.0.1 sessions in
      let h = handle_packages-plain r.0.0 tm sessions1 n in
      let found = find-assign i i r.0.1 sessions ∙ chosen (i == i) _ _ ((==_iff i i).1 refl) in
      let k =
        server_reads-feed pieces r.0.1 q.0.1 q.0.0 (handled i r.0.0 tm) sessions1 found q.1 h.1 in
      let last = ok_injective q.2 in
      let more = server_reads env limit service now i pieces in
      let go_on = λ (x : List (Package env.Message) × Session).
        handle_packages env limit service now i x.0
          (server_with tm (assign i x.1 sessions) server) in
      (
        k.0,
        ap (λ (o : Option Session). with_found (on_read env (some piece)) o >>= go_on >>= more) f
            ∙ ap (λ (x : Exec (List (Package env.Message) × Session)). x >>= go_on >>= more) r.1
            ∙ ap (λ (x : Exec (AsioServer env.Message U W)). x >>= more) h.0
            ∙ k.1
            ∙ ap (λ (t : TaskManager (Task U) env.Message). ok (server_with t k.0 server))
                (sym (handled-append i r.0.0 q.0.0 tm)
                  ∙ ap (λ (x : List (Package env.Message) × Session). handled i x.0 tm) last),
        k.2 ∙ ap (λ (x : List (Package env.Message) × Session). some x.1) last,
      )
