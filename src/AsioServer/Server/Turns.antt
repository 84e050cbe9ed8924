-- ===== src/AsioServer/Server/Turns.antt =====
-- asio/internal/AsioServer.cpp, class AsioServer: the calls of sessions and the tasks keep a server sound.
use asio.Prelude.{
  ℕ, refl, List, [], ◌∷◌, Option, none, some, Bytes, Exec, ok, ◌>>=◌, Leaves, Leaves-ok, Leaves-map,
  Leaves-then, Leaves-if, Leaves-weaken, sym, ◌∙◌, nat_key,
}
use mathlib.Core.Path.{subst}
use asio.Prelude.Int.{ℤ}
use asio.Package.{Package}
use asio.Platform.{Platform}
use asio.Buffer.View.{IsValid}
use asio.Session.{reply_message, publish_message, deliver_package, on_read}
use asio.Session.Kept.{
  Keeps, Reads, deliver_package-Keeps, reply_message-Keeps, publish_message-Keeps, on_read-IsValid,
}
use asio.SessionRoom.{Call, publishes, delivers}
use asio.TaskManager.{Job}
use asio.AsioServer.{do_subscribe}
use asio.AsioServer.Subscribe.{do_subscribe-session_cache}
use asio.AsioServer.Server.{
  Task, subscribes, heartbeats, relays, advised, Service, AsioServer, put_session, leave_room,
}
use asio.AsioServer.Server.Tasks.{
  make_calls, relay_package, run_task, handle_package, handle_packages, on_session_read, is_error,
  reply, subscribe_with, call_method, run_pre_task, run_first,
}
use asio.AsioServer.Server.Soundness.{
  IsSound, same_objects, put_session-IsSound, leave_room-IsSound, with_found-Leaves,
  update_session-IsSound,
}

-- The server of a result that carries a package along.
abbrev pub Shared : {M U W : Type 0} → ℕ → Package M × AsioServer M U W → Type 0
Shared n r = IsSound n r.1

module _ (env : Platform) {U W : Type 0} (limit : ℤ) (n : ℕ) where
  pub make_calls-IsSound :
      (calls : List (Call env.Message ℕ)) (p : Package env.Message)
      (server : AsioServer env.Message U W)
      → IsSound n server
      → Leaves (Shared n) (make_calls env limit calls p server)
  unfolding make_calls
  make_calls-IsSound [] p server g = Leaves-ok (Shared n) (p, server) g
  make_calls-IsSound (publishes i msg ∷ calls) p server g =
      Leaves-then (IsSound n) (Shared n) _ (make_calls env limit calls p)
        (update_session-IsSound n i (publish_message env limit (some msg)) server
          (publish_message-Keeps env limit (some msg)) g)
        (λ server' g'. make_calls-IsSound calls p server' g')
  make_calls-IsSound (delivers i q ∷ calls) p server g =
      Leaves-then (λ r. IsSound n (put_session i r.1 server)) (Shared n) _
        (λ r. make_calls env limit calls r.0 (put_session i r.1 server))
        (with_found-Leaves (λ r. IsSound n (put_session i r.1 server)) (deliver_package env limit p)
          i server
          (λ s e.
            let o = g.own i s e in
            Leaves-weaken (λ r. Keeps s r.1) (λ r. IsSound n (put_session i r.1 server)) _
              (deliver_package-Keeps env limit p s)
              (λ r k.
                put_session-IsSound n i r.1 server g (k.0 ∙ o.0) (subst IsValid (sym k.1) o.1)
                  o.2)))
        (λ r g'. make_calls-IsSound calls r.0 (put_session i r.1 server) g')

  pub second :
      (x : Exec (Package env.Message × AsioServer env.Message U W))
      → Leaves (Shared n) x
      → Leaves (IsSound n) (x >>= λ r. ok r.1)
  second x h = Leaves-map (Shared n) (IsSound n) x (λ r. r.1) h (λ r g. g)

  pub relay_package-IsSound :
      (i : ℕ) (p : Package env.Message) (server : AsioServer env.Message U W)
      → IsSound n server
      → Leaves (Shared n) (relay_package env limit i p server)
  unfolding relay_package
  relay_package-IsSound i p server g =
      make_calls-IsSound _ _ _ (same_objects n server _ g refl refl refl (λ h. h))

module _ (env : Platform) {U W : Type 0} (limit : ℤ) (service : Service env.Message U W)
    (n : ℕ) where
  pub reply-IsSound :
      (i : ℕ) (req : Package env.Message) (rsp : env.Message) (server : AsioServer env.Message U W)
      → IsSound n server
      → Leaves (IsSound n) (reply env limit service i req rsp server)
  reply-IsSound i req rsp server g =
      update_session-IsSound n i (reply_message env limit (some req) (some rsp)) server
        (reply_message-Keeps env limit (some req) (some rsp)) g

  with_package :
      (p : Package env.Message) (x : Exec (AsioServer env.Message U W))
      → Leaves (IsSound n) x
      → Leaves (Shared n) (x >>= λ server. ok (p, server))
  with_package p x h = Leaves-map (IsSound n) (Shared n) x (λ server. (p, server)) h (λ server g. g)

  pub subscribe_with-IsSound :
      (i : ℕ) (req : Package env.Message) (m : Option env.Message)
      (server : AsioServer env.Message U W)
      → IsSound n server
      → Leaves (IsSound n) (subscribe_with env limit service i req m server)
  subscribe_with-IsSound i req none server g = unfold Leaves in tt
  subscribe_with-IsSound i req (some m) server g =
      let d = do_subscribe i (service.subscribe_fields m) server.room in
      let g' : IsSound n (record server { room = d.1 }) =
        same_objects n server _ g refl refl
          (do_subscribe-session_cache i (service.subscribe_fields m) server.room) (λ h. h) in
      Leaves-if (IsSound n) d.0 _ _ (reply-IsSound i req (service.subscribe_rsp 0) _ g')
        (Leaves-ok (IsSound n) _ g')

  pub call_method-IsSound :
      (u : U) (i : ℕ) (req : Package env.Message) (m : Option env.Message)
      (server : AsioServer env.Message U W)
      → IsSound n server
      → Leaves (IsSound n) (call_method env limit service u i req m server)
  call_method-IsSound u i req none server g = unfold Leaves in tt
  call_method-IsSound u i req (some m) server g =
      reply-IsSound i req _ _ (same_objects n server _ g refl refl refl (λ h. h))

  pub run_task-IsSound :
      (task : Task U) (now i : ℕ) (req : Package env.Message) (server : AsioServer env.Message U W)
      → IsSound n server
      → Leaves (IsSound n) (run_task env limit service task now i req server)
  unfolding run_task
  run_task-IsSound subscribes now i req server g = subscribe_with-IsSound i req req.msg_ptr server g
  run_task-IsSound heartbeats now i req server g =
      reply-IsSound i req (service.heartbeat_rsp now) server g
  run_task-IsSound relays now i req server g =
      second env limit n _ (relay_package-IsSound env limit n i req server g)
  run_task-IsSound (advised u) now i req server g = call_method-IsSound u i req req.msg_ptr server g

  pub run_pre_task-IsSound :
      (task : Option (Task U)) (now i : ℕ) (p : Package env.Message)
      (server : AsioServer env.Message U W)
      → IsSound n server
      → Leaves (Shared n) (run_pre_task env limit service task now i p server)
  run_pre_task-IsSound none now i p server g = Leaves-ok (Shared n) (p, server) g
  run_pre_task-IsSound (some relays) now i p server g =
      relay_package-IsSound env limit n i p server g
  run_pre_task-IsSound (some subscribes) now i p server g =
      with_package p _ (run_task-IsSound subscribes now i p server g)
  run_pre_task-IsSound (some heartbeats) now i p server g =
      with_package p _ (run_task-IsSound heartbeats now i p server g)
  run_pre_task-IsSound (some (advised u)) now i p server g =
      with_package p _ (run_task-IsSound (advised u) now i p server g)

  pub handle_package-IsSound :
      (now i : ℕ) (p : Package env.Message) (server : AsioServer env.Message U W)
      → IsSound n server
      → Leaves (IsSound n) (handle_package env limit service now i p server)
  unfolding handle_package
  handle_package-IsSound now i p server g =
      Leaves-map (Shared n) (IsSound n) _ _
        (run_pre_task-IsSound server.task_manager.pre_task now i p server g)
        (λ r g'. same_objects n r.1 _ g' refl refl refl (λ h. h))

  pub handle_packages-IsSound :
      (now i : ℕ) (ps : List (Package env.Message)) (server : AsioServer env.Message U W)
      → IsSound n server
      → Leaves (IsSound n) (handle_packages env limit service now i ps server)
  unfolding handle_packages
  handle_packages-IsSound now i [] server g = Leaves-ok (IsSound n) server g
  handle_packages-IsSound now i (p ∷ ps) server g =
      Leaves-then (IsSound n) (IsSound n) (handle_package env limit service now i p server)
        (handle_packages env limit service now i ps) (handle_package-IsSound now i p server g)
        (λ server' g'. handle_packages-IsSound now i ps server' g')

  pub on_session_read-IsSound :
      (now : ℕ) (bytes : Option Bytes) (i : ℕ) (server : AsioServer env.Message U W)
      → IsSound n server
      → Leaves (IsSound n) (on_session_read env limit service now bytes i server)
  unfolding on_session_read
  on_session_read-IsSound now bytes i server g =
      Leaves-then (λ r. IsSound n (put_session i r.1 server)) (IsSound n) _
        (λ r.
          handle_packages env limit service now i r.0
            (leave_room (is_error bytes) i (put_session i r.1 server)))
        (with_found-Leaves (λ r. IsSound n (put_session i r.1 server)) (on_read env bytes) i server
          (λ s e.
            let o = g.own i s e in
            Leaves-weaken (Reads env s) (λ r. IsSound n (put_session i r.1 server)) _
              (on_read-IsValid env bytes s o.1)
              (λ r k. put_session-IsSound n i r.1 server g (k.0 ∙ o.0) k.1 o.2)))
        (λ r g'.
          handle_packages-IsSound now i r.0 _
            (leave_room-IsSound n (is_error bytes) i (put_session i r.1 server) g'))

  pub run_first-IsSound :
      (now : ℕ) (jobs : List (Job (Task U) env.Message))
      (left : List (Job (Task U) env.Message) → AsioServer env.Message U W)
      → ((rest : List (Job (Task U) env.Message)) → IsSound n (left rest))
      → Leaves (IsSound n) (run_first env limit service now jobs left)
  run_first-IsSound now [] left g = Leaves-ok (IsSound n) (left []) (g [])
  run_first-IsSound now (job ∷ rest) left g =
      run_task-IsSound job.handler now job.session job.pac (left rest) (g rest)
