-- ===== src/AsioClient/Writer.antt =====
-- asio/internal/AsioClient.cpp, class AsioClient: what leaves the writer, the list of the packages that
-- wait and the write under way, as it is.
use asio.Prelude.{
  Leaves, if-same, Leaves-if, Leaves->>=, ℕ, ◌≡◌, refl, ◌∙◌, Bool, true, false, not, ◌&&◌, List, [],
  ◌∷◌, Option, none, some, ◌==◌, if◌then◌else◌, Bytes, Exec,
}
use asio.Prelude.Int.{pos, ltb_ℤ}
use asio.Prelude.Words.{increment}
use asio.Package.{pubsub, Package, ErrorCode, reqrep}
use asio.Platform.{Platform}
use asio.RequestMessage.{put, Answer, on_timeout, on_response}
use asio.Session.{read_loop}
use asio.Handler.{Handler, Effect}
use asio.AsioClient.{
  Client, Callback, user, subscribe_answered, heartbeat_answered, rearm, address_at, outgoing,
  close, rearm_one, post_package, publish_message, post_message, start_heartbeat_timer, do_read,
  on_timer, do_response, find_colon,
}
use asio.AsioClient.Connection.{
  Outside, connect_to, connect, subscribe_to, start_subscribe, do_connect, do_close, do_heartbeat,
  take_response, dial, host_and_port,
}

module _ {M R D F : Type 0} where
  -- What the writer keeps: the packages that wait, and the write that is under way.
  abbrev pub writing : Client M R D F → List (Package M) × Option (Bytes × ℕ)
  writing c = (c.pending_list, c.in_flight)

  pub writing-post_package :
      (p : Option (Package M)) (c : Client M R D F) → writing (post_package p c).1 ≡ writing c
  unfolding post_package
  writing-post_package none c = refl
  writing-post_package (some p) c =
      if-same (λ (r : ErrorCode × Client M R D F). writing r.1) c.is_stopped _ _ _ refl
        (if-same (λ (r : ErrorCode × Client M R D F). writing r.1) (not c.is_online) _ _ _ refl
          refl)

  pub writing-rearm_one :
      (r : Callback R) (c : Client M R D F) → writing (rearm_one r c) ≡ writing c
  writing-rearm_one (user r) c = refl
  writing-rearm_one subscribe_answered c = refl
  writing-rearm_one heartbeat_answered c = refl

  pub writing-rearm :
      (out : List (Answer M (Callback R))) (c : Client M R D F) → writing (rearm out c) ≡ writing c
  writing-rearm [] c = refl
  writing-rearm (a ∷ rest) c = writing-rearm rest (rearm_one a.res c) ∙ writing-rearm_one a.res c

  pub writing-on_timer : (i now : ℕ) (c : Client M R D F) → writing (on_timer i now c).1 ≡ writing c
  unfolding on_timer
  writing-on_timer i now c =
      writing-rearm (on_timeout i now c.cache).0 (record c { cache = (on_timeout i now c.cache).1 })

  pub writing-do_response :
      (p : Package M) (now : ℕ) (c : Client M R D F) → writing (do_response p now c).2 ≡ writing c
  unfolding do_response
  writing-do_response p now c =
      if-same {A = List (Answer M (Callback R)) × List (Effect M D F) × Client M R D F}
        (λ r. writing r.2) (p.header.msg_type == reqrep) _ _ _
        (writing-rearm (on_response p now c.cache).0 _) refl

  pub writing-start_heartbeat_timer :
      (c : Client M R D F) → writing (start_heartbeat_timer c) ≡ writing c
  unfolding start_heartbeat_timer
  writing-start_heartbeat_timer c =
      if-same writing (ltb_ℤ (pos 0) c.heartbeat_seconds) _ _ _ refl refl

module _ (env : Platform) {R D F : Type 0} (outside : Outside env.Message) where
  -- The writer is as it was, where there is a result.
  unfoldable pub Keeps : Client env.Message R D F → Exec (Client env.Message R D F) → Type 0
  Keeps c = Leaves (λ d. writing d ≡ writing c)

  pub dial-Keeps :
      (h : Bytes × Bytes) (c d : Client env.Message R D F)
      → writing d ≡ writing c
      → Keeps c (dial env outside h d)
  unfolding Keeps Leaves
  dial-Keeps (host, port) c d e =
      Leaves-if (λ d. writing d ≡ writing c) (outside.resolves host port) _ _ e tt

  pub connect_to-Keeps :
      (a : Option Bytes) (c d : Client env.Message R D F)
      → writing d ≡ writing c
      → Keeps c (connect_to env outside a d)
  unfolding Keeps Leaves
  connect_to-Keeps none c d e = tt
  connect_to-Keeps (some a) c d e = dial-Keeps (host_and_port a (find_colon a)) c d e

  pub connect-Keeps :
      (c d : Client env.Message R D F) → writing d ≡ writing c → Keeps c (connect env outside d)
  unfolding connect
  connect-Keeps c d e = connect_to-Keeps (address_at d.address_list _) c _ e

  pub writing-post_message :
      (o : Bool) (m : env.Message) (r : Callback R) (ms now : ℕ) (c : Client env.Message R D F)
      → writing (post_message env o m r ms now c).1 ≡ writing c
  unfolding post_message
  writing-post_message o m r ms now c =
      let next = increment c.last_id in
      let p = outgoing env reqrep next (if o then 1 else 0) m in
      writing-post_package (some p) (record c { last_id = next; cache = put p r ms now c.cache })

  pub writing-publish_message :
      (m : env.Message) (c : Client env.Message R D F)
      → writing (publish_message env m c) ≡ writing c
  unfolding publish_message
  writing-publish_message m c =
      let next = increment c.last_id in
      writing-post_package (some (outgoing env pubsub next 0 m)) (record c { last_id = next })

  pub writing-subscribe_to :
      (hs : List (Handler D F)) (now : ℕ) (c : Client env.Message R D F)
      → writing (subscribe_to env outside hs now c) ≡ writing c
  writing-subscribe_to [] now c = refl
  writing-subscribe_to (h ∷ hs) now c = writing-post_message _ _ _ _ _ c

  pub do_connect-Keeps :
      (error : Bool) (now : ℕ) (c : Client env.Message R D F)
      → Keeps c (do_connect env outside error now c)
  unfolding do_connect start_subscribe Keeps Leaves
  do_connect-Keeps false now c =
      writing-start_heartbeat_timer _ ∙ writing-subscribe_to c.handler_list now _
  do_connect-Keeps true now c =
      Leaves-if (λ d. writing d ≡ writing c) (ltb_ℤ (pos 0) c.reconnect_seconds) _ _
        (connect-Keeps c _ refl) refl

  pub do_close-Keeps : (c : Client env.Message R D F) → Keeps c (do_close env outside c)
  unfolding do_close Keeps Leaves
  do_close-Keeps c =
      Leaves-if (λ d. writing d ≡ writing c) (not c.is_stopped && ltb_ℤ (pos 0) c.reconnect_seconds)
        _ _ (connect-Keeps c _ refl) refl

  pub writing-do_heartbeat :
      (error : Bool) (now : ℕ) (c : Client env.Message R D F)
      → writing (do_heartbeat env outside error now c) ≡ writing c
  unfolding do_heartbeat
  writing-do_heartbeat true now c = refl
  writing-do_heartbeat false now c = writing-post_message _ _ _ _ _ _

  pub writing-take_response :
      (ps : List (Package env.Message)) (now : ℕ) (c : Client env.Message R D F)
      → writing (take_response ps now c) ≡ writing c
  unfolding take_response
  writing-take_response [] now c = refl
  writing-take_response (p ∷ ps) now c = writing-do_response p now (record c { responses = ps })

  pub do_read-Keeps :
      (bytes : Option Bytes) (c : Client env.Message R D F) → Keeps c (do_read env bytes c)
  unfolding do_read Keeps Leaves close
  do_read-Keeps none c = refl
  do_read-Keeps (some bytes) c =
      Leaves->>= (λ d. writing d ≡ writing c) (read_loop env _ _) _ (λ r. refl)
