-- ===== src/MsgBus.antt =====
-- asio/msgbus.h and msgbus.cpp, class MsgBus: the hook that relays the packages of the bus.
pub mod Routes
pub mod Publications
mod Tests
use asio.Prelude.{
  ℕ, ◌+◌, ◌^◌, ◌&&◌, List, [], ◌∷◌, Option, none, some, ltb, ◌==◌, if◌then◌else◌, nat_key,
}
use asio.Prelude.Assoc.{find, assign, erase}
use asio.Package.{Package, reqrep, pubsub, deliver}
use asio.Platform.{Platform}
use asio.SessionRoom.{SessionRoom, Call, deliver_package, deliver_package_to}

-- `msgSessionCache_`: the session that sent a request, by the message id.
abbrev pub Routes : Type 0
Routes = List (ℕ × ℕ)

-- The calls made of the room's sessions, the package as it is then, and the cache.
pub record Handled (M P : Type 0) : Type 0 where
  pub calls : List (Call M P)
  pub pac : Package M
  pub routes : Routes

-- The id found, and 0 where there is none.
abbrev pub found_id : Option ℕ → ℕ
found_id none = 0
found_id (some i) = i

module _ (env : Platform) {P : Type 0} (room : SessionRoom P) where
  abbrev pub with_type : ℕ → Package env.Message → Package env.Message
  with_type t p = record p { header = record p.header { msg_type = t } }

  -- The branch of a request from a session.
  unfoldable pub on_request : ℕ → Package env.Message → Routes → Handled env.Message P
  on_request session p routes = record {
    calls = deliver_package env (with_type deliver p) room;
    pac = with_type deliver p;
    routes = assign p.header.msg_id session routes;
  }

  -- The branch of a delivery that was answered.
  unfoldable pub on_reply : Package env.Message → Routes → Handled env.Message P
  on_reply p routes =
      let i = found_id (find p.header.msg_id routes) in
      let left = erase p.header.msg_id routes in
      if ltb 0 i && ltb i (2 ^ 31)
      then record {
        calls = (deliver_package_to env i (with_type reqrep p) room).1;
        pac = with_type reqrep p;
        routes = left;
      }
      else record { calls = []; pac = p; routes = left }

  -- `preHandleMessage` for a package without a message, and with any.
  unfoldable pub relay : ℕ → Package env.Message → Routes → Handled env.Message P
  unfolding on_request on_reply
  relay session p routes =
      if p.header.msg_type == reqrep
      then on_request session p routes
      else if p.header.msg_type == deliver
      then on_reply p routes
      else if p.header.msg_type == pubsub
      then record { calls = deliver_package env p room; pac = p; routes = routes }
      else record { calls = []; pac = p; routes = routes }

  unfoldable pub pre_handle :
      Option env.Message → ℕ → Package env.Message → Routes → Handled env.Message P
  unfolding relay
  pre_handle (some m) session p routes = record { calls = []; pac = p; routes = routes }
  pre_handle none session p routes = relay session p routes

  unfoldable pub pre_handle_message : ℕ → Package env.Message → Routes → Handled env.Message P
  unfolding pre_handle
  pre_handle_message session p routes = pre_handle p.msg_ptr session p routes
