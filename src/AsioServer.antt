-- ===== src/AsioServer.antt =====
-- asio/internal/AsioServer.h and AsioServer.cpp, class AsioServer: the subscription handler.
pub mod Subscribe
pub mod Server
mod Tests
use asio.Prelude.{ℕ, Bool, true, false, List, [], ◌∷◌, ◌==◌, if◌then◌else◌, Bytes, length}
use asio.SessionRoom.{SessionRoom, add_subscribe, del_subscribe}

-- The fields of the generated `ProtoBase::SubscribeReq`.
pub record SubscribeReq : Type 0 where
  pub kind : ℕ
  pub msg_type_list : List ℕ
  pub type_name_list : List Bytes

module _ {P : Type 0} where
  -- The loop of `doSubscribe`, over two lists of one length.
  unfoldable pub subscribe_loop : ℕ → ℕ → List ℕ → List Bytes → SessionRoom P → SessionRoom P
  subscribe_loop session kind (t ∷ ts) (name ∷ names) room =
      subscribe_loop session kind ts names
        (if kind == 1 then add_subscribe session t name room else del_subscribe session t name room)
  subscribe_loop session kind _ _ room = room

  -- `doSubscribe`: whether the session gets its reply, a `SubscribeRsp` with the code 0, and the room.
  unfoldable pub do_subscribe : ℕ → SubscribeReq → SessionRoom P → Bool × SessionRoom P
  unfolding subscribe_loop
  do_subscribe session req room =
      if length req.type_name_list == length req.msg_type_list
      then (true, subscribe_loop session req.kind req.msg_type_list req.type_name_list room)
      else (false, room)
