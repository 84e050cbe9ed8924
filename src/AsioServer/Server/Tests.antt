-- ===== src/AsioServer/Server/Tests.antt =====
-- A server of byte-string messages that echoes, and the theorems about servers at it.
use asio.Prelude.{refl, ℕ, ◌≡◌, true, false, List, [], ◌∷◌, none, some, Bytes, arith, nat_key}
use asio.Prelude.Assoc.{find}
use asio.Platform.Sample.{sample_name}
use asio.ProtoHelp.Samples.{hello}
use asio.AsioServer.Server.{Service, AsioServer, advised, new_server}
use asio.AsioServer.Server.Events.{
  Event, adds, accepts, reads, publishes_message, pool_turn, runs_posts, writes,
}
use asio.AsioServer.Server.Soundness.{IsSound}

abbrev pub service : Service Bytes ℕ ℕ
service = record {
  subscribe_name = b'S' ∷ [];
  heartbeat_name = b'H' ∷ [];
  subscribe_fields = λ m. record { kind = 1; msg_type_list = []; type_name_list = [] };
  subscribe_rsp = λ code. [];
  heartbeat_rsp = λ now. [];
  method = λ u m w. (m, w);
}

unfoldable pub fresh : AsioServer Bytes ℕ ℕ
unfolding new_server
fresh = new_server service 0 2

pub fresh-IsSound : IsSound 1 fresh
unfolding find fresh new_server
fresh-IsSound = record {
  next = omega arith;
  counted = λ on. refl;
  all_held = λ i one l. absurd (omega arith);
  own = λ i s e. absurd (let f : none ≡ some s = e in cc);
  in_room = λ i j e. absurd (let f : none ≡ some j = e in cc);
}

abbrev events : List (Event Bytes ℕ)
events =
    adds sample_name (advised 0)
    ∷ accepts false
    ∷ accepts false
    ∷ reads 5 (some (1 ∷ 2 ∷ [])) 1
    ∷ publishes_message hello
    ∷ pool_turn 6
    ∷ runs_posts 1
    ∷ writes true 1
    ∷ []
