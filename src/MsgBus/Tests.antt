-- ===== src/MsgBus/Tests.antt =====
-- Two clients that send a request with the same id through the bus: the reply goes to the second.
use asio.Prelude.{ℕ, ◌≡◌, refl, List, [], ◌∷◌, none, Bytes, nat_key}
use asio.Prelude.{arith, map, inr, ◌&&◌}
use asio.Prelude.Assoc.{find, contains}
use asio.SessionRoom.Subscriptions.{subscribed}
use asio.SessionRoom.Calls.{OwnIds, callee, is_some}
use asio.MsgBus.Publications.{relay_reaches}
use asio.Package.{pubsub, Package, new_package, default_header, reqrep, deliver}
use asio.Platform.Sample.{sample, sample_name}
use asio.SessionRoom.{SessionRoom}
use asio.MsgBus.{pre_handle_message}
use asio.MsgBus.Routes.{Arrival, handle_all, waits_for, reply_calls, reply_route}

abbrev room : SessionRoom ℕ
room = record {
  subscribe_cache = [];
  deliver_cache = (sample_name, 3 ∷ []) ∷ [];
  session_cache = (1, 1) ∷ (2, 2) ∷ (3, 3) ∷ [];
}

abbrev first_request : Package Bytes
first_request = record (new_package Bytes) {
  header = record default_header { msg_type = reqrep; msg_id = 1 };
  type_name = sample_name;
}

abbrev reply : Package Bytes
reply = record first_request { header = record default_header { msg_type = deliver; msg_id = 1 } }

abbrev requests : List (Arrival Bytes)
requests = (1, first_request) ∷ (2, first_request) ∷ []

reply_route_example :
    (pre_handle_message sample room 3 reply (handle_all sample room requests [])).calls
    ≡ reply_calls sample room (waits_for 1 requests none) reply
reply_route_example = reply_route sample room requests 3 reply refl refl

abbrev same : ℕ → ℕ
same i = i

room-OwnIds : OwnIds same room.session_cache
unfolding find
room-OwnIds i p e = ground (arith, e)

abbrev publication : Package Bytes
publication = record first_request {
  header = record default_header { msg_type = pubsub; msg_id = 1 };
}

relay_reaches_example :
    contains 3 (map (callee same) (pre_handle_message sample room 1 publication []).calls)
    ≡ (subscribed deliver sample_name 3 room && is_some (find 3 room.session_cache))
relay_reaches_example =
    relay_reaches sample same room 1 3 publication [] room-OwnIds refl (inr refl)
