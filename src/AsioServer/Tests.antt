-- ===== src/AsioServer/Tests.antt =====
-- A subscription request on the empty room.
use asio.Prelude.{ℕ, ◌≡◌, [], ◌∷◌, bytes_key, length, ◌==◌}
use asio.Prelude.Assoc.{find}
use asio.Package.{pubsub, deliver}
use asio.Platform.Sample.{sample_name}
use asio.SessionRoom.{SessionRoom, empty_room, ids_of}
use asio.SessionRoom.Subscriptions.{IsValid, subscribed}
use asio.AsioServer.{SubscribeReq, do_subscribe}
use asio.AsioServer.Subscribe.{switched, do_subscribe-subscribed}

abbrev empty : SessionRoom ℕ
empty = empty_room

empty-IsValid : IsValid empty
unfolding ids_of find
empty-IsValid = record { subscribe_ascend = λ name. tt; deliver_ascend = λ name. tt }

abbrev req : SubscribeReq
req = record {
  kind = 1;
  msg_type_list = pubsub ∷ deliver ∷ [];
  type_name_list = sample_name ∷ sample_name ∷ [];
}

do_subscribe-subscribed_example :
    IsValid (do_subscribe 4 req empty).1
    × (subscribed deliver sample_name 4 (do_subscribe 4 req empty).1
        ≡ switched deliver sample_name 4 4 req (subscribed deliver sample_name 4 empty))
    × ((do_subscribe 4 req empty).0 ≡ (length req.type_name_list == length req.msg_type_list))
do_subscribe-subscribed_example =
    do_subscribe-subscribed deliver sample_name 4 4 req empty empty-IsValid
