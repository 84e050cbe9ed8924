-- ===== src/SessionRoom/Tests.antt =====
-- A concrete room, and the theorems about rooms at concrete inputs. A publisher is its id here.
use asio.Prelude.{ℕ, ◌≡◌, refl, false, ◌&&◌, List, [], ◌∷◌, some, Bytes, map, bytes_beq, nat_key}
use asio.Prelude.Assoc.{find, assign, contains, set_insert, signed_rank, IsAscending}
use asio.Package.{Package, pubsub, deliver, new_package}
use asio.Platform.Sample.{sample, sample_name}
use asio.SessionRoom.{
  SessionRoom, empty_room, publish_message, deliver_package, leave, join, ids_of, insert_id,
  for_sessions, add_subscribe, del_subscribe,
}
use asio.SessionRoom.Subscriptions.{
  Event, joins, adds, dels, IsValid, subscribed, run, step, wants_after, subscribed-run,
}
use asio.SessionRoom.Calls.{OwnIds, callee, is_some, run-OwnIds, calls_reach, left_is_silent}

abbrev same : ℕ → ℕ
same i = i

abbrev empty : SessionRoom ℕ
empty = empty_room

empty-IsValid : IsValid empty
unfolding ids_of find
empty-IsValid = record { subscribe_ascend = λ name. tt; deliver_ascend = λ name. tt }

empty-OwnIds : OwnIds same empty.session_cache
unfolding find
empty-OwnIds i p e = cc

abbrev history : List (Event ℕ)
history =
    joins (some 2)
    ∷ joins (some 1)
    ∷ adds 2 pubsub sample_name
    ∷ adds 3 pubsub sample_name
    ∷ adds 1 pubsub sample_name
    ∷ adds 1 deliver sample_name
    ∷ dels 1 deliver sample_name
    ∷ []

busy : SessionRoom ℕ
busy = run same history empty

-- Sessions 1 and 2 are there and subscribed; 3 is subscribed and not there.
reached : map (callee same) (publish_message sample (b'h' ∷ []) busy) ≡ 1 ∷ 2 ∷ []
unfolding busy run step join add_subscribe insert_id ids_of find assign set_insert publish_message
    for_sessions del_subscribe bytes_beq signed_rank
reached = refl

busy-IsValid : IsValid busy
unfolding busy
busy-IsValid = (subscribed-run same pubsub sample_name 1 history empty empty-IsValid).0

busy-OwnIds : OwnIds same busy.session_cache
unfolding busy
busy-OwnIds = run-OwnIds same history empty empty-OwnIds

subscribed-run_example :
    IsValid (run same history empty)
    × (subscribed pubsub sample_name 1 (run same history empty)
        ≡ wants_after same pubsub sample_name 1 history (subscribed pubsub sample_name 1 empty))
subscribed-run_example = subscribed-run same pubsub sample_name 1 history empty empty-IsValid

abbrev order : Package Bytes
order = record (new_package Bytes) { type_name = sample_name }

calls_reach_example :
    let published = map (callee same) (publish_message sample (b'h' ∷ []) busy) in
    let delivered = map (callee same) (deliver_package sample order busy) in
    let there = is_some (find 1 busy.session_cache) in
    (contains 1 published ≡ (subscribed pubsub sample_name 1 busy && there))
    × (contains 1 delivered ≡ (subscribed deliver sample_name 1 busy && there))
    × IsAscending 0 published
    × IsAscending 0 delivered
calls_reach_example = calls_reach same sample (b'h' ∷ []) order 1 busy busy-IsValid busy-OwnIds

left_is_silent_example :
    let after =
      run same (adds 1 pubsub sample_name ∷ joins (some 4) ∷ []) (leave same (some 1) busy) in
    (contains 1 (map (callee same) (publish_message sample (b'h' ∷ []) after)) ≡ false)
    × (contains 1 (map (callee same) (deliver_package sample order after)) ≡ false)
left_is_silent_example =
    left_is_silent same sample (b'h' ∷ []) order 1 (adds 1 pubsub sample_name ∷ joins (some 4) ∷ [])
      busy busy-IsValid busy-OwnIds (refl, (refl, tt))
