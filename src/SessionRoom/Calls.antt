-- ===== src/SessionRoom/Calls.antt =====
-- asio/internal/Session.cpp, class SessionRoom: which sessions a publication or a delivery reaches.
use asio.Prelude.{
  ℕ, suc, ◌≡◌, refl, ◌∙◌, Bool, true, false, not, ◌&&◌, ◌||◌, List, [], ◌∷◌, Option, none, some,
  map, ◌==◌, arith, inl, inr, Option-cases, nat_key, All,
}
use asio.Prelude.Assoc.{
  find, contains, IsAscending, find-assign, find-erase, IsAscending-weaken, signed_rank,
}
use asio.Package.{Package, pubsub, deliver}
use asio.Platform.{Platform}
use asio.SessionRoom.{
  SessionRoom, Call, publishes, delivers, for_sessions, ids_of, publish_message, deliver_package,
  join, leave, add_subscribe, del_subscribe,
}
use asio.SessionRoom.Subscriptions.{
  IsValid, subscribed, subscribed-run, run, step, Event, joins, leaves, adds, dels,
}

abbrev pub is_some : {A : Type 0} → Option A → Bool
is_some none = false
is_some (some a) = true

module _ {P : Type 0} (id_of : P → ℕ) where
  -- Every session is stored under its own id.
  abbrev pub OwnIds : List (ℕ × P) → Type 0
  OwnIds sessions = (i : ℕ) (p : P) → find i sessions ≡ some p → id_of p ≡ i

  -- The ids of the sessions that calls are made of.
  abbrev pub callee : {M : Type 0} → Call M P → ℕ
  callee (publishes p m) = id_of p
  callee (delivers p pac) = id_of p

  -- The abstract view: whether a session of an id is there.
  abbrev pub present : ℕ → Event P → Bool → Bool
  present j (joins none) now = now
  present j (joins (some p)) now = id_of p == j || now
  present j (leaves none) now = now
  present j (leaves (some p)) now = not (id_of p == j) && now
  present j (adds i t name) now = now
  present j (dels i t name) now = now

  abbrev pub joins_id : ℕ → Event P → Bool
  joins_id j (joins none) = false
  joins_id j (joins (some p)) = id_of p == j
  joins_id j (leaves p) = false
  joins_id j (adds i t name) = false
  joins_id j (dels i t name) = false

  pub for_sessions-contains :
      {C : Type 0} (call : P → C) (to : C → ℕ)
      → ((p : P) → to (call p) ≡ id_of p)
      → (sessions : List (ℕ × P)) → OwnIds sessions
      → (j : ℕ) (ids : List ℕ)
      → contains j (map to (for_sessions call sessions ids))
        ≡ (contains j ids && is_some (find j sessions))
  unfolding for_sessions contains
  for_sessions-contains call to same sessions own j [] = refl
  for_sessions-contains call to same sessions own j (i ∷ ids) =
      elim (Option-cases (find i sessions)) [
        | inl e ↦ rw e (ground (arith, e, for_sessions-contains call to same sessions own j ids))
        | inr (p, e) ↦ rw e (
            ground
              (arith, e, same p, own i p e, for_sessions-contains call to same sessions own j ids))
      ]

  for_sessions-Ascending :
      {C : Type 0} (call : P → C) (to : C → ℕ)
      → ((p : P) → to (call p) ≡ id_of p)
      → (sessions : List (ℕ × P)) → OwnIds sessions
      → (n : ℕ) (ids : List ℕ) → IsAscending n ids
      → IsAscending n (map to (for_sessions call sessions ids))
  unfolding for_sessions
  for_sessions-Ascending call to same sessions own n [] a = tt
  for_sessions-Ascending call to same sessions own n (i ∷ ids) a =
      let rest = for_sessions-Ascending call to same sessions own (suc (signed_rank i)) ids a.1 in
      elim (Option-cases (find i sessions)) [
        | inl e ↦ rw e (IsAscending-weaken n (suc (signed_rank i)) _ (omega arith) rest)
        | inr (p, e) ↦ rw (e, same p, own i p e) (a.0, rest)
      ]

  step-OwnIds :
      (e : Event P) (room : SessionRoom P)
      → OwnIds room.session_cache
      → OwnIds (step id_of e room).session_cache
  unfolding step join leave add_subscribe del_subscribe
  step-OwnIds (joins none) room own i q e = own i q e
  step-OwnIds (joins (some p)) room own i q e =
      ground (arith, find-assign (id_of p) i p room.session_cache, own i q)
  step-OwnIds (leaves none) room own i q e = own i q e
  step-OwnIds (leaves (some p)) room own i q e =
      ground (arith, find-erase (id_of p) i room.session_cache, own i q)
  step-OwnIds (adds i t name) room own j q e = ground (arith, own j q)
  step-OwnIds (dels i t name) room own j q e = ground (arith, own j q)

  -- Whether a session is there, after any method call.
  pub is_some-step :
      (j : ℕ) (e : Event P) (room : SessionRoom P)
      → is_some (find j (step id_of e room).session_cache)
        ≡ present j e (is_some (find j room.session_cache))
  unfolding step join leave add_subscribe del_subscribe
  is_some-step j (joins none) room = refl
  is_some-step j (joins (some p)) room =
      ground (arith, find-assign (id_of p) j p room.session_cache)
  is_some-step j (leaves none) room = refl
  is_some-step j (leaves (some p)) room = ground (arith, find-erase (id_of p) j room.session_cache)
  is_some-step j (adds i t name) room = ground arith
  is_some-step j (dels i t name) room = ground arith

  pub run-OwnIds :
      (es : List (Event P)) (room : SessionRoom P)
      → OwnIds room.session_cache
      → OwnIds (run id_of es room).session_cache
  unfolding run
  run-OwnIds [] room own = own
  run-OwnIds (e ∷ es) room own = run-OwnIds es (step id_of e room) (step-OwnIds e room own)

  still_out :
      (j : ℕ) (e : Event P) (now : Bool)
      → joins_id j e ≡ false
      → now ≡ false
      → present j e now ≡ false
  still_out j (joins none) now q h = h
  still_out j (joins (some p)) now q h = ground arith
  still_out j (leaves none) now q h = h
  still_out j (leaves (some p)) now q h = ground arith
  still_out j (adds i t name) now q h = h
  still_out j (dels i t name) now q h = h

  absent-run :
      (j : ℕ) (es : List (Event P)) (room : SessionRoom P)
      → is_some (find j room.session_cache) ≡ false
      → All (λ e. joins_id j e ≡ false) es
      → is_some (find j (run id_of es room).session_cache) ≡ false
  unfolding run
  absent-run j [] room out quiet = out
  absent-run j (e ∷ es) room out quiet =
      absent-run j es (step id_of e room) (is_some-step j e room ∙ still_out j e _ quiet.0 out)
        quiet.1

  module _ (env : Platform) where
    -- `publishMessage` calls exactly the sessions that are there and are subscribed to publications
    -- of the message's type, and `deliverPackage` those subscribed to deliveries of the package's
    -- type: each of them once, in the order of their ids as `int`s. The room is any valid one whose sessions
    -- are stored under their ids.
    pub calls_reach :
        (msg : env.Message) (pac : Package env.Message) (j : ℕ) (room : SessionRoom P)
        → IsValid room
        → OwnIds room.session_cache
        → let published = map callee (publish_message env msg room) in
          let delivered = map callee (deliver_package env pac room) in
          let there = is_some (find j room.session_cache) in
          (contains j published ≡ (subscribed pubsub (env.type_name_of msg) j room && there))
          × (contains j delivered ≡ (subscribed deliver pac.type_name j room && there))
          × IsAscending 0 published
          × IsAscending 0 delivered
    unfolding publish_message deliver_package subscribed
    calls_reach msg pac j room v own =
        let s = room.session_cache in
        let p : P → Call env.Message P = λ q. publishes q msg in
        let d : P → Call env.Message P = λ q. delivers q pac in
        (
          for_sessions-contains p callee (λ q. refl) s own j
              (ids_of (env.type_name_of msg) room.subscribe_cache),
          for_sessions-contains d callee (λ q. refl) s own j
              (ids_of pac.type_name room.deliver_cache),
          for_sessions-Ascending p callee (λ q. refl) s own 0 _
              (v.subscribe_ascend (env.type_name_of msg)),
          for_sessions-Ascending d callee (λ q. refl) s own 0 _ (v.deliver_ascend pac.type_name),
        )

    -- Once a session has left, no publication and no delivery reaches it, whatever is subscribed
    -- and whoever leaves or joins in the meantime, until a session of its id joins.
    pub left_is_silent :
        (msg : env.Message) (pac : Package env.Message) (p : P) (es : List (Event P))
        (room : SessionRoom P)
        → IsValid room
        → OwnIds room.session_cache
        → All (λ e. joins_id (id_of p) e ≡ false) es
        → let after = run id_of es (leave id_of (some p) room) in
          (contains (id_of p) (map callee (publish_message env msg after)) ≡ false)
          × (contains (id_of p) (map callee (deliver_package env pac after)) ≡ false)
    unfolding run step
    left_is_silent msg pac p es room v own quiet =
        let gone = leave id_of (some p) room in
        let after = run id_of es gone in
        let valid = (subscribed-run id_of pubsub [] 0 (leaves (some p) ∷ es) room v).0 in
        let reach =
          calls_reach msg pac (id_of p) after valid (run-OwnIds (leaves (some p) ∷ es) room own) in
        let gone_out = is_some-step (id_of p) (leaves (some p)) room in
        let out = absent-run (id_of p) es gone (ground (arith, gone_out)) quiet in
        (ground (arith, reach.0, out), ground (arith, reach.1, out))
