-- ===== src/SessionRoom/Subscriptions.antt =====
-- asio/internal/Session.cpp, class SessionRoom: who is subscribed after each method.
use asio.Prelude.{
  ℕ, ◌≡◌, refl, ap, ◌∙◌, Bool, false, not, ◌&&◌, ◌||◌, List, [], ◌∷◌, Option, none, some, ◌==◌,
  if◌then◌else◌, Bytes, bytes_beq, arith, inl, inr, Bool-cases, nat_key, bytes_key,
}
use asio.Prelude.Assoc.{contains}
use asio.SessionRoom.Sets.{
  SetsAscend, contains-insert_id, contains-remove_id_name, contains-remove_id, insert_id-SetsAscend,
  remove_id_name-SetsAscend, remove_id-SetsAscend,
}
use asio.Package.{pubsub, deliver}
use asio.SessionRoom.{SessionRoom, ids_of, add_subscribe, del_subscribe, join, leave}

module _ {P : Type 0} where
  -- Whether a session is subscribed to a type, for publications or for deliveries.
  unfoldable pub subscribed : ℕ → Bytes → ℕ → SessionRoom P → Bool
  subscribed t name j room =
      if t == pubsub
      then contains j (ids_of name room.subscribe_cache)
      else if t == deliver
      then contains j (ids_of name room.deliver_cache)
      else false

  pub record IsValid (room : SessionRoom P) : Type 0 where
    pub subscribe_ascend : SetsAscend room.subscribe_cache
    pub deliver_ascend : SetsAscend room.deliver_cache

-- What happens to a room, one method call at a time.
pub data Event (P : Type 0) : Type 0 where
  joins leaves : Option P → Event P
  adds dels : ℕ → ℕ → Bytes → Event P

module _ {P : Type 0} (id_of : P → ℕ) where
  unfoldable pub step : Event P → SessionRoom P → SessionRoom P
  step (joins p) room = join id_of p room
  step (leaves p) room = leave id_of p room
  step (adds i t name) room = add_subscribe i t name room
  step (dels i t name) room = del_subscribe i t name room

  unfoldable pub run : List (Event P) → SessionRoom P → SessionRoom P
  run [] room = room
  run (e ∷ es) room = run es (step e room)

  -- The abstract view: one switch for each session, type and kind. The session's own `adds` with a
  -- known kind turns it on, its `dels` and its leaving turn it off.
  abbrev pub is_id : Option P → ℕ → Bool
  is_id none j = false
  is_id (some p) j = id_of p == j

  unfoldable pub wants : ℕ → Bytes → ℕ → Event P → Bool → Bool
  wants t name j (joins p) now = now
  wants t name j (leaves p) now = not (is_id p j) && now
  wants t name j (adds i u other) now =
      (t == pubsub || t == deliver) && (u == t && (bytes_beq other name && i == j)) || now
  wants t name j (dels i u other) now = not (u == t && (bytes_beq other name && i == j)) && now

  unfoldable pub wants_after : ℕ → Bytes → ℕ → List (Event P) → Bool → Bool
  wants_after t name j [] now = now
  wants_after t name j (e ∷ es) now = wants_after t name j es (wants t name j e now)

  step-IsValid : (e : Event P) (room : SessionRoom P) → IsValid room → IsValid (step e room)
  unfolding step join leave add_subscribe del_subscribe
  step-IsValid (joins none) room v = v
  step-IsValid (joins (some p)) room v = record {
    subscribe_ascend = v.subscribe_ascend;
    deliver_ascend = v.deliver_ascend;
  }
  step-IsValid (leaves none) room v = v
  step-IsValid (leaves (some p)) room v = record {
    subscribe_ascend = remove_id-SetsAscend (id_of p) room.subscribe_cache v.subscribe_ascend;
    deliver_ascend = remove_id-SetsAscend (id_of p) room.deliver_cache v.deliver_ascend;
  }
  step-IsValid (adds i t name) room v = elim (Bool-cases (t == pubsub)) [
    | inl e ↦ rw e (record {
      subscribe_ascend = insert_id-SetsAscend i name room.subscribe_cache v.subscribe_ascend;
      deliver_ascend = v.deliver_ascend;
    })
    | inr e ↦ elim (Bool-cases (t == deliver)) [
      | inl f ↦
          rw (e, f)
            (record {
              subscribe_ascend = v.subscribe_ascend;
              deliver_ascend = insert_id-SetsAscend i name room.deliver_cache v.deliver_ascend;
            })
      | inr f ↦ rw (e, f) v
    ]
  ]
  step-IsValid (dels i t name) room v = elim (Bool-cases (t == pubsub)) [
    | inl e ↦ rw e (record {
      subscribe_ascend = remove_id_name-SetsAscend i name room.subscribe_cache v.subscribe_ascend;
      deliver_ascend = v.deliver_ascend;
    })
    | inr e ↦ elim (Bool-cases (t == deliver)) [
      | inl f ↦
          rw (e, f)
            (record {
              subscribe_ascend = v.subscribe_ascend;
              deliver_ascend = remove_id_name-SetsAscend i name room.deliver_cache v.deliver_ascend;
            })
      | inr f ↦ rw (e, f) v
    ]
  ]

  pub subscribed-step :
      (t : ℕ) (name : Bytes) (j : ℕ) (e : Event P) (room : SessionRoom P)
      → IsValid room
      → subscribed t name j (step e room) ≡ wants t name j e (subscribed t name j room)
  unfolding subscribed step wants join leave add_subscribe del_subscribe
  subscribed-step t name j (joins none) room v = refl
  subscribed-step t name j (joins (some p)) room v = refl
  subscribed-step t name j (leaves none) room v = ground arith
  subscribed-step t name j (leaves (some p)) room v = ground (
    arith,
    contains-remove_id (id_of p) j name room.subscribe_cache v.subscribe_ascend,
    contains-remove_id (id_of p) j name room.deliver_cache v.deliver_ascend,
  )
  subscribed-step t name j (adds i u other) room v = ground (
    arith,
    contains-insert_id i j other name room.subscribe_cache,
    contains-insert_id i j other name room.deliver_cache,
  )
  subscribed-step t name j (dels i u other) room v = ground (
    arith,
    contains-remove_id_name i j other name room.subscribe_cache v.subscribe_ascend,
    contains-remove_id_name i j other name room.deliver_cache v.deliver_ascend,
  )

  -- After any sequence of method calls on a valid room, the room is valid, and whether a session is
  -- subscribed to a type is what its own switch says: turned on by `addSubscribe` with that session,
  -- type and kind, turned off by such a `delSubscribe` and by the session's leaving, and touched by
  -- nothing else.
  pub subscribed-run :
      (t : ℕ) (name : Bytes) (j : ℕ) (es : List (Event P)) (room : SessionRoom P)
      → IsValid room
      → IsValid (run es room)
        × (subscribed t name j (run es room) ≡ wants_after t name j es (subscribed t name j room))
  unfolding run wants_after
  subscribed-run t name j [] room v = (v, refl)
  subscribed-run t name j (e ∷ es) room v =
      let r = subscribed-run t name j es (step e room) (step-IsValid e room v) in
      (r.0, r.1 ∙ ap (wants_after t name j es) (subscribed-step t name j e room v))
