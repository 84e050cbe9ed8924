-- ===== src/SessionRoom.antt =====
-- asio/internal/Session.h and Session.cpp, class SessionRoom: which sessions are there, and which of
-- them asked for which message types. Each method runs under the locks of the room, so it is one step.
-- A publisher is any object with an id; the room's calls of `publishMessage` and `deliverPackage`
-- are listed in the order in which they are made.
pub mod Sets
pub mod Subscriptions
pub mod Calls
mod Tests
use asio.Prelude.{
  ℕ, ◌+◌, ◌≡◌, Bool, true, false, List, [], ◌∷◌, Option, none, some, ◌==◌, if◌then◌else◌, Bytes,
  nat_key, bytes_key,
}
use asio.Prelude.Assoc.{find, assign, erase, map_values, contains, set_insert, set_erase}
use asio.Package.{Package, pubsub, deliver}
use asio.Platform.{Platform}

abbrev pub IdSets : Type 0
IdSets = List (Bytes × List ℕ)

pub record SessionRoom (P : Type 0) : Type 0 where
  pub subscribe_cache : IdSets
  pub deliver_cache : IdSets
  pub session_cache : List (ℕ × P)

abbrev pub set_found : Option (List ℕ) → List ℕ
set_found none = []
set_found (some ids) = ids

-- The ids under a name; `mp[name]` makes an empty set where there is none.
unfoldable pub ids_of : Bytes → IdSets → List ℕ
ids_of name mp = set_found (find name mp)

-- `mp[name].insert(id)`.
unfoldable pub insert_id : ℕ → Bytes → IdSets → IdSets
insert_id i name mp = assign name (set_insert i (ids_of name mp)) mp

-- `removeIdName`, with what `find` gives.
abbrev remove_found : ℕ → Bytes → Option (List ℕ) → IdSets → IdSets
remove_found i name none mp = mp
remove_found i name (some ids) mp = if contains i ids then assign name (set_erase i ids) mp else mp

unfoldable pub remove_id_name : ℕ → Bytes → IdSets → IdSets
remove_id_name i name mp = remove_found i name (find name mp) mp

-- `removeId`: from every set.
unfoldable pub remove_id : ℕ → IdSets → IdSets
remove_id i mp = map_values (λ ids. if contains i ids then set_erase i ids else ids) mp

module _ {P : Type 0} where
  -- A room as its constructor leaves it.
  abbrev pub empty_room : SessionRoom P
  empty_room = record { subscribe_cache = []; deliver_cache = []; session_cache = [] }

  unfoldable pub add_subscribe : ℕ → ℕ → Bytes → SessionRoom P → SessionRoom P
  add_subscribe session_id msgtype name room =
      if msgtype == pubsub
      then record room { subscribe_cache = insert_id session_id name room.subscribe_cache }
      else if msgtype == deliver
      then record room { deliver_cache = insert_id session_id name room.deliver_cache }
      else room

  unfoldable pub del_subscribe : ℕ → ℕ → Bytes → SessionRoom P → SessionRoom P
  del_subscribe session_id msgtype name room =
      if msgtype == pubsub
      then record room { subscribe_cache = remove_id_name session_id name room.subscribe_cache }
      else if msgtype == deliver
      then record room { deliver_cache = remove_id_name session_id name room.deliver_cache }
      else room

module _ {P : Type 0} (id_of : P → ℕ) where
  -- The argument is `none` where the pointer is null.
  unfoldable pub join : Option P → SessionRoom P → SessionRoom P
  join none room = room
  join (some publisher) room = record room {
    session_cache = assign (id_of publisher) publisher room.session_cache;
  }

  unfoldable pub leave : Option P → SessionRoom P → SessionRoom P
  leave none room = room
  leave (some publisher) room =
      let session_id = id_of publisher in
      record {
        subscribe_cache = remove_id session_id room.subscribe_cache;
        deliver_cache = remove_id session_id room.deliver_cache;
        session_cache = erase session_id room.session_cache;
      }

-- A call that the room makes of one of its sessions.
pub data Call (M P : Type 0) : Type 0 where
  publishes : P → M → Call M P
  delivers : P → Package M → Call M P

abbrev call_found : {P C : Type 0} → (P → C) → Option P → List C → List C
call_found call none rest = rest
call_found call (some session) rest = call session ∷ rest

-- The loop over the ids: a call for each id whose session is there.
unfoldable pub for_sessions : {P C : Type 0} → (P → C) → List (ℕ × P) → List ℕ → List C
for_sessions call sessions [] = []
for_sessions call sessions (i ∷ ids) =
    call_found call (find i sessions) (for_sessions call sessions ids)

module _ (env : Platform) {P : Type 0} where
  unfoldable pub publish_message : env.Message → SessionRoom P → List (Call env.Message P)
  publish_message msg room =
      for_sessions (λ session. publishes session msg) room.session_cache
        (ids_of (env.type_name_of msg) room.subscribe_cache)

  unfoldable pub deliver_package : Package env.Message → SessionRoom P → List (Call env.Message P)
  deliver_package pac room =
      for_sessions (λ session. delivers session pac) room.session_cache
        (ids_of pac.type_name room.deliver_cache)

  abbrev deliver_found : Package env.Message → Option P → Bool × List (Call env.Message P)
  deliver_found pac none = (false, [])
  deliver_found pac (some session) = (true, delivers session pac ∷ [])

  -- `deliverPackage(id, pac)`, with its answer.
  unfoldable pub deliver_package_to :
      ℕ → Package env.Message → SessionRoom P → Bool × List (Call env.Message P)
  deliver_package_to i pac room = deliver_found pac (find i room.session_cache)
