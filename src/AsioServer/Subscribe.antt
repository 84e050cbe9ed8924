-- ===== src/AsioServer/Subscribe.antt =====
-- asio/internal/AsioServer.cpp, class AsioServer: who is subscribed after a subscription request.
use asio.Prelude.{
  if-same, ℕ, ◌≡◌, refl, sym, ap, ◌∙◌, Bool, true, false, not, ◌&&◌, ◌||◌, List, [], ◌∷◌, ◌==◌,
  if◌then◌else◌, Bytes, bytes_beq, length, arith, Bool-cases, inl, inr,
}
use mathlib.Core.Path.{subst}
use asio.Package.{pubsub, deliver}
use asio.SessionRoom.{SessionRoom, add_subscribe, del_subscribe}
use asio.SessionRoom.Subscriptions.{
  Event, adds, dels, IsValid, subscribed, step, run, wants, wants_after, subscribed-run,
}
use asio.AsioServer.{SubscribeReq, subscribe_loop, do_subscribe}

-- Whether a request lists a kind with a type name.
unfoldable pub lists : ℕ → Bytes → List ℕ → List Bytes → Bool
lists t name (u ∷ us) (other ∷ others) = (u == t && bytes_beq other name) || lists t name us others
lists t name _ _ = false

-- The switch of a session after a request of another or the same session.
unfoldable pub switched : ℕ → Bytes → ℕ → ℕ → SubscribeReq → Bool → Bool
switched t name j session req now =
    if length req.type_name_list == length req.msg_type_list
    then (if req.kind == 1
        then (t == pubsub || t == deliver)
            && (session == j && lists t name req.msg_type_list req.type_name_list)
          || now
        else not (session == j && lists t name req.msg_type_list req.type_name_list) && now)
    else now

module _ {P : Type 0} where
  subscribe_loop-session_cache :
      (session kind : ℕ) (ts : List ℕ) (names : List Bytes) (room : SessionRoom P)
      → (subscribe_loop session kind ts names room).session_cache ≡ room.session_cache
  unfolding subscribe_loop add_subscribe del_subscribe
  subscribe_loop-session_cache session kind [] names room = refl
  subscribe_loop-session_cache session kind (t ∷ ts) [] room = refl
  subscribe_loop-session_cache session kind (t ∷ ts) (name ∷ names) room =
      subscribe_loop-session_cache session kind ts names _ ∙ ground arith

  -- A subscription request leaves the sessions of the room as they are.
  pub do_subscribe-session_cache :
      (session : ℕ) (req : SubscribeReq) (room : SessionRoom P)
      → (do_subscribe session req room).1.session_cache ≡ room.session_cache
  unfolding do_subscribe
  do_subscribe-session_cache session req room =
      if-same (λ (x : Bool × SessionRoom P). x.1.session_cache)
        (length req.type_name_list == length req.msg_type_list) _ _ _
        (subscribe_loop-session_cache session req.kind req.msg_type_list req.type_name_list room)
        refl

module _ {P : Type 0} (id_of : P → ℕ) where
  -- The loop as calls of the room's methods: `adds` where the flag is true.
  event : Bool → ℕ → ℕ → Bytes → Event P
  event true session t name = adds session t name
  event false session t name = dels session t name

  events : Bool → ℕ → List ℕ → List Bytes → List (Event P)
  events on session (t ∷ ts) (name ∷ names) = event on session t name ∷ events on session ts names
  events on session _ _ = []

  step-event :
      (on : Bool) (session t : ℕ) (name : Bytes) (room : SessionRoom P)
      → step id_of (event on session t name) room
        ≡ (if on then add_subscribe session t name room else del_subscribe session t name room)
  unfolding step event
  step-event true session t name room = refl
  step-event false session t name room = refl

  run-events :
      (session kind : ℕ) (ts : List ℕ) (names : List Bytes) (room : SessionRoom P)
      → run id_of (events (kind == 1) session ts names) room
        ≡ subscribe_loop session kind ts names room
  unfolding run events subscribe_loop
  run-events session kind [] names room = refl
  run-events session kind (t ∷ ts) [] room = refl
  run-events session kind (t ∷ ts) (name ∷ names) room =
      ap (run id_of (events (kind == 1) session ts names))
        (step-event (kind == 1) session t name room)
      ∙ run-events session kind ts names _

  -- What the listed events make of a switch.
  after : Bool → ℕ → Bytes → ℕ → ℕ → Bool → Bool → Bool
  after true t name j session listed now =
      (t == pubsub || t == deliver) && (session == j && listed) || now
  after false t name j session listed now = not (session == j && listed) && now

  wants-event :
      (on : Bool) (session t u j : ℕ) (name other : Bytes) (rest now : Bool)
      → after on t name j session rest (wants id_of t name j (event on session u other) now)
        ≡ after on t name j session (u == t && bytes_beq other name || rest) now
  unfolding after wants event
  wants-event true session t u j name other rest now = ground arith
  wants-event false session t u j name other rest now = ground arith

  after-none :
      (on : Bool) (t : ℕ) (name : Bytes) (j session : ℕ) (now : Bool)
      → now ≡ after on t name j session false now
  unfolding after
  after-none true t name j session now = ground arith
  after-none false t name j session now = ground arith

  wants-events :
      (on : Bool) (session t j : ℕ) (name : Bytes) (ts : List ℕ) (names : List Bytes) (now : Bool)
      → wants_after id_of t name j (events on session ts names) now
        ≡ after on t name j session (lists t name ts names) now
  unfolding wants_after events lists
  wants-events on session t j name [] names now = after-none on t name j session now
  wants-events on session t j name (u ∷ ts) [] now = after-none on t name j session now
  wants-events on session t j name (u ∷ ts) (other ∷ names) now =
      wants-events on session t j name ts names _
      ∙ wants-event on session t u j name other (lists t name ts names) now

  unswitched :
      (t j session : ℕ) (name : Bytes) (req : SubscribeReq) (now : Bool)
      → (length req.type_name_list == length req.msg_type_list) ≡ false
      → now ≡ switched t name j session req now
  unfolding switched
  unswitched t j session name req now e = rw e refl

  after-switched :
      (t j session : ℕ) (name : Bytes) (req : SubscribeReq) (now : Bool)
      → (length req.type_name_list == length req.msg_type_list) ≡ true
      → after
          (req.kind == 1)
          t
          name
          j
          session
          (lists t name req.msg_type_list req.type_name_list)
          now
        ≡ switched t name j session req now
  unfolding after switched
  after-switched t j session name req now e = elim (Bool-cases (req.kind == 1)) [
    | inl k ↦ rw (e, k) refl
    | inr k ↦ rw (e, k) refl
  ]

  subscribed_with :
      (t : ℕ) (name : Bytes) (j session : ℕ) (req : SubscribeReq) (room : SessionRoom P)
      → IsValid room
      → IsValid (do_subscribe session req room).1
        × (subscribed t name j (do_subscribe session req room).1
            ≡ switched t name j session req (subscribed t name j room))
        × ((do_subscribe session req room).0
            ≡ (length req.type_name_list == length req.msg_type_list))
  unfolding do_subscribe
  subscribed_with t name j session req room v =
      elim (Bool-cases (length req.type_name_list == length req.msg_type_list)) [
        | inl e ↦
            let es = events (req.kind == 1) session req.msg_type_list req.type_name_list in
            let r = subscribed-run id_of t name j es room v in
            let same = run-events session req.kind req.msg_type_list req.type_name_list room in
            rw e (
              subst IsValid same r.0,
              sym (ap (subscribed t name j) same)
                  ∙ r.1
                  ∙ wants-events (req.kind == 1) session t j name req.msg_type_list
                      req.type_name_list _
                  ∙ after-switched t j session name req (subscribed t name j room) e,
              refl,
            )
        | inr e ↦ rw e (v, unswitched t j session name req (subscribed t name j room) e, refl)
      ]

-- A subscription request on a valid room leaves it valid. Where its two lists have one length, the
-- session that sent it is then subscribed to what they list (kind 1: only the two known kinds count),
-- or no longer (any other kind), and nothing else changes, for no session; where they do not,
-- nothing changes and no reply is sent.
pub do_subscribe-subscribed :
    {P : Type 0} (t : ℕ) (name : Bytes) (j session : ℕ) (req : SubscribeReq) (room : SessionRoom P)
    → IsValid room
    → IsValid (do_subscribe session req room).1
      × (subscribed t name j (do_subscribe session req room).1
          ≡ switched t name j session req (subscribed t name j room))
      × ((do_subscribe session req room).0
          ≡ (length req.type_name_list == length req.msg_type_list))
do_subscribe-subscribed t name j session req room v =
    subscribed_with (λ p. 0) t name j session req room v
