-- ===== src/Exchange/Publishing.antt =====
-- asio/internal/AsioServer.cpp, `publishMessage`, with asio/internal/Session.cpp: what a publication
-- leaves to be written, in every session.
use asio.Prelude.{
  ℕ, suc, ◌≡◌, refl, sym, ap, ◌∙◌, Bool, true, false, ◌&&◌, ◌||◌, List, [], ◌∷◌, ◌++◌, Option, none,
  some, Exec, ok, ◌>>=◌, All, arith, map, nat_key, ◌==◌, ==_iff, Bool-cases, inl, inr, skip, chosen,
  Option-cases,
}
use mathlib.Core.Path.{subst}
use asio.Prelude.Assoc.{
  find, assign, find-assign, contains, contains_below, IsAscending, signed_rank,
}
use asio.Prelude.Int.{ℤ}
use asio.Prelude.Words.{increment}
use asio.Package.{Package, new_package, pubsub}
use asio.Platform.{Platform, IsLawful}
use asio.Buffer.{Buffer, content}
use asio.ProtoHelp.Header.{Fits}
use asio.ProtoHelp.RoundTrip.{received}
use asio.Session.{Session, publish_message, publication, post_package, post_encoded}
use asio.Session.Stream.{Frame}
use asio.SessionRoom.{
  Call, publishes, delivers, for_sessions, ids_of, publish_message as room_publish,
}
use asio.SessionRoom.Subscriptions.{IsValid, subscribed}
use asio.SessionRoom.Calls.{callee, calls_reach, is_some}
use asio.AsioServer.Server.{AsioServer, update_session, with_found, put_session}
use asio.AsioServer.Server.Tasks.{make_calls, publish}
use asio.AsioServer.Server.Soundness.{IsSound, Held, Held-assign}
use asio.Exchange.Sends.{Travels, Travels-Sends}
use asio.Exchange.Requesting.{rem_int_max-fits}

some_session : {a b : Session} → ◌≡◌ {A = Option Session} (some a) (some b) → a ≡ b
some_session {a} {b} e = ap from e
  where
    from : Option Session → Session
    from none = a
    from (some x) = x

-- What a room of ids keeps of each: the id itself.
abbrev pub same : ℕ → ℕ
same i = i

module _ (env : Platform) (limit : ℤ) (msg : env.Message) (t : Travels env limit msg) where
  -- The session with one more buffer to be written: where the flag is true the session has got a
  -- buffer that holds a frame of the publication, else it is as it was.
  abbrev pub Posted : Bool → Session → Option Session → Type 0
  Posted false s o = o ≡ some s
  Posted true s o =
      (b : Buffer) × (o
        ≡ some (record s { last_id = increment s.last_id; posted = s.posted ++ (b ∷ []) }))
      × Frame env
          (content b, received env (publication env (increment s.last_id) msg) msg t.written)

  publication-Fits : (next : ℕ) → Fits (publication env next msg).header
  publication-Fits next = record {
    flag0_right = refl;
    flag1_right = refl;
    msg_type_fits = omega arith;
    type_name_len_fits = omega arith;
    ext_info_fits = omega arith;
    msg_id_fits = rem_int_max-fits next;
    msg_size_fits = omega arith;
    pac_size_fits = omega arith;
  }

  publish_message-Posted :
      (law : IsLawful env) (s : Session)
      → (s' : Session) × (publish_message env limit (some msg) s ≡ ok s') × Posted true s (some s')
  unfolding publish_message post_package
  publish_message-Posted law s =
      let next = increment s.last_id in
      let s1 = record s { last_id = next } in
      let sends =
        Travels-Sends env limit law (publication env next msg) msg t refl refl
          (publication-Fits next) (omega arith) in
      let e = sends.encodes in
      (
        record s { last_id = next; posted = s.posted ++ (e.buffer ∷ []) },
        ap
            (λ (x : Exec (Bool × Package env.Message × Buffer)). (do
              r ← (do y ← x; ok (post_encoded env s1 y))
              ok r.1))
            e.encodes,
        (
          e.buffer,
          refl,
          subst (λ w. Frame env (w, received env (publication env next msg) msg t.written))
              (sym e.holds) sends.carries,
        ),
      )

  -- A call that publishes the message.
  abbrev Publishes : Call env.Message ℕ → Type 0
  Publishes (publishes i m) = m ≡ msg
  Publishes (delivers i p) = ⊥

  Publishing : List (Call env.Message ℕ) → List (ℕ × Session) → Type 0
  Publishing calls sessions = All (λ c. Publishes c × Held (callee same c) sessions) calls

  Publishing-assign :
      (calls : List (Call env.Message ℕ)) (i : ℕ) (s : Session) (sessions : List (ℕ × Session))
      → Publishing calls sessions
      → Publishing calls (assign i s sessions)
  unfolding Publishing
  Publishing-assign [] i s sessions h = tt
  Publishing-assign (c ∷ calls) i s sessions h = (
    (h.0.0, Held-assign (callee same c) i s sessions h.0.1),
    Publishing-assign calls i s sessions h.1,
  )

  -- What publications leave of a session.
  Reached :
      {U W : Type 0}
      → List (Call env.Message ℕ)
      → List (ℕ × Session)
      → AsioServer env.Message U W
      → Type 0
  Reached calls sessions server' =
      (j : ℕ) (s : Session)
      → find j sessions ≡ some s
      → Posted (contains j (map (callee same) calls)) s (find j server'.sessions)

  reached :
      {U W : Type 0} (calls : List (Call env.Message ℕ)) (sessions : List (ℕ × Session))
      (server' : AsioServer env.Message U W)
      → Reached calls sessions server'
      → (j : ℕ) (s : Session) → find j sessions ≡ some s
      → Posted (contains j (map (callee same) calls)) s (find j server'.sessions)
  unfolding Reached
  reached calls sessions server' r = r

  make_calls-Reached :
      {U W : Type 0} (law : IsLawful env) (calls : List (Call env.Message ℕ)) (n : ℕ)
      (p : Package env.Message) (server : AsioServer env.Message U W)
      → Publishing calls server.sessions
      → IsAscending n (map (callee same) calls)
      → (server' : AsioServer env.Message U W) × (make_calls env limit calls p server
          ≡ ok (p, server'))
        × Reached calls server.sessions server'
  unfolding make_calls Publishing Reached contains
  make_calls-Reached law [] n p server h a = (server, refl, λ j s e. e)
  make_calls-Reached law (delivers i q ∷ calls) n p server h a = absurd h.0.0
  make_calls-Reached law (publishes i m ∷ calls) n p server h a =
      let s = h.0.1.0 in
      let one = publish_message-Posted law s in
      let server1 = put_session i one.0 server in
      let rest =
        make_calls-Reached law calls (suc (signed_rank i)) p server1
          (Publishing-assign calls i one.0 server.sessions h.1) a.1 in
      (
        rest.0,
        ap
              (λ (x : env.Message).
                update_session i (publish_message env limit (some x)) server
                >>= make_calls env limit calls p)
              h.0.0
            ∙ ap
                (λ (o : Option Session).
                  (with_found (publish_message env limit (some msg)) o >>= λ y.
                  ok (put_session i y server))
                  >>= make_calls env limit calls p)
                h.0.1.1
            ∙ ap
                (λ (x : Exec Session).
                  (x >>= λ y. ok (put_session i y server)) >>= make_calls env limit calls p)
                one.1
            ∙ rest.1,
        λ j s1 e. elim (Bool-cases (i == j)) [
          | inl here ↦
              let found = find-assign i j one.0 server.sessions ∙ chosen (i == j) _ _ here in
              let below =
                contains_below j (suc (signed_rank i)) (map (callee same) calls) a.1
                  (omega (arith, ap signed_rank ((==_iff i j).0 here))) in
              let kept : find j rest.0.sessions ≡ some one.0 =
                subst (λ f. Posted f one.0 (find j rest.0.sessions)) below (rest.2 j one.0 found) in
              let old : s ≡ s1 =
                some_session
                  (sym h.0.1.1 ∙ ap (λ k. find k server.sessions) ((==_iff i j).0 here) ∙ e) in
              subst (λ f. Posted f s1 (find j rest.0.sessions))
                (sym (ap (λ b. b || contains j (map (callee same) calls)) here))
                (subst (Posted true s1) (sym kept)
                  (subst (λ x. Posted true x (some one.0)) old one.2))
          | inr there ↦
              let found = find-assign i j one.0 server.sessions ∙ skip (i == j) _ _ there ∙ e in
              subst (λ f. Posted f s1 (find j rest.0.sessions))
                (sym (ap (λ b. b || contains j (map (callee same) calls)) there))
                (rest.2 j s1 found)
        ],
      )

  Publishing-for_sessions :
      {U W : Type 0} (n : ℕ) (server : AsioServer env.Message U W) (ids : List ℕ)
      → IsSound n server
      → Publishing
          (for_sessions (λ i. publishes i msg) server.room.session_cache ids)
          server.sessions
  unfolding for_sessions Publishing
  Publishing-for_sessions n server [] g = tt
  Publishing-for_sessions n server (i ∷ ids) g =
      let rest = Publishing-for_sessions n server ids g in
      elim (Option-cases (find i server.room.session_cache)) [
        | inl e ↦ rw e rest
        | inr (j, e) ↦
            let r = g.in_room i j e in
            rw e ((refl, subst (λ k. Held k server.sessions) (sym r.0) r.1), rest)
      ]

  -- On a lawful platform, a publication by a sound server with a valid room, of a message that can be
  -- serialized, of a type that the receivers know and that is not relayed, and not too long to be sent:
  -- it ends well, and every session that is there and is subscribed to publications of the message's
  -- type has then got one more buffer to be written, which holds a frame of the publication with the
  -- session's next message id; every other session is as it was.
  pub publish-Posted :
      {U W : Type 0} (law : IsLawful env) (n : ℕ) (server : AsioServer env.Message U W)
      → IsSound n server
      → IsValid server.room
      → (server' : AsioServer env.Message U W) × (publish env limit msg server ≡ ok server')
        × ((j : ℕ) (s : Session)
            → find j server.sessions ≡ some s
            → Posted
                (subscribed pubsub (env.type_name_of msg) j server.room
                  && is_some (find j server.room.session_cache))
                s
                (find j server'.sessions))
  unfolding publish room_publish
  publish-Posted law n server g v =
      let own = λ (i j : ℕ) (e : find i server.room.session_cache ≡ some j). (g.in_room i j e).0 in
      let reach =
        λ (j : ℕ). calls_reach same env msg (new_package env.Message) j server.room v own in
      let r =
        make_calls-Reached law (room_publish env msg server.room) 0 (new_package env.Message) server
          (Publishing-for_sessions n server
            (ids_of (env.type_name_of msg) server.room.subscribe_cache) g)
          (reach 0).2 in
      (
        r.0,
        ap (λ (x : Exec (Package env.Message × _)). x >>= λ y. ok y.1) r.1,
        λ j s e.
            subst (λ f. Posted f s (find j r.0.sessions)) (reach j).0 (reached _ _ r.0 r.2 j s e),
      )
