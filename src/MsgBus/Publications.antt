-- ===== src/MsgBus/Publications.antt =====
-- asio/msgbus.cpp, class MsgBus: whom a relayed publication or request reaches.
use asio.Prelude.{ℕ, ◌≡◌, refl, ap, ◌∙◌, ◌&&◌, ◌⊎◌, inl, inr, none, map, nat_key, bytes_key, arith}
use asio.Prelude.Assoc.{find, contains}
use asio.Package.{Package, reqrep, pubsub, deliver}
use asio.Platform.{Platform}
use asio.SessionRoom.{SessionRoom, Call, delivers, ids_of, deliver_package}
use asio.SessionRoom.Subscriptions.{subscribed}
use asio.SessionRoom.Calls.{OwnIds, callee, is_some, for_sessions-contains}
use asio.MsgBus.{Routes, Handled, relay, on_request, pre_handle_message, with_type}
use asio.MsgBus.Routes.{pre_handle-none}

module _ (env : Platform) {P : Type 0} (id_of : P → ℕ) (room : SessionRoom P) where
  delivered :
      (pac : Package env.Message) (j : ℕ)
      → OwnIds id_of room.session_cache
      → contains j (map (callee id_of) (deliver_package env pac room))
        ≡ (subscribed deliver pac.type_name j room && is_some (find j room.session_cache))
  unfolding deliver_package subscribed
  delivered pac j own =
      let d : P → Call env.Message P = λ q. delivers q pac in
      for_sessions-contains id_of d (callee id_of) (λ q. refl) room.session_cache own j
        (ids_of pac.type_name room.deliver_cache)

  relayed :
      (i : ℕ) (pac : Package env.Message) (routes : Routes)
      → (pac.header.msg_type ≡ reqrep) ⊎ (pac.header.msg_type ≡ pubsub)
      → (p : Package env.Message) × (p.type_name ≡ pac.type_name)
        × ((relay env room i pac routes).calls ≡ deliver_package env p room)
  unfolding relay on_request
  relayed i pac routes (inl t) = (with_type env room deliver pac, refl, ground (arith, t))
  relayed i pac routes (inr t) = (pac, refl, ground (arith, t))

  -- A request or a publication on the bus, a package without a message, reaches exactly the sessions
  -- that are there and are subscribed to *deliveries* of its type. So a session that is subscribed to
  -- publications of the type, and not to deliveries, gets no publication. The sessions are stored
  -- under their own ids.
  pub relay_reaches :
      (i j : ℕ) (pac : Package env.Message) (routes : Routes)
      → OwnIds id_of room.session_cache
      → pac.msg_ptr ≡ none
      → (pac.header.msg_type ≡ reqrep) ⊎ (pac.header.msg_type ≡ pubsub)
      → contains j (map (callee id_of) (pre_handle_message env room i pac routes).calls)
        ≡ (subscribed deliver pac.type_name j room && is_some (find j room.session_cache))
  unfolding pre_handle_message
  relay_reaches i j pac routes own empty t =
      let (p, name, calls) = relayed i pac routes t in
      ap (λ (h : Handled env.Message P). contains j (map (callee id_of) h.calls))
        (pre_handle-none env room pac.msg_ptr i pac routes empty)
      ∙ ap (λ cs. contains j (map (callee id_of) cs)) calls
      ∙ delivered p j own
      ∙ ap (λ n. subscribed deliver n j room && is_some (find j room.session_cache)) name
