-- ===== src/MsgBus/Routes.antt =====
-- asio/msgbus.cpp, class MsgBus: where the reply to a request goes.
use asio.Prelude.{
  ℕ, ◌^◌, ◌≡◌, refl, ap, ◌∙◌, Bool, true, false, ◌&&◌, List, [], ◌∷◌, Option, none, some, ltb, ◌==◌,
  if◌then◌else◌, nat_key, arith, Bool-cases, inl, inr,
}
use asio.Prelude.Assoc.{find, erase, find-assign, find-erase}
use asio.Package.{Package, reqrep, pubsub, deliver}
use asio.Platform.{Platform}
use asio.SessionRoom.{SessionRoom, Call, deliver_package_to}
use asio.MsgBus.{
  Routes, relay, pre_handle, Handled, found_id, with_type, on_request, on_reply, pre_handle_message,
}

-- A package that comes from a session.
abbrev pub Arrival : Type 0 → Type 0
Arrival M = ℕ × Package M

-- Who waits for the reply with a message id, when a package arrives: a request with the id makes its
-- session wait, a reply with it ends the waiting. A package with a message is not relayed.
unfoldable pub waits_next : {M : Type 0} → Option M → ℕ → ℕ → Package M → Option ℕ → Option ℕ
waits_next (some msg) m i p now = now
waits_next none m i p now =
    if p.header.msg_id == m
    then (if p.header.msg_type == reqrep
        then some i
        else if p.header.msg_type == deliver
        then none
        else now)
    else now

unfoldable pub waits_for : {M : Type 0} → ℕ → List (Arrival M) → Option ℕ → Option ℕ
waits_for m [] now = now
waits_for m ((i, p) ∷ ms) now = waits_for m ms (waits_next p.msg_ptr m i p now)

same_either : {A : Type 0} (b : Bool) (x : A) → x ≡ (if b then x else x)
same_either true x = refl
same_either false x = refl

calls-if :
    {M P : Type 0} (b : Bool) (x y : Handled M P)
    → (if b then x else y).calls ≡ (if b then x.calls else y.calls)
calls-if true x y = refl
calls-if false x y = refl

module _ (env : Platform) {P : Type 0} (room : SessionRoom P) where
  unfoldable pub handle_all : List (Arrival env.Message) → Routes → Routes
  handle_all [] routes = routes
  handle_all ((i, p) ∷ ms) routes = handle_all ms (pre_handle_message env room i p routes).routes

  routes-on_reply :
      (p : Package env.Message) (routes : Routes)
      → (on_reply env room p routes).routes ≡ erase p.header.msg_id routes
  unfolding on_reply
  routes-on_reply p routes =
      elim (Bool-cases (
        ltb 0 (found_id (find p.header.msg_id routes))
        && ltb (found_id (find p.header.msg_id routes)) (2 ^ 31))) [
          | inl e ↦ rw e refl
          | inr e ↦ rw e refl
        ]

  find-relay :
      (m i : ℕ) (p : Package env.Message) (routes : Routes)
      → find m (relay env room i p routes).routes ≡ waits_next none m i p (find m routes)
  unfolding relay waits_next on_request
  find-relay m i p routes = elim (Bool-cases (p.header.msg_type == reqrep)) [
    | inl e ↦ rw e (find-assign p.header.msg_id m i routes)
    | inr e ↦ elim (Bool-cases (p.header.msg_type == deliver)) [
      | inl d ↦
          rw (e, d) (ap (find m) (routes-on_reply p routes) ∙ find-erase p.header.msg_id m routes)
      | inr d ↦ elim (Bool-cases (p.header.msg_type == pubsub)) [
        | inl b ↦ rw (e, d, b) (same_either (p.header.msg_id == m) (find m routes))
        | inr b ↦ rw (e, d, b) (same_either (p.header.msg_id == m) (find m routes))
      ]
    ]
  ]

  find-pre_handle :
      (o : Option env.Message) (m i : ℕ) (p : Package env.Message) (routes : Routes)
      → find m (pre_handle env room o i p routes).routes ≡ waits_next o m i p (find m routes)
  unfolding pre_handle waits_next
  find-pre_handle (some msg) m i p routes = refl
  find-pre_handle none m i p routes = find-relay m i p routes

  find-handle_all :
      (m : ℕ) (ms : List (Arrival env.Message)) (routes : Routes)
      → find m (handle_all ms routes) ≡ waits_for m ms (find m routes)
  unfolding handle_all waits_for pre_handle_message
  find-handle_all m [] routes = refl
  find-handle_all m ((i, p) ∷ ms) routes =
      find-handle_all m ms (pre_handle_message env room i p routes).routes
      ∙ ap (waits_for m ms) (find-pre_handle p.msg_ptr m i p routes)

  -- The calls for a reply, from who waits.
  unfoldable pub reply_calls : Option ℕ → Package env.Message → List (Call env.Message P)
  reply_calls none p = []
  reply_calls (some i) p =
      if ltb 0 i && ltb i (2 ^ 31)
      then (deliver_package_to env i (with_type env room reqrep p) room).1
      else []

  found_reply :
      (f : Option ℕ) (p : Package env.Message)
      → (if ltb 0 (found_id f) && ltb (found_id f) (2 ^ 31)
          then (deliver_package_to env (found_id f) (with_type env room reqrep p) room).1
          else [])
        ≡ reply_calls f p
  unfolding reply_calls
  found_reply none p = refl
  found_reply (some i) p = refl

  calls-on_reply :
      (p : Package env.Message) (routes : Routes)
      → (on_reply env room p routes).calls ≡ reply_calls (find p.header.msg_id routes) p
  unfolding on_reply
  calls-on_reply p routes =
      calls-if
        (ltb 0 (found_id (find p.header.msg_id routes))
          && ltb (found_id (find p.header.msg_id routes)) (2 ^ 31))
        _ _
      ∙ found_reply (find p.header.msg_id routes) p

  pub pre_handle-none :
      (o : Option env.Message) (j : ℕ) (p : Package env.Message) (routes : Routes)
      → o ≡ none
      → pre_handle env room o j p routes ≡ relay env room j p routes
  unfolding pre_handle
  pre_handle-none none j p routes e = refl
  pre_handle-none (some m) j p routes e = cc

  relay-deliver :
      (j : ℕ) (p : Package env.Message) (routes : Routes)
      → p.header.msg_type ≡ deliver
      → relay env room j p routes ≡ on_reply env room p routes
  unfolding relay
  relay-deliver j p routes t = ground (arith, t)

  -- After any packages from any sessions, a reply with a message id is delivered, as an answer, to the
  -- session whose request with that id came last, and to no other; it is discarded where a reply with
  -- the id came since, or where there was no such request. Requests of two clients with one id are not
  -- told apart: the later one gets the first reply.
  pub reply_route :
      (ms : List (Arrival env.Message)) (j : ℕ) (p : Package env.Message)
      → p.msg_ptr ≡ none
      → p.header.msg_type ≡ deliver
      → (pre_handle_message env room j p (handle_all ms [])).calls
        ≡ reply_calls (waits_for p.header.msg_id ms none) p
  unfolding pre_handle_message pre_handle relay find
  reply_route ms j p empty t =
      ap (λ (h : Handled env.Message P). h.calls)
        (pre_handle-none p.msg_ptr j p (handle_all ms []) empty
          ∙ relay-deliver j p (handle_all ms []) t)
      ∙ calls-on_reply p (handle_all ms [])
      ∙ ap (λ f. reply_calls f p) (find-handle_all p.header.msg_id ms [])
