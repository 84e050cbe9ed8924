-- ===== src/AsioServer/Server/Soundness.antt =====
-- asio/internal/AsioServer.cpp, class AsioServer: what holds of the server at all times.
use asio.Prelude.{
  ℕ, ◌+◌, ◌<◌, ◌≤◌, ◌^◌, ◌≡◌, refl, sym, ap, ◌∙◌, Bool, true, false, List, Option, none, some,
  arith, Exec, ok, Leaves, Leaves-ok, Leaves-map, Leaves-weaken, if◌then◌else◌, ◌==◌, ==_iff,
  nat_key, bytes_key, inl, inr, Bool-cases, ◌⊎◌,
}
use mathlib.Core.Path.{subst}
use asio.Prelude.Assoc.{find, assign, erase, find-assign, find-erase}
use asio.Prelude.Words.{increment}
use asio.Buffer.{Buffer, initial_size}
use asio.Buffer.View.{IsValid, make-IsValid}
use asio.Session.{Session, new_session, start, do_read, run_posted, do_write}
use asio.Session.Kept.{kept, Keeps, do_write-kept, run_posted-kept}
use asio.SessionRoom.{join, leave}
use asio.AsioServer.Server.{
  AsioServer, put_session, with_found, update_session, leave_room, on_accept, on_written,
  runs_posted,
}

-- A session that is there.
abbrev pub Held : ℕ → List (ℕ × Session) → Type 0
Held i sessions = (s : Session) × (find i sessions ≡ some s)

-- What is found after an assignment: what was assigned, or what was there.
found_assigned :
    {V : Type 0} (i j : ℕ) (v w : V) (m : List (ℕ × V))
    → find i (assign j v m) ≡ some w
    → ((j ≡ i) × (v ≡ w)) ⊎ (find i m ≡ some w)
found_assigned {V} i j v w m e = go (j == i) refl
  where
    go : (b : Bool) → (j == i) ≡ b → ((j ≡ i) × (v ≡ w)) ⊎ (find i m ≡ some w)
    go true t =
        let same : some v ≡ some w =
          ap (λ (c : Bool). if c then some v else find i m) (sym t)
          ∙ sym (find-assign j i v m)
          ∙ e in
        inl ((==_iff j i).0 t, cc)
    go false t =
        inr (
          ap (λ (c : Bool). if c then some v else find i m) (sym t) ∙ sym (find-assign j i v m) ∙ e)

found_erased :
    {V : Type 0} (i j : ℕ) (w : V) (m : List (ℕ × V))
    → find i (erase j m) ≡ some w
    → find i m ≡ some w
found_erased {V} i j w m e = go (j == i) refl
  where
    go : (b : Bool) → (j == i) ≡ b → find i m ≡ some w
    go true t =
        let wrong : none ≡ some w =
          ap (λ (c : Bool). if c then none else find i m) (sym t) ∙ sym (find-erase j i m) ∙ e in
        cc
    go false t =
        ap (λ (c : Bool). if c then none else find i m) (sym t) ∙ sym (find-erase j i m) ∙ e

pub Held-assign :
    (i j : ℕ) (s : Session) (sessions : List (ℕ × Session))
    → Held i sessions
    → Held i (assign j s sessions)
Held-assign i j s sessions (t, e) = elim (Bool-cases (j == i)) [
  | inl same ↦ (s, find-assign j i s sessions ∙ rw same refl)
  | inr other ↦ (t, find-assign j i s sessions ∙ rw other e)
]

Held-assigned : (i : ℕ) (s : Session) (sessions : List (ℕ × Session)) → Held i (assign i s sessions)
Held-assigned i s sessions = (s, find-assign i i s sessions ∙ rw ((==_iff i i).1 refl) refl)

accepted-Held :
    (i next : ℕ) (s : Session) (sessions : List (ℕ × Session))
    → ((j : ℕ) → 1 ≤ j → j < next → Held j sessions)
    → 1 ≤ i
    → i < next + 1
    → Held i (assign next s sessions)
accepted-Held i next s sessions all one l = elim (Bool-cases (i == next)) [
  | inl here ↦
      subst (λ k. Held k (assign next s sessions)) (sym ((==_iff i next).0 here))
        (Held-assigned next s sessions)
  | inr there ↦ Held-assign i next s sessions (all i one (ground (arith, there, l)))
]

Keeps-kept : (s t : Session) → kept t ≡ kept s → Keeps s t
Keeps-kept s t e = (ap (λ (x : ℕ × Buffer). x.0) e, ap (λ (x : ℕ × Buffer). x.1) e)

module _ {M U W : Type 0} where
  -- The sessions and the room, where the next id is `n`, or below it if the server is stopped: there is a
  -- session for each id from 1 to the next one, and none for it or a later one; each has the id that it is
  -- stored under and a valid read buffer; what the room points to is there, under its id.
  pub record IsSound (n : ℕ) (server : AsioServer M U W) : Type 0 where
    pub next : server.next_session_id ≤ n
    pub counted : server.is_stopped ≡ false → server.next_session_id ≡ n
    pub all_held : (i : ℕ) → 1 ≤ i → i < server.next_session_id → Held i server.sessions
    pub own :
        (i : ℕ) (s : Session)
        → find i server.sessions ≡ some s
        → (s.session_id ≡ i) × IsValid s.read_buffer × (i < server.next_session_id)
    pub in_room :
        (i j : ℕ) → find i server.room.session_cache ≡ some j → (j ≡ i) × Held i server.sessions

  pub same_objects :
      (n : ℕ) (server server' : AsioServer M U W)
      → IsSound n server
      → server'.sessions ≡ server.sessions
      → server'.next_session_id ≡ server.next_session_id
      → server'.room.session_cache ≡ server.room.session_cache
      → (server'.is_stopped ≡ false → server.is_stopped ≡ false)
      → IsSound n server'
  same_objects n server server' g e f h runs = record {
    next = omega (arith, g.next);
    counted = λ k. f ∙ g.counted (runs k);
    all_held = λ i one l. subst (Held i) (sym e) (g.all_held i one (omega arith));
    own = λ i s q.
        let o = g.own i s (ap (λ (m : List (ℕ × Session)). find i m) (sym e) ∙ q) in
        (o.0, o.1, omega (arith, o.2));
    in_room = λ i j q.
        let r = g.in_room i j (ap (λ (m : List (ℕ × ℕ)). find i m) (sym h) ∙ q) in
        (r.0, subst (Held i) (sym e) r.1);
  }

  pub put_session-IsSound :
      (n : ℕ) (i : ℕ) (s : Session) (server : AsioServer M U W)
      → IsSound n server
      → s.session_id ≡ i
      → IsValid s.read_buffer
      → i < server.next_session_id
      → IsSound n (put_session i s server)
  put_session-IsSound n i s server g same v below = record {
    next = g.next;
    counted = g.counted;
    all_held = λ j one l. Held-assign j i s server.sessions (g.all_held j one l);
    own = λ j t e. elim (found_assigned j i s t server.sessions e) [
      | inr old ↦ g.own j t old
      | inl (eq, is) ↦
          subst
            (λ (x : Session).
              (x.session_id ≡ j) × IsValid x.read_buffer × (j < server.next_session_id))
            is (same ∙ eq, v, omega arith)
    ];
    in_room = λ j k e. ((g.in_room j k e).0, Held-assign j i s server.sessions (g.in_room j k e).1);
  }

  pub leave_room-IsSound :
      (n : ℕ) (left : Bool) (i : ℕ) (server : AsioServer M U W)
      → IsSound n server
      → IsSound n (leave_room left i server)
  leave_room-IsSound n false i server g = g
  leave_room-IsSound n true i server g = record {
    next = g.next;
    counted = g.counted;
    all_held = g.all_held;
    own = g.own;
    in_room =
        λ j k e. g.in_room j k (found_erased j i k server.room.session_cache (unfold leave in e));
  }

  -- A method that keeps the id and a valid buffer, of a session that is looked up.
  pub with_found-Leaves :
      {A : Type 0} (P : A → Type 0) (act : Session → Exec A) (i : ℕ) (server : AsioServer M U W)
      → ((s : Session) → find i server.sessions ≡ some s → Leaves P (act s))
      → Leaves P (with_found act (find i server.sessions))
  with_found-Leaves P act i server h = go (find i server.sessions) refl
    where
      go : (o : Option Session) → find i server.sessions ≡ o → Leaves P (with_found act o)
      go none e = unfold Leaves in tt
      go (some s) e = h s e

  pub update_session-IsSound :
      (n : ℕ) (i : ℕ) (act : Session → Exec Session) (server : AsioServer M U W)
      → ((s : Session) → Leaves (Keeps s) (act s))
      → IsSound n server
      → Leaves (IsSound n) (update_session i act server)
  update_session-IsSound n i act server k g =
      Leaves-map (λ s. (s.session_id ≡ i) × IsValid s.read_buffer × (i < server.next_session_id))
        (IsSound n) _ (λ s. put_session i s server)
        (with_found-Leaves _ act i server (λ s e.
          let o = g.own i s e in
          Leaves-weaken (Keeps s) _ (act s) (k s)
            (λ t kept. (kept.0 ∙ o.0, subst IsValid (sym kept.1) o.1, o.2))))
        (λ s w. put_session-IsSound n i s server g w.0 w.1 w.2)

  pub on_written-IsSound :
      (n : ℕ) (error : Bool) (i : ℕ) (server : AsioServer M U W)
      → IsSound n server
      → Leaves (IsSound n) (on_written error i server)
  unfolding on_written
  on_written-IsSound n error i server g =
      Leaves-map (IsSound n) (IsSound n) (update_session i (λ s. ok (do_write error s)) server)
        (leave_room error i)
        (update_session-IsSound n i (λ s. ok (do_write error s)) server
          (λ s.
            Leaves-ok (Keeps s) (do_write error s)
              (Keeps-kept s (do_write error s) (do_write-kept error s)))
          g)
        (λ server' g'. leave_room-IsSound n error i server' g')

  pub runs_posted-IsSound :
      (n : ℕ) (i : ℕ) (server : AsioServer M U W)
      → IsSound n server
      → Leaves (IsSound n) (runs_posted i server)
  unfolding runs_posted
  runs_posted-IsSound n i server g =
      update_session-IsSound n i (λ s. ok (run_posted s)) server
        (λ s. Leaves-ok (Keeps s) (run_posted s) (Keeps-kept s (run_posted s) (run_posted-kept s)))
        g

  pub raise-IsSound :
      (n : ℕ) (server : AsioServer M U W)
      → server.is_stopped ≡ true
      → IsSound n server
      → IsSound (n + 1) server
  raise-IsSound n server off g = record {
    next = omega (arith, g.next);
    counted = λ on. cc;
    all_held = g.all_held;
    own = g.own;
    in_room = g.in_room;
  }

  pub on_accept-IsSound :
      (n : ℕ) (server : AsioServer M U W)
      → n + 1 < 2 ^ 32
      → IsSound n server
      → IsSound (n + 1) (on_accept false server)
  unfolding on_accept
  on_accept-IsSound n server below g = record {
    next = omega (arith, g.next);
    counted = λ on. omega (arith, g.counted on);
    all_held = λ i one l.
        accepted-Held i server.next_session_id (start (new_session server.next_session_id))
          server.sessions g.all_held one (omega (arith, g.next, l));
    own = λ j t e. elim (found_assigned j server.next_session_id _ t server.sessions e) [
      | inr old ↦ let o = g.own j t old in (o.0, o.1, omega (arith, o.2, g.next))
      | inl (eq, is) ↦
          subst
            (λ (x : Session).
              (x.session_id ≡ j) × IsValid x.read_buffer × (j < increment server.next_session_id))
            is (unfold start do_read in (eq, make-IsValid initial_size, omega (arith, g.next)))
    ];
    in_room = λ j k e.
        elim (found_assigned j server.next_session_id server.next_session_id k
          server.room.session_cache (unfold join in e)) [
            | inr old ↦
                let r = g.in_room j k old in
                (r.0, Held-assign j server.next_session_id _ server.sessions r.1)
            | inl (eq, is) ↦ (
              sym is ∙ eq,
              subst
                  (λ i. Held i (
                    assign server.next_session_id (start (new_session server.next_session_id))
                      server.sessions))
                  eq
                  (Held-assigned server.next_session_id (start (new_session server.next_session_id))
                    server.sessions),
            )
          ];
  }
