-- ===== src/Exchange/Reading.antt =====
-- asio/internal/AsioClient.cpp, `doRead`, and asio/internal/Session.cpp, `doRead`: reading pieces, by
-- what a session makes of the same pieces.
use asio.Prelude.{
  ◌≡◌, refl, sym, ap, ◌∙◌, List, [], ◌∷◌, ◌++◌, some, Bytes, Exec, ok, ◌>>=◌, bind_ok, append-nil,
  append_assoc, nat_key, bytes_key, suc, true, ok_injective,
}
use asio.Package.{Package}
use asio.Platform.{Platform}
use asio.Buffer.{Buffer, append, readable_bytes}
use asio.Session.{Session, on_read, read_loop, do_read}
use asio.Session.Stream.{feed}
use asio.AsioClient.{Client, do_read as read}
use asio.Exchange.{client_reads}

module _ (env : Platform) where
  -- The part of a session that writes.
  abbrev pub outgoing : Session → List Buffer × List Buffer
  outgoing s = (s.posted, s.write_deque)

  on_read-outgoing :
      (piece : Bytes) (s s' : Session) (ps : List (Package env.Message))
      → on_read env (some piece) s ≡ ok (ps, s')
      → outgoing s' ≡ outgoing s
  unfolding on_read do_read
  on_read-outgoing piece s s' ps e =
      let filled = append piece s.read_buffer in
      let r = bind_ok (read_loop env (suc (readable_bytes filled)) filled) _ (ps, s') e in
      sym (ap (λ (x : List (Package env.Message) × Session). outgoing x.1) (ok_injective r.2))

  -- Reading changes nothing of what is to be written.
  pub feed-outgoing :
      (pieces : List Bytes) (s s' : Session) (ps : List (Package env.Message))
      → feed env pieces s ≡ ok (ps, s')
      → outgoing s' ≡ outgoing s
  unfolding feed
  feed-outgoing [] s s' ps e =
      sym (ap (λ (x : List (Package env.Message) × Session). outgoing x.1) (ok_injective e))
  feed-outgoing (piece ∷ pieces) s s' ps e =
      let r = bind_ok (on_read env (some piece) s) _ (ps, s') e in
      let q = bind_ok (feed env pieces r.0.1) _ (ps, s') r.2 in
      sym (ap (λ (x : List (Package env.Message) × Session). outgoing x.1) (ok_injective q.2))
      ∙ feed-outgoing pieces r.0.1 q.0.1 q.0.0 q.1
      ∙ on_read-outgoing piece s r.0.1 r.0.0 r.1

module _ (env : Platform) {R D F : Type 0} where
  read_piece :
      (piece : Bytes) (s s' : Session) (ps : List (Package env.Message))
      (c : Client env.Message R D F)
      → s.read_buffer ≡ c.read_buffer
      → on_read env (some piece) s ≡ ok (ps, s')
      → read env (some piece) c
        ≡ ok (record c {
          responses = c.responses ++ ps;
          read_buffer = s'.read_buffer;
          is_reading = true;
        })
  unfolding read on_read do_read
  read_piece piece s s' ps c same e =
      let loop =
        λ (b : Buffer). read_loop env (suc (readable_bytes (append piece b))) (append piece b) in
      let r = bind_ok (loop s.read_buffer) _ (ps, s') e in
      let q : (r.0.0, r.0.1) ≡ (ps, s'.read_buffer) =
        ap (λ (x : List (Package env.Message) × Session). (x.0, x.1.read_buffer))
          (ok_injective r.2) in
      ap
        (λ (x : Exec (List (Package env.Message) × Buffer)). x >>= λ y.
          ok (record c { responses = c.responses ++ y.0; read_buffer = y.1; is_reading = true }))
        (ap loop (sym same) ∙ r.1 ∙ ap ok q)

  -- What a client has read: the packages are the responses, and the rest is as it was.
  pub client_reads-feed :
      (pieces : List Bytes) (s s' : Session) (ps : List (Package env.Message))
      (c : Client env.Message R D F)
      → s.read_buffer ≡ c.read_buffer
      → feed env pieces s ≡ ok (ps, s')
      → (c' : Client env.Message R D F) × (client_reads env pieces c ≡ ok c')
        × (c'.responses ≡ c.responses ++ ps)
        × (c'.cache ≡ c.cache)
  unfolding feed client_reads
  client_reads-feed [] s s' ps c same e =
      let q : [] ≡ ps = ap (λ (x : List (Package env.Message) × Session). x.0) (ok_injective e) in
      (
        c,
        refl,
        sym (append-nil c.responses) ∙ ap (λ (t : List (Package env.Message)). c.responses ++ t) q,
        refl,
      )
  client_reads-feed (piece ∷ pieces) s s' ps c same e =
      let r = bind_ok (on_read env (some piece) s) _ (ps, s') e in
      let q = bind_ok (feed env pieces r.0.1) _ (ps, s') r.2 in
      let c1 = record c {
        responses = c.responses ++ r.0.0;
        read_buffer = r.0.1.read_buffer;
        is_reading = true;
      } in
      let i = client_reads-feed pieces r.0.1 q.0.1 q.0.0 c1 refl q.1 in
      (
        i.0,
        ap (λ (x : Exec (Client env.Message R D F)). x >>= client_reads env pieces)
              (read_piece piece s r.0.1 r.0.0 c same r.1)
            ∙ i.1,
        i.2
            ∙ append_assoc c.responses r.0.0 q.0.0
            ∙ ap (λ (x : List (Package env.Message) × Session). c.responses ++ x.0)
                (ok_injective q.2),
        i.3,
      )
