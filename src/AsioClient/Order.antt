-- ===== src/AsioClient/Order.antt =====
-- asio/internal/AsioClient.cpp, class AsioClient: the order of the writes, while none fails.
use asio.Prelude.{
  ℕ, ◌≡◌, refl, sym, ap, ◌∙◌, true, false, List, [], ◌∷◌, ◌++◌, Option, none, some, Bytes, Exec, ok,
  ◌>>=◌, append_assoc, append-nil,
}
use asio.Prelude.Int.{ℤ}
use asio.Package.{Package}
use asio.Platform.{Platform}
use asio.Buffer.{Buffer, make, content, initial_size}
use asio.ProtoHelp.{encode}
use asio.Buffer.View.{make-IsValid, content-make}
use asio.ProtoHelp.Frame.{frame}
use asio.ProtoHelp.Encode.{Sendable, zipped, sent_header, appended, encode-sends, content-appended}
use asio.AsioClient.{
  Client, start_write, start_write_front, on_written, finish_write, write_next, written,
}

-- What the writer is called with: a package to write, or the end of a write without an error.
pub data WriterCall (M : Type 0) : Type 0 where
  starts : Package M → WriterCall M
  ends : ℕ → WriterCall M

-- The bytes of a write that has ended.
abbrev pub ended : Option (Bytes × ℕ) → List Bytes
ended none = []
ended (some (bytes, msg_id)) = bytes ∷ []

module _ (env : Platform) {R D F : Type 0} (limit : ℤ) where
  -- One call, with the bytes of the write that it ends.
  unfoldable pub call :
      WriterCall env.Message
      → Client env.Message R D F
      → Exec (List Bytes × Client env.Message R D F)
  call (starts p) c = do c' ← start_write env limit p c; ok ([], c')
  call (ends now) c = do c' ← on_written env limit false now c; ok (ended c.in_flight, c')

  unfoldable pub calls :
      List (WriterCall env.Message)
      → Client env.Message R D F
      → Exec (List Bytes × Client env.Message R D F)
  calls [] c = ok ([], c)
  calls (e ∷ es) c = do r ← call e c; rest ← calls es r.1; ok (r.0 ++ rest.0, rest.1)

module _ (env : Platform) (limit : ℤ) where
  -- A package that `encode` turns into these bytes.
  pub record Encodes (p : Package env.Message) (bytes : Bytes) : Type 0 where
    pub sent : Package env.Message
    pub buffer : Buffer
    pub encodes : encode env limit p (make initial_size) ≡ ok (true, sent, buffer)
    pub holds : content buffer ≡ bytes

  -- A message that is ready to be sent is such a package.
  pub Sendable-Encodes :
      (p : Package env.Message) (m : env.Message) (s : Bytes) (ready : Sendable env p m s)
      → Encodes p (
          frame env
            (sent_header env limit p m s ready)
            (env.type_name_of m)
            (zipped env limit p m s ready).1)
  Sendable-Encodes p m s ready = record {
    sent = record p { header = sent_header env limit p m s ready; type_name = env.type_name_of m };
    buffer =
        appended env (sent_header env limit p m s ready) (env.type_name_of m)
          (zipped env limit p m s ready).1 (make initial_size);
    encodes = encode-sends env limit p m s ready (make initial_size);
    holds =
        let h = sent_header env limit p m s ready in
        let body = (zipped env limit p m s ready).1 in
        content-appended env h (env.type_name_of m) body (make initial_size)
          (make-IsValid initial_size)
        ∙ ap (λ t. t ++ frame env h (env.type_name_of m) body) (content-make initial_size);
  }

  unfoldable pub AllEncode : List (Package env.Message) → List Bytes → Type 0
  AllEncode [] [] = Unit {0}
  AllEncode (p ∷ ps) (b ∷ bs) = Encodes p b × AllEncode ps bs
  AllEncode _ _ = ⊥

  -- The bytes that the calls start, in order.
  unfoldable pub Starts : List (WriterCall env.Message) → List Bytes → Type 0
  Starts [] [] = Unit {0}
  Starts (starts p ∷ es) (b ∷ bs) = Encodes p b × Starts es bs
  Starts (ends now ∷ es) bs = Starts es bs
  Starts _ _ = ⊥

  -- A writer at work: the front package is under way, and these bytes are outstanding.
  unfoldable pub IsAtWork : List (Package env.Message) → Option (Bytes × ℕ) → List Bytes → Type 0
  IsAtWork [] none [] = Unit {0}
  IsAtWork (p ∷ ps) (some (d, i)) (b ∷ bs) = (d ≡ b) × AllEncode ps bs
  IsAtWork _ _ _ = ⊥

  AllEncode-append :
      (ps : List (Package env.Message)) (bs : List Bytes) (p : Package env.Message) (b : Bytes)
      → AllEncode ps bs
      → Encodes p b
      → AllEncode (ps ++ (p ∷ [])) (bs ++ (b ∷ []))
  unfolding AllEncode
  AllEncode-append [] [] p b all one = (one, tt)
  AllEncode-append [] (x ∷ bs) p b all one = absurd all
  AllEncode-append (q ∷ ps) [] p b all one = absurd all
  AllEncode-append (q ∷ ps) (x ∷ bs) p b all one = (all.0, AllEncode-append ps bs p b all.1 one)

module _ (env : Platform) {R D F : Type 0} (limit : ℤ) where
  -- A state with these bytes outstanding.
  abbrev AtWork : Client env.Message R D F → List Bytes → Type 0
  AtWork c out = IsAtWork env limit c.pending_list c.in_flight out

  -- The front package of a list is written.
  front-AtWork :
      (c : Client env.Message R D F) (p : Package env.Message) (ps : List (Package env.Message))
      (bs : List Bytes) (b : Bytes)
      → c.pending_list ≡ p ∷ ps
      → Encodes env limit p b
      → AllEncode env limit ps bs
      → (c' : Client env.Message R D F) × (start_write_front env limit c ≡ ok c')
        × AtWork c' (b ∷ bs)
  unfolding start_write_front IsAtWork
  front-AtWork c p ps bs b e one all = (
    record c {
      pending_list = one.sent ∷ ps;
      in_flight = some (content one.buffer, p.header.msg_id);
    },
    rw (e, one.encodes) refl,
    (one.holds, all),
  )

  start-AtWork :
      (pend : List (Package env.Message)) (flight : Option (Bytes × ℕ))
      (c : Client env.Message R D F) (p : Package env.Message) (out : List Bytes) (b : Bytes)
      → c.pending_list ≡ pend
      → c.in_flight ≡ flight
      → IsAtWork env limit pend flight out
      → Encodes env limit p b
      → (c' : Client env.Message R D F) × (start_write env limit p c ≡ ok c')
        × AtWork c' (out ++ (b ∷ []))
  unfolding start_write IsAtWork AllEncode
  start-AtWork [] none c p [] b e f h one =
      let r = front-AtWork (record c { pending_list = p ∷ [] }) p [] [] b refl one tt in
      (r.0, rw e r.1, r.2)
  start-AtWork [] none c p (x ∷ out) b e f h one = absurd h
  start-AtWork [] (some w) c p out b e f h one = absurd h
  start-AtWork (q ∷ qs) none c p out b e f h one = absurd h
  start-AtWork (q ∷ qs) (some w) c p [] b e f h one = absurd h
  start-AtWork (q ∷ qs) (some w) c p (x ∷ out) b e f h one = (
    record c { pending_list = (q ∷ qs) ++ (p ∷ []) },
    rw e refl,
    rw f (h.0, AllEncode-append env limit qs out p b h.1 one),
  )

  end-AtWork :
      (pend : List (Package env.Message)) (flight : Option (Bytes × ℕ))
      (c : Client env.Message R D F) (now : ℕ) (out : List Bytes)
      → c.pending_list ≡ pend
      → c.in_flight ≡ flight
      → IsAtWork env limit pend flight out
      → (c' : Client env.Message R D F) × (on_written env limit false now c ≡ ok c')
        × (left : List Bytes) × AtWork c' left
        × (ended flight ++ left ≡ out)
  unfolding on_written finish_write write_next IsAtWork AllEncode
  end-AtWork [] none c now [] e f h = (c, rw f refl, [], rw (e, f) tt, refl)
  end-AtWork [] none c now (x ∷ out) e f h = absurd h
  end-AtWork [] (some w) c now out e f h = absurd h
  end-AtWork (q ∷ qs) none c now out e f h = absurd h
  end-AtWork (q ∷ qs) (some w) c now [] e f h = absurd h
  end-AtWork (q ∷ []) (some (d, i)) c now (x ∷ []) e f h =
      (record (written i now c) { pending_list = [] }, rw (f, e) refl, [], tt, ap (λ y. y ∷ []) h.0)
  end-AtWork (q ∷ []) (some (d, i)) c now (x ∷ y ∷ out) e f h = absurd h.1
  end-AtWork (q ∷ r ∷ rs) (some (d, i)) c now (x ∷ []) e f h = absurd h.1
  end-AtWork (q ∷ r ∷ rs) (some (d, i)) c now (x ∷ y ∷ out) e f h =
      let t =
        front-AtWork (record (written i now c) { pending_list = r ∷ rs }) r rs out y refl h.1.0
          h.1.1 in
      (t.0, rw (f, e) t.1, y ∷ out, t.2, ap (λ z. z ∷ y ∷ out) h.0)

  -- While no write fails and `encode` takes every package: whatever the order in which packages are
  -- given to the writer and writes end, each call returns, and what was written so far, followed by
  -- what is outstanding, is what was outstanding at first, followed by the bytes of every package
  -- that was given since, in that order. One write is under way exactly while something is outstanding.
  pub client_writes_in_order :
      (es : List (WriterCall env.Message)) (c : Client env.Message R D F) (out bs : List Bytes)
      → IsAtWork env limit c.pending_list c.in_flight out
      → Starts env limit es bs
      → (done : List Bytes) × (c' : Client env.Message R D F) × (left : List Bytes) × (calls env
            limit es c
          ≡ ok (done, c'))
        × IsAtWork env limit c'.pending_list c'.in_flight left
        × (done ++ left ≡ out ++ bs)
  unfolding calls call Starts
  client_writes_in_order [] c out [] w s = ([], c, out, refl, w, sym (append-nil out))
  client_writes_in_order [] c out (b ∷ bs) w s = absurd s
  client_writes_in_order (starts p ∷ es) c out [] w s = absurd s
  client_writes_in_order (starts p ∷ es) c out (b ∷ bs) w s =
      let r = start-AtWork c.pending_list c.in_flight c p out b refl refl w s.0 in
      let t = client_writes_in_order es r.0 (out ++ (b ∷ [])) bs r.2 s.1 in
      (t.0, t.1, t.2, rw (r.1, t.3) refl, t.4, t.5 ∙ append_assoc out (b ∷ []) bs)
  client_writes_in_order (ends now ∷ es) c out bs w s =
      let r = end-AtWork c.pending_list c.in_flight c now out refl refl w in
      let t = client_writes_in_order es r.0 r.2 bs r.3 s in
      (
        ended c.in_flight ++ t.0,
        t.1,
        t.2,
        rw (r.1, t.3) refl,
        t.4,
        append_assoc (ended c.in_flight) t.0 t.2
            ∙ ap (λ xs. ended c.in_flight ++ xs) t.5
            ∙ sym (append_assoc (ended c.in_flight) r.2 bs)
            ∙ ap (λ xs. xs ++ bs) r.4,
      )
