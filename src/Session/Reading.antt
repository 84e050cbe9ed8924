-- ===== src/Session/Reading.antt =====
-- asio/internal/Session.cpp, the read handler of `doRead` (and asio/internal/AsioClient.cpp, `doRead`,
-- which has the same loop): from the bytes of one read to packages.
use asio.Prelude.{
  ℕ, zero, suc, ◌<◌, ◌≡◌, ◌≢◌, refl, sym, ap, ◌∙◌, List, [], ◌∷◌, ◌++◌, Option, none, some, Bytes,
  arith, map, append_assoc, inl, inr, Exec, ok, overrun, thrown, out_of_fuel, ◌>>=◌, length, All,
  ◌==◌, Bool-cases,
}
use mathlib.Core.Path.{subst}
use asio.Package.{Package}
use asio.Platform.{Platform}
use asio.Buffer.{Buffer, content, append, readable_bytes}
use asio.Buffer.View.{IsValid, append-IsValid, content-append, length-content}
use asio.ProtoHelp.{decode}
use asio.ProtoHelp.Total.{Ends, decode-Ends}
use asio.Session.{Session, go_on, read_loop, on_read, do_read}

length_zero : (d : Bytes) → length d ≡ 0 → d ≡ []
length_zero [] e = refl
length_zero (x ∷ xs) e = absurd (omega arith)

module _ (env : Platform) where
  -- `decode` takes these bytes off the front as this package, whatever follows them.
  abbrev pub Carries : Bytes × Package env.Message → Type 0
  Carries w =
      (b : Buffer) (rest : Bytes)
      → IsValid b
      → content b ≡ w.0 ++ rest
      → (b' : Buffer) × (decode env b ≡ ok (some w.1, b')) × IsValid b' × (content b' ≡ rest)

  -- `decode` waits for more at these bytes, and leaves them alone.
  abbrev pub Waits : Bytes → Type 0
  Waits rest =
      (b : Buffer)
      → IsValid b
      → content b ≡ rest
      → (b' : Buffer) × (decode env b ≡ ok (none, b')) × IsValid b' × (content b' ≡ rest)

  abbrev pub concat : List (Bytes × Package env.Message) → Bytes
  concat [] = []
  concat (w ∷ ws) = w.0 ++ concat ws

  abbrev pub packages : List (Bytes × Package env.Message) → List (Package env.Message)
  packages = map (λ w. w.1)

  abbrev pub Reads :
      Exec (List (Package env.Message) × Buffer) → List (Package env.Message) → Bytes → Type 0
  Reads r ps rest = (b : Buffer) × (r ≡ ok (ps, b)) × IsValid b × (content b ≡ rest)

  taken :
      (b b' : Buffer) (p : Package env.Message)
      → IsValid b
      → decode env b ≡ ok (some p, b')
      → readable_bytes b' < readable_bytes b
  taken b b' p v e = (subst (Ends env (readable_bytes b)) e (decode-Ends env b v)).1

  nothing_left :
      (ws : List (Bytes × Package env.Message)) (rest : Bytes) (b : Buffer)
      → All Carries ws
      → IsValid b
      → content b ≡ concat ws ++ rest
      → readable_bytes b ≡ 0
      → (packages ws ≡ []) × (concat ws ≡ []) × (rest ≡ [])
  nothing_left [] rest b c v e z =
      (refl, refl, length_zero rest (omega (arith, length-content b v, ap length e)))
  nothing_left (x ∷ ws) rest b c v e z =
      let d = c.0 b (concat ws ++ rest) v (e ∙ append_assoc x.0 (concat ws) rest) in
      absurd (omega (arith, taken b d.0 x.1 v d.1))

  read_loop-Reads :
      (fuel : ℕ) (ws : List (Bytes × Package env.Message)) (rest : Bytes) (b : Buffer)
      → All Carries ws
      → Waits rest
      → IsValid b
      → content b ≡ concat ws ++ rest
      → readable_bytes b < fuel
      → Reads (read_loop env fuel b) (packages ws) rest
  unfolding read_loop
  read_loop-Reads zero ws rest b c w v e h = absurd (omega arith)
  read_loop-Reads (suc fuel) [] rest b c w v e h = let d = w b v e in (d.0, rw d.1 refl, d.2, d.3)
  read_loop-Reads (suc fuel) (x ∷ ws) rest b c w v e h =
      let d = c.0 b (concat ws ++ rest) v (e ∙ append_assoc x.0 (concat ws) rest) in
      let less = taken b d.0 x.1 v d.1 in
      let r = read_loop-Reads fuel ws rest d.0 c.1 w d.2 d.3 (omega arith) in
      let more : Reads (do r ← read_loop env fuel d.0; ok (x.1 ∷ r.0, r.1)) (x.1 ∷ packages ws)
          rest =
        (r.0, rw r.1 refl, r.2, r.3) in
      elim (Bool-cases (readable_bytes d.0 == 0)) [
        | inr left ↦ rw (d.1, left) more
        | inl empty ↦
            let n = nothing_left ws rest d.0 c.1 d.2 d.3 (ground arith) in
            rw (d.1, empty)
              (d.0, ap (λ ps. ok (x.1 ∷ ps, d.0)) (sym n.0), d.2, d.3 ∙ rw (n.1, n.2) refl)
      ]

  -- One read that completes the packages `ws` and leaves `rest`, on which `decode` waits: the handler
  -- hands exactly those packages on, in order, keeps `rest`, and starts the next read.
  pub on_read-Reads :
      (ws : List (Bytes × Package env.Message)) (rest bytes : Bytes) (s : Session)
      → All Carries ws
      → Waits rest
      → IsValid s.read_buffer
      → content s.read_buffer ++ bytes ≡ concat ws ++ rest
      → (b : Buffer) × (on_read env (some bytes) s
          ≡ ok (packages ws, do_read (record s { read_buffer = b })))
        × IsValid b
        × (content b ≡ rest)
  unfolding on_read
  on_read-Reads ws rest bytes s c w v e =
      let filled = append bytes s.read_buffer in
      let r =
        read_loop-Reads (suc (readable_bytes filled)) ws rest filled c w
          (append-IsValid bytes s.read_buffer v) (content-append bytes s.read_buffer v ∙ e)
          (omega arith) in
      (r.0, rw r.1 refl, r.2, r.3)

  finished :
      {A B : Type 0} (r : Exec A) (f : A → B)
      → r ≢ out_of_fuel
      → (r >>= λ a. ok (f a)) ≢ out_of_fuel
  finished (ok a) f n e = cc
  finished overrun f n e = cc
  finished thrown f n e = cc
  finished out_of_fuel f n e = n refl

  looped :
      (again : Buffer → Exec (List (Package env.Message) × Buffer)) (n : ℕ)
      (r : Exec (Option (Package env.Message) × Buffer))
      → Ends env n r
      → ((b : Buffer) → IsValid b → readable_bytes b < n → again b ≢ out_of_fuel)
      → (r >>= go_on env again) ≢ out_of_fuel
  looped again n (ok (none, b)) e k = λ q. cc
  looped again n (ok (some p, b)) e k = elim (Bool-cases (readable_bytes b == 0)) [
    | inl z ↦ rw z (λ q. cc)
    | inr z ↦ rw z (finished (again b) _ (k b e.0 e.1))
  ]
  looped again n overrun e k = λ q. cc
  looped again n thrown e k = λ q. cc
  looped again n out_of_fuel e k = absurd e

  -- The read loop ends on every valid buffer.
  read_loop-total :
      (fuel : ℕ) (b : Buffer)
      → IsValid b
      → readable_bytes b < fuel
      → read_loop env fuel b ≢ out_of_fuel
  unfolding read_loop
  read_loop-total zero b v h = absurd (omega arith)
  read_loop-total (suc fuel) b v h =
      looped (read_loop env fuel) (readable_bytes b) (decode env b) (decode-Ends env b v)
        (λ c w l. read_loop-total fuel c w (omega arith))

  -- Whatever bytes are read, the read handler ends: its loop and `decode` never run out of fuel.
  pub on_read-total :
      (bytes : Option Bytes) (s : Session)
      → IsValid s.read_buffer
      → on_read env bytes s ≢ out_of_fuel
  unfolding on_read
  on_read-total none s v = λ e. cc
  on_read-total (some bytes) s v =
      let filled = append bytes s.read_buffer in
      finished _ _ (
        read_loop-total (suc (readable_bytes filled)) filled (append-IsValid bytes s.read_buffer v)
          (omega arith))
