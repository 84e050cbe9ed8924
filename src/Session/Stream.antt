-- ===== src/Session/Stream.antt =====
-- asio/internal/Session.cpp and ProtoHelp.cpp: a stream of packages that arrives in any pieces.
use asio.Prelude.{
  ◌≤◌, ◌≡◌, ◌≢◌, ◌⊎◌, refl, sym, ap, ◌∙◌, false, List, [], ◌∷◌, ◌++◌, none, some, Bytes, arith,
  append-nil, append_assoc, inl, inr, Exec, ok, ◌>>=◌, length, All, length-append,
}
use mathlib.Core.Path.{subst}
use asio.Package.{Package, package_header_size}
use asio.Platform.{Platform}
use asio.Buffer.{Buffer, content}
use asio.Buffer.View.{IsValid}
use asio.ProtoHelp.{decode, decode_once, goto_flag}
use asio.ProtoHelp.Flag.{scan, goto_flag-Finds, Finds}
use asio.ProtoHelp.RoundTrip.{decode-returns}
use asio.Session.{Session, on_read, do_read}
use asio.Session.Reading.{Carries, Waits, concat, packages, on_read-Reads}

-- Two ways to cut one string.
pub cut :
    (c d w t : Bytes)
    → c ++ d ≡ w ++ t
    → ((y : Bytes) × (w ≡ c ++ y) × (y ≢ []) × (d ≡ y ++ t))
      ⊎ ((c' : Bytes) × (c ≡ w ++ c') × (c' ++ d ≡ t))
cut c d [] t e = inr (c, refl, e)
cut [] d (x ∷ w) t e = inl (x ∷ w, refl, (λ q. cc), e)
cut (a ∷ c) d (x ∷ w) t e = elim (cut c d w t (ap tail e)) [
  | inl (y, f, n, g) ↦ inl (y, cc (f, e), n, g)
  | inr (c', f, g) ↦ inr (c', cc (f, e), g)
]
  where
    tail : Bytes → Bytes
    tail [] = []
    tail (z ∷ zs) = zs

module _ (env : Platform) where
  -- `decode` takes these bytes as this package, and waits on every proper part at their front.
  abbrev pub Frame : Bytes × Package env.Message → Type 0
  Frame w = Carries env w × ((x y : Bytes) → w.0 ≡ x ++ y → y ≢ [] → Waits env x)

  scan_short : (q : Bytes) → length q ≤ package_header_size → scan q ≡ (false, q)
  unfolding scan
  scan_short [] h = refl
  scan_short (x ∷ xs) h = ground arith

  -- A header's length of bytes or less is never decoded.
  pub Waits-short : (q : Bytes) → length q ≤ package_header_size → Waits env q
  unfolding decode_once
  Waits-short q h b v e =
      let f = subst (λ s. Finds (goto_flag b) s) (scan_short q h) (goto_flag-Finds b q v e) in
      (f.0, decode-returns env b f.0 none (rw f.1 refl), f.2, f.3)

  Frames-Carries : (ws : List (Bytes × Package env.Message)) → All Frame ws → All (Carries env) ws
  Frames-Carries [] f = tt
  Frames-Carries (w ∷ ws) f = (f.0.0, Frames-Carries ws f.1)

  -- Where a stream of frames is cut, some frames are complete and `decode` waits on what is left.
  abbrev Split : Bytes → Bytes → List (Bytes × Package env.Message) → Type 0
  Split c d ws =
      (done : List (Bytes × Package env.Message)) × (later : List (Bytes × Package env.Message))
      × (rest : Bytes) × (packages env ws ≡ packages env done ++ packages env later)
      × (c ≡ concat env done ++ rest)
      × (rest ++ d ≡ concat env later)
      × All Frame done
      × All Frame later
      × Waits env rest

  Split-stream :
      (ws : List (Bytes × Package env.Message)) (c d : Bytes)
      → All Frame ws
      → c ++ d ≡ concat env ws
      → Split c d ws
  Split-stream [] c d f e = (
    [],
    [],
    c,
    refl,
    refl,
    e,
    tt,
    tt,
    Waits-short c (omega (arith, length-append c d, ap length e)),
  )
  Split-stream (w ∷ ws) c d f e = elim (cut c d w.0 (concat env ws) e) [
    | inl (y, h, n, g) ↦ ([], w ∷ ws, c, refl, refl, e, tt, f, f.0.1 c y h n)
    | inr (c', h, g) ↦
        let r = Split-stream ws c' d f.1 g in
        (
          w ∷ r.0,
          r.1,
          r.2,
          ap (λ t. w.1 ∷ t) r.3,
          h ∙ ap (λ (t : Bytes). w.0 ++ t) r.4 ∙ sym (append_assoc w.0 _ _),
          r.5,
          (f.0, r.6),
          r.7,
          r.8,
        )
  ]

  -- The session reads the pieces one after the other.
  unfoldable pub feed : List Bytes → Session → Exec (List (Package env.Message) × Session)
  feed [] s = ok ([], s)
  feed (c ∷ cs) s = do r ← on_read env (some c) s; more ← feed cs r.1; ok (r.0 ++ more.0, more.1)

  abbrev pub join : List Bytes → Bytes
  join [] = []
  join (c ∷ cs) = c ++ join cs

  none_and_some :
      (b b1 b2 : Buffer) (p : Package env.Message)
      → decode env b ≡ ok (none, b1)
      → decode env b ≡ ok (some p, b2)
      → ⊥
  none_and_some b b1 b2 p e f = cc

  feed-packages :
      (cs : List Bytes) (ws : List (Bytes × Package env.Message)) (s : Session)
      → All Frame ws
      → IsValid s.read_buffer
      → Waits env (content s.read_buffer)
      → content s.read_buffer ++ join cs ≡ concat env ws
      → (s' : Session) × (feed cs s ≡ ok (packages env ws, s'))
  unfolding feed
  feed-packages [] [] s f v w e = (s, refl)
  feed-packages [] (x ∷ ws) s f v w e =
      let none_yet = w s.read_buffer v refl in
      let decoded =
        f.0.0 s.read_buffer (concat env ws) v (sym (append-nil (content s.read_buffer)) ∙ e) in
      absurd (none_and_some s.read_buffer none_yet.0 decoded.0 x.1 none_yet.1 decoded.1)
  feed-packages (c ∷ cs) ws s f v w e =
      let p =
        Split-stream ws (content s.read_buffer ++ c) (join cs) f
          (append_assoc (content s.read_buffer) c (join cs) ∙ e) in
      let r = on_read-Reads env p.0 p.2 c s (Frames-Carries p.0 p.6) p.8 v p.4 in
      let s1 = do_read (record s { read_buffer = r.0 }) in
      let waits : Waits env (content s1.read_buffer) =
        unfold do_read in subst (Waits env) (sym r.3) p.8 in
      let i =
        feed-packages cs p.1 s1 p.7 (unfold do_read in r.2) waits
          (unfold do_read in (ap (λ (t : Bytes). t ++ join cs) r.3 ∙ p.5)) in
      (i.0, rw (r.1, i.1) (ap (λ ps. ok (ps, i.0)) (sym p.3)))

  -- A stream of frames, cut into any pieces, that arrives at a session whose read buffer is empty:
  -- the session hands on exactly the packages of the frames, in order.
  pub any_pieces :
      (cs : List Bytes) (ws : List (Bytes × Package env.Message)) (s : Session)
      → All Frame ws
      → IsValid s.read_buffer
      → content s.read_buffer ≡ []
      → join cs ≡ concat env ws
      → (s' : Session) × (feed cs s ≡ ok (packages env ws, s'))
  any_pieces cs ws s f v e c =
      feed-packages cs ws s f v (subst (Waits env) (sym e) (Waits-short [] (omega arith)))
        (ap (λ (t : Bytes). t ++ join cs) e ∙ c)
