-- ===== src/Session/Sent.antt =====
-- asio/internal/ProtoHelp.cpp: what `encode` writes for a message is a frame of the stream.
use asio.Prelude.{
  ℕ, ◌+◌, ◌≤◌, ◌<◌, ◌^◌, ◌≡◌, ◌≢◌, ◌⊎◌, refl, sym, ap, ◌∙◌, some, [], ◌∷◌, ◌++◌, Bytes, arith, inl,
  inr, ok, true, length, length-append, leb, Bool-cases,
}
use asio.Prelude.Words.{size_of_int}
use asio.Prelude.Int.{ℤ}
use asio.Package.{PacHeader, Package, package_header_size}
use asio.Platform.{Platform, IsLawful}
use asio.Buffer.{Buffer, content, make}
use asio.Buffer.View.{IsValid, make-IsValid, content-make}
use mathlib.Core.Path.{subst}
use asio.ProtoHelp.{encode, decode, bytes_of_header, to_network, max_package_len}
use asio.ProtoHelp.Header.{length-bytes_of_header}
use asio.ProtoHelp.Frame.{frame, Describes}
use asio.ProtoHelp.Encode.{Sendable, zipped, sent_header, appended, encode-sends, content-appended}
use asio.ProtoHelp.RoundTrip.{Known, received, decode-encode, sent-Describes}
use asio.ProtoHelp.Faults.{decode-waits}
use asio.Session.Reading.{Waits}
use asio.Session.Stream.{Frame, Waits-short, cut}

not_empty : (y : Bytes) → y ≢ [] → 1 ≤ length y
not_empty [] n = absurd (n refl)
not_empty (x ∷ xs) n = omega arith

fits_size : (size n : ℕ) → n < size → size ≤ max_package_len → n < size_of_int size
fits_size size n l m = ground arith

module _ (env : Platform) (law : IsLawful env) where
  -- `decode` waits on every proper part at the front of a frame.
  part-Waits :
      (h : PacHeader) (name body x y : Bytes)
      → Describes h name body
      → frame env h name body ≡ x ++ y
      → y ≢ []
      → Waits env x
  part-Waits h name body x y d e n = elim (Bool-cases (leb (length x) package_header_size)) [
    | inl short ↦ Waits-short env x (ground arith)
    | inr long ↦
        longer (ground arith) (cut x y (bytes_of_header (to_network env h)) (name ++ body) (sym e))
  ]
    where
      wire : Bytes
      wire = bytes_of_header (to_network env h)

      some_more : 1 ≤ length y
      some_more = not_empty y n

      longer :
          20 < length x
          → ((z : Bytes) × (wire ≡ x ++ z) × (z ≢ []) × (y ≡ z ++ (name ++ body)))
            ⊎ ((c : Bytes) × (x ≡ wire ++ c) × (c ++ y ≡ name ++ body))
          → Waits env x
      longer big (inl (z, q, _, _)) b v f =
          absurd (
            omega
              (arith, ap length q, length-append x z, length-bytes_of_header (to_network env h)))
      longer big (inr (c, q, r)) b v f =
          let w =
            decode-waits env law h c b d.fits v (f ∙ q)
              (omega (
                arith,
                ap length q,
                length-append wire c,
                length-bytes_of_header (to_network env h),
              ))
              (fits_size h.pac_size (20 + length c)
                (omega (
                  arith,
                  some_more,
                  d.size_right,
                  ap length r,
                  length-append c y,
                  length-append name body,
                ))
                d.size_limit) in
          (w.0, w.1, w.2, w.3 ∙ f)

  -- What is sent of a message is a frame.
  pub wire-Frame :
      (limit : ℤ) (p : Package env.Message) (m fresh : env.Message) (s : Bytes)
      (ready : Sendable env p m s)
      → Known env m fresh
      → length s < 2 ^ 31
      → 20 + length (env.type_name_of m) + length (zipped env limit p m s ready).1 ≤ max_package_len
      → Frame env (
        frame env
            (sent_header env limit p m s ready)
            (env.type_name_of m)
            (zipped env limit p m s ready).1,
        received env p m s,
      )
  wire-Frame limit p m fresh s ready known raw small = (carries, waits)
    where
      h : PacHeader
      h = sent_header env limit p m s ready

      body : Bytes
      body = (zipped env limit p m s ready).1

      sent : Buffer
      sent = appended env h (env.type_name_of m) body (make 0)

      wire : content sent ≡ frame env h (env.type_name_of m) body
      wire =
          content-appended env h (env.type_name_of m) body (make 0) (make-IsValid 0)
          ∙ ap (λ (t : Bytes). t ++ frame env h (env.type_name_of m) body) (content-make 0)

      carries :
          (b : Buffer) (rest : Bytes)
          → IsValid b
          → content b ≡ frame env h (env.type_name_of m) body ++ rest
          → (b' : Buffer) × (decode env b ≡ ok (some (received env p m s), b'))
            × IsValid b'
            × (content b' ≡ rest)
      carries b rest v e =
          decode-encode env law limit p m fresh s ready known (make 0) sent b _ [] rest raw small
            (make-IsValid 0) (content-make 0) (encode-sends env limit p m s ready (make 0)) tt v
            (e ∙ ap (λ (t : Bytes). t ++ rest) (sym wire))

      waits : (x y : Bytes) → frame env h (env.type_name_of m) body ≡ x ++ y → y ≢ [] → Waits env x
      waits x y =
          part-Waits h (env.type_name_of m) body x y
            (sent-Describes env law p m fresh s ready known raw limit small)

  -- `encode` into an empty buffer, of a message that is ready to be sent, of a type that the receiver
  -- knows, with a serialization shorter than 2 ^ 31 bytes in a package that is not above 100 MB: it
  -- succeeds, and the bytes that it leaves in the buffer are a frame, which carries the package that
  -- `decode` makes of the message. So `decode` takes exactly these bytes, whatever follows, and waits
  -- on every proper part at their front.
  pub sent-Frame :
      (limit : ℤ) (p : Package env.Message) (m fresh : env.Message) (s : Bytes) (out : Buffer)
      (ready : Sendable env p m s)
      → Known env m fresh
      → length s < 2 ^ 31
      → 20 + length (env.type_name_of m) + length (zipped env limit p m s ready).1 ≤ max_package_len
      → IsValid out
      → content out ≡ []
      → (q : Package env.Message) × (out' : Buffer) × (encode env limit p out ≡ ok (true, q, out'))
        × Frame env (content out', received env p m s)
  sent-Frame limit p m fresh s out ready known raw small v e =
      let h = sent_header env limit p m s ready in
      let body = (zipped env limit p m s ready).1 in
      let name = env.type_name_of m in
      let holds : content (appended env h name body out) ≡ frame env h name body =
        content-appended env h name body out v ∙ ap (λ (t : Bytes). t ++ frame env h name body) e in
      (
        record p { header = h; type_name = name },
        appended env h name body out,
        encode-sends env limit p m s ready out,
        subst (λ w. Frame env (w, received env p m s)) (sym holds)
            (wire-Frame limit p m fresh s ready known raw small),
      )
