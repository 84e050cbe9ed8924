-- ===== src/ProtoHelp/RoundTrip.antt =====
-- asio/internal/ProtoHelp.cpp: `decode` after `encode`.
use asio.Prelude.{
  ◌+◌, ◌%◌, ◌≤◌, ◌<◌, ◌^◌, ◌≡◌, refl, sym, ap, ◌∙◌, inl, inr, [], ◌++◌, arith, length, Bytes, Exec,
  ok, true, false, Bool, Option, some, Bool-cases, Option-cases, ◌&&◌, All, ◌≢◌,
}
use asio.Prelude.Int.{ℤ, pos, leb_ℤ, ltb_ℤ}
use asio.Prelude.Words.{signed32}
use asio.Package.{flag0, PacHeader, Package, iszip, set_iszip, new_package}
use asio.Platform.{Platform, IsLawful}
use asio.Buffer.{Buffer, content}
use asio.Buffer.View.{IsValid}
use asio.ProtoHelp.{
  returns, compress_content, sized_header, encode, decode, decode_loop, decode_once, create_message,
  is_relayed, max_package_len,
}
use asio.ProtoHelp.Header.{Fits}
use asio.ProtoHelp.Frame.{frame, Describes, decode_once-frame}
use asio.ProtoHelp.Body.{decode_body-plain, decode_body-zipped}
use asio.ProtoHelp.Encode.{Sendable, zipped, sent_header, appended, encode-sends, content-appended}

module _ (env : Platform) where
  -- The package that `decode` makes of a message that was sent: it is the same whether or not the
  -- content was compressed on the way.
  abbrev pub received : Package env.Message → env.Message → Bytes → Package env.Message
  received p m s = record (new_package env.Message) {
    header = sized_header env p.header m s;
    type_name = env.type_name_of m;
    msg_ptr = some m;
  }

  -- The receiving program knows the type of the message: `fresh` is a new object of it.
  pub record Known (m fresh : env.Message) : Type 0 where
    pub created : create_message env (env.type_name_of m) ≡ some fresh
    pub same_type : env.type_name_of fresh ≡ env.type_name_of m
    pub not_relayed : is_relayed env (env.type_name_of m) ≡ false

module _ (env : Platform) (law : IsLawful env) (p : Package env.Message) (m fresh : env.Message)
    (s : Bytes) (ready : Sendable env p m s) (known : Known env m fresh)
    (raw : length s < 2 ^ 31) where
  abbrev name : Bytes
  name = env.type_name_of m

  size_right : env.byte_size_long m ≡ length s
  size_right = sym (law.serialized_size m s ready.serialized)

  parsed : env.parse_from_array fresh s ≡ some m
  parsed = law.parse_back m fresh s known.same_type ready.serialized

  sized-Describes :
      (h : PacHeader) (body : Bytes)
      → Fits h
      → 20 + length name + length body ≤ max_package_len
      → Describes (sized_header env h m body) name body
  unfolding sized_header
  sized-Describes h body f small = record {
    fits = record {
      flag0_right = f.flag0_right;
      flag1_right = f.flag1_right;
      msg_type_fits = f.msg_type_fits;
      type_name_len_fits = omega arith;
      ext_info_fits = f.ext_info_fits;
      msg_id_fits = f.msg_id_fits;
      msg_size_fits = omega arith;
      pac_size_fits = omega arith;
    };
    name_length = omega (arith, ready.type_name_limit);
    name_positive = ready.type_name_positive;
    name_limit = ready.type_name_limit;
    size_right = omega arith;
    size_limit = omega arith;
  }

  -- What holds of a header and a content as `compress_content` may leave them.
  abbrev Decodes : PacHeader × Bytes → Type 0
  Decodes zb =
      (b : Buffer) (g rest : Bytes)
      → 20 + length name + length zb.1 ≤ max_package_len
      → All (λ x. x ≢ flag0) g
      → IsValid b
      → content b ≡ g ++ (frame env (sized_header env zb.0 m zb.1) name zb.1 ++ rest)
      → (b' : Buffer) × (decode_once env b ≡ ok (returns (some (received env p m s)) b'))
        × IsValid b'
        × (content b' ≡ rest)

  plain-Decodes : Decodes (p.header, s)
  unfolding sized_header
  plain-Decodes b g rest small noise v e =
      let h = sized_header env p.header m s in
      let d = sized-Describes p.header s ready.header_fits small in
      let r = decode_once-frame env law h name s d g rest b noise v e in
      let t =
        decode_body-plain env law h name s rest r.0 d r.2 r.3 fresh m known.not_relayed
          known.created ready.not_zipped (omega (arith, size_right)) parsed in
      (t.0, r.1 ∙ t.1, t.2, t.3)

  zip-Fits : Fits (set_iszip 1 p.header)
  zip-Fits =
      let f = ready.header_fits in
      record {
        flag0_right = f.flag0_right;
        flag1_right = f.flag1_right;
        msg_type_fits = f.msg_type_fits;
        type_name_len_fits = f.type_name_len_fits;
        ext_info_fits = omega (arith, f.ext_info_fits, ready.not_zipped);
        msg_id_fits = f.msg_id_fits;
        msg_size_fits = f.msg_size_fits;
        pac_size_fits = f.pac_size_fits;
      }

  restored :
      (z : Bytes)
      → let h = sized_header env (set_iszip 1 p.header) m z in
        ◌≡◌ {A = PacHeader}
          (record (set_iszip 0 h) { pac_size = (20 + h.type_name_len + h.msg_size) % 2 ^ 32 })
          (sized_header env p.header m s)
  unfolding sized_header
  restored z =
      let bit : iszip p.header ≡ 0 = ready.not_zipped in
      ground (arith, size_right, ready.type_name_limit)

  zipped-Decodes :
      (z : Bytes) → env.uncompress (length s) z ≡ some s → Decodes (set_iszip 1 p.header, z)
  unfolding sized_header
  zipped-Decodes z u b g rest small noise v e =
      let h = sized_header env (set_iszip 1 p.header) m z in
      let d = sized-Describes (set_iszip 1 p.header) z zip-Fits small in
      let r = decode_once-frame env law h name z d g rest b noise v e in
      let bit : iszip p.header ≡ 0 = ready.not_zipped in
      let t =
        decode_body-zipped env law h name z rest r.0 d r.2 r.3 fresh m s known.not_relayed
          known.created (omega (arith, bit)) (omega (arith, size_right)) raw u parsed in
      (
        t.0,
        r.1
            ∙ t.1
            ∙ ap
                (λ (k : PacHeader). ok (
                  returns
                    (some (record (new_package env.Message) {
                      header = k;
                      type_name = name;
                      msg_ptr = some m;
                    }))
                    t.0))
                (restored z),
        t.2,
        t.3,
      )

  compressed-Fits : (limit : ℤ) → Fits (compress_content env limit p.header s).0
  unfolding compress_content
  compressed-Fits limit =
      elim (Bool-cases (leb_ℤ (pos 0) limit && ltb_ℤ limit (signed32 (length s % 2 ^ 32)))) [
        | inr off ↦ rw off ready.header_fits
        | inl on ↦ elim (Option-cases (env.compress (env.compress_bound (length s)) s)) [
          | inl e ↦ rw (on, e) ready.header_fits
          | inr (z, e) ↦ rw (on, e) zip-Fits
        ]
      ]

  -- The header that is sent describes what is sent with it.
  pub sent-Describes :
      (limit : ℤ)
      → 20 + length name + length (compress_content env limit p.header s).1 ≤ max_package_len
      → Describes (sent_header env limit p m s ready) name (compress_content env limit p.header s).1
  sent-Describes limit small =
      sized-Describes (compress_content env limit p.header s).0
        (compress_content env limit p.header s).1 (compressed-Fits limit) small

  -- Compression is off or fails, or the content is restored by `uncompress`.
  compressed-Decodes : (limit : ℤ) → Decodes (compress_content env limit p.header s)
  unfolding compress_content
  compressed-Decodes limit =
      elim (Bool-cases (leb_ℤ (pos 0) limit && ltb_ℤ limit (signed32 (length s % 2 ^ 32)))) [
        | inr off ↦ rw off plain-Decodes
        | inl on ↦ elim (Option-cases (env.compress (env.compress_bound (length s)) s)) [
          | inl e ↦ rw (on, e) plain-Decodes
          | inr (z, e) ↦ rw (on, e) (zipped-Decodes z (law.uncompress_back _ s z e))
        ]
      ]

pub decode-returns :
    (env : Platform) (b b' : Buffer) (o : Option (Package env.Message))
    → decode_once env b ≡ ok (returns o b')
    → decode env b ≡ ok (o, b')
unfolding decode decode_loop
decode-returns env b b' o e = rw e refl

-- What `encode` appends for a message, behind any bytes that hold no '`' and followed by any bytes,
-- is decoded as that message: `decode` skips what stands before, returns the package with its
-- message, its type name and its header (with the sizes of the uncompressed message, and not marked
-- as compressed), and leaves exactly the bytes that follow. It holds for every compression limit
-- if the platform is lawful, the receiver knows the type, the message is ready to be sent, its
-- serialization is shorter than 2 ^ 31 bytes and the package is not above 100 MB.
pub decode-encode :
    (env : Platform) (law : IsLawful env) (limit : ℤ) (p : Package env.Message)
    (m fresh : env.Message) (s : Bytes) (ready : Sendable env p m s) (known : Known env m fresh)
    (out sent b : Buffer) (sent_package : Package env.Message) (g rest : Bytes)
    → length s < 2 ^ 31
    → 20 + length (env.type_name_of m) + length (zipped env limit p m s ready).1 ≤ max_package_len
    → IsValid out
    → content out ≡ []
    → encode env limit p out ≡ ok (true, sent_package, sent)
    → All (λ x. x ≢ flag0) g
    → IsValid b
    → content b ≡ g ++ (content sent ++ rest)
    → (b' : Buffer) × (decode env b ≡ ok (some (received env p m s), b'))
      × IsValid b'
      × (content b' ≡ rest)
decode-encode env law limit p m fresh s ready known out sent b sent_package g rest raw small vo co e
      noise v c =
    let h = sent_header env limit p m s ready in
    let body = (zipped env limit p m s ready).1 in
    let name = env.type_name_of m in
    let same : sent ≡ appended env h name body out =
      sent_buffer (sym e ∙ encode-sends env limit p m s ready out) in
    let wire : content b ≡ g ++ (frame env h name body ++ rest) =
      c
      ∙ ap (λ (w : Buffer). g ++ (content w ++ rest)) same
      ∙ ap (λ (t : Bytes). g ++ (t ++ rest))
          (content-appended env h name body out vo ∙ rw co refl) in
    let r =
      compressed-Decodes env law p m fresh s ready known raw limit b g rest small noise v wire in
    (r.0, decode-returns env b r.0 _ r.1, r.2, r.3)
  where
    sent_of : Exec (Bool × Package env.Message × Buffer) → Buffer
    sent_of (ok (_, _, w)) = w
    sent_of other = out

    sent_buffer :
        {w : Bool × Package env.Message × Buffer}
        → ◌≡◌ {A = Exec (Bool × Package env.Message × Buffer)}
            (ok (true, sent_package, sent))
            (ok w)
        → sent ≡ w.2
    sent_buffer q = ap sent_of q
