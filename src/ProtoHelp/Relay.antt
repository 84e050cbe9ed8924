-- ===== src/ProtoHelp/Relay.antt =====
-- asio/internal/ProtoHelp.cpp, `encode` and `decode` of a build with MSGBUS: packages that are handed on
-- as they came.
use asio.Prelude.{
  ◌%◌, ◌^◌, ◌≡◌, refl, ap, ◌∙◌, ◌++◌, arith, length, Bytes, ok, true, false, some, All, ◌≢◌, ◌==◌,
}
use asio.Prelude.Int.{ℤ}
use asio.Package.{flag0, PacHeader, Package, new_package}
use asio.Platform.{Platform, IsLawful}
use asio.Buffer.{Buffer, content}
use asio.Buffer.View.{IsValid}
use asio.ProtoHelp.{encode, encode_relayed, decode, append_name, buffer_append_header, is_relayed}
use asio.ProtoHelp.Encode.{append_name_lem, appended, appended-IsValid, content-appended}
use asio.ProtoHelp.Frame.{Describes, frame, decode_once-frame}
use asio.ProtoHelp.Body.{decode_body-relayed}
use asio.ProtoHelp.RoundTrip.{decode-returns}

module _ (env : Platform) (law : IsLawful env) (h : PacHeader) (name body : Bytes)
    (d : Describes h name body) (relayed : is_relayed env name ≡ true) where
  -- The package of which the bus knows the header, the type name and the bytes.
  abbrev pub carried : Package env.Message
  carried = record (new_package env.Message) { header = h; type_name = name; body = body }

  encode-carried :
      (limit : ℤ) (out : Buffer)
      → encode env limit carried out ≡ ok (true, carried, appended env h name body out)
  unfolding encode encode_relayed appended
  encode-carried limit out =
      let some_name : (length name == 0) ≡ false = ground (arith, d.name_positive) in
      let cut : h.type_name_len ≡ length name % 2 ^ 16 =
        omega (arith, d.name_length, d.name_limit) in
      let start = buffer_append_header env h out in
      let named =
        ap (λ n. append_name name n start) cut
        ∙ append_name_lem name start (omega (arith, d.name_limit)) in
      rw (some_name, relayed, named) refl

  -- On a lawful platform, a package of a type that is relayed, with a header that describes it,
  -- behind any bytes without a flag character and before any others: `decode` returns it with its
  -- header as it came and takes exactly its bytes, and `encode` of that, whatever the compression
  -- limit, leaves the package as it is and appends the same bytes again.
  pub encode-decode :
      (limit : ℤ) (g rest : Bytes) (b out : Buffer)
      → All (λ x. x ≢ flag0) g
      → IsValid b
      → content b ≡ g ++ (frame env h name body ++ rest)
      → IsValid out
      → (p : Package env.Message) × (b' : Buffer) × (out' : Buffer) × (decode env b
          ≡ ok (some p, b'))
        × (encode env limit p out ≡ ok (true, p, out'))
        × (content b' ≡ rest)
        × (content out' ≡ content out ++ frame env h name body)
        × IsValid b'
        × IsValid out'
  encode-decode limit g rest b out noise v e vo =
      let r = decode_once-frame env law h name body d g rest b noise v e in
      let t = decode_body-relayed env law h name body rest r.0 d r.2 r.3 relayed in
      (
        carried,
        t.0,
        appended env h name body out,
        decode-returns env b t.0 (some carried) (r.1 ∙ t.1),
        encode-carried limit out,
        t.3,
        content-appended env h name body out vo,
        t.2,
        appended-IsValid env h name body out vo,
      )
