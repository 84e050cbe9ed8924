-- ===== src/ProtoHelp/Faults.antt =====
-- asio/internal/ProtoHelp.cpp, `decode`: packages that are not whole, or whose sizes lie.
use mathlib.Core.Path.{subst}
use asio.Prelude.{
  take, false, some, All, ◌≢◌, ◌+◌, ◌≤◌, ◌<◌, ◌≡◌, refl, sym, ap, ◌∙◌, ◌++◌, arith, length, Bytes,
  ok, true, none, ltb, length-append,
}
use asio.Prelude.Words.{size_of_int}
use asio.Package.{PacHeader, flag0, iszip, new_package}
use asio.Platform.{Platform, IsLawful}
use asio.Buffer.{Buffer, content, readable_bytes}
use asio.Buffer.View.{IsValid, length-content}
use asio.ProtoHelp.{
  bytes_of_header, to_network, decode, decode_once, decode_found, decode_header, goto_flag,
  is_relayed, create_message,
}
use asio.ProtoHelp.Flag.{scan, scan-at_flag, goto_flag-Finds, Finds}
use asio.ProtoHelp.Header.{
  Fits, length-bytes_of_header, at_flag-bytes_of_header, buffer_peek_header_lem, to_network-Fits,
}
use asio.ProtoHelp.RoundTrip.{decode-returns}
use asio.ProtoHelp.Body.{decode_body-parses}
use asio.ProtoHelp.Frame.{Describes, frame, decode_once-frame}

module _ (env : Platform) (law : IsLawful env) where
  -- At a header whose package size is above the number of bytes at hand, `decode` returns nothing and
  -- leaves every byte where it is. The size is compared as a `size_t`, so this is the case as well for
  -- every negative size, whatever number of bytes (below 2 ^ 63) has arrived.
  pub decode-waits :
      (h : PacHeader) (rest : Bytes) (b : Buffer)
      → Fits h
      → IsValid b
      → content b ≡ bytes_of_header (to_network env h) ++ rest
      → 1 ≤ length rest
      → 20 + length rest < size_of_int h.pac_size
      → (b' : Buffer) × (decode env b ≡ ok (none, b')) × IsValid b' × (content b' ≡ content b)
  unfolding decode_once decode_found decode_header
  decode-waits h rest b f v e some_more short =
      let wire = bytes_of_header (to_network env h) ++ rest in
      let size : length wire ≡ 20 + length rest = omega (
        arith,
        length-append (bytes_of_header (to_network env h)) rest,
        length-bytes_of_header (to_network env h),
      ) in
      let flagged = at_flag-bytes_of_header (to_network env h) rest (to_network-Fits env law h f) in
      let found : scan wire ≡ (true, wire) = scan-at_flag wire flagged (omega arith) in
      let g = subst (λ s. Finds (goto_flag b) s) found (goto_flag-Finds b wire v e) in
      let peeked = buffer_peek_header_lem env law h rest g.0 f g.2 g.3 in
      let waits : ltb (readable_bytes g.0) (size_of_int h.pac_size) ≡ true =
        ground (arith, length-content g.0 g.2, ap length g.3) in
      (g.0, decode-returns env b g.0 none (rw g.1 (rw peeked (rw waits refl))), g.2, g.3 ∙ sym e)

  -- On a lawful platform, a whole package of which the message is not compressed, of a type that is known
  -- and not relayed, behind any bytes without a flag character: the parser is given as many bytes as the
  -- header's message size says, as long as they have been received, those of the packages behind it
  -- included, as nothing compares that size with the size of the package. A message that it makes of them
  -- is returned, and only the bytes of the package itself are taken.
  pub decode-reads_on :
      (h : PacHeader) (name body g rest : Bytes) (fresh m : env.Message) (b : Buffer)
      → Describes h name body
      → All (λ x. x ≢ flag0) g
      → IsValid b
      → content b ≡ g ++ (frame env h name body ++ rest)
      → is_relayed env name ≡ false
      → create_message env name ≡ some fresh
      → iszip h ≡ 0
      → size_of_int h.msg_size ≤ length (body ++ rest)
      → env.parse_from_array fresh (take (size_of_int h.msg_size) (body ++ rest)) ≡ some m
      → let p = record (new_package env.Message) {
        header = h;
        type_name = name;
        msg_ptr = some m;
      } in
        (b' : Buffer) × (decode env b ≡ ok (some p, b')) × IsValid b' × (content b' ≡ rest)
  decode-reads_on h name body g rest fresh m b d noise v e plain known bit received parsed =
      let r = decode_once-frame env law h name body d g rest b noise v e in
      let t =
        decode_body-parses env law h name body rest r.0 d r.2 r.3 fresh m plain known bit received
          parsed in
      (t.0, decode-returns env b t.0 _ (r.1 ∙ t.1), t.2, t.3)
