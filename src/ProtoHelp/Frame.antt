-- ===== src/ProtoHelp/Frame.antt =====
-- asio/internal/ProtoHelp.cpp, `decode`: what it does with a whole package at the front of the bytes.
use asio.Prelude.{
  ℕ, ◌+◌, ◌≤◌, ◌≡◌, sym, ap, ◌∙◌, ◌++◌, arith, length, take, drop, Bytes, ok, take-append_self,
  drop-append_self, length-append, true, false, append_assoc, All, ◌≢◌, ltb,
}
use mathlib.Core.Path.{subst}
use asio.Prelude.Words.{size_of_int}
use asio.Package.{flag0, PacHeader}
use asio.Platform.{Platform, IsLawful}
use asio.Buffer.{Buffer, content, readable_bytes, retrieve, retrieve_as_string}
use asio.Buffer.View.{
  IsValid, length-content, retrieve-IsValid, content-retrieve, retrieve_as_string_lem,
}
use asio.ProtoHelp.{
  bytes_of_header, to_network, decode_once, decode_found, decode_header, decode_body,
  max_package_len, goto_flag,
}
use asio.ProtoHelp.Flag.{at_flag, scan, scan_skips, goto_flag-Finds, Finds}
use asio.ProtoHelp.Header.{
  Fits, length-bytes_of_header, at_flag-bytes_of_header, buffer_peek_header_lem, to_network-Fits,
}

module _ (env : Platform) where
  -- A package on the wire.
  abbrev pub frame : PacHeader → Bytes → Bytes → Bytes
  frame h name body = bytes_of_header (to_network env h) ++ (name ++ body)

-- The header describes the name and the body that follow it, within the limits of `decode`.
pub record Describes (h : PacHeader) (name body : Bytes) : Type 0 where
  pub fits : Fits h
  pub name_length : h.type_name_len ≡ length name
  pub name_positive : 1 ≤ length name
  pub name_limit : length name ≤ 1024
  pub size_right : h.pac_size ≡ 20 + length name + length body
  pub size_limit : h.pac_size ≤ max_package_len

module _ (env : Platform) (law : IsLawful env) where
  module _ (h : PacHeader) (name body : Bytes) (d : Describes h name body) where
    length-frame :
        (rest : Bytes) → length (frame env h name body ++ rest) ≡ h.pac_size + length rest
    length-frame rest = omega (
      arith,
      d.size_right,
      length-append (frame env h name body) rest,
      length-append (bytes_of_header (to_network env h)) (name ++ body),
      length-append name body,
      length-bytes_of_header (to_network env h),
    )

    -- Behind the header and the type name the body is next.
    pub decode_header-frame :
        (rest : Bytes) (b : Buffer)
        → IsValid b
        → content b ≡ frame env h name body ++ rest
        → (b' : Buffer) × (decode_header env h b ≡ decode_body env h name b')
          × IsValid b'
          × (content b' ≡ body ++ rest)
    unfolding decode_header
    decode_header-frame rest b v e = (b2, run, v2, c2)
      where
        size : readable_bytes b ≡ h.pac_size + length rest
        size = sym (length-content b v) ∙ ap length e ∙ length-frame rest

        b1 : Buffer
        b1 = retrieve 20 b

        v1 : IsValid b1
        v1 = retrieve-IsValid 20 b v

        regroup :
            frame env h name body ++ rest
            ≡ bytes_of_header (to_network env h) ++ (name ++ (body ++ rest))
        regroup = simp append_assoc

        c1 : content b1 ≡ name ++ (body ++ rest)
        c1 =
            content-retrieve 20 b v
            ∙ ap (drop 20) (e ∙ regroup)
            ∙ ap
                (λ (k : ℕ). drop k (bytes_of_header (to_network env h) ++ (name ++ (body ++ rest))))
                (sym (length-bytes_of_header (to_network env h)))
            ∙ drop-append_self (bytes_of_header (to_network env h)) _

        b2 : Buffer
        b2 = retrieve h.type_name_len b1

        v2 : IsValid b2
        v2 = retrieve-IsValid h.type_name_len b1 v1

        c2 : content b2 ≡ body ++ rest
        c2 =
            content-retrieve h.type_name_len b1 v1
            ∙ ap (drop h.type_name_len) c1
            ∙ ap (λ (k : ℕ). drop k (name ++ (body ++ rest))) d.name_length
            ∙ drop-append_self name _

        long : h.type_name_len ≤ readable_bytes b1
        long = omega (
          arith,
          d.name_length,
          length-content b1 v1,
          ap length c1,
          length-append name (body ++ rest),
        )

        got : retrieve_as_string h.type_name_len b1 ≡ ok (name, b2)
        got =
            retrieve_as_string_lem h.type_name_len b1 v1 long
            ∙ ap (λ (t : Bytes). ok (take h.type_name_len t, b2)) c1
            ∙ ap (λ (k : ℕ). ok (take k (name ++ (body ++ rest)), b2)) d.name_length
            ∙ ap (λ (t : Bytes). ok (t, b2)) (take-append_self name _)

        t1 : ltb (readable_bytes b) (size_of_int h.pac_size) ≡ false
        t1 = ground (arith, size, d.size_limit)

        run : decode_header env h b ≡ decode_body env h name b2
        run = ground (arith, size, got, d.size_limit, d.name_length, d.name_positive, d.name_limit)

    -- `decode` finds the package behind bytes that hold no '`', and comes to its body.
    pub decode_once-frame :
        (g rest : Bytes) (b : Buffer)
        → All (λ x. x ≢ flag0) g
        → IsValid b
        → content b ≡ g ++ (frame env h name body ++ rest)
        → (b' : Buffer) × (decode_once env b ≡ decode_body env h name b')
          × IsValid b'
          × (content b' ≡ body ++ rest)
    unfolding decode_once decode_found
    decode_once-frame g rest b noise v e =
        let wire = frame env h name body ++ rest in
        let flagged : at_flag wire ≡ true =
          rw append_assoc
            (at_flag-bytes_of_header (to_network env h) _ (to_network-Fits env law h d.fits)) in
        let found : scan (g ++ wire) ≡ (true, wire) =
          scan_skips g wire noise flagged
            (omega (arith, length-frame rest, d.size_right, d.name_positive)) in
        let f = subst (λ s. Finds (goto_flag b) s) found (goto_flag-Finds b (g ++ wire) v e) in
        let r = decode_header-frame rest f.0 f.2 f.3 in
        let peeked =
          buffer_peek_header_lem env law h (name ++ body ++ rest) f.0 d.fits f.2
            (f.3 ∙ simp append_assoc) in
        (r.0, rw f.1 (rw peeked r.1), r.2, r.3)
