-- ===== src/ProtoHelp/Body.antt =====
-- asio/internal/ProtoHelp.cpp, `decode`: what it does with the body of a package.
use asio.Prelude.{
  ℕ, ◌+◌, ◌%◌, ◌≤◌, ◌<◌, ◌^◌, ◌≡◌, refl, sym, ap, ◌∙◌, inl, inr, [], ◌∷◌, ◌++◌, arith, length, take,
  drop, Bytes, Exec, ok, take-append_self, drop-append_self, length-append, true, false, none, some,
  ◌==◌, leb, replicate, Bool-cases,
}
use asio.Prelude.Words.{size_of_int}
use asio.Package.{PacHeader, Package, package_header_size, iszip, set_iszip, new_package}
use asio.Platform.{Platform, IsLawful}
use asio.Buffer.{Buffer, content, copy_from, peek, readable_bytes, retrieve, read}
use asio.Buffer.View.{
  IsValid, copy_from-peek, length-content, retrieve-IsValid, content-retrieve, read_lem,
}
use asio.ProtoHelp.{
  Attempt, returns, decode_body, decode_relayed, decode_plain, decode_zipped, finish_decode,
  remain_size, create_message, is_relayed,
}
use asio.ProtoHelp.Frame.{Describes}

length_zero : (d : Bytes) → length d ≡ 0 → d ≡ []
length_zero [] e = refl
length_zero (x ∷ xs) e = absurd (omega arith)

unread : (n : ℕ) (b : Buffer) → read false n b ≡ ok (none, b)
unfolding read
unread n b = refl

module _ (env : Platform) (law : IsLawful env) where
  -- The body of a package, read by each of the branches.
  module _ (h : PacHeader) (name body rest : Bytes) (b : Buffer) (d : Describes h name body)
      (v : IsValid b) (e : content b ≡ body ++ rest) where
    remain_size-length : remain_size h ≡ length body
    remain_size-length = omega (arith, d.size_right, d.size_limit, d.name_length)

    size_of_remain : size_of_int (remain_size h) ≡ length body
    size_of_remain = ground (arith, remain_size-length, d.size_right, d.size_limit)

    enough : length body ≤ readable_bytes b
    enough = omega (arith, length-content b v, ap length e, length-append body rest)

    pub body_copied : copy_from (length body) (peek b) ≡ ok body
    body_copied =
        copy_from-peek (length body) b v enough
        ∙ ap (λ (t : Bytes). ok (take (length body) t)) e
        ∙ ap ok (take-append_self body rest)

    abbrev after_body : Buffer
    after_body = retrieve (length body) b

    content-after_body : content after_body ≡ rest
    content-after_body =
        content-retrieve (length body) b v ∙ ap (drop (length body)) e ∙ drop-append_self body rest

    -- What the branch for the package comes to, and what is left to read.
    abbrev pub Delivers : Exec (Attempt env) → Package env.Message → Type 0
    Delivers r p = (b' : Buffer) × (r ≡ ok (returns (some p) b')) × IsValid b' × (content b' ≡ rest)

    -- The parser is given as many bytes as the header's message size says, those behind the package
    -- included.
    pub decode_body-parses :
        (fresh m : env.Message)
        → is_relayed env name ≡ false
        → create_message env name ≡ some fresh
        → iszip h ≡ 0
        → size_of_int h.msg_size ≤ length (body ++ rest)
        → env.parse_from_array fresh (take (size_of_int h.msg_size) (body ++ rest)) ≡ some m
        → Delivers
            (decode_body env h name b)
            (record (new_package env.Message) { header = h; type_name = name; msg_ptr = some m })
    unfolding decode_body decode_plain finish_decode
    decode_body-parses fresh m r c z s p = (
      after_body,
      (let n = size_of_int h.msg_size in
          let copied : copy_from n (peek b) ≡ ok (take n (body ++ rest)) =
            copy_from-peek n b v (omega (arith, length-content b v, ap length e))
            ∙ ap (λ (t : Bytes). ok (take n t)) e in
          rw (r, c, z, copied, p, size_of_remain) refl),
      retrieve-IsValid (length body) b v,
      content-after_body,
    )

    pub decode_body-plain :
        (fresh m : env.Message)
        → is_relayed env name ≡ false
        → create_message env name ≡ some fresh
        → iszip h ≡ 0
        → h.msg_size ≡ length body
        → env.parse_from_array fresh body ≡ some m
        → Delivers
            (decode_body env h name b)
            (record (new_package env.Message) { header = h; type_name = name; msg_ptr = some m })
    decode_body-plain fresh m r c z s p =
        let size : size_of_int h.msg_size ≡ length body =
          ground (arith, s, d.size_right, d.size_limit) in
        decode_body-parses fresh m r c z (omega (arith, size, length-append body rest)) (
          ap (λ k. env.parse_from_array fresh (take k (body ++ rest))) size
          ∙ ap (env.parse_from_array fresh) (take-append_self body rest)
          ∙ p)

    pub decode_body-zipped :
        (fresh m : env.Message) (raw : Bytes)
        → is_relayed env name ≡ false
        → create_message env name ≡ some fresh
        → iszip h ≡ 1
        → h.msg_size ≡ length raw
        → length raw < 2 ^ 31
        → env.uncompress (length raw) body ≡ some raw
        → env.parse_from_array fresh raw ≡ some m
        → Delivers (decode_body env h name b) (record (new_package env.Message) {
          header = record (set_iszip 0 h) {
            pac_size = (package_header_size + h.type_name_len + h.msg_size) % 2 ^ 32;
          };
          type_name = name;
          msg_ptr = some m;
        })
    unfolding decode_body decode_zipped finish_decode
    decode_body-zipped fresh m raw r c z s fits u p = (
      after_body,
      branch ∙ rw (small, size_of_remain, body_copied, given, p, size_of_remain) refl,
      retrieve-IsValid (length body) b v,
      content-after_body,
    )
      where
        small : leb (2 ^ 31) h.msg_size ≡ false
        small = ground (arith, s)

        given : env.uncompress h.msg_size body ≡ some raw
        given = rw s u

        branch : decode_body env h name b ≡ decode_zipped env h name fresh b
        branch = rw (r, c, z) refl

    pub decode_body-relayed :
        is_relayed env name ≡ true
        → Delivers
            (decode_body env h name b)
            (record (new_package env.Message) { header = h; type_name = name; body = body })
    unfolding decode_body decode_relayed
    decode_body-relayed r = elim (Bool-cases (length body == 0)) [
      | inl empty ↦
          let none_left : body ≡ [] = length_zero body (ground arith) in
          (
            b,
            rw (r, remain_size-length, small, empty, unread (length body) b)
                (ap
                  (λ (t : Bytes). ok (
                    returns
                      (some (record (new_package env.Message) {
                        header = h;
                        type_name = name;
                        body = t;
                      }))
                      b))
                  (ap (λ (k : ℕ). replicate k 0)
                      (let e0 : remain_size h ≡ 0 =
                          omega (arith, remain_size-length, ap length none_left) in
                        e0)
                    ∙ sym none_left)),
            v,
            e ∙ ap (λ (t : Bytes). t ++ rest) none_left,
          )
      | inr some_left ↦ (
        after_body,
        rw (r, remain_size-length, some_left, small, whole) refl,
        retrieve-IsValid (length body) b v,
        content-after_body,
      )
    ]
      where
        small : leb (2 ^ 31) (length body) ≡ false
        small = ground (arith, d.size_right, d.size_limit)

        whole : read true (length body) b ≡ ok (some body, after_body)
        whole =
            let fits : leb (length body) (length (content b)) ≡ true =
              ground (arith, ap length e, length-append body rest) in
            read_lem (length body) b v
            ∙ rw fits (
                ap (λ (t : Bytes). ok (some (take (length body) t), after_body)) e
                ∙ ap (λ (t : Bytes). ok (some t, after_body)) (take-append_self body rest))
