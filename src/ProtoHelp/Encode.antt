-- ===== src/ProtoHelp/Encode.antt =====
-- asio/internal/ProtoHelp.cpp, `encode`: the bytes that it appends.
use asio.Prelude.{
  ◌%◌, ◌≤◌, ◌<◌, ◌^◌, ◌≡◌, refl, ap, ◌∙◌, [], ◌∷◌, ◌++◌, arith, length, Bytes, Exec, ok,
  take-append_self, length-append, true, false, Bool, some, append_assoc, ◌==◌, leb,
}
use asio.Prelude.Int.{ℤ}
use asio.Prelude.Words.{size_of_short}
use asio.Package.{PacHeader, Package, iszip}
use asio.Platform.{Platform}
use asio.Buffer.{Buffer, content, copy_from, append}
use asio.Buffer.View.{IsValid, append-IsValid, content-append}
use asio.ProtoHelp.{
  bytes_of_header, to_network, buffer_append_header, append_name, compress_content, sized_header,
  encode, encode_held, encode_serialized, is_relayed,
}
use asio.ProtoHelp.Header.{Fits}
use asio.ProtoHelp.Frame.{frame}

pub append_name_lem :
    (name : Bytes) (b : Buffer)
    → length name < 2 ^ 15
    → append_name name (length name % 2 ^ 16) b ≡ ok (append name b)
unfolding append_name copy_from
append_name_lem name b h =
    let size : size_of_short (length name % 2 ^ 16) ≡ length name = ground arith in
    let fits : leb (length name) (length (name ++ (0 ∷ []))) ≡ true =
      ground (arith, length-append name (0 ∷ [])) in
    rw (size, fits, take-append_self name (0 ∷ [])) refl

module _ (env : Platform) where
  -- Appending a header, a name and a body puts a frame behind the content.
  unfoldable pub appended : PacHeader → Bytes → Bytes → Buffer → Buffer
  appended h name body b = append body (append name (buffer_append_header env h b))

  pub appended-IsValid :
      (h : PacHeader) (name body : Bytes) (b : Buffer)
      → IsValid b
      → IsValid (appended h name body b)
  unfolding appended buffer_append_header
  appended-IsValid h name body b v =
      append-IsValid body _ (append-IsValid name _ (append-IsValid _ b v))

  pub content-appended :
      (h : PacHeader) (name body : Bytes) (b : Buffer)
      → IsValid b
      → content (appended h name body b) ≡ content b ++ frame env h name body
  unfolding appended buffer_append_header
  content-appended h name body b v =
      let v1 = append-IsValid (bytes_of_header (to_network env h)) b v in
      content-append body _ (append-IsValid name _ v1)
      ∙ ap (λ (t : Bytes). t ++ body)
          (content-append name _ v1 ∙ ap (λ (t : Bytes). t ++ name) (content-append _ b v))
      ∙ simp append_assoc

  -- What is needed of a message for `encode` to send it, `s` being its serialization.
  pub record Sendable (p : Package env.Message) (m : env.Message) (s : Bytes) : Type 0 where
    pub holds : p.msg_ptr ≡ some m
    pub named : 1 ≤ length p.type_name
    pub not_relayed : is_relayed env p.type_name ≡ false
    pub serialized : env.serialize_partial m (env.byte_size_long m) ≡ some s
    pub type_name_positive : 1 ≤ length (env.type_name_of m)
    pub type_name_limit : length (env.type_name_of m) ≤ 1024
    pub header_fits : Fits p.header
    pub not_zipped : iszip p.header ≡ 0

  module _ (limit : ℤ) (p : Package env.Message) (m : env.Message) (s : Bytes)
      (ready : Sendable p m s) where
    -- The header before its sizes are set, and the content, both after compression.
    abbrev pub zipped : PacHeader × Bytes
    zipped = compress_content env limit p.header s

    abbrev pub sent_header : PacHeader
    sent_header = sized_header env zipped.0 m zipped.1

    abbrev sent : Buffer → Exec (Bool × Package env.Message × Buffer)
    sent b = ok (
      true,
      record p { header = sent_header; type_name = env.type_name_of m },
      appended sent_header (env.type_name_of m) zipped.1 b,
    )

    encode_serialized-sends : (b : Buffer) → encode_serialized env limit p m (some s) b ≡ sent b
    unfolding encode_serialized appended sized_header
    encode_serialized-sends b =
        rw
          (append_name_lem (env.type_name_of m) (buffer_append_header env sent_header b)
            (omega (arith, ready.type_name_limit)))
          refl

    -- `encode` succeeds on it, with or without compression: it appends one frame to the buffer, and
    -- stores the header and the type name that it sent in the package.
    pub encode-sends : (b : Buffer) → encode env limit p b ≡ sent b
    unfolding encode encode_held
    encode-sends b =
        let some_name : (length p.type_name == 0) ≡ false = ground (arith, ready.named) in
        rw (some_name, ready.not_relayed)
          (ap (λ o. encode_held env limit p o b) ready.holds
            ∙ ap (λ o. encode_serialized env limit p m o b) ready.serialized
            ∙ encode_serialized-sends b)
