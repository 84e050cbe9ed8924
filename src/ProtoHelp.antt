-- ===== src/ProtoHelp.antt =====
-- asio/internal/ProtoHelp.cpp: packages to bytes and back, over the platform's libraries.
pub mod Flag
pub mod Header
pub mod Frame
pub mod Body
pub mod Encode
pub mod RoundTrip
pub mod Attempts
pub mod Total
pub mod Faults
pub mod Relay
pub mod Samples
mod Tests
use asio.Prelude.{
  ℕ, zero, suc, ◌+◌, ◌-◌, ◌*◌, ◌%◌, ◌^◌, Bool, true, false, not, ◌&&◌, ◌||◌, [], ◌∷◌, ◌++◌, Option,
  none, some, ltb, leb, ◌==◌, if◌then◌else◌, length, take, drop, replicate, Bytes, bytes_beq, Exec,
  ok, overrun, thrown, out_of_fuel, ◌>>=◌,
}
use asio.Prelude.Int.{ℤ, pos, leb_ℤ, ltb_ℤ}
use asio.Prelude.Words.{
  signed32, size_of_int, size_of_short, bytes_of_short, bytes_of_int, number_of_bytes,
}
use asio.Package.{
  PacHeader, Package, flag0, flag1, package_header_size, iszip, set_iszip, new_package,
}
use asio.Platform.{Platform}
use asio.Strutil.{has_prefix_string}
use asio.Buffer.{
  Buffer, readable_bytes, peek, copy_from, retrieve, retrieve_as_string, append, read,
}

-- 100 MB.
abbrev pub max_package_len : ℕ
max_package_len = 1024 * 1024 * 100

-- `gotoFlag`: its loop, one round for each unit of fuel, and the loop with a round for each byte.
unfoldable pub goto_flag_loop : ℕ → Buffer → Exec (Bool × Buffer)
goto_flag_loop zero b = out_of_fuel
goto_flag_loop (suc fuel) b =
    let rest = goto_flag_loop fuel (retrieve 1 b) in
    if ltb package_header_size (readable_bytes b)
    then (do
      p ← copy_from 2 (peek b)
      if bytes_beq p (flag0 ∷ flag1 ∷ []) then ok (true, b) else rest)
    else ok (false, b)

unfoldable pub goto_flag : Buffer → Exec (Bool × Buffer)
goto_flag b = goto_flag_loop (suc (readable_bytes b)) b

-- The memory image of a header on a little-endian host, and the header of a memory image.
unfoldable pub bytes_of_header : PacHeader → Bytes
bytes_of_header h =
    h.first_flag ∷ h.second_flag ∷ bytes_of_short h.msg_type
    ++ (bytes_of_short h.type_name_len
        ++ (bytes_of_short h.ext_info
            ++ (bytes_of_int h.msg_id ++ (bytes_of_int h.msg_size ++ bytes_of_int h.pac_size))))

unfoldable pub header_of_bytes : Bytes → PacHeader
header_of_bytes m = record {
  first_flag = number_of_bytes (take 1 m);
  second_flag = number_of_bytes (take 1 (drop 1 m));
  msg_type = number_of_bytes (take 2 (drop 2 m));
  type_name_len = number_of_bytes (take 2 (drop 4 m));
  ext_info = number_of_bytes (take 2 (drop 6 m));
  msg_id = number_of_bytes (take 4 (drop 8 m));
  msg_size = number_of_bytes (take 4 (drop 12 m));
  pac_size = number_of_bytes (take 4 (drop 16 m));
}

-- The prefix that the bus keeps for its own messages.
abbrev pub proto_base : Bytes
proto_base = b'P' ∷ b'r' ∷ b'o' ∷ b't' ∷ b'o' ∷ b'B' ∷ b'a' ∷ b's' ∷ b'e' ∷ []

-- `append(&name[0], len)` with `len` a `short`; a string ends in a zero byte.
unfoldable pub append_name : Bytes → ℕ → Buffer → Exec Buffer
append_name name len b = do d ← copy_from (size_of_short len) (name ++ (0 ∷ [])); ok (append d b)

-- `int remainSize = header.pacSize - kPackageHeaderSize - header.typeNameLen`.
abbrev pub remain_size : PacHeader → ℕ
remain_size h = (h.pac_size + 2 ^ 32 - package_header_size - h.type_name_len) % 2 ^ 32

module _ (env : Platform) where
  open env use {
    msgbus, Message, type_name_of, byte_size_long, serialize_partial, find_message_type,
    get_prototype, new_message, parse_from_array, parse_past, compress_bound, compress, uncompress,
    network_to_host_long, host_to_network_long, network_to_host_short, host_to_network_short,
  }

  -- The fields of a header in network order, and back.
  unfoldable pub to_network : PacHeader → PacHeader
  to_network h = record h {
    msg_type = host_to_network_short h.msg_type;
    type_name_len = host_to_network_short h.type_name_len;
    ext_info = host_to_network_short h.ext_info;
    msg_id = host_to_network_long h.msg_id;
    msg_size = host_to_network_long h.msg_size;
    pac_size = host_to_network_long h.pac_size;
  }

  unfoldable pub of_network : PacHeader → PacHeader
  of_network h = record h {
    msg_type = network_to_host_short h.msg_type;
    type_name_len = network_to_host_short h.type_name_len;
    ext_info = network_to_host_short h.ext_info;
    msg_id = network_to_host_long h.msg_id;
    msg_size = network_to_host_long h.msg_size;
    pac_size = network_to_host_long h.pac_size;
  }

  unfoldable pub buffer_append_header : PacHeader → Buffer → Buffer
  buffer_append_header h b = append (bytes_of_header (to_network h)) b

  unfoldable pub buffer_peek_header : Buffer → Exec PacHeader
  buffer_peek_header b = do
    m ← copy_from package_header_size (peek b)
    ok (of_network (header_of_bytes m))

  -- `createMessage`: `none` is the null pointer.
  unfoldable pub create_message : Bytes → Option Message
  create_message type_name = elim (find_message_type type_name) [
    | none ↦ none
    | some desc ↦ elim (get_prototype desc) [
      | none ↦ none
      | some prototype ↦ some (new_message prototype)
    ]
  ]

  -- Whether the build relays packages of this type as they are.
  unfoldable pub is_relayed : Bytes → Bool
  is_relayed name = msgbus && not (has_prefix_string name proto_base)

  -- The compression step of `encode`, as the header and the content after it.
  unfoldable pub compress_content : ℤ → PacHeader → Bytes → PacHeader × Bytes
  compress_content limit h content =
      if leb_ℤ (pos 0) limit && ltb_ℤ limit (signed32 (length content % 2 ^ 32))
      then elim (compress (compress_bound (length content)) content) [
        | none ↦ (h, content)
        | some zipped ↦ (set_iszip 1 h, zipped)
      ]
      else (h, content)

  -- The header fields that `encode` sets.
  unfoldable pub sized_header : PacHeader → Message → Bytes → PacHeader
  sized_header h m content = record h {
    type_name_len = length (type_name_of m) % 2 ^ 16;
    msg_size = byte_size_long m % 2 ^ 32;
    pac_size = (package_header_size + length (type_name_of m) + length content) % 2 ^ 32;
  }

  -- `encode` with the answer of `SerializePartialToArray`.
  unfoldable pub encode_serialized :
      ℤ → Package Message → Message → Option Bytes → Buffer → Exec (Bool × Package Message × Buffer)
  encode_serialized limit p m none b = ok (false, p, b)
  encode_serialized limit p m (some serialized) b =
      let (h, content) = compress_content limit p.header serialized in
      let h' = sized_header h m content in
      (do
        b' ← append_name (type_name_of m) h'.type_name_len (buffer_append_header h' b)
        ok (true, record p { header = h'; type_name = type_name_of m }, append content b'))

  -- `encode` with what `msgPtr` holds; a null pointer is read through.
  unfoldable pub encode_held :
      ℤ → Package Message → Option Message → Buffer → Exec (Bool × Package Message × Buffer)
  encode_held limit p none b = overrun
  encode_held limit p (some m) b =
      encode_serialized limit p m (serialize_partial m (byte_size_long m)) b

  unfoldable pub encode_relayed : Package Message → Buffer → Exec (Bool × Package Message × Buffer)
  encode_relayed p b = do
    b' ← append_name p.type_name p.header.type_name_len (buffer_append_header p.header b)
    ok (true, p, append p.body b')

  -- `encode`, with the value of `s_enableCompressSize`; the package is changed in place.
  unfoldable pub encode : ℤ → Package Message → Buffer → Exec (Bool × Package Message × Buffer)
  encode limit p b =
      if length p.type_name == 0
      then ok (false, p, b)
      else if is_relayed p.type_name
      then encode_relayed p b
      else encode_held limit p p.msg_ptr b

  -- How one run of `decode` up to its next call of itself ends.
  pub data Attempt : Type 0 where
    returns : Option (Package Message) → Buffer → Attempt
    decode_again : Buffer → Attempt

  unfoldable pub decode_relayed : PacHeader → Bytes → Buffer → Exec Attempt
  decode_relayed h name b = if leb (2 ^ 31) (remain_size h) then thrown else (do
    (got, b') ← read (not (remain_size h == 0)) (remain_size h) b
    let body : Bytes = elim got [ none ↦ replicate (remain_size h) 0 | some d ↦ d ]
    ok (
        returns (some (record (new_package Message) { header = h; type_name = name; body = body }))
          b'))

  -- The end of `decode`, once the message is parsed or not.
  unfoldable pub finish_decode : PacHeader → Bytes → ℕ → Option Message → Buffer → Attempt
  finish_decode h name remain parsed b = elim parsed [
    | none ↦ returns none b
    | some m ↦
        returns
          (some (record (new_package Message) { header = h; type_name = name; msg_ptr = some m }))
          (retrieve (size_of_int remain) b)
  ]

  -- A string of `msgSize` bytes is made first, which a negative size makes throw.
  unfoldable pub decode_zipped : PacHeader → Bytes → Message → Buffer → Exec Attempt
  decode_zipped h name fresh b = if leb (2 ^ 31) h.msg_size then thrown else (do
    zipped ← copy_from (size_of_int (remain_size h)) (peek b)
    elim (uncompress h.msg_size zipped) [
      | none ↦ ok (finish_decode h name (remain_size h) none b)
      | some content ↦ ok (
          finish_decode
            (record (set_iszip 0 h) {
              pac_size = (package_header_size + h.type_name_len + h.msg_size) % 2 ^ 32;
            })
            name (remain_size h) (parse_from_array fresh content) b)
    ])

  abbrev pub past : Option (Option Message) → Exec (Option Message)
  past none = overrun
  past (some parsed) = ok parsed

  -- `ParseFromArray` on `n` bytes of the memory, with what they are where the memory has as many.
  abbrev pub parse_read : Message → Bytes → ℕ → Exec Bytes → Exec (Option Message)
  parse_read fresh memory n (ok content) = ok (parse_from_array fresh content)
  parse_read fresh memory n beyond = past (parse_past fresh memory n)

  unfoldable pub decode_plain : PacHeader → Bytes → Message → Buffer → Exec Attempt
  decode_plain h name fresh b = do
    let n = size_of_int h.msg_size
    parsed ← parse_read fresh (peek b) n (copy_from n (peek b))
    ok (finish_decode h name (remain_size h) parsed b)

  -- `decode` with the answer of `createMessage`.
  unfoldable pub decode_created : PacHeader → Bytes → Option Message → Buffer → Exec Attempt
  decode_created h name none b = ok (decode_again b)
  decode_created h name (some fresh) b =
      if iszip h == 1 then decode_zipped h name fresh b else decode_plain h name fresh b

  -- `decode` behind the type name.
  unfoldable pub decode_body : PacHeader → Bytes → Buffer → Exec Attempt
  unfolding decode_created
  decode_body h name b =
      if is_relayed name
      then decode_relayed h name b
      else decode_created h name (create_message name) b

  -- `decode` behind the header, which has been peeked at and not yet retrieved.
  unfoldable pub decode_header : PacHeader → Buffer → Exec Attempt
  decode_header h b =
      if ltb (readable_bytes b) (size_of_int h.pac_size)
      then ok (returns none b)
      else if leb (2 ^ 31) h.pac_size || ltb max_package_len h.pac_size
      then ok (decode_again (retrieve package_header_size b))
      else if h.type_name_len == 0 || leb (2 ^ 15) h.type_name_len || ltb 1024 h.type_name_len
      then ok (decode_again (retrieve package_header_size b))
      else (do
        (name, b') ← retrieve_as_string h.type_name_len (retrieve package_header_size b)
        decode_body h name b')

  -- `decode` at a flag.
  unfoldable pub decode_found : Buffer → Exec Attempt
  decode_found b = do h ← buffer_peek_header b; decode_header h b

  unfoldable pub decode_once : Buffer → Exec Attempt
  decode_once b = do
    (found, b') ← goto_flag b
    if found then decode_found b' else ok (returns none b')

  -- `decode`, one call of itself for each unit of fuel.
  unfoldable pub decode_loop : ℕ → Buffer → Exec (Option (Package Message) × Buffer)
  decode_loop zero b = out_of_fuel
  decode_loop (suc fuel) b = do
    attempt ← decode_once b
    elim attempt [ returns p b' ↦ ok (p, b') | decode_again b' ↦ decode_loop fuel b' ]

  -- A call of itself comes after a header was retrieved, so a call for each byte is enough.
  unfoldable pub decode : Buffer → Exec (Option (Package Message) × Buffer)
  decode b = decode_loop (suc (readable_bytes b)) b
