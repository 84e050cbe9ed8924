-- ===== src/Platform.antt =====
-- What the program takes from third-party libraries: protobuf (`google::protobuf::Message` and its
-- registry), zlib, and the byte order functions of boost::asio. They are parameters of the model.
pub mod Sample
use asio.Prelude.{ℕ, ◌+◌, ◌≤◌, ◌<◌, ◌^◌, ◌≡◌, Bool, Option, some, Bytes, length}

pub record Platform : Type 1 where
  -- Whether the build defines MSGBUS.
  pub msgbus : Bool
  pub Message : Type 0
  pub Descriptor : Type 0
  -- `GetTypeName`, `ByteSizeLong`, and `SerializePartialToArray` into an array of the given size.
  pub type_name_of : Message → Bytes
  pub byte_size_long : Message → ℕ
  pub serialize_partial : Message → ℕ → Option Bytes
  -- `FindMessageTypeByName`, `GetPrototype`, `New` and `ParseFromArray`.
  pub find_message_type : Bytes → Option Descriptor
  pub get_prototype : Descriptor → Option Message
  pub new_message : Message → Message
  pub parse_from_array : Message → Bytes → Option Message
  -- `ParseFromArray` on a memory that is shorter than the size that it is given: `none` where it reads
  -- outside of it, which it need not.
  pub parse_past : Message → Bytes → ℕ → Option (Option Message)
  -- zlib: `compress` into, and `uncompress` into, a block of the given size, where they answer Z_OK.
  pub compress_bound : ℕ → ℕ
  pub compress : ℕ → Bytes → Option Bytes
  pub uncompress : ℕ → Bytes → Option Bytes
  -- `network_to_host_long` and so on, on bit patterns.
  pub network_to_host_long : ℕ → ℕ
  pub host_to_network_long : ℕ → ℕ
  pub network_to_host_short : ℕ → ℕ
  pub host_to_network_short : ℕ → ℕ

-- The documented behaviour that the theorems rely on.
pub record IsLawful (env : Platform) : Type 0 where
  -- The byte order functions undo one another and stay within the width.
  pub long_back : (x : ℕ) → x < 2 ^ 32 → env.network_to_host_long (env.host_to_network_long x) ≡ x
  pub long_fits : (x : ℕ) → x < 2 ^ 32 → env.host_to_network_long x < 2 ^ 32
  pub short_back :
      (x : ℕ) → x < 2 ^ 16 → env.network_to_host_short (env.host_to_network_short x) ≡ x
  pub short_fits : (x : ℕ) → x < 2 ^ 16 → env.host_to_network_short x < 2 ^ 16
  -- A message is written in `ByteSizeLong` bytes.
  pub serialized_size :
      (m : env.Message) (bytes : Bytes)
      → env.serialize_partial m (env.byte_size_long m) ≡ some bytes
      → length bytes ≡ env.byte_size_long m
  -- A message object of the same type parses what a message was written to as that message.
  pub parse_back :
      (m fresh : env.Message) (bytes : Bytes)
      → env.type_name_of fresh ≡ env.type_name_of m
      → env.serialize_partial m (env.byte_size_long m) ≡ some bytes
      → env.parse_from_array fresh bytes ≡ some m
  -- `uncompress` restores what `compress` was given, in a block of its size.
  pub uncompress_back :
      (bound : ℕ) (bytes zipped : Bytes)
      → env.compress bound bytes ≡ some zipped
      → env.uncompress (length bytes) zipped ≡ some bytes
