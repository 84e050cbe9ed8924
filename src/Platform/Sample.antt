-- ===== src/Platform/Sample.antt =====
-- A concrete platform for the tests: one message type "T", whose messages are byte strings that are
-- written as they are, a compressor that copies, and byte orders that swap bytes.
use asio.Prelude.{
  ℕ, ◌+◌, ◌*◌, ◌/◌, ◌%◌, ◌<◌, ◌^◌, ◌≡◌, false, Option, none, some, [], ◌∷◌, Bytes, bytes_beq,
  length, ltb, if◌then◌else◌, arith,
}
use asio.Platform.{Platform, IsLawful}

abbrev pub swap_short : ℕ → ℕ
swap_short w = w % 256 * 256 + w / 256 % 256

abbrev pub swap_long : ℕ → ℕ
swap_long w =
    w % 256 * 16777216 + w / 256 % 256 * 65536 + w / 65536 % 256 * 256 + w / 16777216 % 256

abbrev pub sample_name : Bytes
sample_name = b'T' ∷ []

abbrev write_sample : Bytes → ℕ → Option Bytes
write_sample m n = if ltb n (length m) then none else some m

abbrev pub sample : Platform
sample = record {
  msgbus = false;
  Message = Bytes;
  Descriptor = Unit {0};
  type_name_of = λ m. sample_name;
  byte_size_long = λ m. length m;
  serialize_partial = write_sample;
  find_message_type = λ name. if bytes_beq name sample_name then some tt else none;
  get_prototype = λ d. some [];
  new_message = λ m. [];
  parse_from_array = λ fresh content. some content;
  parse_past = λ fresh memory n. none;
  compress_bound = λ n. n + 13;
  compress = λ n content. some content;
  uncompress = λ n content. some content;
  network_to_host_long = swap_long;
  host_to_network_long = swap_long;
  network_to_host_short = swap_short;
  host_to_network_short = swap_short;
}

swap_short_back : (x : ℕ) → x < 2 ^ 16 → swap_short (swap_short x) ≡ x
swap_short_back x h = omega arith

swap_long_back : (x : ℕ) → x < 2 ^ 32 → swap_long (swap_long x) ≡ x
swap_long_back x h = omega arith

write_sample_back : (m bytes : Bytes) → write_sample m (length m) ≡ some bytes → m ≡ bytes
write_sample_back m bytes e = ground arith

pub sample-IsLawful : IsLawful sample
sample-IsLawful = record {
  long_back = swap_long_back;
  long_fits = λ x h. omega arith;
  short_back = swap_short_back;
  short_fits = λ x h. omega arith;
  serialized_size = λ m bytes e. ground (arith, write_sample_back m bytes e);
  parse_back = λ m fresh bytes same e. ground (arith, write_sample_back m bytes e);
  uncompress_back = λ n bytes zipped e. ground arith;
}
