-- ===== src/ProtoHelp/Samples.antt =====
-- A message of the sample platform, ready to be sent.
use asio.Prelude.{◌+◌, ◌≤◌, refl, [], ◌∷◌, arith, Bytes, bytes_beq, some, length}
use asio.Prelude.Int.{ℤ, pos}
use asio.Package.{Package, default_header, reqrep, new_package}
use asio.Platform.Sample.{sample, sample_name}
use asio.ProtoHelp.{compress_content, max_package_len, create_message, is_relayed}
use asio.ProtoHelp.Encode.{Sendable, zipped}
use asio.ProtoHelp.RoundTrip.{Known}

abbrev pub hello : Bytes
hello = b'h' ∷ b'i' ∷ []

abbrev pub request : Package Bytes
request = record (new_package Bytes) {
  header = record default_header { msg_type = reqrep; msg_id = 7 };
  type_name = sample_name;
  msg_ptr = some hello;
}

pub request-Sendable : Sendable sample request hello hello
unfolding is_relayed
request-Sendable = record {
  holds = refl;
  named = omega arith;
  not_relayed = refl;
  serialized = refl;
  type_name_positive = omega arith;
  type_name_limit = omega arith;
  header_fits = omega arith;
  not_zipped = omega arith;
}

pub sample-Known : Known sample hello []
unfolding create_message is_relayed bytes_beq
sample-Known = record { created = refl; same_type = refl; not_relayed = refl }

-- With the limit 0 the message is compressed, and two noisy bytes come before it.
abbrev pub limit : ℤ
limit = pos 0

pub small_enough :
    20 + length sample_name + length (zipped sample limit request hello hello request-Sendable).1
    ≤ max_package_len
unfolding compress_content
small_enough = omega arith
