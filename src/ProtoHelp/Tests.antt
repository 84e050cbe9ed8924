-- ===== src/ProtoHelp/Tests.antt =====
-- Concrete runs of `encode` and `decode`, and their theorems at concrete inputs.
use asio.Prelude.{
  ◌≡◌, refl, [], ◌∷◌, ◌++◌, ◌+◌, arith, none, some, ok, length, bytes_beq, true, Bytes,
}
use asio.Package.{PacHeader, Package, default_header, new_package}
use asio.Platform.Sample.{sample, sample-IsLawful, sample_name}
use asio.Buffer.{Buffer, content, make, append, readable_bytes}
use asio.Buffer.View.{IsValid, make-IsValid, content-make, append-IsValid, content-append_fresh}
use asio.ProtoHelp.{decode, encode, bytes_of_header, to_network, create_message, is_relayed}
use asio.ProtoHelp.Samples.{hello, request, limit, request-Sendable, sample-Known, small_enough}
use asio.ProtoHelp.Encode.{zipped, sent_header, appended, encode-sends}
use asio.ProtoHelp.RoundTrip.{received, decode-encode}
use asio.ProtoHelp.Total.{Ends, decode-Ends}
use asio.ProtoHelp.Faults.{decode-waits, decode-reads_on}
use asio.ProtoHelp.Frame.{Describes, frame}
use asio.ProtoHelp.Relay.{encode-decode}
use asio.Strutil.{has_prefix_string}
use asio.Platform.{Platform, IsLawful}

abbrev sent : Buffer
sent =
    appended sample (sent_header sample limit request hello hello request-Sendable) sample_name
      (zipped sample limit request hello hello request-Sendable).1 (make 4)

abbrev arrived : Buffer
arrived = append (1 ∷ 2 ∷ (content sent ++ (9 ∷ []))) (make 4)

decode-encode_example :
    (b' : Buffer) × (decode sample arrived ≡ ok (some (received sample request hello hello), b'))
    × IsValid b'
    × (content b' ≡ 9 ∷ [])
decode-encode_example =
    decode-encode sample sample-IsLawful limit request hello [] hello request-Sendable sample-Known
      (make 4) sent arrived
      (record request {
        header = sent_header sample limit request hello hello request-Sendable;
        type_name = sample_name;
      })
      (1 ∷ 2 ∷ []) (9 ∷ []) (omega arith) small_enough (make-IsValid 4) (content-make 4)
      (encode-sends sample limit request hello hello request-Sendable (make 4)) (omega arith)
      (append-IsValid _ (make 4) (make-IsValid 4)) (content-append_fresh _ 4)

decode-Ends_example : Ends sample (readable_bytes arrived) (decode sample arrived)
decode-Ends_example = decode-Ends sample arrived (append-IsValid _ (make 4) (make-IsValid 4))

-- A header that announces -1 bytes.
abbrev negative_header : PacHeader
negative_header = record default_header { pac_size = 0xffff_ffff }

abbrev stalled : Buffer
stalled = append (bytes_of_header (to_network sample negative_header) ++ (1 ∷ 2 ∷ [])) (make 0)

decode-waits_example :
    (b' : Buffer) × (decode sample stalled ≡ ok (none, b'))
    × IsValid b'
    × (content b' ≡ content stalled)
decode-waits_example =
    decode-waits sample sample-IsLawful negative_header (1 ∷ 2 ∷ []) stalled (omega arith)
      (append-IsValid _ (make 0) (make-IsValid 0)) (content-append_fresh _ 0) (omega arith)
      (omega arith)

-- A package of two bytes that announces a message of three, with the start of another behind it.
abbrev greedy_header : PacHeader
greedy_header = record default_header {
  type_name_len = length sample_name;
  msg_size = 3;
  pac_size = 22 + length sample_name;
}

greedy-Describes : Describes greedy_header sample_name (1 ∷ 2 ∷ [])
greedy-Describes = omega arith

abbrev greedy : Buffer
greedy = append (frame sample greedy_header sample_name (1 ∷ 2 ∷ []) ++ (97 ∷ 65 ∷ [])) (make 8)

decode-reads_on_example :
    (b' : Buffer) × (decode sample greedy
      ≡ ok (
        some (record (new_package Bytes) {
          header = greedy_header;
          type_name = sample_name;
          msg_ptr = some (1 ∷ 2 ∷ 97 ∷ []);
        }),
        b',
      ))
    × IsValid b'
    × (content b' ≡ 97 ∷ 65 ∷ [])
unfolding create_message is_relayed bytes_beq
decode-reads_on_example =
    decode-reads_on sample sample-IsLawful greedy_header sample_name (1 ∷ 2 ∷ []) [] (97 ∷ 65 ∷ [])
      [] (1 ∷ 2 ∷ 97 ∷ []) greedy greedy-Describes tt (append-IsValid _ (make 8) (make-IsValid 8))
      (content-append_fresh _ 8) refl refl refl (omega arith) refl

-- The sample platform of a build with MSGBUS.
abbrev bus : Platform
bus = record sample { msgbus = true }

bus-IsLawful : IsLawful bus
bus-IsLawful = record {
  long_back = sample-IsLawful.long_back;
  long_fits = sample-IsLawful.long_fits;
  short_back = sample-IsLawful.short_back;
  short_fits = sample-IsLawful.short_fits;
  serialized_size = sample-IsLawful.serialized_size;
  parse_back = sample-IsLawful.parse_back;
  uncompress_back = sample-IsLawful.uncompress_back;
}

abbrev relayed_wire : Buffer
relayed_wire = append (7 ∷ (frame bus greedy_header sample_name (1 ∷ 2 ∷ []) ++ (9 ∷ []))) (make 8)

encode-decode_example :
    (p : Package Bytes) × (b' : Buffer) × (out' : Buffer) × (decode bus relayed_wire
      ≡ ok (some p, b'))
    × (encode bus limit p (make 4) ≡ ok (true, p, out'))
    × (content b' ≡ 9 ∷ [])
    × (content out' ≡ content (make 4) ++ frame bus greedy_header sample_name (1 ∷ 2 ∷ []))
    × IsValid b'
    × IsValid out'
unfolding is_relayed has_prefix_string
encode-decode_example =
    encode-decode bus bus-IsLawful greedy_header sample_name (1 ∷ 2 ∷ []) greedy-Describes refl
      limit (7 ∷ []) (9 ∷ []) relayed_wire (make 4) (omega arith)
      (append-IsValid _ (make 8) (make-IsValid 8)) (content-append_fresh _ 8) (make-IsValid 4)
