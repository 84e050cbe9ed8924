-- ===== src/Exchange/Sends.antt =====
-- asio/internal/ProtoHelp.cpp: a message that is sent, and what the other side makes of it.
use asio.Prelude.{ap, ◌∙◌, ◌+◌, ◌≤◌, ◌<◌, ◌^◌, ◌≡◌, Bytes, arith, some, length}
use asio.Prelude.Int.{ℤ}
use asio.Package.{PacHeader, Package, iszip}
use asio.Platform.{Platform, IsLawful}
use asio.ProtoHelp.{is_relayed, max_package_len, compress_content}
use asio.ProtoHelp.Header.{Fits}
use asio.ProtoHelp.Frame.{frame}
use asio.ProtoHelp.Encode.{Sendable, zipped, sent_header}
use asio.ProtoHelp.RoundTrip.{Known, received}
use asio.Session.Stream.{Frame}
use asio.Session.Sent.{wire-Frame}
use asio.AsioClient.Order.{Encodes, Sendable-Encodes}

module _ (env : Platform) (limit : ℤ) where
  -- A package that is sent as some bytes, which the other side reads as another package.
  pub record Sends (p q : Package env.Message) : Type 0 where
    pub wire : Bytes
    pub encodes : Encodes env limit p wire
    pub carries : Frame env (wire, q)

  -- A message that the other side knows and that is not too long to be sent.
  pub record Travels (m : env.Message) : Type 0 where
    pub fresh : env.Message
    pub written : Bytes
    pub known : Known env m fresh
    pub serialized : env.serialize_partial m (env.byte_size_long m) ≡ some written
    pub type_name_positive : 1 ≤ length (env.type_name_of m)
    pub type_name_limit : length (env.type_name_of m) ≤ 1024
    pub raw : length written < 2 ^ 31
    pub small :
        (h : PacHeader)
        → 20 + length (env.type_name_of m) + length (compress_content env limit h written).1
          ≤ max_package_len

  module _ (law : IsLawful env) (p : Package env.Message) (m : env.Message) (t : Travels m) where
    pub Travels-Sends :
        p.msg_ptr ≡ some m
        → p.type_name ≡ env.type_name_of m
        → Fits p.header
        → iszip p.header ≡ 0
        → Sends p (received env p m t.written)
    Travels-Sends holds named fits plain = record {
      wire =
          frame env (sent_header env limit p m t.written ready) (env.type_name_of m)
            (zipped env limit p m t.written ready).1;
      encodes = Sendable-Encodes env limit p m t.written ready;
      carries =
          wire-Frame env law limit p m t.fresh t.written ready t.known t.raw (t.small p.header);
    }
      where
        ready : Sendable env p m t.written
        ready = record {
          holds = holds;
          named = omega (arith, t.type_name_positive, ap length named);
          not_relayed = ap (is_relayed env) named ∙ t.known.not_relayed;
          serialized = t.serialized;
          type_name_positive = t.type_name_positive;
          type_name_limit = t.type_name_limit;
          header_fits = fits;
          not_zipped = plain;
        }
