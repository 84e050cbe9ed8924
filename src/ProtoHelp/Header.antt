-- ===== src/ProtoHelp/Header.antt =====
-- asio/internal/ProtoHelp.cpp, `bufferAppendHeader` and `bufferPeekHeader`: the header on the wire.
use asio.Prelude.{
  ℕ, ◌<◌, ◌^◌, ◌≡◌, refl, sym, ap, ◌∙◌, [], ◌∷◌, ◌++◌, arith, length, take, Bytes, ok,
  take-append_self, length-append, true, bytes_beq,
}
use asio.Prelude.Words.{number_of_bytes, number_of_bytes-short, number_of_bytes-int}
use asio.Package.{PacHeader, flag0, flag1}
use asio.Platform.{Platform, IsLawful}
use asio.Buffer.{Buffer, content, copy_from, peek}
use asio.Buffer.View.{IsValid, copy_from-peek, length-content}
use asio.ProtoHelp.{bytes_of_header, header_of_bytes, to_network, of_network, buffer_peek_header}
use asio.ProtoHelp.Flag.{at_flag}

-- Every field fits its width, and the flags are those of a package.
pub record Fits (h : PacHeader) : Type 0 where
  pub flag0_right : h.first_flag ≡ flag0
  pub flag1_right : h.second_flag ≡ flag1
  pub msg_type_fits : h.msg_type < 2 ^ 16
  pub type_name_len_fits : h.type_name_len < 2 ^ 16
  pub ext_info_fits : h.ext_info < 2 ^ 16
  pub msg_id_fits : h.msg_id < 2 ^ 32
  pub msg_size_fits : h.msg_size < 2 ^ 32
  pub pac_size_fits : h.pac_size < 2 ^ 32

pub length-bytes_of_header : (h : PacHeader) → length (bytes_of_header h) ≡ 20
unfolding bytes_of_header
length-bytes_of_header h = refl

pub at_flag-bytes_of_header :
    (h : PacHeader) (rest : Bytes) → Fits h → at_flag (bytes_of_header h ++ rest) ≡ true
unfolding bytes_of_header bytes_beq
at_flag-bytes_of_header h rest f = ground arith

-- The memory image of a header reads back.
pub header_of_bytes-bytes_of_header :
    (h : PacHeader) → Fits h → header_of_bytes (bytes_of_header h) ≡ h
unfolding header_of_bytes bytes_of_header
header_of_bytes-bytes_of_header h f = λ i. record {
  first_flag = one h.first_flag i;
  second_flag = one h.second_flag i;
  msg_type = number_of_bytes-short h.msg_type f.msg_type_fits i;
  type_name_len = number_of_bytes-short h.type_name_len f.type_name_len_fits i;
  ext_info = number_of_bytes-short h.ext_info f.ext_info_fits i;
  msg_id = number_of_bytes-int h.msg_id f.msg_id_fits i;
  msg_size = number_of_bytes-int h.msg_size f.msg_size_fits i;
  pac_size = number_of_bytes-int h.pac_size f.pac_size_fits i;
}
  where
    one : (x : ℕ) → number_of_bytes (x ∷ []) ≡ x
    one x = unfold number_of_bytes in omega arith

module _ (env : Platform) (law : IsLawful env) where
  pub to_network-Fits : (h : PacHeader) → Fits h → Fits (to_network env h)
  unfolding to_network
  to_network-Fits h f = record {
    flag0_right = f.flag0_right;
    flag1_right = f.flag1_right;
    msg_type_fits = law.short_fits h.msg_type f.msg_type_fits;
    type_name_len_fits = law.short_fits h.type_name_len f.type_name_len_fits;
    ext_info_fits = law.short_fits h.ext_info f.ext_info_fits;
    msg_id_fits = law.long_fits h.msg_id f.msg_id_fits;
    msg_size_fits = law.long_fits h.msg_size f.msg_size_fits;
    pac_size_fits = law.long_fits h.pac_size f.pac_size_fits;
  }

  of_network-to_network : (h : PacHeader) → Fits h → of_network env (to_network env h) ≡ h
  unfolding to_network of_network
  of_network-to_network h f = λ i. record h {
    msg_type = law.short_back h.msg_type f.msg_type_fits i;
    type_name_len = law.short_back h.type_name_len f.type_name_len_fits i;
    ext_info = law.short_back h.ext_info f.ext_info_fits i;
    msg_id = law.long_back h.msg_id f.msg_id_fits i;
    msg_size = law.long_back h.msg_size f.msg_size_fits i;
    pac_size = law.long_back h.pac_size f.pac_size_fits i;
  }

  -- A header at the front of a buffer is peeked at as it was written.
  pub buffer_peek_header_lem :
      (h : PacHeader) (rest : Bytes) (b : Buffer)
      → Fits h
      → IsValid b
      → content b ≡ bytes_of_header (to_network env h) ++ rest
      → buffer_peek_header env b ≡ ok h
  unfolding buffer_peek_header
  buffer_peek_header_lem h rest b f v e = rw image (ap ok back)
    where
      n : PacHeader
      n = to_network env h

      image : copy_from 20 (peek b) ≡ ok (bytes_of_header n)
      image =
          copy_from-peek 20 b v (
            omega (
              arith,
              length-content b v,
              ap length e,
              length-append (bytes_of_header n) rest,
              length-bytes_of_header n,
            ))
          ∙ ap (λ (t : Bytes). ok (take 20 t)) e
          ∙ ap (λ (k : ℕ). ok (take k (bytes_of_header n ++ rest))) (sym (length-bytes_of_header n))
          ∙ ap ok (take-append_self (bytes_of_header n) rest)

      back : of_network env (header_of_bytes (bytes_of_header n)) ≡ h
      back =
          ap (of_network env) (header_of_bytes-bytes_of_header n (to_network-Fits h f))
          ∙ of_network-to_network h f
