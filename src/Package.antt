-- ===== src/Package.antt =====
-- asio/internal/Package.h: the header of a package, the package, and the error codes.
-- The integers of the header are bit patterns: 16 bits for a `short`, 32 bits for an `int`.
use asio.Prelude.{ℕ, ◌+◌, ◌-◌, ◌*◌, ◌/◌, ◌%◌, Option, none, [], Bytes}

-- `PacHeader::flag0` and `flag1` are '`' and '~' (asio/internal/ProtoHelp.cpp).
abbrev pub flag0 : ℕ
flag0 = b'`'

abbrev pub flag1 : ℕ
flag1 = b'~'

-- `PacHeader`. `ext_info` is the union with the bit fields `iszip` (bit 0) and `isorder` (bit 1).
pub record PacHeader : Type 0 where
  pub first_flag : ℕ
  pub second_flag : ℕ
  pub msg_type : ℕ
  pub type_name_len : ℕ
  pub ext_info : ℕ
  pub msg_id : ℕ
  pub msg_size : ℕ
  pub pac_size : ℕ

-- `PacHeader::MsgType`.
abbrev pub reqrep : ℕ
reqrep = 1

abbrev pub pubsub : ℕ
pubsub = 2

abbrev pub deliver : ℕ
deliver = 3

-- A header as its member initialisers leave it.
abbrev pub default_header : PacHeader
default_header = record {
  first_flag = flag0;
  second_flag = flag1;
  msg_type = 0;
  type_name_len = 0;
  ext_info = 0;
  msg_id = 0;
  msg_size = 0;
  pac_size = 0;
}

-- `sizeof(PacHeader)`, packed: 2 + 2 + 2 + 2 + 4 + 4 + 4.
abbrev pub package_header_size : ℕ
package_header_size = 20

abbrev pub iszip : PacHeader → ℕ
iszip h = h.ext_info % 2

abbrev pub isorder : PacHeader → ℕ
isorder h = h.ext_info / 2 % 2

abbrev pub set_iszip : ℕ → PacHeader → PacHeader
set_iszip z h = record h { ext_info = h.ext_info - h.ext_info % 2 + z }

abbrev pub set_isorder : ℕ → PacHeader → PacHeader
set_isorder o h = record h { ext_info = h.ext_info - h.ext_info / 2 % 2 * 2 + 2 * o }

-- `Package`; `body` is used by the builds with MSGBUS only.
pub record Package (M : Type 0) : Type 0 where
  pub header : PacHeader
  pub type_name : Bytes
  pub body : Bytes
  pub msg_ptr : Option M

-- `std::make_shared<Package>()`.
abbrev pub new_package : (M : Type 0) → Package M
new_package M = record { header = default_header; type_name = []; body = []; msg_ptr = none }

-- `ErrorCode`.
pub data ErrorCode : Type 0 where
  success unknown timeout disconnect service_stopped params : ErrorCode
