-- ===== src/Buffer.antt =====
-- asio/internal/Buffer.h and Buffer.cpp: a byte queue over one growing `std::vector<char>`.
-- The release build (`-DNDEBUG`) is modelled: the `assert`s do nothing, and each precondition that
-- they check is a hypothesis of the lemmas. A `size_t` is a number; sizes stay below 2 ^ 64.
pub mod View
pub mod Refines
mod Tests
use asio.Prelude.{
  ℕ, suc, ◌+◌, ◌-◌, ◌≤◌, ◌<◌, ◌≡◌, Bool, true, false, List, [], ◌∷◌, ◌++◌, Option, none, some, ltb,
  leb, if◌then◌else◌, length, take, drop, replicate, Bytes, Exec, ok, overrun, ◌>>=◌, ◌%◌, ◌^◌,
  ◌&&◌,
}
use asio.Prelude.Words.{bytes_of_short, bytes_of_int, number_of_bytes}

pub record Buffer : Type 0 where
  pub bytes : Bytes
  pub reader_index : ℕ
  pub writer_index : ℕ

abbrev pub cheap_prepend : ℕ
cheap_prepend = 0

abbrev pub initial_size : ℕ
initial_size = 4096

-- `Buffer(initialSize)`.
unfoldable pub make : ℕ → Buffer
make n = record {
  bytes = replicate (cheap_prepend + n) 0;
  reader_index = cheap_prepend;
  writer_index = cheap_prepend;
}

-- `swap`, as the two buffers after it.
unfoldable pub swap : Buffer → Buffer → Buffer × Buffer
swap a b = (b, a)

abbrev pub readable_bytes : Buffer → ℕ
readable_bytes b = b.writer_index - b.reader_index

abbrev pub writable_bytes : Buffer → ℕ
writable_bytes b = length b.bytes - b.writer_index

abbrev pub prependable_bytes : Buffer → ℕ
prependable_bytes b = b.reader_index

-- The memory that `peek()` points to, up to the end of the vector.
abbrev pub peek : Buffer → Bytes
peek b = drop b.reader_index b.bytes

-- What the buffer holds: the bytes between the two indices.
abbrev pub content : Buffer → Bytes
content b = take (readable_bytes b) (peek b)

-- `memcpy` or `std::string(p, n)` of `n` bytes from the memory `p`.
unfoldable pub copy_from : ℕ → Bytes → Exec Bytes
copy_from n p = if leb n (length p) then ok (take n p) else overrun

unfoldable pub retrieve_all : Buffer → Buffer
retrieve_all b = record b { reader_index = cheap_prepend; writer_index = cheap_prepend }

unfoldable pub retrieve : ℕ → Buffer → Buffer
unfolding retrieve_all
retrieve len b =
    if ltb len (readable_bytes b)
    then record b { reader_index = b.reader_index + len }
    else retrieve_all b

-- `retrieveUntil(end)`, with `end` as an index into the vector; the difference is a `size_t`.
unfoldable pub retrieve_until : ℕ → Buffer → Buffer
unfolding retrieve
retrieve_until end b = retrieve ((end + 2 ^ 64 - b.reader_index) % 2 ^ 64) b

unfoldable pub retrieve_as_string : ℕ → Buffer → Exec (Bytes × Buffer)
unfolding copy_from
retrieve_as_string len b = do result ← copy_from len (peek b); ok (result, retrieve len b)

unfoldable pub retrieve_all_as_string : Buffer → Exec (Bytes × Buffer)
retrieve_all_as_string b = retrieve_as_string (readable_bytes b) b

-- `buffer_.resize(n)`: cut, or filled up with zero bytes.
unfoldable pub resize : ℕ → Bytes → Bytes
resize n v = take n v ++ replicate (n - length v) 0

-- `std::copy` of `d` over the bytes of the vector from index `i` on.
unfoldable pub overwrite : ℕ → Bytes → Bytes → Bytes
overwrite i d v = take i v ++ (d ++ drop (i + length d) v)

unfoldable pub make_space : ℕ → Buffer → Buffer
unfolding resize overwrite
make_space len b =
    if ltb (writable_bytes b + prependable_bytes b) (len + cheap_prepend)
    then record b { bytes = resize (b.writer_index + len) b.bytes }
    else record {
      bytes = overwrite cheap_prepend (content b) b.bytes;
      reader_index = cheap_prepend;
      writer_index = cheap_prepend + readable_bytes b;
    }

unfoldable pub ensure_writable_bytes : ℕ → Buffer → Buffer
unfolding make_space
ensure_writable_bytes len b = if ltb (writable_bytes b) len then make_space len b else b

unfoldable pub has_written : ℕ → Buffer → Buffer
has_written len b = record b { writer_index = b.writer_index + len }

-- The three overloads of `append`, for a string or a block of memory.
unfoldable pub append : Bytes → Buffer → Buffer
unfolding ensure_writable_bytes has_written overwrite
append d b =
    let b' = ensure_writable_bytes (length d) b in
    has_written (length d) (record b' { bytes = overwrite b'.writer_index d b'.bytes })

unfoldable pub append_int32 : ℕ → Buffer → Buffer
append_int32 x b = append (bytes_of_int x) b

unfoldable pub append_int16 : ℕ → Buffer → Buffer
append_int16 x b = append (bytes_of_short x) b

unfoldable pub append_int8 : ℕ → Buffer → Buffer
append_int8 x b = append (x ∷ []) b

-- `peekInt32`, `peekInt16` and `peekInt8` of a little-endian host.
unfoldable pub peek_int32 : Buffer → Exec ℕ
unfolding copy_from
peek_int32 b = do be32 ← copy_from 4 (peek b); ok (number_of_bytes be32)

unfoldable pub peek_int16 : Buffer → Exec ℕ
unfolding copy_from
peek_int16 b = do be16 ← copy_from 2 (peek b); ok (number_of_bytes be16)

unfoldable pub peek_int8 : Buffer → Exec ℕ
unfolding copy_from
peek_int8 b = do x ← copy_from 1 (peek b); ok (number_of_bytes x)

unfoldable pub read_int32 : Buffer → Exec (ℕ × Buffer)
unfolding peek_int32
read_int32 b = do result ← peek_int32 b; ok (result, retrieve 4 b)

unfoldable pub read_int16 : Buffer → Exec (ℕ × Buffer)
unfolding peek_int16
read_int16 b = do result ← peek_int16 b; ok (result, retrieve 2 b)

unfoldable pub read_int8 : Buffer → Exec (ℕ × Buffer)
unfolding peek_int8
read_int8 b = do result ← peek_int8 b; ok (result, retrieve 1 b)

-- `read(data, len)`: whether `data` is not null; the bytes copied are `none` where it fails.
unfoldable pub read : Bool → ℕ → Buffer → Exec (Option Bytes × Buffer)
read has_data len b =
    if has_data && leb len (readable_bytes b)
    then (do copied ← copy_from len (peek b); ok (some copied, retrieve len b))
    else ok (none, b)

-- `prepend(data, len)`; with too little room before the reader it writes outside of the vector.
unfoldable pub prepend : Bytes → Buffer → Exec Buffer
prepend d b =
    if leb (length d) (prependable_bytes b)
    then ok (record b {
      bytes = overwrite (b.reader_index - length d) d b.bytes;
      reader_index = b.reader_index - length d;
    })
    else overrun

unfoldable pub prepend_int32 : ℕ → Buffer → Exec Buffer
prepend_int32 x b = prepend (bytes_of_int x) b

unfoldable pub prepend_int16 : ℕ → Buffer → Exec Buffer
prepend_int16 x b = prepend (bytes_of_short x) b

unfoldable pub prepend_int8 : ℕ → Buffer → Exec Buffer
prepend_int8 x b = prepend (x ∷ []) b
