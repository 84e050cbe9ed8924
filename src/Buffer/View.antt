-- ===== src/Buffer/View.antt =====
-- asio/internal/Buffer.h: what the operations do to the bytes that the buffer holds, and that the
-- indices stay in order within the vector.
use asio.Prelude.{
  ℕ, ◌+◌, ◌-◌, ◌≤◌, ◌≡◌, refl, sym, ap, ◌∙◌, [], ◌++◌, inl, inr, arith, length, take, drop,
  replicate, length-append, length-take, length-drop, length-replicate, take-append_le,
  take-append_ge, drop-append_le, drop_all, drop-drop, drop-take, take-take, take-append_self,
  drop-append_self, Bytes, Bool-cases, ltb, leb, ok, none, some, true, if◌then◌else◌,
}
use asio.Buffer.{
  Buffer, content, peek, readable_bytes, writable_bytes, prependable_bytes, make, retrieve,
  retrieve_as_string, copy_from, resize, overwrite, make_space, ensure_writable_bytes, append, read,
  prepend,
}

pub record IsValid (b : Buffer) : Type 0 where
  pub ordered : b.reader_index ≤ b.writer_index
  pub inside : b.writer_index ≤ length b.bytes

pub make-IsValid : (n : ℕ) → IsValid (make n)
unfolding make
make-IsValid n = omega arith

pub content-make : (n : ℕ) → content (make n) ≡ []
unfolding make
content-make n = refl

pub length-content : (b : Buffer) → IsValid b → length (content b) ≡ readable_bytes b
length-content b v =
    omega (arith, length-take (readable_bytes b) (peek b), length-drop b.reader_index b.bytes)

pub retrieve-IsValid : (n : ℕ) (b : Buffer) → IsValid b → IsValid (retrieve n b)
unfolding retrieve
retrieve-IsValid n b v = ground arith

-- `retrieve` drops from the front, and empties the buffer where `n` is not below its size.
pub content-retrieve :
    (n : ℕ) (b : Buffer) → IsValid b → content (retrieve n b) ≡ drop n (content b)
unfolding retrieve
content-retrieve n b v = elim (Bool-cases (ltb n (readable_bytes b))) [
  | inl e ↦ rw e (
      ap (take _) (sym (drop-drop n b.reader_index b.bytes))
      ∙ ap (λ (k : ℕ). take k (drop n (peek b))) (omega arith)
      ∙ sym (drop-take n (readable_bytes b) (peek b)))
  | inr e ↦ rw e (sym (drop_all n (content b) (ground (arith, length-content b v))))
]

pub length-overwrite :
    (i : ℕ) (d v : Bytes) → i + length d ≤ length v → length (overwrite i d v) ≡ length v
unfolding overwrite
length-overwrite i d v h = omega (
  arith,
  length-append (take i v) (d ++ drop (i + length d) v),
  length-append d (drop (i + length d) v),
  length-take i v,
  length-drop (i + length d) v,
)

-- The bytes before `i`, and then what was written.
take-overwrite :
    (i : ℕ) (d v : Bytes)
    → i + length d ≤ length v
    → take (i + length d) (overwrite i d v) ≡ take i v ++ d
unfolding overwrite
take-overwrite i d v h =
    take-append_ge (i + length d) (take i v) _ (omega (arith, length-take i v))
    ∙ ap (◌++◌ (take i v)) (
        ap (λ (k : ℕ). take k (d ++ drop (i + length d) v)) (omega (arith, length-take i v))
        ∙ take-append_self d _)

-- The content in terms of the written part of the vector.
content-drop : (b : Buffer) → content b ≡ drop b.reader_index (take b.writer_index b.bytes)
content-drop b = sym (drop-take b.reader_index b.writer_index b.bytes)

resize-take : (n k : ℕ) (v : Bytes) → k ≤ length v → k ≤ n → take k (resize n v) ≡ take k v
unfolding resize
resize-take n k v h hn =
    take-append_le k (take n v) _ (omega (arith, length-take n v)) ∙ take-take k n v hn

length-resize : (n : ℕ) (v : Bytes) → length (resize n v) ≡ n
unfolding resize
length-resize n v = omega (
  arith,
  length-append (take n v) (replicate (n - length v) 0),
  length-take n v,
  length-replicate {A = ℕ} (n - length v) 0,
)

-- Making space keeps the content and the order of the indices, and leaves room for `n` bytes.
make_space-IsValid : (n : ℕ) (b : Buffer) → IsValid b → IsValid (make_space n b)
unfolding make_space
make_space-IsValid n b v = ground (
  arith,
  length-resize (b.writer_index + n) b.bytes,
  length-content b v,
  length-overwrite 0 (content b) b.bytes,
)

content-make_space : (n : ℕ) (b : Buffer) → IsValid b → content (make_space n b) ≡ content b
unfolding make_space
content-make_space n b v =
    elim (Bool-cases (ltb (writable_bytes b + prependable_bytes b) (n + 0))) [
      | inl e ↦ rw e (
          content-drop (record b { bytes = resize (b.writer_index + n) b.bytes })
          ∙ ap (drop b.reader_index)
              (resize-take (b.writer_index + n) b.writer_index b.bytes v.inside (omega arith))
          ∙ sym (content-drop b))
      | inr e ↦ rw e (
          ap (λ (k : ℕ). take k (overwrite 0 (content b) b.bytes))
            (omega (arith, length-content b v))
          ∙ take-overwrite 0 (content b) b.bytes (omega (arith, length-content b v)))
    ]

make_space_room : (n : ℕ) (b : Buffer) → IsValid b → n ≤ writable_bytes (make_space n b)
unfolding make_space
make_space_room n b v = ground (
  arith,
  length-resize (b.writer_index + n) b.bytes,
  length-content b v,
  length-overwrite 0 (content b) b.bytes,
)

-- What `ensureWritableBytes` gives to `append`.
ensure_lem :
    (n : ℕ) (b : Buffer)
    → IsValid b
    → IsValid (ensure_writable_bytes n b)
      × (content (ensure_writable_bytes n b) ≡ content b)
      × (n ≤ writable_bytes (ensure_writable_bytes n b))
unfolding ensure_writable_bytes
ensure_lem n b v = elim (Bool-cases (ltb (writable_bytes b) n)) [
  | inl e ↦ rw e (make_space-IsValid n b v, content-make_space n b v, make_space_room n b v)
  | inr e ↦ rw e (v, refl, ground arith)
]

-- Writing behind the writer, where there is room.
module _ (d : Bytes) (b : Buffer) (v : IsValid b) (room : length d ≤ writable_bytes b) where
  abbrev written : Buffer
  written = record b {
    bytes = overwrite b.writer_index d b.bytes;
    writer_index = b.writer_index + length d;
  }

  written-IsValid : IsValid written
  written-IsValid = omega (arith, length-overwrite b.writer_index d b.bytes (omega arith))

  content-written : content written ≡ content b ++ d
  content-written =
      content-drop written
      ∙ ap (drop b.reader_index) (take-overwrite b.writer_index d b.bytes (omega arith))
      ∙ drop-append_le b.reader_index (take b.writer_index b.bytes) d
          (omega (arith, length-take b.writer_index b.bytes))
      ∙ ap (λ (t : Bytes). t ++ d) (sym (content-drop b))

pub append-IsValid : (d : Bytes) (b : Buffer) → IsValid b → IsValid (append d b)
unfolding append
append-IsValid d b v =
    let e = ensure_lem (length d) b v in
    written-IsValid d (ensure_writable_bytes (length d) b) e.0 e.2

-- `append` puts its bytes behind the content, whether it moves the content or grows the vector.
pub content-append : (d : Bytes) (b : Buffer) → IsValid b → content (append d b) ≡ content b ++ d
unfolding append
content-append d b v =
    let e = ensure_lem (length d) b v in
    content-written d (ensure_writable_bytes (length d) b) e.0 e.2 ∙ ap (λ (t : Bytes). t ++ d) e.1

-- Reading within the content reads its first bytes.
pub copy_from-peek :
    (n : ℕ) (b : Buffer)
    → IsValid b
    → n ≤ readable_bytes b
    → copy_from n (peek b) ≡ ok (take n (content b))
unfolding copy_from
copy_from-peek n b v h =
    rw (take-take n (readable_bytes b) (peek b) h)
      (ground (arith, length-drop b.reader_index b.bytes))

pub retrieve_as_string_lem :
    (n : ℕ) (b : Buffer)
    → IsValid b
    → n ≤ readable_bytes b
    → retrieve_as_string n b ≡ ok (take n (content b), retrieve n b)
unfolding retrieve_as_string
retrieve_as_string_lem n b v h = ground (arith, copy_from-peek n b v h)

-- `read` copies out the first bytes and drops them, or fails and leaves the buffer alone.
pub read_lem :
    (n : ℕ) (b : Buffer)
    → IsValid b
    → read true n b
      ≡ ok (
          if leb n (length (content b))
          then (some (take n (content b)), retrieve n b)
          else (none, b))
unfolding read
read_lem n b v = elim (Bool-cases (leb n (readable_bytes b))) [
  | inl e ↦ rw (length-content b v, e, copy_from-peek n b v (ground arith)) refl
  | inr e ↦ rw (length-content b v, e) refl
]

drop-overwrite :
    (i : ℕ) (d v : Bytes) → i ≤ length v → drop i (overwrite i d v) ≡ d ++ drop (i + length d) v
unfolding overwrite
drop-overwrite i d v h =
    ap (λ (k : ℕ). drop k (take i v ++ (d ++ drop (i + length d) v)))
      (let e : i ≡ length (take i v) = omega (arith, length-take i v) in e)
    ∙ drop-append_self (take i v) _

-- `prepend` into the room before the reader puts its bytes before the content.
pub prepend_lem :
    (d : Bytes) (b : Buffer)
    → IsValid b
    → length d ≤ prependable_bytes b
    → (b' : Buffer) × (prepend d b ≡ ok b') × IsValid b' × (content b' ≡ d ++ content b)
unfolding prepend
prepend_lem d b v h =
    let b' : Buffer = record b { bytes = overwrite i d b.bytes; reader_index = i } in
    (b', ground arith, omega (arith, length-overwrite i d b.bytes (omega arith)), view)
  where
    i : ℕ
    i = b.reader_index - length d

    view : content (record b { bytes = overwrite i d b.bytes; reader_index = i }) ≡ d ++ content b
    view =
        ap (take (b.writer_index - i)) (drop-overwrite i d b.bytes (omega arith))
        ∙ take-append_ge (b.writer_index - i) d _ (omega arith)
        ∙ ap (λ (t : Bytes). d ++ t)
            (ap (λ (k : ℕ). take (b.writer_index - i - length d) (drop k b.bytes)) (omega arith)
              ∙ ap (λ (k : ℕ). take k (peek b)) (omega arith))

pub content-append_fresh : (d : Bytes) (n : ℕ) → content (append d (make n)) ≡ d
content-append_fresh d n =
    content-append d (make n) (make-IsValid n) ∙ ap (λ (t : Bytes). t ++ d) (content-make n)
