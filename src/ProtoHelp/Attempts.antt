-- ===== src/ProtoHelp/Attempts.antt =====
-- asio/internal/ProtoHelp.cpp, `decode`: one run of it up to its next call of itself.
use asio.Prelude.{
  ℕ, ◌-◌, ◌≤◌, ◌<◌, ◌^◌, ◌≡◌, refl, ap, inl, inr, [], ◌∷◌, arith, length, take, Bytes, Exec, ok,
  overrun, thrown, out_of_fuel, ◌>>=◌, true, Bool, Option, none, some, ltb, leb, ◌||◌, ◌==◌,
  length-drop, Bool-cases,
}
use asio.Prelude.Words.{size_of_int}
use asio.Package.{PacHeader, Package, iszip, package_header_size}
use asio.Platform.{Platform}
use asio.Buffer.{
  Buffer, content, readable_bytes, retrieve, retrieve_as_string, read, copy_from, peek,
}
use asio.Buffer.View.{IsValid, length-content, content-retrieve, retrieve-IsValid}
use asio.ProtoHelp.{
  Attempt, returns, decode_again, decode_once, decode_found, decode_header, decode_body,
  decode_created, decode_relayed, decode_plain, decode_zipped, finish_decode, create_message,
  is_relayed, buffer_peek_header, remain_size, past, parse_read, max_package_len,
}
use asio.ProtoHelp.Flag.{scan, goto_flag-Finds}

pub length-scan : (q : Bytes) → length (scan q).1 ≤ length q
unfolding scan
length-scan [] = omega arith
length-scan (x ∷ xs) = ground (arith, length-scan xs)

retrieve_shrinks :
    (n : ℕ) (b : Buffer) → IsValid b → readable_bytes (retrieve n b) ≡ readable_bytes b - n
retrieve_shrinks n b v = omega (
  arith,
  length-content (retrieve n b) (retrieve-IsValid n b v),
  length-content b v,
  ap length (content-retrieve n b v),
  length-drop n (content b),
)

scan-found : (q : Bytes) → (scan q).0 ≡ true → package_header_size < length (scan q).1
unfolding scan
scan-found [] e = cc
scan-found (x ∷ xs) e = ground (arith, scan-found xs)

module _ (env : Platform) where
  -- A package that is returned has taken bytes from the buffer.
  abbrev pub Taken : Option (Package env.Message) → ℕ → ℕ → Type 0
  Taken none k n = k ≤ n
  Taken (some p) k n = k < n

  -- A valid buffer stays valid, and its content does not grow; a package, or a call of itself,
  -- leaves it shorter.
  abbrev pub Shrinks : ℕ → Exec (Attempt env) → Type 0
  Shrinks n (ok (returns o b)) = IsValid b × Taken o (readable_bytes b) n
  Shrinks n (ok (decode_again b)) = IsValid b × (readable_bytes b < n)
  Shrinks n overrun = Unit {0}
  Shrinks n thrown = Unit {0}
  Shrinks n out_of_fuel = ⊥

  finish_decode-Shrinks :
      (h : PacHeader) (name : Bytes) (r n : ℕ) (parsed : Option env.Message) (b : Buffer)
      → IsValid b
      → readable_bytes b < n
      → Shrinks n (ok (finish_decode env h name r parsed b))
  unfolding finish_decode
  finish_decode-Shrinks h name r n none b v l = (v, omega arith)
  finish_decode-Shrinks h name r n (some m) b v l =
      (retrieve-IsValid _ b v, omega (arith, retrieve_shrinks (size_of_int r) b v))

  read-Shrinks :
      (f : Option Bytes → Package env.Message) (t : Bool) (k n : ℕ) (b : Buffer)
      → IsValid b
      → readable_bytes b < n
      → Shrinks n (read t k b >>= λ r. ok (returns (some (f r.0)) r.1))
  unfolding read copy_from
  read-Shrinks f t k n b v l = ground (arith, retrieve-IsValid k b v, retrieve_shrinks k b v)

  copied-Shrinks :
      (k n : ℕ) (m : Bytes) (f : Bytes → Exec (Attempt env))
      → ((d : Bytes) → Shrinks n (f d))
      → Shrinks n (copy_from k m >>= f)
  unfolding copy_from
  copied-Shrinks k n m f s = elim (Bool-cases (leb k (length m))) [
    | inl e ↦ rw e (s (take k m))
    | inr e ↦ rw e tt
  ]

  decode_relayed-Shrinks :
      (h : PacHeader) (name : Bytes) (n : ℕ) (b : Buffer)
      → IsValid b
      → readable_bytes b < n
      → Shrinks n (decode_relayed env h name b)
  unfolding decode_relayed
  decode_relayed-Shrinks h name n b v l = elim (Bool-cases (leb (2 ^ 31) (remain_size h))) [
    | inl e ↦ rw e tt
    | inr e ↦ rw e (read-Shrinks _ _ (remain_size h) n b v l)
  ]

  uncompressed-Shrinks :
      (h h' : PacHeader) (name : Bytes) (r n : ℕ) (fresh : env.Message) (content : Option Bytes)
      (b : Buffer)
      → IsValid b
      → readable_bytes b < n
      → Shrinks n (elim content [
        | none ↦ ok (finish_decode env h name r none b)
        | some c ↦ ok (finish_decode env h' name r (env.parse_from_array fresh c) b)
      ])
  uncompressed-Shrinks h h' name r n fresh none b v l = finish_decode-Shrinks h name r n none b v l
  uncompressed-Shrinks h h' name r n fresh (some c) b v l =
      finish_decode-Shrinks h' name r n (env.parse_from_array fresh c) b v l

  decode_zipped-Shrinks :
      (h : PacHeader) (name : Bytes) (fresh : env.Message) (n : ℕ) (b : Buffer)
      → IsValid b
      → readable_bytes b < n
      → Shrinks n (decode_zipped env h name fresh b)
  unfolding decode_zipped
  decode_zipped-Shrinks h name fresh n b v l = elim (Bool-cases (leb (2 ^ 31) h.msg_size)) [
    | inl e ↦ rw e tt
    | inr e ↦ rw e (
        copied-Shrinks (size_of_int (remain_size h)) n (peek b) _ (λ d.
          uncompressed-Shrinks h _ name (remain_size h) n fresh (env.uncompress h.msg_size d) b v
            l))
  ]

  past-Shrinks :
      (h : PacHeader) (name : Bytes) (r n : ℕ) (b : Buffer) (o : Option (Option env.Message))
      → IsValid b
      → readable_bytes b < n
      → Shrinks n (past env o >>= λ parsed. ok (finish_decode env h name r parsed b))
  past-Shrinks h name r n b none v l = tt
  past-Shrinks h name r n b (some parsed) v l = finish_decode-Shrinks h name r n parsed b v l

  parsed-Shrinks :
      (h : PacHeader) (name : Bytes) (fresh : env.Message) (k n : ℕ) (b : Buffer) (x : Exec Bytes)
      → IsValid b
      → readable_bytes b < n
      → Shrinks n (
          parse_read env fresh (peek b) k x >>= λ parsed.
          ok (finish_decode env h name (remain_size h) parsed b))
  parsed-Shrinks h name fresh k n b (ok d) v l =
      finish_decode-Shrinks h name (remain_size h) n (env.parse_from_array fresh d) b v l
  parsed-Shrinks h name fresh k n b overrun v l = past-Shrinks h name _ n b _ v l
  parsed-Shrinks h name fresh k n b thrown v l = past-Shrinks h name _ n b _ v l
  parsed-Shrinks h name fresh k n b out_of_fuel v l = past-Shrinks h name _ n b _ v l

  decode_created-Shrinks :
      (h : PacHeader) (name : Bytes) (n : ℕ) (b : Buffer) (made : Option env.Message)
      → IsValid b
      → readable_bytes b < n
      → Shrinks n (decode_created env h name made b)
  unfolding decode_created decode_plain
  decode_created-Shrinks h name n b none v l = (v, l)
  decode_created-Shrinks h name n b (some fresh) v l = elim (Bool-cases (iszip h == 1)) [
    | inl e ↦ rw e (decode_zipped-Shrinks h name fresh n b v l)
    | inr e ↦ rw e (
        parsed-Shrinks h name fresh (size_of_int h.msg_size) n b
          (copy_from (size_of_int h.msg_size) (peek b)) v l)
  ]

  decode_body-Shrinks :
      (h : PacHeader) (name : Bytes) (n : ℕ) (b : Buffer)
      → IsValid b
      → readable_bytes b < n
      → Shrinks n (decode_body env h name b)
  unfolding decode_body
  decode_body-Shrinks h name n b v l = elim (Bool-cases (is_relayed env name)) [
    | inl e ↦ rw e (decode_relayed-Shrinks h name n b v l)
    | inr e ↦ rw e (decode_created-Shrinks h name n b (create_message env name) v l)
  ]

  named-Shrinks :
      (k n : ℕ) (h : PacHeader) (b : Buffer)
      → IsValid b
      → readable_bytes b < n
      → Shrinks n (retrieve_as_string k b >>= λ r. decode_body env h r.0 r.1)
  unfolding retrieve_as_string copy_from
  named-Shrinks k n h b v l = elim (Bool-cases (leb k (length (peek b)))) [
    | inl e ↦ rw e (
        decode_body-Shrinks h (take k (peek b)) n (retrieve k b) (retrieve-IsValid k b v)
          (omega (arith, retrieve_shrinks k b v)))
    | inr e ↦ rw e tt
  ]

  decode_header-Shrinks :
      (h : PacHeader) (n : ℕ) (b : Buffer)
      → IsValid b
      → readable_bytes b ≤ n
      → package_header_size < readable_bytes b
      → Shrinks n (decode_header env h b)
  unfolding decode_header
  decode_header-Shrinks h n b v l big =
      let v1 = retrieve-IsValid 20 b v in
      let l1 : readable_bytes (retrieve 20 b) < n = omega (arith, retrieve_shrinks 20 b v) in
      elim (Bool-cases (ltb (readable_bytes b) (size_of_int h.pac_size))) [
        | inl e ↦ rw e (v, l)
        | inr e ↦ elim (Bool-cases (leb (2 ^ 31) h.pac_size || ltb max_package_len h.pac_size)) [
          | inl e1 ↦ rw (e, e1) (v1, l1)
          | inr e1 ↦
              elim (Bool-cases (
                h.type_name_len == 0 || leb (2 ^ 15) h.type_name_len || ltb 1024 h.type_name_len)) [
                  | inl e2 ↦ rw (e, e1, e2) (v1, l1)
                  | inr e2 ↦
                      rw (e, e1, e2) (named-Shrinks h.type_name_len n h (retrieve 20 b) v1 l1)
                ]
        ]
      ]

  decode_found-Shrinks :
      (n : ℕ) (b : Buffer)
      → IsValid b
      → readable_bytes b ≤ n
      → package_header_size < readable_bytes b
      → Shrinks n (decode_found env b)
  unfolding decode_found buffer_peek_header copy_from
  decode_found-Shrinks n b v l big = elim (Bool-cases (leb 20 (length (peek b)))) [
    | inl e ↦ rw e (decode_header-Shrinks _ n b v l big)
    | inr e ↦ rw e tt
  ]

  pub decode_once-Shrinks :
      (b : Buffer) → IsValid b → Shrinks (readable_bytes b) (decode_once env b)
  unfolding decode_once
  decode_once-Shrinks b v =
      let q = content b in
      let f = goto_flag-Finds b q v refl in
      let l : readable_bytes f.0 ≤ readable_bytes b =
        omega (arith, length-scan q, length-content b v, length-content f.0 f.2, ap length f.3) in
      elim (Bool-cases (scan q).0) [
        | inr e ↦ rw (f.1, e) (f.2, l)
        | inl e ↦
            let big : 20 < readable_bytes f.0 =
              omega (arith, scan-found q e, length-content f.0 f.2, ap length f.3) in
            rw (f.1, e) (decode_found-Shrinks (readable_bytes b) f.0 f.2 l big)
      ]
