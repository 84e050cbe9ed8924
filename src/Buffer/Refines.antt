-- ===== src/Buffer/Refines.antt =====
-- asio/internal/Buffer.h and Buffer.cpp: any sequence of calls behaves as one on a queue of bytes.
use asio.Prelude.{
  ℕ, ◌≤◌, ◌<◌, ◌^◌, ◌≡◌, refl, sym, ap, ◌∙◌, true, List, [], ◌∷◌, ◌++◌, inl, inr, arith, length,
  take, drop, Bytes, Bool-cases, leb, if◌then◌else◌, Option, none, some, Exec, ok, ◌>>=◌,
}
use mathlib.Core.Path.{subst}
use asio.Prelude.Words.{bytes_of_int, bytes_of_short, number_of_bytes, number_of_bytes-int}
use asio.Buffer.{
  Buffer, content, make, initial_size, readable_bytes, retrieve, retrieve_all, retrieve_as_string,
  retrieve_all_as_string, append, read, peek_int32, peek_int16, peek_int8, read_int32, read_int16,
  read_int8, append_int32, append_int16, append_int8,
}
use asio.Buffer.View.{
  IsValid, make-IsValid, content-make, retrieve-IsValid, content-retrieve, append-IsValid,
  content-append, length-content, copy_from-peek, read_lem, retrieve_as_string_lem,
}

-- The calls: `append` and `appendInt32`, `appendInt16` and `appendInt8`; `retrieve`, `retrieveAsString`,
-- `retrieveAllAsString` and `retrieveAll`; `read` into a place that is not null, and `readInt32`,
-- `readInt16` and `readInt8`.
pub data Call : Type 0 where
  appends : Bytes → Call
  appends_int32 appends_int16 appends_int8 : ℕ → Call
  retrieves retrieves_string : ℕ → Call
  retrieves_all_string clears : Call
  reads : ℕ → Call
  reads_int32 reads_int16 reads_int8 : Call

abbrev pub got_bytes : Option Bytes × Buffer → Bytes × Buffer
got_bytes (none, b) = ([], b)
got_bytes (some d, b) = (d, b)

-- What a call does to the buffer, and what it hands out: bytes, or one number.
unfoldable pub step : Call → Buffer → Exec (Bytes × Buffer)
step (appends d) b = ok ([], append d b)
step (appends_int32 x) b = ok ([], append_int32 x b)
step (appends_int16 x) b = ok ([], append_int16 x b)
step (appends_int8 x) b = ok ([], append_int8 x b)
step (retrieves n) b = ok ([], retrieve n b)
step (retrieves_string n) b = retrieve_as_string n b
step retrieves_all_string b = retrieve_all_as_string b
step clears b = ok ([], retrieve_all b)
step (reads n) b = do r ← read true n b; ok (got_bytes r)
step reads_int32 b = do r ← read_int32 b; ok (r.0 ∷ [], r.1)
step reads_int16 b = do r ← read_int16 b; ok (r.0 ∷ [], r.1)
step reads_int8 b = do r ← read_int8 b; ok (r.0 ∷ [], r.1)

unfoldable pub run : List Call → Buffer → Exec (Bytes × Buffer)
run [] b = ok ([], b)
run (c ∷ cs) b = do (out, b') ← step c b; (outs, b'') ← run cs b'; ok (out ++ outs, b'')

-- The same calls on a queue of bytes.
abbrev number_at : ℕ → Bytes → Bytes × Bytes
number_at n q = (number_of_bytes (take n q) ∷ [], drop n q)

unfoldable pub queue_step : Call → Bytes → Bytes × Bytes
queue_step (appends d) q = ([], q ++ d)
queue_step (appends_int32 x) q = ([], q ++ bytes_of_int x)
queue_step (appends_int16 x) q = ([], q ++ bytes_of_short x)
queue_step (appends_int8 x) q = ([], q ++ (x ∷ []))
queue_step (retrieves n) q = ([], drop n q)
queue_step (retrieves_string n) q = (take n q, drop n q)
queue_step retrieves_all_string q = (q, [])
queue_step clears q = ([], [])
queue_step (reads n) q = if leb n (length q) then (take n q, drop n q) else ([], q)
queue_step reads_int32 q = number_at 4 q
queue_step reads_int16 q = number_at 2 q
queue_step reads_int8 q = number_at 1 q

unfoldable pub queue_run : List Call → Bytes → Bytes × Bytes
unfolding queue_step
queue_run [] q = ([], q)
queue_run (c ∷ cs) q =
    let (out, q') = queue_step c q in let (outs, q'') = queue_run cs q' in (out ++ outs, q'')

-- What the assertions ask of a call, where the queue has some length: that what is retrieved is there.
abbrev pub Asserted : Call → ℕ → Type 0
Asserted (retrieves n) have = n ≤ have
Asserted (retrieves_string n) have = n ≤ have
Asserted reads_int32 have = 4 ≤ have
Asserted reads_int16 have = 2 ≤ have
Asserted reads_int8 have = 1 ≤ have
Asserted other have = Unit {0}

unfoldable pub AllAsserted : List Call → Bytes → Type 0
AllAsserted [] q = Unit {0}
AllAsserted (c ∷ cs) q = Asserted c (length q) × AllAsserted cs (queue_step c q).1

abbrev Refines : Exec (Bytes × Buffer) → Bytes × Bytes → Type 0
Refines r spec = (b : Buffer) × (r ≡ ok (spec.0, b)) × IsValid b × (content b ≡ spec.1)

retrieve_all-IsValid : (b : Buffer) → IsValid (retrieve_all b)
unfolding retrieve_all
retrieve_all-IsValid b = omega arith

append-Refines :
    (d : Bytes) (b : Buffer) → IsValid b → Refines (ok ([], append d b)) ([], content b ++ d)
append-Refines d b v = (append d b, refl, append-IsValid d b v, content-append d b v)

string-Refines :
    (n : ℕ) (b : Buffer)
    → IsValid b
    → n ≤ length (content b)
    → Refines (retrieve_as_string n b) (take n (content b), drop n (content b))
string-Refines n b v h = (
  retrieve n b,
  retrieve_as_string_lem n b v (omega (arith, length-content b v)),
  retrieve-IsValid n b v,
  content-retrieve n b v,
)

take_all : (q : Bytes) → take (length q) q ≡ q
take_all [] = refl
take_all (x ∷ q) = ap (λ t. x ∷ t) (take_all q)

drop_all : (q : Bytes) → drop (length q) q ≡ []
drop_all [] = refl
drop_all (x ∷ q) = drop_all q

step-Refines :
    (c : Call) (b : Buffer)
    → IsValid b
    → Asserted c (length (content b))
    → Refines (step c b) (queue_step c (content b))
unfolding step queue_step append_int32 append_int16 append_int8 read_int32 read_int16 read_int8
    peek_int32 peek_int16 peek_int8 retrieve_all_as_string
step-Refines (appends d) b v h = append-Refines d b v
step-Refines (appends_int32 x) b v h = append-Refines (bytes_of_int x) b v
step-Refines (appends_int16 x) b v h = append-Refines (bytes_of_short x) b v
step-Refines (appends_int8 x) b v h = append-Refines (x ∷ []) b v
step-Refines (retrieves n) b v h =
    (retrieve n b, refl, retrieve-IsValid n b v, content-retrieve n b v)
step-Refines (retrieves_string n) b v h = string-Refines n b v h
step-Refines retrieves_all_string b v h =
    let n = readable_bytes b in
    let size = length-content b v in
    let r = string-Refines n b v (omega (arith, size)) in
    (
      r.0,
      r.1
          ∙ ap (λ k. ok (take k (content b), r.0)) (sym size)
          ∙ ap (λ (t : Bytes). ok (t, r.0)) (take_all (content b)),
      r.2,
      r.3 ∙ ap (λ k. drop k (content b)) (sym size) ∙ drop_all (content b),
    )
step-Refines clears b v h =
    (retrieve_all b, refl, retrieve_all-IsValid b, unfold retrieve_all in refl)
step-Refines (reads n) b v h = elim (Bool-cases (leb n (length (content b)))) [
  | inl e ↦
      rw e
        (retrieve n b, rw (read_lem n b v, e) refl, retrieve-IsValid n b v, content-retrieve n b v)
  | inr e ↦ rw e (b, rw (read_lem n b v, e) refl, v, refl)
]
step-Refines reads_int32 b v h = (
  retrieve 4 b,
  rw (copy_from-peek 4 b v (omega (arith, length-content b v, h))) refl,
  retrieve-IsValid 4 b v,
  content-retrieve 4 b v,
)
step-Refines reads_int16 b v h = (
  retrieve 2 b,
  rw (copy_from-peek 2 b v (omega (arith, length-content b v, h))) refl,
  retrieve-IsValid 2 b v,
  content-retrieve 2 b v,
)
step-Refines reads_int8 b v h = (
  retrieve 1 b,
  rw (copy_from-peek 1 b v (omega (arith, length-content b v, h))) refl,
  retrieve-IsValid 1 b v,
  content-retrieve 1 b v,
)

run-Refines :
    (cs : List Call) (b : Buffer) (q : Bytes)
    → IsValid b
    → content b ≡ q
    → AllAsserted cs q
    → Refines (run cs b) (queue_run cs q)
unfolding run queue_run AllAsserted
run-Refines [] b q v e a = (b, refl, v, e)
run-Refines (c ∷ cs) b q v e a =
    let s : Refines (step c b) (queue_step c q) =
      subst (λ t. Refines (step c b) (queue_step c t)) e
        (step-Refines c b v (subst (λ t. Asserted c (length t)) (sym e) a.0)) in
    let r = run-Refines cs s.0 (queue_step c q).1 s.2 s.3 a.1 in (r.0, rw (s.1, r.1) refl, r.2, r.3)

-- Every sequence of these calls on a fresh buffer of the initial size, in which the assertions hold (no
-- call retrieves more than is there), succeeds, hands out the bytes and numbers that the same calls on
-- an empty queue of bytes hand out, and leaves the buffer valid and holding what is left in that queue.
pub run_from_fresh :
    (cs : List Call)
    → AllAsserted cs []
    → (b : Buffer) × (run cs (make initial_size) ≡ ok ((queue_run cs []).0, b))
      × IsValid b
      × (content b ≡ (queue_run cs []).1)
run_from_fresh cs a =
    run-Refines cs (make initial_size) [] (make-IsValid initial_size) (content-make initial_size) a

-- `appendInt32` into an empty buffer and then `readInt32` gives the pattern back, and leaves the
-- buffer empty.
pub read_int32-append_int32 :
    (x : ℕ) (b : Buffer)
    → IsValid b
    → content b ≡ []
    → x < 2 ^ 32
    → (b' : Buffer) × (read_int32 (append_int32 x b) ≡ ok (x, b')) × (content b' ≡ [])
unfolding read_int32 peek_int32 append_int32
read_int32-append_int32 x b v e h =
    let b1 = append (bytes_of_int x) b in
    let v1 = append-IsValid (bytes_of_int x) b v in
    let c1 : content b1 ≡ bytes_of_int x = content-append (bytes_of_int x) b v ∙ rw e refl in
    (
      retrieve 4 b1,
      rw
          (
            copy_from-peek 4 b1 v1 (omega (arith, length-content b1 v1, ap length c1)),
            c1,
            number_of_bytes-int x h,
          )
          refl,
      content-retrieve 4 b1 v1 ∙ rw c1 refl,
    )
