-- ===== src/Session/Kept.antt =====
-- asio/internal/Session.cpp, class Session: what its methods leave as it is.
use asio.Prelude.{
  ℕ, zero, suc, ◌<◌, ◌≡◌, refl, Bool, true, false, List, [], ◌∷◌, Option, none, some, Bytes, arith,
  Exec, ok, overrun, thrown, out_of_fuel, ◌>>=◌, Leaves, Leaves-ok, Leaves-map, Leaves-any,
  Leaves-if, if-same, ◌==◌,
}
use asio.Prelude.Int.{ℤ}
use asio.Prelude.Words.{increment}
use asio.Package.{Package}
use asio.Platform.{Platform}
use asio.Buffer.{Buffer, append, readable_bytes, make, initial_size}
use asio.Buffer.View.{IsValid, append-IsValid}
use asio.ProtoHelp.{decode, encode}
use asio.ProtoHelp.Total.{Ends, decode-Ends}
use asio.Session.{
  Session, go_on, read_loop, on_read, do_read, do_write, run_posted, write_buffer, post_encoded,
  post_package, reply_message, publish_message, deliver_package, publication,
}

-- A session with the same id and read buffer.
abbrev pub Keeps : Session → Session → Type 0
Keeps s s' = (s'.session_id ≡ s.session_id) × (s'.read_buffer ≡ s.read_buffer)

-- The id and the read buffer.
abbrev pub kept : Session → ℕ × Buffer
kept s = (s.session_id, s.read_buffer)

pub do_write-kept : (error : Bool) (s : Session) → kept (do_write error s) ≡ kept s
unfolding do_write
do_write-kept error s = if-same kept error _ _ _ refl refl

write_buffer-kept : (b : Buffer) (s : Session) → kept (write_buffer b s) ≡ kept s
unfolding write_buffer
write_buffer-kept b s = ground arith

pub run_posted-kept : (s : Session) → kept (run_posted s) ≡ kept s
unfolding run_posted
run_posted-kept s = ran s.posted refl
  where
    ran : (bs : List Buffer) → s.posted ≡ bs → kept (run_posted s) ≡ kept s
    ran [] e = rw e refl
    ran (b ∷ rest) e = rw e (write_buffer-kept b (record s { posted = rest }))

module _ (env : Platform) where
  post_encoded-Keeps :
      (s : Session) (r : Bool × Package env.Message × Buffer) → Keeps s (post_encoded env s r).1
  post_encoded-Keeps s (true, p, b) = (refl, refl)
  post_encoded-Keeps s (false, p, b) = (refl, refl)

  pub post_package-Keeps :
      (limit : ℤ) (p : Package env.Message) (s : Session)
      → Leaves (λ r. Keeps s r.1) (post_package env limit p s)
  unfolding post_package
  post_package-Keeps limit p s =
      Leaves-map (λ r. Unit {0}) (λ (r : Package env.Message × Session). Keeps s r.1)
        (encode env limit p (make initial_size)) (post_encoded env s)
        (Leaves-any (λ r. Unit {0}) _ (λ r. tt)) (λ r u. post_encoded-Keeps s r)

  pub deliver_package-Keeps :
      (limit : ℤ) (p : Package env.Message) (s : Session)
      → Leaves (λ r. Keeps s r.1) (deliver_package env limit p s)
  unfolding deliver_package
  deliver_package-Keeps limit p s = post_package-Keeps limit p s

  pub reply_message-Keeps :
      (limit : ℤ) (req : Option (Package env.Message)) (rsp : Option env.Message) (s : Session)
      → Leaves (Keeps s) (reply_message env limit req rsp s)
  unfolding reply_message
  reply_message-Keeps limit none rsp s = Leaves-ok (Keeps s) s (refl, refl)
  reply_message-Keeps limit (some req) none s = Leaves-ok (Keeps s) s (refl, refl)
  reply_message-Keeps limit (some req) (some msg) s =
      Leaves-map (λ r. Keeps s r.1) (Keeps s) (post_package env limit _ s) (λ r. r.1)
        (post_package-Keeps limit _ s) (λ r k. k)

  pub publish_message-Keeps :
      (limit : ℤ) (msg : Option env.Message) (s : Session)
      → Leaves (Keeps s) (publish_message env limit msg s)
  unfolding publish_message
  publish_message-Keeps limit none s = Leaves-ok (Keeps s) s (refl, refl)
  publish_message-Keeps limit (some msg) s =
      let p = publication env (increment s.last_id) msg in
      let s' = record s { last_id = increment s.last_id } in
      Leaves-map (λ r. Keeps s' r.1) (Keeps s) (post_package env limit p s') (λ r. r.1)
        (post_package-Keeps limit p s') (λ r k. k)

  abbrev Loops : Exec (List (Package env.Message) × Buffer) → Type 0
  Loops = Leaves (λ r. IsValid r.1)

  go_on-IsValid :
      (again : Buffer → Exec (List (Package env.Message) × Buffer)) (n : ℕ)
      (r : Exec (Option (Package env.Message) × Buffer))
      → Ends env n r
      → ((b : Buffer) → IsValid b → readable_bytes b < n → Loops (again b))
      → Loops (r >>= go_on env again)
  go_on-IsValid again n (ok (none, b)) e k = Leaves-ok (λ r. IsValid r.1) ([], b) e.0
  go_on-IsValid again n (ok (some p, b)) e k =
      Leaves-if (λ r. IsValid r.1) (readable_bytes b == 0) (ok (p ∷ [], b))
        (do r ← again b; ok (p ∷ r.0, r.1)) (Leaves-ok (λ r. IsValid r.1) (p ∷ [], b) e.0)
        (Leaves-map (λ r. IsValid r.1) (λ r. IsValid r.1) (again b) (λ r. (p ∷ r.0, r.1))
          (k b e.0 e.1) (λ r v. v))
  go_on-IsValid again n overrun e k = unfold Leaves in tt
  go_on-IsValid again n thrown e k = unfold Leaves in tt
  go_on-IsValid again n out_of_fuel e k = unfold Leaves in tt

  read_loop-IsValid : (fuel : ℕ) (b : Buffer) → IsValid b → Loops (read_loop env fuel b)
  unfolding read_loop
  read_loop-IsValid zero b v = unfold Leaves in tt
  read_loop-IsValid (suc fuel) b v =
      go_on-IsValid (read_loop env fuel) (readable_bytes b) (decode env b) (decode-Ends env b v)
        (λ c w l. read_loop-IsValid fuel c w)

  -- What the read handler leaves.
  abbrev pub Reads : Session → List (Package env.Message) × Session → Type 0
  Reads s r = (r.1.session_id ≡ s.session_id) × IsValid r.1.read_buffer

  -- The read handler keeps the id, and its buffer valid.
  pub on_read-IsValid :
      (bytes : Option Bytes) (s : Session)
      → IsValid s.read_buffer
      → Leaves (Reads s) (on_read env bytes s)
  unfolding on_read do_read
  on_read-IsValid none s v = Leaves-ok (Reads s) _ (refl, v)
  on_read-IsValid (some bytes) s v =
      let filled = append bytes s.read_buffer in
      Leaves-map (λ r. IsValid r.1) (Reads s) (read_loop env (suc (readable_bytes filled)) filled)
        (λ r. (r.0, do_read (record s { read_buffer = r.1 })))
        (read_loop-IsValid (suc (readable_bytes filled)) filled
          (append-IsValid bytes s.read_buffer v))
        (λ r w. (refl, w))
