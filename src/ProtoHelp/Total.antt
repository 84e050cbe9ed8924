-- ===== src/ProtoHelp/Total.antt =====
-- asio/internal/ProtoHelp.cpp, `decode`: it ends on every input, and how it may end.
use asio.Prelude.{
  ℕ, zero, suc, ◌≤◌, ◌<◌, arith, Exec, ok, overrun, thrown, out_of_fuel, ◌>>=◌, Option, none, some,
}
use asio.Package.{Package}
use asio.Platform.{Platform}
use asio.Buffer.{Buffer, readable_bytes}
use asio.Buffer.View.{IsValid}
use asio.ProtoHelp.{Attempt, returns, decode_again, decode, decode_loop, decode_once}
use asio.ProtoHelp.Attempts.{Taken, Shrinks, decode_once-Shrinks}

module _ (env : Platform) where
  -- How `decode` may end: outside of the memory that it owns, by an exception, or with a result.
  abbrev pub Ends : ℕ → Exec (Option (Package env.Message) × Buffer) → Type 0
  Ends n (ok (o, b)) = IsValid b × Taken env o (readable_bytes b) n
  Ends n overrun = Unit {0}
  Ends n thrown = Unit {0}
  Ends n out_of_fuel = ⊥

  Ends-mono :
      (m n : ℕ) (r : Exec (Option (Package env.Message) × Buffer)) → m ≤ n → Ends m r → Ends n r
  Ends-mono m n (ok (none, b)) l e = (e.0, omega arith)
  Ends-mono m n (ok (some p, b)) l e = (e.0, omega arith)
  Ends-mono m n overrun l e = tt
  Ends-mono m n thrown l e = tt
  Ends-mono m n out_of_fuel l e = e

  attempt-Ends :
      (n : ℕ) (again : Buffer → Exec (Option (Package env.Message) × Buffer))
      (r : Exec (Attempt env))
      → Shrinks env n r
      → ((b : Buffer) → IsValid b → readable_bytes b < n → Ends n (again b))
      → Ends n (r >>= λ a. elim a [ returns p b ↦ ok (p, b) | decode_again b ↦ again b ])
  attempt-Ends n again (ok (returns o b)) s k = s
  attempt-Ends n again (ok (decode_again b)) s k = k b s.0 s.1
  attempt-Ends n again overrun s k = tt
  attempt-Ends n again thrown s k = tt
  attempt-Ends n again out_of_fuel s k = s

  decode_loop-Ends :
      (fuel : ℕ) (b : Buffer)
      → IsValid b
      → readable_bytes b < fuel
      → Ends (readable_bytes b) (decode_loop env fuel b)
  unfolding decode_loop
  decode_loop-Ends zero b v h = absurd (omega arith)
  decode_loop-Ends (suc fuel) b v h =
      attempt-Ends (readable_bytes b) (decode_loop env fuel) (decode_once env b)
        (decode_once-Shrinks env b v)
        (λ c w l.
          Ends-mono (readable_bytes c) (readable_bytes b) _ (omega arith)
            (decode_loop-Ends fuel c w (omega arith)))

  -- `decode` ends on every valid buffer, whatever bytes it holds: it never runs out of fuel. Where
  -- it returns, the buffer is valid and holds no more bytes than before, and fewer where a package is
  -- returned.
  pub decode-Ends : (b : Buffer) → IsValid b → Ends (readable_bytes b) (decode env b)
  unfolding decode
  decode-Ends b v = decode_loop-Ends (suc (readable_bytes b)) b v (omega arith)
