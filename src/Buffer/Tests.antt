-- ===== src/Buffer/Tests.antt =====
-- Concrete runs of the buffer, and its theorems at concrete inputs.
use asio.Prelude.{◌≡◌, refl, List, [], ◌∷◌, ok}
use asio.Buffer.{Buffer, content, make, append, retrieve}
use asio.Buffer.View.{IsValid}
use asio.Buffer.Refines.{
  Call, appends, retrieves, reads, appends_int32, appends_int8, retrieves_string, reads_int32,
  reads_int8, retrieves_all_string, run, queue_run, queue_step, AllAsserted, run_from_fresh,
}
use asio.Prelude.{arith}
use asio.Buffer.{initial_size}

-- Calls of each kind.
abbrev calls : List Call
calls =
    appends (1 ∷ 2 ∷ 3 ∷ 4 ∷ 5 ∷ 6 ∷ [])
    ∷ retrieves 4
    ∷ appends (7 ∷ 8 ∷ 9 ∷ [])
    ∷ reads 2
    ∷ appends (1 ∷ 2 ∷ 3 ∷ 4 ∷ 5 ∷ 6 ∷ 7 ∷ [])
    ∷ reads 3
    ∷ reads 100
    ∷ appends_int32 0xdead_beef
    ∷ appends_int8 1
    ∷ retrieves_string 2
    ∷ reads_int32
    ∷ reads_int8
    ∷ retrieves_all_string
    ∷ []

calls-AllAsserted : AllAsserted calls []
unfolding AllAsserted queue_step
calls-AllAsserted = omega arith

-- A buffer of eight bytes that moves its content.
moved :
    (append (7 ∷ 8 ∷ 9 ∷ []) (retrieve 4 (append (1 ∷ 2 ∷ 3 ∷ 4 ∷ 5 ∷ 6 ∷ []) (make 8)))).bytes
    ≡ 5 ∷ 6 ∷ 7 ∷ 8 ∷ 9 ∷ 6 ∷ 0 ∷ 0 ∷ []
unfolding append retrieve make
moved = refl

run_from_fresh_example :
    (b : Buffer) × (run calls (make initial_size) ≡ ok ((queue_run calls []).0, b))
    × IsValid b
    × (content b ≡ (queue_run calls []).1)
run_from_fresh_example = run_from_fresh calls calls-AllAsserted
