-- ===== src/Connector/Tests.antt =====
-- The dialog on byte strings.
use asio.Prelude.{List, [], ◌∷◌, some, Bytes, arith, Leaves}
use asio.Package.{success, new_package}
use asio.Platform.Sample.{sample}
use asio.Connector.{Connector, Generated, new_connector, content_of}
use asio.Connector.Bounds.{Event, starts, sends, answers, runs, run, IsBounded, run-IsBounded}
use asio.Prelude.Int.{pos}

abbrev generated : Generated Bytes
generated = record { ping_pong_req = λ content. content; rsp_content = λ m. m }

unfoldable dialog : Connector Bytes
unfolding new_connector
dialog = new_connector

dialog-IsBounded : IsBounded dialog
unfolding dialog new_connector
dialog-IsBounded = record {
  sent_bound = omega arith;
  recv_bound = omega arith;
  recv_ids = tt;
  result_ids = tt;
}

abbrev text : Bytes
text = b'h' ∷ b'i' ∷ []

abbrev clicks : List (Event Bytes)
clicks =
    starts (pos 100)
    ∷ sends text 5
    ∷ answers 101 text success (
        some (record (new_package Bytes) { msg_ptr = some (content_of sample generated 101 text) }))
    ∷ runs
    ∷ []

run-IsBounded_example : Leaves IsBounded (run sample generated clicks dialog)
run-IsBounded_example =
    run-IsBounded sample generated clicks dialog (tt, (tt, (omega arith, (tt, tt))))
      dialog-IsBounded
