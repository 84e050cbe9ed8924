-- ===== src/BaseHandler/Tests.antt =====
-- The methods of the example server on byte strings.
use asio.Prelude.{◌≡◌, refl, List, [], ◌∷◌, ◌++◌, Bytes}
use asio.BaseHandler.{Generated, Turn, pings, adds, replies, Discards, turns, discard-turns}

abbrev generated : Generated Bytes
generated = record {
  ping_pong_name = b'p' ∷ [];
  daytime_name = b't' ∷ [];
  discard_name = b'd' ∷ [];
  content = λ m. m;
  ping_pong_rsp = λ content. content;
  daytime_rsp = λ time. time;
  discard_rsp = λ size total. size ∷ total ∷ [];
  format_now = [];
}

abbrev between : List (Turn Bytes)
between = adds 2 (b'c' ∷ []) ∷ pings (b'x' ∷ []) ∷ replies 2 ∷ []

abbrev seven : Discards
seven = record { total = 7; open_calls = [] }

discard-turns_example :
    (turns generated (adds 1 (b'a' ∷ b'b' ∷ []) ∷ (between ++ (replies 1 ∷ []))) seven).0
    ≡ (turns generated (adds 1 (b'a' ∷ b'b' ∷ []) ∷ between) seven).0 ++ ((2 ∷ 10 ∷ []) ∷ [])
discard-turns_example =
    discard-turns generated 1 (b'a' ∷ b'b' ∷ []) between seven (refl, (tt, (refl, tt)))
