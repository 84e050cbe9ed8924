-- ===== src/RequestMessage/Tests.antt =====
-- A concrete cache, and the theorems about requests at concrete inputs.
use asio.Prelude.{ℕ, ◌≡◌, refl, List, [], ◌∷◌, Bytes, some, nat_key}
use asio.Package.{success}
use asio.ProtoHelp.Samples.{request}
use asio.RequestMessage.Answers.{
  Event, puts, starts_timer, times_out, responds, run, AllSpare, answers_to, answered, first_said,
  put-answered,
}

abbrev later : List (Event Bytes ℕ)
later = starts_timer 7 1 ∷ times_out 8 2 ∷ responds request 3 ∷ times_out 7 4 ∷ []

later-AllSpare : AllSpare 7 later
unfolding AllSpare
later-AllSpare = (refl, (refl, (refl, (refl, tt))))

the_answer : first_said 7 later ≡ some (success, some request)
unfolding first_said
the_answer = refl

put-answered_example :
    answers_to 7 (run (puts request 5 1000 0 ∷ later) []).0
    ≡ answered 7 (some (request, 5)) (first_said 7 later)
put-answered_example = put-answered request 5 1000 0 later [] later-AllSpare
