-- ===== src/Session/Tests.antt =====
-- A concrete session, and the theorems about sessions at concrete inputs.
use asio.Prelude.{
  ◌≡◌, ◌≢◌, refl, sym, ap, ◌∙◌, true, false, List, [], ◌∷◌, ◌++◌, some, arith, Bytes, ok,
  out_of_fuel, map, take, drop, append_assoc, take-append-drop,
}
use asio.Package.{Package}
use asio.Platform.Sample.{sample, sample-IsLawful, sample_name}
use asio.Buffer.{Buffer, content, make, append}
use asio.Buffer.View.{make-IsValid, content-make}
use asio.ProtoHelp.Samples.{hello, request, limit, request-Sendable, sample-Known, small_enough}
use asio.ProtoHelp.Frame.{frame}
use asio.ProtoHelp.{encode}
use asio.ProtoHelp.Encode.{zipped, sent_header}
use asio.ProtoHelp.RoundTrip.{received}
use asio.Session.{Session, new_session, on_read}
use asio.Session.Writing.{
  Event, posts, runs_posted, ends_write, run, pending, posts_of, IsWriting, written_in_order,
  silent_after_error, failed,
}
use asio.Session.Reading.{on_read-total, packages, concat}
use asio.Session.Stream.{Frame, feed, join, any_pieces}
use asio.Session.Sent.{wire-Frame, sent-Frame}

abbrev first : Buffer
first = append (1 ∷ 2 ∷ []) (make 4)

abbrev second : Buffer
second = append (3 ∷ []) (make 4)

-- Two buffers are posted, the first is written, and the write of the second fails.
abbrev turns : List Event
turns =
    posts first
    ∷ runs_posted
    ∷ posts second
    ∷ runs_posted
    ∷ ends_write false
    ∷ ends_write true
    ∷ posts first
    ∷ []

written_in_order_example :
    IsWriting (failed turns (new_session 1)) (run turns (new_session 1)).0
    × ((run turns (new_session 1)).1 ++ pending (run turns (new_session 1)).0
        ≡ pending (new_session 1) ++ map content (posts_of turns))
written_in_order_example = written_in_order turns (new_session 1) refl

abbrev busy : Session
busy = record (new_session 1) {
  write_deque = second ∷ first ∷ [];
  in_flight = some (content second);
}

abbrev afterwards : List Event
afterwards = posts first ∷ runs_posted ∷ ends_write false ∷ []

silent_after_error_example : (run (ends_write true ∷ afterwards) busy).1 ≡ []
silent_after_error_example = silent_after_error afterwards busy (content second) refl refl

on_read-total_example : on_read sample (some (1 ∷ 2 ∷ 3 ∷ [])) (new_session 1) ≢ out_of_fuel
on_read-total_example =
    on_read-total sample (some (1 ∷ 2 ∷ 3 ∷ [])) (new_session 1) (make-IsValid 4096)

abbrev bytes : Bytes
bytes =
    frame sample (sent_header sample limit request hello hello request-Sendable) sample_name
      (zipped sample limit request hello hello request-Sendable).1

abbrev carried : Bytes × Package Bytes
carried = (bytes, received sample request hello hello)

carried-Frame : Frame sample carried
carried-Frame =
    wire-Frame sample sample-IsLawful limit request hello [] hello request-Sendable sample-Known
      (omega arith) small_enough

sent-Frame_example :
    (q : Package Bytes) × (out' : Buffer) × (encode sample limit request (make 4)
      ≡ ok (true, q, out'))
    × Frame sample (content out', received sample request hello hello)
sent-Frame_example =
    sent-Frame sample sample-IsLawful limit request hello [] hello (make 4) request-Sendable
      sample-Known (omega arith) small_enough (make-IsValid 4) (content-make 4)

-- Two packages in three pieces, none of which ends where a package does.
abbrev pieces : List Bytes
pieces = take 7 bytes ∷ (drop 7 bytes ++ take 21 bytes) ∷ drop 21 bytes ∷ []

pieces_right : join sample pieces ≡ concat sample (carried ∷ carried ∷ [])
pieces_right =
    ap (λ (t : Bytes). take 7 bytes ++ t)
      (append_assoc (drop 7 bytes) (take 21 bytes) (drop 21 bytes ++ [])
        ∙ ap (λ (t : Bytes). drop 7 bytes ++ t)
            (sym (append_assoc (take 21 bytes) (drop 21 bytes) [])
              ∙ ap (λ (t : Bytes). t ++ []) (take-append-drop 21 bytes)))
    ∙ sym (append_assoc (take 7 bytes) (drop 7 bytes) (bytes ++ []))
    ∙ ap (λ (t : Bytes). t ++ (bytes ++ [])) (take-append-drop 7 bytes)

any_pieces_example :
    (s' : Session) × (feed sample pieces (new_session 1)
      ≡ ok (packages sample (carried ∷ carried ∷ []), s'))
any_pieces_example =
    any_pieces sample pieces (carried ∷ carried ∷ []) (new_session 1)
      (carried-Frame, (carried-Frame, tt)) (make-IsValid 4096) (content-make 4096) pieces_right
