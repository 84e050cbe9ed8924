-- ===== src/Session/Writing.antt =====
-- asio/internal/Session.cpp, `writeBuffer` and `doWrite`: the order in which a session's buffers
-- reach the socket.
use asio.Prelude.{
  if◌then◌else◌, ◌&&◌, ◌||◌, ◌≡◌, ◌≢◌, refl, sym, ap, ◌∙◌, Bool, true, false, List, [], ◌∷◌, ◌++◌,
  Option, none, some, Bytes, arith, map, append-nil, append_assoc,
}
use mathlib.Core.List.{map-append}
use mathlib.Core.Path.{subst}
use asio.Buffer.{Buffer, content}
use asio.Session.{Session, do_write, run_posted, write_front}

-- What may happen: a method posts a buffer, the io_service runs the next posted handler, or the
-- write under way ends, with or without an error.
pub data Event : Type 0 where
  posts : Buffer → Event
  runs_posted : Event
  ends_write : Bool → Event

abbrev ended : Bool → Session → Option Bytes → Session × List Bytes
ended error s none = (s, [])
ended error s (some d) = (do_write error s, if error then [] else d ∷ [])

-- The session after the event, and what was written by a write that ended in it.
unfoldable pub step : Event → Session → Session × List Bytes
step (posts b) s = (record s { posted = s.posted ++ (b ∷ []) }, [])
step runs_posted s = (run_posted s, [])
step (ends_write error) s = ended error s s.in_flight

unfoldable pub run : List Event → Session → Session × List Bytes
run [] s = (s, [])
run (e ∷ es) s = let (s', out) = step e s in let (s'', outs) = run es s' in (s'', out ++ outs)

abbrev pub posts_of : List Event → List Buffer
posts_of [] = []
posts_of (posts b ∷ es) = b ∷ posts_of es
posts_of (runs_posted ∷ es) = posts_of es
posts_of (ends_write error ∷ es) = posts_of es

-- The buffers that are still to be written, in the order in which they will be.
abbrev pub pending : Session → List Bytes
pending s = map content (s.write_deque ++ s.posted)

posts_split :
    (e : Event) (es : List Event)
    → map content (posts_of (e ∷ [])) ++ map content (posts_of es) ≡ map content (posts_of (e ∷ es))
posts_split (posts b) es = refl
posts_split runs_posted es = refl
posts_split (ends_write error) es = refl

abbrev pub is_some : {A : Type 0} → Option A → Bool
is_some none = false
is_some (some a) = true

-- Whether a write that was under way failed in an event, and in some events.
abbrev pub fails : Event → Session → Bool
fails (posts b) s = false
fails runs_posted s = false
fails (ends_write error) s = error && is_some s.in_flight

unfoldable pub failed : List Event → Session → Bool
failed [] s = false
failed (e ∷ es) s = fails e s || failed es (step e s).0

-- As long as no write has failed, the front of the deque is being written, and nothing is only where it
-- is empty. Once one has failed nothing is under way, and the deque is not empty.
abbrev pub IsWriting : Bool → Session → Type 0
IsWriting false s = s.in_flight ≡ write_front s.write_deque
IsWriting true s = (s.in_flight ≡ none) × (s.write_deque ≢ [])

-- A session whose write queue is spelled out.
abbrev at : Session → List Buffer → List Buffer → Option Bytes → Session
at s dq ps fl = record s { write_deque = dq; posted = ps; in_flight = fl }

run_posted-IsWriting :
    (f : Bool) (dq ps : List Buffer) (fl : Option Bytes) (s : Session)
    → IsWriting f (at s dq ps fl)
    → IsWriting f (run_posted (at s dq ps fl))
      × (pending (run_posted (at s dq ps fl)) ≡ map content (dq ++ ps))
unfolding run_posted
run_posted-IsWriting f dq [] fl s w = (w, refl)
run_posted-IsWriting false [] (b ∷ ps) fl s w = (refl, refl)
run_posted-IsWriting true [] (b ∷ ps) fl s w = absurd (w.1 refl)
run_posted-IsWriting false (h ∷ dq) (b ∷ ps) fl s e =
    (e, ap (map content) (append_assoc (h ∷ dq) (b ∷ []) ps))
run_posted-IsWriting true (h ∷ dq) (b ∷ ps) fl s (e, n) =
    ((e, λ x. cc), ap (map content) (append_assoc (h ∷ dq) (b ∷ []) ps))

ended-IsWriting :
    (f error : Bool) (dq ps : List Buffer) (fl : Option Bytes) (s : Session)
    → IsWriting f (at s dq ps fl)
    → let r = ended error (at s dq ps fl) fl in
      IsWriting (f || error && is_some fl) r.0 × (r.1 ++ pending r.0 ≡ map content (dq ++ ps))
unfolding do_write
ended-IsWriting false true dq ps none s w = (w, refl)
ended-IsWriting false false dq ps none s w = (w, refl)
ended-IsWriting true error dq ps none s w = (w, refl)
ended-IsWriting true error dq ps (some d) s (e, n) = cc
ended-IsWriting false error [] ps (some d) s e = cc
ended-IsWriting false true (h ∷ dq) ps (some d) s w = ((refl, λ x. cc), refl)
ended-IsWriting false false (h ∷ dq) ps (some d) s e = (refl, ground arith)

or_false : (b : Bool) → (b || false) ≡ b
or_false true = refl
or_false false = refl

or_assoc : (a b c : Bool) → ((a || b) || c) ≡ (a || (b || c))
or_assoc true b c = refl
or_assoc false b c = refl

step-IsWriting :
    (f : Bool) (e : Event) (s : Session)
    → IsWriting f s
    → IsWriting (f || fails e s) (step e s).0
      × ((step e s).1 ++ pending (step e s).0 ≡ pending s ++ map content (posts_of (e ∷ [])))
unfolding step
step-IsWriting f (posts b) s w = (
  subst (λ g. IsWriting g (record s { posted = s.posted ++ (b ∷ []) })) (sym (or_false f))
      (reposted f s w),
  ap (map content) (sym (append_assoc s.write_deque s.posted (b ∷ [])))
      ∙ map-append content (s.write_deque ++ s.posted) (b ∷ []),
)
  where
    reposted :
        (f : Bool) (s : Session)
        → IsWriting f s
        → IsWriting f (record s { posted = s.posted ++ (b ∷ []) })
    reposted true s w = w
    reposted false s w = w
step-IsWriting f runs_posted s w =
    let r = run_posted-IsWriting f s.write_deque s.posted s.in_flight s w in
    (
      subst (λ g. IsWriting g (run_posted s)) (sym (or_false f)) r.0,
      r.1 ∙ sym (append-nil (pending s)),
    )
step-IsWriting f (ends_write error) s w =
    let r = ended-IsWriting f error s.write_deque s.posted s.in_flight s w in
    (r.0, r.1 ∙ sym (append-nil (pending s)))

-- Where a write may have failed before (`f`), in any sequence of events.
run-IsWriting :
    (f : Bool) (es : List Event) (s : Session)
    → IsWriting f s
    → IsWriting (f || failed es s) (run es s).0
      × ((run es s).1 ++ pending (run es s).0 ≡ pending s ++ map content (posts_of es))
unfolding run failed
run-IsWriting f [] s w =
    (subst (λ g. IsWriting g s) (sym (or_false f)) w, sym (append-nil (pending s)))
run-IsWriting f (e ∷ es) s w =
    let h = step-IsWriting f e s w in
    let r = run-IsWriting (f || fails e s) es (step e s).0 h.0 in
    (
      subst (λ g. IsWriting g (run es (step e s).0).0)
          (or_assoc f (fails e s) (failed es (step e s).0)) r.0,
      append_assoc (step e s).1 _ _
          ∙ ap (λ (t : List Bytes). (step e s).1 ++ t) r.1
          ∙ sym (append_assoc (step e s).1 _ _)
          ∙ ap (λ (t : List Bytes). t ++ map content (posts_of es)) h.1
          ∙ append_assoc (pending s) _ _
          ∙ ap (λ (t : List Bytes). pending s ++ t) (posts_split e es),
    )

-- However the handlers and the ends of writes interleave with the posts, from a session that is writing
-- the front of its deque on: what was written, followed by what is still in the deque and posted, is
-- what was outstanding at the start, followed by every buffer posted since, in the order of the posts.
-- So writes are never reordered, mixed, repeated or lost. As long as no write has failed the front of
-- the deque is being written, so none stalls; once one has, no write is under way, and the deque still
-- holds what was not written.
pub written_in_order :
    (es : List Event) (s : Session)
    → IsWriting false s
    → IsWriting (failed es s) (run es s).0
      × ((run es s).1 ++ pending (run es s).0 ≡ pending s ++ map content (posts_of es))
written_in_order es s w = run-IsWriting false es s w

stalled_step :
    (x : Event) (dq ps : List Buffer) (fl : Option Bytes) (s : Session)
    → fl ≡ none
    → dq ≢ []
    → let r = step x (at s dq ps fl) in (r.0.in_flight ≡ none) × (r.0.write_deque ≢ []) × (r.1 ≡ [])
unfolding step run_posted
stalled_step (posts b) dq ps fl s e n = (e, n, refl)
stalled_step runs_posted dq [] fl s e n = (e, n, refl)
stalled_step runs_posted [] (b ∷ ps) fl s e n = absurd (n refl)
stalled_step runs_posted (f ∷ dq) (b ∷ ps) fl s e n = (e, λ x. cc, refl)
stalled_step (ends_write error) dq ps none s e n = (refl, n, refl)
stalled_step (ends_write error) dq ps (some d) s e n = cc

stalled_run :
    (es : List Event) (s : Session) → s.in_flight ≡ none → s.write_deque ≢ [] → (run es s).1 ≡ []
unfolding run
stalled_run [] s e n = refl
stalled_run (x ∷ es) s e n =
    let h = stalled_step x s.write_deque s.posted s.in_flight s e n in
    rw h.2 (stalled_run es (step x s).0 h.0 h.1)

-- When the write under way of a session that writes the front of its deque fails, nothing is written
-- from then on, by the write that fails or by a later one, whatever is posted, whichever handlers run
-- and whatever ends.
pub silent_after_error :
    (es : List Event) (s : Session) (d : Bytes)
    → IsWriting false s
    → s.in_flight ≡ some d
    → (run (ends_write true ∷ es) s).1 ≡ []
unfolding run step do_write
silent_after_error es s d w e = failing s.write_deque s.in_flight s w e
  where
    failing :
        (dq : List Buffer) (fl : Option Bytes) (s : Session)
        → fl ≡ write_front dq
        → fl ≡ some d
        → let r = ended true (at s dq s.posted fl) fl in (r.1 ++ (run es r.0).1) ≡ []
    failing [] fl s w e = cc
    failing (h ∷ dq) none s w e = cc
    failing (h ∷ dq) (some x) s w e =
        stalled_run es (do_write true (at s (h ∷ dq) s.posted (some x))) refl (λ q. cc)
