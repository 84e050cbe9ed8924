-- ===== src/RequestMessage/Answers.antt =====
-- asio/internal/AsioClient.cpp, class RequestMessage: each request is answered once.
use asio.Prelude.{
  ℕ, ◌≡◌, refl, sym, ap, ◌∙◌, Bool, true, false, not, List, [], ◌∷◌, ◌++◌, Option, none, some, ◌==◌,
  ==_iff, if◌then◌else◌, nat_key, arith, Option-cases, inl, inr,
}
use asio.Prelude.Assoc.{find, find-assign, find-erase}
use asio.Package.{Package, ErrorCode, success, timeout}
use asio.RequestMessage.{
  Request, Cache, Answer, put, start_timer, pick, answer, on_timeout, on_response,
}

-- What happens to the cache, at a time.
pub data Event (M R : Type 0) : Type 0 where
  puts : Package M → R → ℕ → ℕ → Event M R
  starts_timer : ℕ → ℕ → Event M R
  times_out : ℕ → ℕ → Event M R
  responds : Package M → ℕ → Event M R

abbrev pub or_else {ℓ} : {A : Type ℓ} → Option A → Option A → Option A
or_else none y = y
or_else (some x) y = some x

module _ {M R : Type 0} where
  unfoldable pub step : Event M R → Cache M R → List (Answer M R) × Cache M R
  step (puts p r ms now) cache = ([], put p r ms now cache)
  step (starts_timer i now) cache = ([], start_timer i now cache)
  step (times_out i now) cache = on_timeout i now cache
  step (responds pack now) cache = on_response pack now cache

  unfoldable pub run : List (Event M R) → Cache M R → List (Answer M R) × Cache M R
  run [] cache = ([], cache)
  run (e ∷ es) cache =
      let (out, cache') = step e cache in
      let (outs, cache'') = run es cache' in (out ++ outs, cache'')

  -- The answers under an id.
  unfoldable pub answers_to : ℕ → List (Answer M R) → List (Answer M R)
  answers_to i [] = []
  answers_to i (a ∷ xs) = if a.msg_id == i then a ∷ answers_to i xs else answers_to i xs

  -- Whether no event puts a request under an id.
  abbrev pub spares : ℕ → Event M R → Bool
  spares i (puts p r ms now) = not (p.header.msg_id == i)
  spares i (starts_timer j now) = true
  spares i (times_out j now) = true
  spares i (responds pack now) = true

  unfoldable pub AllSpare : ℕ → List (Event M R) → Type 0
  AllSpare i [] = Unit {0}
  AllSpare i (e ∷ es) = (spares i e ≡ true) × AllSpare i es

  -- What an event says to the request under an id: the error and the response.
  abbrev pub says : ℕ → Event M R → Option (ErrorCode × Option (Package M))
  says i (puts p r ms now) = none
  says i (starts_timer j now) = none
  says i (times_out j now) = if j == i then some (timeout, none) else none
  says i (responds pack now) = if pack.header.msg_id == i then some (success, some pack) else none

  -- The first that the events say.
  unfoldable pub first_said : ℕ → List (Event M R) → Option (ErrorCode × Option (Package M))
  first_said i [] = none
  first_said i (e ∷ es) = or_else (says i e) (first_said i es)

  -- The waiting request: its package and its callback.
  abbrev pub waiting : Option (Request M R) → Option (Package M × R)
  waiting none = none
  waiting (some q) = some (q.pac, q.res)

  abbrev pub held : ℕ → Cache M R → Option (Package M × R)
  held i cache = waiting (find i cache)

  -- The answers that a waiting request gets.
  unfoldable pub answered :
      ℕ → Option (Package M × R) → Option (ErrorCode × Option (Package M)) → List (Answer M R)
  answered i none said = []
  answered i (some h) none = []
  answered i (some h) (some s) =
      record { msg_id = i; res = h.1; error = s.0; request = h.0; response = s.1 } ∷ []

  unfoldable pub left :
      Option (ErrorCode × Option (Package M)) → Option (Package M × R) → Option (Package M × R)
  left none h = h
  left (some s) h = none

  answers_to-append :
      (i : ℕ) (xs ys : List (Answer M R))
      → answers_to i (xs ++ ys) ≡ answers_to i xs ++ answers_to i ys
  unfolding answers_to
  answers_to-append i [] ys = refl
  answers_to-append i (x ∷ xs) ys = ground (arith, answers_to-append i xs ys)

  answered-left :
      (i : ℕ) (h : Option (Package M × R)) (a b : Option (ErrorCode × Option (Package M)))
      → answered i h a ++ answered i (left a h) b ≡ answered i h (or_else a b)
  unfolding answered left
  answered-left i none none b = refl
  answered-left i none (some s) b = refl
  answered-left i (some h) none b = refl
  answered-left i (some h) (some s) b = refl

  left-left :
      (a b : Option (ErrorCode × Option (Package M))) (h : Option (Package M × R))
      → left b (left a h) ≡ left (or_else a b) h
  unfolding left
  left-left none b h = refl
  left-left (some s) none h = refl
  left-left (some s) (some t) h = refl

  both : {xs xs' ys ys' : List (Answer M R)} → xs ≡ xs' → ys ≡ ys' → xs ++ ys ≡ xs' ++ ys'
  both e e' = rw (e, e') refl

  answered-nothing : (i : ℕ) (h : Option (Package M × R)) → answered i h none ≡ []
  unfolding answered
  answered-nothing i none = refl
  answered-nothing i (some h) = refl

  not_found :
      (b : Bool) (x y : Option (Request M R))
      → not b ≡ true
      → waiting (if b then x else y) ≡ left none (waiting y)
  unfolding left
  not_found true x y s = cc
  not_found false x y s = refl

  was_found :
      (b : Bool) (q : Request M R) (y : Option (Request M R))
      → b ≡ true
      → waiting (if b then some q else y) ≡ some (q.pac, q.res)
  was_found true q y s = refl
  was_found false q y s = cc

  -- A pick under an id, with what its caller says.
  pick-answers :
      (i j now : ℕ) (e : ErrorCode) (response : Option (Package M)) (cache : Cache M R)
      → answers_to i (answer j e response (pick j now cache).0)
        ≡ answered i (held i cache) (if j == i then some (e, response) else none)
  unfolding answers_to answered pick
  pick-answers i j now e response cache = elim (Option-cases (find j cache)) [
    | inl h ↦ ground arith
    | inr (q, h) ↦ ground arith
  ]

  pick-held :
      (i j now : ℕ) (e : ErrorCode) (response : Option (Package M)) (cache : Cache M R)
      → held i (pick j now cache).1
        ≡ left (if j == i then some (e, response) else none) (held i cache)
  unfolding left pick
  pick-held i j now e response cache = elim (Option-cases (find j cache)) [
    | inl h ↦ ground (arith, find-erase j i cache)
    | inr (q, h) ↦ ground (arith, find-erase j i cache)
  ]

  pub start_timer-held :
      (i j now : ℕ) (cache : Cache M R) → held i (start_timer j now cache) ≡ held i cache
  unfolding start_timer
  start_timer-held i j now cache = elim (Option-cases (find j cache)) [
    | inl h ↦ rw h refl
    | inr (q, h) ↦
        ground
          (arith, find-assign j i (record q { write_finished_time = now; is_timed = true }) cache)
  ]

  pub held-put :
      (p : Package M) (r : R) (ms now : ℕ) (cache : Cache M R)
      → held p.header.msg_id (put p r ms now cache) ≡ some (p, r)
  unfolding put
  held-put p r ms now cache =
      ap waiting (find-assign p.header.msg_id p.header.msg_id _ cache)
      ∙ was_found (p.header.msg_id == p.header.msg_id) _ (find p.header.msg_id cache)
          ((==_iff p.header.msg_id p.header.msg_id).1 refl)

  step-answers :
      (i : ℕ) (e : Event M R) (cache : Cache M R)
      → answers_to i (step e cache).0 ≡ answered i (held i cache) (says i e)
  unfolding step on_timeout on_response answers_to
  step-answers i (puts p r ms now) cache = sym (answered-nothing i (held i cache))
  step-answers i (starts_timer j now) cache = sym (answered-nothing i (held i cache))
  step-answers i (times_out j now) cache = pick-answers i j now timeout none cache
  step-answers i (responds pack now) cache =
      pick-answers i pack.header.msg_id now success (some pack) cache

  step-held :
      (i : ℕ) (e : Event M R) (cache : Cache M R)
      → spares i e ≡ true
      → held i (step e cache).1 ≡ left (says i e) (held i cache)
  unfolding step on_timeout on_response put left
  step-held i (puts p r ms now) cache s =
      ap waiting (find-assign p.header.msg_id i _ cache)
      ∙ not_found (p.header.msg_id == i) _ (find i cache) s
  step-held i (starts_timer j now) cache s = start_timer-held i j now cache
  step-held i (times_out j now) cache s = pick-held i j now timeout none cache
  step-held i (responds pack now) cache s =
      pick-held i pack.header.msg_id now success (some pack) cache

  -- Over any run of calls that puts no request under an id, the request that waits there is answered
  -- exactly once, by the first response or timeout under the id, with its own package and callback,
  -- however often such a response or timeout comes; with no request there, or none of them, nothing
  -- is called. Then nothing waits there, and else the request still waits.
  pub answered_once :
      (i : ℕ) (es : List (Event M R)) (cache : Cache M R)
      → AllSpare i es
      → (answers_to i (run es cache).0 ≡ answered i (held i cache) (first_said i es))
        × (held i (run es cache).1 ≡ left (first_said i es) (held i cache))
  unfolding run first_said AllSpare left answers_to
  answered_once i [] cache s = (sym (answered-nothing i (held i cache)), refl)
  answered_once i (e ∷ es) cache (s, ss) =
      let rest = answered_once i es (step e cache).1 ss in
      let now = step-held i e cache s in
      (
        answers_to-append i (step e cache).0 (run es (step e cache).1).0
            ∙ both (step-answers i e cache) (rest.0 ∙ ap (λ h. answered i h (first_said i es)) now)
            ∙ answered-left i (held i cache) (says i e) (first_said i es),
        rest.1
            ∙ ap (left (first_said i es)) now
            ∙ left-left (says i e) (first_said i es) (held i cache),
      )

  -- A request that is put is answered exactly once by the first response or timeout under its id
  -- that follows, as long as no other request is put under that id.
  pub put-answered :
      (p : Package M) (r : R) (ms now : ℕ) (es : List (Event M R)) (cache : Cache M R)
      → AllSpare p.header.msg_id es
      → answers_to p.header.msg_id (run (puts p r ms now ∷ es) cache).0
        ≡ answered p.header.msg_id (some (p, r)) (first_said p.header.msg_id es)
  unfolding run step put
  put-answered p r ms now es cache s =
      let i = p.header.msg_id in
      (answered_once i es (put p r ms now cache) s).0
      ∙ ap (λ h. answered i h (first_said i es)) (held-put p r ms now cache)
