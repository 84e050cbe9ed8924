-- ===== src/AsioClient/Waiting.antt =====
-- asio/internal/AsioClient.cpp, class AsioClient: the calls that wait, `waitConnected` and
-- `sendMessage`.
use asio.Prelude.{
  ◌-◌, ◌/◌, ◌%◌, ◌^◌, ℕ, zero, suc, ◌+◌, ◌*◌, ◌≤◌, ◌<◌, ◌≡◌, ◌⊎◌, refl, ap, ◌∙◌, Bool, true, false,
  not, ◌&&◌, List, [], ◌∷◌, Option, none, some, ltb, ltb→lt, if◌then◌else◌, Exec, ok, out_of_fuel,
  arith, inl, inr, Bool-cases, skip, chosen, ==_iff, ◌==◌, nat_key,
}
use asio.Prelude.Int.{ℤ, pos, negsuc, pos_part}
use asio.Prelude.Words.{increment, rem_int_max, signed32}
use asio.Package.{Package, ErrorCode, success}
use asio.Platform.{Platform}
use asio.RequestMessage.{Answer}
use asio.RequestMessage.Answers.{
  answered_once, Event, run, AllSpare, first_said, answers_to, answered,
}
use asio.AsioClient.{Client, Callback, post_message}
use asio.AsioClient.Requests.{next_request, answers_code, post_message-waits}

-- The loop of `waitConnected`: `online k` is what the test of round `k` reads of `isOnline_`. The
-- result is what the return reads, and `cost`.
unfoldable pub wait_loop : ℕ → (ℕ → Bool) → ℕ → ℕ → ℕ → Exec (Bool × ℕ)
wait_loop zero online limit k cost = out_of_fuel
wait_loop (suc fuel) online limit k cost =
    let rest = wait_loop fuel online limit (suc k) (cost + 100) in
    if not (online k) && ltb cost limit then rest else ok (online (suc k), cost)

-- `timeoutSeconds * 1000` as an `int`, which wraps around.
abbrev pub milliseconds : ℤ → ℤ
milliseconds (pos n) = signed32 (n * 1000 % 2 ^ 32)
milliseconds (negsuc n) = signed32 ((2 ^ 32 - suc n * 1000 % 2 ^ 32) % 2 ^ 32)

-- `waitConnected`, with the seconds. Each round sleeps for 100 milliseconds.
unfoldable pub wait_connected : (ℕ → Bool) → ℤ → Exec (Bool × ℕ)
unfolding wait_loop
wait_connected online seconds =
    let limit = pos_part (milliseconds seconds) in
    wait_loop (suc (suc (limit / 100))) online limit 0 0

-- The milliseconds fit into an `int`.
abbrev pub FitsInt : ℤ → Type 0
FitsInt (pos n) = n * 1000 < 2 ^ 31
FitsInt (negsuc n) = suc n * 1000 ≤ 2 ^ 31

milliseconds_lem :
    (seconds : ℤ) → FitsInt seconds → pos_part (milliseconds seconds) ≡ pos_part seconds * 1000
milliseconds_lem (pos n) f = ground (arith, f)
milliseconds_lem (negsuc n) f = ground (arith, f)

-- The round in which the wait ends, counted from one on.
record Ends (online : ℕ → Bool) (limit k : ℕ) (r : Exec (Bool × ℕ)) : Type 0 where
  last : ℕ
  from : k ≤ last
  inside : last ≤ limit
  before : (j : ℕ) → k ≤ j → j < last → online j ≡ false
  why : (online last ≡ true) ⊎ (last ≡ limit)
  returns : r ≡ ok (online (suc last), last * 100)

stopped : (on : Bool) (c limit : ℕ) → (not on && ltb c limit) ≡ false → (on ≡ true) ⊎ (limit ≤ c)
stopped true c limit e = inl refl
stopped false c limit e = inr (ground (arith, e))

going_on : (on : Bool) (c limit : ℕ) → (not on && ltb c limit) ≡ true → (on ≡ false) × (c < limit)
going_on true c limit e = cc
going_on false c limit e = (refl, ltb→lt c limit e)

at_limit :
    (limit k : ℕ) (on : Bool)
    → k ≤ limit
    → (on ≡ true) ⊎ (limit * 100 ≤ k * 100)
    → (on ≡ true) ⊎ (k ≡ limit)
at_limit limit k on h (inl e) = inl e
at_limit limit k on h (inr e) = inr (omega arith)

wait_loop-Ends :
    (fuel : ℕ) (online : ℕ → Bool) (limit k : ℕ)
    → k ≤ limit
    → limit < fuel + k
    → Ends online limit k (wait_loop fuel online (limit * 100) k (k * 100))
unfolding wait_loop
wait_loop-Ends zero online limit k h enough = absurd (omega arith)
wait_loop-Ends (suc fuel) online limit k h enough =
    elim (Bool-cases (not (online k) && ltb (k * 100) (limit * 100))) [
      | inr stop ↦ record {
        last = k;
        from = omega arith;
        inside = h;
        before = λ j p q. absurd (omega arith);
        why = at_limit limit k (online k) h (stopped (online k) (k * 100) (limit * 100) stop);
        returns = skip (not (online k) && ltb (k * 100) (limit * 100)) _ _ stop;
      }
      | inl more ↦
          let g = going_on (online k) (k * 100) (limit * 100) more in
          let r = wait_loop-Ends fuel online limit (suc k) (omega (arith, g.1)) (omega arith) in
          record {
            last = r.last;
            from = omega (arith, r.from);
            inside = r.inside;
            before = λ j p q. elim (Bool-cases (j == k)) [
              | inl here ↦ ap online ((==_iff j k).0 here) ∙ g.0
              | inr there ↦ r.before j (ground (arith, there, p)) q
            ];
            why = r.why;
            returns =
                chosen (not (online k) && ltb (k * 100) (limit * 100)) _ _ more
                ∙ ap (wait_loop fuel online (limit * 100) (suc k))
                    (let e : k * 100 + 100 ≡ suc k * 100 = omega arith in e)
                ∙ r.returns;
          }
    ]

-- `waitConnected` ends, after at most the given seconds by its own count, which is 100 milliseconds for
-- each round: it ends in the first round whose test finds the client online, or when the seconds are
-- over, and returns what `isOnline_` is then. With a negative number of seconds it does not wait. The
-- seconds are an `int` of which the milliseconds fit into an `int`.
pub wait_connected-ends :
    (online : ℕ → Bool) (seconds : ℤ)
    → FitsInt seconds
    → (last : ℕ) × (wait_connected online seconds ≡ ok (online (suc last), last * 100))
      × (last * 100 ≤ pos_part seconds * 1000)
      × ((j : ℕ) → j < last → online j ≡ false)
      × ((online last ≡ true) ⊎ (last * 100 ≡ pos_part seconds * 1000))
unfolding wait_connected
wait_connected-ends online seconds fits =
    let limit = pos_part seconds * 10 in
    let ms : pos_part (milliseconds seconds) ≡ limit * 100 =
      omega (arith, milliseconds_lem seconds fits) in
    let r =
      wait_loop-Ends (suc (suc (limit * 100 / 100))) online limit 0 (omega arith) (omega arith) in
    (
      r.last,
      ap (λ n. wait_loop (suc (suc (n / 100))) online n 0 0) ms ∙ r.returns,
      omega (arith, r.inside),
      (λ j q. r.before j (omega arith) q),
      over r.last r.why,
    )
  where
    over :
        (last : ℕ)
        → (online last ≡ true) ⊎ (last ≡ pos_part seconds * 10)
        → (online last ≡ true) ⊎ (last * 100 ≡ pos_part seconds * 1000)
    over last (inl e) = inl e
    over last (inr e) = inr (omega arith)

-- What the callback of `sendMessage` stores: the error, and the response's message where there is no
-- error (`rspPtr` is left as it was otherwise).
abbrev pub message_of : {M : Type 0} → Option (Package M) → Option M
message_of none = none
message_of (some p) = p.msg_ptr

abbrev pub stored : {M R : Type 0} → Answer M R → ErrorCode × Option M
stored a = (a.error, elim a.error [ success ↦ message_of a.response | _ ↦ none ])

-- What `sendMessage` has returned when its callback has been called with these answers: nothing yet
-- without one, as it waits on the condition variable for its callback.
abbrev pub first_stored : {M R : Type 0} → List (Answer M R) → Option (ErrorCode × Option M)
first_stored [] = none
first_stored (a ∷ rest) = some (stored a)

unfoldable pub send_returned :
    {M R : Type 0} → ErrorCode → List (Answer M R) → Option (ErrorCode × Option M)
send_returned success answers = first_stored answers
send_returned code answers = some (code, none)

-- What a first response or timeout makes it return.
abbrev pub said_returns :
    {M : Type 0} → Option (ErrorCode × Option (Package M)) → Option (ErrorCode × Option M)
said_returns none = none
said_returns (some (success, p)) = some (success, message_of p)
said_returns (some (error, p)) = some (error, none)

abbrev pub returned :
    {M : Type 0}
    → ErrorCode
    → Option (ErrorCode × Option (Package M))
    → Option (ErrorCode × Option M)
returned success said = said_returns said
returned code said = some (code, none)

stored-said :
    {M R : Type 0} (i : ℕ) (h : Package M × R) (e : ErrorCode) (p : Option (Package M))
    → first_stored (answered i (some h) (some (e, p))) ≡ said_returns (some (e, p))
unfolding answered
stored-said i h success p = refl
stored-said i h e p = refl

answered-returned :
    {M R : Type 0} (i : ℕ) (h : Package M × R) (code : ErrorCode)
    (said : Option (ErrorCode × Option (Package M)))
    → send_returned code (answered i (some h) said) ≡ returned code said
unfolding send_returned answered
answered-returned i h success none = refl
answered-returned i h success (some (e, p)) = stored-said i h e p
answered-returned i h code said = refl

module _ (env : Platform) {R D F : Type 0} where
  -- `sendMessage`: it posts the message with its callback. Then whatever happens to the cache, it has
  -- returned by what its callback was called with.
  unfoldable pub send_message :
      env.Message
      → Callback R
      → ℕ
      → ℕ
      → List (Event env.Message (Callback R))
      → Client env.Message R D F
      → Option (ErrorCode × Option env.Message)
  unfolding send_returned run answers_to
  send_message m r ms now es c =
      let (code, c') = post_message env false m r ms now c in
      send_returned code (answers_to (rem_int_max (increment c.last_id)) (run es c'.cache).0)

  -- `sendMessage` returns at once the error of a message that is not posted. Else it returns exactly
  -- when the first response or timeout under the message's id comes: with the message of the
  -- response, or with the timeout; as long as neither comes it waits. The condition is that no later
  -- request is put under the id.
  pub send_message-returns :
      (m : env.Message) (r : Callback R) (ms now : ℕ) (es : List (Event env.Message (Callback R)))
      (c : Client env.Message R D F)
      → AllSpare (rem_int_max (increment c.last_id)) es
      → send_message m r ms now es c
        ≡ returned (answers_code env c) (first_said (rem_int_max (increment c.last_id)) es)
  unfolding send_message
  send_message-returns m r ms now es c spare =
      let i = rem_int_max (increment c.last_id) in
      let w = post_message-waits env false m r ms now c in
      let cache = (post_message env false m r ms now c).1.cache in
      let a = (answered_once i es cache spare).0 ∙ ap (λ h. answered i h (first_said i es)) w.2 in
      ap (λ code. send_returned code (answers_to i (run es cache).0)) w.0
      ∙ ap (send_returned (answers_code env c)) a
      ∙ answered-returned i (next_request env false m c, r) (answers_code env c) (first_said i es)
