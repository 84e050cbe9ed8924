-- ===== src/AsioClient/Requests.antt =====
-- asio/internal/AsioClient.cpp, class AsioClient: what becomes of a message that is posted.
use asio.Prelude.{
  skip, chosen, if-same, ℕ, ◌+◌, ◌≤◌, ◌<◌, ◌≡◌, refl, ap, ◌∙◌, Bool, false, not, List, [], ◌∷◌,
  ◌++◌, Option, none, some, ◌==◌, ==_iff, if◌then◌else◌, arith, nat_key, length,
}
use asio.Prelude.Assoc.{find, find-assign}
use asio.Prelude.Words.{increment, rem_int_max, int_max}
use asio.Package.{Package, reqrep, ErrorCode, success, service_stopped, disconnect}
use asio.Platform.{Platform}
use asio.RequestMessage.{Answer, Request, answer, picked, pick, Cache, put, on_response}
use asio.RequestMessage.Answers.{held, waiting, held-put}
use asio.Handler.{Effect}
use asio.AsioClient.{
  Client, Callback, Task, start_writes, outgoing, post_package, post_message, do_response,
}

-- Messages posted one after the other.
pub record Posting (M R : Type 0) : Type 0 where
  pub is_order : Bool
  pub message : M
  pub callback : Callback R
  pub ms : ℕ
  pub now : ℕ

next_id : (w : ℕ) → w + 1 < int_max → rem_int_max (increment w) ≡ w + 1
unfolding rem_int_max
next_id w h = ground arith

increment_below : (w : ℕ) → w < int_max → increment w ≡ w + 1
increment_below w h = omega arith

picked-held :
    {M R : Type 0} (f : Option (Request M R)) (i now : ℕ) (p : Package M) (r : R) (e : ErrorCode)
    (response : Option (Package M)) (cache : Cache M R)
    → waiting f ≡ some (p, r)
    → answer i e response (picked i now f cache).0
      ≡ record { msg_id = i; res = r; error = e; request = p; response = response } ∷ []
picked-held none i now p r e response cache h = cc
picked-held (some q) i now p r e response cache h = cc

abbrev Answers : (env : Platform) → Type 0 → Type 0 → Type 0 → Type 0
Answers env R D F =
    List (Answer env.Message (Callback R))
    × List (Effect env.Message D F)
    × Client env.Message R D F

==-false : (a b : ℕ) → (a ≡ b → ⊥) → (a == b) ≡ false
==-false a b n = ground (arith, n)

held-put_other :
    {M R : Type 0} (i : ℕ) (p : Package M) (r : R) (ms now : ℕ) (cache : Cache M R)
    → (p.header.msg_id ≡ i → ⊥)
    → held i (put p r ms now cache) ≡ held i cache
unfolding put
held-put_other i p r ms now cache n = ap waiting (
    find-assign p.header.msg_id i _ cache
    ∙ skip (p.header.msg_id == i) _ _ (==-false p.header.msg_id i n))

module _ (env : Platform) {R D F : Type 0} where
  -- The package of the next message that a client posts.
  abbrev pub next_request : Bool → env.Message → Client env.Message R D F → Package env.Message
  next_request o m c = outgoing env reqrep (increment c.last_id) (if o then 1 else 0) m

  -- What `postPackage` answers, and the tasks that it leaves.
  abbrev pub answers_code : Client env.Message R D F → ErrorCode
  answers_code c =
      if c.is_stopped then service_stopped else if c.is_online then success else disconnect

  abbrev pub queued : Package env.Message → Client env.Message R D F → List (Task env.Message)
  queued p c =
      if c.is_stopped
      then c.tasks
      else if c.is_online
      then c.tasks ++ (start_writes p ∷ [])
      else c.tasks

  cache-post_package :
      (p : Package env.Message) (c : Client env.Message R D F)
      → (post_package (some p) c).1.cache ≡ c.cache
  unfolding post_package
  cache-post_package p c =
      let pick = λ (x : ErrorCode × Client env.Message R D F). x.1.cache in
      if-same pick c.is_stopped _ _ _ refl (if-same pick (not c.is_online) _ _ _ refl refl)

  cache-post_message :
      (o : Bool) (m : env.Message) (r : Callback R) (ms now : ℕ) (c : Client env.Message R D F)
      → (post_message env o m r ms now c).1.cache ≡ put (next_request o m c) r ms now c.cache
  unfolding post_message
  cache-post_message o m r ms now c = cache-post_package (next_request o m c) _

  last_id-post_message :
      (o : Bool) (m : env.Message) (r : Callback R) (ms now : ℕ) (c : Client env.Message R D F)
      → (post_message env o m r ms now c).1.last_id ≡ increment c.last_id
  unfolding post_message post_package
  last_id-post_message o m r ms now c =
      let pick = λ (x : ErrorCode × Client env.Message R D F). x.1.last_id in
      if-same pick c.is_stopped _ _ _ refl (if-same pick (not c.is_online) _ _ _ refl refl)

  pub held-assigned :
      (o : Bool) (m : env.Message) (r : Callback R) (ms now : ℕ) (c : Client env.Message R D F)
      → held (rem_int_max (increment c.last_id)) (post_message env o m r ms now c).1.cache
        ≡ some (next_request o m c, r)
  held-assigned o m r ms now c =
      ap (held (rem_int_max (increment c.last_id))) (cache-post_message o m r ms now c)
      ∙ held-put (next_request o m c) r ms now c.cache

  -- On every branch of `postMessage`: the code that it returns, that the package is queued to be
  -- written exactly where the code is success, and that the request then waits under the package's
  -- message id, with its callback. It waits there also where an error is returned, so its callback can
  -- be called although nothing was sent.
  pub post_message-waits :
      (o : Bool) (m : env.Message) (r : Callback R) (ms now : ℕ) (c : Client env.Message R D F)
      → ((post_message env o m r ms now c).0 ≡ answers_code c)
        × ((post_message env o m r ms now c).1.tasks ≡ queued (next_request o m c) c)
        × (held (rem_int_max (increment c.last_id)) (post_message env o m r ms now c).1.cache
            ≡ some (next_request o m c, r))
  unfolding post_message post_package
  post_message-waits o m r ms now c = (ground arith, ground arith, held-assigned o m r ms now c)

  unfoldable pub post_all :
      List (Posting env.Message R) → Client env.Message R D F → Client env.Message R D F
  post_all [] c = c
  post_all (q ∷ qs) c =
      post_all qs (post_message env q.is_order q.message q.callback q.ms q.now c).1

  -- Later posts leave an earlier request where it is.
  held-post_all :
      (i : ℕ) (qs : List (Posting env.Message R)) (c : Client env.Message R D F)
      → i ≤ c.last_id
      → c.last_id + length qs < int_max
      → held i (post_all qs c).cache ≡ held i c.cache
  unfolding post_all
  held-post_all i [] c h k = refl
  held-post_all i (q ∷ qs) c h k =
      let c' = (post_message env q.is_order q.message q.callback q.ms q.now c).1 in
      let e = last_id-post_message q.is_order q.message q.callback q.ms q.now c in
      let a = increment_below c.last_id (omega arith) in
      held-post_all i qs c' (omega arith) (omega arith)
      ∙ ap (held i) (cache-post_message q.is_order q.message q.callback q.ms q.now c)
      ∙ held-put_other i (next_request q.is_order q.message c) q.callback q.ms q.now c.cache
          (λ same. omega (arith, next_id c.last_id (omega arith), same))

  -- A response to a waiting request calls that request's callback with it, and nothing else.
  pub respond-held :
      (pack p : Package env.Message) (r : Callback R) (now : ℕ) (c : Client env.Message R D F)
      → pack.header.msg_type ≡ reqrep
      → held pack.header.msg_id c.cache ≡ some (p, r)
      → (do_response pack now c).0
        ≡ record {
          msg_id = pack.header.msg_id;
          res = r;
          error = success;
          request = p;
          response = some pack;
        }
          ∷ []
  unfolding do_response on_response pick
  respond-held pack p r now c t h =
      ap (λ (x : Answers env R D F). x.0)
        (chosen (pack.header.msg_type == reqrep) _ _ ((==_iff pack.header.msg_type reqrep).1 t))
      ∙ picked-held (find pack.header.msg_id c.cache) pack.header.msg_id now p r success (some pack)
          c.cache h

  -- A message that is posted, with later messages posted behind it, is answered by a response with its
  -- own message id: that calls its own callback, once, with its own request and that response. The
  -- condition is that the ids issued stay below INT_MAX, where they are all different.
  pub response-calls :
      (o : Bool) (m : env.Message) (r : Callback R) (ms now later : ℕ)
      (qs : List (Posting env.Message R)) (c : Client env.Message R D F)
      (pack : Package env.Message)
      → c.last_id + 1 + length qs < int_max
      → pack.header.msg_type ≡ reqrep
      → pack.header.msg_id ≡ rem_int_max (increment c.last_id)
      → (do_response pack later (post_all qs (post_message env o m r ms now c).1)).0
        ≡ record {
          msg_id = pack.header.msg_id;
          res = r;
          error = success;
          request = next_request o m c;
          response = some pack;
        }
          ∷ []
  response-calls o m r ms now later qs c pack h t e =
      let c' = (post_message env o m r ms now c).1 in
      let id = last_id-post_message o m r ms now c in
      let n = next_id c.last_id (omega arith) in
      let w = increment_below c.last_id (omega arith) in
      respond-held pack (next_request o m c) r later (post_all qs c') t (
        held-post_all pack.header.msg_id qs c' (omega arith) (omega arith)
        ∙ ap (λ i. held i c'.cache) e
        ∙ held-assigned o m r ms now c)
