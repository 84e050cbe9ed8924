-- ===== src/RequestMessage.antt =====
-- asio/internal/AsioClient.h and AsioClient.cpp, class RequestMessage: the requests that wait for a
-- response, by message id. Each method runs under the lock. A callback (`Response`) is a value of a
-- type `R`; a call of one is listed with its arguments.
pub mod Answers
pub mod Tests
use asio.Prelude.{
  ℕ, ◌+◌, ◌≡◌, Bool, true, false, List, [], ◌∷◌, Option, none, some, ◌==◌, if◌then◌else◌, nat_key,
}
use asio.Prelude.Assoc.{find, assign, erase}
use asio.Package.{Package, ErrorCode, success, timeout}

-- `RequestMessage::Data`. `is_timed` says whether the timer has been started.
pub record Request (M R : Type 0) : Type 0 where
  pub pac : Package M
  pub res : R
  pub ms_timeout : ℕ
  pub req_time : ℕ
  pub write_finished_time : ℕ
  pub rsp_time : ℕ
  pub is_timed : Bool

-- `cache_`.
abbrev pub Cache : Type 0 → Type 0 → Type 0
Cache M R = List (ℕ × Request M R)

-- A call of a callback: the id that it was found under, the error, its request and the response.
pub record Answer (M R : Type 0) : Type 0 where
  pub msg_id : ℕ
  pub res : R
  pub error : ErrorCode
  pub request : Package M
  pub response : Option (Package M)

module _ {M R : Type 0} where
  -- `put`, at a time.
  unfoldable pub put : Package M → R → ℕ → ℕ → Cache M R → Cache M R
  put p r ms_timeout now cache =
      assign p.header.msg_id
        (record {
          pac = p;
          res = r;
          ms_timeout = ms_timeout;
          req_time = now;
          write_finished_time = 0;
          rsp_time = 0;
          is_timed = false;
        })
        cache

  abbrev timer_started : ℕ → ℕ → Option (Request M R) → Cache M R → Cache M R
  timer_started i now none cache = cache
  timer_started i now (some r) cache =
      assign i (record r { write_finished_time = now; is_timed = true }) cache

  -- `startTimer`.
  unfoldable pub start_timer : ℕ → ℕ → Cache M R → Cache M R
  start_timer i now cache = timer_started i now (find i cache) cache

  abbrev pub picked : ℕ → ℕ → Option (Request M R) → Cache M R → Option (Request M R) × Cache M R
  picked i now none cache = (none, cache)
  picked i now (some r) cache = (some (record r { rsp_time = now }), erase i cache)

  -- `pick`.
  unfoldable pub pick : ℕ → ℕ → Cache M R → Option (Request M R) × Cache M R
  pick i now cache = picked i now (find i cache) cache

  abbrev pub answer : ℕ → ErrorCode → Option (Package M) → Option (Request M R) → List (Answer M R)
  answer i error response none = []
  answer i error response (some r) =
      record { msg_id = i; res = r.res; error = error; request = r.pac; response = response } ∷ []

  -- `onTimeout`.
  unfoldable pub on_timeout : ℕ → ℕ → Cache M R → List (Answer M R) × Cache M R
  unfolding pick
  on_timeout i now cache = let (p, cache') = pick i now cache in (answer i timeout none p, cache')

  -- The first branch of `AsioClient::doResponse`.
  unfoldable pub on_response : Package M → ℕ → Cache M R → List (Answer M R) × Cache M R
  unfolding pick
  on_response pack now cache =
      let (p, cache') = pick pack.header.msg_id now cache in
      (answer pack.header.msg_id success (some pack) p, cache')
