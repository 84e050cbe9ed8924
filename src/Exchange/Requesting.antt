-- ===== src/Exchange/Requesting.antt =====
-- asio/internal/AsioClient.cpp, class AsioClient: a client with nothing else to do sends a request.
use asio.Prelude.{
  ℕ, ◌<◌, ◌^◌, ◌≡◌, refl, ap, ◌∙◌, Bool, true, false, [], ◌∷◌, none, some, Bytes, Exec, ok, ◌>>=◌,
  arith, nat_key, bytes_key,
}
use asio.Prelude.Int.{ℤ}
use asio.Prelude.Words.{increment, rem_int_max}
use asio.Package.{PacHeader, Package}
use asio.Platform.{Platform}
use asio.Buffer.{Buffer, content}
use asio.ProtoHelp.{sized_header}
use asio.ProtoHelp.Header.{Fits}
use asio.RequestMessage.Answers.{held, start_timer-held}
use asio.AsioClient.{
  Client, Callback, post_message, post_package, start_write, start_write_front, on_written,
  finish_write, write_next, write_encoded, written,
}
use asio.AsioClient.Connection.{Outside, run_tasks}
use asio.AsioClient.Order.{Encodes}
use asio.AsioClient.Requests.{next_request, held-assigned}

-- The client, online and with nothing to do.
abbrev pub idle_client : {M R D F : Type 0} → Client M R D F → Client M R D F
idle_client c = record c {
  is_stopped = false;
  is_online = true;
  tasks = [];
  responses = [];
  pending_list = [];
  in_flight = none;
}

pub rem_int_max-fits : (w : ℕ) → rem_int_max w < 2 ^ 32
unfolding rem_int_max
rem_int_max-fits w = ground arith

module _ (env : Platform) where
  pub sized-Fits :
      (h : PacHeader) (m : env.Message) (s : Bytes) → Fits h → Fits (sized_header env h m s)
  unfolding sized_header
  sized-Fits h m s f = record {
    flag0_right = f.flag0_right;
    flag1_right = f.flag1_right;
    msg_type_fits = f.msg_type_fits;
    type_name_len_fits = omega arith;
    ext_info_fits = f.ext_info_fits;
    msg_id_fits = f.msg_id_fits;
    msg_size_fits = omega arith;
    pac_size_fits = omega arith;
  }

module _ (env : Platform) {R D F : Type 0} (c : Client env.Message R D F) (m : env.Message) where
  -- The package of a request.
  abbrev pub request_of : Package env.Message
  request_of = next_request env false m c

  pub request-Fits : Fits request_of.header
  request-Fits = record {
    flag0_right = refl;
    flag1_right = refl;
    msg_type_fits = omega arith;
    type_name_len_fits = omega arith;
    ext_info_fits = omega arith;
    msg_id_fits = rem_int_max-fits (increment c.last_id);
    msg_size_fits = omega arith;
    pac_size_fits = omega arith;
  }

module _ (env : Platform) {R D F : Type 0} (m : env.Message) (r : Callback R) (ms : ℕ) (now : ℕ)
    (c : Client env.Message R D F) where
  -- The client behind `postMessage`.
  abbrev pub posted : Client env.Message R D F
  posted = (post_message env false m r ms now (idle_client c)).1

  -- The client when that write has ended.
  abbrev pub waits : Client env.Message R D F
  waits = record (written (request_of env c m).header.msg_id now (record posted { tasks = [] })) {
    pending_list = [];
  }

  pub held-waits :
      held (request_of env c m).header.msg_id waits.cache ≡ some (request_of env c m, r)
  held-waits =
      start_timer-held (request_of env c m).header.msg_id (request_of env c m).header.msg_id now
        posted.cache
      ∙ held-assigned env false m r ms now (idle_client c)

  pub waits-responses : waits.responses ≡ []
  unfolding post_message post_package
  waits-responses = refl

  pub waits-read_buffer : waits.read_buffer ≡ c.read_buffer
  unfolding post_message post_package
  waits-read_buffer = refl

module _ (env : Platform) {R D F : Type 0} (limit : ℤ) (outside : Outside env.Message)
    (m : env.Message) (r : Callback R) (ms : ℕ) (now : ℕ) (c : Client env.Message R D F) where
  -- The client with the write of the request under way.
  abbrev pub writes :
      {wire : Bytes} → Encodes env limit (request_of env c m) wire → Client env.Message R D F
  writes e = record (posted env m r ms now c) {
    tasks = [];
    pending_list = e.sent ∷ [];
    in_flight = some (content e.buffer, (request_of env c m).header.msg_id);
  }

  pub run_tasks-writes :
      {wire : Bytes} (e : Encodes env limit (request_of env c m) wire)
      → run_tasks env limit outside (posted env m r ms now c).tasks (posted env m r ms now c)
        ≡ ok (writes e)
  unfolding run_tasks post_message post_package start_write start_write_front
  run_tasks-writes e =
      ap
        (λ (x : Exec (Bool × Package env.Message × Buffer)). x >>= λ y. ok (
          write_encoded env limit [] (request_of env c m).header.msg_id
            (record (posted env m r ms now c) {
              tasks = [];
              pending_list = request_of env c m ∷ [];
            })
            y))
        e.encodes

  pub on_written-waits :
      {wire : Bytes} (e : Encodes env limit (request_of env c m) wire)
      → on_written env limit false now (writes e) ≡ ok (waits env m r ms now c)
  unfolding on_written finish_write write_next
  on_written-waits e = refl
