-- ===== src/AsioClient/Tests.antt =====
-- A concrete client, and the theorems about clients at concrete inputs.
use asio.ProtoHelp.Samples.{request-Sendable}
use asio.Prelude.{
  ltb, Bool, ◌*◌, ◌≤◌, ◌⊎◌, Leaves, ◌++◌, ℕ, zero, suc, ◌<◌, ◌==◌, if◌then◌else◌, ◌≡◌, refl, true,
  false, List, [], ◌∷◌, some, none, Bytes, ok, ◌>>=◌, arith,
}
use asio.Prelude.Int.{ℤ, pos}
use asio.Prelude.Words.{increment, rem_int_max}
use asio.Package.{Package, new_package, default_header, reqrep, success}
use asio.Platform.Sample.{sample, sample_name}
use asio.Buffer.{make, initial_size}
use asio.ProtoHelp.{encode}
use asio.ProtoHelp.Samples.{hello, request}
use asio.RequestMessage.Answers.{held}
use asio.AsioClient.{Client, user, post_message, start_write, do_response}
use asio.AsioClient.Connection.{Outside, Event, posts_message, runs_task, connected, wrote, run}
use asio.AsioClient.Rotation.{Reaches, AllReach, fail_times, reconnect_rotates}
use asio.AsioClient.{find_colon, address_at}
use asio.AsioClient.Stuck.{Stuck, failed_write, refused_package}
use asio.ProtoHelp.Frame.{frame}
use asio.ProtoHelp.Encode.{zipped, sent_header}
use asio.AsioClient.Order.{
  WriterCall, starts, ends, calls, Starts, IsAtWork, Sendable-Encodes, client_writes_in_order,
}
use asio.Prelude.Int.{pos_part}
use asio.RequestMessage.Answers.{Event as CacheEvent, responds, AllSpare, first_said}
use asio.AsioClient.{Callback}
use asio.AsioClient.Waiting.{
  wait_connected, wait_connected-ends, send_message, send_message-returns, returned,
}
use asio.AsioClient.Requests.{
  Posting, next_request, answers_code, queued, post_all, post_message-waits, response-calls,
}

abbrev pub fresh : Client Bytes ℕ ℕ ℕ
fresh = record {
  address_index = 0;
  address_list = (b'h' ∷ b':' ∷ b'1' ∷ []) ∷ (b'g' ∷ b':' ∷ b'2' ∷ []) ∷ [];
  is_stopped = false;
  tasks = [];
  responses = [];
  is_open = true;
  connecting = none;
  is_reading = true;
  pending_list = [];
  in_flight = none;
  last_id = 0;
  reconnect_seconds = pos 1;
  heartbeat_seconds = pos 10;
  heartbeat_waits = false;
  is_online = true;
  read_buffer = make initial_size;
  handler_list = [];
  cache = [];
}

abbrev pub outside : Outside Bytes
outside = record { resolves = λ host port. true; subscribe_req = λ xs. []; heartbeat_req = [] }

abbrev writing_one : Client Bytes ℕ ℕ ℕ
writing_one = record fresh { pending_list = request ∷ []; in_flight = some (hello, 7) }

abbrev afterwards : List (Event Bytes ℕ ℕ ℕ)
afterwards = runs_task ∷ connected false 2 ∷ posts_message false hello 5 1000 3 ∷ runs_task ∷ []

failed_write_example :
    Leaves
      (Stuck request [])
      (run sample (pos 1000) outside (wrote true 1 ∷ afterwards) writing_one)
failed_write_example =
    failed_write sample (pos 1000) outside request [] 1 afterwards writing_one refl
      ((hello, 7), refl)

-- A package with neither a message nor a body is refused.
abbrev nothing_to_send : Package Bytes
nothing_to_send = new_package Bytes

refused :
    encode sample (pos 1000) nothing_to_send (make initial_size)
    ≡ ok (false, nothing_to_send, make initial_size)
unfolding encode
refused = refl

refused_package_example : Leaves (Stuck nothing_to_send []) (
    start_write sample (pos 1000) nothing_to_send fresh
    >>= run sample (pos 1000) outside afterwards)
refused_package_example =
    refused_package sample (pos 1000) outside nothing_to_send nothing_to_send (make initial_size)
      afterwards fresh refused refl refl

post_message-waits_example :
    ((post_message sample false hello (user 5) 1000 0 fresh).0 ≡ answers_code sample fresh)
    × ((post_message sample false hello (user 5) 1000 0 fresh).1.tasks
        ≡ queued sample (next_request sample false hello fresh) fresh)
    × (held
          (rem_int_max (increment fresh.last_id))
          (post_message sample false hello (user 5) 1000 0 fresh).1.cache
        ≡ some (next_request sample false hello fresh, user 5))
post_message-waits_example = post_message-waits sample false hello (user 5) 1000 0 fresh

abbrev more : List (Posting Bytes ℕ)
more = record { is_order = true; message = hello; callback = user 6; ms = 1000; now = 1 } ∷ []

abbrev response : Package Bytes
response = record request { header = record default_header { msg_type = reqrep; msg_id = 1 } }

response_id : response.header.msg_id ≡ rem_int_max (increment fresh.last_id)
unfolding rem_int_max
response_id = refl

response-calls_example :
    (do_response response 9
      (post_all sample more (post_message sample false hello (user 5) 1000 0 fresh).1)).0
    ≡ record {
      msg_id = 1;
      res = user 5;
      error = success;
      request = next_request sample false hello fresh;
      response = some response;
    }
      ∷ []
response-calls_example =
    response-calls sample false hello (user 5) 1000 0 9 more fresh response (omega arith) refl
      response_id

abbrev large : ℤ
large = pos 1000

abbrev wire : Bytes
wire =
    frame sample (sent_header sample large request hello hello request-Sendable) sample_name
      (zipped sample large request hello hello request-Sendable).1

abbrev two_posts : List (WriterCall Bytes)
two_posts = starts request ∷ starts request ∷ ends 1 ∷ []

two_posts-Starts : Starts sample large two_posts (wire ∷ wire ∷ [])
unfolding Starts
two_posts-Starts =
    let one = Sendable-Encodes sample large request hello hello request-Sendable in (one, (one, tt))

fresh-IsAtWork : IsAtWork sample large fresh.pending_list fresh.in_flight []
unfolding IsAtWork
fresh-IsAtWork = tt

client_writes_in_order_example :
    (done : List Bytes) × (c' : Client Bytes ℕ ℕ ℕ) × (left : List Bytes) × (calls sample large
        two_posts fresh
      ≡ ok (done, c'))
    × IsAtWork sample large c'.pending_list c'.in_flight left
    × (done ++ left ≡ wire ∷ wire ∷ [])
client_writes_in_order_example =
    client_writes_in_order sample large two_posts fresh [] (wire ∷ wire ∷ []) fresh-IsAtWork
      two_posts-Starts

-- The two addresses "h:1" and "g:2".
abbrev hosts : ℕ → Bytes
hosts i = if i == 0 then b'h' ∷ [] else b'g' ∷ []

abbrev ports : ℕ → Bytes
ports i = if i == 0 then b'1' ∷ [] else b'2' ∷ []

reached :
    (i : ℕ)
    → i < 2
    → (a : Bytes) × (address_at fresh.address_list i ≡ some a)
      × Reaches outside a (hosts i) (ports i)
unfolding find_colon address_at
reached zero h = (b'h' ∷ b':' ∷ b'1' ∷ [], refl, record { splits = refl; found = refl })
reached (suc zero) h = (b'g' ∷ b':' ∷ b'2' ∷ [], refl, record { splits = refl; found = refl })
reached (suc (suc i)) h = absurd (omega arith)

fresh-AllReach : AllReach outside fresh.address_list hosts ports
fresh-AllReach = record { at = reached }

reconnect_rotates_example :
    (c' : Client Bytes ℕ ℕ ℕ) × (fail_times sample outside 2 9 fresh ≡ ok c')
    × (c'.address_index ≡ 0)
    × (c'.connecting ≡ some (hosts 0, ports 0))
reconnect_rotates_example =
    reconnect_rotates sample outside 1 9 fresh hosts ports refl fresh-AllReach (omega arith)
      (omega arith) (omega arith)

-- A client that is online from the third test on.
abbrev third : ℕ → Bool
third k = ltb 1 k

wait_connected-ends_example :
    (last : ℕ) × (wait_connected third (pos 3) ≡ ok (third (suc last), last * 100))
    × (last * 100 ≤ pos_part (pos 3) * 1000)
    × ((j : ℕ) → j < last → third j ≡ false)
    × ((third last ≡ true) ⊎ (last * 100 ≡ pos_part (pos 3) * 1000))
wait_connected-ends_example = wait_connected-ends third (pos 3) (omega arith)

abbrev arrived : List (CacheEvent Bytes (Callback ℕ))
arrived = responds response 9 ∷ []

arrived-AllSpare : AllSpare (rem_int_max (increment fresh.last_id)) arrived
unfolding AllSpare
arrived-AllSpare = (refl, tt)

send_message-returns_example :
    send_message sample hello (user 5) 1000 0 arrived fresh
    ≡ returned
        (answers_code sample fresh)
        (first_said (rem_int_max (increment fresh.last_id)) arrived)
send_message-returns_example =
    send_message-returns sample hello (user 5) 1000 0 arrived fresh arrived-AllSpare
