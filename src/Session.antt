-- ===== src/Session.antt =====
-- asio/internal/Session.h and Session.cpp, class Session: one connection of the server. The handlers
-- that run on the connection's io_service are the functions below; each runs to its end before the
-- next one. What a method starts is kept in the state: the handlers that `io_.post` has queued, the
-- one write that is under way on the socket, and whether a read is.
pub mod Writing
pub mod Reading
pub mod Stream
pub mod Sent
pub mod Kept
mod Tests
use asio.Prelude.{
  ℕ, zero, suc, ◌+◌, ◌%◌, ◌^◌, Bool, true, false, not, List, [], ◌∷◌, ◌++◌, Option, none, some, ltb,
  ◌==◌, if◌then◌else◌, Bytes, Exec, ok, out_of_fuel, ◌>>=◌, length,
}
use asio.Prelude.Int.{ℤ}
use asio.Prelude.Words.{increment, rem_int_max}
use asio.Package.{PacHeader, Package, new_package, default_header, pubsub}
use asio.Platform.{Platform}
use asio.Buffer.{Buffer, make, append, content, readable_bytes, initial_size}
use asio.ProtoHelp.{encode, decode}

-- `SessionData`, and what is outstanding of the asynchronous calls.
pub record Session : Type 0 where
  pub session_id : ℕ
  -- `id_`, the pattern of an `int`.
  pub last_id : ℕ
  pub read_buffer : Buffer
  pub write_deque : List Buffer
  -- The `writeBuffer` handlers that were posted and have not run, by their buffers.
  pub posted : List Buffer
  -- The bytes of the `async_write` that is under way.
  pub in_flight : Option Bytes
  pub is_reading : Bool
  -- Whether the session has called `room_.leave`.
  pub has_left : Bool

-- A session behind its constructor.
abbrev pub new_session : ℕ → Session
new_session i = record {
  session_id = i;
  last_id = 0;
  read_buffer = make initial_size;
  write_deque = [];
  posted = [];
  in_flight = none;
  is_reading = false;
  has_left = false;
}

-- `doRead`: starts a read.
unfoldable pub do_read : Session → Session
do_read s = record s { is_reading = true }

-- `start`, less the call of the room's `join`, which is a function of the room.
unfoldable pub start : Session → Session
unfolding do_read
start s = do_read s

-- The write of the front of the deque.
abbrev pub write_front : List Buffer → Option Bytes
write_front [] = none
write_front (b ∷ rest) = some (content b)

-- `writeBuffer`.
unfoldable pub write_buffer : Buffer → Session → Session
write_buffer b s = elim s.write_deque [
  | [] ↦ record s { write_deque = b ∷ []; in_flight = some (content b) }
  | front ∷ rest ↦ record s { write_deque = (front ∷ rest) ++ (b ∷ []) }
]

-- `pop_front` on a deque; on an empty one it is undefined and never called.
abbrev pub pop_front : {A : Type 0} → List A → List A
pop_front [] = []
pop_front (a ∷ rest) = rest

-- `doWrite`, when the write that was under way has ended, with or without an error.
unfoldable pub do_write : Bool → Session → Session
do_write error s = if error then record s { in_flight = none; has_left = true } else record s {
  write_deque = pop_front s.write_deque;
  in_flight = write_front (pop_front s.write_deque);
}

-- The posted handler at the front of the io_service's queue runs.
unfoldable pub run_posted : Session → Session
unfolding write_buffer
run_posted s = elim s.posted [ [] ↦ s | b ∷ rest ↦ write_buffer b (record s { posted = rest }) ]

module _ (env : Platform) where
  -- The package that goes on, and the session, where `encode` answered.
  abbrev pub post_encoded :
      Session → Bool × Package env.Message × Buffer → Package env.Message × Session
  post_encoded s (sent, p, b) = (p, if sent then record s { posted = s.posted ++ (b ∷ []) } else s)

  -- `postPackage`. `encode` changes the package in place, so it is part of the result.
  unfoldable pub post_package :
      ℤ → Package env.Message → Session → Exec (Package env.Message × Session)
  post_package limit p s = do r ← encode env limit p (make initial_size); ok (post_encoded s r)

  -- `replyMessage`; `none` is a null pointer.
  unfoldable pub reply_message :
      ℤ → Option (Package env.Message) → Option env.Message → Session → Exec Session
  reply_message limit none rsp s = ok s
  reply_message limit (some req) none s = ok s
  reply_message limit (some req) (some msg) s = do
    r ←
        post_package limit
          (record (new_package env.Message) {
            header = req.header;
            type_name = env.type_name_of msg;
            msg_ptr = some msg;
          })
          s
    ok r.1

  -- The package of a publication, by the id that `++id_` gives.
  abbrev pub publication : ℕ → env.Message → Package env.Message
  publication next msg = record (new_package env.Message) {
    header = record default_header {
      msg_type = pubsub;
      msg_id = rem_int_max next;
      type_name_len = length (env.type_name_of msg) % 2 ^ 16;
    };
    type_name = env.type_name_of msg;
    msg_ptr = some msg;
  }

  unfoldable pub publish_message : ℤ → Option env.Message → Session → Exec Session
  publish_message limit none s = ok s
  publish_message limit (some msg) s = do
    let next = increment s.last_id
    r ← post_package limit (publication next msg) (record s { last_id = next })
    ok r.1

  unfoldable pub deliver_package :
      ℤ → Package env.Message → Session → Exec (Package env.Message × Session)
  deliver_package limit pac s = post_package limit pac s

  -- The loop of the read handler: the packages that it hands to the task manager, in order.
  abbrev pub go_on :
      (Buffer → Exec (List (Package env.Message) × Buffer))
      → Option (Package env.Message) × Buffer
      → Exec (List (Package env.Message) × Buffer)
  go_on again (none, b) = ok ([], b)
  go_on again (some p, b) =
      let rest = (do r ← again b; ok (p ∷ r.0, r.1)) in
      if readable_bytes b == 0 then ok (p ∷ [], b) else rest

  unfoldable pub read_loop : ℕ → Buffer → Exec (List (Package env.Message) × Buffer)
  read_loop zero b = out_of_fuel
  read_loop (suc fuel) b = decode env b >>= go_on (read_loop fuel)

  -- The read handler, with the bytes read or with an error (`none`). Each package takes bytes from
  -- the buffer, so a round for each byte and one more is enough.
  unfoldable pub on_read : Option Bytes → Session → Exec (List (Package env.Message) × Session)
  on_read none s = ok ([], record s { is_reading = false; has_left = true })
  on_read (some bytes) s = do
    let filled = append bytes s.read_buffer
    r ← read_loop (suc (readable_bytes filled)) filled
    ok (r.0, do_read (record s { read_buffer = r.1 }))
