-- ===== src/Connector.antt =====
-- connector/Connector.h and Connector.cpp, class Connector: a dialog that sends messages and lists what
-- comes back. Qt is third-party code: the state of its widgets and of the timer is kept as far as the
-- dialog uses it, and what it calls or queues is an event.
pub mod Bounds
mod Tests
use asio.Prelude.{
  ℕ, ◌+◌, Bool, true, false, List, [], ◌∷◌, ◌++◌, Option, none, some, Bytes, bytes_beq, ltb, ◌==◌,
  if◌then◌else◌, Exec, ok, overrun, ◌>>=◌, length,
}
use asio.Prelude.Int.{ℤ, pos, pos_part, neg_part, leb_ℤ}
use asio.Prelude.Words.{increment}
use asio.Package.{Package, ErrorCode, success}
use asio.Platform.{Platform}
use asio.Strutil.Numbers.{simple_itoa_int}
use asio.RequestMessage.{Answer}
use asio.AsioClient.{Client, Callback, user}
use asio.AsioClient.Connection.{ms_timeout_default, stop}
use asio.MsgClient.{msg_client_post, new_msg_client}

-- The address that the dialog connects to, "81.70.95.6:5566".
abbrev pub default_addr : Bytes
default_addr =
    b'8' ∷ b'1' ∷ b'.' ∷ b'7' ∷ b'0' ∷ b'.' ∷ b'9' ∷ b'5' ∷ b'.' ∷ b'6' ∷ b':' ∷ b'5' ∷ b'5' ∷ b'6'
    ∷ b'6' ∷ []

-- The generated code: the request with a content, and the content of a response.
pub record Generated (M : Type 0) : Type 0 where
  pub ping_pong_req : Bytes → M
  pub rsp_content : M → Bytes

-- The callback of a message is a closure over its content.
pub record Connector (M : Type 0) : Type 0 where
  -- `id_`, the pattern of an `int`.
  pub last_id : ℕ
  pub interval : ℤ
  pub timer_is_active : Bool
  pub send_list : List Bytes
  pub recv_list : List Bytes
  -- The queued calls of `onResult`.
  pub results : List Bytes
  pub conn : Client M Bytes (Unit {0}) (Unit {0})

-- The constructor.
unfoldable pub new_connector : {M : Type 0} → Connector M
unfolding new_msg_client
new_connector = record {
  last_id = 100;
  interval = pos 0;
  timer_is_active = false;
  send_list = [];
  recv_list = [];
  results = [];
  conn = new_msg_client (default_addr ∷ []) (pos 5);
}

-- `count() > 1000` clears a list before an item is added.
unfoldable pub add_item : Bytes → List Bytes → List Bytes
add_item text items = (if ltb 1000 (length items) then [] else items) ++ (text ∷ [])

-- Whether two integers are the same.
abbrev pub same_ℤ : ℤ → ℤ → Bool
same_ℤ a b = pos_part a + neg_part b == pos_part b + neg_part a

-- The text in front of the first ':', or all of it.
unfoldable pub before_colon : Bytes → Bytes
before_colon [] = []
before_colon (c ∷ cs) = if c == b':' then [] else c ∷ before_colon cs

module _ {M : Type 0} where
  -- `onStart`, with the number in the interval's edit: a new interval stops the timer before it is
  -- started.
  unfoldable pub on_start : ℤ → Connector M → Connector M
  on_start ms c =
      if leb_ℤ ms (pos 0)
      then c
      else if same_ℤ c.interval ms
      then record c { timer_is_active = true }
      else record c { interval = ms; timer_is_active = true }

  unfoldable pub on_stop : Connector M → Connector M
  on_stop c = record c { timer_is_active = false }

  unfoldable pub on_disconnect : Connector M → Connector M
  unfolding stop
  on_disconnect c = record c { conn = stop c.conn }

  unfoldable pub on_result : Bytes → Connector M → Connector M
  unfolding add_item
  on_result text c = record c { recv_list = add_item text c.recv_list }

  abbrev pub run_next : List Bytes → Connector M → Connector M
  run_next [] c = c
  run_next (text ∷ rest) c = on_result text (record c { results = rest })

  -- The next queued call.
  unfoldable pub runs_result : Connector M → Connector M
  unfolding on_result
  runs_result c = run_next c.results c

  unfoldable pub on_recv_data_clear : Connector M → Connector M
  on_recv_data_clear c = record c { send_list = []; recv_list = [] }

module _ (env : Platform) (gen : Generated env.Message) where
  -- The content of a message: the id, a colon and the text.
  abbrev pub content_of : ℕ → Bytes → Bytes
  content_of i text = simple_itoa_int i ++ (b':' ∷ text)

  -- `sendMsg`, with the text in the edit, at a time.
  unfoldable pub send_msg : Bytes → ℕ → Connector env.Message → Connector env.Message
  unfolding msg_client_post add_item
  send_msg text now c =
      let next = increment c.last_id in
      let content = content_of next text in
      record c {
        last_id = next;
        conn =
            (msg_client_post env false (gen.ping_pong_req content) (user content) ms_timeout_default
              now c.conn).1;
        send_list = add_item (simple_itoa_int next) c.send_list;
      }

  -- The callback, with a response: it queues a call of `onResult` where the content came back.
  abbrev pub compare_content :
      Bytes → Option env.Message → Connector env.Message → Exec (Connector env.Message)
  compare_content content none c = overrun
  compare_content content (some m) c =
      if bytes_beq (gen.rsp_content m) content
      then ok (record c { results = c.results ++ (before_colon (gen.rsp_content m) ∷ []) })
      else ok c

  abbrev pub with_response :
      Bytes → Option (Package env.Message) → Connector env.Message → Exec (Connector env.Message)
  with_response content none c = overrun
  with_response content (some p) c = compare_content content p.msg_ptr c

  unfoldable pub on_answer :
      Bytes
      → ErrorCode
      → Option (Package env.Message)
      → Connector env.Message
      → Exec (Connector env.Message)
  on_answer content success rsp c = with_response content rsp c
  on_answer content error rsp c = ok c
