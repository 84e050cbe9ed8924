-- ===== src/BaseHandler.antt =====
-- server/main.cpp, class BaseHandler: the methods of the example server, as a service.
mod Tests
use asio.Prelude.{
  ℕ, ◌+◌, ◌%◌, ◌^◌, ◌<◌, ◌≡◌, refl, ap, ◌∙◌, sym, false, List, [], ◌∷◌, ◌++◌, Option, none, some,
  Bytes, arith, length, All, nat_key, ◌==◌, ==_iff, skip, chosen, append_assoc,
}
use asio.Prelude.Assoc.{find, assign, erase, find-assign, find-erase}
use asio.Prelude.Int.{ℤ}
use asio.AsioServer.{SubscribeReq}
use asio.AsioServer.Server.{Service, AsioServer, advise}

-- The three methods. Threads of the pool run them at the same time.
pub data Method : Type 0 where
  ping_pong daytime discard : Method

-- What the handler takes from the generated code: the names of the requests, the content of a request,
-- and the responses; and the time as `util::getFormatTime` prints it.
pub record Generated (M : Type 0) : Type 0 where
  pub ping_pong_name : Bytes
  pub daytime_name : Bytes
  pub discard_name : Bytes
  pub content : M → Bytes
  pub ping_pong_rsp : Bytes → M
  pub daytime_rsp : Bytes → M
  pub discard_rsp : ℕ → ℕ → M
  pub format_now : Bytes

-- `BaseHandler::advise`.
unfoldable pub advise_all :
    {M W : Type 0} → Generated M → AsioServer M Method W → AsioServer M Method W
advise_all gen server =
    advise
      ((gen.ping_pong_name, ping_pong)
        ∷ (gen.daytime_name, daytime)
        ∷ (gen.discard_name, discard)
        ∷ [])
      server

-- `s_total`, the pattern of an `int`, and the calls of `Discard` that have added and not yet read it,
-- each with the size of its request.
pub record Discards : Type 0 where
  pub total : ℕ
  pub open_calls : List (ℕ × ℕ)

-- What a thread does in one go: a ping or a daytime call, or one of the two parts of `Discard` of the call
-- `k`, of which the first ends with the addition and the second is the read of `s_total` and the reply.
pub data Turn (M : Type 0) : Type 0 where
  pings : M → Turn M
  asks_time : Turn M
  adds : ℕ → M → Turn M
  replies : ℕ → Turn M

module _ {M : Type 0} (gen : Generated M) where
  abbrev reply_to : ℕ → Option ℕ → List M
  reply_to total none = []
  reply_to total (some size) = gen.discard_rsp (size % 2 ^ 32) total ∷ []

  -- The responses of a turn, and the state behind it. A size is stored in an `int32`.
  unfoldable pub turn : Turn M → Discards → List M × Discards
  turn (pings req) s = (gen.ping_pong_rsp (gen.content req) ∷ [], s)
  turn asks_time s = (gen.daytime_rsp gen.format_now ∷ [], s)
  turn (adds k req) s =
      let size = length (gen.content req) in
      ([], record { total = (s.total + size) % 2 ^ 32; open_calls = assign k size s.open_calls })
  turn (replies k) s =
      (reply_to s.total (find k s.open_calls), record s { open_calls = erase k s.open_calls })

  unfoldable pub turns : List (Turn M) → Discards → List M × Discards
  unfolding turn
  turns [] s = ([], s)
  turns (t ∷ ts) s = let (out, s') = turn t s in let (more, s'') = turns ts s' in (out ++ more, s'')

  -- What is added to the total.
  abbrev pub added : List (Turn M) → ℕ
  added [] = 0
  added (pings req ∷ ts) = added ts
  added (asks_time ∷ ts) = added ts
  added (adds k req ∷ ts) = length (gen.content req) + added ts
  added (replies k ∷ ts) = added ts

  -- A turn that is not one of the call.
  abbrev pub OfAnother : ℕ → Turn M → Type 0
  OfAnother k (pings req) = Unit {0}
  OfAnother k asks_time = Unit {0}
  OfAnother k (adds j req) = (j == k) ≡ false
  OfAnother k (replies j) = (j == k) ≡ false

  total_after :
      (total size rest : ℕ)
      → ((total + size) % 2 ^ 32 + rest) % 2 ^ 32 ≡ (total + (size + rest)) % 2 ^ 32
  total_after total size rest = omega arith

  -- The turns of other calls, and then the reply of the call `k`, which has added a size.
  others_then_reply :
      (k size : ℕ) (ts : List (Turn M)) (s : Discards)
      → find k s.open_calls ≡ some size
      → s.total < 2 ^ 32
      → All (OfAnother k) ts
      → (turns (ts ++ (replies k ∷ [])) s).0
        ≡ (turns ts s).0 ++ (gen.discard_rsp (size % 2 ^ 32) ((s.total + added ts) % 2 ^ 32) ∷ [])
  unfolding turns turn
  others_then_reply k size [] s e small o =
      rw e (ap (λ n. gen.discard_rsp (size % 2 ^ 32) n ∷ []) (omega arith))
  others_then_reply k size (pings req ∷ ts) s e small o =
      ap (λ out. gen.ping_pong_rsp (gen.content req) ∷ out)
        (others_then_reply k size ts s e small o.1)
  others_then_reply k size (asks_time ∷ ts) s e small o =
      ap (λ out. gen.daytime_rsp gen.format_now ∷ out) (others_then_reply k size ts s e small o.1)
  others_then_reply k size (adds j req ∷ ts) s e small o =
      let n = length (gen.content req) in
      let s' : Discards = record {
        total = (s.total + n) % 2 ^ 32;
        open_calls = assign j n s.open_calls;
      } in
      others_then_reply k size ts s' (find-assign j k n s.open_calls ∙ skip (j == k) _ _ o.0 ∙ e)
        (omega arith) o.1
      ∙ ap (λ t. (turns ts s').0 ++ (gen.discard_rsp (size % 2 ^ 32) t ∷ []))
          (total_after s.total n (added ts))
  others_then_reply k size (replies j ∷ ts) s e small o =
      let s' : Discards = record s { open_calls = erase j s.open_calls } in
      ap (λ out. reply_to s.total (find j s.open_calls) ++ out)
        (others_then_reply k size ts s' (find-erase j k s.open_calls ∙ skip (j == k) _ _ o.0 ∙ e)
          small o.1)
      ∙ sym (append_assoc (reply_to s.total (find j s.open_calls)) _ _)

  -- However the calls of other threads come between the two parts of a request to discard: its reply is
  -- one of its own size and of a total, which is the total before it, its own size and everything that
  -- the others added until the reply, as far as an `int` holds it.
  pub discard-turns :
      (k : ℕ) (req : M) (ts : List (Turn M)) (s : Discards)
      → All (OfAnother k) ts
      → let size = length (gen.content req) in
        (turns (adds k req ∷ (ts ++ (replies k ∷ []))) s).0
        ≡ (turns (adds k req ∷ ts) s).0
          ++ (gen.discard_rsp (size % 2 ^ 32) ((s.total + (size + added ts)) % 2 ^ 32) ∷ [])
  unfolding turns turn
  discard-turns k req ts s o =
      let n = length (gen.content req) in
      let s' : Discards = record {
        total = (s.total + n) % 2 ^ 32;
        open_calls = assign k n s.open_calls;
      } in
      others_then_reply k n ts s'
        (find-assign k k n s.open_calls ∙ chosen (k == k) _ _ ((==_iff k k).1 refl)) (omega arith) o
      ∙ ap (λ t. (turns ts s').0 ++ (gen.discard_rsp (n % 2 ^ 32) t ∷ []))
          (total_after s.total n (added ts))
