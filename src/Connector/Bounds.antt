-- ===== src/Connector/Bounds.antt =====
-- connector/Connector.cpp, class Connector: how long its lists get, and what they list.
use asio.Prelude.{
  ℕ, ◌-◌, ◌≤◌, ◌<◌, ◌^◌, ◌≡◌, refl, sym, ap, ◌∙◌, false, List, [], ◌∷◌, ◌++◌, Option, none, some,
  Bytes, bytes_beq, bytes_beq_iff, ltb, ◌==◌, Exec, ok, ◌>>=◌, length, length-append, arith, All,
  Leaves, Leaves-ok, Leaves-then, Bool-cases, inl, inr, skip, if-both,
}
use mathlib.Core.Path.{subst}
use asio.Prelude.Int.{ℤ, pos, leb_ℤ}
use asio.Package.{Package, ErrorCode, success}
use asio.Platform.{Platform}
use asio.Strutil.Numbers.{simple_itoa, simple_itoa_int, simple_itoa-value, IsDigit}
use asio.Connector.{
  Connector, Generated, add_item, before_colon, on_start, on_stop, on_disconnect, on_result, same_ℤ,
  run_next, runs_result, on_recv_data_clear, content_of, send_msg, compare_content, with_response,
  on_answer,
}

-- What happens to the dialog: its buttons and its timer, the answers to its messages, which are given
-- by the id and the text, and the queued results.
pub data Event (M : Type 0) : Type 0 where
  starts : ℤ → Event M
  stops : Event M
  disconnects : Event M
  clears : Event M
  sends : Bytes → ℕ → Event M
  answers : ℕ → Bytes → ErrorCode → Option (Package M) → Event M
  runs : Event M

module _ (env : Platform) (gen : Generated env.Message) where
  unfoldable pub step : Event env.Message → Connector env.Message → Exec (Connector env.Message)
  unfolding on_start on_stop on_disconnect on_recv_data_clear send_msg on_answer runs_result
  step (starts ms) c = ok (on_start ms c)
  step stops c = ok (on_stop c)
  step disconnects c = ok (on_disconnect c)
  step clears c = ok (on_recv_data_clear c)
  step (sends text now) c = ok (send_msg env gen text now c)
  step (answers i text error rsp) c = on_answer env gen (content_of env gen i text) error rsp c
  step runs c = ok (runs_result c)

  unfoldable pub run :
      List (Event env.Message) → Connector env.Message → Exec (Connector env.Message)
  unfolding step
  run [] c = ok c
  run (e ∷ es) c = step e c >>= run es

-- The text of an id.
abbrev pub IsId : Bytes → Type 0
IsId text = (i : ℕ) × (i < 2 ^ 32) × (text ≡ simple_itoa_int i)

-- No list has more than 1001 items, and what came back are ids.
pub record IsBounded {M : Type 0} (c : Connector M) : Type 0 where
  pub sent_bound : length c.send_list ≤ 1001
  pub recv_bound : length c.recv_list ≤ 1001
  pub recv_ids : All IsId c.recv_list
  pub result_ids : All IsId c.results

abbrev lists : {M : Type 0} → Connector M → List Bytes × List Bytes × List Bytes
lists c = (c.send_list, c.recv_list, c.results)

same_lists : {M : Type 0} (c d : Connector M) → IsBounded c → lists d ≡ lists c → IsBounded d
same_lists c d g e =
    let e0 = ap (λ (x : List Bytes × List Bytes × List Bytes). x.0) e in
    let e1 = ap (λ (x : List Bytes × List Bytes × List Bytes). x.1) e in
    let e2 = ap (λ (x : List Bytes × List Bytes × List Bytes). x.2) e in
    record {
      sent_bound = subst (λ t. length t ≤ 1001) (sym e0) g.sent_bound;
      recv_bound = subst (λ t. length t ≤ 1001) (sym e1) g.recv_bound;
      recv_ids = subst (All IsId) (sym e1) g.recv_ids;
      result_ids = subst (All IsId) (sym e2) g.result_ids;
    }

length-add_item :
    (text : Bytes) (items : List Bytes) → length items ≤ 1001 → length (add_item text items) ≤ 1001
unfolding add_item
length-add_item text items h = elim (Bool-cases (ltb 1000 (length items))) [
  | inl full ↦ rw full (omega arith)
  | inr fits ↦ rw fits (ground (arith, length-append items (text ∷ []), fits))
]

All-snoc :
    (P : Bytes → Type 0) (items : List Bytes) (text : Bytes)
    → All P items
    → P text
    → All P (items ++ (text ∷ []))
All-snoc P [] text all p = (p, tt)
All-snoc P (x ∷ xs) text all p = (all.0, All-snoc P xs text all.1 p)

All-add_item :
    (P : Bytes → Type 0) (text : Bytes) (items : List Bytes)
    → All P items
    → P text
    → All P (add_item text items)
unfolding add_item
All-add_item P text items all p = elim (Bool-cases (ltb 1000 (length items))) [
  | inl full ↦ rw full (p, tt)
  | inr fits ↦ rw fits (All-snoc P items text all p)
]

-- Digits, and a minus, are no colon.
before_colon-append :
    (s t : Bytes) → All (λ c. (c == b':') ≡ false) s → before_colon (s ++ (b':' ∷ t)) ≡ s
unfolding before_colon
before_colon-append [] t all = refl
before_colon-append (c ∷ cs) t all =
    skip (c == b':') _ _ all.0 ∙ ap (λ r. c ∷ r) (before_colon-append cs t all.1)

no_colon : (s : Bytes) → All IsDigit s → All (λ c. (c == b':') ≡ false) s
no_colon [] all = tt
no_colon (c ∷ cs) all = (ground (arith, all.0), no_colon cs all.1)

simple_itoa_int-no_colon : (i : ℕ) → i < 2 ^ 32 → All (λ c. (c == b':') ≡ false) (simple_itoa_int i)
unfolding simple_itoa_int
simple_itoa_int-no_colon i h = elim (Bool-cases (ltb i (2 ^ 31))) [
  | inl e ↦ rw e (no_colon (simple_itoa i) (simple_itoa-value i (omega arith)).1)
  | inr e ↦
      rw e
        (refl, no_colon (simple_itoa (2 ^ 32 - i)) (simple_itoa-value (2 ^ 32 - i) (omega arith)).1)
]

module _ (env : Platform) (gen : Generated env.Message) where
  compare_content-IsBounded :
      (i : ℕ) (text : Bytes) (m : Option env.Message) (c : Connector env.Message)
      → i < 2 ^ 32
      → IsBounded c
      → Leaves IsBounded (compare_content env gen (content_of env gen i text) m c)
  compare_content-IsBounded i text none c h g = unfold Leaves in tt
  compare_content-IsBounded i text (some m) c h g =
      elim (Bool-cases (bytes_beq (gen.rsp_content m) (content_of env gen i text))) [
        | inr other ↦ rw other (Leaves-ok IsBounded c g)
        | inl same ↦
            let e = (bytes_beq_iff (gen.rsp_content m) (content_of env gen i text)).0 same in
            let id : IsId (before_colon (gen.rsp_content m)) = (
              i,
              h,
              ap before_colon e
                  ∙ before_colon-append (simple_itoa_int i) text (simple_itoa_int-no_colon i h),
            ) in
            rw same (
              Leaves-ok IsBounded _ (record {
                sent_bound = g.sent_bound;
                recv_bound = g.recv_bound;
                recv_ids = g.recv_ids;
                result_ids =
                    All-snoc IsId c.results (before_colon (gen.rsp_content m)) g.result_ids id;
              }))
      ]

  with_response-IsBounded :
      (i : ℕ) (text : Bytes) (rsp : Option (Package env.Message)) (c : Connector env.Message)
      → i < 2 ^ 32
      → IsBounded c
      → Leaves IsBounded (with_response env gen (content_of env gen i text) rsp c)
  with_response-IsBounded i text none c h g = unfold Leaves in tt
  with_response-IsBounded i text (some p) c h g = compare_content-IsBounded i text p.msg_ptr c h g

  on_answer-IsBounded :
      (i : ℕ) (text : Bytes) (error : ErrorCode) (rsp : Option (Package env.Message))
      (c : Connector env.Message)
      → i < 2 ^ 32
      → IsBounded c
      → Leaves IsBounded (on_answer env gen (content_of env gen i text) error rsp c)
  unfolding on_answer
  on_answer-IsBounded i text success rsp c h g = with_response-IsBounded i text rsp c h g
  on_answer-IsBounded i text error rsp c h g = Leaves-ok IsBounded c g

  run_next-IsBounded :
      (texts : List Bytes) (c : Connector env.Message)
      → All IsId texts
      → IsBounded c
      → IsBounded (run_next texts c)
  unfolding on_result
  run_next-IsBounded [] c ids g = g
  run_next-IsBounded (text ∷ rest) c ids g = record {
    sent_bound = g.sent_bound;
    recv_bound = length-add_item text c.recv_list g.recv_bound;
    recv_ids = All-add_item IsId text c.recv_list g.recv_ids ids.0;
    result_ids = ids.1;
  }

  send_msg-IsBounded :
      (text : Bytes) (now : ℕ) (c : Connector env.Message)
      → IsBounded c
      → IsBounded (send_msg env gen text now c)
  unfolding send_msg
  send_msg-IsBounded text now c g = record {
    sent_bound = length-add_item _ c.send_list g.sent_bound;
    recv_bound = g.recv_bound;
    recv_ids = g.recv_ids;
    result_ids = g.result_ids;
  }

  on_start-IsBounded :
      (ms : ℤ) (c : Connector env.Message) → IsBounded c → IsBounded (on_start ms c)
  unfolding on_start
  on_start-IsBounded ms c g =
      if-both IsBounded (leb_ℤ ms (pos 0)) c _ g (
        if-both IsBounded (same_ℤ c.interval ms) _ _ (same_lists c _ g refl)
          (same_lists c _ g refl))

  -- The ids of the answered messages are patterns of an `int`.
  abbrev pub HasId : Event env.Message → Type 0
  HasId (answers i text error rsp) = i < 2 ^ 32
  HasId other = Unit {0}

  step-IsBounded :
      (e : Event env.Message) (c : Connector env.Message)
      → HasId e
      → IsBounded c
      → Leaves IsBounded (step env gen e c)
  unfolding step on_stop on_disconnect on_recv_data_clear runs_result
  step-IsBounded (starts ms) c h g = Leaves-ok IsBounded _ (on_start-IsBounded ms c g)
  step-IsBounded stops c h g = Leaves-ok IsBounded _ (same_lists c _ g refl)
  step-IsBounded disconnects c h g = Leaves-ok IsBounded _ (same_lists c _ g refl)
  step-IsBounded clears c h g = Leaves-ok IsBounded _ (record {
    sent_bound = omega arith;
    recv_bound = omega arith;
    recv_ids = tt;
    result_ids = g.result_ids;
  })
  step-IsBounded (sends text now) c h g = Leaves-ok IsBounded _ (send_msg-IsBounded text now c g)
  step-IsBounded (answers i text error rsp) c h g = on_answer-IsBounded i text error rsp c h g
  step-IsBounded runs c h g = Leaves-ok IsBounded _ (run_next-IsBounded c.results c g.result_ids g)

  -- Whatever is clicked, sent and answered: the two lists of the dialog never have more than 1001 items,
  -- and what is listed as received are the ids of messages, in decimal digits.
  pub run-IsBounded :
      (es : List (Event env.Message)) (c : Connector env.Message)
      → All HasId es
      → IsBounded c
      → Leaves IsBounded (run env gen es c)
  unfolding run
  run-IsBounded [] c h g = Leaves-ok IsBounded c g
  run-IsBounded (e ∷ es) c h g =
      Leaves-then IsBounded IsBounded (step env gen e c) (run env gen es) (step-IsBounded e c h.0 g)
        (λ c' g'. run-IsBounded es c' h.1 g')
