-- ===== src/Strutil/Parse.antt =====
-- asio/tool/strutil.cpp: text to numbers, by `>>` of a stream.
use asio.Prelude.{
  ℕ, zero, suc, ◌+◌, ◌-◌, ◌*◌, ◌%◌, ◌^◌, ◌≤◌, ◌<◌, ◌≡◌, refl, ap, ◌∙◌, Bool, true, false, ◌&&◌, [],
  ◌∷◌, Bytes, leb, ltb, ◌==◌, if◌then◌else◌, arith, min, All, Bool-cases, inl, inr, skip, chosen,
  ltb→lt, length, length-append,
}
use asio.Prelude.Int.{ℤ, pos, negsuc}
use asio.Prelude.Words.{signed32}
use asio.Strutil.Numbers.{
  is_space, simple_itoa, simple_itoa_int, digits, add_digit, value, IsDigit, simple_itoa-value,
}

abbrev pub is_digit : ℕ → Bool
is_digit c = leb b'0' c && leb c b'9'

-- The number that the digits at the front stand for.
unfoldable pub leading_value : ℕ → Bytes → ℕ
leading_value before [] = before
leading_value before (c ∷ cs) =
    let rest = leading_value (10 * before + (c - b'0')) cs in if is_digit c then rest else before

unfoldable pub drop_spaces : Bytes → Bytes
drop_spaces [] = []
drop_spaces (c ∷ cs) = if is_space c then drop_spaces cs else c ∷ cs

abbrev pub negative : ℕ → ℤ
negative zero = pos 0
negative (suc n) = negsuc n

-- What is stored of a sign (true where there is a minus) and a number: the nearest value.
abbrev pub store_signed : ℕ → Bool → ℕ → ℤ
store_signed limit false v = pos (min v (limit - 1))
store_signed limit true v = negative (min v limit)

-- In an unsigned integer a minus wraps.
abbrev pub store_unsigned : Bool → ℕ → ℤ
store_unsigned false v = pos (min v (2 ^ 64 - 1))
store_unsigned true v = if ltb v (2 ^ 64) then pos ((2 ^ 64 - v) % 2 ^ 64) else pos (2 ^ 64 - 1)

-- Behind the sign; without a digit 0 is stored.
abbrev pub of_digits : (Bool → ℕ → ℤ) → Bool → Bytes → ℤ
of_digits store minus [] = pos 0
of_digits store minus (c ∷ cs) =
    if is_digit c then store minus (leading_value 0 (c ∷ cs)) else pos 0

abbrev pub of_signed : (Bool → ℕ → ℤ) → ℤ → Bytes → ℤ
of_signed store old [] = old
of_signed store old (c ∷ cs) =
    if c == b'-'
    then of_digits store true cs
    else if c == b'+'
    then of_digits store false cs
    else of_digits store false (c ∷ cs)

-- `GenericAtoi`, with the value that is there: an empty text leaves it.
unfoldable pub generic_atoi : (Bool → ℕ → ℤ) → Bytes → ℤ → ℤ
unfolding drop_spaces
generic_atoi store s old = of_signed store old (drop_spaces s)

unfoldable pub safe_strto32 : Bytes → ℤ → ℤ
unfolding generic_atoi
safe_strto32 s old = generic_atoi (store_signed (2 ^ 31)) s old

unfoldable pub safe_strto64 : Bytes → ℤ → ℤ
unfolding generic_atoi
safe_strto64 s old = generic_atoi (store_signed (2 ^ 63)) s old

unfoldable pub safe_strtou64 : Bytes → ℤ → ℤ
unfolding generic_atoi
safe_strtou64 s old = generic_atoi store_unsigned s old

digit_tests : (c : ℕ) → IsDigit c → (is_digit c ≡ true) × (is_space c ≡ false)
digit_tests c d = (ground (arith, d), ground (arith, d))

leading_value-digits :
    (before : ℕ) (s : Bytes) → All IsDigit s → leading_value before s ≡ value before s
unfolding leading_value value
leading_value-digits before [] d = refl
leading_value-digits before (c ∷ cs) d =
    chosen (is_digit c) _ before (digit_tests c d.0).0
    ∙ leading_value-digits (10 * before + (c - b'0')) cs d.1

add_digit-positive : (n : ℕ) (front : Bytes) → 1 ≤ length (add_digit n front)
add_digit-positive n front = elim (Bool-cases (ltb n 10)) [
  | inl e ↦ rw e (omega arith)
  | inr e ↦ rw e (omega (arith, length-append front ((b'0' + n % 10) ∷ [])))
]

simple_itoa-positive : (n : ℕ) → 1 ≤ length (simple_itoa n)
unfolding digits
simple_itoa-positive n = add_digit-positive n _

-- Digits behind a sign, and digits without one.
of_digits-value :
    (store : Bool → ℕ → ℤ) (minus : Bool) (s : Bytes)
    → All IsDigit s
    → 1 ≤ length s
    → of_digits store minus s ≡ store minus (value 0 s)
of_digits-value store minus [] d p = absurd (omega arith)
of_digits-value store minus (c ∷ cs) d p =
    chosen (is_digit c) _ (pos 0) (digit_tests c d.0).0
    ∙ ap (store minus) (leading_value-digits 0 (c ∷ cs) d)

generic_atoi-digits :
    (store : Bool → ℕ → ℤ) (s : Bytes) (old : ℤ)
    → All IsDigit s
    → 1 ≤ length s
    → generic_atoi store s old ≡ store false (value 0 s)
unfolding generic_atoi drop_spaces
generic_atoi-digits store [] old d p = absurd (omega arith)
generic_atoi-digits store (c ∷ cs) old d p =
    ap (of_signed store old) (skip (is_space c) (drop_spaces cs) (c ∷ cs) (digit_tests c d.0).1)
    ∙ skip (c == b'-') _ _ (ground (arith, d.0))
    ∙ skip (c == b'+') _ _ (ground (arith, d.0))
    ∙ of_digits-value store false (c ∷ cs) d p

generic_atoi-minus :
    (store : Bool → ℕ → ℤ) (s : Bytes) (old : ℤ)
    → All IsDigit s
    → 1 ≤ length s
    → generic_atoi store (b'-' ∷ s) old ≡ store true (value 0 s)
unfolding generic_atoi drop_spaces
generic_atoi-minus store s old d p = of_digits-value store true s d p

negative-negsuc : (w : ℕ) → 1 ≤ w → negative w ≡ negsuc (w - 1)
negative-negsuc zero h = absurd (omega arith)
negative-negsuc (suc w) h = ap negsuc (omega arith)

-- `safe_strto32` reads back every `int` that `SimpleItoa` writes, whatever was there before.
pub safe_strto32-simple_itoa_int :
    (w : ℕ) (old : ℤ) → w < 2 ^ 32 → safe_strto32 (simple_itoa_int w) old ≡ signed32 w
unfolding safe_strto32 simple_itoa_int
safe_strto32-simple_itoa_int w old h = elim (Bool-cases (ltb w (2 ^ 31))) [
  | inl e ↦
      let small = ltb→lt w (2 ^ 31) e in
      let v = simple_itoa-value w (omega arith) in
      rw e (
        generic_atoi-digits (store_signed (2 ^ 31)) (simple_itoa w) old v.1 (simple_itoa-positive w)
        ∙ ap pos (omega (arith, v.0)))
  | inr e ↦
      let large : 2 ^ 31 ≤ w = ground (arith, e) in
      let n = 2 ^ 32 - w in
      let v = simple_itoa-value n (omega arith) in
      rw e (
        generic_atoi-minus (store_signed (2 ^ 31)) (simple_itoa n) old v.1 (simple_itoa-positive n)
        ∙ ap negative (let f : min (value 0 (simple_itoa n)) (2 ^ 31) ≡ n = omega (arith, v.0) in f)
        ∙ negative-negsuc n (omega arith))
]

-- `safe_strtou64` reads back every number that `SimpleItoa` writes.
pub safe_strtou64-simple_itoa :
    (n : ℕ) (old : ℤ) → n < 2 ^ 64 → safe_strtou64 (simple_itoa n) old ≡ pos n
unfolding safe_strtou64
safe_strtou64-simple_itoa n old h =
    let v = simple_itoa-value n h in
    generic_atoi-digits store_unsigned (simple_itoa n) old v.1 (simple_itoa-positive n)
    ∙ ap pos (omega (arith, v.0))
