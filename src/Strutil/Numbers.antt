-- ===== src/Strutil/Numbers.antt =====
-- asio/tool/strutil.h and strutil.cpp: numbers as text, and the concatenation of texts and numbers.
use asio.Prelude.{
  ℕ, zero, suc, ◌+◌, ◌-◌, ◌*◌, ◌/◌, ◌%◌, ◌^◌, ◌≤◌, ◌<◌, ◌≡◌, refl, sym, ap, ◌∙◌, Bool, false, ◌||◌,
  ◌&&◌, List, [], ◌∷◌, ◌++◌, Bytes, length, ltb, leb, ◌==◌, if◌then◌else◌, arith, length-append,
  append_assoc, append-nil, Bool-cases, inl, inr, All, ltb→lt,
}
use native.Mathlib.Nat.{pow-succ'}

-- The last digit behind those in front, which a number below 10 has none of.
abbrev pub add_digit : ℕ → Bytes → Bytes
add_digit n front = if ltb n 10 then (b'0' + n) ∷ [] else front ++ ((b'0' + n % 10) ∷ [])

-- The decimal digits of a number, one for each unit of fuel.
unfoldable pub digits : ℕ → ℕ → Bytes
digits zero n = []
digits (suc fuel) n = add_digit n (digits fuel (n / 10))

-- `SimpleItoa` on a `uint64_t`, which has 20 digits at most.
abbrev pub simple_itoa : ℕ → Bytes
simple_itoa n = digits 20 n

-- `SimpleItoa` on the pattern of an `int`.
unfoldable pub simple_itoa_int : ℕ → Bytes
simple_itoa_int w = if ltb w (2 ^ 31) then simple_itoa w else b'-' ∷ simple_itoa (2 ^ 32 - w)

-- What `stream >> result` takes: the text up to the first white space, behind any at the front.
abbrev pub is_space : ℕ → Bool
is_space c = c == 32 || leb 9 c && leb c 13

unfoldable pub word : Bytes → Bytes
word [] = []
word (c ∷ cs) = if is_space c then [] else c ∷ word cs

unfoldable pub next_word : Bytes → Bytes
next_word [] = []
next_word (c ∷ cs) = if is_space c then next_word cs else c ∷ word cs

-- `operator+` on a string and an `int`.
unfoldable pub plus_number : Bytes → ℕ → Bytes
plus_number s w = next_word (s ++ simple_itoa_int w)

-- `StringHolder`, by its three constructors, and the text that `operator+=` appends of it.
pub data StringHolder : Type 0 where
  of_string : Bytes → StringHolder
  of_c_string : Bytes → StringHolder
  of_number : ℕ → StringHolder

abbrev pub held_text : StringHolder → Bytes
held_text (of_string s) = s
held_text (of_c_string s) = s
held_text (of_number n) = simple_itoa n

-- `StrAppend` and `StrCat`, for any number of arguments.
unfoldable pub str_append : Bytes → List StringHolder → Bytes
str_append dest [] = dest
str_append dest (h ∷ hs) = str_append (dest ++ held_text h) hs

abbrev pub str_cat : List StringHolder → Bytes
str_cat hs = str_append [] hs

-- The number that decimal digits stand for, the last one first.
unfoldable pub value : ℕ → Bytes → ℕ
value before [] = before
value before (c ∷ cs) = value (10 * before + (c - b'0')) cs

abbrev pub IsDigit : ℕ → Type 0
IsDigit c = (b'0' ≤ c) × (c ≤ b'9')

value-append :
    (before : ℕ) (xs : Bytes) (c : ℕ)
    → value before (xs ++ (c ∷ [])) ≡ 10 * value before xs + (c - b'0')
unfolding value
value-append before [] c = refl
value-append before (x ∷ xs) c = value-append (10 * before + (x - b'0')) xs c

All-append : (xs : Bytes) (c : ℕ) → All IsDigit xs → IsDigit c → All IsDigit (xs ++ (c ∷ []))
All-append [] c all d = (d, tt)
All-append (x ∷ xs) c all d = (all.0, All-append xs c all.1 d)

add_digit-value :
    (n : ℕ) (front : Bytes)
    → (10 ≤ n → (value 0 front ≡ n / 10) × All IsDigit front)
    → (value 0 (add_digit n front) ≡ n) × All IsDigit (add_digit n front)
unfolding value
add_digit-value n front h = elim (Bool-cases (ltb n 10)) [
  | inl e ↦ let small = ltb→lt n 10 e in rw e (omega arith, (omega arith, tt))
  | inr e ↦
      let r = h (ground (arith, e)) in
      rw e (
        value-append 0 front (b'0' + n % 10) ∙ omega (arith, r.0),
        All-append front (b'0' + n % 10) r.1 (omega arith),
      )
]

digits-value :
    (fuel n : ℕ)
    → n < 10 ^ suc fuel
    → (value 0 (digits (suc fuel) n) ≡ n) × All IsDigit (digits (suc fuel) n)
unfolding digits
digits-value zero n h = add_digit-value n [] (λ large. absurd (omega (arith, h, large)))
digits-value (suc fuel) n h =
    add_digit-value n (digits (suc fuel) (n / 10))
      (λ large. digits-value fuel (n / 10) (omega (arith, h, pow-succ' 10 (suc fuel))))

-- `SimpleItoa` of a 64-bit number is decimal digits that stand for that number.
pub simple_itoa-value :
    (n : ℕ) → n < 2 ^ 64 → (value 0 (simple_itoa n) ≡ n) × All IsDigit (simple_itoa n)
simple_itoa-value n h = digits-value 19 n (omega (arith, h))

abbrev pub IsWord : Bytes → Type 0
IsWord s = All (λ c. is_space c ≡ false) s

word_whole : (s : Bytes) → IsWord s → word s ≡ s
unfolding word
word_whole [] all = refl
word_whole (c ∷ cs) all = rw (all.0, word_whole cs all.1) refl

next_word_whole : (s : Bytes) → IsWord s → next_word s ≡ s
unfolding next_word
next_word_whole [] all = refl
next_word_whole (c ∷ cs) all = rw (all.0, word_whole cs all.1) refl

IsWord-append : (s t : Bytes) → IsWord s → IsWord t → IsWord (s ++ t)
IsWord-append [] t all more = more
IsWord-append (c ∷ cs) t all more = (all.0, IsWord-append cs t all.1 more)

not_space : (c : ℕ) → IsDigit c → is_space c ≡ false
not_space c d = ground (arith, d)

IsWord-digits : (s : Bytes) → All IsDigit s → IsWord s
IsWord-digits [] all = tt
IsWord-digits (c ∷ cs) all = (not_space c all.0, IsWord-digits cs all.1)

IsWord-itoa : (w : ℕ) → w < 2 ^ 32 → IsWord (simple_itoa_int w)
unfolding simple_itoa_int
IsWord-itoa w h = elim (Bool-cases (ltb w (2 ^ 31))) [
  | inl e ↦ rw e (IsWord-digits (simple_itoa w) (simple_itoa-value w (omega (arith, h))).1)
  | inr e ↦ rw e (
    refl,
    IsWord-digits (simple_itoa (2 ^ 32 - w)) (simple_itoa-value (2 ^ 32 - w) (omega arith)).1,
  )
]

-- `operator+` of a string without white space and an `int` is the string with the number's digits
-- behind it. (At white space the text is cut off.)
pub plus_number-append :
    (s : Bytes) (w : ℕ) → IsWord s → w < 2 ^ 32 → plus_number s w ≡ s ++ simple_itoa_int w
unfolding plus_number
plus_number-append s w all h =
    next_word_whole (s ++ simple_itoa_int w)
      (IsWord-append s (simple_itoa_int w) all (IsWord-itoa w h))

-- The sum of the `Length`s that `StrAppend` and `StrCat` reserve.
abbrev pub held_length : List StringHolder → ℕ
held_length [] = 0
held_length (h ∷ hs) = length (held_text h) + held_length hs

-- `StrAppend` puts what `StrCat` makes of the arguments behind the string, and the length that it
-- reserves is that of the result.
pub str_append-str_cat :
    (dest : Bytes) (hs : List StringHolder)
    → (str_append dest hs ≡ dest ++ str_cat hs)
      × (length (str_append dest hs) ≡ length dest + held_length hs)
unfolding str_append
str_append-str_cat dest [] = (sym (append-nil dest), omega arith)
str_append-str_cat dest (h ∷ hs) =
    let r = str_append-str_cat (dest ++ held_text h) hs in
    let q = str_append-str_cat (held_text h) hs in
    (
      r.0 ∙ append_assoc dest (held_text h) (str_cat hs) ∙ ap (λ t. dest ++ t) (sym q.0),
      omega (arith, r.1, length-append dest (held_text h)),
    )
