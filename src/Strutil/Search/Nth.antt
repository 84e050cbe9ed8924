-- ===== src/Strutil/Search/Nth.antt =====
-- asio/tool/strutil.cpp: `FindNth` finds the occurrence with the given number.
use asio.Prelude.{
  ℕ, zero, suc, ◌+◌, ◌%◌, ◌^◌, ◌≤◌, ◌<◌, ◌≡◌, ◌⊎◌, refl, sym, ap, ◌∙◌, Bool, true, false, [], ◌∷◌,
  Option, none, some, Bytes, length, ltb, ◌==◌, ==_iff, if◌then◌else◌, arith, take, drop, get_elem?,
  inl, inr, Bool-cases, Option-cases, skip, chosen, length-drop, lt→ltb,
}
use mathlib.Core.Path.{subst}
use asio.Strutil.Search.{
  npos, next_index, index_of, found_at, find_first_of, find_nth_loop, find_nth,
}

-- How often a character occurs.
abbrev pub one_if : Bool → ℕ
one_if true = 1
one_if false = 0

abbrev pub count : ℕ → Bytes → ℕ
count c [] = 0
count c (x ∷ xs) = one_if (x == c) + count c xs

-- What `FindNth` promises: the index of the occurrence with that number, counted from 1, or `npos`
-- where there are fewer.
abbrev pub IsNth : Bytes → ℕ → ℕ → ℕ → Type 0
IsNth s c m r =
    ((r ≡ npos) × (count c s < m)) ⊎ ((get_elem? s r ≡ some c) × (count c (take r s) + 1 ≡ m))

some_injective : {a b : ℕ} → ◌≡◌ {A = Option ℕ} (some a) (some b) → a ≡ b
some_injective e = cc

next_index-none : (o : Option ℕ) → next_index o ≡ none → o ≡ none
next_index-none none e = refl
next_index-none (some i) e = cc

index_of-none : (c : ℕ) (s : Bytes) → index_of c s ≡ none → count c s ≡ 0
unfolding index_of
index_of-none c [] e = refl
index_of-none c (x ∷ xs) e = elim (Bool-cases (x == c)) [
  | inl same ↦ absurd (let f : some 0 ≡ none = sym (chosen (x == c) _ _ same) ∙ e in cc)
  | inr other ↦
      let rest = next_index-none (index_of c xs) (sym (skip (x == c) _ _ other) ∙ e) in
      omega (arith, ap one_if other, index_of-none c xs rest)
]

-- The first occurrence in a string.
abbrev IsFirst : ℕ → Bytes → ℕ → Type 0
IsFirst c s i =
    (get_elem? s i ≡ some c)
    × (count c (take i s) ≡ 0)
    × (count c (take (suc i) s) ≡ 1)
    × (suc i ≤ length s)

index_of-IsFirst : (c i : ℕ) (s : Bytes) → index_of c s ≡ some i → IsFirst c s i
unfolding index_of
index_of-IsFirst c i [] e = absurd (let f : none ≡ some i = e in cc)
index_of-IsFirst c i (x ∷ xs) e = elim (Bool-cases (x == c)) [
  | inl same ↦ at_front i (sym (chosen (x == c) _ _ same) ∙ e) ((==_iff x c).0 same)
  | inr other ↦
      further i (index_of c xs) refl (sym (skip (x == c) _ _ other) ∙ e) other
        (λ j. index_of-IsFirst c j xs)
]
  where
    at_front : (j : ℕ) → some 0 ≡ some j → x ≡ c → IsFirst c (x ∷ xs) j
    at_front zero q same =
        (ap some same, refl, omega (arith, ap one_if ((==_iff x c).1 same)), omega arith)
    at_front (suc j) q same = absurd (omega (arith, some_injective q))

    further :
        (j : ℕ) (o : Option ℕ)
        → index_of c xs ≡ o
        → next_index o ≡ some j
        → (x == c) ≡ false
        → ((j : ℕ) → index_of c xs ≡ some j → IsFirst c xs j)
        → IsFirst c (x ∷ xs) j
    further j none q n other rest = cc
    further zero (some k) q n other rest = absurd (omega (arith, some_injective n))
    further (suc j) (some k) q n other rest =
        let r = rest j (q ∙ ap some (omega (arith, some_injective n))) in
        (
          r.0,
          omega (arith, ap one_if other, r.1),
          omega (arith, ap one_if other, r.2),
          omega (arith, r.3),
        )

count-take :
    (c q i : ℕ) (s : Bytes)
    → count c (take (q + i) s) ≡ count c (take q s) + count c (take i (drop q s))
count-take c zero i s =
    ap (λ n. count c (take n s)) (let e : 0 + i ≡ i = omega arith in e) ∙ omega arith
count-take c (suc q) i [] =
    ap (λ n. count c (take n [])) (let e : suc q + i ≡ suc (q + i) = omega arith in e) ∙ empty i
  where
    empty : (n : ℕ) → 0 ≡ 0 + count c (take n [])
    empty zero = omega arith
    empty (suc n) = omega arith
count-take c (suc q) i (x ∷ xs) =
    ap (λ n. count c (take n (x ∷ xs))) (let e : suc q + i ≡ suc (q + i) = omega arith in e)
    ∙ omega (arith, count-take c q i xs)

get_elem?-drop : (q i : ℕ) (s : Bytes) → get_elem? (drop q s) i ≡ get_elem? s (q + i)
get_elem?-drop zero i s = ap (get_elem? s) (omega arith)
get_elem?-drop (suc q) i [] = refl
get_elem?-drop (suc q) i (x ∷ xs) =
    get_elem?-drop q i xs
    ∙ ap (get_elem? (x ∷ xs)) (let e : suc (q + i) ≡ suc q + i = omega arith in e)

count-drop : (c q : ℕ) (s : Bytes) → count c (take q s) + count c (drop q s) ≡ count c s
count-drop c zero s = omega arith
count-drop c (suc q) [] = omega arith
count-drop c (suc q) (x ∷ xs) = omega (arith, count-drop c q xs)

-- The first occurrence behind a position.
first_behind :
    (c q i : ℕ) (s : Bytes)
    → q ≤ length s
    → index_of c (drop q s) ≡ some i
    → (get_elem? s (q + i) ≡ some c)
      × (count c (take (q + i) s) ≡ count c (take q s))
      × (count c (take (q + i + 1) s) ≡ count c (take q s) + 1)
      × (q + i + 1 ≤ length s)
first_behind c q i s inside e =
    let r = index_of-IsFirst c i (drop q s) e in
    (
      sym (get_elem?-drop q i s) ∙ r.0,
      omega (arith, count-take c q i s, r.1),
      ap (λ n. count c (take n s)) (let f : q + i + 1 ≡ q + suc i = omega arith in f)
          ∙ omega (arith, count-take c q (suc i) s, r.2),
      omega (arith, r.3, length-drop q s),
    )

-- A round that finds nothing, and one that finds.
loop_stops :
    (n pos : ℕ) (s : Bytes) (c : ℕ)
    → find_first_of s c ((pos + 1) % 2 ^ 64) ≡ npos
    → find_nth_loop (suc n) s c pos ≡ npos
unfolding find_nth_loop
loop_stops n pos s c e = ap (λ p. if p == npos then p else find_nth_loop n s c p) e

loop_goes_on :
    (n pos p : ℕ) (s : Bytes) (c : ℕ)
    → find_first_of s c ((pos + 1) % 2 ^ 64) ≡ p
    → p < npos
    → find_nth_loop (suc n) s c pos ≡ find_nth_loop n s c p
unfolding find_nth_loop
loop_goes_on n pos p s c e small =
    ap (λ p. if p == npos then p else find_nth_loop n s c p) e
    ∙ skip (p == npos) p (find_nth_loop n s c p) (ground (arith, small))

find_first_of-found :
    (s : Bytes) (c pos q : ℕ) (o : Option ℕ)
    → pos ≡ q
    → index_of c (drop q s) ≡ o
    → find_first_of s c pos ≡ found_at q o
unfolding find_first_of
find_first_of-found s c pos q o at e = rw (at, e) refl

-- An occurrence that has some number of others before it.
record Occurs (s : Bytes) (c k p : ℕ) : Type 0 where
  there : get_elem? s p ≡ some c
  before : count c (take p s) ≡ k
  with_it : count c (take (p + 1) s) ≡ k + 1
  inside : p + 1 ≤ length s

-- A round of the loop, from a position with some occurrences before it.
round-IsNth :
    (n k pos q : ℕ) (s : Bytes) (c : ℕ)
    → length s < npos
    → (pos + 1) % 2 ^ 64 ≡ q
    → q ≤ length s
    → count c (take q s) ≡ k
    → ((p : ℕ) → Occurs s c k p → IsNth s c (k + suc n) (find_nth_loop n s c p))
    → IsNth s c (k + suc n) (find_nth_loop (suc n) s c pos)
round-IsNth n k pos q s c small at inside seen rest = elim (Option-cases (index_of c (drop q s))) [
  | inl e ↦ inl (
    loop_stops n pos s c (find_first_of-found s c ((pos + 1) % 2 ^ 64) q none at e),
    omega (arith, count-drop c q s, index_of-none c (drop q s) e, seen),
  )
  | inr (i, e) ↦
      let r = first_behind c q i s inside e in
      let here = find_first_of-found s c ((pos + 1) % 2 ^ 64) q (some i) at e in
      subst (IsNth s c (k + suc n)) (sym (loop_goes_on n pos (q + i) s c here (omega (arith, r.3))))
        (rest (q + i) (record {
          there = r.0;
          before = r.1 ∙ seen;
          with_it = omega (arith, r.2, seen);
          inside = r.3;
        }))
]

rounds-IsNth :
    (n k p : ℕ) (s : Bytes) (c : ℕ)
    → length s < npos
    → Occurs s c k p
    → IsNth s c (k + suc n) (find_nth_loop n s c p)
unfolding find_nth_loop
rounds-IsNth zero k p s c small o = inr (o.there, omega (arith, o.before))
rounds-IsNth (suc n) k p s c small o =
    subst (λ m. IsNth s c m (find_nth_loop (suc n) s c p))
      (let e : k + 1 + suc n ≡ k + suc (suc n) = omega arith in e)
      (round-IsNth n (k + 1) p (p + 1) s c small (omega (arith, o.inside)) o.inside o.with_it
        (λ p' o'. rounds-IsNth n (k + 1) p' s c small o'))

-- `FindNth` returns the index of the occurrence of the character that has the given number, counted
-- from 1, and `npos` where there are fewer. The number is a positive `int`, and the string is shorter
-- than `npos`.
pub find_nth-IsNth :
    (s : Bytes) (c n : ℕ) → length s < npos → 1 ≤ n → n < 2 ^ 31 → IsNth s c n (find_nth s c n)
unfolding find_nth
find_nth-IsNth s c zero small positive below = absurd (omega arith)
find_nth-IsNth s c (suc n) small positive below =
    subst (λ rounds. IsNth s c (suc n) (find_nth_loop rounds s c npos))
      (sym (chosen (ltb (suc n) (2 ^ 31)) (suc n) 0 (lt→ltb (suc n) (2 ^ 31) below)))
      (subst (λ m. IsNth s c m (find_nth_loop (suc n) s c npos))
        (let e : 0 + suc n ≡ suc n = omega arith in e)
        (round-IsNth n 0 npos 0 s c small (omega arith) (omega arith) refl
          (λ p o. rounds-IsNth n 0 p s c small o)))
