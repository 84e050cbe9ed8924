-- ===== src/Strutil/Search.antt =====
-- asio/tool/strutil.cpp: `FindNth`, `StripString` and `random_string`.
pub mod Nth
use asio.Prelude.{
  ℕ, zero, suc, ◌+◌, ◌-◌, ◌%◌, ◌^◌, ◌≤◌, ◌<◌, ◌≡◌, ◌≢◌, ◌⊎◌, refl, sym, ap, ◌∙◌, Bool, true, false,
  List, [], ◌∷◌, Option, none, some, Bytes, length, ltb, ◌==◌, ==_iff, if◌then◌else◌, arith, take,
  drop, get_elem?, inl, inr, map, All, Bool-cases, Option-cases, skip, chosen, length-drop, lt→ltb,
  ltb→lt,
}
use mathlib.Core.Path.{subst}
use asio.Prelude.Assoc.{contains}

-- `std::string::npos`.
abbrev pub npos : ℕ
npos = 2 ^ 64 - 1

abbrev pub next_index : Option ℕ → Option ℕ
next_index none = none
next_index (some i) = some (suc i)

-- The first index of a character.
unfoldable pub index_of : ℕ → Bytes → Option ℕ
index_of c [] = none
index_of c (x ∷ xs) = if x == c then some 0 else next_index (index_of c xs)

abbrev pub found_at : ℕ → Option ℕ → ℕ
found_at pos none = npos
found_at pos (some i) = pos + i

-- `s.find_first_of(c, pos)`.
unfoldable pub find_first_of : Bytes → ℕ → ℕ → ℕ
find_first_of s c pos = found_at pos (index_of c (drop pos s))

-- The loop of `FindNth`, with the rounds that are left.
unfoldable pub find_nth_loop : ℕ → Bytes → ℕ → ℕ → ℕ
unfolding find_first_of
find_nth_loop zero s c pos = pos
find_nth_loop (suc n) s c pos =
    let p = find_first_of s c ((pos + 1) % 2 ^ 64) in
    let rest = find_nth_loop n s c p in if p == npos then p else rest

-- `FindNth`, with the pattern of an `int`; a negative one has no round.
unfoldable pub find_nth : Bytes → ℕ → ℕ → ℕ
unfolding find_nth_loop
find_nth s c n = find_nth_loop (if ltb n (2 ^ 31) then n else 0) s c npos

-- The part of a string in front of the first NUL, each of some characters replaced; `remove` and the
-- string are read as C strings.
unfoldable pub strip_string : Bytes → Bytes → ℕ → Bytes
strip_string [] remove replace_with = []
strip_string (c ∷ cs) remove replace_with =
    let rest = strip_string cs remove replace_with in
    if c == 0 then c ∷ cs else if contains c remove then replace_with ∷ rest else c ∷ rest

-- `random_string`, of what `rand` gives.
abbrev pub character : ℕ → ℕ
character i = if ltb i 10 then b'0' + i else if ltb i 36 then b'A' + (i - 10) else b'a' + (i - 36)

abbrev pub random_string : List ℕ → Bytes
random_string rands = map (λ r. character (r % 62)) rands

abbrev pub IsAlphanumeric : ℕ → Type 0
IsAlphanumeric c =
    ((b'0' ≤ c) × (c ≤ b'9')) ⊎ (((b'A' ≤ c) × (c ≤ b'Z')) ⊎ ((b'a' ≤ c) × (c ≤ b'z')))

character-IsAlphanumeric : (i : ℕ) → i < 62 → IsAlphanumeric (character i)
character-IsAlphanumeric i h = elim (Bool-cases (ltb i 10)) [
  | inl d ↦ rw d (inl (omega (arith, ltb→lt i 10 d)))
  | inr d ↦ elim (Bool-cases (ltb i 36)) [
    | inl u ↦ rw (d, u) (inr (inl (ground (arith, d, u))))
    | inr u ↦ rw (d, u) (inr (inr (ground (arith, d, u))))
  ]
]

-- Every character of it is a letter or a digit, so no index is out of the array.
pub random_string-IsAlphanumeric : (rands : List ℕ) → All IsAlphanumeric (random_string rands)
random_string-IsAlphanumeric [] = tt
random_string-IsAlphanumeric (r ∷ rs) =
    (character-IsAlphanumeric (r % 62) (omega arith), random_string-IsAlphanumeric rs)

-- Nothing that was to be replaced is left, unless it is what it is replaced by.
pub strip_string-contains :
    (s remove : Bytes) (replace_with x : ℕ)
    → contains 0 s ≡ false
    → contains x remove ≡ true
    → (x == replace_with) ≡ false
    → contains x (strip_string s remove replace_with) ≡ false
unfolding strip_string contains
strip_string-contains [] remove r x z i n = refl
strip_string-contains (c ∷ cs) remove r x z i n =
    ground (arith, z, i, n, strip_string-contains cs remove r x)
