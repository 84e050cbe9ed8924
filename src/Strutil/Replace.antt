-- ===== src/Strutil/Replace.antt =====
-- asio/tool/strutil.cpp: replacing the matches of a string.
use asio.Prelude.{
  ℕ, zero, suc, ◌+◌, ◌≤◌, ◌<◌, ◌^◌, ◌≡◌, refl, ap, ◌∙◌, false, [], ◌∷◌, ◌++◌, Option, none, some,
  Bytes, length, drop, leb, ◌==◌, Exec, ok, arith, length-append, Bool-cases, inl, inr,
}
use asio.Strutil.{
  has_prefix_string, cons_before, cut, replace_round, replace_loop, global_replace_substring,
}
use asio.Strutil.Affixes.{has_prefix-splits}

-- No match of `d` in `s` starts below an index.
abbrev pub Unmatched : Bytes → Bytes → ℕ → Type 0
Unmatched d s n = (i : ℕ) → i < n → has_prefix_string (drop i s) d ≡ false

-- The text `t` is `s` with its matches of `d` replaced, from the left to the right and as often as there
-- is one, by `r`, in `n` replacements; what was replaced is not matched again.
pub data Replaced (d r : Bytes) : Bytes → ℕ → Bytes → Type 0 where
  nothing_left : {s : Bytes} → Unmatched d s (length s) → Replaced d r s 0 s
  first_match :
      {s t : Bytes} {n : ℕ} (a b : Bytes)
      → s ≡ a ++ (d ++ b)
      → Unmatched d s (length a)
      → Replaced d r b n t
      → Replaced d r s (suc n) (a ++ (r ++ t))

-- What `cut` finds of a string.
unfoldable Found : Bytes → Bytes → Option (Bytes × Bytes) → Type 0
Found d s none = Unmatched d s (length s)
Found d s (some (a, b)) = (s ≡ a ++ (d ++ b)) × Unmatched d s (length a)

later :
    (d : Bytes) (x : ℕ) (xs : Bytes) (n : ℕ)
    → has_prefix_string (x ∷ xs) d ≡ false
    → Unmatched d xs n
    → Unmatched d (x ∷ xs) (suc n)
later d x xs n e u zero l = e
later d x xs n e u (suc i) l = u i (omega arith)

cons-Found :
    (d : Bytes) (x : ℕ) (xs : Bytes) (o : Option (Bytes × Bytes))
    → has_prefix_string (x ∷ xs) d ≡ false
    → Found d xs o
    → Found d (x ∷ xs) (cons_before x o)
unfolding Found
cons-Found d x xs none e h = later d x xs (length xs) e h
cons-Found d x xs (some (a, b)) e h = (ap (λ t. x ∷ t) h.0, later d x xs (length a) e h.1)

cut-Found : (d s : Bytes) → Found d s (cut d s)
unfolding cut Found
cut-Found d [] = λ i l. absurd (omega arith)
cut-Found d (x ∷ xs) = elim (Bool-cases (has_prefix_string (x ∷ xs) d)) [
  | inl e ↦ rw e (has_prefix-splits (x ∷ xs) d e, λ i l. absurd (omega arith))
  | inr e ↦ rw e (cons-Found d x xs (cut d xs) e (cut-Found d xs))
]

Replaces : Bytes → Bytes → Bytes → Exec (ℕ × Bytes) → Type 0
Replaces d r s result = (n : ℕ) × (t : Bytes) × (result ≡ ok (n, t)) × Replaced d r s n t

round-Replaces :
    (again : ℕ → Bytes → Exec (ℕ × Bytes)) (fuel pos : ℕ) (d r s : Bytes)
    (o : Option (Bytes × Bytes))
    → 1 ≤ length d
    → Found d s o
    → length s < suc fuel
    → pos + length s < 2 ^ 31
    → ((k : ℕ) (t : Bytes) → length t < fuel → k + length t < 2 ^ 31 → Replaces d r t (again k t))
    → Replaces d r s (replace_round again pos d r s o)
unfolding Found Replaces
round-Replaces again fuel pos d r s none some_d f h fits rest = (0, s, refl, nothing_left f)
round-Replaces again fuel pos d r s (some (a, b)) some_d f h fits rest =
    let whole : length s ≡ length a + (length d + length b) =
      ap length f.0 ∙ length-append a (d ++ b) ∙ ap (λ k. length a + k) (length-append d b) in
    let next = pos + length a + length d in
    let x = rest next b (omega (arith, whole)) (omega (arith, whole)) in
    let small : leb (2 ^ 31) next ≡ false = ground (arith, whole, fits) in
    (suc x.0, a ++ (r ++ x.1), rw (small, x.2) refl, first_match a b f.0 f.1 x.3)

loop-Replaces :
    (fuel pos : ℕ) (d r s : Bytes)
    → 1 ≤ length d
    → length s < fuel
    → pos + length s < 2 ^ 31
    → Replaces d r s (replace_loop fuel d r pos s)
unfolding replace_loop
loop-Replaces zero pos d r s some_d h fits = absurd (omega arith)
loop-Replaces (suc fuel) pos d r s some_d h fits =
    round-Replaces (replace_loop fuel d r) fuel pos d r s (cut d s) some_d (cut-Found d s) h fits
      (λ k t l small. loop-Replaces fuel k d r t some_d l small)

-- `GlobalReplaceSubstring` ends on every string below 2 ^ 31 bytes, of which the indices fit into an
-- `int`. For a string to replace that is not empty it returns the text in which every match was
-- replaced, one after the other from the left, with the number of them; for an empty one it returns the
-- string and 0.
pub global_replace_substring-Replaced :
    (d r s : Bytes)
    → length s < 2 ^ 31
    → (n : ℕ) × (t : Bytes) × (global_replace_substring d r s ≡ ok (n, t))
      × (1 ≤ length d → Replaced d r s n t)
      × (length d ≡ 0 → (n ≡ 0) × (t ≡ s))
unfolding global_replace_substring Replaces
global_replace_substring-Replaced d r s fits = elim (Bool-cases (length s == 0)) [
  | inl e ↦ (
    0,
    s,
    rw e refl,
    (λ some_d. nothing_left (λ i l. absurd (ground (arith, e, l)))),
    λ x. (refl, refl),
  )
  | inr e ↦ elim (Bool-cases (length d == 0)) [
    | inl f ↦
        (0, s, rw (e, f) refl, (λ some_d. absurd (ground (arith, f, some_d))), λ x. (refl, refl))
    | inr f ↦
        let x =
          loop-Replaces (suc (length s)) 0 d r s (ground (arith, f)) (omega arith) (omega arith) in
        (x.0, x.1, rw (e, f) x.2, (λ some_d. x.3), λ none_d. absurd (ground (arith, f, none_d)))
  ]
]
