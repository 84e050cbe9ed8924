-- ===== src/Prelude/Assoc.antt =====
-- `std::map` and `std::unordered_map` as association lists with at most one entry for a key, and
-- `std::set<int>` as an ascending list.
use asio.Prelude.{
  ℕ, suc, ◌+◌, ◌-◌, ◌^◌, ap, true, ==_iff, ◌≤◌, ◌<◌, ◌≡◌, refl, Bool, false, not, ◌&&◌, ◌||◌,
  Option, none, some, List, [], ◌∷◌, arith, Eq, ◌=?◌, ◌==◌, ltb, if◌then◌else◌,
}

module _ {ℓ κ} {K : Type ℓ} {V : Type κ} ⦃e : Eq K⦄ where
  -- `find`, as the value found.
  unfoldable pub find : K → List (K × V) → Option V
  find k [] = none
  find k ((j, v) ∷ m) = if j =? k then some v else find k m

  -- `m[k] = v`.
  unfoldable pub assign : K → V → List (K × V) → List (K × V)
  assign k v [] = (k, v) ∷ []
  assign k v ((j, w) ∷ m) = if j =? k then (k, v) ∷ m else (j, w) ∷ assign k v m

  -- `erase(k)`.
  unfoldable pub erase : K → List (K × V) → List (K × V)
  erase k [] = []
  erase k ((j, w) ∷ m) = if j =? k then erase k m else (j, w) ∷ erase k m

  pub find-assign :
      (k j : K) (v : V) (m : List (K × V))
      → find j (assign k v m) ≡ (if k =? j then some v else find j m)
  unfolding find assign
  find-assign k j v [] = refl
  find-assign k j v ((i, w) ∷ m) =
      ground (arith, e.beq_iff k j, e.beq_iff i k, e.beq_iff i j, find-assign k j v m)

  pub find-erase :
      (k j : K) (m : List (K × V)) → find j (erase k m) ≡ (if k =? j then none else find j m)
  unfolding find erase
  find-erase k j [] = ground arith
  find-erase k j ((i, w) ∷ m) =
      ground (arith, e.beq_iff k j, e.beq_iff i k, e.beq_iff i j, find-erase k j m)

  -- Every value of a map, changed in place by a loop over its entries.
  unfoldable pub map_values : (V → V) → List (K × V) → List (K × V)
  map_values f [] = []
  map_values f ((j, w) ∷ m) = (j, f w) ∷ map_values f m

  pub find-map_values :
      (f : V → V) (k : K) (m : List (K × V)) (w : V)
      → find k m ≡ some w
      → find k (map_values f m) ≡ some (f w)
  unfolding find map_values
  find-map_values f k [] w h = cc
  find-map_values f k ((i, v) ∷ m) w h = ground (arith, find-map_values f k m w)

  pub find-map_values-none :
      (f : V → V) (k : K) (m : List (K × V)) → find k m ≡ none → find k (map_values f m) ≡ none
  unfolding find map_values
  find-map_values-none f k [] h = refl
  find-map_values-none f k ((i, v) ∷ m) h = ground (arith, find-map_values-none f k m)

-- The place of a bit pattern in the order of the `int`s that the patterns stand for: those of the negative
-- ones come first. A number that is no pattern of 32 bits is its own place.
unfoldable pub signed_rank : ℕ → ℕ
signed_rank w = if ltb w (2 ^ 31) then w + 2 ^ 31 else if ltb w (2 ^ 32) then w - 2 ^ 31 else w

pub signed_rank_injective : (a b : ℕ) → signed_rank a ≡ signed_rank b → a ≡ b
unfolding signed_rank
signed_rank_injective a b e = ground (arith, e)

-- `std::set<int>`, of the patterns of its elements in the order of the elements.
unfoldable pub contains : ℕ → List ℕ → Bool
contains a [] = false
contains a (x ∷ xs) = x == a || contains a xs

unfoldable pub set_insert : ℕ → List ℕ → List ℕ
set_insert a [] = a ∷ []
set_insert a (x ∷ xs) =
    if x == a
    then x ∷ xs
    else if ltb (signed_rank a) (signed_rank x)
    then a ∷ x ∷ xs
    else x ∷ set_insert a xs

unfoldable pub set_erase : ℕ → List ℕ → List ℕ
set_erase a [] = []
set_erase a (x ∷ xs) = if x == a then xs else x ∷ set_erase a xs

-- Strictly ascending as `int`s, from a place on.
abbrev pub IsAscending : ℕ → List ℕ → Type 0
IsAscending n [] = Unit {0}
IsAscending n (x ∷ xs) = (n ≤ signed_rank x) × IsAscending (suc (signed_rank x)) xs

pub contains-set_insert :
    (a b : ℕ) (xs : List ℕ) → contains b (set_insert a xs) ≡ (a == b || contains b xs)
unfolding contains set_insert
contains-set_insert a b [] = refl
contains-set_insert a b (x ∷ xs) = ground (arith, contains-set_insert a b xs)

same_rank : (x a : ℕ) → (x == a) ≡ true → signed_rank x ≡ signed_rank a
same_rank x a e = ap signed_rank ((==_iff x a).0 e)

pub contains_below :
    (a n : ℕ) (xs : List ℕ) → IsAscending n xs → signed_rank a < n → contains a xs ≡ false
unfolding contains
contains_below a n [] h lt = refl
contains_below a n (x ∷ xs) h lt =
    ground (arith, same_rank x a, contains_below a (suc (signed_rank x)) xs h.1)

pub contains-set_erase :
    (a b n : ℕ) (xs : List ℕ)
    → IsAscending n xs
    → contains b (set_erase a xs) ≡ (not (a == b) && contains b xs)
unfolding contains set_erase
contains-set_erase a b n [] h = ground arith
contains-set_erase a b n (x ∷ xs) h = ground (
  arith,
  same_rank x b,
  contains-set_erase a b (suc (signed_rank x)) xs h.1,
  contains_below b (suc (signed_rank x)) xs h.1,
)

pub IsAscending-weaken : (m n : ℕ) (xs : List ℕ) → m ≤ n → IsAscending n xs → IsAscending m xs
IsAscending-weaken m n [] h s = tt
IsAscending-weaken m n (x ∷ xs) h s = (omega arith, s.1)

pub set_insert-IsAscending :
    (a n : ℕ) (xs : List ℕ) → n ≤ signed_rank a → IsAscending n xs → IsAscending n (set_insert a xs)
unfolding set_insert
set_insert-IsAscending a n [] h s = (h, tt)
set_insert-IsAscending a n (x ∷ xs) h s =
    ground (arith, signed_rank_injective a x, set_insert-IsAscending a (suc (signed_rank x)) xs)

pub set_erase-IsAscending :
    (a n : ℕ) (xs : List ℕ) → IsAscending n xs → IsAscending n (set_erase a xs)
unfolding set_erase
set_erase-IsAscending a n [] s = tt
set_erase-IsAscending a n (x ∷ xs) s = ground (
  arith,
  set_erase-IsAscending a (suc (signed_rank x)) xs s.1,
  IsAscending-weaken n (suc (signed_rank x)) xs,
)
