-- ===== src/Strutil/Split.antt =====
-- asio/tool/strutil.cpp: splitting a string at a character.
use asio.Prelude.{
  ℕ, zero, suc, ◌≤◌, ◌<◌, ◌≡◌, refl, sym, ap, ◌∙◌, false, List, [], ◌∷◌, ◌++◌, Option, none, some,
  Bytes, bytes_beq, length, ◌==◌, if◌then◌else◌, Exec, ok, arith, All, append-nil, Bool-cases,
  ==_iff, inl, inr, length-append,
}
use asio.Prelude.Assoc.{contains}
use asio.Strutil.{
  has_prefix_string, cons_before, cut, add_piece, split_round, split_loop, split_string_using,
  from_vector, strrmm,
}

-- A piece: not empty, and without the character.
abbrev pub IsPiece : ℕ → Bytes → Type 0
IsPiece c p = (1 ≤ length p) × (contains c p ≡ false)

unfoldable pub concat : List Bytes → Bytes
concat [] = []
concat (p ∷ ps) = p ++ concat ps

-- What `cut` finds of a character.
unfoldable pub Cuts : ℕ → Bytes → Option (Bytes × Bytes) → Type 0
Cuts c s none = contains c s ≡ false
Cuts c s (some (a, b)) = (s ≡ a ++ (c ∷ b)) × (contains c a ≡ false)

at_char : (c x : ℕ) (xs : Bytes) → has_prefix_string (x ∷ xs) (c ∷ []) ≡ (x == c)
unfolding has_prefix_string bytes_beq
at_char c x xs = ground arith

cut_char :
    (c x : ℕ) (xs : Bytes)
    → cut (c ∷ []) (x ∷ xs) ≡ (if x == c then some ([], xs) else cons_before x (cut (c ∷ []) xs))
unfolding cut
cut_char c x xs = rw (at_char c x xs) refl

skip_char :
    (c x : ℕ) (xs : Bytes) → (x == c) ≡ false → contains c xs ≡ false → contains c (x ∷ xs) ≡ false
unfolding contains
skip_char c x xs e h = ground (arith, e, h)

if-Cuts :
    (c x : ℕ) (xs : Bytes) (o : Option (Bytes × Bytes))
    → Cuts c xs o
    → Cuts c (x ∷ xs) (if x == c then some ([], xs) else cons_before x o)
unfolding Cuts contains
if-Cuts c x xs none h = elim (Bool-cases (x == c)) [
  | inl e ↦ rw e (ap (λ y. y ∷ xs) ((==_iff x c).0 e), refl)
  | inr e ↦ rw e (skip_char c x xs e h)
]
if-Cuts c x xs (some (a, b)) h = elim (Bool-cases (x == c)) [
  | inl e ↦ rw e (ap (λ y. y ∷ xs) ((==_iff x c).0 e), refl)
  | inr e ↦ rw e (ap (λ t. x ∷ t) h.0, skip_char c x a e h.1)
]

cut_nothing : (c : ℕ) → Cuts c [] (cut (c ∷ []) [])
unfolding Cuts cut contains
cut_nothing c = refl

cut-Cuts : (c : ℕ) (s : Bytes) → Cuts c s (cut (c ∷ []) s)
cut-Cuts c [] = cut_nothing c
cut-Cuts c (x ∷ xs) = rw (cut_char c x xs) (if-Cuts c x xs (cut (c ∷ []) xs) (cut-Cuts c xs))

strrmm_free :
    (c : ℕ) (a t : Bytes) → contains c a ≡ false → strrmm (a ++ t) (c ∷ []) ≡ a ++ strrmm t (c ∷ [])
unfolding strrmm contains
strrmm_free c [] t h = refl
strrmm_free c (x ∷ a) t h = ground (arith, strrmm_free c a t)

strrmm_char : (c : ℕ) (t : Bytes) → strrmm (c ∷ t) (c ∷ []) ≡ strrmm t (c ∷ [])
unfolding strrmm contains
strrmm_char c t = ground arith

add_piece-pieces :
    (c : ℕ) (a : Bytes) (ps : List Bytes)
    → contains c a ≡ false
    → All (IsPiece c) ps
    → All (IsPiece c) (add_piece a ps) × (concat (add_piece a ps) ≡ a ++ concat ps)
unfolding concat
add_piece-pieces c [] ps h all = (all, refl)
add_piece-pieces c (x ∷ a) ps h all = (((omega arith, h), all), refl)

-- What the splitting of a text comes to.
abbrev Splits : ℕ → Bytes → Exec (List Bytes) → Type 0
Splits c s r =
    (ps : List Bytes) × (r ≡ ok ps) × All (IsPiece c) ps × (concat ps ≡ strrmm s (c ∷ []))

round-Splits :
    (fuel c : ℕ) (s : Bytes) (o : Option (Bytes × Bytes))
    → Cuts c s o
    → length s < suc fuel
    → ((t : Bytes) → length t < fuel → Splits c t (split_loop fuel (c ∷ []) t))
    → Splits c s (split_round (split_loop fuel (c ∷ [])) s o)
unfolding Cuts concat strrmm contains
round-Splits fuel c s none free h again =
    let r = add_piece-pieces c s [] free tt in
    (
      add_piece s [],
      refl,
      r.0,
      r.1 ∙ sym (strrmm_free c s [] free) ∙ ap (λ t. strrmm t (c ∷ [])) (append-nil s),
    )
round-Splits fuel c s (some (a, b)) (e, free) h again =
    let x = again b (omega (arith, ap length e, length-append a (c ∷ b))) in
    let r = add_piece-pieces c a x.0 free x.2 in
    (
      add_piece a x.0,
      rw x.1 refl,
      r.0,
      r.1
          ∙ ap (λ t. a ++ t) (x.3 ∙ sym (strrmm_char c b))
          ∙ sym (strrmm_free c a (c ∷ b) free)
          ∙ ap (λ t. strrmm t (c ∷ [])) (sym e),
    )

split_loop-Splits :
    (fuel c : ℕ) (s : Bytes) → length s < fuel → Splits c s (split_loop fuel (c ∷ []) s)
unfolding split_loop
split_loop-Splits zero c s h = absurd (omega arith)
split_loop-Splits (suc fuel) c s h =
    round-Splits fuel c s (cut (c ∷ []) s) (cut-Cuts c s) h (split_loop-Splits fuel c)

-- Splitting any string at a character returns: the pieces are not empty and hold no such character,
-- and together they are the string without that character, as `strrmm` leaves it.
pub split_string_using-strrmm :
    (c : ℕ) (s : Bytes)
    → (ps : List Bytes) × (split_string_using s (c ∷ []) ≡ ok ps)
      × All (IsPiece c) ps
      × (concat ps ≡ strrmm s (c ∷ []))
unfolding split_string_using
split_string_using-strrmm c s = split_loop-Splits (suc (length s)) c s (omega arith)

-- What `cut` gives where the character is, and where it is not.
cut_at : (c : ℕ) (a b : Bytes) → contains c a ≡ false → cut (c ∷ []) (a ++ (c ∷ b)) ≡ some (a, b)
unfolding contains
cut_at c [] b h = cut_char c c b ∙ rw ((==_iff c c).1 refl) refl
cut_at c (x ∷ a) b h =
    let p : ((x == c) ≡ false) × (contains c a ≡ false) = ground (arith, h) in
    cut_char c x (a ++ (c ∷ b)) ∙ rw (p.0, cut_at c a b p.1) refl

cut-none : (c : ℕ) (a : Bytes) → contains c a ≡ false → cut (c ∷ []) a ≡ none
unfolding contains cut
cut-none c [] h = refl
cut-none c (x ∷ a) h =
    let p : ((x == c) ≡ false) × (contains c a ≡ false) = ground (arith, h) in
    cut_char c x a ∙ rw (p.0, cut-none c a p.1) refl

add_piece_lem : (p : Bytes) (ps : List Bytes) → 1 ≤ length p → add_piece p ps ≡ p ∷ ps
add_piece_lem [] ps h = absurd (omega arith)
add_piece_lem (x ∷ p) ps h = refl

split_loop-from_vector :
    (fuel c : ℕ) (p : Bytes) (ps : List Bytes)
    → All (IsPiece c) (p ∷ ps)
    → length (from_vector (p ∷ ps) (c ∷ [])) < fuel
    → split_loop fuel (c ∷ []) (from_vector (p ∷ ps) (c ∷ [])) ≡ ok (p ∷ ps)
unfolding split_loop from_vector
split_loop-from_vector zero c p ps all h = absurd (omega arith)
split_loop-from_vector (suc fuel) c p [] (piece, all) h =
    rw (cut-none c p piece.1) (ap ok (add_piece_lem p [] piece.0))
split_loop-from_vector (suc fuel) c p (q ∷ ps) (piece, all) h =
    let tail = from_vector (q ∷ ps) (c ∷ []) in
    let room = length-append p (c ∷ tail) in
    rw (cut_at c p tail piece.1, split_loop-from_vector fuel c q ps all (omega (arith, room, h)))
      (ap ok (add_piece_lem p (q ∷ ps) piece.0))

empty_text : (c : ℕ) → split_string_using (from_vector [] (c ∷ [])) (c ∷ []) ≡ ok []
unfolding split_string_using from_vector split_loop cut
empty_text c = refl

-- Strings that `FromVector` joins with a character are what `SplitStringUsing` splits the result into
-- at that character, if none of them is empty or holds it.
pub split_string_using-from_vector :
    (c : ℕ) (ps : List Bytes)
    → All (IsPiece c) ps
    → split_string_using (from_vector ps (c ∷ [])) (c ∷ []) ≡ ok ps
unfolding split_string_using
split_string_using-from_vector c [] all = empty_text c
split_string_using-from_vector c (p ∷ ps) all = split_loop-from_vector _ c p ps all (omega arith)
