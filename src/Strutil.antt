-- ===== src/Strutil.antt =====
-- asio/tool/strutil.h and strutil.cpp: the helpers on strings. A position in a string is the rest of the
-- string from there on. What the tests `assert` is a pointer that is not null, which it never is here.
pub mod Split
pub mod Affixes
pub mod Numbers
pub mod Replace
pub mod Search
pub mod Parse
mod Tests
use asio.Prelude.{
  ℕ, zero, suc, ◌+◌, ◌-◌, Bool, true, false, not, ◌&&◌, List, [], ◌∷◌, ◌++◌, Option, none, some,
  Bytes, bytes_beq, length, leb, ltb, ◌==◌, if◌then◌else◌, take, drop, Exec, ok, out_of_fuel,
  thrown, ◌^◌, ◌>>=◌,
}
use asio.Prelude.Assoc.{contains}

-- `HasPrefixString`.
unfoldable pub has_prefix_string : Bytes → Bytes → Bool
has_prefix_string s prefix =
    leb (length prefix) (length s) && bytes_beq (take (length prefix) s) prefix

abbrev pub cons_before : ℕ → Option (Bytes × Bytes) → Option (Bytes × Bytes)
cons_before c none = none
cons_before c (some (before, behind)) = some (c ∷ before, behind)

-- `s.find(delimiter)`, as what stands before the first match and what stands behind it.
unfoldable pub cut : Bytes → Bytes → Option (Bytes × Bytes)
cut d [] = none
cut d (c ∷ cs) =
    let rest = cons_before c (cut d cs) in
    if has_prefix_string (c ∷ cs) d then some ([], drop (length d) (c ∷ cs)) else rest

-- `push_back`, where the string is not empty.
abbrev pub add_piece : Bytes → List Bytes → List Bytes
add_piece [] pieces = pieces
add_piece (c ∷ cs) pieces = (c ∷ cs) ∷ pieces

-- One round of the loop of `SplitStringUsing`, with what `find` gives.
abbrev pub split_round :
    (Bytes → Exec (List Bytes)) → Bytes → Option (Bytes × Bytes) → Exec (List Bytes)
split_round again s none = ok (add_piece s [])
split_round again s (some (piece, behind)) = do rest ← again behind; ok (add_piece piece rest)

-- The loop of `SplitStringUsing`, a round for each unit of fuel, on the rest of the string.
unfoldable pub split_loop : ℕ → Bytes → Bytes → Exec (List Bytes)
split_loop zero d s = out_of_fuel
split_loop (suc fuel) d s = split_round (split_loop fuel d) s (cut d s)

-- `SplitStringUsing`, with an empty result at first. Each round takes a delimiter at least.
unfoldable pub split_string_using : Bytes → Bytes → Exec (List Bytes)
split_string_using s [] = ok []
split_string_using s (x ∷ d) = split_loop (suc (length s)) (x ∷ d) s

-- `FromVector`.
unfoldable pub from_vector : List Bytes → Bytes → Bytes
from_vector [] d = []
from_vector (p ∷ []) d = p
from_vector (p ∷ q ∷ ps) d = p ++ (d ++ from_vector (q ∷ ps) d)

-- `strrmm`.
unfoldable pub strrmm : Bytes → Bytes → Bytes
strrmm [] chars = []
strrmm (c ∷ cs) chars = if contains c chars then strrmm cs chars else c ∷ strrmm cs chars

-- One round of the loop of `GlobalReplaceSubstring` at an index, with what `find` gives: the number of
-- replacements from here on, and the text. `pos` is an `int`: where the index of the rest does not fit,
-- it is negative (in a string below 2 ^ 32 bytes), and the `append` behind the loop throws.
abbrev pub replace_round :
    (ℕ → Bytes → Exec (ℕ × Bytes))
    → ℕ
    → Bytes
    → Bytes
    → Bytes
    → Option (Bytes × Bytes)
    → Exec (ℕ × Bytes)
replace_round again pos substring replacement s none = ok (0, s)
replace_round again pos substring replacement s (some (before, behind)) =
    let next = pos + length before + length substring in
    if leb (2 ^ 31) next
    then thrown
    else (do r ← again next behind; ok (suc r.0, before ++ (replacement ++ r.1)))

-- The loop on the rest of the string, from an index on.
unfoldable pub replace_loop : ℕ → Bytes → Bytes → ℕ → Bytes → Exec (ℕ × Bytes)
replace_loop zero substring replacement pos s = out_of_fuel
replace_loop (suc fuel) substring replacement pos s =
    replace_round (replace_loop fuel substring replacement) pos substring replacement s
      (cut substring s)

-- `GlobalReplaceSubstring`: the number, and the string as it is then.
unfoldable pub global_replace_substring : Bytes → Bytes → Bytes → Exec (ℕ × Bytes)
global_replace_substring substring replacement s =
    if length s == 0
    then ok (0, s)
    else if length substring == 0
    then ok (0, s)
    else replace_loop (suc (length s)) substring replacement 0 s

-- `TryStripPrefixString`, with what it writes.
unfoldable pub try_strip_prefix_string : Bytes → Bytes → Bool × Bytes
try_strip_prefix_string s prefix =
    if bytes_beq (take (length prefix) s) prefix then (true, drop (length prefix) s) else (false, s)

-- `HasSuffixString`.
unfoldable pub has_suffix_string : Bytes → Bytes → Bool
has_suffix_string s suffix =
    if ltb (length s) (length suffix)
    then false
    else bytes_beq (drop (length s - length suffix) s) suffix
