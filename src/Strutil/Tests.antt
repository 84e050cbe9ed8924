-- ===== src/Strutil/Tests.antt =====
-- The theorems about string helpers at concrete strings.
use asio.Prelude.{◌≤◌, ℕ, ◌≡◌, refl, List, [], ◌∷◌, Bytes, arith, All, ok}
use asio.Prelude.Assoc.{contains}
use asio.Prelude.Int.{pos}
use asio.Prelude.Words.{signed32}
use asio.Strutil.Search.{find_nth}
use asio.Strutil.Search.Nth.{IsNth, find_nth-IsNth}
use asio.Strutil.Parse.{safe_strto32, safe_strto32-simple_itoa_int}
use asio.Strutil.{split_string_using, from_vector, strrmm, global_replace_substring}
use asio.Strutil.Split.{IsPiece, concat, split_string_using-strrmm, split_string_using-from_vector}
use asio.Strutil.Numbers.{simple_itoa_int, StringHolder, of_string, of_number}
use asio.Strutil.Replace.{Replaced, global_replace_substring-Replaced}

abbrev address : Bytes
address = b'a' ∷ b':' ∷ b':' ∷ b'b' ∷ []

split_string_using-strrmm_example :
    (ps : List Bytes) × (split_string_using address (b':' ∷ []) ≡ ok ps)
    × All (IsPiece b':') ps
    × (concat ps ≡ strrmm address (b':' ∷ []))
split_string_using-strrmm_example = split_string_using-strrmm b':' address

abbrev pieces : List Bytes
pieces = (b'a' ∷ []) ∷ (b'b' ∷ []) ∷ []

pieces-IsPiece : All (IsPiece b':') pieces
unfolding contains
pieces-IsPiece = ((omega arith, refl), ((omega arith, refl), tt))

split_string_using-from_vector_example :
    split_string_using (from_vector pieces (b':' ∷ [])) (b':' ∷ []) ≡ ok pieces
split_string_using-from_vector_example = split_string_using-from_vector b':' pieces pieces-IsPiece

abbrev colon : Bytes
colon = b':' ∷ []

abbrev dashes : Bytes
dashes = b'-' ∷ b'-' ∷ []

global_replace_substring-Replaced_example :
    (n : ℕ) × (t : Bytes) × (global_replace_substring colon dashes address ≡ ok (n, t))
    × (1 ≤ 1 → Replaced colon dashes address n t)
    × (◌≡◌ {A = ℕ} 1 0 → (n ≡ 0) × (t ≡ address))
global_replace_substring-Replaced_example =
    global_replace_substring-Replaced colon dashes address (omega arith)

abbrev holders : List StringHolder
holders = of_string address ∷ of_number 12 ∷ []

find_nth-IsNth_example : IsNth address (b'a') 1 (find_nth address (b'a') 1)
find_nth-IsNth_example = find_nth-IsNth address (b'a') 1 (omega arith) (omega arith) (omega arith)

safe_strto32-simple_itoa_int_example : safe_strto32 (simple_itoa_int 1234) (pos 7) ≡ signed32 1234
safe_strto32-simple_itoa_int_example = safe_strto32-simple_itoa_int 1234 (pos 7) (omega arith)
