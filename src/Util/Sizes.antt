-- ===== src/Util/Sizes.antt =====
-- asio/tool/util.cpp, `bytesFormat`: the text of a size.
use asio.Prelude.{
  ℕ, ◌+◌, ◌*◌, ◌/◌, ◌%◌, ◌^◌, ◌≤◌, ◌<◌, ◌≡◌, ap, ◌∙◌, [], ◌∷◌, ◌++◌, Bytes, none, some, arith,
  append_assoc,
}
use asio.Strutil.Numbers.{simple_itoa}
use asio.Util.{
  round_half_even, double_of, double_from, print_hundredths, unit_of, in_unit, bytes_format, kilo,
  mega, giga,
}

-- A number of hundredths that is at most half a hundredth of the unit away from the size.
abbrev pub IsNear : ℕ → ℕ → ℕ → Type 0
IsNear size unit h =
    (2 * (h * unit) ≤ 2 * (size * 100) + unit) × (2 * (size * 100) ≤ 2 * (h * unit) + unit)

-- The text of such a number, with a point before its last two digits, and of the unit's letter.
abbrev pub Shows : ℕ → ℕ → ℕ → Bytes → Type 0
Shows size unit letter text =
    (h : ℕ) × (text
      ≡ simple_itoa (h / 100)
        ++ (b'.' ∷ (b'0' + h / 10 % 10) ∷ (b'0' + h % 10) ∷ b' ' ∷ letter ∷ b'B' ∷ []))
    × IsNear size unit h

rounded : ℕ → ℕ → ℕ
rounded size unit = round_half_even (size * 100) unit

kilo-IsNear : (size : ℕ) → IsNear size kilo (rounded size kilo)
unfolding round_half_even rounded
kilo-IsNear size = ground arith

mega-IsNear : (size : ℕ) → IsNear size mega (rounded size mega)
unfolding round_half_even rounded
mega-IsNear size = ground arith

giga-IsNear : (size : ℕ) → IsNear size giga (rounded size giga)
unfolding round_half_even rounded
giga-IsNear size = ground arith

double_of-small : (size : ℕ) → size < 2 ^ 53 → double_of size ≡ size
unfolding double_from round_half_even
double_of-small size h = ground (arith, h)

-- What is printed in a unit.
in_unit-Shows :
    (size unit letter : ℕ)
    → size < 2 ^ 53
    → unit_of size ≡ some (unit, letter)
    → IsNear size unit (rounded size unit)
    → Shows size unit letter (bytes_format size)
unfolding bytes_format print_hundredths rounded
in_unit-Shows size unit letter h u near = (
  rounded size unit,
  ap (in_unit size) u
      ∙ ap (λ n. print_hundredths (round_half_even (n * 100) unit) ++ (b' ' ∷ letter ∷ b'B' ∷ []))
          (double_of-small size h)
      ∙ append_assoc (simple_itoa (rounded size unit / 100)) _ (b' ' ∷ letter ∷ b'B' ∷ []),
  near,
)

-- The text of a size below 2 ^ 53, which is exact as a `double`: below 1024 the size in digits, and " B";
-- below 1024 * 1024, below 1024 * 1024 * 1024, and from there on a number with two decimals, at most half
-- a hundredth away from the size in units of 1024, of 1024 * 1024 and of 1024 * 1024 * 1024, and " KB",
-- " MB" and " GB".
pub bytes_format-Shows :
    (size : ℕ)
    → size < 2 ^ 53
    → (size < 1024 → bytes_format size ≡ simple_itoa size ++ (b' ' ∷ b'B' ∷ []))
      × (1024 ≤ size → size < 1048576 → Shows size 1024 b'K' (bytes_format size))
      × (1048576 ≤ size → size < 1073741824 → Shows size 1048576 b'M' (bytes_format size))
      × (1073741824 ≤ size → Shows size 1073741824 b'G' (bytes_format size))
bytes_format-Shows size h = (
  λ b.
      unfold bytes_format in
      ap (in_unit size) (let u : unit_of size ≡ none = ground (arith, b) in u),
  (λ k m. in_unit-Shows size kilo b'K' h (ground (arith, k, m)) (kilo-IsNear size)),
  (λ m g. in_unit-Shows size mega b'M' h (ground (arith, m, g)) (mega-IsNear size)),
  λ g. in_unit-Shows size giga b'G' h (ground (arith, g)) (giga-IsNear size),
)
