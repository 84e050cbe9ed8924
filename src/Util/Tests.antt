-- ===== src/Util/Tests.antt =====
-- A size to print.
use asio.Prelude.{◌≡◌, ◌≤◌, ◌<◌, ◌++◌, ◌∷◌, [], refl, arith}
use asio.Strutil.Numbers.{simple_itoa, digits}
use asio.Util.{bytes_format, round_half_even, print_hundredths, double_from}
use asio.Util.Sizes.{Shows, bytes_format-Shows}

printed : bytes_format 123456 ≡ b'1' ∷ b'2' ∷ b'0' ∷ b'.' ∷ b'5' ∷ b'6' ∷ b' ' ∷ b'K' ∷ b'B' ∷ []
unfolding bytes_format round_half_even print_hundredths double_from digits
printed = refl

bytes_format-Shows_example :
    (123456 < 1024 → bytes_format 123456 ≡ simple_itoa 123456 ++ (b' ' ∷ b'B' ∷ []))
    × (1024 ≤ 123456 → 123456 < 1048576 → Shows 123456 1024 b'K' (bytes_format 123456))
    × (1048576 ≤ 123456 → 123456 < 1073741824 → Shows 123456 1048576 b'M' (bytes_format 123456))
    × (1073741824 ≤ 123456 → Shows 123456 1073741824 b'G' (bytes_format 123456))
bytes_format-Shows_example = bytes_format-Shows 123456 (omega arith)
