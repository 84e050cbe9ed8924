-- ===== src/Util.antt =====
-- asio/tool/util.cpp: how sizes and times are printed, and where the log goes. The clock, the time zone
-- and the logger are third-party code.
pub mod Sizes
mod Tests
use asio.Prelude.{
  ℕ, zero, suc, ◌+◌, ◌*◌, ◌/◌, ◌%◌, ◌^◌, [], ◌∷◌, ◌++◌, Option, none, some, Bytes, ltb, ◌==◌,
  if◌then◌else◌, map,
}
use asio.Prelude.Int.{ℤ, pos, negsuc}
use asio.Strutil.Numbers.{simple_itoa}

-- The nearest number of hundredths, the even one of two.
unfoldable pub round_half_even : ℕ → ℕ → ℕ
round_half_even n d =
    let q = n / d in
    let twice = 2 * (n % d) in if ltb twice d then q else if ltb d twice then q + 1 else q + q % 2

-- A number of hundredths with `fixed` and `setprecision(2)`.
abbrev pub two_digits : ℕ → Bytes
two_digits n = (b'0' + n / 10 % 10) ∷ (b'0' + n % 10) ∷ []

unfoldable pub print_hundredths : ℕ → Bytes
print_hundredths h = simple_itoa (h / 100) ++ (b'.' ∷ two_digits h)

abbrev pub kilo : ℕ
kilo = 1024

abbrev pub mega : ℕ
mega = 1048576

abbrev pub giga : ℕ
giga = 1073741824

-- The unit of a size, with its letter.
abbrev pub unit_of : ℕ → Option (ℕ × ℕ)
unit_of size =
    if ltb size kilo
    then none
    else if ltb size mega
    then some (kilo, b'K')
    else if ltb size giga
    then some (mega, b'M')
    else some (giga, b'G')

-- The `double` nearest to a `size_t`, which has 53 bits: from the exponent on, the first one at which the
-- number has so many bits, one round for each unit of fuel.
unfoldable pub double_from : ℕ → ℕ → ℕ → ℕ
unfolding round_half_even
double_from zero e size = size
double_from (suc fuel) e size =
    let rest = double_from fuel (suc e) size in
    if ltb size (2 ^ (53 + e)) then round_half_even size (2 ^ e) * 2 ^ e else rest

abbrev pub double_of : ℕ → ℕ
double_of size = double_from 12 0 size

abbrev pub in_unit : ℕ → Option (ℕ × ℕ) → Bytes
in_unit size none = simple_itoa size ++ (b' ' ∷ b'B' ∷ [])
in_unit size (some (unit, letter)) =
    print_hundredths (round_half_even (double_of size * 100) unit) ++ (b' ' ∷ letter ∷ b'B' ∷ [])

-- `bytesFormat`. The quotients of the `double` by powers of 2 are exact, so that there are two roundings,
-- that to a `double` and that to two digits.
unfoldable pub bytes_format : ℕ → Bytes
unfolding round_half_even print_hundredths double_from
bytes_format size = in_unit size (unit_of size)

-- `getFormatTime`, where `format` is `strftime` on the local time of some seconds.
unfoldable pub get_format_time : (ℕ → Bytes) → ℤ → Bytes
get_format_time format (negsuc n) = []
get_format_time format (pos t) = format (if ltb 1_528_959_332_000 t then t / 1000 else t)

-- `std::replace(path.begin(), path.end(), '\\', '/')`.
abbrev pub forward : Bytes → Bytes
forward path = map (λ c. if c == 92 then b'/' else c) path

abbrev pub to_last_slash : Option Bytes → ℕ → Bytes → Option Bytes
to_last_slash none c cs = if c == b'/' then some (c ∷ []) else none
to_last_slash (some dir) c cs = some (c ∷ dir)

-- The path up to its last '/', if there is one.
unfoldable pub last_slash : Bytes → Option Bytes
last_slash [] = none
last_slash (c ∷ cs) = to_last_slash (last_slash cs) c cs

abbrev pub dir_or_empty : Option Bytes → Bytes
dir_or_empty none = []
dir_or_empty (some dir) = dir

-- What `initlog` hands to the logger: the program's path, the directory that it makes, and the prefix
-- of the log files, which is the directory and "log".
pub record LogPaths : Type 0 where
  pub program : Bytes
  pub directory : Bytes
  pub prefix : Bytes

unfoldable pub initlog : Bytes → LogPaths
unfolding last_slash
initlog path =
    let dir = dir_or_empty (last_slash (forward path)) ++ (b'l' ∷ b'o' ∷ b'g' ∷ b'/' ∷ []) in
    record { program = forward path; directory = dir; prefix = dir ++ (b'l' ∷ b'o' ∷ b'g' ∷ []) }
