-- ===== src/Prelude/Words.antt =====
-- Machine integers as native numbers: an `int` is its bit pattern below 2 ^ 32, a `short` below
-- 2 ^ 16 and a `size_t` a number below 2 ^ 64.
use asio.Prelude.{
  ℕ, ◌+◌, ◌-◌, ◌*◌, ◌/◌, ◌%◌, ◌^◌, ◌<◌, ◌≡◌, arith, ltb, if◌then◌else◌, List, [], ◌∷◌,
}
use asio.Prelude.Int.{ℤ, pos, negsuc}

-- The number that the pattern of an `int` stands for.
abbrev pub signed32 : ℕ → ℤ
signed32 w = if ltb w (2 ^ 31) then pos w else negsuc (2 ^ 32 - w - 1)

-- `(size_t) i` for an `int` and for a `short`: the sign is extended to 64 bits.
abbrev pub size_of_int : ℕ → ℕ
size_of_int w = if ltb w (2 ^ 31) then w else 2 ^ 64 - 2 ^ 32 + w

abbrev pub size_of_short : ℕ → ℕ
size_of_short w = if ltb w (2 ^ 15) then w else 2 ^ 64 - 2 ^ 16 + w

-- The bytes of a `short` and of an `int` in the memory of a little-endian host.
abbrev pub bytes_of_short : ℕ → List ℕ
bytes_of_short w = w % 256 ∷ w / 256 % 256 ∷ []

abbrev pub bytes_of_int : ℕ → List ℕ
bytes_of_int w = w % 256 ∷ w / 256 % 256 ∷ w / 65536 % 256 ∷ w / 16777216 % 256 ∷ []

-- The unsigned number that little-endian bytes stand for.
unfoldable pub number_of_bytes : List ℕ → ℕ
number_of_bytes [] = 0
number_of_bytes (b ∷ bs) = b + 256 * number_of_bytes bs

pub number_of_bytes-short : (w : ℕ) → w < 2 ^ 16 → number_of_bytes (bytes_of_short w) ≡ w
unfolding number_of_bytes
number_of_bytes-short w h = omega arith

pub number_of_bytes-int : (w : ℕ) → w < 2 ^ 32 → number_of_bytes (bytes_of_int w) ≡ w
unfolding number_of_bytes
number_of_bytes-int w h = omega arith

-- `++i` on an `atomic<int>`: it wraps.
abbrev pub increment : ℕ → ℕ
increment w = (w + 1) % 2 ^ 32

abbrev pub int_max : ℕ
int_max = 2 ^ 31 - 1

-- `w % INT_MAX` on an `int`: the remainder has the sign of `w`.
unfoldable pub rem_int_max : ℕ → ℕ
rem_int_max w = if ltb w (2 ^ 31) then w % int_max else (2 ^ 32 - (2 ^ 32 - w) % int_max) % 2 ^ 32
