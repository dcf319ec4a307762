-- ===== src/Base/Words.antt =====
-- `std::uint64_t` and `std::size_t`: numbers below `2 ^ 64`, with the wrap-around written out.
use Prim.Native.Nat.{ℕ, ◌+◌, ◌-◌, ◌%◌, ◌^◌}

abbrev pub u64_mod : ℕ
u64_mod = 2 ^ 64

-- `std::numeric_limits<std::uint64_t>::max()`.
abbrev pub u64_max : ℕ
u64_max = 2 ^ 64 - 1

abbrev pub add_u64 : ℕ → ℕ → ℕ
add_u64 a b = (a + b) % 2 ^ 64

abbrev pub sub_u64 : ℕ → ℕ → ℕ
sub_u64 a b = (a + 2 ^ 64 - b) % 2 ^ 64
