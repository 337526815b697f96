-- ===== src/Pow.antt =====
-- contribute/agonet/pkg/math/math.go: powers of two over `int`s of 64 bits. An argument that is
-- not negative is a natural number; a panic is `none`.
pub mod Laws
mod Tests
use ag_core.Prelude.{
  ℕ, zero, suc, ◌+◌, ◌-◌, ◌/◌, ◌%◌, ◌^◌, Bool, ◌&&◌, ◌||◌, not, Option, none, some, ltb, leb, ◌==◌,
  if◌then◌else◌,
}
use Prim.Native.Nat.{bit_and}

abbrev pub bit_size : ℕ
bit_size = 64

abbrev pub maxint_head_bit : ℕ
maxint_head_bit = 2 ^ (bit_size - 2)

-- Go's `bits.Len`: how many binary digits the number has. The first argument counts the digits
-- that are left.
unfoldable pub len_fuel : ℕ → ℕ → ℕ
len_fuel zero x = 0
len_fuel (suc k) x = let rest = len_fuel k (x / 2) in if x == 0 then 0 else suc rest

unfoldable pub bits_len : ℕ → ℕ
unfolding len_fuel
bits_len x = len_fuel bit_size x

-- `IsPowerOfTwo`
pub is_power_of_two : ℕ → Bool
is_power_of_two n = ltb 0 n && bit_and n (n - 1) == 0

-- `CeilToPowerOfTwo`. Bit 62 is tested by a division.
unfoldable pub ceil_to_power_of_two : ℕ → Option ℕ
ceil_to_power_of_two n =
    if not ((n / maxint_head_bit) % 2 == 0) && ltb maxint_head_bit n
    then none
    else if leb n 2
    then some 2
    else some (2 ^ bits_len (n - 1))

closest : ℕ → ℕ → ℕ
closest n next = let prev = next / 2 in if ltb (n - prev) (next - n) then prev else next

-- `ClosestPowerOfTwo`
pub closest_power_of_two : ℕ → Option ℕ
closest_power_of_two n = elim (ceil_to_power_of_two n) [
  | none ↦ none
  | some next ↦ some (closest n next)
]
