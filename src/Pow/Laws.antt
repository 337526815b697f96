-- ===== src/Pow/Laws.antt =====
-- `CeilToPowerOfTwo` finds the least power of two, from 2 on, that is not below its argument.
use native.Mathlib.Decide.{dec_lt, dec_le}
use native.Mathlib.Nat.{pow-suc, pow-le-pow_right}
use ag_core.Prelude.{
  ℕ, zero, suc, ◌+◌, ◌-◌, ◌*◌, ◌/◌, ◌^◌, ◌≤◌, ◌<◌, ◌≡◌, refl, ap, none, some, arith, ==_ne, inl,
  inr, ◌⊎◌,
}
use ag_core.Pow.{
  len_fuel, bits_len, bit_size, maxint_head_bit, ceil_to_power_of_two, closest_power_of_two,
  closest,
}

-- Enough digits: the number lies below the power of its length.
pub lt-pow-len_fuel : (k x : ℕ) → x < 2 ^ k → x < 2 ^ len_fuel k x
unfolding len_fuel
lt-pow-len_fuel zero x h = h
lt-pow-len_fuel (suc k) x h = ground (
  arith,
  pow-suc 2 k,
  pow-suc 2 (len_fuel k (x / 2)),
  lt-pow-len_fuel k (x / 2) (omega (arith, pow-suc 2 k)),
)

len_fuel-zero : (k : ℕ) → len_fuel k 0 ≡ 0
unfolding len_fuel
len_fuel-zero zero = refl
len_fuel-zero (suc k) = refl

-- No digit too many.
pub pow-len_fuel-le : (k x : ℕ) → 0 < x → 2 ^ len_fuel k x ≤ 2 * x
unfolding len_fuel
pow-len_fuel-le zero x h = omega arith
pow-len_fuel-le (suc k) x h = elim (dec_lt 0 (x / 2)) [
  | yes p ↦ ground (arith, pow-suc 2 (len_fuel k (x / 2)), pow-len_fuel-le k (x / 2) p)
  | no p ↦
      let e : x / 2 ≡ 0 = omega arith in
      rw (e, len_fuel-zero k, ==_ne {a = x} {b = 0} (omega arith)) (omega arith)
]

-- The result is `2 ^ k`, is not below the argument, and no power from 2 on between them is smaller.
pub record IsCeil (n c : ℕ) : Type 0 where
  pub power : (k : ℕ) × (0 < k) × (c ≡ 2 ^ k)
  pub above : n ≤ c
  pub least : (j : ℕ) → 0 < j → n ≤ 2 ^ j → c ≤ 2 ^ j

pub pow_mono : (i j : ℕ) → i ≤ j → 2 ^ i ≤ 2 ^ j
pow_mono i j h = pow-le-pow_right (omega arith) h

module _ (n : ℕ) (small : n ≤ maxint_head_bit) where
  ceil_small : n ≤ 2 → ceil_to_power_of_two n ≡ some 2
  unfolding ceil_to_power_of_two
  ceil_small h = ground arith

  ceil_large : 2 < n → ceil_to_power_of_two n ≡ some (2 ^ bits_len (n - 1))
  unfolding ceil_to_power_of_two
  ceil_large h = ground arith

  above_len : 2 < n → n - 1 < 2 ^ bits_len (n - 1)
  unfolding bits_len
  above_len h = lt-pow-len_fuel bit_size (n - 1) (omega arith)

  below_len : 2 < n → 2 ^ bits_len (n - 1) ≤ 2 * (n - 1)
  unfolding bits_len
  below_len h = pow-len_fuel-le bit_size (n - 1) (omega arith)

  least_large : 2 < n → (j : ℕ) → n ≤ 2 ^ j → 2 ^ bits_len (n - 1) ≤ 2 ^ j
  least_large h j q = elim (dec_le (bits_len (n - 1)) j) [
    | yes p ↦ pow_mono (bits_len (n - 1)) j p
    | no p ↦
        absurd (
          omega
            (arith, below_len h, pow_mono (suc j) (bits_len (n - 1)) (omega arith), pow-suc 2 j))
  ]

  pow_pos : 2 < n → 0 < bits_len (n - 1)
  pow_pos h = elim (dec_lt 0 (bits_len (n - 1))) [
    | yes p ↦ p
    | no p ↦
        let e : bits_len (n - 1) ≡ 0 = omega arith in
        absurd (omega (arith, above_len h, ap (λ k. 2 ^ k) e))
  ]

  -- For an argument of at most 2 ^ 62 `ceil_to_power_of_two` returns the least power of two, 2 or
  -- more, that is not below the argument.
  pub ceil_to_power_of_two-IsCeil : (c : ℕ) × (ceil_to_power_of_two n ≡ some c) × IsCeil n c
  ceil_to_power_of_two-IsCeil = elim (dec_le n 2) [
    | yes h ↦ (
      2,
      ceil_small h,
      record { power = (1, omega arith, refl); above = h; least = λ j p q. pow_mono 1 j p },
    )
    | no h ↦ (
      2 ^ bits_len (n - 1),
      ceil_large (omega arith),
      record {
        power = (bits_len (n - 1), pow_pos (omega arith), refl);
        above = omega (arith, above_len (omega arith));
        least = λ j p q. least_large (omega arith) j q;
      },
    )
  ]

-- Beyond 2 ^ 62 it panics.
pub ceil_too_large : (n : ℕ) → maxint_head_bit < n → n < 2 ^ 63 → ceil_to_power_of_two n ≡ none
unfolding ceil_to_power_of_two
ceil_too_large n h k = ground arith

abbrev pub distance : ℕ → ℕ → ℕ
distance a b = (a - b) + (b - a)

-- A power of two is `2 ^ k` or more, or half of that or less.
pow_gap : (j k : ℕ) → 0 < k → (2 ^ k ≤ 2 ^ j) ⊎ (2 ^ j ≤ 2 ^ k / 2)
pow_gap j k h = elim (dec_le k j) [
  | yes p ↦ inl (pow_mono k j p)
  | no p ↦ inr (omega (arith, pow_mono (suc j) k (omega arith), pow-suc 2 j))
]

closest-le :
    (n c j : ℕ)
    → n ≤ c
    → (2 ≤ n → c ≤ 2 * (n - 1) + 2)
    → 2 ≤ c
    → (n ≤ 2 → c ≡ 2)
    → (c ≤ 2 ^ j) ⊎ (2 ^ j ≤ c / 2)
    → 0 < 2 ^ j
    → distance n (closest n c) ≤ distance n (2 ^ j)
unfolding closest
closest-le n c j h k two small (inl p) q = ground arith
closest-le n c j h k two small (inr p) q = ground arith

closest_lem :
    (n c : ℕ) → ceil_to_power_of_two n ≡ some c → closest_power_of_two n ≡ some (closest n c)
unfolding closest_power_of_two
closest_lem n c e = rw (e, closest_power_of_two)

-- For an argument of at most 2 ^ 62 `closest_power_of_two` returns a number to which the argument
-- is at least as close as to any power of two.
pub closest_power_of_two-closest :
    (n : ℕ)
    → n ≤ maxint_head_bit
    → (d : ℕ) × (closest_power_of_two n ≡ some d) × ((j : ℕ) → distance n d ≤ distance n (2 ^ j))
closest_power_of_two-closest n small = elim (dec_le n 2) [
  | yes h ↦ (
    closest n 2,
    closest_lem n 2 (ceil_small n small h),
    λ j.
        closest-le n 2 j h (λ _. omega arith) (omega arith) (λ _. refl) (pow_gap j 1 (omega arith))
          (pow_mono 0 j (omega arith)),
  )
  | no h ↦
      let c : ℕ = 2 ^ bits_len (n - 1) in
      (
        closest n c,
        closest_lem n c (ceil_large n small (omega arith)),
        λ j.
            closest-le n c j (omega (arith, above_len n small (omega arith)))
              (λ _. omega (arith, below_len n small (omega arith)))
              (omega (arith, above_len n small (omega arith))) (λ k. absurd (omega arith))
              (pow_gap j (bits_len (n - 1)) (pow_pos n small (omega arith)))
              (pow_mono 0 j (omega arith)),
      )
]
