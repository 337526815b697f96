-- ===== src/Pool/Index.antt =====
-- The size class of a length.
use native.Mathlib.Nat.{pow-suc}
use native.Mathlib.Decide.{dec_lt, dec_le}
use ag_core.Prelude.{ℕ, suc, ◌-◌, ◌*◌, ◌/◌, ◌^◌, ◌≡◌, ◌≤◌, ◌<◌, refl, arith, lt→ltb, le→ltb, lt→leb}
use ag_core.Pow.{bits_len, bit_size}
use ag_core.Pow.Laws.{lt-pow-len_fuel, pow-len_fuel-le, pow_mono}
use ag_core.Pool.{index, steps, min_size}

module _ (n : ℕ) (large : min_size < n) (small : n ≤ min_size * 2 ^ (steps - 1)) where
  -- The number whose digits are counted.
  abbrev top : ℕ
  top = (n - 1) / 64

  above : top < 2 ^ bits_len top
  unfolding bits_len
  above = lt-pow-len_fuel bit_size top (omega arith)

  below : 2 ^ bits_len top ≤ 2 * top
  unfolding bits_len
  below = pow-len_fuel-le bit_size top (omega arith)

  in_range : bits_len top < steps
  in_range = elim (dec_lt (bits_len top) steps) [
    | yes h ↦ h
    | no h ↦ absurd (omega (arith, below, pow_mono 20 (bits_len top) (omega arith)))
  ]

  index-large : index n ≡ bits_len top
  unfolding index
  index-large = rw (lt→ltb 0 top (omega arith), lt→leb steps (bits_len top) in_range) refl

index-small : (n : ℕ) → n ≤ min_size → index n ≡ 0
unfolding index
index-small n h = rw (le→ltb 0 ((n - 1) / 64) (omega arith)) refl

index-least :
    (n i : ℕ) → min_size < n → n ≤ min_size * 2 ^ (steps - 1) → n ≤ min_size * 2 ^ i → index n ≤ i
index-least n i large small h = elim (dec_le (bits_len (top n large small)) i) [
  | yes p ↦ rw (index-large n large small) p
  | no p ↦ absurd (
      omega (
        arith,
        below n large small,
        pow-suc 2 i,
        pow_mono (suc i) (bits_len (top n large small)) (omega arith),
      ))
]

index-steps : (n : ℕ) → index n < steps
unfolding index
index-steps n = ground arith

-- The index of every length is below the number of classes, and for a length of at most the largest
-- class it is the least class that the length fits in.
pub index-fits :
    (n : ℕ)
    → (index n < steps)
      × (n ≤ min_size * 2 ^ (steps - 1)
          → (n ≤ min_size * 2 ^ index n) × ((i : ℕ) → n ≤ min_size * 2 ^ i → index n ≤ i))
index-fits n = (
  index-steps n,
  λ small. elim (dec_lt min_size n) [
    | yes h ↦ (
      rw (index-large n h small) (omega (arith, above n h small)),
      λ i p. index-least n i h small p,
    )
    | no h ↦ rw (index-small n (omega arith)) (omega arith, λ i p. omega arith)
  ],
)
