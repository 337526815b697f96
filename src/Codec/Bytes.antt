-- ===== src/Codec/Bytes.antt =====
-- The bytes of a length field: codec_length_field_encoder.go's `packFieldLength` against the decoder's
-- `unpackFieldLength`, in both byte orders.
use mathlib.Core.List.{reverse, reverse-cons, reverse-reverse}
use ag_core.Prelude.{
  ℕ, zero, suc, ◌+◌, ◌*◌, ◌/◌, ◌%◌, ◌^◌, ◌≤◌, ◌<◌, ◌≡◌, refl, ◌∙◌, ap, true, some, List, [], ◌∷◌,
  ◌++◌, arith, ◌⊎◌, inl, inr, length, take, length-append, take-append_le, take_all, lt→ltb, le→ltb,
}
use ag_core.Prelude.Int.{pos}
use ag_core.Codec.{
  Endian, big, little, le_value, le_bytes, uint, put_uint, is_field_length, unpack_field_length,
  max_field, pack_field_length,
}

length-le_bytes : (k v : ℕ) → length (le_bytes k v) ≡ k
unfolding le_bytes
length-le_bytes zero v = refl
length-le_bytes (suc k) v = ap suc (length-le_bytes k (v / 256))

le_value-le_bytes : (k v : ℕ) → v < 256 ^ k → le_value (le_bytes k v) ≡ v
unfolding le_value le_bytes
le_value-le_bytes zero v h = omega arith
le_value-le_bytes (suc k) v h =
    ap (λ n. v % 256 + 256 * n) (le_value-le_bytes k (v / 256) (omega arith)) ∙ omega arith

pub length-reverse : (xs : List ℕ) → length (reverse xs) ≡ length xs
length-reverse [] = refl
length-reverse (x ∷ xs) =
    ap length (reverse-cons x xs)
    ∙ length-append (reverse xs) (x ∷ [])
    ∙ omega (arith, length-reverse xs)

pub length-put_uint : (order : Endian) (k v : ℕ) → length (put_uint order k v) ≡ k
unfolding put_uint
length-put_uint little k v = length-le_bytes k v
length-put_uint big k v = length-reverse (le_bytes k v) ∙ length-le_bytes k v

-- A value that fits is read back from its bytes.
pub uint-put_uint : (order : Endian) (k v : ℕ) → v < 256 ^ k → uint order (put_uint order k v) ≡ v
unfolding uint put_uint
uint-put_uint little k v h = le_value-le_bytes k v h
uint-put_uint big k v h = ap le_value (reverse-reverse (le_bytes k v)) ∙ le_value-le_bytes k v h

-- The four lengths of a field.
field_length-cases : (k : ℕ) → is_field_length k ≡ true → (k ≡ 1) ⊎ (k ≡ 2) ⊎ (k ≡ 4) ⊎ (k ≡ 8)
field_length-cases k h = ground arith

-- What a field holds fits both the field and an `int64`.
max_field-fits :
    (k n : ℕ) → is_field_length k ≡ true → n ≤ max_field k → (n < 256 ^ k) × (n < 2 ^ 63)
max_field-fits k n h le = elim (field_length-cases k h) [
  | inl e ↦ (ground arith, ground arith)
  | inr (inl e) ↦ (ground arith, ground arith)
  | inr (inr (inl e)) ↦ (ground arith, ground arith)
  | inr (inr (inr e)) ↦ (ground arith, ground arith)
]

-- For a legal field length and a length that the field holds, in either byte order,
-- `pack_field_length` succeeds with the field's bytes, and `unpack_field_length` reads the length
-- back from them, whatever follows.
pub unpack_field_length-pack :
    (order : Endian) (k n : ℕ) (rest : List ℕ)
    → is_field_length k ≡ true
    → n ≤ max_field k
    → (pack_field_length order k (pos n) ≡ some (put_uint order k n))
      × (unpack_field_length order k (put_uint order k n ++ rest) ≡ some (pos n))
unfolding pack_field_length unpack_field_length
unpack_field_length-pack order k n rest h le =
    let (small, int) = max_field-fits k n h le in
    (
      rw (h, le→ltb (max_field k + 0) (n + 0) (omega arith)) refl,
      rw (h, taken, uint-put_uint order k n small, lt→ltb n (2 ^ 63) int) refl,
    )
  where
    taken : take k (put_uint order k n ++ rest) ≡ put_uint order k n
    taken =
        take-append_le k (put_uint order k n) rest (omega (arith, length-put_uint order k n))
        ∙ take_all k (put_uint order k n) (omega (arith, length-put_uint order k n))
