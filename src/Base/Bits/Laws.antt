-- ===== src/Base/Bits/Laws.antt =====
-- Laws of masks, each from the bits of both sides.
use Prim.Native.Nat.{ℕ, ◌^◌, ◌≤◌, ◌<◌, min, bit_and, bit_or}
use mathlib.Core.Path.{◌≡◌, sym, ◌∙◌}
use mathlib.Core.Logic.{◌⊎◌, inl, inr}
use native.Mathlib.Omega.{arith}
use course_project_os_integr.Base.Bits.{
  bit, bit_not, bit-le, bit-zero, bit-bit_and, bit-bit_or, bits_ext, bit-flip, bit-high,
  fits_of_bits,
}

pub bit_and_comm : (a b : ℕ) → bit_and a b ≡ bit_and b a
bit_and_comm a b =
    bits_ext (bit_and a b) (bit_and b a) λ j. omega (arith, bit-bit_and a b j, bit-bit_and b a j)

pub bit_and_assoc : (a b c : ℕ) → bit_and (bit_and a b) c ≡ bit_and a (bit_and b c)
bit_and_assoc a b c = bits_ext (bit_and (bit_and a b) c) (bit_and a (bit_and b c)) λ j. omega (
  arith,
  bit-bit_and (bit_and a b) c j,
  bit-bit_and a b j,
  bit-bit_and a (bit_and b c) j,
  bit-bit_and b c j,
)

pub bit_and-zero : (a : ℕ) → bit_and a 0 ≡ 0
bit_and-zero a =
    bits_ext (bit_and a 0) 0 λ j. omega (arith, bit-bit_and a 0 j, bit-zero j, bit-le a j)

-- `(a | b) & c` splits.
pub bit_and-bit_or : (a b c : ℕ) → bit_and (bit_or a b) c ≡ bit_or (bit_and a c) (bit_and b c)
bit_and-bit_or a b c = bits_ext (bit_and (bit_or a b) c) (bit_or (bit_and a c) (bit_and b c)) λ j.
    omega (
      arith,
      bit-bit_and (bit_or a b) c j,
      bit-bit_or a b j,
      bit-bit_or (bit_and a c) (bit_and b c) j,
      bit-bit_and a c j,
      bit-bit_and b c j,
    )

pub bit_or-zero : (a : ℕ) → bit_or a 0 ≡ a
bit_or-zero a = bits_ext (bit_or a 0) a λ j. omega (arith, bit-bit_or a 0 j, bit-zero j)

-- A mask that was set reads back whole.
pub bit_and-bit_or_self : (a m : ℕ) → bit_and (bit_or a m) m ≡ m
bit_and-bit_or_self a m =
    bits_ext (bit_and (bit_or a m) m) m
      λ j. omega (arith, bit-bit_and (bit_or a m) m j, bit-bit_or a m j, bit-le a j, bit-le m j)

-- Setting a mask leaves a disjoint one as it was.
pub bit_and-bit_or_disjoint : (a m k : ℕ) → bit_and m k ≡ 0 → bit_and (bit_or a m) k ≡ bit_and a k
bit_and-bit_or_disjoint a m k h = bit_and-bit_or a m k ∙ rw h (bit_or-zero (bit_and a k))

lt_or_le : (j k : ℕ) → (j < k) ⊎ (k ≤ j)
lt_or_le j k = grind arith

bit_and_not_self : (m : ℕ) → m < 2 ^ 64 → bit_and m (bit_not m) ≡ 0
bit_and_not_self m hm = bits_ext (bit_and m (bit_not m)) 0 λ j. elim (lt_or_le j 64) [
  | inl p ↦ omega (arith, bit-bit_and m (bit_not m) j, bit-flip 64 m j hm p, bit-zero j, bit-le m j)
  | inr q ↦ omega (arith, bit-bit_and m (bit_not m) j, bit-high 64 m j hm q, bit-zero j)
]

-- Clearing a mask that has no bit in `w` leaves `w`.
pub bit_and-bit_not_disjoint :
    (w m : ℕ) → w < 2 ^ 64 → m < 2 ^ 64 → bit_and w m ≡ 0 → bit_and w (bit_not m) ≡ w
bit_and-bit_not_disjoint w m hw hm h = bits_ext (bit_and w (bit_not m)) w bits
  where
    apart : (j : ℕ) → min (bit w j) (bit m j) ≡ 0
    apart j = sym (bit-bit_and w m j) ∙ rw h (bit-zero j)

    bits : (j : ℕ) → bit (bit_and w (bit_not m)) j ≡ bit w j
    bits j = elim (lt_or_le j 64) [
      | inl p ↦ omega (
        arith,
        bit-bit_and w (bit_not m) j,
        bit-flip 64 m j hm p,
        apart j,
        bit-le w j,
        bit-le m j,
      )
      | inr q ↦ omega (arith, bit-bit_and w (bit_not m) j, bit-high 64 w j hw q)
    ]

-- Setting a mask and clearing it again gives the word back, if it had no bit of the mask.
pub clear-set :
    (w m : ℕ) → w < 2 ^ 64 → m < 2 ^ 64 → bit_and w m ≡ 0 → bit_and (bit_or w m) (bit_not m) ≡ w
clear-set w m hw hm h =
    bit_and-bit_or w m (bit_not m)
    ∙ rw (bit_and-bit_not_disjoint w m hw hm h, bit_and_not_self m hm) (bit_or-zero w)

pub bit_or-fits : (k a b : ℕ) → a < 2 ^ k → b < 2 ^ k → bit_or a b < 2 ^ k
bit_or-fits k a b ha hb =
    fits_of_bits k (bit_or a b)
      λ j h. omega (arith, bit-bit_or a b j, bit-high k a j ha h, bit-high k b j hb h)

pub bit_and-fits : (k a b : ℕ) → a < 2 ^ k → bit_and a b < 2 ^ k
bit_and-fits k a b ha =
    fits_of_bits k (bit_and a b) λ j h. omega (arith, bit-bit_and a b j, bit-high k a j ha h)
