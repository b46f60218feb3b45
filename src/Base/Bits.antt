-- ===== src/Base/Bits.antt =====
-- The bits of a machine word kept as a native number, and the laws of `&`, `|` and `~` that follow
-- bit by bit.
mod Step
pub mod Laws
use Prim.Native.Nat.{
  ℕ, zero, suc, ◌+◌, ◌-◌, ◌*◌, ◌/◌, ◌%◌, ◌^◌, ◌≤◌, ◌<◌, min, max, bit_and, bit_or,
}
use mathlib.Core.Path.{◌≡◌, refl, sym, ap, ◌∙◌}
use native.Mathlib.Nat.{pow-suc, one-le-pow}
use native.Mathlib.Omega.{arith}
pub use Step.{bit_and_step, bit_or_step}

-- bit `j` of `w`, as 0 or 1
unfoldable pub bit : ℕ → ℕ → ℕ
bit w zero = w % 2
bit w (suc j) = bit (w / 2) j

-- `~w` on a 64-bit word
abbrev pub bit_not : ℕ → ℕ
bit_not w = 2 ^ 64 - 1 - w

pub bit-le : (w j : ℕ) → bit w j ≤ 1
unfolding bit
bit-le w zero = omega arith
bit-le w (suc j) = bit-le (w / 2) j

pub bit-zero : (j : ℕ) → bit 0 j ≡ 0
unfolding bit
bit-zero zero = refl
bit-zero (suc j) = bit-zero j

pub bit-bit_and : (a b j : ℕ) → bit (bit_and a b) j ≡ min (bit a j) (bit b j)
unfolding bit
bit-bit_and a b zero = omega (arith, bit_and_step a b)
bit-bit_and a b (suc j) =
    let e : bit_and a b / 2 ≡ bit_and (a / 2) (b / 2) = omega (arith, bit_and_step a b) in
    rw e (bit-bit_and (a / 2) (b / 2) j)

pub bit-bit_or : (a b j : ℕ) → bit (bit_or a b) j ≡ max (bit a j) (bit b j)
unfolding bit
bit-bit_or a b zero = omega (arith, bit_or_step a b)
bit-bit_or a b (suc j) =
    let e : bit_or a b / 2 ≡ bit_or (a / 2) (b / 2) = omega (arith, bit_or_step a b) in
    rw e (bit-bit_or (a / 2) (b / 2) j)

bits_ext_fuel : (n a b : ℕ) → a ≤ n → b ≤ n → ((j : ℕ) → bit a j ≡ bit b j) → a ≡ b
unfolding bit
bits_ext_fuel zero a b p q h = omega arith
bits_ext_fuel (suc n) a b p q h =
    let low : a % 2 ≡ b % 2 = h 0 in
    let high : a / 2 ≡ b / 2 =
      bits_ext_fuel n (a / 2) (b / 2) (omega arith) (omega arith) (λ j. h (suc j)) in
    omega arith

-- Words with the same bits are equal.
pub bits_ext : (a b : ℕ) → ((j : ℕ) → bit a j ≡ bit b j) → a ≡ b
bits_ext a b h = bits_ext_fuel (a + b) a b (omega arith) (omega arith) h

-- The bits of `2 ^ k - 1 - w` are the flipped bits of `w`.
pub bit-flip : (k w j : ℕ) → w < 2 ^ k → j < k → bit (2 ^ k - 1 - w) j ≡ 1 - bit w j
unfolding bit
bit-flip zero w j fits h = elim h [ ]
bit-flip (suc k) w zero fits h = omega (arith, pow-suc 2 k)
bit-flip (suc k) w (suc j) fits h =
    let e : (2 ^ suc k - 1 - w) / 2 ≡ 2 ^ k - 1 - w / 2 = omega (arith, pow-suc 2 k) in
    rw e (bit-flip k (w / 2) j (omega (arith, pow-suc 2 k)) (omega arith))

-- A word below `2 ^ k` has no bit at `k` or above.
pub bit-high : (k w j : ℕ) → w < 2 ^ k → k ≤ j → bit w j ≡ 0
unfolding bit
bit-high zero w j fits h = let e : w ≡ 0 = omega arith in rw e (bit-zero j)
bit-high (suc k) w zero fits h = elim h [ ]
bit-high (suc k) w (suc j) fits h = bit-high k (w / 2) j (omega (arith, pow-suc 2 k)) (omega arith)

fits_of_bits_fuel : (n k w : ℕ) → w ≤ n → ((j : ℕ) → k ≤ j → bit w j ≡ 0) → w < 2 ^ k
unfolding bit
fits_of_bits_fuel zero k w p h = omega (arith, one-le-pow k 2)
fits_of_bits_fuel (suc n) zero w p h =
    let e : w ≡ 0 = bits_ext w 0 (λ j. h j (omega arith) ∙ sym (bit-zero j)) in omega arith
fits_of_bits_fuel (suc n) (suc k) w p h =
    let half : w / 2 < 2 ^ k =
      fits_of_bits_fuel n k (w / 2) (omega arith) (λ j q. h (suc j) (omega arith)) in
    omega (arith, pow-suc 2 k)

-- A word with no bit at `k` or above is below `2 ^ k`.
pub fits_of_bits : (k w : ℕ) → ((j : ℕ) → k ≤ j → bit w j ≡ 0) → w < 2 ^ k
fits_of_bits k w h = fits_of_bits_fuel w k w (omega arith) h

halve_multiple : (q k : ℕ) → q * 2 ^ k ≡ q * 2 ^ suc k / 2
halve_multiple q k = let grown = ap (λ (power : ℕ). q * power) (pow-suc 2 k) in omega (arith, grown)

-- A multiple of `2 ^ k` has no bit below `k`.
pub bit-low : (k q j : ℕ) → j < k → bit (q * 2 ^ k) j ≡ 0
unfolding bit
bit-low zero q j lt = elim lt [ ]
bit-low (suc k) q zero lt =
    let grown = ap (λ (power : ℕ). q * power) (pow-suc 2 k) in omega (arith, grown)
bit-low (suc k) q (suc j) lt = rw (sym (halve_multiple q k)) (bit-low k q j (omega arith))
