-- ===== src/Base/Bits/Step.antt =====
-- `&` and `|` from the lowest digit up. Both are defined by `digits`, whose first number bounds the
-- digits that it looks at; any bound as large as the left word is good.
use Prim.Native.Nat.{
  ℕ, zero, suc, ◌+◌, ◌*◌, ◌/◌, ◌%◌, ◌≤◌, min, max, digits, bit_and, bit_or, bitwise,
  bit_and-bitwise, bit_or-bitwise,
}
use mathlib.Core.Path.{◌≡◌, refl, sym, ◌∙◌}
use native.Mathlib.Omega.{arith}

module _ (tail : ℕ → ℕ) (merge : ℕ → ℕ → ℕ) where
  no_digits : (bound v : ℕ) → digits tail merge bound zero v ≡ tail v
  no_digits zero v = refl
  no_digits (suc bound) v = refl

  any_bound :
      (u v bound other : ℕ)
      → u ≤ bound
      → u ≤ other
      → digits tail merge bound u v ≡ digits tail merge other u v
  any_bound zero v bound other lo hi = no_digits bound v ∙ sym (no_digits other v)
  any_bound (suc u) v zero other lo hi = absurd (omega arith)
  any_bound (suc u) v (suc bound) zero lo hi = absurd (omega arith)
  any_bound (suc u) v (suc bound) (suc other) lo hi =
      let halved = any_bound (suc u / 2) (v / 2) bound other (omega arith) (omega arith) in
      omega (arith, halved)

  lowest :
      (u v : ℕ)
      → bitwise tail merge (suc u) v
        ≡ merge (suc u % 2) (v % 2) + 2 * bitwise tail merge (suc u / 2) (v / 2)
  lowest u v =
      let halved = any_bound (suc u / 2) (v / 2) u (suc u / 2) (omega arith) (omega arith) in
      omega (arith, halved)

pub bit_or_step : (u v : ℕ) → bit_or u v ≡ max (u % 2) (v % 2) + 2 * bit_or (u / 2) (v / 2)
bit_or_step zero v = omega (arith, bit_or-bitwise 0 v, bit_or-bitwise 0 (v / 2))
bit_or_step (suc u) v =
    let whole = bit_or-bitwise (suc u) v in
    let half = bit_or-bitwise (suc u / 2) (v / 2) in
    omega (arith, whole, half, lowest (λ w. w) max u v)

pub bit_and_step : (u v : ℕ) → bit_and u v ≡ min (u % 2) (v % 2) + 2 * bit_and (u / 2) (v / 2)
bit_and_step zero v = omega (arith, bit_and-bitwise 0 v, bit_and-bitwise 0 (v / 2))
bit_and_step (suc u) v =
    let whole = bit_and-bitwise (suc u) v in
    let half = bit_and-bitwise (suc u / 2) (v / 2) in
    omega (arith, whole, half, lowest (λ w. 0) min u v)
