-- ===== src/Bitmap/Masks.antt =====
-- The masks of `1 << j`: thirty-two of them, pairwise disjoint. Found by evaluation.
use course_project_os_integr.Base.{
  ℕ, ◌-◌, ◌%◌, ◌^◌, ◌<◌, bit_and, ◌≡◌, ◌≢◌, refl, Bool, true, ◌&&◌, ◌||◌, not, arith, ltb, ◌==◌,
  all_below, all_below_sound,
}
use course_project_os_integr.Base.Bits.{bit_not}
use course_project_os_integr.Bitmap.{one_shl}

-- everything that is said below of masks `s` and `t`
abbrev mask_facts : ℕ → ℕ → Bool
mask_facts s t =
    (s == t)
    || ((bit_and (one_shl s) (one_shl t) == 0)
        && (bit_and (bit_not (one_shl s)) (one_shl t) == one_shl t))

abbrev own_facts : ℕ → Bool
own_facts s =
    not (one_shl s == 0)
    && ltb (one_shl s) (2 ^ 64)
    && (bit_and (bit_not (one_shl s)) (one_shl s) == 0)
    && (bit_and (2 ^ 64 - 1) (one_shl s) == one_shl s)

mask_table : all_below 32 (λ s. all_below 32 (mask_facts s)) ≡ true
unfolding all_below one_shl
mask_table = refl

own_table : all_below 32 own_facts ≡ true
unfolding all_below one_shl
own_table = refl

-- The count is taken modulo 32.
pub one_shl-mod : (j : ℕ) → one_shl j ≡ one_shl (j % 32)
unfolding one_shl
one_shl-mod j = let e : j % 32 % 32 ≡ j % 32 = omega arith in rw e

module _ (s t : ℕ) (hs : s < 32) (ht : t < 32) (ne : s ≢ t) where
  facts : mask_facts s t ≡ true
  facts =
      all_below_sound 32 (mask_facts s) t
        (all_below_sound 32 (λ s. all_below 32 (mask_facts s)) s mask_table hs) ht

  pub masks_disjoint : bit_and (one_shl s) (one_shl t) ≡ 0
  masks_disjoint = ground (arith, facts)

  pub bit_not_mask : bit_and (bit_not (one_shl s)) (one_shl t) ≡ one_shl t
  bit_not_mask = ground (arith, facts)

module _ (s : ℕ) (hs : s < 32) where
  own : own_facts s ≡ true
  own = all_below_sound 32 own_facts s own_table hs

  pub mask-ne-zero : one_shl s ≢ 0
  mask-ne-zero = ground (arith, own)

  pub mask-lt : one_shl s < 2 ^ 64
  mask-lt = ground (arith, own)

  pub mask_cleared : bit_and (bit_not (one_shl s)) (one_shl s) ≡ 0
  mask_cleared = ground (arith, own)

  pub mask_of_full : bit_and (2 ^ 64 - 1) (one_shl s) ≡ one_shl s
  mask_of_full = ground (arith, own)
