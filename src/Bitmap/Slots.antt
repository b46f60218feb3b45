-- ===== src/Bitmap/Slots.antt =====
-- A bitmap as its slots. Block `b` stands in word `b / 64` at slot `b % 32`: blocks that differ by
-- 32 within one word share a slot, since `1 << n` takes its count modulo 32.
pub mod Updates
use course_project_os_integr.Base.{
  ℕ, ◌/◌, ◌%◌, ◌^◌, ◌<◌, bit_and, bit_or, ◌≡◌, ◌≢◌, inl, inr, refl, sym, ap, ◌∙◌, Bool, true, false,
  not, ◌||◌, ◌&&◌, Option, none, some, List, arith, ◌==◌, Bool-cases, eq_of_==, length, get_elem?,
  set, length-set, set-set, set-get_elem?, get_elem?-set_self, get_elem?-set_ne, get_elem?-some,
  get_elem?-lt, store, Option-cases,
}
use mathlib.Core.Path.{subst}
use course_project_os_integr.Base.Bits.{bit_not}
use course_project_os_integr.Base.Bits.Laws.{
  bit_and_assoc, bit_and-zero, bit_and-bit_or_self, bit_and-bit_or_disjoint, clear-set, bit_or-fits,
  bit_and-fits,
}
use course_project_os_integr.Bitmap.{one_shl, set_block, unset_block}
use course_project_os_integr.Bitmap.Masks.{
  one_shl-mod, masks_disjoint, bit_not_mask, mask-ne-zero, mask-lt, mask_cleared,
}

-- the test `w & (1 << j)` on a word
abbrev pub busy : ℕ → ℕ → Bool
busy w j = not (bit_and w (one_shl j) == 0)

-- whether the bitmap shows block `b` as in use; a block beyond the array counts as in use
abbrev pub busy_in : Option ℕ → ℕ → Bool
busy_in none j = true
busy_in (some w) j = busy w j

abbrev pub taken : List ℕ → ℕ → Bool
taken ws b = busy_in (get_elem? ws (b / 64)) (b % 64)

-- two blocks that the bitmap cannot tell apart
abbrev pub same_slot : ℕ → ℕ → Bool
same_slot b c = (b / 64 == c / 64) && (b % 32 == c % 32)

-- every entry is a 64-bit word
abbrev pub IsWords : List ℕ → Type 0
IsWords ws = (i : ℕ) (w : ℕ) → get_elem? ws i ≡ some w → w < 2 ^ 64

slot_of : (b : ℕ) → one_shl (b % 64) ≡ one_shl (b % 32)
slot_of b = let e : b % 64 % 32 ≡ b % 32 = omega arith in one_shl-mod (b % 64) ∙ rw e

busy-slot : (w b : ℕ) → busy w (b % 64) ≡ busy w (b % 32)
busy-slot w b = rw (slot_of b)

busy_in-slot : (o : Option ℕ) (b : ℕ) → busy_in o (b % 64) ≡ busy_in o (b % 32)
busy_in-slot none b = refl
busy_in-slot (some w) b = busy-slot w b

-- Blocks of one slot are shown alike.
pub taken-same_slot : (ws : List ℕ) (b c : ℕ) → same_slot b c ≡ true → taken ws b ≡ taken ws c
taken-same_slot ws b c h =
    let word : b / 64 ≡ c / 64 = ground arith in
    let slot : b % 32 ≡ c % 32 = ground arith in
    busy_in-slot (get_elem? ws (b / 64)) b
    ∙ ap (λ i. busy_in (get_elem? ws i) (b % 32)) word
    ∙ ap (busy_in (get_elem? ws (c / 64))) slot
    ∙ sym (busy_in-slot (get_elem? ws (c / 64)) c)

module _ (w s t : ℕ) (hs : s < 32) (ht : t < 32) where
  busy-set : busy (bit_or w (one_shl s)) t ≡ (busy w t || s == t)
  busy-set = elim (Bool-cases (s == t)) [
    | inl e ↦
        let q : s ≡ t = eq_of_== s t e in
        ground (arith, bit_and-bit_or_self w (one_shl s), mask-ne-zero s hs)
    | inr n ↦
        let ne : s ≢ t = ground arith in
        ground
          (arith, bit_and-bit_or_disjoint w (one_shl s) (one_shl t) (masks_disjoint s t hs ht ne))
  ]

  busy-unset : busy (bit_and w (bit_not (one_shl s))) t ≡ (busy w t && not (s == t))
  busy-unset = elim (Bool-cases (s == t)) [
    | inl e ↦
        let q : s ≡ t = eq_of_== s t e in
        ground (
          arith,
          bit_and_assoc w (bit_not (one_shl s)) (one_shl s),
          mask_cleared s hs,
          bit_and-zero w,
        )
    | inr n ↦
        let ne : s ≢ t = ground arith in
        ground (arith, bit_and_assoc w (bit_not (one_shl s)) (one_shl t), bit_not_mask s t hs ht ne)
  ]

-- a stored word is what a block of that word is looked up in, and no other block sees it
taken-set_self :
    (ws : List ℕ) (i w : ℕ) (c : ℕ)
    → i < length ws
    → i ≡ c / 64
    → taken (set ws i w) c ≡ busy w (c % 64)
taken-set_self ws i w c h q =
    ap (λ o. busy_in o (c % 64)) (ap (get_elem? (set ws i w)) (sym q) ∙ get_elem?-set_self ws i w h)

taken-set_ne : (ws : List ℕ) (i w c : ℕ) → i ≢ c / 64 → taken (set ws i w) c ≡ taken ws c
taken-set_ne ws i w c ne = ap (λ o. busy_in o (c % 64)) (get_elem?-set_ne ws i (c / 64) w ne)

pub taken-word :
    (ws : List ℕ) (i w c : ℕ) → get_elem? ws i ≡ some w → i ≡ c / 64 → taken ws c ≡ busy w (c % 64)
taken-word ws i w c e q = ap (λ o. busy_in o (c % 64)) (ap (get_elem? ws) (sym q) ∙ e)

-- A change of one word that is `change` on the slots of block `b` is so on the whole bitmap.
update_taken :
    (ws : List ℕ) (b c w w' : ℕ) (change : Bool → Bool → Bool)
    → get_elem? ws (b / 64) ≡ some w
    → busy w' (c % 32) ≡ change (busy w (c % 32)) (b % 32 == c % 32)
    → ((x : Bool) → change x false ≡ x)
    → taken (set ws (b / 64) w') c ≡ change (taken ws c) (same_slot b c)
update_taken ws b c w w' change e here keep = elim (Bool-cases (b / 64 == c / 64)) [
  | inl same ↦
      let q : b / 64 ≡ c / 64 = eq_of_== (b / 64) (c / 64) same in
      let inside = get_elem?-lt ws (b / 64) e in
      taken-set_self ws (b / 64) w' c inside q
      ∙ busy-slot w' c
      ∙ here
      ∙ ap (λ x. change x (b % 32 == c % 32)) (sym (busy-slot w c))
      ∙ ap (λ x. change x (b % 32 == c % 32)) (sym (taken-word ws (b / 64) w c e q))
      ∙ ap (λ x. change (taken ws c) (x && (b % 32 == c % 32))) (sym same)
  | inr other ↦
      let ne : b / 64 ≢ c / 64 = ground arith in
      taken-set_ne ws (b / 64) w' c ne
      ∙ sym (keep (taken ws c))
      ∙ ap (λ x. change (taken ws c) (x && (b % 32 == c % 32))) (sym other)
]
