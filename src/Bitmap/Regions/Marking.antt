-- ===== src/Bitmap/Regions/Marking.antt =====
-- What marking a region does to the slots of the bitmap.
use course_project_os_integr.Base.{
  ℕ, zero, suc, ◌+◌, ◌*◌, ◌/◌, ◌%◌, ◌^◌, ◌≤◌, ◌<◌, ◌≡◌, inl, inr, refl, sym, ap, ◌∙◌, Bool, true,
  false, not, ◌||◌, ◌&&◌, some, List, arith, ◌==◌, eq_of_==, Bool-cases, Option-cases, length,
}
use mathlib.Core.Path.{subst}
use mathlib.Core.Option.{some-injective}
use course_project_os_integr.Bitmap.{
  Bitmap, block_size, count_up, count_down, set_block, unset_block,
}
use course_project_os_integr.Bitmap.Slots.{taken, same_slot, IsWords}
use course_project_os_integr.Bitmap.Slots.Updates.{
  set_block-some, set_block-taken, set_block-length, set_block-IsWords, unset_block-some,
  unset_block-taken, unset_block-length, unset_block-IsWords,
}
use course_project_os_integr.Bitmap.Regions.{unset_region, set_region, phy_init_regions}

-- some block of the `n` from `b` on has the slot of `c`
unfoldable pub covers : ℕ → ℕ → ℕ → Bool
covers zero b c = false
covers (suc n) b c = same_slot b c || covers n (suc b) c

pub covers-inside : (n b c : ℕ) → b ≤ c → c < b + n → covers n b c ≡ true
unfolding covers
covers-inside zero b c p q = absurd (omega arith)
covers-inside (suc n) b c p q = elim (Bool-cases (b == c)) [
  | inl e ↦ let same : b ≡ c = eq_of_== b c e in ground arith
  | inr ne ↦ ground (arith, covers-inside n (suc b) c)
]

-- `m'` is `m` with the slots of a region changed, and the counter moved.
pub record Changed (m m' : Bitmap) : Type 0 where
  pub same_length : length m'.words ≡ length m.words
  pub same_max : m'.max_blocks ≡ m.max_blocks
  pub entries : IsWords m.words → IsWords m'.words

pub Changed-refl : (m : Bitmap) → Changed m m
Changed-refl m = record { same_length = refl; same_max = refl; entries = λ h. h }

pub Changed-trans : {l m n : Bitmap} → Changed l m → Changed m n → Changed l n
Changed-trans p q = record {
  same_length = q.same_length ∙ p.same_length;
  same_max = q.same_max ∙ p.same_max;
  entries = λ h. q.entries (p.entries h);
}

and_nor : (x y z : Bool) → ((x && not y) && not z) ≡ (x && not (y || z))
and_nor x y z = ground arith

or_assoc : (x y z : Bool) → ((x || y) || z) ≡ (x || (y || z))
or_assoc x y z = ground arith

and_true : (x : Bool) → x ≡ (x && true)
and_true x = ground arith

or_false : (x : Bool) → x ≡ (x || false)
or_false x = ground arith

-- One round of each loop.
pub unset_one :
    (m : Bitmap) (b : ℕ) (ws : List ℕ)
    → unset_block m.words b ≡ some ws
    → Changed m (record m { words = ws; used_blocks = count_down m.used_blocks 1 })
unset_one m b ws e = record {
  same_length = unset_block-length m.words b e;
  same_max = refl;
  entries = λ h. unset_block-IsWords m.words b h e;
}

pub set_one :
    (m : Bitmap) (b : ℕ) (ws : List ℕ)
    → set_block m.words b ≡ some ws
    → Changed m (record m { words = ws; used_blocks = count_up m.used_blocks 1 })
set_one m b ws e = record {
  same_length = set_block-length m.words b e;
  same_max = refl;
  entries = λ h. set_block-IsWords m.words b h e;
}

pub unset_region-slots :
    (n b : ℕ) (m m' : Bitmap)
    → b + n ≤ 2 ^ 32
    → unset_region n b m ≡ some m'
    → Changed m m'
      × ((c : ℕ) → taken m'.words c ≡ (taken m.words c && not (covers n b c)))
      × ((m'.used_blocks + n) % 2 ^ 64 ≡ m.used_blocks % 2 ^ 64)
unfolding unset_region covers
unset_region-slots zero b m m' fits h =
    let e : m ≡ m' = some-injective m m' h in
    (
      subst (Changed m) e (Changed-refl m),
      λ c. sym (ap (λ k. taken k.words c) e) ∙ and_true (taken m.words c),
      ap (λ k. (k.used_blocks + 0) % 2 ^ 64) (sym e) ∙ omega arith,
    )
unset_region-slots (suc n) b m m' fits h = elim (Option-cases (unset_block m.words (b % 2 ^ 32))) [
  | inl e ↦ absurd (ground arith)
  | inr (ws, e) ↦
      let k : Bitmap = record m { words = ws; used_blocks = count_down m.used_blocks 1 } in
      let at : b % 2 ^ 32 ≡ b = omega arith in
      let here : unset_block m.words b ≡ some ws = ap (unset_block m.words) (sym at) ∙ e in
      let (rest, slots, counts) = unset_region-slots n (suc b) k m' (omega arith) (rw e at h) in
      (
        Changed-trans (unset_one m b ws here) rest,
        λ c.
            slots c
            ∙ ap (λ x. x && not (covers n (suc b) c)) (unset_block-taken m.words b c here)
            ∙ and_nor (taken m.words c) (same_slot b c) (covers n (suc b) c),
        omega arith,
      )
]

pub set_region-slots :
    (n b : ℕ) (m m' : Bitmap)
    → b + n ≤ 2 ^ 32
    → set_region n b m ≡ some m'
    → Changed m m'
      × ((c : ℕ) → taken m'.words c ≡ (taken m.words c || covers n b c))
      × (m'.used_blocks % 2 ^ 64 ≡ (m.used_blocks + n) % 2 ^ 64)
unfolding set_region covers
set_region-slots zero b m m' fits h =
    let e : m ≡ m' = some-injective m m' h in
    (
      subst (Changed m) e (Changed-refl m),
      λ c. sym (ap (λ k. taken k.words c) e) ∙ or_false (taken m.words c),
      ap (λ k. k.used_blocks % 2 ^ 64) (sym e) ∙ omega arith,
    )
set_region-slots (suc n) b m m' fits h = elim (Option-cases (set_block m.words (b % 2 ^ 32))) [
  | inl e ↦ absurd (ground arith)
  | inr (ws, e) ↦
      let k : Bitmap = record m { words = ws; used_blocks = count_up m.used_blocks 1 } in
      let at : b % 2 ^ 32 ≡ b = omega arith in
      let here : set_block m.words b ≡ some ws = ap (set_block m.words) (sym at) ∙ e in
      let (rest, slots, counts) = set_region-slots n (suc b) k m' (omega arith) (rw e at h) in
      (
        Changed-trans (set_one m b ws here) rest,
        λ c.
            slots c
            ∙ ap (λ x. x || covers n (suc b) c) (set_block-taken m.words b c here)
            ∙ or_assoc (taken m.words c) (same_slot b c) (covers n (suc b) c),
        omega arith,
      )
]

-- The loop ends with a result when the words of the region are in the array.
pub unset_region-some :
    (n b : ℕ) (m : Bitmap)
    → b + n ≤ 2 ^ 32
    → b + n ≤ 64 * length m.words
    → (m' : Bitmap) × (unset_region n b m ≡ some m')
unfolding unset_region
unset_region-some zero b m fits inside = (m, refl)
unset_region-some (suc n) b m fits inside =
    let at : b % 2 ^ 32 ≡ b = omega arith in
    let (ws, e) = unset_block-some m.words (b % 2 ^ 32) (omega arith) in
    let k : Bitmap = record m { words = ws; used_blocks = count_down m.used_blocks 1 } in
    let same : length ws ≡ length m.words = unset_block-length m.words (b % 2 ^ 32) e in
    let (m', rest) = unset_region-some n (suc b) k (omega arith) (omega arith) in (m', rw (e, rest))

pub set_region-some :
    (n b : ℕ) (m : Bitmap)
    → b + n ≤ 2 ^ 32
    → b + n ≤ 64 * length m.words
    → (m' : Bitmap) × (set_region n b m ≡ some m')
unfolding set_region
set_region-some zero b m fits inside = (m, refl)
set_region-some (suc n) b m fits inside =
    let at : b % 2 ^ 32 ≡ b = omega arith in
    let (ws, e) = set_block-some m.words (b % 2 ^ 32) (omega arith) in
    let k : Bitmap = record m { words = ws; used_blocks = count_up m.used_blocks 1 } in
    let same : length ws ≡ length m.words = set_block-length m.words (b % 2 ^ 32) e in
    let (m', rest) = set_region-some n (suc b) k (omega arith) (omega arith) in (m', rw (e, rest))

-- `mmgr_phy_init_regions` on a region whose words are in the array, with block numbers that fit in 32
-- bits, ends with a result. It frees exactly the blocks that share a slot with a block of the region,
-- leaves the others as they were, and takes the number of the region's blocks off the counter of used
-- ones.
pub phy_init_regions-slots :
    (base len : ℕ) (m : Bitmap)
    → base / block_size + len / block_size ≤ 2 ^ 32
    → base / block_size + len / block_size ≤ 64 * length m.words
    → (m' : Bitmap) × (phy_init_regions base len m ≡ some m')
      × ((c : ℕ)
          → taken m'.words c
            ≡ (taken m.words c && not (covers (len / block_size) (base / block_size) c)))
      × ((m'.used_blocks + len / block_size) % 2 ^ 64 ≡ m.used_blocks % 2 ^ 64)
unfolding phy_init_regions
phy_init_regions-slots base len m fits inside =
    let (m', e) = unset_region-some (len / block_size) (base / block_size) m fits inside in
    let (same, slots, counts) =
      unset_region-slots (len / block_size) (base / block_size) m m' fits e in
    (m', e, slots, counts)
