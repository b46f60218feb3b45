-- ===== src/PageTable/Walk/Tree.antt =====
-- The tables as a tree, and what a fresh page from the allocator changes.
use course_project_os_integr.Base.{
  ℕ, suc, ◌+◌, ◌*◌, ◌/◌, ◌%◌, ◌^◌, ◌≤◌, ◌<◌, ◌≡◌, ◌≢◌, ◌⊎◌, inl, inr, ap, ◌∙◌, true, false, some,
  arith,
}
use course_project_os_integr.Bitmap.{Bitmap, alloc_block}
use course_project_os_integr.Bitmap.Slots.{taken, same_slot}
use course_project_os_integr.Bitmap.Blocks.{IsBitmap, alloc_block-AllocOutcome}
use course_project_os_integr.Bitmap.History.{Allocated-IsBitmap}
use course_project_os_integr.PageTable.Walk.{Machine, page_physical_address}

-- Slot 510 of the topmost table leads back to that table.
abbrev pub recursive_slot : Machine → ℕ
recursive_slot s = s.base_pointer + 8 * 510

-- The word `w` in slot `e` of a table at level `l` leads to the table one level below that belongs to
-- this slot.
pub record IsLink (level owner : ℕ → ℕ) (l e w : ℕ) : Type 0 where
  pub present : w % 2 ≡ 1
  pub below : suc (level (page_physical_address w)) ≡ l
  pub owned : owner (page_physical_address w) ≡ e

-- Each page has a level: 4 for the topmost table down to 1 for a page table, and 0 if it is no table.
-- A slot of a table above level 1 is empty or a link, so no table hangs in two slots. The tables are
-- marked in the allocator. No word of a page table or of a page that the allocator shows as free has one
-- of the bits 44 to 51 set.
pub record IsTree (s : Machine) (level owner : ℕ → ℕ) : Type 0 where
  pub top : level s.base_pointer ≡ 4
  pub pages : (q : ℕ) → level q ≢ 0 → (q % 4096 ≡ 0) × (q ≢ 0) × (q < 2 ^ 44)
  pub slots :
      (q i : ℕ)
      → 2 ≤ level q
      → i < 512
      → q + 8 * i ≢ recursive_slot s
      → (s.mem (q + 8 * i) ≡ 0) ⊎ IsLink level owner (level q) (q + 8 * i) (s.mem (q + 8 * i))
  pub plain :
      (q i : ℕ)
      → (level q ≡ 1) ⊎ (taken s.frames.words (q / 4096) ≡ false)
      → q % 4096 ≡ 0
      → i < 512
      → page_physical_address (s.mem (q + 8 * i)) < 2 ^ 44
  pub marked : (q : ℕ) → level q ≢ 0 → taken s.frames.words (q / 4096) ≡ true
  pub good : IsBitmap s.frames

-- A fresh page: `mmgr_alloc_block` returns `NULL`, or a page that was not marked before.
abbrev pub IsFresh : Bitmap → Bitmap → ℕ → Type 0
IsFresh m m' p =
    (p % 4096 ≡ 0)
    × (p < 2 ^ 44)
    × (taken m.words (p / 4096) ≡ false)
    × (taken m'.words (p / 4096) ≡ true)

same_slot_self : (b : ℕ) → same_slot b b ≡ true
same_slot_self b = ground arith

pub alloc_block-IsFresh :
    (m : Bitmap)
    → IsBitmap m
    → (m' : Bitmap) × (p : ℕ) × (alloc_block m ≡ some (m', p))
      × IsBitmap m'
      × ((c : ℕ) → taken m.words c ≡ true → taken m'.words c ≡ true)
      × ((p ≡ 0) ⊎ IsFresh m m' p)
alloc_block-IsFresh m good =
    let ((m', p), runs, outcome) = alloc_block-AllocOutcome m good in
    elim outcome [
      | inl (same, null, _) ↦ (m, p, runs ∙ ap (λ n. some (n, p)) same, good, λ c h. h, inl null)
      | inr (b, addr, _, done) ↦
          let back : p / 4096 ≡ b = omega arith in
          (
            m',
            p,
            runs,
            Allocated-IsBitmap b good done,
            λ c h. ground (arith, done.slots c),
            inr (
              omega arith,
              omega (arith, good.small, good.covered, done.in_range),
              ap (taken m.words) back ∙ done.was_free,
              ap (taken m'.words) back ∙ done.slots b ∙ ground (arith, same_slot_self b),
            ),
          )
    ]
