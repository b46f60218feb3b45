-- ===== src/Heap/Fit.antt =====
-- The search for a block.
use course_project_os_integr.Base.{
  ℕ, zero, suc, ◌<◌, ◌≡◌, ◌⊎◌, inl, inr, refl, Bool, true, false, ◌&&◌, some, List, [], ◌∷◌, arith,
  leb, ==_of_ne, Bool-cases, length,
}
use course_project_os_integr.Processes.Children.{Chain}
use course_project_os_integr.Heap.{Heap, Fitting, find_from, find_block}

-- a free block of the size at least
abbrev pub fits : Heap → ℕ → ℕ → Bool
fits h size b = h.free b && leb size (h.size b)

-- The search passes the blocks that do not fit and ends at the first one that does.
unfoldable pub FirstFit : Heap → ℕ → ℕ → List ℕ → Fitting → Type 0
FirstFit h size last [] f = (f.block ≡ 0) × (f.passed ≡ last)
FirstFit h size last (b ∷ bs) f =
    ((fits h size b ≡ true) × (f.block ≡ b) × (f.passed ≡ last))
    ⊎ ((fits h size b ≡ false) × FirstFit h size b bs f)

find_from-FirstFit :
    (fuel : ℕ) (h : Heap) (last b size : ℕ) (bs : List ℕ)
    → Chain h.next b bs
    → length bs < fuel
    → (f : Fitting) × (find_from fuel h last b size ≡ some f) × FirstFit h size last bs f
unfolding Chain find_from FirstFit
find_from-FirstFit zero h last b size bs c enough = absurd (omega arith)
find_from-FirstFit (suc fuel) h last b size [] c enough =
    (record { passed = last; block = 0 }, rw c refl, (refl, refl))
find_from-FirstFit (suc fuel) h last b size (n ∷ bs) (e, nz, c) enough =
    elim (Bool-cases (fits h size n)) [
      | inl good ↦ (
        record { passed = last; block = n },
        rw (e, ==_of_ne n 0 nz, good) refl,
        inl (good, refl, refl),
      )
      | inr bad ↦
          let (f, rest, first) = find_from-FirstFit fuel h n (h.next n) size bs c (omega arith) in
          (f, rw (e, ==_of_ne n 0 nz, bad) rest, inr (bad, first))
    ]

-- `find_block` on a list of blocks, with more fuel than blocks: the first free block of the size or more,
-- and the block in front of it; or 0, and the last block, when none fits.
pub find_block-FirstFit :
    (fuel : ℕ) (h : Heap) (last size : ℕ) (bs : List ℕ)
    → Chain h.next h.base bs
    → length bs < fuel
    → (f : Fitting) × (find_block fuel h last size ≡ some f) × FirstFit h size last bs f
unfolding find_block
find_block-FirstFit fuel h last size bs c enough =
    find_from-FirstFit fuel h last h.base size bs c enough
