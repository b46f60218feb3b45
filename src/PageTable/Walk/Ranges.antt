-- ===== src/PageTable/Walk/Ranges.antt =====
-- Ranges of pages that `vmmgr_init` maps.
use course_project_os_integr.Base.{ℕ, suc, ◌+◌, ◌*◌, ◌/◌, ◌%◌, ◌^◌, ◌≤◌, ◌<◌, ◌≡◌, ◌≢◌, false, some}
use course_project_os_integr.PageTable.Walk.{Machine, Ran}
use course_project_os_integr.PageTable.Walk.Mmu.{index4, translate}
use course_project_os_integr.PageTable.Walk.Tree.{IsTree}
use course_project_os_integr.PageTable.Walk.Mapping.{Mapped}

-- the number of the page of an address, of 36 bits
abbrev pub page_of : ℕ → ℕ
page_of v = v / 2 ^ 12 % 2 ^ 36

-- What mapping `n` pages on a tree leaves: a tree with the same topmost table; every page of the range
-- leads to its frame, unless the run panicked; mapped pages outside of the range stay mapped as before.
pub record RangeMapped (s : Machine) (n frame virt : ℕ) (r : Ran) : Type 0 where
  pub level' : ℕ → ℕ
  pub owner' : ℕ → ℕ
  pub tree : IsTree r.machine level' owner'
  pub same_base : r.machine.base_pointer ≡ s.base_pointer
  pub maps :
      r.panicked ≡ false
      → (i : ℕ) → i < n
      → translate r.machine.mem s.base_pointer (virt + 4096 * i) ≡ some (frame + 4096 * i)
  pub keeps :
      (v f : ℕ)
      → index4 v ≢ 510
      → ((i : ℕ) → i < n → page_of v ≢ page_of (virt + 4096 * i))
      → translate s.mem s.base_pointer v ≡ some f
      → translate r.machine.mem s.base_pointer v ≡ some f

module _ (s : Machine) (n frame virt : ℕ) (r : Ran) (first : Mapped s frame virt r)
    (high : 0xFFFFFF8000000000 ≤ virt) (fits : virt + 4096 * suc n < 2 ^ 64) where
  module _ (t : Ran) (rest : RangeMapped r.machine n (frame + 4096) (virt + 4096) t)
      (go : r.panicked ≡ false) where
    abbrev AtBase : ℕ → Type 0
    AtBase f =
        (v : ℕ)
        → translate t.machine.mem r.machine.base_pointer v ≡ some f
        → translate t.machine.mem s.base_pointer v ≡ some f
