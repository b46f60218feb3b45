-- ===== src/PageTable/Walk/Maps.antt =====
-- The whole of `vmmgr_map_page`.
use course_project_os_integr.Base.{ℕ, ◌%◌, ◌^◌, ◌<◌, ◌≡◌, Option, some}
use course_project_os_integr.PageTable.Walk.{Machine, Ran}
use course_project_os_integr.PageTable.Walk.Tree.{IsTree}
use course_project_os_integr.PageTable.Walk.Mapping.{Mapped}

module _ (s : Machine) (level owner : ℕ → ℕ) (phys virt : ℕ) (tree : IsTree s level owner)
    (aligned : phys % 4096 ≡ 0) (small : phys < 2 ^ 44) where
  -- what each block is to give
  abbrev Ends : Option Ran → Type 0
  Ends o = (r : Ran) × (o ≡ some r) × Mapped s phys virt r
