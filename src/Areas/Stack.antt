-- ===== src/Areas/Stack.antt =====
-- The growth of the stack at a page fault.
use course_project_os_integr.Base.{
  ℕ, suc, ◌+◌, ◌-◌, ◌%◌, ◌^◌, ◌≤◌, ◌<◌, ◌≡◌, ◌⊎◌, Bool, true, false, Option, some, List, [], ◌∷◌,
  ◌++◌, leb, if◌then◌else◌,
}
use course_project_os_integr.Areas.{Areas, Fault, grown, stack_overflow, elsewhere}
use course_project_os_integr.Areas.Lists.{IsAreas}

-- whether an area starts at most 100 bytes behind the address
abbrev pub any_near : ℕ → Areas → List ℕ → Bool
any_near address s [] = false
any_near address s (n ∷ ns) =
    if leb ((s.vm_start n + 2 ^ 64 - address) % 2 ^ 64) 100 then true else any_near address s ns

-- What the handler comes to for a process whose last area is `l`.
abbrev pub Grows : ℕ → ℕ → Areas → List ℕ → ℕ → Option Fault → Type 0
Grows vma address s ns l r =
    ((any_near address s ns ≡ true)
      × (s.no_stack_pages ≤ 4)
      × (s' : Areas) × (r ≡ some (grown s'))
      × IsAreas s' (ns ++ vma ∷ [])
      × (s'.vm_start vma ≡ (s.vm_start l + 2 ^ 64 - 0x1000) % 2 ^ 64)
      × (s'.no_stack_pages ≡ suc s.no_stack_pages))
    ⊎ ((any_near address s ns ≡ true) × (4 < s.no_stack_pages) × (r ≡ some (stack_overflow s)))
    ⊎ ((any_near address s ns ≡ false) × (r ≡ some (elsewhere s)))
