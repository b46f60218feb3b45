-- ===== src/PageTable/Walk/Mmu.antt =====
-- What the processor does with the tables: the walk from the topmost table to a frame.
use course_project_os_integr.Base.{
  ℕ, ◌+◌, ◌*◌, ◌/◌, ◌%◌, ◌^◌, Option, none, some, ◌==◌, if◌then◌else◌, ◌>>=◌,
}
use course_project_os_integr.PageTable.Walk.{page_physical_address}

-- the page that entry `i` of a table leads to, if its present bit is set
abbrev pub lead : ℕ → Option ℕ
lead w = if w % 2 == 1 then some (page_physical_address w) else none

abbrev pub child : (ℕ → ℕ) → ℕ → ℕ → Option ℕ
child mem table i = lead (mem (table + 8 * i))

abbrev pub index4 : ℕ → ℕ
index4 v = v / 2 ^ 39 % 512

abbrev pub index3 : ℕ → ℕ
index3 v = v / 2 ^ 30 % 512

abbrev pub index2 : ℕ → ℕ
index2 v = v / 2 ^ 21 % 512

abbrev pub index1 : ℕ → ℕ
index1 v = v / 2 ^ 12 % 512

-- The frame that the address `v` is mapped to.
abbrev pub translate : (ℕ → ℕ) → ℕ → ℕ → Option ℕ
translate mem cr3 v = child mem cr3 (index4 v) >>= λ a.
    child mem a (index3 v) >>= λ b. child mem b (index2 v) >>= λ c. child mem c (index1 v)
