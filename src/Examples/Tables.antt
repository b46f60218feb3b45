-- ===== src/Examples/Tables.antt =====
-- Examples for the walk through page tables.
use course_project_os_integr.Base.{ℕ, ◌≡◌, refl, Option, some, none, [], ◌∷◌, ◌==◌, if◌then◌else◌}
use course_project_os_integr.Bitmap.{one_shl}
use course_project_os_integr.PageEntry.{set_pml4_entry, set_pdpe_entry, set_pde_entry}
use course_project_os_integr.PageTable.{
  page_pml4_offset, page_pointer_offset, page_directory_offset, page_table_offset,
}
use course_project_os_integr.PageTable.Walk.{Machine, Ran, page_physical_address, vmmgr_map_page}
use course_project_os_integr.PageTable.Walk.Mmu.{translate}

-- A word of the kernel's own data, the address of the screen, in block 0.
abbrev kernel_data : ℕ → ℕ
kernel_data a = if a == 24 then 0xFFFFFFFF80100000 else 0

-- An empty topmost table in block 1, and the kernel's word in block 0; blocks 0 and 1 are in use.
abbrev empty_tables : Machine
empty_tables = record {
  mem = kernel_data;
  frames = record { words = 3 ∷ 0 ∷ []; used_blocks = 2; max_blocks = 128 };
  base_pointer = 4096;
}

abbrev top_only : ℕ → ℕ
top_only q = if q == 4096 then 4 else 0

-- The screen's page is mapped, and its neighbour is not.
abbrev screen_mapped : Option Ran → Option ℕ × Option ℕ
screen_mapped none = (none, none)
screen_mapped (some r) = (
  translate r.machine.mem 4096 0xFFFFFFFF80100000,
  translate r.machine.mem 4096 0xFFFFFFFF80101000,
)

run_map :
    screen_mapped (vmmgr_map_page 0xB8000 0xFFFFFFFF80100000 empty_tables) ≡ (some 0xB8000, none)
unfolding vmmgr_map_page one_shl page_physical_address page_pml4_offset set_pml4_entry
    page_pointer_offset set_pdpe_entry page_directory_offset set_pde_entry page_table_offset
run_map = refl
