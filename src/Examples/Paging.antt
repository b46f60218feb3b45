-- ===== src/Examples/Paging.antt =====
-- Examples for page-table entries, addresses and the page allocator.
use course_project_os_integr.Base.{◌≡◌}
use course_project_os_integr.PageTable.{
  Bump, get_pte_recurse, get_pde_offset_recurse, get_pdpe_offset_recurse, get_pml4e_offset_recurse,
}
use course_project_os_integr.PageTable.Recursive.{recursive_levels}

recursive_levels_example :
    (get_pte_recurse (get_pte_recurse 0xFFFFFFFF80200000)
      ≡ get_pde_offset_recurse 0xFFFFFFFF80200000)
    × (get_pte_recurse (get_pde_offset_recurse 0xFFFFFFFF80200000)
        ≡ get_pdpe_offset_recurse 0xFFFFFFFF80200000)
    × (get_pte_recurse (get_pdpe_offset_recurse 0xFFFFFFFF80200000)
        ≡ get_pml4e_offset_recurse 0xFFFFFFFF80200000)
recursive_levels_example = recursive_levels 0xFFFFFFFF80200000

abbrev fresh : Bump
fresh = record { bump_addr = 0xFFFFFFFF80300000; prev_no_pages = 0 }
