-- ===== src/PageTable/Recursive.antt =====
-- The recursive mapping: where each table entry of an address is seen, and that the four functions
-- are one function applied again.
use course_project_os_integr.Base.{ℕ, ◌+◌, ◌*◌, ◌/◌, ◌%◌, ◌^◌, ◌<◌, ◌≡◌, ◌↔◌, arith}
use course_project_os_integr.PageTable.{
  recursive_entry, recursive_page_table_entry, recursive_page_directory_entry,
  recursive_page_pointer_entry, get_pml4e_offset_recurse, get_pdpe_offset_recurse,
  get_pde_offset_recurse, get_pte_recurse,
}
use course_project_os_integr.PageTable.Index.{
  page_table_offset_lem, page_directory_offset_lem, page_pointer_offset_lem, page_pml4_offset_lem,
}

-- The entries lie side by side, eight bytes each, in the order of the pages that they map.
pub get_pte_recurse_lem :
    (virt : ℕ) → get_pte_recurse virt ≡ recursive_page_table_entry + 8 * (virt / 2 ^ 12 % 2 ^ 36)
unfolding get_pte_recurse
get_pte_recurse_lem virt = omega (
  arith,
  page_table_offset_lem virt,
  page_directory_offset_lem virt,
  page_pointer_offset_lem virt,
  page_pml4_offset_lem virt,
)

pub get_pde_offset_recurse_lem :
    (virt : ℕ)
    → get_pde_offset_recurse virt ≡ recursive_page_directory_entry + 8 * (virt / 2 ^ 21 % 2 ^ 27)
unfolding get_pde_offset_recurse
get_pde_offset_recurse_lem virt =
    omega (
      arith,
      page_directory_offset_lem virt,
      page_pointer_offset_lem virt,
      page_pml4_offset_lem virt,
    )

pub get_pdpe_offset_recurse_lem :
    (virt : ℕ)
    → get_pdpe_offset_recurse virt ≡ recursive_page_pointer_entry + 8 * (virt / 2 ^ 30 % 2 ^ 18)
unfolding get_pdpe_offset_recurse
get_pdpe_offset_recurse_lem virt =
    omega (arith, page_pointer_offset_lem virt, page_pml4_offset_lem virt)

pub get_pml4e_offset_recurse_lem :
    (virt : ℕ) → get_pml4e_offset_recurse virt ≡ recursive_entry + 8 * (virt / 2 ^ 39 % 2 ^ 9)
unfolding get_pml4e_offset_recurse
get_pml4e_offset_recurse_lem virt = omega (arith, page_pml4_offset_lem virt)

-- The page-table entry that maps the page of a page-table entry is the directory entry, and so on
-- up to the topmost table: the four constants and shifts describe one recursive slot.
pub recursive_levels :
    (virt : ℕ)
    → (get_pte_recurse (get_pte_recurse virt) ≡ get_pde_offset_recurse virt)
      × (get_pte_recurse (get_pde_offset_recurse virt) ≡ get_pdpe_offset_recurse virt)
      × (get_pte_recurse (get_pdpe_offset_recurse virt) ≡ get_pml4e_offset_recurse virt)
recursive_levels virt = (
  omega (
    arith,
    get_pte_recurse_lem (get_pte_recurse virt),
    get_pte_recurse_lem virt,
    get_pde_offset_recurse_lem virt,
  ),
  omega (
    arith,
    get_pte_recurse_lem (get_pde_offset_recurse virt),
    get_pde_offset_recurse_lem virt,
    get_pdpe_offset_recurse_lem virt,
  ),
  omega (
    arith,
    get_pte_recurse_lem (get_pdpe_offset_recurse virt),
    get_pdpe_offset_recurse_lem virt,
    get_pml4e_offset_recurse_lem virt,
  ),
)

-- Two addresses of 48 bits have one page-table entry exactly if they lie in one page.
pub get_pte_recurse-same_page :
    (v w : ℕ)
    → v < 2 ^ 48
    → w < 2 ^ 48
    → (get_pte_recurse v ≡ get_pte_recurse w) ↔ (v / 4096 ≡ w / 4096)
get_pte_recurse-same_page v w hv hw = (
  λ h. omega (arith, get_pte_recurse_lem v, get_pte_recurse_lem w),
  λ h. omega (arith, get_pte_recurse_lem v, get_pte_recurse_lem w),
)
