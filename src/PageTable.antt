-- ===== src/PageTable.antt =====
-- Addresses of table entries in sys/mm/vmmgr_virtual.c: the index macros of
-- include/sys/mm/vmmgr_virtual.h, the lookups in a table, the recursive mapping through entry 510,
-- and the bump allocator of pages. Arithmetic is on 64-bit words.
pub mod Index
pub mod Recursive
pub mod Pages
pub mod Walk
use course_project_os_integr.Base.{ℕ, ◌+◌, ◌*◌, ◌/◌, ◌%◌, ◌^◌, bit_and, Bool, ◌==◌, if◌then◌else◌}

unfoldable pub page_table_offset : ℕ → ℕ
page_table_offset x = bit_and (x / 2 ^ 12) 0x1FF

unfoldable pub page_directory_offset : ℕ → ℕ
page_directory_offset x = bit_and (x / 2 ^ 21) 0x1FF

unfoldable pub page_pointer_offset : ℕ → ℕ
page_pointer_offset x = bit_and (x / 2 ^ 30) 0x1FF

unfoldable pub page_pml4_offset : ℕ → ℕ
page_pml4_offset x = bit_and (x / 2 ^ 39) 0x1FF

-- `&(p->entry[…])`, or `NULL` without a table.
unfoldable pub vmmgr_ptable_lookup_entry : ℕ → ℕ → ℕ
vmmgr_ptable_lookup_entry p addr = if p == 0 then 0 else (p + 8 * page_table_offset addr) % 2 ^ 64

unfoldable pub vmmgr_page_directory_lookup_entry : ℕ → ℕ → ℕ
vmmgr_page_directory_lookup_entry p addr =
    if p == 0 then 0 else (p + 8 * page_directory_offset addr) % 2 ^ 64

unfoldable pub vmmgr_page_pointer_directory_lookup_entry : ℕ → ℕ → ℕ
vmmgr_page_pointer_directory_lookup_entry p addr =
    if p == 0 then 0 else (p + 8 * page_pointer_offset addr) % 2 ^ 64

unfoldable pub vmmgr_pml4_directory_lookup_entry : ℕ → ℕ → ℕ
vmmgr_pml4_directory_lookup_entry p addr =
    if p == 0 then 0 else (p + 8 * page_pml4_offset addr) % 2 ^ 64

abbrev pub recursive_entry : ℕ
recursive_entry = 0xFFFFFF7FBFDFE000

abbrev pub recursive_page_table_entry : ℕ
recursive_page_table_entry = 0xFFFFFF0000000000

abbrev pub recursive_page_directory_entry : ℕ
recursive_page_directory_entry = 0xFFFFFF7F80000000

abbrev pub recursive_page_pointer_entry : ℕ
recursive_page_pointer_entry = 0xFFFFFF7FBFC00000

-- `a + b` and `a << k` on 64 bits
abbrev pub add64 : ℕ → ℕ → ℕ
add64 a b = (a + b) % 2 ^ 64

abbrev pub shl64 : ℕ → ℕ → ℕ
shl64 a k = a * 2 ^ k % 2 ^ 64

unfoldable pub get_pml4e_offset_recurse : ℕ → ℕ
get_pml4e_offset_recurse virt = add64 recursive_entry (8 * page_pml4_offset virt)

unfoldable pub get_pdpe_offset_recurse : ℕ → ℕ
get_pdpe_offset_recurse virt =
    let offset = add64 (recursive_page_pointer_entry / 2 ^ 12) (page_pml4_offset virt) in
    add64 (shl64 offset 12) (8 * page_pointer_offset virt)

unfoldable pub get_pde_offset_recurse : ℕ → ℕ
get_pde_offset_recurse virt =
    let table =
      shl64 (add64 (recursive_page_directory_entry / 2 ^ 21) (page_pml4_offset virt)) 21 in
    let offset = add64 (table / 2 ^ 12) (page_pointer_offset virt) in
    add64 (shl64 offset 12) (8 * page_directory_offset virt)

unfoldable pub get_pte_recurse : ℕ → ℕ
get_pte_recurse virt =
    let upper = shl64 (add64 (recursive_page_table_entry / 2 ^ 30) (page_pml4_offset virt)) 30 in
    let table = shl64 (add64 (upper / 2 ^ 21) (page_pointer_offset virt)) 21 in
    let offset = add64 (table / 2 ^ 12) (page_directory_offset virt) in
    add64 (shl64 offset 12) (8 * page_table_offset virt)

-- The static variables of the page allocator.
pub record Bump : Type 0 where
  pub bump_addr : ℕ
  pub prev_no_pages : ℕ

-- `kphysfree` is where the loader says that free physical memory starts.
unfoldable pub init_bump_addr : ℕ → Bump → Bump
init_bump_addr kphysfree s = record s { bump_addr = add64 0xFFFFFFFF80000000 kphysfree }

-- `page` is the number of pages wanted beyond the first.
unfoldable pub vmmgr_alloc_page : ℕ → Bump → Bump × ℕ
vmmgr_alloc_page page s =
    let addr = (s.bump_addr + 4096 + 4096 * s.prev_no_pages) % 2 ^ 64 in
    (record { bump_addr = addr; prev_no_pages = page % 2 ^ 16 }, addr)
