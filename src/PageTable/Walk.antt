-- ===== src/PageTable/Walk.antt =====
-- `vmmgr_map_page` of sys/mm/vmmgr_virtual.c on the physical memory, before paging is switched on:
-- a table is a page of 512 words, and missing tables come from `mmgr_alloc_block`.
pub mod Mmu
pub mod Entries
pub mod Tree
pub mod Fresh
pub mod Path
pub mod Mapping
pub mod Maps
pub mod Ranges
use course_project_os_integr.Base.{
  ℕ, zero, suc, ◌+◌, ◌*◌, ◌^◌, ◌%◌, bit_and, Bool, true, false, ◌&&◌, Option, none, some, leb, ltb,
  ◌==◌, if◌then◌else◌, ◌>>=◌,
}
use course_project_os_integr.Bitmap.{Bitmap, alloc_block}
use course_project_os_integr.PageEntry.{
  set_pml4_entry, set_pdpe_entry, set_pde_entry, pt_entry_set_frame, pt_entry_add_attrib,
}
use course_project_os_integr.PageEntry.Flag
use course_project_os_integr.PageTable.{
  vmmgr_ptable_lookup_entry, vmmgr_page_directory_lookup_entry,
  vmmgr_page_pointer_directory_lookup_entry, vmmgr_pml4_directory_lookup_entry,
}

-- `mem` gives the 64-bit word at each address that is a multiple of eight.
pub record Machine : Type 0 where
  pub mem : ℕ → ℕ
  pub frames : Bitmap
  pub base_pointer : ℕ

abbrev pub put : (ℕ → ℕ) → ℕ → ℕ → ℕ → ℕ
put mem a w x = if x == a then w else mem x

-- `memset(p, 0, n)`
abbrev pub memset_zero : (ℕ → ℕ) → ℕ → ℕ → ℕ → ℕ
memset_zero mem p n x = if leb p x && ltb x (p + n) then 0 else mem x

-- The macro `PAGE_PHYSICAL_ADDRESS` of the word that an entry holds.
unfoldable pub page_physical_address : ℕ → ℕ
page_physical_address w = bit_and w 0x000FFFFFFFFFF000

-- A run that ended, or that stands in `PANIC`, which does not return.
pub record Ran : Type 0 where
  pub machine : Machine
  pub panicked : Bool

abbrev pub and_then : Option Ran → (Machine → Option Ran) → Option Ran
and_then r k = r >>= λ a. if a.panicked then some a else k a.machine

-- `if (!(*e & PRESENT)) { … }`: a table is allocated, its first `n` bytes are cleared, and the entry
-- at `e` is filled. The source clears before it looks whether it got a page.
unfoldable pub create_table : ℕ → (ℕ → ℕ → Bool → ℕ) → ℕ → Machine → Option Ran
unfolding alloc_block
create_table n set_entry e s =
    if bit_and (s.mem e) Flag.present == 0
    then (alloc_block s.frames >>= λ (frames, dir).
        let cleared = memset_zero s.mem dir n in
        if dir == 0
        then some
            (record { machine = record s { mem = cleared; frames = frames }; panicked = true })
        else some (record {
          machine = record s {
            mem = put cleared e (set_entry (cleared e) dir false);
            frames = frames;
          };
          panicked = false;
        }))
    else some (record { machine = s; panicked = false })

-- The last lines: the frame, then the present and the writable bit.
unfoldable pub map_word : ℕ → ℕ → ℕ
unfolding pt_entry_set_frame pt_entry_add_attrib
map_word w phys =
    pt_entry_add_attrib (pt_entry_add_attrib (pt_entry_set_frame w phys) Flag.present) Flag.writable

-- The blocks of `vmmgr_map_page` from the last one up; `e2`, `e3` and `e4` are the addresses of the
-- entries that the block before has filled. In the page table: the last four lines.
unfoldable pub map_in_table : ℕ → ℕ → ℕ → Machine → Option Ran
unfolding map_word page_physical_address vmmgr_ptable_lookup_entry
map_in_table phys virt e2 s =
    let page = vmmgr_ptable_lookup_entry (page_physical_address (s.mem e2)) virt in
    some (record {
      machine = record s { mem = put s.mem page (map_word (s.mem page) phys) };
      panicked = false;
    })

-- `sizeof(pte_dir)` is the size of a pointer, eight bytes, where the other two clear a page.
unfoldable pub map_in_directory : ℕ → ℕ → ℕ → Machine → Option Ran
unfolding create_table map_in_table page_physical_address vmmgr_page_directory_lookup_entry
map_in_directory phys virt e3 s =
    let e2 = vmmgr_page_directory_lookup_entry (page_physical_address (s.mem e3)) virt in
    and_then (create_table 8 set_pde_entry e2 s) (map_in_table phys virt e2)

unfoldable pub map_in_pointers : ℕ → ℕ → ℕ → Machine → Option Ran
unfolding create_table map_in_directory page_physical_address
    vmmgr_page_pointer_directory_lookup_entry
map_in_pointers phys virt e4 s =
    let e3 = vmmgr_page_pointer_directory_lookup_entry (page_physical_address (s.mem e4)) virt in
    and_then (create_table 4096 set_pdpe_entry e3 s) (map_in_directory phys virt e3)

unfoldable pub vmmgr_map_page : ℕ → ℕ → Machine → Option Ran
unfolding create_table map_in_pointers vmmgr_pml4_directory_lookup_entry
vmmgr_map_page phys virt s =
    let e4 = vmmgr_pml4_directory_lookup_entry s.base_pointer virt in
    and_then (create_table 4096 set_pml4_entry e4 s) (map_in_pointers phys virt e4)

-- The loops of `vmmgr_init`: `n` pages on from `frame` and `virt`.
unfoldable pub map_range : ℕ → ℕ → ℕ → Machine → Option Ran
unfolding vmmgr_map_page
map_range zero frame virt s = some (record { machine = s; panicked = false })
map_range (suc n) frame virt s =
    and_then (vmmgr_map_page frame virt s)
      (map_range n ((frame + 4096) % 2 ^ 64) ((virt + 4096) % 2 ^ 64))
