-- ===== src/PageEntry.antt =====
-- Page-table entries: sys/mm/vmmgr_pte.c, vmmgr_pde.c, vmmgr_pdpe.c and vmmgr_pml4.c, and the
-- functions of sys/mm/vmmgr_virtual.c that fill one entry. An entry is a 64-bit word; a `bool` is
-- an `enum` of 32 bits, to which a masked word is cut.
pub mod Flag
pub mod Laws
use course_project_os_integr.Base.{ℕ, ◌%◌, ◌^◌, bit_and, bit_or, Bool, not, ◌==◌, if◌then◌else◌}
use course_project_os_integr.Base.Bits.{bit_not}

-- `e & flag` as a `bool`
abbrev pub test : ℕ → ℕ → Bool
test e flag = not ((bit_and e flag % 2 ^ 32) == 0)

unfoldable pub pt_entry_add_attrib : ℕ → ℕ → ℕ
pt_entry_add_attrib e attrib = bit_or e attrib

unfoldable pub pt_entry_del_attrib : ℕ → ℕ → ℕ
pt_entry_del_attrib e attrib = bit_and e (bit_not attrib)

unfoldable pub pt_entry_set_frame : ℕ → ℕ → ℕ
pt_entry_set_frame e addr = bit_or (bit_and e (bit_not Flag.frame)) addr

unfoldable pub pt_entry_is_present : ℕ → Bool
pt_entry_is_present e = test e Flag.present

unfoldable pub pt_entry_is_writable : ℕ → Bool
pt_entry_is_writable e = test e Flag.writable

unfoldable pub pt_entry_pfn : ℕ → ℕ
pt_entry_pfn e = bit_and e Flag.frame % 2 ^ 32

unfoldable pub pt_entry_is_accessed : ℕ → Bool
pt_entry_is_accessed e = test e Flag.accessed

unfoldable pub pt_entry_is_user : ℕ → Bool
pt_entry_is_user e = test e Flag.user

unfoldable pub pt_entry_is_dirty : ℕ → Bool
pt_entry_is_dirty e = test e Flag.dirty

unfoldable pub pd_entry_add_attrib : ℕ → ℕ → ℕ
pd_entry_add_attrib e attrib = bit_or e attrib

unfoldable pub pd_entry_del_attrib : ℕ → ℕ → ℕ
pd_entry_del_attrib e attrib = bit_and e (bit_not attrib)

unfoldable pub pd_entry_set_frame : ℕ → ℕ → ℕ
pd_entry_set_frame e addr = bit_or (bit_and e (bit_not Flag.frame)) addr

unfoldable pub pd_entry_is_present : ℕ → Bool
pd_entry_is_present e = test e Flag.present

unfoldable pub pd_entry_is_writable : ℕ → Bool
pd_entry_is_writable e = test e Flag.writable

unfoldable pub pd_entry_pfn : ℕ → ℕ
pd_entry_pfn e = bit_and e Flag.frame % 2 ^ 32

unfoldable pub pd_entry_is_user : ℕ → Bool
pd_entry_is_user e = test e Flag.user

unfoldable pub pd_entry_is_4mb : ℕ → Bool
pd_entry_is_4mb e = test e Flag.large

unfoldable pub pdpe_entry_add_attrib : ℕ → ℕ → ℕ
pdpe_entry_add_attrib e attrib = bit_or e attrib

unfoldable pub pdpe_entry_del_attrib : ℕ → ℕ → ℕ
pdpe_entry_del_attrib e attrib = bit_and e (bit_not attrib)

unfoldable pub pdpe_entry_set_frame : ℕ → ℕ → ℕ
pdpe_entry_set_frame e addr = bit_or (bit_and e (bit_not Flag.frame)) addr

unfoldable pub pdpe_entry_is_present : ℕ → Bool
pdpe_entry_is_present e = test e Flag.present

unfoldable pub pdpe_entry_is_writable : ℕ → Bool
pdpe_entry_is_writable e = test e Flag.writable

unfoldable pub pdpe_entry_pfn : ℕ → ℕ
pdpe_entry_pfn e = bit_and e Flag.frame % 2 ^ 32

unfoldable pub pdpe_entry_is_user : ℕ → Bool
pdpe_entry_is_user e = test e Flag.user

unfoldable pub pdpe_entry_is_4mb : ℕ → Bool
pdpe_entry_is_4mb e = test e Flag.large

unfoldable pub pml4e_entry_add_attrib : ℕ → ℕ → ℕ
pml4e_entry_add_attrib e attrib = bit_or e attrib

unfoldable pub pml4e_entry_del_attrib : ℕ → ℕ → ℕ
pml4e_entry_del_attrib e attrib = bit_and e (bit_not attrib)

unfoldable pub pml4e_entry_set_frame : ℕ → ℕ → ℕ
pml4e_entry_set_frame e addr = bit_or (bit_and e (bit_not Flag.frame)) addr

unfoldable pub pml4e_entry_is_present : ℕ → Bool
pml4e_entry_is_present e = test e Flag.present

unfoldable pub pml4e_entry_is_writable : ℕ → Bool
pml4e_entry_is_writable e = test e Flag.writable

unfoldable pub pml4e_entry_pfn : ℕ → ℕ
pml4e_entry_pfn e = bit_and e Flag.frame % 2 ^ 32

unfoldable pub pml4e_entry_is_user : ℕ → Bool
pml4e_entry_is_user e = test e Flag.user

unfoldable pub pml4e_entry_is_4mb : ℕ → Bool
pml4e_entry_is_4mb e = test e Flag.large

-- An entry made present, writable and perhaps open to the user, with a frame. `set_page_entry`
-- fills a page-table entry by the functions for the topmost level, as the source does.
unfoldable pub set_page_entry : ℕ → ℕ → Bool → ℕ
unfolding pml4e_entry_add_attrib pml4e_entry_set_frame
set_page_entry e phys is_user =
    let marked = pml4e_entry_add_attrib (pml4e_entry_add_attrib e Flag.present) Flag.writable in
    pml4e_entry_set_frame (if is_user then pml4e_entry_add_attrib marked Flag.user else marked) phys

unfoldable pub set_pml4_entry_recurs : ℕ → ℕ → Bool → ℕ
unfolding pml4e_entry_add_attrib pml4e_entry_set_frame
set_pml4_entry_recurs e dir is_user =
    let marked = pml4e_entry_add_attrib (pml4e_entry_add_attrib e Flag.present) Flag.writable in
    pml4e_entry_set_frame (if is_user then pml4e_entry_add_attrib marked Flag.user else marked) dir

unfoldable pub set_pml4_entry : ℕ → ℕ → Bool → ℕ
unfolding pml4e_entry_add_attrib pml4e_entry_set_frame
set_pml4_entry e dir is_user =
    let marked = pml4e_entry_add_attrib (pml4e_entry_add_attrib e Flag.present) Flag.writable in
    pml4e_entry_set_frame (if is_user then pml4e_entry_add_attrib marked Flag.user else marked) dir

unfoldable pub set_pdpe_entry : ℕ → ℕ → Bool → ℕ
unfolding pdpe_entry_add_attrib pdpe_entry_set_frame
set_pdpe_entry e dir is_user =
    let marked = pdpe_entry_add_attrib (pdpe_entry_add_attrib e Flag.present) Flag.writable in
    pdpe_entry_set_frame (if is_user then pdpe_entry_add_attrib marked Flag.user else marked) dir

unfoldable pub set_pde_entry : ℕ → ℕ → Bool → ℕ
unfolding pd_entry_add_attrib pd_entry_set_frame
set_pde_entry e dir is_user =
    let marked = pd_entry_add_attrib (pd_entry_add_attrib e Flag.present) Flag.writable in
    pd_entry_set_frame (if is_user then pd_entry_add_attrib marked Flag.user else marked) dir

-- The innermost loop body of `copy_page_table`, the same for the parent's entry and the child's.
unfoldable pub share_entry : ℕ → ℕ
unfolding pt_entry_del_attrib pt_entry_add_attrib
share_entry e = pt_entry_add_attrib (pt_entry_del_attrib e Flag.writable) Flag.cow
