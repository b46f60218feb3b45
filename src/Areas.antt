-- ===== src/Areas.antt =====
-- The memory areas of a process: sys/mmap.c, `clear_vmas` of sys/exec.c and the growth of the stack in the
-- page-fault handler of sys/isr.c, each without the mapping of the pages.
pub mod Lists
pub mod Stack
pub mod Break
use course_project_os_integr.Base.{
  ℕ, zero, suc, ◌+◌, ◌-◌, ◌%◌, ◌^◌, Bool, true, false, Option, none, some, ltb, leb, ◌==◌,
  if◌then◌else◌, ◌>>=◌,
}
use course_project_os_integr.Threads.{update}
use course_project_os_integr.Base.Integers.{ℤ, pos, negsuc, add_nat, sub_nat}
use course_project_os_integr.Heap.{Heap, sub_free}

-- The fields of the areas by address, without `name`, and those of the thread. 0 is `NULL`.
pub record Areas : Type 0 where
  pub vm_start : ℕ → ℕ
  pub vm_end : ℕ → ℕ
  pub vm_flags : ℕ → ℕ
  pub vm_next : ℕ → ℕ
  pub mmap : ℕ
  pub mmap_cache : ℕ
  pub no_stack_pages : ℕ

unfoldable pub insert_vma : ℕ → Areas → Areas
unfolding update
insert_vma vma s =
    let next = update s.vm_next vma 0 in
    record s {
      vm_next = if s.mmap == 0 then next else update next s.mmap_cache vma;
      mmap = if s.mmap == 0 then vma else s.mmap;
      mmap_cache = vma;
    }

-- `memset` of an area with 0
unfoldable pub zero_area : ℕ → Areas → Areas
unfolding update
zero_area vma s = record s {
  vm_start = update s.vm_start vma 0;
  vm_end = update s.vm_end vma 0;
  vm_flags = update s.vm_flags vma 0;
  vm_next = update s.vm_next vma 0;
}

-- What `mmap` does to the areas. `vma` is the address that `sub_malloc` returns; the length is not used.
unfoldable pub mmap_area : ℕ → ℕ → Areas → Areas
unfolding insert_vma zero_area update
mmap_area addr vma s =
    let s1 = zero_area vma s in
    insert_vma vma (record s1 {
      vm_start = update s1.vm_start vma addr;
      vm_end = update s1.vm_end vma ((addr + 0x1000) % 2 ^ 64);
    })

-- The loop of `clear_vmas`; `none` is a list longer than the fuel.
unfoldable pub clear_from : ℕ → ℕ → Areas → Heap → Option (Areas × Heap)
unfolding zero_area sub_free
clear_from zero crawl s h = none
clear_from (suc fuel) crawl s h =
    let rest = clear_from fuel (s.vm_next crawl) (zero_area crawl s) (sub_free crawl h) in
    if crawl == 0 then some (s, h) else rest

unfoldable pub clear_vmas : ℕ → Areas → Heap → Option (Areas × Heap)
unfolding clear_from
clear_vmas fuel s h =
    clear_from fuel s.mmap s h >>= λ r. some (record r.0 { mmap = 0; mmap_cache = 0 }, r.1)

-- The loop of the page-fault handler: an area that starts at most 100 bytes behind the address.
unfoldable pub near_from : ℕ → ℕ → ℕ → Areas → Option Bool
near_from zero address crawl s = none
near_from (suc fuel) address crawl s =
    let rest = near_from fuel address (s.vm_next crawl) s in
    if crawl == 0
    then some false
    else if leb ((s.vm_start crawl + 2 ^ 64 - address) % 2 ^ 64) 100
    then some true
    else rest

-- The part of the handler that grows the stack ends with the areas: the stack grew; or it has its pages
-- and the process is to be killed; or the fault is left to the rest of the handler, copy-on-write or kill.
pub data Fault : Type 0 where
  grown : Areas → Fault
  stack_overflow : Areas → Fault
  elsewhere : Areas → Fault

unfoldable pub stack_fault : ℕ → ℕ → ℕ → Areas → Option Fault
unfolding near_from mmap_area
stack_fault fuel vma address s = near_from fuel address s.mmap s >>= λ found. some (
    if found
    then (if leb s.no_stack_pages 4
        then grown (
            mmap_area ((s.vm_start s.mmap_cache + 2 ^ 64 - 0x1000) % 2 ^ 64) vma
              (record s { no_stack_pages = suc s.no_stack_pages }))
        else stack_overflow s)
    else elsewhere s)

-- An `int`, or undefined.
abbrev pub int32 : ℤ → Option ℤ
int32 (pos n) = if ltb n (2 ^ 31) then some (pos n) else none
int32 (negsuc n) = if ltb n (2 ^ 31) then some (negsuc n) else none

-- `do_sbrk` of sys/isr.c on the thread's `brk`: the new one, which it returns.
unfoldable pub do_sbrk : ℤ → ℤ → Option ℤ
unfolding add_nat sub_nat
do_sbrk brk (pos n) = if n == 0 then some brk else int32 (add_nat brk n)
do_sbrk brk (negsuc n) = int32 (sub_nat brk (suc n))
