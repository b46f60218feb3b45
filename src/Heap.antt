-- ===== src/Heap.antt =====
-- The kernel's heap, sys/mm/myalloc.c: blocks in a linked list, first fit, pages from
-- `vmmgr_alloc_page`. A block is the address of its header, of 16 bytes, and 0 is `NULL`.
pub mod Fit
pub mod Split
pub mod Reuse
use course_project_os_integr.Base.{
  ℕ, zero, suc, ◌+◌, ◌-◌, ◌*◌, ◌/◌, ◌%◌, ◌^◌, Bool, true, false, ◌&&◌, not, Option, none, some, leb,
  ◌==◌, if◌then◌else◌, ◌>>=◌,
}
use course_project_os_integr.PageTable.{Bump, vmmgr_alloc_page}
use course_project_os_integr.Threads.{update}

-- The headers' fields as functions of the block, and the static variables.
pub record Heap : Type 0 where
  pub next : ℕ → ℕ
  pub size : ℕ → ℕ
  pub free : ℕ → Bool
  pub base : ℕ
  pub last : ℕ
  pub bump : Bump

-- The macro `align` on a `uint16_t`; `(0 - 1) >> 3` is -1 as an `int`.
unfoldable pub align : ℕ → ℕ
align x = if x == 0 then 0 else ((x - 1) / 8 * 8 + 8) % 2 ^ 16

abbrev pub alloc_block_size : ℕ
alloc_block_size = 16

-- What the search comes to: the last block that it passed, and the fitting block, or 0.
pub record Fitting : Type 0 where
  pub passed : ℕ
  pub block : ℕ

-- The loop of `find_block`; `none` is a list longer than the fuel.
unfoldable pub find_from : ℕ → Heap → ℕ → ℕ → ℕ → Option Fitting
find_from zero h last b size = none
find_from (suc fuel) h last b size =
    let rest = find_from fuel h b (h.next b) size in
    if b == 0
    then some (record { passed = last; block = 0 })
    else if h.free b && leb size (h.size b)
    then some (record { passed = last; block = b })
    else rest

unfoldable pub find_block : ℕ → Heap → ℕ → ℕ → Option Fitting
unfolding find_from
find_block fuel h last size = find_from fuel h last h.base size

-- The new heap and the block. `vmmgr_alloc_page` never returns `NULL` before its addresses wrap; then
-- the source panics.
unfoldable pub extend_heap : Heap → ℕ → Option (Heap × ℕ)
unfolding update vmmgr_alloc_page
extend_heap h last =
    let (bump, b) = vmmgr_alloc_page 0 h.bump in
    if b == 0
    then none
    else let next = update h.next b 0 in
      some (
        record h {
          bump = bump;
          size = update h.size b 0x1000;
          free = update h.free b true;
          next = if last == 0 then next else update next last b;
        },
        b,
      )

unfoldable pub sub_free : ℕ → Heap → Heap
unfolding update
sub_free p h = record h { free = update h.free ((p + 2 ^ 64 - alloc_block_size) % 2 ^ 64) true }

-- `b + 1 + tot_size / ALLOC_BLOCK_SIZE` counts headers, not bytes.
abbrev pub split_at : ℕ → ℕ → ℕ
split_at b size =
    let tot_size = (size + alloc_block_size) % 2 ^ 16 in
    (b + alloc_block_size * (1 + tot_size / alloc_block_size)) % 2 ^ 64

unfoldable pub split_block : ℕ → ℕ → Heap → Heap
unfolding update
split_block b size h =
    let tot_size = (size + alloc_block_size) % 2 ^ 16 in
    let new = split_at b size in
    let next = update h.next new (h.next b) in
    let sizes = update h.size new ((h.size b + 2 ^ 16 - tot_size) % 2 ^ 16) in
    record h { next = update next b new; size = update sizes b size; free = update h.free new true }

-- The address behind the header.
abbrev pub payload : ℕ → ℕ
payload b = (b + alloc_block_size) % 2 ^ 64

-- A block that fits is split if 20 bytes are left, and marked.
unfoldable pub take_block : ℕ → ℕ → Heap → Heap
unfolding split_block update
take_block b s h =
    let split = if leb (s + 20) (h.size b) then split_block b s h else h in
    record split { free = update split.free b false }

-- `sub_malloc` without the alignment to a page.
unfoldable pub malloc_block : ℕ → ℕ → Heap → Option (Heap × ℕ)
unfolding find_block take_block extend_heap split_block update
malloc_block fuel s h =
    if h.base == 0
    then (extend_heap h h.last >>= λ (h', b).
        some (split_block b s (record h' { base = b }), payload b))
    else (find_block fuel h h.base s >>= λ f.
        if f.block == 0
        then (let marked = record h { last = f.passed; free = update h.free f.passed false } in
            extend_heap marked f.passed >>= λ (h', b). some (split_block b s h', payload b))
        else some (take_block f.block s (record h { last = f.passed }), payload f.block))

unfoldable pub sub_malloc : ℕ → ℕ → Bool → Heap → Option (Heap × ℕ)
unfolding malloc_block align vmmgr_alloc_page
sub_malloc fuel size is_page h =
    if is_page
    then (let (bump, addr) = vmmgr_alloc_page size h.bump in some (record h { bump = bump }, addr))
    else malloc_block fuel (align size) h
