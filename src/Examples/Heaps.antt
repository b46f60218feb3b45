-- ===== src/Examples/Heaps.antt =====
-- Examples for the kernel's heap.
use course_project_os_integr.Base.{
  ℕ, ◌+◌, ◌%◌, ◌-◌, ◌≤◌, ◌≡◌, refl, true, Option, some, none, [], ◌∷◌, arith, ◌==◌, if◌then◌else◌,
}
use course_project_os_integr.PageTable.{vmmgr_alloc_page}
use course_project_os_integr.Processes.Children.{Chain}
use course_project_os_integr.Heap.{
  Heap, Fitting, find_block, split_block, payload, extend_heap, malloc_block,
}
use course_project_os_integr.Heap.Fit.{FirstFit, find_block-FirstFit}
use course_project_os_integr.Heap.Split.{split_block-overruns}
use course_project_os_integr.Heap.Reuse.{malloc_block-hands_out_twice}

-- A block of 40 bytes at 0x2000, in use, and a free one of 100 bytes behind it.
abbrev pub two_blocks : Heap
two_blocks = record {
  next = λ b. if b == 0x2000 then 0x2040 else 0;
  size = λ b. if b == 0x2000 then 40 else 100;
  free = λ b. b == 0x2040;
  base = 0x2000;
  last = 0x2000;
  bump = record { bump_addr = 0x4000; prev_no_pages = 0 };
}

find_block-FirstFit_example :
    (f : Fitting) × (find_block 3 two_blocks 0x2000 24 ≡ some f)
    × FirstFit two_blocks 24 0x2000 (0x2000 ∷ 0x2040 ∷ []) f
unfolding Chain
find_block-FirstFit_example =
    find_block-FirstFit 3 two_blocks 0x2000 24 (0x2000 ∷ 0x2040 ∷ [])
      (refl, omega arith, (refl, omega arith, refl)) (omega arith)

split_block-overruns_example :
    let h' = split_block 0x2040 24 two_blocks in
    let new = h'.next 0x2040 in
    (h'.size 0x2040 ≡ 24)
    × (payload 0x2040 + 24 ≤ new)
    × (h'.free new ≡ true)
    × (h'.next new ≡ 0)
    × (payload new + h'.size new ≡ payload 0x2040 + 100 + (16 - 24 % 16))
split_block-overruns_example =
    split_block-overruns 0x2040 24 two_blocks (omega arith) (omega arith) (omega arith)

abbrev empty_heap : Heap
empty_heap = record two_blocks { base = 0; last = 0 }

abbrev heap_of : Option (Heap × ℕ) → Heap
heap_of (some (h, p)) = h
heap_of none = empty_heap

-- the heap that an allocation of 24 bytes leaves
abbrev first_heap : Heap
unfolding malloc_block extend_heap
first_heap = heap_of (malloc_block 3 24 empty_heap)

first_run : malloc_block 3 24 empty_heap ≡ some (first_heap, 0x5010)
unfolding malloc_block extend_heap vmmgr_alloc_page
first_run = refl

malloc_block-hands_out_twice_example :
    (h'' : Heap) × (malloc_block 3 16 first_heap ≡ some (h'', 0x5010))
malloc_block-hands_out_twice_example =
    malloc_block-hands_out_twice 3 2 24 16 0x5010 empty_heap first_heap refl first_run (omega arith)
