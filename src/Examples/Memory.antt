-- ===== src/Examples/Memory.antt =====
-- Examples for the memory areas.
use course_project_os_integr.Base.{◌≡◌, refl, some, [], ◌∷◌, arith, ◌==◌, if◌then◌else◌}
use course_project_os_integr.Threads.Links.{NotIn, Distinct}
use course_project_os_integr.Processes.Children.{Chain, last_of}
use course_project_os_integr.Heap.{Heap}
use course_project_os_integr.Areas.{Areas, clear_vmas}
use course_project_os_integr.Areas.Lists.{IsAreas, Freed, clear_vmas-Freed}
use course_project_os_integr.Examples.Heaps.{two_blocks}

-- The stack's page and, behind it in the list, the heap's.
abbrev stack_and_heap : Areas
stack_and_heap = record {
  vm_start = λ a. if a == 0x2010 then 0xBFF000 else 0x80000;
  vm_end = λ a. if a == 0x2010 then 0xC00000 else 0x81000;
  vm_flags = λ _. 0;
  vm_next = λ a. if a == 0x2010 then 0x2050 else 0;
  mmap = 0x2010;
  mmap_cache = 0x2050;
  no_stack_pages = 1;
}

stack_and_heap-IsAreas : IsAreas stack_and_heap (0x2010 ∷ 0x2050 ∷ [])
unfolding Chain Distinct NotIn last_of
stack_and_heap-IsAreas = record {
  chain = (refl, omega arith, (refl, omega arith, refl));
  once = ((omega arith, tt), (tt, tt));
  cache = refl;
}

clear_vmas-Freed_example :
    (s' : Areas) × (h' : Heap) × (clear_vmas 3 stack_and_heap two_blocks ≡ some (s', h'))
    × IsAreas s' []
    × Freed (0x2010 ∷ 0x2050 ∷ []) two_blocks h'
clear_vmas-Freed_example =
    clear_vmas-Freed 3 stack_and_heap two_blocks (0x2010 ∷ 0x2050 ∷ []) stack_and_heap-IsAreas
      (omega arith)
