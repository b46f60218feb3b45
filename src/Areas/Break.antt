-- ===== src/Areas/Break.antt =====
-- The end of the heap of a process.
use course_project_os_integr.Base.{
  ℕ, suc, ◌+◌, ◌-◌, ◌^◌, ◌<◌, ◌≡◌, refl, true, false, some, arith, ltb, leb, ◌==◌,
}
use course_project_os_integr.Base.Integers.{pos, negsuc, add_nat, sub_nat}
use course_project_os_integr.Areas.{do_sbrk}

-- `do_sbrk` by `k` bytes, not 0, gives the break that much further on, within an `int`, and `do_sbrk` by
-- `-k` then gives the old break again.
pub do_sbrk-back :
    (brk k : ℕ)
    → brk + suc k < 2 ^ 31
    → (do_sbrk (pos brk) (pos (suc k)) ≡ some (pos (brk + suc k)))
      × (do_sbrk (pos (brk + suc k)) (negsuc k) ≡ some (pos brk))
unfolding do_sbrk add_nat sub_nat
do_sbrk-back brk k small =
    let nonzero : (suc k == 0) ≡ false = ground arith in
    let inside : ltb (brk + suc k) (2 ^ 31) ≡ true = ground arith in
    let enough : leb (suc k) (brk + suc k) ≡ true = ground arith in
    let back : brk + suc k - suc k ≡ brk = omega arith in
    let again : ltb brk (2 ^ 31) ≡ true = ground arith in
    (rw (nonzero, inside) refl, rw (enough, back, again) refl)
