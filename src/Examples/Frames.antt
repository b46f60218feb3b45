-- ===== src/Examples/Frames.antt =====
-- Examples for the block allocators.
use course_project_os_integr.Base.{
  ℕ, ◌*◌, ◌^◌, ◌<◌, ◌≡◌, ◌≢◌, refl, sym, zero, suc, false, ◌==◌, get_elem?, ◌||◌, none, some, [],
  ◌∷◌, arith, replicate,
}
use mathlib.Core.Option.{some-injective}
use course_project_os_integr.Bitmap.{
  Bitmap, Found, get_total_usable_blocks, frame, one_shl, block_size, alloc_block, free_block,
  get_first_free, get_first_range_free, full_word,
}
use course_project_os_integr.Bitmap.Search.{FirstFree, get_first_free-FirstFree}
use course_project_os_integr.Bitmap.Blocks.{
  IsBitmap, AllocOutcome, alloc_block-AllocOutcome, free_block-alloc_block,
}
use course_project_os_integr.Bitmap.History.{
  System, Reach, IsSafe, alloc, start, then_step, Reach-IsSafe, no_double_allocation,
}
use course_project_os_integr.KernelPages.{vmmgr_alloc_block, vmmgr_page_alloc}
use course_project_os_integr.KernelPages.Laws.{AllFull, vmmgr_alloc_block-overrun}

-- Blocks 0 to 2 of 128 are in use.
abbrev three_used : Bitmap
three_used = record { words = 7 ∷ 0 ∷ []; used_blocks = 3; max_blocks = 128 }

-- The same with block 3.
abbrev four_used : Bitmap
four_used = record { words = 15 ∷ 0 ∷ []; used_blocks = 4; max_blocks = 128 }

pub two_words :
    (a b : ℕ) → a < 2 ^ 64 → b < 2 ^ 64 → (i w : ℕ) → get_elem? (a ∷ b ∷ []) i ≡ some w → w < 2 ^ 64
two_words a b h k zero w e = rw (sym (some-injective a w e)) h
two_words a b h k (suc zero) w e = rw (sym (some-injective b w e)) k
two_words a b h k (suc (suc i)) w e = absurd (ground arith)

three_used-IsBitmap : IsBitmap three_used
three_used-IsBitmap = record {
  covered = omega arith;
  small = omega arith;
  entries = two_words 7 0 (omega arith) (omega arith);
  counter = omega arith;
}

run_alloc : alloc_block three_used ≡ some (four_used, 3 * block_size)
unfolding alloc_block one_shl
run_alloc = refl

get_first_free-FirstFree_example :
    (r : Found) × (get_first_free three_used ≡ some r) × FirstFree (7 ∷ 0 ∷ []) 0 2 r
get_first_free-FirstFree_example = get_first_free-FirstFree three_used (omega arith)

alloc_block-AllocOutcome_example :
    (r : Bitmap × ℕ) × (alloc_block three_used ≡ some r) × AllocOutcome three_used r
alloc_block-AllocOutcome_example = alloc_block-AllocOutcome three_used three_used-IsBitmap

free_block-alloc_block_example : free_block four_used (3 * block_size) ≡ some three_used
free_block-alloc_block_example =
    free_block-alloc_block three_used four_used (3 * block_size) three_used-IsBitmap run_alloc
      (λ e. omega arith)

-- Nobody holds a block yet.
abbrev nobody : System
nobody = record { map = three_used; held = λ b. false }

abbrev somebody : System
somebody = record { map = four_used; held = λ c. false || (3 == c) }

nobody-IsSafe : IsSafe nobody
nobody-IsSafe = record {
  good = three_used-IsBitmap;
  marked = λ b h. absurd (ground arith);
  in_range = λ b h. absurd (ground arith);
  apart = λ b c h k s. absurd (ground arith);
}

one_step : Reach nobody somebody
one_step = then_step start (alloc 3 (λ e. omega arith) run_alloc)

Reach-IsSafe_example : IsSafe somebody
Reach-IsSafe_example = Reach-IsSafe nobody-IsSafe one_step

abbrev five_used : Bitmap
five_used = record { words = 31 ∷ 0 ∷ []; used_blocks = 5; max_blocks = 128 }

run_again : alloc_block four_used ≡ some (five_used, 4 * block_size)
unfolding alloc_block one_shl
run_again = refl

no_double_allocation_example : (false || (3 == 4)) ≡ false
no_double_allocation_example =
    no_double_allocation {s = nobody} {t = somebody} 4 five_used nobody-IsSafe one_step
      (λ e. omega arith) run_again

run_range : get_first_range_free three_used 4 ≡ some (frame 3)
unfolding get_first_range_free one_shl
run_range = refl

-- Sixteen full words, and room by the counters.
abbrev worn : Bitmap
worn = record { words = replicate 16 full_word; used_blocks = 512; max_blocks = 6144 }

worn-usable : get_total_usable_blocks worn ≢ 0
unfolding get_total_usable_blocks
worn-usable e = omega arith

all_full : (n : ℕ) → AllFull (replicate n full_word)
all_full zero = tt
all_full (suc n) = (refl, all_full n)

vmmgr_alloc_block-overrun_example : (vmmgr_alloc_block worn ≡ none) × (vmmgr_page_alloc worn ≡ none)
vmmgr_alloc_block-overrun_example =
    vmmgr_alloc_block-overrun worn refl refl (all_full 16) worn-usable
