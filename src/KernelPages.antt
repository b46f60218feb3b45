-- ===== src/KernelPages.antt =====
-- The page allocator of the kernel's virtual range, sys/mm/vmmgr_page_allocator.c: the bitmap of
-- sys/mm/mmgr.c over an array of (40 * 1024 * 1024) / (4096 * 64 * 10) = 16 words.
pub mod Laws
use course_project_os_integr.Base.{
  ℕ, zero, suc, ◌+◌, ◌*◌, ◌/◌, ◌%◌, ◌^◌, Bool, true, false, Option, some, List, ltb, replicate,
  ◌>>=◌,
}
use course_project_os_integr.Bitmap.{
  Bitmap, Found, block_size, set_block, unset_block, is_block_free, get_first_free,
  get_total_usable_blocks, alloc_block, free_block,
}

abbrev pub range_start : ℕ
range_start = 0xFFFFFFFF81400000

abbrev pub range_end : ℕ
range_end = 0xFFFFFFFF82C00000

unfoldable pub vmmgr_set_block : List ℕ → ℕ → Option (List ℕ)
unfolding set_block
vmmgr_set_block ws b = set_block ws b

unfoldable pub vmmgr_is_block_free : List ℕ → ℕ → Option Bool
unfolding is_block_free
vmmgr_is_block_free ws b = is_block_free ws b

unfoldable pub vmmgr_unset_block : List ℕ → ℕ → Option (List ℕ)
unfolding unset_block
vmmgr_unset_block ws b = unset_block ws b

unfoldable pub vmmgr_get_total_usable_blocks : Bitmap → ℕ
unfolding get_total_usable_blocks
vmmgr_get_total_usable_blocks m = get_total_usable_blocks m

unfoldable pub vmmgr_get_first_free : Bitmap → Option Found
unfolding get_first_free
vmmgr_get_first_free m = get_first_free m

unfoldable pub vmmgr_alloc_block : Bitmap → Option (Bitmap × ℕ)
unfolding alloc_block
vmmgr_alloc_block m = alloc_block m

unfoldable pub vmmgr_free_block : Bitmap → ℕ → Option Bitmap
unfolding free_block
vmmgr_free_block m p = free_block m p

-- The block's address moved to the start of the range.
unfoldable pub vmmgr_page_alloc : Bitmap → Option (Bitmap × ℕ)
unfolding vmmgr_alloc_block
vmmgr_page_alloc m = vmmgr_alloc_block m >>= λ r. some (r.0, (r.1 + range_start) % 2 ^ 64)

-- `for (i = range_start; i < range_end; i += BLOCK_SIZE) vmmgr_max_blocks++`, with `fuel` rounds at
-- most.
unfoldable pub count_pages : ℕ → ℕ → ℕ → ℕ
count_pages zero i n = n
count_pages (suc fuel) i n = elim (ltb i range_end) [
  | true ↦ count_pages fuel (i + block_size) (n + 1)
  | false ↦ n
]

-- The allocator after `vmmgr_page_allocator_init`, and the size in megabytes that it prints.
unfoldable pub vmmgr_page_allocator_init : Bitmap × ℕ
unfolding count_pages
vmmgr_page_allocator_init =
    let n = count_pages 8192 range_start 0 in
    (record { words = replicate 16 0; used_blocks = 0; max_blocks = n }, n * 4096 / (1024 * 1024))
