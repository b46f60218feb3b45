-- ===== src/FileBlocks.antt =====
-- The block allocator of the disk file system, sys/fs_mmgr.c: the text of sys/mm/mmgr.c once more,
-- over an array of 1100 words, except that allocation returns the block's number.
pub mod Laws
use course_project_os_integr.Base.{
  ℕ, ◌*◌, ◌%◌, ◌^◌, Bool, Option, none, some, List, leb, ◌==◌, if◌then◌else◌, replicate, ◌>>=◌,
}
use course_project_os_integr.Bitmap.{
  Bitmap, Found, frame, no_frame, count_up, count_down, frame_of, int_slot, block_size, set_block,
  unset_block, is_block_free, set_blocks, unset_blocks, get_first_free, get_first_range_free,
  get_total_usable_blocks,
}

-- The static data: no block used, 65536 blocks, `memset` to 0 by `file_mmgr_phy_init`.
unfoldable pub file_mmgr_phy_init : Bitmap
file_mmgr_phy_init = record { words = replicate 1100 0; used_blocks = 0; max_blocks = 65536 }

unfoldable pub file_mmgr_get_total_usable_blocks : Bitmap → ℕ
unfolding get_total_usable_blocks
file_mmgr_get_total_usable_blocks m = get_total_usable_blocks m

unfoldable pub file_mmgr_set_block : List ℕ → ℕ → Option (List ℕ)
unfolding set_block
file_mmgr_set_block ws b = set_block ws b

unfoldable pub file_mmgr_is_block_free : List ℕ → ℕ → Option Bool
unfolding is_block_free
file_mmgr_is_block_free ws b = is_block_free ws b

unfoldable pub file_mmgr_unset_block : List ℕ → ℕ → Option (List ℕ)
unfolding unset_block
file_mmgr_unset_block ws b = unset_block ws b

unfoldable pub file_mmgr_get_first_free : Bitmap → Option Found
unfolding get_first_free
file_mmgr_get_first_free m = get_first_free m

unfoldable pub file_mmgr_get_first_range_free : Bitmap → ℕ → Option Found
unfolding get_first_range_free
file_mmgr_get_first_range_free m size = get_first_range_free m size

-- The block number, or -1.
unfoldable pub file_mmgr_alloc_block : Bitmap → Option (Bitmap × Found)
unfolding file_mmgr_get_first_free file_mmgr_set_block file_mmgr_get_total_usable_blocks
file_mmgr_alloc_block m =
    if file_mmgr_get_total_usable_blocks m == 0
    then some (m, no_frame)
    else file_mmgr_get_first_free m >>= λ found. elim found [
      | no_frame ↦ some (m, no_frame)
      | frame b ↦ file_mmgr_set_block m.words b >>= λ ws.
          some (record m { words = ws; used_blocks = count_up m.used_blocks 1 }, frame b)
    ]

unfoldable pub file_mmgr_alloc_size_blocks : Bitmap → ℕ → Option (Bitmap × ℕ)
unfolding file_mmgr_get_first_range_free set_blocks file_mmgr_get_total_usable_blocks
file_mmgr_alloc_size_blocks m size =
    if leb (file_mmgr_get_total_usable_blocks m) size
    then some (m, 0)
    else file_mmgr_get_first_range_free m size >>= λ found. elim found [
      | no_frame ↦ some (m, 0)
      | frame b ↦ set_blocks size b m.words >>= λ ws. some (
        record m { words = ws; used_blocks = count_up m.used_blocks size },
        b * block_size % 2 ^ 64,
      )
    ]

-- The argument is a pointer, of which the block number is the part above the page offset.
unfoldable pub file_mmgr_free_block : Bitmap → ℕ → Option Bitmap
unfolding file_mmgr_unset_block
file_mmgr_free_block m p =
    if p == 0
    then some m
    else file_mmgr_unset_block m.words (int_slot (frame_of p)) >>= λ ws.
        some (record m { words = ws; used_blocks = count_down m.used_blocks 1 })

unfoldable pub file_mmgr_free_size_blocks : Bitmap → ℕ → ℕ → Option Bitmap
unfolding unset_blocks
file_mmgr_free_size_blocks m p size =
    if p == 0
    then some m
    else unset_blocks size (frame_of p) m.words >>= λ ws.
        some (record m { words = ws; used_blocks = count_down m.used_blocks size })
