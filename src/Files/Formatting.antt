-- ===== src/Files/Formatting.antt =====
-- Making an empty file system: `create_superblock` and `set_sb` of sys/fs.c.
use course_project_os_integr.Base.{
  ℕ, ◌+◌, ◌-◌, ◌%◌, ◌^◌, ◌<◌, ◌≡◌, refl, ap, ◌∙◌, false, Option, some, ◌∷◌, arith, ◌==◌, replicate,
  ◌>>=◌,
}
use course_project_os_integr.Base.Integers.{pos}
use course_project_os_integr.Bitmap.{
  Bitmap, frame, set_block, set_blocks, count_up, one_shl, get_total_usable_blocks,
}
use course_project_os_integr.FileBlocks.{
  file_mmgr_set_block, file_mmgr_alloc_block, file_mmgr_get_first_free,
  file_mmgr_get_total_usable_blocks,
}
use course_project_os_integr.Base.{suc, true, ltb, length, List, ◌++◌, take, drop}
use course_project_os_integr.Files.Sync.{Stale, rsync}
use course_project_os_integr.Files.{FileSystem, get_free_inode, get_free_block, empty_inodes}

-- `struct super_block`
pub record SuperBlock : Type 0 where
  pub no_blocks : ℕ
  pub no_inodes : ℕ
  pub start_bitmap : ℕ
  pub start_inodes : ℕ
  pub start_blocks : ℕ

-- `memset` clears 8800 bytes, which are the 1100 words of the bitmap, and the inodes.
unfoldable pub create_superblock : FileSystem → SuperBlock × FileSystem
unfolding empty_inodes
create_superblock s = (
  record {
    no_blocks = 65536;
    no_inodes = 124;
    start_bitmap = 1;
    start_inodes = 3;
    start_blocks = 6;
  },
  record s { inode_list = empty_inodes; blocks = record s.blocks { words = replicate 1100 0 } },
)

-- The new memory; `rsync` is called with the superblock in place.
unfoldable pub set_sb : (FileSystem → FileSystem) → FileSystem → Option FileSystem
unfolding create_superblock set_blocks
set_sb rsync s =
    let (sb, empty) = create_superblock s in
    let s1 = rsync empty in
    set_blocks 6 0 s1.blocks.words >>= λ ws.
    some (rsync (record s1 { blocks = record s1.blocks { words = ws } }))

-- the bitmap whose first six blocks are taken
abbrev formatted : List ℕ → ℕ → Bitmap
formatted later u = record { words = 63 ∷ later; used_blocks = u; max_blocks = 65536 }

six_blocks : (later : List ℕ) → set_blocks 6 0 (0 ∷ later) ≡ some (63 ∷ later)
unfolding set_blocks set_block one_shl
six_blocks later =
    let inside : ltb 0 (suc (length later)) ≡ true = ground arith in
    rw (inside, inside, inside, inside, inside, inside) refl

first_alloc :
    (later : List ℕ) (u : ℕ)
    → u < 65536
    → file_mmgr_alloc_block (formatted later u)
      ≡ some
          (record { words = 127 ∷ later; used_blocks = count_up u 1; max_blocks = 65536 }, frame 6)
unfolding file_mmgr_alloc_block file_mmgr_get_first_free file_mmgr_set_block
    file_mmgr_get_total_usable_blocks get_total_usable_blocks one_shl
first_alloc later u small =
    let some_left : ((65536 + 2 ^ 64 - u) % 2 ^ 64 == 0) ≡ false = ground arith in
    let inside : ltb 0 (suc (length later)) ≡ true = ground arith in rw (some_left, inside) refl

-- `set_sb`, with the program's `rsync`, on a file system of 65536 blocks, fewer in use by the counter: it
-- succeeds, the first four inodes are cleared, and the next inode and the next block that are handed out
-- are inode 0 and block 6, behind the blocks of the metadata.
pub set_sb-first_file :
    (stale : Stale) (s : FileSystem)
    → s.blocks.max_blocks ≡ 65536
    → s.blocks.used_blocks < 65536
    → (s' : FileSystem) × (s2 : FileSystem) × (set_sb (rsync stale) s ≡ some s')
      × (take 4 s'.inode_list ≡ take 4 empty_inodes)
      × ((get_free_inode s').1 ≡ pos 0)
      × (get_free_block s' ≡ some (s2, frame 6))
unfolding set_sb create_superblock get_free_block get_free_inode rsync empty_inodes
set_sb-first_file stale s max used =
    let s1 = rsync stale ((create_superblock s).1) in
    let marked = six_blocks (take 63 (replicate 1099 0) ++ drop 64 stale.words) in
    let words = 63 ∷ (take 63 (replicate 1099 0) ++ drop 64 stale.words) in
    let s' = rsync stale (record s1 { blocks = record s1.blocks { words = words } }) in
    let later =
      take 63 (take 63 (replicate 1099 0) ++ drop 64 stale.words) ++ drop 64 stale.words in
    let bitmap : s'.blocks ≡ formatted later s.blocks.used_blocks =
      ap {A = ℕ} {B = Bitmap}
        (λ n. record { words = 63 ∷ later; used_blocks = s.blocks.used_blocks; max_blocks = n })
        max in
    let alloc = ap file_mmgr_alloc_block bitmap ∙ first_alloc later s.blocks.used_blocks used in
    (
      s',
      record s' {
        blocks = record {
          words = 127 ∷ later;
          used_blocks = count_up s.blocks.used_blocks 1;
          max_blocks = 65536;
        };
      },
      rw marked refl,
      refl,
      refl,
      rw alloc refl,
    )
