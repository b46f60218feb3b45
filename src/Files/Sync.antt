-- ===== src/Files/Sync.antt =====
-- `rsync` of sys/fs.c: the metadata is written to the disk and read back.
use course_project_os_integr.Base.{ℕ, List, ◌++◌, ltb, take, drop, if◌then◌else◌}
use course_project_os_integr.Files.{Inode, FileSystem}

-- What `rsync` finds behind the sectors that it reads: the buffer's bytes there, as inodes and as words of
-- the bitmap, and what the transfers leave in the buffers and in the sectors 0 to 4.
pub record Stale : Type 0 where
  pub inodes : List Inode
  pub words : List ℕ
  pub sectors : ℕ → List ℕ
  pub write_buffer : List ℕ
  pub read_buffer : List ℕ

-- The superblock goes to sectors 0 and 1, the bitmap to 1 and 2 and the inodes to 3 and 4, as
-- `create_superblock` places them; then sectors 0, 1 and 3 are read back, one each, and copied over the
-- whole of each table. So the first 512 bytes come back, which are 64 words of the bitmap and 4 inodes of
-- 128 bytes, and over the rest is written what stands in the buffer behind the sector.
unfoldable pub rsync : Stale → FileSystem → FileSystem
rsync stale s = record s {
  inode_list = take 4 s.inode_list ++ drop 4 stale.inodes;
  blocks = record s.blocks { words = take 64 s.blocks.words ++ drop 64 stale.words };
  sectors = λ b. if ltb b 5 then stale.sectors b else s.sectors b;
  write_buffer = stale.write_buffer;
  read_buffer = stale.read_buffer;
}
