-- ===== src/Files.antt =====
-- The file system of sys/fs.c: the inodes, the block allocator, and the disk as the 512 bytes of each
-- sector, with the two buffers of sys/ahci.c that transfers go through. The operations take `rsync` as an
-- argument; `Sync` has the program's.
pub mod Inodes
pub mod Errors
pub mod Reading
pub mod Formatting
pub mod Sync
use course_project_os_integr.Base.{
  ℕ, zero, suc, ◌+◌, ◌%◌, ◌^◌, Bool, true, false, not, ◌&&◌, Option, none, some, List, [], ◌∷◌,
  ◌==◌, ◌++◌, take, drop, if◌then◌else◌, get_elem?, set, store, replicate, ◌>>=◌,
}
use course_project_os_integr.Base.Integers.{ℤ, pos, negsuc, add_nat, sub_nat}
use course_project_os_integr.Bitmap.{Bitmap, Found, frame, no_frame}
use course_project_os_integr.FileBlocks.{file_mmgr_alloc_block}
use course_project_os_integr.CString.{strlen, strcmp, strncpy, memcpy}

-- `is_file` is the field `type`.
pub record Inode : Type 0 where
  pub name : List ℕ
  pub position : ℕ
  pub size : ℕ
  pub start_block : ℕ
  pub usage : Bool
  pub is_file : Bool

pub record FileSystem : Type 0 where
  pub inode_list : List Inode
  pub blocks : Bitmap
  pub sectors : ℕ → List ℕ
  pub write_buffer : List ℕ
  pub read_buffer : List ℕ

-- The transfer of `write_interface`, which the controller is to carry out: two sectors from the buffer.
unfoldable pub write_interface : ℕ → FileSystem → FileSystem
write_interface b s = record s {
  sectors = λ x.
      if x == b
      then take 512 s.write_buffer
      else if x == b + 1
      then take 512 (drop 512 s.write_buffer)
      else s.sectors x;
}

-- The string's bytes, without the NUL, are put over the start of what was in the buffer. `offset` is a
-- `DWORD`.
unfoldable pub write_disk : ℕ → List ℕ → FileSystem → Option FileSystem
unfolding strlen memcpy write_interface
write_disk offset contents s = strlen contents >>= λ n. memcpy s.write_buffer contents n >>= λ wb.
    some (write_interface (offset % 2 ^ 32) (record s { write_buffer = wb }))

-- One sector is read, over the start of what was in the buffer.
unfoldable pub read_disk : ℕ → FileSystem → FileSystem
read_disk offset s = record s {
  read_buffer = s.sectors (offset % 2 ^ 32) ++ drop 512 s.read_buffer;
}

unfoldable pub inflate : ℤ → ℤ
unfolding add_nat
inflate fd = add_nat fd 100

unfoldable pub deflate : ℤ → ℤ
unfolding sub_nat
deflate fd = sub_nat fd 100

-- The loop of `get_free_inode` from index `i` on.
unfoldable pub free_inode_from : ℕ → List Inode → List Inode × ℤ
free_inode_from i [] = ([], negsuc 0)
free_inode_from i (d ∷ inodes) =
    let (rest, found) = free_inode_from (suc i) inodes in
    if d.usage then (d ∷ rest, found) else (record d { usage = true } ∷ inodes, pos i)

unfoldable pub get_free_inode : FileSystem → FileSystem × ℤ
unfolding free_inode_from
get_free_inode s =
    let (inodes, found) = free_inode_from 0 s.inode_list in
    (record s { inode_list = inodes }, found)

unfoldable pub get_free_block : FileSystem → Option (FileSystem × Found)
unfolding file_mmgr_alloc_block
get_free_block s = file_mmgr_alloc_block s.blocks >>= λ r. some (record s { blocks = r.0 }, r.1)

-- The loop of `find_file` (`wanted` true) and `find_directory` (`wanted` false).
unfoldable pub find_from : Bool → ℕ → List Inode → List ℕ → Option ℤ
unfolding strcmp
find_from wanted i [] name = some (negsuc 0)
find_from wanted i (d ∷ inodes) name =
    let rest = find_from wanted (suc i) inodes name in
    strcmp d.name name >>= λ differ.
    if (differ == 0) && (if wanted then d.is_file else not d.is_file) then some (pos i) else rest

unfoldable pub find_file : FileSystem → List ℕ → Option ℤ
unfolding find_from
find_file s name = find_from true 0 s.inode_list name

unfoldable pub find_directory : FileSystem → List ℕ → Option ℤ
unfolding find_from
find_directory s name = find_from false 0 s.inode_list name

-- `inode_list[inode]`
unfoldable pub inode_at : FileSystem → ℤ → Option Inode
inode_at s (pos i) = get_elem? s.inode_list i
inode_at s (negsuc n) = none

unfoldable pub put_inode : FileSystem → ℤ → Inode → Option FileSystem
put_inode s (pos i) d = store s.inode_list i d >>= λ inodes. some (record s { inode_list = inodes })
put_inode s (negsuc n) d = none

-- The part of `create_file` with an inode and a block.
unfoldable pub fill_inode : FileSystem → ℤ → ℕ → List ℕ → Option FileSystem
unfolding strlen strncpy inode_at put_inode
fill_inode s inode block name = inode_at s inode >>= λ d. strlen name >>= λ n.
    strncpy d.name name n >>= λ stored.
    put_inode s inode (record d { name = stored; start_block = block; is_file = true })

-- The part of `create_file` for a name that is not there.
unfoldable pub create_new :
    (FileSystem → FileSystem) → FileSystem → List ℕ → Option (FileSystem × ℤ)
unfolding get_free_inode get_free_block fill_inode inflate
create_new rsync s name =
    let (s1, inode) = get_free_inode s in
    get_free_block s1 >>= λ r. elim r.1 [
      | no_frame ↦ some (r.0, negsuc 0)
      | frame b ↦ elim inode [
        | negsuc _ ↦ some (r.0, negsuc 0)
        | pos i ↦ fill_inode r.0 (pos i) b name >>= λ s2. some (rsync s2, inflate (pos i))
      ]
    ]

unfoldable pub create_file :
    (FileSystem → FileSystem) → FileSystem → List ℕ → Option (FileSystem × ℤ)
unfolding find_file create_new
create_file rsync s name = find_file s name >>= λ found. elim found [
  | pos _ ↦ some (s, negsuc 0)
  | negsuc _ ↦ create_new rsync s name
]

abbrev pub is_minus_one : ℤ → Bool
is_minus_one (pos n) = false
is_minus_one (negsuc n) = n == 0

unfoldable pub flush_blocks : ℕ → List ℕ → FileSystem → Option FileSystem
unfolding write_disk
flush_blocks block_number contents s = write_disk block_number contents s

unfoldable pub write_file :
    (FileSystem → FileSystem) → FileSystem → List ℕ → ℤ → Option (FileSystem × ℤ)
unfolding deflate strlen inode_at put_inode flush_blocks
write_file rsync s contents fd =
    let inode = deflate fd in
    if is_minus_one inode
    then some (s, negsuc 0)
    else (strlen contents >>= λ n. inode_at s inode >>= λ d.
        put_inode s inode (record d { size = n % 2 ^ 32 }) >>= λ s1.
        inode_at (rsync s1) inode >>= λ e.
        flush_blocks e.start_block contents (rsync s1) >>= λ s2. some (s2, pos 1))

unfoldable pub create_write_file :
    (FileSystem → FileSystem) → FileSystem → List ℕ → List ℕ → Option (FileSystem × ℤ)
unfolding create_file write_file
create_write_file rsync s name contents =
    create_file rsync s name >>= λ r. write_file rsync r.0 contents r.1

-- A remainder by 0 is a fault.
unfoldable pub seek_file : FileSystem → ℤ → ℕ → Option FileSystem
unfolding deflate inode_at put_inode
seek_file s fd position =
    let inode = deflate fd in
    inode_at s inode >>= λ d.
    if d.size == 0
    then none
    else put_inode s inode (record d { position = (position + d.position) % 2 ^ 32 % d.size })

-- `inode_list` after `create_superblock`.
unfoldable pub empty_inodes : List Inode
empty_inodes = replicate 100 (record {
  name = replicate 100 0;
  position = 0;
  size = 0;
  start_block = 0;
  usage = false;
  is_file = false;
})
