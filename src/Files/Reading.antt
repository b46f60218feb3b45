-- ===== src/Files/Reading.antt =====
-- Reading files and making directories: the rest of sys/fs.c above the disk.
pub mod Names
pub mod Contents
pub mod Directories
use course_project_os_integr.Base.{
  ℕ, zero, suc, ◌+◌, ◌%◌, ◌^◌, Bool, true, false, Option, none, some, List, [], ◌∷◌, leb, ◌==◌,
  if◌then◌else◌, replicate, ◌>>=◌,
}
use course_project_os_integr.Base.Integers.{ℤ, pos, negsuc}
use course_project_os_integr.CString.{strlen, strncpy, memcpy}
use course_project_os_integr.Files.{
  FileSystem, deflate, read_disk, get_free_inode, find_file, find_directory, inode_at, put_inode,
  is_minus_one,
}

-- `contents++`, `position` times. Nothing is behind the end of the list.
unfoldable pub advance : ℕ → List ℕ → List ℕ
advance zero contents = contents
advance (suc position) [] = []
advance (suc position) (c ∷ contents) = advance position contents

-- The new memory and the buffer, or `none` in its place for `NULL`. `&s` are the eight bytes of a null
-- pointer, and `sizeof(buf)` is the size of a pointer. A position of 2^31 or more is negative as an
-- `int`, and the loop that counts it down has no defined end.
unfoldable pub read_file : FileSystem → ℤ → ℕ → List ℕ → Option (FileSystem × Option (List ℕ))
unfolding deflate inode_at put_inode memcpy advance read_disk
read_file s fd count buf =
    let inode = deflate fd in
    if is_minus_one inode
    then some (s, none)
    else (inode_at s inode >>= λ d.
        let s1 = read_disk d.start_block s in
        if leb (2 ^ 31) d.position
        then none
        else (memcpy buf (replicate 8 0) 8 >>= λ cleared.
            memcpy cleared (advance d.position s1.read_buffer) count >>= λ read.
            if d.size == 0
            then none
            else (put_inode s1 inode
                  (record d { position = (d.position + count) % 2 ^ 32 % d.size })
                >>= λ s2. some (s2, some read))))

unfoldable pub get_file_descriptor : FileSystem → List ℕ → Option ℤ
unfolding find_file
get_file_descriptor s name = find_file s name

-- `buf` is what stands in the local array of 100 bytes.
unfoldable pub read_file_by_name :
    FileSystem → List ℕ → List ℕ → Option (FileSystem × Option (List ℕ))
unfolding get_file_descriptor read_file
read_file_by_name s name buf = get_file_descriptor s name >>= λ fd. read_file s fd 100 buf

-- The part of `make_directory` for a name that is not there.
unfoldable pub make_new : (FileSystem → FileSystem) → FileSystem → List ℕ → Option (FileSystem × ℤ)
unfolding get_free_inode inode_at put_inode strlen strncpy
make_new rsync s name =
    let (s1, inode) = get_free_inode s in
    inode_at s1 inode >>= λ d. strlen name >>= λ n. strncpy d.name name n >>= λ stored.
    put_inode s1 inode
      (record d { name = stored; size = 0; start_block = 0; usage = true; is_file = false })
    >>= λ s2. some (rsync s2, inode)

unfoldable pub make_directory :
    (FileSystem → FileSystem) → FileSystem → List ℕ → Option (FileSystem × ℤ)
unfolding find_directory make_new
make_directory rsync s name = find_directory s name >>= λ found. elim found [
  | pos _ ↦ some (s, negsuc 0)
  | negsuc _ ↦ make_new rsync s name
]
