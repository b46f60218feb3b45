-- ===== src/Files/Errors.antt =====
-- Descriptors and refusals.
use course_project_os_integr.Base.{ℕ, ◌≡◌, refl, none, some, List, Option-cases, inl, inr}
use course_project_os_integr.Base.Integers.{ℤ, pos, negsuc, sub_nat, sub_nat-add_nat}
use course_project_os_integr.CString.{strlen}
use course_project_os_integr.Files.{
  FileSystem, inflate, deflate, find_file, create_file, write_file, create_write_file, inode_at,
}

-- `deflate` takes back `inflate`.
pub deflate-inflate : (fd : ℤ) → deflate (inflate fd) ≡ fd
unfolding deflate inflate
deflate-inflate fd = sub_nat-add_nat fd 100

write_file-minus_one :
    (rsync : FileSystem → FileSystem) (s : FileSystem) (contents : List ℕ)
    → write_file rsync s contents (negsuc 0) ≡ none
unfolding write_file deflate inode_at sub_nat
write_file-minus_one rsync s contents = elim (Option-cases (strlen contents)) [
  | inl e ↦ rw e refl
  | inr (n, e) ↦ rw e refl
]

-- A file whose name is there already: `create_file` returns -1 and leaves the file system as it is,
-- and `create_write_file`, which hands that -1 to `write_file`, faults: the descriptor becomes -101
-- before the test for -1, and the inode array is accessed out of its bounds.
pub create_write_file-existing :
    (rsync : FileSystem → FileSystem) (s : FileSystem) (name contents : List ℕ) (i : ℕ)
    → find_file s name ≡ some (pos i)
    → (create_file rsync s name ≡ some (s, negsuc 0))
      × (create_write_file rsync s name contents ≡ none)
unfolding create_file create_write_file
create_write_file-existing rsync s name contents i h =
    (rw h refl, rw h (write_file-minus_one rsync s contents))
