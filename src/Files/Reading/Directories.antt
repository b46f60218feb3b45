-- ===== src/Files/Reading/Directories.antt =====
-- Making a directory.
use course_project_os_integr.Base.{
  ℕ, ◌≤◌, ◌≡◌, true, false, Option, none, some, List, ◌∷◌, ◌++◌, length, get_elem?,
}
use course_project_os_integr.Base.Integers.{ℤ, pos}
use course_project_os_integr.CString.Copy.{Copied}
use course_project_os_integr.Files.{Inode, FileSystem}
use course_project_os_integr.Files.Inodes.{AllInUse}

-- The inode of a new directory.
abbrev pub directory : List ℕ → Inode → Inode
directory stored d = record d {
  name = stored;
  size = 0;
  start_block = 0;
  usage = true;
  is_file = false;
}

-- What `make_directory` comes to for a name that is not there.
pub data Made (rsync : FileSystem → FileSystem) (s : FileSystem) (name : List ℕ) (n : ℕ)
    : Option (FileSystem × ℤ) → Type 0 where
  made :
      (earlier : List Inode) (d : Inode) (later : List Inode) (stored : List ℕ)
      → s.inode_list ≡ earlier ++ d ∷ later
      → AllInUse earlier
      → d.usage ≡ false
      → Copied 0 n d.name name stored
      → Made rsync s name n (
          some (
            rsync (record s { inode_list = earlier ++ directory stored d ∷ later }),
            pos (length earlier),
          ))
  fault : AllInUse s.inode_list → Made rsync s name n none

-- the name fits the name field of every inode
abbrev pub Fits : FileSystem → ℕ → Type 0
Fits s n = (i : ℕ) (d : Inode) → get_elem? s.inode_list i ≡ some d → n ≤ length d.name
