-- ===== src/Examples/Disk.antt =====
-- Examples for the file system.
use course_project_os_integr.Base.{
  ℕ, ◌<◌, ◌≡◌, ◌≢◌, ◌⊎◌, refl, true, false, none, some, List, [], ◌∷◌, arith, get_elem?, set,
  replicate,
}
use course_project_os_integr.Base.Integers.{pos}
use course_project_os_integr.Files.{Inode, FileSystem, inflate, find_file, write_file}
use course_project_os_integr.Bitmap.{frame}
use course_project_os_integr.FileBlocks.{file_mmgr_phy_init}
use course_project_os_integr.Files.Formatting.{set_sb, set_sb-first_file}
use course_project_os_integr.Files.{get_free_inode, get_free_block, empty_inodes}
use course_project_os_integr.Base.{take}
use course_project_os_integr.Files.Sync.{Stale, rsync}
use course_project_os_integr.Files.Inodes.{AllNamed}
use course_project_os_integr.Files.Reading.{read_file, read_file_by_name}
use course_project_os_integr.Files.Reading.Names.{read_file_by_name-OutOfReach}
use course_project_os_integr.Files.Reading.Contents.{write_file-read_file}

-- A directory "d", a file "a" and a free inode.
abbrev disk : FileSystem
disk = record {
  inode_list =
      record {
        name = 100 ∷ 0 ∷ [];
        position = 0;
        size = 0;
        start_block = 0;
        usage = true;
        is_file = false;
      }
      ∷ record {
        name = 97 ∷ 0 ∷ [];
        position = 0;
        size = 5;
        start_block = 9;
        usage = true;
        is_file = true;
      }
      ∷ record {
        name = 0 ∷ 0 ∷ [];
        position = 0;
        size = 0;
        start_block = 0;
        usage = false;
        is_file = false;
      }
      ∷ [];
  blocks = record { words = 1023 ∷ 0 ∷ []; used_blocks = 10; max_blocks = 128 };
  sectors = λ b. replicate 512 0;
  write_buffer = replicate 4096 0;
  read_buffer = replicate 4096 0;
}

-- what stands in the disk's buffers
abbrev leftovers : Stale
leftovers = record {
  inodes = [];
  words = [];
  sectors = λ b. replicate 512 0;
  write_buffer = replicate 4096 7;
  read_buffer = replicate 4096 0;
}

disk-AllNamed : AllNamed disk.inode_list ((100 ∷ []) ∷ (97 ∷ []) ∷ [] ∷ [])
unfolding AllNamed
disk-AllNamed = ((refl, (λ e. omega arith), refl), ((refl, (λ e. omega arith), refl), (refl, tt)))

a_is_there : find_file disk (97 ∷ 0 ∷ []) ≡ some (pos 1)
unfolding find_file
a_is_there = refl

read_file_by_name-OutOfReach_example :
    ((find_file disk (97 ∷ 0 ∷ []) ≡ some (pos 99))
      × (read_file_by_name disk (97 ∷ 0 ∷ []) (replicate 100 7) ≡ some (disk, none)))
    ⊎ ((find_file disk (97 ∷ 0 ∷ []) ≢ some (pos 99))
        × (read_file_by_name disk (97 ∷ 0 ∷ []) (replicate 100 7) ≡ none))
read_file_by_name-OutOfReach_example =
    read_file_by_name-OutOfReach disk ((100 ∷ []) ∷ (97 ∷ []) ∷ [] ∷ []) (97 ∷ 0 ∷ []) (97 ∷ [])
      (replicate 100 7) disk-AllNamed (refl, (λ e. omega arith), refl) (omega arith)

abbrev file_a : Inode
file_a = record {
  name = 97 ∷ 0 ∷ [];
  position = 0;
  size = 5;
  start_block = 9;
  usage = true;
  is_file = true;
}

write_file-read_file_example :
    (s1 : FileSystem) × (s2 : FileSystem) × (b : List ℕ) × (write_file
        (rsync leftovers)
        disk
        (104 ∷ 105 ∷ 0 ∷ [])
        (inflate (pos 1))
      ≡ some (s1, pos 1))
    × (read_file s1 (inflate (pos 1)) 1 (replicate 10 7) ≡ some (s2, some b))
    × ((k : ℕ) → k < 1 → get_elem? b k ≡ get_elem? (104 ∷ 105 ∷ 0 ∷ []) k)
    × (s2.inode_list ≡ set s1.inode_list 1 (record file_a { size = 2; position = 1 }))
write_file-read_file_example =
    write_file-read_file leftovers disk (104 ∷ 105 ∷ 0 ∷ []) (104 ∷ 105 ∷ []) (replicate 10 7) 1 1
      file_a (refl, (λ e. omega arith), (refl, (λ e. omega arith), refl)) (omega arith)
      (omega arith) (omega arith) refl (omega arith) refl (omega arith) (omega arith) (omega arith)

-- the memory before the file system is made
abbrev unformatted : FileSystem
unfolding file_mmgr_phy_init
unformatted = record disk { inode_list = []; blocks = file_mmgr_phy_init }

set_sb-first_file_example :
    (s' : FileSystem) × (s2 : FileSystem) × (set_sb (rsync leftovers) unformatted ≡ some s')
    × (take 4 s'.inode_list ≡ take 4 empty_inodes)
    × ((get_free_inode s').1 ≡ pos 0)
    × (get_free_block s' ≡ some (s2, frame 6))
unfolding unformatted file_mmgr_phy_init
set_sb-first_file_example = set_sb-first_file leftovers unformatted refl (omega arith)
