-- ===== src/Examples/Programs.antt =====
-- Examples for the loading of programs.
use course_project_os_integr.Base.{◌≡◌, refl, some, List, [], ◌∷◌, arith, replicate}
use course_project_os_integr.Archive.{tarfs_read}
use course_project_os_integr.Loading.{Binary, Exec, readelf}
use course_project_os_integr.Loading.Segments.{Reads, readelf-Reads}
use course_project_os_integr.Examples.Archives.{small_archive}

-- A program with two headers, of which the first is a segment of 48 bytes.
abbrev small_binary : Binary
small_binary = record {
  elf = λ p. record { e_entry = 0x400078; e_phoff = 64; e_shoff = 0x200; e_phnum = 2 };
  program = λ p. record { p_offset = 0; p_vaddr = 0x400000; p_memsz = 48 };
  sh_addr = λ p. 0x400078;
}

abbrev executable : List Exec
executable =
    replicate 20 (record { seg_length = 0; seg_page_start = 0; seg_actual_start = 0; seg_mem = 0 })

a_at : tarfs_read 3 small_archive (97 ∷ 0 ∷ []) ≡ some 0xFFFFFFFF80300200
unfolding tarfs_read
a_at = refl

readelf-Reads_example :
    Reads small_binary 0xFFFFFFFF80300200 executable
      (readelf 3 small_archive small_binary (97 ∷ 0 ∷ []) executable)
readelf-Reads_example =
    readelf-Reads 3 small_archive small_binary (97 ∷ 0 ∷ []) executable 0xFFFFFFFF80300200 a_at
      (omega arith) (omega arith) (omega arith)
