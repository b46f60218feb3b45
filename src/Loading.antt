-- ===== src/Loading.antt =====
-- Reading a program of the archive for its execution: `readelf` of sys/elf.c.
pub mod Segments
use course_project_os_integr.Base.{
  ℕ, zero, suc, ◌+◌, ◌-◌, ◌*◌, ◌%◌, ◌^◌, Option, none, some, List, ◌==◌, if◌then◌else◌, ◌>>=◌,
  store,
}
use course_project_os_integr.Archive.{Archive, tarfs_read}

-- The fields of `Elf64_Ehdr` and `Elf64_Phdr` that are read. The headers have 64 and 56 bytes.
pub record ElfHeader : Type 0 where
  pub e_entry : ℕ
  pub e_phoff : ℕ
  pub e_shoff : ℕ
  pub e_phnum : ℕ

pub record ProgramHeader : Type 0 where
  pub p_offset : ℕ
  pub p_vaddr : ℕ
  pub p_memsz : ℕ

-- What lies at each address, read as a header; of a section header the field `sh_addr`.
pub record Binary : Type 0 where
  pub elf : ℕ → ElfHeader
  pub program : ℕ → ProgramHeader
  pub sh_addr : ℕ → ℕ

-- `struct exec`
pub record Exec : Type 0 where
  pub seg_length : ℕ
  pub seg_page_start : ℕ
  pub seg_actual_start : ℕ
  pub seg_mem : ℕ

pub data Program : Type 0 where
  not_found : Program
  program : List Exec → ℕ → ℕ → Program

-- The body of the loop: the entry `i`, with `length` bytes in the entries before it.
unfoldable pub segment : Binary → ℕ → ℕ → ℕ → ℕ → ℕ → Exec
segment m bin_start text_start actual_mem_start i length =
    let h = m.program ((bin_start + 64 + i * 56) % 2 ^ 64) in
    record {
      seg_length = h.p_memsz % 2 ^ 32;
      seg_page_start = (h.p_vaddr + 2 ^ 64 - h.p_offset) % 2 ^ 64;
      seg_actual_start = if i == 0 then text_start else h.p_vaddr;
      seg_mem =
          if i == 0
          then (actual_mem_start + length) % 2 ^ 64
          else (bin_start + h.p_offset) % 2 ^ 64;
    }

-- The loop from entry `i` on, with `left` entries to go. `executable` has 20 entries in the callers.
unfoldable pub segments_from : Binary → ℕ → ℕ → ℕ → ℕ → ℕ → ℕ → List Exec → Option (List Exec)
unfolding segment
segments_from m bin_start text_start actual zero i length executable = some executable
segments_from m bin_start text_start actual (suc left) i length executable =
    let h = m.program ((bin_start + 64 + i * 56) % 2 ^ 64) in
    store executable i (segment m bin_start text_start actual i length)
    >>= segments_from m bin_start text_start actual left (suc i) ((length + h.p_memsz) % 2 ^ 64)

-- The part of `readelf` with the file found at `bin_start`.
unfoldable pub read_program : Binary → List Exec → ℕ → Option Program
unfolding segments_from
read_program m executable bin_start =
    let h = m.elf bin_start in
    let pgm_entries = (h.e_phnum + 2 ^ 16 - 1) % 2 ^ 16 in
    let text_start = m.sh_addr ((bin_start + h.e_shoff + 64) % 2 ^ 64) in
    let actual = (bin_start + 64 + pgm_entries * 56 + h.e_phoff) % 2 ^ 64 in
    segments_from m bin_start text_start actual pgm_entries 0 0 executable >>= λ entries.
    some (program entries pgm_entries h.e_entry)

unfoldable pub readelf : ℕ → Archive → Binary → List ℕ → List Exec → Option Program
unfolding tarfs_read read_program
readelf fuel a m name executable = tarfs_read fuel a name >>= λ bin_start.
    if bin_start == 0 then some not_found else read_program m executable bin_start
