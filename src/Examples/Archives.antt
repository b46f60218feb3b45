-- ===== src/Examples/Archives.antt =====
-- Examples for the archive.
use course_project_os_integr.Base.{
  ℕ, ◌+◌, ◌*◌, ◌/◌, ◌%◌, ◌-◌, ◌<◌, ◌≡◌, ◌≢◌, ◌⊎◌, inl, inr, refl, some, List, [], ◌∷◌, arith, zero,
  suc, ◌==◌, if◌then◌else◌,
}
use course_project_os_integr.CString.{my_atool}
use course_project_os_integr.Archive.{Archive, Table, next_header, tarfs_read, tarfs_open}
use course_project_os_integr.Archive.Walk.{
  Entry, Laid, Locates, Behind, Readable, blocks, next_header-Step, tarfs_read-Locates,
  tarfs_read-ends,
}
use course_project_os_integr.Archive.Open.{Opened, Holds, tarfs_open-Opened}

-- The file "a" of three bytes, and the empty file "b" behind it, where the kernel is linked to.
abbrev pub small_archive : Archive
small_archive = record {
  start = 0xFFFFFFFF80300000;
  finish = 0xFFFFFFFF80300600;
  header = λ h.
      if h == 0xFFFFFFFF80300000
      then record { name = 97 ∷ 0 ∷ []; size = 51 ∷ 0 ∷ [] }
      else if h == 0xFFFFFFFF80300400
      then record { name = 98 ∷ 0 ∷ []; size = 48 ∷ 0 ∷ [] }
      else record { name = 0 ∷ []; size = 0 ∷ [] };
}

abbrev entries : List Entry
entries = record { name = 97 ∷ []; size = 3 } ∷ record { name = 98 ∷ []; size = 0 } ∷ []

small_archive-Laid : Laid small_archive 0xFFFFFFFF80300000 entries
unfolding Laid
small_archive-Laid = (
  omega arith,
  (refl, omega arith, refl),
  refl,
  omega arith,
  (omega arith, (refl, omega arith, refl), refl, omega arith, refl),
)

small_archive-Behind : Behind small_archive (98 ∷ [])
unfolding my_atool
small_archive-Behind = record {
  other = [];
  named = refl;
  differs = λ e. ground arith;
  size = 0;
  reads = refl;
  small = omega arith;
}

tarfs_read-Locates_example :
    (p : ℕ) × (tarfs_read 4 small_archive (98 ∷ 0 ∷ []) ≡ some p)
    × Locates small_archive (98 ∷ []) 0xFFFFFFFF80300000 entries p
tarfs_read-Locates_example =
    tarfs_read-Locates 4 small_archive entries (98 ∷ []) (98 ∷ 0 ∷ []) small_archive-Laid
      (inr (omega arith), (inl refl, tt)) small_archive-Behind (omega arith)
      (refl, omega arith, refl) (omega arith)

-- A file of 512 bytes, "1000" in octal.
abbrev full_archive : Archive
full_archive = record {
  start = 0xFFFFFFFF80300000;
  finish = 0xFFFFFFFF80300800;
  header = λ h. record { name = 97 ∷ 0 ∷ []; size = 49 ∷ 48 ∷ 48 ∷ 48 ∷ 0 ∷ [] };
}

full_size : my_atool ((full_archive.header 0xFFFFFFFF80300000).size) ≡ some 512
unfolding my_atool
full_size = refl

next_header-Step_example :
    ((◌≡◌ {A = ℕ} 512 0) ⊎ (512 % 512 ≢ 0)
      → next_header full_archive 0xFFFFFFFF80300000
        ≡ some (0xFFFFFFFF80300000 + 512 + 512 * blocks 512))
    × (◌≢◌ {A = ℕ} 512 0
        → 512 % 512 ≡ 0
        → next_header full_archive 0xFFFFFFFF80300000
          ≡ some (0xFFFFFFFF80300000 + 512 + 512 * blocks 512 + 512))
next_header-Step_example =
    next_header-Step full_archive 0xFFFFFFFF80300000 512 full_size (omega arith) (omega arith)

full-Readable : Readable full_archive
unfolding my_atool
full-Readable = record {
  names = λ j inside. (97 ∷ [], (refl, omega arith, refl));
  sizes = λ j inside. (512, refl, omega arith);
}

tarfs_read-ends_example :
    (p : ℕ) × (tarfs_read
        ((full_archive.finish - full_archive.start) / 512 + 2)
        full_archive
        (98 ∷ 0 ∷ [])
      ≡ some p)
tarfs_read-ends_example =
    tarfs_read-ends full_archive (98 ∷ []) (98 ∷ 0 ∷ []) full-Readable (omega arith)
      (refl, omega arith, refl)

-- One file, "a", with descriptor 1.
abbrev one_file : Table
one_file = record { files = (0 ∷ []) ∷ (97 ∷ 0 ∷ []) ∷ []; file_used = 0 ∷ 0 ∷ []; file_count = 2 }

one_file-Holds : (i : ℕ) → i < 2 → (x : List ℕ) × Holds one_file i x
one_file-Holds zero h = ([], (0 ∷ [], refl, refl))
one_file-Holds (suc zero) h = (97 ∷ [], (97 ∷ 0 ∷ [], refl, (refl, omega arith, refl)))
one_file-Holds (suc (suc i)) h = absurd (omega arith)

tarfs_open-Opened_example :
    (t' : Table) × (fd : ℕ) × (tarfs_open (97 ∷ 0 ∷ []) one_file ≡ some (t', fd))
    × Opened one_file (97 ∷ []) t' fd
tarfs_open-Opened_example =
    tarfs_open-Opened (97 ∷ []) (97 ∷ 0 ∷ []) one_file
      (record { names = one_file-Holds; flags = omega arith; some_file = omega arith })
      (refl, omega arith, refl)
