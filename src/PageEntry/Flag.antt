-- ===== src/PageEntry/Flag.antt =====
-- The flags of include/sys/mm/vmmgr_pte.h; the other three headers give the same values.
use course_project_os_integr.Base.{ℕ}

abbrev pub present : ℕ
present = 1

abbrev pub writable : ℕ
writable = 2

abbrev pub user : ℕ
user = 4

abbrev pub accessed : ℕ
accessed = 0x20

abbrev pub dirty : ℕ
dirty = 0x40

abbrev pub large : ℕ
large = 0x80

abbrev pub cow : ℕ
cow = 0x4000000000000000

abbrev pub frame : ℕ
frame = 0x00000FFFFFFFF000
