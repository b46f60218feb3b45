-- ===== src/PageEntry/Laws.antt =====
-- The entry functions bit by bit.
use course_project_os_integr.Base.{
  ℕ, ◌*◌, ◌/◌, ◌%◌, ◌^◌, ◌<◌, bit_and, bit_or, ◌≡◌, inl, inr, refl, ap, ◌∙◌, Bool, true, false,
  ◌&&◌, arith, ltb, leb, ◌==◌, eq_of_==, Bool-cases, if◌then◌else◌, all_below, all_below_sound,
}
use course_project_os_integr.Base.Bits.{
  bit, bit_not, bit-le, bit-bit_and, bit-bit_or, bit-flip, bit-high, bit-low,
}
use course_project_os_integr.PageEntry.{
  set_page_entry, set_pml4_entry, set_pdpe_entry, set_pde_entry, share_entry,
}

-- the bit of `frame`, and of a flag with the one bit `k`
abbrev frame_bit : ℕ → ℕ
frame_bit j = if leb 12 j && ltb j 44 then 1 else 0

abbrev one_bit : ℕ → ℕ → ℕ
one_bit k j = if k == j then 1 else 0

frame_table : all_below 64 (λ j. bit 0x00000FFFFFFFF000 j == frame_bit j) ≡ true
unfolding all_below bit
frame_table = refl

flag_table :
    all_below 64 (λ j.
      (bit 1 j == one_bit 0 j)
      && (bit 2 j == one_bit 1 j)
      && (bit 4 j == one_bit 2 j)
      && (bit 0x4000000000000000 j == one_bit 62 j))
    ≡ true
unfolding all_below bit
flag_table = refl

-- What an entry filled with frame `phys` has at bit `j`.
abbrev pub filled_bit : ℕ → ℕ → Bool → ℕ → ℕ
filled_bit e phys is_user j =
    if leb 12 j && ltb j 44
    then bit phys j
    else if ltb j 2
    then 1
    else if (j == 2) && is_user
    then 1
    else bit e j

flag_bits :
    (j : ℕ)
    → j < 64
    → (bit 1 j ≡ one_bit 0 j)
      × (bit 2 j ≡ one_bit 1 j)
      × (bit 4 j ≡ one_bit 2 j)
      × (bit 0x4000000000000000 j ≡ one_bit 62 j)
flag_bits j lt = ground (arith, all_below_sound 64 _ j flag_table lt)

frame_bits : (j : ℕ) → j < 64 → bit 0x00000FFFFFFFF000 j ≡ frame_bit j
frame_bits j lt = eq_of_== _ _ (all_below_sound 64 _ j frame_table lt)

-- A page-aligned physical address below 2^44 has bits in the frame field only.
phys_bits : (phys j : ℕ) → phys % 4096 ≡ 0 → phys < 2 ^ 44 → frame_bit j ≡ 0 → bit phys j ≡ 0
phys_bits phys j aligned small out = elim (Bool-cases (ltb j 12)) [
  | inl lt ↦
      let e : phys ≡ phys / 4096 * 2 ^ 12 = omega arith in
      ap (λ w. bit w j) e ∙ bit-low 12 (phys / 4096) j (ground arith)
  | inr ge ↦ bit-high 44 phys j small (ground arith)
]

marked_bit :
    (e j : ℕ) (is_user : Bool)
    → j < 64
    → bit (if is_user then bit_or (bit_or (bit_or e 1) 2) 4 else bit_or (bit_or e 1) 2) j
      ≡ (if ltb j 2 then 1 else if (j == 2) && is_user then 1 else bit e j)
marked_bit e j true lt = ground (
  arith,
  flag_bits j lt,
  bit-bit_or (bit_or (bit_or e 1) 2) 4 j,
  bit-bit_or (bit_or e 1) 2 j,
  bit-bit_or e 1 j,
  bit-le e j,
)
marked_bit e j false lt =
    ground (arith, flag_bits j lt, bit-bit_or (bit_or e 1) 2 j, bit-bit_or e 1 j, bit-le e j)

-- `pml4e_entry_set_frame` on any word replaces its frame field.
pub framed_bit :
    (w phys j : ℕ)
    → phys % 4096 ≡ 0
    → phys < 2 ^ 44
    → j < 64
    → bit (bit_or (bit_and w (bit_not 0x00000FFFFFFFF000)) phys) j
      ≡ (if leb 12 j && ltb j 44 then bit phys j else bit w j)
framed_bit w phys j aligned small lt = ground (
  arith,
  bit-bit_or (bit_and w (bit_not 0x00000FFFFFFFF000)) phys j,
  bit-bit_and w (bit_not 0x00000FFFFFFFF000) j,
  bit-flip 64 0x00000FFFFFFFF000 j (omega arith) lt,
  frame_bits j lt,
  phys_bits phys j aligned small,
  bit-le w j,
  bit-le phys j,
)

-- `set_page_entry` on a page-aligned frame address below 2^44: bits 12 to 43 become the address,
-- present and writable become 1, the user bit becomes 1 if asked for, and every other bit of the
-- entry, the copy-on-write bit among them, stays as it was.
pub set_page_entry-bits :
    (e phys j : ℕ) (is_user : Bool)
    → phys % 4096 ≡ 0
    → phys < 2 ^ 44
    → j < 64
    → bit (set_page_entry e phys is_user) j ≡ filled_bit e phys is_user j
unfolding set_page_entry
set_page_entry-bits e phys j is_user aligned small lt =
    framed_bit (if is_user then bit_or (bit_or (bit_or e 1) 2) 4 else bit_or (bit_or e 1) 2) phys j
      aligned small lt
    ∙ ap (λ b. if leb 12 j && ltb j 44 then bit phys j else b) (marked_bit e j is_user lt)

-- The functions for the four levels of table write the same entry.
pub set_entries_agree :
    (e dir : ℕ) (is_user : Bool)
    → (set_pml4_entry e dir is_user ≡ set_page_entry e dir is_user)
      × (set_pdpe_entry e dir is_user ≡ set_page_entry e dir is_user)
      × (set_pde_entry e dir is_user ≡ set_page_entry e dir is_user)
unfolding set_page_entry set_pml4_entry set_pdpe_entry set_pde_entry
set_entries_agree e dir is_user = (refl, refl, refl)

-- What `copy_page_table` does to an entry below 2^64: the writable bit becomes 0, the copy-on-write
-- bit becomes 1, and every other bit, frame and present bit included, stays.
pub share_entry-bits :
    (e j : ℕ)
    → j < 64
    → bit (share_entry e) j ≡ (if j == 1 then 0 else if j == 62 then 1 else bit e j)
unfolding share_entry
share_entry-bits e j lt = ground (
  arith,
  bit-bit_or (bit_and e (bit_not 2)) 0x4000000000000000 j,
  bit-bit_and e (bit_not 2) j,
  bit-flip 64 2 j (omega arith) lt,
  flag_bits j lt,
  bit-le e j,
)
