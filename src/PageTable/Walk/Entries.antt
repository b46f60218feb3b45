-- ===== src/PageTable/Walk/Entries.antt =====
-- The frame that is read back from an entry.
use course_project_os_integr.Base.{
  ℕ, ◌*◌, ◌/◌, ◌%◌, ◌^◌, ◌≤◌, ◌<◌, bit_and, bit_or, ◌≡◌, inl, inr, refl, ap, ◌∙◌, true, false, ◌&&◌,
  arith, ltb, leb, ◌==◌, eq_of_==, Bool-cases, if◌then◌else◌, all_below, all_below_sound,
}
use course_project_os_integr.Base.Bits.{
  bit, bit_not, bit-le, bit-zero, bit-bit_and, bit-bit_or, bit-high, bit-low, bits_ext,
}
use course_project_os_integr.PageEntry.{set_page_entry, pt_entry_set_frame, pt_entry_add_attrib}
use course_project_os_integr.PageEntry.Laws.{framed_bit, set_page_entry-bits}
use course_project_os_integr.PageTable.Walk.{page_physical_address, map_word}

abbrev wide_bit : ℕ → ℕ
wide_bit j = if leb 12 j && ltb j 52 then 1 else 0

wide_table : all_below 64 (λ j. bit 0x000FFFFFFFFFF000 j == wide_bit j) ≡ true
unfolding all_below bit
wide_table = refl

wide_bits : (j : ℕ) → bit 0x000FFFFFFFFFF000 j ≡ wide_bit j
wide_bits j = elim (Bool-cases (ltb j 64)) [
  | inl lt ↦ eq_of_== _ _ (all_below_sound 64 _ j wide_table (ground arith))
  | inr ge ↦ bit-high 52 0x000FFFFFFFFFF000 j (omega arith) (ground arith) ∙ ground arith
]

-- bits 12 to 51 of the entry
pub physical_bit :
    (w j : ℕ) → bit (page_physical_address w) j ≡ (if leb 12 j && ltb j 52 then bit w j else 0)
unfolding page_physical_address
physical_bit w j = ground (arith, bit-bit_and w 0x000FFFFFFFFFF000 j, wide_bits j, bit-le w j)

low_bits_zero : (p j : ℕ) → p % 4096 ≡ 0 → j < 12 → bit p j ≡ 0
low_bits_zero p j aligned lt =
    let e : p ≡ p / 4096 * 2 ^ 12 = omega arith in ap (λ w. bit w j) e ∙ bit-low 12 (p / 4096) j lt

-- A word with the bits of the frame `p` at 12 to 43, and none at 44 to 51, leads to `p`.
frame_of_bits :
    (w p : ℕ)
    → p % 4096 ≡ 0
    → p < 2 ^ 44
    → ((j : ℕ) → 12 ≤ j → j < 52 → bit w j ≡ bit p j)
    → page_physical_address w ≡ p
frame_of_bits w p aligned small same = bits_ext (page_physical_address w) p λ j.
    elim (Bool-cases (ltb j 12)) [
      | inl lt ↦ ground (arith, physical_bit w j, low_bits_zero p j aligned)
      | inr ge ↦ ground (arith, physical_bit w j, bit-high 44 p j small, same j)
    ]

-- A table's entry in a cleared slot leads to the table.
pub set_page_entry-frame :
    (p : ℕ) → p % 4096 ≡ 0 → p < 2 ^ 44 → page_physical_address (set_page_entry 0 p false) ≡ p
set_page_entry-frame p aligned small =
    frame_of_bits (set_page_entry 0 p false) p aligned small λ j lo hi.
      ground
        (arith, set_page_entry-bits 0 p j false aligned small, bit-zero j, bit-high 44 p j small)

pub set_page_entry-present : (p : ℕ) → p % 4096 ≡ 0 → p < 2 ^ 44 → set_page_entry 0 p false % 2 ≡ 1
unfolding bit
set_page_entry-present p aligned small = set_page_entry-bits 0 p 0 false aligned small (omega arith)

flag_bits_low : (j : ℕ) → 2 ≤ j → (bit 1 j ≡ 0) × (bit 2 j ≡ 0)
flag_bits_low j h =
    (bit-high 1 1 j (omega arith) (omega arith), bit-high 2 2 j (omega arith) (omega arith))

-- `vmmgr_map_page` keeps bits 44 to 51 of the old word; with these clear the entry leads to `p`.
pub map_word-frame :
    (w p : ℕ)
    → page_physical_address w < 2 ^ 44
    → p % 4096 ≡ 0
    → p < 2 ^ 44
    → page_physical_address (map_word w p) ≡ p
unfolding map_word pt_entry_set_frame pt_entry_add_attrib
map_word-frame w p plain aligned small =
    let framed = bit_or (bit_and w (bit_not 0x00000FFFFFFFF000)) p in
    frame_of_bits (map_word w p) p aligned small λ j lo hi. ground (
      arith,
      bit-bit_or (bit_or framed 1) 2 j,
      bit-bit_or framed 1 j,
      flag_bits_low j,
      framed_bit w p j aligned small,
      physical_bit w j,
      bit-high 44 (page_physical_address w) j plain,
      bit-high 44 p j small,
      bit-le p j,
    )

pub map_word-present : (w p : ℕ) → map_word w p % 2 ≡ 1
unfolding map_word pt_entry_add_attrib bit
map_word-present w p =
    let framed = pt_entry_set_frame w p in
    omega (arith, bit-bit_or (bit_or framed 1) 2 0, bit-bit_or framed 1 0, bit-le framed 0)
