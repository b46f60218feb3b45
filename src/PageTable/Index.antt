-- ===== src/PageTable/Index.antt =====
-- The index macros take nine bits of an address.
use course_project_os_integr.Base.{ℕ, ◌+◌, ◌*◌, ◌/◌, ◌%◌, ◌^◌, ◌<◌, ◌≡◌, bit_and, arith}
use course_project_os_integr.Base.Bits.{bit_and_step}
use course_project_os_integr.Base.Bits.Laws.{bit_and-zero}
use course_project_os_integr.PageTable.{
  page_table_offset, page_directory_offset, page_pointer_offset, page_pml4_offset,
}

-- One more bit of the mask at a time.
pub mask_1 : (a : ℕ) → bit_and a 1 ≡ a % 2
mask_1 a = omega (arith, bit_and_step a 1, bit_and-zero (a / 2))

mask_2 : (a : ℕ) → bit_and a 3 ≡ a % 4
mask_2 a = omega (arith, bit_and_step a 3, mask_1 (a / 2))

mask_3 : (a : ℕ) → bit_and a 7 ≡ a % 8
mask_3 a = omega (arith, bit_and_step a 7, mask_2 (a / 2))

mask_6 : (a : ℕ) → bit_and a 63 ≡ a % 64
mask_6 a = omega (
  arith,
  bit_and_step a 63,
  bit_and_step (a / 2) 31,
  bit_and_step (a / 2 / 2) 15,
  mask_3 (a / 2 / 2 / 2),
)

pub mask_9 : (a : ℕ) → bit_and a 0x1FF ≡ a % 512
mask_9 a = omega (
  arith,
  bit_and_step a 511,
  bit_and_step (a / 2) 255,
  bit_and_step (a / 2 / 2) 127,
  mask_6 (a / 2 / 2 / 2),
)

pub page_table_offset_lem : (x : ℕ) → page_table_offset x ≡ x / 2 ^ 12 % 512
unfolding page_table_offset
page_table_offset_lem x = mask_9 (x / 2 ^ 12)

pub page_directory_offset_lem : (x : ℕ) → page_directory_offset x ≡ x / 2 ^ 21 % 512
unfolding page_directory_offset
page_directory_offset_lem x = mask_9 (x / 2 ^ 21)

pub page_pointer_offset_lem : (x : ℕ) → page_pointer_offset x ≡ x / 2 ^ 30 % 512
unfolding page_pointer_offset
page_pointer_offset_lem x = mask_9 (x / 2 ^ 30)

pub page_pml4_offset_lem : (x : ℕ) → page_pml4_offset x ≡ x / 2 ^ 39 % 512
unfolding page_pml4_offset
page_pml4_offset_lem x = mask_9 (x / 2 ^ 39)

-- The four indices and the offset in the page determine an address of 48 bits.
pub offsets_rebuild :
    (x : ℕ)
    → x < 2 ^ 48
    → ((page_pml4_offset x * 512 + page_pointer_offset x) * 512 + page_directory_offset x)
          * 512
          * 4096
        + page_table_offset x * 4096
        + x % 4096
      ≡ x
offsets_rebuild x h = omega (
  arith,
  page_table_offset_lem x,
  page_directory_offset_lem x,
  page_pointer_offset_lem x,
  page_pml4_offset_lem x,
)
