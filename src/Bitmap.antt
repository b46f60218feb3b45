-- ===== src/Bitmap.antt =====
-- The physical page allocator, sys/mm/mmgr.c: a bitmap with one bit for each 4 KB frame, and the
-- counters beside it. The library's `none` is an access outside the bitmap array.
--
-- `1 << n` is an `int` shift in the source. Its value is the one the x86-64 build computes: the
-- count is taken modulo 32, and the result is sign-extended when it meets a 64-bit word.
pub mod Masks
pub mod Slots
pub mod Search
pub mod Range
pub mod Blocks
pub mod Regions
pub mod History
use course_project_os_integr.Base.{
  ℕ, zero, suc, ◌+◌, ◌-◌, ◌*◌, ◌/◌, ◌%◌, ◌^◌, bit_and, bit_or, Bool, true, false, not, Option, none,
  some, List, ltb, leb, ◌==◌, if◌then◌else◌, length, get_elem?, set, ◌>>=◌, store,
}
use course_project_os_integr.Base.Bits.{bit_not}

-- `1 << j` as a 64-bit mask.
unfoldable pub one_shl : ℕ → ℕ
one_shl j = if (j % 32) == 31 then 2 ^ 64 - 2 ^ 31 else 2 ^ (j % 32)

pub record Bitmap : Type 0 where
  pub words : List ℕ
  pub used_blocks : ℕ
  pub max_blocks : ℕ

-- A block number, or the -1 of a search that found none.
pub data Found : Type 0 where
  frame : ℕ → Found
  no_frame : Found

abbrev pub full_word : ℕ
full_word = 2 ^ 64 - 1

abbrev pub block_size : ℕ
block_size = 4096

unfoldable pub get_total_usable_blocks : Bitmap → ℕ
get_total_usable_blocks m = (m.max_blocks + 2 ^ 64 - m.used_blocks) % 2 ^ 64

-- `used_blocks += n` and `used_blocks -= n` on a 64-bit counter.
abbrev pub count_up : ℕ → ℕ → ℕ
count_up used n = (used + n) % 2 ^ 64

abbrev pub count_down : ℕ → ℕ → ℕ
count_down used n = (used + 2 ^ 64 - n % 2 ^ 64) % 2 ^ 64

unfoldable pub set_block : List ℕ → ℕ → Option (List ℕ)
set_block ws b = get_elem? ws (b / 64) >>= λ w. store ws (b / 64) (bit_or w (one_shl (b % 64)))

unfoldable pub unset_block : List ℕ → ℕ → Option (List ℕ)
unset_block ws b =
    get_elem? ws (b / 64) >>= λ w. store ws (b / 64) (bit_and w (bit_not (one_shl (b % 64))))

-- Despite its name the C function is true of a block in use. `bool` is an `enum` of 32 bits, so
-- the upper half of the masked word is lost.
unfoldable pub is_block_free : List ℕ → ℕ → Option Bool
is_block_free ws b =
    get_elem? ws (b / 64) >>= λ w. some (not ((bit_and w (one_shl (b % 64)) % 2 ^ 32) == 0))

-- The inner loop of `mmgr_get_first_free` from bit `j`, with `left` rounds to go.
unfoldable pub first_clear : ℕ → ℕ → ℕ → Option ℕ
first_clear zero j w = none
first_clear (suc left) j w =
    let rest = first_clear left (suc j) w in if bit_and w (one_shl j) == 0 then some j else rest

-- The outer loop from word `i`.
unfoldable pub first_free_from : ℕ → ℕ → List ℕ → Option Found
first_free_from zero i ws = some no_frame
first_free_from (suc left) i ws =
    let rest = first_free_from left (suc i) ws in
    get_elem? ws i >>= λ w.
    if w == full_word
    then rest
    else elim (first_clear 64 0 w) [ none ↦ rest | some j ↦ some (frame (i * 64 + j)) ]

unfoldable pub get_first_free : Bitmap → Option Found
unfolding first_free_from first_clear
get_first_free m = first_free_from (m.max_blocks / 64) 0 m.words

-- What the innermost loop of `mmgr_get_first_range_free` does with a starting block: it reaches
-- `size`, meets a block in use after `count` others, or has nothing to do (`size` is 0).
pub data Run : Type 0 where
  complete : Run
  broken : ℕ → Run
  nothing : Run

unfoldable pub run_from : ℕ → ℕ → ℕ → List ℕ → Option Run
run_from zero count b ws = some nothing
run_from (suc left) count b ws =
    let rest = run_from left (suc count) b ws in
    is_block_free ws (b + count) >>= λ busy.
    if busy then some (broken count) else if left == 0 then some complete else rest

-- One round of the loop over `j`, which goes on with `next` at a later `j`.
unfoldable pub range_round : (ℕ → Option Found) → ℕ → ℕ → ℕ → List ℕ → Option Found
range_round next j size i ws = get_elem? ws i >>= λ w.
    if bit_and w (one_shl j) == 0
    then (run_from size 0 (i * 64 + j) ws >>= λ run. elim run [
      | complete ↦ some (frame (i * 64 + j))
      | broken count ↦ next (j + count + 1)
      | nothing ↦ next (j + 1)
    ])
    else next (j + 1)

-- The loop over `j`, whose body may move `j` forward; `fuel` bounds the rounds.
unfoldable pub range_in_word : ℕ → ℕ → ℕ → ℕ → List ℕ → Option Found
range_in_word zero j size i ws = some no_frame
range_in_word (suc fuel) j size i ws =
    let round = range_round (λ k. range_in_word fuel k size i ws) j size i ws in
    if ltb j 64 then round else some no_frame

unfoldable pub range_from : ℕ → ℕ → ℕ → List ℕ → Option Found
range_from zero i size ws = some no_frame
range_from (suc left) i size ws =
    let rest = range_from left (suc i) size ws in
    get_elem? ws i >>= λ w.
    if w == full_word
    then rest
    else range_in_word 64 0 size i ws >>= λ found. elim found [
      | frame b ↦ some (frame b)
      | no_frame ↦ rest
    ]

unfoldable pub get_first_range_free : Bitmap → ℕ → Option Found
unfolding range_from range_in_word range_round run_from is_block_free
get_first_range_free m size = range_from (m.max_blocks / 64) 0 size m.words

-- Addresses are numbers, and 0 is `NULL`.
unfoldable pub alloc_block : Bitmap → Option (Bitmap × ℕ)
unfolding get_first_free set_block get_total_usable_blocks
alloc_block m =
    if get_total_usable_blocks m == 0
    then some (m, 0)
    else get_first_free m >>= λ found. elim found [
      | no_frame ↦ some (m, 0)
      | frame b ↦ set_block m.words b >>= λ ws.
          some (
            record m { words = ws; used_blocks = count_up m.used_blocks 1 },
            b * block_size % 2 ^ 64,
          )
    ]

-- `for (i = 0; i < size; i++) mmgr_set_block(b + i)`, and the same with `mmgr_unset_block`.
unfoldable pub set_blocks : ℕ → ℕ → List ℕ → Option (List ℕ)
set_blocks zero b ws = some ws
set_blocks (suc n) b ws = set_block ws b >>= set_blocks n (suc b)

-- An `int` as a block of the array. `/` and `%` go towards 0, so that the block -k, for k from 1 to 63, is
-- the bit of word 0 with the shift of 64 - k. A lower number lies outside the array.
abbrev pub int_slot : ℕ → ℕ
int_slot b = if ltb (2 ^ 32 - 64) b then b - (2 ^ 32 - 64) else b

unfoldable pub unset_blocks : ℕ → ℕ → List ℕ → Option (List ℕ)
unset_blocks zero b ws = some ws
unset_blocks (suc n) b ws = unset_block ws (int_slot (b % 2 ^ 32)) >>= unset_blocks n (suc b)

unfoldable pub alloc_size_blocks : Bitmap → ℕ → Option (Bitmap × ℕ)
unfolding get_first_range_free set_blocks get_total_usable_blocks
alloc_size_blocks m size =
    if leb (get_total_usable_blocks m) size
    then some (m, 0)
    else get_first_range_free m size >>= λ found. elim found [
      | no_frame ↦ some (m, 0)
      | frame b ↦ set_blocks size b m.words >>= λ ws. some (
        record m { words = ws; used_blocks = count_up m.used_blocks size },
        b * block_size % 2 ^ 64,
      )
    ]

-- `(int)(p / BLOCK_SIZE)`. A number of 2^31 and up stands for a negative one.
abbrev pub frame_of : ℕ → ℕ
frame_of p = p / block_size % 2 ^ 32

unfoldable pub free_block : Bitmap → ℕ → Option Bitmap
unfolding unset_block
free_block m p =
    if p == 0
    then some m
    else unset_block m.words (int_slot (frame_of p)) >>= λ ws.
        some (record m { words = ws; used_blocks = count_down m.used_blocks 1 })

unfoldable pub free_size_blocks : Bitmap → ℕ → ℕ → Option Bitmap
unfolding unset_blocks
free_size_blocks m p size =
    if p == 0
    then some m
    else unset_blocks size (frame_of p) m.words >>= λ ws.
        some (record m { words = ws; used_blocks = count_down m.used_blocks size })
