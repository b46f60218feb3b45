-- ===== src/FileBlocks/Laws.antt =====
-- What `file_mmgr_alloc_block` and `file_mmgr_free_block` do.
use course_project_os_integr.Base.{
  ℕ, ◌/◌, ◌<◌, ◌≡◌, ◌⊎◌, inl, inr, refl, ap, true, false, not, ◌&&◌, some, arith, ◌==◌, Bool-cases,
  length,
}
use course_project_os_integr.Bitmap.{
  Bitmap, Found, frame, no_frame, count_up, count_down, frame_of, int_slot, get_first_free,
  get_total_usable_blocks,
}
use course_project_os_integr.Bitmap.Slots.{taken, same_slot}
use course_project_os_integr.Bitmap.Slots.Updates.{unset_block-taken, unset_block-some}
use course_project_os_integr.Bitmap.Search.{FirstFree, get_first_free-FirstFree}
use course_project_os_integr.Bitmap.Blocks.{IsBitmap, Allocated, alloc_frame}
use course_project_os_integr.FileBlocks.{
  file_mmgr_get_total_usable_blocks, file_mmgr_alloc_block, file_mmgr_free_block,
}

-- A block number and the change that goes with it, or -1 and no change.
abbrev pub FileOutcome : Bitmap → Bitmap × Found → Type 0
FileOutcome m (m', no_frame) =
    (m' ≡ m)
    × ((file_mmgr_get_total_usable_blocks m ≡ 0)
        ⊎ ((c : ℕ) → c / 64 < m.max_blocks / 64 → taken m.words c ≡ true))
FileOutcome m (m', frame b) = Allocated m b m'

-- `file_mmgr_alloc_block` on a well-formed bitmap touches nothing out of range. It returns the
-- first free block and marks that block's slot alone, or returns -1 and changes nothing, and then
-- the counters show no usable block or every block is taken.
pub file_mmgr_alloc_block-FileOutcome :
    (m : Bitmap)
    → IsBitmap m
    → (r : Bitmap × Found) × (file_mmgr_alloc_block m ≡ some r) × FileOutcome m r
unfolding file_mmgr_alloc_block
file_mmgr_alloc_block-FileOutcome m good = elim (Bool-cases (get_total_usable_blocks m == 0)) [
  | inl none_left ↦ (
    (m, no_frame),
    rw none_left,
    (refl, inl (unfold file_mmgr_get_total_usable_blocks in ground arith)),
  )
  | inr some_left ↦ go (get_first_free-FirstFree m good.covered) some_left
]
  where
    go :
        ((r : Found) × (get_first_free m ≡ some r) × FirstFree m.words 0 (m.max_blocks / 64) r)
        → (get_total_usable_blocks m == 0) ≡ false
        → (r : Bitmap × Found) × (file_mmgr_alloc_block m ≡ some r) × FileOutcome m r
    go (no_frame, e, full) some_left =
        ((m, no_frame), rw (some_left, e), (refl, inr (λ c lt. full c (omega arith) lt)))
    go (frame b, e, spec) some_left =
        let (ws, marked, done) = alloc_frame m good b spec in
        (
          (record m { words = ws; used_blocks = count_up m.used_blocks 1 }, frame b),
          rw (some_left, e, marked),
          done,
        )

-- `file_mmgr_free_block` takes an address where allocation returned a block number: given such a
-- number below 4096 it does not free that block but the slot of block 0.
pub file_mmgr_free_block-wrong_block :
    (m : Bitmap) (b : ℕ)
    → 0 < b
    → b < 4096
    → 0 < length m.words
    → (m' : Bitmap) × (file_mmgr_free_block m b ≡ some m')
      × ((c : ℕ) → taken m'.words c ≡ (taken m.words c && not (same_slot 0 c)))
unfolding file_mmgr_free_block
file_mmgr_free_block-wrong_block m b pos small inside =
    let zero_frame : frame_of b ≡ 0 = omega arith in
    let at : int_slot (frame_of b) ≡ 0 = ap int_slot zero_frame in
    let nonzero : (b == 0) ≡ false = ground arith in
    let (ws, e) = unset_block-some m.words 0 inside in
    (
      record m { words = ws; used_blocks = count_down m.used_blocks 1 },
      rw (nonzero, at, e),
      λ c. unset_block-taken m.words 0 c e,
    )
