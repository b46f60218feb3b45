-- ===== src/Bitmap/Blocks.antt =====
-- `mmgr_alloc_block` and `mmgr_free_block`.
use course_project_os_integr.Base.{ltb, if_false}
use course_project_os_integr.Base.{◌-◌, ◌^◌}
use course_project_os_integr.Base.{
  ℕ, ◌*◌, ◌/◌, ◌%◌, ◌^◌, ◌≤◌, ◌<◌, ◌≡◌, ◌≢◌, ◌⊎◌, inl, inr, refl, sym, ap, ◌∙◌, true, false, not,
  ◌||◌, ◌&&◌, some, List, arith, ◌==◌, Bool-cases, length,
}
use mathlib.Core.Path.{subst}
use mathlib.Core.Option.{some-injective}
use course_project_os_integr.Bitmap.{
  Bitmap, Found, frame, no_frame, block_size, count_up, count_down, frame_of, int_slot, set_block,
  unset_block, get_first_free, get_total_usable_blocks, alloc_block, free_block,
}
use course_project_os_integr.Bitmap.Slots.{taken, same_slot, IsWords}
use course_project_os_integr.Bitmap.Slots.Updates.{
  set_block-some, set_block-taken, unset-set, unset_block-some, unset_block-taken,
}
use course_project_os_integr.Bitmap.Search.{FirstFree, get_first_free-FirstFree}

-- The array holds a bit for each block that the search visits, its entries are 64-bit words, and
-- it is small enough for addresses not to wrap.
pub record IsBitmap (m : Bitmap) : Type 0 where
  pub covered : m.max_blocks / 64 ≤ length m.words
  pub small : length m.words ≤ 2 ^ 20
  pub entries : IsWords m.words
  pub counter : m.used_blocks < 2 ^ 64

-- Block `b` was free in `m`, is taken in `m'`, and nothing else changed but the counter.
pub record Allocated (m : Bitmap) (b : ℕ) (m' : Bitmap) : Type 0 where
  pub in_range : b / 64 < m.max_blocks / 64
  pub low_half : b % 64 < 32
  pub was_free : taken m.words b ≡ false
  pub marks : set_block m.words b ≡ some m'.words
  pub slots : (c : ℕ) → taken m'.words c ≡ (taken m.words c || same_slot b c)
  pub first : (c : ℕ) → c < b → taken m.words c ≡ true
  pub counts : m'.used_blocks ≡ count_up m.used_blocks 1
  pub same_max : m'.max_blocks ≡ m.max_blocks

-- What `mmgr_alloc_block` may do: give up and change nothing, or hand out a block's address.
abbrev pub AllocOutcome : Bitmap → Bitmap × ℕ → Type 0
AllocOutcome m (m', p) =
    ((m' ≡ m)
      × (p ≡ 0)
      × ((get_total_usable_blocks m ≡ 0)
          ⊎ ((c : ℕ) → c / 64 < m.max_blocks / 64 → taken m.words c ≡ true)))
    ⊎ ((b : ℕ) × (p ≡ b * block_size) × (get_total_usable_blocks m ≢ 0) × Allocated m b m')

module _ (m : Bitmap) (good : IsBitmap m) where
  pub alloc_frame :
      (b : ℕ)
      → FirstFree m.words 0 (m.max_blocks / 64) (frame b)
      → (ws : List ℕ) × (set_block m.words b ≡ some ws)
        × Allocated m b (record m { words = ws; used_blocks = count_up m.used_blocks 1 })
  alloc_frame b (p, q, s, f, h) =
      let (ws, e) = set_block-some m.words b (omega (arith, good.covered)) in
      (
        ws,
        e,
        record {
          in_range = q;
          low_half = s;
          was_free = f;
          marks = e;
          slots = λ c. set_block-taken m.words b c e;
          first = λ c lt. h c (omega arith) lt;
          counts = refl;
          same_max = refl;
        },
      )

-- `mmgr_alloc_block` reads and writes nothing out of range. It returns `NULL` and changes nothing
-- when the counters show no usable block or every block is taken. Otherwise it returns the address
-- of the first free block, marks that block's slot and no other, and counts it.
pub alloc_block-AllocOutcome :
    (m : Bitmap) → IsBitmap m → (r : Bitmap × ℕ) × (alloc_block m ≡ some r) × AllocOutcome m r
unfolding alloc_block
alloc_block-AllocOutcome m good = elim (Bool-cases (get_total_usable_blocks m == 0)) [
  | inl none_left ↦ ((m, 0), rw none_left, inl (refl, refl, inl (ground arith)))
  | inr some_left ↦ go (get_first_free-FirstFree m good.covered) some_left
]
  where
    go :
        ((r : Found) × (get_first_free m ≡ some r) × FirstFree m.words 0 (m.max_blocks / 64) r)
        → (get_total_usable_blocks m == 0) ≡ false
        → (r : Bitmap × ℕ) × (alloc_block m ≡ some r) × AllocOutcome m r
    go (no_frame, e, full) some_left =
        ((m, 0), rw (some_left, e), inl (refl, refl, inr (λ c lt. full c (omega arith) lt)))
    go (frame b, e, spec) some_left =
        let (ws, marked, done) = alloc_frame m good b spec in
        (
          (
            record m { words = ws; used_blocks = count_up m.used_blocks 1 },
            b * block_size % 2 ^ 64,
          ),
          rw (some_left, e, marked),
          inr (b, omega (arith, good.small, good.covered, done.in_range), ground arith, done),
        )

-- the counter goes back where it was
count_back : (used : ℕ) → used < 2 ^ 64 → count_down (count_up used 1) 1 ≡ used
count_back used h = omega arith

same_Bitmap :
    {m n : Bitmap}
    → m.words ≡ n.words
    → m.used_blocks ≡ n.used_blocks
    → m.max_blocks ≡ n.max_blocks
    → m ≡ n
same_Bitmap p q r = λ i. record { words = p i; used_blocks = q i; max_blocks = r i }

-- the slot of a block's address
int_slot-frame : (b : ℕ) → b < 2 ^ 27 → int_slot (frame_of (b * block_size)) ≡ b
int_slot-frame b small =
    let at : frame_of (b * block_size) ≡ b = omega arith in
    let low : ltb (2 ^ 32 - 64) b ≡ false = ground arith in
    ap int_slot at ∙ if_false (ltb (2 ^ 32 - 64) b) (b - (2 ^ 32 - 64)) b low

free_Allocated :
    (m m' : Bitmap) (b : ℕ)
    → IsBitmap m
    → Allocated m b m'
    → b ≢ 0
    → free_block m' (b * block_size) ≡ some m
unfolding free_block
free_Allocated m m' b good done ne =
    let at = int_slot-frame b (omega (arith, good.small, good.covered, done.in_range)) in
    let nonzero : (b * block_size == 0) ≡ false = ground arith in
    let undo = unset-set m.words b good.entries done.was_free done.marks in
    let counter : count_down m'.used_blocks 1 ≡ m.used_blocks =
      ap (λ u. count_down u 1) done.counts ∙ count_back m.used_blocks good.counter in
    rw (nonzero, at, undo) (ap some (same_Bitmap refl counter done.same_max))

-- Giving back the address that `mmgr_alloc_block` just returned restores the allocator's whole
-- state: every word of the bitmap and the counter.
pub free_block-alloc_block :
    (m m' : Bitmap) (p : ℕ)
    → IsBitmap m
    → alloc_block m ≡ some (m', p)
    → p ≢ 0
    → free_block m' p ≡ some m
unfolding free_block
free_block-alloc_block m m' p good runs ne =
    let ((n, q), ran, outcome) = alloc_block-AllocOutcome m good in
    let same : (n, q) ≡ (m', p) = some-injective (n, q) (m', p) (sym ran ∙ runs) in
    elim outcome [
      | inl (u, z, w) ↦ absurd (ne (sym (ap (λ r. r.1) same) ∙ z))
      | inr (b, addr, some_left, done) ↦
          let here : p ≡ b * block_size = sym (ap (λ r. r.1) same) ∙ addr in
          let done' = subst (Allocated m b) (ap (λ r. r.0) same) done in
          let nonzero : b ≢ 0 = λ z. ne (here ∙ ap (λ (t : ℕ). t * block_size) z) in
          ap (free_block m') here ∙ free_Allocated m m' b good done' nonzero
    ]

-- Block `b` is given back: its slot is cleared, and nothing else changed but the counter.
pub record Freed (m : Bitmap) (b : ℕ) (m' : Bitmap) : Type 0 where
  pub clears : unset_block m.words b ≡ some m'.words
  pub slots : (c : ℕ) → taken m'.words c ≡ (taken m.words c && not (same_slot b c))
  pub counts : m'.used_blocks ≡ count_down m.used_blocks 1
  pub same_max : m'.max_blocks ≡ m.max_blocks

-- `mmgr_free_block` of a block inside the bitmap succeeds, and clears that block's slot only.
pub free_block-Freed :
    (m : Bitmap) (b : ℕ)
    → b ≢ 0
    → b / 64 < length m.words
    → length m.words ≤ 2 ^ 20
    → (m' : Bitmap) × (free_block m (b * block_size) ≡ some m') × Freed m b m'
unfolding free_block
free_block-Freed m b ne inside small =
    let at = int_slot-frame b (omega arith) in
    let nonzero : (b * block_size == 0) ≡ false = ground arith in
    let (ws, e) = unset_block-some m.words b inside in
    (
      record m { words = ws; used_blocks = count_down m.used_blocks 1 },
      rw (nonzero, at, e),
      record {
        clears = e;
        slots = λ c. unset_block-taken m.words b c e;
        counts = refl;
        same_max = refl;
      },
    )
