-- ===== src/KernelPages/Laws.antt =====
-- The counters after initialisation, and what happens when the sixteen words are full.
use course_project_os_integr.Base.{
  ℕ, zero, suc, ◌+◌, ◌/◌, ◌≤◌, ◌<◌, ◌≡◌, ◌≢◌, ◌⊎◌, inl, inr, refl, ap, false, none, some, List, [],
  ◌∷◌, arith, ltb, ◌==◌, Bool-cases, length, get_elem?,
}
use course_project_os_integr.Bitmap.{
  Bitmap, full_word, first_free_from, get_first_free, get_total_usable_blocks, alloc_block,
}
use course_project_os_integr.KernelPages.{
  vmmgr_alloc_block, vmmgr_page_alloc, vmmgr_page_allocator_init,
}

-- every word of the array is full
abbrev pub AllFull : List ℕ → Type 0
AllFull [] = Unit
AllFull (w ∷ ws) = (w ≡ full_word) × AllFull ws

full_word_at :
    (ws : List ℕ) (i : ℕ) → AllFull ws → (get_elem? ws i ≡ none) ⊎ (get_elem? ws i ≡ some full_word)
full_word_at [] i h = inl refl
full_word_at (w ∷ ws) zero h = inr (ap some h.0)
full_word_at (w ∷ ws) (suc i) h = full_word_at ws i h.1

beyond : (ws : List ℕ) (i : ℕ) → length ws ≤ i → get_elem? ws i ≡ none
beyond [] i h = refl
beyond (w ∷ ws) zero h = absurd (omega arith)
beyond (w ∷ ws) (suc i) h = beyond ws i (omega arith)

search_overrun :
    (left i : ℕ) (ws : List ℕ)
    → AllFull ws
    → i ≤ length ws
    → length ws < i + left
    → first_free_from left i ws ≡ none
unfolding first_free_from
search_overrun zero i ws full p q = absurd (omega arith)
search_overrun (suc left) i ws full p q = elim (full_word_at ws i full) [
  | inl e ↦ rw e
  | inr e ↦
      let inside : i < length ws = elim (Bool-cases (ltb i (length ws))) [
        | inl lt ↦ ground arith
        | inr ge ↦ absurd (ground (arith, beyond ws i))
      ] in
      rw e (search_overrun left (suc i) ws full inside (omega arith))
]

-- 6144 blocks are counted, which are 96 words of bitmap, and the array has 16.
vmmgr_page_allocator_init-count :
    (vmmgr_page_allocator_init.0.max_blocks ≡ 6144)
    × (length vmmgr_page_allocator_init.0.words ≡ 16)
    × (vmmgr_page_allocator_init.1 ≡ 24)
unfolding vmmgr_page_allocator_init
vmmgr_page_allocator_init-count = (refl, refl, refl)

-- The array is too short for the blocks that are counted: once its sixteen words are full, and the
-- counters still show a usable block, `vmmgr_alloc_block` and `vmmgr_page_alloc` read past the end
-- of the array.
pub vmmgr_alloc_block-overrun :
    (m : Bitmap)
    → m.max_blocks ≡ 6144
    → length m.words ≡ 16
    → AllFull m.words
    → get_total_usable_blocks m ≢ 0
    → (vmmgr_alloc_block m ≡ none) × (vmmgr_page_alloc m ≡ none)
unfolding vmmgr_alloc_block vmmgr_page_alloc alloc_block get_first_free
vmmgr_alloc_block-overrun m count len full usable =
    let words : m.max_blocks / 64 ≡ 96 = omega arith in
    let some_left : (get_total_usable_blocks m == 0) ≡ false = ground arith in
    let out = search_overrun 96 0 m.words full (omega arith) (omega arith) in
    (rw (some_left, words, out), rw (some_left, words, out))
