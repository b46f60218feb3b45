-- ===== src/Bitmap/Range.antt =====
-- `mmgr_get_first_range_free`: the run that it returns is free, and its loops end within their fuel.
use course_project_os_integr.Base.{
  ℕ, zero, suc, ◌+◌, ◌*◌, ◌/◌, ◌≤◌, ◌<◌, bit_and, ◌≡◌, inl, inr, refl, sym, ap, ◌∙◌, true, false,
  Option, none, some, List, arith, ltb, ◌==◌, Bool-cases, Option-cases, eq_of_==, get_elem?,
}
use mathlib.Core.Path.{subst}
use mathlib.Core.Option.{some-injective}
use course_project_os_integr.Bitmap.{
  Bitmap, Found, frame, no_frame, complete, broken, nothing, full_word, one_shl, is_block_free,
  run_from, range_round, range_in_word, range_from, get_first_range_free,
}

-- Every block of the run is free by `mmgr_is_block_free`.
abbrev pub FreeRun : List ℕ → ℕ → ℕ → Found → Type 0
FreeRun ws size i no_frame = Unit
FreeRun ws size i (frame b) =
    (0 < size) × (i ≤ b / 64) × ((k : ℕ) → k < size → is_block_free ws (b + k) ≡ some false)

run_from-complete :
    (left count b : ℕ) (ws : List ℕ)
    → run_from left count b ws ≡ some complete
    → (0 < left) × ((k : ℕ) → count ≤ k → k < count + left → is_block_free ws (b + k) ≡ some false)
unfolding run_from
run_from-complete zero count b ws h = absurd (ground arith)
run_from-complete (suc left) count b ws h = (
  omega arith,
  elim (Option-cases (is_block_free ws (b + count))) [
    | inl e ↦ absurd (ground arith)
    | inr (true, e) ↦ absurd (ground arith)
    | inr (false, e) ↦ λ k p q. elim (Bool-cases (k == count)) [
      | inl same ↦ ap (λ t. is_block_free ws (b + t)) (eq_of_== k count same) ∙ e
      | inr later ↦ elim (Bool-cases (left == 0)) [
        | inl done ↦ absurd (ground arith)
        | inr more ↦
            (run_from-complete left (suc count) b ws (
                rw
                  (← (
                    let go : run_from (suc left) count b ws ≡ run_from left (suc count) b ws =
                      rw (e, more) in
                    go))
                  h)).1
              k (ground arith) (omega arith)
      ]
    ]
  ],
)

-- the same of an outcome that may be a fault
abbrev Sound : List ℕ → ℕ → ℕ → Option Found → Type 0
Sound ws size i none = Unit
Sound ws size i (some f) = FreeRun ws size i f

module _ (size : ℕ) (ws : List ℕ) (i : ℕ) where
  range_round-Sound :
      (next : ℕ → Option Found) (j : ℕ)
      → ((k : ℕ) → Sound ws size i (next k))
      → j < 64
      → Sound ws size i (range_round next j size i ws)
  unfolding range_round
  range_round-Sound next j h inside = elim (Option-cases (get_elem? ws i)) [
    | inl e ↦ rw e tt
    | inr (w, e) ↦ elim (Bool-cases (bit_and w (one_shl j) == 0)) [
      | inr taken ↦ rw (e, taken) (h (j + 1))
      | inl clear ↦ elim (Option-cases (run_from size 0 (i * 64 + j) ws)) [
        | inl r ↦ rw (e, clear, r) tt
        | inr (nothing, r) ↦ rw (e, clear, r) (h (j + 1))
        | inr (broken count, r) ↦ rw (e, clear, r) (h (j + count + 1))
        | inr (complete, r) ↦
            let (some_left, free) = run_from-complete size 0 (i * 64 + j) ws r in
            rw (e, clear, r) (some_left, omega arith, λ k lt. free k (omega arith) (omega arith))
      ]
    ]
  ]

  range_in_word-Sound : (fuel j : ℕ) → Sound ws size i (range_in_word fuel j size i ws)
  unfolding range_in_word
  range_in_word-Sound zero j = tt
  range_in_word-Sound (suc fuel) j = elim (Bool-cases (ltb j 64)) [
    | inr past ↦ rw past tt
    | inl inside ↦ rw inside (
        range_round-Sound (λ k. range_in_word fuel k size i ws) j (range_in_word-Sound fuel)
          (ground arith))
  ]

  -- A round depends on what comes later only.
  range_round-later :
      (next other : ℕ → Option Found) (j : ℕ)
      → ((k : ℕ) → j < k → next k ≡ other k)
      → range_round next j size i ws ≡ range_round other j size i ws
  unfolding range_round
  range_round-later next other j h = elim (Option-cases (get_elem? ws i)) [
    | inl e ↦ rw e
    | inr (w, e) ↦ elim (Bool-cases (bit_and w (one_shl j) == 0)) [
      | inr taken ↦ rw (e, taken) (h (j + 1) (omega arith))
      | inl clear ↦ elim (Option-cases (run_from size 0 (i * 64 + j) ws)) [
        | inl r ↦ rw (e, clear, r)
        | inr (nothing, r) ↦ rw (e, clear, r) (h (j + 1) (omega arith))
        | inr (broken count, r) ↦ rw (e, clear, r) (h (j + count + 1) (omega arith))
        | inr (complete, r) ↦ rw (e, clear, r)
      ]
    ]
  ]

  past_word : (n j : ℕ) → 64 ≤ j → range_in_word n j size i ws ≡ some no_frame
  unfolding range_in_word
  past_word zero j q = refl
  past_word (suc n) j q = let out : ltb j 64 ≡ false = ground arith in rw out

  word_step :
      (n j : ℕ)
      → ltb j 64 ≡ true
      → range_in_word (suc n) j size i ws
        ≡ range_round (λ k. range_in_word n k size i ws) j size i ws
  unfolding range_in_word
  word_step n j h = rw h

  -- The loop over `j` leaves by its test `j < 64` when the fuel reaches to the end of the word.
  range_in_word-fuel :
      (fuel extra j : ℕ)
      → 64 ≤ j + fuel
      → range_in_word (fuel + extra) j size i ws ≡ range_in_word fuel j size i ws
  range_in_word-fuel zero extra j h =
      past_word (0 + extra) j (omega arith) ∙ sym (past_word 0 j (omega arith))
  range_in_word-fuel (suc fuel) extra j h = elim (Bool-cases (ltb j 64)) [
    | inr out ↦
        let q : 64 ≤ j = ground arith in
        past_word (suc fuel + extra) j q ∙ sym (past_word (suc fuel) j q)
    | inl inside ↦
        let e : suc fuel + extra ≡ suc (fuel + extra) = omega arith in
        ap (λ n. range_in_word n j size i ws) e
        ∙ word_step (fuel + extra) j inside
        ∙ range_round-later (λ k. range_in_word (fuel + extra) k size i ws)
            (λ k. range_in_word fuel k size i ws) j
            (λ k lt. range_in_word-fuel fuel extra k (omega arith))
        ∙ sym (word_step fuel j inside)
  ]

FreeRun-later :
    (ws : List ℕ) (size i : ℕ) (r : Found) → FreeRun ws size (suc i) r → FreeRun ws size i r
FreeRun-later ws size i no_frame h = tt
FreeRun-later ws size i (frame b) (p, q, h) = (p, omega arith, h)

range_from-Sound :
    (left i size : ℕ) (ws : List ℕ) (r : Found)
    → range_from left i size ws ≡ some r
    → FreeRun ws size i r
unfolding range_from
range_from-Sound zero i size ws r h = subst (FreeRun ws size i) (some-injective no_frame r h) tt
range_from-Sound (suc left) i size ws r h = elim (Option-cases (get_elem? ws i)) [
  | inl e ↦ absurd (ground arith)
  | inr (w, e) ↦ elim (Bool-cases (w == full_word)) [
    | inl full ↦
        FreeRun-later ws size i r (range_from-Sound left (suc i) size ws r (rw (e, full) at h))
    | inr part ↦ elim (Option-cases (range_in_word 64 0 size i ws)) [
      | inl f ↦ absurd (ground arith)
      | inr (no_frame, f) ↦
          FreeRun-later ws size i r (range_from-Sound left (suc i) size ws r (rw (e, part, f) at h))
      | inr (frame b, f) ↦
          subst (FreeRun ws size i) (some-injective (frame b) r (rw (e, part, f) at h))
            (subst (Sound ws size i) f (range_in_word-Sound size ws i 64 0))
    ]
  ]
]

-- Every block of a run that `mmgr_get_first_range_free` returns is free by `mmgr_is_block_free`.
pub get_first_range_free-FreeRun :
    (m : Bitmap) (size b k : ℕ)
    → get_first_range_free m size ≡ some (frame b)
    → k < size
    → is_block_free m.words (b + k) ≡ some false
unfolding get_first_range_free
get_first_range_free-FreeRun m size b k h lt =
    let (p, q, free) = range_from-Sound (m.max_blocks / 64) 0 size m.words (frame b) h in free k lt

-- The fuel of the loop over `j` is enough: any more of it gives the same result.
pub range_in_word-enough :
    (size i j extra : ℕ) (ws : List ℕ)
    → range_in_word (64 + extra) j size i ws ≡ range_in_word 64 j size i ws
range_in_word-enough size i j extra ws = range_in_word-fuel size ws i 64 extra j (omega arith)
