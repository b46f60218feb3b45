-- ===== src/Bitmap/Search.antt =====
-- `mmgr_get_first_free`: the block it returns is the first free one.
use course_project_os_integr.Base.{
  ℕ, zero, suc, ◌+◌, ◌*◌, ◌/◌, ◌%◌, ◌≤◌, ◌<◌, ◌≡◌, inl, inr, refl, ap, ◌∙◌, true, false, not,
  bit_and, ltb, Option, none, some, List, arith, ◌==◌, Bool-cases, Option-cases, eq_of_==, length,
  get_elem?, get_elem?-some,
}
use course_project_os_integr.Bitmap.{
  Bitmap, Found, frame, no_frame, full_word, one_shl, first_clear, first_free_from, get_first_free,
}
use mathlib.Core.Path.{subst}
use course_project_os_integr.Bitmap.Masks.{one_shl-mod, mask-ne-zero, mask_of_full}
use course_project_os_integr.Bitmap.Slots.{busy, busy_in, taken}

-- the outcome of a search of one word from bit `j` up to bit `j + left`
abbrev pub FirstClear : ℕ → ℕ → ℕ → Option ℕ → Type 0
FirstClear w j end (some k) =
    (j ≤ k) × (k < end) × (busy w k ≡ false) × ((i : ℕ) → j ≤ i → i < k → busy w i ≡ true)
FirstClear w j end none = (i : ℕ) → j ≤ i → i < end → busy w i ≡ true

FirstClear-step :
    (w j end : ℕ) (r : Option ℕ)
    → busy w j ≡ true
    → FirstClear w (suc j) end r
    → FirstClear w j end r
FirstClear-step w j end none b h = λ i p q. elim (Bool-cases (i == j)) [
  | inl e ↦ ap (busy w) (eq_of_== i j e) ∙ b
  | inr n ↦ h i (ground arith) q
]
FirstClear-step w j end (some k) b (p, q, c, h) = (
  omega arith,
  q,
  c,
  λ i u v. elim (Bool-cases (i == j)) [
    | inl e ↦ ap (busy w) (eq_of_== i j e) ∙ b
    | inr n ↦ h i (ground arith) v
  ],
)

first_clear_lem : (left j end w : ℕ) → j + left ≡ end → FirstClear w j end (first_clear left j w)
unfolding first_clear
first_clear_lem zero j end w e = λ i p q. absurd (omega arith)
first_clear_lem (suc left) j end w e = elim (Bool-cases (busy w j)) [
  | inl b ↦
      let t : (bit_and w (one_shl j) == 0) ≡ false = ground arith in
      rw t (
        FirstClear-step w j end (first_clear left (suc j) w) b
          (first_clear_lem left (suc j) end w (omega arith)))
  | inr c ↦
      let t : (bit_and w (one_shl j) == 0) ≡ true = ground arith in
      rw t (omega arith, omega arith, c, λ i p q. absurd (omega arith))
]

busy-mod : (w j : ℕ) → busy w j ≡ busy w (j % 32)
busy-mod w j = ap (λ m. not (bit_and w m == 0)) (one_shl-mod j)

-- The clear bit found lies among the first 32, where the slots are told apart.
first_clear-lt : (w k : ℕ) → busy w k ≡ false → ((i : ℕ) → 0 ≤ i → i < k → busy w i ≡ true) → k < 32
first_clear-lt w k c h = elim (Bool-cases (ltb k 32)) [
  | inl p ↦ ground arith
  | inr q ↦ absurd (ground (arith, h (k % 32), busy-mod w k))
]

full-busy : (j : ℕ) → busy full_word j ≡ true
full-busy j = busy-mod full_word j ∙ ground (arith, mask_of_full (j % 32), mask-ne-zero (j % 32))

-- Blocks of the words `lo` to `hi - 1`: the first free one, told by number, or that there is none.
abbrev pub FirstFree : List ℕ → ℕ → ℕ → Found → Type 0
FirstFree ws lo hi (frame b) =
    (lo ≤ b / 64)
    × (b / 64 < hi)
    × (b % 64 < 32)
    × (taken ws b ≡ false)
    × ((c : ℕ) → lo ≤ c / 64 → c < b → taken ws c ≡ true)
FirstFree ws lo hi no_frame = (c : ℕ) → lo ≤ c / 64 → c / 64 < hi → taken ws c ≡ true

module _ (ws : List ℕ) where
  FirstFree-step :
      (i hi : ℕ) (r : Found)
      → ((c : ℕ) → c / 64 ≡ i → taken ws c ≡ true)
      → FirstFree ws (suc i) hi r
      → FirstFree ws i hi r
  FirstFree-step i hi no_frame full h = λ c p q. elim (Bool-cases (c / 64 == i)) [
    | inl e ↦ full c (eq_of_== (c / 64) i e)
    | inr n ↦ h c (ground arith) q
  ]
  FirstFree-step i hi (frame b) full (p, q, s, f, h) = (
    omega arith,
    q,
    s,
    f,
    λ c u v. elim (Bool-cases (c / 64 == i)) [
      | inl e ↦ full c (eq_of_== (c / 64) i e)
      | inr n ↦ h c (ground arith) v
    ],
  )

  word_taken :
      (i w : ℕ)
      → get_elem? ws i ≡ some w
      → ((j : ℕ) → 0 ≤ j → j < 64 → busy w j ≡ true)
      → (c : ℕ) → c / 64 ≡ i
      → taken ws c ≡ true
  word_taken i w e h c q =
      ap (λ o. busy_in o (c % 64)) (ap (get_elem? ws) q ∙ e)
      ∙ h (c % 64) (omega arith) (omega arith)

  word_hit :
      (i hi w k : ℕ)
      → get_elem? ws i ≡ some w
      → i < hi
      → FirstClear w 0 64 (some k)
      → FirstFree ws i hi (frame (i * 64 + k))
  word_hit i hi w k e lt (p, q, c, h) =
      let at : (i * 64 + k) / 64 ≡ i = omega arith in
      let here : (i * 64 + k) % 64 ≡ k = omega arith in
      (
        omega arith,
        omega arith,
        omega (arith, first_clear-lt w k c h),
        ap (λ o. busy_in o ((i * 64 + k) % 64)) (ap (get_elem? ws) at ∙ e) ∙ ap (busy w) here ∙ c,
        λ d u v.
            ap (λ o. busy_in o (d % 64))
              (ap (get_elem? ws) (let s : d / 64 ≡ i = omega arith in s) ∙ e)
            ∙ h (d % 64) (omega arith) (omega arith),
      )

  first_free_from_lem :
      (left i hi : ℕ)
      → i + left ≡ hi
      → hi ≤ length ws
      → (r : Found) × (first_free_from left i ws ≡ some r) × FirstFree ws i hi r
  unfolding first_free_from
  first_free_from_lem zero i hi e fits = (no_frame, refl, λ c p q. absurd (omega arith))
  first_free_from_lem (suc left) i hi e fits =
      let (w, got) = get_elem?-some ws i (omega arith) in
      let (r, runs, spec) = first_free_from_lem left (suc i) hi (omega arith) fits in
      elim (Bool-cases (w == full_word)) [
        | inl full ↦
            let q : w ≡ full_word = eq_of_== w full_word full in
            let all = word_taken i w got (λ j p s. ap (λ v. busy v j) q ∙ full-busy j) in
            (r, rw (got, full) runs, FirstFree-step i hi r all spec)
        | inr part ↦ elim (Option-cases (first_clear 64 0 w)) [
          | inl none_left ↦
              let all =
                word_taken i w got
                  (subst (FirstClear w 0 64) none_left (first_clear_lem 64 0 64 w refl)) in
              (r, rw (got, part, none_left) runs, FirstFree-step i hi r all spec)
          | inr (k, hit) ↦
              let there = subst (FirstClear w 0 64) hit (first_clear_lem 64 0 64 w refl) in
              (frame (i * 64 + k), rw (got, part, hit), word_hit i hi w k got (omega arith) there)
        ]
      ]

-- `mmgr_get_first_free` on a bitmap whose array holds `max_blocks / 64` words reads nothing out of
-- range and returns the free block with the least number, always one of the first 32 of its word,
-- or -1 when every block of those words is taken.
pub get_first_free-FirstFree :
    (m : Bitmap)
    → m.max_blocks / 64 ≤ length m.words
    → (r : Found) × (get_first_free m ≡ some r) × FirstFree m.words 0 (m.max_blocks / 64) r
unfolding get_first_free
get_first_free-FirstFree m fits =
    first_free_from_lem m.words (m.max_blocks / 64) 0 (m.max_blocks / 64) (omega arith) fits
