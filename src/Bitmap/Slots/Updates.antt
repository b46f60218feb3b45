-- ===== src/Bitmap/Slots/Updates.antt =====
-- The updates of a bitmap as changes of slots.
use course_project_os_integr.Base.{
  ℕ, ◌/◌, ◌%◌, ◌^◌, ◌<◌, bit_and, bit_or, ◌≡◌, ◌≢◌, inl, inr, refl, sym, ap, ◌∙◌, Bool, true, false,
  not, ◌||◌, ◌&&◌, some, List, arith, ◌==◌, Bool-cases, eq_of_==, length, get_elem?, set,
  length-set, set-set, set-get_elem?, get_elem?-set_self, get_elem?-set_ne, get_elem?-some,
  get_elem?-lt, store, Option-cases,
}
use mathlib.Core.Path.{subst}
use course_project_os_integr.Base.Bits.{bit_not}
use course_project_os_integr.Base.Bits.Laws.{clear-set, bit_or-fits, bit_and-fits}
use course_project_os_integr.Bitmap.{one_shl, set_block, unset_block}
use course_project_os_integr.Bitmap.Masks.{mask-lt}
use course_project_os_integr.Bitmap.Slots.{
  busy-set, busy-unset, taken, same_slot, IsWords, slot_of, taken-word, update_taken,
}

store-inv : (ws : List ℕ) (i v : ℕ) {ws' : List ℕ} → store ws i v ≡ some ws' → ws' ≡ set ws i v
store-inv ws i v h = ground arith

pub store-ok : (ws : List ℕ) (i v : ℕ) → i < length ws → store ws i v ≡ some (set ws i v)
store-ok ws i v h = ground arith

store-IsWords : (ws : List ℕ) (i v : ℕ) → IsWords ws → v < 2 ^ 64 → IsWords (set ws i v)
store-IsWords ws i v h small j w e = elim (Bool-cases (i == j)) [
  | inl same ↦
      let q : i ≡ j = eq_of_== i j same in
      let inside : i < length ws =
        omega (arith, length-set ws i v, get_elem?-lt (set ws i v) j e) in
      ground (arith, get_elem?-set_self ws i v inside)
  | inr other ↦ let ne : i ≢ j = ground arith in ground (arith, get_elem?-set_ne ws i j v ne, h j w)
]

or-false : (x : Bool) → (x || false) ≡ x
or-false true = refl
or-false false = refl

and_not-false : (x : Bool) → (x && not false) ≡ x
and_not-false true = refl
and_not-false false = refl

pub mask_lt64 : (b : ℕ) → one_shl (b % 64) < 2 ^ 64
mask_lt64 b = rw (slot_of b) (mask-lt (b % 32) (omega arith))

module _ (ws : List ℕ) (b : ℕ) where
  pub set_block-some : b / 64 < length ws → (ws' : List ℕ) × (set_block ws b ≡ some ws')
  unfolding set_block
  set_block-some h =
      let (w, e) = get_elem?-some ws (b / 64) h in
      (set ws (b / 64) (bit_or w (one_shl (b % 64))), rw (e, store-ok ws (b / 64) _ h))

  pub unset_block-some : b / 64 < length ws → (ws' : List ℕ) × (unset_block ws b ≡ some ws')
  unfolding unset_block
  unset_block-some h =
      let (w, e) = get_elem?-some ws (b / 64) h in
      (set ws (b / 64) (bit_and w (bit_not (one_shl (b % 64)))), rw (e, store-ok ws (b / 64) _ h))

  -- the word that a successful update went through
  pub set_block-word :
      {ws' : List ℕ}
      → set_block ws b ≡ some ws'
      → (w : ℕ) × (get_elem? ws (b / 64) ≡ some w)
        × (ws' ≡ set ws (b / 64) (bit_or w (one_shl (b % 64))))
  unfolding set_block
  set_block-word h = elim (Option-cases (get_elem? ws (b / 64))) [
    | inl e ↦ cc (rw e at h)
    | inr (w, e) ↦ (w, e, store-inv ws (b / 64) _ (rw e at h))
  ]

  pub unset_block-word :
      {ws' : List ℕ}
      → unset_block ws b ≡ some ws'
      → (w : ℕ) × (get_elem? ws (b / 64) ≡ some w)
        × (ws' ≡ set ws (b / 64) (bit_and w (bit_not (one_shl (b % 64)))))
  unfolding unset_block
  unset_block-word h = elim (Option-cases (get_elem? ws (b / 64))) [
    | inl e ↦ cc (rw e at h)
    | inr (w, e) ↦ (w, e, store-inv ws (b / 64) _ (rw e at h))
  ]

  -- Setting a block marks its slot and no other.
  pub set_block-taken :
      (c : ℕ) {ws' : List ℕ}
      → set_block ws b ≡ some ws'
      → taken ws' c ≡ (taken ws c || same_slot b c)
  set_block-taken c h =
      let (w, e, q) = set_block-word h in
      ap (λ v. taken v c) (q ∙ ap (λ m. set ws (b / 64) (bit_or w m)) (slot_of b))
      ∙ update_taken ws b c w (bit_or w (one_shl (b % 32))) (λ x y. x || y) e
          (busy-set w (b % 32) (c % 32) (omega arith) (omega arith)) or-false

  -- Clearing a block frees its slot and no other.
  pub unset_block-taken :
      (c : ℕ) {ws' : List ℕ}
      → unset_block ws b ≡ some ws'
      → taken ws' c ≡ (taken ws c && not (same_slot b c))
  unset_block-taken c h =
      let (w, e, q) = unset_block-word h in
      ap (λ v. taken v c) (q ∙ ap (λ m. set ws (b / 64) (bit_and w (bit_not m))) (slot_of b))
      ∙ update_taken ws b c w (bit_and w (bit_not (one_shl (b % 32)))) (λ x y. x && not y) e
          (busy-unset w (b % 32) (c % 32) (omega arith) (omega arith)) and_not-false

  pub set_block-length : {ws' : List ℕ} → set_block ws b ≡ some ws' → length ws' ≡ length ws
  set_block-length h = let (w, e, q) = set_block-word h in ap length q ∙ length-set ws (b / 64) _

  pub unset_block-length : {ws' : List ℕ} → unset_block ws b ≡ some ws' → length ws' ≡ length ws
  unset_block-length h =
      let (w, e, q) = unset_block-word h in ap length q ∙ length-set ws (b / 64) _

  pub set_block-IsWords : IsWords ws → {ws' : List ℕ} → set_block ws b ≡ some ws' → IsWords ws'
  set_block-IsWords good h =
      let (w, e, q) = set_block-word h in
      let small = bit_or-fits 64 w (one_shl (b % 64)) (good (b / 64) w e) (mask_lt64 b) in
      subst IsWords (sym q) (store-IsWords ws (b / 64) _ good small)

  pub unset_block-IsWords : IsWords ws → {ws' : List ℕ} → unset_block ws b ≡ some ws' → IsWords ws'
  unset_block-IsWords good h =
      let (w, e, q) = unset_block-word h in
      let small = bit_and-fits 64 w (bit_not (one_shl (b % 64))) (good (b / 64) w e) in
      subst IsWords (sym q) (store-IsWords ws (b / 64) _ good small)

  -- Clearing a block that was just set gives the bitmap back, if its slot was free.
  pub unset-set :
      IsWords ws
      → taken ws b ≡ false
      → {ws' : List ℕ} → set_block ws b ≡ some ws'
      → unset_block ws' b ≡ some ws
  unfolding unset_block
  unset-set good free {ws'} h =
      let (w, e, q) = set_block-word h in
      let m = one_shl (b % 64) in
      let inside = get_elem?-lt ws (b / 64) e in
      let read : get_elem? ws' (b / 64) ≡ some (bit_or w m) =
        ap (λ v. get_elem? v (b / 64)) q ∙ get_elem?-set_self ws (b / 64) (bit_or w m) inside in
      let room : b / 64 < length ws' = omega (arith, set_block-length h) in
      let clear : bit_and w m ≡ 0 = ground (arith, taken-word ws (b / 64) w b e refl) in
      let word : bit_and (bit_or w m) (bit_not m) ≡ w =
        clear-set w m (good (b / 64) w e) (mask_lt64 b) clear in
      let back : set ws' (b / 64) (bit_and (bit_or w m) (bit_not m)) ≡ ws =
        ap (λ v. set v (b / 64) (bit_and (bit_or w m) (bit_not m))) q
        ∙ set-set ws (b / 64) (bit_or w m) (bit_and (bit_or w m) (bit_not m))
        ∙ ap (set ws (b / 64)) word
        ∙ set-get_elem? ws (b / 64) w e in
      rw read (store-ok ws' (b / 64) (bit_and (bit_or w m) (bit_not m)) room ∙ ap some back)
