-- ===== src/Heap/Reuse.antt =====
-- The first block of the heap.
use course_project_os_integr.Base.{
  ℕ, suc, ◌+◌, ◌-◌, ◌%◌, ◌^◌, ◌≤◌, ◌≡◌, ◌≢◌, inl, inr, refl, sym, ap, ◌∙◌, true, false, some, arith,
  leb, ◌==◌, ==_of_ne, eq_of_==, Bool, Bool-cases, if_true, >>=-eq-some,
}
use mathlib.Core.Path.{subst}
use mathlib.Core.Option.{some-injective}
use course_project_os_integr.PageTable.{vmmgr_alloc_page}
use course_project_os_integr.Threads.{update}
use course_project_os_integr.Threads.Links.{update_same, update_other}
use course_project_os_integr.Heap.{
  Heap, find_from, find_block, extend_heap, split_block, split_at, take_block, payload,
  malloc_block,
}

-- the first block of the heap is free
record Ready (h : Heap) (b s : ℕ) : Type 0 where
  pub first : h.base ≡ b
  pub some_block : b ≢ 0
  pub is_free : h.free b ≡ true
  pub has_size : h.size b ≡ s

free-update : (f : ℕ → Bool) (a b : ℕ) → f b ≡ true → update f a true b ≡ true
free-update f a b h = elim (Bool-cases (b == a)) [
  | inl e ↦ let same : b ≡ a = eq_of_== b a e in rw same (update_same f a true)
  | inr e ↦ update_other f a b true (λ same. absurd (ground arith)) ∙ h
]

extended :
    (h h₁ : Heap) (last b : ℕ) → extend_heap h last ≡ some (h₁, b) → (b ≢ 0) × (h₁.free b ≡ true)
unfolding extend_heap
extended h h₁ last b e =
    let addr = (vmmgr_alloc_page 0 h.bump).1 in
    elim (Bool-cases (addr == 0)) [
      | inl z ↦ absurd (ground arith)
      | inr nz ↦
          let same = some-injective _ (h₁, b) (rw nz at e) in
          let at : addr ≡ b = ap (λ r. r.1) same in
          (
            λ z. absurd (ground arith),
            ap (λ r. r.0.free b) (sym same)
                ∙ ap (λ a. update h.free a true b) at
                ∙ update_same h.free b true,
          )
    ]

split-Ready :
    (h₁ : Heap) (b s : ℕ)
    → b ≢ 0
    → h₁.free b ≡ true
    → Ready (split_block b s (record h₁ { base = b })) b s
unfolding split_block
split-Ready h₁ b s nz is_free = record {
  first = refl;
  some_block = nz;
  is_free = free-update h₁.free (split_at b s) b is_free;
  has_size =
      update_same
        (update h₁.size (split_at b s) ((h₁.size b + 2 ^ 16 - (s + 16) % 2 ^ 16) % 2 ^ 16)) b s;
}

first-Ready :
    (fuel s p : ℕ) (h h' : Heap)
    → h.base ≡ 0
    → malloc_block fuel s h ≡ some (h', p)
    → (b : ℕ) × (p ≡ payload b) × Ready h' b s
unfolding malloc_block
first-Ready fuel s p h h' empty run =
    let test : (h.base == 0) ≡ true = ground (arith, empty) in
    let ((h₁, b), ext, done) =
      >>=-eq-some (extend_heap h h.last)
        (λ (h₁, b). some (split_block b s (record h₁ { base = b }), payload b))
        (sym (if_true (h.base == 0) _ _ test) ∙ run) in
    let (nz, is_free) = extended h h₁ h.last b ext in
    let same = some-injective (split_block b s (record h₁ { base = b }), payload b) (h', p) done in
    (
      b,
      sym (ap (λ r. r.1) same),
      subst (λ u. Ready u b s) (ap (λ r. r.0) same) (split-Ready h₁ b s nz is_free),
    )

Ready-again :
    (more t b s : ℕ) (h : Heap)
    → Ready h b s
    → t ≤ s
    → (h' : Heap) × (malloc_block (suc more) t h ≡ some (h', payload b))
unfolding malloc_block find_block find_from
Ready-again more t b s h ready le =
    let some_base : (h.base == 0) ≡ false =
      ==_of_ne h.base 0 (λ e. ready.some_block (sym ready.first ∙ e)) in
    let is_free : h.free h.base ≡ true = ap h.free ready.first ∙ ready.is_free in
    let large : h.size h.base ≡ s = ap h.size ready.first ∙ ready.has_size in
    let fits : leb t (h.size h.base) ≡ true = rw large (ground arith) in
    (
      take_block h.base t (record h { last = h.base }),
      rw (some_base, is_free, fits, some_base)
          (ap (λ q. some (take_block h.base t (record h { last = h.base }), payload q))
            ready.first),
    )

-- `extend_heap` and the allocation after it leave the new block marked as free. So on an empty heap the
-- block of the first allocation is handed out again to the next request of at most its size.
pub malloc_block-hands_out_twice :
    (fuel more s t p : ℕ) (h h' : Heap)
    → h.base ≡ 0
    → malloc_block fuel s h ≡ some (h', p)
    → t ≤ s
    → (h'' : Heap) × (malloc_block (suc more) t h' ≡ some (h'', p))
malloc_block-hands_out_twice fuel more s t p h h' empty first le =
    let (b, at, ready) = first-Ready fuel s p h h' empty first in
    let (h'', again) = Ready-again more t b s h' ready le in
    (h'', again ∙ ap (λ q. some (h'', q)) (sym at))
