-- ===== src/Bitmap/History.antt =====
-- Histories of the allocator: any sequence of `mmgr_alloc_block` calls and of `mmgr_free_block`
-- calls on blocks that are held.
use course_project_os_integr.Base.{
  ℕ, ◌*◌, ◌/◌, ◌<◌, ◌≡◌, ◌≢◌, ◌⊎◌, inl, inr, sym, ap, ◌∙◌, Bool, true, false, not, ◌||◌, ◌&&◌, some,
  arith, ◌==◌, length,
}
use mathlib.Core.Path.{subst}
use mathlib.Core.Option.{some-injective}
use course_project_os_integr.Bitmap.{Bitmap, block_size, alloc_block, free_block}
use course_project_os_integr.Bitmap.Slots.{taken, same_slot, taken-same_slot}
use course_project_os_integr.Bitmap.Slots.Updates.{
  unset_block-length, unset_block-IsWords, set_block-length, set_block-IsWords,
}
use course_project_os_integr.Bitmap.Blocks.{
  IsBitmap, Allocated, Freed, free_block-Freed, alloc_block-AllocOutcome,
}

-- The allocator and the set of the blocks that its clients hold.
pub record System : Type 0 where
  pub map : Bitmap
  pub held : ℕ → Bool

pub data Step : System → System → Type 0 where
  alloc :
      {m m' : Bitmap} {held : ℕ → Bool} (b : ℕ)
      → b ≢ 0
      → alloc_block m ≡ some (m', b * block_size)
      → Step (record { map = m; held = held }) (record { map = m'; held = λ c. held c || (b == c) })
  refuse :
      {m m' : Bitmap} {held : ℕ → Bool}
      → alloc_block m ≡ some (m', 0)
      → Step (record { map = m; held = held }) (record { map = m'; held = held })
  free :
      {m m' : Bitmap} {held : ℕ → Bool} (b : ℕ)
      → held b ≡ true
      → free_block m (b * block_size) ≡ some m'
      → Step
          (record { map = m; held = held })
          (record { map = m'; held = λ c. held c && not (b == c) })

pub data Reach (s : System) : System → Type 0 where
  start : Reach s s
  then_step : {t u : System} → Reach s t → Step t u → Reach s u

-- Held blocks are marked, lie in range and are told apart by the bitmap.
pub record IsSafe (s : System) : Type 0 where
  pub good : IsBitmap s.map
  pub marked : (b : ℕ) → s.held b ≡ true → taken s.map.words b ≡ true
  pub in_range : (b : ℕ) → s.held b ≡ true → (b / 64 < s.map.max_blocks / 64) × (b ≢ 0)
  pub apart : (b c : ℕ) → s.held b ≡ true → s.held c ≡ true → same_slot b c ≡ true → b ≡ c

block-injective : (b c : ℕ) → b * block_size ≡ c * block_size → b ≡ c
block-injective b c h = omega arith

-- what an allocation that returned the address of block `b` did
pub alloc-cases :
    (m m' : Bitmap) (b : ℕ)
    → IsBitmap m
    → alloc_block m ≡ some (m', b * block_size)
    → ((b ≡ 0) × (m ≡ m')) ⊎ Allocated m b m'
alloc-cases m m' b good runs =
    let ((n, q), ran, outcome) = alloc_block-AllocOutcome m good in
    let same : (n, q) ≡ (m', b * block_size) =
      some-injective (n, q) (m', b * block_size) (sym ran ∙ runs) in
    elim outcome [
      | inl (u, z, w) ↦
          inl (block-injective b 0 (sym (ap (λ r. r.1) same) ∙ z), sym u ∙ ap (λ r. r.0) same)
      | inr (c, addr, some_left, done) ↦
          let here : c ≡ b = block-injective c b (sym addr ∙ ap (λ r. r.1) same) in
          inr (subst (λ d. Allocated m d m') here (subst (Allocated m c) (ap (λ r. r.0) same) done))
    ]

pub Allocated-IsBitmap : {m m' : Bitmap} (b : ℕ) → IsBitmap m → Allocated m b m' → IsBitmap m'
Allocated-IsBitmap {m} {m'} b good done =
    let len : length m'.words ≡ length m.words = set_block-length m.words b done.marks in
    record {
      covered = ground (arith, len, good.covered, done.same_max);
      small = omega (arith, good.small);
      entries = set_block-IsWords m.words b good.entries done.marks;
      counter = omega (arith, done.counts);
    }

-- An allocation keeps what is held safe, and the new block is none of them.
alloc-IsSafe :
    {m m' : Bitmap} {held : ℕ → Bool} (b : ℕ)
    → IsSafe (record { map = m; held = held })
    → Allocated m b m'
    → IsSafe (record { map = m'; held = held })
alloc-IsSafe {m} {m'} {held} b safe done = record {
  good = Allocated-IsBitmap b safe.good done;
  marked = λ c h. ground (arith, done.slots c, safe.marked c);
  in_range = λ c h. ground (arith, safe.in_range c, done.same_max);
  apart = safe.apart;
}

not_held :
    {m m' : Bitmap} {held : ℕ → Bool} (b c : ℕ)
    → IsSafe (record { map = m; held = held })
    → Allocated m b m'
    → held c ≡ true
    → same_slot b c ≡ true
    → ⊥
not_held {m} b c safe done h same =
    ground (arith, taken-same_slot m.words b c, safe.marked c, done.was_free)

-- the four cases of two blocks held after `b` was added
apart_with :
    {m m' : Bitmap} {held : ℕ → Bool} (b : ℕ)
    → IsSafe (record { map = m; held = held })
    → Allocated m b m'
    → (c d : ℕ) → (held c || (b == c)) ≡ true
    → (held d || (b == d)) ≡ true
    → same_slot c d ≡ true
    → c ≡ d
apart_with b safe done c d h k e =
    ground (arith, safe.apart c d, not_held b c safe done, not_held b d safe done)

take-IsSafe :
    {m m' : Bitmap} {held : ℕ → Bool} (b : ℕ)
    → b ≢ 0
    → IsSafe (record { map = m; held = held })
    → Allocated m b m'
    → IsSafe (record { map = m'; held = λ c. held c || (b == c) })
take-IsSafe {m} {m'} {held} b ne safe done =
    let old : IsSafe (record { map = m'; held = held }) = alloc-IsSafe b safe done in
    record {
      good = old.good;
      marked = λ c h. ground (arith, old.marked c, done.slots b, done.slots c);
      in_range = λ c h. ground (arith, old.in_range c, done.in_range, done.same_max);
      apart = apart_with b safe done;
    }

drop-IsSafe :
    {m m' : Bitmap} {held : ℕ → Bool} (b : ℕ)
    → held b ≡ true
    → IsSafe (record { map = m; held = held })
    → Freed m b m'
    → IsSafe (record { map = m'; held = λ c. held c && not (b == c) })
drop-IsSafe {m} {m'} b h safe gone =
    let len : length m'.words ≡ length m.words = unset_block-length m.words b gone.clears in
    record {
      good = record {
        covered = ground (arith, len, safe.good.covered, gone.same_max);
        small = omega (arith, safe.good.small);
        entries = unset_block-IsWords m.words b safe.good.entries gone.clears;
        counter = omega (arith, gone.counts);
      };
      marked = λ c k. ground (arith, safe.marked c, gone.slots c, safe.apart b c);
      in_range = λ c k. ground (arith, safe.in_range c, gone.same_max);
      apart = λ c d k l e. ground (arith, safe.apart c d);
    }

-- A held block can always be given back.
pub free_held :
    {m : Bitmap} {held : ℕ → Bool} (b : ℕ)
    → held b ≡ true
    → IsSafe (record { map = m; held = held })
    → (m' : Bitmap) × (free_block m (b * block_size) ≡ some m') × Freed m b m'
free_held {m} b h safe =
    let (lt, ne) = safe.in_range b h in
    free_block-Freed m b ne (omega (arith, safe.good.covered)) safe.good.small

pub Step-IsSafe : {s t : System} → Step s t → IsSafe s → IsSafe t
Step-IsSafe (alloc {m} {m'} b ne runs) safe = elim (alloc-cases m m' b safe.good runs) [
  | inl (z, e) ↦ absurd (ne z)
  | inr done ↦ take-IsSafe b ne safe done
]
Step-IsSafe (refuse {m} {m'} {held} runs) safe = elim (alloc-cases m m' 0 safe.good runs) [
  | inl (z, e) ↦ subst (λ n. IsSafe (record { map = n; held = held })) e safe
  | inr done ↦ alloc-IsSafe 0 safe done
]
Step-IsSafe (free {m} {m'} {held} b h runs) safe =
    let (n, e, gone) = free_held b h safe in
    let same : n ≡ m' = some-injective n m' (sym e ∙ runs) in
    drop-IsSafe b h safe (subst (Freed m b) same gone)

-- After any sequence of allocations and of frees of held blocks the held blocks are marked in
-- the bitmap, lie in its range, and no two of them share a slot.
pub Reach-IsSafe : {s t : System} → IsSafe s → Reach s t → IsSafe t
Reach-IsSafe safe start = safe
Reach-IsSafe safe (then_step r st) = Step-IsSafe st (Reach-IsSafe safe r)

-- No double allocation: after any such sequence, a block that `mmgr_alloc_block` hands out is not
-- held by anybody.
pub no_double_allocation :
    {s t : System} (b : ℕ) (m' : Bitmap)
    → IsSafe s
    → Reach s t
    → b ≢ 0
    → alloc_block t.map ≡ some (m', b * block_size)
    → t.held b ≡ false
no_double_allocation {t} b m' safe r ne runs =
    let now : IsSafe t = Reach-IsSafe safe r in
    elim (alloc-cases t.map m' b now.good runs) [
      | inl (z, e) ↦ absurd (ne z)
      | inr done ↦ ground (arith, now.marked b, done.was_free)
    ]
