-- ===== src/Bitmap/Regions/Reserved.antt =====
-- The blocks that `mm_phy_init` reserves stay reserved.
use course_project_os_integr.Base.{
  ℕ, ◌*◌, ◌/◌, ◌^◌, ◌≤◌, ◌<◌, ◌≡◌, ◌⊎◌, inl, inr, sym, ap, ◌∙◌, true, false, some, List, arith, ltb,
  Bool-cases,
}
use mathlib.Core.Option.{some-injective}
use course_project_os_integr.Bitmap.{Bitmap, block_size, alloc_block}
use course_project_os_integr.Bitmap.Slots.{taken, same_slot}
use course_project_os_integr.Bitmap.Blocks.{IsBitmap, Allocated, alloc_block-AllocOutcome}
use course_project_os_integr.Bitmap.History.{
  System, Step, alloc, refuse, free, Reach, start, then_step, IsSafe, Step-IsSafe, alloc-cases,
  free_held,
}
use course_project_os_integr.Bitmap.Regions.{Smap, mm_phy_init}
use course_project_os_integr.Bitmap.Regions.Boot.{mm_phy_init-Reserved}

-- The first 1024 blocks are marked, and nobody holds one of them.
record KeepsLow (s : System) : Type 0 where
  pub safe : IsSafe s
  pub low : (c : ℕ) → c < 1024 → taken s.map.words c ≡ true
  pub high : (b : ℕ) → s.held b ≡ true → 1024 ≤ b

-- a block that is handed out is none of them
Allocated-high :
    (m m' : Bitmap) (b : ℕ)
    → ((c : ℕ) → c < 1024 → taken m.words c ≡ true)
    → Allocated m b m'
    → 1024 ≤ b
Allocated-high m m' b low done = elim (Bool-cases (ltb b 1024)) [
  | inl lt ↦ absurd (ground (arith, low b, done.was_free))
  | inr ge ↦ ground arith
]

other_slot : (b c : ℕ) → 1024 ≤ b → c < 1024 → same_slot b c ≡ false
other_slot b c hb hc = ground arith

Step-KeepsLow : {s t : System} → Step s t → KeepsLow s → KeepsLow t
Step-KeepsLow (alloc {m} {m'} {held} b ne runs) k = elim (alloc-cases m m' b k.safe.good runs) [
  | inl (z, e) ↦ absurd (ne z)
  | inr done ↦
      let far = Allocated-high m m' b k.low done in
      record {
        safe = Step-IsSafe (alloc b ne runs) k.safe;
        low = λ c lt. ground (arith, done.slots c, k.low c lt);
        high = λ c h. ground (arith, k.high c, far);
      }
]
Step-KeepsLow (refuse {m} {m'} {held} runs) k = elim (alloc-cases m m' 0 k.safe.good runs) [
  | inl (z, e) ↦ record {
    safe = Step-IsSafe (refuse runs) k.safe;
    low = λ c lt. ap (λ n. taken n.words c) (sym e) ∙ k.low c lt;
    high = k.high;
  }
  | inr done ↦ absurd (omega (arith, Allocated-high m m' 0 k.low done))
]
Step-KeepsLow (free {m} {m'} {held} b h runs) k =
    let (n, e, gone) = free_held b h k.safe in
    let same : n ≡ m' = some-injective n m' (sym e ∙ runs) in
    record {
      safe = Step-IsSafe (free b h runs) k.safe;
      low = λ c lt.
          ap (λ n. taken n.words c) (sym same)
          ∙ ground (arith, gone.slots c, k.low c lt, other_slot b c (k.high b h) lt);
      high = λ c l. ground (arith, k.high c);
    }

Reach-KeepsLow : {s t : System} → KeepsLow s → Reach s t → KeepsLow t
Reach-KeepsLow k start = k
Reach-KeepsLow k (then_step r st) = Step-KeepsLow st (Reach-KeepsLow k r)

-- After boot no block of the first 4 MB is ever handed out: if the bitmap covers the usable memory, then
-- after any sequence of allocations, and of frees of blocks that were handed out and are held, an address
-- that `mmgr_alloc_block` returns is `NULL` or at least 4 MB.
pub mm_phy_init-alloc_block :
    (map : List Smap) (m m' : Bitmap) (size p : ℕ) (t : System)
    → mm_phy_init map ≡ some (m, size)
    → m.max_blocks / 64 ≤ 1200
    → m.used_blocks < 2 ^ 64
    → Reach (record { map = m; held = λ _. false }) t
    → alloc_block t.map ≡ some (m', p)
    → (p ≡ 0) ⊎ (1024 * block_size ≤ p)
mm_phy_init-alloc_block map m m' size p t h fits counter history runs =
    let (len, words, _, low) = mm_phy_init-Reserved map m size h in
    let good : IsBitmap m = record {
      covered = omega arith;
      small = omega arith;
      entries = words;
      counter = counter;
    } in
    let first : KeepsLow (record { map = m; held = λ _. false }) = record {
      safe = record {
        good = good;
        marked = λ b h. ground arith;
        in_range = λ b h. ground arith;
        apart = λ b c h k e. ground arith;
      };
      low = low;
      high = λ b h. ground arith;
    } in
    let now : KeepsLow t = Reach-KeepsLow first history in
    let ((n, q), ran, outcome) = alloc_block-AllocOutcome t.map now.safe.good in
    let same : q ≡ p = ap (λ r. r.1) (some-injective (n, q) (m', p) (sym ran ∙ runs)) in
    elim outcome [
      | inl (_, z, _) ↦ inl (sym same ∙ z)
      | inr (b, addr, _, done) ↦
          let far = Allocated-high t.map n b now.low done in inr (omega arith)
    ]
