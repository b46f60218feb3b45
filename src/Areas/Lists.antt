-- ===== src/Areas/Lists.antt =====
-- The list of areas: making one and clearing all.
use course_project_os_integr.Base.{
  ℕ, zero, suc, ◌+◌, ◌-◌, ◌%◌, ◌^◌, ◌<◌, ◌≡◌, ◌≢◌, ◌⊎◌, inl, inr, refl, sym, ap, ◌∙◌, true, false,
  some, List, [], ◌∷◌, ◌++◌, arith, ◌==◌, ==_of_ne, eq_of_==, Bool-cases, if_false, if◌then◌else◌,
  length,
}
use mathlib.Core.Path.{subst}
use course_project_os_integr.Threads.{update}
use course_project_os_integr.Threads.Links.{NotIn, Distinct, update_same, update_other}
use course_project_os_integr.Processes.Children.{Chain, Chain-agree, Chain-append, last_of}
use course_project_os_integr.Heap.{Heap, sub_free}
use course_project_os_integr.Areas.{Areas, insert_vma, zero_area, mmap_area, clear_from, clear_vmas}

-- the last one of the list, if there is one
abbrev pub IsLast : ℕ → List ℕ → Type 0
IsLast c [] = Unit {0}
IsLast c (n ∷ ns) = c ≡ last_of n ns

-- The areas are the list `ns`, each once, and the cache is its last one.
pub record IsAreas (s : Areas) (ns : List ℕ) : Type 0 where
  pub chain : Chain s.vm_next s.mmap ns
  pub once : Distinct ns
  pub cache : IsLast s.mmap_cache ns

last_of-append : (n v : ℕ) (ns : List ℕ) → last_of n (ns ++ v ∷ []) ≡ v
unfolding last_of
last_of-append n v [] = refl
last_of-append n v (m ∷ ns) = last_of-append m v ns

last_of-nil : (n : ℕ) → last_of n [] ≡ n
unfolding last_of
last_of-nil n = refl

NotIn-append : (x v : ℕ) (ns : List ℕ) → NotIn x ns → v ≢ x → NotIn x (ns ++ v ∷ [])
unfolding NotIn
NotIn-append x v [] out ne = (ne, tt)
NotIn-append x v (n ∷ ns) (other, out) ne = (other, NotIn-append x v ns out ne)

Distinct-append : (v : ℕ) (ns : List ℕ) → Distinct ns → NotIn v ns → Distinct (ns ++ v ∷ [])
unfolding Distinct NotIn
Distinct-append v [] d out = (tt, tt)
Distinct-append v (n ∷ ns) (apart, d) (ne, out) =
    (NotIn-append n v ns apart (λ e. ne (sym e)), Distinct-append v ns d out)

insert_vma-IsAreas :
    (vma : ℕ) (s : Areas) (ns : List ℕ)
    → IsAreas s ns
    → vma ≢ 0
    → NotIn vma ns
    → IsAreas (insert_vma vma s) (ns ++ vma ∷ [])
unfolding insert_vma Chain Distinct NotIn
insert_vma-IsAreas vma s [] areas nz out =
    let none_yet : s.mmap ≡ 0 = areas.chain in
    record {
      chain = rw none_yet (refl, nz, update_same s.vm_next vma 0);
      once = (tt, tt);
      cache = sym (last_of-nil vma);
    }
insert_vma-IsAreas vma s (n ∷ ns) areas nz out =
    let (first, some_area, later) = areas.chain in
    let test : (s.mmap == 0) ≡ false = ==_of_ne s.mmap 0 (λ z. some_area (sym first ∙ z)) in
    let next = update s.vm_next vma 0 in
    let fresh : Chain next n (n ∷ ns) =
      Chain-agree s.vm_next next n vma (n ∷ ns) (λ z ne. update_other s.vm_next vma z 0 ne) out
        (refl, some_area, later) in
    let grown = Chain-append next n vma ns fresh areas.once nz (update_same s.vm_next vma 0) out in
    let linked =
      if_false (s.mmap == 0) next (update next s.mmap_cache vma) test
      ∙ ap (λ c. update next c vma) areas.cache in
    let head = if_false (s.mmap == 0) vma s.mmap test ∙ first in
    record {
      chain =
          subst (λ f. Chain f (if s.mmap == 0 then vma else s.mmap) (n ∷ (ns ++ vma ∷ [])))
            (sym linked)
            (subst (λ m. Chain (update next (last_of n ns) vma) m (n ∷ (ns ++ vma ∷ []))) (sym head)
              grown);
      once = Distinct-append vma (n ∷ ns) areas.once out;
      cache = sym (last_of-append n vma ns);
    }

-- `mmap` for a new area puts it at the end of the list, whatever length was asked for as one page from the
-- address on, and leaves the bounds of the other areas.
pub mmap_area-Added :
    (addr vma : ℕ) (s : Areas) (ns : List ℕ)
    → IsAreas s ns
    → vma ≢ 0
    → NotIn vma ns
    → let s' = mmap_area addr vma s in
      IsAreas s' (ns ++ vma ∷ [])
      × (s'.vm_start vma ≡ addr)
      × (s'.vm_end vma ≡ (addr + 0x1000) % 2 ^ 64)
      × ((n : ℕ) → n ≢ vma → (s'.vm_start n ≡ s.vm_start n) × (s'.vm_end n ≡ s.vm_end n))
unfolding mmap_area zero_area insert_vma
mmap_area-Added addr vma s ns areas nz out =
    let s1 = record (zero_area vma s) {
      vm_start = update (update s.vm_start vma 0) vma addr;
      vm_end = update (update s.vm_end vma 0) vma ((addr + 0x1000) % 2 ^ 64);
    } in
    (
      insert_vma-IsAreas vma s1 ns
          (record {
            chain =
                Chain-agree s.vm_next s1.vm_next s.mmap vma ns
                  (λ z ne. update_other s.vm_next vma z 0 ne) out areas.chain;
            once = areas.once;
            cache = areas.cache;
          })
          nz out,
      update_same (update s.vm_start vma 0) vma addr,
      update_same (update s.vm_end vma 0) vma ((addr + 0x1000) % 2 ^ 64),
      λ n ne. (
        update_other (update s.vm_start vma 0) vma n addr ne ∙ update_other s.vm_start vma n 0 ne,
        update_other (update s.vm_end vma 0) vma n ((addr + 0x1000) % 2 ^ 64) ne
            ∙ update_other s.vm_end vma n 0 ne,
      ),
    )

-- the block whose header lies in front of the area
abbrev pub block_of : ℕ → ℕ
block_of p = (p + 2 ^ 64 - 16) % 2 ^ 64

sub_free-free :
    (p b : ℕ) (h : Heap)
    → ((sub_free p h).free (block_of p) ≡ true)
      × (b ≢ block_of p → (sub_free p h).free b ≡ h.free b)
unfolding sub_free
sub_free-free p b h =
    (update_same h.free (block_of p) true, λ ne. update_other h.free (block_of p) b true ne)

unfoldable pub Among : ℕ → List ℕ → Type 0
Among b [] = ⊥
Among b (n ∷ ns) = (b ≡ block_of n) ⊎ Among b ns

unfoldable pub Apart : ℕ → List ℕ → Type 0
Apart b [] = Unit {0}
Apart b (n ∷ ns) = (b ≢ block_of n) × Apart b ns

-- The blocks of the areas are free, and the others are as they were.
pub record Freed (ns : List ℕ) (h h' : Heap) : Type 0 where
  pub freed : (b : ℕ) → Among b ns → h'.free b ≡ true
  pub kept : (b : ℕ) → Apart b ns → h'.free b ≡ h.free b

stays-free : (p b : ℕ) (h : Heap) → h.free b ≡ true → (sub_free p h).free b ≡ true
unfolding sub_free
stays-free p b h is_free = elim (Bool-cases (b == block_of p)) [
  | inl e ↦
      let at : b ≡ block_of p = eq_of_== b (block_of p) e in
      rw at (update_same h.free (block_of p) true)
  | inr e ↦ update_other h.free (block_of p) b true (λ at. absurd (ground arith)) ∙ is_free
]

zeroed-Chain :
    (n : ℕ) (s : Areas) (ns : List ℕ)
    → NotIn n ns
    → Chain s.vm_next (s.vm_next n) ns
    → Chain (zero_area n s).vm_next (s.vm_next n) ns
unfolding zero_area
zeroed-Chain n s ns apart c =
    Chain-agree s.vm_next (update s.vm_next n 0) (s.vm_next n) n ns
      (λ z ne. update_other s.vm_next n z 0 ne) apart c

clear_from-Freed :
    (fuel crawl : ℕ) (s : Areas) (h : Heap) (ns : List ℕ)
    → Chain s.vm_next crawl ns
    → Distinct ns
    → length ns < fuel
    → (s' : Areas) × (h' : Heap) × (clear_from fuel crawl s h ≡ some (s', h'))
      × ((b : ℕ) → h.free b ≡ true → h'.free b ≡ true)
      × Freed ns h h'
unfolding clear_from Chain Distinct Among Apart
clear_from-Freed zero crawl s h ns c d enough = absurd (omega arith)
clear_from-Freed (suc fuel) crawl s h [] c d enough =
    (s, h, rw c refl, λ b e. e, record { freed = λ b e. absurd e; kept = λ b e. refl })
clear_from-Freed (suc fuel) crawl s h (n ∷ ns) (e, nz, c) (apart, d) enough =
    let others : Chain (zero_area n s).vm_next (s.vm_next n) ns = zeroed-Chain n s ns apart c in
    let (s', h', runs, stays, done) =
      clear_from-Freed fuel (s.vm_next n) (zero_area n s) (sub_free n h) ns others d
        (omega arith) in
    (
      s',
      h',
      rw (e, ==_of_ne n 0 nz) runs,
      λ b is_free. stays b (stays-free n b h is_free),
      record {
        freed = λ b among. elim among [
          | inl here ↦ rw here (stays (block_of n) ((sub_free-free n n h).0))
          | inr later ↦ done.freed b later
        ];
        kept = λ b away. done.kept b away.1 ∙ (sub_free-free n b h).1 away.0;
      },
    )

-- `clear_vmas` on a list of areas, with more rounds than areas: it ends, the list is empty, the block in
-- front of each area is marked as free in the heap, and no other block's mark is changed.
pub clear_vmas-Freed :
    (fuel : ℕ) (s : Areas) (h : Heap) (ns : List ℕ)
    → IsAreas s ns
    → length ns < fuel
    → (s' : Areas) × (h' : Heap) × (clear_vmas fuel s h ≡ some (s', h'))
      × IsAreas s' []
      × Freed ns h h'
unfolding clear_vmas Chain Distinct
clear_vmas-Freed fuel s h ns areas enough =
    let (s', h', runs, _, done) =
      clear_from-Freed fuel s.mmap s h ns areas.chain areas.once enough in
    (
      record s' { mmap = 0; mmap_cache = 0 },
      h',
      rw runs refl,
      record { chain = refl; once = tt; cache = tt },
      done,
    )
