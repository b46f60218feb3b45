-- ===== src/PageTable/Pages.antt =====
-- The pages that `vmmgr_alloc_page` hands out do not overlap.
use mathlib.Core.Path.{subst}
use course_project_os_integr.Base.{ℕ, ◌+◌, ◌*◌, ◌^◌, ◌<◌, ◌≡◌, sym, ap, ◌∙◌, List, [], ◌∷◌, arith}
use course_project_os_integr.PageTable.{Bump, vmmgr_alloc_page}

-- The first address past what has been handed out.
abbrev pub frontier : Bump → ℕ
frontier s = s.bump_addr + 4096 * (s.prev_no_pages + 1)

-- The calls of a boot: the addresses returned for a list of requests.
unfoldable pub alloc_pages : List ℕ → Bump → Bump × List ℕ
alloc_pages [] s = (s, [])
alloc_pages (n ∷ ns) s =
    let (t, a) = vmmgr_alloc_page n s in let (u, as_) = alloc_pages ns t in (u, a ∷ as_)

-- total size of what the requests ask for
abbrev pub demand : List ℕ → ℕ
demand [] = 0
demand (n ∷ ns) = 4096 * (n + 1) + demand ns

-- The regions at these addresses follow one another from `lo` on without a gap.
abbrev pub Adjacent : ℕ → List ℕ → List ℕ → Type 0
Adjacent lo [] [] = Unit
Adjacent lo [] (a ∷ as_) = ⊥
Adjacent lo (n ∷ ns) [] = ⊥
Adjacent lo (n ∷ ns) (a ∷ as_) = (a ≡ lo) × Adjacent (a + 4096 * (n + 1)) ns as_

abbrev pub AllSmall : List ℕ → Type 0
AllSmall [] = Unit
AllSmall (n ∷ ns) = (n < 2 ^ 16) × AllSmall ns

-- While the address space lasts, each request of `page` extra pages gets the region of `page + 1`
-- pages that starts where the one before it ends: no two regions overlap, and none is wasted.
pub alloc_pages-Adjacent :
    (ns : List ℕ) (s : Bump)
    → AllSmall ns
    → frontier s + demand ns < 2 ^ 64
    → Adjacent (frontier s) ns (alloc_pages ns s).1
      × (frontier (alloc_pages ns s).0 ≡ frontier s + demand ns)
unfolding alloc_pages vmmgr_alloc_page
alloc_pages-Adjacent [] s small room = (tt, omega arith)
alloc_pages-Adjacent (n ∷ ns) s (p, small) room =
    let t = (vmmgr_alloc_page n s).0 in
    let at : t.bump_addr ≡ frontier s = omega arith in
    let next : frontier t ≡ frontier s + 4096 * (n + 1) = omega arith in
    let rest = alloc_pages-Adjacent ns t small (omega arith) in
    (
      (
        at,
        subst (λ lo. Adjacent lo ns (alloc_pages ns t).1)
            (next ∙ ap (λ (x : ℕ). x + 4096 * (n + 1)) (sym at)) rest.0,
      ),
      rest.1 ∙ omega arith,
    )
