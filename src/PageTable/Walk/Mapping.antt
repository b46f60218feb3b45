-- ===== src/PageTable/Walk/Mapping.antt =====
-- `vmmgr_map_page` against the processor's walk.
use course_project_os_integr.Base.{
  ℕ, ◌+◌, ◌*◌, ◌/◌, ◌%◌, ◌^◌, ◌≤◌, ◌<◌, ◌≡◌, ◌≢◌, inl, inr, sym, ap, ◌∙◌, true, false, some, arith,
  ◌==◌, Bool-cases,
}
use course_project_os_integr.PageTable.{
  vmmgr_ptable_lookup_entry, vmmgr_page_directory_lookup_entry,
  vmmgr_page_pointer_directory_lookup_entry, vmmgr_pml4_directory_lookup_entry,
}
use course_project_os_integr.PageTable.Index.{
  page_table_offset_lem, page_directory_offset_lem, page_pointer_offset_lem, page_pml4_offset_lem,
}
use course_project_os_integr.PageTable.Walk.{Machine, Ran, put, page_physical_address}
use course_project_os_integr.PageTable.Walk.Mmu.{lead, index4, index3, index2, index1, translate}
use course_project_os_integr.PageTable.Walk.Tree.{IsTree}
use course_project_os_integr.PageTable.Walk.Path.{
  IsPath, IsPath-moves, IsPath-translate, Extends-IsLink, level_below, lead-present, lead-eq-some,
  same_page, translate-IsPath,
}
use course_project_os_integr.PageTable.Walk.Fresh.{Extends, same_slot_of}

module _ (p v : ℕ) (nz : p ≢ 0) (small : p < 2 ^ 44) where
  pub entry4 : vmmgr_pml4_directory_lookup_entry p v ≡ p + 8 * index4 v
  unfolding vmmgr_pml4_directory_lookup_entry
  entry4 = ground (arith, page_pml4_offset_lem v)

  pub entry3 : vmmgr_page_pointer_directory_lookup_entry p v ≡ p + 8 * index3 v
  unfolding vmmgr_page_pointer_directory_lookup_entry
  entry3 = ground (arith, page_pointer_offset_lem v)

  pub entry2 : vmmgr_page_directory_lookup_entry p v ≡ p + 8 * index2 v
  unfolding vmmgr_page_directory_lookup_entry
  entry2 = ground (arith, page_directory_offset_lem v)

  pub entry1 : vmmgr_ptable_lookup_entry p v ≡ p + 8 * index1 v
  unfolding vmmgr_ptable_lookup_entry
  entry1 = ground (arith, page_table_offset_lem v)

module _ (s : Machine) (level owner : ℕ → ℕ) (tree : IsTree s level owner) (q i w : ℕ)
    (bottom : level q ≡ 1) (lt : i < 512) (plain : page_physical_address w < 2 ^ 44) where
  -- a write to a page table changes no slot above level 1
  above_same :
      (x j : ℕ) → 2 ≤ level x → j < 512 → put s.mem (q + 8 * i) w (x + 8 * j) ≡ s.mem (x + 8 * j)
  above_same x j two hj =
      let ne : x + 8 * j ≢ q + 8 * i = λ h.
        let same =
          same_slot_of x j q i (tree.pages x (omega arith)).0 (tree.pages q (omega arith)).0 hj lt
            h in
        absurd (omega (arith, ap level same)) in
      ground arith

  pub put-IsTree : IsTree (record s { mem = put s.mem (q + 8 * i) w }) level owner
  put-IsTree = record {
    top = tree.top;
    pages = tree.pages;
    slots = λ x j two hj away. rw (above_same x j two hj) (tree.slots x j two hj away);
    plain = λ x j why al hj. elim (Bool-cases (x + 8 * j == q + 8 * i)) [
      | inl e ↦ rw e plain
      | inr e ↦ rw e (tree.plain x j why al hj)
    ];
    marked = tree.marked;
    good = tree.good;
  }

  put-IsPath :
      (v a b c : ℕ)
      → IsPath s.mem level owner s.base_pointer v a b c
      → IsPath (put s.mem (q + 8 * i) w) level owner s.base_pointer v a b c
  put-IsPath v a b c path =
      IsPath-moves s.mem (put s.mem (q + 8 * i) w) level owner level owner s.base_pointer v a b c
        tree.top (λ l e x two link. link) (λ x j two hj here. above_same x j two hj) path

Extends-IsPath :
    (s t : Machine) (level owner level' owner' : ℕ → ℕ) (v a b c : ℕ)
    → level s.base_pointer ≡ 4
    → Extends s t level owner level' owner'
    → IsPath s.mem level owner s.base_pointer v a b c
    → IsPath t.mem level' owner' s.base_pointer v a b c
Extends-IsPath s t level owner level' owner' v a b c top ext path =
    IsPath-moves s.mem t.mem level owner level' owner' s.base_pointer v a b c top
      (λ l e w two link. Extends-IsLink l e w ext two link)
      (λ q i two lt here. ext.kept q i (omega arith) lt here) path

-- What a run on a tree leaves: a tree, with all that was mapped before still mapped to the same frames
-- except the page of `virt`, which is mapped to `phys` unless the run panicked.
pub record Mapped (s : Machine) (phys virt : ℕ) (r : Ran) : Type 0 where
  pub level' : ℕ → ℕ
  pub owner' : ℕ → ℕ
  pub tree : IsTree r.machine level' owner'
  pub same_base : r.machine.base_pointer ≡ s.base_pointer
  pub maps : r.panicked ≡ false → translate r.machine.mem s.base_pointer virt ≡ some phys
  pub keeps :
      (v f : ℕ)
      → index4 v ≢ 510
      → v / 2 ^ 12 % 2 ^ 36 ≢ virt / 2 ^ 12 % 2 ^ 36
      → translate s.mem s.base_pointer v ≡ some f
      → translate r.machine.mem s.base_pointer v ≡ some f

-- An address that is mapped stays mapped to its frame while tables are added.
pub Extends-translate :
    (s t : Machine) (level owner level' owner' : ℕ → ℕ) (v f : ℕ)
    → IsTree s level owner
    → Extends s t level owner level' owner'
    → index4 v ≢ 510
    → translate s.mem s.base_pointer v ≡ some f
    → translate t.mem t.base_pointer v ≡ some f
Extends-translate s t level owner level' owner' v f tree ext ne h =
    let (a, b, c, path, last) = translate-IsPath s level owner v f tree ne h in
    let (lc, _) = level_below level owner 1 _ _ c path.link2 path.to_c in
    let (here, _) = lead-eq-some (s.mem (c + 8 * index1 v)) f last in
    let path' = Extends-IsPath s t level owner level' owner' v a b c tree.top ext path in
    let same = ext.kept c (index1 v) (omega arith) (omega arith) here in
    ap (λ base. translate t.mem base v) ext.same_base
    ∙ IsPath-translate t.mem level' owner' s.base_pointer v a b c path'
    ∙ ap lead same
    ∙ last

pub stopped :
    (s t : Machine) (level owner level' owner' : ℕ → ℕ) (phys virt : ℕ)
    → IsTree s level owner
    → IsTree t level' owner'
    → Extends s t level owner level' owner'
    → Mapped s phys virt (record { machine = t; panicked = true })
stopped s t level owner level' owner' phys virt tree tree' ext = record {
  level' = level';
  owner' = owner';
  tree = tree';
  same_base = ext.same_base;
  maps = λ h. cc;
  keeps = λ v f ne _ h.
      ap (λ base. translate t.mem base v) (sym ext.same_base)
      ∙ Extends-translate s t level owner level' owner' v f tree ext ne h;
}

module _ (s : Machine) (level owner : ℕ → ℕ) (tree : IsTree s level owner) (virt a b c w : ℕ)
    (path : IsPath s.mem level owner s.base_pointer virt a b c)
    (plain : page_physical_address w < 2 ^ 44) where
  pub bottom : level c ≡ 1
  bottom = (level_below level owner 1 _ _ c path.link2 path.to_c).0

  abbrev mem_put : ℕ → ℕ
  mem_put = put s.mem (c + 8 * index1 virt) w

  pub put-maps : w % 2 ≡ 1 → translate mem_put s.base_pointer virt ≡ some (page_physical_address w)
  put-maps present =
      let path' =
        put-IsPath s level owner tree c (index1 virt) w bottom (omega arith) plain virt a b c
          path in
      let here : mem_put (c + 8 * index1 virt) ≡ w = ground arith in
      IsPath-translate mem_put level owner s.base_pointer virt a b c path'
      ∙ ap lead here
      ∙ lead-present w present

  pub put-keeps :
      (v f : ℕ)
      → index4 v ≢ 510
      → v / 2 ^ 12 % 2 ^ 36 ≢ virt / 2 ^ 12 % 2 ^ 36
      → translate s.mem s.base_pointer v ≡ some f
      → translate mem_put s.base_pointer v ≡ some f
  put-keeps v f ne apart h =
      let (a', b', c', way, last) = translate-IsPath s level owner v f tree ne h in
      let (lc, _) = level_below level owner 1 _ _ c' way.link2 way.to_c in
      let way' =
        put-IsPath s level owner tree c (index1 virt) w bottom (omega arith) plain v a' b' c' way in
      let aligned = (tree.pages c (λ z. absurd (omega (arith, bottom)))).0 in
      let aligned' = (tree.pages c' (omega arith)).0 in
      let other : c' + 8 * index1 v ≢ c + 8 * index1 virt = λ e.
        let same : c' ≡ c =
          same_slot_of c' (index1 v) c (index1 virt) aligned' aligned (omega arith) (omega arith)
            e in
        let way_c : IsPath s.mem level owner s.base_pointer v a' b' c = rw (← same) way in
        apart (same_page s level owner v virt a' b' c a b tree way_c path (omega arith)) in
      let kept : mem_put (c' + 8 * index1 v) ≡ s.mem (c' + 8 * index1 v) = ground arith in
      IsPath-translate mem_put level owner s.base_pointer v a' b' c' way' ∙ ap lead kept ∙ last
