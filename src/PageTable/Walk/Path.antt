-- ===== src/PageTable/Walk/Path.antt =====
-- The way from the topmost table to the page table of an address.
use course_project_os_integr.Base.{
  ℕ, suc, ◌+◌, ◌*◌, ◌/◌, ◌%◌, ◌^◌, ◌≤◌, ◌<◌, ◌≡◌, ◌≢◌, inl, inr, sym, ap, ◌∙◌, some, arith,
  >>=-eq-some,
}
use course_project_os_integr.PageTable.Walk.{Machine, page_physical_address}
use course_project_os_integr.PageTable.Walk.Mmu.{
  lead, child, index4, index3, index2, index1, translate,
}
use course_project_os_integr.PageTable.Walk.Tree.{IsTree, IsLink, recursive_slot}
use course_project_os_integr.PageTable.Walk.Fresh.{Extends, same_slot_of}

pub Extends-trans :
    {s t u : Machine} {level owner level' owner' level'' owner'' : ℕ → ℕ}
    → Extends s t level owner level' owner'
    → Extends t u level' owner' level'' owner''
    → Extends s u level owner level'' owner''
Extends-trans {level = level} a b = record {
  same_base = b.same_base ∙ a.same_base;
  same_level = λ q h. b.same_level q (λ z. h (sym (a.same_level q h) ∙ z)) ∙ a.same_level q h;
  same_owner = λ q h. b.same_owner q (λ z. h (sym (a.same_level q h) ∙ z)) ∙ a.same_owner q h;
  kept = λ q i h lt here.
      let first = a.kept q i h lt here in
      b.kept q i (λ z. h (sym (a.same_level q h) ∙ z)) lt (ap (λ (w : ℕ). w % 2) first ∙ here)
      ∙ first;
}

-- A link stays a link.
pub Extends-IsLink :
    {s t : Machine} {level owner level' owner' : ℕ → ℕ} (l e w : ℕ)
    → Extends s t level owner level' owner'
    → 2 ≤ l
    → IsLink level owner l e w
    → IsLink level' owner' l e w
Extends-IsLink {level = level} l e w a two link =
    let f = page_physical_address w in
    let table : level f ≢ 0 = omega (arith, link.below) in
    record {
      present = link.present;
      below = ap suc (a.same_level f table) ∙ link.below;
      owned = a.same_owner f table ∙ link.owned;
    }

-- The tables `a`, `b` and `c` of levels 3, 2 and 1 on the way of the address `v`.
pub record IsPath (mem level owner : ℕ → ℕ) (base v a b c : ℕ) : Type 0 where
  pub link4 : IsLink level owner 4 (base + 8 * index4 v) (mem (base + 8 * index4 v))
  pub to_a : page_physical_address (mem (base + 8 * index4 v)) ≡ a
  pub link3 : IsLink level owner 3 (a + 8 * index3 v) (mem (a + 8 * index3 v))
  pub to_b : page_physical_address (mem (a + 8 * index3 v)) ≡ b
  pub link2 : IsLink level owner 2 (b + 8 * index2 v) (mem (b + 8 * index2 v))
  pub to_c : page_physical_address (mem (b + 8 * index2 v)) ≡ c

pub level_below :
    (level owner : ℕ → ℕ) (l e w t : ℕ)
    → IsLink level owner (suc l) e w
    → page_physical_address w ≡ t
    → (level t ≡ l) × (owner t ≡ e)
level_below level owner l e w t link to =
    let below : level (page_physical_address w) ≡ l = omega (arith, link.below) in
    (sym (ap level to) ∙ below, sym (ap owner to) ∙ link.owned)

-- Links and slots above level 1 that stay keep the way.
pub IsPath-moves :
    (mem mem' level owner level' owner' : ℕ → ℕ) (base v a b c : ℕ)
    → level base ≡ 4
    → ((l e w : ℕ) → 2 ≤ l → IsLink level owner l e w → IsLink level' owner' l e w)
    → ((q i : ℕ)
        → 2 ≤ level q
        → i < 512
        → mem (q + 8 * i) % 2 ≡ 1
        → mem' (q + 8 * i) ≡ mem (q + 8 * i))
    → IsPath mem level owner base v a b c
    → IsPath mem' level' owner' base v a b c
IsPath-moves mem mem' level owner level' owner' base v a b c top links kept path =
    let (la, _) = level_below level owner 3 _ _ a path.link4 path.to_a in
    let (lb, _) = level_below level owner 2 _ _ b path.link3 path.to_b in
    let k4 = kept base (index4 v) (omega arith) (omega arith) path.link4.present in
    let k3 = kept a (index3 v) (omega arith) (omega arith) path.link3.present in
    let k2 = kept b (index2 v) (omega arith) (omega arith) path.link2.present in
    record {
      link4 = rw k4 (links 4 _ _ (omega arith) path.link4);
      to_a = ap page_physical_address k4 ∙ path.to_a;
      link3 = rw k3 (links 3 _ _ (omega arith) path.link3);
      to_b = ap page_physical_address k3 ∙ path.to_b;
      link2 = rw k2 (links 2 _ _ (omega arith) path.link2);
      to_c = ap page_physical_address k2 ∙ path.to_c;
    }

pub lead-present : (w : ℕ) → w % 2 ≡ 1 → lead w ≡ some (page_physical_address w)
lead-present w h = ground arith

pub lead-eq-some : (w f : ℕ) → lead w ≡ some f → (w % 2 ≡ 1) × (page_physical_address w ≡ f)
lead-eq-some w f h = ground arith

-- The processor follows the way.
pub IsPath-translate :
    (mem level owner : ℕ → ℕ) (base v a b c : ℕ)
    → IsPath mem level owner base v a b c
    → translate mem base v ≡ child mem c (index1 v)
IsPath-translate mem level owner base v a b c path =
    let e4 = lead-present _ path.link4.present ∙ ap some path.to_a in
    let e3 = lead-present _ path.link3.present ∙ ap some path.to_b in
    let e2 = lead-present _ path.link2.present ∙ ap some path.to_c in rw (e4, e3, e2)

-- Two addresses with one slot for their page-table entries lie in the same page.
pub same_page :
    (s : Machine) (level owner : ℕ → ℕ) (v u a b c a' b' : ℕ)
    → IsTree s level owner
    → IsPath s.mem level owner s.base_pointer v a b c
    → IsPath s.mem level owner s.base_pointer u a' b' c
    → index1 v ≡ index1 u
    → v / 2 ^ 12 % 2 ^ 36 ≡ u / 2 ^ 12 % 2 ^ 36
same_page s level owner v u a b c a' b' tree p q i1 =
    let (la, oa) = level_below level owner 3 _ _ a p.link4 p.to_a in
    let (lb, ob) = level_below level owner 2 _ _ b p.link3 p.to_b in
    let (lc, oc) = level_below level owner 1 _ _ c p.link2 p.to_c in
    let (la', oa') = level_below level owner 3 _ _ a' q.link4 q.to_a in
    let (lb', ob') = level_below level owner 2 _ _ b' q.link3 q.to_b in
    let (lc', oc') = level_below level owner 1 _ _ c q.link2 q.to_c in
    let s2 : b + 8 * index2 v ≡ b' + 8 * index2 u = sym oc ∙ oc' in
    let eb : b ≡ b' =
      same_slot_of b (index2 v) b' (index2 u) (tree.pages b (omega arith)).0
        (tree.pages b' (omega arith)).0 (omega arith) (omega arith) s2 in
    let s3 : a + 8 * index3 v ≡ a' + 8 * index3 u = sym ob ∙ ap owner eb ∙ ob' in
    let ea : a ≡ a' =
      same_slot_of a (index3 v) a' (index3 u) (tree.pages a (omega arith)).0
        (tree.pages a' (omega arith)).0 (omega arith) (omega arith) s3 in
    let s4 : s.base_pointer + 8 * index4 v ≡ s.base_pointer + 8 * index4 u =
      sym oa ∙ ap owner ea ∙ oa' in
    omega arith

module _ (s : Machine) (level owner : ℕ → ℕ) (tree : IsTree s level owner) where
  -- a table below the topmost one does not hold the recursive slot
  pub not_recursive : (q i : ℕ) → level q ≢ 0 → level q ≢ 4 → i < 512 → q + 8 * i ≢ recursive_slot s
  not_recursive q i table lower lt h =
      let same : q ≡ s.base_pointer =
        same_slot_of q i s.base_pointer 510 (tree.pages q table).0
          (tree.pages s.base_pointer (λ z. absurd (omega (arith, tree.top)))).0 lt (omega arith)
          h in
      lower (ap level same ∙ tree.top)

  linked :
      (q i l : ℕ)
      → level q ≡ l
      → 2 ≤ l
      → i < 512
      → q + 8 * i ≢ recursive_slot s
      → s.mem (q + 8 * i) % 2 ≡ 1
      → IsLink level owner l (q + 8 * i) (s.mem (q + 8 * i))
  linked q i l at two lt away here = elim (tree.slots q i (omega arith) lt away) [
    | inl z ↦ absurd (omega arith)
    | inr link ↦ rw (← at) link
  ]

-- A mapped address outside the recursive slot has a way.
pub translate-IsPath :
    (s : Machine) (level owner : ℕ → ℕ) (v f : ℕ)
    → IsTree s level owner
    → index4 v ≢ 510
    → translate s.mem s.base_pointer v ≡ some f
    → (a : ℕ) × (b : ℕ) × (c : ℕ) × IsPath s.mem level owner s.base_pointer v a b c
      × (child s.mem c (index1 v) ≡ some f)
translate-IsPath s level owner v f tree ne h =
    let mem = s.mem in
    let base = s.base_pointer in
    let (a, h4, r3) = >>=-eq-some (child mem base (index4 v)) _ h in
    let (b, h3, r2) = >>=-eq-some (child mem a (index3 v)) _ r3 in
    let (c, h2, r1) = >>=-eq-some (child mem b (index2 v)) _ r2 in
    let (p4, to_a) = lead-eq-some (mem (base + 8 * index4 v)) a h4 in
    let (p3, to_b) = lead-eq-some (mem (a + 8 * index3 v)) b h3 in
    let (p2, to_c) = lead-eq-some (mem (b + 8 * index2 v)) c h2 in
    let link4 : IsLink level owner 4 (base + 8 * index4 v) (mem (base + 8 * index4 v)) =
      linked s level owner tree base (index4 v) 4 tree.top (omega arith) (omega arith) (omega arith)
        p4 in
    let (la, _) = level_below level owner 3 _ _ a link4 to_a in
    let link3 =
      linked s level owner tree a (index3 v) 3 la (omega arith) (omega arith)
        (not_recursive s level owner tree a (index3 v) (omega arith) (omega arith) (omega arith))
        p3 in
    let (lb, _) = level_below level owner 2 _ _ b link3 to_b in
    let link2 =
      linked s level owner tree b (index2 v) 2 lb (omega arith) (omega arith)
        (not_recursive s level owner tree b (index2 v) (omega arith) (omega arith) (omega arith))
        p2 in
    (
      a,
      b,
      c,
      record { link4 = link4; to_a = to_a; link3 = link3; to_b = to_b; link2 = link2; to_c = to_c },
      r1,
    )
