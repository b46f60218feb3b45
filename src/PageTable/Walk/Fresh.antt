-- ===== src/PageTable/Walk/Fresh.antt =====
-- `create_table`: an empty slot gets a fresh table, and everything else keeps its place.
use course_project_os_integr.Base.{
  ℕ, suc, ◌+◌, ◌-◌, ◌*◌, ◌/◌, ◌%◌, ◌^◌, ◌≤◌, ◌<◌, bit_and, ◌≡◌, ◌≢◌, ◌⊎◌, inl, inr, refl, sym, ap,
  ◌∙◌, Bool, true, false, ◌&&◌, some, arith, leb, ltb, ◌==◌, Bool-cases, if◌then◌else◌,
}
use course_project_os_integr.Bitmap.{Bitmap}
use course_project_os_integr.Bitmap.Slots.{taken}
use course_project_os_integr.Bitmap.Blocks.{IsBitmap}
use course_project_os_integr.PageEntry.{set_page_entry}
use course_project_os_integr.PageTable.Index.{mask_1}
use course_project_os_integr.PageTable.Walk.{
  Machine, Ran, put, memset_zero, page_physical_address, create_table,
}
use course_project_os_integr.PageTable.Walk.Entries.{set_page_entry-frame, set_page_entry-present}
use course_project_os_integr.PageTable.Walk.Tree.{
  IsTree, IsLink, IsFresh, recursive_slot, alloc_block-IsFresh,
}

-- Tables keep their level and their owner, and the entries that are present stay as they are.
pub record Extends (s s' : Machine) (level owner level' owner' : ℕ → ℕ) : Type 0 where
  pub same_base : s'.base_pointer ≡ s.base_pointer
  pub same_level : (q : ℕ) → level q ≢ 0 → level' q ≡ level q
  pub same_owner : (q : ℕ) → level q ≢ 0 → owner' q ≡ owner q
  pub kept :
      (q i : ℕ)
      → level q ≢ 0
      → i < 512
      → s.mem (q + 8 * i) % 2 ≡ 1
      → s'.mem (q + 8 * i) ≡ s.mem (q + 8 * i)

-- A run on slot `e` of a table at level `l` left a tree, with a table in the slot unless it panicked.
pub record Created (s : Machine) (level owner : ℕ → ℕ) (l e : ℕ) (r : Ran) : Type 0 where
  pub level' : ℕ → ℕ
  pub owner' : ℕ → ℕ
  pub tree : IsTree r.machine level' owner'
  pub extends : Extends s r.machine level owner level' owner'
  pub linked : r.panicked ≡ false → IsLink level' owner' l e (r.machine.mem e)

zero_frame : page_physical_address 0 ≡ 0
unfolding page_physical_address
zero_frame = refl

cleared-plain :
    (mem : ℕ → ℕ) (p n x : ℕ)
    → page_physical_address (mem x) < 2 ^ 44
    → page_physical_address (memset_zero mem p n x) < 2 ^ 44
cleared-plain mem p n x h = elim (Bool-cases (leb p x && ltb x (p + n))) [
  | inl here ↦ rw (here, zero_frame) (omega arith)
  | inr away ↦ rw away h
]

outside :
    (mem : ℕ → ℕ) (p n q i : ℕ)
    → n ≤ 4096
    → p % 4096 ≡ 0
    → q % 4096 ≡ 0
    → q ≢ p
    → i < 512
    → memset_zero mem p n (q + 8 * i) ≡ mem (q + 8 * i)
outside mem p n q i small ap aq ne lt = ground arith

pub same_slot_of :
    (q i r j : ℕ) → q % 4096 ≡ 0 → r % 4096 ≡ 0 → i < 512 → j < 512 → q + 8 * i ≡ r + 8 * j → q ≡ r
same_slot_of q i r j aq ar hi hj h = omega arith

module _ (s : Machine) (level owner : ℕ → ℕ) (tree : IsTree s level owner) (m' : Bitmap) (n : ℕ)
    (small : n ≤ 4096) (good : IsBitmap m')
    (grows : (c : ℕ) → taken s.frames.words c ≡ true → taken m'.words c ≡ true) where
  -- what is free afterwards was free before
  still_free :
      (q : ℕ)
      → (level q ≡ 1) ⊎ (taken m'.words (q / 4096) ≡ false)
      → (level q ≡ 1) ⊎ (taken s.frames.words (q / 4096) ≡ false)
  still_free q (inl bottom) = inl bottom
  still_free q (inr free) = elim (Bool-cases (taken s.frames.words (q / 4096))) [
    | inl t ↦ let marked = grows (q / 4096) t in absurd (ground arith)
    | inr f ↦ inr f
  ]

  -- no page was to be had, and address 0 was cleared
  null-Created :
      (l e : ℕ)
      → Created s level owner l e (record {
        machine = record s { mem = memset_zero s.mem 0 n; frames = m' };
        panicked = true;
      })
  null-Created l e =
      let same : (q i : ℕ)
          → level q ≢ 0
          → i < 512
          → memset_zero s.mem 0 n (q + 8 * i) ≡ s.mem (q + 8 * i) =
        λ q i h lt.
          let (aq, nz, _) = tree.pages q h in outside s.mem 0 n q i small (omega arith) aq nz lt in
      record {
        level' = level;
        owner' = owner;
        tree = record {
          top = tree.top;
          pages = tree.pages;
          slots = λ q i l2 lt away. rw (same q i (omega arith) lt) (tree.slots q i l2 lt away);
          plain = λ q i why aligned lt.
              cleared-plain s.mem 0 n (q + 8 * i) (tree.plain q i (still_free q why) aligned lt);
          marked = λ q h. grows (q / 4096) (tree.marked q h);
          good = good;
        };
        extends = record {
          same_base = refl;
          same_level = λ q h. refl;
          same_owner = λ q h. refl;
          kept = λ q i h lt here. same q i h lt;
        };
        linked = λ h. cc;
      }

  module _ (q i p : ℕ) (two : 2 ≤ level q) (lt : i < 512) (fresh : IsFresh s.frames m' p)
      (nz : p ≢ 0) (empty : s.mem (q + 8 * i) ≡ 0) (whole : 3 ≤ level q → n ≡ 4096) where
    abbrev level_with : ℕ → ℕ
    level_with x = if x == p then level q - 1 else level x

    abbrev owner_with : ℕ → ℕ
    owner_with x = if x == p then q + 8 * i else owner x

    abbrev mem_with : ℕ → ℕ
    mem_with = put (memset_zero s.mem p n) (q + 8 * i) (set_page_entry 0 p false)

    no_table : level p ≡ 0
    no_table = elim (Bool-cases (level p == 0)) [
      | inl z ↦ ground arith
      | inr t ↦ ground (arith, tree.marked p, fresh.2)
    ]

    other : (x : ℕ) → level x ≢ 0 → x ≢ p
    other x h e = h (ap level e ∙ no_table)

    level_same : (x : ℕ) → level x ≢ 0 → level_with x ≡ level x
    level_same x h = let ne = other x h in ground arith

    owner_same : (x : ℕ) → level x ≢ 0 → owner_with x ≡ owner x
    owner_same x h = let ne = other x h in ground arith

    aligned : (x : ℕ) → level x ≢ 0 → x % 4096 ≡ 0
    aligned x h = (tree.pages x h).0

    -- a slot of an old table, other than the one that is filled
    mem_same :
        (x j : ℕ)
        → level x ≢ 0
        → j < 512
        → x + 8 * j ≢ q + 8 * i
        → mem_with (x + 8 * j) ≡ s.mem (x + 8 * j)
    mem_same x j h hj ne =
        let out = outside s.mem p n x j small (fresh.0) (aligned x h) (other x h) hj in ground arith

    IsLink-here : IsLink level_with owner_with (level q) (q + 8 * i) (mem_with (q + 8 * i))
    IsLink-here =
        let here : mem_with (q + 8 * i) ≡ set_page_entry 0 p false = ground arith in
        let frame : page_physical_address (mem_with (q + 8 * i)) ≡ p =
          ap page_physical_address here ∙ set_page_entry-frame p (fresh.0) (fresh.1) in
        record {
          present = rw here (set_page_entry-present p (fresh.0) (fresh.1));
          below = rw frame (ground arith);
          owned = rw frame (ground arith);
        }

    IsLink-old :
        (x e w : ℕ)
        → 2 ≤ level x
        → IsLink level owner (level x) e w
        → IsLink level_with owner_with (level_with x) e w
    IsLink-old x e w h link =
        let below : level (page_physical_address w) ≢ 0 = omega (arith, link.below) in
        record {
          present = link.present;
          below =
              ap suc (level_same (page_physical_address w) below)
              ∙ link.below
              ∙ sym (level_same x (omega arith));
          owned = owner_same (page_physical_address w) below ∙ link.owned;
        }

    slots_with :
        (x j : ℕ)
        → 2 ≤ level_with x
        → j < 512
        → x + 8 * j ≢ recursive_slot s
        → (mem_with (x + 8 * j) ≡ 0)
          ⊎ IsLink level_with owner_with (level_with x) (x + 8 * j) (mem_with (x + 8 * j))
    slots_with x j h hj away = elim (Bool-cases (x == p)) [
      | inl e ↦
          let at : x ≡ p = ground arith in
          let table : level q ≢ 0 = omega arith in
          let all : n ≡ 4096 = whole (ground arith) in
          let ne : x + 8 * j ≢ q + 8 * i = λ c.
            other q table (
              sym (same_slot_of x j q i (omega (arith, fresh.0)) (aligned q table) hj lt c) ∙ at) in
          inl (ground arith)
      | inr e ↦
          let ne : x ≢ p = ground arith in
          let l2 : 2 ≤ level x = ground arith in
          elim (Bool-cases (x + 8 * j == q + 8 * i)) [
            | inl c ↦
                let slot : x + 8 * j ≡ q + 8 * i = ground arith in
                let same : x ≡ q =
                  same_slot_of x j q i (aligned x (omega arith)) (aligned q (omega arith)) hj lt
                    slot in
                inr (rw (slot, level_same x (omega arith), same) IsLink-here)
            | inr c ↦
                let kept = mem_same x j (omega arith) hj (ground arith) in
                elim (tree.slots x j l2 hj away) [
                  | inl z ↦ inl (kept ∙ z)
                  | inr link ↦ inr (rw kept (IsLink-old x (x + 8 * j) (s.mem (x + 8 * j)) l2 link))
                ]
          ]
    ]

    -- a page table or a free page afterwards was one before, but for the new table, which was free
    plain_before :
        (x : ℕ)
        → (level_with x ≡ 1) ⊎ (taken m'.words (x / 4096) ≡ false)
        → (level x ≡ 1) ⊎ (taken s.frames.words (x / 4096) ≡ false)
    plain_before x why = elim (Bool-cases (x == p)) [
      | inl e ↦ let at : x ≡ p = ground arith in inr (rw at (fresh.2))
      | inr e ↦ elim why [ inl bottom ↦ inl (ground arith) | inr free ↦ still_free x (inr free) ]
    ]

    plain_with :
        (x j : ℕ)
        → (level_with x ≡ 1) ⊎ (taken m'.words (x / 4096) ≡ false)
        → x % 4096 ≡ 0
        → j < 512
        → page_physical_address (mem_with (x + 8 * j)) < 2 ^ 44
    plain_with x j why al hj = elim (Bool-cases (x + 8 * j == q + 8 * i)) [
      | inl e ↦ rw (e, set_page_entry-frame p (fresh.0) (fresh.1)) (fresh.1)
      | inr e ↦
          rw e (cleared-plain s.mem p n (x + 8 * j) (tree.plain x j (plain_before x why) al hj))
    ]

    fresh-Created :
        Created s level owner
          (level q)
          (q + 8 * i)
          (record { machine = record s { mem = mem_with; frames = m' }; panicked = false })
    fresh-Created = record {
      level' = level_with;
      owner' = owner_with;
      tree = record {
        top = level_same s.base_pointer (λ e. absurd (omega (arith, tree.top))) ∙ tree.top;
        pages = λ x h. elim (Bool-cases (x == p)) [
          | inl e ↦ let at : x ≡ p = ground arith in rw at (fresh.0, nz, fresh.1)
          | inr e ↦ tree.pages x (ground arith)
        ];
        slots = slots_with;
        plain = plain_with;
        marked = λ x h. elim (Bool-cases (x == p)) [
          | inl e ↦ let at : x ≡ p = ground arith in rw at (fresh.3)
          | inr e ↦ grows (x / 4096) (tree.marked x (ground arith))
        ];
        good = good;
      };
      extends = record {
        same_base = refl;
        same_level = level_same;
        same_owner = owner_same;
        kept =
            λ x j h hj here. mem_same x j h hj λ c. absurd (omega (arith, ap s.mem c, here, empty));
      };
      linked = λ h. IsLink-here;
    }

pub Extends-refl : (s : Machine) (level owner : ℕ → ℕ) → Extends s s level owner level owner
Extends-refl s level owner = record {
  same_base = refl;
  same_level = λ q h. refl;
  same_owner = λ q h. refl;
  kept = λ q i h lt here. refl;
}

-- `create_table` ends on a slot of a tree, and clears whole pages except for tables of level 1.
pub create_table-Created :
    (s : Machine) (level owner : ℕ → ℕ) (n : ℕ) (set_entry : ℕ → ℕ → Bool → ℕ) (q i : ℕ)
    → IsTree s level owner
    → n ≤ 4096
    → ((e dir : ℕ) (u : Bool) → set_entry e dir u ≡ set_page_entry e dir u)
    → 2 ≤ level q
    → i < 512
    → q + 8 * i ≢ recursive_slot s
    → (3 ≤ level q → n ≡ 4096)
    → (r : Ran) × (create_table n set_entry (q + 8 * i) s ≡ some r)
      × Created s level owner (level q) (q + 8 * i) r
unfolding create_table
create_table-Created s level owner n set_entry q i tree small agree two lt away whole =
    elim (Bool-cases (bit_and (s.mem (q + 8 * i)) 1 == 0)) [
      | inr present ↦ (
        record { machine = s; panicked = false },
        rw present,
        record {
          level' = level;
          owner' = owner;
          tree = tree;
          extends = Extends-refl s level owner;
          linked = λ h. elim (tree.slots q i two lt away) [
            | inl z ↦ absurd (ground (arith, mask_1 (s.mem (q + 8 * i))))
            | inr link ↦ link
          ];
        },
      )
      | inl absent ↦
          let empty : s.mem (q + 8 * i) ≡ 0 = elim (tree.slots q i two lt away) [
            | inl z ↦ z
            | inr link ↦ absurd (ground (arith, mask_1 (s.mem (q + 8 * i)), link.present))
          ] in
          let (m', p, runs, good, grows, outcome) = alloc_block-IsFresh s.frames tree.good in
          elim (Bool-cases (p == 0)) [
            | inl null ↦
                let z : p ≡ 0 = ground arith in
                (
                  record {
                    machine = record s { mem = memset_zero s.mem 0 n; frames = m' };
                    panicked = true;
                  },
                  rw (absent, runs, z),
                  null-Created s level owner tree m' n small good grows (level q) (q + 8 * i),
                )
            | inr page ↦
                let nz : p ≢ 0 = ground arith in
                let fresh : IsFresh s.frames m' p = elim outcome [
                  | inl z ↦ absurd (nz z)
                  | inr f ↦ f
                ] in
                let untouched : memset_zero s.mem p n (q + 8 * i) ≡ 0 =
                  outside s.mem p n q i small (fresh.0) ((tree.pages q (omega arith)).0)
                    (other s level owner tree m' n small good grows q i p two lt fresh nz empty
                      whole q (omega arith))
                    lt
                  ∙ empty in
                (
                  _,
                  rw (absent, runs, page, agree, untouched),
                  fresh-Created s level owner tree m' n small good grows q i p two lt fresh nz empty
                      whole,
                )
          ]
    ]
