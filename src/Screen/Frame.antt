-- ===== src/Screen/Frame.antt =====
-- Writes that leave the screen's memory alone from some byte on.
use course_project_os_integr.Base.{
  ℕ, zero, suc, ◌+◌, ◌*◌, ◌≤◌, ◌<◌, ◌≡◌, refl, ◌∙◌, true, some, List, arith, ltb, length, get_elem?,
  get_elem?-some, set, length-set, get_elem?-set_ne, store,
}
use course_project_os_integr.Screen.{copy_down, fill}

pub record Keeps (lo : ℕ) (mem m : List ℕ) : Type 0 where
  pub same_length : length m ≡ length mem
  pub beyond : (k : ℕ) → lo ≤ k → get_elem? m k ≡ get_elem? mem k

pub Keeps-trans : {lo : ℕ} {m1 m2 m3 : List ℕ} → Keeps lo m1 m2 → Keeps lo m2 m3 → Keeps lo m1 m3
Keeps-trans p q = record {
  same_length = q.same_length ∙ p.same_length;
  beyond = λ k h. q.beyond k h ∙ p.beyond k h;
}

pub Keeps-weaken : {lo hi : ℕ} {m1 m2 : List ℕ} → lo ≤ hi → Keeps lo m1 m2 → Keeps hi m1 m2
Keeps-weaken le p = record { same_length = p.same_length; beyond = λ k h. p.beyond k (omega arith) }

pub store-Keeps :
    (lo i v : ℕ) (mem : List ℕ)
    → i < lo
    → i < length mem
    → (m : List ℕ) × (store mem i v ≡ some m) × Keeps lo mem m
store-Keeps lo i v mem p q =
    let room : ltb i (length mem) ≡ true = ground arith in
    (
      set mem i v,
      rw room refl,
      record {
        same_length = length-set mem i v;
        beyond = λ k h. get_elem?-set_ne mem i k v (λ same. omega arith);
      },
    )

pub copy_down-Keeps :
    (n i distance lo : ℕ) (mem : List ℕ)
    → i + n ≤ lo
    → i + n + distance ≤ length mem
    → (m : List ℕ) × (copy_down n i distance mem ≡ some m) × Keeps lo mem m
unfolding copy_down
copy_down-Keeps zero i distance lo mem p q =
    (mem, refl, record { same_length = refl; beyond = λ k h. refl })
copy_down-Keeps (suc n) i distance lo mem p q =
    let (b, got) = get_elem?-some mem (i + distance) (omega arith) in
    let (m1, writes, first) = store-Keeps lo i b mem (omega arith) (omega arith) in
    let long = first.same_length in
    let (m2, runs, rest) = copy_down-Keeps n (suc i) distance lo m1 (omega arith) (omega arith) in
    (m2, rw (got, writes) runs, Keeps-trans first rest)

pub fill-Keeps :
    (n i c color lo : ℕ) (mem : List ℕ)
    → i + 2 * n ≤ lo
    → lo ≤ length mem
    → (m : List ℕ) × (fill n i c color mem ≡ some m) × Keeps lo mem m
unfolding fill
fill-Keeps zero i c color lo mem p q =
    (mem, refl, record { same_length = refl; beyond = λ k h. refl })
fill-Keeps (suc n) i c color lo mem p q =
    let (m1, e1, k1) = store-Keeps lo i c mem (omega arith) (omega arith) in
    let l1 = k1.same_length in
    let (m2, e2, k2) = store-Keeps lo (suc i) color m1 (omega arith) (omega arith) in
    let l2 = k2.same_length in
    let (m3, runs, k3) = fill-Keeps n (i + 2) c color lo m2 (omega arith) (omega arith) in
    (m3, rw (e1, e2) runs, Keeps-trans k1 (Keeps-trans k2 k3))
