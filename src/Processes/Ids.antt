-- ===== src/Processes/Ids.antt =====
-- Process ids.
use course_project_os_integr.Base.{
  ℕ, ◌≡◌, ◌≢◌, inl, inr, refl, sym, ap, ◌∙◌, some, arith, ◌==◌, ltb, get_elem?, get_elem?-set_self,
  get_elem?-set_ne, length, Bool-cases, >>=-eq-some, store,
}
use mathlib.Core.Option.{some-injective}
use course_project_os_integr.Base.Integers.{ℤ, pos, negsuc, add_nat, sub_nat}
use course_project_os_integr.Threads.{update}
use course_project_os_integr.Threads.Links.{update_same, update_other}
use course_project_os_integr.Processes.{
  World, ptable_at, ptable_set, remove_child, thread_cleanup, free_pid, alloc_pid, copy_thread,
  append_join_queue, sys_exit, fork,
}

pub add_nat-sub_nat : (z : ℤ) (k : ℕ) → add_nat (sub_nat z k) k ≡ z
unfolding add_nat sub_nat
add_nat-sub_nat (pos n) k = ground arith
add_nat-sub_nat (negsuc n) k = ground arith

-- What the clean-up and the table leave alone.
abbrev SameIds : World → World → Type 0
SameIds w w' = (w'.pid ≡ w.pid) × (w'.next_free_pid ≡ w.next_free_pid)

thread_cleanup-SameIds :
    (fuel k : ℕ) (w w' : World) → thread_cleanup fuel k w ≡ some w' → SameIds w w'
unfolding thread_cleanup
thread_cleanup-SameIds fuel k w w' h = elim (Bool-cases (w.parent k == 0)) [
  | inl e ↦
      let same = some-injective _ w' (rw e at h) in
      (ap (λ u. u.pid) (sym same), ap (λ u. u.next_free_pid) (sym same))
  | inr e ↦
      let (j, _, done) = >>=-eq-some (remove_child fuel (w.parent k) k w.joins) _ (rw e at h) in
      let same = some-injective _ w' done in
      (ap (λ u. u.pid) (sym same), ap (λ u. u.next_free_pid) (sym same))
]

ptable_set-SameIds : (w w' : World) (p : ℤ) (k : ℕ) → ptable_set w p k ≡ some w' → SameIds w w'
ptable_set-SameIds w w' (pos n) k h =
    let (t, _, done) = >>=-eq-some (store w.ptable n k) _ h in
    let same = some-injective _ w' done in
    (ap (λ u. u.pid) (sym same), ap (λ u. u.next_free_pid) (sym same))
ptable_set-SameIds w w' (negsuc n) k h = absurd (ground arith)

-- an entry that was not written
ptable_set-other :
    (w w' : World) (p r : ℤ) (k : ℕ)
    → ptable_set w p k ≡ some w'
    → p ≢ r
    → ptable_at w' r ≡ ptable_at w r
ptable_set-other w w' (negsuc n) r k h ne = absurd (ground arith)
ptable_set-other w w' (pos n) (negsuc i) k h ne = refl
ptable_set-other w w' (pos n) (pos i) k h ne =
    let (t, written, done) = >>=-eq-some (store w.ptable n k) _ h in
    let same = some-injective _ w' done in
    ap (λ u. get_elem? u.ptable i) (sym same) ∙ (elim (Bool-cases (ltb n (length w.ptable))) [
      | inl lt ↦
          let set_there = some-injective _ t (rw lt at written) in
          ap (λ l. get_elem? l i) (sym set_there)
          ∙ get_elem?-set_ne w.ptable n i k (λ e. ne (ap pos e))
      | inr ge ↦ absurd (ground arith)
    ])

-- the entry that was written
ptable_set-at :
    (w w' : World) (p : ℤ) (k : ℕ) → ptable_set w p k ≡ some w' → ptable_at w' p ≡ some k
ptable_set-at w w' (negsuc n) k h = absurd (ground arith)
ptable_set-at w w' (pos n) k h = elim (Bool-cases (ltb n (length w.ptable))) [
  | inl lt ↦
      let same = some-injective _ w' (rw lt at h) in
      ap (λ u. get_elem? u.ptable n) (sym same) ∙ get_elem?-set_self w.ptable n k (ground arith)
  | inr ge ↦ absurd (ground arith)
]

same_table : (w u : World) (p : ℤ) → w.ptable ≡ u.ptable → ptable_at w p ≡ ptable_at u p
same_table w u (pos n) e = ap (λ t. get_elem? t n) e
same_table w u (negsuc n) e = refl

-- `sys_exit` lowers the counter of ids, and no process changes its id.
pub sys_exit-ids :
    (fuel : ℕ) (w w' : World)
    → sys_exit fuel w ≡ some w'
    → (w'.pid ≡ w.pid) × (w'.next_free_pid ≡ sub_nat w.next_free_pid 1)
unfolding sys_exit free_pid
sys_exit-ids fuel w w' h =
    let p = w.pid w.kernel.current_thread in
    let (k, _, h₁) = >>=-eq-some (ptable_at w p) _ h in
    let (w₁, cleaned, h₂) = >>=-eq-some (thread_cleanup fuel k w) _ h₁ in
    let (w₂, cleared, h₃) = >>=-eq-some (ptable_set w₁ p 0) _ h₂ in
    let (pids, next) = thread_cleanup-SameIds fuel k w w₁ cleaned in
    let (pids', next') = ptable_set-SameIds w₁ w₂ p 0 cleared in
    let same = some-injective _ w' h₃ in
    (
      ap (λ u. u.pid) (sym same) ∙ pids' ∙ pids,
      ap (λ u. u.next_free_pid) (sym same) ∙ ap (λ z. sub_nat z 1) (next' ∙ next),
    )

-- `fork` gives the child the next id and its place in the table, and no other process changes its id.
pub fork-ids :
    (fuel child temp : ℕ) (w w' : World)
    → fork fuel child temp w ≡ some w'
    → (w'.pid child ≡ add_nat w.next_free_pid 1)
      × (ptable_at w' (w'.pid child) ≡ some child)
      × (w'.next_free_pid ≡ add_nat w.next_free_pid 1)
      × ((t : ℕ) → t ≢ child → w'.pid t ≡ w.pid t)
unfolding fork copy_thread alloc_pid
fork-ids fuel child temp w w' h =
    let n = add_nat w.next_free_pid 1 in
    let pids = update (update w.pid child (w.pid w.kernel.current_thread)) child n in
    let (w₃, set_entry, h₁) = >>=-eq-some (ptable_set _ n child) _ h in
    let (j, _, h₂) =
      >>=-eq-some (append_join_queue fuel temp child w.kernel.current_thread w₃.joins) _ h₁ in
    let (same_pids, same_next) = ptable_set-SameIds _ w₃ n child set_entry in
    let entry = ptable_set-at _ w₃ n child set_entry in
    let same = some-injective _ w' h₂ in
    let of_w' : w'.pid ≡ pids = ap (λ u. u.pid) (sym same) ∙ same_pids in
    let its : w'.pid child ≡ n =
      ap (λ f. f child) of_w'
      ∙ update_same (update w.pid child (w.pid w.kernel.current_thread)) child n in
    (
      its,
      ap (ptable_at w') its ∙ same_table w' w₃ n (ap (λ u. u.ptable) (sym same)) ∙ entry,
      ap (λ u. u.next_free_pid) (sym same) ∙ same_next,
      λ t ne.
          ap (λ f. f t) of_w'
          ∙ update_other (update w.pid child (w.pid w.kernel.current_thread)) child t n ne
          ∙ update_other w.pid child t (w.pid w.kernel.current_thread) ne,
    )

thread_cleanup-table :
    (fuel k : ℕ) (w w' : World) → thread_cleanup fuel k w ≡ some w' → w'.ptable ≡ w.ptable
unfolding thread_cleanup
thread_cleanup-table fuel k w w' h = elim (Bool-cases (w.parent k == 0)) [
  | inl e ↦ ap (λ u. u.ptable) (sym (some-injective _ w' (rw e at h)))
  | inr e ↦
      let (j, _, done) = >>=-eq-some (remove_child fuel (w.parent k) k w.joins) _ (rw e at h) in
      ap (λ u. u.ptable) (sym (some-injective _ w' done))
]

-- the other entries of the table stay when a process leaves
sys_exit-other :
    (fuel : ℕ) (w w' : World) (r : ℤ)
    → sys_exit fuel w ≡ some w'
    → w.pid w.kernel.current_thread ≢ r
    → ptable_at w' r ≡ ptable_at w r
unfolding sys_exit free_pid
sys_exit-other fuel w w' r h ne =
    let p = w.pid w.kernel.current_thread in
    let (k, _, h₁) = >>=-eq-some (ptable_at w p) _ h in
    let (w₁, cleaned, h₂) = >>=-eq-some (thread_cleanup fuel k w) _ h₁ in
    let (w₂, cleared, h₃) = >>=-eq-some (ptable_set w₁ p 0) _ h₂ in
    let same = some-injective _ w' h₃ in
    same_table w' w₂ r (ap (λ u. u.ptable) (sym same))
    ∙ ptable_set-other w₁ w₂ p r 0 cleared ne
    ∙ same_table w₁ w r (thread_cleanup-table fuel k w w₁ cleaned)

-- Ids are taken from a counter that `sys_exit` lowers whoever leaves. The process that was created last
-- has the counter as its id and stands in the table, another one leaves, and then, in a world with the
-- same ids, table and counter, whatever thread runs, a process forks. The one created last was still in
-- the table before the fork; the child gets its id, while it keeps it too, and takes its place in the
-- table.
pub fork-sys_exit_reuses :
    (fuel child temp k : ℕ) (w w' u u' : World)
    → w.pid k ≡ w.next_free_pid
    → ptable_at w (w.pid k) ≡ some k
    → w.pid w.kernel.current_thread ≢ w.pid k
    → sys_exit fuel w ≡ some w'
    → u.pid ≡ w'.pid
    → u.ptable ≡ w'.ptable
    → u.next_free_pid ≡ w'.next_free_pid
    → fork fuel child temp u ≡ some u'
    → k ≢ child
    → (ptable_at u (u.pid k) ≡ some k)
      × (u'.pid child ≡ u'.pid k)
      × (u'.pid k ≡ u.pid k)
      × (ptable_at u' (u'.pid k) ≡ some child)
fork-sys_exit_reuses fuel child temp k w w' u u' newest listed leaves left ids table next forked
      ne =
    let (pids, lower) = sys_exit-ids fuel w w' left in
    let (given, entry, _, others) = fork-ids fuel child temp u u' forked in
    let back : add_nat u.next_free_pid 1 ≡ w.next_free_pid =
      ap (λ z. add_nat z 1) (next ∙ lower) ∙ add_nat-sub_nat w.next_free_pid 1 in
    let kept : u.pid k ≡ w.pid k = ap (λ f. f k) (ids ∙ pids) in
    let held : u'.pid k ≡ w.next_free_pid = others k ne ∙ kept ∙ newest in
    let same : u'.pid child ≡ u'.pid k = given ∙ back ∙ sym held in
    (
      ap (ptable_at u) kept
          ∙ same_table u w' (w.pid k) table
          ∙ sys_exit-other fuel w w' (w.pid k) left leaves
          ∙ listed,
      same,
      others k ne,
      ap (ptable_at u') (sym same) ∙ entry,
    )
