-- ===== src/Processes/Children.antt =====
-- The list of a parent's children.
use course_project_os_integr.Base.{
  ℕ, zero, suc, ◌≤◌, ◌≡◌, ◌≢◌, ◌⊎◌, inl, inr, refl, sym, ap, ◌∙◌, some, List, [], ◌∷◌, ◌++◌, arith,
  ==_of_ne, length, >>=-eq-some, store,
}
use mathlib.Core.Option.{some-injective}
use course_project_os_integr.Base.Integers.{ℤ, pos, negsuc, add_nat}
use course_project_os_integr.Threads.{update}
use course_project_os_integr.Threads.Links.{NotIn, Distinct, update_same, update_other}
use course_project_os_integr.Processes.{
  World, Joins, crawl_last, append_join_queue, ptable_set, fork, copy_thread, alloc_pid,
}

-- The nodes `ns` hang on one another from `a` on.
unfoldable pub Chain : (ℕ → ℕ) → ℕ → List ℕ → Type 0
Chain next a [] = a ≡ 0
Chain next a (n ∷ ns) = (a ≡ n) × (n ≢ 0) × Chain next (next n) ns

unfoldable pub last_of : ℕ → List ℕ → ℕ
last_of n [] = n
last_of n (m ∷ ns) = last_of m ns

pub Chain-agree :
    (next next' : ℕ → ℕ) (a u : ℕ) (ns : List ℕ)
    → ((z : ℕ) → z ≢ u → next' z ≡ next z)
    → NotIn u ns
    → Chain next a ns
    → Chain next' a ns
unfolding Chain NotIn
Chain-agree next next' a u [] same out c = c
Chain-agree next next' a u (n ∷ ns) same (other, out) (e, nz, c) =
    (e, nz, rw (same n other) (Chain-agree next next' (next n) u ns same out c))

crawl_last_lem :
    (fuel : ℕ) (next : ℕ → ℕ) (n : ℕ) (ns : List ℕ)
    → Chain next n (n ∷ ns)
    → suc (length ns) ≤ fuel
    → crawl_last fuel next n ≡ some (last_of n ns)
unfolding Chain crawl_last last_of
crawl_last_lem zero next n ns c enough = absurd (omega arith)
crawl_last_lem (suc fuel) next n [] (_, _, e) enough = rw e
crawl_last_lem (suc fuel) next n (m ∷ ns) (_, _, (e, nz, c)) enough =
    rw (e, ==_of_ne m 0 nz) (crawl_last_lem fuel next m ns (refl, nz, c) (omega arith))

last-NotIn : (m t : ℕ) (ns : List ℕ) → NotIn t (m ∷ ns) → last_of m ns ≢ t
unfolding NotIn last_of
last-NotIn m t [] (ne, _) = ne
last-NotIn m t (k ∷ ns) (_, out) = last-NotIn k t ns out

-- linking a node behind the last one
pub Chain-append :
    (next : ℕ → ℕ) (n temp : ℕ) (ns : List ℕ)
    → Chain next n (n ∷ ns)
    → Distinct (n ∷ ns)
    → temp ≢ 0
    → next temp ≡ 0
    → NotIn temp (n ∷ ns)
    → Chain (update next (last_of n ns) temp) n (n ∷ (ns ++ temp ∷ []))
unfolding Chain Distinct NotIn last_of
Chain-append next n temp [] (e, nz, _) d tz end (ne, _) =
    let after : update next n temp n ≡ temp = update_same next n temp in
    let stop : update next n temp temp ≡ 0 =
      update_other next n temp temp (λ h. ne (sym h)) ∙ end in
    (refl, nz, (after, tz, stop))
Chain-append next n temp (m ∷ ns) (e, nz, (step, mz, c)) (apart, d) tz end (ne, out) =
    let l = last_of m ns in
    let here : update next l temp n ≡ m =
      update_other next l n temp (λ h. last-NotIn m n ns apart (sym h)) ∙ step in
    (refl, nz, rw here (Chain-append next m temp ns (refl, mz, c) d tz end out))

-- The join queue of a thread, whose nodes are `ns`, each once, gets a new node for the child at its end.
-- The heads of other threads stay, and so does the thread's own unless its queue was empty.
pub append_join_queue-Chain :
    (fuel temp node c : ℕ) (j : Joins) (ns : List ℕ)
    → Chain j.node_next (j.first c) ns
    → Distinct ns
    → NotIn temp ns
    → temp ≢ 0
    → length ns ≤ fuel
    → (j' : Joins) × (append_join_queue fuel temp node c j ≡ some j')
      × Chain j'.node_next (j'.first c) (ns ++ temp ∷ [])
      × (j'.node_child ≡ update j.node_child temp node)
      × ((t : ℕ) → (t ≢ c) ⊎ (ns ≢ []) → j'.first t ≡ j.first t)
unfolding append_join_queue Chain
append_join_queue-Chain fuel temp node c j [] chain d out nz enough = (
  record {
    first = update j.first c temp;
    node_next = update j.node_next temp 0;
    node_child = update j.node_child temp node;
  },
  rw chain,
  (update_same j.first c temp, nz, update_same j.node_next temp 0),
  refl,
  λ t why. elim why [ inl ne ↦ update_other j.first c t temp ne | inr ne ↦ absurd (ne refl) ],
)
append_join_queue-Chain fuel temp node c j (n ∷ ns) (e, nz', chain) d out nz enough =
    let next = update j.node_next temp 0 in
    let fresh : Chain next n (n ∷ ns) =
      Chain-agree j.node_next next n temp (n ∷ ns) (λ z ne. update_other j.node_next temp z 0 ne)
        out (refl, nz', chain) in
    let found = crawl_last_lem fuel next n ns fresh (omega arith) in
    let grown = Chain-append next n temp ns fresh d nz (update_same j.node_next temp 0) out in
    (
      record j {
        node_next = update next (last_of n ns) temp;
        node_child = update j.node_child temp node;
      },
      rw (e, ==_of_ne n 0 nz', found),
      rw e grown,
      refl,
      λ t why. refl,
    )

ptable_set-joins : (w w' : World) (p : ℤ) (k : ℕ) → ptable_set w p k ≡ some w' → w'.joins ≡ w.joins
ptable_set-joins w w' (pos n) k h =
    let (t, _, done) = >>=-eq-some (store w.ptable n k) _ h in
    ap (λ u. u.joins) (sym (some-injective _ w' done))
ptable_set-joins w w' (negsuc n) k h = absurd (ground arith)

-- `fork` copies the head of the parent's join queue into the child. When the parent already has a child,
-- both heads lead to the same nodes, to which the new child's node is added: the child is in the queue
-- that its own `wait` waits for.
pub fork-own_child :
    (fuel child temp n : ℕ) (w w' : World) (ns : List ℕ)
    → Chain w.joins.node_next (w.joins.first w.kernel.current_thread) (n ∷ ns)
    → Distinct (n ∷ ns)
    → NotIn temp (n ∷ ns)
    → temp ≢ 0
    → length (n ∷ ns) ≤ fuel
    → child ≢ w.kernel.current_thread
    → fork fuel child temp w ≡ some w'
    → Chain w'.joins.node_next (w'.joins.first w.kernel.current_thread) ((n ∷ ns) ++ temp ∷ [])
      × Chain w'.joins.node_next (w'.joins.first child) ((n ∷ ns) ++ temp ∷ [])
      × (w'.joins.node_child temp ≡ child)
unfolding fork copy_thread alloc_pid
fork-own_child fuel child temp n w w' ns chain d out nz enough ne h =
    let cur = w.kernel.current_thread in
    let j₀ : Joins = record w.joins { first = update w.joins.first child (w.joins.first cur) } in
    let (w₃, set_entry, h₁) = >>=-eq-some (ptable_set _ (add_nat w.next_free_pid 1) child) _ h in
    let (j, runs, h₂) = >>=-eq-some (append_join_queue fuel temp child cur w₃.joins) _ h₁ in
    let kept : w₃.joins ≡ j₀ = ptable_set-joins _ w₃ (add_nat w.next_free_pid 1) child set_entry in
    let own : j₀.first cur ≡ w.joins.first cur =
      update_other w.joins.first child cur (w.joins.first cur) (λ e. ne (sym e)) in
    let copied : j₀.first child ≡ w.joins.first cur =
      update_same w.joins.first child (w.joins.first cur) in
    let start : Chain j₀.node_next (j₀.first cur) (n ∷ ns) = rw own chain in
    let (j', ran, grown, node, heads) =
      append_join_queue-Chain fuel temp child cur j₀ (n ∷ ns) start d out nz enough in
    let same : w'.joins ≡ j' =
      ap (λ u. u.joins) (sym (some-injective _ w' h₂))
      ∙ some-injective j j' (sym runs ∙ ap (append_join_queue fuel temp child cur) kept ∙ ran) in
    let shared : j'.first child ≡ j'.first cur =
      heads child (inl ne)
      ∙ copied
      ∙ sym own
      ∙ sym (heads cur (inr (λ e. absurd (ground arith)))) in
    rw same (grown, rw shared grown, ap (λ f. f temp) node ∙ update_same j₀.node_child temp child)
