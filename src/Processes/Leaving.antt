-- ===== src/Processes/Leaving.antt =====
-- `thread_cleanup` takes the leaving thread out of the run queue, in which a running thread is not.
use course_project_os_integr.Base.{
  ℕ, ◌≡◌, ◌≢◌, inl, inr, refl, sym, ap, ◌∙◌, List, [], ◌∷◌, ◌++◌, ◌==◌, ==_of_ne, eq_of_==,
  Bool-cases,
}
use mathlib.Core.Path.{subst, fun_ext}
use mathlib.Core.List.{append-nil, append_assoc}
use course_project_os_integr.Threads.{Queue, update, append, remove, unlink_next, unlink_prev}
use course_project_os_integr.Threads.Links.{
  NotIn, Distinct, Linked, Represents, update_other, tail_ne,
}
use course_project_os_integr.Threads.Links.Grow.{append-Represents}
use course_project_os_integr.Threads.Remove.{remove-Represents}

-- Threads that become runnable one after another.
abbrev pub append_all : List ℕ → Queue → Queue
append_all [] q = q
append_all (c ∷ cs) q = append_all cs (append q c)

-- Each of them is new to the queue of `ys` and not the thread `a`.
unfoldable pub AllFresh : ℕ → List ℕ → List ℕ → Type 0
unfolding NotIn
AllFresh a ys [] = Unit
AllFresh a ys (c ∷ cs) = (c ≢ 0) × (c ≢ a) × NotIn c ys × AllFresh a (ys ++ c ∷ []) cs

append_links :
    (q : Queue) (a c : ℕ)
    → c ≢ a
    → q.tail ≢ a
    → ((append q c).next a ≡ q.next a) × ((append q c).prev a ≡ q.prev a)
unfolding append
append_links q a c ne last = elim (Bool-cases (q.tail == 0)) [
  | inl e ↦
      rw e
        (update_other q.next c a 0 (λ h. ne (sym h)), update_other q.prev c a 0 (λ h. ne (sym h)))
  | inr e ↦ rw e (
    update_other (update q.next c 0) q.tail a c (λ h. last (sym h))
        ∙ update_other q.next c a 0 (λ h. ne (sym h)),
    update_other q.prev c a q.tail (λ h. ne (sym h)),
  )
]

NotIn-append : (a c : ℕ) (ys : List ℕ) → NotIn a ys → c ≢ a → NotIn a (ys ++ c ∷ [])
unfolding NotIn
NotIn-append a c [] out ne = (ne, tt)
NotIn-append a c (y ∷ ys) (o, out) ne = (o, NotIn-append a c ys out ne)

-- Appending others leaves the links of `a` alone, and the queue holds what was appended.
append_all-keeps :
    (q : Queue) (a : ℕ) (ys cs : List ℕ)
    → a ≢ 0
    → Represents q ys
    → NotIn a ys
    → AllFresh a ys cs
    → ((append_all cs q).next a ≡ q.next a)
      × ((append_all cs q).prev a ≡ q.prev a)
      × Represents (append_all cs q) (ys ++ cs)
unfolding AllFresh Represents
append_all-keeps q a ys [] nz r out fresh =
    (refl, refl, subst (Represents q) (sym (append-nil ys)) r)
append_all-keeps q a ys (c ∷ cs) nz r out (cz, ne, new, fresh) =
    let last : q.tail ≢ a = tail_ne q.next q.prev 0 q.head q.tail a ys r.0 out (λ e. nz (sym e)) in
    let (n, p) = append_links q a c ne last in
    let (n', p', r') =
      append_all-keeps (append q c) a (ys ++ c ∷ []) cs nz (append-Represents q c ys cz new r)
        (NotIn-append a c ys out ne) fresh in
    (
      n' ∙ n,
      p' ∙ p,
      subst (Represents (append_all cs (append q c))) (append_assoc ys (c ∷ []) cs) r',
    )

-- `remove` of a thread whose backward link is 0, by its forward link.
remove_start :
    (q : Queue) (a : ℕ)
    → q.prev a ≡ 0
    → q.next a ≡ 0
    → (remove q a).head ≡ 0
      × (remove q a).tail ≡ 0
      × ((remove q a).next a ≡ 0)
      × ((remove q a).prev a ≡ 0)
unfolding remove unlink_next unlink_prev
remove_start q a p n = rw (p, n, p, n) (refl, refl, refl, refl)

remove_linked :
    (q : Queue) (a x : ℕ)
    → q.prev a ≡ 0
    → q.next a ≡ x
    → x ≢ 0
    → remove q a ≡ record q { head = x; prev = update q.prev x 0 }
unfolding remove unlink_next unlink_prev
remove_linked q a x p n nz =
    rw (p, n, ==_of_ne x 0 nz) (ap (λ v. record q { head = x; prev = update q.prev x v }) p)

empty-Represents : (q : Queue) → q.head ≡ 0 → q.tail ≡ 0 → Represents q []
unfolding Represents Linked Distinct
empty-Represents q h t = ((h, t), tt)

update_self : (f : ℕ → ℕ) (x v : ℕ) → f x ≡ v → update f x v ≡ f
unfolding update
update_self f x v e = fun_ext λ z. elim (Bool-cases (z == x)) [
  | inl h ↦ let at : z ≡ x = eq_of_== z x h in rw (h, at) (sym e)
  | inr h ↦ rw h refl
]

-- a queue whose first thread is `x`, with its head and that thread's backward link written once more
first_again :
    (q : Queue) (x : ℕ) (xs : List ℕ)
    → Represents q (x ∷ xs)
    → record q { head = x; prev = update q.prev x 0 } ≡ q
unfolding Represents Linked
first_again q x xs ((e, _, back, _), _) =
    let same = update_self q.prev x 0 back in λ i. record q { head = sym e i; prev = same i }

-- What is left of the other threads `xs` of the queue and of those that came later.
abbrev pub survivors : List ℕ → List ℕ → List ℕ
survivors [] cs = []
survivors (x ∷ xs) cs = (x ∷ xs) ++ cs

-- A thread at the head of the run queue is taken out of it, other threads are appended, and it is taken
-- out a second time, by links that are out of date. Where other threads stood behind it at first, the
-- second removal leaves the queue as it is. Where the thread was alone, the queue is empty afterwards:
-- all the threads that were appended are lost.
pub remove_again-Represents :
    (q : Queue) (a : ℕ) (xs cs : List ℕ)
    → Represents q (a ∷ xs)
    → AllFresh a xs cs
    → Represents (append_all cs (remove q a)) (xs ++ cs)
      × Represents (remove (append_all cs (remove q a)) a) (survivors xs cs)
unfolding Represents Linked Distinct NotIn
remove_again-Represents q a [] cs ((e, nz, back, (end, last)), d) fresh =
    let (h, t, n, p) = remove_start q a back end in
    let r : Represents (remove q a) [] =
      remove-Represents q a [] [] ((e, nz, back, (end, last)), d) in
    let (n', p', r') = append_all-keeps (remove q a) a [] cs nz r tt fresh in
    let (h'', t'', _, _) = remove_start (append_all cs (remove q a)) a (p' ∙ p) (n' ∙ n) in
    (r', empty-Represents (remove (append_all cs (remove q a)) a) h'' t'')
remove_again-Represents q a (x ∷ xs) cs ((e, nz, back, (step, xz, near, rest)), (apart, d)) fresh =
    let r : Represents (remove q a) (x ∷ xs) =
      remove-Represents q a [] (x ∷ xs) ((e, nz, back, (step, xz, near, rest)), (apart, d)) in
    let gone = remove_linked q a x back step xz in
    let n : (remove q a).next a ≡ x = ap (λ u. u.next a) gone ∙ step in
    let p : (remove q a).prev a ≡ 0 =
      ap (λ u. u.prev a) gone ∙ update_other q.prev x a 0 (λ h. apart.0 (sym h)) ∙ back in
    let t = append_all cs (remove q a) in
    let (n', p', r') = append_all-keeps (remove q a) a (x ∷ xs) cs nz r apart fresh in
    let same : remove t a ≡ t =
      remove_linked t a x (p' ∙ p) (n' ∙ n) xz ∙ first_again t x (xs ++ cs) r' in
    (r', subst (λ u. Represents u ((x ∷ xs) ++ cs)) (sym same) r')
