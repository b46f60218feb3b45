-- ===== src/Threads/Remove.antt =====
-- Taking a thread out of a queue.
use course_project_os_integr.Base.{
  ℕ, ◌≡◌, ◌≢◌, inl, inr, refl, sym, ap, ◌∙◌, List, [], ◌∷◌, ◌++◌, arith, ◌==◌, ==_of_ne, eq_of_==,
  Bool-cases,
}
use course_project_os_integr.Threads.{Queue, update, remove, unlink_next, unlink_prev}
use course_project_os_integr.Threads.Links.{
  Linked, NotIn, Distinct, Represents, Linked-agree, update_same, update_other,
}

pred_ne :
    (next prev : ℕ → ℕ) (p a t n m : ℕ) (xs ys : List ℕ)
    → Linked next prev p a t (xs ++ n ∷ ys)
    → NotIn m (xs ++ n ∷ ys)
    → p ≢ m
    → prev n ≢ m
unfolding Linked NotIn
pred_ne next prev p a t n m [] ys (e, nz, back, l) out ne = λ same. ne (sym back ∙ same)
pred_ne next prev p a t n m (x ∷ xs) ys (e, nz, back, l) (o, out) ne =
    pred_ne next prev x (next x) t n m xs ys l out o

succ_ne :
    (next prev : ℕ → ℕ) (p a t n m : ℕ) (xs ys : List ℕ)
    → Linked next prev p a t (xs ++ n ∷ ys)
    → NotIn m (xs ++ n ∷ ys)
    → m ≢ 0
    → next n ≢ m
unfolding Linked NotIn
succ_ne next prev p a t n m [] [] (e, nz, back, (end, last)) out ne = λ same. ne (sym same ∙ end)
succ_ne next prev p a t n m [] (y ∷ ys) (e, nz, back, (e2, ynz, back2, l)) (o, (o2, out)) ne =
    λ same. o2 (sym e2 ∙ same)
succ_ne next prev p a t n m (x ∷ xs) ys (e, nz, back, l) (o, out) ne =
    succ_ne next prev x (next x) t n m xs ys l out ne

zero_out : (next prev : ℕ → ℕ) (p a t : ℕ) (xs : List ℕ) → Linked next prev p a t xs → NotIn 0 xs
unfolding Linked NotIn
zero_out next prev p a t [] l = tt
zero_out next prev p a t (x ∷ xs) (e, nz, back, l) = (nz, zero_out next prev x (next x) t xs l)

NotIn-drop : (m n : ℕ) (xs ys : List ℕ) → NotIn m (xs ++ n ∷ ys) → NotIn m (xs ++ ys)
unfolding NotIn
NotIn-drop m n [] ys (o, out) = out
NotIn-drop m n (x ∷ xs) ys (o, out) = (o, NotIn-drop m n xs ys out)

Distinct-drop : (n : ℕ) (xs ys : List ℕ) → Distinct (xs ++ n ∷ ys) → Distinct (xs ++ ys)
unfolding Distinct
Distinct-drop n [] ys (fresh, d) = d
Distinct-drop n (x ∷ xs) ys (fresh, d) = (NotIn-drop x n xs ys fresh, Distinct-drop n xs ys d)

-- Where a list without its thread begins.
start : List ℕ → ℕ → ℕ → ℕ
start [] a b = b
start (x ∷ xs) a b = a

-- `next'`, `prev'` and `t'` are the links and the tail after `n` is taken out.
record Unlinked (next next' prev prev' : ℕ → ℕ) (t t' n : ℕ) : Type 0 where
  next_else : (z : ℕ) → z ≢ prev n → next' z ≡ next z
  next_at : prev n ≢ 0 → next' (prev n) ≡ next n
  prev_else : (z : ℕ) → z ≢ next n → prev' z ≡ prev z
  prev_at : next n ≢ 0 → prev' (next n) ≡ prev n
  tail_last : next n ≡ 0 → t' ≡ prev n
  tail_else : next n ≢ 0 → t' ≡ t

module _ (next next' prev prev' : ℕ → ℕ) (t t' n : ℕ)
    (u : Unlinked next next' prev prev' t t' n) where
  Linked-drop_first :
      (p a : ℕ) (ys : List ℕ)
      → Linked next prev p a t (n ∷ ys)
      → Distinct (n ∷ ys)
      → NotIn p (n ∷ ys)
      → Linked next' prev' p (next n) t' ys
  unfolding Linked Distinct NotIn
  Linked-drop_first p a [] (e, nz, back, (end, last)) d out = (end, u.tail_last end ∙ back)
  Linked-drop_first p a (y ∷ ys) (e, nz, back, (e2, ynz, back2, l)) (fresh, (fresh2, d))
        (o, (o2, out)) =
      let more : next n ≢ 0 = λ z. ynz (sym e2 ∙ z) in
      let kept : next' y ≡ next y = u.next_else y (λ same. o2 (same ∙ back)) in
      (
        e2,
        ynz,
        ap prev' (sym e2) ∙ u.prev_at more ∙ back,
        rw (kept, u.tail_else more)
            (Linked-agree next next' prev prev' y (next y) t ys (prev n) (next n) u.next_else
              u.prev_else (rw back out) (rw e2 fresh2) l),
      )

  Linked-drop :
      (p a : ℕ) (xs ys : List ℕ)
      → Linked next prev p a t (xs ++ n ∷ ys)
      → Distinct (xs ++ n ∷ ys)
      → NotIn p (xs ++ n ∷ ys)
      → Linked next' prev' p (start xs a (next n)) t' (xs ++ ys)
  unfolding Linked Distinct NotIn start
  Linked-drop p a [] ys l d out = Linked-drop_first p a ys l d out
  Linked-drop p a (x ∷ []) ys (e, nz, back, l) (fresh, d) (o, out) =
      let before : prev n ≡ x = l.2 in
      let joined : next' x ≡ next n =
        ap next' (sym before) ∙ u.next_at (λ z. nz (sym before ∙ z)) in
      (
        e,
        nz,
        u.prev_else x (λ same. succ_ne next prev x (next x) t n x [] ys l fresh nz (sym same))
            ∙ back,
        rw joined (Linked-drop x (next x) [] ys l d fresh),
      )
  Linked-drop p a (x ∷ x2 ∷ xs) ys (e, nz, back, l) (fresh, d) (o, out) =
      let kept : next' x ≡ next x =
        u.next_else x (λ same.
          pred_ne next prev x2 (next x2) t n x xs ys (l.3) (fresh.1) (fresh.0) (sym same)) in
      (
        e,
        nz,
        u.prev_else x
              (λ same. succ_ne next prev x (next x) t n x (x2 ∷ xs) ys l fresh nz (sym same))
            ∙ back,
        rw kept (Linked-drop x (next x) (x2 ∷ xs) ys l d fresh),
      )

-- The first step of `remove`.
record NextUnlinked (q q1 : Queue) (n : ℕ) : Type 0 where
  next_else : (z : ℕ) → z ≢ q.prev n → q1.next z ≡ q.next z
  next_at : q.prev n ≢ 0 → q1.next (q.prev n) ≡ q.next n
  next_same : q1.next n ≡ q.next n
  prev_same : q1.prev ≡ q.prev
  tail_same : q1.tail ≡ q.tail
  head_first : q.prev n ≡ 0 → q1.head ≡ q.next n
  head_else : q.prev n ≢ 0 → q1.head ≡ q.head

update_self : (f : ℕ → ℕ) (u t : ℕ) → update f u (f t) t ≡ f t
unfolding update
update_self f u t = elim (Bool-cases (t == u)) [ inl e ↦ rw e refl | inr e ↦ rw e refl ]

unlink_next-NextUnlinked : (q : Queue) (n : ℕ) → NextUnlinked q (unlink_next q n) n
unfolding unlink_next
unlink_next-NextUnlinked q n = elim (Bool-cases (q.prev n == 0)) [
  | inl first ↦ record {
    next_else = λ z ne. rw first refl;
    next_at = λ ne. absurd (ne (eq_of_== (q.prev n) 0 first));
    next_same = rw first refl;
    prev_same = rw first refl;
    tail_same = rw first refl;
    head_first = λ e. rw first refl;
    head_else = λ ne. absurd (ne (eq_of_== (q.prev n) 0 first));
  }
  | inr later ↦ record {
    next_else = λ z ne. rw later (update_other q.next (q.prev n) z (q.next n) ne);
    next_at = λ ne. rw later (update_same q.next (q.prev n) (q.next n));
    next_same = rw later (update_self q.next (q.prev n) n);
    prev_same = rw later refl;
    tail_same = rw later refl;
    head_first = λ e. absurd (ground arith);
    head_else = λ ne. rw later refl;
  }
]

unlink_prev-at :
    (q : Queue) (n : ℕ)
    → q.next n ≢ 0
    → unlink_prev q n ≡ record q { prev = update q.prev (q.next n) (q.prev n) }
unfolding unlink_prev
unlink_prev-at q n ne = rw (==_of_ne (q.next n) 0 ne) refl

unlink_prev-last :
    (q : Queue) (n : ℕ) → q.next n ≡ 0 → unlink_prev q n ≡ record q { tail = q.prev n }
unfolding unlink_prev
unlink_prev-last q n e = rw e refl

remove-Unlinked :
    (q : Queue) (n : ℕ)
    → Unlinked q.next ((remove q n).next) q.prev ((remove q n).prev) q.tail ((remove q n).tail) n
unfolding remove
remove-Unlinked q n =
    let u = unlink_next-NextUnlinked q n in
    elim (Bool-cases (q.next n == 0)) [
      | inl last ↦
          let end = eq_of_== (q.next n) 0 last in
          rw (unlink_prev-last (unlink_next q n) n (u.next_same ∙ end)) (record {
            next_else = u.next_else;
            next_at = u.next_at;
            prev_else = λ z ne. ap (λ f. f z) u.prev_same;
            prev_at = λ ne. absurd (ne end);
            tail_last = λ e. ap (λ f. f n) u.prev_same;
            tail_else = λ ne. absurd (ne end);
          })
      | inr more ↦
          let ne : q.next n ≢ 0 = λ e. ground arith in
          rw
            (
              unlink_prev-at (unlink_next q n) n (λ e. ne (sym u.next_same ∙ e)),
              u.next_same,
              u.prev_same,
            )
            (record {
              next_else = u.next_else;
              next_at = u.next_at;
              prev_else = λ z other. update_other q.prev (q.next n) z (q.prev n) other;
              prev_at = λ other. update_same q.prev (q.next n) (q.prev n);
              tail_last = λ e. absurd (ne e);
              tail_else = λ other. u.tail_same;
            })
    ]

remove_head : (q : Queue) (n : ℕ) → (remove q n).head ≡ (unlink_next q n).head
unfolding remove unlink_prev
remove_head q n = elim (Bool-cases ((unlink_next q n).next n == 0)) [
  | inl e ↦ rw e refl
  | inr e ↦ rw e refl
]

remove-start :
    (q : Queue) (n : ℕ) (xs ys : List ℕ)
    → Represents q (xs ++ n ∷ ys)
    → (remove q n).head ≡ start xs q.head (q.next n)
unfolding Represents Linked start Distinct
remove-start q n [] ys ((e, nz, back, l), d) =
    remove_head q n ∙ (unlink_next-NextUnlinked q n).head_first back
remove-start q n (x ∷ xs) ys ((e, nz, back, l), (fresh, d)) =
    let out = zero_out q.next q.prev x (q.next x) q.tail (xs ++ n ∷ ys) l in
    let later = pred_ne q.next q.prev x (q.next x) q.tail n 0 xs ys l out nz in
    remove_head q n ∙ (unlink_next-NextUnlinked q n).head_else later

-- A thread anywhere in the queue: `remove` takes it out, and the queue holds the others in their
-- order.
pub remove-Represents :
    (q : Queue) (n : ℕ) (xs ys : List ℕ)
    → Represents q (xs ++ n ∷ ys)
    → Represents (remove q n) (xs ++ ys)
unfolding Represents
remove-Represents q n xs ys (l, d) =
    let out = zero_out q.next q.prev 0 q.head q.tail (xs ++ n ∷ ys) l in
    let rest =
      Linked-drop q.next ((remove q n).next) q.prev ((remove q n).prev) q.tail ((remove q n).tail) n
        (remove-Unlinked q n) 0 q.head xs ys l d out in
    (rw (remove-start q n xs ys (l, d)) rest, Distinct-drop n xs ys d)
