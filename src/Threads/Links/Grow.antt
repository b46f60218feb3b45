-- ===== src/Threads/Links/Grow.antt =====
-- `append` and `insert` against lists.
use course_project_os_integr.Base.{ℕ, ◌≡◌, ◌≢◌, refl, sym, ap, ◌∙◌, List, [], ◌∷◌, ◌++◌, ==_of_ne}
use course_project_os_integr.Threads.{Queue, update, append, insert}
use course_project_os_integr.Threads.Links.{
  Linked, NotIn, Distinct, Represents, Linked-agree, update_same, update_other, tail_ne,
}

NotIn-append : (n : ℕ) (xs ys : List ℕ) → NotIn n xs → NotIn n ys → NotIn n (xs ++ ys)
unfolding NotIn
NotIn-append n [] ys a b = b
NotIn-append n (x ∷ xs) ys (o, a) b = (o, NotIn-append n xs ys a b)

Distinct-snoc : (n : ℕ) (xs : List ℕ) → NotIn n xs → Distinct xs → Distinct (xs ++ n ∷ [])
unfolding Distinct NotIn
Distinct-snoc n [] out d = (tt, tt)
Distinct-snoc n (x ∷ xs) (o, out) (fresh, d) =
    (NotIn-append x xs (n ∷ []) fresh ((λ e. o (sym e)), tt), Distinct-snoc n xs out d)

-- `append` on a part of the list that is not empty.
Linked-snoc :
    (next prev : ℕ → ℕ) (p a t n x : ℕ) (xs : List ℕ)
    → n ≢ 0
    → Linked next prev p a t (x ∷ xs)
    → Distinct (x ∷ xs)
    → NotIn n (x ∷ xs)
    → Linked (update (update next n 0) t n) (update prev n t) p a n (x ∷ xs ++ n ∷ [])
unfolding Linked Distinct NotIn
Linked-snoc next prev p a t n x [] nz (e, xnz, back, (end, last)) d (o, _) = (
  e,
  xnz,
  update_other prev n x t o ∙ back,
  (
    ap (update (update next n 0) t n) (sym last) ∙ update_same (update next n 0) t n,
    nz,
    update_same prev n t ∙ last,
    (
      update_other (update next n 0) t n n (λ same. o (sym last ∙ sym same)) ∙ update_same next n 0,
      refl,
    ),
  ),
)
Linked-snoc next prev p a t n x (y ∷ ys) nz (e, xnz, back, (e2, ynz, back2, l)) (fresh, d)
      (o, out) =
    (
      e,
      xnz,
      update_other prev n x t o ∙ back,
      rw
          (
            update_other (update next n 0) t x n
                (λ same. tail_ne next prev y (next y) t x ys l (fresh.1) (fresh.0) (sym same)),
            update_other next n x 0 o,
          )
          (Linked-snoc next prev x (next x) t n y ys nz (e2, ynz, back2, l) d out),
    )

-- The two ways of `append` and `insert`.
only : Queue → ℕ → Queue
only q n = record { head = n; tail = n; next = update q.next n 0; prev = update q.prev n 0 }

behind : Queue → ℕ → Queue
behind q n = record {
  head = q.head;
  tail = n;
  next = update (update q.next n 0) q.tail n;
  prev = update q.prev n q.tail;
}

before : Queue → ℕ → Queue
before q n = record {
  head = n;
  tail = q.tail;
  next = update q.next n q.head;
  prev = update (update q.prev n 0) q.head n;
}

append-behind : (q : Queue) (n : ℕ) → q.tail ≢ 0 → append q n ≡ behind q n
unfolding append behind
append-behind q n ne = rw (==_of_ne q.tail 0 ne) refl

append-only : (q : Queue) (n : ℕ) → q.tail ≡ 0 → append q n ≡ only q n
unfolding append only
append-only q n e = rw e refl

insert-before : (q : Queue) (n : ℕ) → q.head ≢ 0 → insert q n ≡ before q n
unfolding insert before
insert-before q n ne = rw (==_of_ne q.head 0 ne) refl

insert-only : (q : Queue) (n : ℕ) → q.head ≡ 0 → insert q n ≡ only q n
unfolding insert only
insert-only q n e = rw e refl

only-Represents : (q : Queue) (n : ℕ) → n ≢ 0 → Represents (only q n) (n ∷ [])
unfolding Represents Linked Distinct NotIn only
only-Represents q n nz =
    ((refl, nz, update_same q.prev n 0, (update_same q.next n 0, refl)), (tt, tt))

behind-Represents :
    (q : Queue) (n x : ℕ) (xs : List ℕ)
    → n ≢ 0
    → NotIn n (x ∷ xs)
    → Represents q (x ∷ xs)
    → Represents (behind q n) (x ∷ xs ++ n ∷ [])
unfolding Represents behind
behind-Represents q n x xs nz out (l, d) =
    (Linked-snoc q.next q.prev 0 q.head q.tail n x xs nz l d out, Distinct-snoc n (x ∷ xs) out d)

before-Represents :
    (q : Queue) (n x : ℕ) (xs : List ℕ)
    → n ≢ 0
    → NotIn n (x ∷ xs)
    → Represents q (x ∷ xs)
    → Represents (before q n) (n ∷ x ∷ xs)
unfolding Represents Linked Distinct NotIn before
before-Represents q n x xs nz (o, out) ((e, xnz, back, l), (fresh, d)) =
    let other : n ≢ q.head = λ same. o (sym e ∙ sym same) in
    let at : update q.next n q.head x ≡ q.next x = update_other q.next n x q.head o in
    (
      (
        refl,
        nz,
        update_other (update q.prev n 0) q.head n n other ∙ update_same q.prev n 0,
        (
          update_same q.next n q.head ∙ e,
          xnz,
          ap (update (update q.prev n 0) q.head n) (sym e)
              ∙ update_same (update q.prev n 0) q.head n,
          rw at (
              Linked-agree (update q.next n q.head) (update q.next n q.head) (update q.prev n 0)
                (update (update q.prev n 0) q.head n) x (q.next x) q.tail xs n q.head (λ z ne. refl)
                (λ z ne. update_other (update q.prev n 0) q.head z n ne) out (rw e fresh)
                (Linked-agree q.next (update q.next n q.head) q.prev (update q.prev n 0) x
                  (q.next x) q.tail xs n n (λ z ne. update_other q.next n z q.head ne)
                  (λ z ne. update_other q.prev n z 0 ne) out out l)),
        ),
      ),
      ((o, out), (fresh, d)),
    )

last_ne_zero :
    (next prev : ℕ → ℕ) (p a t x : ℕ) (xs : List ℕ) → Linked next prev p a t (x ∷ xs) → t ≢ 0
unfolding Linked
last_ne_zero next prev p a t x [] (_, nz, _, (_, last)) = λ z. nz (sym last ∙ z)
last_ne_zero next prev p a t x (y ∷ ys) (_, _, _, l) = last_ne_zero next prev x (next x) t y ys l

tail_of_empty : (q : Queue) → Represents q [] → (q.head ≡ 0) × (q.tail ≡ 0)
unfolding Represents Linked
tail_of_empty q ((e, last), d) = (e, last)

tail_of_more :
    (q : Queue) (x : ℕ) (xs : List ℕ) → Represents q (x ∷ xs) → (q.head ≢ 0) × (q.tail ≢ 0)
unfolding Represents Linked
tail_of_more q x xs ((e, nz, back, l), d) =
    (λ z. nz (sym e ∙ z), last_ne_zero q.next q.prev 0 q.head q.tail x xs (e, nz, back, l))

-- A thread that is not in the queue: `append` puts it behind the others, and the queue holds the
-- old threads in their order and the new one at the end, each once.
pub append-Represents :
    (q : Queue) (n : ℕ) (xs : List ℕ)
    → n ≢ 0
    → NotIn n xs
    → Represents q xs
    → Represents (append q n) (xs ++ n ∷ [])
append-Represents q n [] nz out r =
    rw (append-only q n (tail_of_empty q r).1) (only-Represents q n nz)
append-Represents q n (x ∷ xs) nz out r =
    rw (append-behind q n (tail_of_more q x xs r).1) (behind-Represents q n x xs nz out r)

-- A thread that is not in the queue: `insert` puts it in front of the others.
pub insert-Represents :
    (q : Queue) (n : ℕ) (xs : List ℕ)
    → n ≢ 0
    → NotIn n xs
    → Represents q xs
    → Represents (insert q n) (n ∷ xs)
insert-Represents q n [] nz out r =
    rw (insert-only q n (tail_of_empty q r).0) (only-Represents q n nz)
insert-Represents q n (x ∷ xs) nz out r =
    rw (insert-before q n (tail_of_more q x xs r).0) (before-Represents q n x xs nz out r)
