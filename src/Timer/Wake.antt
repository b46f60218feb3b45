-- ===== src/Timer/Wake.antt =====
-- The timer and the sleeping threads, and the timer as a whole.
use course_project_os_integr.Base.{
  ℕ, zero, suc, ◌-◌, ◌<◌, ◌≡◌, inl, inr, refl, sym, ◌∙◌, true, false, some, List, [], ◌∷◌, length,
  arith, ◌==◌, ==_of_ne, eq_of_==, if◌then◌else◌, Bool-cases,
}
use course_project_os_integr.Threads.{Kernel, update}
use course_project_os_integr.Threads.Links.{
  Linked, NotIn, Distinct, Represents, update_same, update_other,
}
use course_project_os_integr.Timer.{is_positive, wake}

-- The threads of `xs` whose sleep is positive sleep one second less, the others as before.
abbrev pub less : ℕ → ℕ
less v = if is_positive v then v - 1 else v

unfoldable pub one_less : (ℕ → ℕ) → List ℕ → ℕ → ℕ
one_less sleeping [] t = sleeping t
one_less sleeping (x ∷ xs) t = if t == x then less (sleeping t) else one_less sleeping xs t

-- `k'` is `k` but for the sleep of the threads `xs`.
pub record Woken (k k' : Kernel) (xs : List ℕ) : Type 0 where
  pub sleeps : (t : ℕ) → k'.sleeping t ≡ one_less k.sleeping xs t
  pub same_queue : k'.run_queue ≡ k.run_queue
  pub same_list : k'.all_thread_list ≡ k.all_thread_list
  pub same_current : k'.current_thread ≡ k.current_thread
  pub same_alive : k'.alive ≡ k.alive

one_less_out :
    (sleeping : ℕ → ℕ) (xs : List ℕ) (t : ℕ) → NotIn t xs → one_less sleeping xs t ≡ sleeping t
unfolding one_less NotIn
one_less_out sleeping [] t out = refl
one_less_out sleeping (x ∷ xs) t (o, out) =
    rw (==_of_ne t x (λ e. o (sym e))) (one_less_out sleeping xs t out)

one_less_agree : (f g : ℕ → ℕ) (xs : List ℕ) (t : ℕ) → f t ≡ g t → one_less f xs t ≡ one_less g xs t
unfolding one_less
one_less_agree f g [] t e = e
one_less_agree f g (x ∷ xs) t e = rw (e, one_less_agree f g xs t e) refl

after-Woken :
    (k k' : Kernel) (f : ℕ → ℕ) (x : ℕ) (xs : List ℕ)
    → NotIn x xs
    → ((t : ℕ) → f t ≡ (if t == x then less (k.sleeping t) else k.sleeping t))
    → Woken (record k { sleeping = f }) k' xs
    → Woken k k' (x ∷ xs)
unfolding one_less
after-Woken k k' f x xs fresh slept w = record {
  sleeps = λ t. elim (Bool-cases (t == x)) [
    | inl same ↦
        let e = eq_of_== t x same in
        rw same (w.sleeps t ∙ one_less_out f xs t (rw e fresh) ∙ slept t ∙ rw same refl)
    | inr other ↦ rw other (w.sleeps t ∙ one_less_agree f k.sleeping xs t (slept t ∙ rw other refl))
  ];
  same_queue = w.same_queue;
  same_list = w.same_list;
  same_current = w.same_current;
  same_alive = w.same_alive;
}

less_at :
    (f : ℕ → ℕ) (x t : ℕ)
    → is_positive (f x) ≡ true
    → update f x (f x - 1) t ≡ (if t == x then less (f t) else f t)
less_at f x t asleep = elim (Bool-cases (t == x)) [
  | inl same ↦ let e = eq_of_== t x same in rw (same, e, asleep) (update_same f x (f x - 1))
  | inr other ↦ rw other (update_other f x t (f x - 1) (λ e. ground arith))
]

less_at_zero :
    (f : ℕ → ℕ) (x : ℕ)
    → is_positive (f x) ≡ false
    → (t : ℕ) → f t ≡ (if t == x then less (f t) else f t)
less_at_zero f x awake t = elim (Bool-cases (t == x)) [
  | inl same ↦ let e = eq_of_== t x same in rw (same, e, awake) refl
  | inr other ↦ rw other refl
]

wake-Woken_from :
    (fuel : ℕ) (k : Kernel) (p a last : ℕ) (xs : List ℕ)
    → length xs < fuel
    → NotIn k.current_thread xs
    → Linked k.run_queue.next k.run_queue.prev p a last xs
    → Distinct xs
    → (k' : Kernel) × (wake fuel k a ≡ some k') × Woken k k' xs
unfolding wake Linked NotIn Distinct one_less
wake-Woken_from (suc fuel) k p a last [] lt out (e, tail) d = (
  k,
  rw e refl,
  record {
    sleeps = λ t. refl;
    same_queue = refl;
    same_list = refl;
    same_current = refl;
    same_alive = refl;
  },
)
wake-Woken_from (suc fuel) k p a last (x ∷ xs) lt (o, out) (e, nz, back, l) (fresh, d) =
    elim (Bool-cases (is_positive (k.sleeping x))) [
      | inl asleep ↦
          let f = update k.sleeping x (k.sleeping x - 1) in
          let (k', runs, w) =
            wake-Woken_from fuel (record k { sleeping = f }) x (k.run_queue.next x) last xs
              (omega arith) out l d in
          (
            k',
            rw (e, asleep, ==_of_ne x 0 nz, ==_of_ne x k.current_thread o) runs,
            after-Woken k k' f x xs fresh (λ t. less_at k.sleeping x t asleep) w,
          )
      | inr awake ↦
          let (k', runs, w) =
            wake-Woken_from fuel k x (k.run_queue.next x) last xs (omega arith) out l d in
          (
            k',
            rw (e, awake, ==_of_ne x 0 nz, ==_of_ne x k.current_thread o) runs,
            after-Woken k k' k.sleeping x xs fresh (less_at_zero k.sleeping x awake) w,
          )
    ]
wake-Woken_from zero k p a last xs lt out l d = elim lt [ ]

-- A second over the run queue of the threads `xs`, the running thread not among them, with fuel for
-- the walk: every one of them whose `sleeping` is positive as a signed `int` sleeps one second less, the
-- others stay, and nothing else of the kernel changes.
pub wake-Woken :
    (fuel : ℕ) (k : Kernel) (xs : List ℕ)
    → length xs < fuel
    → Represents k.run_queue xs
    → NotIn k.current_thread xs
    → (k' : Kernel) × (wake fuel k k.run_queue.head ≡ some k') × Woken k k' xs
unfolding Represents
wake-Woken fuel k xs lt (l, d) out =
    wake-Woken_from fuel k 0 k.run_queue.head k.run_queue.tail xs lt out l d
