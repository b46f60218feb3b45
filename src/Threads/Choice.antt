-- ===== src/Threads/Choice.antt =====
-- Which thread the scheduler chooses.
use course_project_os_integr.Base.{
  ℕ, zero, suc, ◌<◌, ◌≡◌, ◌≢◌, ◌⊎◌, inl, inr, refl, sym, ap, true, false, List, [], ◌∷◌, ◌++◌,
  Option, some, arith, ==_of_ne, Bool-cases, length, length-append,
}
use course_project_os_integr.Threads.{
  Queue, Kernel, Scheduled, switch_to, panic, remove, is_ready, crawl_ready, next_runnable_kthread,
  remove_runnable_kthread, schedule, append_run_queue, runnable_kthread, yield_thread,
}
use course_project_os_integr.Threads.Links.{Linked, NotIn, Represents}
use course_project_os_integr.Threads.Links.Grow.{append-Represents}
use course_project_os_integr.Threads.Remove.{remove-Represents}

-- None of the threads may be chosen.
unfoldable pub NoneReady : Kernel → List ℕ → Type 0
NoneReady k [] = Unit
NoneReady k (x ∷ xs) = (is_ready k x ≡ false) × NoneReady k xs

-- The first of the list that may be chosen stands between `earlier` and `later`.
pub record FirstReady (k : Kernel) (xs : List ℕ) (t : ℕ) : Type 0 where
  pub earlier : List ℕ
  pub later : List ℕ
  pub splits : xs ≡ earlier ++ t ∷ later
  pub ready : is_ready k t ≡ true
  pub none_before : NoneReady k earlier

find_ready : (k : Kernel) (xs : List ℕ) → NoneReady k xs ⊎ ((t : ℕ) × FirstReady k xs t)
unfolding NoneReady
find_ready k [] = inl tt
find_ready k (x ∷ xs) = elim (Bool-cases (is_ready k x)) [
  | inl yes_now ↦
      inr (x, record { earlier = []; later = xs; splits = refl; ready = yes_now; none_before = tt })
  | inr not_now ↦ elim (find_ready k xs) [
    | inl nowhere ↦ inl (not_now, nowhere)
    | inr (t, f) ↦ inr (
      t,
      record {
        earlier = x ∷ f.earlier;
        later = f.later;
        splits = ap (λ ys. x ∷ ys) f.splits;
        ready = f.ready;
        none_before = (not_now, f.none_before);
      },
    )
  ]
]

crawl-none :
    (k : Kernel) (fuel p a t : ℕ) (xs : List ℕ)
    → length xs < fuel
    → Linked k.run_queue.next k.run_queue.prev p a t xs
    → NoneReady k xs
    → crawl_ready fuel k a ≡ some 0
unfolding Linked NoneReady crawl_ready
crawl-none k (suc fuel) p a t [] lt (e, last) idle = rw e refl
crawl-none k (suc fuel) p a t (x ∷ xs) lt (e, nz, back, l) (idle, rest) =
    rw (e, ==_of_ne x 0 nz, idle)
      (crawl-none k fuel x (k.run_queue.next x) t xs (omega arith) l rest)
crawl-none k zero p a t xs lt l idle = elim lt [ ]

crawl-first :
    (k : Kernel) (fuel p a last t : ℕ) (xs ys : List ℕ)
    → length xs < fuel
    → Linked k.run_queue.next k.run_queue.prev p a last (xs ++ t ∷ ys)
    → NoneReady k xs
    → is_ready k t ≡ true
    → crawl_ready fuel k a ≡ some t
unfolding Linked NoneReady crawl_ready
crawl-first k (suc fuel) p a last t [] ys lt (e, nz, back, l) idle now =
    rw (e, ==_of_ne t 0 nz, now) refl
crawl-first k (suc fuel) p a last t (x ∷ xs) ys lt (e, nz, back, l) (idle, rest) now =
    rw (e, ==_of_ne x 0 nz, idle)
      (crawl-first k fuel x (k.run_queue.next x) last t xs ys (omega arith) l rest now)
crawl-first k zero p a last t xs ys lt l idle now = elim lt [ ]

ne_of_member :
    (next prev : ℕ → ℕ) (p a last t : ℕ) (xs ys : List ℕ)
    → Linked next prev p a last (xs ++ t ∷ ys)
    → t ≢ 0
unfolding Linked
ne_of_member next prev p a last t [] ys (e, nz, back, l) = nz
ne_of_member next prev p a last t (x ∷ xs) ys (e, nz, back, l) =
    ne_of_member next prev x (next x) last t xs ys l

-- What scheduling makes of a run queue with the threads `xs`: it switches to the first that is
-- neither asleep nor dead, which leaves the queue, and every other thread keeps its place; without
-- one it panics.
pub data Choice (k : Kernel) (xs : List ℕ) : Scheduled → Type 0 where
  chosen :
      (t : ℕ) (q : Queue) (f : FirstReady k xs t)
      → Represents q (f.earlier ++ f.later)
      → Choice k xs (switch_to t (record k { run_queue = q; current_thread = t }))
  nothing_ready : NoneReady k xs → Choice k xs panic

schedule-none :
    (fuel : ℕ) (k : Kernel) (xs : List ℕ)
    → length xs < fuel
    → Represents k.run_queue xs
    → NoneReady k xs
    → schedule fuel k ≡ some panic
unfolding schedule next_runnable_kthread Represents
schedule-none fuel k xs lt (l, d) idle =
    let walk = crawl-none k fuel 0 k.run_queue.head k.run_queue.tail xs lt l idle in rw walk refl

schedule-first :
    (fuel : ℕ) (k : Kernel) (t : ℕ) (xs ys : List ℕ)
    → length (xs ++ t ∷ ys) < fuel
    → Represents k.run_queue (xs ++ t ∷ ys)
    → NoneReady k xs
    → is_ready k t ≡ true
    → schedule fuel k
      ≡ some (switch_to t (record k { run_queue = remove k.run_queue t; current_thread = t }))
unfolding schedule next_runnable_kthread remove_runnable_kthread Represents
schedule-first fuel k t xs ys lt (l, d) idle now =
    let q = k.run_queue in
    let n = length-append xs (t ∷ ys) in
    let walk = crawl-first k fuel 0 q.head q.tail t xs ys (omega arith) l idle now in
    let there = ne_of_member q.next q.prev 0 q.head q.tail t xs ys l in
    rw (walk, ==_of_ne t 0 there) refl

-- `Schedule` on a run queue that holds `xs`, with fuel for a walk over them: it ends, in a switch to
-- the first thread that is awake and alive, taken out of the queue, or in a panic when there is none.
pub schedule-Choice :
    (fuel : ℕ) (k : Kernel) (xs : List ℕ)
    → length xs < fuel
    → Represents k.run_queue xs
    → (s : Scheduled) × (schedule fuel k ≡ some s) × Choice k xs s
schedule-Choice fuel k xs lt r = elim (find_ready k xs) [
  | inl idle ↦ (panic, schedule-none fuel k xs lt r idle, nothing_ready idle)
  | inr (t, f) ↦
      let held : Represents k.run_queue (f.earlier ++ t ∷ f.later) = rw (sym f.splits) r in
      (
        switch_to t (record k { run_queue = remove k.run_queue t; current_thread = t }),
        schedule-first fuel k t f.earlier f.later (rw (sym f.splits) lt) held f.none_before f.ready,
        chosen t (remove k.run_queue t) f (remove-Represents k.run_queue t f.earlier f.later held),
      )
]

not_idle : (k : Kernel) (n : ℕ) (xs : List ℕ) → is_ready k n ≡ true → ¬ NoneReady k (xs ++ n ∷ [])
unfolding NoneReady
not_idle k n [] now (idle, _) = absurd (ground arith)
not_idle k n (x ∷ xs) now (_, rest) = not_idle k n xs now rest

Choice-switches :
    (k : Kernel) (c : ℕ) (xs : List ℕ) (o : Option Scheduled) (s : Scheduled)
    → is_ready k c ≡ true
    → o ≡ some s
    → Choice k (xs ++ c ∷ []) s
    → (t : ℕ) × (q : Queue) × (f : FirstReady k (xs ++ c ∷ []) t) × Represents q
        (f.earlier ++ f.later)
      × (o ≡ some (switch_to t (record k { run_queue = q; current_thread = t })))
Choice-switches k c xs o s now e (chosen t q f held) = (t, q, f, held, e)
Choice-switches k c xs o s now e (nothing_ready idle) = absurd (not_idle k c xs now idle)

-- `Yield` of a thread that is awake, alive and not in the run queue: it never panics, but puts the
-- thread behind the others and switches to the first of them all that is awake and alive, which
-- leaves the queue while every other thread keeps its place.
pub yield_thread-switches :
    (fuel : ℕ) (k : Kernel) (xs : List ℕ)
    → suc (length xs) < fuel
    → Represents k.run_queue xs
    → k.current_thread ≢ 0
    → NotIn k.current_thread xs
    → is_ready k k.current_thread ≡ true
    → let k1 = runnable_kthread k k.current_thread in
      (t : ℕ) × (q : Queue) × (f : FirstReady k1 (xs ++ k.current_thread ∷ []) t) × Represents q
        (f.earlier ++ f.later)
      × (yield_thread fuel k ≡ some (switch_to t (record k1 { run_queue = q; current_thread = t })))
unfolding yield_thread runnable_kthread append_run_queue is_ready
yield_thread-switches fuel k xs lt r nz out now =
    let c = k.current_thread in
    let k1 = runnable_kthread k c in
    let grown = append-Represents k.run_queue c xs nz out r in
    let n = length-append xs (c ∷ []) in
    let (s, e, choice) = schedule-Choice fuel k1 (xs ++ c ∷ []) (omega arith) grown in
    Choice-switches k1 c xs (schedule fuel k1) s now e choice
