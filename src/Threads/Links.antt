-- ===== src/Threads/Links.antt =====
-- A queue's links against a list of threads.
pub mod Grow
use course_project_os_integr.Base.{
  ℕ, zero, suc, ◌≡◌, ◌≢◌, ◌⊎◌, inl, inr, refl, sym, ap, ◌∙◌, Bool, true, false, List, [], ◌∷◌, ◌++◌,
  arith, ◌==◌, ==_refl, ==_of_ne, eq_of_==, if◌then◌else◌, Bool-cases,
}
use course_project_os_integr.Threads.{Queue, update, append, insert}

-- The links from thread `a`, whose predecessor is `p`, to the end, where the last thread is `t`.
unfoldable pub Linked : (ℕ → ℕ) → (ℕ → ℕ) → ℕ → ℕ → ℕ → List ℕ → Type 0
Linked next prev p a t [] = (a ≡ 0) × (t ≡ p)
Linked next prev p a t (x ∷ xs) =
    (a ≡ x) × (x ≢ 0) × (prev x ≡ p) × Linked next prev x (next x) t xs

unfoldable pub NotIn : ℕ → List ℕ → Type 0
NotIn n [] = Unit
NotIn n (x ∷ xs) = (x ≢ n) × NotIn n xs

unfoldable pub Distinct : List ℕ → Type 0
Distinct [] = Unit
Distinct (x ∷ xs) = NotIn x xs × Distinct xs

-- The queue holds the threads `xs`, from head to tail, each once.
unfoldable pub Represents : Queue → List ℕ → Type 0
Represents q xs = Linked q.next q.prev 0 q.head q.tail xs × Distinct xs

pub update_same {ℓ} : {A : Type ℓ} (f : ℕ → A) (t : ℕ) (v : A) → update f t v t ≡ v
unfolding update
update_same f t v = rw ==_refl refl

pub update_other {ℓ} : {A : Type ℓ} (f : ℕ → A) (t u : ℕ) (v : A) → u ≢ t → update f t v u ≡ f u
unfolding update
update_other f t u v ne = rw (==_of_ne u t ne) refl

-- The last thread is one of the list.
pub tail_ne :
    (next prev : ℕ → ℕ) (p a t n : ℕ) (xs : List ℕ)
    → Linked next prev p a t xs
    → NotIn n xs
    → p ≢ n
    → t ≢ n
unfolding Linked NotIn
tail_ne next prev p a t n [] (_, e) out ne = λ same. ne (sym e ∙ same)
tail_ne next prev p a t n (x ∷ xs) (_, _, _, l) (other, out) ne =
    tail_ne next prev x (next x) t n xs l out other

-- Links that agree on the list's threads.
pub Linked-agree :
    (next next' prev prev' : ℕ → ℕ) (p a t : ℕ) (xs : List ℕ) (u v : ℕ)
    → ((z : ℕ) → z ≢ u → next' z ≡ next z)
    → ((z : ℕ) → z ≢ v → prev' z ≡ prev z)
    → NotIn u xs
    → NotIn v xs
    → Linked next prev p a t xs
    → Linked next' prev' p a t xs
unfolding Linked NotIn
Linked-agree next next' prev prev' p a t [] u v f g out1 out2 l = l
Linked-agree next next' prev prev' p a t (x ∷ xs) u v f g (o1, out1) (o2, out2) (e, nz, back, l) = (
  e,
  nz,
  g x o2 ∙ back,
  rw (f x o1) (Linked-agree next next' prev prev' x (next x) t xs u v f g out1 out2 l),
)
