-- ===== src/Launch/Words.antt =====
-- The words of a stack after a series of pushes.
use course_project_os_integr.Base.{
  ℕ, zero, suc, ◌+◌, ◌-◌, ◌*◌, ◌%◌, ◌^◌, ◌<◌, ◌≡◌, ◌≢◌, refl, ap, ◌∙◌, List, [], ◌∷◌, arith,
  ==_of_ne, length,
}
use course_project_os_integr.Launch.{Stack, push, push_all, stack_word}

pub push-top : (s : Stack) (v : ℕ) → stack_word (push s v) 0 ≡ v
unfolding push stack_word
push-top s v = ground arith

pub push-below : (s : Stack) (v k : ℕ) → k < 2 ^ 60 → stack_word (push s v) (suc k) ≡ stack_word s k
unfolding push stack_word
push-below s v k small =
    let at : ((s.rsp + 2 ^ 64 - 8) % 2 ^ 64 + 8 * suc k) % 2 ^ 64 ≡ (s.rsp + 8 * k) % 2 ^ 64 =
      omega arith in
    let ne : (s.rsp + 8 * k) % 2 ^ 64 ≢ (s.rsp + 2 ^ 64 - 8) % 2 ^ 64 = λ e. absurd (omega arith) in
    rw (at, ==_of_ne _ _ ne) refl

-- The words from the top down.
unfoldable pub words : ℕ → ℕ → Stack → List ℕ
unfolding stack_word
words zero k s = []
words (suc n) k s = stack_word s k ∷ words n (suc k) s

words-push :
    (n k : ℕ) (s : Stack) (v : ℕ) → k + n < 2 ^ 60 → words n (suc k) (push s v) ≡ words n k s
unfolding words
words-push zero k s v small = refl
words-push (suc n) k s v small =
    rw (push-below s v k (omega arith), words-push n (suc k) s v (omega arith)) refl

-- `vs` turned round, in front of `below`.
abbrev pub onto : List ℕ → List ℕ → List ℕ
onto [] below = below
onto (v ∷ vs) below = onto vs (v ∷ below)

first : (n : ℕ) (s : Stack) (v : ℕ) → n < 2 ^ 60 → words (suc n) 0 (push s v) ≡ v ∷ words n 0 s
unfolding words
first n s v small = rw (push-top s v, words-push n 0 s v (omega arith)) refl

pub words-push_all :
    (vs : List ℕ) (n : ℕ) (s : Stack)
    → length vs + n < 2 ^ 60
    → words (length vs + n) 0 (push_all vs s) ≡ onto vs (words n 0 s)
unfolding push_all words
words-push_all [] n s small = let same : 0 + n ≡ n = omega arith in rw same refl
words-push_all (v ∷ vs) n s small =
    let longer : suc (length vs) + n ≡ length vs + suc n = omega arith in
    ap (λ m. words m 0 (push_all vs (push s v))) longer
    ∙ words-push_all vs (suc n) (push s v) (omega arith)
    ∙ ap (onto vs) (first n s v (omega arith))

-- `n` words lie between the old stack pointer and the new one.
pub push_all-rsp :
    (vs : List ℕ) (s : Stack) → ((push_all vs s).rsp + 8 * length vs) % 2 ^ 64 ≡ s.rsp % 2 ^ 64
unfolding push_all push
push_all-rsp [] s = omega arith
push_all-rsp (v ∷ vs) s = omega (arith, push_all-rsp vs (push s v))
