-- ===== src/CString/Compare.antt =====
-- `strlen` and `strcmp` on arrays that hold strings.
use course_project_os_integr.Base.{
  ℕ, suc, ◌+◌, ◌≡◌, ◌≢◌, ◌⊎◌, inl, inr, refl, sym, ap, ◌∙◌, false, Option, some, List, [], ◌∷◌,
  arith, ◌==◌, eq_of_==, Bool-cases, length,
}
use course_project_os_integr.CString.{strlen_from, strlen, strcmp_loop, strcmp}

-- the array holds the characters of `x`, then a NUL, then anything
abbrev pub IsString : List ℕ → List ℕ → Type 0
IsString [] x = ⊥
IsString (c ∷ a) [] = c ≡ 0
IsString (c ∷ a) (x ∷ xs) = (c ≡ x) × (x ≢ 0) × IsString a xs

strlen_from-length : (n : ℕ) (a x : List ℕ) → IsString a x → strlen_from n a ≡ some (n + length x)
unfolding strlen_from
strlen_from-length n [] x h = absurd h
strlen_from-length n (c ∷ a) [] h = ground arith
strlen_from-length n (c ∷ a) (x ∷ xs) (e, ne, h) =
    let more : (c == 0) ≡ false = ground arith in
    rw more (strlen_from-length (suc n) a xs h ∙ ap some (omega arith))

-- `strlen` is the length of the string.
pub strlen-length : (a x : List ℕ) → IsString a x → strlen a ≡ some (length x)
unfolding strlen
strlen-length a x h = strlen_from-length 0 a x h ∙ ap some (omega arith)

-- 0 for equal strings, 1 for different ones
abbrev pub Compared : List ℕ → List ℕ → Option ℕ → Type 0
Compared x y r = ((x ≡ y) × (r ≡ some 0)) ⊎ ((x ≢ y) × (r ≡ some 1))

strcmp_loop-Compared :
    (a b x y : List ℕ)
    → IsString a x
    → IsString b y
    → length x ≡ length y
    → Compared x y (strcmp_loop a b)
unfolding strcmp_loop
strcmp_loop-Compared [] b x y h k e = absurd h
strcmp_loop-Compared (c ∷ a) [] x y h k e = absurd k
strcmp_loop-Compared (c ∷ a) (d ∷ b) [] [] h k e = inl (refl, ground arith)
strcmp_loop-Compared (c ∷ a) (d ∷ b) [] (v ∷ ys) h k e = absurd (omega arith)
strcmp_loop-Compared (c ∷ a) (d ∷ b) (u ∷ xs) [] h k e = absurd (omega arith)
strcmp_loop-Compared (c ∷ a) (d ∷ b) (u ∷ xs) (v ∷ ys) (p, ne, h) (q, _, k) e =
    let more : (c == 0) ≡ false = ground arith in
    elim (Bool-cases (c == d)) [
      | inl same ↦
          let heads : u ≡ v = sym p ∙ eq_of_== c d same ∙ q in
          rw (more, same) (extend heads (strcmp_loop-Compared a b xs ys h k (omega arith)))
      | inr other ↦ rw (more, other) (inr (ground arith, refl))
    ]
  where
    extend :
        {u v : ℕ} {xs ys : List ℕ} {r : Option ℕ}
        → u ≡ v
        → Compared xs ys r
        → Compared (u ∷ xs) (v ∷ ys) r
    extend e (inl (s, t)) = inl (ground arith, t)
    extend e (inr (s, t)) = inr (ground arith, t)

-- `strcmp` of two strings is 0 exactly if they are equal, and 1 if not.
pub strcmp-Compared : (a b x y : List ℕ) → IsString a x → IsString b y → Compared x y (strcmp a b)
unfolding strcmp
strcmp-Compared a b x y h k = elim (Bool-cases (length x == length y)) [
  | inl same ↦
      rw (strlen-length a x h, strlen-length b y k, same)
        (strcmp_loop-Compared a b x y h k (eq_of_== (length x) (length y) same))
  | inr other ↦
      rw (strlen-length a x h, strlen-length b y k, other)
        (inr (λ e. absurd (ground (arith, ap length e)), refl))
]
