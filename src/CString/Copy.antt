-- ===== src/CString/Copy.antt =====
-- `strncpy` copies exactly `size` bytes.
use course_project_os_integr.Base.{
  ℕ, zero, suc, ◌+◌, ◌≤◌, ◌<◌, ◌≡◌, ◌⊎◌, inl, inr, refl, sym, ap, ◌∙◌, true, some, List, arith, ltb,
  ◌==◌, Bool-cases, length, get_elem?, get_elem?-some, set, length-set, get_elem?-set_self,
  get_elem?-set_ne,
}
use course_project_os_integr.CString.{strncpy_from, strncpy}

-- `d` is `dest` with the bytes `lo` to `hi - 1` taken from `src`.
pub record Copied (lo hi : ℕ) (dest src d : List ℕ) : Type 0 where
  pub same_length : length d ≡ length dest
  pub inside : (k : ℕ) → lo ≤ k → k < hi → get_elem? d k ≡ get_elem? src k
  pub outside : (k : ℕ) → (k < lo) ⊎ (hi ≤ k) → get_elem? d k ≡ get_elem? dest k

strncpy_from-Copied :
    (left i hi : ℕ) (dest src : List ℕ)
    → i + left ≡ hi
    → hi ≤ length dest
    → hi ≤ length src
    → (d : List ℕ) × (strncpy_from left i dest src ≡ some d) × Copied i hi dest src d
unfolding strncpy_from
strncpy_from-Copied zero i hi dest src e p q = (
  dest,
  refl,
  record { same_length = refl; inside = λ k u v. absurd (omega arith); outside = λ k u. refl },
)
strncpy_from-Copied (suc left) i hi dest src e p q =
    let (c, got) = get_elem?-some src i (omega arith) in
    let room : ltb i (length dest) ≡ true = ground arith in
    let (d, runs, done) =
      strncpy_from-Copied left (suc i) hi (set dest i c) src (omega arith) (rw length-set p) q in
    (
      d,
      rw (got, room) runs,
      record {
        same_length = done.same_length ∙ length-set dest i c;
        inside = λ k u v. elim (Bool-cases (k == i)) [
          | inl same ↦
              let at : k ≡ i = ground arith in
              ap (get_elem? d) at
              ∙ done.outside i (inl (omega arith))
              ∙ get_elem?-set_self dest i c (omega arith)
              ∙ sym got
              ∙ ap (get_elem? src) (sym at)
          | inr later ↦ done.inside k (ground arith) v
        ];
        outside = λ k u.
            done.outside k (ground arith) ∙ get_elem?-set_ne dest i k c (λ same. ground arith);
      },
    )

-- `strncpy` with a size that fits both arrays writes nothing out of range: the first `size` bytes
-- are those of the source, NUL or not, and the others stay.
pub strncpy-Copied :
    (dest src : List ℕ) (size : ℕ)
    → size ≤ length dest
    → size ≤ length src
    → (d : List ℕ) × (strncpy dest src size ≡ some d) × Copied 0 size dest src d
unfolding strncpy
strncpy-Copied dest src size p q = strncpy_from-Copied size 0 size dest src (omega arith) p q
