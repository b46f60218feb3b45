-- ===== src/Archive/Open.antt =====
-- Opening and closing files of the archive.
use course_project_os_integr.Base.{
  ℕ, zero, suc, ◌+◌, ◌-◌, ◌≤◌, ◌<◌, ◌≡◌, ◌≢◌, ◌⊎◌, inl, inr, refl, sym, ◌∙◌, some, List, [], ◌∷◌,
  arith, ◌==◌, eq_of_==, Bool-cases, length, get_elem?, get_elem?-set_self, get_elem?-set_ne, set,
}
use mathlib.Core.Path.{subst}
use course_project_os_integr.CString.Compare.{IsString, strcmp-Compared}
use course_project_os_integr.Bitmap.Slots.Updates.{store-ok}
use course_project_os_integr.Archive.{Table, find_name, tarfs_open}

-- the entry `i` of the table holds the name `x`
abbrev pub Holds : Table → ℕ → List ℕ → Type 0
Holds t i x = (file : List ℕ) × (get_elem? t.files i ≡ some file) × IsString file x

-- Every entry in use holds a name, and each has a flag.
pub record IsTable (t : Table) : Type 0 where
  pub names : (i : ℕ) → i < t.file_count → (x : List ℕ) × Holds t i x
  pub flags : t.file_count ≤ length t.file_used
  pub some_file : 0 < t.file_count

-- What the search is to return: the first entry of the name from `i` on, or 0.
abbrev pub FirstNamed : Table → List ℕ → ℕ → ℕ → Type 0
FirstNamed t name i fd =
    ((fd ≡ 0) × ((j : ℕ) → i ≤ j → j < t.file_count → (x : List ℕ) → Holds t j x → x ≢ name))
    ⊎ ((i ≤ fd)
        × (fd < t.file_count)
        × Holds t fd name
        × ((j : ℕ) → i ≤ j → j < fd → (x : List ℕ) → Holds t j x → x ≢ name))

IsString-unique : (a x y : List ℕ) → IsString a x → IsString a y → x ≡ y
IsString-unique [] x y h k = absurd h
IsString-unique (c ∷ a) [] [] h k = refl
IsString-unique (c ∷ a) [] (y ∷ ys) h (e, ne, k) = absurd (ne (sym e ∙ h))
IsString-unique (c ∷ a) (x ∷ xs) [] (e, ne, h) k = absurd (ne (sym e ∙ k))
IsString-unique (c ∷ a) (x ∷ xs) (y ∷ ys) (e, ne, h) (f, nf, k) =
    ground (arith, IsString-unique a xs ys h k)

Holds-unique : (t : Table) (i : ℕ) (x y : List ℕ) → Holds t i x → Holds t i y → x ≡ y
Holds-unique t i x y (f, e, h) (g, e', k) =
    let same : f ≡ g = ground (arith, e, e') in IsString-unique g x y (rw same at h) k

-- no entry of the name from `i` on, from the entry itself and the later ones
from_here :
    (t : Table) (name : List ℕ) (i k : ℕ)
    → ((y : List ℕ) → Holds t i y → y ≢ name)
    → ((j : ℕ) → suc i ≤ j → j < k → (x : List ℕ) → Holds t j x → x ≢ name)
    → (j : ℕ) → i ≤ j
    → j < k
    → (x : List ℕ) → Holds t j x
    → x ≢ name
from_here t name i k here later j lo hi x h = elim (Bool-cases (j == i)) [
  | inl e ↦ let at : j ≡ i = eq_of_== j i e in here x (subst (λ m. Holds t m x) at h)
  | inr e ↦ later j (ground arith) hi x h
]

find_name-FirstNamed :
    (left i : ℕ) (name text : List ℕ) (t : Table)
    → IsTable t
    → IsString text name
    → i + left ≡ t.file_count
    → 1 ≤ i
    → (fd : ℕ) × (find_name left i text t ≡ some fd) × FirstNamed t name i fd
unfolding find_name
find_name-FirstNamed zero i name text t good str count one =
    (0, refl, inl (refl, λ j lo hi x h. absurd (omega arith)))
find_name-FirstNamed (suc left) i name text t good str count one =
    let (x, (file, at, named)) = good.names i (omega arith) in
    let (fd, rest, first) =
      find_name-FirstNamed left (suc i) name text t good str (omega arith) (omega arith) in
    elim (strcmp-Compared text file name x str named) [
      | inl (same, r) ↦ (
        i,
        rw (at, r) refl,
        inr (
          omega arith,
          omega arith,
          (file, at, rw same named),
          λ j lo hi y h. absurd (omega arith),
        ),
      )
      | inr (other, r) ↦
          let not_here : (y : List ℕ) → Holds t i y → y ≢ name =
            λ y h e. other (sym e ∙ Holds-unique t i y x h (file, at, named)) in
          (
            fd,
            rw (at, r) rest,
            elim first [
              | inl (z, later) ↦ inl (z, from_here t name i t.file_count not_here later)
              | inr (lo, hi, holds, later) ↦
                  inr (omega arith, hi, holds, from_here t name i fd not_here later)
            ],
          )
    ]

-- What `tarfs_open` does to the table.
abbrev pub Opened : Table → List ℕ → Table → ℕ → Type 0
Opened t name t' fd =
    FirstNamed t name 1 fd
    × (t'.files ≡ t.files)
    × (t'.file_count ≡ t.file_count)
    × ((fd ≡ 0) ⊎ (get_elem? t'.file_used fd ≡ some 1))
    × ((i : ℕ) → (i ≢ fd) ⊎ (fd ≡ 0) → get_elem? t'.file_used i ≡ get_elem? t.file_used i)

-- `tarfs_open` on a table of names returns the first file of the name, from 1 on, and marks it and no
-- other as used; without such a file it returns 0 and changes nothing.
pub tarfs_open-Opened :
    (name text : List ℕ) (t : Table)
    → IsTable t
    → IsString text name
    → (t' : Table) × (fd : ℕ) × (tarfs_open text t ≡ some (t', fd)) × Opened t name t' fd
unfolding tarfs_open
tarfs_open-Opened name text t good str =
    let (fd, found, first) =
      find_name-FirstNamed (t.file_count - 1) 1 name text t good str (omega (arith, good.some_file))
        (omega arith) in
    elim (Bool-cases (fd == 0)) [
      | inl z ↦
          let none_found : fd ≡ 0 = ground arith in
          (
            t,
            0,
            rw (found, none_found) refl,
            ((rw none_found at first), refl, refl, inl refl, λ i _. refl),
          )
      | inr some_found ↦
          let nz : fd ≢ 0 = ground arith in
          let valid : fd < length t.file_used = elim first [
            | inl (z, _) ↦ absurd (nz z)
            | inr (lo, hi, _, _) ↦ omega (arith, good.flags)
          ] in
          (
            record t { file_used = set t.file_used fd 1 },
            fd,
            rw (found, some_found, store-ok t.file_used fd 1 valid) refl,
            (
              first,
              refl,
              refl,
              inr (get_elem?-set_self t.file_used fd 1 valid),
              λ i why. elim why [
                | inl ne ↦ get_elem?-set_ne t.file_used fd i 1 (λ e. ne (sym e))
                | inr z ↦ absurd (nz z)
              ],
            ),
          )
    ]
