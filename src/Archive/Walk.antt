-- ===== src/Archive/Walk.antt =====
-- The walk over the headers against the layout of a tar archive.
use course_project_os_integr.Base.{
  ℕ, zero, suc, ◌+◌, ◌-◌, ◌*◌, ◌/◌, ◌%◌, ◌^◌, ◌≤◌, ◌<◌, ◌≡◌, ◌≢◌, ◌⊎◌, inl, inr, refl, ap, ◌∙◌,
  true, false, some, List, [], ◌∷◌, arith, leb, ◌==◌, Bool-cases, length,
}
use course_project_os_integr.CString.{my_atool}
use course_project_os_integr.CString.Compare.{IsString, strcmp-Compared}
use course_project_os_integr.Archive.{Archive, round, next_header, tarfs_read_from, tarfs_read}

-- A file in the archive: its name, without the NUL, and its size.
pub record Entry : Type 0 where
  pub name : List ℕ
  pub size : ℕ

-- The contents fill whole blocks of 512 bytes.
abbrev pub blocks : ℕ → ℕ
blocks size = (size + 511) / 512

-- The entries as `tar` lays them out, from `h` to the end of the archive. The blocks of zeroes in front of
-- the end are empty files without a name.
unfoldable pub Laid : Archive → ℕ → List Entry → Type 0
unfolding my_atool
Laid a h [] = h ≡ a.finish
Laid a h (e ∷ es) =
    (h ≤ a.finish)
    × IsString (a.header h).name e.name
    × (my_atool (a.header h).size ≡ some e.size)
    × (e.size < 2 ^ 30)
    × Laid a (h + 512 + 512 * blocks e.size) es

-- No file but an empty one fills its blocks.
abbrev pub Partial : List Entry → Type 0
Partial [] = Unit {0}
Partial (e ∷ es) = ((e.size ≡ 0) ⊎ (e.size % 512 ≢ 0)) × Partial es

round-small : (n : ℕ) → n < 2 ^ 30 → round n ≡ some ((n / 512 + 1) * 512)
unfolding round
round-small n h = ground arith

module _ (a : Archive) (h : ℕ) (size : ℕ) (reads : my_atool (a.header h).size ≡ some size)
    (small : size < 2 ^ 30) (room : h + 2 ^ 30 + 2 ^ 11 < 2 ^ 64) where
  -- The step of the walk, on the three kinds of size.
  next_header-empty : size ≡ 0 → next_header a h ≡ some (h + 512)
  unfolding next_header
  next_header-empty z = let here : (h + 512) % 2 ^ 64 ≡ h + 512 = omega arith in rw (reads, z, here)

  next_header-full : size ≢ 0 → next_header a h ≡ some (h + 512 + (size / 512 + 1) * 512)
  unfolding next_header
  next_header-full nz =
      let test : (size == 0) ≡ false = ground arith in
      let here : (h + 512 + (size / 512 + 1) * 512) % 2 ^ 64 ≡ h + 512 + (size / 512 + 1) * 512 =
        omega arith in
      rw (reads, test, round-small size small, here)

  -- `round` adds a block also where none is begun. So the walk goes to the next header exactly when the
  -- file is empty or does not fill its blocks, and passes over 512 bytes too many when it fills them. The
  -- file has less than 2^30 bytes, and the header is that far, and 2048 bytes, from the address space's end.
  pub next_header-Step :
      (((size ≡ 0) ⊎ (size % 512 ≢ 0)) → next_header a h ≡ some (h + 512 + 512 * blocks size))
      × (size ≢ 0 → size % 512 ≡ 0 → next_header a h ≡ some (h + 512 + 512 * blocks size + 512))
  next_header-Step = (
    λ kind. elim kind [
      | inl z ↦ next_header-empty z ∙ ap some (omega arith)
      | inr more ↦ next_header-full (λ z. more (omega arith)) ∙ ap some (omega arith)
    ],
    λ nz full. next_header-full nz ∙ ap some (omega arith),
  )

-- What `tarfs_read` is to return: the address behind the first header of the name, or `NULL`.
unfoldable pub Locates : Archive → List ℕ → ℕ → List Entry → ℕ → Type 0
Locates a name h [] p = p ≡ 0
Locates a name h (e ∷ es) p =
    ((e.name ≡ name) × (p ≡ h + 512))
    ⊎ ((e.name ≢ name) × Locates a name (h + 512 + 512 * blocks e.size) es p)

next_header-forward :
    (a : Archive) (h size : ℕ)
    → my_atool (a.header h).size ≡ some size
    → size < 2 ^ 30
    → h + 2 ^ 30 + 2 ^ 11 < 2 ^ 64
    → (k : ℕ) × (next_header a h ≡ some (h + 512 * suc k))
next_header-forward a h size reads small room = elim (Bool-cases (size == 0)) [
  | inl z ↦ (0, next_header-empty a h size reads small room (ground arith) ∙ ap some (omega arith))
  | inr nz ↦ (
    suc (size / 512),
    next_header-full a h size reads small room (ground arith) ∙ ap some (omega arith),
  )
]

-- What stands at the end of the archive, read as a header. The walk reads it too.
pub record Behind (a : Archive) (name : List ℕ) : Type 0 where
  pub other : List ℕ
  pub named : IsString (a.header a.finish).name other
  pub differs : other ≢ name
  pub size : ℕ
  pub reads : my_atool (a.header a.finish).size ≡ some size
  pub small : size < 2 ^ 30

-- the round at the end of the archive, and the one behind it
past_end :
    (fuel : ℕ) (a : Archive) (h : ℕ) (name text : List ℕ)
    → h ≡ a.finish
    → Behind a name
    → a.finish + 2 ^ 30 + 2 ^ 11 < 2 ^ 64
    → IsString text name
    → tarfs_read_from (suc (suc fuel)) a text h ≡ some 0
unfolding tarfs_read_from
past_end fuel a h name text at behind end str =
    let within : leb a.finish a.finish ≡ true = ground arith in
    let (k, step) = next_header-forward a a.finish behind.size behind.reads behind.small end in
    let past : leb (a.finish + 512 * suc k) a.finish ≡ false = ground arith in
    elim (strcmp-Compared (a.header a.finish).name text behind.other name behind.named str) [
      | inl (same, r) ↦ absurd (behind.differs same)
      | inr (other, r) ↦ rw (at, within, r, step, past) refl
    ]

tarfs_read_from-Locates :
    (fuel : ℕ) (a : Archive) (h : ℕ) (es : List Entry) (name text : List ℕ)
    → Laid a h es
    → Partial es
    → Behind a name
    → a.finish + 2 ^ 30 + 2 ^ 11 < 2 ^ 64
    → IsString text name
    → suc (length es) < fuel
    → (p : ℕ) × (tarfs_read_from fuel a text h ≡ some p) × Locates a name h es p
unfolding Laid Locates tarfs_read_from
tarfs_read_from-Locates zero a h es name text laid partial behind end str enough =
    absurd (omega arith)
tarfs_read_from-Locates (suc zero) a h [] name text laid partial behind end str enough =
    absurd (omega arith)
tarfs_read_from-Locates (suc (suc fuel)) a h [] name text laid partial behind end str enough =
    (0, past_end fuel a h name text laid behind end str, refl)
tarfs_read_from-Locates (suc fuel) a h (e ∷ es) name text (inside, its_name, reads, small, laid)
      (kind, partial) behind end str enough =
    let within : leb h a.finish ≡ true = ground arith in
    let here : (h + 512) % 2 ^ 64 ≡ h + 512 = omega arith in
    let step = (next_header-Step a h e.size reads small (omega arith)).0 kind in
    let (p, later, found) =
      tarfs_read_from-Locates fuel a (h + 512 + 512 * blocks e.size) es name text laid partial
        behind end str (omega arith) in
    elim (strcmp-Compared (a.header h).name text e.name name its_name str) [
      | inl (same, r) ↦ (h + 512, rw (within, r, here), inl (same, refl))
      | inr (other, r) ↦ (p, rw (within, r, step) later, inr (other, found))
    ]

-- `tarfs_read` on an archive as `tar` lays it out, in which no file but an empty one fills its blocks,
-- every file has less than 2^30 bytes, and which ends that far, and 2048 bytes, before the end of the
-- address space. What stands at the archive's end, which is read as one more header, is to have another
-- name and such a size. With two rounds more than there are files, the blocks of zeroes among them, it
-- ends, and returns the address of the contents of the first file of the name, or `NULL` when there is
-- none.
pub tarfs_read-Locates :
    (fuel : ℕ) (a : Archive) (es : List Entry) (name text : List ℕ)
    → Laid a a.start es
    → Partial es
    → Behind a name
    → a.finish + 2 ^ 30 + 2 ^ 11 < 2 ^ 64
    → IsString text name
    → suc (length es) < fuel
    → (p : ℕ) × (tarfs_read fuel a text ≡ some p) × Locates a name a.start es p
unfolding tarfs_read
tarfs_read-Locates fuel a es name text laid partial behind end str enough =
    tarfs_read_from-Locates fuel a a.start es name text laid partial behind end str enough

-- Every header can be read, at each multiple of 512 bytes from the start up to the end of the archive,
-- whatever it says.
pub record Readable (a : Archive) : Type 0 where
  pub names :
      (j : ℕ)
      → a.start + 512 * j ≤ a.finish
      → (x : List ℕ) × IsString (a.header (a.start + 512 * j)).name x
  pub sizes :
      (j : ℕ)
      → a.start + 512 * j ≤ a.finish
      → (n : ℕ) × (my_atool (a.header (a.start + 512 * j)).size ≡ some n) × (n < 2 ^ 30)

tarfs_read_from-ends :
    (fuel : ℕ) (a : Archive) (j : ℕ) (name text : List ℕ)
    → Readable a
    → a.finish + 2 ^ 30 + 2 ^ 11 < 2 ^ 64
    → IsString text name
    → a.finish < a.start + 512 * j + 512 * fuel
    → (p : ℕ) × (tarfs_read_from (suc fuel) a text (a.start + 512 * j) ≡ some p)
unfolding tarfs_read_from
tarfs_read_from-ends zero a j name text readable end str enough = (0, ground arith)
tarfs_read_from-ends (suc fuel) a j name text readable end str enough =
    let h = a.start + 512 * j in
    elim (Bool-cases (leb h a.finish)) [
      | inr past ↦ (0, rw past refl)
      | inl within ↦
          let inside : h ≤ a.finish = ground arith in
          let (x, named) = readable.names j inside in
          let (size, reads, small) = readable.sizes j inside in
          let (k, step) = next_header-forward a h size reads small (omega arith) in
          let there : h + 512 * suc k ≡ a.start + 512 * (j + suc k) = omega arith in
          let (p, later) =
            tarfs_read_from-ends fuel a (j + suc k) name text readable end str (omega arith) in
          elim (strcmp-Compared (a.header h).name text x name named str) [
            | inl (same, r) ↦ ((h + 512) % 2 ^ 64, rw (within, r) refl)
            | inr (other, r) ↦
                (p, rw (within, r, step) (ap (tarfs_read_from (suc fuel) a text) there ∙ later))
          ]
    ]

-- The walk of `tarfs_read` ends on every archive whose headers can be read, also where it goes astray:
-- one round for each 512 bytes of the archive, and two more, are enough. At each multiple of 512 bytes
-- there is to be a name and a size below 2^30, and the archive ends that far, and 2048 bytes, before the
-- end of the address space.
pub tarfs_read-ends :
    (a : Archive) (name text : List ℕ)
    → Readable a
    → a.finish + 2 ^ 30 + 2 ^ 11 < 2 ^ 64
    → IsString text name
    → (p : ℕ) × (tarfs_read ((a.finish - a.start) / 512 + 2) a text ≡ some p)
unfolding tarfs_read
tarfs_read-ends a name text readable end str =
    let rounds : (a.finish - a.start) / 512 + 2 ≡ suc ((a.finish - a.start) / 512 + 1) =
      omega arith in
    let from : a.start ≡ a.start + 512 * 0 = omega arith in
    let (p, ends) =
      tarfs_read_from-ends ((a.finish - a.start) / 512 + 1) a 0 name text readable end str
        (omega arith) in
    (
      p,
      ap (λ f. tarfs_read_from f a text a.start) rounds
          ∙ ap (tarfs_read_from (suc ((a.finish - a.start) / 512 + 1)) a text) from
          ∙ ends,
    )
