-- ===== src/Files/Inodes.antt =====
-- Finding an inode, by its use or by its name.
use course_project_os_integr.Base.{
  ℕ, suc, ◌+◌, ◌≡◌, inl, inr, refl, sym, ap, ◌∙◌, Bool, true, false, not, ◌&&◌, some, List, [], ◌∷◌,
  ◌++◌, arith, ◌==◌, if◌then◌else◌, length, Bool-cases, if_true, if_false, >>=-eq-some,
}
use mathlib.Core.Option.{some-injective}
use mathlib.Core.Path.{subst}
use course_project_os_integr.Base.Integers.{ℤ, pos, negsuc}
use course_project_os_integr.Files.{
  Inode, FileSystem, free_inode_from, get_free_inode, find_from, find_file, find_directory,
}
use course_project_os_integr.CString.{strcmp}
use course_project_os_integr.CString.Compare.{IsString, strcmp-Compared}

unfoldable pub AllInUse : List Inode → Type 0
AllInUse [] = Unit
AllInUse (d ∷ inodes) = (d.usage ≡ true) × AllInUse inodes

-- The first free inode is taken, or none is free; `i` is the index of the first of them.
pub data TakesFree (i : ℕ) (inodes : List Inode) : List Inode × ℤ → Type 0 where
  took :
      (earlier : List Inode) (d : Inode) (later : List Inode)
      → inodes ≡ earlier ++ d ∷ later
      → AllInUse earlier
      → d.usage ≡ false
      → TakesFree i inodes (earlier ++ record d { usage = true } ∷ later, pos (i + length earlier))
  nothing_free : AllInUse inodes → TakesFree i inodes (inodes, negsuc 0)

step_free :
    (i : ℕ) (d : Inode) (inodes : List Inode) (r : List Inode × ℤ)
    → d.usage ≡ true
    → TakesFree (suc i) inodes r
    → TakesFree i (d ∷ inodes) (d ∷ r.0, r.1)
unfolding AllInUse
step_free i d inodes r used (took earlier e later splits busy free) =
    let there : i + suc (length earlier) ≡ suc i + length earlier = omega arith in
    rw (sym there) (took (d ∷ earlier) e later (ap (λ ys. d ∷ ys) splits) (used, busy) free)
step_free i d inodes r used (nothing_free busy) = nothing_free (used, busy)

free_step_used :
    (i : ℕ) (d : Inode) (inodes : List Inode)
    → d.usage ≡ true
    → free_inode_from i (d ∷ inodes)
      ≡ (d ∷ (free_inode_from (suc i) inodes).0, (free_inode_from (suc i) inodes).1)
unfolding free_inode_from
free_step_used i d inodes used = rw used refl

free_step_free :
    (i : ℕ) (d : Inode) (inodes : List Inode)
    → d.usage ≡ false
    → free_inode_from i (d ∷ inodes) ≡ (record d { usage = true } ∷ inodes, pos i)
unfolding free_inode_from
free_step_free i d inodes free = rw free refl

free_inode_from-TakesFree :
    (i : ℕ) (inodes : List Inode) → TakesFree i inodes (free_inode_from i inodes)
unfolding free_inode_from AllInUse
free_inode_from-TakesFree i [] = nothing_free tt
free_inode_from-TakesFree i (d ∷ inodes) = elim (Bool-cases d.usage) [
  | inl used ↦ rw (free_step_used i d inodes used) (
      step_free i d inodes (free_inode_from (suc i) inodes) used
        (free_inode_from-TakesFree (suc i) inodes))
  | inr free ↦
      let here : i + 0 ≡ i = omega arith in
      rw (free_step_free i d inodes free) (
        subst (λ n. TakesFree i (d ∷ inodes) (record d { usage = true } ∷ inodes, pos n)) here
          (took [] d inodes refl tt free))
]

-- `get_free_inode` marks the first inode not in use and returns its index, every other inode as it
-- was; when all are in use it returns -1 and changes nothing.
pub get_free_inode-TakesFree :
    (s : FileSystem)
    → TakesFree 0 s.inode_list (((get_free_inode s).0).inode_list, (get_free_inode s).1)
      × (((get_free_inode s).0).blocks ≡ s.blocks)
unfolding get_free_inode
get_free_inode-TakesFree s = (free_inode_from-TakesFree 0 s.inode_list, refl)

-- Whether the inode is of the kind wanted and has the name.
unfoldable pub IsMatch : Bool → List ℕ → Inode → Type 0
IsMatch wanted name d = (strcmp d.name name ≡ some 0) × (d.is_file ≡ wanted)

unfoldable pub NoMatch : Bool → List ℕ → List Inode → Type 0
unfolding IsMatch
NoMatch wanted name [] = Unit
NoMatch wanted name (d ∷ inodes) = (¬ IsMatch wanted name d) × NoMatch wanted name inodes

pub data Finds (wanted : Bool) (i : ℕ) (inodes : List Inode) (name : List ℕ) : ℤ → Type 0 where
  found :
      (earlier : List Inode) (d : Inode) (later : List Inode)
      → inodes ≡ earlier ++ d ∷ later
      → NoMatch wanted name earlier
      → IsMatch wanted name d
      → Finds wanted i inodes name (pos (i + length earlier))
  missing : NoMatch wanted name inodes → Finds wanted i inodes name (negsuc 0)

step_find :
    (wanted : Bool) (i : ℕ) (d : Inode) (inodes : List Inode) (name : List ℕ) (z : ℤ)
    → ¬ IsMatch wanted name d
    → Finds wanted (suc i) inodes name z
    → Finds wanted i (d ∷ inodes) name z
unfolding NoMatch
step_find wanted i d inodes name z other (found earlier e later splits none_before match) =
    let there : i + suc (length earlier) ≡ suc i + length earlier = omega arith in
    rw (sym there)
      (found (d ∷ earlier) e later (ap (λ ys. d ∷ ys) splits) (other, none_before) match)
step_find wanted i d inodes name z other (missing nowhere) = missing (other, nowhere)

kind : Bool → Inode → Bool
kind wanted d = if wanted then d.is_file else not d.is_file

kind_eq : (wanted : Bool) (d : Inode) → kind wanted d ≡ true → d.is_file ≡ wanted
unfolding kind
kind_eq true d h = h
kind_eq false d h = ground arith

kind_ne : (wanted : Bool) (d : Inode) → d.is_file ≡ wanted → kind wanted d ≡ true
unfolding kind
kind_ne true d h = h
kind_ne false d h = rw h refl

find_from-Finds :
    (wanted : Bool) (i : ℕ) (inodes : List Inode) (name : List ℕ) (z : ℤ)
    → find_from wanted i inodes name ≡ some z
    → Finds wanted i inodes name z
unfolding find_from NoMatch IsMatch kind
find_from-Finds wanted i [] name z h =
    subst (λ w. Finds wanted i [] name w) (some-injective (negsuc 0) z h) (missing tt)
find_from-Finds wanted i (d ∷ inodes) name z h =
    let (differ, cmp, after) = >>=-eq-some (strcmp d.name name) _ h in
    let test = (differ == 0) && kind wanted d in
    let rest = find_from wanted (suc i) inodes name in
    elim (Bool-cases test) [
      | inl match ↦
          let same : differ ≡ 0 = ground arith in
          let right : kind wanted d ≡ true = ground arith in
          let here : i + 0 ≡ i = omega arith in
          let chosen = sym (if_true test (some (pos i)) rest match) ∙ after in
          subst (λ w. Finds wanted i (d ∷ inodes) name w)
            (ap pos here ∙ some-injective (pos i) z chosen)
            (found [] d inodes refl tt (cmp ∙ ap some same, kind_eq wanted d right))
      | inr other ↦
          let later = sym (if_false test (some (pos i)) rest other) ∙ after in
          let no_match : ¬ IsMatch wanted name d = λ m.
            let zero_differ : differ ≡ 0 = some-injective differ 0 (sym cmp ∙ m.0) in
            let right = kind_ne wanted d m.1 in ground arith in
          step_find wanted i d inodes name z no_match
            (find_from-Finds wanted (suc i) inodes name z later)
    ]

-- The names of the inodes are strings.
unfoldable pub AllNamed : List Inode → List (List ℕ) → Type 0
AllNamed [] names = Unit
AllNamed (d ∷ inodes) [] = ⊥
AllNamed (d ∷ inodes) (x ∷ names) = IsString d.name x × AllNamed inodes names

strcmp-returns : (a b x y : List ℕ) → IsString a x → IsString b y → (r : ℕ) × (strcmp a b ≡ some r)
strcmp-returns a b x y h k = elim (strcmp-Compared a b x y h k) [
  | inl (_, e) ↦ (0, e)
  | inr (_, e) ↦ (1, e)
]

find_from-returns :
    (wanted : Bool) (i : ℕ) (inodes : List Inode) (names : List (List ℕ)) (name x : List ℕ)
    → AllNamed inodes names
    → IsString name x
    → (z : ℤ) × (find_from wanted i inodes name ≡ some z)
unfolding find_from AllNamed kind
find_from-returns wanted i [] names name x all h = (negsuc 0, refl)
find_from-returns wanted i (d ∷ inodes) [] name x all h = absurd all
find_from-returns wanted i (d ∷ inodes) (y ∷ names) name x (named, all) h =
    let (r, cmp) = strcmp-returns d.name name y x named h in
    let (z, later) = find_from-returns wanted (suc i) inodes names name x all h in
    elim (Bool-cases ((r == 0) && kind wanted d)) [
      | inl match ↦ (
        pos i,
        rw cmp (
            if_true ((r == 0) && kind wanted d) (some (pos i))
              (find_from wanted (suc i) inodes name) match),
      )
      | inr other ↦ (
        z,
        rw cmp (
            if_false ((r == 0) && kind wanted d) (some (pos i))
              (find_from wanted (suc i) inodes name) other
            ∙ later),
      )
    ]

-- When the inodes' names and the one looked for are strings, `find_file` returns the index of the
-- first inode that is a file of the name, or -1 when there is none.
pub find_file-Finds :
    (s : FileSystem) (names : List (List ℕ)) (name x : List ℕ)
    → AllNamed s.inode_list names
    → IsString name x
    → (z : ℤ) × (find_file s name ≡ some z) × Finds true 0 s.inode_list name z
unfolding find_file
find_file-Finds s names name x all h =
    let (z, e) = find_from-returns true 0 s.inode_list names name x all h in
    (z, e, find_from-Finds true 0 s.inode_list name z e)

-- When the names are strings, `find_directory` returns the index of the first inode that is a directory
-- of the name, or -1 when there is none.
pub find_directory-Finds :
    (s : FileSystem) (names : List (List ℕ)) (name x : List ℕ)
    → AllNamed s.inode_list names
    → IsString name x
    → (z : ℤ) × (find_directory s name ≡ some z) × Finds false 0 s.inode_list name z
unfolding find_directory
find_directory-Finds s names name x all h =
    let (z, e) = find_from-returns false 0 s.inode_list names name x all h in
    (z, e, find_from-Finds false 0 s.inode_list name z e)
