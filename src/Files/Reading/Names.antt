-- ===== src/Files/Reading/Names.antt =====
-- Reading a file by its name.
use course_project_os_integr.Base.{
  ℕ, ◌+◌, ◌-◌, ◌≤◌, ◌<◌, ◌≡◌, ◌≢◌, ◌⊎◌, inl, inr, refl, sym, ap, ◌∙◌, true, false, none, some, List,
  ◌∷◌, arith, leb, ◌==◌, eq_of_==, Bool-cases, length, length-append,
}
use mathlib.Core.Option.{some-injective}
use course_project_os_integr.Base.Integers.{ℤ, pos, negsuc, sub_nat}
use course_project_os_integr.CString.Compare.{IsString}
use course_project_os_integr.Files.{Inode, FileSystem, deflate, find_file, inode_at}
use course_project_os_integr.Files.Inodes.{Finds, found, AllNamed, find_file-Finds}
use course_project_os_integr.Files.Reading.{read_file, get_file_descriptor, read_file_by_name}

-- an index that a search returns is one of the list
abbrev index : ℤ → ℕ
index (pos n) = n
index (negsuc n) = 0

Finds-small :
    (inodes : List Inode) (name : List ℕ) (n : ℕ)
    → Finds true 0 inodes name (pos n)
    → n < length inodes
Finds-small inodes name n (found earlier d later splits _ _) =
    omega (arith, ap length splits, length-append earlier (d ∷ later))

read_file-inflated :
    (s : FileSystem) (buf : List ℕ) (n : ℕ)
    → n < 100
    → ((n ≡ 99) × (read_file s (pos n) 100 buf ≡ some (s, none)))
      ⊎ ((n ≢ 99) × (read_file s (pos n) 100 buf ≡ none))
unfolding read_file deflate sub_nat inode_at
read_file-inflated s buf n small = elim (Bool-cases (n == 99)) [
  | inl e ↦ let at : n ≡ 99 = eq_of_== n 99 e in inl (at, rw at refl)
  | inr e ↦
      let below : leb 100 n ≡ false = ground arith in
      let test : (100 - n - 1 == 0) ≡ false = ground arith in
      inr (λ at. absurd (ground arith), rw (below, test) refl)
]

read_file-missing : (s : FileSystem) (buf : List ℕ) (n : ℕ) → read_file s (negsuc n) 100 buf ≡ none
unfolding read_file deflate sub_nat inode_at
read_file-missing s buf n = let test : (n + 100 == 0) ≡ false = ground arith in rw test refl

at_result :
    (s : FileSystem) (buf name : List ℕ) (z : ℤ)
    → find_file s name ≡ some z
    → Finds true 0 s.inode_list name z
    → length s.inode_list ≤ 100
    → ((find_file s name ≡ some (pos 99)) × (read_file_by_name s name buf ≡ some (s, none)))
      ⊎ ((find_file s name ≢ some (pos 99)) × (read_file_by_name s name buf ≡ none))
unfolding read_file_by_name get_file_descriptor
at_result s buf name (pos n) seen finds count =
    elim (read_file-inflated s buf n (omega (arith, Finds-small s.inode_list name n finds))) [
      | inl (last, r) ↦ inl (seen ∙ ap (λ k. some (pos k)) last, rw seen r)
      | inr (other, r) ↦
          inr (λ e. other (ap index (some-injective (pos n) (pos 99) (sym seen ∙ e))), rw seen r)
    ]
at_result s buf name (negsuc n) seen finds count = inr (
  λ e. absurd (cc (some-injective (negsuc n) (pos 99) (sym seen ∙ e))),
  rw seen (read_file-missing s buf n),
)

-- `find_file` returns an index from 0 on, or -1, and `read_file` takes the descriptor, which is 100 more.
-- So `read_file_by_name` never reads a file: for the name of a file other than the last of 100 inodes,
-- and for a name that is not there, it accesses the inodes out of bounds; for the last one it returns
-- `NULL`.
pub read_file_by_name-OutOfReach :
    (s : FileSystem) (names : List (List ℕ)) (name x buf : List ℕ)
    → AllNamed s.inode_list names
    → IsString name x
    → length s.inode_list ≤ 100
    → ((find_file s name ≡ some (pos 99)) × (read_file_by_name s name buf ≡ some (s, none)))
      ⊎ ((find_file s name ≢ some (pos 99)) × (read_file_by_name s name buf ≡ none))
unfolding read_file_by_name get_file_descriptor
read_file_by_name-OutOfReach s names name x buf all str count =
    let (z, seen, finds) = find_file-Finds s names name x all str in
    at_result s buf name z seen finds count
