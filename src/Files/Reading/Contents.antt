-- ===== src/Files/Reading/Contents.antt =====
-- Writing a file and reading it back.
use course_project_os_integr.Base.{
  ℕ, zero, suc, ◌+◌, ◌%◌, ◌^◌, ◌≤◌, ◌<◌, ◌≡◌, refl, ap, ◌∙◌, true, false, some, List, [], ◌∷◌,
  arith, ltb, ◌==◌, ==_refl, if_true, if◌then◌else◌, length, get_elem?, get_elem?-lt, set,
  get_elem?-set_self, store, replicate,
}
use course_project_os_integr.Base.Integers.{pos}
use course_project_os_integr.CString.{strlen, memcpy}
use course_project_os_integr.CString.Compare.{IsString, strlen-length}
use course_project_os_integr.Files.{Inode, FileSystem, inflate, write_file, inode_at, put_inode}
use mathlib.Core.Path.{subst}
use course_project_os_integr.Base.{sym, ◌++◌, take, drop, get_elem?-take, length-take}
use course_project_os_integr.Files.{flush_blocks, write_disk, write_interface, read_disk}
use course_project_os_integr.Files.Sync.{Stale, rsync}
use course_project_os_integr.Files.Errors.{deflate-inflate}
use course_project_os_integr.Files.Reading.{advance, read_file}

memcpy-Copied :
    (n : ℕ) (dest src : List ℕ)
    → n ≤ length dest
    → n ≤ length src
    → (d : List ℕ) × (memcpy dest src n ≡ some d)
      × (length d ≡ length dest)
      × ((k : ℕ) → k < n → get_elem? d k ≡ get_elem? src k)
unfolding memcpy
memcpy-Copied zero dest src p q = (dest, refl, refl, λ k lt. absurd (omega arith))
memcpy-Copied (suc n) [] src p q = absurd (omega arith)
memcpy-Copied (suc n) (c ∷ dest) [] p q = absurd (omega arith)
memcpy-Copied (suc n) (c ∷ dest) (e ∷ src) p q =
    let (d, runs, len, same) = memcpy-Copied n dest src (omega arith) (omega arith) in
    (e ∷ d, rw runs refl, ap suc len, λ k. at_index k e d src n same)
  where
    at_index :
        (k e : ℕ) (d src : List ℕ) (n : ℕ)
        → ((k : ℕ) → k < n → get_elem? d k ≡ get_elem? src k)
        → k < suc n
        → get_elem? (e ∷ d) k ≡ get_elem? (e ∷ src) k
    at_index zero e d src n same lt = refl
    at_index (suc k) e d src n same lt = same k (omega arith)

pub IsString-length : (a x : List ℕ) → IsString a x → length x < length a
IsString-length [] x h = absurd h
IsString-length (c ∷ a) [] h = omega arith
IsString-length (c ∷ a) (x ∷ xs) (e, ne, h) = omega (arith, IsString-length a xs h)

store-Inode :
    (inodes : List Inode) (i : ℕ) (d : Inode)
    → i < length inodes
    → store inodes i d ≡ some (set inodes i d)
store-Inode inodes i d lt =
    let inside : ltb i (length inodes) ≡ true = ground arith in rw inside refl

-- the bytes of a sector that was written, in the buffer that it is read into
sector_bytes :
    (wb contents rest : List ℕ) (n k : ℕ)
    → ((k : ℕ) → k < n → get_elem? wb k ≡ get_elem? contents k)
    → n ≤ 512
    → 512 ≤ length wb
    → k < n
    → get_elem? (take 512 wb ++ rest) k ≡ get_elem? contents k
sector_bytes wb contents rest n k same le long lt =
    get_elem?-take 512 k wb rest (omega arith) (omega arith) ∙ same k lt

-- one of the first four inodes after `rsync`
kept_inode :
    (stale : Stale) (s : FileSystem) (i : ℕ) (e : Inode)
    → i < 4
    → get_elem? s.inode_list i ≡ some e
    → get_elem? (rsync stale s).inode_list i ≡ some e
unfolding rsync
kept_inode stale s i e four at =
    get_elem?-take 4 i s.inode_list (drop 4 stale.inodes) four (get_elem?-lt s.inode_list i at) ∙ at

-- What `write_file` to inode `i` leaves: the inode with its new size, and a sector that begins with the
-- string.
abbrev Written : FileSystem → ℕ → Inode → List ℕ → Type 0
Written s i e contents =
    (get_elem? s.inode_list i ≡ some e)
    × ((rest : List ℕ) (k : ℕ)
        → k < e.size
        → get_elem? (s.sectors (e.start_block % 2 ^ 32) ++ rest) k ≡ get_elem? contents k)
    × ((rest : List ℕ) → 512 ≤ length (s.sectors (e.start_block % 2 ^ 32) ++ rest))

-- the run of `write_file`, from what its steps come to
write_file-runs :
    (stale : Stale) (s : FileSystem) (contents wb : List ℕ) (i n : ℕ) (d : Inode)
    → strlen contents ≡ some n
    → n % 2 ^ 32 ≡ n
    → get_elem? s.inode_list i ≡ some d
    → i < length s.inode_list
    → let e = record d { size = n } in
      let s1 = rsync stale (record s { inode_list = set s.inode_list i e }) in
      get_elem? s1.inode_list i ≡ some e
      → memcpy s1.write_buffer contents n ≡ some wb
      → write_file (rsync stale) s contents (inflate (pos i))
        ≡ some (write_interface (d.start_block % 2 ^ 32) (record s1 { write_buffer = wb }), pos 1)
unfolding write_file inode_at put_inode flush_blocks write_disk
write_file-runs stale s contents wb i n d len size at inside again fills =
    let stored = store-Inode s.inode_list i (record d { size = n }) inside in
    rw (deflate-inflate (pos i), len, at, size, stored, again, fills) refl

written :
    (stale : Stale) (s : FileSystem) (contents x : List ℕ) (i : ℕ) (d : Inode)
    → IsString contents x
    → length x ≤ 512
    → 512 ≤ length stale.write_buffer
    → get_elem? s.inode_list i ≡ some d
    → i < 4
    → (s' : FileSystem) × (write_file (rsync stale) s contents (inflate (pos i)) ≡ some (s', pos 1))
      × Written s' i (record d { size = length x }) contents
unfolding write_interface
written stale s contents x i d str small long at four =
    let size : length x % 2 ^ 32 ≡ length x = omega arith in
    let inside = get_elem?-lt s.inode_list i at in
    let e = record d { size = length x } in
    let s1 = record s { inode_list = set s.inode_list i e } in
    let again = kept_inode stale s1 i e four (get_elem?-set_self s.inode_list i e inside) in
    let buffer : (rsync stale s1).write_buffer ≡ stale.write_buffer = unfold rsync in refl in
    let enough = IsString-length contents x str in
    let (wb, fills, len, same) =
      memcpy-Copied (length x) (rsync stale s1).write_buffer contents (rw buffer (omega arith))
        (omega arith) in
    let long' : 512 ≤ length wb = rw (len, buffer) long in
    let b = d.start_block % 2 ^ 32 in
    let s' = write_interface b (record (rsync stale s1) { write_buffer = wb }) in
    let there : s'.sectors b ≡ take 512 wb =
      if_true (b == b) (take 512 wb)
        (if b == b + 1 then take 512 (drop 512 wb) else (rsync stale s1).sectors b) (==_refl b) in
    (
      s',
      write_file-runs stale s contents wb i (length x) d (strlen-length contents x str) size at
          inside again fills,
      (
        again,
        λ rest k lt.
            ap (λ l. get_elem? (l ++ rest) k) there
            ∙ sector_bytes wb contents rest (length x) k same small long' lt,
        λ rest. subst (λ l. 512 ≤ length (l ++ rest)) (sym there) (length-take 512 wb rest long'),
      ),
    )

-- Writing a file and reading it: `write_file` of a string of at most 512 bytes, not empty, to the
-- descriptor of one of the first four inodes, whose position is 0, with the program's `rsync`, succeeds,
-- and `read_file` of at most that many bytes gives the first `count` bytes of the string and moves the
-- position to `count`, or to 0 when that is the file's end. The caller's buffer has 8 bytes at least and
-- `count`, and the disk's buffer a sector.
pub write_file-read_file :
    (stale : Stale) (s : FileSystem) (contents x buf : List ℕ) (i count : ℕ) (d : Inode)
    → IsString contents x
    → 0 < length x
    → length x ≤ 512
    → 512 ≤ length stale.write_buffer
    → get_elem? s.inode_list i ≡ some d
    → i < 4
    → d.position ≡ 0
    → 8 ≤ length buf
    → count ≤ length buf
    → count ≤ length x
    → (s1 : FileSystem) × (s2 : FileSystem) × (b : List ℕ) × (write_file
          (rsync stale)
          s
          contents
          (inflate (pos i))
        ≡ some (s1, pos 1))
      × (read_file s1 (inflate (pos i)) count buf ≡ some (s2, some b))
      × ((k : ℕ) → k < count → get_elem? b k ≡ get_elem? contents k)
      × (s2.inode_list
          ≡ set s1.inode_list i (record d { size = length x; position = count % length x }))
unfolding read_file inode_at put_inode advance read_disk
write_file-read_file stale s contents x buf i count d str some_byte small long at four start eight
      room le =
    let (s1, writes, (there, bytes, sector)) =
      written stale s contents x i d str small long at four in
    let valid : i < length s1.inode_list = get_elem?-lt s1.inode_list i there in
    let rest = drop 512 s1.read_buffer in
    let source = s1.sectors (d.start_block % 2 ^ 32) ++ rest in
    let enough : 512 ≤ length source = sector rest in
    let (cleared, clears, same_length, _) =
      memcpy-Copied 8 buf (replicate 8 0) eight (omega arith) in
    let (b, reads, _, same) = memcpy-Copied count cleared source (omega arith) (omega arith) in
    let some_size : (length x == 0) ≡ false = ground arith in
    let place : (0 + count) % 2 ^ 32 % length x ≡ count % length x =
      ap (λ c. c % length x) (omega arith) in
    let moved = record d { size = length x; position = count % length x } in
    let stored = store-Inode s1.inode_list i moved valid in
    (
      s1,
      record s1 { read_buffer = source; inode_list = set s1.inode_list i moved },
      b,
      writes,
      rw (deflate-inflate (pos i), there, start, clears, reads, some_size, place, stored) refl,
      λ k lt. same k lt ∙ bytes rest k (omega arith),
      refl,
    )
