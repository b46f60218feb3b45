-- ===== src/Archive.antt =====
-- The archive that the kernel is linked with: sys/elf.c, with `do_open` and `do_close` of sys/isr.c.
pub mod Walk
pub mod Open
use course_project_os_integr.Base.{
  ℕ, zero, suc, ◌+◌, ◌-◌, ◌*◌, ◌/◌, ◌%◌, ◌^◌, Bool, true, false, ◌&&◌, not, Option, none, some,
  List, [], ◌∷◌, ltb, leb, ◌==◌, if◌then◌else◌, get_elem?, ◌>>=◌, store,
}
use course_project_os_integr.CString.{strcmp, strlen, strncpy, my_atool}

-- The bytes from the start of the fields `name` and `size` on.
pub record Header : Type 0 where
  pub name : List ℕ
  pub size : List ℕ

-- `_binary_tarfs_start`, `_binary_tarfs_end`, and what lies at each address, read as a header.
pub record Archive : Type 0 where
  pub start : ℕ
  pub finish : ℕ
  pub header : ℕ → Header

-- `round` takes a 32-bit `int`. From 2^31 on the argument is negative and division goes towards 0; the
-- result is widened to 64 bits. An overflow is undefined.
unfoldable pub round : ℕ → Option ℕ
round n =
    if ltb n (2 ^ 31)
    then (if ltb ((n / 512 + 1) * 512) (2 ^ 31) then some ((n / 512 + 1) * 512) else none)
    else some ((2 ^ 64 + 512 - (2 ^ 32 - n) / 512 * 512) % 2 ^ 64)

-- The end of each loop's body: the next header. A header has 512 bytes.
unfoldable pub next_header : Archive → ℕ → Option ℕ
unfolding round my_atool
next_header a h = my_atool (a.header h).size >>= λ size.
    if size == 0
    then some ((h + 512) % 2 ^ 64)
    else (round size >>= λ r. some ((h + 512 + r) % 2 ^ 64))

-- The loop of `tarfs_read`, from the header at `h` on: the address of the contents, or `NULL`. `none`
-- is a fault, or more rounds than the fuel.
unfoldable pub tarfs_read_from : ℕ → Archive → List ℕ → ℕ → Option ℕ
unfolding next_header strcmp
tarfs_read_from zero a name h = none
tarfs_read_from (suc fuel) a name h =
    let rest = next_header a h >>= tarfs_read_from fuel a name in
    if leb h a.finish
    then (strcmp (a.header h).name name >>= λ r. if r == 0 then some ((h + 512) % 2 ^ 64) else rest)
    else some 0

unfoldable pub tarfs_read : ℕ → Archive → List ℕ → Option ℕ
unfolding tarfs_read_from
tarfs_read fuel a name = tarfs_read_from fuel a name a.start

-- `files`, 50 names of 100 bytes, the flags beside them, and the number of the next free one.
pub record Table : Type 0 where
  pub files : List (List ℕ)
  pub file_used : List ℕ
  pub file_count : ℕ

-- `strncpy(files[file_count++], name, strlen(name))`
unfoldable pub add_name : List ℕ → Table → Option Table
unfolding strncpy strlen
add_name name t = get_elem? t.files t.file_count >>= λ entry. strlen name >>= λ n.
    strncpy entry name n >>= λ copied. store t.files t.file_count copied >>= λ files.
    some (record t { files = files; file_count = suc t.file_count })

unfoldable pub tarfs_dir_from : ℕ → Archive → ℕ → Table → Option Table
unfolding next_header add_name my_atool
tarfs_dir_from zero a h t = none
tarfs_dir_from (suc fuel) a h t =
    let rest = λ (t : Table). next_header a h >>= λ n. tarfs_dir_from fuel a n t in
    if leb h a.finish
    then (my_atool (a.header h).size >>= λ size.
        if ltb 0 size then add_name (a.header h).name t >>= rest else rest t)
    else some t

unfoldable pub tarfs_dir : ℕ → Archive → Table → Option Table
unfolding tarfs_dir_from
tarfs_dir fuel a t = tarfs_dir_from fuel a a.start t

-- `for (i = 1; i < file_count; i++)`, with `left` rounds to go: the index of the name, or 0.
unfoldable pub find_name : ℕ → ℕ → List ℕ → Table → Option ℕ
unfolding strcmp
find_name zero i name t = some 0
find_name (suc left) i name t =
    let rest = find_name left (suc i) name t in
    get_elem? t.files i >>= λ file. strcmp name file >>= λ r. if r == 0 then some i else rest

unfoldable pub tarfs_open : List ℕ → Table → Option (Table × ℕ)
unfolding find_name
tarfs_open name t = find_name (t.file_count - 1) 1 name t >>= λ fd.
    if fd == 0
    then some (t, 0)
    else (store t.file_used fd 1 >>= λ used. some (record t { file_used = used }, fd))

-- A descriptor of 50 or more belongs to the file system, and closing it does nothing.
unfoldable pub do_close : ℕ → Table → Option Table
do_close fd t =
    if ltb fd 50
    then (store t.file_used fd 0 >>= λ used. some (record t { file_used = used }))
    else some t
