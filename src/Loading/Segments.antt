-- ===== src/Loading/Segments.antt =====
-- The segments that `readelf` describes.
use course_project_os_integr.Base.{
  ℕ, zero, suc, ◌+◌, ◌-◌, ◌*◌, ◌%◌, ◌^◌, ◌≤◌, ◌<◌, ◌≡◌, ◌≢◌, ◌⊎◌, inl, inr, refl, sym, ap, ◌∙◌,
  true, false, Option, none, some, List, arith, ltb, ◌==◌, ==_of_ne, if_false, Bool-cases, length,
  get_elem?, set, get_elem?-set_self, get_elem?-set_ne, length-set,
}
use mathlib.Core.Path.{subst}
use course_project_os_integr.Archive.{Archive, tarfs_read}
use course_project_os_integr.Loading.{
  ProgramHeader, Binary, Exec, Program, program, segment, segments_from, read_program, readelf,
}

module _ (m : Binary) (bin text actual : ℕ) where
  -- the program header of entry `i`
  abbrev header : ℕ → ProgramHeader
  header i = m.program ((bin + 64 + i * 56) % 2 ^ 64)

  -- The entry `i` of the program: the first is at the start of the text, the others where their headers say.
  abbrev pub Describes : ℕ → Exec → Type 0
  Describes i e =
      (e.seg_length ≡ (header i).p_memsz % 2 ^ 32)
      × (e.seg_page_start ≡ ((header i).p_vaddr + 2 ^ 64 - (header i).p_offset) % 2 ^ 64)
      × (i ≡ 0 → (e.seg_actual_start ≡ text) × (e.seg_mem ≡ actual % 2 ^ 64))
      × (i ≢ 0
          → (e.seg_actual_start ≡ (header i).p_vaddr)
            × (e.seg_mem ≡ (bin + (header i).p_offset) % 2 ^ 64))

  segment-Describes : (i n : ℕ) → (i ≡ 0 → n ≡ 0) → Describes i (segment m bin text actual i n)
  unfolding segment
  segment-Describes zero n first =
      let none_before : n ≡ 0 = first refl in
      let plain : actual + n ≡ actual = omega arith in
      (refl, refl, λ z. (refl, ap (λ k. k % 2 ^ 64) plain), λ nz. absurd (nz refl))
  segment-Describes (suc i) n first =
      let test : (suc i == 0) ≡ false = ==_of_ne (suc i) 0 (λ e. absurd (omega arith)) in
      (
        refl,
        refl,
        λ z. absurd (omega arith),
        λ nz. (
          if_false (suc i == 0) text ((header (suc i)).p_vaddr) test,
          if_false (suc i == 0) ((actual + n) % 2 ^ 64) ((bin + (header (suc i)).p_offset) % 2 ^ 64)
              test,
        ),
      )

  -- The entries `lo` to `hi - 1` of `d` describe the program, the others are those of `c`.
  pub record Filled (lo hi : ℕ) (c d : List Exec) : Type 0 where
    pub inside : (k : ℕ) → lo ≤ k → k < hi → (e : Exec) × (get_elem? d k ≡ some e) × Describes k e
    pub outside : (k : ℕ) → (k < lo) ⊎ (hi ≤ k) → get_elem? d k ≡ get_elem? c k

  segments_from-Filled :
      (left i n hi : ℕ) (c : List Exec)
      → i + left ≡ hi
      → hi ≤ length c
      → (i ≡ 0 → n ≡ 0)
      → (d : List Exec) × (segments_from m bin text actual left i n c ≡ some d) × Filled i hi c d
  unfolding segments_from
  segments_from-Filled zero i n hi c e fits first =
      (c, refl, record { inside = λ k lo lt. absurd (omega arith); outside = λ k out. refl })
  segments_from-Filled (suc left) i n hi c e fits first =
      let s = segment m bin text actual i n in
      let room : ltb i (length c) ≡ true = ground arith in
      let (d, runs, done) =
        segments_from-Filled left (suc i) ((n + (header i).p_memsz) % 2 ^ 64) hi (set c i s)
          (omega arith) (rw length-set fits) (λ z. absurd (omega arith)) in
      (
        d,
        rw room runs,
        record {
          inside = λ k lo lt. elim (Bool-cases (k == i)) [
            | inl same ↦
                let at : k ≡ i = ground arith in
                (
                  s,
                  ap (get_elem? d) at
                      ∙ done.outside i (inl (omega arith))
                      ∙ get_elem?-set_self c i s (omega arith),
                  subst (λ j. Describes j s) (sym at) (segment-Describes i n first),
                )
            | inr later ↦ done.inside k (ground arith) lt
          ];
          outside = λ k out.
              done.outside k (ground arith) ∙ get_elem?-set_ne c i k s (λ same. ground arith);
        },
      )

  -- More entries than the array has are written out of its bounds.
  segments_from-overflows :
      (left i n : ℕ) (c : List Exec)
      → length c < i + left
      → i ≤ length c
      → segments_from m bin text actual left i n c ≡ none
  unfolding segments_from
  segments_from-overflows zero i n c many start = absurd (omega arith)
  segments_from-overflows (suc left) i n c many start = elim (Bool-cases (ltb i (length c))) [
    | inr out ↦ rw out refl
    | inl room ↦
        let s = segment m bin text actual i n in
        rw room (
          segments_from-overflows left (suc i) ((n + (header i).p_memsz) % 2 ^ 64) (set c i s)
            (rw length-set (omega arith)) (rw length-set (ground arith)))
  ]

-- where `readelf` takes the first segment's start and contents from
abbrev pub text_start : Binary → ℕ → ℕ
text_start m bin = m.sh_addr ((bin + (m.elf bin).e_shoff + 64) % 2 ^ 64)

abbrev pub first_contents : Binary → ℕ → ℕ
first_contents m bin = (bin + 64 + ((m.elf bin).e_phnum - 1) * 56 + (m.elf bin).e_phoff) % 2 ^ 64

-- What `readelf` comes to for a file at `bin`: every program header but the last, each described by the
-- array's entry of its number; or a fault.
abbrev pub Reads : Binary → ℕ → List Exec → Option Program → Type 0
Reads m bin executable r =
    let n = (m.elf bin).e_phnum in
    ((1 ≤ n)
      × (n ≤ suc (length executable))
      × (d : List Exec) × (r ≡ some (program d (n - 1) (m.elf bin).e_entry))
      × Filled m bin (text_start m bin) (first_contents m bin) 0 (n - 1) executable d)
    ⊎ (((n ≡ 0) ⊎ (suc (length executable) < n)) × (r ≡ none))

read_program-some :
    (m : Binary) (bin : ℕ) (executable d : List Exec)
    → ((m.elf bin).e_phnum + 2 ^ 16 - 1) % 2 ^ 16 ≡ (m.elf bin).e_phnum - 1
    → segments_from m bin
        (text_start m bin)
        (first_contents m bin)
        ((m.elf bin).e_phnum - 1)
        0
        0
        executable
      ≡ some d
    → read_program m executable bin ≡ some (program d ((m.elf bin).e_phnum - 1) (m.elf bin).e_entry)
unfolding read_program
read_program-some m bin executable d count runs = rw (count, runs) refl

read_program-Reads :
    (m : Binary) (bin : ℕ) (executable : List Exec)
    → (m.elf bin).e_phnum < 2 ^ 16
    → length executable < 2 ^ 16 - 1
    → Reads m bin executable (read_program m executable bin)
unfolding read_program
read_program-Reads m bin executable small short =
    let n = (m.elf bin).e_phnum in
    let text = text_start m bin in
    elim (Bool-cases (n == 0)) [
      | inl z ↦
          let at : n ≡ 0 = ground arith in
          let wraps : (n + 2 ^ 16 - 1) % 2 ^ 16 ≡ 65535 = omega arith in
          let actual = (bin + 64 + 65535 * 56 + (m.elf bin).e_phoff) % 2 ^ 64 in
          inr (
            inl at,
            rw
                (
                  wraps,
                  segments_from-overflows m bin text actual 65535 0 0 executable (omega arith)
                      (omega arith),
                )
                refl,
          )
      | inr nz ↦
          let count : (n + 2 ^ 16 - 1) % 2 ^ 16 ≡ n - 1 = ground arith in
          let actual = first_contents m bin in
          elim (Bool-cases (ltb (suc (length executable)) n)) [
            | inl many ↦ inr (
              inr (ground arith),
              rw
                  (
                    count,
                    segments_from-overflows m bin text actual (n - 1) 0 0 executable (ground arith)
                        (omega arith),
                  )
                  refl,
            )
            | inr fits ↦
                let (d, runs, filled) =
                  segments_from-Filled m bin text actual (n - 1) 0 0 (n - 1) executable
                    (omega arith) (ground arith) (λ z. refl) in
                inl (
                  ground arith,
                  ground arith,
                  d,
                  read_program-some m bin executable d count runs,
                  filled,
                )
          ]
    ]

-- `readelf` for a file of the archive at `bin`. With `n` program headers, `n` from 1 on and at most one
-- more than the array has entries, the first `n - 1` entries of the array describe the first `n - 1`
-- headers, and the others stay; the last header is left out. With no program header the count wraps to
-- 65535, and with more the array is written out of its bounds too.
pub readelf-Reads :
    (fuel : ℕ) (a : Archive) (m : Binary) (name : List ℕ) (executable : List Exec) (bin : ℕ)
    → tarfs_read fuel a name ≡ some bin
    → bin ≢ 0
    → (m.elf bin).e_phnum < 2 ^ 16
    → length executable < 2 ^ 16 - 1
    → Reads m bin executable (readelf fuel a m name executable)
unfolding readelf
readelf-Reads fuel a m name executable bin there nz small short =
    rw (there, ==_of_ne bin 0 nz) (read_program-Reads m bin executable small short)
