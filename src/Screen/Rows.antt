-- ===== src/Screen/Rows.antt =====
-- Text stays in the first 24 rows, and the clock's row is left alone.
use course_project_os_integr.Base.{
  ℕ, suc, ◌+◌, ◌-◌, ◌*◌, ◌/◌, ◌%◌, ◌^◌, ◌≤◌, ◌<◌, ◌≡◌, refl, inl, inr, some, List, arith, ltb,
  Bool-cases, length,
}
use course_project_os_integr.Screen.{Screen, scroll, update_cursor, write_char, is_line_end}
use course_project_os_integr.Screen.Frame.{
  Keeps, Keeps-trans, store-Keeps, copy_down-Keeps, fill-Keeps,
}

-- The next character goes to a cell of the first 24 rows of a memory of 25.
unfoldable pub IsOnScreen : Screen → Type 0
IsOnScreen s = (s.video_memory < 24 * 160) × (s.video_memory % 2 ≡ 0) × (25 * 160 ≤ length s.memory)

-- One row up.
scroll-Keeps :
    (mem : List ℕ)
    → 25 * 160 ≤ length mem
    → (m : List ℕ) × (scroll 24 mem ≡ some m) × Keeps (24 * 160) mem m
unfolding scroll
scroll-Keeps mem long =
    let (m1, e1, k1) =
      copy_down-Keeps (23 * 160) 0 160 (24 * 160) mem (omega arith) (omega arith) in
    let same = k1.same_length in
    let (m2, e2, k2) = fill-Keeps 80 (23 * 160) 0x20 0 (24 * 160) m1 (omega arith) (omega arith) in
    (m2, rw e1 e2, Keeps-trans k1 k2)

update_cursor-Keeps :
    (s : Screen)
    → s.video_memory < 25 * 160
    → s.video_memory % 2 ≡ 0
    → 25 * 160 ≤ length s.memory
    → (t : Screen) × (update_cursor s ≡ some t) × IsOnScreen t × Keeps (24 * 160) s.memory t.memory
unfolding update_cursor IsOnScreen
update_cursor-Keeps s near even long = elim (Bool-cases (ltb (s.video_memory / 80 / 2) 24)) [
  | inl upper ↦
      let low : s.video_memory < 24 * 160 = ground arith in
      (
        record s {
          cursor =
              (s.video_memory / 80 / 2 * 80
                + (s.video_memory - s.video_memory / 80 / 2 * 80 * 2) / 2 % 80)
              % 2 ^ 16;
        },
        rw upper refl,
        (low, even, long),
        record { same_length = refl; beyond = λ k h. refl },
      )
  | inr last ↦
      let at_24 : s.video_memory / 80 / 2 ≡ 24 = ground arith in
      let (m, e, k) = scroll-Keeps s.memory long in
      let same = k.same_length in
      (
        record { memory = m; video_memory = 23 * 80 * 2; cursor = 23 * 80 % 2 ^ 16 },
        rw (last, at_24, e) refl,
        (omega arith, refl, omega arith),
        k,
      )
]

-- Printing a character on a screen of 25 rows with the place of the next character in the first 24
-- returns with the place in the first 24 again, however often the text scrolls, and changes nothing
-- from the 25th row on, where the clock stands.
pub write_char-IsOnScreen :
    (color c : ℕ) (s : Screen)
    → IsOnScreen s
    → (t : Screen) × (write_char color c s ≡ some t)
      × IsOnScreen t
      × Keeps (24 * 160) s.memory t.memory
unfolding write_char IsOnScreen
write_char-IsOnScreen color c s (near, even, long) = elim (Bool-cases (is_line_end c)) [
  | inl line ↦
      let (t, e, on, k) =
        update_cursor-Keeps (record s { video_memory = 0xA0 * ((s.video_memory + 0xA0) / 0xA0) })
          (omega arith) (omega arith) long in
      (t, rw line e, on, k)
  | inr plain ↦
      let (m1, e1, k1) =
        store-Keeps (24 * 160) s.video_memory c s.memory (omega arith) (omega arith) in
      let l1 = k1.same_length in
      let (m2, e2, k2) =
        store-Keeps (24 * 160) (suc s.video_memory) (color % 256) m1 (omega arith) (omega arith) in
      let l2 = k2.same_length in
      let (t, e3, on, k3) =
        update_cursor-Keeps (record s { memory = m2; video_memory = s.video_memory + 2 })
          (omega arith) (omega arith) (omega arith) in
      (t, rw (plain, e1, e2) e3, on, Keeps-trans k1 (Keeps-trans k2 k3))
]
