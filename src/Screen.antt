-- ===== src/Screen.antt =====
-- The text screen of sys/stdfns.c: the bytes from `START_MEMORY` on, the place of the next
-- character and the cursor's position last sent to the controller.
pub mod Frame
pub mod Rows
use course_project_os_integr.Base.{
  ℕ, zero, suc, ◌+◌, ◌-◌, ◌*◌, ◌/◌, ◌%◌, ◌^◌, ◌≤◌, ◌<◌, Bool, true, false, ◌||◌, Option, none, some,
  List, [], ◌∷◌, ltb, ◌==◌, if◌then◌else◌, length, get_elem?, ◌>>=◌, store,
}
use course_project_os_integr.CString.{convert}

pub record Screen : Type 0 where
  pub memory : List ℕ
  pub video_memory : ℕ
  pub cursor : ℕ

-- `memcpy` within the screen, from `distance` bytes further on, byte by byte from index `i`.
unfoldable pub copy_down : ℕ → ℕ → ℕ → List ℕ → Option (List ℕ)
copy_down zero i distance mem = some mem
copy_down (suc n) i distance mem =
    get_elem? mem (i + distance) >>= λ b. store mem i b >>= λ m. copy_down n (suc i) distance m

-- `n` times a character and its colour, from index `i`.
unfoldable pub fill : ℕ → ℕ → ℕ → ℕ → List ℕ → Option (List ℕ)
fill zero i c color mem = some mem
fill (suc n) i c color mem =
    store mem i c >>= λ m. store m (suc i) color >>= λ m'. fill n (i + 2) c color m'

-- The part of `update_cursor` for an output below the 24th row.
unfoldable pub scroll : ℕ → List ℕ → Option (List ℕ)
unfolding copy_down fill
scroll row1 mem =
    let temp_row = row1 - 24 + 1 in
    copy_down ((24 + 2 ^ 32 - temp_row) % 2 ^ 32 * 160 % 2 ^ 32) 0 (temp_row * 80 * 2) mem >>= λ m.
    fill 80 (23 * 80 * 2) 0x20 0x0 m

unfoldable pub update_cursor : Screen → Option Screen
unfolding scroll
update_cursor s =
    let diff = s.video_memory in
    let row1 = diff / 80 / 2 in
    let col1 = (diff - row1 * 80 * 2) / 2 % 80 in
    if ltb row1 24
    then some (record s { cursor = (row1 * 80 + col1) % 2 ^ 16 })
    else scroll row1 s.memory >>= λ m.
        some (record { memory = m; video_memory = 23 * 80 * 2; cursor = 23 * 80 % 2 ^ 16 })

-- '\n' or a carriage return
abbrev pub is_line_end : ℕ → Bool
is_line_end c = c == 10 || c == 13

unfoldable pub write_char : ℕ → ℕ → Screen → Option Screen
unfolding update_cursor
write_char color c s =
    if is_line_end c
    then update_cursor (record s { video_memory = 0xA0 * ((s.video_memory + 0xA0) / 0xA0) })
    else store s.memory s.video_memory c >>= λ m.
        store m (suc s.video_memory) (color % 256) >>= λ m'.
        update_cursor (record s { memory = m'; video_memory = s.video_memory + 2 })

-- The loop of `write_string`, which moves the cursor only at its end and takes only '\n' as a line
-- end.
unfoldable pub write_string_loop : ℕ → List ℕ → Screen → Option Screen
write_string_loop color [] s = none
write_string_loop color (c ∷ string) s =
    let line =
      write_string_loop color string
        (record s { video_memory = 0xA0 * ((s.video_memory + 0xA0) / 0xA0) }) in
    if c == 0
    then some s
    else if c == 10
    then line
    else store s.memory s.video_memory c >>= λ m.
        store m (suc s.video_memory) (color % 256) >>= λ m'.
        write_string_loop color string (record s { memory = m'; video_memory = s.video_memory + 2 })

unfoldable pub write_string : ℕ → List ℕ → Screen → Option Screen
unfolding write_string_loop update_cursor
write_string color string s = write_string_loop color string s >>= update_cursor

unfoldable pub cls : Screen → Option Screen
unfolding fill update_cursor
cls s = fill (25 * 80) 0 0x20 0x0 s.memory >>= λ m.
    update_cursor (record s { memory = m; video_memory = 0 })

-- The first character of a number in base 10, and the colour.
unfoldable pub put_digit : ℕ → ℕ → List ℕ → Option (List ℕ)
unfolding convert
put_digit at n mem =
    convert n 10 >>= λ text. get_elem? text 0 >>= λ c. store mem at c >>= λ m. store m (suc at) 0x1F

unfoldable pub put_colon : ℕ → List ℕ → Option (List ℕ)
put_colon at mem = store mem at 58 >>= λ m. store m (suc at) 0x1F

-- The clock stands at `TIMER_MEMORY - START_MEMORY`.
abbrev pub timer_memory : ℕ
timer_memory = 0xF90

unfoldable pub write_time : ℕ → ℕ → ℕ → ℕ → ℕ → ℕ → Screen → Option Screen
unfolding put_digit put_colon
write_time su st mu mt hu ht s = put_digit timer_memory ht s.memory >>= λ m1.
    put_digit (timer_memory + 2) hu m1 >>= λ m2. put_colon (timer_memory + 4) m2 >>= λ m3.
    put_digit (timer_memory + 6) mt m3 >>= λ m4. put_digit (timer_memory + 8) mu m4 >>= λ m5.
    put_colon (timer_memory + 10) m5 >>= λ m6. put_digit (timer_memory + 12) st m6 >>= λ m7.
    put_digit (timer_memory + 14) su m7 >>= λ m8. some (record s { memory = m8 })
