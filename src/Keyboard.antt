-- ===== src/Keyboard.antt =====
-- The keyboard driver sys/kb.c and the line buffer that it fills (`write_io_buff` of sys/stdfns.c,
-- `iobuff`, `io_buff` and `reading` of sys/isr.c).
pub mod Chars
pub mod Controls
pub mod Modifiers
pub mod Line
pub mod Read
use course_project_os_integr.Base.{
  ℕ, zero, suc, ◌+◌, ◌-◌, ◌%◌, ◌≤◌, ◌<◌, Bool, true, false, not, ◌&&◌, ◌||◌, Option, none, some,
  List, [], ◌∷◌, ltb, leb, ◌==◌, if◌then◌else◌, bit_and, length, get_elem?, ◌>>=◌, store,
}
use course_project_os_integr.CString.{strlen, memcpy}
use course_project_os_integr.Screen.{Screen, write_char, is_line_end}
use course_project_os_integr.Keyboard.Chars.{
  key_0, key_1, key_2, key_3, key_4, key_5, key_6, key_7, key_8, key_9, key_a, key_ampersand,
  key_asterisk, key_at, key_b, key_backslash, key_backspace, key_bar, key_c, key_carret, key_colon,
  key_comma, key_d, key_dollar, key_dot, key_e, key_equal, key_exclamation, key_f, key_g, key_grave,
  key_greater, key_h, key_hash, key_i, key_j, key_k, key_l, key_leftbracket, key_leftcurl,
  key_leftparenthesis, key_less, key_m, key_minus, key_n, key_o, key_p, key_percent, key_plus,
  key_q, key_question, key_quote, key_quotedouble, key_r, key_return, key_rightbracket,
  key_rightcurl, key_rightparenthesis, key_s, key_semicolon, key_slash, key_space, key_t, key_tilde,
  key_u, key_underscore, key_v, key_w, key_x, key_y, key_z,
}
use course_project_os_integr.Keyboard.Controls.{
  key_capslock, key_escape, key_f1, key_f10, key_f11, key_f12, key_f2, key_f3, key_f4, key_f5,
  key_f6, key_f7, key_f8, key_f9, key_home, key_kp_0, key_kp_2, key_kp_3, key_kp_8, key_kp_asterisk,
  key_kp_decimal, key_kp_numlock, key_lalt, key_lctrl, key_lshift, key_pageup, key_ralt, key_rctrl,
  key_rshift, key_scrolllock, key_tab, key_unknown,
}

unfoldable pub scan_code : List ℕ
scan_code =
    key_unknown ∷ key_escape ∷ key_1 ∷ key_2 ∷ key_3 ∷ key_4 ∷ key_5 ∷ key_6 ∷ key_7 ∷ key_8 ∷ key_9
    ∷ key_0 ∷ key_minus ∷ key_equal ∷ key_backspace ∷ key_tab ∷ key_q ∷ key_w ∷ key_e ∷ key_r
    ∷ key_t ∷ key_y ∷ key_u ∷ key_i ∷ key_o ∷ key_p ∷ key_leftbracket ∷ key_rightbracket
    ∷ key_return ∷ key_lctrl ∷ key_a ∷ key_s ∷ key_d ∷ key_f ∷ key_g ∷ key_h ∷ key_j ∷ key_k ∷ key_l
    ∷ key_semicolon ∷ key_quote ∷ key_grave ∷ key_lshift ∷ key_backslash ∷ key_z ∷ key_x ∷ key_c
    ∷ key_v ∷ key_b ∷ key_n ∷ key_m ∷ key_comma ∷ key_dot ∷ key_slash ∷ key_rshift ∷ key_kp_asterisk
    ∷ key_ralt ∷ key_space ∷ key_capslock ∷ key_f1 ∷ key_f2 ∷ key_f3 ∷ key_f4 ∷ key_f5 ∷ key_f6
    ∷ key_f7 ∷ key_f8 ∷ key_f9 ∷ key_f10 ∷ key_kp_numlock ∷ key_scrolllock ∷ key_home ∷ key_kp_8
    ∷ key_pageup ∷ key_kp_2 ∷ key_kp_3 ∷ key_kp_0 ∷ key_kp_decimal ∷ key_unknown ∷ key_unknown
    ∷ key_unknown ∷ key_f11 ∷ key_f12 ∷ []

-- The driver's variables, the screen, and the buffer with the index of its next byte.
pub record Keyboard : Type 0 where
  pub shift : Bool
  pub ctrl : Bool
  pub caps : Bool
  pub alt : Bool
  pub reading : Bool
  pub reading_finished : Bool
  pub first_char : Bool
  pub iobuff : List ℕ
  pub io_buff : ℕ
  pub screen : Screen

-- The switch on a digit.
unfoldable pub shifted_digit : ℕ → ℕ
shifted_digit key =
    if key == 48
    then key_rightparenthesis
    else if key == 49
    then key_exclamation
    else if key == 50
    then key_at
    else if key == 51
    then key_hash
    else if key == 52
    then key_dollar
    else if key == 53
    then key_percent
    else if key == 54
    then key_carret
    else if key == 55
    then key_ampersand
    else if key == 56
    then key_asterisk
    else if key == 57
    then key_leftparenthesis
    else key

-- The last switch.
unfoldable pub shifted_mark : ℕ → ℕ
shifted_mark key =
    if key == key_comma
    then key_less
    else if key == key_dot
    then key_greater
    else if key == key_slash
    then key_question
    else if key == key_semicolon
    then key_colon
    else if key == key_quote
    then key_quotedouble
    else if key == key_leftbracket
    then key_leftcurl
    else if key == key_rightbracket
    then key_rightcurl
    else if key == key_minus
    then key_underscore
    else if key == key_plus
    then key_equal
    else if key == key_backslash
    then key_bar
    else if key == key_grave
    then key_tilde
    else key

unfoldable pub keycode_to_ascii : Bool → Bool → ℕ → ℕ
unfolding shifted_digit shifted_mark
keycode_to_ascii shift caps code =
    let key = code % 256 in
    if shift || caps
    then if leb 97 key && leb key 122
      then key - 32
      else if leb 48 key && leb key 57
      then shifted_digit key
      else shifted_mark key
    else key

unfoldable pub write_io_buff : ℕ → Keyboard → Option Keyboard
write_io_buff c k =
    if is_line_end c
    then if k.first_char
      then (store k.iobuff k.io_buff c >>= λ b.
          some
            (record k { iobuff = b; io_buff = suc k.io_buff; reading = false; first_char = true }))
      else some (record k { first_char = true })
    else store k.iobuff k.io_buff c >>= λ b.
        some (record k { iobuff = b; io_buff = suc k.io_buff; first_char = true })

abbrev pub is_ctrl : ℕ → Bool
is_ctrl key = key == key_lctrl || key == key_rctrl

abbrev pub is_shift : ℕ → Bool
is_shift key = key == key_lshift || key == key_rshift

abbrev pub is_alt : ℕ → Bool
is_alt key = key == key_lalt || key == key_ralt

-- A read of `scan_code`; `beyond` is what stands in memory behind it.
unfoldable pub read_code : (ℕ → ℕ) → ℕ → ℕ
unfolding scan_code
read_code beyond scancode = elim (get_elem? scan_code scancode) [
  | some key ↦ key
  | none ↦ beyond scancode
]

-- The switch for a break code.
unfoldable pub release : ℕ → Keyboard → Keyboard
release key k =
    if is_ctrl key
    then record k { ctrl = false }
    else if is_shift key
    then record k { shift = false }
    else if is_alt key
    then record k { alt = false }
    else k

-- The default case for a make code.
unfoldable pub type_key : ℕ → Keyboard → Option Keyboard
unfolding write_char write_io_buff keycode_to_ascii
type_key key k =
    let c = keycode_to_ascii k.shift k.caps key in
    write_char 0x1F c k.screen >>= λ s.
    if k.reading then write_io_buff c (record k { screen = s }) else some (record k { screen = s })

-- The switch for a make code.
unfoldable pub press : ℕ → Keyboard → Option Keyboard
unfolding type_key
press key k =
    if is_ctrl key
    then some (record k { ctrl = true })
    else if is_shift key
    then some (record k { shift = true })
    else if is_alt key
    then some (record k { alt = true })
    else if key == key_capslock
    then some (record k { caps = not k.caps })
    else type_key key k

-- The interrupt handler, with the status and the byte that the controller gives.
unfoldable pub keyboard_handler : (ℕ → ℕ) → ℕ → ℕ → Keyboard → Option Keyboard
unfolding read_code release press
keyboard_handler beyond status scancode k =
    if bit_and status 1 == 0
    then some k
    else if scancode == 0xE0 || scancode == 0xE1
    then some k
    else if bit_and scancode 0x80 == 0
    then press (read_code beyond scancode) k
    else some (release (read_code beyond (scancode - 0x80)) k)

-- How `doread` of the standard input begins: it returns -1 when a read is under way, else the wait
-- begins with an empty line.
pub data ReadStart : Type 0 where
  refused : ReadStart
  begun : Keyboard → ReadStart

unfoldable pub begin_read : Keyboard → ReadStart
begin_read k =
    if k.reading || not k.reading_finished
    then refused
    else begun (record k { reading = true; reading_finished = false; io_buff = 0 })

-- What `doread` does when the wait is over: the string in the line's buffer goes to `buf` without its
-- end, and the length of the string that then stands in `buf` is returned.
unfoldable pub end_read : List ℕ → Keyboard → Option (Keyboard × List ℕ × ℕ)
unfolding strlen memcpy
end_read buf k = strlen k.iobuff >>= λ n. memcpy buf k.iobuff n >>= λ b.
    strlen b >>= λ l. some (record k { reading = false; reading_finished = true }, b, l)

-- A series of interrupts, each with a byte to read.
unfoldable pub keyboard_run : (ℕ → ℕ) → List ℕ → Keyboard → Option Keyboard
unfolding keyboard_handler
keyboard_run beyond [] k = some k
keyboard_run beyond (scancode ∷ rest) k =
    keyboard_handler beyond 1 scancode k >>= λ k'. keyboard_run beyond rest k'
