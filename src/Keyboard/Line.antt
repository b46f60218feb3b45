-- ===== src/Keyboard/Line.antt =====
-- A line typed at the keyboard.
use course_project_os_integr.Base.{
  ℕ, suc, ◌+◌, ◌≤◌, ◌≡◌, Bool, true, false, ◌||◌, some, List, [], ◌∷◌, ◌++◌, map, ◌==◌, length,
  get_elem?, set, bit_and,
}
use course_project_os_integr.Screen.{Screen, is_line_end}
use course_project_os_integr.Screen.Rows.{IsOnScreen}
use course_project_os_integr.Keyboard.{
  Keyboard, keycode_to_ascii, read_code, is_ctrl, is_shift, is_alt,
}
use course_project_os_integr.Keyboard.Controls.{key_capslock}

-- A make code whose key is no modifier and gives a character other than a line end.
pub record IsText (beyond : ℕ → ℕ) (shift caps : Bool) (s : ℕ) : Type 0 where
  pub no_prefix : (s == 0xE0 || s == 0xE1) ≡ false
  pub make : (bit_and s 0x80 == 0) ≡ true
  pub no_ctrl : is_ctrl (read_code beyond s) ≡ false
  pub no_shift : is_shift (read_code beyond s) ≡ false
  pub no_alt : is_alt (read_code beyond s) ≡ false
  pub no_caps : (read_code beyond s == key_capslock) ≡ false
  pub no_end : is_line_end (keycode_to_ascii shift caps (read_code beyond s)) ≡ false

unfoldable pub AllText : (ℕ → ℕ) → Bool → Bool → List ℕ → Type 0
AllText beyond shift caps [] = Unit
AllText beyond shift caps (s ∷ codes) = IsText beyond shift caps s × AllText beyond shift caps codes

-- A read is under way with room for `n` more bytes.
pub record IsReading (n : ℕ) (k : Keyboard) : Type 0 where
  pub room : k.io_buff + n ≤ length k.iobuff
  pub waits : k.reading ≡ true
  pub begun : k.first_char ≡ true
  pub on_screen : IsOnScreen k.screen

-- `text` written over a buffer from index `i`.
unfoldable pub put : List ℕ → ℕ → List ℕ → List ℕ
put b i [] = b
put b i (c ∷ text) = put (set b i c) (suc i) text

-- The bytes of a buffer from index `i` on begin with `text`.
unfoldable pub Holds : List ℕ → ℕ → List ℕ → Type 0
Holds b i [] = Unit
Holds b i (c ∷ text) = (get_elem? b i ≡ some c) × Holds b (suc i) text

-- The characters of a series of keys.
unfoldable pub text_of : (ℕ → ℕ) → Keyboard → List ℕ → List ℕ
text_of beyond k codes = map (λ s. keycode_to_ascii k.shift k.caps (read_code beyond s)) codes

-- What a series of keys and the return key leaves: the read is over and the line stands in the
-- buffer.
pub record ReadLine (text : List ℕ) (k k' : Keyboard) : Type 0 where
  pub done : k'.reading ≡ false
  pub line : k'.iobuff ≡ put k.iobuff k.io_buff (text ++ 13 ∷ [])
  pub shift_kept : k'.shift ≡ k.shift
  pub caps_kept : k'.caps ≡ k.caps
