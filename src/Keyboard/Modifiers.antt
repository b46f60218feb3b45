-- ===== src/Keyboard/Modifiers.antt =====
-- The modifier keys and the characters that the keys give.
use course_project_os_integr.Base.{
  ℕ, zero, suc, ◌≤◌, ◌<◌, ◌≡◌, ◌≢◌, ◌⊎◌, inl, inr, refl, sym, ap, Bool, true, false, not, ◌&&◌,
  ◌||◌, Option, some, [], ◌∷◌, arith, leb, ◌==◌, eq_of_==, all_below, all_below_sound, Bool-cases,
}
use mathlib.Core.Bool.{not-not}
use course_project_os_integr.Keyboard.{
  Keyboard, keycode_to_ascii, read_code, keyboard_run, scan_code,
}

-- The character of a key in the table of scan codes.
unfoldable pub key_char : Bool → Bool → ℕ → ℕ
unfolding keycode_to_ascii read_code
key_char shift caps scancode = keycode_to_ascii shift caps (read_code (λ _. 0) scancode)

-- The last number below `n` that passes, with the proof.
find_below :
    (n : ℕ) (p : ℕ → Bool)
    → ((i : ℕ) × (i < n) × (p i ≡ true)) ⊎ (all_below n (λ i. not (p i)) ≡ true)
unfolding all_below
find_below zero p = inr refl
find_below (suc n) p = elim (Bool-cases (p n)) [
  | inl here ↦ inl (n, omega arith, here)
  | inr not_here ↦ elim (find_below n p) [
    | inl (i, lt, good) ↦ inl (i, omega arith, good)
    | inr empty ↦ inr (rw (empty, not_here) refl)
  ]
]

-- No key of the table gives the character.
unfoldable untyped : ℕ → Bool
unfolding all_below key_char
untyped c =
    all_below 83 (λ s. not (key_char false false s == c))
    && all_below 83 (λ s. not (key_char true false s == c))

all_but_plus : all_below 127 (λ c. leb c 31 || (c == 43) || not (untyped c)) ≡ true
unfolding untyped all_below
all_but_plus = refl

plus_untyped : (shift caps : Bool) → all_below 83 (λ s. not (key_char shift caps s == 43)) ≡ true
unfolding key_char all_below
plus_untyped false false = refl
plus_untyped false true = refl
plus_untyped true false = refl
plus_untyped true true = refl

-- No key of the table gives '+', whatever the modifiers.
pub key_char-no_plus : (shift caps : Bool) (s : ℕ) → s < 83 → key_char shift caps s ≢ 43
key_char-no_plus shift caps s lt e =
    let ok =
      all_below_sound 83 (λ s. not (key_char shift caps s == 43)) s (plus_untyped shift caps) lt in
    ground arith

-- Every printable ASCII character other than '+' is what some key of the table gives, with shift or
-- without, caps lock off.
pub key_char-typed :
    (c : ℕ)
    → 32 ≤ c
    → c < 127
    → c ≢ 43
    → (shift : Bool) × (s : ℕ) × (s < 83) × (key_char shift false s ≡ c)
unfolding untyped
key_char-typed c lo hi other = elim (find_below 83 (λ s. key_char false false s == c)) [
  | inl (s, lt, good) ↦ (false, s, lt, eq_of_== (key_char false false s) c good)
  | inr bare ↦ elim (find_below 83 (λ s. key_char true false s == c)) [
    | inl (s, lt, good) ↦ (true, s, lt, eq_of_== (key_char true false s) c good)
    | inr shifted ↦
        let ok =
          all_below_sound 127 (λ c. leb c 31 || (c == 43) || not (untyped c)) c all_but_plus hi in
        let absent : untyped c ≡ true = rw (bare, shifted) refl in ground arith
  ]
]

-- What a key does that is held and one that is let go: the key's press leaves `down`, and its release
-- then leaves `up`.
abbrev pub HeldAndLet : (ℕ → ℕ) → Keyboard → ℕ → ℕ → Keyboard → Keyboard → Type 0
HeldAndLet beyond k make break down up =
    (keyboard_run beyond (make ∷ []) k ≡ some down)
    × (keyboard_run beyond (break ∷ []) down ≡ some up)
    × (keyboard_run beyond (make ∷ break ∷ []) k ≡ some up)

-- With the modifiers up, the press of Ctrl, of either shift or of Alt sets that modifier and changes
-- nothing else, and its release brings the driver back to the state before. The press of caps lock turns
-- its mode over, its release keeps it, and a second press and release turn it back.
pub keyboard_run-balanced :
    (beyond : ℕ → ℕ) (k : Keyboard)
    → k.shift ≡ false
    → k.ctrl ≡ false
    → k.alt ≡ false
    → HeldAndLet beyond k 0x1d 0x9d (record k { ctrl = true }) k
      × HeldAndLet beyond k 0x2a 0xaa (record k { shift = true }) k
      × HeldAndLet beyond k 0x36 0xb6 (record k { shift = true }) k
      × HeldAndLet beyond k 0x38 0xb8 (record k { alt = true }) k
      × HeldAndLet beyond k 0x3a 0xba
          (record k { caps = not k.caps })
          (record k { caps = not k.caps })
      × (keyboard_run beyond (0x3a ∷ 0xba ∷ 0x3a ∷ 0xba ∷ []) k ≡ some k)
unfolding keyboard_run scan_code
keyboard_run-balanced beyond k s c a =
    let ctrl = ap {A = Bool} {B = Option Keyboard} (λ b. some (record k { ctrl = b })) (sym c) in
    let shift = ap {A = Bool} {B = Option Keyboard} (λ b. some (record k { shift = b })) (sym s) in
    let alt = ap {A = Bool} {B = Option Keyboard} (λ b. some (record k { alt = b })) (sym a) in
    (
      (refl, ctrl, ctrl),
      (refl, shift, shift),
      (refl, shift, shift),
      (refl, alt, alt),
      (refl, refl, refl),
      ap (λ b. some (record k { caps = b })) (not-not k.caps),
    )
