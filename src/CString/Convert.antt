-- ===== src/CString/Convert.antt =====
-- `convert` stays inside its buffer, and `my_atoi` and `my_atool` read back what it writes.
use course_project_os_integr.Base.{
  ℕ, zero, suc, ◌+◌, ◌-◌, ◌*◌, ◌/◌, ◌%◌, ◌^◌, ◌≤◌, ◌<◌, ◌≡◌, ◌≢◌, inl, inr, refl, sym, ap, ◌∙◌,
  Bool, true, false, Option, none, some, List, [], ◌∷◌, arith, ltb, ◌==◌, eq_of_==, Bool-cases,
  Option-cases, length, get_elem?, get_elem?-some, all_below, all_below_sound, ◌>>=◌,
}
use native.Mathlib.Nat.{
  lt_of_lt_of_le, pow-zero, pow-suc, pow-le-pow_left, div-lt_iff_lt-mul, div-add-mod', mod-lt,
}
use mathlib.Core.Option.{some-injective}
use course_project_os_integr.CString.{
  parse_from, my_atoi, my_atool, digit_chars, convert_loop, convert,
}

-- The characters of the digits 0 to 9 stand for their values, and none is the end of a string.
abbrev digit_ok : ℕ → Bool
digit_ok d = elim (get_elem? digit_chars d) [ none ↦ false | some c ↦ c == d + 48 ]

digit_table : all_below 10 digit_ok ≡ true
unfolding all_below
digit_table = refl

digit_char : (d : ℕ) → d < 10 → get_elem? digit_chars d ≡ some (d + 48)
digit_char d h = elim (Option-cases (get_elem? digit_chars d)) [
  | inl e ↦ absurd (ground (arith, all_below_sound 10 digit_ok d digit_table h))
  | inr (c, e) ↦ ground (arith, all_below_sound 10 digit_ok d digit_table h)
]

digit-some : (d : ℕ) → d < 16 → (c : ℕ) × (get_elem? digit_chars d ≡ some c)
digit-some d h = get_elem?-some digit_chars d (omega arith)

-- One digit read back.
parse_digit :
    (base d res : ℕ) (s : List ℕ)
    → d < 10
    → res * base + d < 2 ^ 32
    → parse_from base res ((d + 48) ∷ s) ≡ parse_from base (res * base + d) s
unfolding parse_from
parse_digit base d res s h fits =
    let nonzero : (d + 48 == 0) ≡ false = ground arith in
    let small : ltb (d + 48) 128 ≡ true = ground arith in
    let value : (res * base + (d + 48) + 2 ^ 32 - 48) % 2 ^ 32 ≡ res * base + d = omega arith in
    rw (nonzero, small, value)

-- The quotient fits one digit less.
quotient_fits : (base room n : ℕ) → 0 < base → n < base ^ suc room → n / base < base ^ room
quotient_fits base room n pos h = (div-lt_iff_lt-mul pos).1 (rw pow-suc at h)

digits_left : (base room n : ℕ) → n < base ^ room → n ≢ 0 → 0 < room
digits_left base zero n h ne = absurd (ne (omega (arith, pow-zero base)))
digits_left base (suc room) n h ne = omega arith

-- Everything that the loop of `convert` promises of a number with at most `room` digits.
abbrev Converts : ℕ → ℕ → ℕ → List ℕ → Option (List ℕ) → Type 0
Converts base room n acc none = ⊥
Converts base room n acc (some s) =
    (length s ≤ length acc + room)
    × (base ≤ 10 → n < 2 ^ 32 → parse_from base 0 s ≡ parse_from base n acc)

module _ (base : ℕ) (lo : 2 ≤ base) (hi : base ≤ 16) where
  -- the quotient and the digit make up the number
  whole : (n : ℕ) → n / base * base + n % base ≡ n
  whole n = div-add-mod' n base

  digit_small : (n : ℕ) → n % base < base
  digit_small n = mod-lt n (omega arith)

  parse_step :
      (n c : ℕ) (acc : List ℕ)
      → get_elem? digit_chars (n % base) ≡ some c
      → base ≤ 10
      → n < 2 ^ 32
      → parse_from base (n / base) (c ∷ acc) ≡ parse_from base n acc
  parse_step n c acc e small fits =
      let value : c ≡ n % base + 48 =
        some-injective c (n % base + 48)
          (sym e ∙ digit_char (n % base) (omega (arith, digit_small n))) in
      let step =
        parse_digit base (n % base) (n / base) acc (omega (arith, digit_small n))
          (omega (arith, whole n)) in
      ap (λ d. parse_from base (n / base) (d ∷ acc)) value
      ∙ step
      ∙ ap (λ r. parse_from base r acc) (whole n)

  quotient-le : (n : ℕ) → n / base ≤ n
  quotient-le n = omega arith

  convert_loop_lem :
      (room n : ℕ) (acc : List ℕ)
      → n < base ^ room
      → 0 < room
      → Converts base room n acc (convert_loop room n base acc)
  unfolding convert_loop
  convert_loop_lem zero n acc h pos = absurd (omega arith)
  convert_loop_lem (suc room) n acc h pos =
      let (c, e) = digit-some (n % base) (omega (arith, digit_small n)) in
      elim (Bool-cases (n / base == 0)) [
        | inl last ↦
            let zero_left : n / base ≡ 0 = eq_of_== (n / base) 0 last in
            rw (e, last)
              (
                omega arith,
                λ small fits.
                    ap (λ r. parse_from base r (c ∷ acc)) (sym zero_left)
                    ∙ parse_step n c acc e small fits,
              )
        | inr more ↦
            let ne : n / base ≢ 0 = ground arith in
            let fits' = quotient_fits base room n (omega arith) h in
            let ih =
              convert_loop_lem room (n / base) (c ∷ acc) fits'
                (digits_left base room (n / base) fits' ne) in
            rw (e, more) (weaken room n c acc (convert_loop room (n / base) base (c ∷ acc)) e ih)
      ]
    where
      weaken :
          (room n c : ℕ) (acc : List ℕ) (r : Option (List ℕ))
          → get_elem? digit_chars (n % base) ≡ some c
          → Converts base room (n / base) (c ∷ acc) r
          → Converts base (suc room) n acc r
      weaken room n c acc none e h = h
      weaken room n c acc (some s) e (len, parse) = (
        omega arith,
        λ small fits. parse small (omega (arith, quotient-le n)) ∙ parse_step n c acc e small fits,
      )

-- the digits of a number read back: what is left of it is the end of the string
parse_end : (base n : ℕ) → parse_from base n (0 ∷ []) ≡ some n
unfolding parse_from
parse_end base n = refl

Converts-convert :
    (base n : ℕ) → 2 ≤ base → base ≤ 16 → n < 2 ^ 64 → Converts base 64 n (0 ∷ []) (convert n base)
unfolding convert
Converts-convert base n lo hi h =
    let nonzero : (base == 0) ≡ false = ground arith in
    let fits : n < base ^ 64 = lt_of_lt_of_le h (pow-le-pow_left lo 64) in
    rw nonzero (convert_loop_lem base lo hi 64 n (0 ∷ []) fits (omega arith))

Converts-inv :
    (base n : ℕ) (r : Option (List ℕ))
    → Converts base 64 n (0 ∷ []) r
    → (s : List ℕ) × (r ≡ some s)
      × (length s ≤ 65)
      × (base ≤ 10 → n < 2 ^ 32 → parse_from base 0 s ≡ some n)
Converts-inv base n (some s) (len, parse) =
    (s, refl, omega arith, λ small fits. parse small fits ∙ parse_end base n)
Converts-inv base n none h = absurd h

-- For a base from 2 to 16 and a 64-bit number `convert` never leaves its buffer of 65 bytes.
pub convert-fits :
    (base n : ℕ)
    → 2 ≤ base
    → base ≤ 16
    → n < 2 ^ 64
    → (s : List ℕ) × (convert n base ≡ some s) × (length s ≤ 65)
convert-fits base n lo hi h =
    let (s, e, len, _) = Converts-inv base n (convert n base) (Converts-convert base n lo hi h) in
    (s, e, len)

-- Printing a 32-bit number in decimal and reading it by `my_atoi`, or in octal and by `my_atool`,
-- gives the number back.
pub my_atoi-convert :
    (n : ℕ)
    → n < 2 ^ 32
    → ((convert n 10 >>= my_atoi) ≡ some n) × ((convert n 8 >>= my_atool) ≡ some n)
unfolding my_atoi my_atool
my_atoi-convert n h =
    let wide : n < 2 ^ 64 = omega arith in
    let (s, e, _, back) =
      Converts-inv 10 n (convert n 10) (Converts-convert 10 n (omega arith) (omega arith) wide) in
    let (t, f, _, oct) =
      Converts-inv 8 n (convert n 8) (Converts-convert 8 n (omega arith) (omega arith) wide) in
    (rw e (back (omega arith) h), rw f (oct (omega arith) h))
