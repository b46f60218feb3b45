-- ===== src/Keyboard/Read.antt =====
-- What a reader of the standard input gets.
use course_project_os_integr.Base.{
  ℕ, suc, ◌+◌, ◌≡◌, ◌≢◌, refl, ap, ◌∙◌, true, false, some, List, [], ◌∷◌, ◌++◌, arith, ==_of_ne,
  length,
}
use course_project_os_integr.CString.{strlen, strlen_from, memcpy}
use course_project_os_integr.Keyboard.{Keyboard, end_read}

-- No character of the text is a NUL.
unfoldable pub NoNul : List ℕ → Type 0
NoNul [] = Unit
NoNul (c ∷ text) = (c ≢ 0) × NoNul text

strlen_from-text :
    (n : ℕ) (text rest : List ℕ)
    → NoNul text
    → strlen_from n (text ++ rest) ≡ strlen_from (n + length text) rest
unfolding strlen_from NoNul
strlen_from-text n [] rest h = let e : n ≡ n + 0 = omega arith in ap (λ m. strlen_from m rest) e
strlen_from-text n (c ∷ text) rest (ne, h) =
    let e : suc n + length text ≡ n + suc (length text) = omega arith in
    rw (==_of_ne c 0 ne) (strlen_from-text (suc n) text rest h ∙ ap (λ m. strlen_from m rest) e)

strlen-text :
    (text rest : List ℕ) → NoNul text → strlen (text ++ rest) ≡ strlen_from (length text) rest
unfolding strlen
strlen-text text rest h =
    let e : 0 + length text ≡ length text = omega arith in
    strlen_from-text 0 text rest h ∙ ap (λ m. strlen_from m rest) e

strlen_from-nul : (n : ℕ) (rest : List ℕ) → strlen_from n (0 ∷ rest) ≡ some n
unfolding strlen_from
strlen_from-nul n rest = refl

memcpy-text :
    (text old rest tail : List ℕ)
    → length old ≡ length text
    → memcpy (old ++ tail) (text ++ rest) (length text) ≡ some (text ++ tail)
unfolding memcpy
memcpy-text [] [] rest tail e = refl
memcpy-text [] (o ∷ old) rest tail e = absurd (omega arith)
memcpy-text (c ∷ text) [] rest tail e = absurd (omega arith)
memcpy-text (c ∷ text) (o ∷ old) rest tail e =
    rw (memcpy-text text old rest tail (omega arith)) refl

-- When the line's buffer holds `text` and a NUL, and the caller's buffer `old` and `tail`, with
-- `old` as long as the text: the caller gets the text over `old`, the tail as it was, the reader's
-- state is free again, and the number returned is the length of the string from the text on into the
-- tail, so that it is the text's length only if the tail begins with a NUL.
pub end_read-text :
    (text rest old tail : List ℕ) (l : ℕ) (k : Keyboard)
    → NoNul text
    → k.iobuff ≡ text ++ 0 ∷ rest
    → length old ≡ length text
    → strlen_from (length text) tail ≡ some l
    → end_read (old ++ tail) k
      ≡ some (record k { reading = false; reading_finished = true }, text ++ tail, l)
unfolding end_read
end_read-text text rest old tail l k plain holds fits ends =
    let whole : strlen k.iobuff ≡ some (length text) =
      ap strlen holds ∙ strlen-text text (0 ∷ rest) plain ∙ strlen_from-nul (length text) rest in
    let copied : memcpy (old ++ tail) k.iobuff (length text) ≡ some (text ++ tail) =
      rw holds (memcpy-text text old (0 ∷ rest) tail fits) in
    let after : strlen (text ++ tail) ≡ some l = strlen-text text tail plain ∙ ends in
    rw (whole, copied, after) refl
