-- ===== src/CString.antt =====
-- The string functions of sys/stdfns.c and libc/stdlib.c. A string is read from an array of bytes;
-- `none` is an access past the end of an array. Indices are numbers: strings are taken to be
-- shorter than the ranges of the counters (2^15 for `my_atoi`'s `uint16_t`).
pub mod Compare
pub mod Copy
pub mod Convert
use course_project_os_integr.Base.{
  ℕ, zero, suc, ◌+◌, ◌-◌, ◌*◌, ◌/◌, ◌%◌, ◌^◌, Bool, Option, none, some, List, [], ◌∷◌, ltb, ◌==◌,
  if◌then◌else◌, get_elem?, ◌>>=◌, store,
}

-- `strlen`, having counted `n` characters.
unfoldable pub strlen_from : ℕ → List ℕ → Option ℕ
strlen_from n [] = none
strlen_from n (c ∷ s) = let rest = strlen_from (suc n) s in if c == 0 then some n else rest

unfoldable pub strlen : List ℕ → Option ℕ
unfolding strlen_from
strlen s = strlen_from 0 s

-- The loop of `strcmp`: 0 when it reaches the end of `a`, 1 at a difference.
unfoldable pub strcmp_loop : List ℕ → List ℕ → Option ℕ
strcmp_loop [] b = none
strcmp_loop (x ∷ a) [] = if x == 0 then some 0 else none
strcmp_loop (x ∷ a) (y ∷ b) =
    let rest = strcmp_loop a b in if x == 0 then some 0 else if x == y then rest else some 1

unfoldable pub strcmp : List ℕ → List ℕ → Option ℕ
unfolding strlen strcmp_loop
strcmp a b = strlen a >>= λ m. strlen b >>= λ n. if m == n then strcmp_loop a b else some 1

-- `for (i = i; i < i + left; i++) dest[i] = src[i]`
unfoldable pub strncpy_from : ℕ → ℕ → List ℕ → List ℕ → Option (List ℕ)
strncpy_from zero i dest src = some dest
strncpy_from (suc left) i dest src =
    get_elem? src i >>= λ c. store dest i c >>= λ d. strncpy_from left (suc i) d src

unfoldable pub strncpy : List ℕ → List ℕ → ℕ → Option (List ℕ)
unfolding strncpy_from
strncpy dest src size = strncpy_from size 0 dest src

-- `memset` and `memcpy` on the first bytes of an array.
unfoldable pub memset : List ℕ → ℕ → ℕ → Option (List ℕ)
memset s c zero = some s
memset [] c (suc n) = none
memset (x ∷ s) c (suc n) = memset s c n >>= λ t. some ((c % 256) ∷ t)

unfoldable pub memcpy : List ℕ → List ℕ → ℕ → Option (List ℕ)
memcpy dest src zero = some dest
memcpy [] src (suc n) = none
memcpy (x ∷ dest) [] (suc n) = none
memcpy (x ∷ dest) (y ∷ src) (suc n) = memcpy dest src n >>= λ t. some (y ∷ t)

-- What `strchr` returns: a place in the string, or `NULL`.
pub data Place : Type 0 where
  at : ℕ → Place
  nowhere : Place

-- The string from index `i` on. `c` is converted to `char`.
unfoldable pub strchr_from : ℕ → ℕ → List ℕ → Option Place
strchr_from c i [] = none
strchr_from c i (x ∷ s) =
    let rest = strchr_from c (suc i) s in
    if x == c % 256 then some (at i) else if x == 0 then some nowhere else rest

unfoldable pub strchr : List ℕ → ℕ → Option Place
unfolding strchr_from
strchr s c = strchr_from c 0 s

-- `strcpsn` of the string from here on, having passed `n` characters.
unfoldable pub strcpsn_from : ℕ → List ℕ → List ℕ → Option ℕ
unfolding strchr
strcpsn_from n [] s2 = none
strcpsn_from n (c ∷ s1) s2 =
    let rest = strcpsn_from (suc n) s1 s2 in
    if c == 0 then some n else strchr s2 c >>= λ p. elim p [ at _ ↦ some n | nowhere ↦ rest ]

unfoldable pub strcpsn : List ℕ → List ℕ → Option ℕ
unfolding strcpsn_from
strcpsn s1 s2 = strcpsn_from 0 s1 s2

-- A `char` widened to 32 bits.
abbrev pub widen : ℕ → ℕ
widen c = if ltb c 128 then c else c + 2 ^ 32 - 256

-- The loops of `my_atoi` (base 10) and `my_atool` (base 8): `res * base + (c - '0')` on 32 bits.
unfoldable pub parse_from : ℕ → ℕ → List ℕ → Option ℕ
parse_from base res [] = none
parse_from base res (c ∷ s) =
    let rest = parse_from base ((res * base + widen c + 2 ^ 32 - 48) % 2 ^ 32) s in
    if c == 0 then some res else rest

unfoldable pub my_atoi : List ℕ → Option ℕ
unfolding parse_from
my_atoi s = parse_from 10 0 s

unfoldable pub my_atool : List ℕ → Option ℕ
unfolding parse_from
my_atool s = parse_from 8 0 s

-- "0123456789abcdef" with its end
abbrev pub digit_chars : List ℕ
digit_chars =
    48 ∷ 49 ∷ 50 ∷ 51 ∷ 52 ∷ 53 ∷ 54 ∷ 55 ∷ 56 ∷ 57 ∷ 97 ∷ 98 ∷ 99 ∷ 100 ∷ 101 ∷ 102 ∷ 0 ∷ []

-- The loop of `convert`, which fills its buffer from the end; `room` bytes are left in front of
-- what is written, `acc`. Without room the write is out of bounds.
unfoldable pub convert_loop : ℕ → ℕ → ℕ → List ℕ → Option (List ℕ)
convert_loop zero num base acc = none
convert_loop (suc room) num base acc = get_elem? digit_chars (num % base) >>= λ c.
    let rest = convert_loop room (num / base) base (c ∷ acc) in
    if num / base == 0 then some (c ∷ acc) else rest

-- A buffer of 65 bytes, the last of which is the end. Division by 0 is a fault.
unfoldable pub convert : ℕ → ℕ → Option (List ℕ)
unfolding convert_loop
convert num base = if base == 0 then none else convert_loop 64 num base (0 ∷ [])
