-- ===== src/Cfg/Literal.antt =====
-- Python's `int(text, base)` on the tokens of C integers, for the bases that cgull/cfg asks for.
use cgull.Prelude.{
  ℕ, ◌+◌, ◌-◌, ◌*◌, Bool, false, ◌&&◌, ◌||◌, [], ◌∷◌, Option, none, some, if◌then◌else◌, ltb, leb,
  eqb, every, Text,
}

-- The value of a digit or letter; 36 for anything else.
unfoldable pub digit : ℕ → ℕ
digit c =
    if leb b'0' c && leb c b'9'
    then c - b'0'
    else if leb b'a' c && leb c b'z'
    then c - b'a' + 10
    else if leb b'A' c && leb c b'Z'
    then c - b'A' + 10
    else 36

unfoldable pub digits_from : ℕ → ℕ → Text → Option ℕ
unfolding digit
digits_from base acc [] = some acc
digits_from base acc (c ∷ cs) =
    let rest = digits_from base (acc * base + digit c) cs in
    if ltb (digit c) base then rest else none

-- `int(text, base)` of digits only.
unfoldable pub int_base : ℕ → Text → Option ℕ
unfolding digits_from
int_base base [] = none
int_base base (c ∷ cs) = digits_from base 0 (c ∷ cs)

abbrev pub is_digit : ℕ → Bool
is_digit c = leb b'0' c && leb c b'9'

abbrev prefixed : ℕ → Text → Option ℕ
unfolding int_base
prefixed c rest =
    if eqb c b'x' || eqb c b'X'
    then int_base 16 rest
    else if eqb c b'o' || eqb c b'O'
    then int_base 8 rest
    else if eqb c b'b' || eqb c b'B'
    then int_base 2 rest
    else if every (λ d. eqb d b'0') (c ∷ rest)
    then some 0
    else none

-- `int(text, 0)`: the prefix names the base, and a decimal has no leading zero.
unfoldable pub int_any : Text → Option ℕ
unfolding int_base
int_any [] = none
int_any (c ∷ []) = int_base 10 (c ∷ [])
int_any (c ∷ d ∷ rest) = if eqb c b'0' then prefixed d rest else int_base 10 (c ∷ d ∷ rest)

-- `len(text) > 1 and text.startswith("0") and text.isdigit()`.
unfoldable pub is_octal : Text → Bool
is_octal (c ∷ d ∷ rest) = eqb c b'0' && every is_digit (c ∷ d ∷ rest)
is_octal text = false

-- `text.rstrip(chars)`.
unfoldable pub rstrip : (ℕ → Bool) → Text → Text
rstrip p [] = []
rstrip p (c ∷ cs) = strip_front (rstrip p cs)
  where
    strip_front : Text → Text
    strip_front [] = if p c then [] else c ∷ []
    strip_front (d ∷ ds) = c ∷ d ∷ ds
