-- ===== src/Text/Quote.antt =====
-- `fmt.Sprintf("%q", s)` of a Go string. Bytes from 128 on, which are parts of longer characters, are
-- printed as they are.
use kbeacon.Prelude.{ℕ, ◌+◌, ◌/◌, ◌%◌, List, [], ◌∷◌, ◌++◌, ◌||◌, if◌then◌else◌, eqb, ltb}
use kbeacon.Text.Basic.{Text}

hex_digit : ℕ → ℕ
hex_digit d = if ltb d 10 then b'0' + d else 87 + d

-- The letter behind the backslash of an escape.
abbrev escapes : List (ℕ × ℕ)
escapes =
    (b'"', b'"')
    ∷ (92, 92)
    ∷ (7, b'a')
    ∷ (8, b'b')
    ∷ (12, b'f')
    ∷ (10, b'n')
    ∷ (13, b'r')
    ∷ (9, b't')
    ∷ (11, b'v')
    ∷ []

unescaped : ℕ → Text
unfolding hex_digit
unescaped c =
    if ltb c 32 || eqb c 127
    then 92 ∷ b'x' ∷ hex_digit (c / 16) ∷ hex_digit (c % 16) ∷ []
    else c ∷ []

quote_byte : List (ℕ × ℕ) → ℕ → Text
unfolding unescaped
quote_byte [] c = unescaped c
quote_byte ((b, letter) ∷ more) c =
    let rest = quote_byte more c in if eqb c b then 92 ∷ letter ∷ [] else rest

quote_bytes : Text → Text
unfolding quote_byte
quote_bytes [] = []
quote_bytes (c ∷ s) = quote_byte escapes c ++ quote_bytes s

unfoldable pub quote : Text → Text
unfolding quote_bytes
quote s = b'"' ∷ (quote_bytes s ++ b'"' ∷ [])
