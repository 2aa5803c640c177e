-- ===== src/Text/Replace.antt =====
-- `strings.ReplaceAll` of one byte, and upper case.
use kbeacon.Prelude.{ℕ, [], ◌∷◌, ◌++◌, ◌-◌, if◌then◌else◌, eqb, ltb}
use kbeacon.Text.Basic.{Text}

unfoldable pub replace_byte : ℕ → Text → Text → Text
replace_byte old new [] = []
replace_byte old new (b ∷ s) =
    if eqb b old then new ++ replace_byte old new s else b ∷ replace_byte old new s

-- `strings.ToUpper` of one byte: a byte that is no character by itself becomes U+FFFD.
unfoldable pub upper_byte : ℕ → Text
upper_byte b =
    if ltb b 128
    then (if ltb 96 b then (if ltb b 123 then (b - 32) ∷ [] else b ∷ []) else b ∷ [])
    else 239 ∷ 191 ∷ 189 ∷ []
