-- ===== src/Server/Query.antt =====
-- Query parameters and paths in internal/server/server.go.
pub mod Accepted
use kbeacon.Prelude.{
  Outcome, ok, err, ◌>>=◌, ℕ, zero, suc, ◌+◌, ◌*◌, ◌-◌, ◌^◌, Bool, true, false, ◌&&◌, ◌||◌, not,
  Option, none, some, List, [], ◌∷◌, ◌++◌, ltb, leb, eqb, if◌then◌else◌, some_or,
}
use kbeacon.Text.{Text, str, ◌==◌, to_lower, trim_space, split, strip_prefix}
use kbeacon.Server.Page.{PaginationRequest}

-- `url.Values.Get`: the first value of a parameter, and the empty string without one.
abbrev pub Values : Type 0
Values = Text → Text

-- The integers that `strconv.Atoi` returns: `negsuc n` is -(n + 1).
pub data ℤ : Type 0 where
  pos : ℕ → ℤ
  negsuc : ℕ → ℤ

abbrev pub is_digit : ℕ → Bool
is_digit c = leb b'0' c && leb c b'9'

-- The value of the digits after those that gave `n`.
unfoldable pub digits_value : ℕ → Text → Option ℕ
digits_value n [] = some n
digits_value n (c ∷ s) =
    let rest = digits_value (n * 10 + (c - b'0')) s in if is_digit c then rest else none

abbrev pub magnitude : Text → Option ℕ
magnitude [] = none
magnitude (c ∷ s) = digits_value 0 (c ∷ s)

abbrev pub positive : Option ℕ → Option ℤ
positive none = none
positive (some n) = if ltb n (2 ^ 63) then some (pos n) else none

abbrev pub negative : Option ℕ → Option ℤ
negative none = none
negative (some zero) = some (pos 0)
negative (some (suc n)) = if ltb n (2 ^ 63) then some (negsuc n) else none

-- `strconv.Atoi`: `none` for its errors, which are a text that is no number and a number that does
-- not fit 64 bits.
unfoldable pub atoi : Text → Option ℤ
unfolding digits_value
atoi [] = none
atoi (c ∷ s) =
    if eqb c b'-'
    then negative (magnitude s)
    else if eqb c b'+'
    then positive (magnitude s)
    else positive (magnitude (c ∷ s))

abbrev pub default_limit : ℕ
default_limit = 100

abbrev pub max_limit : ℕ
max_limit = 1000

abbrev pub limit_of : Option ℤ → Outcome Text ℕ
limit_of (some (pos n)) =
    if ltb n 1
    then err (str "limit must be a positive integer")
    else ok (if ltb max_limit n then max_limit else n)
limit_of _ = err (str "limit must be a positive integer")

abbrev pub offset_of : Option ℤ → Outcome Text ℕ
offset_of (some (pos n)) = ok n
offset_of _ = err (str "offset must be a non-negative integer")

abbrev pub unless_blank : Text → ℕ → (Option ℤ → Outcome Text ℕ) → Outcome Text ℕ
unless_blank raw default read = if raw == [] then ok default else read (atoi raw)

unfoldable pub parse_pagination : Values → Outcome Text PaginationRequest
parse_pagination values = do
  limit ← unless_blank (trim_space (values (str "limit"))) default_limit limit_of
  offset ← unless_blank (trim_space (values (str "offset"))) 0 offset_of
  ok (record { limit = limit; offset = offset })

abbrev pub one_of : Text → List Text → Bool
one_of s [] = false
one_of s (t ∷ ts) = s == t || one_of s ts

-- The value of the parameter if it is there.
unfoldable pub bool_query_param : Values → Text → Outcome Text (Option Bool)
bool_query_param values key =
    let raw = to_lower (trim_space (values key)) in
    if trim_space (values key) == []
    then ok none
    else if one_of raw (str "true" ∷ str "1" ∷ str "yes" ∷ str "y" ∷ str "on" ∷ [])
    then ok (some true)
    else if one_of raw (str "false" ∷ str "0" ∷ str "no" ∷ str "n" ∷ str "off" ∷ [])
    then ok (some false)
    else err (key ++ str " must be a boolean")

-- `strings.TrimPrefix`
abbrev pub trim_prefix : Text → Text → Text
trim_prefix prefix s = some_or s (strip_prefix prefix s)

unfoldable pub drop_slashes : Text → Text
drop_slashes [] = []
drop_slashes (c ∷ s) = let rest = drop_slashes s in if eqb c b'/' then rest else c ∷ s

abbrev cons_unless_slash : ℕ → Text → Text
cons_unless_slash c [] = if eqb c b'/' then [] else c ∷ []
cons_unless_slash c (d ∷ s) = c ∷ d ∷ s

unfoldable pub drop_last_slashes : Text → Text
drop_last_slashes [] = []
drop_last_slashes (c ∷ s) = cons_unless_slash c (drop_last_slashes s)

-- `unescape` is `url.PathUnescape`, with `none` for its errors.
unfoldable pub decode_parts : (Text → Option Text) → List Text → List Text
decode_parts unescape [] = []
decode_parts unescape (item ∷ items) =
    let rest = decode_parts unescape items in
    if item == [] then rest else some_or item (unescape item) ∷ rest

unfoldable pub split_path : (Text → Option Text) → Text → List Text
unfolding decode_parts drop_slashes drop_last_slashes
split_path unescape path =
    decode_parts unescape (split b'/' (drop_last_slashes (drop_slashes path)))
