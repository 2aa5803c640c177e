-- ===== src/Discovery/Custom/References.antt =====
-- The patterns `\$\{secrets:([^}:]+):([^}]+)\}` of internal/discovery/kafkaconnector.go and
-- `\$\{file:([^}:]+):([^}]+)\}` of internal/discovery/confluentconnector.go, and
-- `FindAllStringSubmatch`. No byte that ends a group can stand in it, so the longest group is the only
-- one that can match.
pub mod Found
use kbeacon.Prelude.{
  ℕ, zero, suc, ◌+◌, Bool, ◌||◌, not, Option, none, some, List, [], ◌∷◌, ◌++◌, eqb, if◌then◌else◌,
  length,
}
use kbeacon.Text.{Text, ◌==◌, strip_prefix}

-- The longest beginning whose bytes pass a test, and the rest.
unfoldable pub run : (ℕ → Bool) → Text → Text × Text
run p [] = ([], [])
run p (c ∷ s) = let (front, rest) = run p s in if p c then (c ∷ front, rest) else ([], c ∷ s)

abbrev pub in_target : ℕ → Bool
in_target c = not (eqb c b'}' || eqb c b':')

abbrev pub in_key : ℕ → Bool
in_key c = not (eqb c b'}')

-- A nonempty group that is followed by the given byte, and what follows that.
unfoldable pub closed_group : ℕ → Text × Text → Option (Text × Text)
closed_group closing (group, []) = none
closed_group closing (group, c ∷ rest) =
    if group == [] || not (eqb c closing) then none else some (group, rest)

abbrev key_group : Text → Option (Text × Text) → Option (Text × Text)
key_group target none = none
key_group target (some (key, rest)) = some (target, key)

abbrev target_group : Option (Text × Text) → Option (Text × Text)
target_group none = none
target_group (some (target, rest)) = key_group target (closed_group b'}' (run in_key rest))

abbrev match_groups : Option Text → Option (Text × Text)
match_groups none = none
match_groups (some rest) = target_group (closed_group b':' (run in_target rest))

-- The two groups of a match that begins the text.
unfoldable pub match_reference : Text → Text → Option (Text × Text)
match_reference prefix s = match_groups (strip_prefix prefix s)

abbrev pub groups_of : Option (Text × Text) → List (Text × Text)
groups_of none = []
groups_of (some g) = g ∷ []

-- The bytes that a match takes behind its first.
abbrev pub skip_of : Text → Option (Text × Text) → ℕ
skip_of prefix none = 0
skip_of prefix (some (target, key)) = length prefix + length target + length key + 1

-- The groups of the matches from left to right, where a match begins behind the one before it. The
-- number counts the bytes of the last match that are left to pass.
unfoldable pub find_all : Text → ℕ → Text → List (Text × Text)
find_all prefix skip [] = []
find_all prefix zero (c ∷ s) =
    let found = match_reference prefix (c ∷ s) in
    groups_of found ++ find_all prefix (skip_of prefix found) s
find_all prefix (suc skip) (c ∷ s) = find_all prefix skip s
