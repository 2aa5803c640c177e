-- ===== src/Discovery/SecretRefs.antt =====
-- internal/discovery/annotations.go: the grammar of explicit Secret references.
pub mod Laws
pub mod Grammar
use kbeacon.Prelude.{
  Bool, ◌||◌, Option, none, some, List, [], ◌∷◌, map, if◌then◌else◌, Outcome, ok, err, ◌>>=◌,
}
use kbeacon.Text.{Text, str, ◌==◌, split, cut, trim_space}
use kbeacon.Graph.Types.{SecretRef}

pub data RefError : Type 0 where
  empty_reference : RefError
  invalid_reference : Text → RefError

-- The namespace, and what names the Secret and its key.
abbrev pub namespace_part : Text → Text → Option (Text × Text) → Text × Text
namespace_part default token none = (default, token)
namespace_part default token (some (namespace, rest)) = (namespace, rest)

-- The name and the key.
abbrev pub name_part : Text → Option (Text × Text) → Text × Text
name_part part none = (part, [])
name_part part (some (name, key)) = (name, key)

abbrev pub checked_ref : Text → Text → Text → Text × Text → Outcome RefError SecretRef
checked_ref cluster token namespace (name, key) =
    if namespace == [] || name == []
    then err (invalid_reference token)
    else ok (record { cluster = cluster; namespace = namespace; name = name; key = key })

abbrev pub ref_of_parts : Text → Text → Text × Text → Outcome RefError SecretRef
ref_of_parts cluster token (namespace, part) =
    checked_ref cluster token namespace (name_part part (cut b'#' part))

unfoldable pub parse_secret_ref : Text → Text → Text → Outcome RefError SecretRef
parse_secret_ref cluster default token =
    if token == []
    then err empty_reference
    else ref_of_parts cluster token (namespace_part default token (cut b'/' token))

-- The loop over the parts; the first error ends it.
unfoldable pub parse_parts : Text → Text → List Text → Outcome RefError (List SecretRef)
parse_parts cluster namespace [] = ok []
parse_parts cluster namespace (part ∷ parts) = do
  ref ← parse_secret_ref cluster namespace (trim_space part)
  refs ← parse_parts cluster namespace parts
  ok (ref ∷ refs)

unfoldable pub parse_watch_secrets : Text → Text → Text → Outcome RefError (List SecretRef)
unfolding parse_parts
parse_watch_secrets cluster namespace value =
    if trim_space value == [] then ok [] else parse_parts cluster namespace (split b',' value)
