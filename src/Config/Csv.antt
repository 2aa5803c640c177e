-- ===== src/Config/Csv.antt =====
-- `SplitCSV` of internal/config/config.go.
pub mod RoundTrip
use kbeacon.Prelude.{List, [], ◌∷◌, if◌then◌else◌}
use kbeacon.Text.{Text, ◌==◌, trim_space, split}

abbrev pub nonblank_items : List Text → List Text
nonblank_items [] = []
nonblank_items (part ∷ parts) =
    let item = trim_space part in
    let rest = nonblank_items parts in if item == [] then rest else item ∷ rest

unfoldable pub split_csv : Text → List Text
split_csv value = if trim_space value == [] then [] else nonblank_items (split b',' value)
