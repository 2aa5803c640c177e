-- ===== src/Cli/Usage.antt =====
-- `commandUsageName` and `usage` of cmd/kbeaconctl/main.go: the name the command goes by.
use kbeacon.Prelude.{Bool, ◌||◌, [], ◌∷◌, ◌++◌, eqb, if◌then◌else◌, is_some}
use kbeacon.Text.{Text, str, ◌==◌, trim_space, has_byte, strip_prefix}

-- `name[slash+1:]` after the last slash or backslash.
unfoldable pub after_last_slash : Text → Text
after_last_slash [] = []
after_last_slash (c ∷ s) =
    let rest = after_last_slash s in
    if has_byte b'/' s || has_byte b'\\' s
    then rest
    else if eqb c b'/' || eqb c b'\\'
    then s
    else c ∷ s

-- `strings.TrimSuffix`
unfoldable pub trim_suffix : Text → Text → Text
trim_suffix suffix [] = []
trim_suffix suffix (c ∷ s) =
    let rest = trim_suffix suffix s in if c ∷ s == suffix then [] else c ∷ rest

abbrev pub starts_with : Text → Text → Bool
starts_with name prefix = is_some (strip_prefix prefix name)

abbrev pub named : Text → Text → Bool
named name command =
    name == command
    || (starts_with name (command ++ str "_") || starts_with name (command ++ str "-"))

abbrev pub usage_name : Text → Text
usage_name name =
    if named name (str "kbeaconctl")
    then str "kbeaconctl"
    else if named name (str "kbeacon")
    then str "kbeacon"
    else name

-- The argument is `programName`.
unfoldable pub command_usage_name : Text → Text
unfolding after_last_slash trim_suffix
command_usage_name program =
    let name = trim_space program in
    if name == []
    then str "kbeaconctl"
    else usage_name (trim_suffix (str ".exe") (after_last_slash name))

unfoldable pub usage : Text → Text → Text
unfolding command_usage_name
usage program command = str "usage: " ++ (command_usage_name program ++ (str " " ++ command))
