-- ===== src/Scripts.antt =====
-- clients/scripts: check-deps.mjs, the check that the shipped packages depend on listed packages only.
-- Scripts/Bundle is web-build.mjs and Scripts/Polling is waitFor of smoke.mjs.
-- The files are arguments: the text of the list, and of each package.json the record that JSON.parse
-- makes of it.
mod Tests
pub mod Allowed
pub mod Bundle
pub mod Polling
use msclaude_connector.Prelude.{
  ℕ, ◌+◌, Bool, true, false, ◌&&◌, not, List, [], ◌∷◌, ◌++◌, map, Text, codes, text_eq, is_empty,
  any, keep, ◌==◌, length, if◌then◌else◌,
}
use msclaude_connector.Prelude.Decimal.{decimal}
use msclaude_connector.Value.{
  Value, Fields, Items, obj, str, arr, end, field, nil, cons, get, as_array,
}
use msclaude_connector.Value.Template.{to_text}
use msclaude_connector.Pairing.Payload.{trim_start, trim_end}

-- `line.trim()`
unfoldable pub trim : Text → Text
trim line = trim_end (trim_start line)

-- `text.split('\n')`, with the line that has been read so far
unfoldable pub split_from : Text → Text → List Text
split_from line [] = line ∷ []
split_from line (c ∷ text) =
    let next = split_from [] text in
    let same = split_from (line ++ c ∷ []) text in if c == 10 then line ∷ next else same

abbrev pub split_lines : Text → List Text
split_lines text = split_from [] text

-- `line.startsWith('#')`
abbrev pub is_comment : Text → Bool
is_comment [] = false
is_comment (c ∷ line) = c == 35

abbrev pub is_name : Text → Bool
is_name line = not (is_empty line) && not (is_comment line)

-- The set `allowed`.
unfoldable pub allowed_names : Text → List Text
unfolding split_from trim
allowed_names file = keep is_name (map trim (split_lines file))

-- `Object.keys` of a record, and of the other values that it takes.
abbrev pub field_names : Fields → List Text
field_names end = []
field_names (field name v fs) = codes name ∷ field_names fs

abbrev pub indexes_from : {A : Type 0} → ℕ → List A → List Text
indexes_from i [] = []
indexes_from i (x ∷ xs) = decimal i ∷ indexes_from (i + 1) xs

-- `Object.keys(json.dependencies ?? {})`
unfoldable pub dependency_names : Value → List Text
dependency_names (obj fs) = field_names fs
dependency_names (arr vs) = indexes_from 0 (as_array (arr vs))
dependency_names (str s) = indexes_from 0 s
dependency_names _ = []

unfoldable pub violations_of : List Text → Text → List Text → List Text
violations_of allowed owner [] = []
violations_of allowed owner (dep ∷ deps) =
    let rest = violations_of allowed owner deps in
    if any (text_eq dep) allowed then rest else (owner ++ codes ": " ++ dep) ∷ rest

-- The loop over the packages, which gathers `violations`.
unfoldable pub violations : List Text → List Fields → List Text
unfolding violations_of dependency_names
violations allowed [] = []
violations allowed (json ∷ packages) =
    violations_of allowed (to_text (get "name" json)) (dependency_names (get "dependencies" json))
    ++ violations allowed packages

-- Whether the script ends without an error.
unfoldable pub check_deps : Text → List Fields → Bool
unfolding allowed_names violations
check_deps file packages = is_none (violations (allowed_names file) packages)
  where
    is_none : List Text → Bool
    is_none [] = true
    is_none (v ∷ vs) = false
