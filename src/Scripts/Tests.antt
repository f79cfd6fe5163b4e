-- ===== src/Scripts/Tests.antt =====
-- The scripts on small inputs.
use msclaude_connector.Prelude.{
  ℕ, ◌*◌, ◌++◌, ◌≡◌, refl, Bool, true, false, [], ◌∷◌, none, some, arith, Text, codes, text_eq, ltb,
}
use msclaude_connector.Prelude.Maps.{lookup}
use msclaude_connector.Value.{Fields, field, end, str, obj}
use msclaude_connector.Pairing.Payload.{trim_start, trim_end}
use msclaude_connector.Scripts.{
  check_deps, violations, allowed_names, violations_of, dependency_names, split_from, trim,
}
use msclaude_connector.Scripts.Bundle.{
  Run, Disk, Files, Leaves, web_build, vite_build, has_index, swap_bundle, copy_bundle, swap_failed,
  web_build-Leaves,
}
use msclaude_connector.Scripts.Polling.{wait_for, tick, resolved, rejected, Ends, wait_for-Ends}

-- A comment, and a name with white space around it.
abbrev list : Text
list = codes "# names" ++ 10 ∷ codes " a "

abbrev uses : Text → Fields
uses dep = field "name" (str (codes "p")) (field "dependencies" (obj (field "a" (str dep) end)) end)

passes : check_deps list (uses (codes "1") ∷ []) ≡ true
unfolding check_deps violations allowed_names violations_of dependency_names split_from trim
    trim_start trim_end text_eq
passes = refl

names_comment : check_deps (codes "# a") (uses (codes "1") ∷ []) ≡ false
unfolding check_deps violations allowed_names violations_of dependency_names split_from trim
    trim_start trim_end text_eq
names_comment = refl

abbrev bundle : Files
bundle = (codes "index.html", codes "new") ∷ (codes "app.js", codes "x") ∷ []

-- The copy throws after the first file.
abbrev torn : Run
torn = record {
  protocol_built = true;
  types_checked = true;
  tmp_removed = true;
  vite_built = true;
  vite_output = bundle;
  final_removed = true;
  final_left = [];
  final_made = true;
  copied = some ((codes "app.js", codes "x") ∷ []);
  cleaned = true;
}

abbrev served : Disk
served = record { final = some ((codes "index.html", codes "old") ∷ []); tmp = none }

-- The half of a bundle is left in the directory that the host embeds.
torn_leaves :
    web_build torn served
    ≡ (record { final = some ((codes "app.js", codes "x") ∷ []); tmp = some bundle }, swap_failed)
unfolding web_build vite_build has_index swap_bundle copy_bundle lookup text_eq
torn_leaves = refl

web_build-Leaves_example : Leaves served.final torn (web_build torn served)
web_build-Leaves_example = web_build-Leaves torn served

-- It holds at the third tick.
abbrev third : ℕ → Bool
third i = ltb 1 i

abbrev every_25 : ℕ → ℕ
every_25 i = 25 * i

holds_at_third : wait_for 0 every_25 third 100 ≡ some (resolved 2)
unfolding wait_for tick
holds_at_third = refl

never_holds : wait_for 0 every_25 (λ i. false) 100 ≡ some (rejected 5)
unfolding wait_for tick
never_holds = refl

wait_for-Ends_example : Ends 0 every_25 third 100 (wait_for 0 every_25 third 100)
wait_for-Ends_example = wait_for-Ends 0 every_25 third 100 (omega arith) (λ i. omega arith)
