-- ===== src/Session/Pending.antt =====
-- `dedupeBy` of reducer.ts, for the lists of pending permissions and questions.
pub mod Distinct
use msclaude_connector.Prelude.{
  String, Bool, List, [], ◌∷◌, ◌++◌, none, some, map, any, if◌then◌else◌,
}
use msclaude_connector.Value.{Value, Fields, obj, get, is_record, same_value}

-- `seen.has(value)`
abbrev pub has_value : Value → List Value → Bool
has_value value = any (same_value value)

-- The loop, with the set `seen`; `out` is the list that it returns.
unfoldable pub dedupe_from : String → List Value → List Value → List Fields
dedupe_from key seen [] = []
dedupe_from key seen (item ∷ items) = elim (is_record item) [
  | none ↦ dedupe_from key seen items
  | some fs ↦
      let skip = dedupe_from key seen items in
      let push = fs ∷ dedupe_from key (get key fs ∷ seen) items in
      if has_value (get key fs) seen then skip else push
]

unfoldable pub dedupe_by : String → List Value → List Fields
unfolding dedupe_from
dedupe_by key items = dedupe_from key [] items

-- `dedupeBy([...pending, view], key)`
unfoldable pub add_pending : String → List Fields → Fields → List Fields
unfolding dedupe_by
add_pending key pending view = dedupe_by key (map obj pending ++ obj view ∷ [])
