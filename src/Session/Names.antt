-- ===== src/Session/Names.antt =====
-- `nameFor` and `displayName` of reducer.ts.
use msclaude_connector.Prelude.{
  Option, none, some, Text, codes, text_eq, is_empty, take, or_else, if◌then◌else◌, ◌&&◌, not,
}
use msclaude_connector.Prelude.Maps.{lookup}
use msclaude_connector.Session.{SessionState}

-- A name that is not registered is the first eight code units of the id.
unfoldable pub name_for : SessionState → Text → Text
name_for state device_id =
    if is_empty device_id
    then codes "unknown"
    else or_else (lookup device_id state.device_names) (take 8 device_id)

unfoldable pub display_name : SessionState → Text → Option Text → Text
unfolding name_for
display_name state device_id none = name_for state device_id
display_name state device_id (some mine) =
    if not (is_empty mine) && text_eq device_id mine then codes "you" else name_for state device_id
