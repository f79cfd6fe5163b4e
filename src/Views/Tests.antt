-- ===== src/Views/Tests.antt =====
-- The views of a session with two items.
use mathlib.Core.List.{Nodup}
use msclaude_connector.Prelude.{◌≡◌, ◌≢◌, refl, Bool, true, List, [], ◌∷◌, none, some, codes}
use msclaude_connector.Value.{null}
use msclaude_connector.Session.{SessionState, new_session_state, permission, notice, Level}
use msclaude_connector.Client.{World, AuthMode}
use msclaude_connector.Client.Pair.{Event, pair_run, pairs, fails}
use msclaude_connector.Client.Pair.Invariants.{unpaired}
use msclaude_connector.Views.{content, resolution_words}
use msclaude_connector.Views.Browser
use msclaude_connector.Views.Phone
use msclaude_connector.Views.Keys.{inner_keys, stream_view-keys}

abbrev page : World
page = record {
  has_encoder = true;
  is_open = λ s. Bool.true;
  create_failure = none;
  random_num = 0;
  random_den = 1;
}

abbrev history : List (World × Event)
history = (page, pairs (codes "t") none none) ∷ (page, fails 0) ∷ []

stream_view-keys_example :
    let s =
      (pair_run (unpaired (codes "wss://h") AuthMode.hello none none) history).client.session in
    (inner_keys (Browser.stream_view s null) ≡ inner_keys (Phone.stream_view s null))
    × Nodup (inner_keys (Phone.stream_view s null))
stream_view-keys_example = stream_view-keys (codes "wss://h") AuthMode.hello none none history null

abbrev session : SessionState
session = record new_session_state {
  items =
      permission (record {
        id = codes "perm-r";
        seq = 1;
        ts = null;
        request_id = codes "r";
        permission_kind = codes "Bash";
        summary = codes "ls";
        resolved = some (record { allow = true; by_device = codes "d"; by_name = [] });
      })
      ∷ notice (record {
        id = codes "notice-2";
        seq = 2;
        ts = null;
        text = codes "!";
        level = Level.info;
      })
      ∷ [];
}

shown : content (Phone.stream_view session null) ≡ codes "permission · BashlsAllowed by d!"
unfolding content Phone.stream_view resolution_words
shown = refl

given : session.items ≢ []
given e = cc
