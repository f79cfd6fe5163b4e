-- ===== src/Views/Browser/App.antt =====
-- clients/apps/web/src/App.tsx: which screen is shown.
use msclaude_connector.Prelude.{Text, if◌then◌else◌}
use msclaude_connector.Value.{Fields}
use msclaude_connector.Client.{ClientState}
use msclaude_connector.Web.{needs_pairing}
use msclaude_connector.Web.Pairing.{Form, Problem}
use msclaude_connector.Views.{Node}
use msclaude_connector.Views.Browser.Pairing.{pair_screen}
use msclaude_connector.Views.Browser.Screen.{session_screen}

-- What the screens keep for themselves: the form, and the texts in the fields.
pub record Local : Type 0 where
  pub message : Problem → Text
  pub form : Form
  pub answers : Fields → Text
  pub typed : Text

-- `App`
unfoldable pub app : ClientState → Local → Node
unfolding pair_screen session_screen
app state l =
    if needs_pairing state
    then pair_screen l.message state l.form
    else session_screen state l.answers l.typed
