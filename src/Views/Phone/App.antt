-- ===== src/Views/Phone/App.antt =====
-- clients/apps/mobile/src/App.tsx: which screen is shown.
use msclaude_connector.Prelude.{Bool, [], Text, codes, if◌then◌else◌}
use msclaude_connector.Value.{Fields}
use msclaude_connector.Client.{ClientState}
use msclaude_connector.Mobile.Scanner.{Scanner, Problem}
use msclaude_connector.Web.{needs_pairing}
use msclaude_connector.Views.{Node, nothing, element, beside}
use msclaude_connector.Views.Phone.Pairing.{pair_screen}
use msclaude_connector.Views.Phone.Screen.{session_screen}

-- What the screens keep for themselves: whether the camera may be used, the scanner, and the texts in
-- the fields.
pub record Local : Type 0 where
  pub message : Problem → Text
  pub granted : Bool
  pub scanner : Scanner
  pub answers : Fields → Text
  pub typed : Text

-- `Root`
unfoldable pub root : ClientState → Local → Node
unfolding pair_screen session_screen
root state l =
    if needs_pairing state
    then pair_screen l.message l.granted state l.scanner
    else session_screen state l.answers l.typed

-- `App`, with its flag `ready`
unfoldable pub app : Bool → ClientState → Local → Node
unfolding root
app ready state l = element "SafeAreaProvider" [] (
    beside (element "StatusBar" [] nothing) (
      if ready
      then root state l
      else element "View" (codes "loading") (element "ActivityIndicator" [] nothing)))
