-- ===== src/Views/Browser/Pairing.antt =====
-- clients/apps/web/src/components/PairScreen.tsx: what the form shows. `message` gives the message of an error.
use msclaude_connector.Prelude.{
  true, ◌&&◌, not, [], Option, none, some, Text, codes, is_empty, if◌then◌else◌,
}
use msclaude_connector.Value.{Value, str, undefined, or_value}
use msclaude_connector.Client.{ClientState, ClientError}
use msclaude_connector.Client.Commands.{is_falsy}
use msclaude_connector.Inputs.{can_send}
use msclaude_connector.Web.{is_unauthorized}
use msclaude_connector.Web.Pairing.{Form, Problem, derived_code}
use msclaude_connector.Views.{Node, nothing, words, element, beside, value, button}

-- `state.error?.code`
abbrev pub code_of : Option ClientError → Value
code_of none = undefined
code_of (some e) = e.code

abbrev pub greeting : ClientState → Node
greeting state =
    if is_unauthorized state.phase
    then element "div" (codes "error-text") (
        beside (words (codes "This device is no longer authorized (")) (
          beside (value (or_value (code_of state.error) (str (codes "unauthorized"))))
            (words (codes "). Re-pair to continue."))))
    else element "div" (codes "hint") (
        words (
          codes
            "Paste the pairing token (or the full JSON blob) from the host screen, then confirm the 4-character code matches the host console."))

abbrev pub code_field : Text → Node
code_field code =
    if is_empty code
    then nothing
    else element "div" (codes "field") (
        beside (element "label" [] (words (codes "Approval code")))
          (element "div" (codes "code") (words code)))

abbrev error_text : (Problem → Text) → Option Problem → Node
error_text message none = nothing
error_text message (some e) =
    if is_empty (message e) then nothing else element "div" (codes "error-text") (words (message e))

-- `PairScreen`
unfoldable pub pair_screen : (Problem → Text) → ClientState → Form → Node
unfolding can_send
pair_screen message state form = element "form" (codes "pair") (
    beside (element "h1" [] (words (codes "Pair with host"))) (
      beside (greeting state) (
        beside
          (element "div" (codes "field") (
            beside (element "label" [] (words (codes "WebSocket URL")))
              (element "input" [] (words form.url))))
          (beside
            (element "div" (codes "field") (
              beside (element "label" [] (words (codes "Pairing token or JSON")))
                (element "textarea" [] (words form.token))))
            (beside (code_field (derived_code form)) (
              beside (error_text message form.error) (
                beside
                  (button (if form.busy then codes "Pairing…" else codes "Pair")
                    (not form.busy && can_send form.token))
                  (if is_falsy state.my_device_id
                    then nothing
                    else button (codes "Forget this device") true))))))))
