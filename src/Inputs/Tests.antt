-- ===== src/Inputs/Tests.antt =====
-- Texts that a user sends.
use msclaude_connector.Prelude.{◌≡◌, refl, Bool, true, none, codes}
use msclaude_connector.Client.{Client, World, AuthMode}
use msclaude_connector.Client.Notify.{new_client}
use msclaude_connector.Inputs.{trim, prompt_send}
use msclaude_connector.Inputs.Prompts.{Sent, prompt_send-Sent}

abbrev page : World
page = record {
  has_encoder = true;
  is_open = λ s. Bool.true;
  create_failure = none;
  random_num = 0;
  random_den = 1;
}

abbrev client : Client
client = new_client (codes "wss://h") AuthMode.hello none none

trimmed : trim (codes " a b\n") ≡ codes "a b"
unfolding trim
trimmed = refl

prompt_send-Sent_example :
    Sent (codes " hi ") client (codes "1") (prompt_send page (codes "1") (codes " hi ") client)
prompt_send-Sent_example = prompt_send-Sent page (codes "1") (codes " hi ") client
