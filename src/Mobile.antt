-- ===== src/Mobile.antt =====
-- clients/apps/mobile/src/mobileClient.ts: what `forgetDevice` does to the client, once the stored
-- identity is cleared.
mod Tests
pub mod Storage
pub mod Pins
pub mod Boot
pub mod Saver
pub mod Stale
pub mod Restart
pub mod Scanner
pub mod Candidates
pub mod Forget
use msclaude_connector.Prelude.{none}
use msclaude_connector.Client.{Client}
use msclaude_connector.Client.Reconnect.{close, reset, set_identity}

-- `close`, `reset` and `setIdentity(null)`, in one turn of the event loop: the close event of the
-- socket comes after them.
unfoldable pub forget_device : Client → Client
forget_device c = set_identity none (reset (close c))
