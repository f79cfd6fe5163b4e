-- ===== src/Views/Screens.antt =====
-- The screens that the two applications show, one against the other.
use msclaude_connector.Prelude.{◌≡◌, refl, ◌⊎◌, inl, inr, Bool-cases}
use msclaude_connector.Client.{ClientState}
use msclaude_connector.Web.{needs_pairing}
use msclaude_connector.Views.Browser.App as Browser
use msclaude_connector.Views.Phone.App as Phone
use msclaude_connector.Views.Browser.Pairing.{pair_screen as browser_pairing}
use msclaude_connector.Views.Browser.Screen.{session_screen as browser_session}
use msclaude_connector.Views.Phone.Pairing.{pair_screen as phone_pairing}
use msclaude_connector.Views.Phone.Screen.{session_screen as phone_session}

-- For each state of the client both applications show the screen for pairing, or both show the
-- session.
pub same_screen :
    (state : ClientState) (b : Browser.Local) (p : Phone.Local)
    → ((Browser.app state b ≡ browser_pairing b.message state b.form)
        × (Phone.root state p ≡ phone_pairing p.message p.granted state p.scanner))
      ⊎ ((Browser.app state b ≡ browser_session state b.answers b.typed)
          × (Phone.root state p ≡ phone_session state p.answers p.typed))
unfolding Browser.app Phone.root
same_screen state b p = elim (Bool-cases (needs_pairing state)) [
  | inl e ↦ inl (rw e refl, rw e refl)
  | inr e ↦ inr (rw e refl, rw e refl)
]
