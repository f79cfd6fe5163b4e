-- ===== src/Mobile/Boot.antt =====
-- mobileClient.ts: `bootstrap`, from what is stored to the client that it starts.
use msclaude_connector.Prelude.{
  ℕ, ◌≤◌, false, ◌≡◌, refl, ap, ◌∙◌, List, [], Option, none, some, arith, Text, codes, text_eq,
  ◌&&◌, not, leb, if◌then◌else◌, if_cases, option_cases, ◌∷◌, ◌⊎◌,
}
use msclaude_connector.Value.{Number}
use msclaude_connector.Client.{Client, World, AuthMode, HarnessIdentity}
use msclaude_connector.Client.Commands.{is_falsy, is_live}
use msclaude_connector.Client.Notify.{new_client, publish}
use msclaude_connector.Client.Reconnect.{connect, set_last_seq, headers_for}
use msclaude_connector.Client.Dials.{creations, connect-Dials}
use msclaude_connector.Client.Sockets.{hello_for}
use msclaude_connector.Wire.{HelloPayload}
use msclaude_connector.Session.{SessionState}
use msclaude_connector.Client.Setup.{connect-SameSetup}
use msclaude_connector.Mobile.Pins.{PinnedHost, Address, pin_for}
use msclaude_connector.Mobile.Storage.{
  KeyStore, Codec, identity_fields, load_identity, load_last_seq, save_identity, save_last_seq,
}
use msclaude_connector.Mobile.Storage.Laws.{IsKeyStore, IsCodec, max_safe_integer}
use msclaude_connector.Mobile.Storage.RoundTrip.{
  IsStorable, load_identity-save_identity, load_last_seq-save_last_seq,
}

-- `MAX_ITEMS`
abbrev pub mobile_max_items : ℕ
mobile_max_items = 2000

-- `identity?.url ?? 'wss://localhost:7432/ws'`
abbrev pub url_for : Option HarnessIdentity → Text
url_for none = codes "wss://localhost:7432/ws"
url_for (some i) = i.url

-- The client of `bootstrap`, until it connects.
unfoldable pub new_instance : Option HarnessIdentity → ℕ → Client
new_instance identity last_seq =
    set_last_seq (Number.finite last_seq)
      (new_client (url_for identity) AuthMode.header identity (some mobile_max_items))

-- `if (identity) instance.connect()`
unfoldable pub started : World → Option HarnessIdentity → ℕ → Client
unfolding new_instance
started w none last_seq = new_instance none last_seq
started w (some i) last_seq = connect w none (new_instance (some i) last_seq)

-- `bootstrap`, where there is no client yet.
unfoldable pub bootstrap : {S T : Type 0} → KeyStore S → KeyStore T → Codec → World → S → T → Client
unfolding started
bootstrap secure plain codec w s t =
    started w (load_identity secure codec s) (load_last_seq plain codec t)

-- The listener of `AppState`.
unfoldable pub on_app_state : World → Text → Client → Client
on_app_state w status c =
    if text_eq status (codes "active") && not (is_live c.phase) then connect w none c else c

-- The pins that `bootstrap` sets.
abbrev pub boot_pins :
    (Text → Option Address) → (Text → Number) → Option HarnessIdentity → List (List PinnedHost)
boot_pins address_of number_of none = []
boot_pins address_of number_of (some i) =
    if is_falsy i.spki then [] else pin_for address_of number_of i.url i.spki

-- A client that takes up where the device was: the first socket is created, to the saved URL and with
-- the headers of the saved identity, or a timer is set where creating it throws; and a socket that
-- opens gets a `hello` with the saved number.
pub record IsResumed (w : World) (i : HarnessIdentity) (n : ℕ) (c : Client) : Type 0 where
  pub url : c.url ≡ i.url
  pub mode : c.auth_mode ≡ AuthMode.header
  pub identity : c.identity ≡ some i
  pub last_seq : c.session.last_seq ≡ n
  pub wanted : c.closed_by_user ≡ false
  pub asked : creations c.effects ≡ (i.url, headers_for AuthMode.header (some i)) ∷ []
  pub begun :
      ((w.create_failure ≡ none) × (c.socket ≡ some 0))
      ⊎ ((message : Text) × (w.create_failure ≡ some message) × (c.reconnect_timer ≡ some 0))
  pub hello : (hello_for c).last_seq ≡ n

record IsFresh (i : HarnessIdentity) (n : ℕ) (c : Client) : Type 0 where
  url : c.url ≡ i.url
  mode : c.auth_mode ≡ AuthMode.header
  identity : c.identity ≡ some i
  last_seq : c.session.last_seq ≡ n
  resyncs : c.full_resync ≡ false
  quiet : creations c.effects ≡ []
  sockets : c.sockets ≡ 0
  timers : c.timers ≡ 0

new_instance-IsFresh : (i : HarnessIdentity) (n : ℕ) → IsFresh i n (new_instance (some i) n)
unfolding new_instance set_last_seq new_client publish creations
new_instance-IsFresh i n =
    if_cases (IsFresh i n) (leb n 0) _ _
      (λ e. record {
        url = refl;
        mode = refl;
        identity = refl;
        last_seq = ground (arith, e);
        resyncs = refl;
        quiet = refl;
        sockets = refl;
        timers = refl;
      })
      (λ _. record {
        url = refl;
        mode = refl;
        identity = refl;
        last_seq = refl;
        resyncs = refl;
        quiet = refl;
        sockets = refl;
        timers = refl;
      })

hello_for-last_seq : (c : Client) → (hello_for c).last_seq ≡ c.session.last_seq
unfolding hello_for
hello_for-last_seq c =
    option_cases (λ (h : HelloPayload). h.last_seq ≡ c.session.last_seq) c.identity _ _ (λ _. refl)
      (λ i _. refl)

started-IsResumed :
    (w : World) (i : HarnessIdentity) (n : ℕ) → IsResumed w i n (started w (some i) n)
unfolding started set_last_seq
started-IsResumed w i n =
    let start = new_instance (some i) n in
    let fresh = new_instance-IsFresh i n in
    let same = connect-SameSetup w none start in
    let dials = connect-Dials w none start in
    let at_n =
      ap (λ (s : SessionState). s.last_seq) (same.session fresh.resyncs) ∙ fresh.last_seq in
    record {
      url = same.url ∙ fresh.url;
      mode = same.mode ∙ fresh.mode;
      identity = same.identity ∙ fresh.identity;
      last_seq = at_n;
      wanted = same.wanted;
      asked = dials.asked ∙ rw (fresh.quiet, fresh.url, fresh.mode, fresh.identity) refl;
      begun = rw (fresh.sockets, fresh.timers) at dials.begun;
      hello = hello_for-last_seq _ ∙ at_n;
    }

-- After an identity and a number were saved, the application that starts has a client with that
-- identity and that number, which has created one socket, to the saved URL and with the headers of the
-- identity, or has set a timer where creating it throws; its `hello` has the saved number.
pub bootstrap_resumes :
    {S T : Type 0} (secure : KeyStore S) (plain : KeyStore T) (codec : Codec) (w : World)
    (i : HarnessIdentity) (n : ℕ) (s s' : S) (t t' : T)
    → IsKeyStore secure
    → IsKeyStore plain
    → IsCodec codec (identity_fields i)
    → IsStorable i
    → n ≤ max_safe_integer
    → save_identity secure codec i s ≡ some s'
    → save_last_seq plain n t ≡ some t'
    → IsResumed w i n (bootstrap secure plain codec w s' t')
unfolding bootstrap
bootstrap_resumes secure plain codec w i n s s' t t' secure_keeps plain_keeps lawful h small saved_i
      saved_n =
    let e = load_identity-save_identity secure codec i s s' secure_keeps lawful h saved_i in
    let f =
      load_last_seq-save_last_seq plain codec (identity_fields i) n t t' plain_keeps lawful small
        saved_n in
    rw (e, f, bootstrap) (started-IsResumed w i n)
