-- ===== src/Host/Agree.antt =====
-- Clients of one host: what their sessions show, compared.
use msclaude_connector.Prelude.{ℕ, ◌≡◌, refl, sym, ◌∙◌, ◌⊎◌, inl, inr, Bool, Option}
use msclaude_connector.Session.Nameless.{nameless}
use msclaude_connector.Host.{Unmarshal}
use msclaude_connector.Host.Shows.{Shows}
use msclaude_connector.Host.Follows.{Reaches-Follows}
use msclaude_connector.Host.System.{System, Reaches}

-- In any history of a session, its host and a client (events appended and broadcast, hellos
-- answered, messages lost, delayed, repeated and out of order, reconnects, gaps, resyncs; a number
-- that the device has kept is restored only before anything is shown, and where it is not above the
-- log's), the session of the client is at a place of the host's log: its last number and its tip
-- are not above the number of the last event, its id is null or that of the host's session, and its
-- items, without names of devices, are what the reducer makes of the events up to its last number,
-- from the first on or from the number kept.
pub Reaches-Shows :
    (u : Unmarshal) (has_encoder : Bool) (max : Option ℕ) (kept : ℕ) (sys : System)
    → Reaches u has_encoder kept max sys
    → Shows has_encoder max kept sys.store sys.client.session
Reaches-Shows u has_encoder max kept sys reached =
    (Reaches-Follows u has_encoder max kept reached).client.holds

-- Two clients of one log on platforms alike, with the same bound on items and no number kept, that
-- have come to the same number show the same items but for the names of devices, whatever has
-- happened to either.
pub same_last_seq-same_items :
    (u : Unmarshal) (has_encoder : Bool) (max : Option ℕ) (one two : System)
    → Reaches u has_encoder 0 max one
    → Reaches u has_encoder 0 max two
    → one.store.events ≡ two.store.events
    → one.client.session.last_seq ≡ two.client.session.last_seq
    → nameless one.client.session.items ≡ nameless two.client.session.items
same_last_seq-same_items u has_encoder max one two r r' log last =
    let h = Reaches-Shows u has_encoder max 0 one r in
    let h' = Reaches-Shows u has_encoder max 0 two r' in
    h.items ∙ rw (log, last, from_first h.start, from_first h'.start) refl ∙ sym h'.items
  where
    from_first : {n : ℕ} → (n ≡ 0) ⊎ (n ≡ 0) → n ≡ 0
    from_first (inl e) = e
    from_first (inr e) = e
