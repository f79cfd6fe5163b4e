-- ===== src/Host/Shown.antt =====
-- What a client is to show of the host's log: the events, one by one, put through the reducer from an
-- empty list of items. The names of devices are left out.
use msclaude_connector.Prelude.{
  ℕ, suc, ◌≤◌, ◌≡◌, refl, sym, ap, ◌∙◌, Bool, List, [], ◌∷◌, ◌++◌, Option, none, some, arith, ltb,
  length, take, drop, get_elem?, take-suc, if◌then◌else◌,
}
use msclaude_connector.Prelude.Mapped.{length-map}
use msclaude_connector.Wire.{EventPayload, event_of}
use msclaude_connector.Session.{SessionState, Item, new_session_state}
use msclaude_connector.Session.Stream.{trim_items}
use msclaude_connector.Session.Events.{apply_event}
use msclaude_connector.Session.Nameless.{nameless, nameless_item, trim_items-nameless}
use msclaude_connector.Session.Nameless.Events.Dispatch.{apply_event-nameless}
use msclaude_connector.Client.Messages.{bound_items}
use msclaude_connector.Host.{StoredEvent, event_fields}

-- The event as a client reads it.
unfoldable pub wire_event : StoredEvent → EventPayload
unfolding event_of
wire_event ev = event_of ev.seq (event_fields ev)

module _ (has_encoder : Bool) (max : Option ℕ) where
  -- The items after an event, in a session that has nothing but the items before.
  unfoldable pub items_after : List Item → StoredEvent → List Item
  unfolding wire_event
  items_after items ev =
      let session =
        apply_event has_encoder (record new_session_state { items = items }) (wire_event ev) in
      nameless (bound_items max session).items

  unfoldable pub shown_from : List Item → List StoredEvent → List Item
  shown_from items [] = items
  shown_from items (ev ∷ evs) = shown_from (items_after items ev) evs

  -- The items that show the events `evs`.
  abbrev pub shown : List StoredEvent → List Item
  shown evs = shown_from [] evs

  shown_from-snoc :
      (items : List Item) (evs : List StoredEvent) (ev : StoredEvent)
      → shown_from items (evs ++ ev ∷ []) ≡ items_after (shown_from items evs) ev
  unfolding shown_from
  shown_from-snoc items [] ev = refl
  shown_from-snoc items (x ∷ evs) ev = shown_from-snoc (items_after items x) evs ev

  drop-snoc :
      (n : ℕ) (xs : List StoredEvent) (x : StoredEvent)
      → n ≤ length xs
      → drop n (xs ++ x ∷ []) ≡ drop n xs ++ x ∷ []
  drop-snoc ℕ.zero xs x le = refl
  drop-snoc (suc n) [] x le = absurd (omega arith)
  drop-snoc (suc n) (y ∷ xs) x le = drop-snoc n xs x (omega arith)

  -- One more event of the log.
  pub shown-suc :
      (from k : ℕ) (log : List StoredEvent) (ev : StoredEvent)
      → get_elem? log k ≡ some ev
      → from ≤ length (take k log)
      → shown (drop from (take (suc k) log)) ≡ items_after (shown (drop from (take k log))) ev
  shown-suc from k log ev at le =
      ap (λ l. shown (drop from l)) (take-suc log k ev at)
      ∙ ap shown (drop-snoc from (take k log) ev le)
      ∙ shown_from-snoc [] (drop from (take k log)) ev

-- The bound on the items, on the items alone.
abbrev cut : Option ℕ → List Item → List Item
cut none items = items
cut (some max) items = if ltb max (length items) then trim_items items max else items

bound_items-nameless :
    (max : Option ℕ) (s : SessionState)
    → nameless (bound_items max s).items ≡ cut max (nameless s.items)
unfolding bound_items
bound_items-nameless none s = refl
bound_items-nameless (some max) s =
    ground (arith, length-map nameless_item s.items, trim_items-nameless s.items max)

-- What the reducer makes of an event is what is to be shown of it.
pub bound_items-items_after :
    (has_encoder : Bool) (max : Option ℕ) (s : SessionState) (ev : StoredEvent)
    → nameless (bound_items max (apply_event has_encoder s (wire_event ev))).items
      ≡ items_after has_encoder max (nameless s.items) ev
unfolding items_after
bound_items-items_after has_encoder max s ev =
    bound_items-nameless max (apply_event has_encoder s (wire_event ev))
    ∙ ap (cut max) (sym (apply_event-nameless has_encoder s new_session_state (wire_event ev)))
    ∙ sym (bound_items-nameless max _)
