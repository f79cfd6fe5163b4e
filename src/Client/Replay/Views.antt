-- ===== src/Client/Replay/Views.antt =====
-- What the views of a session rely on, over any history of a client: the keys of the rendered items,
-- and the bounds on notices and items.
use msclaude_connector.Prelude.{
  ℕ, ◌-◌, ◌≤◌, ◌≡◌, refl, Bool, List, [], Option, none, some, arith, leb, ltb, length, length-drop,
  is_empty, Text, if_cases,
}
use msclaude_connector.Wire.{EventKind, EventPayload, SnapshotPayload}
use msclaude_connector.Session.{Item, SessionState, new_session_state}
use msclaude_connector.Session.Stream.{trim_items, max_notices}
use mathlib.Core.List.{Nodup-nil}
use msclaude_connector.Value.{Fields, get, as_string, record_or_empty}
use msclaude_connector.Session.Events.{
  apply_event, dispatch, on_user_prompt, on_text_delta, on_turn_complete, on_status_change,
  on_mode_changed, on_usage_update, on_tool_call_start, on_tool_call_end, on_permission_request,
  on_permission_resolved, on_question, on_question_resolved, on_error,
}
use msclaude_connector.Session.Snapshot.{apply_snapshot, base_for, is_other_session}
use msclaude_connector.Session.Ids.{HasUniqueIds, HasUniqueIds-mono}
use msclaude_connector.Session.Ids.Kept.{trim_items-HasUniqueIds}
use msclaude_connector.Session.Ids.Events.{apply_event-HasUniqueIds}
use msclaude_connector.Session.Caps.{
  notice_count, apply_event-notice_count, trim_items-notice_count,
}
use msclaude_connector.Client.{World, AuthMode, HarnessIdentity}
use msclaude_connector.Client.Notify.{new_client}
use msclaude_connector.Client.Messages.{bound_items}
use msclaude_connector.Client.Sockets.{Step, run}
use msclaude_connector.Client.Replay.{
  Replayed, fresh, seeded, advanced, restored, run-new_client-IsReplayed,
}

-- The items are within the bound, if there is one.
abbrev Within : Option ℕ → List Item → Type 0
Within none items = Unit
Within (some max) items = length items ≤ max

pub record IsPresentable (max : Option ℕ) (s : SessionState) : Type 0 where
  pub ids : HasUniqueIds s.last_seq s.items
  pub notices : notice_count s.items ≤ max_notices
  pub within : Within max s.items

-- Events leave the tip and the id of the session, and set no number but the last.
record KeepsHead (s t : SessionState) : Type 0 where
  last_seq : t.last_seq ≡ s.last_seq
  tip_seq : t.tip_seq ≡ s.tip_seq
  session_id : t.session_id ≡ s.session_id

same_head : (s : SessionState) → KeepsHead s s
same_head s = record { last_seq = refl; tip_seq = refl; session_id = refl }

dispatch-KeepsHead :
    (has_encoder : Bool) (kind : EventKind) (s : SessionState) (ev : EventPayload)
    (payload : Fields)
    → KeepsHead s (dispatch has_encoder kind s ev payload)
unfolding dispatch on_user_prompt on_text_delta on_turn_complete on_status_change on_mode_changed
    on_usage_update on_tool_call_start on_tool_call_end on_permission_request on_permission_resolved
    on_question on_question_resolved on_error
dispatch-KeepsHead has_encoder EventKind.text_delta s ev payload =
    if_cases (KeepsHead s) (is_empty (as_string (get "content" payload) [])) _ _ (λ _. same_head s)
      (λ _. record { last_seq = refl; tip_seq = refl; session_id = refl })
dispatch-KeepsHead has_encoder EventKind.permission_request s ev payload =
    if_cases (KeepsHead s) (is_empty (as_string (get "requestId" payload) [])) _ _
      (λ _. same_head s) (λ _. record { last_seq = refl; tip_seq = refl; session_id = refl })
dispatch-KeepsHead has_encoder EventKind.question s ev payload =
    if_cases (KeepsHead s) (is_empty (as_string (get "questionId" payload) [])) _ _
      (λ _. same_head s) (λ _. record { last_seq = refl; tip_seq = refl; session_id = refl })
dispatch-KeepsHead has_encoder _ s ev payload = record {
  last_seq = refl;
  tip_seq = refl;
  session_id = refl;
}

module _ (has_encoder : Bool) (s : SessionState) (ev : EventPayload) where
  applied : KeepsHead (record s { last_seq = ev.seq }) (apply_event has_encoder s ev)
  unfolding apply_event
  applied =
      dispatch-KeepsHead has_encoder ev.kind (record s { last_seq = ev.seq }) ev
        (record_or_empty ev.payload)

  pub apply_event-last_seq : (apply_event has_encoder s ev).last_seq ≡ ev.seq
  apply_event-last_seq = applied.last_seq

  pub apply_event-tip_seq : (apply_event has_encoder s ev).tip_seq ≡ s.tip_seq
  apply_event-tip_seq = applied.tip_seq

  pub apply_event-session_id : (apply_event has_encoder s ev).session_id ≡ s.session_id
  apply_event-session_id = applied.session_id

module _ (max : Option ℕ) where
  IsPresentable-new : IsPresentable max new_session_state
  IsPresentable-new = record {
    ids = record { unique = Nodup-nil; marked = tt };
    notices = omega arith;
    within = empty max;
  }
    where
      empty : (m : Option ℕ) → Within m []
      empty none = tt
      empty (some m) = omega arith

  apply_snapshot-IsPresentable :
      (s : SessionState) (snap : SnapshotPayload)
      → IsPresentable max s
      → IsPresentable max (apply_snapshot s snap)
  unfolding apply_snapshot
  apply_snapshot-IsPresentable s snap p = record {
    ids = base.ids;
    notices = base.notices;
    within = base.within;
  }
    where
      base : IsPresentable max (base_for s snap)
      base =
          if_cases (IsPresentable max) (is_other_session s.session_id snap.session_id) _ _
            (λ _. IsPresentable-new) (λ _. p)

trim_items-within : (items : List Item) (max : ℕ) → length (trim_items items max) ≤ max
unfolding trim_items
trim_items-within items max =
    if_cases (λ (is : List Item). length is ≤ max) (leb (length items) max) _ _ (λ h. ground arith)
      (λ _. omega (arith, length-drop (length items - max) items))

bound_items-IsPresentable :
    (max : Option ℕ) (s : SessionState)
    → HasUniqueIds s.last_seq s.items
    → notice_count s.items ≤ max_notices
    → IsPresentable max (bound_items max s)
unfolding bound_items
bound_items-IsPresentable none s u n = record { ids = u; notices = n; within = tt }
bound_items-IsPresentable (some max) s u n =
    if_cases (IsPresentable (some max)) (ltb max (length s.items)) _ _
      (λ _. record {
        ids = trim_items-HasUniqueIds s.last_seq s.items u max;
        notices = omega (arith, trim_items-notice_count s.items max);
        within = trim_items-within s.items max;
      })
      (λ small. record { ids = u; notices = n; within = ground arith })

-- Any session that the reducer builds is fit to be shown.
pub Replayed-IsPresentable :
    {max : Option ℕ} {s : SessionState} → Replayed max s → IsPresentable max s
Replayed-IsPresentable {max} fresh = IsPresentable-new max
Replayed-IsPresentable {max} (seeded {s = s} r snap) =
    apply_snapshot-IsPresentable max s snap (Replayed-IsPresentable r)
Replayed-IsPresentable {max} (advanced {s = s} r has_encoder ev next) =
    let p = Replayed-IsPresentable r in
    bound_items-IsPresentable max (apply_event has_encoder s ev)
      (rw (apply_event-last_seq has_encoder s ev)
        (apply_event-HasUniqueIds has_encoder s ev p.ids (omega arith)))
      (apply_event-notice_count has_encoder s ev p.notices)
Replayed-IsPresentable {max} (restored {s = s} r seq later) =
    let p = Replayed-IsPresentable r in
    record {
      ids = HasUniqueIds-mono s.last_seq seq (omega arith) p.ids;
      notices = p.notices;
      within = p.within;
    }

-- Whatever happens to a new client, the items of its session have distinct ids, each with the form
-- of its kind and from an event up to `lastSeq`; at most fifty of them are notices; and they are
-- within the bound `maxItems` of the client, if it has one.
pub run-new_client-IsPresentable :
    (url : Text) (mode : AuthMode) (identity : Option HarnessIdentity) (max : Option ℕ)
    (h : List (World × Step))
    → let c = run (new_client url mode identity max) h in IsPresentable c.max_items c.session
run-new_client-IsPresentable url mode identity max h =
    Replayed-IsPresentable (run-new_client-IsReplayed url mode identity max h).replay
