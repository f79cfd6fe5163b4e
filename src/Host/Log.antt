-- ===== src/Host/Log.antt =====
-- internal/store/store.go: the numbers of the event log.
use mathlib.Core.Path.{subst}
use mathlib.Core.List.{append-nil, append_assoc}
use msclaude_connector.Prelude.{
  ℕ, zero, suc, ◌+◌, ◌≤◌, ◌≡◌, refl, ◌∙◌, ap, sym, Bool, true, false, List, [], ◌∷◌, ◌++◌, some,
  arith, Text, All, ltb, length, length-append, drop, take, keep, get_elem?, if_cases,
  if◌then◌else◌,
}
use msclaude_connector.Value.{Value}
use msclaude_connector.Host.{
  StoredEvent, Store, Snapshot, Unmarshal, append_event, get_events_since, fold_events,
  get_snapshot,
}

-- The events are numbered in a row, from `suc n` on.
abbrev pub Numbered : ℕ → List StoredEvent → Type 0
Numbered n [] = Unit
Numbered n (ev ∷ evs) = (ev.seq ≡ suc n) × Numbered (suc n) evs

-- The log starts at 1, and `last_seq` is the number of its last event, 0 where there is none.
pub record IsLog (st : Store) : Type 0 where
  pub numbered : Numbered 0 st.events
  pub tip : st.last_seq ≡ length st.events

Numbered-snoc :
    (n : ℕ) (evs : List StoredEvent) (ev : StoredEvent)
    → Numbered n evs
    → ev.seq ≡ suc (n + length evs)
    → Numbered n (evs ++ ev ∷ [])
Numbered-snoc n [] ev h e = (omega (arith, e), tt)
Numbered-snoc n (x ∷ evs) ev h e = (h.0, Numbered-snoc (suc n) evs ev h.1 (omega (arith, e)))

-- Appending keeps the log in order, whether or not the transaction commits.
pub append_event-IsLog :
    (u : Unmarshal) (commits : Bool) (ts : ℕ) (kind : Text) (payload : Value) (st : Store)
    → IsLog st
    → IsLog (append_event u commits ts kind payload st).0
unfolding append_event
append_event-IsLog u true ts kind payload st h = record {
  numbered = Numbered-snoc 0 st.events _ h.numbered (omega (arith, h.tip));
  tip = omega (arith, h.tip, length-append st.events);
}
append_event-IsLog u false ts kind payload st h = h

abbrev after : ℕ → List StoredEvent → List StoredEvent
after k = keep (λ (ev : StoredEvent). ltb k ev.seq)

all_after : (n k : ℕ) (evs : List StoredEvent) → Numbered n evs → k ≤ n → after k evs ≡ evs
all_after n k [] h le = refl
all_after n k (ev ∷ evs) h le =
    if_cases (λ l. l ≡ ev ∷ evs) (ltb k ev.seq) _ _
      (λ _. ap (λ l. ev ∷ l) (all_after (suc n) k evs h.1 (omega arith)))
      (λ f. absurd (ground (arith, f, h.0)))

later_events : (n m : ℕ) (evs : List StoredEvent) → Numbered n evs → after (n + m) evs ≡ drop m evs
later_events n zero evs h = all_after n (n + 0) evs h (omega arith)
later_events n (suc m) [] h = refl
later_events n (suc m) (ev ∷ evs) h =
    if_cases (λ l. l ≡ drop m evs) (ltb (n + suc m) ev.seq) _ _
      (λ f. absurd (ground (arith, f, h.0)))
      (λ _. subst (λ k. after k evs ≡ drop m evs) (omega arith) (later_events (suc n) m evs h.1))

-- The events after a number are the log without that many events at its front, in their order, and
-- no more of them than the limit, where there is one.
pub get_events_since-drop :
    (since limit : ℕ) (st : Store)
    → IsLog st
    → get_events_since since limit st
      ≡ (if ltb 0 limit then take limit (drop since st.events) else drop since st.events)
unfolding get_events_since
get_events_since-drop since limit st h =
    let e : after since st.events ≡ drop since st.events =
      subst (λ k. after k st.events ≡ drop since st.events) (omega arith)
        (later_events 0 since st.events h.numbered) in
    rw e refl

fold_events-last_seq :
    (u : Unmarshal) (n : ℕ) (evs : List StoredEvent) (snap : Snapshot)
    → Numbered n evs
    → snap.last_seq ≡ n
    → (fold_events u evs snap).last_seq ≡ n + length evs
unfolding fold_events
fold_events-last_seq u n [] snap h e = omega (arith, e)
fold_events-last_seq u n (ev ∷ evs) snap h e =
    fold_events-last_seq u (suc n) evs _ h.1 h.0 ∙ omega arith

fold_events-session_id :
    (u : Unmarshal) (evs : List StoredEvent) (snap : Snapshot)
    → (fold_events u evs snap).session_id ≡ snap.session_id
unfolding fold_events
fold_events-session_id u [] snap = refl
fold_events-session_id u (ev ∷ evs) snap = fold_events-session_id u evs _

fold_events-tip :
    (u : Unmarshal) (evs : List StoredEvent) (snap : Snapshot)
    → Numbered 0 evs
    → snap.last_seq ≡ length evs
    → (fold_events u evs snap).last_seq ≡ length evs
unfolding fold_events
fold_events-tip u [] snap h e = e
fold_events-tip u (ev ∷ evs) snap h e = fold_events-last_seq u 1 evs _ h.1 h.0 ∙ omega arith

-- The snapshot is one of the session, and its number is that of the last event.
pub get_snapshot-last_seq :
    (u : Unmarshal) (permissions questions devices : Value) (st : Store)
    → IsLog st
    → ((get_snapshot u permissions questions devices st).last_seq ≡ length st.events)
      × ((get_snapshot u permissions questions devices st).session_id ≡ st.session_id)
unfolding get_snapshot
get_snapshot-last_seq u permissions questions devices st h =
    (fold_events-tip u st.events _ h.numbered h.tip, fold_events-session_id u st.events _)

-- An event of the log, at its place.
pub record InLog (st : Store) (ev : StoredEvent) : Type 0 where
  pub place : ℕ
  pub found : get_elem? st.events place ≡ some ev
  pub number : ev.seq ≡ suc place

get_elem?-append :
    (xs ys : List StoredEvent) (i : ℕ) (x : StoredEvent)
    → get_elem? xs i ≡ some x
    → get_elem? (xs ++ ys) i ≡ some x
get_elem?-append [] ys i x h = cc
get_elem?-append (y ∷ xs) ys zero x h = h
get_elem?-append (y ∷ xs) ys (suc i) x h = get_elem?-append xs ys i x h

get_elem?-length :
    (xs ys : List StoredEvent) (x : StoredEvent) → get_elem? (xs ++ x ∷ ys) (length xs) ≡ some x
get_elem?-length [] ys x = refl
get_elem?-length (y ∷ xs) ys x = get_elem?-length xs ys x

-- All events of the log are at their places.
InLog-all :
    (st : Store) (before evs : List StoredEvent)
    → st.events ≡ before ++ evs
    → Numbered (length before) evs
    → All (InLog st) evs
InLog-all st before [] e h = tt
InLog-all st before (ev ∷ evs) e h = (
  record { place = length before; found = rw e (get_elem?-length before evs ev); number = h.0 },
  InLog-all st (before ++ ev ∷ []) evs (e ∙ sym (append_assoc before (ev ∷ []) evs))
      (subst (λ n. Numbered n evs) (omega (arith, length-append before (ev ∷ []))) h.1),
)

All-drop : (P : StoredEvent → Type 0) (n : ℕ) (xs : List StoredEvent) → All P xs → All P (drop n xs)
All-drop P zero xs h = h
All-drop P (suc n) [] h = tt
All-drop P (suc n) (x ∷ xs) h = All-drop P n xs h.1

-- The events that the host sends after a `hello` are events of its log.
pub get_events_since-InLog :
    (since : ℕ) (st : Store) → IsLog st → All (InLog st) (get_events_since since 0 st)
get_events_since-InLog since st h =
    subst (All (InLog st)) (sym (get_events_since-drop since 0 st h))
      (All-drop (InLog st) since st.events (InLog-all st [] st.events refl h.numbered))

-- What an append leaves of the log, and the event that it adds.
pub record Grows (st st' : Store) : Type 0 where
  pub new : List StoredEvent
  pub log : st'.events ≡ st.events ++ new
  pub session : st'.session_id ≡ st.session_id

pub append_event-Grows :
    (u : Unmarshal) (commits : Bool) (ts : ℕ) (kind : Text) (payload : Value) (st : Store)
    → Grows st (append_event u commits ts kind payload st).0
unfolding append_event
append_event-Grows u true ts kind payload st = record { new = _; log = refl; session = refl }
append_event-Grows u false ts kind payload st = record {
  new = [];
  log = sym (append-nil st.events);
  session = refl;
}

pub InLog-Grows : {st st' : Store} {ev : StoredEvent} → Grows st st' → InLog st ev → InLog st' ev
InLog-Grows {st} {st'} {ev} g h = record {
  place = h.place;
  found = rw g.log (get_elem?-append st.events g.new h.place ev h.found);
  number = h.number;
}

pub take-Grows :
    {st st' : Store}
    → Grows st st'
    → (k : ℕ) → k ≤ length st.events
    → take k st'.events ≡ take k st.events
take-Grows {st} g k le = rw g.log (take-append k st.events g.new le)
  where
    take-append : (k : ℕ) (xs ys : List StoredEvent) → k ≤ length xs → take k (xs ++ ys) ≡ take k xs
    take-append zero xs ys le = refl
    take-append (suc k) [] ys le = absurd (omega arith)
    take-append (suc k) (x ∷ xs) ys le = ap (λ l. x ∷ l) (take-append k xs ys (omega arith))

pub length-Grows : {st st' : Store} → Grows st st' → length st.events ≤ length st'.events
length-Grows {st} g = rw g.log (omega (arith, length-append st.events g.new))

-- The event that has been appended is in the log.
pub append_event-InLog :
    (u : Unmarshal) (ts : ℕ) (kind : Text) (payload : Value) (st : Store) (ev : StoredEvent)
    → IsLog st
    → (append_event u true ts kind payload st).1 ≡ some ev
    → InLog (append_event u true ts kind payload st).0 ev
unfolding append_event
append_event-InLog u ts kind payload st ev h e = record {
  place = length st.events;
  found = get_elem?-length st.events [] _ ∙ e;
  number = ground (arith, e, h.tip);
}
