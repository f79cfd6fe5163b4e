-- ===== src/Session/Asked.antt =====
-- reducer.ts: what the events that ask for a permission or put a question leave in the session.
use msclaude_connector.Prelude.{
  String, ◌≡◌, refl, ◌∙◌, Bool, true, false, ◌||◌, List, [], ◌∷◌, ◌++◌, map, arith, Text, text_eq,
  text_eq_iff, is_empty, any, if◌then◌else◌, if_cases, inl, inr, Bool-cases,
}
use msclaude_connector.Value.{Fields, obj, get, as_string}
use msclaude_connector.Wire.{EventPayload}
use msclaude_connector.Session.{Item, SessionState}
use msclaude_connector.Session.Pending.{add_pending}
use msclaude_connector.Session.Pending.Distinct.{DistinctBy, has_key, item_has_key, dedupe_by_lem}
use msclaude_connector.Session.Events.{
  is_permission, is_question, permission_view, question_view, on_permission_request, on_question,
}

text_eq_refl : (s : Text) → text_eq s s ≡ true
text_eq_refl s = ground (arith, text_eq_iff s s)

any-append {ℓ} :
    {A : Type ℓ} (p : A → Bool) (xs ys : List A) → any p (xs ++ ys) ≡ (any p xs || any p ys)
any-append p [] ys = refl
any-append p (x ∷ xs) ys = ground (arith, any-append p xs ys)

-- The view that is added, or an older one with its key, is in the list.
add_pending-has_key :
    (key : String) (id : Text) (pending : List Fields) (view : Fields)
    → has_key key id view ≡ true
    → any (has_key key id) (add_pending key pending view) ≡ true
unfolding add_pending
add_pending-has_key key id pending view h =
    (dedupe_by_lem key (map obj pending ++ obj view ∷ [])).1 id
    ∙ any-append (item_has_key key id) (map obj pending) (obj view ∷ [])
    ∙ ground (arith, h)

add_pending-DistinctBy :
    (key : String) (pending : List Fields) (view : Fields)
    → DistinctBy key (add_pending key pending view)
unfolding add_pending
add_pending-DistinctBy key pending view = (dedupe_by_lem key (map obj pending ++ obj view ∷ [])).0

or_added {ℓ} :
    {A : Type ℓ} (p : A → Bool) (xs : List A) (x : A)
    → p x ≡ true
    → any p (if any p xs then xs else xs ++ x ∷ []) ≡ true
or_added p xs x h = elim (Bool-cases (any p xs)) [
  | inl old ↦ rw (old, old) refl
  | inr new ↦ rw new (any-append p xs (x ∷ []) ∙ ground (arith, h))
]

-- What the session shows of a request: a pending view with its id, no two views of one id, and an
-- item that `shows` it.
pub record IsAsked (key : String) (id : Text) (pending : List Fields) (shows : Item → Bool)
    (items : List Item) : Type 0 where
  pub listed : any (has_key key id) pending ≡ true
  pub distinct : DistinctBy key pending
  pub shown : any shows items ≡ true

-- After a permission request with an id, a pending view has that id, no two pending views have the
-- same id, and an item has the id of the request.
pub on_permission_request-IsAsked :
    (next : SessionState) (ev : EventPayload) (payload : Fields)
    → let id = as_string (get "requestId" payload) [] in
      let after = on_permission_request next ev payload in
      is_empty id ≡ false
      → IsAsked "requestId" id after.pending_permissions (is_permission id) after.items
unfolding on_permission_request permission_view
on_permission_request-IsAsked next ev payload named =
    let id = as_string (get "requestId" payload) [] in
    if_cases
      (λ (s : SessionState).
        IsAsked "requestId" id s.pending_permissions (is_permission id) s.items)
      (is_empty id) _ _ (λ e. absurd (ground (arith, e, named)))
      λ _. record {
        listed = add_pending-has_key "requestId" id next.pending_permissions _ (text_eq_refl id);
        distinct = add_pending-DistinctBy "requestId" next.pending_permissions _;
        shown = or_added (is_permission id) next.items _ (text_eq_refl id);
      }

-- After a question with an id, a pending view has that id, no two pending views have the same id, and
-- an item has the id of the question.
pub on_question-IsAsked :
    (next : SessionState) (ev : EventPayload) (payload : Fields)
    → let id = as_string (get "questionId" payload) [] in
      let after = on_question next ev payload in
      is_empty id ≡ false
      → IsAsked "questionId" id after.pending_questions (is_question id) after.items
unfolding on_question question_view
on_question-IsAsked next ev payload named =
    let id = as_string (get "questionId" payload) [] in
    if_cases
      (λ (s : SessionState). IsAsked "questionId" id s.pending_questions (is_question id) s.items)
      (is_empty id) _ _ (λ e. absurd (ground (arith, e, named)))
      λ _. record {
        listed = add_pending-has_key "questionId" id next.pending_questions _ (text_eq_refl id);
        distinct = add_pending-DistinctBy "questionId" next.pending_questions _;
        shown = or_added (is_question id) next.items _ (text_eq_refl id);
      }
