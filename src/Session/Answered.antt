-- ===== src/Session/Answered.antt =====
-- reducer.ts: what the events that answer a permission request or a question leave in the session.
pub mod Kept
use msclaude_connector.Prelude.{
  String, ◌≡◌, refl, sym, ◌∙◌, Bool, true, false, not, List, [], ◌∷◌, Option, none, some, map,
  arith, Text, text_eq, text_eq_iff, length, any, keep, All, if◌then◌else◌, if_cases, inl, inr,
  Bool-cases,
}
use msclaude_connector.Value.{Value, Fields, obj, str, get, as_string, as_bool, same_value}
use msclaude_connector.Session.{
  Item, SessionState, Resolution, Answer, prompt, assistant, tool, permission, question, notice,
}
use msclaude_connector.Session.Names.{name_for}
use msclaude_connector.Session.Pending.Distinct.{has_key, same_text}
use msclaude_connector.Session.Events.{
  is_permission, is_question, is_not_for, resolve_permission, resolve_question,
  on_permission_resolved, on_question_resolved,
}
use msclaude_connector.Session.Answered.Kept.{IsAnswered, map-IsAnswered}

abbrev pub resolution_of : Item → Option Resolution
resolution_of (permission p) = p.resolved
resolution_of _ = none

abbrev pub answer_of : Item → Option Answer
answer_of (question q) = q.resolved
answer_of _ = none

permission-same_ask :
    (id : Text) (r : Resolution) (i : Item)
    → is_permission id (resolve_permission id r i) ≡ is_permission id i
permission-same_ask id r (permission p) = ground arith
permission-same_ask id r (prompt i) = refl
permission-same_ask id r (assistant i) = refl
permission-same_ask id r (tool i) = refl
permission-same_ask id r (question i) = refl
permission-same_ask id r (notice i) = refl

permission-gets :
    (id : Text) (r : Resolution) (i : Item)
    → is_permission id i ≡ true
    → resolution_of (resolve_permission id r i) ≡ some r
permission-gets id r (permission p) h = ground (arith, h)
permission-gets id r (prompt i) h = cc
permission-gets id r (assistant i) h = cc
permission-gets id r (tool i) h = cc
permission-gets id r (question i) h = cc
permission-gets id r (notice i) h = cc

permission-stays :
    (id : Text) (r : Resolution) (i : Item)
    → is_permission id i ≡ false
    → resolve_permission id r i ≡ i
permission-stays id r (permission p) h = ground (arith, h)
permission-stays id r (prompt i) h = refl
permission-stays id r (assistant i) h = refl
permission-stays id r (tool i) h = refl
permission-stays id r (question i) h = refl
permission-stays id r (notice i) h = refl

permission-IsAnswered :
    (id : Text) (pending : List Fields) (items : List Item) (r : Resolution)
    → IsAnswered "requestId" id pending
        (keep (is_not_for "requestId" id) pending)
        (is_permission id)
        (λ i. resolution_of i ≡ some r)
        items
        (map (resolve_permission id r) items)
permission-IsAnswered id pending items r =
    map-IsAnswered (is_permission id) (λ i. resolution_of i ≡ some r) (resolve_permission id r)
      (permission-same_ask id r) (permission-gets id r) (permission-stays id r) "requestId" id
      pending items

-- The answer to a permission request takes it off the pending ones, and no other request; the items
-- of the request, as many as before, get the resolution, with the name of the device, and all other
-- items stay.
pub on_permission_resolved-IsAnswered :
    (next : SessionState) (payload : Fields)
    → let id = as_string (get "requestId" payload) [] in
      let device = as_string (get "byDevice" payload) [] in
      let after = on_permission_resolved next payload in
      IsAnswered "requestId" id next.pending_permissions after.pending_permissions
        (is_permission id)
        (λ i.
          resolution_of i
          ≡ some (record {
            allow = as_bool (get "allow" payload) false;
            by_device = device;
            by_name = name_for next device;
          }))
        next.items
        after.items
unfolding on_permission_resolved
on_permission_resolved-IsAnswered next payload =
    let id = as_string (get "requestId" payload) [] in
    permission-IsAnswered id next.pending_permissions next.items _

question-same_ask :
    (id : Text) (a : Answer) (i : Item)
    → is_question id (resolve_question id a i) ≡ is_question id i
question-same_ask id a (question q) = ground arith
question-same_ask id a (prompt i) = refl
question-same_ask id a (assistant i) = refl
question-same_ask id a (tool i) = refl
question-same_ask id a (permission i) = refl
question-same_ask id a (notice i) = refl

question-gets :
    (id : Text) (a : Answer) (i : Item)
    → is_question id i ≡ true
    → answer_of (resolve_question id a i) ≡ some a
question-gets id a (question q) h = ground (arith, h)
question-gets id a (prompt i) h = cc
question-gets id a (assistant i) h = cc
question-gets id a (tool i) h = cc
question-gets id a (permission i) h = cc
question-gets id a (notice i) h = cc

question-stays :
    (id : Text) (a : Answer) (i : Item) → is_question id i ≡ false → resolve_question id a i ≡ i
question-stays id a (question q) h = ground (arith, h)
question-stays id a (prompt i) h = refl
question-stays id a (assistant i) h = refl
question-stays id a (tool i) h = refl
question-stays id a (permission i) h = refl
question-stays id a (notice i) h = refl

question-IsAnswered :
    (id : Text) (pending : List Fields) (items : List Item) (a : Answer)
    → IsAnswered "questionId" id pending
        (keep (is_not_for "questionId" id) pending)
        (is_question id)
        (λ i. answer_of i ≡ some a)
        items
        (map (resolve_question id a) items)
question-IsAnswered id pending items a =
    map-IsAnswered (is_question id) (λ i. answer_of i ≡ some a) (resolve_question id a)
      (question-same_ask id a) (question-gets id a) (question-stays id a) "questionId" id pending
      items

-- The answer to a question takes it off the pending ones, and no other question; the items of the
-- question, as many as before, get the answer, with the name of the device, and all other items stay.
pub on_question_resolved-IsAnswered :
    (next : SessionState) (payload : Fields)
    → let id = as_string (get "questionId" payload) [] in
      let device = as_string (get "byDevice" payload) [] in
      let after = on_question_resolved next payload in
      IsAnswered "questionId" id next.pending_questions after.pending_questions
        (is_question id)
        (λ i.
          answer_of i
          ≡ some (record {
            text = as_string (get "text" payload) [];
            by_device = device;
            by_name = name_for next device;
          }))
        next.items
        after.items
unfolding on_question_resolved
on_question_resolved-IsAnswered next payload =
    let id = as_string (get "questionId" payload) [] in
    question-IsAnswered id next.pending_questions next.items _
