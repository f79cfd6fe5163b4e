-- ===== src/Host/Adapter/Open.antt =====
-- hub.go: the requests of the agent, which of them are pending, and the answers that it is given.
use msclaude_connector.Prelude.{
  ℕ, ◌+◌, ◌≤◌, ◌≡◌, refl, inl, inr, Bool, true, false, not, ◌&&◌, List, [], ◌∷◌, ◌++◌, arith, Text,
  codes, text_eq, text_eq_iff, text_eq→eq, any, keep, if◌then◌else◌, Bool-cases,
}
use msclaude_connector.Host.Commands.{Hub, AgentCommand, without}
use msclaude_connector.Host.Adapter.{Requests, Input, command, emitted, put}

-- A request of the agent, by its id.
pub data AgentRequest : Type 0 where
  permission question : Text → AgentRequest

abbrev pub one_if : Bool → ℕ
one_if b = if b then 1 else 0

-- 1 where the request is pending.
abbrev pub open_in : AgentRequest → Hub → ℕ
open_in (permission id) h = one_if (any (text_eq id) h.pending)
open_in (question id) h = one_if (any (text_eq id) h.pending_questions)

-- 1 where the command answers the request.
abbrev pub answers_to : AgentRequest → AgentCommand → ℕ
answers_to r (AgentCommand.prompt text) = 0
answers_to r (AgentCommand.mode m) = 0
answers_to r AgentCommand.interrupt = 0
answers_to (permission id) (AgentCommand.permission b) = one_if (text_eq id b.request_id)
answers_to (permission id) (AgentCommand.question b) = 0
answers_to (question id) (AgentCommand.permission b) = 0
answers_to (question id) (AgentCommand.question b) = one_if (text_eq id b.question_id)

abbrev pub answers : AgentRequest → List AgentCommand → ℕ
answers r [] = 0
answers r (a ∷ as') = answers_to r a + answers r as'

-- 1 where the agent makes the request, and it is recorded.
abbrev pub asked_by : Requests → AgentRequest → Input → ℕ
asked_by requests r (command call) = 0
asked_by requests (permission id) (emitted e) = one_if (
    e.commits
    && text_eq e.kind (codes "permission_request")
    && text_eq id (requests.permission e.payload))
asked_by requests (question id) (emitted e) =
    one_if
      (e.commits && text_eq e.kind (codes "question") && text_eq id (requests.question e.payload))

abbrev pub asked : Requests → AgentRequest → List Input → ℕ
asked requests r [] = 0
asked requests r (i ∷ is) = asked_by requests r i + asked requests r is

pub answers-append :
    (r : AgentRequest) (xs ys : List AgentCommand)
    → answers r (xs ++ ys) ≡ answers r xs + answers r ys
answers-append r [] ys = omega arith
answers-append r (x ∷ xs) ys = omega (arith, answers-append r xs ys)

pub any-without : (id : Text) (ids : List Text) → any (text_eq id) (without id ids) ≡ false
any-without id [] = refl
any-without id (i ∷ ids) = ground (arith, any-without id ids, text_eq_iff id i, text_eq_iff i id)

any-keep : (p q : Text → Bool) (ids : List Text) → one_if (any p (keep q ids)) ≤ one_if (any p ids)
any-keep p q [] = omega arith
any-keep p q (i ∷ ids) = ground (arith, any-keep p q ids)

-- An id that is deleted was one of those that are pending.
pub delete_one :
    (j id : Text) (ids : List Text)
    → any (text_eq id) ids ≡ true
    → one_if (text_eq j id) + one_if (any (text_eq j) (without id ids))
      ≤ one_if (any (text_eq j) ids)
delete_one j id ids given = elim (Bool-cases (text_eq j id)) [
  | inl e ↦ rw (text_eq→eq j id e) (ground (arith, any-without id ids, given))
  | inr e ↦ ground (arith, e, any-keep (text_eq j) (λ i. not (text_eq i id)) ids)
]

pub put_one :
    (j id : Text) (ids : List Text)
    → one_if (any (text_eq j) (put id ids)) ≤ one_if (any (text_eq j) ids) + one_if (text_eq j id)
put_one j id ids = ground (arith, any-keep (text_eq j) (λ i. not (text_eq i id)) ids)
