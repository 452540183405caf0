-- ===== src/Jobs/Types.antt =====
-- Jobs: gen/wi/core/v1/jobs.pb.go, and `terminalJob` of internal/daemonapi/jobs.go. A missing time
-- stamp is `none`.
use workitem.Common.{
  ℕ, String, Bool, true, false, ◌&&◌, ◌||◌, ◌==◌, Option, none, some, List, [], ◌∷◌, str_eq,
}
use workitem.Model.Blocker.{Time}

pub data JobState : Type 0 where
  unspecified queued running waiting_for_approval succeeded failed cancelled : JobState

-- The numbers of the protocol.
abbrev pub state_number : JobState → ℕ
state_number JobState.unspecified = 0
state_number JobState.queued = 1
state_number JobState.running = 2
state_number JobState.waiting_for_approval = 3
state_number JobState.succeeded = 4
state_number JobState.failed = 5
state_number JobState.cancelled = 6

abbrev pub same_state : JobState → JobState → Bool
same_state s t = state_number s == state_number t

abbrev pub terminal_job : JobState → Bool
terminal_job s =
    same_state s JobState.succeeded
    || same_state s JobState.failed
    || same_state s JobState.cancelled

pub data ApprovalDecision : Type 0 where
  no_decision allow deny : ApprovalDecision

pub record Approval : Type 0 where
  pub challenge_id : String
  pub question : String
  pub path : String
  pub digest : String
  pub expires_at : Time

pub record PartialOutcome : Type 0 where
  pub item_id : String
  pub completed : List String
  pub warnings : List String

pub record Job : Type 0 where
  pub id : String
  pub kind : String
  pub state : JobState
  pub item_id : String
  pub repository_id : String
  pub phase : String
  pub log_tail : String
  pub approval : Option Approval
  pub error : String
  pub partial : Option PartialOutcome
  pub warnings : List String
  pub created_at : Option Time
  pub started_at : Option Time
  pub finished_at : Option Time

abbrev pub same_option {ℓ} : {A : Type ℓ} → (A → A → Bool) → Option A → Option A → Bool
same_option same none none = true
same_option same (some a) (some b) = same a b
same_option same _ _ = false

unfoldable pub same_texts : List String → List String → Bool
same_texts [] [] = true
same_texts [] (y ∷ ys) = false
same_texts (x ∷ xs) [] = false
same_texts (x ∷ xs) (y ∷ ys) = str_eq x y && same_texts xs ys

abbrev pub same_time : Time → Time → Bool
same_time t u = t == u

abbrev pub same_approval : Approval → Approval → Bool
same_approval a b =
    str_eq a.challenge_id b.challenge_id
    && str_eq a.question b.question
    && str_eq a.path b.path
    && str_eq a.digest b.digest
    && same_time a.expires_at b.expires_at

abbrev pub same_partial : PartialOutcome → PartialOutcome → Bool
same_partial p q =
    str_eq p.item_id q.item_id
    && same_texts p.completed q.completed
    && same_texts p.warnings q.warnings

abbrev same_content : Job → Job → Bool
same_content a b =
    str_eq a.id b.id
    && str_eq a.kind b.kind
    && str_eq a.item_id b.item_id
    && str_eq a.repository_id b.repository_id
    && str_eq a.phase b.phase
    && str_eq a.log_tail b.log_tail
    && same_option same_approval a.approval b.approval
    && str_eq a.error b.error
    && same_option same_partial a.partial b.partial
    && same_texts a.warnings b.warnings
    && same_option same_time a.created_at b.created_at
    && same_option same_time a.started_at b.started_at
    && same_option same_time a.finished_at b.finished_at

-- `proto.Equal`
unfoldable pub same_job : Job → Job → Bool
unfolding same_texts
same_job a b = same_state a.state b.state && same_content a b
