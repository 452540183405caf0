-- ===== src/Runtime/Types.antt =====
-- The vocabularies of runtime events, and the records that the daemon keeps of a runtime. The texts
-- that explain a status are left out.
use Prim.Native.Char.{code, len_utf8}
use workitem.Common.{
  ℕ, ◌-◌, String, Bool, true, false, not, ◌&&◌, ◌||◌, Option, none, List, [], ◌∷◌, Map, contains,
  str_eq, leb, ◌==◌, if◌then◌else◌,
}
use workitem.Strings.{is_empty, byte_length, trim_space, is_control, all_runes}
use workitem.Model.Blocker.{Time}
use workitem.Attention.Markers.{AttentionActivity}

pub data SemanticEventType : Type 0 where
  runtime_ready runtime_status runtime_stopping runtime_failed : SemanticEventType
  agent_started agent_settled turn_started turn_ended message_completed : SemanticEventType
  tool_started tool_completed command_accepted command_rejected : SemanticEventType
  queue_changed settings_changed : SemanticEventType
  other_event : String → SemanticEventType

pub data AgentState : Type 0 where
  no_agent_state agent_active agent_idle agent_is_settled agent_failed : AgentState
  other_agent_state : String → AgentState

pub data TurnState : Type 0 where
  no_turn turn_busy turn_idle turn_failed turn_incomplete : TurnState

pub data RuntimeState : Type 0 where
  no_runtime_state running stopping problem : RuntimeState

pub data Readiness : Type 0 where
  no_readiness starting ready busy awaiting_confirmation waiting_input blocked : Readiness
  readiness_stopping : Readiness
  other_readiness : String → Readiness

pub data SettlementOutcome : Type 0 where
  no_outcome outcome_completed outcome_failed : SettlementOutcome
  other_outcome : String → SettlementOutcome

abbrev pub is_active : AgentState → Bool
is_active s = elim s [ agent_active ↦ true | _ ↦ false ]

abbrev pub is_busy : Readiness → Bool
is_busy r = elim r [ busy ↦ true | _ ↦ false ]

abbrev pub is_problem : RuntimeState → Bool
is_problem s = elim s [ problem ↦ true | _ ↦ false ]

pub record RuntimeActivity : Type 0 where
  pub work_item_id : String
  pub runtime_id : String
  pub runtime_state : RuntimeState
  pub agent_state : AgentState
  pub failure_reason : String
  pub leaf_id : String
  pub turn_state : TurnState
  pub last_event_at : Option Time
  pub last_requested_at : Option Time
  pub last_completed_at : Option Time
  pub observed_at : Time
  pub source : String

-- `RuntimeActivity{WorkItemID: itemID}`
abbrev pub new_activity : String → RuntimeActivity
new_activity item_id = record {
  work_item_id = item_id;
  runtime_id = "";
  runtime_state = no_runtime_state;
  agent_state = no_agent_state;
  failure_reason = "";
  leaf_id = "";
  turn_state = no_turn;
  last_event_at = none;
  last_requested_at = none;
  last_completed_at = none;
  observed_at = 0;
  source = "";
}

-- The fields of an event that the daemon acts on, and those of its ids that it checks.
pub record RuntimeSemanticEvent : Type 0 where
  pub id : String
  pub runtime_id : String
  pub work_item_id : String
  pub type : SemanticEventType
  pub timestamp : Time
  pub role : String
  pub failed : Bool
  pub readiness : Readiness
  pub reason_code : String
  pub delivery_state : String
  pub outcome : SettlementOutcome
  pub agent_state : AgentState
  pub leaf_id : String
  pub settings : Map String

pub data ObservedStatus : Type 0 where
  no_status status_busy status_idle status_problem : ObservedStatus

-- Of `AgentObservation`, what runtime events change.
pub record AgentObservation : Type 0 where
  pub work_item_id : String
  pub status : ObservedStatus
  pub process_online : Bool
  pub agent_loop_state : AgentState
  pub turn_state : TurnState
  pub last_activity_at : Option Time
  pub activity : AttentionActivity
  pub observed_at : Time

-- Of `AgentRuntime`, what its events are checked by and change.
pub record AgentRuntime : Type 0 where
  pub id : String
  pub workspace_claim_id : String
  pub workspace_claim_generation : ℕ  -- uint64
  pub readiness : Readiness
  pub readiness_reason_code : String
  pub readiness_observed_at : Option Time
  pub settings : Map String

without_control : String → String
without_control String.[] = ""
without_control (String.◌∷◌ c s) =
    let rest = without_control s in if is_control (code c) then rest else String.◌∷◌ c rest

-- `value[:limit]`, without the rune that it may cut in two.
first_bytes : ℕ → String → String
first_bytes limit String.[] = ""
first_bytes limit (String.◌∷◌ c s) =
    let rest = first_bytes (limit - len_utf8 c) s in
    if leb (len_utf8 c) limit then String.◌∷◌ c rest else ""

-- `compactIdentifier` of internal/coordinator/projections.go, on valid texts.
unfoldable pub compact_identifier : String → ℕ → String
unfolding trim_space without_control first_bytes is_control
compact_identifier value limit = first_bytes limit (without_control (trim_space value))

abbrev pub valid_readiness : Readiness → Bool
valid_readiness r = elim r [ other_readiness text ↦ false | _ ↦ true ]

unfoldable pub valid_delivery_state : String → Bool
unfolding contains
valid_delivery_state =
    contains
      ("" ∷ "queued" ∷ "submitted" ∷ "confirmed" ∷ "not_sent" ∷ "uncertain" ∷ "cancelled" ∷ [])

unfoldable pub awaits_answer : String → Bool
unfolding contains
awaits_answer = contains ("question_pending" ∷ "plan_approval_pending" ∷ "permission_pending" ∷ [])

-- The codes that `RuntimeReasonText` has a text for.
abbrev pub reason_codes : List String
reason_codes =
    "runtime_stopping" ∷ "headless_input_unavailable" ∷ "headless_initializing" ∷ "headless_ready"
    ∷ "headless_protocol_error" ∷ "interaction_required" ∷ "native_auth_failed" ∷ "usage_limit"
    ∷ "native_api_failed" ∷ "native_turn_interrupted" ∷ "native_queued_cancelled"
    ∷ "native_command_rejected" ∷ "runtime_starting" ∷ "session_start_pending"
    ∷ "editor_not_visible" ∷ "question_pending" ∷ "plan_approval_pending" ∷ "permission_pending"
    ∷ "editor_not_empty" ∷ "controls_unavailable" ∷ "bindings_unavailable" ∷ "bindings_changed"
    ∷ "pane_unavailable" ∷ "pane_changed" ∷ "editor_ready" ∷ "execution_pending" ∷ "prompt_blocked"
    ∷ "active_turn" ∷ "paste_readback_missing" ∷ "paste_uncertain" ∷ "submission_uncertain"
    ∷ "submission_interrupted" ∷ "confirmation_timeout" ∷ "abort_uncertain" ∷ "abort_timeout"
    ∷ "queued_cancelled" ∷ "runtime_stopped" ∷ "queued_screen_busy" ∷ "queued_follow_up"
    ∷ "queued_startup" ∷ "native_confirmed" ∷ "command_submitted" ∷ "delivery_failed"
    ∷ "setting_applied" ∷ "setting_rejected" ∷ "abort_accepted" ∷ []

unfoldable pub valid_reason_code : String → Bool
unfolding is_empty contains
valid_reason_code code = is_empty code || contains reason_codes code

-- `SettingOutcome` and `QuietOutcome`
unfoldable pub setting_outcome : String → Bool
setting_outcome code = str_eq code "setting_applied" || str_eq code "setting_rejected"

unfoldable pub quiet_outcome : String → Bool
unfolding setting_outcome
quiet_outcome code = setting_outcome code || str_eq code "abort_accepted"

abbrev leaf_rune : ℕ → Bool
leaf_rune c =
    leb b'a' c && leb c b'z'
    || leb b'A' c && leb c b'Z'
    || leb b'0' c && leb c b'9'
    || c == b'-'
    || c == b'_'

abbrev no_state : AgentState → Bool
no_state s = elim s [ no_agent_state ↦ true | _ ↦ false ]

abbrev is_ready : Readiness → Bool
is_ready r = elim r [ ready ↦ true | _ ↦ false ]

abbrev pub observed_with : AgentState → Readiness → Bool
observed_with s r = elim s [
  | agent_active ↦ is_busy r
  | agent_idle ↦ is_ready r
  | agent_failed ↦ is_ready r
  | _ ↦ false
]

unfoldable pub valid_agent_observation : AgentState → String → Readiness → Bool
unfolding is_empty all_runes
valid_agent_observation s leaf r =
    no_state s && is_empty leaf
    || not (is_empty leaf)
      && leb (byte_length leaf) 200
      && all_runes leaf_rune leaf
      && observed_with s r
