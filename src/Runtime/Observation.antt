-- ===== src/Runtime/Observation.antt =====
-- `applyLiveRuntimeObservation` of internal/coordinator/runtime_ingest.go.
use workitem.Common.{String, Bool, true, false, not, ◌&&◌, ◌||◌, some, str_eq, if◌then◌else◌}
use workitem.Runtime.Types.{
  SemanticEventType, AgentState, TurnState, Readiness, RuntimeActivity, RuntimeSemanticEvent,
  AgentObservation, ObservedStatus, is_active, is_busy, is_problem, awaits_answer, runtime_ready,
  runtime_status, runtime_stopping, runtime_failed, agent_started, agent_settled, turn_started,
  turn_ended, message_completed, tool_started, tool_completed, command_accepted, command_rejected,
  queue_changed, settings_changed, other_event, no_agent_state, agent_active, agent_idle,
  agent_failed, turn_idle, turn_failed, turn_incomplete, starting, ready, busy,
  awaiting_confirmation, waiting_input, blocked, readiness_stopping, status_busy, status_idle,
  status_problem,
}
use workitem.Runtime.Activity.{prompt_received}

unfoldable pub awaiting_answer : Readiness → String → Bool
unfolding awaits_answer
awaiting_answer waiting_input reason = awaits_answer reason
awaiting_answer _ reason = false

unfoldable pub input_blocked : Readiness → String → Bool
unfolding awaiting_answer
input_blocked blocked reason = true
input_blocked waiting_input reason =
    not (str_eq reason "editor_not_empty")
    && not (str_eq reason "editor_not_visible")
    && not (awaiting_answer waiting_input reason)
input_blocked _ reason = false

abbrev pub working : AgentObservation → AgentObservation
working o = record o { status = status_busy; turn_state = turn_incomplete }

abbrev pub requested : RuntimeSemanticEvent → AgentObservation → AgentObservation
requested e o = record (working o) {
  activity = record o.activity { last_requested_at = some e.timestamp };
}

abbrev pub ended_as :
    ObservedStatus → TurnState → RuntimeSemanticEvent → AgentObservation → AgentObservation
ended_as status turn e o = record o {
  status = status;
  turn_state = turn;
  activity = record o.activity { last_completed_at = some e.timestamp };
}

-- The end of a turn or of the agent's work, once it is known to count.
abbrev pub on_end : AgentState → RuntimeSemanticEvent → AgentObservation → AgentObservation
on_end s e o = elim s [
  | agent_active ↦ working o
  | agent_failed ↦ ended_as status_problem turn_failed e o
  | _ ↦
      if e.failed
      then ended_as status_problem turn_failed e o
      else ended_as status_idle turn_idle e o
]

abbrev pub is_unset : AgentState → Bool
is_unset s = elim s [ no_agent_state ↦ true | _ ↦ false ]

abbrev pub on_state : AgentState → AgentObservation → AgentObservation
on_state s o = elim s [
  | agent_active ↦ working o
  | agent_idle ↦ record o { status = status_idle; turn_state = turn_idle }
  | agent_failed ↦ record o { status = status_problem; turn_state = turn_failed }
  | _ ↦ o
]

-- The last switch of a status event.
abbrev pub on_input : Readiness → AgentObservation → AgentObservation
on_input r o = elim r [
  | starting ↦ record o { status = status_idle }
  | readiness_stopping ↦ record o { status = status_idle }
  | awaiting_confirmation ↦ record o { status = status_idle }
  | busy ↦ working o
  | ready ↦ record o { status = status_idle }
  | _ ↦ o
]

abbrev pub is_waiting : Readiness → Bool
is_waiting r = elim r [ waiting_input ↦ true | _ ↦ false ]

abbrev pub is_ready : Readiness → Bool
is_ready r = elim r [ ready ↦ true | _ ↦ false ]

abbrev pub turn_is_failed : TurnState → Bool
turn_is_failed t = elim t [ turn_failed ↦ true | _ ↦ false ]

abbrev pub before_input : RuntimeSemanticEvent → AgentObservation → AgentObservation
before_input e o =
    if input_blocked e.readiness e.reason_code
    then record o { status = status_problem }
    else if is_waiting e.readiness
    then record o { status = status_idle }
    else o

-- The observation behind the switch, and whether the function has returned in it.
abbrev pub on_readiness_event : RuntimeSemanticEvent → AgentObservation → AgentObservation × Bool
on_readiness_event e o =
    if is_ready e.readiness && turn_is_failed o.turn_state
    then (o, true)
    else if prompt_received e.readiness e.reason_code
    then (working (before_input e o), true)
    else (on_input e.readiness (before_input e o), false)

abbrev pub on_status_event :
    RuntimeActivity → RuntimeSemanticEvent → AgentObservation → AgentObservation × Bool
on_status_event a e o =
    if is_problem a.runtime_state
    then (record o { status = status_problem; turn_state = turn_failed }, false)
    else if is_unset e.agent_state
    then on_readiness_event e o
    else (on_state e.agent_state o, false)

abbrev pub on_ready_event : RuntimeSemanticEvent → AgentObservation → AgentObservation × Bool
on_ready_event e o =
    if turn_is_failed o.turn_state && not (is_busy e.readiness)
    then (o, true)
    else if is_busy e.readiness
    then (working o, false)
    else (record o { status = status_idle; turn_state = turn_idle }, false)

unfoldable pub observed_by :
    SemanticEventType
    → RuntimeActivity
    → RuntimeSemanticEvent
    → AgentObservation
    → AgentObservation × Bool
unfolding prompt_received input_blocked
observed_by turn_started a e o = (requested e o, false)
observed_by agent_started a e o = (requested e o, false)
observed_by command_accepted a e o = (requested e o, false)
observed_by tool_started a e o = (requested e o, false)
observed_by turn_ended a e o =
    (if not (is_active a.agent_state) && not e.failed then o else on_end a.agent_state e o, false)
observed_by agent_settled a e o =
    (if is_unset a.agent_state then o else on_end a.agent_state e o, false)
observed_by runtime_failed a e o = (record o { status = status_problem }, false)
observed_by command_rejected a e o = (record o { status = status_problem }, false)
observed_by runtime_status a e o = on_status_event a e (record o { process_online = true })
observed_by runtime_ready a e o = on_ready_event e (record o { process_online = true })
observed_by runtime_stopping a e o = (o, false)
observed_by message_completed a e o = (o, false)
observed_by tool_completed a e o = (o, false)
observed_by queue_changed a e o = (o, false)
observed_by settings_changed a e o = (o, false)
observed_by (other_event text) a e o = (o, false)

abbrev pub is_status : SemanticEventType → Bool
is_status t = elim t [ runtime_status ↦ true | _ ↦ false ]

-- The test of the last `if`.
unfoldable pub stays_busy : RuntimeActivity → RuntimeSemanticEvent → Bool
unfolding input_blocked awaiting_answer
stays_busy a e =
    is_active a.agent_state
    && not (is_problem a.runtime_state)
    && not (
        is_status e.type
        && (input_blocked e.readiness e.reason_code || awaiting_answer e.readiness e.reason_code))

abbrev pub finished : Bool → AgentObservation × Bool → AgentObservation
finished stays (o, returned) = if returned then o else if stays then working o else o

unfoldable pub apply_live_runtime_observation :
    AgentObservation → RuntimeSemanticEvent → RuntimeActivity → AgentObservation
unfolding observed_by stays_busy
apply_live_runtime_observation o e a = finished (stays_busy a e) (
    observed_by e.type a e
      (record o { agent_loop_state = a.agent_state; last_activity_at = some e.timestamp }))
