-- ===== src/Runtime/Activity.antt =====
-- `applyRuntimeActivity` of internal/coordinator/source_stream.go, for the fields of the event's
-- header.
use workitem.Common.{
  String, Bool, true, false, not, ◌&&◌, ◌||◌, Option, none, some, str_eq, if◌then◌else◌,
}
use workitem.Strings.{is_empty}
use workitem.Model.Blocker.{Time, after}
use workitem.Runtime.Types.{
  SemanticEventType, AgentState, TurnState, Readiness, SettlementOutcome, RuntimeActivity,
  RuntimeSemanticEvent, new_activity, is_active, is_busy, runtime_ready, runtime_status,
  runtime_stopping, runtime_failed, agent_started, agent_settled, turn_started, turn_ended,
  message_completed, tool_started, tool_completed, command_accepted, command_rejected,
  queue_changed, settings_changed, other_event, no_agent_state, agent_active, agent_idle,
  agent_is_settled, agent_failed, no_turn, turn_busy, turn_idle, turn_failed, running, stopping,
  problem, awaiting_confirmation, outcome_completed, outcome_failed,
}

-- `promptReceived` of internal/coordinator/runtime_ingest.go
unfoldable pub prompt_received : Readiness → String → Bool
prompt_received awaiting_confirmation reason = str_eq reason "execution_pending"
prompt_received _ reason = false

-- `EventRuntimeReady`: what is left of the agent's state, and the state of its turn.
abbrev pub kept_state : AgentState → AgentState
kept_state s = elim s [
  | agent_active ↦ agent_active
  | agent_failed ↦ agent_failed
  | agent_idle ↦ agent_idle
  | _ ↦ no_agent_state
]

abbrev pub turn_of : AgentState → TurnState
turn_of s = elim s [ agent_active ↦ turn_busy | agent_failed ↦ turn_failed | _ ↦ turn_idle ]

abbrev pub now_running : RuntimeActivity → RuntimeActivity
now_running a = record a {
  runtime_state = running;
  agent_state = kept_state a.agent_state;
  turn_state = turn_of (kept_state a.agent_state);
}

abbrev pub now_busy : RuntimeActivity → RuntimeActivity
now_busy a = record (now_running a) { agent_state = no_agent_state; turn_state = turn_busy }

abbrev pub on_ready : RuntimeSemanticEvent → RuntimeActivity → RuntimeActivity
on_ready e a =
    if is_busy e.readiness && not (is_active a.agent_state) then now_busy a else now_running a

-- `EventRuntimeStatus` with a state of the agent, and without one.
abbrev pub observed_turn : AgentState → TurnState → TurnState
observed_turn s turn = elim s [
  | agent_active ↦ turn_busy
  | agent_idle ↦ turn_idle
  | agent_failed ↦ turn_failed
  | _ ↦ turn
]

abbrev pub on_reported : RuntimeSemanticEvent → RuntimeActivity → RuntimeActivity
on_reported e a = record a {
  agent_state = e.agent_state;
  leaf_id = e.leaf_id;
  turn_state = observed_turn e.agent_state a.turn_state;
}

abbrev pub begun : RuntimeSemanticEvent → RuntimeActivity → RuntimeActivity
begun e a = record a {
  agent_state = no_agent_state;
  turn_state = turn_busy;
  last_requested_at =
      if prompt_received e.readiness e.reason_code then some e.timestamp else a.last_requested_at;
}

abbrev pub begins : RuntimeSemanticEvent → RuntimeActivity → Bool
begins e a =
    (is_busy e.readiness || prompt_received e.readiness e.reason_code)
    && not (is_active a.agent_state)

abbrev pub on_readiness : RuntimeSemanticEvent → RuntimeActivity → RuntimeActivity
on_readiness e a = if begins e a then begun e a else a

abbrev pub on_status : AgentState → RuntimeSemanticEvent → RuntimeActivity → RuntimeActivity
on_status s e a = elim s [ no_agent_state ↦ on_readiness e a | _ ↦ on_reported e a ]

abbrev pub ended_turn : RuntimeSemanticEvent → RuntimeActivity → RuntimeActivity
ended_turn e a =
    if e.failed
    then record a { agent_state = agent_failed; turn_state = turn_failed }
    else record a { turn_state = no_turn }

abbrev pub on_turn_ended : RuntimeSemanticEvent → RuntimeActivity → RuntimeActivity
on_turn_ended e a = if is_active a.agent_state then a else ended_turn e a

abbrev pub is_completed : SettlementOutcome → Bool
is_completed o = elim o [ outcome_completed ↦ true | _ ↦ false ]

abbrev pub is_failed : SettlementOutcome → Bool
is_failed o = elim o [ outcome_failed ↦ true | _ ↦ false ]

abbrev pub settled_failed : RuntimeSemanticEvent → RuntimeActivity → RuntimeActivity
settled_failed e a = record a {
  agent_state = agent_failed;
  turn_state = turn_failed;
  failure_reason = e.reason_code;
  last_completed_at = some e.timestamp;
}

abbrev pub settled_well : RuntimeSemanticEvent → RuntimeActivity → RuntimeActivity
settled_well e a = record a {
  agent_state = if is_completed e.outcome then agent_is_settled else no_agent_state;
  turn_state = turn_idle;
  failure_reason = "";
  last_completed_at = some e.timestamp;
}

abbrev pub on_settled : RuntimeSemanticEvent → RuntimeActivity → RuntimeActivity
on_settled e a = if e.failed || is_failed e.outcome then settled_failed e a else settled_well e a

abbrev pub is_reply : RuntimeSemanticEvent → RuntimeActivity → Bool
is_reply e a = not (is_active a.agent_state) && (str_eq e.role "assistant" || is_empty e.role)

abbrev pub replied : RuntimeSemanticEvent → RuntimeActivity → RuntimeActivity
replied e a = record a { last_completed_at = some e.timestamp }

-- The switch on the type of the event.
unfoldable pub changed_by :
    SemanticEventType → RuntimeSemanticEvent → RuntimeActivity → RuntimeActivity
unfolding prompt_received is_empty
changed_by runtime_ready e a = on_ready e a
changed_by runtime_status e a = on_status e.agent_state e a
changed_by agent_started e a = record a {
  failure_reason = "";
  agent_state = agent_active;
  runtime_state = running;
  turn_state = turn_busy;
  last_requested_at = some e.timestamp;
}
changed_by runtime_stopping e a = record a { runtime_state = stopping }
changed_by runtime_failed e a = record a { runtime_state = problem }
changed_by command_accepted e a = record a {
  agent_state = if is_active a.agent_state then a.agent_state else no_agent_state;
  turn_state = turn_busy;
  last_requested_at = some e.timestamp;
}
changed_by turn_started e a = record a {
  turn_state = turn_busy;
  last_requested_at = some e.timestamp;
}
changed_by tool_started e a = record a {
  turn_state = turn_busy;
  last_requested_at = some e.timestamp;
}
changed_by turn_ended e a = on_turn_ended e a
changed_by agent_settled e a = on_settled e a
changed_by message_completed e a = if is_reply e a then replied e a else a
changed_by tool_completed e a = a
changed_by command_rejected e a = a
changed_by queue_changed e a = a
changed_by settings_changed e a = a
changed_by (other_event text) e a = a

-- `activity.LastEventAt != nil && event.Timestamp.Before(*activity.LastEventAt)`
abbrev pub is_stale : Option Time → Time → Bool
is_stale none at = false
is_stale (some last) at = after last at

-- The activity that the event is about: another runtime starts anew.
abbrev pub owned_activity : RuntimeSemanticEvent → RuntimeActivity → RuntimeActivity
owned_activity e a =
    let kept =
      if not (is_empty a.runtime_id) && not (str_eq a.runtime_id e.runtime_id)
      then new_activity e.work_item_id
      else a in
    record kept {
      work_item_id = e.work_item_id;
      runtime_id = e.runtime_id;
      last_event_at = some e.timestamp;
    }

-- The activity behind an event, and whether the event was applied. The item and the runtime that the
-- Go function is given are those of the event.
unfoldable pub apply_runtime_activity :
    RuntimeActivity → RuntimeSemanticEvent → RuntimeActivity × Bool
unfolding changed_by is_empty
apply_runtime_activity a e =
    if is_stale a.last_event_at e.timestamp
    then (a, false)
    else (changed_by e.type e (owned_activity e a), true)
