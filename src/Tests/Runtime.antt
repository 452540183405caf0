-- ===== src/Tests/Runtime.antt =====
-- Runtime events: an agent that starts, fails on a limit, and fails again.
use workitem.Common.{
  All, ◌≡◌, refl, String, Bool, true, false, none, some, List, [], ◌∷◌, put, str_eq, contains,
}
use workitem.Strings.{
  trim_space, is_empty, has_control, is_compact, any_rune, all_runes, is_control,
}
use workitem.Model.Error.{ok}
use workitem.Model.Blocker.{valid_id}
use workitem.Model.Claim.{Checkout}
use workitem.Runtime.Types.{
  SemanticEventType, RuntimeActivity, RuntimeSemanticEvent, AgentRuntime, new_activity,
  compact_identifier, valid_delivery_state, awaits_answer, valid_reason_code, setting_outcome,
  quiet_outcome, valid_agent_observation, agent_started, command_accepted, turn_ended,
  no_agent_state, agent_active, agent_failed, turn_incomplete, status_busy, turn_failed, running,
  no_outcome, no_readiness, AgentObservation, message_completed, status_problem, turn_busy,
}
use workitem.Runtime.Activity.{apply_runtime_activity, changed_by, prompt_received}
use workitem.Runtime.Observation.{
  apply_live_runtime_observation, observed_by, stays_busy, input_blocked, awaiting_answer,
}
use workitem.Runtime.Ingest.{
  ProjectionUpdate, activity_update, observation_update, ingest_runtime_event, validate_event,
  check_owner, check_claim, applied_activity, readiness_updates, activity_updates, written_updates,
  safe_runtime_id, valid_settings, new_observation,
}
use workitem.Runtime.Clock.{
  apply_all, latest, apply_all-latest, ActiveIsBusy, inactive, apply_all-ActiveIsBusy,
}
use workitem.Runtime.Fence.{
  Fenced, ingest_runtime_event-Fenced, ingest_runtime_event-quiet, ingest_runtime_event-stale,
}
use workitem.Runtime.Shown.{apply_all-old_reason}
use workitem.Runtime.Working.{IngestCall, Works, ingest_all}
use workitem.Runtime.Busy.{ingest_all-ShowsBusy}
use workitem.Attention.Markers.{later_time, no_activity}
use workitem.Tests.Samples.{id_a}

program : Unit {0}
unfolding str_eq contains put trim_space is_empty has_control is_compact any_rune all_runes
    is_control valid_id compact_identifier valid_delivery_state awaits_answer valid_reason_code
    setting_outcome quiet_outcome valid_agent_observation apply_runtime_activity changed_by
    prompt_received apply_live_runtime_observation observed_by stays_busy input_blocked
    awaiting_answer ingest_runtime_event validate_event check_owner check_claim applied_activity
    readiness_updates activity_updates written_updates safe_runtime_id valid_settings apply_all
    later_time
program = tt

abbrev event : SemanticEventType → String → Bool → RuntimeSemanticEvent
event type reason failed = record {
  id = "e1";
  runtime_id = "r1";
  work_item_id = id_a;
  type = type;
  timestamp = 5;
  role = "";
  failed = failed;
  readiness = no_readiness;
  reason_code = reason;
  delivery_state = "";
  outcome = no_outcome;
  agent_state = no_agent_state;
  leaf_id = "";
  settings = [];
}

abbrev started : RuntimeSemanticEvent
started = event agent_started "" false

-- The agent starts, and an older event comes late.
abbrev events : List RuntimeSemanticEvent
events = started ∷ record (event turn_ended "" false) { timestamp = 4 } ∷ []

keeps_clock : (apply_all (new_activity id_a) events).last_event_at ≡ some 5
unfolding program
keeps_clock = refl

apply_all-latest_example : (apply_all (new_activity id_a) events).last_event_at ≡ latest none events
apply_all-latest_example = apply_all-latest (new_activity id_a) events

apply_all-ActiveIsBusy_example : ActiveIsBusy (apply_all (new_activity id_a) events)
apply_all-ActiveIsBusy_example = apply_all-ActiveIsBusy (new_activity id_a) events (inactive refl)

-- The activity of a runtime that stopped at a limit.
abbrev limited : RuntimeActivity
limited = record (new_activity id_a) {
  runtime_id = "r1";
  runtime_state = running;
  agent_state = agent_failed;
  turn_state = turn_failed;
  failure_reason = "usage_limit";
  last_event_at = some 4;
}

abbrev accepted : RuntimeSemanticEvent
accepted = event command_accepted "native_confirmed" false

abbrev ended : RuntimeSemanticEvent
ended = record (event turn_ended "native_api_failed" true) { timestamp = 6 }

apply_all-old_reason_example :
    ((apply_all limited (accepted ∷ ended ∷ [])).agent_state ≡ agent_failed)
    × ((apply_all limited (accepted ∷ ended ∷ [])).failure_reason ≡ "usage_limit")
apply_all-old_reason_example =
    apply_all-old_reason limited accepted ended refl refl refl refl refl refl refl refl

abbrev checkout : Checkout
checkout = record {
  specification = record { kind = "worktree"; executor = "local"; branch = "b" };
  claim_generation = 3;
  claim = some (record {
    id = "c3";
    generation = 3;
    executor = "local";
    repository_key = "k";
    slot = "1";
    path = "p";
  });
}

abbrev owner : AgentRuntime
owner = record {
  id = "r1";
  workspace_claim_id = "c3";
  workspace_claim_generation = 3;
  readiness = no_readiness;
  readiness_reason_code = "";
  readiness_observed_at = none;
  settings = [];
}

abbrev aborted : RuntimeSemanticEvent
aborted = event command_accepted "abort_accepted" false

taken : ingest_runtime_event (some checkout) (some owner) none none aborted 9 ≡ ok []
unfolding program
taken = refl

ingest_runtime_event-Fenced_example : Fenced (some checkout) (some owner) aborted
ingest_runtime_event-Fenced_example =
    ingest_runtime_event-Fenced (some checkout) (some owner) none none aborted 9 taken

is_quiet : quiet_outcome aborted.reason_code ≡ true
unfolding program
is_quiet = refl

ingest_runtime_event-quiet_example : ◌≡◌ {A = List ProjectionUpdate} [] []
ingest_runtime_event-quiet_example =
    ingest_runtime_event-quiet (some checkout) (some owner) none none aborted 9 is_quiet refl taken

-- A start that is reported late.
abbrev late : RuntimeSemanticEvent
late = record started { timestamp = 3 }

late_taken : ingest_runtime_event (some checkout) (some owner) (some limited) none late 9 ≡ ok []
unfolding program
late_taken = refl

ingest_runtime_event-stale_example : ◌≡◌ {A = List ProjectionUpdate} [] []
ingest_runtime_event-stale_example =
    ingest_runtime_event-stale (some checkout) (some owner) limited none late 9 refl refl late_taken

-- An agent starts, a turn of it fails, and a message completes late.
abbrev call : RuntimeSemanticEvent → IngestCall
call e = record { checkout = some checkout; owner = some owner; event = e; now = 9 }

abbrev shown_failed : AgentObservation
shown_failed =
    let o = new_observation id_a in record o { status = status_problem; turn_state = turn_failed }

abbrev work : List IngestCall
work = call ended ∷ call (record (event message_completed "" false) { timestamp = 3 }) ∷ []

abbrev running_activity : RuntimeActivity
running_activity = record limited {
  agent_state = agent_active;
  turn_state = turn_busy;
  failure_reason = "";
  last_event_at = some 5;
  last_requested_at = some 5;
  observed_at = 9;
  source = "daemon.runtime.live";
}

abbrev start_updates : List ProjectionUpdate
start_updates =
    activity_update running_activity
    ∷ observation_update (record shown_failed {
      status = status_busy;
      turn_state = turn_incomplete;
      agent_loop_state = agent_active;
      last_activity_at = some 5;
      activity = record (no_activity id_a) { last_requested_at = some 5 };
      observed_at = 9;
    })
    ∷ []

start_taken :
    ingest_runtime_event (some checkout) (some owner) (some limited) (some shown_failed) started 9
    ≡ ok start_updates
unfolding program
start_taken = refl

not_quiet : quiet_outcome started.reason_code ≡ false
unfolding program
not_quiet = refl

work_is_of_runtime : All (Works "r1") work
work_is_of_runtime = ((refl, refl), ((refl, refl), tt))

ingest_all-ShowsBusy_example :
    ((ingest_all (limited, shown_failed) (call started ∷ work)).1.status ≡ status_busy)
    × ((ingest_all (limited, shown_failed) (call started ∷ work)).1.turn_state ≡ turn_incomplete)
ingest_all-ShowsBusy_example =
    ingest_all-ShowsBusy limited shown_failed (call started) work start_updates refl not_quiet refl
      start_taken work_is_of_runtime
