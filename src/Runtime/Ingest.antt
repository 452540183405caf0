-- ===== src/Runtime/Ingest.antt =====
-- `IngestRuntimeEvent` of internal/coordinator/runtime_ingest.go, up to the commit of its event. What it
-- reads of the database is given, and the writes of projections are its result.
use workitem.Common.{
  ℕ, String, Bool, true, false, not, ◌&&◌, ◌||◌, Option, none, some, List, [], ◌∷◌, ◌++◌, Map, put,
  str_eq, contains, ltb, ◌==◌, if◌then◌else◌,
}
use workitem.Strings.{is_empty, byte_length, is_compact, any_rune}
use workitem.Model.Error.{Error, Result, ok, fail, refuse_if, ◌>>=◌, ◌>>◌}
use workitem.Model.Blocker.{Time, valid_id}
use workitem.Model.Claim.{Checkout, WorkspaceClaim}
use workitem.Attention.Markers.{no_activity}
use workitem.Runtime.Types.{
  SemanticEventType, Readiness, SettlementOutcome, RuntimeActivity, RuntimeSemanticEvent,
  AgentRuntime, AgentObservation, new_activity, valid_readiness, valid_delivery_state,
  valid_reason_code, quiet_outcome, valid_agent_observation, compact_identifier, runtime_ready,
  agent_settled, settings_changed, other_event, no_readiness, ready, no_outcome, outcome_completed,
  outcome_failed, other_outcome, no_agent_state, no_status, no_turn,
}
use workitem.Runtime.Activity.{apply_runtime_activity, is_stale}
use workitem.Runtime.Observation.{apply_live_runtime_observation, is_status, is_unset}

unfoldable pub safe_runtime_id : String → Bool
unfolding is_empty any_rune
safe_runtime_id value =
    not (is_empty value)
    && not (str_eq value ".")
    && not (str_eq value "..")
    && not (any_rune (λ c. c == b'/' || c == b'\\') value)
    && not (ltb 200 (byte_length value))

abbrev pub allowed_live_runtime_event : SemanticEventType → Bool
allowed_live_runtime_event t = elim t [ other_event text ↦ false | _ ↦ true ]

abbrev pub is_settled_event : SemanticEventType → Bool
is_settled_event t = elim t [ agent_settled ↦ true | _ ↦ false ]

abbrev pub is_settings_event : SemanticEventType → Bool
is_settings_event t = elim t [ settings_changed ↦ true | _ ↦ false ]

abbrev pub is_ready_event : SemanticEventType → Bool
is_ready_event t = elim t [ runtime_ready ↦ true | _ ↦ false ]

abbrev pub unset_readiness : Readiness → Bool
unset_readiness r = elim r [ no_readiness ↦ true | _ ↦ false ]

abbrev pub wrong_outcome : SettlementOutcome → Bool → Bool → Bool
wrong_outcome o settled failed = elim o [
  | no_outcome ↦ false
  | outcome_completed ↦ not settled || failed
  | outcome_failed ↦ not settled
  | other_outcome text ↦ true
]

abbrev pub no_settings : Map String → Bool
no_settings [] = true
no_settings (s ∷ settings) = false

-- `ValidSettingValues`, for each value.
abbrev line_break : ℕ → Bool
line_break c = c == 13 || c == 10 || c == 0

unfoldable pub valid_settings : Map String → Bool
unfolding is_empty any_rune contains
valid_settings [] = true
valid_settings ((name, value) ∷ settings) =
    (str_eq name "model" || str_eq name "reasoning")
    && not (is_empty value || ltb 200 (byte_length value) || any_rune line_break value)
    && (not (str_eq name "reasoning")
        || contains ("off" ∷ "minimal" ∷ "low" ∷ "medium" ∷ "high" ∷ "xhigh" ∷ "max" ∷ []) value)
    && valid_settings settings

-- The checks that need the event alone. A timestamp of 0 is Go's zero time.
unfoldable pub validate_event : RuntimeSemanticEvent → Result (Unit {0})
unfolding is_empty is_compact safe_runtime_id valid_id valid_delivery_state valid_reason_code
    valid_agent_observation valid_settings
validate_event e = do
  refuse_if
      (is_empty e.id
        || not (is_compact e.id 200)
        || not (safe_runtime_id e.runtime_id)
        || not (valid_id e.work_item_id))
      Error.missing_event_ids
  refuse_if (e.timestamp == 0) Error.no_timestamp
  refuse_if (not (allowed_live_runtime_event e.type)) Error.event_not_retained
  refuse_if
      (not (valid_readiness e.readiness)
        || not (valid_reason_code e.reason_code)
        || not (valid_delivery_state e.delivery_state))
      Error.invalid_status_facts
  refuse_if (is_status e.type && unset_readiness e.readiness) Error.readiness_required
  refuse_if (wrong_outcome e.outcome (is_settled_event e.type) e.failed) Error.invalid_outcome
  refuse_if
      (not (valid_agent_observation e.agent_state e.leaf_id e.readiness)
        || (not (is_unset e.agent_state) || not (is_empty e.leaf_id)) && not (is_status e.type))
      Error.invalid_agent_observation
  refuse_if
      (if is_settings_event e.type then no_settings e.settings else not (no_settings e.settings))
      Error.settings_mismatch
  refuse_if (not (valid_settings e.settings)) Error.invalid_settings

-- The owner recorded for the item, which the event's runtime must be.
unfoldable pub check_owner : Option AgentRuntime → RuntimeSemanticEvent → Result AgentRuntime
check_owner none e = fail Error.owner_mismatch
check_owner (some owner) e =
    if str_eq owner.id e.runtime_id then ok owner else fail Error.owner_mismatch

abbrev pub claims : AgentRuntime → Option WorkspaceClaim → Bool
claims owner none = false
claims owner (some claim) =
    str_eq claim.id owner.workspace_claim_id && claim.generation == owner.workspace_claim_generation

unfoldable pub check_claim : Checkout → AgentRuntime → Result (Unit {0})
unfolding is_empty
check_claim checkout owner =
    refuse_if (not (is_empty owner.workspace_claim_id) && not (claims owner checkout.claim))
      Error.superseded_claim

pub data ProjectionUpdate : Type 0 where
  owner_update : AgentRuntime → ProjectionUpdate
  activity_update : RuntimeActivity → ProjectionUpdate
  observation_update : AgentObservation → ProjectionUpdate

abbrev pub merged_settings : Map String → Map String → Map String
merged_settings settings [] = settings
merged_settings settings ((name, value) ∷ more) = merged_settings (put settings name value) more

-- The header that the event is applied by.
abbrev pub header_of : RuntimeSemanticEvent → RuntimeSemanticEvent
header_of e = record e {
  role = compact_identifier e.role 32;
  reason_code = compact_identifier e.reason_code 64;
}

-- The activity behind the event, and whether it is applied.
unfoldable pub applied_activity : RuntimeActivity → RuntimeSemanticEvent → RuntimeActivity × Bool
unfolding quiet_outcome apply_runtime_activity compact_identifier
applied_activity a e =
    if is_settings_event e.type || quiet_outcome e.reason_code
    then (a, false)
    else apply_runtime_activity a (header_of e)

abbrev pub or_ready : SemanticEventType → Readiness → Readiness
or_ready t r = if is_ready_event t && unset_readiness r then ready else r

abbrev pub settings_of : RuntimeSemanticEvent → AgentRuntime → AgentRuntime
settings_of e owner =
    if is_settings_event e.type
    then record owner { settings = merged_settings owner.settings e.settings }
    else owner

abbrev pub settings_updates : RuntimeSemanticEvent → AgentRuntime → List ProjectionUpdate
settings_updates e owner =
    if is_settings_event e.type then owner_update (settings_of e owner) ∷ [] else []

unfoldable pub readiness_updates :
    RuntimeSemanticEvent → AgentRuntime → Bool → List ProjectionUpdate
readiness_updates e owner applied =
    if not (unset_readiness (or_ready e.type e.readiness))
      && applied
      && not (is_stale owner.readiness_observed_at e.timestamp)
    then owner_update (record owner {
      readiness = or_ready e.type e.readiness;
      readiness_reason_code = e.reason_code;
      readiness_observed_at = some e.timestamp;
    })
      ∷ []
    else []

abbrev pub new_observation : String → AgentObservation
new_observation item_id = record {
  work_item_id = item_id;
  status = no_status;
  process_online = false;
  agent_loop_state = no_agent_state;
  turn_state = no_turn;
  last_activity_at = none;
  activity = no_activity item_id;
  observed_at = 0;
}

abbrev pub or_new {ℓ} : {A : Type ℓ} → Option A → A → A
or_new none new = new
or_new (some a) new = a

unfoldable pub activity_updates :
    RuntimeSemanticEvent
    → Option AgentObservation
    → Time
    → RuntimeActivity × Bool
    → List ProjectionUpdate
unfolding apply_live_runtime_observation
activity_updates e observation now (a, false) = []
activity_updates e observation now (a, true) =
    let a' = record a { observed_at = now; source = "daemon.runtime.live" } in
    let o =
      apply_live_runtime_observation (or_new observation (new_observation e.work_item_id)) e a' in
    activity_update a' ∷ observation_update (record o { observed_at = now }) ∷ []

-- All the writes, for the activity behind the event.
unfoldable pub written_updates :
    RuntimeSemanticEvent
    → AgentRuntime
    → Option AgentObservation
    → Time
    → RuntimeActivity × Bool
    → List ProjectionUpdate
unfolding readiness_updates activity_updates
written_updates e owner observation now a =
    settings_updates e owner
    ++ (readiness_updates e (settings_of e owner) a.1 ++ activity_updates e observation now a)

unfoldable pub ingest_runtime_event :
    (checkout : Option Checkout) (owner : Option AgentRuntime) (activity : Option RuntimeActivity)
    (observation : Option AgentObservation)
    → RuntimeSemanticEvent
    → Time
    → Result (List ProjectionUpdate)
unfolding validate_event check_owner check_claim applied_activity written_updates
ingest_runtime_event checkout owner activity observation e now =
    validate_event e >> (elim checkout [
      | none ↦ fail Error.not_found
      | some c ↦ check_owner owner e >>= λ r.
          check_claim c r
          >> ok (
              written_updates e r observation now
                (applied_activity (or_new activity (new_activity e.work_item_id)) e))
    ])
