-- ===== src/Runtime/Shown.antt =====
-- What is shown of an active agent, and of a failed one.
use workitem.Common.{
  ◌≡◌, ◌∙◌, refl, sym, ap, subst, Bool, true, false, some, [], ◌∷◌, str_eq, str_eq_refl,
  if◌then◌else◌, inl, inr, Bool-cases,
}
use workitem.Strings.{is_empty}
use workitem.Runtime.Types.{
  SemanticEventType, RuntimeActivity, RuntimeSemanticEvent, AgentObservation, is_active, is_problem,
  runtime_ready, runtime_status, runtime_stopping, runtime_failed, agent_started, agent_settled,
  turn_started, turn_ended, message_completed, tool_started, tool_completed, command_accepted,
  command_rejected, queue_changed, settings_changed, other_event, no_agent_state, agent_failed,
  turn_incomplete, status_busy,
}
use workitem.Runtime.Activity.{apply_runtime_activity, changed_by, owned_activity, is_stale}
use workitem.Runtime.Observation.{
  apply_live_runtime_observation, observed_by, stays_busy, finished, is_status,
}
use workitem.Runtime.Ingest.{is_ready_event}
use workitem.Runtime.Clock.{apply_all}

-- Only status events and the ready event return before the end.
observed_by-goes_on :
    (type : SemanticEventType) (a : RuntimeActivity) (e : RuntimeSemanticEvent)
    (o : AgentObservation)
    → is_status type ≡ false
    → is_ready_event type ≡ false
    → (observed_by type a e o).1 ≡ false
unfolding observed_by
observed_by-goes_on runtime_ready a e o s r = cc
observed_by-goes_on runtime_status a e o s r = cc
observed_by-goes_on runtime_stopping a e o s r = refl
observed_by-goes_on runtime_failed a e o s r = refl
observed_by-goes_on agent_started a e o s r = refl
observed_by-goes_on agent_settled a e o s r = refl
observed_by-goes_on turn_started a e o s r = refl
observed_by-goes_on turn_ended a e o s r = refl
observed_by-goes_on message_completed a e o s r = refl
observed_by-goes_on tool_started a e o s r = refl
observed_by-goes_on tool_completed a e o s r = refl
observed_by-goes_on command_accepted a e o s r = refl
observed_by-goes_on command_rejected a e o s r = refl
observed_by-goes_on queue_changed a e o s r = refl
observed_by-goes_on settings_changed a e o s r = refl
observed_by-goes_on (other_event text) a e o s r = refl

finished-busy :
    (p : AgentObservation × Bool)
    → p.1 ≡ false
    → ((finished true p).status ≡ status_busy) × ((finished true p).turn_state ≡ turn_incomplete)
finished-busy (o, true) h = cc
finished-busy (o, false) h = (refl, refl)

-- Behind such an event, an agent that is active, in a runtime without a problem, is shown as busy.
pub observed-busy :
    (o : AgentObservation) (e : RuntimeSemanticEvent) (a : RuntimeActivity)
    → is_active a.agent_state ≡ true
    → is_problem a.runtime_state ≡ false
    → is_status e.type ≡ false
    → is_ready_event e.type ≡ false
    → ((apply_live_runtime_observation o e a).status ≡ status_busy)
      × ((apply_live_runtime_observation o e a).turn_state ≡ turn_incomplete)
unfolding apply_live_runtime_observation stays_busy
observed-busy o e a active sound s r =
    rw (active, sound, s) (finished-busy _ (observed_by-goes_on e.type a e _ s r))

pub owned_activity-kept :
    (a : RuntimeActivity) (e : RuntimeSemanticEvent)
    → a.runtime_id ≡ e.runtime_id
    → owned_activity e a ≡ record a {
      work_item_id = e.work_item_id;
      runtime_id = e.runtime_id;
      last_event_at = some e.timestamp;
    }
owned_activity-kept a e h =
    let t : str_eq a.runtime_id e.runtime_id ≡ true =
      ap (λ r. str_eq r e.runtime_id) h ∙ str_eq_refl e.runtime_id in
    elim (Bool-cases (is_empty a.runtime_id)) [ inl n ↦ rw (t, n) refl | inr n ↦ rw (t, n) refl ]

fresh_step :
    (a : RuntimeActivity) (e : RuntimeSemanticEvent) (type : SemanticEventType)
    → e.type ≡ type
    → a.runtime_id ≡ e.runtime_id
    → is_stale a.last_event_at e.timestamp ≡ false
    → (apply_runtime_activity a e).0
      ≡ changed_by type e (record a {
        work_item_id = e.work_item_id;
        runtime_id = e.runtime_id;
        last_event_at = some e.timestamp;
      })
unfolding apply_runtime_activity
fresh_step a e type t r fresh = rw fresh ((λ i. changed_by (t i) e (owned_activity-kept a e r i)))

-- What a failed agent's activity keeps behind an accepted command.
record Accepted (a : RuntimeActivity) (e : RuntimeSemanticEvent) (b : RuntimeActivity)
    : Type 0 where
  state : b.agent_state ≡ no_agent_state
  reason : b.failure_reason ≡ a.failure_reason
  runtime : b.runtime_id ≡ e.runtime_id
  clock : b.last_event_at ≡ some e.timestamp

command_step :
    (a : RuntimeActivity) (e : RuntimeSemanticEvent)
    → e.type ≡ command_accepted
    → a.agent_state ≡ agent_failed
    → a.runtime_id ≡ e.runtime_id
    → is_stale a.last_event_at e.timestamp ≡ false
    → Accepted a e (apply_runtime_activity a e).0
unfolding changed_by
command_step a e t failed r fresh =
    subst (Accepted a e) (sym (fresh_step a e command_accepted t r fresh)) (record {
      state = ap (λ s. if is_active s then s else no_agent_state) failed;
      reason = refl;
      runtime = refl;
      clock = refl;
    })

ended_step :
    (b : RuntimeActivity) (e : RuntimeSemanticEvent)
    → e.type ≡ turn_ended
    → e.failed ≡ true
    → b.agent_state ≡ no_agent_state
    → b.runtime_id ≡ e.runtime_id
    → is_stale b.last_event_at e.timestamp ≡ false
    → ((apply_runtime_activity b e).0.agent_state ≡ agent_failed)
      × ((apply_runtime_activity b e).0.failure_reason ≡ b.failure_reason)
unfolding changed_by
ended_step b e t f state r fresh =
    let inactive : is_active b.agent_state ≡ false = ap is_active state in
    subst (λ c. (c.agent_state ≡ agent_failed) × (c.failure_reason ≡ b.failure_reason))
      (sym (fresh_step b e turn_ended t r fresh)) (rw (inactive, f) (refl, refl))

-- The activity of a failed agent whose next command is accepted, and whose turn on it fails, is failed
-- for the reason of the first failure, whatever the reason of the second one. The events come from
-- the activity's runtime, in the order of their times.
pub apply_all-old_reason :
    (a : RuntimeActivity) (accepted ended : RuntimeSemanticEvent)
    → accepted.type ≡ command_accepted
    → ended.type ≡ turn_ended
    → ended.failed ≡ true
    → a.agent_state ≡ agent_failed
    → a.runtime_id ≡ accepted.runtime_id
    → accepted.runtime_id ≡ ended.runtime_id
    → is_stale a.last_event_at accepted.timestamp ≡ false
    → is_stale (some accepted.timestamp) ended.timestamp ≡ false
    → ((apply_all a (accepted ∷ ended ∷ [])).agent_state ≡ agent_failed)
      × ((apply_all a (accepted ∷ ended ∷ [])).failure_reason ≡ a.failure_reason)
unfolding apply_all
apply_all-old_reason a accepted ended ta te f failed first second fresh later =
    let p = command_step a accepted ta failed first fresh in
    let q =
      ended_step (apply_runtime_activity a accepted).0 ended te f p.state (p.runtime ∙ second)
        (ap (λ t. is_stale t ended.timestamp) p.clock ∙ later) in
    (q.0, q.1 ∙ p.reason)
