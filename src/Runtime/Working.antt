-- ===== src/Runtime/Working.antt =====
-- The events of an agent at work, and what they leave of its activity.
use workitem.Common.{
  ◌≡◌, refl, sym, ap, subst, String, Bool, true, false, ◌||◌, Option, some, List, [], ◌∷◌, inl, inr,
  Bool-cases,
}
use workitem.Model.Error.{Result, ok, fail}
use workitem.Model.Blocker.{Time}
use workitem.Model.Claim.{Checkout}
use workitem.Runtime.Types.{
  SemanticEventType, RuntimeActivity, RuntimeSemanticEvent, AgentRuntime, AgentObservation,
  is_active, is_problem, runtime_ready, runtime_status, runtime_stopping, runtime_failed,
  agent_started, agent_settled, turn_started, turn_ended, message_completed, tool_started,
  tool_completed, command_accepted, command_rejected, queue_changed, settings_changed, other_event,
  turn_incomplete, status_busy, quiet_outcome,
}
use workitem.Runtime.Activity.{
  apply_runtime_activity, changed_by, owned_activity, is_stale, is_reply,
}
use workitem.Runtime.Ingest.{
  ProjectionUpdate, owner_update, activity_update, observation_update, is_settings_event,
  ingest_runtime_event, header_of, applied_activity,
}
use workitem.Runtime.Shown.{owned_activity-kept}

-- The events of an agent at work: they neither report its state nor end or fail its work.
abbrev pub is_work : SemanticEventType → Bool
is_work agent_started = true
is_work turn_started = true
is_work turn_ended = true
is_work message_completed = true
is_work tool_started = true
is_work tool_completed = true
is_work command_accepted = true
is_work command_rejected = true
is_work queue_changed = true
is_work _ = false

-- The projections of an item.
abbrev pub Projections : Type 0
Projections = RuntimeActivity × AgentObservation

abbrev pub apply_updates : List ProjectionUpdate → Projections → Projections
apply_updates [] s = s
apply_updates (owner_update r ∷ us) s = apply_updates us s
apply_updates (activity_update a ∷ us) s = apply_updates us (a, s.1)
apply_updates (observation_update o ∷ us) s = apply_updates us (s.0, o)

-- A call of `IngestRuntimeEvent`, with what it reads of the item and its owner.
pub record IngestCall : Type 0 where
  pub checkout : Option Checkout
  pub owner : Option AgentRuntime
  pub event : RuntimeSemanticEvent
  pub now : Time

abbrev pub with_result : Result (List ProjectionUpdate) → Projections → Projections
with_result (fail e) s = s
with_result (ok us) s = apply_updates us s

unfoldable pub ingest_all : Projections → List IngestCall → Projections
ingest_all s [] = s
ingest_all s (c ∷ cs) =
    ingest_all
      (with_result (ingest_runtime_event c.checkout c.owner (some s.0) (some s.1) c.event c.now) s)
      cs

-- The runtime `id` has an active agent and no problem.
pub record Active (id : String) (a : RuntimeActivity) : Type 0 where
  pub runtime : a.runtime_id ≡ id
  pub agent : is_active a.agent_state ≡ true
  pub sound : is_problem a.runtime_state ≡ false

abbrev pub ShowsBusy : AgentObservation → Type 0
ShowsBusy o = (o.status ≡ status_busy) × (o.turn_state ≡ turn_incomplete)

abbrev pub Works : String → IngestCall → Type 0
Works id c = (is_work c.event.type ≡ true) × (c.event.runtime_id ≡ id)

changed_by-Active :
    (id : String) (type : SemanticEventType) (e : RuntimeSemanticEvent) (a : RuntimeActivity)
    → is_work type ≡ true
    → Active id a
    → Active id (changed_by type e a)
unfolding changed_by
changed_by-Active id agent_started e a w h = record {
  runtime = h.runtime;
  agent = refl;
  sound = refl;
}
changed_by-Active id turn_started e a w h = record {
  runtime = h.runtime;
  agent = h.agent;
  sound = h.sound;
}
changed_by-Active id tool_started e a w h = record {
  runtime = h.runtime;
  agent = h.agent;
  sound = h.sound;
}
changed_by-Active id turn_ended e a w h = rw h.agent h
changed_by-Active id message_completed e a w h = elim (Bool-cases (is_reply e a)) [
  | inl r ↦ rw r (record { runtime = h.runtime; agent = h.agent; sound = h.sound })
  | inr r ↦ rw r h
]
changed_by-Active id command_accepted e a w h = record {
  runtime = h.runtime;
  agent = rw h.agent h.agent;
  sound = h.sound;
}
changed_by-Active id tool_completed e a w h = h
changed_by-Active id command_rejected e a w h = h
changed_by-Active id queue_changed e a w h = h
changed_by-Active id runtime_ready e a w h = cc
changed_by-Active id runtime_status e a w h = cc
changed_by-Active id runtime_stopping e a w h = cc
changed_by-Active id runtime_failed e a w h = cc
changed_by-Active id agent_settled e a w h = cc
changed_by-Active id settings_changed e a w h = cc
changed_by-Active id (other_event text) e a w h = cc

owned_activity-Active :
    (a : RuntimeActivity) (e : RuntimeSemanticEvent)
    → Active e.runtime_id a
    → Active e.runtime_id (owned_activity e a)
owned_activity-Active a e h =
    subst (Active e.runtime_id) (sym (owned_activity-kept a e h.runtime))
      (record { runtime = refl; agent = h.agent; sound = h.sound })

pub applied_activity-Active :
    (a : RuntimeActivity) (e : RuntimeSemanticEvent)
    → is_work e.type ≡ true
    → Active e.runtime_id a
    → Active e.runtime_id (applied_activity a e).0
unfolding applied_activity apply_runtime_activity
applied_activity-Active a e w h =
    elim (Bool-cases (is_settings_event e.type || quiet_outcome e.reason_code)) [
      | inl q ↦ rw q h
      | inr q ↦ elim (Bool-cases (is_stale a.last_event_at e.timestamp)) [
        | inl stale ↦ rw (q, stale) h
        | inr fresh ↦
            rw (q, fresh)
              (changed_by-Active e.runtime_id e.type (header_of e) (owned_activity (header_of e) a)
                w (owned_activity-Active a (header_of e) h))
      ]
    ]

-- An event that starts the agent, and is taken, makes it active.
pub started-Active :
    (a : RuntimeActivity) (e : RuntimeSemanticEvent)
    → e.type ≡ agent_started
    → quiet_outcome e.reason_code ≡ false
    → is_stale a.last_event_at e.timestamp ≡ false
    → Active e.runtime_id (applied_activity a e).0 × ((applied_activity a e).1 ≡ true)
unfolding applied_activity apply_runtime_activity
started-Active a e t q fresh =
    let unset : is_settings_event e.type ≡ false = ap is_settings_event t in
    rw (unset, q, fresh)
      (
        subst
            (λ type.
              Active e.runtime_id (changed_by type (header_of e) (owned_activity (header_of e) a)))
            (sym t) (begun_now a e),
        refl,
      )
  where
    begun_now :
        (a : RuntimeActivity) (e : RuntimeSemanticEvent)
        → Active e.runtime_id
            (changed_by agent_started (header_of e) (owned_activity (header_of e) a))
    begun_now a e = record { runtime = refl; agent = refl; sound = refl }
