-- ===== src/Runtime/Clock.antt =====
-- The activity of a runtime over any events: the time of its last event, and the state of its turn.
use workitem.Common.{
  ◌≡◌, ◌⊎◌, ◌∙◌, refl, sym, ap, Bool, true, false, not, ◌&&◌, ◌||◌, Option, none, some, List, [],
  ◌∷◌, str_eq, ltb→le, if◌then◌else◌, inl, inr, Bool-cases, arith,
}
use workitem.Strings.{is_empty}
use workitem.Model.Blocker.{Time, after}
use workitem.Attention.Markers.{later_time}
use workitem.Runtime.Types.{
  SemanticEventType, AgentState, RuntimeActivity, RuntimeSemanticEvent, is_active, is_busy,
  runtime_ready, runtime_status, runtime_stopping, runtime_failed, agent_started, agent_settled,
  turn_started, turn_ended, message_completed, tool_started, tool_completed, command_accepted,
  command_rejected, queue_changed, settings_changed, other_event, no_agent_state, agent_active,
  agent_idle, agent_is_settled, agent_failed, other_agent_state, turn_busy,
}
use workitem.Runtime.Activity.{
  apply_runtime_activity, changed_by, owned_activity, is_stale, on_status, begins, begun,
  ended_turn, is_failed, kept_state, is_completed, turn_of, now_busy, now_running, settled_failed,
  settled_well, is_reply, replied,
}

unfoldable pub apply_all : RuntimeActivity → List RuntimeSemanticEvent → RuntimeActivity
unfolding apply_runtime_activity
apply_all a [] = a
apply_all a (e ∷ events) = apply_all (apply_runtime_activity a e).0 events

-- The latest of some times.
abbrev pub latest : Option Time → List RuntimeSemanticEvent → Option Time
latest last [] = last
latest last (e ∷ events) = latest (later_time last (some e.timestamp)) events

if_clock :
    (b : Bool) (a a' : RuntimeActivity) {t : Option Time}
    → a.last_event_at ≡ t
    → a'.last_event_at ≡ t
    → (if b then a else a').last_event_at ≡ t
if_clock true a a' p q = p
if_clock false a a' p q = q

on_status-clock :
    (s : AgentState) (e : RuntimeSemanticEvent) (a : RuntimeActivity)
    → (on_status s e a).last_event_at ≡ a.last_event_at
on_status-clock no_agent_state e a = if_clock _ _ _ refl refl
on_status-clock agent_active e a = refl
on_status-clock agent_idle e a = refl
on_status-clock agent_is_settled e a = refl
on_status-clock agent_failed e a = refl
on_status-clock (other_agent_state s) e a = refl

changed_by-clock :
    (type : SemanticEventType) (e : RuntimeSemanticEvent) (a : RuntimeActivity)
    → (changed_by type e a).last_event_at ≡ a.last_event_at
unfolding changed_by
changed_by-clock runtime_ready e a = if_clock _ _ _ refl refl
changed_by-clock runtime_status e a = on_status-clock e.agent_state e a
changed_by-clock agent_started e a = refl
changed_by-clock runtime_stopping e a = refl
changed_by-clock runtime_failed e a = refl
changed_by-clock command_accepted e a = refl
changed_by-clock turn_started e a = refl
changed_by-clock tool_started e a = refl
changed_by-clock turn_ended e a =
    if_clock (is_active a.agent_state) a (ended_turn e a) refl (if_clock _ _ _ refl refl)
changed_by-clock agent_settled e a = if_clock _ _ _ refl refl
changed_by-clock message_completed e a = if_clock _ _ _ refl refl
changed_by-clock tool_completed e a = refl
changed_by-clock command_rejected e a = refl
changed_by-clock queue_changed e a = refl
changed_by-clock settings_changed e a = refl
changed_by-clock (other_event text) e a = refl

later_time-fresh :
    (last : Option Time) (at : Time)
    → is_stale last at ≡ false
    → later_time last (some at) ≡ some at
unfolding later_time
later_time-fresh none at h = refl
later_time-fresh (some last) at h = elim (Bool-cases (after at last)) [
  | inl e ↦ rw e refl
  | inr e ↦ rw e (ap some (omega (arith, ltb→le last at e, ltb→le at last h)))
]

later_time-stale :
    (last : Option Time) (at : Time) → is_stale last at ≡ true → later_time last (some at) ≡ last
unfolding later_time
later_time-stale none at h = cc
later_time-stale (some last) at h = let e : after at last ≡ false = ground arith in rw e refl

apply_runtime_activity-clock :
    (a : RuntimeActivity) (e : RuntimeSemanticEvent)
    → (apply_runtime_activity a e).0.last_event_at ≡ later_time a.last_event_at (some e.timestamp)
unfolding apply_runtime_activity
apply_runtime_activity-clock a e = elim (Bool-cases (is_stale a.last_event_at e.timestamp)) [
  | inl s ↦ rw s (sym (later_time-stale a.last_event_at e.timestamp s))
  | inr s ↦ rw s (
      changed_by-clock e.type e (owned_activity e a)
      ∙ sym (later_time-fresh a.last_event_at e.timestamp s))
]

-- Over any events, in any order, the time of the last event is the latest of their times and the time
-- at the start.
pub apply_all-latest :
    (a : RuntimeActivity) (events : List RuntimeSemanticEvent)
    → (apply_all a events).last_event_at ≡ latest a.last_event_at events
unfolding apply_all
apply_all-latest a [] = refl
apply_all-latest a (e ∷ events) =
    apply_all-latest (apply_runtime_activity a e).0 events
    ∙ ap (λ t. latest t events) (apply_runtime_activity-clock a e)

-- The agent is not active, or its turn is busy.
pub record ActiveIsBusy (a : RuntimeActivity) : Type 0 where
  pub either : (is_active a.agent_state ≡ false) ⊎ (a.turn_state ≡ turn_busy)

pub inactive : {a : RuntimeActivity} → is_active a.agent_state ≡ false → ActiveIsBusy a
inactive h = record { either = inl h }

busy_turn : {a : RuntimeActivity} → a.turn_state ≡ turn_busy → ActiveIsBusy a
busy_turn h = record { either = inr h }

if_busy :
    (b : Bool) (a a' : RuntimeActivity)
    → ActiveIsBusy a
    → ActiveIsBusy a'
    → ActiveIsBusy (if b then a else a')
if_busy true a a' p q = p
if_busy false a a' p q = q

on_ready-busy :
    (s : AgentState) → (is_active (kept_state s) ≡ false) ⊎ (turn_of (kept_state s) ≡ turn_busy)
on_ready-busy no_agent_state = inl refl
on_ready-busy agent_active = inr refl
on_ready-busy agent_idle = inl refl
on_ready-busy agent_is_settled = inl refl
on_ready-busy agent_failed = inl refl
on_ready-busy (other_agent_state s) = inl refl

on_status-busy :
    (s : AgentState) (e : RuntimeSemanticEvent) (a : RuntimeActivity)
    → e.agent_state ≡ s
    → ActiveIsBusy a
    → ActiveIsBusy (on_status s e a)
on_status-busy no_agent_state e a h p = if_busy (begins e a) (begun e a) a (inactive refl) p
on_status-busy agent_active e a h p = busy_turn (rw h refl)
on_status-busy agent_idle e a h p = inactive (rw h refl)
on_status-busy agent_is_settled e a h p = inactive (rw h refl)
on_status-busy agent_failed e a h p = inactive (rw h refl)
on_status-busy (other_agent_state s) e a h p = inactive (rw h refl)

completed-inactive : (b : Bool) → is_active (if b then agent_is_settled else no_agent_state) ≡ false
completed-inactive true = refl
completed-inactive false = refl

ended_turn-busy :
    (b : Bool) (e : RuntimeSemanticEvent) (a : RuntimeActivity)
    → is_active a.agent_state ≡ b
    → ActiveIsBusy a
    → ActiveIsBusy (if b then a else ended_turn e a)
ended_turn-busy true e a h p = p
ended_turn-busy false e a h p = if_busy e.failed _ _ (inactive refl) (inactive h)

changed_by-busy :
    (type : SemanticEventType) (e : RuntimeSemanticEvent) (a : RuntimeActivity)
    → ActiveIsBusy a
    → ActiveIsBusy (changed_by type e a)
unfolding changed_by
changed_by-busy runtime_ready e a p =
    if_busy (is_busy e.readiness && not (is_active a.agent_state)) (now_busy a) (now_running a)
      (inactive refl) (record { either = on_ready-busy a.agent_state })
changed_by-busy runtime_status e a p = on_status-busy e.agent_state e a refl p
changed_by-busy agent_started e a p = busy_turn refl
changed_by-busy runtime_stopping e a p = record { either = p.either }
changed_by-busy runtime_failed e a p = record { either = p.either }
changed_by-busy command_accepted e a p = busy_turn refl
changed_by-busy turn_started e a p = busy_turn refl
changed_by-busy tool_started e a p = busy_turn refl
changed_by-busy turn_ended e a p = ended_turn-busy (is_active a.agent_state) e a refl p
changed_by-busy agent_settled e a p =
    if_busy (e.failed || is_failed e.outcome) (settled_failed e a) (settled_well e a)
      (inactive refl) (inactive (completed-inactive (is_completed e.outcome)))
changed_by-busy message_completed e a p =
    if_busy (is_reply e a) (replied e a) a (record { either = p.either }) p
changed_by-busy tool_completed e a p = p
changed_by-busy command_rejected e a p = p
changed_by-busy queue_changed e a p = p
changed_by-busy settings_changed e a p = p
changed_by-busy (other_event text) e a p = p

owned_activity-busy :
    (e : RuntimeSemanticEvent) (a : RuntimeActivity)
    → ActiveIsBusy a
    → ActiveIsBusy (owned_activity e a)
owned_activity-busy e a p =
    elim (Bool-cases (not (is_empty a.runtime_id) && not (str_eq a.runtime_id e.runtime_id))) [
      | inl b ↦ rw b (inactive refl)
      | inr b ↦ rw b (record { either = p.either })
    ]

-- If an agent that is active has a busy turn before some events, then it has one behind them.
pub apply_all-ActiveIsBusy :
    (a : RuntimeActivity) (events : List RuntimeSemanticEvent)
    → ActiveIsBusy a
    → ActiveIsBusy (apply_all a events)
unfolding apply_all apply_runtime_activity
apply_all-ActiveIsBusy a [] p = p
apply_all-ActiveIsBusy a (e ∷ events) p =
    apply_all-ActiveIsBusy (apply_runtime_activity a e).0 events
      (elim (Bool-cases (is_stale a.last_event_at e.timestamp)) [
        | inl s ↦ rw s p
        | inr s ↦ rw s (changed_by-busy e.type e (owned_activity e a) (owned_activity-busy e a p))
      ])
