-- ===== src/Domain/State.antt =====
-- `applyStateSetCommand` of internal/coordinator/domain.go.
use workitem.Common.{
  ℕ, ◌+◌, String, Bool, true, false, not, ◌&&◌, ◌||◌, List, [], ◌∷◌, ◌++◌, leb, str_eq,
  if◌then◌else◌,
}
use workitem.Strings.{is_empty}
use workitem.Model.Error.{Error, Result, ok, fail, refuse_if, ◌>>=◌, ◌>>◌}
use workitem.Model.Manifest.{State, Manifest, is_closed, is_active}
use workitem.Model.Slug.{slugify}
use workitem.Domain.Types.{ManifestCommand, ClearCause, StateEvent, MoveData, CommandEvent}
use workitem.Domain.Slugs.{unique_canonical_slug}
use workitem.Blockers.Commands.{clear_all_blockers}

abbrev pub valid_resolution : String → Bool
valid_resolution r = str_eq r "completed" || str_eq r "abandoned" || str_eq r "superseded"

abbrev pub valid_state : State → Bool
valid_state (State.other_state s) = false
valid_state _ = true

abbrev pub is_backlog : State → Bool
is_backlog State.backlog = true
is_backlog _ = false

-- Equality of the states' strings.
abbrev pub same_state : State → State → Bool
same_state State.backlog State.backlog = true
same_state State.active State.active = true
same_state State.closed State.closed = true
same_state (State.other_state a) (State.other_state b) = str_eq a b
same_state _ _ = false

-- The number that `canonicalDeepWorkCapacity` returns; its list of ids serves a message.
unfoldable pub deep_work_active : List Manifest → ℕ
deep_work_active [] = 0
deep_work_active (m ∷ ms) =
    (if m.deep_work && is_active m.state then 1 else 0) + deep_work_active ms

abbrev pub Applied : Type 0
Applied = Result (Manifest × List CommandEvent)

-- A closed item may only go back to the backlog, under a slug that is free.
unfoldable pub reopen : ManifestCommand → Manifest → List Manifest → Applied
reopen c m all = do
  refuse_if (not (is_backlog c.target_state)) Error.closed_must_reopen
  slug ← unique_canonical_slug (slugify m.title) m.id all
  ok (
    record m { slug = slug; state = State.backlog; resolution = "" },
    CommandEvent.reopened m.state slug m.resolution ∷ [],
  )

abbrev pub chosen_resolution : ManifestCommand → String
chosen_resolution c = if is_empty c.resolution then "completed" else c.resolution

unfoldable pub close : ManifestCommand → Manifest → Applied
unfolding clear_all_blockers
close c m = do
  refuse_if (not (valid_resolution (chosen_resolution c))) Error.invalid_resolution
  ok (
    record m { blockers = []; state = State.closed; slug = ""; resolution = chosen_resolution c },
    clear_all_blockers m.blockers ClearCause.closed
        ++ CommandEvent.item_closed m.state m.slug (chosen_resolution c) ∷ [],
  )

unfoldable pub state_event : String → Result StateEvent
state_event event_type =
    if is_empty event_type || str_eq event_type "work_item.state_set"
    then ok StateEvent.state_set
    else (if str_eq event_type "work_item.started"
        then ok StateEvent.started
        else if str_eq event_type "work_item.resumed"
        then ok StateEvent.resumed
        else fail Error.unsupported_event_type)

abbrev is_state_set : StateEvent → Bool
is_state_set StateEvent.state_set = true
is_state_set _ = false

abbrev move_data : ManifestCommand → Manifest → ℕ → StateEvent → MoveData
move_data c m active event = record {
  previous_state = m.state;
  new_state = c.target_state;
  deep_work = m.deep_work;
  active_before = active;
  limit = c.max_active;
  forced = c.force;
  workspace_unchanged = is_state_set event;
}

-- Between backlog and active, in both directions.
abbrev pub valid_move : ManifestCommand → Manifest → Bool
valid_move c m =
    is_active c.target_state && is_backlog m.state || is_backlog c.target_state && is_active m.state

abbrev pub over_limit : ManifestCommand → Manifest → List Manifest → Bool
over_limit c m all =
    m.deep_work
    && is_backlog m.state
    && is_active c.target_state
    && leb c.max_active (deep_work_active all)
    && not c.force

unfoldable pub move : ManifestCommand → Manifest → List Manifest → Applied
unfolding state_event
move c m all = do
  refuse_if (not (valid_move c m)) Error.invalid_transition
  refuse_if (over_limit c m all) Error.active_limit_reached
  event ← state_event c.event_type
  let data' = move_data c m (deep_work_active all) event
  ok (
    record m { state = c.target_state },
    (if c.force && m.deep_work && is_backlog m.state
          then CommandEvent.limit_overridden data' ∷ []
          else [])
        ++ CommandEvent.moved event data' ∷ [],
  )

unfoldable pub apply_state_set : ManifestCommand → Manifest → List Manifest → Applied
apply_state_set c m all = do
  refuse_if (not (valid_state c.target_state)) Error.invalid_state
  refuse_if (not (is_empty c.resolution) && not (is_closed c.target_state))
      Error.resolution_without_close
  if same_state m.state c.target_state
      then ok (m, [])
      else if is_closed m.state
      then reopen c m all
      else if is_closed c.target_state
      then close c m
      else move c m all
