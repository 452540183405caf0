-- ===== src/Blockers/Commands.antt =====
-- The blocker commands of internal/coordinator/blockers.go. `digest id index` is the text that
-- `blockerID` makes of SHA-256; nothing is assumed of it.
use workitem.Common.{
  ℕ, ◌+◌, String, Bool, false, ◌&&◌, ◌||◌, Option, none, some, List, [], ◌∷◌, ◌++◌, Map, lookup,
  put, str_eq, if◌then◌else◌, ltb, length,
}
use workitem.Strings.{trim_space, is_empty}
use workitem.Model.Error.{Error, Result, ok, fail, refuse_if, ◌>>=◌, ◌>>◌}
use workitem.Model.Blocker.{Time, Blocker, is_item, validate_blocker}
use workitem.Model.Manifest.{Manifest, is_closed}
use workitem.Domain.Types.{
  ManifestCommand, BlockerData, ClearCause, CommandEvent, blocker_added, blocker_cleared,
  attention_read,
}
use workitem.Blockers.Graph.{blocks_transitively}

abbrev non_empty : String → Option String
non_empty s = if is_empty s then none else some s

abbrev non_nil : Map String → Option (Map String)
non_nil [] = none
non_nil (x ∷ xs) = some (x ∷ xs)

unfoldable pub blocker_event_data : Blocker → BlockerData
unfolding is_empty
blocker_event_data b = record {
  blocker_id = b.id;
  kind = b.kind;
  until = b.until;
  blocking_item_id = non_empty b.item_id;
  event = non_empty b.event;
  label = non_empty b.label;
  meta = non_nil b.meta;
}

-- `byID[other.ID] = other` for every manifest.
unfoldable pub index_from : Map Manifest → List Manifest → Map Manifest
index_from by_id [] = by_id
index_from by_id (m ∷ ms) = index_from (put by_id m.id m) ms

abbrev pub index_by_id : List Manifest → Map Manifest
index_by_id = index_from []

-- What the loop of `applyBlockerAddCommand` changes.
pub record Adding : Type 0 where
  pub manifest : Manifest
  pub by_id : Map Manifest
  pub events : List CommandEvent
  pub added : ℕ

unfoldable pub has_item_blocker : List Blocker → String → Bool
has_item_blocker [] id = false
has_item_blocker (b ∷ bs) id = is_item b.kind && str_eq b.item_id id || has_item_blocker bs id

-- The blocker that is stored for the requested one.
unfoldable pub prepare_blocker : (String → ℕ → String) → ManifestCommand → ℕ → Blocker → Blocker
unfolding trim_space
prepare_blocker digest command index requested = record requested {
  event = trim_space requested.event;
  label = trim_space requested.label;
  id = digest command.id index;
  created_at = command.created_at;
}

unfoldable pub append_blocker : Adding → Blocker → Adding
unfolding blocker_event_data
append_blocker s blocker =
    let manifest = record s.manifest { blockers = s.manifest.blockers ++ blocker ∷ [] } in
    record {
      manifest = manifest;
      by_id = put s.by_id manifest.id manifest;
      events = s.events ++ blocker_added (blocker_event_data blocker) ∷ [];
      added = s.added + 1;
    }

-- The checks on the item that an item blocker names.
unfoldable pub check_target : Adding → Blocker → Result Adding
check_target s blocker = elim (lookup s.by_id blocker.item_id) [
  | none ↦ fail Error.no_such_target
  | some target ↦ do
    refuse_if (is_closed target.state) Error.target_closed
    if has_item_blocker s.manifest.blockers blocker.item_id then ok s else do
      refuse_if (blocks_transitively s.by_id blocker.item_id s.manifest.id) Error.dependency_cycle
      ok (append_blocker s blocker)
]

-- The body of the loop, for the blocker as it is stored.
unfoldable pub add_blocker : Time → Adding → Blocker → Result Adding
add_blocker now s blocker = do
  validate_blocker blocker s.manifest.id now
  if is_item blocker.kind then check_target s blocker else ok (append_blocker s blocker)

unfoldable pub add_blockers :
    (String → ℕ → String) → ManifestCommand → ℕ → Adding → List Blocker → Result Adding
add_blockers digest command index s [] = ok s
add_blockers digest command index s (requested ∷ rest) = do
  s' ← add_blocker command.created_at s (prepare_blocker digest command index requested)
  add_blockers digest command (index + 1) s' rest

unfoldable pub apply_blocker_add :
    (String → ℕ → String)
    → ManifestCommand
    → Manifest
    → List Manifest
    → Result (Manifest × List CommandEvent)
apply_blocker_add digest command manifest all = do
  refuse_if (ltb (length command.blockers) 1) Error.no_blockers
  refuse_if (is_closed manifest.state) Error.closed_cannot_wait
  s ←
      add_blockers digest command 0
        (record { manifest = manifest; by_id = index_by_id all; events = []; added = 0 })
        command.blockers
  ok (
    s.manifest,
    if ltb 0 s.added then s.events ++ attention_read command.created_at ∷ [] else s.events,
  )

unfoldable pub clear_all_blockers : List Blocker → ClearCause → List CommandEvent
unfolding blocker_event_data
clear_all_blockers [] cause = []
clear_all_blockers (b ∷ bs) cause =
    blocker_cleared (blocker_event_data b) cause ∷ clear_all_blockers bs cause

-- The loop of `applyBlockerClearCommand`: the blockers that stay, and the events.
unfoldable pub clear_blocker : String → List Blocker → List Blocker × List CommandEvent
unfolding blocker_event_data
clear_blocker id [] = ([], [])
clear_blocker id (b ∷ bs) =
    let (remaining, events) = clear_blocker id bs in
    if str_eq b.id id
    then (remaining, blocker_cleared (blocker_event_data b) ClearCause.manual ∷ events)
    else (b ∷ remaining, events)

unfoldable pub apply_blocker_clear :
    ManifestCommand → Manifest → Result (Manifest × List CommandEvent)
unfolding trim_space is_empty clear_all_blockers clear_blocker
apply_blocker_clear command manifest =
    let id = trim_space command.blocker_id in
    if is_empty id
    then ok
        (record manifest { blockers = [] }, clear_all_blockers manifest.blockers ClearCause.manual)
    else (let (remaining, events) = clear_blocker id manifest.blockers in
        do
          refuse_if (ltb (length events) 1) Error.no_such_blocker
          ok (record manifest { blockers = remaining }, events))
