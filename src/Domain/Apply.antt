-- ===== src/Domain/Apply.antt =====
-- `applyManifestCommand` of internal/coordinator/domain.go: the item after a command, its events,
-- and whether anything changed.
use workitem.Common.{
  ℕ, String, Bool, true, false, Option, none, some, List, [], ◌∷◌, map, str_eq, if◌then◌else◌,
}
use workitem.Strings.{trim_space}
use workitem.Model.Error.{Error, Result, ok, fail, ◌>>=◌, ◌>>◌}
use workitem.Model.Blocker.{Time}
use workitem.Model.Label.{add_labels, remove_labels}
use workitem.Model.Manifest.{Manifest}
use workitem.Domain.Types.{CommandType, ManifestCommand, CommandEvent}
use workitem.Domain.State.{apply_state_set}
use workitem.Domain.Edit.{validate_edit_title, same_bool, apply_metadata_edit}
use workitem.Blockers.Commands.{apply_blocker_add, apply_blocker_clear}

pub record Outcome : Type 0 where
  pub manifest : Manifest
  pub events : List CommandEvent
  pub changed : Bool

abbrev unchanged : Manifest → Outcome
unchanged m = record { manifest = m; events = []; changed = false }

-- `manifest.UpdatedAt = now; return pending, true`
abbrev updated : Time → Manifest → List CommandEvent → Outcome
updated now m events = record {
  manifest = record m { updated_at = now };
  events = events;
  changed = true;
}

-- `if len(list) == 0 { return when_none }; return when_any`
abbrev pub if_any {ℓ} : {A : Type ℓ} → List A → Outcome → Outcome → Outcome
if_any [] when_any when_none = when_none
if_any (x ∷ xs) when_any when_none = when_any

abbrev pub changed_if : Time → Manifest → List CommandEvent → Outcome
changed_if now m events = if_any events (updated now m events) (unchanged m)

unfoldable pub apply_edit_command : ManifestCommand → Manifest → Result Outcome
apply_edit_command c m = do
  (m', fields) ← apply_metadata_edit c.edit m
  ok (if_any fields (updated c.created_at m' (CommandEvent.edited fields ∷ [])) (unchanged m'))

unfoldable pub apply_title : ManifestCommand → Manifest → Result Outcome
apply_title c m = do
  let title' = trim_space c.title
  validate_edit_title title'
  if str_eq title' m.title
      then ok (unchanged m)
      else ok
          (updated c.created_at (record m { title = title' }) (CommandEvent.title_set title' ∷ []))

unfoldable pub apply_labels_add : ManifestCommand → Manifest → Result Outcome
apply_labels_add c m = do
  (labels, added) ← add_labels m.labels c.labels
  ok (
      if_any added
        (updated c.created_at (record m { labels = labels }) (map CommandEvent.label_added added))
        (unchanged m))

unfoldable pub apply_labels_remove : ManifestCommand → Manifest → Result Outcome
apply_labels_remove c m = do
  (labels, removed) ← remove_labels m.labels c.labels
  ok (
      if_any removed
        (updated c.created_at (record m { labels = labels })
          (map CommandEvent.label_removed removed))
        (unchanged m))

unfoldable pub apply_deep_work : ManifestCommand → Manifest → Option Bool → Result Outcome
apply_deep_work c m none = fail Error.deep_work_required
apply_deep_work c m (some new) =
    if same_bool m.deep_work new
    then ok (unchanged m)
    else ok (
        updated c.created_at (record m { deep_work = new })
          ((if new then CommandEvent.deep_work_set else CommandEvent.deep_work_cleared) ∷ []))

abbrev stamped : Time → Manifest → Manifest
stamped now m = record m { state_changed_at = now }

unfoldable pub apply_state_command : ManifestCommand → Manifest → List Manifest → Result Outcome
apply_state_command c m all = do
  (m', events) ← apply_state_set c m all
  ok (if_any events (updated c.created_at (stamped c.created_at m') events) (unchanged m'))

module _ (digest : String → ℕ → String) (c : ManifestCommand) (m : Manifest)
    (all : List Manifest) where
  -- The `switch command.Type`.
  unfoldable pub dispatch : CommandType → Result Outcome
  dispatch CommandType.edit = apply_edit_command c m
  dispatch CommandType.title_set = apply_title c m
  dispatch CommandType.labels_add = apply_labels_add c m
  dispatch CommandType.labels_remove = apply_labels_remove c m
  dispatch CommandType.deep_work_set = apply_deep_work c m c.deep_work
  dispatch CommandType.blocker_add = do
    (m', events) ← apply_blocker_add digest c m all
    ok (changed_if c.created_at m' events)
  dispatch CommandType.blocker_clear = do
    (m', events) ← apply_blocker_clear c m
    ok (changed_if c.created_at m' events)
  dispatch CommandType.state_set = apply_state_command c m all
  dispatch (CommandType.other_type t) = fail Error.unsupported_command

  unfoldable pub apply_manifest_command : Result Outcome
  unfolding dispatch
  apply_manifest_command = dispatch c.type
