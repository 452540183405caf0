-- ===== src/Domain/Types.antt =====
-- The commands and the events of internal/coordinator/domain.go. An event's JSON payload is the
-- constructor's arguments; a key that the code leaves out at some values is an option.
use workitem.Common.{ℕ, String, Bool, Option, List, Map}
use workitem.Model.Blocker.{Time, BlockerKind, Blocker}
use workitem.Model.Manifest.{State}

-- `MetadataEdit` of internal/coordinator/edit_item.go
pub record MetadataEdit : Type 0 where
  pub priority : Option ℕ
  pub pinned : Option Bool
  pub snoozed_until : Option Time
  pub clear_snooze : Bool
  pub title : Option String
  pub add_labels : List String
  pub remove_labels : List String
  pub deep_work : Option Bool
  pub description_digest : String
  pub previous_description_digest : String

pub data CommandType : Type 0 where
  labels_add labels_remove deep_work_set state_set title_set : CommandType
  edit blocker_add blocker_clear : CommandType
  other_type : String → CommandType

pub record ManifestCommand : Type 0 where
  pub id : String
  pub protocol_version : ℕ
  pub type : CommandType
  pub item_id : String
  pub expected_revision : Option ℕ
  pub actor : String
  pub labels : List String
  pub deep_work : Option Bool
  pub target_state : State
  pub title : String
  pub edit : Option MetadataEdit
  pub event_type : String
  pub force : Bool
  pub max_active : ℕ  -- the code replaces a negative limit by 0
  pub resolution : String
  pub blockers : List Blocker
  pub blocker_id : String
  pub created_at : Time

-- The payload of `blockerEventData`.
pub record BlockerData : Type 0 where
  pub blocker_id : String
  pub kind : BlockerKind
  pub until : Option Time
  pub blocking_item_id : Option String
  pub event : Option String
  pub label : Option String
  pub meta : Option (Map String)

-- Why a blocker was cleared, with the keys that the cause adds to the payload.
pub data ClearCause : Type 0 where
  manual expired item_missing closed : ClearCause
  item_closed : (resolution : String) → ClearCause
  prompted : (at : Time) → ClearCause

pub data StateEvent : Type 0 where
  state_set started resumed : StateEvent

-- The payload of a move between backlog and active.
pub record MoveData : Type 0 where
  pub previous_state : State
  pub new_state : State
  pub deep_work : Bool
  pub active_before : ℕ
  pub limit : ℕ
  pub forced : Bool
  pub workspace_unchanged : Bool

pub data EditField : Type 0 where
  title : String → EditField
  labels : List String → EditField
  deep_work : Bool → EditField
  description : (digest : String) → EditField
  priority pinned snoozed_until : EditField

pub data CommandEvent : Type 0 where
  blocker_added : BlockerData → CommandEvent
  blocker_cleared : BlockerData → ClearCause → CommandEvent
  attention_read : (at : Time) → CommandEvent
  edited : List EditField → CommandEvent
  title_set : String → CommandEvent
  label_added label_removed : String → CommandEvent
  deep_work_set deep_work_cleared : CommandEvent
  reopened : (previous : State) (slug previous_resolution : String) → CommandEvent
  item_closed : (previous : State) (previous_slug resolution : String) → CommandEvent
  limit_overridden : MoveData → CommandEvent
  moved : StateEvent → MoveData → CommandEvent
