-- ===== src/Model/Manifest.antt =====
-- Work items: the manifest of internal/model/manifest.go, without the repository, the conversation
-- and the agent settings, which no modelled operation reads or writes.
use workitem.Common.{ℕ, String, Bool, true, false, Option, List}
use workitem.Model.Blocker.{Time, Blocker}
use workitem.Model.Claim.{Checkout}

pub data State : Type 0 where
  backlog active closed : State
  other_state : String → State

pub record Manifest : Type 0 where
  pub id : String
  pub slug : String
  pub title : String
  pub state : State
  pub state_changed_at : Time
  pub created_at : Time
  pub updated_at : Time
  pub checkout : Checkout
  pub agent : String
  pub labels : List String
  pub deep_work : Bool
  pub priority : ℕ  -- int32, as its bit pattern: it is only compared for equality
  pub pinned : Bool
  pub snoozed_until : Option Time
  pub resolution : String
  pub blockers : List Blocker

abbrev pub is_closed : State → Bool
is_closed State.closed = true
is_closed _ = false

abbrev pub is_active : State → Bool
is_active State.active = true
is_active _ = false
