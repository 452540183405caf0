-- ===== src/Tests/Domain.antt =====
-- Manifest commands: an item is started, closed and reopened.
use workitem.Common.{
  ◌++◌, ◌≤◌, ◌⊎◌, ◌≢◌, inl, inr, str_eq_iff, ℕ, ◌≡◌, refl, String, true, false, none, some, List,
  [], ◌∷◌, lookup, put, contains, str_eq,
}
use workitem.Strings.{
  trim_space, trim_hyphens, to_lower, is_space, is_empty, concat, decimal, take_runes,
}
use workitem.Model.Error.{ok}
use workitem.Model.Slug.{slug_class, slug_loop, slugify}
use workitem.Model.Blocker.{BlockerKind}
use workitem.Model.Manifest.{State, Manifest}
use workitem.Blockers.Graph.{Waits, direct, via, blockers_of, waits_on, IsAcyclic, targets}
use workitem.Blockers.Commands.{
  index_by_id, index_from, clear_all_blockers, blocker_event_data, clear_blocker,
  apply_blocker_clear,
}
use workitem.Blockers.Acyclic.{put-IsAcyclic, put-IsAcyclic_add, IsAcyclic-nil}
use workitem.Domain.Types.{
  CommandType, ManifestCommand, CommandEvent, StateEvent, MoveData, ClearCause,
}
use workitem.Domain.Slugs.{used_slugs, numbered_slug, free_slug, unique_canonical_slug}
use workitem.Domain.State.{deep_work_active, reopen, close, state_event, move, apply_state_set}
use workitem.Domain.Apply.{Outcome, apply_state_command, dispatch, apply_manifest_command}
use workitem.Domain.Tidy.{IsTidy}
use workitem.Domain.Transition.{Transition, apply_state_set-Transition}
use workitem.Domain.Limit.{ActiveDeep, nothing, counted, skipped, apply_state_set-limit}
use workitem.Domain.Sound.{apply_manifest_command-IsTidy, apply_manifest_command-IsAcyclic}
use workitem.Tests.Samples.{id_a, id_b, item, on_item, command}

program : Unit {0}
unfolding trim_space trim_hyphens to_lower is_space is_empty concat decimal take_runes slug_class
    slug_loop slugify used_slugs numbered_slug free_slug unique_canonical_slug deep_work_active
    reopen close state_event move apply_state_set apply_state_command dispatch
    apply_manifest_command clear_all_blockers blocker_event_data clear_blocker apply_blocker_clear
    index_from targets lookup put contains str_eq
program = tt

abbrev digest : String → ℕ → String
digest command index = "b0"

abbrev state_command : State → ManifestCommand
state_command target =
    let c = command CommandType.state_set id_a in record c { target_state = target }

-- A deep item in the backlog, and another item that is active.
abbrev deep : Manifest
deep = let m = item id_a "fix" State.backlog [] in record m { deep_work = true }

abbrev other : Manifest
other = item id_b "fix" State.active []

abbrev started : Manifest
started = record deep { state = State.active }

abbrev start_data : MoveData
start_data = record {
  previous_state = State.backlog;
  new_state = State.active;
  deep_work = true;
  active_before = 0;
  limit = 1;
  forced = false;
  workspace_unchanged = true;
}

start_runs :
    apply_state_set (state_command State.active) deep (deep ∷ other ∷ [])
    ≡ ok (started, CommandEvent.moved StateEvent.state_set start_data ∷ [])
unfolding program
start_runs = refl

abbrev shut : Manifest
shut = let m = item id_a "fix" State.closed [] in record m { slug = ""; resolution = "completed" }

abbrev reopened : Manifest
reopened = record shut { slug = "fix-2"; state = State.backlog; resolution = "" }

apply_state_set-Transition_example :
    (started.state ≡ State.active) × Transition State.backlog started.state
apply_state_set-Transition_example =
    apply_state_set-Transition (state_command State.active) deep (deep ∷ other ∷ []) started
      (CommandEvent.moved StateEvent.state_set start_data ∷ []) start_runs

-- An item that waits for another is closed: the blocker goes with it.
abbrev waiting : Manifest
waiting = item id_a "fix" State.active (on_item id_b ∷ [])

abbrev both : List Manifest
both = waiting ∷ other ∷ []

abbrev closed_outcome : Outcome
closed_outcome = record {
  manifest = record waiting {
    slug = "";
    state = State.closed;
    state_changed_at = 20;
    updated_at = 20;
    resolution = "completed";
    blockers = [];
  };
  events =
      CommandEvent.blocker_cleared
        (record {
          blocker_id = "b1";
          kind = BlockerKind.item;
          until = none;
          blocking_item_id = some id_b;
          event = none;
          label = none;
          meta = none;
        })
        ClearCause.closed
      ∷ CommandEvent.item_closed State.active "fix" "completed"
      ∷ [];
  changed = true;
}

close_runs :
    apply_manifest_command digest (state_command State.closed) waiting both ≡ ok closed_outcome
unfolding program
close_runs = refl

apply_manifest_command-IsTidy_example : IsTidy closed_outcome.manifest
apply_manifest_command-IsTidy_example =
    apply_manifest_command-IsTidy digest (state_command State.closed) waiting both closed_outcome
      refl close_runs

b_is_not_a : id_b ≢ id_a
unfolding str_eq
b_is_not_a p = let same : false ≡ true = (str_eq_iff id_b id_a).1 p in cc same

Waits-nil : {a b : String} → Waits (waits_on []) a b → ⊥
unfolding blockers_of targets lookup
Waits-nil (direct i) = elim i [ ]
Waits-nil (via i w) = elim i [ ]

both-IsAcyclic : IsAcyclic (waits_on (index_by_id both))
unfolding index_from targets
both-IsAcyclic =
    put-IsAcyclic (put [] id_a waiting) id_b other (λ y i. elim i [ ])
      (put-IsAcyclic_add [] id_a id_b waiting (λ y i. elim i [ inl p ↦ inr p | inr i ↦ elim i [ ] ])
        b_is_not_a Waits-nil IsAcyclic-nil)

waiting_is_stored : lookup (index_by_id both) id_a ≡ some waiting
unfolding index_from lookup put str_eq
waiting_is_stored = refl

apply_manifest_command-IsAcyclic_example :
    IsAcyclic (waits_on (put (index_by_id both) id_a closed_outcome.manifest))
apply_manifest_command-IsAcyclic_example =
    apply_manifest_command-IsAcyclic digest (state_command State.closed) waiting both closed_outcome
      waiting_is_stored refl both-IsAcyclic close_runs

backlog_not_active : State.backlog ≢ State.active
backlog_not_active p = cc

not_deep : false ≡ true → ⊥
not_deep p = cc

other_rests : ActiveDeep (other ∷ []) 0
other_rests = skipped other (λ s d. not_deep d) nothing

none_active : ActiveDeep ([] ++ deep ∷ other ∷ []) 0
none_active = skipped deep (λ s d. backlog_not_active s) other_rests

one_active : ActiveDeep ([] ++ started ∷ other ∷ []) 1
one_active = counted started refl refl other_rests

apply_state_set-limit_example : (1 ≤ 0) ⊎ (1 ≤ 1)
apply_state_set-limit_example =
    apply_state_set-limit (state_command State.active) deep [] (other ∷ []) started
      (CommandEvent.moved StateEvent.state_set start_data ∷ []) start_runs refl 0 1 none_active
      one_active
