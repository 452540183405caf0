-- ===== src/Tests/Blockers.antt =====
-- Blockers: a dependency, a refused cycle, and the theorems at these inputs.
use workitem.Common.{
  ℕ, ◌≡◌, ◌↔◌, refl, String, true, none, some, List, [], ◌∷◌, ◌++◌, lookup, put, contains, str_eq,
  All, length, ltb, if◌then◌else◌,
}
use workitem.Strings.{trim_space, is_empty, has_control}
use workitem.Model.Error.{Error, ok, fail}
use workitem.Model.Blocker.{
  Blocker, BlockerKind, validate_blocker, validate_meta, validate_kind, valid_blocker_kind,
  valid_id,
}
use workitem.Model.Manifest.{Manifest}
use workitem.Domain.Types.{CommandEvent, ManifestCommand}
use workitem.Blockers.Graph.{
  blockers_of, push_targets, search, unseen_blockers, search_fuel, blocks_transitively, waits_on,
  targets, Waits,
}
use workitem.Blockers.Search.{blocks_transitively_iff}
use workitem.Blockers.Commands.{
  index_from, index_by_id, has_item_blocker, prepare_blocker, append_blocker, check_target,
  add_blocker, add_blockers, apply_blocker_add, blocker_event_data,
}
use workitem.Blockers.Sweep.{sweep_blocker, time_cause, item_cause, sweep_cause, sweep_blockers}
use workitem.Blockers.Swept.{Sweeps, sweep_blockers-Sweeps}
use workitem.Blockers.Growth.{added_events, with_blockers, apply_blocker_add_lem}
use workitem.Tests.Samples.{until, id_a, id_b, id_c, items, item_a, item_c, on_item, add_command}

-- The definitions that a blocker command runs through.
program : Unit {0}
unfolding blockers_of push_targets search unseen_blockers blocks_transitively targets index_from
    has_item_blocker prepare_blocker append_blocker check_target add_blocker add_blockers
    apply_blocker_add blocker_event_data validate_blocker validate_meta validate_kind
    valid_blocker_kind valid_id lookup put contains str_eq trim_space is_empty has_control
program = tt

abbrev digest : String → ℕ → String
digest command index = "b0"

c_blocks_b : blocks_transitively (index_by_id items) id_b id_c ≡ true
unfolding program
c_blocks_b = refl

-- c may not wait for b, which waits for c.
cycle_refused :
    apply_blocker_add digest (add_command id_c (on_item id_b ∷ [])) item_c items
    ≡ fail Error.dependency_cycle
unfolding program
cycle_refused = refl

blocks_transitively_iff_example :
    (search (search_fuel (index_by_id items)) (index_by_id items) id_c [] (id_b ∷ [])
      ≡ some (blocks_transitively (index_by_id items) id_b id_c))
    × ((blocks_transitively (index_by_id items) id_b id_c ≡ true)
        ↔ Waits (waits_on (index_by_id items)) id_b id_c)
blocks_transitively_iff_example = blocks_transitively_iff (index_by_id items) id_b id_c

-- The stored blocker of a on c, and the events of the command that adds it.
abbrev stored : Blocker
stored = let b = on_item id_c in record b { id = digest "cmd-1" 0; created_at = 20 }

abbrev waiting_a : Manifest
waiting_a = record item_a { blockers = stored ∷ [] }

abbrev add_a_c : ManifestCommand
add_a_c = add_command id_a (on_item id_c ∷ [])

-- Two items that do not wait.
abbrev free_items : List Manifest
free_items = item_a ∷ item_c ∷ []

abbrev added : List CommandEvent
added =
    CommandEvent.blocker_added (record {
      blocker_id = "b0";
      kind = BlockerKind.item;
      until = none;
      blocking_item_id = some id_c;
      event = none;
      label = none;
      meta = none;
    })
    ∷ CommandEvent.attention_read 20
    ∷ []

add_runs : apply_blocker_add digest add_a_c item_a free_items ≡ ok (waiting_a, added)
unfolding program
add_runs = refl

apply_blocker_add_lem_example :
    (new : List Blocker) × (waiting_a ≡ with_blockers item_a (item_a.blockers ++ new))
    × (added
        ≡ added_events new
          ++ (if ltb 0 (length new) then CommandEvent.attention_read 20 ∷ [] else []))
    × All (λ b. validate_blocker b id_a 20 ≡ ok tt) new
apply_blocker_add_lem_example =
    apply_blocker_add_lem digest add_a_c item_a free_items waiting_a added add_runs

-- A sweep at 50 clears a blocker until 40, and one on an item that is gone, and leaves another.
abbrev until_40 : Blocker
until_40 = let b = until 40 in record b { kind = BlockerKind.time }

abbrev swept_list : List Blocker
swept_list = until_40 ∷ on_item id_c ∷ on_item "gone" ∷ []

sweep_leaves_c : (sweep_blockers (index_by_id items) 50 none swept_list).0 ≡ on_item id_c ∷ []
unfolding program sweep_blocker time_cause item_cause sweep_cause sweep_blockers
sweep_leaves_c = refl

sweep_blockers-Sweeps_example :
    Sweeps
      (index_by_id items)
      50
      none
      swept_list
      ((sweep_blockers (index_by_id items) 50 none swept_list).0)
      ((sweep_blockers (index_by_id items) 50 none swept_list).1)
    × (sweep_blockers
          (index_by_id items)
          50
          none
          ((sweep_blockers (index_by_id items) 50 none swept_list).0)
        ≡ ((sweep_blockers (index_by_id items) 50 none swept_list).0, []))
sweep_blockers-Sweeps_example = sweep_blockers-Sweeps (index_by_id items) 50 none swept_list
