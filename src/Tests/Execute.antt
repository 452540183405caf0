-- ===== src/Tests/Execute.antt =====
-- A command that marks an item as deep work is sent twice.
use workitem.Common.{
  ℕ, ◌≡◌, refl, String, true, false, some, [], ◌∷◌, lookup, put, contains, str_eq,
}
use workitem.Strings.{trim_space, is_empty, has_control, is_compact}
use workitem.Model.Error.{ok}
use workitem.Model.Blocker.{valid_id}
use workitem.Model.Manifest.{Manifest}
use workitem.Domain.Types.{CommandType, ManifestCommand, CommandEvent}
use workitem.Domain.Apply.{apply_deep_work, dispatch, apply_manifest_command}
use workitem.Domain.Commit.{
  DomainEvent, make_events, advance, ids_of, record_reads, commit_manifest_events,
}
use workitem.Domain.Execute.{
  CommandResult, Store, marked, checked_command, replay, commit_if, execute_new, execute_on,
  execute_in, execute_manifest_command,
}
use workitem.Domain.Replay.{execute_manifest_command_again}
use workitem.Tests.Samples.{id_a, item_a, command}

program : Unit {0}
unfolding trim_space is_empty has_control is_compact valid_id apply_deep_work dispatch
    apply_manifest_command make_events advance ids_of record_reads commit_manifest_events
    checked_command replay commit_if execute_new execute_on execute_in execute_manifest_command
    lookup put contains str_eq
program = tt

abbrev pub encode : ManifestCommand → String
encode c = c.id

abbrev name : String → ℕ → String
name causation index = "e0"

abbrev source : Manifest → String
source m = "digest"

abbrev pub deep_command : ManifestCommand
deep_command = let c = command CommandType.deep_work_set id_a in record c { deep_work = some true }

abbrev pub store : Store
store = record {
  database = record {
    global_sequence = 7;
    events = [];
    event_ids = [];
    revisions = (id_a, 3) ∷ [];
    manifests = (id_a, item_a) ∷ [];
    import_sources = [];
    attention = [];
  };
  outcomes = [];
  pending_writes = [];
}

abbrev deep_item : Manifest
deep_item = record item_a { deep_work = true; updated_at = 20 }

abbrev event : DomainEvent
event = record {
  sequence = 8;
  id = "e0";
  item_id = id_a;
  item_revision = 4;
  event = CommandEvent.deep_work_set;
  timestamp = 20;
  actor = "user";
  causation_id = "cmd-1";
}

abbrev result : CommandResult
result = record {
  command_id = "cmd-1";
  manifest = deep_item;
  revision = 4;
  events = event ∷ [];
  changed = true;
  duplicate = false;
}

abbrev pub stored : Store
stored = record {
  database = record {
    global_sequence = 8;
    events = event ∷ [];
    event_ids = "e0" ∷ [];
    revisions = (id_a, 4) ∷ [];
    manifests = (id_a, deep_item) ∷ [];
    import_sources = (id_a, "digest") ∷ [];
    attention = [];
  };
  outcomes = ("cmd-1", record { command = deep_command; result = result; queued = false }) ∷ [];
  pending_writes = [];
}

first_run :
    execute_manifest_command encode name name source store deep_command 30 ≡ ok (stored, result)
unfolding program
first_run = refl

execute_manifest_command_again_example :
    execute_manifest_command encode name name source stored deep_command 90
    ≡ ok (stored, marked result)
execute_manifest_command_again_example =
    execute_manifest_command_again encode name name source store stored deep_command 30 90 result
      refl first_run
