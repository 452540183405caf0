-- ===== src/Tests/Commit.antt =====
-- Two events of one item are committed.
use workitem.Common.{
  ℕ, zero, suc, ◌≡◌, refl, String, some, List, [], ◌∷◌, ◌++◌, lookup, put, contains, str_eq,
}
use workitem.Model.Error.{ok}
use workitem.Model.Manifest.{Manifest}
use workitem.Domain.Types.{CommandEvent}
use workitem.Attention.Markers.{
  no_activity, later_time, checked_activity, read_attention_activity, mark, record_attention_marker,
}
use workitem.Domain.Commit.{
  DomainEvent, Database, revision_of, make_events, advance, ids_of, record_reads,
  commit_manifest_events,
}
use workitem.Domain.Committed.{
  Follows, sequence_behind, revision_behind, commit_manifest_events-Follows,
}
use workitem.Tests.Samples.{id_a, item_a}

program : Unit {0}
unfolding later_time checked_activity read_attention_activity mark record_attention_marker
    make_events advance ids_of record_reads commit_manifest_events lookup put contains str_eq
program = tt

abbrev digest : String → ℕ → String
digest causation zero = "e0"
digest causation (suc n) = "e1"

abbrev source : Manifest → String
source m = "digest"

abbrev database : Database
database = record {
  global_sequence = 7;
  events = [];
  event_ids = [];
  revisions = (id_a, 3) ∷ [];
  manifests = [];
  import_sources = [];
  attention = [];
}

abbrev pending : List CommandEvent
pending = CommandEvent.title_set "new" ∷ CommandEvent.attention_read 20 ∷ []

abbrev event : ℕ → String → ℕ → CommandEvent → DomainEvent
event sequence id revision e = record {
  sequence = sequence;
  id = id;
  item_id = id_a;
  item_revision = revision;
  event = e;
  timestamp = 20;
  actor = "user";
  causation_id = "cmd-1";
}

abbrev committed : List DomainEvent
committed =
    event 8 "e0" 4 (CommandEvent.title_set "new")
    ∷ event 9 "e1" 5 (CommandEvent.attention_read 20)
    ∷ []

abbrev after_commit : Database
after_commit = record {
  global_sequence = 9;
  events = committed;
  event_ids = "e0" ∷ "e1" ∷ [];
  revisions = (id_a, 5) ∷ [];
  manifests = (id_a, item_a) ∷ [];
  import_sources = (id_a, "digest") ∷ [];
  attention = (id_a, (let a = no_activity id_a in record a { last_read_at = some 20 })) ∷ [];
}

commit_runs :
    commit_manifest_events digest source database item_a "cmd-1" "user" 20 pending
    ≡ ok (after_commit, committed, 5)
unfolding program
commit_runs = refl

commit_manifest_events-Follows_example :
    Follows 7 (revision_of (lookup database.revisions id_a)) [] pending committed
    × (after_commit.events ≡ [] ++ committed)
    × (after_commit.event_ids ≡ ids_of committed ++ [])
    × (after_commit.global_sequence ≡ sequence_behind 7 committed)
    × (5 ≡ revision_behind (revision_of (lookup database.revisions id_a)) committed)
    × (lookup after_commit.revisions id_a ≡ some 5)
    × (lookup after_commit.manifests id_a ≡ some item_a)
commit_manifest_events-Follows_example =
    commit_manifest_events-Follows digest source database item_a "cmd-1" "user" 20 pending
      after_commit committed 5 commit_runs
