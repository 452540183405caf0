-- ===== src/Tests/Store.antt =====
-- Two items are given events, and a command is sent twice.
use workitem.Common.{
  ℕ, ◌+◌, ◌^◌, ◌<◌, ◌≡◌, refl, String, Bool, true, false, Option, none, some, List, [], ◌∷◌, lookup,
  put, remove, contains, str_eq, arith,
}
use workitem.Strings.{is_empty}
use workitem.Model.Error.{Error, ok, fail}
use workitem.Changes.Log.{new_change_log, event_items, event_items_from, record_changes}
use workitem.Store.Words.{
  byte_room, big_endian, encode_uint64, from_big_endian, decode_uint64, bytes_before,
}
use workitem.Store.Bucket.{put_key}
use workitem.Store.Types.{PendingEvent, RecordedEvent, CommitResult, EventStore}
use workitem.Store.Commit.{
  with_event, commit_event, commit_events, update_projections, commit_new, committed_changes,
  commit_outcome, commit_known, commit, events_of, as_duplicate, read_projection, event_exists,
}
use workitem.Store.Append.{append_domain_event, Call, Write, perform, write, history}
use workitem.Store.Once.{commit_once}
use workitem.Store.Invariant.{IsItemless, IsConsistent, counter, asked, history-IsConsistent}

program : Unit {0}
unfolding is_empty lookup put remove contains str_eq event_items event_items_from record_changes
    byte_room big_endian encode_uint64 from_big_endian decode_uint64 bytes_before put_key with_event
    commit_event commit_events update_projections commit_new committed_changes commit_outcome
    commit_known commit events_of read_projection event_exists append_domain_event write history
program = tt

abbrev encodable : RecordedEvent → Bool
encodable e = true

abbrev new_store : EventStore
new_store = record {
  buckets = record {
    global_sequence = none;
    commands = [];
    events = [];
    event_ids = [];
    revisions = [];
    projections = [];
  };
  changes = new_change_log "epoch";
}

abbrev pending : String → String → PendingEvent
pending id item = record {
  id = id;
  item_id = item;
  type = "note";
  timestamp = 5;
  actor = "user";
  payload = "{}";
}

abbrev call : String → Option ℕ → List PendingEvent → Call
call id expected events = record {
  now = 9;
  command = record {
    id = id;
    protocol_version = 1;
    type = "note";
    actor = "user";
    item_id = "a";
    expected_revision = expected;
    payload = "{}";
    received_at = 8;
  };
  pending = events;
  updates = record { projection = "notes"; key = id; value = "1"; delete = false } ∷ [];
}

abbrev first : Call
first = call "c1" none (pending "e1" "a" ∷ pending "e2" "b" ∷ pending "e3" "a" ∷ [])

abbrev second : Call
second = call "c2" (some 2) (pending "e4" "b" ∷ [])

abbrev conflicting : Call
conflicting = call "c3" (some 1) (pending "e5" "b" ∷ [])

abbrev unnumbered : RecordedEvent
unnumbered = record {
  sequence = 0;
  id = "e9";
  item_id = "";
  item_revision = 0;
  type = "repository.renamed";
  timestamp = 6;
  actor = "user";
  causation_id = "c9";
  payload = "{}";
}

abbrev writes : List Write
writes =
    Write.commit_call first
    ∷ Write.append_call unnumbered
    ∷ Write.commit_call second
    ∷ Write.commit_call conflicting
    ∷ []

abbrev event : ℕ → String → String → ℕ → RecordedEvent
event sequence id item revision = record {
  sequence = sequence;
  id = id;
  item_id = item;
  item_revision = revision;
  type = "note";
  timestamp = 5;
  actor = "user";
  causation_id = "c1";
  payload = "{}";
}

abbrev first_result : CommitResult
first_result = record {
  command_id = "c1";
  events = event 1 "e1" "a" 1 ∷ event 2 "e2" "b" 1 ∷ event 3 "e3" "a" 2 ∷ [];
  final_sequence = 3;
  item_revision = 2;
  committed_at = 9;
  duplicate = false;
}

abbrev after_first : EventStore
after_first = (perform encodable new_store first).0

first_runs : perform encodable new_store first ≡ (after_first, ok first_result)
unfolding program
first_runs = refl

stale_is_refused :
    perform encodable after_first conflicting ≡ (after_first, fail Error.revision_conflict)
unfolding program
stale_is_refused = refl

second_is_numbered :
    counter (history encodable after_first (Write.commit_call second ∷ [])).buckets ≡ 4
unfolding program
second_is_numbered = refl

named : is_empty "note" ≡ false
unfolding is_empty
named = refl

commit_once_example :
    perform encodable (history encodable after_first (Write.commit_call second ∷ [])) first ≡ (
      history encodable after_first (Write.commit_call second ∷ []),
      ok (as_duplicate first_result),
    )
commit_once_example =
    commit_once encodable new_store after_first first first_result (Write.commit_call second ∷ [])
      first first_runs refl named

new_store-IsConsistent : IsConsistent new_store
unfolding program
new_store-IsConsistent = record {
  numbered = refl;
  indexed = tt;
  logged = λ id k found. cc;
  revised = λ item named. refl;
}

few : counter new_store.buckets + asked writes < 2 ^ 64
unfolding program
few = omega arith

itemless : IsItemless unnumbered
unfolding is_empty
itemless = (refl, refl)

history-IsConsistent_example : IsConsistent (history encodable new_store writes)
history-IsConsistent_example =
    history-IsConsistent encodable new_store writes (tt, (itemless, (tt, (tt, tt))))
      new_store-IsConsistent few
