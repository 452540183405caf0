-- ===== src/Store/Commit.antt =====
-- `Commit`, `EventExists`, `ListItemEvents` and the reads of projections of
-- internal/coordinator/database.go. The value of a JSON text stands for the text. `encodable` says of
-- an event that `json.Marshal` takes it. The errors of the disk are left out.
use workitem.Common.{
  ℕ, String, Bool, true, false, not, ◌&&◌, ◌||◌, ◌==◌, ltb, length, Option, none, some, List, [],
  ◌∷◌, ◌++◌, Map, lookup, put, remove, str_eq, if◌then◌else◌,
}
use workitem.Strings.{is_empty}
use workitem.Model.Error.{Error, Result, fail, ok, refuse_if, ◌>>=◌, ◌>>◌}
use workitem.Model.Blocker.{Time, valid_id}
use workitem.Content.Bytes.{Bytes}
use workitem.Changes.Log.{ChangeLog, event_items, record_changes}
use workitem.Domain.Commit.{next}
use workitem.Store.Words.{encode_uint64}
use workitem.Store.Bucket.{Bucket, put_key}
use workitem.Store.Types.{
  Command, PendingEvent, RecordedEvent, ProjectionWrite, CommitResult, Buckets, EventStore,
  number_at, Transaction,
}

abbrev pub recorded : String → ℕ → ℕ → PendingEvent → RecordedEvent
recorded causation sequence revision p = record {
  sequence = sequence;
  id = p.id;
  item_id = p.item_id;
  item_revision = revision;
  type = p.type;
  timestamp = p.timestamp;
  actor = p.actor;
  causation_id = causation;
  payload = p.payload;
}

-- The revision that an event moves its item to, and 0 for an event without an item.
abbrev pub revision_after : Buckets → String → ℕ
revision_after b item = if is_empty item then 0 else next (number_at (lookup b.revisions item))

abbrev pub revisions_after : Buckets → String → Map Bytes
revisions_after b item =
    if is_empty item
    then b.revisions
    else put b.revisions item (encode_uint64 (revision_after b item))

abbrev pub exists {ℓ} : {A : Type ℓ} → Option A → Bool
exists none = false
exists (some a) = true

-- The body of the loop over the pending events, past its checks.
unfoldable pub with_event : Command → Transaction → PendingEvent → RecordedEvent → Transaction
with_event c t p e = record {
  buckets = record t.buckets {
    revisions = revisions_after t.buckets p.item_id;
    events = put_key t.buckets.events (encode_uint64 e.sequence) e;
    event_ids = put t.buckets.event_ids p.id (encode_uint64 e.sequence);
  };
  sequence = e.sequence;
  result = record t.result {
    item_revision =
        if not (is_empty p.item_id) && str_eq p.item_id c.item_id
        then e.item_revision
        else t.result.item_revision;
    events = t.result.events ++ e ∷ [];
  };
}

abbrev pub next_event : Command → Transaction → PendingEvent → RecordedEvent
next_event c t p = recorded c.id (next t.sequence) (revision_after t.buckets p.item_id) p

unfoldable pub commit_event :
    (RecordedEvent → Bool) → Command → Transaction → PendingEvent → Result Transaction
commit_event encodable c t p = do
  refuse_if (is_empty p.id || is_empty p.type) Error.event_fields_required
  refuse_if (exists (lookup t.buckets.event_ids p.id)) Error.duplicate_event_id
  refuse_if (not (encodable (next_event c t p))) Error.not_encodable
  ok (with_event c t p (next_event c t p))

unfoldable pub commit_events :
    (RecordedEvent → Bool) → Command → Transaction → List PendingEvent → Result Transaction
commit_events encodable c t [] = ok t
commit_events encodable c t (p ∷ ps) = do
  t' ← commit_event encodable c t p
  commit_events encodable c t' ps

-- `CreateBucketIfNotExists`
abbrev pub projection_of : Map (Map String) → String → Map String
projection_of ps name = elim (lookup ps name) [ none ↦ [] | some p ↦ p ]

unfoldable pub update_projections :
    Map (Map String) → List ProjectionWrite → Result (Map (Map String))
update_projections ps [] = ok ps
update_projections ps (u ∷ us) = do
  refuse_if (is_empty u.projection || is_empty u.key) Error.projection_required
  let p = projection_of ps u.projection
  update_projections
      (put ps u.projection (if u.delete then remove p u.key else put p u.key u.value)) us

-- `ExpectedRevision != nil && *ExpectedRevision != currentRevision`
abbrev pub is_conflict : Option ℕ → ℕ → Bool
is_conflict none current = false
is_conflict (some expected) current = not (expected == current)

abbrev pub new_result : Command → Time → CommitResult
new_result c now = record {
  command_id = c.id;
  events = [];
  final_sequence = 0;
  item_revision = 0;
  committed_at = now;
  duplicate = false;
}

abbrev pub begin_transaction : Command → Time → Buckets → Transaction
begin_transaction c now b = record {
  buckets = b;
  sequence = number_at b.global_sequence;
  result = new_result c now;
}

abbrev pub final_result : Transaction → CommitResult
final_result t = record t.result { final_sequence = t.sequence }

-- The end of the transaction.
abbrev pub closed_transaction : Command → Transaction → Map (Map String) → Buckets
closed_transaction c t ps = record t.buckets {
  projections = ps;
  global_sequence = some (encode_uint64 t.sequence);
  commands = put t.buckets.commands c.id (final_result t);
}

-- The transaction for a command that is not recorded.
unfoldable pub commit_new :
    (RecordedEvent → Bool)
    → Time
    → Buckets
    → Command
    → List PendingEvent
    → List ProjectionWrite
    → Result (Buckets × CommitResult)
commit_new encodable now b c pending updates = do
  refuse_if (is_conflict c.expected_revision (number_at (lookup b.revisions c.item_id)))
      Error.revision_conflict
  t ← commit_events encodable c (begin_transaction c now b) pending
  ps ← update_projections t.buckets.projections updates
  ok (closed_transaction c t ps, final_result t)

abbrev pub items_of : List RecordedEvent → List String
items_of [] = []
items_of (e ∷ es) = e.item_id ∷ items_of es

-- The changes of a commit that has recorded something.
unfoldable pub committed_changes :
    ChangeLog → Command → List RecordedEvent → List ProjectionWrite → ChangeLog
committed_changes log c events updates =
    if ltb 0 (length events) || ltb 0 (length updates)
    then record_changes log (event_items (c.item_id ∷ items_of events))
    else log

-- An error rolls the transaction back.
unfoldable pub commit_outcome :
    EventStore
    → Command
    → List ProjectionWrite
    → Result (Buckets × CommitResult)
    → EventStore × Result CommitResult
commit_outcome s c updates (fail e) = (s, fail e)
commit_outcome s c updates (ok (b, result)) = (
  record { buckets = b; changes = committed_changes s.changes c result.events updates },
  ok result,
)

-- `result.Duplicate = true`
abbrev pub as_duplicate : CommitResult → CommitResult
as_duplicate r = record r { duplicate = true }

-- A command that is recorded is answered with its outcome.
unfoldable pub commit_known :
    (RecordedEvent → Bool)
    → Time
    → EventStore
    → Command
    → List PendingEvent
    → List ProjectionWrite
    → Option CommitResult
    → EventStore × Result CommitResult
commit_known encodable now s c pending updates (some prior) = (s, ok (as_duplicate prior))
commit_known encodable now s c pending updates none =
    commit_outcome s c updates (commit_new encodable now s.buckets c pending updates)

unfoldable pub commit :
    (RecordedEvent → Bool)
    → Time
    → EventStore
    → Command
    → List PendingEvent
    → List ProjectionWrite
    → EventStore × Result CommitResult
commit encodable now s c pending updates =
    if is_empty c.id || is_empty c.type
    then (s, fail Error.command_fields_required)
    else commit_known encodable now s c pending updates (lookup s.buckets.commands c.id)

unfoldable pub event_exists : EventStore → String → Bool
event_exists s id = not (is_empty id) && exists (lookup s.buckets.event_ids id)

-- The loop of `ListItemEvents`.
unfoldable pub events_of : String → Bucket RecordedEvent → List RecordedEvent
events_of item [] = []
events_of item ((k, e) ∷ rest) =
    let events = events_of item rest in if str_eq e.item_id item then e ∷ events else events

unfoldable pub list_item_events : EventStore → String → Result (List RecordedEvent)
list_item_events s item = do
  refuse_if (not (valid_id item)) Error.invalid_item_id
  ok (events_of item s.buckets.events)

unfoldable pub list_projection : EventStore → String → Result (Map String)
list_projection s name = do
  refuse_if (is_empty name) Error.projection_required
  ok (projection_of s.buckets.projections name)

-- An empty value is read as a missing one.
abbrev pub read_value : Option String → Option String
read_value none = none
read_value (some value) = if is_empty value then none else some value

-- The text of the value that `ReadProjection` decodes into its target.
unfoldable pub read_projection : EventStore → String → String → Result (Option String)
read_projection s name key = do
  refuse_if (is_empty name || is_empty key) Error.projection_required
  ok (read_value (lookup (projection_of s.buckets.projections name) key))
