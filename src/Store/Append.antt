-- ===== src/Store/Append.antt =====
-- `appendDomainEventTx` of internal/coordinator/database.go, and calls of it and of `Commit` in any
-- order. The rest of the transaction that appends an event is left out.
use workitem.Common.{ℕ, Bool, not, ◌==◌, some, List, [], ◌∷◌, lookup, put}
use workitem.Model.Error.{Error, Result, fail, ok, refuse_if, ◌>>◌}
use workitem.Model.Blocker.{Time}
use workitem.Domain.Commit.{next}
use workitem.Store.Words.{encode_uint64}
use workitem.Store.Bucket.{put_key}
use workitem.Store.Types.{
  Command, PendingEvent, RecordedEvent, ProjectionWrite, CommitResult, Buckets, EventStore,
  number_at,
}
use workitem.Store.Commit.{exists, commit}

-- `event.Sequence = sequence`
abbrev pub numbered_event : Buckets → RecordedEvent → RecordedEvent
numbered_event b e = record e { sequence = next (number_at b.global_sequence) }

abbrev pub appended : Buckets → RecordedEvent → Buckets
appended b e = record b {
  events = put_key b.events (encode_uint64 e.sequence) e;
  event_ids = put b.event_ids e.id (encode_uint64 e.sequence);
  global_sequence = some (encode_uint64 e.sequence);
}

-- `^uint64(0)`
abbrev pub last_sequence : ℕ
last_sequence = 0xffffffffffffffff

unfoldable pub append_domain_event :
    (RecordedEvent → Bool) → Buckets → RecordedEvent → Result (Buckets × ℕ)
append_domain_event encodable b e = do
  refuse_if (number_at b.global_sequence == last_sequence) Error.sequence_exhausted
  refuse_if (exists (lookup b.event_ids e.id)) Error.duplicate_event_id
  refuse_if (not (encodable (numbered_event b e))) Error.not_encodable
  ok (appended b (numbered_event b e), next (number_at b.global_sequence))

-- A call of `Commit`, with the clock.
pub record Call : Type 0 where
  pub now : Time
  pub command : Command
  pub pending : List PendingEvent
  pub updates : List ProjectionWrite

-- A call of `Commit`, or an event that another transaction appends.
pub data Write : Type 0 where
  commit_call : Call → Write
  append_call : RecordedEvent → Write

abbrev pub append_outcome : EventStore → Result (Buckets × ℕ) → EventStore
append_outcome s (fail e) = s
append_outcome s (ok (b, sequence)) = record s { buckets = b }

module _ (encodable : RecordedEvent → Bool) where
  abbrev pub perform : EventStore → Call → EventStore × Result CommitResult
  perform s call = commit encodable call.now s call.command call.pending call.updates

  unfoldable pub write : EventStore → Write → EventStore
  write s (Write.commit_call call) = (perform s call).0
  write s (Write.append_call e) = append_outcome s (append_domain_event encodable s.buckets e)

  unfoldable pub history : EventStore → List Write → EventStore
  history s [] = s
  history s (w ∷ ws) = history (write s w) ws
