-- ===== src/Store/Types.antt =====
-- Commands, events and the buckets of internal/coordinator/database.go. The value of a JSON text
-- stands for the text.
use workitem.Common.{ℕ, String, Bool, Option, none, some, List, [], Map}
use workitem.Model.Blocker.{Time}
use workitem.Content.Bytes.{Bytes}
use workitem.Changes.Log.{ChangeLog}
use workitem.Store.Words.{decode_uint64}
use workitem.Store.Bucket.{Bucket}

pub record Command : Type 0 where
  pub id : String
  pub protocol_version : ℕ
  pub type : String
  pub actor : String
  pub item_id : String
  pub expected_revision : Option ℕ
  pub payload : String
  pub received_at : Time

pub record PendingEvent : Type 0 where
  pub id : String
  pub item_id : String
  pub type : String
  pub timestamp : Time
  pub actor : String
  pub payload : String

-- `DomainEvent`
pub record RecordedEvent : Type 0 where
  pub sequence : ℕ
  pub id : String
  pub item_id : String
  pub item_revision : ℕ
  pub type : String
  pub timestamp : Time
  pub actor : String
  pub causation_id : String
  pub payload : String

pub record ProjectionWrite : Type 0 where
  pub projection : String
  pub key : String
  pub value : String
  pub delete : Bool

pub record CommitResult : Type 0 where
  pub command_id : String
  pub events : List RecordedEvent
  pub final_sequence : ℕ
  pub item_revision : ℕ
  pub committed_at : Time
  pub duplicate : Bool

-- The buckets that a commit reads or writes; `global_sequence` is that key of `bucketMeta`.
pub record Buckets : Type 0 where
  pub global_sequence : Option Bytes
  pub commands : Map CommitResult
  pub events : Bucket RecordedEvent
  pub event_ids : Map Bytes
  pub revisions : Map Bytes
  pub projections : Map (Map String)

-- `Database`, with the contents of its file.
pub record EventStore : Type 0 where
  pub buckets : Buckets
  pub changes : ChangeLog

-- `decodeUint64(bucket.Get(key))`; a missing key reads as no bytes.
abbrev pub number_at : Option Bytes → ℕ
number_at none = decode_uint64 []
number_at (some value) = decode_uint64 value

-- What the transaction has built up: the buckets, the counter and the result.
pub record Transaction : Type 0 where
  pub buckets : Buckets
  pub sequence : ℕ
  pub result : CommitResult
