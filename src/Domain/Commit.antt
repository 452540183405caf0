-- ===== src/Domain/Commit.antt =====
-- `commitManifestEvents` of internal/coordinator/blockers.go. `digest id index` is the text that
-- `domainEventID` makes of SHA-256. Numbers of events and revisions are uint64.
use workitem.Common.{
  ℕ, ◌+◌, ◌%◌, ◌^◌, String, Option, none, some, List, [], ◌∷◌, ◌++◌, Map, lookup, put, contains,
}
use workitem.Model.Error.{Error, Result, ok, refuse_if, ◌>>=◌, ◌>>◌}
use workitem.Model.Blocker.{Time}
use workitem.Model.Manifest.{Manifest}
use workitem.Domain.Types.{CommandEvent}
use workitem.Attention.Markers.{AttentionActivity, Marker, record_attention_marker}

-- The type and the payload are one `CommandEvent`.
pub record DomainEvent : Type 0 where
  pub sequence : ℕ
  pub id : String
  pub item_id : String
  pub item_revision : ℕ
  pub event : CommandEvent
  pub timestamp : Time
  pub actor : String
  pub causation_id : String

-- The buckets that a commit writes. The bucket of events is in the order of the writes; its key of
-- an event is the sequence number that the event holds, and it is read by that key only.
pub record Database : Type 0 where
  pub global_sequence : ℕ
  pub events : List DomainEvent
  pub event_ids : List String
  pub revisions : Map ℕ
  pub manifests : Map Manifest
  pub import_sources : Map String
  pub attention : Map AttentionActivity

-- What the events of one commit share.
pub record Cause : Type 0 where
  pub item_id : String
  pub causation_id : String
  pub actor : String
  pub created_at : Time

-- A missing revision decodes to 0.
abbrev pub revision_of : Option ℕ → ℕ
revision_of none = 0
revision_of (some r) = r

abbrev pub next : ℕ → ℕ
next n = (n + 1) % 2 ^ 64

abbrev pub domain_event : (String → ℕ → String) → Cause → ℕ → ℕ → ℕ → CommandEvent → DomainEvent
domain_event digest c index sequence revision e = record {
  sequence = next sequence;
  id = digest c.causation_id index;
  item_id = c.item_id;
  item_revision = next revision;
  event = e;
  timestamp = c.created_at;
  actor = c.actor;
  causation_id = c.causation_id;
}

-- The loop over the pending events: the events that it makes, where none of their ids is taken.
unfoldable pub make_events :
    (String → ℕ → String)
    → Cause
    → List String
    → ℕ
    → ℕ
    → ℕ
    → List CommandEvent
    → Result (List DomainEvent)
make_events digest c taken index sequence revision [] = ok []
make_events digest c taken index sequence revision (e ∷ es) = do
  refuse_if (contains taken (digest c.causation_id index)) Error.duplicate_event_id
  rest ←
      make_events digest c (digest c.causation_id index ∷ taken) (index + 1) (next sequence)
        (next revision) es
  ok (domain_event digest c index sequence revision e ∷ rest)

-- The counter after the loop.
unfoldable pub advance {ℓ} : {A : Type ℓ} → ℕ → List A → ℕ
advance n [] = n
advance n (x ∷ xs) = advance (next n) xs

unfoldable pub ids_of : List DomainEvent → List String
ids_of [] = []
ids_of (e ∷ es) = e.id ∷ ids_of es

-- The last loop, over the committed events that are read markers.
unfoldable pub record_reads :
    Map AttentionActivity → String → List DomainEvent → Result (Map AttentionActivity)
record_reads attention item_id [] = ok attention
record_reads attention item_id (e ∷ es) = elim e.event [
  | CommandEvent.attention_read at ↦ do
    attention' ← record_attention_marker attention item_id Marker.read e.timestamp
    record_reads attention' item_id es
  | _ ↦ record_reads attention item_id es
]

-- `source` is the digest of the manifest's JSON.
unfoldable pub commit_manifest_events :
    (String → ℕ → String)
    → (Manifest → String)
    → Database
    → Manifest
    → (causation_id actor : String) → Time
    → List CommandEvent
    → Result (Database × List DomainEvent × ℕ)
commit_manifest_events digest source db m causation_id actor created_at pending = do
  let revision = revision_of (lookup db.revisions m.id)
  let c : Cause = record {
    item_id = m.id;
    causation_id = causation_id;
    actor = actor;
    created_at = created_at;
  }
  committed ← make_events digest c db.event_ids 0 db.global_sequence revision pending
  attention ← record_reads db.attention m.id committed
  ok (
    record db {
      global_sequence = advance db.global_sequence pending;
      events = db.events ++ committed;
      event_ids = ids_of committed ++ db.event_ids;
      revisions = put db.revisions m.id (advance revision pending);
      manifests = put db.manifests m.id m;
      import_sources = put db.import_sources m.id (source m);
      attention = attention;
    },
    committed,
    advance revision pending,
  )
