-- ===== src/Domain/Execute.antt =====
-- `executeManifestCommand` of internal/coordinator/domain.go without queue options, which is
-- `ExecuteManifestCommand`. `encode` is the JSON coding of commands, `blocker_id` and
-- `event_id` name blockers and events, `source` is the digest of a manifest's JSON.
use workitem.Common.{
  ℕ, String, Bool, true, false, not, ◌&&◌, ◌||◌, Option, none, some, List, [], Map, lookup, put,
  values, str_eq, ◌==◌, if◌then◌else◌,
}
use workitem.Strings.{is_empty, is_compact}
use workitem.Model.Error.{Error, Result, ok, fail, refuse_if, ◌>>=◌, ◌>>◌}
use workitem.Model.Blocker.{Time, valid_id}
use workitem.Model.Manifest.{Manifest}
use workitem.Domain.Types.{ManifestCommand, MetadataEdit, CommandType}
use workitem.Domain.Apply.{Outcome, apply_manifest_command}
use workitem.Domain.Commit.{DomainEvent, Database, revision_of, commit_manifest_events}

-- Duplicates are marked; the commit's own clock reading is left out.
pub record CommandResult : Type 0 where
  pub command_id : String
  pub manifest : Manifest
  pub revision : ℕ
  pub events : List DomainEvent
  pub changed : Bool
  pub duplicate : Bool

-- A stored outcome; of its queue options, whether there are any.
pub record CommandOutcome : Type 0 where
  pub command : ManifestCommand
  pub result : CommandResult
  pub queued : Bool

pub record PendingWrite : Type 0 where
  pub command_id : String
  pub manifest : Manifest
  pub description_digest : String
  pub previous_description_digest : String

pub record Store : Type 0 where
  pub database : Database
  pub outcomes : Map CommandOutcome
  pub pending_writes : Map PendingWrite

abbrev pub expected_matches : Option ℕ → ℕ → Bool
expected_matches none revision = true
expected_matches (some expected) revision = revision == expected

abbrev is_missing : Option ℕ → Bool
is_missing none = true
is_missing (some r) = false

abbrev pub protocol : ℕ
protocol = 3

-- The defaults for the actor and the time.
abbrev pub with_defaults : ManifestCommand → Time → ManifestCommand
with_defaults c now = record c {
  actor = if is_empty c.actor then "user" else c.actor;
  created_at = if c.created_at == 0 then now else c.created_at;
}

abbrev pub marked : CommandResult → CommandResult
marked r = record r { duplicate = true }

-- The command as the transaction sees it.
unfoldable pub checked_command : ManifestCommand → Time → Result ManifestCommand
checked_command c now = do
  refuse_if (is_empty c.id || not (valid_id c.item_id) || is_missing c.expected_revision)
      Error.missing_fields
  refuse_if (not (is_compact c.id 200)) Error.invalid_command_id
  refuse_if (not (c.protocol_version == protocol)) Error.unsupported_protocol
  refuse_if (not (str_eq (with_defaults c now).actor "user")) Error.not_user_actor
  ok (with_defaults c now)

module _ (encode : ManifestCommand → String) (blocker_id event_id : String → ℕ → String)
    (source : Manifest → String) where
  abbrev pub same_command : ManifestCommand → ManifestCommand → Bool
  same_command left right = str_eq (encode left) (encode right)

  unfoldable pub replay : CommandOutcome → ManifestCommand → Result CommandResult
  replay outcome c = do
    refuse_if (not (same_command outcome.command c)) Error.different_input
    refuse_if outcome.queued Error.already_queued
    ok (marked outcome.result)

  abbrev pub describes : CommandType → Option MetadataEdit → Option MetadataEdit
  describes CommandType.edit (some e) =
      if not (is_empty e.description_digest)
        && not (str_eq e.description_digest e.previous_description_digest)
      then some e
      else none
  describes _ _ = none

  abbrev pub add_write :
      Map PendingWrite → ManifestCommand → Manifest → Option MetadataEdit → Map PendingWrite
  add_write writes c m none = writes
  add_write writes c m (some e) = put writes c.id (record {
    command_id = c.id;
    manifest = m;
    description_digest = e.description_digest;
    previous_description_digest = e.previous_description_digest;
  })

  -- `if changed { commitManifestEvents }`: the database, the events and the revision.
  unfoldable pub commit_if :
      Database → ManifestCommand → ℕ → Outcome → Result (Database × List DomainEvent × ℕ)
  commit_if db c revision o =
      if o.changed
      then commit_manifest_events event_id source db o.manifest c.id c.actor c.created_at o.events
      else ok (db, [], revision)

  -- A command that was not seen before. The manifests come in the order of the bucket's keys in the
  -- code, on which no command depends.
  unfoldable pub execute_new : Store → ManifestCommand → Manifest → Result (Store × CommandResult)
  execute_new s c m = do
    let db = s.database
    let revision = revision_of (lookup db.revisions c.item_id)
    refuse_if (not (expected_matches c.expected_revision revision)) Error.revision_conflict
    o ← apply_manifest_command blocker_id c m (values db.manifests)
    (db', events, revision') ← commit_if db c revision o
    let result : CommandResult = record {
      command_id = c.id;
      manifest = o.manifest;
      revision = revision';
      events = events;
      changed = o.changed;
      duplicate = false;
    }
    let outcome : CommandOutcome = record { command = c; result = result; queued = false }
    ok (
      record {
        database = db';
        outcomes = put s.outcomes c.id outcome;
        pending_writes = add_write s.pending_writes c o.manifest (describes c.type c.edit);
      },
      result,
    )

  -- For the stored outcome of the command's id and the stored item, where there are any.
  unfoldable pub execute_on :
      Store
      → ManifestCommand
      → Option CommandOutcome
      → Option Manifest
      → Result (Store × CommandResult)
  execute_on s c (some outcome) item = do result ← replay outcome c; ok (s, result)
  execute_on s c none none = fail Error.not_found
  execute_on s c none (some m) = execute_new s c m

  unfoldable pub execute_in : Store → ManifestCommand → Result (Store × CommandResult)
  unfolding execute_on
  execute_in s c = execute_on s c (lookup s.outcomes c.id) (lookup s.database.manifests c.item_id)

  unfoldable pub execute_manifest_command :
      Store → ManifestCommand → Time → Result (Store × CommandResult)
  execute_manifest_command s command now = do c ← checked_command command now; execute_in s c
