-- ===== src/Lib.antt =====
-- The coordinator of workitem: the state of work items and the commands that change it.
--
-- A work item has a manifest (internal/model/manifest.go). Clients send manifest commands, which
-- the coordinator applies one at a time inside a database transaction
-- (internal/coordinator/domain.go). A command may add blockers: an item can wait for a time, for
-- an external event or for another item (internal/coordinator/blockers.go). Clients that drive an
-- item's agent hold a control lease on it (internal/coordinator/lease.go). What the user has
-- read, deferred or marked unread is kept as attention markers, which indexing imports may
-- overtake (internal/coordinator/attention_activity.go). The agent of an item runs in a runtime,
-- whose events the daemon checks against the owner and the workspace claim and turns into the
-- activity and the status shown of the item (internal/coordinator/runtime_ingest.go). Readers
-- wait for changed items on the change feed (internal/coordinator/changes.go), and follow what an
-- agent is writing on a content server (agentdriver/protocol/content.go). Commands that record
-- events themselves commit them to the event log of the database, whose indices and change feed
-- follow it (internal/coordinator/database.go). Work that takes long runs as a job of the daemon,
-- which may ask its user for approval and is kept over a restart (internal/daemonapi/jobs.go).
--
-- The files and the code they model:
-- - Common: Boolean tests, lists and association maps. Strings: the functions of Go's strings and
--   unicode packages that the code calls, on valid UTF-8.
-- - Model/Error: one constructor for each error message, without its text. Model/Blocker:
--   internal/model/lifecycle.go. Model/Claim and Model/Manifest: internal/model/manifest.go.
--   Model/Fencing: the proof about claims. Model/Id: internal/model/id.go. Model/Decoding and
--   Model/Prefixes: its proofs. Model/SlugForm: the form of slugs. Model/Label:
--   internal/model/labels.go. Model/Slug: internal/model/slug.go.
-- - Blockers/Graph: `blocksTransitively`, and the relation `Waits` that it decides.
--   Blockers/Commands: `applyBlockerAddCommand`, `applyBlockerClearCommand`, `clearAllBlockers`
--   and `blockerEventData`. Blockers/Sweep: the loop of `SweepBlockers` over the blockers of one
--   item. Blockers/Due: the conditions for a sweep to clear a blocker, apart from the code.
--   Blockers/Search, Acyclic, Adding, Growth and Swept: the proofs.
-- - Domain/Types: commands and events. Domain/State: `applyStateSetCommand`. Domain/Slugs:
--   `uniqueCanonicalSlug`. Domain/Edit: `applyMetadataEdit` of internal/coordinator/edit_item.go.
--   Domain/Apply: `applyManifestCommand`. Domain/Commit: `commitManifestEvents` of
--   internal/coordinator/blockers.go, on the buckets that it writes. Domain/Execute:
--   `ExecuteManifestCommand`, which is `executeManifestCommand` without queue options.
--   Domain/Reads: reads of the database. Domain/Frame, Committed, Replay, Tidy, Invariants,
--   Sound, FreeSlugs, Transition, Limit and Reopened: their proofs.
-- - Lease/Table: `leaseTable` with `acquire`, `release` and `get`. Lease/Exclusive and
--   Lease/History: their proofs.
-- - Attention/Markers: `recordAttentionMarkerTx`, `mergeImportedAttentionTx` and `laterTime`.
--   Attention/Merge: their proofs.
-- - Queue/Priority: internal/priority/priority.go, with the stable sort of Go's sort package as
--   an insertion sort. Queue/Select: `SelectActionability` of internal/coordinator/domain.go, for
--   a queue as the ids of its candidates. Queue/Order: the proof about the ranking.
-- - Store/Words, Store/Bucket, Store/Types, Store/Commit and Store/Append: the numbers as bytes,
--   the ordered buckets, the records, and `Commit`, `appendDomainEventTx`, `EventExists`,
--   `ListItemEvents`, `ListProjection` and `ReadProjection` of internal/coordinator/database.go.
--   Store/Once, Store/Numbering, Store/Agreement and Store/Invariant: their proofs.
-- - Jobs/Types: the jobs of gen/wi/core/v1/jobs.pb.go. Jobs/Run: one job, with `change`,
--   `approve`, the goroutine of `startKey` and `AnswerApproval` of internal/daemonapi/jobs.go as
--   steps. Jobs/Registry: `jobRegistry`, its restart and its pruning. Jobs/Sound, Steps, Kept,
--   Single, Actions, Turns, Newest and Pruning: their proofs.
-- - Changes/Log: `changeLog` of internal/coordinator/changes.go and `eventItems`. Changes/Window,
--   Changes/Collect, Changes/Feed and Changes/Gap: their proofs.
-- - Content/Bytes, Content/Types and Content/Apply: the texts, the records and `ApplyContent` of
--   agentdriver/protocol/content.go. Content/Server: `publish` and the methods of
--   `ContentServer`. Content/Replace: `publishSnapshot`. Content/Streams: `subscribe`, `stream`,
--   `drop`, `Close` and `SubscribeContent`. Content/Calls: the calls in any order. Content/Cut,
--   Content/Bounds, Content/Following, Content/Readers, Content/Equality and Content/Whole: their
--   proofs.
-- - Runtime/Types: the vocabularies of agentdriver/protocol/runtime_status.go and runtime.go, and
--   the records of a runtime. Runtime/Activity: `applyRuntimeActivity` of
--   internal/coordinator/source_stream.go. Runtime/Observation and Runtime/Ingest:
--   `applyLiveRuntimeObservation` and `IngestRuntimeEvent` of
--   internal/coordinator/runtime_ingest.go. Runtime/Clock, Runtime/Fence, Runtime/Shown,
--   Runtime/Working and Runtime/Busy: their proofs.
-- - Tests: runs on small inputs, and each theorem at such inputs.
--
-- Go code that changes a struct through a pointer is a function that returns the new struct, with
-- `Result` for the error. A transaction that fails is rolled back, so a changed struct behind an
-- error is left out. A map is an association list, a time is its distance from a fixed instant in
-- nanoseconds, and an event is a constructor with the keys of its JSON payload.
--
-- Bounds and fuel: the loop that lengthens a prefix runs as many rounds as the id has bytes
-- behind its start, and then it is the whole id. The cycle search runs on fuel `search_fuel`, two
-- rounds more than there are blockers, which is enough since each round pops an entry and each
-- blocker is pushed once. The loop over numbered slugs has the 9999 rounds of the code.
-- Generations of claims and times of expiry are natural numbers. The sequence numbers of events
-- have 64 bits, and the theorem on the event log asks that they are not exhausted. A lease is
-- asked for at most 10 minutes, so that its time of expiry stays far inside the range of Go's
-- times.
--
-- Not modelled: the channels that wake readers of the change feed, the bbolt database, JSON,
-- sockets, processes, git and tmux, which are I/O or third-party code. The SHA-256 digests that
-- name blockers and events that of a manifest, the JSON coding of a command, and the random id of
-- a lease are arguments. Strings.to_lower lowers the letters A to Z and the two other runes whose
-- lower case is in ASCII, and leaves the rest, which no modelled test tells from its lower case;
-- the texts of errors are left out. The manifest's fields for the repository, the conversation
-- and the agent's settings are left out, since no modelled operation reads them. Of runtime
-- events, the texts that explain a status, the commit of the event to the database and the
-- request and command ids of its payload are left out; of the content server, its socket, its
-- deadlines and the coding of events. A stream that a reader joins has the snapshot at once, and
-- what was still queued for a reader that is dropped is left out. Of jobs, the context is a flag,
-- what saving a job and its run give are arguments, and a job asks for one approval at a time and
-- for none when its run has returned; the monitor of a setup is the step that sets a log, and
-- WatchJob is left out. Messages are equal when their fields are. Texts of the content server are
-- bytes, which are taken to be valid UTF-8 only where fields are joined.
pub mod Common
pub mod Strings
pub mod Model
pub mod Blockers
pub mod Domain
pub mod Lease
pub mod Changes
pub mod Content
pub mod Runtime
pub mod Store
pub mod Jobs
pub mod Queue
pub mod Tests
pub mod Attention
