-- ===== src/Domain/Committed.antt =====
-- What a commit of events writes.
use workitem.Common.{
  ℕ, ◌+◌, ◌≡◌, refl, sym, ap, ◌∙◌, String, false, some, List, [], ◌∷◌, ◌++◌, lookup, contains,
  lookup-put_self,
}
use workitem.Model.Error.{Error, ok, Ensures, Ensures-ok, Ensures-bind, Ensures-refuse}
use workitem.Model.Blocker.{Time}
use workitem.Model.Manifest.{Manifest}
use workitem.Domain.Types.{CommandEvent}
use workitem.Domain.Commit.{
  DomainEvent, Database, Cause, revision_of, next, make_events, advance, ids_of, record_reads,
  commit_manifest_events,
}

-- The number and the revision of the last event, or those before it where there is none.
abbrev pub sequence_behind : ℕ → List DomainEvent → ℕ
sequence_behind n [] = n
sequence_behind n (e ∷ es) = sequence_behind e.sequence es

abbrev pub revision_behind : ℕ → List DomainEvent → ℕ
revision_behind r [] = r
revision_behind r (e ∷ es) = revision_behind e.item_revision es

-- The events follow one on another from a sequence number and a revision, they carry the pending
-- events, and their ids are new, also among each other.
abbrev pub Follows : ℕ → ℕ → List String → List CommandEvent → List DomainEvent → Type 0
Follows sequence revision taken [] [] = Unit
Follows sequence revision taken (p ∷ ps) (e ∷ es) =
    (e.event ≡ p)
    × (e.sequence ≡ next sequence)
    × (e.item_revision ≡ next revision)
    × (contains taken e.id ≡ false)
    × Follows (next sequence) (next revision) (e.id ∷ taken) ps es
Follows sequence revision taken _ _ = ⊥

make_events-Follows :
    (digest : String → ℕ → String) (c : Cause) (taken : List String) (index sequence revision : ℕ)
    (pending : List CommandEvent)
    → Ensures
        (Follows sequence revision taken pending)
        (make_events digest c taken index sequence revision pending)
unfolding make_events
make_events-Follows digest c taken index sequence revision [] = tt
make_events-Follows digest c taken index sequence revision (p ∷ ps) =
    let Rest = Follows sequence revision taken (p ∷ ps) in
    let id = digest c.causation_id index in
    Ensures-refuse Rest (contains taken id) Error.duplicate_event_id _ λ fresh.
      Ensures-bind Rest
        (make_events digest c (id ∷ taken) (index + 1) (next sequence) (next revision) ps) _
        λ es run. (
          refl,
          refl,
          refl,
          fresh,
          Ensures-ok (Follows (next sequence) (next revision) (id ∷ taken) ps) run (
              make_events-Follows digest c (id ∷ taken) (index + 1) (next sequence) (next revision)
                ps),
        )

-- The counters of the loop are those of the last event.
Follows-advance :
    (sequence revision : ℕ) (taken : List String) (pending : List CommandEvent)
    (events : List DomainEvent)
    → Follows sequence revision taken pending events
    → (advance sequence pending ≡ sequence_behind sequence events)
      × (advance revision pending ≡ revision_behind revision events)
unfolding advance
Follows-advance sequence revision taken [] [] h = (refl, refl)
Follows-advance sequence revision taken [] (e ∷ es) h = absurd h
Follows-advance sequence revision taken (p ∷ ps) [] h = absurd h
Follows-advance sequence revision taken (p ∷ ps) (e ∷ es) h =
    let rest = Follows-advance (next sequence) (next revision) (e.id ∷ taken) ps es h.4 in
    (
      rest.0 ∙ ap (λ n. sequence_behind n es) (sym h.1),
      rest.1 ∙ ap (λ r. revision_behind r es) (sym h.2),
    )

module _ (digest : String → ℕ → String) (source : Manifest → String) (db : Database) (m : Manifest)
    (causation_id actor : String) (at : Time) (pending : List CommandEvent) where
  abbrev Committed : Database × List DomainEvent × ℕ → Type 0
  Committed (db', committed, revision) =
      Follows db.global_sequence (revision_of (lookup db.revisions m.id)) db.event_ids pending
        committed
      × (db'.events ≡ db.events ++ committed)
      × (db'.event_ids ≡ ids_of committed ++ db.event_ids)
      × (db'.global_sequence ≡ sequence_behind db.global_sequence committed)
      × (revision ≡ revision_behind (revision_of (lookup db.revisions m.id)) committed)
      × (lookup db'.revisions m.id ≡ some revision)
      × (lookup db'.manifests m.id ≡ some m)

  commit_manifest_events-Committed :
      Ensures Committed (commit_manifest_events digest source db m causation_id actor at pending)
  unfolding commit_manifest_events
  commit_manifest_events-Committed =
      let revision = revision_of (lookup db.revisions m.id) in
      let c : Cause = record {
        item_id = m.id;
        causation_id = causation_id;
        actor = actor;
        created_at = at;
      } in
      Ensures-bind Committed
        (make_events digest c db.event_ids 0 db.global_sequence revision pending) _
        λ es run. Ensures-bind Committed (record_reads db.attention m.id es) _ λ _ _.
          let follows =
            Ensures-ok (Follows db.global_sequence revision db.event_ids pending) run
              (make_events-Follows digest c db.event_ids 0 db.global_sequence revision pending) in
          let counters =
            Follows-advance db.global_sequence revision db.event_ids pending es follows in
          (
            follows,
            refl,
            refl,
            counters.0,
            counters.1,
            lookup-put_self db.revisions m.id (advance revision pending),
            lookup-put_self db.manifests m.id m,
          )

  -- A successful commit appends one event for each pending one, in order. Their sequence numbers
  -- and revisions follow on from those of the database, each on the one before, and their ids are
  -- new, also among each other. The ids are then taken, the sequence number that is kept is that
  -- of the last event, the revision that is returned and kept for the item is that of the last
  -- event, and the manifest is stored.
  pub commit_manifest_events-Follows :
      (db' : Database) (committed : List DomainEvent) (revision : ℕ)
      → commit_manifest_events digest source db m causation_id actor at pending
        ≡ ok (db', committed, revision)
      → Follows db.global_sequence
          (revision_of (lookup db.revisions m.id))
          db.event_ids
          pending
          committed
        × (db'.events ≡ db.events ++ committed)
        × (db'.event_ids ≡ ids_of committed ++ db.event_ids)
        × (db'.global_sequence ≡ sequence_behind db.global_sequence committed)
        × (revision ≡ revision_behind (revision_of (lookup db.revisions m.id)) committed)
        × (lookup db'.revisions m.id ≡ some revision)
        × (lookup db'.manifests m.id ≡ some m)
  commit_manifest_events-Follows db' committed revision run =
      Ensures-ok Committed run commit_manifest_events-Committed
