-- ===== src/Store/Once.antt =====
-- A command takes effect once: its outcome is kept over every history of commits.
use workitem.Common.{
  ℕ, ◌==◌, ◌≡◌, refl, sym, ap, ◌∙◌, String, Bool, false, ◌||◌, Option, none, some, List, [], ◌∷◌,
  not, str_eq, lookup, put, lookup-put_self, lookup-put_ne, ne→str_eq, Option-cases, Bool-cases,
  inl, inr,
}
use workitem.Strings.{is_empty}
use workitem.Content.Equality.{or_parts}
use workitem.Model.Error.{
  Error, Result, fail, ok, Ensures, Ensures-ok, Ensures-bind, Ensures-refuse, Ensures-map,
}
use workitem.Model.Blocker.{Time}
use workitem.Store.Types.{
  Command, PendingEvent, RecordedEvent, ProjectionWrite, CommitResult, Buckets, EventStore,
  Transaction, number_at,
}
use workitem.Store.Append.{
  append_domain_event, append_outcome, numbered_event, last_sequence, Call, Write, perform, write,
  history,
}
use workitem.Store.Commit.{
  as_duplicate, with_event, next_event, exists, commit_event, commit_events, update_projections,
  is_conflict, begin_transaction, final_result, commit_new, commit_outcome, commit_known, commit,
}

module _ (encodable : RecordedEvent → Bool) where
  abbrev SameCommands : Transaction → Transaction → Type 0
  SameCommands t t' =
      (t'.buckets.commands ≡ t.buckets.commands) × (t'.result.duplicate ≡ t.result.duplicate)

  commit_event-SameCommands :
      (c : Command) (t : Transaction) (p : PendingEvent)
      → Ensures (SameCommands t) (commit_event encodable c t p)
  unfolding commit_event with_event
  commit_event-SameCommands c t p =
      let Same = SameCommands t in
      Ensures-refuse Same (is_empty p.id || is_empty p.type) _ _ λ _.
        Ensures-refuse Same (exists (lookup t.buckets.event_ids p.id)) _ _
          λ _. Ensures-refuse Same (not (encodable (next_event c t p))) _ _ λ _. (refl, refl)

  commit_events-SameCommands :
      (c : Command) (t : Transaction) (ps : List PendingEvent)
      → Ensures (SameCommands t) (commit_events encodable c t ps)
  unfolding commit_events
  commit_events-SameCommands c t [] = (refl, refl)
  commit_events-SameCommands c t (p ∷ ps) =
      Ensures-bind (SameCommands t) (commit_event encodable c t p) _ λ t' run.
        let one = Ensures-ok (SameCommands t) run (commit_event-SameCommands c t p) in
        Ensures-map (SameCommands t') (SameCommands t) (commit_events encodable c t' ps)
          (λ u h. (h.0 ∙ one.0, h.1 ∙ one.1)) (commit_events-SameCommands c t' ps)

  -- A transaction records its result under the command.
  abbrev Recorded : Buckets → Command → Buckets × CommitResult → Type 0
  Recorded b c (b', r) = (b'.commands ≡ put b.commands c.id r) × (r.duplicate ≡ false)

  commit_new-Recorded :
      (now : Time) (b : Buckets) (c : Command) (pending : List PendingEvent)
      (updates : List ProjectionWrite)
      → Ensures (Recorded b c) (commit_new encodable now b c pending updates)
  unfolding commit_new
  commit_new-Recorded now b c pending updates =
      Ensures-refuse (Recorded b c)
        (is_conflict c.expected_revision (number_at (lookup b.revisions c.item_id))) _ _
        λ _.
          Ensures-bind (Recorded b c)
            (commit_events encodable c (begin_transaction c now b) pending) _
            λ t run.
              let same =
                Ensures-ok (SameCommands (begin_transaction c now b)) run
                  (commit_events-SameCommands c (begin_transaction c now b) pending) in
              Ensures-bind (Recorded b c) (update_projections t.buckets.projections updates) _
                λ ps _. (ap (λ m. put m c.id (final_result t)) same.0, same.1)

  -- What is recorded for an id, up to the mark of a duplicate.
  abbrev IsOutcome : EventStore → String → CommitResult → Type 0
  IsOutcome s id r =
      (prior : CommitResult) × (lookup s.buckets.commands id ≡ some prior)
      × (as_duplicate prior ≡ as_duplicate r)

  commit_outcome-IsOutcome :
      (s s' : EventStore) (c : Command) (updates : List ProjectionWrite)
      (o : Result (Buckets × CommitResult)) (r : CommitResult)
      → Ensures (Recorded s.buckets c) o
      → commit_outcome s c updates o ≡ (s', ok r)
      → IsOutcome s' c.id r
  unfolding commit_outcome
  commit_outcome-IsOutcome s s' c updates (fail e) r h run = cc
  commit_outcome-IsOutcome s s' c updates (ok (b, r')) r h run =
      let same : r' ≡ r = cc in
      (
        r',
        ap (λ (t : EventStore × Result CommitResult). lookup t.0.buckets.commands c.id) (sym run)
            ∙ ap (λ m. lookup m c.id) h.0
            ∙ lookup-put_self s.buckets.commands c.id r',
        ap as_duplicate same,
      )

  commit_known-IsOutcome :
      (now : Time) (s s' : EventStore) (c : Command) (pending : List PendingEvent)
      (updates : List ProjectionWrite) (known : Option CommitResult) (r : CommitResult)
      → lookup s.buckets.commands c.id ≡ known
      → commit_known encodable now s c pending updates known ≡ (s', ok r)
      → IsOutcome s' c.id r
  unfolding commit_known
  commit_known-IsOutcome now s s' c pending updates none r found run =
      commit_outcome-IsOutcome s s' c updates _ r
        (commit_new-Recorded now s.buckets c pending updates) run
  commit_known-IsOutcome now s s' c pending updates (some prior) r found run =
      let same : as_duplicate prior ≡ r = cc in
      (
        prior,
        ap (λ (t : EventStore × Result CommitResult). lookup t.0.buckets.commands c.id) (sym run)
            ∙ found,
        ap as_duplicate same,
      )

  fail-ok :
      (s s' : EventStore) (e : Error) (r : CommitResult) (o : EventStore × Result CommitResult)
      → o ≡ (s, fail e)
      → o ≡ (s', ok r)
      → ⊥
  fail-ok s s' e r o failed done = cc

  commit-IsOutcome :
      (s s' : EventStore) (call : Call) (r : CommitResult)
      → perform encodable s call ≡ (s', ok r)
      → (is_empty call.command.id ≡ false) × IsOutcome s' call.command.id r
  unfolding commit
  commit-IsOutcome s s' call r run =
      let c = call.command in
      elim (Bool-cases (is_empty c.id || is_empty c.type)) [
        | inl bad ↦ absurd (fail-ok s s' Error.command_fields_required r _ (rw bad refl) run)
        | inr good ↦ (
          (or_parts (is_empty c.id) (is_empty c.type) good).0,
          commit_known-IsOutcome call.now s s' c call.pending call.updates
              (lookup s.buckets.commands c.id) r refl (rw good at run),
        )
      ]

  -- No commit overwrites what is recorded.
  commit_outcome-keeps :
      (s : EventStore) (c : Command) (updates : List ProjectionWrite)
      (o : Result (Buckets × CommitResult)) (id : String) (r : CommitResult)
      → Ensures (Recorded s.buckets c) o
      → lookup s.buckets.commands c.id ≡ none
      → lookup s.buckets.commands id ≡ some r
      → lookup (commit_outcome s c updates o).0.buckets.commands id ≡ some r
  unfolding commit_outcome
  commit_outcome-keeps s c updates (fail e) id r h new found = found
  commit_outcome-keeps s c updates (ok (b, r')) id r h new found =
      let taken : c.id ≡ id → none ≡ some r =
        λ p. sym new ∙ ap (lookup s.buckets.commands) p ∙ found in
      let other : str_eq c.id id ≡ false = ne→str_eq c.id id (λ p. let e = taken p in cc) in
      ap (λ m. lookup m id) h.0 ∙ lookup-put_ne s.buckets.commands c.id id r' other ∙ found

  commit-keeps :
      (s : EventStore) (call : Call) (id : String) (r : CommitResult)
      → lookup s.buckets.commands id ≡ some r
      → lookup (perform encodable s call).0.buckets.commands id ≡ some r
  unfolding commit commit_known
  commit-keeps s call id r found =
      let c = call.command in
      elim (Bool-cases (is_empty c.id || is_empty c.type)) [
        | inl bad ↦ rw bad found
        | inr good ↦ elim (Option-cases (lookup s.buckets.commands c.id)) [
          | inl new ↦
              rw (good, new)
                (commit_outcome-keeps s c call.updates _ id r
                  (commit_new-Recorded call.now s.buckets c call.pending call.updates) new found)
          | inr old ↦ rw (good, old.1) found
        ]
      ]

  -- An event that is appended leaves the commands as they are.
  append-keeps :
      (s : EventStore) (e : RecordedEvent)
      → (append_outcome s (append_domain_event encodable s.buckets e)).buckets.commands
        ≡ s.buckets.commands
  unfolding append_domain_event
  append-keeps s e = append_outcome-keeps (append_domain_event encodable s.buckets e) (
      Ensures-refuse Same (number_at s.buckets.global_sequence == last_sequence) _ _ λ _.
        Ensures-refuse Same (exists (lookup s.buckets.event_ids e.id)) _ _
          λ _. Ensures-refuse Same (not (encodable (numbered_event s.buckets e))) _ _ λ _. refl)
    where
      Same : Buckets × ℕ → Type 0
      Same o = o.0.commands ≡ s.buckets.commands

      append_outcome-keeps :
          (o : Result (Buckets × ℕ))
          → Ensures Same o
          → (append_outcome s o).buckets.commands ≡ s.buckets.commands
      append_outcome-keeps (fail e) h = refl
      append_outcome-keeps (ok o) h = h

  write-keeps :
      (s : EventStore) (w : Write) (id : String) (r : CommitResult)
      → lookup s.buckets.commands id ≡ some r
      → lookup (write encodable s w).buckets.commands id ≡ some r
  unfolding write
  write-keeps s (Write.commit_call call) id r found = commit-keeps s call id r found
  write-keeps s (Write.append_call e) id r found = ap (λ m. lookup m id) (append-keeps s e) ∙ found

  history-keeps :
      (s : EventStore) (ws : List Write) (id : String) (r : CommitResult)
      → lookup s.buckets.commands id ≡ some r
      → lookup (history encodable s ws).buckets.commands id ≡ some r
  unfolding history
  history-keeps s [] id r found = found
  history-keeps s (w ∷ ws) id r found =
      history-keeps (write encodable s w) ws id r (write-keeps s w id r found)

  commit-answers :
      (s : EventStore) (call : Call) (r : CommitResult)
      → is_empty call.command.id ≡ false
      → is_empty call.command.type ≡ false
      → lookup s.buckets.commands call.command.id ≡ some r
      → perform encodable s call ≡ (s, ok (as_duplicate r))
  unfolding commit commit_known
  commit-answers s call r id type found = rw (id, type, found) refl

  -- A command that has been committed is answered with the same outcome, marked as a duplicate,
  -- whenever its id is sent again with a type that is not empty, whatever was committed or
  -- appended in between and whatever else the call holds. The database and the change log stay as
  -- they are.
  pub commit_once :
      (s s' : EventStore) (call : Call) (r : CommitResult) (between : List Write) (again : Call)
      → perform encodable s call ≡ (s', ok r)
      → again.command.id ≡ call.command.id
      → is_empty again.command.type ≡ false
      → perform encodable (history encodable s' between) again
        ≡ (history encodable s' between, ok (as_duplicate r))
  commit_once s s' call r between again run same type =
      let (named, outcome_kept) = commit-IsOutcome s s' call r run in
      let (prior, found, outcome) = outcome_kept in
      commit-answers (history encodable s' between) again prior (ap is_empty same ∙ named) type (
        ap (lookup (history encodable s' between).buckets.commands) same
        ∙ history-keeps s' between call.command.id prior found)
      ∙ ap (λ (o : CommitResult). (history encodable s' between, ok o)) outcome
