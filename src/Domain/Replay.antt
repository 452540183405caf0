-- ===== src/Domain/Replay.antt =====
-- A command that is sent again is not executed again.
use workitem.Common.{
  ℕ, ◌≡◌, ◌∙◌, refl, sym, ap, String, false, not, Option, none, some, lookup, values, str_eq_refl,
  lookup-put_self, ◌==◌,
}
use workitem.Model.Error.{
  Error, Result, ok, Ensures, Ensures-ok, Ensures-bind, Ensures-refuse, ok-of_bind,
}
use workitem.Model.Blocker.{Time}
use workitem.Model.Manifest.{Manifest}
use workitem.Domain.Types.{ManifestCommand}
use workitem.Domain.Apply.{apply_manifest_command}
use workitem.Domain.Commit.{revision_of}
use workitem.Domain.Execute.{
  CommandResult, CommandOutcome, Store, marked, same_command, execute_on, expected_matches,
  checked_command, replay, commit_if, execute_new, execute_in, execute_manifest_command,
}

-- The clock does not matter where the command has a time.
checked_command_fixed :
    (c : ManifestCommand) (now now' : Time)
    → (c.created_at == 0) ≡ false
    → checked_command c now ≡ checked_command c now'
unfolding checked_command
checked_command_fixed c now now' dated = rw dated refl

module _ (encode : ManifestCommand → String) (blocker_id event_id : String → ℕ → String)
    (source : Manifest → String) where
  abbrev execute : Store → ManifestCommand → Result (Store × CommandResult)
  execute s c = execute_in encode blocker_id event_id source s c

  -- The store behind a first run answers a second one.
  abbrev Answers : ManifestCommand → Store × CommandResult → Type 0
  Answers c (s, r) = execute s c ≡ ok (s, marked r)

  execute_in_stored :
      (s : Store) (c : ManifestCommand) (outcome : CommandOutcome) (r : CommandResult)
      → lookup s.outcomes c.id ≡ some outcome
      → replay encode blocker_id event_id source outcome c ≡ ok r
      → execute s c ≡ ok (s, r)
  unfolding execute_in
  execute_in_stored s c outcome r stored again = rw (stored, execute_in) (rw again refl)

  replay_own :
      (c : ManifestCommand) (r : CommandResult)
      → replay encode blocker_id event_id source
          (record { command = c; result = r; queued = false })
          c
        ≡ ok (marked r)
  unfolding replay
  replay_own c r = rw (str_eq_refl (encode c)) refl

  execute_new-Answers :
      (s : Store) (c : ManifestCommand) (m : Manifest)
      → Ensures (Answers c) (execute_new encode blocker_id event_id source s c m)
  unfolding execute_new
  execute_new-Answers s c m =
      let revision = revision_of (lookup s.database.revisions c.item_id) in
      Ensures-refuse (Answers c) (not (expected_matches c.expected_revision revision))
        Error.revision_conflict _
        λ _.
          Ensures-bind (Answers c)
            (apply_manifest_command blocker_id c m (values s.database.manifests)) _
            λ o _.
              Ensures-bind (Answers c)
                (commit_if encode blocker_id event_id source s.database c revision o) _
                λ w _.
                  execute_in_stored _ c _ _ (lookup-put_self s.outcomes c.id _) (replay_own c _)

  replay-marked :
      (outcome : CommandOutcome) (c : ManifestCommand)
      → Ensures (λ r. r ≡ marked r) (replay encode blocker_id event_id source outcome c)
  unfolding replay
  replay-marked outcome c =
      Ensures-refuse (λ r. r ≡ marked r)
        (not (same_command encode blocker_id event_id source outcome.command c))
        Error.different_input _
        λ _. Ensures-refuse (λ r. r ≡ marked r) outcome.queued Error.already_queued _ λ _. refl

  execute_on-Answers :
      (s : Store) (c : ManifestCommand) (stored : Option CommandOutcome) (item : Option Manifest)
      → lookup s.outcomes c.id ≡ stored
      → Ensures (Answers c) (execute_on encode blocker_id event_id source s c stored item)
  unfolding execute_on
  execute_on-Answers s c (some outcome) item stored =
      Ensures-bind (Answers c) (replay encode blocker_id event_id source outcome c) _ λ r run.
        execute_in_stored s c outcome (marked r) stored
          (run ∙ ap ok (Ensures-ok (λ r. r ≡ marked r) run (replay-marked outcome c)))
  execute_on-Answers s c none none stored = tt
  execute_on-Answers s c none (some m) stored = execute_new-Answers s c m

  -- A command with a time that succeeded and is sent again, at any time, succeeds again: the store
  -- is left alone, and the result is the first one, marked as a duplicate.
  pub execute_manifest_command_again :
      (s s' : Store) (c : ManifestCommand) (now now' : Time) (r : CommandResult)
      → (c.created_at == 0) ≡ false
      → execute_manifest_command encode blocker_id event_id source s c now ≡ ok (s', r)
      → execute_manifest_command encode blocker_id event_id source s' c now' ≡ ok (s', marked r)
  unfolding execute_manifest_command execute_in
  execute_manifest_command_again s s' c now now' r dated run =
      let (checked, check, first) = ok-of_bind (checked_command c now) _ run in
      let again = sym (checked_command_fixed c now now' dated) ∙ check in
      let answer = Ensures-ok (Answers checked) first (
        execute_on-Answers s checked (lookup s.outcomes checked.id)
          (lookup s.database.manifests checked.item_id) refl) in
      rw again answer
