-- ===== src/Store/Invariant.antt =====
-- The log of the events and its indices agree, over every history of commits.
use workitem.Common.{
  true, none, All, not, ◌==◌, ℕ, ◌+◌, ◌^◌, ◌≤◌, ◌<◌, ◌≡◌, refl, sym, ◌∙◌, subst, String, Bool, ◌||◌,
  List, [], ◌∷◌, length, lookup, Map, Option-cases, Bool-cases, inl, inr, arith,
}
use workitem.Strings.{is_empty}
use workitem.Model.Error.{Result, fail, ok, Ensures, Ensures-ok, Ensures-bind, Ensures-refuse}
use workitem.Model.Blocker.{Time}
use workitem.Store.Words.{decode-encode_uint64}
use workitem.Store.Types.{
  Command, PendingEvent, RecordedEvent, ProjectionWrite, CommitResult, Buckets, EventStore,
  Transaction, number_at,
}
use workitem.Store.Commit.{
  exists, events_of, revision_after, revisions_after, commit_events, update_projections,
  is_conflict, begin_transaction, closed_transaction, commit_new, commit_outcome, commit_known,
  commit,
}
use workitem.Store.Numbering.{Revised, Consistent}
use workitem.Content.Bytes.{Bytes}
use workitem.Store.Agreement.{
  exists-none, with_entry, with_entry-Consistent, Agrees, commit_events-Agrees,
}
use workitem.Store.Append.{
  append_domain_event, append_outcome, appended, numbered_event, last_sequence, Call, Write,
  perform, write, history,
}

abbrev pub counter : Buckets → ℕ
counter b = number_at b.global_sequence

abbrev pub IsConsistent : EventStore → Type 0
IsConsistent s = Consistent (counter s.buckets) s.buckets

-- How many events some writes ask for.
abbrev pub asked : List Write → ℕ
asked [] = 0
asked (Write.commit_call call ∷ ws) = length call.pending + asked ws
asked (Write.append_call e ∷ ws) = 1 + asked ws

-- An event that is appended is of no item.
abbrev pub IsItemless : RecordedEvent → Type 0
IsItemless e = (is_empty e.item_id ≡ true) × (e.item_revision ≡ 0)

abbrev pub AppendsItemless : Write → Type 0
AppendsItemless (Write.commit_call call) = Unit
AppendsItemless (Write.append_call e) = IsItemless e

closed_transaction-Consistent :
    (c : Command) (t : Transaction) (ps : Map (Map String)) (last : ℕ)
    → Consistent last t.buckets
    → Consistent last (closed_transaction c t ps)
closed_transaction-Consistent c t ps last h = record {
  numbered = h.numbered;
  indexed = h.indexed;
  logged = h.logged;
  revised = h.revised;
}

appended-Consistent :
    (last : ℕ) (b : Buckets) (e : RecordedEvent)
    → Consistent last b
    → last + 1 < 2 ^ 64
    → e.sequence ≡ last + 1
    → IsItemless e
    → lookup b.event_ids e.id ≡ none
    → Consistent (last + 1) (appended b e)
appended-Consistent last b e h small follows itemless fresh =
    let moved : e.item_revision ≡ revision_after b e.item_id = itemless.1 ∙ rw (itemless.0) refl in
    let same : revisions_after b e.item_id ≡ b.revisions = rw (itemless.0) refl in
    let entered = with_entry-Consistent last b h small e follows moved fresh in
    record {
      numbered = entered.numbered;
      indexed = entered.indexed;
      logged = entered.logged;
      revised = λ item named.
          subst
            (λ (m : Map Bytes).
              Revised 0 (events_of item (with_entry b e).events) (number_at (lookup m item)))
            same (entered.revised item named);
    }

module _ (encodable : RecordedEvent → Bool) where
  -- The buckets agree, and the counter has moved by no more than `n`.
  abbrev Moved : Buckets → ℕ → Buckets → Type 0
  Moved b n b' = Consistent (counter b') b' × (counter b' ≤ counter b + n)

  commit_new-Moved :
      (now : Time) (b : Buckets) (c : Command) (pending : List PendingEvent)
      (updates : List ProjectionWrite)
      → Consistent (counter b) b
      → counter b + length pending < 2 ^ 64
      → Ensures (λ o. Moved b (length pending) o.0) (commit_new encodable now b c pending updates)
  unfolding commit_new
  commit_new-Moved now b c pending updates h small =
      let Good : Buckets × CommitResult → Type 0 = λ o. Moved b (length pending) o.0 in
      let last = counter b + length pending in
      Ensures-refuse Good
        (is_conflict c.expected_revision (number_at (lookup b.revisions c.item_id))) _ _
        λ _.
          Ensures-bind Good (commit_events encodable c (begin_transaction c now b) pending) _
            λ t run.
              let agrees = Ensures-ok (Agrees encodable c last) run (
                commit_events-Agrees encodable c (counter b) (begin_transaction c now b) pending
                  small (refl, h)) in
              Ensures-bind Good (update_projections t.buckets.projections updates) _ λ ps _.
                let at : counter (closed_transaction c t ps) ≡ last =
                  decode-encode_uint64 t.sequence (omega (arith, agrees.0, small)) ∙ agrees.0 in
                (
                  subst (λ n. Consistent n (closed_transaction c t ps)) (sym at)
                      (closed_transaction-Consistent c t ps last agrees.1),
                  omega (arith, at),
                )

  commit_outcome-Moved :
      (s : EventStore) (c : Command) (updates : List ProjectionWrite) (n : ℕ)
      (o : Result (Buckets × CommitResult))
      → IsConsistent s
      → Ensures (λ o. Moved s.buckets n o.0) o
      → Moved s.buckets n (commit_outcome s c updates o).0.buckets
  unfolding commit_outcome
  commit_outcome-Moved s c updates n (fail e) h m = (h, omega arith)
  commit_outcome-Moved s c updates n (ok o) h m = m

  commit-Moved :
      (s : EventStore) (call : Call)
      → IsConsistent s
      → counter s.buckets + length call.pending < 2 ^ 64
      → Moved s.buckets (length call.pending) (perform encodable s call).0.buckets
  unfolding commit commit_known
  commit-Moved s call h small =
      let c = call.command in
      elim (Bool-cases (is_empty c.id || is_empty c.type)) [
        | inl bad ↦ rw bad (h, omega arith)
        | inr good ↦ elim (Option-cases (lookup s.buckets.commands c.id)) [
          | inl new ↦
              rw (good, new)
                (commit_outcome-Moved s c call.updates (length call.pending) _ h
                  (commit_new-Moved call.now s.buckets c call.pending call.updates h small))
          | inr old ↦ rw (good, old.1) (h, omega arith)
        ]
      ]

  append_domain_event-Moved :
      (b : Buckets) (e : RecordedEvent)
      → Consistent (counter b) b
      → counter b + 1 < 2 ^ 64
      → IsItemless e
      → Ensures (λ o. Moved b 1 o.0) (append_domain_event encodable b e)
  unfolding append_domain_event
  append_domain_event-Moved b e h small itemless =
      let Good : Buckets × ℕ → Type 0 = λ o. Moved b 1 o.0 in
      let e' = numbered_event b e in
      Ensures-refuse Good (counter b == last_sequence) _ _ λ _.
        Ensures-refuse Good (exists (lookup b.event_ids e.id)) _ _ λ fresh.
          Ensures-refuse Good (not (encodable e')) _ _ λ _.
            let follows : e'.sequence ≡ counter b + 1 = omega (arith, small) in
            let at : counter (appended b e') ≡ counter b + 1 =
              decode-encode_uint64 e'.sequence (omega (arith, follows, small)) ∙ follows in
            (
              subst (λ n. Consistent n (appended b e')) (sym at)
                  (appended-Consistent (counter b) b e' h small follows itemless
                    (exists-none (lookup b.event_ids e.id) fresh)),
              omega (arith, at),
            )

  append_outcome-Moved :
      (s : EventStore) (o : Result (Buckets × ℕ))
      → IsConsistent s
      → Ensures (λ o. Moved s.buckets 1 o.0) o
      → Moved s.buckets 1 (append_outcome s o).buckets
  append_outcome-Moved s (fail e) h m = (h, omega arith)
  append_outcome-Moved s (ok o) h m = m

  write-Moved :
      (s : EventStore) (w : Write)
      → AppendsItemless w
      → IsConsistent s
      → counter s.buckets + asked (w ∷ []) < 2 ^ 64
      → Moved s.buckets (asked (w ∷ [])) (write encodable s w).buckets
  unfolding write
  write-Moved s (Write.commit_call call) itemless h small =
      let moved = commit-Moved s call h (omega (arith, small)) in (moved.0, omega (arith, moved.1))
  write-Moved s (Write.append_call e) itemless h small =
      append_outcome-Moved s (append_domain_event encodable s.buckets e) h
        (append_domain_event-Moved s.buckets e h small itemless)

  asked-cons : (w : Write) (ws : List Write) → asked (w ∷ ws) ≡ asked (w ∷ []) + asked ws
  asked-cons (Write.commit_call call) ws = omega arith
  asked-cons (Write.append_call e) ws = omega arith

  -- Commits, and events of no item that are appended, keep the log and its indices in agreement,
  -- as long as the events they ask for do not exhaust the sequence numbers of 64 bits: the log
  -- holds exactly the events with the numbers from 1 to the counter, in order; each event is
  -- found under its id, and each id in the index is that of an event in the log, so no two events
  -- share an id; and the events of an item carry its revisions from 1 to the one that is kept for
  -- it, without a gap.
  pub history-IsConsistent :
      (s : EventStore) (ws : List Write)
      → All AppendsItemless ws
      → IsConsistent s
      → counter s.buckets + asked ws < 2 ^ 64
      → IsConsistent (history encodable s ws)
  unfolding history
  history-IsConsistent s [] itemless h small = h
  history-IsConsistent s (w ∷ ws) itemless h small =
      let split = asked-cons w ws in
      let one = write-Moved s w itemless.0 h (omega (arith, split, small)) in
      history-IsConsistent (write encodable s w) ws itemless.1 one.0
        (omega (arith, split, small, one.1))
