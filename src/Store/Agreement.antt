-- ===== src/Store/Agreement.antt =====
-- A pending event that is recorded leaves the log and its indices in agreement.
use workitem.Common.{
  ℕ, ◌+◌, ◌^◌, ◌<◌, ◌≡◌, refl, sym, ap, ◌∙◌, subst, String, Bool, false, not, ◌||◌, Option, none,
  some, List, [], ◌∷◌, ◌++◌, str_eq, length, lookup, put, lookup-put_self, lookup-put_ne, ne→str_eq,
  str_eq-cases, Bool-cases, inl, inr, All, In, In-append_left, In-append_right, arith,
}
use workitem.Strings.{is_empty}
use workitem.Content.Bytes.{Bytes}
use workitem.Model.Error.{Ensures, Ensures-ok, Ensures-bind, Ensures-refuse}
use workitem.Domain.Commit.{next}
use workitem.Store.Words.{encode_uint64, decode-encode_uint64}
use workitem.Store.Bucket.{put_key, put_key-append}
use workitem.Store.Types.{Command, PendingEvent, RecordedEvent, Buckets, Transaction, number_at}
use workitem.Store.Commit.{
  with_event, next_event, exists, commit_event, commit_events, events_of, revision_after,
  revisions_after,
}
use workitem.Store.Numbering.{
  Numbered, Revised, IsIndexed, Logged, Consistent, Numbered-IsBehind, Numbered-append,
  Revised-append, Revised-length, Numbered-length, length-events_of, events_of-append,
}

All-append {ℓ} :
    {A : Type ℓ} (P Q : A → Type 0) (xs : List A) (y : A)
    → ((x : A) → P x → Q x)
    → All P xs
    → Q y
    → All Q (xs ++ y ∷ [])
All-append P Q [] y f h q = (q, tt)
All-append P Q (x ∷ xs) y f h q = (f x h.0, All-append P Q xs y f h.1 q)

pub exists-none {ℓ} : {A : Type ℓ} (o : Option A) → exists o ≡ false → o ≡ none
exists-none none h = refl
exists-none (some a) h = cc

-- The buckets with one more event.
abbrev pub with_entry : Buckets → RecordedEvent → Buckets
with_entry b e = record b {
  revisions = revisions_after b e.item_id;
  events = put_key b.events (encode_uint64 e.sequence) e;
  event_ids = put b.event_ids e.id (encode_uint64 e.sequence);
}

module _ (last : ℕ) (b : Buckets) (h : Consistent last b) (small : last + 1 < 2 ^ 64)
    (e : RecordedEvent) (follows : e.sequence ≡ last + 1) where
  entry : Bytes × RecordedEvent
  entry = (encode_uint64 (last + 1), e)

  with_entry-events : (with_entry b e).events ≡ b.events ++ (encode_uint64 (last + 1), e) ∷ []
  with_entry-events =
      ap (λ n. put_key b.events (encode_uint64 n) e) follows
      ∙ put_key-append b.events (encode_uint64 (last + 1)) e
          (Numbered-IsBehind 0 b.events last h.numbered small)

  with_entry-Numbered : Numbered 0 (with_entry b e).events (last + 1)
  with_entry-Numbered =
      subst (λ es. Numbered 0 es (last + 1)) (sym with_entry-events)
        (Numbered-append 0 b.events last e h.numbered follows)

  with_entry-Logged :
      (id : String) (k : Bytes)
      → lookup (with_entry b e).event_ids id ≡ some k
      → Logged (with_entry b e) id k
  with_entry-Logged id k found = elim (str_eq-cases e.id id) [
    | inl p ↦
        let key : encode_uint64 e.sequence ≡ k =
          let stored : some (encode_uint64 e.sequence) ≡ some k =
            sym (lookup-put_self b.event_ids e.id (encode_uint64 e.sequence))
            ∙ ap (lookup (put b.event_ids e.id (encode_uint64 e.sequence))) p.0
            ∙ found in
          cc in
        (
          e,
          p.0,
          subst (λ es. In (k, e) es) (sym with_entry-events)
              (In-append_right (k, e) b.events _
                (inl (ap (λ k. (k, e)) (sym key ∙ ap encode_uint64 follows)))),
        )
    | inr p ↦
        let old = h.logged id k (sym (lookup-put_ne b.event_ids e.id id _ p.1) ∙ found) in
        (
          old.0,
          old.1,
          subst (λ es. In (k, old.0) es) (sym with_entry-events)
              (In-append_left (k, old.0) b.events _ old.2),
        )
  ]

  revision_bound :
      (item : String) → is_empty item ≡ false → number_at (lookup b.revisions item) + 1 < 2 ^ 64
  revision_bound item named = omega (
    arith,
    small,
    Revised-length 0 (events_of item b.events) _ (h.revised item named),
    length-events_of item b.events,
    Numbered-length 0 b.events last h.numbered,
  )

  module _ (fresh : lookup b.event_ids e.id ≡ none) where
    with_entry-IsIndexed : All (IsIndexed (with_entry b e)) (with_entry b e).events
    with_entry-IsIndexed = subst (All (IsIndexed (with_entry b e))) (sym with_entry-events) (
        All-append (IsIndexed b) (IsIndexed (with_entry b e)) b.events _
          (λ x found.
            lookup-put_ne b.event_ids e.id x.1.id _ (
              ne→str_eq e.id x.1.id (λ p.
                let r : none ≡ some x.0 = sym fresh ∙ ap (lookup b.event_ids) p ∙ found in cc))
            ∙ found)
          h.indexed (lookup-put_self b.event_ids e.id _ ∙ ap (λ n. some (encode_uint64 n)) follows))

  module _ (moved : e.item_revision ≡ revision_after b e.item_id) where
    revisions_after_self :
        (item : String)
        → is_empty item ≡ false
        → number_at (lookup (revisions_after b item) item) ≡ number_at (lookup b.revisions item) + 1
    revisions_after_self item named = rw named (
        rw (lookup-put_self b.revisions item _)
          (decode-encode_uint64 _ (omega arith) ∙ omega (arith, revision_bound item named)))

    revisions_after_other :
        (item : String)
        → str_eq e.item_id item ≡ false
        → lookup (revisions_after b e.item_id) item ≡ lookup b.revisions item
    revisions_after_other item other = elim (Bool-cases (is_empty e.item_id)) [
      | inl none_named ↦ rw none_named refl
      | inr named ↦ rw named (lookup-put_ne b.revisions e.item_id item _ other)
    ]

    with_entry-Revised :
        (item : String)
        → is_empty item ≡ false
        → Revised 0
            (events_of item (with_entry b e).events)
            (number_at (lookup (revisions_after b e.item_id) item))
    with_entry-Revised item named =
        let revision : List RecordedEvent → Type 0 =
          λ es. Revised 0 es (number_at (lookup (revisions_after b e.item_id) item)) in
        subst (λ es. revision (events_of item es)) (sym with_entry-events)
          (subst revision (sym (events_of-append item b.events _ e))
            (elim (str_eq-cases e.item_id item) [
              | inl p ↦
                  let step : e.item_revision ≡ number_at (lookup b.revisions item) + 1 =
                    moved
                    ∙ ap (revision_after b) p.0
                    ∙ rw named (omega (arith, revision_bound item named)) in
                  rw p.1 (
                    subst (Revised 0 (events_of item b.events ++ e ∷ []))
                      (sym (
                        ap (λ i. number_at (lookup (revisions_after b i) item)) p.0
                        ∙ revisions_after_self item named))
                      (Revised-append 0 _ _ e (h.revised item named) step))
              | inr p ↦ rw p.1 (
                  subst (λ o. Revised 0 (events_of item b.events) (number_at o))
                    (sym (revisions_after_other item p.1)) (h.revised item named))
            ]))

    pub with_entry-Consistent :
        lookup b.event_ids e.id ≡ none → Consistent (last + 1) (with_entry b e)
    with_entry-Consistent fresh = record {
      numbered = with_entry-Numbered;
      indexed = with_entry-IsIndexed fresh;
      logged = with_entry-Logged;
      revised = with_entry-Revised;
    }

module _ (encodable : RecordedEvent → Bool) (c : Command) where
  -- The transaction agrees, with its counter at the last event.
  abbrev pub Agrees : ℕ → Transaction → Type 0
  Agrees last t = (t.sequence ≡ last) × Consistent last t.buckets

  commit_event-Agrees :
      (last : ℕ) (t : Transaction) (p : PendingEvent)
      → last + 1 < 2 ^ 64
      → Agrees last t
      → Ensures (Agrees (last + 1)) (commit_event encodable c t p)
  unfolding commit_event with_event
  commit_event-Agrees last t p small (at, h) =
      let Good = Agrees (last + 1) in
      Ensures-refuse Good (is_empty p.id || is_empty p.type) _ _ λ _.
        Ensures-refuse Good (exists (lookup t.buckets.event_ids p.id)) _ _ λ fresh.
          Ensures-refuse Good (not (encodable (next_event c t p))) _ _ λ _.
            let follows : next t.sequence ≡ last + 1 = omega (arith, at, small) in
            (
              follows,
              with_entry-Consistent last t.buckets h small (next_event c t p) follows refl
                  (exists-none _ fresh),
            )

  pub commit_events-Agrees :
      (last : ℕ) (t : Transaction) (ps : List PendingEvent)
      → last + length ps < 2 ^ 64
      → Agrees last t
      → Ensures (Agrees (last + length ps)) (commit_events encodable c t ps)
  unfolding commit_events
  commit_events-Agrees last t [] small h =
      (omega (arith, h.0), subst (λ n. Consistent n t.buckets) (omega arith) h.1)
  commit_events-Agrees last t (p ∷ ps) small h =
      let Good = Agrees (last + length (p ∷ ps)) in
      Ensures-bind Good (commit_event encodable c t p) _ λ t' run.
        let one =
          Ensures-ok (Agrees (last + 1)) run
            (commit_event-Agrees last t p (omega (arith, small)) h) in
        subst (λ n. Ensures (Agrees n) (commit_events encodable c t' ps)) (omega arith)
          (commit_events-Agrees (last + 1) t' ps (omega (arith, small)) one)
