-- ===== src/Store/Numbering.antt =====
-- The numbers and revisions of the events in the log, and what it means that the indices agree with
-- it.
use workitem.Common.{
  ℕ, ◌+◌, ◌^◌, ◌≤◌, ◌<◌, ◌≡◌, refl, sym, ap, ◌∙◌, String, false, some, List, [], ◌∷◌, ◌++◌, str_eq,
  length, lookup, if◌then◌else◌, Bool-cases, inl, inr, All, In, lt→ltb, arith,
}
use workitem.Strings.{is_empty}
use workitem.Content.Bytes.{Bytes}
use workitem.Store.Words.{bytes_before, encode_uint64, encode_uint64-before}
use workitem.Store.Bucket.{Bucket, IsBehind}
use workitem.Store.Types.{RecordedEvent, Buckets, number_at}
use workitem.Store.Commit.{events_of}

-- The entries are numbered one by one from the one behind `n` up to `last`, under their numbers.
abbrev pub Numbered : ℕ → Bucket RecordedEvent → ℕ → Type 0
Numbered n [] last = n ≡ last
Numbered n ((k, e) ∷ rest) last =
    (k ≡ encode_uint64 (n + 1)) × (e.sequence ≡ n + 1) × Numbered (n + 1) rest last

-- The events of an item carry its revisions one by one, from the one behind `r` up to `last`.
abbrev pub Revised : ℕ → List RecordedEvent → ℕ → Type 0
Revised r [] last = r ≡ last
Revised r (e ∷ es) last = (e.item_revision ≡ r + 1) × Revised (r + 1) es last

-- The index of ids finds the event of an entry.
abbrev pub IsIndexed : Buckets → Bytes × RecordedEvent → Type 0
IsIndexed b (k, e) = lookup b.event_ids e.id ≡ some k

-- The event that an id stands for in the log.
abbrev pub Logged : Buckets → String → Bytes → Type 0
Logged b id k = (e : RecordedEvent) × (e.id ≡ id) × In (k, e) b.events

-- The buckets agree when the last event has the number `last`.
pub record Consistent (last : ℕ) (b : Buckets) : Type 0 where
  pub numbered : Numbered 0 b.events last
  pub indexed : All (IsIndexed b) b.events
  pub logged : (id : String) (k : Bytes) → lookup b.event_ids id ≡ some k → Logged b id k
  pub revised :
      (item : String)
      → is_empty item ≡ false
      → Revised 0 (events_of item b.events) (number_at (lookup b.revisions item))

Numbered-le : (n : ℕ) (es : Bucket RecordedEvent) (last : ℕ) → Numbered n es last → n ≤ last
Numbered-le n [] last h = omega (arith, h)
Numbered-le n (e ∷ es) last h = omega (arith, Numbered-le (n + 1) es last h.2)

pub Numbered-IsBehind :
    (n : ℕ) (es : Bucket RecordedEvent) (last : ℕ)
    → Numbered n es last
    → last + 1 < 2 ^ 64
    → All (IsBehind (encode_uint64 (last + 1))) es
Numbered-IsBehind n [] last h small = tt
Numbered-IsBehind n ((k, e) ∷ es) last h small =
    let below = Numbered-le (n + 1) es last h.2 in
    (
      (
        ap (bytes_before (encode_uint64 (last + 1))) h.0
            ∙ encode_uint64-before (last + 1) (n + 1) small (omega (arith, below, small))
            ∙ ground arith,
        ap (λ k. bytes_before k (encode_uint64 (last + 1))) h.0
            ∙ encode_uint64-before (n + 1) (last + 1) (omega (arith, below, small)) small
            ∙ lt→ltb (n + 1) (last + 1) (omega (arith, below)),
      ),
      Numbered-IsBehind (n + 1) es last h.2 small,
    )

pub Numbered-append :
    (n : ℕ) (es : Bucket RecordedEvent) (last : ℕ) (e : RecordedEvent)
    → Numbered n es last
    → e.sequence ≡ last + 1
    → Numbered n (es ++ (encode_uint64 (last + 1), e) ∷ []) (last + 1)
Numbered-append n [] last e h same =
    (ap (λ m. encode_uint64 (m + 1)) (sym h), same ∙ ap (λ m. m + 1) (sym h), omega (arith, h))
Numbered-append n (x ∷ es) last e h same = (h.0, h.1, Numbered-append (n + 1) es last e h.2 same)

pub Revised-append :
    (r : ℕ) (es : List RecordedEvent) (last : ℕ) (e : RecordedEvent)
    → Revised r es last
    → e.item_revision ≡ last + 1
    → Revised r (es ++ e ∷ []) (last + 1)
Revised-append r [] last e h same = (same ∙ ap (λ m. m + 1) (sym h), omega (arith, h))
Revised-append r (x ∷ es) last e h same = (h.0, Revised-append (r + 1) es last e h.1 same)

pub Revised-length :
    (r : ℕ) (es : List RecordedEvent) (last : ℕ) → Revised r es last → last ≡ r + length es
Revised-length r [] last h = omega (arith, h)
Revised-length r (e ∷ es) last h = omega (arith, Revised-length (r + 1) es last h.1)

pub Numbered-length :
    (n : ℕ) (es : Bucket RecordedEvent) (last : ℕ) → Numbered n es last → last ≡ n + length es
Numbered-length n [] last h = omega (arith, h)
Numbered-length n (e ∷ es) last h = omega (arith, Numbered-length (n + 1) es last h.2)

pub length-events_of :
    (item : String) (es : Bucket RecordedEvent) → length (events_of item es) ≤ length es
unfolding events_of
length-events_of item [] = omega arith
length-events_of item (e ∷ es) = ground (arith, length-events_of item es)

pub events_of-append :
    (item : String) (es : Bucket RecordedEvent) (k : Bytes) (e : RecordedEvent)
    → events_of item (es ++ (k, e) ∷ [])
      ≡ (if str_eq e.item_id item then events_of item es ++ e ∷ [] else events_of item es)
unfolding events_of
events_of-append item [] k e = refl
events_of-append item (x ∷ es) k e = elim (Bool-cases (str_eq e.item_id item)) [
  | inl f ↦ elim (Bool-cases (str_eq x.1.item_id item)) [
    | inl g ↦ rw (f, g) (ap (λ l. x.1 ∷ l) (events_of-append item es k e ∙ rw f refl))
    | inr g ↦ rw (f, g) (events_of-append item es k e ∙ rw f refl)
  ]
  | inr f ↦ elim (Bool-cases (str_eq x.1.item_id item)) [
    | inl g ↦ rw (f, g) (ap (λ l. x.1 ∷ l) (events_of-append item es k e ∙ rw f refl))
    | inr g ↦ rw (f, g) (events_of-append item es k e ∙ rw f refl)
  ]
]
