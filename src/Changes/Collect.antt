-- ===== src/Changes/Collect.antt =====
-- The loops of `since` and `eventItems`, which list each item once.
use mathlib.Core.List.{append_assoc, append-nil}
use workitem.Common.{
  ℕ, zero, suc, ◌+◌, ◌≤◌, ◌≡◌, ◌↔◌, ◌∙◌, refl, sym, ap, subst, String, false, Option, none, some,
  List, [], ◌∷◌, ◌++◌, drop, ltb, str_eq-cases, contains, contains→In, In→contains, In, In-append,
  In-append_left, In-append_right, if◌then◌else◌, inl, inr, Bool-cases, lt→ltb, arith,
}
use workitem.Strings.{is_empty}
use workitem.Changes.Log.{changed_since, all_items, event_items, event_items_from}
use workitem.Changes.Window.{history}

-- No element stands twice.
abbrev pub IsDistinct : List String → Type 0
IsDistinct [] = Unit
IsDistinct (x ∷ xs) = (¬ In x xs) × IsDistinct xs

snoc-IsDistinct :
    (xs : List String) (x : String) → IsDistinct xs → ¬ In x xs → IsDistinct (xs ++ x ∷ [])
snoc-IsDistinct [] x h n = (λ m. m, tt)
snoc-IsDistinct (y ∷ xs) x h n = (
  λ m. elim (In-append y xs (x ∷ []) m) [
    | inl l ↦ h.0 l
    | inr (inl e) ↦ n (inl (sym e))
    | inr (inr r) ↦ r
  ],
  snoc-IsDistinct xs x h.1 (λ m. n (inr m)),
)

abbrev pub SameItems : List String → List String → Type 0
SameItems xs ys = (id : String) → In id xs ↔ In id ys

-- The loop of `since` over the changes that the reader has not seen.
abbrev pub Collects : List String → List String → Option (List String) → Type 0
Collects items missed none = In all_items missed
Collects items missed (some found) =
    (¬ In all_items missed) × IsDistinct found × SameItems found (items ++ missed)

Collects-more :
    (items items' : List String) (x : String) (xs : List String) (o : Option (List String))
    → ¬ all_items ≡ x
    → SameItems (items' ++ xs) (items ++ x ∷ xs)
    → Collects items' xs o
    → Collects items (x ∷ xs) o
Collects-more items items' x xs none n same h = inr h
Collects-more items items' x xs (some found) n same h = (
  λ m. elim m [ inl e ↦ n e | inr r ↦ h.0 r ],
  h.1,
  λ id. (λ m. (same id).0 ((h.2 id).0 m), λ m. (h.2 id).1 ((same id).1 m)),
)

same-known :
    (items : List String) (x : String) (xs : List String)
    → In x items
    → SameItems (items ++ xs) (items ++ x ∷ xs)
same-known items x xs k id = (
  λ m. elim (In-append id items xs m) [
    | inl l ↦ In-append_left id items (x ∷ xs) l
    | inr r ↦ In-append_right id items (x ∷ xs) (inr r)
  ],
  λ m. elim (In-append id items (x ∷ xs) m) [
    | inl l ↦ In-append_left id items xs l
    | inr (inl e) ↦ In-append_left id items xs (subst (λ y. In y items) (sym e) k)
    | inr (inr r) ↦ In-append_right id items xs r
  ],
)

same-moved :
    (items : List String) (x : String) (xs : List String)
    → SameItems (items ++ x ∷ [] ++ xs) (items ++ x ∷ xs)
same-moved items x xs id =
    subst (λ l. In id (items ++ x ∷ [] ++ xs) ↔ In id l) (append_assoc items (x ∷ []) xs)
      (λ m. m, λ m. m)

pub unseen-Collects :
    (after r : ℕ) (xs items : List String)
    → after ≤ r
    → IsDistinct items
    → Collects items xs (changed_since after (history r xs) items)
unfolding changed_since history
unseen-Collects after r [] items le d =
    (λ m. m, d, λ id. subst (λ l. In id items ↔ In id l) (sym (append-nil items)) (λ m. m, λ m. m))
unseen-Collects after r (x ∷ xs) items le d =
    let new = lt→ltb after (r + 1) (omega arith) in
    elim (str_eq-cases x all_items) [
      | inl p ↦ rw (new, p.1) (inl (sym p.0))
      | inr p ↦ elim (Bool-cases (contains items x)) [
        | inl e ↦
            rw (new, p.1)
              (rw e (
                Collects-more items items x xs _ (λ q. p.0 (sym q))
                  (same-known items x xs (contains→In items x e))
                  (unseen-Collects after (r + 1) xs items (omega arith) d)))
        | inr e ↦
            rw (new, p.1)
              (rw e (
                Collects-more items (items ++ x ∷ []) x xs _ (λ q. p.0 (sym q))
                  (same-moved items x xs)
                  (unseen-Collects after (r + 1) xs (items ++ x ∷ []) (omega arith)
                    (snoc-IsDistinct items x d (λ m. cc (In→contains items x m, e))))))
      ]
    ]

-- The changes that the reader has seen are passed over.
pub changed_since-seen :
    (k after r : ℕ) (xs items : List String)
    → r + k ≤ after
    → changed_since after (history r xs) items
      ≡ changed_since after (history (r + k) (drop k xs)) items
unfolding changed_since history
changed_since-seen zero after r xs items le =
    ap (λ n. changed_since after (history n xs) items) (omega arith)
changed_since-seen (suc k) after r [] items le = refl
changed_since-seen (suc k) after r (x ∷ xs) items le =
    let old : ltb after (r + 1) ≡ false = ground arith in
    let e : r + 1 + k ≡ r + suc k = omega arith in
    rw old (
      changed_since-seen k after (r + 1) xs items (omega arith)
      ∙ ap (λ n. changed_since after (history n (drop k xs)) items) e)

same_trans : (xs ys zs : List String) → SameItems xs ys → SameItems ys zs → SameItems xs zs
same_trans xs ys zs p q id = (λ m. (q id).0 ((p id).0 m), λ m. (p id).1 ((q id).1 m))

-- The nonempty ones of some texts.
abbrev pub nonempty : List String → List String
nonempty [] = []
nonempty (x ∷ xs) = if is_empty x then nonempty xs else x ∷ nonempty xs

event_items_from_lem :
    (items ids : List String)
    → IsDistinct items
    → IsDistinct (event_items_from items ids)
      × SameItems (event_items_from items ids) (items ++ nonempty ids)
unfolding event_items_from
event_items_from_lem items [] d =
    (d, λ id. subst (λ l. In id items ↔ In id l) (sym (append-nil items)) (λ m. m, λ m. m))
event_items_from_lem items (x ∷ xs) d = elim (Bool-cases (is_empty x)) [
  | inl e ↦ rw e (event_items_from_lem items xs d)
  | inr e ↦ rw e (elim (Bool-cases (contains items x)) [
    | inl k ↦ rw k (
        let ih = event_items_from_lem items xs d in
        (ih.0, same_trans _ _ _ ih.1 (same-known items x (nonempty xs) (contains→In items x k))))
    | inr k ↦ rw k (
        let ih =
          event_items_from_lem (items ++ x ∷ []) xs
            (snoc-IsDistinct items x d (λ m. cc (In→contains items x m, k))) in
        (ih.0, same_trans _ _ _ ih.1 (same-moved items x (nonempty xs))))
  ])
]

-- The items of committed events are their nonempty ids, each of them once.
pub event_items_lem :
    (ids : List String) → IsDistinct (event_items ids) × SameItems (event_items ids) (nonempty ids)
unfolding event_items
event_items_lem ids = event_items_from_lem [] ids tt
