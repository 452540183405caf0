-- ===== src/Changes/Window.antt =====
-- The log of calls that name one item each, in closed form.
use mathlib.Core.List.{append_assoc, append-nil}
use workitem.Common.{
  ℕ, zero, suc, ◌+◌, ◌-◌, ◌%◌, ◌^◌, ◌≤◌, ◌<◌, ◌≡◌, ◌∙◌, refl, sym, ap, subst, String, List, [], ◌∷◌,
  ◌++◌, length, length-append, drop, length-drop, ltb, inl, inr, Bool-cases, ltb→lt, ltb→le, arith,
}
use workitem.Changes.Log.{
  ItemChange, ChangeLog, trimmed, next_revision, record_changes, max_recent_changes,
}

-- One call after another.
unfoldable pub run : ChangeLog → List String → ChangeLog
run log [] = log
run log (id ∷ ids) = run (record_changes log (id ∷ [])) ids

-- Every change since a revision, for one call after another.
unfoldable pub history : ℕ → List String → List ItemChange
history revision [] = []
history revision (id ∷ ids) =
    record { revision = revision + 1; item_id = id } ∷ history (revision + 1) ids

pub length-history : (r : ℕ) (ids : List String) → length (history r ids) ≡ length ids
unfolding history
length-history r [] = refl
length-history r (id ∷ ids) = omega (arith, length-history (r + 1) ids)

pub drop-history :
    (n r : ℕ) (ids : List String) → drop n (history r ids) ≡ history (r + n) (drop n ids)
unfolding history
drop-history zero r ids = ap (λ n. history n ids) (omega arith)
drop-history (suc n) r [] = refl
drop-history (suc n) r (id ∷ ids) =
    drop-history n (r + 1) ids ∙ ap (λ k. history k (drop n ids)) (omega arith)

pub history-snoc :
    (r : ℕ) (ids : List String) (id : String)
    → history r (ids ++ id ∷ [])
      ≡ history r ids ++ record { revision = r + length ids + 1; item_id = id } ∷ []
unfolding history
history-snoc r [] id = ap (λ n. record { revision = n; item_id = id } ∷ []) (omega arith)
history-snoc r (x ∷ ids) id =
    ap (λ cs. record { revision = r + 1; item_id = x } ∷ cs)
      (history-snoc (r + 1) ids id
        ∙ ap (λ n. history (r + 1) ids ++ record { revision = n; item_id = id } ∷ []) (omega arith))

drop-append {ℓ} :
    {A : Type ℓ} (n : ℕ) (xs ys : List A) → n ≤ length xs → drop n (xs ++ ys) ≡ drop n xs ++ ys
drop-append zero xs ys h = refl
drop-append (suc n) [] ys h = absurd (omega arith)
drop-append (suc n) (x ∷ xs) ys h = drop-append n xs ys (omega arith)

-- How many of the changes are forgotten.
abbrev pub excess : List String → ℕ
excess past = length past - max_recent_changes

-- The log behind one call for each item.
pub record Tracks (epoch : String) (past : List String) (log : ChangeLog) : Type 0 where
  pub same_epoch : log.epoch ≡ epoch
  pub counted : log.revision ≡ 1 + length past
  pub latest : log.recent ≡ drop (excess past) (history 1 past)

drop-nil {ℓ} : {A : Type ℓ} (n : ℕ) → drop {A = A} n [] ≡ []
drop-nil zero = refl
drop-nil (suc n) = refl

pub drop-drop {ℓ} : {A : Type ℓ} (m n : ℕ) (xs : List A) → drop m (drop n xs) ≡ drop (n + m) xs
drop-drop m zero xs = ap (λ k. drop k xs) (omega arith)
drop-drop m (suc n) [] = drop-nil m ∙ sym (drop-nil (suc n + m))
drop-drop m (suc n) (x ∷ xs) =
    let e : suc (n + m) ≡ suc n + m = omega arith in drop-drop m n xs ∙ ap (λ k. drop k (x ∷ xs)) e

pub trimmed-fits : (changes : List ItemChange) → length changes ≤ 1024 → trimmed changes ≡ changes
trimmed-fits changes h = elim (Bool-cases (ltb 1024 (length changes))) [
  | inl e ↦ absurd (omega (arith, ltb→lt 1024 (length changes) e))
  | inr e ↦ rw e
]

pub trimmed-over :
    (changes : List ItemChange) → length changes ≡ 1025 → trimmed changes ≡ drop 1 changes
trimmed-over changes h = rw h

pub trimmed-snoc :
    (past : List String) (id : String)
    → trimmed (
        drop (excess past) (history 1 past)
        ++ record { revision = 1 + length past + 1; item_id = id } ∷ [])
      ≡ drop (excess (past ++ id ∷ [])) (history 1 (past ++ id ∷ []))
trimmed-snoc past id =
    let c : ItemChange = record { revision = 1 + length past + 1; item_id = id } in
    let kept = drop (excess past) (history 1 past) in
    let l : length (kept ++ c ∷ []) ≡ length past - excess past + 1 = omega (
      arith,
      length-append kept (c ∷ []),
      length-drop (excess past) (history 1 past),
      length-history 1 past,
    ) in
    let n : excess (past ++ id ∷ []) ≡ length past + 1 - 1024 =
      omega (arith, length-append past (id ∷ [])) in
    rw (history-snoc 1 past id, n)
      (elim (Bool-cases (ltb (length past) 1024)) [
        | inl e ↦
            let lt = ltb→lt (length past) 1024 e in
            let z : excess past ≡ 0 = omega arith in
            let z' : 0 ≡ length past + 1 - 1024 = omega arith in
            trimmed-fits (kept ++ c ∷ []) (omega arith)
            ∙ ap (λ k. drop k (history 1 past) ++ c ∷ []) z
            ∙ ap (λ k. drop k (history 1 past ++ c ∷ [])) z'
        | inr e ↦
            let le = ltb→le (length past) 1024 e in
            trimmed-over (kept ++ c ∷ []) (omega arith)
            ∙ ap (drop 1) (
                sym (
                  drop-append (excess past) (history 1 past) (c ∷ [])
                    (omega (arith, length-history 1 past))))
            ∙ drop-drop 1 (excess past) (history 1 past ++ c ∷ [])
            ∙ ap (λ k. drop k (history 1 past ++ c ∷ [])) (omega arith)
      ])

record_changes-Tracks :
    (epoch : String) (past : List String) (id : String) (log : ChangeLog)
    → Tracks epoch past log
    → 2 + length past < 2 ^ 64
    → Tracks epoch (past ++ id ∷ []) (record_changes log (id ∷ []))
unfolding record_changes
record_changes-Tracks epoch past id log t h =
    let next : next_revision log ≡ 1 + length past + 1 =
      ap (λ r. (r + 1) % 2 ^ 64) t.counted ∙ omega arith in
    record {
      same_epoch = t.same_epoch;
      counted = next ∙ omega (arith, length-append past (id ∷ []));
      latest =
          (λ i. trimmed (t.latest i ++ record { revision = next i; item_id = id } ∷ []))
          ∙ trimmed-snoc past id;
    }

pub run-Tracks :
    (epoch : String) (past ids : List String) (log : ChangeLog)
    → Tracks epoch past log
    → 1 + length past + length ids < 2 ^ 64
    → Tracks epoch (past ++ ids) (run log ids)
unfolding run
run-Tracks epoch past [] log t h = subst (λ l. Tracks epoch l log) (sym (append-nil past)) t
run-Tracks epoch past (id ∷ ids) log t h =
    subst (λ l. Tracks epoch l (run (record_changes log (id ∷ [])) ids))
      (append_assoc past (id ∷ []) ids)
      (run-Tracks epoch (past ++ id ∷ []) ids (record_changes log (id ∷ []))
        (record_changes-Tracks epoch past id log t (omega arith))
        (omega (arith, length-append past (id ∷ []))))
