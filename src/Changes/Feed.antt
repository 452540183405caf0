-- ===== src/Changes/Feed.antt =====
-- What a reader of the change log is told, against the list of all the changes.
use workitem.Common.{
  ℕ, ◌+◌, ◌-◌, ◌^◌, ◌≤◌, ◌<◌, ◌≡◌, ◌⊎◌, ◌∙◌, refl, sym, ap, subst, String, true, false, Option,
  none, some, List, [], ◌∷◌, length, drop, length-drop, ltb, ◌==◌, str_eq, str_eq_refl, In, inl,
  inr, Bool-cases, ltb→lt, ltb→le, arith,
}
use workitem.Changes.Log.{
  ChangesResult, ChangeLog, new_change_log, changed_since, fell_behind, answer, since, all_items,
  max_recent_changes,
}
use workitem.Changes.Window.{run, run-Tracks, history, drop-history, drop-drop, excess, Tracks}
use workitem.Changes.Collect.{IsDistinct, SameItems, Collects, unseen-Collects, changed_since-seen}

-- What a log with the latest `excess ids` of its changes forgotten answers to a reader that has
-- missed some.
abbrev pub missed : List String → ℕ → List String
missed ids after = drop (after - 1) ids

recent-Collects :
    (ids : List String) (after : ℕ)
    → 1 + excess ids ≤ after
    → Collects [] (missed ids after) (changed_since after (drop (excess ids) (history 1 ids)) [])
recent-Collects ids after le =
    let k : ℕ = after - (1 + excess ids) in
    let e : excess ids + k ≡ after - 1 = omega arith in
    let l : 1 + excess ids + k ≤ after = omega arith in
    subst (λ cs. Collects [] (missed ids after) (changed_since after cs []))
      (sym (drop-history (excess ids) 1 ids))
      (subst (Collects [] (missed ids after))
        (sym (changed_since-seen k after (1 + excess ids) (drop (excess ids) ids) [] l))
        (subst
          (λ xs. Collects [] xs (
            changed_since after (history (1 + excess ids + k) (drop k (drop (excess ids) ids))) []))
          (drop-drop k (excess ids) ids ∙ ap (λ n. drop n ids) e)
          (unseen-Collects after (1 + excess ids + k) (drop k (drop (excess ids) ids)) []
            (omega arith) tt)))

-- The reader is too far behind, or one of the changes concerned every item.
abbrev pub IsLost : List String → ℕ → Type 0
IsLost ids after =
    (max_recent_changes < length (missed ids after)) ⊎ In all_items (missed ids after)

abbrev pub Answers : List String → ℕ → ChangesResult → Type 0
Answers ids after r =
    (r.all ≡ true) × IsLost ids after
    ⊎ (r.all ≡ false)
      × (¬ IsLost ids after)
      × IsDistinct r.item_ids
      × SameItems r.item_ids (missed ids after)

fell_behind-history :
    (after r : ℕ) (xs : List String)
    → 0 < length xs
    → after + 1 < 2 ^ 64
    → fell_behind after (history r xs) ≡ ltb (after + 1) (r + 1)
unfolding history
fell_behind-history after r [] n h = absurd (omega arith)
fell_behind-history after r (x ∷ xs) n h = ap (λ a. ltb a (r + 1)) (omega arith)

nil_of_length : {A : Type 0} (xs : List A) → length xs ≡ 0 → xs ≡ []
nil_of_length [] h = refl
nil_of_length (x ∷ xs) h = absurd (omega arith)

answer-Answers :
    (log : ChangeLog) (ids : List String) (after : ℕ) (o : Option (List String))
    → ¬ max_recent_changes < length (missed ids after)
    → Collects [] (missed ids after) o
    → Answers ids after (answer log o)
answer-Answers log ids after none n c = inl (refl, inr c)
answer-Answers log ids after (some found) n c =
    inr (refl, λ l. elim l [ inl m ↦ n m | inr m ↦ c.0 m ], c.1, c.2)

since_tracked :
    (epoch : String) (ids : List String) (after : ℕ) (log : ChangeLog)
    → Tracks epoch ids log
    → 1 ≤ after
    → after ≤ 1 + length ids
    → 2 + length ids < 2 ^ 64
    → Answers ids after (since log epoch after)
unfolding since
since_tracked epoch ids after log t lo hi fit =
    let same : str_eq epoch log.epoch ≡ true = ap (str_eq epoch) t.same_epoch ∙ str_eq_refl epoch in
    let z : (after == 0) ≡ false = ground arith in
    let b : ltb log.revision after ≡ false = ap (λ r. ltb r after) t.counted ∙ ground arith in
    let n : length (missed ids after) ≡ length ids - (after - 1) = length-drop (after - 1) ids in
    rw (same, z, b)
      (elim (Bool-cases (ltb after log.revision)) [
        | inr e ↦ rw e (
            let le = ltb→le after log.revision e in
            let none_missed = nil_of_length (missed ids after) (omega (arith, t.counted)) in
            answer-Answers log ids after (some []) (omega arith) (
              subst (λ xs. Collects [] xs (some [])) (sym none_missed)
                (λ m. m, tt, λ id. (λ m. m, λ m. m))))
        | inl e ↦ rw e (
            let lt = ltb→lt after log.revision e in
            let f : fell_behind after log.recent ≡ ltb (after + 1) (1 + excess ids + 1) =
              ap (fell_behind after) (t.latest ∙ drop-history (excess ids) 1 ids)
              ∙ fell_behind-history after (1 + excess ids) (drop (excess ids) ids)
                  (omega (arith, length-drop (excess ids) ids, t.counted)) (omega arith) in
            elim (Bool-cases (ltb (after + 1) (1 + excess ids + 1))) [
              | inl g ↦
                  rw (f ∙ g)
                    (inl (refl, inl (omega (arith, ltb→lt (after + 1) (1 + excess ids + 1) g))))
              | inr g ↦ rw (f ∙ g) (
                  answer-Answers log ids after _
                    (omega (arith, ltb→le (after + 1) (1 + excess ids + 1) g))
                    (subst (λ cs. Collects [] (missed ids after) (changed_since after cs []))
                      (sym t.latest)
                      (recent-Collects ids after
                        (omega (arith, ltb→le (after + 1) (1 + excess ids + 1) g)))))
            ])
      ])

-- After one-item calls of a new log that number fewer than 2^64 - 2, a reader that has seen some
-- revision of it is either told that every item changed, and then it has missed more changes than
-- the log remembers or one of them concerned every item, or it is told exactly the items of the
-- changes it has missed, each once, and then neither is so.
pub since_refines :
    (epoch : String) (ids : List String) (after : ℕ)
    → 1 ≤ after
    → after ≤ 1 + length ids
    → 2 + length ids < 2 ^ 64
    → Answers ids after (since (run (new_change_log epoch) ids) epoch after)
unfolding history
since_refines epoch ids after lo hi fit =
    let start : Tracks epoch [] (new_change_log epoch) = record {
      same_epoch = refl;
      counted = refl;
      latest = refl;
    } in
    since_tracked epoch ids after (run (new_change_log epoch) ids)
      (run-Tracks epoch [] ids (new_change_log epoch) start (omega arith)) lo hi fit
