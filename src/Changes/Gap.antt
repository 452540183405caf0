-- ===== src/Changes/Gap.antt =====
-- Calls that name several items, and what the trimming of the log does to them.
use workitem.Common.{
  suc, ◌+◌, ◌%◌, ◌^◌, ◌≤◌, ◌<◌, ◌≡◌, ◌∙◌, refl, sym, ap, subst, String, false, Option, none, some,
  List, [], ◌∷◌, ◌++◌, length, length-append, In, str_eq_refl, arith,
}
use mathlib.Core.List.{append_assoc, append-nil}
use workitem.Changes.Log.{
  ChangesResult, ItemChange, ChangeLog, new_change_log, trimmed, next_revision, record_changes,
  changed_since, answer, since, all_items,
}
use workitem.Changes.Window.{run, history, length-history, history-snoc, trimmed-fits, trimmed-over}
use workitem.Changes.Collect.{Collects, unseen-Collects}

run-fits :
    (log : ChangeLog) (ids : List String)
    → length log.recent + length ids ≤ 1024
    → log.revision + length ids < 2 ^ 64
    → run log ids ≡ record log {
      revision = log.revision + length ids;
      recent = log.recent ++ history log.revision ids;
    }
unfolding run record_changes history
run-fits log [] room fit =
    let r : log.revision ≡ log.revision + 0 = omega arith in
    λ i. record log { revision = r i; recent = sym (append-nil log.recent) i }
run-fits log (id ∷ ids) room fit =
    let next : next_revision log ≡ log.revision + 1 = omega arith in
    let c : ItemChange = record { revision = log.revision + 1; item_id = id } in
    let r : log.revision + 1 + length ids ≡ log.revision + suc (length ids) = omega arith in
    let kept : trimmed (log.recent ++ c ∷ []) ≡ log.recent ++ c ∷ [] =
      trimmed-fits (log.recent ++ c ∷ []) (omega (arith, length-append log.recent (c ∷ []))) in
    let step : record_changes log (id ∷ [])
        ≡ record log { revision = log.revision + 1; recent = log.recent ++ c ∷ [] } =
      (λ i. record log {
        revision = next i;
        recent = trimmed (log.recent ++ record { revision = next i; item_id = id } ∷ []);
      })
      ∙ (λ i. record log { revision = log.revision + 1; recent = kept i }) in
    ap (λ l. run l ids) step
    ∙ run-fits (record log { revision = log.revision + 1; recent = log.recent ++ c ∷ [] }) ids
        (omega (arith, length-append log.recent (c ∷ []))) (omega arith)
    ∙ (λ i. record log {
      revision = r i;
      recent = append_assoc log.recent (c ∷ []) (history (log.revision + 1) ids) i;
    })

-- The first call names two items, and 1023 calls of one item follow, so that the log is one change
-- too long.
abbrev pub pair_then : String → String → String → List String → String → ChangeLog
pair_then epoch x y ids z =
    record_changes (run (record_changes (new_change_log epoch) (x ∷ y ∷ [])) ids) (z ∷ [])

abbrev pub pair_log : String → String → String → ChangeLog
pair_log epoch x y = record {
  epoch = epoch;
  revision = 2;
  recent = record { revision = 2; item_id = x } ∷ record { revision = 2; item_id = y } ∷ [];
}

pair_then-recent :
    (epoch x y z : String) (ids : List String)
    → length ids ≡ 1022
    → pair_then epoch x y ids z
      ≡ record { epoch = epoch; revision = 1025; recent = history 1 (y ∷ ids ++ z ∷ []) }
unfolding record_changes history
pair_then-recent epoch x y z ids l =
    let fits = run-fits (pair_log epoch x y) ids (omega arith) (omega arith) in
    let total : (2 + length ids + 1) % 2 ^ 64 ≡ 1025 = omega arith in
    let last : (2 + length ids + 1) % 2 ^ 64 ≡ 2 + length ids + 1 = omega arith in
    let rest = history 2 ids ++ record { revision = 2 + length ids + 1; item_id = z } ∷ [] in
    let kept =
      trimmed-over
        (record { revision = 2; item_id = x } ∷ record { revision = 2; item_id = y } ∷ rest)
        (omega (
          arith,
          length-history 2 ids,
          length-append (history 2 ids)
              (record { revision = 2 + length ids + 1; item_id = z } ∷ []),
        ))
      ∙ ap (λ cs. record { revision = 2; item_id = y } ∷ cs) (sym (history-snoc 2 ids z)) in
    ap (λ log. record_changes log (z ∷ [])) fits
    ∙ (λ i. record {
      epoch = epoch;
      revision = total i;
      recent = trimmed (
          record { revision = 2; item_id = x }
          ∷ record { revision = 2; item_id = y }
          ∷ (history 2 ids ++ record { revision = last i; item_id = z } ∷ []));
    })
    ∙ (λ i. record { epoch = epoch; revision = 1025; recent = kept i })

Misses : String → ChangesResult → Type 0
Misses x r = (r.all ≡ false) × (¬ In x r.item_ids)

answer-Misses :
    (log : ChangeLog) (x : String) (later : List String) (o : Option (List String))
    → (¬ In all_items later)
    → (¬ In x later)
    → Collects [] later o
    → Misses x (answer log o)
unfolding Misses
answer-Misses log x later none n m c = absurd (n c)
answer-Misses log x later (some found) n m c = (refl, λ h. m ((c.2 x).0 h))

-- A log whose first call names the items x and y, and which 1023 calls of one item each follow,
-- forgets the first of its 1025 changes, the one of x. A reader that has seen revision 1 is then not
-- told that all items changed, and is not told of x, where y and the later calls name neither x nor
-- all items.
pub since_misses :
    (epoch x y z : String) (ids : List String)
    → length ids ≡ 1022
    → (¬ In all_items (y ∷ ids ++ z ∷ []))
    → (¬ In x (y ∷ ids ++ z ∷ []))
    → ((since (pair_then epoch x y ids z) epoch 1).all ≡ false)
      × (¬ In x (since (pair_then epoch x y ids z) epoch 1).item_ids)
unfolding since history Misses
since_misses epoch x y z ids l n m =
    let later = y ∷ ids ++ z ∷ [] in
    let log : ChangeLog = record { epoch = epoch; revision = 1025; recent = history 1 later } in
    let c = unseen-Collects 1 1 later [] (omega arith) tt in
    subst (λ r. Misses x (since r epoch 1)) (sym (pair_then-recent epoch x y z ids l))
      (rw (str_eq_refl epoch) (answer-Misses log x later (changed_since 1 log.recent []) n m c))
