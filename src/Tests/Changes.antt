-- ===== src/Tests/Changes.antt =====
-- The change feed: a reader that is two calls behind, and one that misses an item of a pair.
use workitem.Common.{
  ℕ, zero, suc, ◌≡◌, refl, String, false, List, [], ◌∷◌, ◌++◌, length, contains, In, inl, inr,
  str_eq, str_eq_refl, arith,
}
use workitem.Strings.{is_empty}
use workitem.Changes.Log.{
  ChangesResult, new_change_log, record_changes, changed_since, since, event_items_from,
  event_items,
}
use workitem.Changes.Window.{run}
use workitem.Changes.Collect.{IsDistinct, SameItems, event_items_lem}
use workitem.Changes.Feed.{Answers, since_refines}
use workitem.Changes.Gap.{pair_then, since_misses}

program : Unit {0}
unfolding contains record_changes changed_since since run str_eq event_items_from event_items
    is_empty
program = tt

abbrev calls : List String
calls = "A" ∷ "B" ∷ "A" ∷ "A" ∷ []

abbrev told : ChangesResult
told = record { epoch = "e"; revision = 5; item_ids = "B" ∷ "A" ∷ []; all = false }

tells : since (run (new_change_log "e") calls) "e" 2 ≡ told
unfolding program
tells = refl

since_refines_example : Answers calls 2 (since (run (new_change_log "e") calls) "e" 2)
since_refines_example = since_refines "e" calls 2 (omega arith) (omega arith) (omega arith)

event_items_lem_example :
    IsDistinct (event_items ("A" ∷ "" ∷ "A" ∷ []))
    × SameItems (event_items ("A" ∷ "" ∷ "A" ∷ [])) ("A" ∷ "A" ∷ [])
unfolding program
event_items_lem_example = event_items_lem ("A" ∷ "" ∷ "A" ∷ [])

-- The item B changes again and again.
busy : ℕ → List String
busy zero = []
busy (suc n) = "B" ∷ busy n

length-busy : (n : ℕ) → length (busy n) ≡ n
unfolding busy
length-busy zero = refl
length-busy (suc n) = omega (arith, length-busy n)

not_busy : (n : ℕ) (x : String) → str_eq x "B" ≡ false → ¬ In x (busy n ++ "B" ∷ [])
unfolding busy
not_busy zero x h (inl e) = cc (str_eq_refl x, e, h)
not_busy zero x h (inr m) = m
not_busy (suc n) x h (inl e) = cc (str_eq_refl x, e, h)
not_busy (suc n) x h (inr m) = not_busy n x h m

empty_B : str_eq "" "B" ≡ false
unfolding str_eq
empty_B = refl

A_B : str_eq "A" "B" ≡ false
unfolding str_eq
A_B = refl

since_misses_example :
    ((since (pair_then "e" "A" "B" (busy 1022) "B") "e" 1).all ≡ false)
    × (¬ In "A" (since (pair_then "e" "A" "B" (busy 1022) "B") "e" 1).item_ids)
unfolding busy
since_misses_example =
    since_misses "e" "A" "B" "B" (busy 1022) (length-busy 1022) (not_busy 1023 "" empty_B)
      (not_busy 1023 "A" A_B)
