-- ===== src/Blockers/Graph.antt =====
-- `blocksTransitively` of internal/coordinator/blockers.go: the search along item blockers, and the
-- relation that it is to decide.
use workitem.Common.{
  ℕ, zero, suc, ◌+◌, String, Bool, true, false, ◌&&◌, Option, none, some, List, [], ◌∷◌, In, length,
  Map, lookup, contains, str_eq, if◌then◌else◌,
}
use workitem.Model.Blocker.{Blocker, is_item}
use workitem.Model.Manifest.{Manifest}

-- `byID[id].Blockers`: the zero manifest of a missing key has none.
unfoldable pub blockers_of : Map Manifest → String → List Blocker
blockers_of by_id id = elim (lookup by_id id) [ none ↦ [] | some m ↦ m.blockers ]

-- The loop over the blockers of one item. `none` is its `return true`, and the result is the new
-- stack otherwise. The head of the list is the top of the stack.
unfoldable pub push_targets : String → List Blocker → List String → Option (List String)
push_targets target [] stack = some stack
push_targets target (b ∷ bs) stack =
    let rest = push_targets target bs (if is_item b.kind then b.item_id ∷ stack else stack) in
    if is_item b.kind && str_eq b.item_id target then none else rest

-- The `for len(stack) > 0` loop; `none` means that the fuel ran out.
unfoldable pub search : ℕ → Map Manifest → String → List String → List String → Option Bool
search zero by_id target seen stack = none
search (suc fuel) by_id target seen [] = some false
search (suc fuel) by_id target seen (current ∷ stack) = elim (contains seen current) [
  | true ↦ search fuel by_id target seen stack
  | false ↦ elim (push_targets target (blockers_of by_id current) stack) [
    | none ↦ some true
    | some stack' ↦ search fuel by_id target (current ∷ seen) stack'
  ]
]

-- The blockers of the items that are not in `seen`: what the search may still push.
unfoldable pub unseen_blockers : Map Manifest → List String → ℕ
unseen_blockers [] seen = 0
unseen_blockers ((id, m) ∷ rest) seen =
    (if contains seen id then 0 else length m.blockers) + unseen_blockers rest seen

-- Every round pops one entry, and each blocker is pushed at most once.
abbrev pub search_fuel : Map Manifest → ℕ
search_fuel by_id = suc (suc (unseen_blockers by_id []))

unfoldable pub blocks_transitively : Map Manifest → String → String → Bool
blocks_transitively by_id from target =
    elim (search (search_fuel by_id) by_id target [] (from ∷ [])) [
      | some found ↦ found
      | none ↦ false
    ]

-- The items that a list of blockers names.
unfoldable pub targets : List Blocker → List String
targets [] = []
targets (b ∷ bs) = let rest = targets bs in if is_item b.kind then b.item_id ∷ rest else rest

abbrev pub waits_on : Map Manifest → String → List String
waits_on by_id id = targets (blockers_of by_id id)

-- `a` waits for `b`, directly or through other items, along the edges `next`.
pub data Waits (next : String → List String) : String → String → Type 0 where
  direct : {a b : String} → In b (next a) → Waits next a b
  via : {a b c : String} → In b (next a) → Waits next b c → Waits next a c

-- No item waits for itself.
abbrev pub IsAcyclic : (String → List String) → Type 0
IsAcyclic next = (a : String) → Waits next a a → ⊥
