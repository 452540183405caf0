-- ===== src/Queue/Select.antt =====
-- `SelectActionability` of internal/coordinator/domain.go.
use workitem.Common.{
  ℕ, zero, suc, ◌+◌, ◌%◌, String, Bool, true, false, ◌&&◌, Option, none, some, List, [], ◌∷◌,
  length, str_eq, ◌==◌, if◌then◌else◌,
}

-- The session name, a function of the id, is left out.
pub record Selection : Type 0 where
  pub found : Bool
  pub index : ℕ
  pub work_item_id : String
  pub current_in_queue : Bool
  pub wrapped : Bool

-- The place of the first candidate of the item, in a queue of ids.
unfoldable pub place : List String → String → Option ℕ
place [] id = none
place (c ∷ cs) id =
    let rest = place cs id in
    if str_eq c id then some 0 else elim rest [ none ↦ none | some i ↦ some (i + 1) ]

abbrev nothing : Selection
nothing = record {
  found = false;
  index = 0;
  work_item_id = "";
  current_in_queue = false;
  wrapped = false;
}

-- `queue.Candidates[index].Manifest.ID`, for the ids of the candidates. No index out of range comes
-- up, and the code would panic at one.
unfoldable pub id_at : List String → ℕ → String
id_at [] index = ""
id_at (c ∷ cs) zero = c
id_at (c ∷ cs) (suc index) = id_at cs index

-- The index that follows a place, around the end of the queue.
abbrev pub next_index : List String → Option ℕ → ℕ
next_index queue none = 0
next_index queue (some i) = (i + 1) % length queue

abbrev is_found : Option ℕ → Bool
is_found none = false
is_found (some i) = true

-- The queue as the ids of its candidates.
unfoldable pub select_actionability : List String → String → Selection
unfolding place id_at
select_actionability [] current = nothing
select_actionability (c ∷ cs) current =
    let queue = c ∷ cs in
    let at_place = place queue current in
    let index = next_index queue at_place in
    record {
      found = true;
      index = index;
      work_item_id = id_at queue index;
      current_in_queue = is_found at_place;
      wrapped = is_found at_place && index == 0;
    }
