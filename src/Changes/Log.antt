-- ===== src/Changes/Log.antt =====
-- The change log of internal/coordinator/changes.go. The mutex makes each call one step, and the
-- channel that wakes waiting readers is left out.
use workitem.Common.{
  ℕ, ◌+◌, ◌-◌, ◌%◌, ◌^◌, String, Bool, true, false, not, ◌&&◌, ◌||◌, Option, none, some, List, [],
  ◌∷◌, ◌++◌, map, length, drop, ltb, ◌==◌, str_eq, contains, if◌then◌else◌,
}
use workitem.Strings.{is_empty}

pub record ChangesResult : Type 0 where
  pub epoch : String
  pub revision : ℕ
  pub item_ids : List String
  pub all : Bool

pub record ItemChange : Type 0 where
  pub revision : ℕ  -- uint64
  pub item_id : String

pub record ChangeLog : Type 0 where
  pub epoch : String
  pub revision : ℕ  -- uint64
  pub recent : List ItemChange

abbrev pub max_recent_changes : ℕ
max_recent_changes = 1024

-- The epoch is made of the clock.
abbrev pub new_change_log : String → ChangeLog
new_change_log epoch = record { epoch = epoch; revision = 1; recent = [] }

-- The loop of `eventItems`, where the items listed are those seen.
unfoldable pub event_items_from : List String → List String → List String
unfolding is_empty
event_items_from items [] = items
event_items_from items (id ∷ ids) =
    event_items_from (if is_empty id || contains items id then items else items ++ id ∷ []) ids

unfoldable pub event_items : List String → List String
unfolding event_items_from
event_items ids = event_items_from [] ids

-- The changes of one call, in order.
abbrev pub item_changes : ℕ → List String → List ItemChange
item_changes revision = map (λ id. record { revision = revision; item_id = id })

abbrev pub trimmed : List ItemChange → List ItemChange
trimmed changes =
    if ltb max_recent_changes (length changes)
    then drop (length changes - max_recent_changes) changes
    else changes

-- `l.revision++`
abbrev pub next_revision : ChangeLog → ℕ
next_revision log = (log.revision + 1) % 2 ^ 64

unfoldable pub record_changes : ChangeLog → List String → ChangeLog
record_changes log [] = log
record_changes log (id ∷ ids) = record log {
  revision = next_revision log;
  recent = trimmed (log.recent ++ item_changes (next_revision log) (id ∷ ids));
}

abbrev pub all_items : String
all_items = ""

unfoldable pub record_all : ChangeLog → ChangeLog
unfolding record_changes
record_all log = record_changes log (all_items ∷ [])

-- The loop of `since`, for the items listed so far; `none` is its return on a change to all items.
unfoldable pub changed_since : ℕ → List ItemChange → List String → Option (List String)
changed_since after [] items = some items
changed_since after (c ∷ cs) items =
    let rest = changed_since after cs (
      if ltb after c.revision && not (contains items c.item_id)
      then items ++ c.item_id ∷ []
      else items) in
    if ltb after c.revision && str_eq c.item_id all_items then none else rest

-- `len(l.recent) == 0 || l.recent[0].revision > after+1`
abbrev pub fell_behind : ℕ → List ItemChange → Bool
fell_behind after [] = true
fell_behind after (c ∷ cs) = ltb ((after + 1) % 2 ^ 64) c.revision

abbrev pub answer : ChangeLog → Option (List String) → ChangesResult
answer log none = record { epoch = log.epoch; revision = log.revision; item_ids = []; all = true }
answer log (some items) = record {
  epoch = log.epoch;
  revision = log.revision;
  item_ids = items;
  all = false;
}

unfoldable pub since : ChangeLog → String → ℕ → ChangesResult
unfolding changed_since
since log epoch after =
    if not (str_eq epoch log.epoch) || after == 0 || ltb log.revision after
    then answer log none
    else if ltb after log.revision
    then (if fell_behind after log.recent
        then answer log none
        else answer log (changed_since after log.recent []))
    else answer log (some [])
