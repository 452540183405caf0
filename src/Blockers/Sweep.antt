-- ===== src/Blockers/Sweep.antt =====
-- The loop of `SweepBlockers` of internal/coordinator/blockers.go over the blockers of one item.
use workitem.Common.{
  Bool, false, not, Option, none, some, List, [], ◌∷◌, Map, lookup, if◌then◌else◌,
}
use workitem.Model.Blocker.{Time, BlockerKind, Blocker, after}
use workitem.Model.Manifest.{Manifest, is_closed}
use workitem.Domain.Types.{ClearCause, CommandEvent, blocker_cleared}
use workitem.Blockers.Commands.{blocker_event_data}

abbrev pub is_over : Option Time → Time → Bool
is_over none now = false
is_over (some until) now = not (after until now)

-- The two cases of a time blocker, for the time of the last prompt.
unfoldable pub time_cause : Blocker → Time → Option Time → Option ClearCause
time_cause b now none = if is_over b.until now then some ClearCause.expired else none
time_cause b now (some requested) =
    if is_over b.until now
    then some ClearCause.expired
    else if after requested b.created_at
    then some (ClearCause.prompted requested)
    else none

-- The case of an item blocker, for the item that it names.
unfoldable pub item_cause : Option Manifest → Option ClearCause
item_cause none = some ClearCause.item_missing
item_cause (some target) =
    if is_closed target.state then some (ClearCause.item_closed target.resolution) else none

-- Why the sweep clears a blocker, if it does.
unfoldable pub sweep_cause : Map Manifest → Time → Option Time → Blocker → Option ClearCause
unfolding time_cause item_cause
sweep_cause by_id now requested b = elim b.kind [
  | BlockerKind.time ↦ time_cause b now requested
  | BlockerKind.item ↦ item_cause (lookup by_id b.item_id)
  | BlockerKind.external ↦ none
  | BlockerKind.other_kind k ↦ none
]

-- The blockers that stay, and the events.
abbrev pub Swept : Type 0
Swept = List Blocker × List CommandEvent

-- One blocker in front of those that were swept: it stays, or it leaves an event.
unfoldable pub sweep_blocker : Option ClearCause → Blocker → Swept → Swept
sweep_blocker none b (remaining, events) = (b ∷ remaining, events)
sweep_blocker (some cause) b (remaining, events) =
    (remaining, blocker_cleared (blocker_event_data b) cause ∷ events)

unfoldable pub sweep_blockers : Map Manifest → Time → Option Time → List Blocker → Swept
unfolding sweep_blocker
sweep_blockers by_id now requested [] = ([], [])
sweep_blockers by_id now requested (b ∷ bs) =
    sweep_blocker (sweep_cause by_id now requested b) b (sweep_blockers by_id now requested bs)
