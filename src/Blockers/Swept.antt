-- ===== src/Blockers/Swept.antt =====
-- What a sweep clears and leaves.
use workitem.Common.{◌≡◌, ◌∙◌, refl, ap, Option, none, some, List, [], ◌∷◌, Map, All}
use workitem.Model.Blocker.{Time, Blocker}
use workitem.Model.Manifest.{Manifest}
use workitem.Domain.Types.{CommandEvent, ClearCause, blocker_cleared}
use workitem.Blockers.Commands.{blocker_event_data}
use workitem.Blockers.Sweep.{Swept, sweep_blocker, sweep_cause, sweep_blockers}
use workitem.Blockers.Due.{Due, Agrees, sweep_cause-Agrees}

module _ (by_id : Map Manifest) (now : Time) (requested : Option Time) where
  -- The blockers that stay and the events: one event for each blocker that is due.
  pub data Sweeps : List Blocker → List Blocker → List CommandEvent → Type 0 where
    none_left : Sweeps [] [] []
    stays :
        (b : Blocker) {bs remaining : List Blocker} {events : List CommandEvent}
        → ((c : ClearCause) → Due by_id now requested b c → ⊥)
        → Sweeps bs remaining events
        → Sweeps (b ∷ bs) (b ∷ remaining) events
    cleared :
        (b : Blocker) (c : ClearCause) {bs remaining : List Blocker} {events : List CommandEvent}
        → Due by_id now requested b c
        → Sweeps bs remaining events
        → Sweeps (b ∷ bs) remaining (blocker_cleared (blocker_event_data b) c ∷ events)

  abbrev swept : List Blocker → Swept
  swept bs = sweep_blockers by_id now requested bs

  sweep_blocker-Sweeps :
      (o : Option ClearCause) (b : Blocker) (bs : List Blocker) (s : Swept)
      → Agrees by_id now requested b o
      → Sweeps bs (s.0) (s.1)
      → Sweeps (b ∷ bs) ((sweep_blocker o b s).0) ((sweep_blocker o b s).1)
  unfolding sweep_blocker
  sweep_blocker-Sweeps none b bs (remaining, events) h rest = stays b h rest
  sweep_blocker-Sweeps (some c) b bs (remaining, events) h rest = cleared b c h rest

  sweep_blockers-all : (bs : List Blocker) → Sweeps bs ((swept bs).0) ((swept bs).1)
  unfolding sweep_blockers
  sweep_blockers-all [] = none_left
  sweep_blockers-all (b ∷ bs) =
      sweep_blocker-Sweeps (sweep_cause by_id now requested b) b bs (swept bs)
        (sweep_cause-Agrees by_id now requested b) (sweep_blockers-all bs)

  abbrev Stays : Blocker → Type 0
  Stays b = sweep_cause by_id now requested b ≡ none

  sweep_blocker-Stays :
      (c : Option ClearCause) (b : Blocker) (s : Swept)
      → sweep_cause by_id now requested b ≡ c
      → All Stays (s.0)
      → All Stays ((sweep_blocker c b s).0)
  unfolding sweep_blocker
  sweep_blocker-Stays none b s e all = (e, all)
  sweep_blocker-Stays (some c) b s e all = all

  sweep_blockers-Stays : (bs : List Blocker) → All Stays ((swept bs).0)
  unfolding sweep_blockers
  sweep_blockers-Stays [] = tt
  sweep_blockers-Stays (b ∷ bs) =
      sweep_blocker-Stays (sweep_cause by_id now requested b) b (swept bs) refl
        (sweep_blockers-Stays bs)

  sweep_blockers-stable : (bs : List Blocker) → All Stays bs → swept bs ≡ (bs, [])
  unfolding sweep_blockers sweep_blocker
  sweep_blockers-stable [] all = refl
  sweep_blockers-stable (b ∷ bs) (e, all) =
      ap (λ c. sweep_blocker c b (swept bs)) e
      ∙ ap (sweep_blocker none b) (sweep_blockers-stable bs all)

  -- A sweep clears exactly the blockers that are due, each with one event that names its cause, and
  -- leaves the others in order: time blockers whose time has come, or that the item was prompted
  -- after, and item blockers whose item is gone or closed. It leaves nothing that a second sweep at
  -- that time would clear.
  pub sweep_blockers-Sweeps :
      (bs : List Blocker)
      → Sweeps bs
          ((sweep_blockers by_id now requested bs).0)
          ((sweep_blockers by_id now requested bs).1)
        × (sweep_blockers by_id now requested ((sweep_blockers by_id now requested bs).0)
            ≡ ((sweep_blockers by_id now requested bs).0, []))
  sweep_blockers-Sweeps bs =
      (sweep_blockers-all bs, sweep_blockers-stable ((swept bs).0) (sweep_blockers-Stays bs))
