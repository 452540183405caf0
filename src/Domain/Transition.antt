-- ===== src/Domain/Transition.antt =====
-- What a state command does to the state, the limit on deep work and the slug of a reopened item.
use workitem.Common.{
  not-false, ℕ, ◌≡◌, ◌∙◌, ◌<◌, refl, sym, ap, subst, Bool, true, false, not, ◌&&◌, ◌||◌, List, [],
  str_eq→eq, leb, inl, inr, ◌⊎◌, arith,
}
use workitem.Strings.{is_empty}
use workitem.Model.Error.{Error, ok, Ensures, Ensures-ok, Ensures-bind, Ensures-refuse, Ensures-if}
use workitem.Model.Manifest.{State, Manifest, is_closed, is_active}
use workitem.Model.Slug.{slugify}
use workitem.Domain.Types.{ManifestCommand, CommandEvent}
use workitem.Domain.Slugs.{used_slugs, unique_canonical_slug}
use workitem.Domain.FreeSlugs.{IsFree, unique_canonical_slug-IsFree}
use workitem.Domain.State.{
  valid_resolution, valid_state, is_backlog, same_state, deep_work_active, reopen,
  chosen_resolution, close, state_event, valid_move, over_limit, move, apply_state_set,
}

-- The transitions that the code allows.
pub data Transition : State → State → Type 0 where
  stay : {s : State} → Transition s s
  start : Transition State.backlog State.active
  park : Transition State.active State.backlog
  finish : {s : State} → is_closed s ≡ false → Transition s State.closed
  reopens : Transition State.closed State.backlog

same_state→eq : (a b : State) → same_state a b ≡ true → a ≡ b
same_state→eq State.backlog State.backlog h = refl
same_state→eq State.active State.active h = refl
same_state→eq State.closed State.closed h = refl
same_state→eq (State.other_state a) (State.other_state b) h = ap State.other_state (str_eq→eq a b h)
same_state→eq _ _ h = cc

is_closed→eq : (s : State) → is_closed s ≡ true → s ≡ State.closed
is_closed→eq State.closed h = refl
is_closed→eq _ h = cc

is_active→eq : (s : State) → is_active s ≡ true → s ≡ State.active
is_active→eq State.active h = refl
is_active→eq _ h = cc

is_backlog→eq : (s : State) → is_backlog s ≡ true → s ≡ State.backlog
is_backlog→eq State.backlog h = refl
is_backlog→eq _ h = cc

closed_not_backlog : State.closed ≡ State.backlog → ⊥
closed_not_backlog p = cc

closed_not_active : State.closed ≡ State.active → ⊥
closed_not_active p = cc

active_not_backlog : State.active ≡ State.backlog → ⊥
active_not_backlog p = cc

is_closed-ne : (s : State) → is_closed s ≡ false → s ≡ State.closed → ⊥
is_closed-ne s now p = let impossible : true ≡ false = sym (ap is_closed p) ∙ now in cc impossible

-- A move between backlog and active.
abbrev Move : State → State → Type 0
Move s t = (s ≡ State.backlog) × (t ≡ State.active) ⊎ (s ≡ State.active) × (t ≡ State.backlog)

Move-Transition : (s t : State) → Move s t → Transition s t
Move-Transition s t (inl (p, q)) =
    subst (λ s. Transition s t) (sym p) (subst (Transition State.backlog) (sym q) start)
Move-Transition s t (inr (p, q)) =
    subst (λ s. Transition s t) (sym p) (subst (Transition State.active) (sym q) park)

Move-ne : (s t : State) → Move s t → s ≡ t → ⊥
Move-ne s t (inl (p, q)) e = active_not_backlog (sym q ∙ sym e ∙ p)
Move-ne s t (inr (p, q)) e = active_not_backlog (sym p ∙ e ∙ q)

Move-open : (s t : State) → Move s t → s ≡ State.closed → ⊥
Move-open s t (inl (p, q)) e = closed_not_backlog (sym e ∙ p)
Move-open s t (inr (p, q)) e = closed_not_active (sym e ∙ p)

and-true : (a b : Bool) → (a && b) ≡ true → (a ≡ true) × (b ≡ true)
and-true a b h = ground arith

or-true : (a b : Bool) → (a || b) ≡ true → (a ≡ true) ⊎ (b ≡ true)
or-true a b h = ground arith

below_limit :
    (deep from to forced : Bool) (limit active : ℕ)
    → (deep && from && to && leb limit active && not forced) ≡ false
    → deep ≡ true
    → from ≡ true
    → to ≡ true
    → forced ≡ false
    → active < limit
below_limit deep from to forced limit active under h h' h'' h''' = ground arith

module _ (c : ManifestCommand) (m : Manifest) (all : List Manifest) where
  -- Of a command that succeeds.
  abbrev pub Moved : Manifest × List CommandEvent → Type 0
  Moved (m', events) =
      (m'.state ≡ c.target_state)
      × Transition m.state m'.state
      × (m.state ≡ m'.state → (m' ≡ m) × (events ≡ []))
      × (m.state ≡ State.backlog
          → m'.state ≡ State.active
          → m.deep_work ≡ true
          → c.force ≡ false
          → deep_work_active all < c.max_active)
      × (m.state ≡ State.closed → m'.state ≡ State.backlog → IsFree (used_slugs m.id all) m'.slug)
      × (m'.deep_work ≡ m.deep_work)

  valid_move-states : valid_move c m ≡ true → Move m.state c.target_state
  valid_move-states valid =
      elim (or-true (is_active c.target_state && is_backlog m.state)
        (is_backlog c.target_state && is_active m.state) valid) [
          | inl h ↦
              let (to, from) = and-true (is_active c.target_state) (is_backlog m.state) h in
              inl (is_backlog→eq m.state from, is_active→eq c.target_state to)
          | inr h ↦
              let (to, from) = and-true (is_backlog c.target_state) (is_active m.state) h in
              inr (is_active→eq m.state from, is_backlog→eq c.target_state to)
        ]

  over_limit-false :
      over_limit c m all ≡ false
      → m.state ≡ State.backlog
      → c.target_state ≡ State.active
      → m.deep_work ≡ true
      → c.force ≡ false
      → deep_work_active all < c.max_active
  over_limit-false under from to deep unforced =
      below_limit m.deep_work (is_backlog m.state) (is_active c.target_state) c.force c.max_active
        (deep_work_active all) under deep (ap is_backlog from) (ap is_active to) unforced

  reopen-Moved : m.state ≡ State.closed → Ensures Moved (reopen c m all)
  unfolding reopen
  reopen-Moved closed =
      Ensures-refuse Moved (not (is_backlog c.target_state)) Error.closed_must_reopen _ λ back.
        Ensures-bind Moved (unique_canonical_slug (slugify m.title) m.id all) _ λ slug run.
          let target = is_backlog→eq c.target_state (not-false (is_backlog c.target_state) back) in
          let free =
            Ensures-ok (IsFree (used_slugs m.id all)) run
              (unique_canonical_slug-IsFree (slugify m.title) m.id all) in
          (
            sym target,
            subst (λ s. Transition s State.backlog) (sym closed) reopens,
            (λ p. absurd (closed_not_backlog (sym closed ∙ p))),
            (λ p _ _ _. absurd (closed_not_backlog (sym closed ∙ p))),
            (λ _ _. free),
            refl,
          )

  close-Moved :
      is_closed m.state ≡ false → is_closed c.target_state ≡ true → Ensures Moved (close c m)
  unfolding close
  close-Moved now next =
      Ensures-refuse Moved (not (valid_resolution (chosen_resolution c))) Error.invalid_resolution _
        λ _. (
          sym (is_closed→eq c.target_state next),
          finish now,
          (λ p. absurd (is_closed-ne m.state now p)),
          (λ _ q _ _. absurd (closed_not_active q)),
          (λ _ q. absurd (closed_not_backlog q)),
          refl,
        )

  move-Moved : Ensures Moved (move c m all)
  unfolding move
  move-Moved = Ensures-refuse Moved (not (valid_move c m)) Error.invalid_transition _ λ valid.
      Ensures-refuse Moved (over_limit c m all) Error.active_limit_reached _ λ under.
        Ensures-bind Moved (state_event c.event_type) _ λ _ _.
          let states = valid_move-states (not-false (valid_move c m) valid) in
          (
            refl,
            Move-Transition m.state c.target_state states,
            (λ p. absurd (Move-ne m.state c.target_state states p)),
            over_limit-false under,
            (λ p _. absurd (Move-open m.state c.target_state states p)),
            refl,
          )

  apply_state_set-Moved : Ensures Moved (apply_state_set c m all)
  unfolding apply_state_set
  apply_state_set-Moved =
      Ensures-refuse Moved (not (valid_state c.target_state)) Error.invalid_state _ λ _.
        Ensures-refuse Moved (not (is_empty c.resolution) && not (is_closed c.target_state))
          Error.resolution_without_close _
          λ _.
            Ensures-if Moved (same_state m.state c.target_state) _ _
              (λ same. (
                same_state→eq m.state c.target_state same,
                stay,
                (λ _. (refl, refl)),
                (λ p q _ _. absurd (active_not_backlog (sym q ∙ p))),
                (λ p q. absurd (closed_not_backlog (sym p ∙ q))),
                refl,
              ))
              λ _.
                Ensures-if Moved (is_closed m.state) _ _
                  (λ closed. reopen-Moved (is_closed→eq m.state closed))
                  λ now.
                    Ensures-if Moved (is_closed c.target_state) _ _ (λ next. close-Moved now next)
                      λ _. move-Moved

  module _ (m' : Manifest) (events : List CommandEvent)
      (run : apply_state_set c m all ≡ ok (m', events)) where
    pub moved : Moved (m', events)
    moved = Ensures-ok Moved run apply_state_set-Moved

    -- A successful state command leaves the item in the state that was asked for, and takes one of
    -- the allowed transitions to it.
    pub apply_state_set-Transition : (m'.state ≡ c.target_state) × Transition m.state m'.state
    apply_state_set-Transition = (moved.0, moved.1)
