-- ===== src/Domain/Tidy.antt =====
-- The fields that belong to a state.
use workitem.Blockers.Graph.{targets}
use workitem.Common.{
  not-false, In, ◌≡◌, ◌∙◌, refl, sym, subst, String, Bool, true, false, not, ◌&&◌, List, [],
}
use workitem.Strings.{is_empty}
use workitem.Model.Error.{Error, Ensures, Ensures-bind, Ensures-refuse, Ensures-if}
use workitem.Model.Blocker.{Blocker}
use workitem.Model.Manifest.{Manifest, is_closed}
use workitem.Model.Slug.{slugify}
use workitem.Domain.Types.{ManifestCommand, CommandEvent}
use workitem.Domain.Slugs.{unique_canonical_slug}
use workitem.Domain.State.{
  valid_resolution, valid_state, is_backlog, same_state, reopen, chosen_resolution, close,
  state_event, valid_move, over_limit, move, apply_state_set,
}

-- A closed item has no slug and no blockers, and one of the three resolutions. Another item has no
-- resolution.
abbrev pub Tidy : Bool → String → List Blocker → String → Type 0
Tidy true slug blockers resolution =
    (slug ≡ "") × (blockers ≡ []) × (valid_resolution resolution ≡ true)
Tidy false slug blockers resolution = resolution ≡ ""

abbrev pub IsTidy : Manifest → Type 0
IsTidy m = Tidy (is_closed m.state) m.slug m.blockers m.resolution

-- What a command other than a new blocker keeps of an item: it is tidy, it has the id and the
-- checkout that it had, and it waits for no new item.
abbrev pub Kept : Manifest → Manifest → Type 0
Kept m m' =
    IsTidy m'
    × (m'.id ≡ m.id)
    × (m'.checkout ≡ m.checkout)
    × ((y : String) → In y (targets m'.blockers) → In y (targets m.blockers))

module _ (c : ManifestCommand) (m : Manifest) (all : List Manifest) where
  abbrev KeptResult : Manifest × List CommandEvent → Type 0
  KeptResult r = Kept m (r.0)

  reopen-Kept : Ensures KeptResult (reopen c m all)
  unfolding reopen
  reopen-Kept =
      Ensures-refuse KeptResult (not (is_backlog c.target_state)) Error.closed_must_reopen _ λ _.
        Ensures-bind KeptResult (unique_canonical_slug (slugify m.title) m.id all) _
          λ _ _. (refl, refl, refl, λ y i. i)

  close-Kept : Ensures KeptResult (close c m)
  unfolding close targets
  close-Kept =
      Ensures-refuse KeptResult (not (valid_resolution (chosen_resolution c)))
        Error.invalid_resolution _
        λ valid. (
          (refl, refl, not-false (valid_resolution (chosen_resolution c)) valid),
          refl,
          refl,
          λ y i. elim i [ ],
        )

  move-Kept :
      is_closed m.state ≡ false
      → is_closed c.target_state ≡ false
      → IsTidy m
      → Ensures KeptResult (move c m all)
  unfolding move
  move-Kept now next tidy =
      let moved = subst (λ b. Tidy b m.slug m.blockers m.resolution) (now ∙ sym next) tidy in
      Ensures-refuse KeptResult (not (valid_move c m)) Error.invalid_transition _ λ _.
        Ensures-refuse KeptResult (over_limit c m all) Error.active_limit_reached _ λ _.
          Ensures-bind KeptResult (state_event c.event_type) _ λ _ _. (moved, refl, refl, λ y i. i)

  pub apply_state_set-Kept : IsTidy m → Ensures KeptResult (apply_state_set c m all)
  unfolding apply_state_set
  apply_state_set-Kept tidy =
      Ensures-refuse KeptResult (not (valid_state c.target_state)) Error.invalid_state _ λ _.
        Ensures-refuse KeptResult (not (is_empty c.resolution) && not (is_closed c.target_state))
          Error.resolution_without_close _
          λ _.
            Ensures-if KeptResult (same_state m.state c.target_state) _ _
              (λ _. (tidy, refl, refl, λ y i. i))
              λ _.
                Ensures-if KeptResult (is_closed m.state) _ _ (λ _. reopen-Kept)
                  λ now.
                    Ensures-if KeptResult (is_closed c.target_state) _ _ (λ _. close-Kept)
                      λ next. move-Kept now next tidy
