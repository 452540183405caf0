-- ===== src/Domain/Sound.antt =====
-- A command of `applyManifestCommand` on one item of the database.
use workitem.Common.{
  ℕ, ◌≡◌, ◌∙◌, refl, sym, ap, subst, String, false, some, List, [], ◌∷◌, ◌++◌, str_eq, ltb, length,
  if◌then◌else◌, inl, inr, ◌⊎◌, Map, In, lookup, put,
}
use workitem.Model.Error.{ok, refuse_if-then, Ensures, Ensures-ok, Ensures-bind}
use workitem.Model.Manifest.{Manifest, is_closed}
use workitem.Blockers.Graph.{targets, blockers_of, waits_on, IsAcyclic}
use workitem.Blockers.Commands.{index_by_id, apply_blocker_add}
use workitem.Blockers.Acyclic.{put-IsAcyclic, IsAcyclic-mono, blockers_of-put, blockers_of_found}
use workitem.Blockers.Growth.{apply_blocker_add_lem, apply_blocker_add-IsAcyclic}
use workitem.Domain.Types.{CommandType, ManifestCommand, CommandEvent}
use workitem.Domain.Tidy.{Tidy, IsTidy, Kept}
use workitem.Domain.Apply.{Outcome, changed_if, dispatch, apply_manifest_command}
use workitem.Domain.Invariants.{dispatch-Kept}

is_add :
    (type : CommandType) → (type ≡ CommandType.blocker_add) ⊎ (type ≡ CommandType.blocker_add → ⊥)
is_add CommandType.edit = inr λ p. cc
is_add CommandType.title_set = inr λ p. cc
is_add CommandType.labels_add = inr λ p. cc
is_add CommandType.labels_remove = inr λ p. cc
is_add CommandType.deep_work_set = inr λ p. cc
is_add CommandType.blocker_add = inl refl
is_add CommandType.blocker_clear = inr λ p. cc
is_add CommandType.state_set = inr λ p. cc
is_add (CommandType.other_type t) = inr λ p. cc

put-IsAcyclic_same :
    (by_id : Map Manifest) (key : String) (m m' : Manifest)
    → m'.blockers ≡ m.blockers
    → IsAcyclic (waits_on (put by_id key m))
    → IsAcyclic (waits_on (put by_id key m'))
put-IsAcyclic_same by_id key m m' same =
    IsAcyclic-mono (waits_on (put by_id key m)) (waits_on (put by_id key m')) λ x y i.
      subst (λ bs. In y (targets bs))
        (blockers_of-put by_id key m' x
          ∙ ap (λ bs. if str_eq key x then bs else blockers_of by_id x) same
          ∙ sym (blockers_of-put by_id key m x))
        i

changed_if-blockers :
    (now : ℕ) (m : Manifest) (events : List CommandEvent)
    → (changed_if now m events).manifest.blockers ≡ m.blockers
changed_if-blockers now m [] = refl
changed_if-blockers now m (e ∷ es) = refl

changed_if-IsTidy :
    (now : ℕ) (m : Manifest) (events : List CommandEvent)
    → IsTidy m
    → IsTidy (changed_if now m events).manifest
changed_if-IsTidy now m [] tidy = tidy
changed_if-IsTidy now m (e ∷ es) tidy = tidy

module _ (digest : String → ℕ → String) (c : ManifestCommand) (m : Manifest)
    (all : List Manifest) where
  add_open :
      (m' : Manifest) (events : List CommandEvent)
      → apply_blocker_add digest c m all ≡ ok (m', events)
      → is_closed m.state ≡ false
  unfolding apply_blocker_add
  add_open m' events run =
      let (_, rest) = refuse_if-then (ltb (length c.blockers) 1) _ _ run in
      let (still_open, _) = refuse_if-then (is_closed m.state) _ _ rest in still_open

  add-IsTidy :
      (m' : Manifest) (events : List CommandEvent)
      → IsTidy m
      → apply_blocker_add digest c m all ≡ ok (m', events)
      → IsTidy m'
  add-IsTidy m' events tidy run =
      let still_open = add_open m' events run in
      let (new, same, _, _) = apply_blocker_add_lem digest c m all m' events run in
      let no_resolution = subst (λ b. Tidy b m.slug m.blockers m.resolution) still_open tidy in
      subst IsTidy (sym same)
        (subst (λ b. Tidy b m.slug (m.blockers ++ new) m.resolution) (sym still_open) no_resolution)

  -- A successful command leaves a tidy item tidy: a closed item has no slug and no blockers and
  -- has one of the three resolutions, and another item has no resolution.
  pub apply_manifest_command-IsTidy :
      (o : Outcome) → IsTidy m → apply_manifest_command digest c m all ≡ ok o → IsTidy o.manifest
  unfolding apply_manifest_command dispatch
  apply_manifest_command-IsTidy o tidy run = elim (is_add c.type) [
    | inl e ↦
        Ensures-ok (λ o. IsTidy o.manifest) run
          (subst (λ t. Ensures (λ o. IsTidy o.manifest) (dispatch digest c m all t)) (sym e)
            (Ensures-bind (λ o. IsTidy o.manifest) (apply_blocker_add digest c m all) _
              λ r h. changed_if-IsTidy c.created_at (r.0) (r.1) (add-IsTidy (r.0) (r.1) tidy h)))
    | inr other ↦
        (Ensures-ok (λ o. Kept m o.manifest) run (dispatch-Kept c m tidy digest all c.type other)).0
  ]

  abbrev Acyclic : Outcome → Type 0
  Acyclic o = IsAcyclic (waits_on (put (index_by_id all) m.id o.manifest))

  -- Where no item waits for itself, none does after a successful command on a tidy item of the
  -- list.
  pub apply_manifest_command-IsAcyclic :
      (o : Outcome)
      → lookup (index_by_id all) m.id ≡ some m
      → IsTidy m
      → IsAcyclic (waits_on (index_by_id all))
      → apply_manifest_command digest c m all ≡ ok o
      → IsAcyclic (waits_on (put (index_by_id all) m.id o.manifest))
  unfolding apply_manifest_command dispatch
  apply_manifest_command-IsAcyclic o here tidy acyclic run = elim (is_add c.type) [
    | inl e ↦ Ensures-ok Acyclic run (
        subst (λ t. Ensures Acyclic (dispatch digest c m all t)) (sym e)
          (Ensures-bind Acyclic (apply_blocker_add digest c m all) _ λ r h.
            put-IsAcyclic_same (index_by_id all) m.id (r.0)
              (changed_if c.created_at (r.0) (r.1)).manifest
              (changed_if-blockers c.created_at (r.0) (r.1))
              (apply_blocker_add-IsAcyclic digest c m all (r.0) (r.1) here acyclic h)))
    | inr other ↦
        let (_, _, _, less) =
          Ensures-ok (λ o. Kept m o.manifest) run
            (dispatch-Kept c m tidy digest all c.type other) in
        put-IsAcyclic (index_by_id all) m.id o.manifest
          (λ y i.
            subst (λ bs. In y (targets bs)) (sym (blockers_of_found (index_by_id all) m.id m here))
              (less y i))
          acyclic
  ]
