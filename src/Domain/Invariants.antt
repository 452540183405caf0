-- ===== src/Domain/Invariants.antt =====
-- The invariants that every command keeps.
use workitem.Common.{
  ℕ, ◌≡◌, refl, sym, subst, String, Bool, true, false, Option, none, some, List, [], ◌∷◌, str_eq,
  ltb, length, inl, inr, Bool-cases, In,
}
use workitem.Strings.{is_empty, trim_space}
use workitem.Model.Error.{Error, Ensures, Ensures-ok, Ensures-bind, Ensures-refuse, Ensures-if}
use workitem.Model.Blocker.{Blocker, is_item}
use workitem.Model.Label.{add_labels, remove_labels}
use workitem.Model.Manifest.{Manifest, is_closed}
use workitem.Blockers.Graph.{targets}
use workitem.Blockers.Commands.{clear_blocker, apply_blocker_clear}
use workitem.Domain.Types.{CommandType, ManifestCommand}
use workitem.Domain.Edit.{validate_edit_title, same_bool, apply_metadata_edit}
use workitem.Domain.Frame.{core, apply_metadata_edit-core}
use workitem.Domain.State.{apply_state_set}
use workitem.Domain.Tidy.{Tidy, IsTidy, Kept, apply_state_set-Kept}
use workitem.Domain.Apply.{
  Outcome, if_any, apply_edit_command, apply_title, apply_labels_add, apply_labels_remove,
  apply_deep_work, apply_state_command, dispatch,
}

clear_blocker-targets :
    (id : String) (bs : List Blocker) (y : String)
    → In y (targets ((clear_blocker id bs).0))
    → In y (targets bs)
unfolding clear_blocker targets
clear_blocker-targets id [] y i = i
clear_blocker-targets id (b ∷ bs) y i = elim (Bool-cases (str_eq b.id id)) [
  | inl e ↦ elim (Bool-cases (is_item b.kind)) [
    | inl k ↦ rw k (inr (clear_blocker-targets id bs y (rw e at i)))
    | inr k ↦ rw k (clear_blocker-targets id bs y (rw e at i))
  ]
  | inr e ↦ elim (Bool-cases (is_item b.kind)) [
    | inl k ↦
        rw k
          (elim (rw (e, k) at i) [ inl p ↦ inl p | inr q ↦ inr (clear_blocker-targets id bs y q) ])
    | inr k ↦ rw k (clear_blocker-targets id bs y (rw (e, k) at i))
  ]
]

Tidy-blockers :
    (closed : Bool) (slug resolution : String) (bs bs' : List Blocker)
    → (bs ≡ [] → bs' ≡ [])
    → Tidy closed slug bs resolution
    → Tidy closed slug bs' resolution
Tidy-blockers true slug resolution bs bs' h (s, b, r) = (s, h b, r)
Tidy-blockers false slug resolution bs bs' h t = t

module _ (c : ManifestCommand) (m : Manifest) (tidy : IsTidy m) where
  abbrev pub OutcomeKept : Outcome → Type 0
  OutcomeKept o = Kept m o.manifest

  Kept-refl : Kept m m
  Kept-refl = (tidy, refl, refl, λ y i. i)

  core-Kept : (m' : Manifest) → core m' ≡ core m → Kept m m'
  core-Kept m' same = subst (Kept m) (sym same) Kept-refl

  if_any-Kept {ℓ} :
      {A : Type ℓ} (list : List A) (when_any when_none : Outcome)
      → OutcomeKept when_any
      → OutcomeKept when_none
      → OutcomeKept (if_any list when_any when_none)
  if_any-Kept [] when_any when_none k k' = k'
  if_any-Kept (x ∷ xs) when_any when_none k k' = k

  apply_edit_command-Kept : Ensures OutcomeKept (apply_edit_command c m)
  unfolding apply_edit_command
  apply_edit_command-Kept = Ensures-bind OutcomeKept (apply_metadata_edit c.edit m) _ λ r run.
      let kept = core-Kept (r.0) (apply_metadata_edit-core c.edit m (r.0) (r.1) run) in
      if_any-Kept (r.1) _ _ kept kept

  apply_title-Kept : Ensures OutcomeKept (apply_title c m)
  unfolding apply_title
  apply_title-Kept = Ensures-bind OutcomeKept (validate_edit_title (trim_space c.title)) _ λ _ _.
      Ensures-if OutcomeKept (str_eq (trim_space c.title) m.title) _ _ (λ _. Kept-refl)
        λ _. Kept-refl

  apply_labels_add-Kept : Ensures OutcomeKept (apply_labels_add c m)
  unfolding apply_labels_add
  apply_labels_add-Kept =
      Ensures-bind OutcomeKept (add_labels m.labels c.labels) _
        λ r _. if_any-Kept (r.1) _ _ Kept-refl Kept-refl

  apply_labels_remove-Kept : Ensures OutcomeKept (apply_labels_remove c m)
  unfolding apply_labels_remove
  apply_labels_remove-Kept =
      Ensures-bind OutcomeKept (remove_labels m.labels c.labels) _
        λ r _. if_any-Kept (r.1) _ _ Kept-refl Kept-refl

  apply_deep_work-Kept : (b : Option Bool) → Ensures OutcomeKept (apply_deep_work c m b)
  unfolding apply_deep_work
  apply_deep_work-Kept none = tt
  apply_deep_work-Kept (some new) =
      Ensures-if OutcomeKept (same_bool m.deep_work new) _ _ (λ _. Kept-refl) λ _. Kept-refl

  apply_state_command-Kept :
      (all : List Manifest) → Ensures OutcomeKept (apply_state_command c m all)
  unfolding apply_state_command
  apply_state_command-Kept all = Ensures-bind OutcomeKept (apply_state_set c m all) _ λ r run.
      let kept = Ensures-ok (λ r. Kept m (r.0)) run (apply_state_set-Kept c m all tidy) in
      if_any-Kept (r.1) _ _ kept kept

  apply_blocker_clear-Kept : Ensures (λ r. Kept m (r.0)) (apply_blocker_clear c m)
  unfolding apply_blocker_clear targets clear_blocker
  apply_blocker_clear-Kept =
      Ensures-if (λ r. Kept m (r.0)) (is_empty (trim_space c.blocker_id)) _ _
        (λ _. (
          Tidy-blockers (is_closed m.state) m.slug m.resolution m.blockers [] (λ _. refl) tidy,
          refl,
          refl,
          λ y i. elim i [ ],
        ))
        λ _.
          Ensures-refuse (λ r. Kept m (r.0))
            (ltb (length ((clear_blocker (trim_space c.blocker_id) m.blockers).1)) 1)
            Error.no_such_blocker _
            λ _. (
              Tidy-blockers (is_closed m.state) m.slug m.resolution m.blockers _
                  (λ none_left. rw none_left) tidy,
              refl,
              refl,
              clear_blocker-targets (trim_space c.blocker_id) m.blockers,
            )

  -- Every command but the addition of blockers.
  pub dispatch-Kept :
      (digest : String → ℕ → String) (all : List Manifest) (type : CommandType)
      → (type ≡ CommandType.blocker_add → ⊥)
      → Ensures OutcomeKept (dispatch digest c m all type)
  unfolding dispatch
  dispatch-Kept digest all CommandType.edit _ = apply_edit_command-Kept
  dispatch-Kept digest all CommandType.title_set _ = apply_title-Kept
  dispatch-Kept digest all CommandType.labels_add _ = apply_labels_add-Kept
  dispatch-Kept digest all CommandType.labels_remove _ = apply_labels_remove-Kept
  dispatch-Kept digest all CommandType.deep_work_set _ = apply_deep_work-Kept c.deep_work
  dispatch-Kept digest all CommandType.blocker_add other = absurd (other refl)
  dispatch-Kept digest all CommandType.blocker_clear _ =
      Ensures-bind OutcomeKept (apply_blocker_clear c m) _ λ r run.
        let kept = Ensures-ok (λ r. Kept m (r.0)) run apply_blocker_clear-Kept in
        if_any-Kept (r.1) _ _ kept kept
  dispatch-Kept digest all CommandType.state_set _ = apply_state_command-Kept all
  dispatch-Kept digest all (CommandType.other_type t) _ = tt
