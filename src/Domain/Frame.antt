-- ===== src/Domain/Frame.antt =====
-- What a metadata edit leaves alone.
use workitem.Common.{
  ℕ, ◌≡◌, ◌∙◌, refl, subst, String, Bool, true, false, not, ◌||◌, Option, none, some, List, [],
  str_eq, if◌then◌else◌, arith,
}
use workitem.Strings.{is_empty, trim_space}
use workitem.Model.Error.{Error, Result, ok, fail, refuse_if, ◌>>=◌}
use workitem.Model.Blocker.{Time}
use workitem.Model.Label.{normalize_labels, remove_labels, add_labels}
use workitem.Model.Manifest.{Manifest}
use workitem.Domain.Types.{MetadataEdit, EditField}
use workitem.Domain.Edit.{
  Edited, validate_edit_title, edit_title, any_removed, same_labels, edit_labels, edit_deep_work,
  edit_priority, edit_pinned, clear_snooze, edit_snooze, edit_description, valid_description_digest,
  apply_edit, apply_metadata_edit,
}

-- An item without the fields that an edit may change.
abbrev pub core : Manifest → Manifest
core m = record m {
  title = "";
  labels = [];
  deep_work = false;
  priority = 0;
  pinned = false;
  snoozed_until = none;
}

-- Unless a step of the edit fails, it returns an item with that core.
abbrev pub Keeps : Manifest → Result Edited → Type 0
Keeps kept (fail e) = Unit
Keeps kept (ok (m', fields)) = core m' ≡ kept

Keeps-bind {ℓ} :
    {V : Type ℓ} (kept : Manifest) (step : Result V) (next : V → Result Edited)
    → ((v : V) → Keeps kept (next v))
    → Keeps kept (step >>= next)
Keeps-bind kept (fail e) next h = tt
Keeps-bind kept (ok v) next h = h v

Keeps-if :
    (kept : Manifest) (b : Bool) (then_r else_r : Result Edited)
    → Keeps kept then_r
    → Keeps kept else_r
    → Keeps kept (if b then then_r else else_r)
Keeps-if kept true then_r else_r h h' = h
Keeps-if kept false then_r else_r h h' = h'

edit_title-core :
    (t : Option String) (m : Manifest) (fields : List EditField)
    → Keeps (core m) (edit_title t (m, fields))
unfolding edit_title
edit_title-core none m fields = refl
edit_title-core (some t) m fields =
    Keeps-bind (core m) (validate_edit_title (trim_space t)) _
      λ _. Keeps-if (core m) (str_eq m.title (trim_space t)) _ _ refl refl

edit_labels-core :
    (add remove : List String) (m : Manifest) (fields : List EditField)
    → Keeps (core m) (edit_labels add remove (m, fields))
unfolding edit_labels
edit_labels-core add remove m fields = Keeps-bind (core m) (normalize_labels add) _ λ add'.
    Keeps-bind (core m) (normalize_labels remove) _ λ remove'.
      Keeps-bind (core m) (refuse_if (any_removed remove' add') Error.label_added_and_removed) _
        λ _. Keeps-bind (core m) (remove_labels m.labels remove') _ λ r.
          Keeps-bind (core m) (add_labels (r.0) add') _
            λ a. Keeps-if (core m) (same_labels (a.0) m.labels) _ _ refl refl

edit_deep_work-core :
    (b : Option Bool) (m : Manifest) (fields : List EditField)
    → core ((edit_deep_work b (m, fields)).0) ≡ core m
unfolding edit_deep_work
edit_deep_work-core b m fields = ground arith

edit_priority-core :
    (b : Option ℕ) (m : Manifest) (fields : List EditField)
    → core ((edit_priority b (m, fields)).0) ≡ core m
unfolding edit_priority
edit_priority-core b m fields = ground arith

edit_pinned-core :
    (b : Option Bool) (m : Manifest) (fields : List EditField)
    → core ((edit_pinned b (m, fields)).0) ≡ core m
unfolding edit_pinned
edit_pinned-core b m fields = ground arith

clear_snooze-core :
    (b : Bool) (m : Manifest) (fields : List EditField)
    → core ((clear_snooze b (m, fields)).0) ≡ core m
unfolding clear_snooze
clear_snooze-core b m fields = ground arith

edit_snooze-core :
    (b : Option Time) (m : Manifest) (fields : List EditField)
    → core ((edit_snooze b (m, fields)).0) ≡ core m
unfolding edit_snooze
edit_snooze-core b m fields = ground arith

edit_description-core :
    (d p : String) (m : Manifest) (fields : List EditField)
    → Keeps (core m) (edit_description d p (m, fields))
unfolding edit_description
edit_description-core d p m fields =
    Keeps-if (core m) (is_empty d) _ _
      (Keeps-bind (core m) (refuse_if (not (is_empty p)) Error.invalid_digests) _ λ _. refl)
      (Keeps-bind (core m)
        (refuse_if (not (valid_description_digest d) || not (valid_description_digest p))
          Error.invalid_digests)
        _ λ _. Keeps-if (core m) (str_eq d p) _ _ refl refl)

Keeps-then :
    (kept : Manifest) (step : Result Edited) (next : Edited → Result Edited)
    → Keeps kept step
    → ((e : Edited) → core (e.0) ≡ kept → Keeps kept (next e))
    → Keeps kept (step >>= next)
Keeps-then kept (fail x) next k h = tt
Keeps-then kept (ok e) next k h = h e k

-- The steps that cannot fail, in the order of `apply_edit`.
abbrev edit_flags : MetadataEdit → Edited → Edited
edit_flags edit e = edit_snooze edit.snoozed_until (
    clear_snooze edit.clear_snooze
      (edit_pinned edit.pinned (edit_priority edit.priority (edit_deep_work edit.deep_work e))))

edit_flags-core : (edit : MetadataEdit) (e : Edited) → core ((edit_flags edit e).0) ≡ core (e.0)
edit_flags-core edit e =
    let d = edit_deep_work edit.deep_work e in
    let p = edit_priority edit.priority d in
    let n = edit_pinned edit.pinned p in
    let s = clear_snooze edit.clear_snooze n in
    edit_snooze-core edit.snoozed_until (s.0) (s.1)
    ∙ clear_snooze-core edit.clear_snooze (n.0) (n.1)
    ∙ edit_pinned-core edit.pinned (p.0) (p.1)
    ∙ edit_priority-core edit.priority (d.0) (d.1)
    ∙ edit_deep_work-core edit.deep_work (e.0) (e.1)

apply_edit-core : (edit : MetadataEdit) (m : Manifest) → Keeps (core m) (apply_edit edit m)
unfolding apply_edit
apply_edit-core edit m =
    Keeps-then (core m) (edit_title edit.title (m, [])) _ (edit_title-core edit.title m [])
      λ titled keeps.
        Keeps-then (core m) (edit_labels edit.add_labels edit.remove_labels titled) _
          (subst (λ k. Keeps k (edit_labels edit.add_labels edit.remove_labels titled)) keeps
            (edit_labels-core edit.add_labels edit.remove_labels (titled.0) (titled.1)))
          λ labelled keeps'.
            let e = edit_flags edit labelled in
            subst
              (λ k.
                Keeps k
                  (edit_description edit.description_digest edit.previous_description_digest e))
              (edit_flags-core edit labelled ∙ keeps')
              (edit_description-core edit.description_digest edit.previous_description_digest (e.0)
                (e.1))

-- An edit that succeeds leaves everything but the title, the labels, the flags, the priority and
-- the snooze alone.
pub apply_metadata_edit-core :
    (edit : Option MetadataEdit) (m m' : Manifest) (fields : List EditField)
    → apply_metadata_edit edit m ≡ ok (m', fields)
    → core m' ≡ core m
unfolding apply_metadata_edit
apply_metadata_edit-core none m m' fields run = cc
apply_metadata_edit-core (some edit) m m' fields run =
    subst (Keeps (core m)) run (apply_edit-core edit m)
