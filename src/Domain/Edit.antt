-- ===== src/Domain/Edit.antt =====
-- `applyMetadataEdit` of internal/coordinator/edit_item.go: the item after the edit, and the fields
-- that it changed with the values that `applyManifestCommand` reports of them.
use workitem.Common.{
  ℕ, String, Bool, true, false, not, ◌&&◌, ◌||◌, Option, none, some, List, [], ◌∷◌, ◌++◌, ltb, leb,
  ◌==◌, str_eq, if◌then◌else◌,
}
use workitem.Strings.{all_runes, byte_length, has_control, is_empty, rune_count, trim_space}
use workitem.Model.Error.{Error, Result, ok, fail, refuse_if, ◌>>=◌, ◌>>◌}
use workitem.Model.Blocker.{Time}
use workitem.Model.Label.{normalize_labels, has_label, add_labels, remove_labels}
use workitem.Model.Manifest.{Manifest}
use workitem.Domain.Types.{MetadataEdit, EditField}

-- A text is valid UTF-8, so that test is left out.
unfoldable pub validate_edit_title : String → Result (Unit {0})
validate_edit_title title =
    refuse_if (is_empty title || ltb 512 (byte_length title) || has_control title)
      Error.invalid_title

-- 64 digits of lower-case hexadecimal.
unfoldable pub valid_description_digest : String → Bool
valid_description_digest value =
    all_runes (λ c. leb b'0' c && leb c b'9' || leb b'a' c && leb c b'f') value
    && rune_count value == 64

abbrev pub same_bool : Bool → Bool → Bool
same_bool true b = b
same_bool false b = not b

-- Labels hold no NUL and are not empty, so joined by NULs they are equal if they are equal.
abbrev pub same_labels : List String → List String → Bool
same_labels [] [] = true
same_labels (a ∷ as') (b ∷ bs) = str_eq a b && same_labels as' bs
same_labels _ _ = false

-- The state of the edit: the item and the changed fields.
abbrev pub Edited : Type 0
Edited = Manifest × List EditField

unfoldable pub edit_title : Option String → Edited → Result Edited
edit_title none e = ok e
edit_title (some requested) (m, fields) = do
  validate_edit_title (trim_space requested)
  if str_eq m.title (trim_space requested)
      then ok (m, fields)
      else ok (
        record m { title = trim_space requested },
        fields ++ EditField.title (trim_space requested) ∷ [],
      )

-- `for _, label := range add { if HasLabel(remove, label) }`
unfoldable pub any_removed : List String → List String → Bool
any_removed remove [] = false
any_removed remove (label ∷ labels) = has_label remove label || any_removed remove labels

unfoldable pub edit_labels : List String → List String → Edited → Result Edited
edit_labels add_requested remove_requested (m, fields) = do
  add ← normalize_labels add_requested
  remove ← normalize_labels remove_requested
  refuse_if (any_removed remove add) Error.label_added_and_removed
  (kept, _) ← remove_labels m.labels remove
  (labels, _) ← add_labels kept add
  if same_labels labels m.labels
      then ok (m, fields)
      else ok (record m { labels = labels }, fields ++ EditField.labels labels ∷ [])

unfoldable pub edit_deep_work : Option Bool → Edited → Edited
edit_deep_work none e = e
edit_deep_work (some new) (m, fields) =
    if same_bool m.deep_work new
    then (m, fields)
    else (record m { deep_work = new }, fields ++ EditField.deep_work new ∷ [])

unfoldable pub edit_priority : Option ℕ → Edited → Edited
edit_priority none e = e
edit_priority (some new) (m, fields) =
    if m.priority == new
    then (m, fields)
    else (record m { priority = new }, fields ++ EditField.priority ∷ [])

unfoldable pub edit_pinned : Option Bool → Edited → Edited
edit_pinned none e = e
edit_pinned (some new) (m, fields) =
    if same_bool m.pinned new
    then (m, fields)
    else (record m { pinned = new }, fields ++ EditField.pinned ∷ [])

abbrev is_some {ℓ} : {A : Type ℓ} → Option A → Bool
is_some none = false
is_some (some a) = true

unfoldable pub clear_snooze : Bool → Edited → Edited
clear_snooze requested (m, fields) =
    if requested && is_some m.snoozed_until
    then (record m { snoozed_until = none }, fields ++ EditField.snoozed_until ∷ [])
    else (m, fields)

abbrev is_until : Option Time → Time → Bool
is_until none t = false
is_until (some u) t = u == t

unfoldable pub edit_snooze : Option Time → Edited → Edited
edit_snooze none e = e
edit_snooze (some until) (m, fields) =
    if is_until m.snoozed_until until
    then (m, fields)
    else (record m { snoozed_until = some until }, fields ++ EditField.snoozed_until ∷ [])

-- The description itself is staged on disk; only its digests are seen here.
unfoldable pub edit_description : String → String → Edited → Result Edited
edit_description digest previous (m, fields) =
    if is_empty digest
    then (do refuse_if (not (is_empty previous)) Error.invalid_digests; ok (m, fields))
    else (do
      refuse_if (not (valid_description_digest digest) || not (valid_description_digest previous))
          Error.invalid_digests
      if str_eq digest previous
          then ok (m, fields)
          else ok (m, fields ++ EditField.description digest ∷ []))

unfoldable pub apply_edit : MetadataEdit → Manifest → Result Edited
apply_edit edit m = do
  titled ← edit_title edit.title (m, [])
  labelled ← edit_labels edit.add_labels edit.remove_labels titled
  edit_description edit.description_digest edit.previous_description_digest (
      edit_snooze edit.snoozed_until (
        clear_snooze edit.clear_snooze (
          edit_pinned edit.pinned
            (edit_priority edit.priority (edit_deep_work edit.deep_work labelled)))))

unfoldable pub apply_metadata_edit : Option MetadataEdit → Manifest → Result Edited
apply_metadata_edit none m = fail Error.edit_required
apply_metadata_edit (some edit) m = apply_edit edit m
