-- ===== src/Model/Label.antt =====
-- Labels: internal/model/labels.go. The Go sets `seen` hold exactly the labels that stand in the
-- list being built, so the list serves for both.
use Prim.Native.Char.{code}
use workitem.Common.{
  ℕ, String, Bool, true, false, not, ◌&&◌, ◌||◌, List, [], ◌∷◌, ◌++◌, leb, ◌==◌, contains,
  if◌then◌else◌,
}
use workitem.Strings.{trim_space, trim_hyphens, to_lower, is_space, is_empty}
use workitem.Model.Error.{Error, Result, ok, fail, refuse_if, ◌>>=◌, ◌>>◌}

pub data RuneClass : Type 0 where
  kept gap other : RuneClass

abbrev pub lower_or_digit : ℕ → Bool
lower_or_digit c = leb b'a' c && leb c b'z' || leb b'0' c && leb c b'9'

unfoldable pub label_class : ℕ → RuneClass
label_class c =
    if lower_or_digit c || c == b'_' || c == b'-' || c == b'.' || c == b'/'
    then RuneClass.kept
    else if is_space c
    then RuneClass.gap
    else RuneClass.other

abbrev pub hyphen_if : Bool → String → String
hyphen_if true rest = String.◌∷◌ "-" rest
hyphen_if false rest = rest

-- The loop over the runes, for `b.Len() > 0` and `lastSep`: what it still writes.
unfoldable pub label_loop : Bool → Bool → String → Result String
label_loop started last_sep String.[] = ok ""
label_loop started last_sep (String.◌∷◌ c s) = elim (label_class (code c)) [
  | RuneClass.kept ↦ do rest ← label_loop true false s; ok (String.◌∷◌ c rest)
  | RuneClass.gap ↦ do
    rest ← label_loop started (last_sep || started) s
    ok (hyphen_if (started && not last_sep) rest)
  | RuneClass.other ↦ fail Error.unsafe_label
]

unfoldable pub normalize_label : String → Result String
normalize_label label = do
  refuse_if (is_empty (trim_space label)) Error.empty_label
  out ← label_loop false false (to_lower (trim_space label))
  refuse_if (is_empty (trim_hyphens out)) Error.empty_label
  ok (trim_hyphens out)

abbrev pub add_new : List String → String → List String
add_new out label = if contains out label then out else out ++ label ∷ []

unfoldable pub normalize_labels_from : List String → List String → Result (List String)
normalize_labels_from out [] = ok out
normalize_labels_from out (label ∷ labels) = do
  normalized ← normalize_label label
  normalize_labels_from (add_new out normalized) labels

unfoldable pub normalize_labels : List String → Result (List String)
unfolding normalize_labels_from
normalize_labels labels = normalize_labels_from [] labels

-- The second loop of `AddLabels`: the labels, and those that were added.
unfoldable pub add_labels_from :
    List String → List String → List String → Result (List String × List String)
add_labels_from out added [] = ok (out, added)
add_labels_from out added (label ∷ labels) = do
  normalized ← normalize_label label
  add_labels_from (add_new out normalized)
      (if contains out normalized then added else added ++ normalized ∷ []) labels

unfoldable pub add_labels : List String → List String → Result (List String × List String)
unfolding normalize_labels add_labels_from
add_labels existing labels = do out ← normalize_labels existing; add_labels_from out [] labels

-- The loops of `RemoveLabels`.
unfoldable pub removals : List String → Result (List String)
removals [] = ok []
removals (label ∷ labels) = do
  normalized ← normalize_label label
  rest ← removals labels
  ok (normalized ∷ rest)

unfoldable pub remove_labels_from : List String → List String → Result (List String × List String)
remove_labels_from remove [] = ok ([], [])
remove_labels_from remove (label ∷ labels) = do
  normalized ← normalize_label label
  (out, removed) ← remove_labels_from remove labels
  ok (
    if contains remove normalized then out else normalized ∷ out,
    if contains remove normalized then normalized ∷ removed else removed,
  )

unfoldable pub remove_labels : List String → List String → Result (List String × List String)
unfolding removals remove_labels_from
remove_labels existing labels = do remove ← removals labels; remove_labels_from remove existing

unfoldable pub has_label : List String → String → Bool
has_label labels label = elim (normalize_label label) [
  | ok normalized ↦ contains labels normalized
  | fail e ↦ false
]
