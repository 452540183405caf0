-- ===== src/Tests/Reads.antt =====
-- Reads of a store, and names made of ids.
use workitem.Common.{◌≡◌, refl, true, false, [], ◌∷◌, lookup, remove, contains, str_eq}
use workitem.Strings.{trim_space, trim_hyphens, is_empty, is_space, to_lower, concat, take_runes}
use workitem.Model.Error.{Error, ok, fail}
use workitem.Model.Blocker.{valid_id}
use workitem.Model.Label.{label_class, label_loop, normalize_label, has_label}
use workitem.Model.Slug.{
  slug_class, slug_loop, slugify, drop_runes, item_id_suffix, item_branch_name, id_derived_slug,
  terminal_session_name,
}
use workitem.Attention.Markers.{no_activity, checked_activity, read_attention_activity}
use workitem.Domain.Reads.{
  canonical_manifest, clear_pending_native_write, committed_edit, attention_activity,
  matches_canonical_labels,
}
use workitem.Tests.Samples.{id_a, id_b, item_a}
use workitem.Tests.Execute.{encode, deep_command, store, stored}

program : Unit {0}
unfolding trim_space trim_hyphens is_empty is_space to_lower concat take_runes valid_id label_class
    label_loop normalize_label has_label slug_class slug_loop slugify drop_runes item_id_suffix
    item_branch_name id_derived_slug terminal_session_name checked_activity read_attention_activity
    canonical_manifest clear_pending_native_write committed_edit attention_activity
    matches_canonical_labels lookup remove contains str_eq
program = tt

a_is_read : canonical_manifest store.database id_a ≡ ok (record { manifest = item_a; revision = 3 })
unfolding program
a_is_read = refl

b_is_missing : attention_activity store.database id_b ≡ fail Error.not_found
unfolding program
b_is_missing = refl

a_has_no_activity : attention_activity store.database id_a ≡ ok (no_activity id_a, false)
unfolding program
a_has_no_activity = refl

command_is_committed : committed_edit encode stored deep_command ≡ ok true
unfolding program
command_is_committed = refl

no_write_is_left : clear_pending_native_write stored "cmd-1" ≡ stored
unfolding program
no_write_is_left = refl

rules_match : matches_canonical_labels ("bug" ∷ []) (("Bug", true) ∷ ("later", false) ∷ []) ≡ true
unfolding program
rules_match = refl

branch_name : item_branch_name "Fix Login" "01HZX7ABCDEFGH" ≡ "wi/fix-login-abcdefgh"
unfolding program
branch_name = refl

derived_slug : id_derived_slug "" ≡ "item-item"
unfolding program
derived_slug = refl

session_name : terminal_session_name "01HZX7ABCDEFGH" ≡ "wi-01HZX7ABCDEF"
unfolding program
session_name = refl
