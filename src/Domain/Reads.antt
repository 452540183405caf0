-- ===== src/Domain/Reads.antt =====
-- Reads of the database: `CanonicalManifest` and `ClearPendingNativeWrite` of
-- internal/coordinator/domain.go, `committedEdit` of internal/coordinator/edit_item.go and
-- `AttentionActivity` of internal/coordinator/attention_activity.go.
use workitem.Common.{
  ℕ, String, Bool, true, false, not, none, some, List, [], ◌∷◌, Map, lookup, remove, str_eq,
  if◌then◌else◌,
}
use workitem.Model.Error.{Error, Result, ok, fail, refuse_if, ◌>>◌}
use workitem.Model.Blocker.{valid_id}
use workitem.Model.Label.{has_label}
use workitem.Model.Manifest.{Manifest}
use workitem.Domain.Types.{ManifestCommand}
use workitem.Domain.Edit.{same_bool}
use workitem.Domain.Commit.{Database, revision_of}
use workitem.Domain.Execute.{Store}
use workitem.Attention.Markers.{AttentionActivity, read_attention_activity}

pub record CanonicalManifest : Type 0 where
  pub manifest : Manifest
  pub revision : ℕ

-- The repository, which the code resolves last, is no part of the manifest here.
unfoldable pub canonical_manifest : Database → String → Result CanonicalManifest
canonical_manifest db item_id = do
  refuse_if (not (valid_id item_id)) Error.invalid_item_id
  elim (lookup db.manifests item_id) [
    | none ↦ fail Error.not_found
    | some m ↦ ok (record { manifest = m; revision = revision_of (lookup db.revisions item_id) })
  ]

unfoldable pub clear_pending_native_write : Store → String → Store
clear_pending_native_write s command_id = record s {
  pending_writes = remove s.pending_writes command_id;
}

-- Whether the command was executed before. `encode` is the JSON coding of commands.
unfoldable pub committed_edit : (ManifestCommand → String) → Store → ManifestCommand → Result Bool
committed_edit encode s c = elim (lookup s.outcomes c.id) [
  | none ↦ ok false
  | some outcome ↦ do
    refuse_if (not (str_eq (encode c) (encode outcome.command))) Error.different_input
    ok true
]

-- The activity and whether there is any, of an item that exists.
unfoldable pub attention_activity : Database → String → Result (AttentionActivity × Bool)
attention_activity db item_id = do
  refuse_if (not (valid_id item_id)) Error.invalid_item_id
  elim (lookup db.manifests item_id) [
    | none ↦ fail Error.not_found
    | some m ↦ read_attention_activity db.attention item_id
  ]

-- The rules are a map from labels to whether they must stand.
unfoldable pub matches_canonical_labels : List String → Map Bool → Bool
matches_canonical_labels labels [] = true
matches_canonical_labels labels ((label, include) ∷ rules) =
    let rest = matches_canonical_labels labels rules in
    if same_bool (has_label labels label) include then rest else false
