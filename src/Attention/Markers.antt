-- ===== src/Attention/Markers.antt =====
-- The markers of one item, and the writes that move them. The projection bucket is a map, and
-- decoding its JSON is left out.
use workitem.Common.{
  String, Bool, true, false, Option, none, some, Map, lookup, put, str_eq, not, if◌then◌else◌,
}
use workitem.Model.Error.{Error, Result, ok, fail, refuse_if, ◌>>=◌, ◌>>◌}
use workitem.Model.Blocker.{Time, after}

pub record AttentionActivity : Type 0 where
  pub work_item_id : String
  pub last_requested_at : Option Time
  pub last_completed_at : Option Time
  pub last_deferred_at : Option Time
  pub last_read_at : Option Time
  pub last_unread_at : Option Time
  pub observed_at : Time
  pub source : String

abbrev pub no_activity : String → AttentionActivity
no_activity item_id = record {
  work_item_id = item_id;
  last_requested_at = none;
  last_completed_at = none;
  last_deferred_at = none;
  last_read_at = none;
  last_unread_at = none;
  observed_at = 0;
  source = "";
}

-- `laterTime` of internal/coordinator/external_observer.go
unfoldable pub later_time : Option Time → Option Time → Option Time
later_time none right = right
later_time (some left) none = some left
later_time (some left) (some right) = if after right left then some right else some left

-- The value read for a key, which must be of that item.
unfoldable pub checked_activity :
    String → Option AttentionActivity → Result (AttentionActivity × Bool)
checked_activity item_id none = ok (no_activity item_id, false)
checked_activity item_id (some activity) = do
  refuse_if (not (str_eq activity.work_item_id item_id)) Error.identity_mismatch
  ok (activity, true)

unfoldable pub read_attention_activity :
    Map AttentionActivity → String → Result (AttentionActivity × Bool)
unfolding checked_activity
read_attention_activity bucket item_id = checked_activity item_id (lookup bucket item_id)

pub data Marker : Type 0 where
  read unread deferred : Marker
  other_marker : String → Marker

-- The `switch eventType` of `recordAttentionMarkerTx`.
unfoldable pub mark : AttentionActivity → Marker → Time → Result AttentionActivity
unfolding later_time
mark a Marker.read at = ok (record a { last_read_at = later_time a.last_read_at (some at) })
mark a Marker.unread at = ok (record a { last_unread_at = later_time a.last_unread_at (some at) })
mark a Marker.deferred at =
    ok (record a { last_deferred_at = later_time a.last_deferred_at (some at) })
mark a (Marker.other_marker t) at = fail Error.invalid_marker_event

unfoldable pub record_attention_marker :
    Map AttentionActivity → String → Marker → Time → Result (Map AttentionActivity)
record_attention_marker bucket item_id marker at = do
  (activity, _) ← read_attention_activity bucket item_id
  marked ← mark activity marker at
  ok (put bucket marked.work_item_id marked)

-- The imported markers joined with the stored ones.
unfoldable pub join_markers : AttentionActivity → AttentionActivity → AttentionActivity
join_markers imported current = record imported {
  last_read_at = later_time imported.last_read_at current.last_read_at;
  last_unread_at = later_time imported.last_unread_at current.last_unread_at;
  last_deferred_at = later_time imported.last_deferred_at current.last_deferred_at;
  last_requested_at = later_time imported.last_requested_at current.last_requested_at;
  last_completed_at = later_time imported.last_completed_at current.last_completed_at;
}

unfoldable pub merge_imported_attention :
    Map AttentionActivity → String → AttentionActivity → Result (Map AttentionActivity)
merge_imported_attention bucket item_id imported = do
  refuse_if (not (str_eq imported.work_item_id item_id)) Error.identity_mismatch
  (current, _) ← read_attention_activity bucket item_id
  ok (put bucket imported.work_item_id (join_markers imported current))
