-- ===== src/Tests/Attention.antt =====
-- Attention markers of one item: a deferral and the import of an older observation.
use workitem.Common.{◌≡◌, refl, true, some, [], ◌∷◌, Map, lookup, put, str_eq}
use workitem.Model.Error.{ok, ◌>>=◌}
use workitem.Attention.Markers.{
  AttentionActivity, no_activity, later_time, Marker, checked_activity, read_attention_activity,
  mark, join_markers, record_attention_marker, merge_imported_attention,
}
use workitem.Attention.Merge.{NoLater, import_marker_commute, merge_imported_attention-NoLater}
use workitem.Tests.Samples.{id_a}

program : Unit {0}
unfolding later_time checked_activity read_attention_activity mark join_markers
    record_attention_marker merge_imported_attention lookup put str_eq
program = tt

abbrev stored : AttentionActivity
stored = record (no_activity id_a) { last_requested_at = some 100; last_read_at = some 300 }

abbrev bucket : Map AttentionActivity
bucket = (id_a, stored) ∷ []

abbrev observed : AttentionActivity
observed = record (no_activity id_a) {
  last_requested_at = some 200;
  last_read_at = some 150;
  observed_at = 400;
  source = "import";
}

abbrev merged : AttentionActivity
merged = record observed { last_read_at = some 300 }

bucket_reads : read_attention_activity bucket id_a ≡ ok (stored, true)
unfolding program
bucket_reads = refl

bucket_merges : merge_imported_attention bucket id_a observed ≡ ok ((id_a, merged) ∷ [])
unfolding program
bucket_merges = refl

import_marker_commute_example :
    (record_attention_marker bucket id_a Marker.deferred 250 >>= λ b.
    merge_imported_attention b id_a observed)
    ≡ (merge_imported_attention bucket id_a observed >>= λ b.
        record_attention_marker b id_a Marker.deferred 250)
import_marker_commute_example =
    import_marker_commute bucket id_a stored observed true Marker.deferred 250 bucket_reads refl

merge_imported_attention-NoLater_example :
    (observed.work_item_id ≡ id_a)
    × ((m : AttentionActivity) × ((id_a, merged) ∷ [] ≡ put bucket id_a m)
        × NoLater observed m
        × NoLater stored m)
merge_imported_attention-NoLater_example =
    merge_imported_attention-NoLater bucket ((id_a, merged) ∷ []) id_a stored observed true
      bucket_reads bucket_merges
