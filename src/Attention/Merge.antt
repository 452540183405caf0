-- ===== src/Attention/Merge.antt =====
-- No marker is lost: imports and marker writes commute, whatever the order in which they commit.
use workitem.Common.{
  ℕ, ◌≤◌, ◌≡◌, ◌∙◌, refl, sym, ap, String, Bool, true, Option, none, some, Map, lookup, put, ltb,
  ltb→le, put-put, lookup-put_self, str_eq_refl, str_eq, str_eq→eq, not, arith, inl, inr,
  Bool-cases,
}
use workitem.Model.Error.{Result, ok, fail, Error, ◌>>=◌, refuse_if-then, Result-cases}
use workitem.Model.Blocker.{Time}
use workitem.Attention.Markers.{
  AttentionActivity, later_time, Marker, mark, join_markers, read_attention_activity,
  checked_activity, record_attention_marker, merge_imported_attention,
}

later_time_assoc :
    (a b c : Option Time) → later_time (later_time a b) c ≡ later_time a (later_time b c)
unfolding later_time
later_time_assoc none b c = refl
later_time_assoc (some a) none c = refl
later_time_assoc (some a) (some b) none = ground arith
later_time_assoc (some a) (some b) (some c) = ground arith

-- No earlier than.
abbrev pub NotBefore : Option Time → Option Time → Type 0
NotBefore none t = Unit
NotBefore (some s) none = ⊥
NotBefore (some s) (some t) = s ≤ t

ltb→lt-le : (a b : ℕ) → ltb a b ≡ true → a ≤ b
ltb→lt-le a b h = ground arith

later_time_bounds :
    (a b : Option Time) → NotBefore a (later_time a b) × NotBefore b (later_time a b)
unfolding later_time
later_time_bounds none none = (tt, tt)
later_time_bounds none (some b) = (tt, omega arith)
later_time_bounds (some a) none = (omega arith, tt)
later_time_bounds (some a) (some b) = elim (Bool-cases (ltb a b)) [
  | inl e ↦ rw e (ltb→lt-le a b e, omega arith)
  | inr e ↦ rw e (omega arith, ltb→le a b e)
]

-- A marker and an import of the same item give the same markers in either order.
mark-join_markers :
    (imported current : AttentionActivity) (marker : Marker) (at : Time)
    → (mark (join_markers imported current) marker at)
      ≡ (mark current marker at >>= λ marked. ok (join_markers imported marked))
unfolding mark join_markers
mark-join_markers imported current Marker.read at =
    ap (λ t. ok (record (join_markers imported current) { last_read_at = t }))
      (later_time_assoc imported.last_read_at current.last_read_at (some at))
mark-join_markers imported current Marker.unread at =
    ap (λ t. ok (record (join_markers imported current) { last_unread_at = t }))
      (later_time_assoc imported.last_unread_at current.last_unread_at (some at))
mark-join_markers imported current Marker.deferred at =
    ap (λ t. ok (record (join_markers imported current) { last_deferred_at = t }))
      (later_time_assoc imported.last_deferred_at current.last_deferred_at (some at))
mark-join_markers imported current (Marker.other_marker t) at = refl

read_attention_activity-put :
    (bucket : Map AttentionActivity) (item_id : String) (a : AttentionActivity)
    → a.work_item_id ≡ item_id
    → read_attention_activity (put bucket item_id a) item_id ≡ ok (a, true)
unfolding read_attention_activity
read_attention_activity-put bucket item_id a same =
    rw (lookup-put_self bucket item_id a, read_attention_activity)
      (rw same (rw (str_eq_refl item_id)))

abbrev id_of : String → Result (AttentionActivity × Bool) → String
id_of item_id (fail e) = item_id
id_of item_id (ok (a, found)) = a.work_item_id

-- The stored value is of the item that it was looked up for.
checked_activity-id :
    {item_id : String} {a : AttentionActivity} {found : Bool} (stored : Option AttentionActivity)
    → checked_activity item_id stored ≡ ok (a, found)
    → a.work_item_id ≡ item_id
unfolding checked_activity
checked_activity-id {item_id} none h = ap (id_of item_id) (sym h)
checked_activity-id {item_id} (some act) h =
    let (good, stored) =
      refuse_if-then (not (str_eq act.work_item_id item_id)) Error.identity_mismatch
        (ok (act, true)) h in
    ap (id_of item_id) (sym stored) ∙ str_eq→eq act.work_item_id item_id (ground arith)

read_attention_activity-id :
    (bucket : Map AttentionActivity) (item_id : String) (a : AttentionActivity) (found : Bool)
    → read_attention_activity bucket item_id ≡ ok (a, found)
    → a.work_item_id ≡ item_id
unfolding read_attention_activity
read_attention_activity-id bucket item_id a found h = checked_activity-id (lookup bucket item_id) h

module _ (bucket : Map AttentionActivity) (item_id : String) (current : AttentionActivity)
    (found : Bool) (stored : read_attention_activity bucket item_id ≡ ok (current, found)) where
  record_attention_marker_lem :
      (marker : Marker) (at : Time)
      → record_attention_marker bucket item_id marker at
        ≡ (mark current marker at >>= λ m. ok (put bucket m.work_item_id m))
  unfolding record_attention_marker
  record_attention_marker_lem marker at = rw stored

  merge_imported_attention_lem :
      (imported : AttentionActivity)
      → imported.work_item_id ≡ item_id
      → merge_imported_attention bucket item_id imported
        ≡ ok (put bucket item_id (join_markers imported current))
  unfolding merge_imported_attention
  merge_imported_attention_lem imported same = rw same (rw (str_eq_refl item_id) (rw stored))

abbrev marked_id : AttentionActivity → Result AttentionActivity → String
marked_id current (fail e) = current.work_item_id
marked_id current (ok a) = a.work_item_id

mark-id :
    (current marked : AttentionActivity) (marker : Marker) (at : Time)
    → mark current marker at ≡ ok marked
    → marked.work_item_id ≡ current.work_item_id
unfolding mark
mark-id current marked Marker.read at h = ap (marked_id current) (sym h)
mark-id current marked Marker.unread at h = ap (marked_id current) (sym h)
mark-id current marked Marker.deferred at h = ap (marked_id current) (sym h)
mark-id current marked (Marker.other_marker t) at h = cc

-- An import behind a write of the item.
merge-put :
    (bucket : Map AttentionActivity) (item_id key : String) (marked imported : AttentionActivity)
    → key ≡ item_id
    → marked.work_item_id ≡ item_id
    → imported.work_item_id ≡ item_id
    → merge_imported_attention (put bucket key marked) item_id imported
      ≡ ok (put bucket item_id (join_markers imported marked))
merge-put bucket item_id key marked imported is_key marked_id same = rw is_key (
    rw
      (merge_imported_attention_lem (put bucket item_id marked) item_id marked true
        (read_attention_activity-put bucket item_id marked marked_id) imported same)
      (rw (put-put bucket item_id marked (join_markers imported marked))))

overwritten :
    (bucket : Map AttentionActivity) {item_id key : String} (first second : AttentionActivity)
    → key ≡ item_id
    → put (put bucket item_id first) key second ≡ put bucket item_id second
overwritten bucket {item_id} first second is_key = rw is_key (put-put bucket item_id first second)

-- Where the activity of an item can be read, the order in which a marker write and an import of
-- that item commit does not matter: the bucket, or the error, is the same.
pub import_marker_commute :
    (bucket : Map AttentionActivity) (item_id : String) (current imported : AttentionActivity)
    (found : Bool) (marker : Marker) (at : Time)
    → read_attention_activity bucket item_id ≡ ok (current, found)
    → imported.work_item_id ≡ item_id
    → (record_attention_marker bucket item_id marker at >>= λ b.
        merge_imported_attention b item_id imported)
      ≡ (merge_imported_attention bucket item_id imported >>= λ b.
          record_attention_marker b item_id marker at)
unfolding join_markers
import_marker_commute bucket item_id current imported found marker at stored same =
    let current_id = read_attention_activity-id bucket item_id current found stored in
    let joined = join_markers imported current in
    rw (record_attention_marker_lem bucket item_id current found stored marker at) (
      rw (merge_imported_attention_lem bucket item_id current found stored imported same) (
        rw
          (record_attention_marker_lem (put bucket item_id joined) item_id joined true
            (read_attention_activity-put bucket item_id joined same) marker at)
          (rw (mark-join_markers imported current marker at)
            (elim (Result-cases (mark current marker at)) [
              | inl (m, e) ↦
                  let m_id = mark-id current m marker at e ∙ current_id in
                  rw e (
                    merge-put bucket item_id m.work_item_id m imported m_id m_id same
                    ∙ ap ok (sym (overwritten bucket joined (join_markers imported m) same)))
              | inr (x, e) ↦ rw e
            ]))))

-- No marker of the one is later than that of the other.
abbrev pub NoLater : AttentionActivity → AttentionActivity → Type 0
NoLater a b =
    NotBefore a.last_read_at b.last_read_at
    × NotBefore a.last_unread_at b.last_unread_at
    × NotBefore a.last_deferred_at b.last_deferred_at
    × NotBefore a.last_requested_at b.last_requested_at
    × NotBefore a.last_completed_at b.last_completed_at

join_markers_bounds :
    (imported current : AttentionActivity)
    → NoLater imported (join_markers imported current)
      × NoLater current (join_markers imported current)
unfolding join_markers
join_markers_bounds i c =
    let (r, r') = later_time_bounds i.last_read_at c.last_read_at in
    let (u, u') = later_time_bounds i.last_unread_at c.last_unread_at in
    let (d, d') = later_time_bounds i.last_deferred_at c.last_deferred_at in
    let (q, q') = later_time_bounds i.last_requested_at c.last_requested_at in
    let (k, k') = later_time_bounds i.last_completed_at c.last_completed_at in
    ((r, u, d, q, k), (r', u', d', q', k'))

abbrev bucket_or : Map AttentionActivity → Result (Map AttentionActivity) → Map AttentionActivity
bucket_or bucket (fail e) = bucket
bucket_or bucket (ok b) = b

-- A successful import is of the item and stores one activity, that of the item. No marker of the
-- item moves back, neither a stored one nor an imported one.
pub merge_imported_attention-NoLater :
    (bucket bucket' : Map AttentionActivity) (item_id : String)
    (current imported : AttentionActivity) (found : Bool)
    → read_attention_activity bucket item_id ≡ ok (current, found)
    → merge_imported_attention bucket item_id imported ≡ ok bucket'
    → (imported.work_item_id ≡ item_id)
      × ((merged : AttentionActivity) × (bucket' ≡ put bucket item_id merged)
          × NoLater imported merged
          × NoLater current merged)
unfolding merge_imported_attention
merge_imported_attention-NoLater bucket bucket' item_id current imported found stored run =
    let (good, rest) =
      refuse_if-then (not (str_eq imported.work_item_id item_id)) Error.identity_mismatch
        (read_attention_activity bucket item_id >>= λ r.
          ok (put bucket imported.work_item_id (join_markers imported (r.0))))
        run in
    let same = str_eq→eq imported.work_item_id item_id (ground arith) in
    let (not_before, not_before') = join_markers_bounds imported current in
    (
      same,
      (
        join_markers imported current,
        ap (bucket_or bucket) (
            sym run
            ∙ merge_imported_attention_lem bucket item_id current found stored imported same),
        not_before,
        not_before',
      ),
    )
