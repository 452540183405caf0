-- ===== src/Lease/Table.antt =====
-- The lease table. `NewID` may fail and is an argument; `none` is its failure.
use workitem.Common.{
  ℕ, ◌+◌, ◌*◌, String, Bool, true, false, not, ◌&&◌, ◌||◌, Option, none, some, ltb, Map, lookup,
  put, remove, str_eq, if◌then◌else◌,
}
use workitem.Strings.{trim_space, is_empty, byte_length, is_compact}
use workitem.Model.Error.{Error, Result, ok, fail, refuse_if, ◌>>◌}
use workitem.Model.Blocker.{Time, after, valid_id}

pub data Holder : Type 0 where
  web terminal cli : Holder
  other_holder : String → Holder

-- Equality of the holders' strings.
abbrev pub same_holder : Holder → Holder → Bool
same_holder Holder.web Holder.web = true
same_holder Holder.terminal Holder.terminal = true
same_holder Holder.cli Holder.cli = true
same_holder (Holder.other_holder a) (Holder.other_holder b) = str_eq a b
same_holder _ _ = false

pub record ControlLease : Type 0 where
  pub id : String
  pub item_id : String
  pub holder : Holder
  pub client_id : String
  pub label : String
  pub acquired_at : Time
  pub renewed_at : Time
  pub expires_at : Option Time

abbrev pub is_later : Option Time → Time → Bool
is_later none now = true
is_later (some expires) now = after expires now

abbrev pub live : ControlLease → Time → Bool
live l now = is_later l.expires_at now

pub record LeaseRequest : Type 0 where
  pub item_id : String
  pub holder : Holder
  pub client_id : String
  pub label : String
  pub takeover : Bool
  pub expected_lease_id : Option String
  pub ttl_negative : Bool  -- the sign of `TTLSeconds`
  pub ttl_seconds : ℕ  -- its magnitude

abbrev pub same_client : ControlLease → LeaseRequest → Bool
same_client l r = same_holder l.holder r.holder && str_eq l.client_id r.client_id

pub record LeaseResult : Type 0 where
  pub granted : Bool
  pub lease : Option ControlLease
  pub previous : Option ControlLease

-- `MaxLeaseTTL / time.Second`
abbrev max_lease_ttl : ℕ
max_lease_ttl = 600

-- `time.Second`, in nanoseconds
abbrev second : ℕ
second = 1_000_000_000

abbrev valid_holder : Holder → Bool
valid_holder (Holder.other_holder h) = false
valid_holder _ = true

unfoldable pub validate_lease_request : LeaseRequest → Result (Unit {0})
validate_lease_request r = do
  refuse_if (not (valid_id r.item_id)) Error.invalid_item_id
  refuse_if (not (valid_holder r.holder)) Error.invalid_holder
  refuse_if (is_empty (trim_space r.client_id) || not (is_compact r.client_id 128))
      Error.invalid_client_id
  refuse_if (ltb 200 (byte_length r.label)) Error.label_too_long
  refuse_if (r.ttl_negative || ltb max_lease_ttl r.ttl_seconds) Error.ttl_out_of_range

-- `get`: an expired lease is dropped when it is read.
unfoldable pub get : Map ControlLease → String → Time → Map ControlLease × Option ControlLease
get t item_id now = elim (lookup t item_id) [
  | none ↦ (t, none)
  | some lease ↦ if live lease now then (t, some lease) else (remove t item_id, none)
]

-- The lease that `acquire` finds: an expired one does not count as held.
unfoldable pub held_lease : Map ControlLease → String → Time → Option ControlLease
held_lease t item_id now = elim (lookup t item_id) [
  | none ↦ none
  | some lease ↦ if live lease now then some lease else none
]

abbrev pub lease_id : Option ControlLease → String
lease_id none = ""
lease_id (some lease) = lease.id

-- `request.ExpectedLeaseID != nil && *request.ExpectedLeaseID != id`
abbrev pub unexpected : Option String → String → Bool
unexpected none id = false
unexpected (some expected) id = not (str_eq expected id)

-- Whether the held lease keeps another client out.
abbrev pub refused : Option ControlLease → LeaseRequest → Bool
refused none r = false
refused (some lease) r = not (same_client lease r) && not r.takeover

abbrev expiry : LeaseRequest → Time → Option Time
expiry r now = if ltb 0 r.ttl_seconds then some (now + r.ttl_seconds * second) else none

-- The granted lease: a renewal keeps the id and the time of acquisition.
unfoldable pub granted_lease : Option ControlLease → LeaseRequest → String → Time → ControlLease
granted_lease held r new_id now =
    let fresh : ControlLease = record {
      id = new_id;
      item_id = r.item_id;
      holder = r.holder;
      client_id = r.client_id;
      label = trim_space r.label;
      acquired_at = now;
      renewed_at = now;
      expires_at = expiry r now;
    } in
    elim held [
      | none ↦ fresh
      | some current ↦
          if same_client current r
          then record fresh { acquired_at = current.acquired_at; id = current.id }
          else fresh
    ]

unfoldable pub previous_lease : Option ControlLease → LeaseRequest → Option ControlLease
previous_lease none r = none
previous_lease (some current) r = if same_client current r then none else some current

-- The body of `acquire` behind its validation.
unfoldable pub acquire_held :
    Map ControlLease
    → LeaseRequest
    → Option String
    → Time
    → Option ControlLease
    → Map ControlLease × Result LeaseResult
acquire_held t r new_id now held =
    if unexpected r.expected_lease_id (lease_id held) || refused held r
    then (t, ok (record { granted = false; lease = held; previous = none }))
    else elim new_id [
      | none ↦ (t, fail Error.entropy_failed)
      | some id ↦
          let lease = granted_lease held r id now in
          (
            put t r.item_id lease,
            ok (record { granted = true; lease = some lease; previous = previous_lease held r }),
          )
    ]

unfoldable pub acquire :
    Map ControlLease → LeaseRequest → Option String → Time → Map ControlLease × Result LeaseResult
acquire t r new_id now = elim (validate_lease_request r) [
  | fail e ↦ (t, fail e)
  | ok _ ↦ acquire_held t r new_id now (held_lease t r.item_id now)
]

abbrev not_granted : LeaseResult
not_granted = record { granted = false; lease = none; previous = none }

-- `release` looks at the stored lease, expired or not.
unfoldable pub release : Map ControlLease → LeaseRequest → Map ControlLease × Result LeaseResult
release t r =
    if valid_id r.item_id
    then elim (lookup t r.item_id) [
      | none ↦ (t, ok not_granted)
      | some current ↦
          if unexpected r.expected_lease_id current.id
            || not (same_client current r) && not r.takeover
          then (t, ok not_granted)
          else (
            remove t r.item_id,
            ok (record { granted = true; lease = none; previous = some current }),
          )
    ]
    else (t, fail Error.invalid_item_id)
