-- ===== src/Lease/Exclusive.antt =====
-- One client at a time: what `acquire` and `release` grant, and what other clients cannot undo.
use workitem.Common.{
  Bool, ◌≡◌, inl, inr, refl, String, true, false, Option, none, some, Map, lookup, put, str_eq_refl,
  arith,
}
use workitem.Model.Error.{Ensures, ok, Result-cases}
use workitem.Model.Blocker.{Time}
use workitem.Lease.Table.{
  Holder, same_holder, ControlLease, live, LeaseRequest, same_client, LeaseResult, held_lease,
  lease_id, unexpected, refused, granted_lease, acquire_held, acquire, validate_lease_request,
}

held_lease-live :
    (t : Map ControlLease) (item : String) (now : Time) (l : ControlLease)
    → lookup t item ≡ some l
    → live l now ≡ true
    → held_lease t item now ≡ some l
unfolding held_lease
held_lease-live t item now l found alive = rw (found, held_lease) (rw alive)

acquire_held-refused :
    (t : Map ControlLease) (r : LeaseRequest) (new_id : Option String) (now : Time)
    (l : ControlLease)
    → same_client l r ≡ false
    → r.takeover ≡ false
    → acquire_held t r new_id now (some l)
      ≡ (t, ok (record { granted = false; lease = some l; previous = none }))
unfolding acquire_held
acquire_held-refused t r new_id now l other polite = ground arith

-- While a live lease of another client stands, a request that does not take over is granted
-- nothing, leaves the table alone, and is told the lease that stands, unless
-- the request is invalid.
pub acquire-excludes :
    (t : Map ControlLease) (r : LeaseRequest) (new_id : Option String) (now : Time)
    (l : ControlLease)
    → lookup t r.item_id ≡ some l
    → live l now ≡ true
    → same_client l r ≡ false
    → r.takeover ≡ false
    → ((acquire t r new_id now).0 ≡ t)
      × Ensures (λ res. (res.granted ≡ false) × (res.lease ≡ some l)) (acquire t r new_id now).1
unfolding acquire
acquire-excludes t r new_id now l found alive other polite =
    elim (Result-cases (validate_lease_request r)) [
      | inr (e, bad) ↦ rw (bad, acquire) (refl, tt)
      | inl (_, valid) ↦
          rw (valid, acquire)
            (rw (held_lease-live t r.item_id now l found alive)
              (rw (acquire_held-refused t r new_id now l other polite) (refl, (refl, refl))))
    ]

same_holder_refl : (h : Holder) → same_holder h h ≡ true
same_holder_refl Holder.web = refl
same_holder_refl Holder.terminal = refl
same_holder_refl Holder.cli = refl
same_holder_refl (Holder.other_holder s) = str_eq_refl s

module _ (held : Option ControlLease) (r : LeaseRequest) (id : String) (now : Time) where
  granted_lease-holder :
      ((granted_lease held r id now).holder ≡ r.holder)
      × ((granted_lease held r id now).client_id ≡ r.client_id)
      × (live (granted_lease held r id now) now ≡ true)
  unfolding granted_lease
  granted_lease-holder = ground arith

abbrev pub GoesOn : Bool → ControlLease → ControlLease → Type 0
GoesOn true old l = (l.id ≡ old.id) × (l.acquired_at ≡ old.acquired_at)
GoesOn false old l = Unit

-- A lease that the requesting client held goes on in the new one.
abbrev pub Renews : Option ControlLease → LeaseRequest → ControlLease → Type 0
Renews none r l = Unit
Renews (some old) r l = GoesOn (same_client old r) old l

granted_lease-GoesOn :
    (old : ControlLease) (r : LeaseRequest) (id : String) (now : Time) (same : Bool)
    → same_client old r ≡ same
    → GoesOn same old (granted_lease (some old) r id now)
unfolding granted_lease
granted_lease-GoesOn old r id now true same = (rw same, rw same)
granted_lease-GoesOn old r id now false other = tt

granted_lease-Renews :
    (held : Option ControlLease) (r : LeaseRequest) (id : String) (now : Time)
    → Renews held r (granted_lease held r id now)
granted_lease-Renews none r id now = tt
granted_lease-Renews (some old) r id now =
    granted_lease-GoesOn old r id now (same_client old r) refl

acquire_held-grants :
    (t t' : Map ControlLease) (r : LeaseRequest) (new_id : Option String) (now : Time)
    (held : Option ControlLease) (res : LeaseResult)
    → acquire_held t r new_id now held ≡ (t', ok res)
    → res.granted ≡ true
    → (id : String) × (t' ≡ put t r.item_id (granted_lease held r id now))
      × (res.lease ≡ some (granted_lease held r id now))
      × (refused held r ≡ false)
      × (unexpected r.expected_lease_id (lease_id held) ≡ false)
unfolding acquire_held
acquire_held-grants t t' r none now held res h g = absurd (ground arith)
acquire_held-grants t t' r (some id) now held res h g =
    (id, ground arith, ground arith, ground arith, ground arith)

-- A granted request stores one lease and is told it. The lease is live, it is the requesting
-- client's, it keeps the id and the time of acquisition of a lease that this client held, and a
-- lease id that the request expected is that of the lease held before, or empty if there was none.
pub acquire-grants :
    (t t' : Map ControlLease) (r : LeaseRequest) (new_id : Option String) (now : Time)
    (res : LeaseResult)
    → acquire t r new_id now ≡ (t', ok res)
    → res.granted ≡ true
    → (l : ControlLease) × (t' ≡ put t r.item_id l)
      × (res.lease ≡ some l)
      × (same_client l r ≡ true)
      × (live l now ≡ true)
      × Renews (held_lease t r.item_id now) r l
      × (unexpected r.expected_lease_id (lease_id (held_lease t r.item_id now)) ≡ false)
unfolding acquire
acquire-grants t t' r new_id now res h g = elim (Result-cases (validate_lease_request r)) [
  | inr (e, bad) ↦ absurd (cc (rw (bad, acquire) at h))
  | inl (_, valid) ↦
      let held = held_lease t r.item_id now in
      let (id, stored, told, admitted, expected) =
        acquire_held-grants t t' r new_id now held res (rw (valid, acquire) at h) g in
      let (holder, client, alive) = granted_lease-holder held r id now in
      (
        granted_lease held r id now,
        stored,
        told,
        rw (holder, client) (rw (same_holder_refl r.holder) (str_eq_refl r.client_id)),
        alive,
        granted_lease-Renews held r id now,
        expected,
      )
]
