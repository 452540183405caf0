-- ===== src/Lease/History.antt =====
-- The lease table over any sequence of calls.
use workitem.Common.{
  ◌≡◌, ◌∙◌, ◌⊎◌, inl, inr, refl, String, true, false, Option, none, some, List, [], ◌∷◌, Map, All,
  lookup, lookup-put_ne, lookup-remove, str_eq, str_eq-cases, Bool-cases, Option-cases, arith,
}
use workitem.Model.Error.{Result-cases}
use workitem.Model.Blocker.{Time, valid_id}
use workitem.Lease.Table.{
  ControlLease, live, LeaseRequest, same_client, get, acquire, acquire_held, held_lease,
  validate_lease_request, release, granted_lease,
}
use workitem.Lease.Exclusive.{acquire-excludes}

-- A call of one of the methods, with the clock and the id that it draws.
pub data Call : Type 0 where
  get_call : (item_id : String) (now : Time) → Call
  acquire_call : LeaseRequest → (new_id : Option String) (now : Time) → Call
  release_call : LeaseRequest → Call

unfoldable pub step : Map ControlLease → Call → Map ControlLease
step t (get_call item_id now) = (get t item_id now).0
step t (acquire_call r new_id now) = (acquire t r new_id now).0
step t (release_call r) = (release t r).0

unfoldable pub run : Map ControlLease → List Call → Map ControlLease
run t [] = t
run t (call ∷ calls) = run (step t call) calls

-- The request is for another item, or of another client that does not take over.
abbrev pub IsForeignRequest : String → ControlLease → LeaseRequest → Type 0
IsForeignRequest item l r =
    (str_eq r.item_id item ≡ false) ⊎ (same_client l r ≡ false) × (r.takeover ≡ false)

-- A call that may not end the lease `l` of `item`: it comes before the lease expires.
abbrev pub IsForeign : String → ControlLease → Call → Type 0
IsForeign item l (get_call other now) = live l now ≡ true
IsForeign item l (acquire_call r new_id now) = (live l now ≡ true) × IsForeignRequest item l r
IsForeign item l (release_call r) = IsForeignRequest item l r

acquire_held-others :
    (t : Map ControlLease) (r : LeaseRequest) (new_id : Option String) (now : Time)
    (held : Option ControlLease) (item : String)
    → str_eq r.item_id item ≡ false
    → lookup (acquire_held t r new_id now held).0 item ≡ lookup t item
unfolding acquire_held
acquire_held-others t r none now held item other = ground arith
acquire_held-others t r (some id) now held item other =
    ground (arith, lookup-put_ne t r.item_id item (granted_lease held r id now) other)

-- `acquire` and `release` write the entry of their item only.
acquire-others :
    (t : Map ControlLease) (r : LeaseRequest) (new_id : Option String) (now : Time) (item : String)
    → str_eq r.item_id item ≡ false
    → lookup (acquire t r new_id now).0 item ≡ lookup t item
unfolding acquire
acquire-others t r new_id now item other = elim (Result-cases (validate_lease_request r)) [
  | inr (e, bad) ↦ rw (bad, acquire) refl
  | inl (_, valid) ↦
      rw (valid, acquire)
        (acquire_held-others t r new_id now (held_lease t r.item_id now) item other)
]

release-others :
    (t : Map ControlLease) (r : LeaseRequest) (item : String)
    → str_eq r.item_id item ≡ false
    → lookup (release t r).0 item ≡ lookup t item
unfolding release
release-others t r item other = ground (arith, lookup-remove t r.item_id item)

release-excludes :
    (t : Map ControlLease) (r : LeaseRequest) (l : ControlLease)
    → lookup t r.item_id ≡ some l
    → same_client l r ≡ false
    → r.takeover ≡ false
    → (release t r).0 ≡ t
unfolding release
release-excludes t r l found other polite = elim (Bool-cases (valid_id r.item_id)) [
  | inr bad ↦ rw (bad, release) refl
  | inl good ↦ rw (good, found, release) (ground arith)
]

-- Reading an entry drops it only if it has expired.
get-keeps :
    (t : Map ControlLease) (item other : String) (l : ControlLease) (now : Time)
    → live l now ≡ true
    → lookup t item ≡ some l
    → lookup (get t other now).0 item ≡ some l
unfolding get
get-keeps t item other l now alive found = elim (str_eq-cases other item) [
  | inl p ↦ rw p.0 (rw (found, get) (rw alive found))
  | inr p ↦ elim (Option-cases (lookup t other)) [
    | inl e ↦ rw (e, get) found
    | inr (lease, e) ↦ rw (e, get) (ground (arith, lookup-remove t other item, p.1))
  ]
]

step-keeps :
    (t : Map ControlLease) (item : String) (l : ControlLease) (call : Call)
    → IsForeign item l call
    → lookup t item ≡ some l
    → lookup (step t call) item ≡ some l
unfolding step
step-keeps t item l (get_call other now) alive found = get-keeps t item other l now alive found
step-keeps t item l (acquire_call r new_id now) (alive, inl other) found =
    acquire-others t r new_id now item other ∙ found
step-keeps t item l (acquire_call r new_id now) (alive, inr (foreign, polite)) found =
    elim (str_eq-cases r.item_id item) [
      | inl p ↦ rw (acquire-excludes t r new_id now l (rw p.0 found) alive foreign polite).0 found
      | inr p ↦ acquire-others t r new_id now item p.1 ∙ found
    ]
step-keeps t item l (release_call r) (inl other) found = release-others t r item other ∙ found
step-keeps t item l (release_call r) (inr (foreign, polite)) found =
    elim (str_eq-cases r.item_id item) [
      | inl p ↦ rw (release-excludes t r l (rw p.0 found) foreign polite) found
      | inr p ↦ release-others t r item p.1 ∙ found
    ]

-- A lease stands through any calls that are made before it expires, as long as each is about
-- another item, or comes from another client and does not take over.
pub run-keeps :
    (t : Map ControlLease) (item : String) (l : ControlLease) (calls : List Call)
    → All (IsForeign item l) calls
    → lookup t item ≡ some l
    → lookup (run t calls) item ≡ some l
unfolding run
run-keeps t item l [] f found = found
run-keeps t item l (call ∷ calls) f found =
    run-keeps (step t call) item l calls f.1 (step-keeps t item l call f.0 found)
