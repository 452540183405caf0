-- ===== src/Tests/Lease.antt =====
-- Leases: two clients and one item.
use workitem.Common.{
  ℕ, ◌≡◌, refl, String, true, false, none, some, List, [], ◌∷◌, Map, lookup, put, str_eq, inr,
}
use workitem.Strings.{trim_space, is_empty, has_control, is_compact}
use workitem.Model.Error.{ok, Ensures}
use workitem.Model.Blocker.{valid_id}
use workitem.Lease.Table.{
  Holder, ControlLease, LeaseRequest, LeaseResult, live, same_client, unexpected, lease_id,
  held_lease, validate_lease_request, granted_lease, previous_lease, acquire_held, acquire, release,
  get,
}
use workitem.Lease.Exclusive.{Renews, acquire-excludes, acquire-grants}
use workitem.Lease.History.{Call, acquire_call, release_call, get_call, run, run-keeps}
use workitem.Tests.Samples.{id_a}

program : Unit {0}
unfolding trim_space is_empty has_control is_compact valid_id held_lease validate_lease_request
    granted_lease previous_lease acquire_held acquire release get lookup put str_eq
program = tt

abbrev request : Holder → String → ℕ → LeaseRequest
request holder client ttl = record {
  item_id = id_a;
  holder = holder;
  client_id = client;
  label = "";
  takeover = false;
  expected_lease_id = none;
  ttl_negative = false;
  ttl_seconds = ttl;
}

-- A browser tab holds the lease from 100 on.
abbrev tab_lease : ControlLease
tab_lease = record {
  id = "L1";
  item_id = id_a;
  holder = Holder.web;
  client_id = "tab-1";
  label = "";
  acquired_at = 100;
  renewed_at = 100;
  expires_at = some 60_000_000_100;
}

abbrev held_by_tab : Map ControlLease
held_by_tab = (id_a, tab_lease) ∷ []

abbrev tab_result : LeaseResult
tab_result = record { granted = true; lease = some tab_lease; previous = none }

tab_acquires :
    acquire [] (request Holder.web "tab-1" 60) (some "L1") 100 ≡ (held_by_tab, ok tab_result)
unfolding program
tab_acquires = refl

acquire-grants_example :
    (l : ControlLease) × (held_by_tab ≡ put [] id_a l)
    × (tab_result.lease ≡ some l)
    × (same_client l (request Holder.web "tab-1" 60) ≡ true)
    × (live l 100 ≡ true)
    × Renews (held_lease [] id_a 100) (request Holder.web "tab-1" 60) l
    × (unexpected none (lease_id (held_lease [] id_a 100)) ≡ false)
acquire-grants_example =
    acquire-grants [] held_by_tab (request Holder.web "tab-1" 60) (some "L1") 100 tab_result
      tab_acquires refl

tab_is_stored : lookup held_by_tab id_a ≡ some tab_lease
unfolding lookup str_eq
tab_is_stored = refl

acquire-excludes_example :
    ((acquire held_by_tab (request Holder.cli "cli-7" 0) (some "L2") 200).0 ≡ held_by_tab)
    × Ensures
        (λ res. (res.granted ≡ false) × (res.lease ≡ some tab_lease))
        (acquire held_by_tab (request Holder.cli "cli-7" 0) (some "L2") 200).1
acquire-excludes_example =
    acquire-excludes held_by_tab (request Holder.cli "cli-7" 0) (some "L2") 200 tab_lease
      tab_is_stored refl refl refl

abbrev calls : List Call
calls =
    acquire_call (request Holder.cli "cli-7" 0) (some "L2") 200
    ∷ get_call id_a 300
    ∷ release_call (request Holder.cli "cli-7" 0)
    ∷ []

run-keeps_example : lookup (run held_by_tab calls) id_a ≡ some tab_lease
run-keeps_example =
    run-keeps held_by_tab id_a tab_lease calls
      ((refl, inr (refl, refl)), (refl, (inr (refl, refl), tt))) tab_is_stored
