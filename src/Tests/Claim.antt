-- ===== src/Tests/Claim.antt =====
-- A claim of an item's workspace.
use workitem.Common.{◌≡◌, refl, some, arith}
use workitem.Strings.{trim_space, is_empty}
use workitem.Model.Error.{Error, ok, fail}
use workitem.Model.Claim.{
  WorkspaceClaim, Checkout, assign_new_claim, accept_claim, clear_claim, Presence, presence,
  present, new_checkout,
}
use workitem.Model.Fencing.{accept_claim-assign_new_claim}
use workitem.Tests.Samples.{no_checkout}

abbrev claim : WorkspaceClaim
claim = record {
  id = "claim-1";
  generation = 1;
  executor = "local";
  repository_key = "repo";
  slot = "1";
  path = "/w/1";
}

abbrev claimed : Checkout
claimed = record no_checkout { claim_generation = 1; claim = some claim }

assign_runs :
    assign_new_claim no_checkout (some "claim-1") "local" "repo" "1" "/w/1" ≡ ok (claimed, claim)
unfolding assign_new_claim
assign_runs = refl

accept_claim-assign_new_claim_example :
    (accept_claim no_checkout claim ≡ ok claimed)
    × (accept_claim (clear_claim claimed) claim ≡ fail Error.generation_does_not_follow)
accept_claim-assign_new_claim_example =
    accept_claim-assign_new_claim no_checkout claimed claim (some "claim-1") "local" "repo" "1"
      "/w/1" (omega arith) assign_runs

claim_is_present : presence claimed ≡ Presence.is_present
unfolding presence present trim_space is_empty
claim_is_present = refl

new_is_absent : presence (new_checkout "managed-slot" "local" "wi/a") ≡ Presence.is_absent
unfolding presence present new_checkout trim_space is_empty
new_is_absent = refl
