-- ===== src/Model/Fencing.antt =====
-- Generations fence workspace claims: a claim that was assigned is accepted once.
use workitem.Common.{
  ℕ, ◌+◌, ◌-◌, ◌%◌, ◌^◌, ◌<◌, ◌≤◌, ◌≡◌, refl, sym, subst, String, Bool, true, false, not, ◌||◌,
  Option, none, some, ◌==◌, arith,
}
use workitem.Model.Error.{Error, ok, fail, Ensures, Ensures-ok, Ensures-refuse}
use workitem.Model.Claim.{
  WorkspaceClaim, Checkout, max_uint64, is_claimed, assign_new_claim, accept_claim, clear_claim,
}

-- The test of `AcceptClaim`.
abbrev follows : ℕ → ℕ → Bool
follows generation current = generation == 0 || not (generation == (current + 1) % 2 ^ 64)

follows-next : (g : ℕ) → g < 2 ^ 64 - 1 → follows (g + 1) g ≡ false
follows-next g small = ground arith

below : (g : ℕ) → g ≤ 2 ^ 64 - 1 → (g == 2 ^ 64 - 1) ≡ false → g < 2 ^ 64 - 1
below g fits room = ground arith

follows-stale : (g : ℕ) → g < 2 ^ 64 - 1 → follows (g + 1) (g + 1) ≡ true
follows-stale g small = ground arith

abbrev Fenced : Checkout → Checkout × WorkspaceClaim → Type 0
Fenced c (c', claim) =
    (accept_claim c claim ≡ ok c')
    × (accept_claim (clear_claim c') claim ≡ fail Error.generation_does_not_follow)

next_claim-Fenced :
    (c : Checkout) (claim : WorkspaceClaim)
    → is_claimed c.claim ≡ false
    → c.claim_generation < 2 ^ 64 - 1
    → claim.generation ≡ c.claim_generation + 1
    → Fenced c (record c { claim_generation = claim.generation; claim = some claim }, claim)
unfolding accept_claim clear_claim
next_claim-Fenced c claim free small next =
    let accepted : follows claim.generation c.claim_generation ≡ false =
      subst (λ g. follows g c.claim_generation ≡ false) (sym next)
        (follows-next c.claim_generation small) in
    let stale : follows claim.generation claim.generation ≡ true =
      subst (λ g. follows g g ≡ true) (sym next) (follows-stale c.claim_generation small) in
    (rw (free, accepted), rw stale)

assign_new_claim-Fenced :
    (c : Checkout) (new_id : Option String) (executor repository_key slot path : String)
    → c.claim_generation ≤ 2 ^ 64 - 1
    → Ensures (Fenced c) (assign_new_claim c new_id executor repository_key slot path)
unfolding assign_new_claim
assign_new_claim-Fenced c none executor repository_key slot path fits =
    Ensures-refuse (Fenced c) (is_claimed c.claim) Error.already_claimed _ λ _.
      Ensures-refuse (Fenced c) (c.claim_generation == max_uint64) Error.generation_exhausted _
        λ _. tt
assign_new_claim-Fenced c (some id) executor repository_key slot path fits =
    Ensures-refuse (Fenced c) (is_claimed c.claim) Error.already_claimed _ λ free.
      Ensures-refuse (Fenced c) (c.claim_generation == max_uint64) Error.generation_exhausted _
        λ room. next_claim-Fenced c _ free (below c.claim_generation fits room) refl

-- A claim that is newly assigned to a checkout is accepted by a copy of the checkout as it was, which
-- is then the same as the checkout. Once the claim is cleared, the same claim is refused.
pub accept_claim-assign_new_claim :
    (c c' : Checkout) (claim : WorkspaceClaim) (new_id : Option String)
    (executor repository_key slot path : String)
    → c.claim_generation ≤ 2 ^ 64 - 1
    → assign_new_claim c new_id executor repository_key slot path ≡ ok (c', claim)
    → (accept_claim c claim ≡ ok c')
      × (accept_claim (clear_claim c') claim ≡ fail Error.generation_does_not_follow)
accept_claim-assign_new_claim c c' claim new_id executor repository_key slot path fits run =
    Ensures-ok (Fenced c) run
      (assign_new_claim-Fenced c new_id executor repository_key slot path fits)
