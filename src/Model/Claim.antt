-- ===== src/Model/Claim.antt =====
-- Workspace claims: the checkout of internal/model/manifest.go.
use workitem.Common.{
  ℕ, ◌+◌, ◌-◌, ◌%◌, ◌^◌, String, Bool, true, false, not, ◌||◌, Option, none, some, ◌==◌, ltb,
  if◌then◌else◌,
}
use workitem.Strings.{trim_space, is_empty}
use workitem.Model.Error.{Error, Result, ok, fail, refuse_if, ◌>>◌}

pub record CheckoutSpecification : Type 0 where
  pub kind : String
  pub executor : String
  pub branch : String

pub record WorkspaceClaim : Type 0 where
  pub id : String
  pub generation : ℕ  -- uint64
  pub executor : String
  pub repository_key : String
  pub slot : String
  pub path : String

pub record Checkout : Type 0 where
  pub specification : CheckoutSpecification
  pub claim_generation : ℕ  -- uint64
  pub claim : Option WorkspaceClaim

-- `^uint64(0)`
abbrev pub max_uint64 : ℕ
max_uint64 = 2 ^ 64 - 1

abbrev pub is_claimed : Option WorkspaceClaim → Bool
is_claimed none = false
is_claimed (some claim) = true

-- `NewID` draws from the clock and from random bytes, and may fail: its result is an argument.
unfoldable pub assign_new_claim :
    Checkout
    → Option String
    → (executor repository_key slot path : String) → Result (Checkout × WorkspaceClaim)
assign_new_claim c new_id executor repository_key slot path = do
  refuse_if (is_claimed c.claim) Error.already_claimed
  refuse_if (c.claim_generation == max_uint64) Error.generation_exhausted
  elim new_id [
    | none ↦ fail Error.entropy_failed
    | some id ↦
        let claim : WorkspaceClaim = record {
          id = id;
          generation = c.claim_generation + 1;
          executor = executor;
          repository_key = repository_key;
          slot = slot;
          path = path;
        } in
        ok (record c { claim_generation = claim.generation; claim = some claim }, claim)
  ]

-- `c.ClaimGeneration + 1` wraps at 2 ^ 64.
unfoldable pub accept_claim : Checkout → WorkspaceClaim → Result Checkout
accept_claim c claim = do
  refuse_if (is_claimed c.claim) Error.already_claimed
  refuse_if (claim.generation == 0 || not (claim.generation == (c.claim_generation + 1) % 2 ^ 64))
      Error.generation_does_not_follow
  ok (record c { claim_generation = claim.generation; claim = some claim })

unfoldable pub ever_materialized : Checkout → Bool
ever_materialized c = ltb 0 c.claim_generation

abbrev has_path : Option WorkspaceClaim → Bool
has_path none = false
has_path (some claim) = not (is_empty (trim_space claim.path))

unfoldable pub present : Checkout → Bool
unfolding trim_space is_empty
present c = has_path c.claim

unfoldable pub clear_claim : Checkout → Checkout
clear_claim c = record c { claim = none }

-- `CheckoutPresent` and `CheckoutAbsent`
pub data Presence : Type 0 where
  is_present is_absent : Presence

unfoldable pub presence : Checkout → Presence
unfolding present
presence c = if present c then Presence.is_present else Presence.is_absent

unfoldable pub new_checkout : (kind executor branch : String) → Checkout
new_checkout kind executor branch = record {
  specification = record { kind = kind; executor = executor; branch = branch };
  claim_generation = 0;
  claim = none;
}
