-- ===== src/Runtime/Fence.antt =====
-- Which runtime events are taken, and what they leave alone.
use workitem.Common.{
  ◌≡◌, ◌⊎◌, ◌∙◌, refl, sym, ap, true, false, not, ◌&&◌, Option, none, some, List, [], str_eq,
  str_eq→eq, inl, inr, Bool-cases,
}
use workitem.Strings.{is_empty}
use workitem.Model.Error.{Error, Result, ok, refuse_if-then, ok-of_bind}
use workitem.Model.Blocker.{Time}
use workitem.Model.Claim.{Checkout, WorkspaceClaim}
use workitem.Content.Equality.{and_parts, eqb→eq, differ}
use workitem.Runtime.Types.{
  RuntimeActivity, RuntimeSemanticEvent, AgentRuntime, AgentObservation, quiet_outcome,
  new_activity,
}
use workitem.Runtime.Activity.{is_stale, apply_runtime_activity}
use workitem.Runtime.Ingest.{
  ingest_runtime_event, validate_event, check_owner, check_claim, claims, applied_activity,
  written_updates, readiness_updates, activity_updates, is_settings_event, ProjectionUpdate, or_new,
  or_ready, unset_readiness,
}

-- The claim of the workspace that the runtime was started with, if there was one, is the current one.
abbrev pub HoldsClaim : AgentRuntime → Checkout → Type 0
HoldsClaim r c =
    (is_empty r.workspace_claim_id ≡ true)
    ⊎ (claim : WorkspaceClaim) × (c.claim ≡ some claim)
      × (claim.id ≡ r.workspace_claim_id)
      × (claim.generation ≡ r.workspace_claim_generation)

check_owner-cases :
    (owner : Option AgentRuntime) (e : RuntimeSemanticEvent) (r : AgentRuntime)
    → check_owner owner e ≡ ok r
    → (owner ≡ some r) × (r.id ≡ e.runtime_id)
unfolding check_owner
check_owner-cases none e r h = cc
check_owner-cases (some o) e r h = elim (Bool-cases (str_eq o.id e.runtime_id)) [
  | inl b ↦
      let k : Result.ok o ≡ ok r = rw b at h in
      let same : o ≡ r = cc in
      (ap some same, sym (ap (λ x. x.id) same) ∙ str_eq→eq o.id e.runtime_id b)
  | inr b ↦ let k = rw b at h in cc
]

claims-cases :
    (r : AgentRuntime) (claim : Option WorkspaceClaim)
    → claims r claim ≡ true
    → (c : WorkspaceClaim) × (claim ≡ some c)
      × (c.id ≡ r.workspace_claim_id)
      × (c.generation ≡ r.workspace_claim_generation)
claims-cases r none h = cc
claims-cases r (some c) h =
    let p = and_parts (str_eq c.id r.workspace_claim_id) _ h in
    (c, refl, str_eq→eq c.id _ p.0, eqb→eq c.generation _ p.1)

check_claim-holds :
    (c : Checkout) (r : AgentRuntime)
    → not (is_empty r.workspace_claim_id) && not (claims r c.claim) ≡ false
    → HoldsClaim r c
check_claim-holds c r h = elim (Bool-cases (is_empty r.workspace_claim_id)) [
  | inl e ↦ inl e
  | inr e ↦ elim (Bool-cases (claims r c.claim)) [
    | inl k ↦ inr (claims-cases r c.claim k)
    | inr k ↦ absurd (differ (rw (e, k) at h))
  ]
]

-- The claim of the item's checkout and the owner recorded for it, behind an event that is taken.
pub record Fenced (checkout : Option Checkout) (owner : Option AgentRuntime)
    (e : RuntimeSemanticEvent) : Type 0 where
  pub current : Checkout
  pub runtime : AgentRuntime
  pub is_checkout : checkout ≡ some current
  pub is_owner : owner ≡ some runtime
  pub same_runtime : runtime.id ≡ e.runtime_id
  pub holds : HoldsClaim runtime current

-- An event is taken only if it is from the runtime that owns the item, and if the workspace claim that
-- this runtime was started with, where there was one, is the current claim of the item's checkout.
pub ingest_runtime_event-Fenced :
    (checkout : Option Checkout) (owner : Option AgentRuntime) (activity : Option RuntimeActivity)
    (observation : Option AgentObservation) (e : RuntimeSemanticEvent) (now : Time)
    {updates : List ProjectionUpdate}
    → ingest_runtime_event checkout owner activity observation e now ≡ ok updates
    → Fenced checkout owner e
unfolding ingest_runtime_event check_claim
ingest_runtime_event-Fenced none owner activity observation e now run =
    let v = ok-of_bind (validate_event e) _ run in cc
ingest_runtime_event-Fenced (some c) owner activity observation e now run =
    let v = ok-of_bind (validate_event e) _ run in
    let o = ok-of_bind (check_owner owner e) _ v.2 in
    let r = check_owner-cases owner e o.0 o.1 in
    let h =
      refuse_if-then (not (is_empty o.0.workspace_claim_id) && not (claims o.0 c.claim))
        Error.superseded_claim _ o.2 in
    record {
      current = c;
      runtime = o.0;
      is_checkout = refl;
      is_owner = r.0;
      same_runtime = r.1;
      holds = check_claim-holds c o.0 h.0;
    }

quiet-applied :
    (a : RuntimeActivity) (e : RuntimeSemanticEvent)
    → quiet_outcome e.reason_code ≡ true
    → applied_activity a e ≡ (a, false)
unfolding applied_activity
quiet-applied a e q = elim (Bool-cases (is_settings_event e.type)) [
  | inl s ↦ rw s refl
  | inr s ↦ rw (s, q) refl
]

written_updates-quiet :
    (e : RuntimeSemanticEvent) (r : AgentRuntime) (observation : Option AgentObservation)
    (now : Time) (a : RuntimeActivity)
    → is_settings_event e.type ≡ false
    → written_updates e r observation now (a, false) ≡ []
unfolding written_updates readiness_updates activity_updates
written_updates-quiet e r observation now a s =
    elim (Bool-cases (unset_readiness (or_ready e.type e.readiness))) [
      | inl u ↦ rw (s, u) refl
      | inr u ↦ rw (s, u) refl
    ]

stale-applied :
    (a : RuntimeActivity) (e : RuntimeSemanticEvent)
    → is_settings_event e.type ≡ false
    → is_stale a.last_event_at e.timestamp ≡ true
    → applied_activity a e ≡ (a, false)
unfolding applied_activity apply_runtime_activity
stale-applied a e s h = elim (Bool-cases (quiet_outcome e.reason_code)) [
  | inl q ↦ rw (s, q) refl
  | inr q ↦ rw (s, q) (rw h refl)
]

-- An event that is not applied writes no projection.
unapplied :
    (checkout : Option Checkout) (owner : Option AgentRuntime) (activity : Option RuntimeActivity)
    (observation : Option AgentObservation) (e : RuntimeSemanticEvent) (now : Time)
    {updates : List ProjectionUpdate}
    → applied_activity (or_new activity (new_activity e.work_item_id)) e
      ≡ (or_new activity (new_activity e.work_item_id), false)
    → is_settings_event e.type ≡ false
    → ingest_runtime_event checkout owner activity observation e now ≡ ok updates
    → updates ≡ []
unfolding ingest_runtime_event check_claim
unapplied none owner activity observation e now q s run =
    let v = ok-of_bind (validate_event e) _ run in cc
unapplied (some c) owner activity observation e now {updates} q s run =
    let v = ok-of_bind (validate_event e) _ run in
    let o = ok-of_bind (check_owner owner e) _ v.2 in
    let h =
      refuse_if-then (not (is_empty o.0.workspace_claim_id) && not (claims o.0 c.claim))
        Error.superseded_claim _ o.2 in
    let a = or_new activity (new_activity e.work_item_id) in
    let w : ok (written_updates e o.0 observation now (applied_activity a e)) ≡ ok updates = h.1 in
    let same : updates ≡ written_updates e o.0 observation now (applied_activity a e) = cc in
    same
    ∙ ap (written_updates e o.0 observation now) q
    ∙ written_updates-quiet e o.0 observation now a s

-- An event that only settles a change of settings or an abort, and is no change of settings itself,
-- writes no projection where it is taken.
pub ingest_runtime_event-quiet :
    (checkout : Option Checkout) (owner : Option AgentRuntime) (activity : Option RuntimeActivity)
    (observation : Option AgentObservation) (e : RuntimeSemanticEvent) (now : Time)
    {updates : List ProjectionUpdate}
    → quiet_outcome e.reason_code ≡ true
    → is_settings_event e.type ≡ false
    → ingest_runtime_event checkout owner activity observation e now ≡ ok updates
    → updates ≡ []
ingest_runtime_event-quiet checkout owner activity observation e now q =
    unapplied checkout owner activity observation e now (quiet-applied _ e q)

-- An event that is older than the last event of the item's activity, and is no change of settings,
-- writes no projection where it is taken.
pub ingest_runtime_event-stale :
    (checkout : Option Checkout) (owner : Option AgentRuntime) (a : RuntimeActivity)
    (observation : Option AgentObservation) (e : RuntimeSemanticEvent) (now : Time)
    {updates : List ProjectionUpdate}
    → is_stale a.last_event_at e.timestamp ≡ true
    → is_settings_event e.type ≡ false
    → ingest_runtime_event checkout owner (some a) observation e now ≡ ok updates
    → updates ≡ []
ingest_runtime_event-stale checkout owner a observation e now h s =
    unapplied checkout owner (some a) observation e now (stale-applied a e s h) s
