-- ===== src/Runtime/Busy.antt =====
-- An agent that works is shown as busy, over any sequence of its events.
use workitem.Common.{
  ◌≡◌, ◌∙◌, refl, sym, ap, subst, String, Bool, true, false, not, ◌&&◌, Option, none, some, List,
  [], ◌∷◌, ◌++◌, All, inl, inr, Bool-cases, arith,
}
use workitem.Strings.{is_empty}
use workitem.Model.Error.{Result, ok, fail, Ensures, Ensures-ok, Ensures-bind, Ensures-refuse}
use workitem.Model.Blocker.{Time}
use workitem.Model.Claim.{Checkout}
use workitem.Runtime.Types.{
  SemanticEventType, RuntimeActivity, RuntimeSemanticEvent, AgentRuntime, AgentObservation,
  agent_started, quiet_outcome,
}
use workitem.Runtime.Activity.{is_stale}
use workitem.Runtime.Observation.{is_status}
use workitem.Runtime.Ingest.{
  ProjectionUpdate, owner_update, activity_update, observation_update, is_ready_event,
  is_settings_event, ingest_runtime_event, validate_event, check_owner, check_claim, claims,
  applied_activity, settings_of, settings_updates, or_ready, unset_readiness, readiness_updates,
  activity_updates, written_updates,
}
use workitem.Runtime.Shown.{observed-busy}
use workitem.Runtime.Working.{
  is_work, Projections, apply_updates, IngestCall, with_result, ingest_all, Active, ShowsBusy,
  Works, applied_activity-Active, started-Active,
}

apply_updates-append :
    (us vs : List ProjectionUpdate) (s : Projections)
    → apply_updates (us ++ vs) s ≡ apply_updates vs (apply_updates us s)
apply_updates-append [] vs s = refl
apply_updates-append (owner_update r ∷ us) vs s = apply_updates-append us vs s
apply_updates-append (activity_update a ∷ us) vs s = apply_updates-append us vs (a, s.1)
apply_updates-append (observation_update o ∷ us) vs s = apply_updates-append us vs (s.0, o)

settings_updates-none :
    (e : RuntimeSemanticEvent) (r : AgentRuntime) (s : Projections)
    → apply_updates (settings_updates e r) s ≡ s
settings_updates-none e r s = elim (Bool-cases (is_settings_event e.type)) [
  | inl t ↦ rw t refl
  | inr t ↦ rw t refl
]

readiness_updates-none :
    (e : RuntimeSemanticEvent) (r : AgentRuntime) (applied : Bool) (s : Projections)
    → apply_updates (readiness_updates e r applied) s ≡ s
unfolding readiness_updates
readiness_updates-none e r applied s =
    elim (Bool-cases (
      not (unset_readiness (or_ready e.type e.readiness))
      && applied
      && not (is_stale r.readiness_observed_at e.timestamp))) [
        | inl t ↦ rw t refl
        | inr t ↦ rw t refl
      ]

-- Only the activity and the observation that are written count.
written_updates-kept :
    (e : RuntimeSemanticEvent) (r : AgentRuntime) (o : Option AgentObservation) (now : Time)
    (p : RuntimeActivity × Bool) (s : Projections)
    → apply_updates (written_updates e r o now p) s ≡ apply_updates (activity_updates e o now p) s
unfolding written_updates
written_updates-kept e r o now p s =
    apply_updates-append (settings_updates e r) _ s
    ∙ ap (apply_updates (readiness_updates e (settings_of e r) p.1 ++ activity_updates e o now p))
        (settings_updates-none e r s)
    ∙ apply_updates-append (readiness_updates e (settings_of e r) p.1) _ s
    ∙ ap (apply_updates (activity_updates e o now p))
        (readiness_updates-none e (settings_of e r) p.1 s)

ingest_runtime_event-Ensures :
    (P : List ProjectionUpdate → Type 0) (checkout : Option Checkout) (owner : Option AgentRuntime)
    (a : RuntimeActivity) (o : AgentObservation) (e : RuntimeSemanticEvent) (now : Time)
    → ((r : AgentRuntime) → P (written_updates e r (some o) now (applied_activity a e)))
    → Ensures P (ingest_runtime_event checkout owner (some a) (some o) e now)
unfolding ingest_runtime_event check_claim
ingest_runtime_event-Ensures P none owner a o e now h =
    Ensures-bind P (validate_event e) _ λ _ _. tt
ingest_runtime_event-Ensures P (some c) owner a o e now h =
    Ensures-bind P (validate_event e) _ λ _ _. Ensures-bind P (check_owner owner e) _ λ r _.
      Ensures-refuse P (not (is_empty r.workspace_claim_id) && not (claims r c.claim)) _ _ λ _. h r

-- The projections of an item whose agent works.
abbrev pub IsWorking : String → Projections → Type 0
IsWorking id s = Active id s.0 × ShowsBusy s.1

work_not_status : (type : SemanticEventType) → is_work type ≡ true → is_status type ≡ false
work_not_status type w = ground arith

work_not_ready : (type : SemanticEventType) → is_work type ≡ true → is_ready_event type ≡ false
work_not_ready type w = ground arith

-- What an event of such an agent writes.
activity_updates-IsWorking :
    (id : String) (e : RuntimeSemanticEvent) (now : Time) (a : RuntimeActivity)
    (o : AgentObservation)
    → is_work e.type ≡ true
    → Active id a
    → (s : Projections) → IsWorking id (apply_updates (activity_updates e (some o) now (a, true)) s)
unfolding activity_updates
activity_updates-IsWorking id e now a o w h s = (
  record { runtime = h.runtime; agent = h.agent; sound = h.sound },
  observed-busy o e (record a { observed_at = now; source = "daemon.runtime.live" }) h.agent h.sound
      (work_not_status e.type w) (work_not_ready e.type w),
)

not_applied-IsWorking :
    (id : String) (e : RuntimeSemanticEvent) (now : Time) (p : RuntimeActivity × Bool)
    (a : RuntimeActivity) (o : AgentObservation)
    → is_work e.type ≡ true
    → Active id p.0
    → IsWorking id (a, o)
    → IsWorking id (apply_updates (activity_updates e (some o) now p) (a, o))
unfolding activity_updates
not_applied-IsWorking id e now (a', false) a o w h k = k
not_applied-IsWorking id e now (a', true) a o w h k =
    activity_updates-IsWorking id e now a' o w h (a, o)

written_updates-IsWorking :
    (e : RuntimeSemanticEvent) (r : AgentRuntime) (now : Time) (a : RuntimeActivity)
    (o : AgentObservation)
    → is_work e.type ≡ true
    → IsWorking e.runtime_id (a, o)
    → IsWorking e.runtime_id
        (apply_updates (written_updates e r (some o) now (applied_activity a e)) (a, o))
written_updates-IsWorking e r now a o w k =
    subst (IsWorking e.runtime_id)
      (sym (written_updates-kept e r (some o) now (applied_activity a e) (a, o)))
      (not_applied-IsWorking e.runtime_id e now (applied_activity a e) a o w
        (applied_activity-Active a e w k.0) k)

with_result-IsWorking :
    (id : String) (result : Result (List ProjectionUpdate)) (s : Projections)
    → IsWorking id s
    → Ensures (λ us. IsWorking id (apply_updates us s)) result
    → IsWorking id (with_result result s)
with_result-IsWorking id (fail e) s k h = k
with_result-IsWorking id (ok us) s k h = h

taken-IsWorking :
    (id : String) (e : RuntimeSemanticEvent) (now : Time) (p : RuntimeActivity × Bool)
    (o : AgentObservation)
    → is_work e.type ≡ true
    → Active id p.0
    → p.1 ≡ true
    → (s : Projections) → IsWorking id (apply_updates (activity_updates e (some o) now p) s)
taken-IsWorking id e now (a, true) o w h taken s = activity_updates-IsWorking id e now a o w h s
taken-IsWorking id e now (a, false) o w h taken s = cc

ingest_all-IsWorking :
    (id : String) (calls : List IngestCall) (s : Projections)
    → All (Works id) calls
    → IsWorking id s
    → IsWorking id (ingest_all s calls)
unfolding ingest_all
ingest_all-IsWorking id [] s all k = k
ingest_all-IsWorking id (c ∷ cs) s all k =
    let result = ingest_runtime_event c.checkout c.owner (some s.0) (some s.1) c.event c.now in
    let works = all.0 in
    ingest_all-IsWorking id cs (with_result result s) all.1 (
      with_result-IsWorking id result s k (
        ingest_runtime_event-Ensures (λ us. IsWorking id (apply_updates us s)) c.checkout c.owner
          s.0 s.1 c.event c.now
          λ r.
            subst
              (λ id. IsWorking id (
                apply_updates
                  (written_updates c.event r (some s.1) c.now (applied_activity s.0 c.event)) s))
              works.1
              (written_updates-IsWorking c.event r c.now s.0 s.1 works.0
                (subst (λ id. IsWorking id s) (sym works.1) k))))

-- Once an event that starts the agent of an item is taken, and is not older than the last event nor
-- one that only settles a change of settings or an abort, the item is shown as busy, and with an
-- incomplete turn, behind any calls with events of an agent at work of the same runtime. Turns that
-- end or fail, commands that are rejected, events that are stale and calls that are refused do not
-- change that.
pub ingest_all-ShowsBusy :
    (a : RuntimeActivity) (o : AgentObservation) (start : IngestCall) (calls : List IngestCall)
    (updates : List ProjectionUpdate)
    → start.event.type ≡ agent_started
    → quiet_outcome start.event.reason_code ≡ false
    → is_stale a.last_event_at start.event.timestamp ≡ false
    → ingest_runtime_event start.checkout start.owner (some a) (some o) start.event start.now
      ≡ ok updates
    → All (Works start.event.runtime_id) calls
    → ShowsBusy (ingest_all (a, o) (start ∷ calls)).1
unfolding ingest_all
ingest_all-ShowsBusy a o start calls updates t q fresh run works =
    let e = start.event in
    let id = e.runtime_id in
    let Good : List ProjectionUpdate → Type 0 = λ us. IsWorking id (apply_updates us (a, o)) in
    let started = started-Active a e t q fresh in
    let first = Ensures-ok Good run (
      ingest_runtime_event-Ensures Good start.checkout start.owner a o e start.now λ r.
        subst (IsWorking id)
          (sym (written_updates-kept e r (some o) start.now (applied_activity a e) (a, o)))
          (taken-IsWorking id e start.now (applied_activity a e) o (ap is_work t) started.0
            started.1 (a, o))) in
    let begun : IsWorking id (
        with_result (ingest_runtime_event start.checkout start.owner (some a) (some o) e start.now)
          (a, o)) =
      subst (λ result. IsWorking id (with_result result (a, o))) (sym run) first in
    (ingest_all-IsWorking id calls _ works begun).1
