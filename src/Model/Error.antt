-- ===== src/Model/Error.antt =====
-- The error values of the modelled code, one constructor for each message, and the results that
-- carry them. The texts of the messages are left out.
use mathlib.Core.Path.{◌≡◌, refl, subst}
use mathlib.Core.Logic.{◌⊎◌, inl, inr}
use workitem.Common.{Bool, true, false, if◌then◌else◌}

pub data Error : Type 0 where
  -- internal/model/lifecycle.go
  invalid_blocker_kind event_not_single_line event_on_other_kind label_not_single_line : Error
  too_many_meta_keys invalid_meta_key invalid_meta_value : Error
  until_not_future time_names_item invalid_item_id blocks_itself item_has_time : Error
  event_required external_has_time_or_item : Error
  -- internal/model/manifest.go
  already_claimed generation_exhausted generation_does_not_follow entropy_failed : Error
  -- internal/model/labels.go
  empty_label unsafe_label : Error
  -- internal/coordinator/blockers.go
  no_blockers closed_cannot_wait no_such_target target_closed dependency_cycle : Error
  no_such_blocker duplicate_event_id : Error
  -- internal/coordinator/domain.go
  missing_fields invalid_command_id unsupported_protocol not_user_actor : Error
  different_input already_queued different_queue_input not_found revision_conflict : Error
  invalid_title deep_work_required unsupported_command : Error
  invalid_state resolution_without_close closed_must_reopen invalid_resolution : Error
  invalid_transition active_limit_reached unsupported_event_type no_unique_slug : Error
  -- internal/coordinator/edit_item.go
  edit_required label_added_and_removed invalid_digests : Error
  -- internal/coordinator/attention_activity.go
  invalid_marker_event identity_mismatch : Error
  -- internal/coordinator/lease.go
  invalid_holder invalid_client_id label_too_long ttl_out_of_range : Error
  -- internal/coordinator/runtime_ingest.go
  missing_event_ids no_timestamp event_not_retained invalid_status_facts readiness_required : Error
  invalid_outcome invalid_agent_observation settings_mismatch invalid_settings : Error
  owner_mismatch superseded_claim : Error
  -- internal/coordinator/database.go
  command_fields_required event_fields_required projection_required not_encodable
        sequence_exhausted :
      Error
  -- internal/daemonapi/jobs.go
  job_not_found job_without_id job_not_saved : Error
  -- internal/priority/priority.go
  unknown_strategy : Error

-- What a Go function that also returns an `error` gives back.
pub data Result {ℓ} (V : Type ℓ) : Type ℓ where
  fail : Error → Result V
  ok : V → Result V

module _ {ℓ κ} {V : Type ℓ} {W : Type κ} where
  -- `if err != nil { return err }` between two steps.
  infixl 5 ◌>>=◌
  abbrev pub ◌>>=◌ : Result V → (V → Result W) → Result W
  step >>= next = elim step [ fail e ↦ fail e | ok v ↦ next v ]

  -- Behind a chain that succeeds, its first step succeeded.
  pub ok-of_bind :
      (step : Result V) (next : V → Result W) {w : W}
      → (step >>= next) ≡ ok w
      → (v : V) × (step ≡ ok v) × (next v ≡ ok w)
  ok-of_bind (fail e) next run = cc
  ok-of_bind (ok v) next run = (v, refl, run)

module _ {ℓ} {W : Type ℓ} where
  infixl 5 ◌>>◌
  abbrev pub ◌>>◌ : Result (Unit {0}) → Result W → Result W
  check >> rest = check >>= λ _. rest

  pub Result-cases : (r : Result W) → ((w : W) × (r ≡ ok w)) ⊎ ((e : Error) × (r ≡ fail e))
  Result-cases (fail e) = inr (e, refl)
  Result-cases (ok w) = inl (w, refl)

-- `if bad { return e }`
abbrev pub refuse_if : Bool → Error → Result (Unit {0})
refuse_if bad e = elim bad [ true ↦ fail e | false ↦ ok tt ]

-- A check that a successful chain has passed.
pub refuse_if-then {ℓ} :
    {W : Type ℓ} (bad : Bool) (e : Error) (rest : Result W) {w : W}
    → (refuse_if bad e >> rest) ≡ ok w
    → (bad ≡ false) × (rest ≡ ok w)
refuse_if-then true e rest run = cc
refuse_if-then false e rest run = (refl, run)

-- What holds of the value, unless there is an error.
abbrev pub Ensures {ℓ} : {V : Type ℓ} → (V → Type 0) → Result V → Type 0
Ensures P (fail e) = Unit
Ensures P (ok v) = P v

module _ {ℓ} {W : Type ℓ} (P : W → Type 0) where
  pub Ensures-ok : {r : Result W} {w : W} → r ≡ ok w → Ensures P r → P w
  Ensures-ok run h = subst (Ensures P) run h

  pub Ensures-bind {κ} :
      {V : Type κ} (step : Result V) (next : V → Result W)
      → ((v : V) → step ≡ ok v → Ensures P (next v))
      → Ensures P (step >>= next)
  Ensures-bind (fail e) next h = tt
  Ensures-bind (ok v) next h = h v refl

  pub Ensures-refuse :
      (bad : Bool) (e : Error) (rest : Result W)
      → (bad ≡ false → Ensures P rest)
      → Ensures P (refuse_if bad e >> rest)
  Ensures-refuse true e rest h = tt
  Ensures-refuse false e rest h = h refl

  pub Ensures-if :
      (b : Bool) (r r' : Result W)
      → (b ≡ true → Ensures P r)
      → (b ≡ false → Ensures P r')
      → Ensures P (if b then r else r')
  Ensures-if true r r' h h' = h refl
  Ensures-if false r r' h h' = h' refl

pub Ensures-map {ℓ} :
    {W : Type ℓ} (P Q : W → Type 0) (r : Result W)
    → ((w : W) → P w → Q w)
    → Ensures P r
    → Ensures Q r
Ensures-map P Q (fail e) f h = tt
Ensures-map P Q (ok w) f h = f w h
