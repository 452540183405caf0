-- ===== src/Jobs/Sound.antt =====
-- What the steps of a job keep.
use workitem.Common.{
  ◌≡◌, refl, sym, ap, ◌∙◌, subst, String, Bool, true, false, Option, none, some, Bool-cases,
  Option-cases, inl, inr,
}
use workitem.Content.Equality.{and_parts, eqb→eq}
use workitem.Model.Blocker.{Time}
use workitem.Jobs.Types.{
  JobState, state_number, terminal_job, same_state, same_job, ApprovalDecision, Job,
}
use workitem.Jobs.Run.{
  Position, JobRun, store_change, change_from, change, verdict, position_after, at, is_final, when,
}
use workitem.Jobs.Registry.{job_over}

-- A job is over exactly when its goroutine is past its last change, or when it could not be saved.
abbrev pub SoundAt : Option String → Bool → Bool → Type 0
SoundAt (some e) over final = over ≡ true
SoundAt none over final = over ≡ final

abbrev pub Sound : JobRun → Type 0
Sound j = SoundAt j.persist_error (job_over j) (is_final j.position)

-- What stays of a job.
pub record Identity : Type 0 where
  pub key : String
  pub kind : String
  pub item_id : String
  pub repository_id : String

abbrev pub identity : JobRun → Identity
identity j = record {
  key = j.key;
  kind = j.value.kind;
  item_id = j.value.item_id;
  repository_id = j.value.repository_id;
}

-- What holds of the state behind a step that is possible.
abbrev pub After : (JobRun → Type 0) → Option JobRun → Type 0
After P none = Unit
After P (some j) = P j

pub After-when :
    (P : JobRun → Type 0) (b : Bool) (j : JobRun) → (b ≡ true → P j) → After P (when b j)
After-when P true j h = h refl
After-when P false j h = tt

state_number-same :
    (s t : JobState) → state_number s ≡ state_number t → terminal_job s ≡ terminal_job t
state_number-same s t e = rw e refl

-- The outcome of a change: it is saved, or it ends the job.
abbrev pub SavedAs : Option String → Bool → Bool → Bool → Type 0
SavedAs (some e) saved over over' = (saved ≡ false) × (over ≡ true)
SavedAs none saved over over' = (saved ≡ true) × (over ≡ over')

same_job-over : (v w : Job) → same_job v w ≡ true → terminal_job v.state ≡ terminal_job w.state
unfolding same_job
same_job-over v w h = state_number-same v.state w.state (
    eqb→eq (state_number v.state) (state_number w.state)
      ((and_parts (same_state v.state w.state) _ h).0))

module _ (apply : Job → Job) (save : Option String) (now : Time) where
  abbrev pub Done : JobRun → JobRun × Bool → Type 0
  Done j r =
      SavedAs r.0.persist_error r.1 (job_over r.0) (terminal_job (apply j.value).state)
      × (r.0.position ≡ j.position)

  store_change-Done :
      (save : Option String) (j : JobRun)
      → j.persist_error ≡ none
      → Done j (store_change save now j (apply j.value))
  unfolding store_change
  store_change-Done none j clean = rw clean ((refl, refl), refl)
  store_change-Done (some e) j clean = ((refl, refl), refl)

  change_from-Done :
      (e : Option String) (j : JobRun)
      → j.persist_error ≡ e
      → Sound j
      → Done j (change_from e apply save now j)
  unfolding change_from
  change_from-Done (some e) j at h =
      rw at ((refl, subst (λ o. SoundAt o (job_over j) (is_final j.position)) at h), refl)
  change_from-Done none j at h = elim (Bool-cases (same_job (apply j.value) j.value)) [
    | inl e ↦ rw e (rw at ((refl, sym (same_job-over (apply j.value) j.value e)), refl))
    | inr e ↦ rw e (store_change-Done save j at)
  ]

  pub change-Done : (j : JobRun) → Sound j → Done j (change apply save now j)
  unfolding change
  change-Done j h = change_from-Done j.persist_error j refl h

-- A change that leaves the job live, of a goroutine that goes on.
pub Sound-live :
    (e : Option String) (saved over over' final : Bool)
    → SavedAs e saved over over'
    → over' ≡ false
    → final ≡ false
    → SoundAt e over final
Sound-live none saved over over' final h live goes_on = h.1 ∙ live ∙ sym goes_on
Sound-live (some e) saved over over' final h live goes_on = h.1

-- A change that ends the job, of a goroutine that stops.
pub Sound-ended :
    (e : Option String) (saved over over' : Bool)
    → SavedAs e saved over over'
    → over' ≡ true
    → SoundAt e over true
Sound-ended none saved over over' h ended = h.1 ∙ ended
Sound-ended (some e) saved over over' h ended = h.1

-- A change that could not be saved.
pub Sound-unsaved :
    (e : Option String) (over over' final : Bool)
    → SavedAs e false over over'
    → SoundAt e over final
Sound-unsaved none over over' final h = cc
Sound-unsaved (some e) over over' final h = h.1

pub goes_on :
    (d : ApprovalDecision) (unchanged : Bool)
    → is_final (position_after (verdict d unchanged)) ≡ false
goes_on ApprovalDecision.deny unchanged = refl
goes_on ApprovalDecision.allow true = refl
goes_on ApprovalDecision.allow false = refl
goes_on ApprovalDecision.no_decision true = refl
goes_on ApprovalDecision.no_decision false = refl

-- A job that may be changed is not over.
pub live_of :
    (e : Option String) (over final : Bool)
    → SoundAt e over final
    → e ≡ none
    → final ≡ false
    → over ≡ false
live_of none over final h clean goes_on = h ∙ goes_on
live_of (some e) over final h clean goes_on = cc

-- The goroutine goes on behind a change, where the job is not over unless it could not be saved.
pub change-Sound_live :
    (apply : Job → Job) (save : Option String) (now : Time) (p : Position) (j : JobRun)
    → Sound j
    → terminal_job (apply j.value).state ≡ false
    → is_final p ≡ false
    → Sound (at p (change apply save now j))
change-Sound_live apply save now p j h live goes_on =
    let r = change apply save now j in
    Sound-live r.0.persist_error r.1 (job_over r.0) (terminal_job (apply j.value).state)
      (is_final p) (change-Done apply save now j h).0 live goes_on

-- Nothing changes behind an error.
pub change-unsaved :
    (apply : Job → Job) (save : Option String) (now : Time) (j : JobRun) (e : String)
    → j.persist_error ≡ some e
    → change apply save now j ≡ (j, false)
unfolding change change_from
change-unsaved apply save now j e failed = rw failed refl

-- A change that leaves the state as it is.
pub change-Sound_same :
    (apply : Job → Job) (save : Option String) (now : Time) (j : JobRun)
    → Sound j
    → terminal_job (apply j.value).state ≡ job_over j
    → is_final j.position ≡ false
    → Sound (change apply save now j).0
change-Sound_same apply save now j h same goes_on =
    let r = change apply save now j in
    elim (Option-cases j.persist_error) [
      | inl clean ↦
          let done = change-Done apply save now j h in
          let live = live_of j.persist_error (job_over j) (is_final j.position) h clean goes_on in
          Sound-live r.0.persist_error r.1 (job_over r.0) (terminal_job (apply j.value).state)
            (is_final r.0.position) done.0 (same ∙ live) (ap is_final done.1 ∙ goes_on)
      | inr failed ↦
          subst (λ (r : JobRun × Bool). Sound r.0)
            (sym (change-unsaved apply save now j failed.0 failed.1)) h
    ]
