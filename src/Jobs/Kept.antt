-- ===== src/Jobs/Kept.antt =====
-- What a job is stays as it is, and a job that is over stays as it is altogether.
use workitem.Common.{
  ◌≡◌, refl, ap, String, Bool, true, false, not, ◌&&◌, ◌||◌, Option, none, some, Bool-cases, inl,
  inr,
}
use workitem.Model.Blocker.{Time}
use workitem.Jobs.Types.{ApprovalDecision, Approval, Job, same_job}
use workitem.Jobs.Run.{
  Position, JobRun, RunOutcome, store_change, change_from, change, begun_job, ended_job,
  with_approval, resumed, Step, at, begin_step, publish_step, is_stale_answer, is_decision,
  send_answer, answer_step, take_step, is_starting, is_working, is_final, may_ask, is_asking,
  publish_at, step,
}
use workitem.Jobs.Registry.{job_over}
use workitem.Jobs.Sound.{Sound, Identity, identity, After, After-when, live_of}
use workitem.Jobs.Steps.{GoesOn, starting-GoesOn, working-GoesOn, active-GoesOn, asking-GoesOn}

abbrev pub Kept : JobRun → JobRun → Type 0
Kept j j' = (identity j' ≡ identity j) × (job_over j ≡ true → j'.value ≡ j.value)

-- The identity of a changed job.
abbrev identity_of : JobRun → Job → Identity
identity_of j v = identity (record j { value = v })

module _ (apply : Job → Job) (save : Option String) (now : Time) (j : JobRun) where
  store_change-Kept :
      (o : Option String)
      → identity_of j (apply j.value) ≡ identity j
      → job_over j ≡ false
      → Kept j (store_change o now j (apply j.value)).0
  unfolding store_change
  store_change-Kept none same live = (same, λ over. cc)
  store_change-Kept (some e) same live = (same, λ over. cc)

  change_from-Kept :
      (e : Option String)
      → (e ≡ none → job_over j ≡ false)
      → identity_of j (apply j.value) ≡ identity j
      → Kept j (change_from e apply save now j).0
  unfolding change_from
  change_from-Kept (some e) live same = (refl, λ _. refl)
  change_from-Kept none live same = elim (Bool-cases (same_job (apply j.value) j.value)) [
    | inl e ↦ rw e (refl, λ _. refl)
    | inr e ↦ rw e (store_change-Kept save same (live refl))
  ]

  change-Kept :
      Sound j
      → identity_of j (apply j.value) ≡ identity j
      → GoesOn j.position
      → Kept j (change apply save now j).0
  unfolding change
  change-Kept h same goes_on =
      change_from-Kept j.persist_error
        (λ clean. live_of j.persist_error (job_over j) (is_final j.position) h clean goes_on) same

begin_step-Kept : (j : JobRun) (r : JobRun × Bool) → Kept j r.0 → Kept j (begin_step r)
unfolding begin_step
begin_step-Kept j (j', true) k = k
begin_step-Kept j (j', false) k = k

publish_step-Kept :
    (a : Approval) (j : JobRun) (r : JobRun × Bool) → Kept j r.0 → Kept j (publish_step a r)
unfolding publish_step
publish_step-Kept a j (j', true) k = k
publish_step-Kept a j (j', false) k = k

ended_job-identity :
    (now : Time) (outcome : RunOutcome) (stopping : Bool) (j : JobRun)
    → identity_of j (ended_job now outcome stopping j.value) ≡ identity j
unfolding ended_job
ended_job-identity now RunOutcome.done true j = refl
ended_job-identity now RunOutcome.done false j = refl
ended_job-identity now (RunOutcome.error text c none) true j = refl
ended_job-identity now (RunOutcome.error text c none) false j = refl
ended_job-identity now (RunOutcome.error text c (some p)) true j = refl
ended_job-identity now (RunOutcome.error text c (some p)) false j = refl

publish_at-Kept :
    (p : Position) (save : Option String) (now : Time) (j : JobRun)
    → j.position ≡ p
    → Sound j
    → After (Kept j) (publish_at p save now j)
unfolding publish_at
publish_at-Kept (Position.opened a) save now j at h =
    publish_step-Kept a j (change (with_approval a) save now j)
      (change-Kept (with_approval a) save now j h refl (ap is_final at))
publish_at-Kept Position.starting save now j at h = tt
publish_at-Kept Position.working save now j at h = tt
publish_at-Kept Position.over save now j at h = tt
publish_at-Kept (Position.asking a) save now j at h = tt
publish_at-Kept Position.repeating save now j at h = tt

take_step-Kept :
    (o : Option ApprovalDecision) (unchanged : Bool) (save : Option String) (now : Time)
    (j : JobRun)
    → Sound j
    → GoesOn j.position
    → After (Kept j) (take_step o unchanged save now j)
unfolding take_step
take_step-Kept none unchanged save now j h goes_on = tt
take_step-Kept (some d) unchanged save now j h goes_on =
    change-Kept resumed save now (record j { inbox = none }) h refl goes_on

send_answer-Kept :
    (d : ApprovalDecision) (j : JobRun) (o : Option ApprovalDecision)
    → After (Kept j) (send_answer d j o)
unfolding send_answer
send_answer-Kept d j none = (refl, λ _. refl)
send_answer-Kept d j (some held) = tt

answer_step-Kept :
    (d : ApprovalDecision) (id : String) (now : Time) (j : JobRun)
    → After (Kept j) (answer_step d id now j)
unfolding answer_step
answer_step-Kept d id now j =
    elim (Bool-cases
      (not (is_decision d) || not j.answer || is_stale_answer j.value.approval id now)) [
        | inl refused ↦ rw refused tt
        | inr good ↦ rw good (send_answer-Kept d j j.inbox)
      ]

pub step-Kept : (s : Step) (j : JobRun) → Sound j → After (Kept j) (step s j)
unfolding step
step-Kept (Step.begin save now) j h = After-when (Kept j) (is_starting j.position) _ λ on.
    begin_step-Kept j (change (begun_job now) save now j)
      (change-Kept (begun_job now) save now j h refl (starting-GoesOn j.position on))
step-Kept (Step.phase p save now) j h =
    After-when (Kept j) (is_working j.position) _ λ on.
      change-Kept (λ v. record v { phase = p }) save now j h refl (working-GoesOn j.position on)
step-Kept (Step.log_tail t save now) j h =
    After-when (Kept j) (not (is_starting j.position) && not (is_final j.position)) _ λ on.
      change-Kept (λ v. record v { log_tail = t }) save now j h refl (active-GoesOn j.position on)
step-Kept (Step.open_approval a) j h =
    After-when (Kept j) (may_ask j.position) _ λ on. (refl, λ _. refl)
step-Kept (Step.publish_approval save now) j h = publish_at-Kept j.position save now j refl h
step-Kept (Step.take_answer unchanged save now) j h = elim (Bool-cases (is_asking j.position)) [
  | inl on ↦ rw on (take_step-Kept j.inbox unchanged save now j h (asking-GoesOn j.position on))
  | inr off ↦ rw off tt
]
step-Kept Step.give_up j h = After-when (Kept j) (is_asking j.position) _ λ on. (refl, λ _. refl)
step-Kept (Step.finish outcome stopping save now) j h =
    After-when (Kept j) (is_working j.position) _ λ on.
      change-Kept (ended_job now outcome stopping) save now j h
        (ended_job-identity now outcome stopping j) (working-GoesOn j.position on)
step-Kept (Step.answer_approval d id now) j h = answer_step-Kept d id now j
step-Kept Step.cancel j h = (refl, λ _. refl)
