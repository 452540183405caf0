-- ===== src/Jobs/Steps.antt =====
-- Every step of a job leaves it in agreement with its goroutine.
use workitem.Common.{
  ◌≡◌, refl, sym, ◌∙◌, String, Bool, true, false, not, ◌&&◌, ◌||◌, Option, none, some, Bool-cases,
  inl, inr, arith,
}
use workitem.Model.Blocker.{Time}
use workitem.Jobs.Types.{terminal_job, ApprovalDecision, Approval, Job}
use workitem.Jobs.Run.{
  Position, JobRun, RunOutcome, change, begun_job, ended_job, with_approval, resumed, verdict,
  position_after, Step, begin_step, publish_step, is_stale_answer, is_decision, send_answer,
  answer_step, take_step, is_starting, is_working, is_final, may_ask, is_asking, publish_at, step,
}
use workitem.Jobs.Registry.{job_over}
use workitem.Jobs.Sound.{
  SoundAt, Sound, SavedAs, After, After-when, change-Done, Sound-live, Sound-ended, Sound-unsaved,
  goes_on, change-Sound_live, change-Sound_same,
}

begin_step-Sound :
    (over' : Bool) (r : JobRun × Bool)
    → SavedAs r.0.persist_error r.1 (job_over r.0) over'
    → over' ≡ false
    → Sound (begin_step r)
unfolding begin_step
begin_step-Sound over' (j, true) h live =
    Sound-live j.persist_error true (job_over j) over' false h live refl
begin_step-Sound over' (j, false) h live = Sound-unsaved j.persist_error (job_over j) over' true h

publish_step-Sound :
    (a : Approval) (over' : Bool) (r : JobRun × Bool)
    → SavedAs r.0.persist_error r.1 (job_over r.0) over'
    → over' ≡ false
    → Sound (publish_step a r)
unfolding publish_step
publish_step-Sound a over' (j, true) h live =
    Sound-live j.persist_error true (job_over j) over' false h live refl
publish_step-Sound a over' (j, false) h live =
    Sound-live j.persist_error false (job_over j) over' false h live refl

ended_job-over :
    (now : Time) (outcome : RunOutcome) (stopping : Bool) (v : Job)
    → terminal_job (ended_job now outcome stopping v).state ≡ true
unfolding ended_job
ended_job-over now outcome true v = refl
ended_job-over now RunOutcome.done false v = refl
ended_job-over now (RunOutcome.error text true partial) false v = refl
ended_job-over now (RunOutcome.error text false partial) false v = refl

take_step-Sound :
    (o : Option ApprovalDecision) (unchanged : Bool) (save : Option String) (now : Time)
    (j : JobRun)
    → Sound j
    → is_asking j.position ≡ true
    → After Sound (take_step o unchanged save now j)
unfolding take_step
take_step-Sound none unchanged save now j h asked = tt
take_step-Sound (some d) unchanged save now j h asked =
    change-Sound_live resumed save now (position_after (verdict d unchanged))
      (record j { inbox = none }) h refl (goes_on d unchanged)

send_answer-Sound :
    (d : ApprovalDecision) (j : JobRun) (o : Option ApprovalDecision)
    → Sound j
    → After Sound (send_answer d j o)
unfolding send_answer
send_answer-Sound d j none h = h
send_answer-Sound d j (some held) h = tt

abbrev pub GoesOn : Position → Type 0
GoesOn p = is_final p ≡ false

pub starting-GoesOn : (p : Position) → is_starting p ≡ true → GoesOn p
starting-GoesOn p h = ground arith

pub working-GoesOn : (p : Position) → is_working p ≡ true → GoesOn p
working-GoesOn p h = ground arith

publish_at-Sound :
    (p : Position) (save : Option String) (now : Time) (j : JobRun)
    → Sound j
    → After Sound (publish_at p save now j)
unfolding publish_at
publish_at-Sound (Position.opened a) save now j h =
    publish_step-Sound a false (change (with_approval a) save now j)
      (change-Done (with_approval a) save now j h).0 refl
publish_at-Sound Position.starting save now j h = tt
publish_at-Sound Position.working save now j h = tt
publish_at-Sound Position.over save now j h = tt
publish_at-Sound (Position.asking a) save now j h = tt
publish_at-Sound Position.repeating save now j h = tt

answer_step-Sound :
    (d : ApprovalDecision) (id : String) (now : Time) (j : JobRun)
    → Sound j
    → After Sound (answer_step d id now j)
unfolding answer_step
answer_step-Sound d id now j h =
    elim (Bool-cases
      (not (is_decision d) || not j.answer || is_stale_answer j.value.approval id now)) [
        | inl refused ↦ rw refused tt
        | inr good ↦ rw good (send_answer-Sound d j j.inbox h)
      ]

-- The goroutine moves on, without a change of the job.
Sound-moved :
    (e : Option String) (over final final' : Bool)
    → SoundAt e over final
    → final ≡ false
    → final' ≡ false
    → SoundAt e over final'
Sound-moved none over final final' h goes_on still = h ∙ goes_on ∙ sym still
Sound-moved (some e) over final final' h goes_on still = h

pub asking-GoesOn : (p : Position) → is_asking p ≡ true → GoesOn p
asking-GoesOn p h = ground arith

pub may_ask-GoesOn : (p : Position) → may_ask p ≡ true → GoesOn p
may_ask-GoesOn p h = ground arith

pub active-GoesOn : (p : Position) → (not (is_starting p) && not (is_final p)) ≡ true → GoesOn p
active-GoesOn p h = ground arith

pub step-Sound : (s : Step) (j : JobRun) → Sound j → After Sound (step s j)
unfolding step
step-Sound (Step.begin save now) j h = After-when Sound (is_starting j.position) _ λ _.
    begin_step-Sound false (change (begun_job now) save now j)
      (change-Done (begun_job now) save now j h).0 refl
step-Sound (Step.phase p save now) j h = After-when Sound (is_working j.position) _ λ on.
    change-Sound_same (λ v. record v { phase = p }) save now j h refl (working-GoesOn j.position on)
step-Sound (Step.log_tail t save now) j h =
    After-when Sound (not (is_starting j.position) && not (is_final j.position)) _ λ on.
      change-Sound_same (λ v. record v { log_tail = t }) save now j h refl
        (active-GoesOn j.position on)
step-Sound (Step.open_approval a) j h = After-when Sound (may_ask j.position) _ λ on.
    Sound-moved j.persist_error (job_over j) (is_final j.position) false h
      (may_ask-GoesOn j.position on) refl
step-Sound (Step.publish_approval save now) j h = publish_at-Sound j.position save now j h
step-Sound (Step.take_answer unchanged save now) j h = elim (Bool-cases (is_asking j.position)) [
  | inl on ↦ rw on (take_step-Sound j.inbox unchanged save now j h on)
  | inr off ↦ rw off tt
]
step-Sound Step.give_up j h = After-when Sound (is_asking j.position) _ λ on.
    Sound-moved j.persist_error (job_over j) (is_final j.position) false h
      (asking-GoesOn j.position on) refl
step-Sound (Step.finish outcome stopping save now) j h =
    After-when Sound (is_working j.position) _ λ on.
      let apply = ended_job now outcome stopping in
      let r = change apply save now j in
      Sound-ended r.0.persist_error r.1 (job_over r.0) (terminal_job (apply j.value).state)
        (change-Done apply save now j h).0 (ended_job-over now outcome stopping j.value)
step-Sound (Step.answer_approval d id now) j h = answer_step-Sound d id now j h
step-Sound Step.cancel j h = h
