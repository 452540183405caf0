-- ===== src/Jobs/Turns.antt =====
-- A job ends when its run returns, whatever else happens to it in between.
use workitem.Common.{
  ℕ, ◌+◌, ◌-◌, ◌≤◌, ◌≡◌, ◌⊎◌, refl, ap, ◌∙◌, String, Bool, true, false, not, ◌&&◌, ◌||◌, Option,
  none, some, List, [], ◌∷◌, if◌then◌else◌, Bool-cases, inl, inr, arith,
}
use workitem.Model.Blocker.{Time}
use workitem.Jobs.Types.{ApprovalDecision, Approval, Job}
use workitem.Jobs.Run.{
  Position, JobRun, RunOutcome, change, verdict, position_after, Step, begin_step, publish_step,
  is_stale_answer, is_decision, send_answer, answer_step, take_step, is_starting, is_final, when,
  publish_at, step,
}
use workitem.Jobs.Registry.{job_over}
use workitem.Jobs.Sound.{Sound, SoundAt, After, change-Done}
use workitem.Jobs.Steps.{step-Sound}

-- What the goroutine meets in its next step. `is_taken` says that it takes an answer that is there,
-- though the approval has also expired or the job was cancelled.
pub record Meeting : Type 0 where
  pub save : Option String
  pub now : Time
  pub question : Approval
  pub outcome : RunOutcome
  pub stopping : Bool
  pub is_taken : Bool

-- The wait of `approve` ends, with an answer to an unchanged file or without one.
abbrev wait_step : Meeting → Option ApprovalDecision → Step
wait_step m none = Step.give_up
wait_step m (some d) = if m.is_taken then Step.take_answer true m.save m.now else Step.give_up

-- The next step of the goroutine, whose run returns.
abbrev own_step : Meeting → Position → Option ApprovalDecision → Step
own_step m Position.starting inbox = Step.begin m.save m.now
own_step m Position.working inbox = Step.finish m.outcome m.stopping m.save m.now
own_step m (Position.opened a) inbox = Step.publish_approval m.save m.now
own_step m (Position.asking a) inbox = wait_step m inbox
own_step m Position.repeating inbox = Step.open_approval m.question
own_step m Position.over inbox = Step.cancel

-- A turn of the goroutine, or something that happens to the job.
pub data Turn : Type 0 where
  own : Meeting → Turn
  answered : ApprovalDecision → (challenge_id : String) (now : Time) → Turn
  cancelled : Turn
  logged : String → (save : Option String) (now : Time) → Turn

abbrev turn_step : Turn → JobRun → Step
turn_step (Turn.own m) j = own_step m j.position j.inbox
turn_step (Turn.answered d id now) j = Step.answer_approval d id now
turn_step Turn.cancelled j = Step.cancel
turn_step (Turn.logged t save now) j = Step.log_tail t save now

-- A step that is not possible changes nothing.
abbrev pub unless_possible : JobRun → Option JobRun → JobRun
unless_possible j none = j
unless_possible j (some j') = j'

unfoldable pub turns : JobRun → List Turn → JobRun
unfolding step
turns j [] = j
turns j (t ∷ ts) = turns (unless_possible j (step (turn_step t j) j)) ts

unfoldable pub own_turns : List Turn → ℕ
own_turns [] = 0
own_turns (Turn.own m ∷ ts) = own_turns ts + 1
own_turns (Turn.answered d id now ∷ ts) = own_turns ts
own_turns (Turn.cancelled ∷ ts) = own_turns ts
own_turns (Turn.logged t save now ∷ ts) = own_turns ts

-- How many steps the goroutine has still to make.
abbrev pub steps_left : Position → ℕ
steps_left Position.over = 0
steps_left Position.working = 1
steps_left Position.starting = 2
steps_left (Position.asking a) = 2
steps_left (Position.opened a) = 3
steps_left Position.repeating = 4

begin_step-steps_left : (r : JobRun × Bool) → steps_left (begin_step r).position ≤ 1
unfolding begin_step
begin_step-steps_left (j, true) = omega arith
begin_step-steps_left (j, false) = omega arith

publish_step-steps_left :
    (a : Approval) (r : JobRun × Bool) → steps_left (publish_step a r).position ≤ 2
unfolding publish_step
publish_step-steps_left a (j, true) = omega arith
publish_step-steps_left a (j, false) = omega arith

position_after-steps_left :
    (d : ApprovalDecision) → steps_left (position_after (verdict d true)) ≤ 1
position_after-steps_left ApprovalDecision.deny = omega arith
position_after-steps_left ApprovalDecision.allow = omega arith
position_after-steps_left ApprovalDecision.no_decision = omega arith

module _ (j : JobRun) where
  abbrev stepped : Step → JobRun
  stepped s = unless_possible j (step s j)

  wait_step-steps_left :
      (m : Meeting) (a : Approval) (inbox : Option ApprovalDecision)
      → j.position ≡ Position.asking a
      → j.inbox ≡ inbox
      → steps_left (stepped (wait_step m inbox)).position ≤ 1
  unfolding step take_step
  wait_step-steps_left m a none asks is = rw asks (omega arith)
  wait_step-steps_left m a (some d) asks is = elim (Bool-cases m.is_taken) [
    | inl e ↦ rw (e, asks, is) (position_after-steps_left d)
    | inr e ↦ rw (e, asks) (omega arith)
  ]

  own_step-steps_left :
      (m : Meeting) (p : Position)
      → j.position ≡ p
      → steps_left (stepped (own_step m p j.inbox)).position ≤ steps_left p - 1
  unfolding step publish_at
  own_step-steps_left m Position.starting is = rw is (begin_step-steps_left _)
  own_step-steps_left m Position.working is = rw is (omega arith)
  own_step-steps_left m (Position.opened a) is = rw is (publish_step-steps_left a _)
  own_step-steps_left m (Position.asking a) is = wait_step-steps_left m a j.inbox is refl
  own_step-steps_left m Position.repeating is = rw is (omega arith)
  own_step-steps_left m Position.over is = rw is (omega arith)

  send_answer-position :
      (d : ApprovalDecision) (o : Option ApprovalDecision)
      → (unless_possible j (send_answer d j o)).position ≡ j.position
  unfolding send_answer
  send_answer-position d none = refl
  send_answer-position d (some held) = refl

  answer_step-position :
      (d : ApprovalDecision) (id : String) (now : Time)
      → (stepped (Step.answer_approval d id now)).position ≡ j.position
  unfolding step answer_step
  answer_step-position d id now =
      elim (Bool-cases
        (not (is_decision d) || not j.answer || is_stale_answer j.value.approval id now)) [
          | inl refused ↦ rw refused refl
          | inr good ↦ rw good (send_answer-position d j.inbox)
        ]

  unless_possible-position :
      (b : Bool) (j' : JobRun)
      → j'.position ≡ j.position
      → (unless_possible j (when b j')).position ≡ j.position
  unless_possible-position true j' same = same
  unless_possible-position false j' same = refl

  turn-steps_left :
      (t : Turn)
      → Sound j
      → steps_left (stepped (turn_step t j)).position + own_turns (t ∷ []) ≤ steps_left j.position
        ⊎ (steps_left (stepped (turn_step t j)).position ≡ 0)
  unfolding own_turns step
  turn-steps_left (Turn.own m) h =
      let less = own_step-steps_left m j.position refl in ground (arith, less)
  turn-steps_left (Turn.answered d id now) h =
      let same = ap steps_left (answer_step-position d id now) in inl (omega (arith, same))
  turn-steps_left Turn.cancelled h = inl (omega arith)
  turn-steps_left (Turn.logged t save now) h =
      let apply : Job → Job = λ v. record v { log_tail = t } in
      let same = ap steps_left (
        unless_possible-position (not (is_starting j.position) && not (is_final j.position))
          (change apply save now j).0 (change-Done apply save now j h).1) in
      inl (omega (arith, same))

Sound-unless_possible :
    (j : JobRun) (o : Option JobRun) → Sound j → After Sound o → Sound (unless_possible j o)
Sound-unless_possible j none h k = h
Sound-unless_possible j (some j') h k = k

turns-Sound : (ts : List Turn) (j : JobRun) → Sound j → Sound (turns j ts)
unfolding turns
turns-Sound [] j h = h
turns-Sound (t ∷ ts) j h =
    turns-Sound ts (unless_possible j (step (turn_step t j) j))
      (Sound-unless_possible j (step (turn_step t j) j) h (step-Sound (turn_step t j) j h))

own_turns-cons :
    (t : Turn) (ts : List Turn) → own_turns (t ∷ ts) ≡ own_turns (t ∷ []) + own_turns ts
unfolding own_turns
own_turns-cons (Turn.own m) ts = omega arith
own_turns-cons (Turn.answered d id now) ts = omega arith
own_turns-cons Turn.cancelled ts = omega arith
own_turns-cons (Turn.logged t save now) ts = omega arith

turns-steps_left :
    (ts : List Turn) (j : JobRun)
    → Sound j
    → steps_left j.position ≤ own_turns ts
    → steps_left (turns j ts).position ≡ 0
unfolding turns own_turns
turns-steps_left [] j h enough = omega (arith, enough)
turns-steps_left (t ∷ ts) j h enough =
    let j' = unless_possible j (step (turn_step t j) j) in
    let h' = Sound-unless_possible j (step (turn_step t j) j) h (step-Sound (turn_step t j) j h) in
    let split = own_turns-cons t ts in
    turns-steps_left ts j' h' (elim (turn-steps_left j t h) [
      | inl less ↦ omega (arith, less, split, enough)
      | inr zero ↦ omega (arith, zero)
    ])

steps_left-final : (p : Position) → steps_left p ≡ 0 → is_final p ≡ true
steps_left-final p h = ground arith

steps_left-bound : (p : Position) → steps_left p ≤ 4
steps_left-bound p = ground arith

over_of :
    (e : Option String) (over final : Bool) → SoundAt e over final → final ≡ true → over ≡ true
over_of none over final h last = h ∙ last
over_of (some e) over final h last = h

-- A job that is in agreement with its goroutine is over after at most four steps of the goroutine,
-- when its run returns whenever it goes on and the file of an approval that is answered has not
-- changed. This is so from every point of the job, whatever the saving of the job, the outcome and the
-- approvals are, and whatever answers, cancellations and log updates come in between.
pub job_over-turns :
    (j : JobRun) (ts : List Turn) → Sound j → 4 ≤ own_turns ts → job_over (turns j ts) ≡ true
job_over-turns j ts h enough =
    let after = turns j ts in
    let last = turns-steps_left ts j h (omega (arith, steps_left-bound j.position, enough)) in
    over_of after.persist_error (job_over after) (is_final after.position) (turns-Sound ts j h)
      (steps_left-final after.position last)
