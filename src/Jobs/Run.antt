-- ===== src/Jobs/Run.antt =====
-- One job: `change` and `approve`, the goroutine of `startKey` and `AnswerApproval` of
-- internal/daemonapi/jobs.go, `phase` and `logTail` of internal/daemonapi/job_progress.go.
-- `save` is the error text that saving the job gives, if any. The run of a job asks for one approval
-- at a time, and for none when it has returned.
use workitem.Common.{
  String, Bool, true, false, not, ◌&&◌, ◌||◌, ◌==◌, Option, none, some, str_eq, if◌then◌else◌,
}
use workitem.Strings.{concat}
use workitem.Model.Blocker.{Time, after}
use workitem.Jobs.Types.{JobState, ApprovalDecision, Approval, PartialOutcome, Job, same_job}

-- Where the goroutine of a job stands: before its first change, in its run, in `approve` with the
-- channel of the answer and then with the approval shown, before the next question of `approve`,
-- or past its last change.
pub data Position : Type 0 where
  starting working over : Position
  opened : Approval → Position
  asking : Approval → Position
  repeating : Position

-- `answer` says that `j.answer` is not nil; it is then the latest channel of `approve`, and `inbox` is
-- what that channel holds. `ended` says that `j.cancel` was called.
pub record JobRun : Type 0 where
  pub key : String
  pub value : Job
  pub persist_error : Option String
  pub answer : Bool
  pub inbox : Option ApprovalDecision
  pub ended : Bool
  pub position : Position

-- `stamp`
abbrev pub stamp : Time → Option Time
stamp t = if t == 0 then none else some t

abbrev pub not_saved : Job → String → Time → Job
not_saved next e now = record next {
  state = JobState.failed;
  error = concat "persist job summary: " e;
  finished_at = stamp now;
}

-- `change` past its comparison.
unfoldable pub store_change : Option String → Time → JobRun → Job → JobRun × Bool
store_change none now j next = (record j { value = next }, true)
store_change (some e) now j next =
    (record j { value = not_saved next e now; persist_error = some e; ended = true }, false)

unfoldable pub change_from :
    Option String → (Job → Job) → Option String → Time → JobRun → JobRun × Bool
change_from (some e) apply save now j = (j, false)
change_from none apply save now j =
    if same_job (apply j.value) j.value then (j, true) else store_change save now j (apply j.value)

unfoldable pub change : (Job → Job) → Option String → Time → JobRun → JobRun × Bool
change apply save now j = change_from j.persist_error apply save now j

abbrev pub begun_job : Time → Job → Job
begun_job now v = record v { state = JobState.running; started_at = stamp now; phase = v.kind }

-- What the run of a job returns. `is_cancelled` says that the error is `context.Canceled`, and
-- `partial` is the last partial outcome in its details.
pub data RunOutcome : Type 0 where
  done : RunOutcome
  error : (text : String) (is_cancelled : Bool) (partial : Option PartialOutcome) → RunOutcome

abbrev pub interrupted : String
interrupted = "interrupted by a daemon restart"

abbrev pub partial_after : Option PartialOutcome → Job → Option PartialOutcome
partial_after none v = v.partial
partial_after (some p) v = some p

-- `stopping` says that the context of the registry has ended.
abbrev pub with_outcome : RunOutcome → Bool → Job → Job
with_outcome done stopping v = record v { state = JobState.succeeded; phase = "finished" }
with_outcome (error text is_cancelled partial) stopping v = record v {
  state = if is_cancelled && not stopping then JobState.cancelled else JobState.failed;
  error = if is_cancelled && stopping then interrupted else text;
  partial = partial_after partial v;
}

abbrev pub if_stopping : Bool → Job → Job
if_stopping true v = record v { state = JobState.failed; error = interrupted }
if_stopping false v = v

-- The last change of the goroutine.
unfoldable pub ended_job : Time → RunOutcome → Bool → Job → Job
ended_job now outcome stopping v =
    if_stopping stopping
      (with_outcome outcome stopping (record v { finished_at = stamp now; approval = none }))

abbrev pub with_approval : Approval → Job → Job
with_approval a v = record v { approval = some a; state = JobState.waiting_for_approval }

abbrev pub resumed : Job → Job
resumed v = record v { approval = none; state = JobState.running }

-- What `approve` does with an answer; `none` is its `continue`. `unchanged` says that the file has
-- still the digest of the approval.
abbrev pub verdict : ApprovalDecision → Bool → Option Bool
verdict ApprovalDecision.deny unchanged = some false
verdict _ true = some true
verdict _ false = none

abbrev pub position_after : Option Bool → Position
position_after none = Position.repeating
position_after (some answer) = Position.working

-- A step of the goroutine, of its run, of `AnswerApproval` or of `CancelJob`.
pub data Step : Type 0 where
  begin : (save : Option String) (now : Time) → Step
  phase : String → (save : Option String) (now : Time) → Step
  log_tail : String → (save : Option String) (now : Time) → Step
  open_approval : Approval → Step
  publish_approval : (save : Option String) (now : Time) → Step
  take_answer : (unchanged : Bool) (save : Option String) (now : Time) → Step
  give_up : Step
  finish : RunOutcome → (stopping : Bool) (save : Option String) (now : Time) → Step
  answer_approval : ApprovalDecision → (challenge_id : String) (now : Time) → Step
  cancel : Step

-- The goroutine has got so far.
abbrev pub at : Position → JobRun × Bool → JobRun
at p (j, saved) = record j { position = p }

abbrev pub cancelled_at : Position → JobRun × Bool → JobRun
cancelled_at p (j, saved) = record j { position = p; ended = true }

unfoldable pub begin_step : JobRun × Bool → JobRun
begin_step (j, true) = record j { position = Position.working }
begin_step (j, false) = record j { position = Position.over; ended = true }

unfoldable pub publish_step : Approval → JobRun × Bool → JobRun
publish_step a (j, true) = record j { position = Position.asking a }
publish_step a (j, false) = record j { position = Position.working }

-- `approval == nil || approval.ChallengeId != id || !approval.ExpiresAt.After(now)`
abbrev pub is_stale_answer : Option Approval → String → Time → Bool
is_stale_answer none challenge_id now = true
is_stale_answer (some a) challenge_id now =
    not (str_eq a.challenge_id challenge_id) || not (after a.expires_at now)

abbrev pub is_decision : ApprovalDecision → Bool
is_decision ApprovalDecision.no_decision = false
is_decision _ = true

-- The answer is sent where the channel has room; `none` is an error.
unfoldable pub send_answer : ApprovalDecision → JobRun → Option ApprovalDecision → Option JobRun
send_answer d j none = some (record j { answer = false; inbox = some d })
send_answer d j (some held) = none

unfoldable pub answer_step : ApprovalDecision → String → Time → JobRun → Option JobRun
answer_step d challenge_id now j =
    if not (is_decision d) || not j.answer || is_stale_answer j.value.approval challenge_id now
    then none
    else send_answer d j j.inbox

-- The decision is taken out of the channel.
unfoldable pub take_step :
    Option ApprovalDecision → Bool → Option String → Time → JobRun → Option JobRun
take_step none unchanged save now j = none
take_step (some d) unchanged save now j = some (
    at (position_after (verdict d unchanged)) (change resumed save now (record j { inbox = none })))

abbrev pub is_starting : Position → Bool
is_starting Position.starting = true
is_starting _ = false

abbrev pub is_working : Position → Bool
is_working Position.working = true
is_working _ = false

abbrev pub is_final : Position → Bool
is_final Position.over = true
is_final _ = false

-- `approve` is called, or asks again.
abbrev pub may_ask : Position → Bool
may_ask Position.working = true
may_ask Position.repeating = true
may_ask _ = false

abbrev pub is_asking : Position → Bool
is_asking (Position.asking a) = true
is_asking _ = false

-- A step that is possible under a condition.
abbrev pub when {ℓ} : {A : Type ℓ} → Bool → A → Option A
when true a = some a
when false a = none

unfoldable pub publish_at : Position → Option String → Time → JobRun → Option JobRun
publish_at (Position.opened a) save now j =
    some (publish_step a (change (with_approval a) save now j))
publish_at _ save now j = none

-- `none` where the step is not possible, or an error.
unfoldable pub step : Step → JobRun → Option JobRun
step (Step.begin save now) j =
    when (is_starting j.position) (begin_step (change (begun_job now) save now j))
step (Step.phase p save now) j =
    when (is_working j.position) (change (λ v. record v { phase = p }) save now j).0
step (Step.log_tail t save now) j =
    when (not (is_starting j.position) && not (is_final j.position))
      (change (λ v. record v { log_tail = t }) save now j).0
step (Step.open_approval a) j =
    when (may_ask j.position)
      (record j { answer = true; inbox = none; position = Position.opened a })
step (Step.publish_approval save now) j = publish_at j.position save now j
step (Step.take_answer unchanged save now) j =
    if is_asking j.position then take_step j.inbox unchanged save now j else none
step Step.give_up j = when (is_asking j.position) (record j { position = Position.working })
step (Step.finish outcome stopping save now) j =
    when (is_working j.position)
      (cancelled_at Position.over (change (ended_job now outcome stopping) save now j))
step (Step.answer_approval d challenge_id now) j = answer_step d challenge_id now j
step Step.cancel j = some (record j { ended = true })
