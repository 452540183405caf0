-- ===== src/Tests/Jobs.antt =====
-- A registry that is started with an unfinished job, and the life of one job.
use workitem.Common.{
  ℕ, ◌≤◌, ◌≡◌, refl, String, true, false, Option, none, some, List, [], ◌∷◌, Map, IsUnique, lookup,
  put, remove, length, str_eq, arith,
}
use workitem.Strings.{is_empty, concat}
use workitem.Model.Error.{ok}
use workitem.Jobs.Types.{JobState, ApprovalDecision, Approval, Job, same_texts, same_job}
use workitem.Jobs.Run.{
  Position, JobRun, RunOutcome, store_change, change_from, change, ended_job, Step, begin_step,
  publish_step, send_answer, answer_step, take_step, publish_at, step,
}
use workitem.Jobs.Registry.{
  Registry, job_over, finished_jobs, finished_later, insert_finished, sort_finished, remove_all,
  prune_to, prune, Operation, find_live, job_run, register, start_unless, start_key, get_job,
  cancel_all, close_registry, list_jobs, listed, insert_job, sort_jobs, restore, restored, Action,
  job_after, step_job, act, acts,
}
use workitem.Jobs.Sound.{Sound}
use workitem.Jobs.Single.{IsSingle}
use workitem.Jobs.Actions.{acts-restored}
use workitem.Jobs.Turns.{Meeting, Turn, turns, own_turns, job_over-turns}
use workitem.Jobs.Pruning.{prune_to_lem}

program : Unit {0}
unfolding is_empty concat lookup put remove str_eq same_texts same_job store_change change_from
    change ended_job begin_step publish_step send_answer answer_step take_step publish_at step
    finished_jobs finished_later insert_finished sort_finished remove_all prune_to prune find_live
    register start_unless start_key get_job cancel_all close_registry list_jobs listed insert_job
    sort_jobs restore restored job_after step_job act acts turns own_turns
program = tt

abbrev job : String → JobState → Option ℕ → Job
job id state at = record {
  id = id;
  kind = "start_item";
  state = state;
  item_id = "a";
  repository_id = "r";
  phase = "";
  log_tail = "";
  approval = none;
  error = "";
  partial = none;
  warnings = [];
  created_at = some 1;
  started_at = none;
  finished_at = at;
}

abbrev saves : Job → Option String
saves v = none

abbrev registry : Registry
registry = record {
  entries =
      (
        "j1",
        job_run ""
            (record (job "j1" JobState.failed (some 7)) {
              error = "interrupted by a daemon restart";
            })
            Position.over,
      )
      ∷ [];
  closed = false;
  stopping = false;
  health = none;
}

restored_runs : restored saves 7 (job "j1" JobState.running none ∷ []) ≡ ok registry
unfolding program
restored_runs = refl

abbrev operation : Operation
operation = record { kind = "start_item"; key = "start_item"; item_id = "a"; repository_id = "r" }

abbrev approval : Approval
approval = record {
  challenge_id = "c";
  question = "trust?";
  path = "hook";
  digest = "d";
  expires_at = 90;
}

abbrev actions : List Action
actions =
    Action.start operation "j2" 10 none
    ∷ Action.on_job "j2" (Step.begin none 11)
    ∷ Action.start operation "j3" 12 none
    ∷ Action.on_job "j2" (Step.open_approval approval)
    ∷ Action.on_job "j2" (Step.publish_approval none 13)
    ∷ Action.on_job "j2" (Step.answer_approval ApprovalDecision.allow "c" 14)
    ∷ Action.on_job "j2" (Step.take_answer true none 15)
    ∷ Action.on_job "j2" (Step.finish RunOutcome.done false none 16)
    ∷ Action.start operation "j4" 17 none
    ∷ []

state_of : Option JobRun → Option JobState
state_of none = none
state_of (some j) = some j.value.state

second_is_done : state_of (lookup (acts registry actions).entries "j2") ≡ some JobState.succeeded
unfolding program state_of
second_is_done = refl

phase_of : Option JobRun → Option String
phase_of none = none
phase_of (some j) = some j.value.phase

second_is_finished : phase_of (lookup (acts registry actions).entries "j2") ≡ some "finished"
unfolding program phase_of
second_is_finished = refl

third_is_second : lookup (acts registry actions).entries "j3" ≡ none
unfolding program
third_is_second = refl

fourth_is_queued : state_of (lookup (acts registry actions).entries "j4") ≡ some JobState.queued
unfolding program state_of
fourth_is_queued = refl

acts-restored_example : IsSingle (acts registry actions).entries
acts-restored_example =
    acts-restored saves 7 (job "j1" JobState.running none ∷ []) registry actions restored_runs

abbrev asked_job : JobRun
asked_job =
    record (job_run "start_item"
      (record (job "j2" JobState.waiting_for_approval none) { approval = some approval })
      (Position.asking approval)) { answer = true }

abbrev second_approval : Approval
second_approval = record {
  challenge_id = "c2";
  question = "trust the other?";
  path = "other";
  digest = "d2";
  expires_at = 95;
}

steps : JobRun → List Step → Option JobRun
steps j [] = some j
steps j (s ∷ ss) = elim (step s j) [ none ↦ none | some j' ↦ steps j' ss ]

asks_with : Option JobRun → Option (Position × Option ApprovalDecision)
asks_with none = none
asks_with (some j) = some (j.position, j.inbox)

-- The first question is given up and the second one is being opened when the answer to the first
-- comes. The second question then holds it.
answer_to_first :
    asks_with (
      steps asked_job (
        Step.give_up
        ∷ Step.open_approval second_approval
        ∷ Step.answer_approval ApprovalDecision.allow "c" 30
        ∷ Step.publish_approval none 31
        ∷ []))
    ≡ some (Position.asking second_approval, some ApprovalDecision.allow)
unfolding program steps asks_with
answer_to_first = refl

asked_job-Sound : Sound asked_job
asked_job-Sound = refl

abbrev meeting : Meeting
meeting = record {
  save = none;
  now = 20;
  question = approval;
  outcome = RunOutcome.error "failed" true none;
  stopping = false;
  is_taken = true;
}

abbrev schedule : List Turn
schedule =
    Turn.answered ApprovalDecision.deny "c" 18
    ∷ Turn.own meeting
    ∷ Turn.logged "log" (some "disk full") 19
    ∷ Turn.own meeting
    ∷ Turn.cancelled
    ∷ Turn.own meeting
    ∷ Turn.own meeting
    ∷ []

four : 4 ≤ own_turns schedule
unfolding own_turns
four = omega arith

job_over-turns_example : job_over (turns asked_job schedule) ≡ true
job_over-turns_example = job_over-turns asked_job schedule asked_job-Sound four

abbrev finished_run : String → ℕ → JobRun
finished_run id at = job_run "k" (job id JobState.succeeded (some at)) Position.over

abbrev live_run : JobRun
live_run = job_run "k" (job "l" JobState.running none) Position.working

abbrev entries : Map JobRun
entries = ("x", finished_run "x" 5) ∷ ("l", live_run) ∷ ("y", finished_run "y" 8) ∷ []

entries-IsUnique : IsUnique entries
unfolding program
entries-IsUnique = (refl, (refl, (refl, tt)))

x_is_found : lookup entries "x" ≡ some (finished_run "x" 5)
unfolding program
x_is_found = refl

x_is_dropped : lookup (prune_to 1 entries) "x" ≡ none
unfolding program
x_is_dropped = refl

y_is_found : lookup entries "y" ≡ some (finished_run "y" 8)
unfolding program
y_is_found = refl

y_is_kept : lookup (prune_to 1 entries) "y" ≡ some (finished_run "y" 8)
unfolding program
y_is_kept = refl

prune_to_lem_example :
    (job_over (finished_run "x" 5) ≡ true)
    × (5 ≤ 8)
    × (length (finished_jobs (prune_to 1 entries)) ≤ 1)
prune_to_lem_example =
    prune_to_lem 1 entries entries-IsUnique "x" "y" (finished_run "x" 5) (finished_run "y" 8)
      x_is_found x_is_dropped y_is_found refl y_is_kept
