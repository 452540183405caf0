-- ===== src/Jobs/Registry.antt =====
-- The registry of the jobs: `jobRegistry` of internal/daemonapi/jobs.go. The lock makes each call one
-- step, which reads the clock once. A Go map is walked in the order of the association list.
use workitem.Common.{
  ℕ, String, Bool, true, false, not, ◌&&◌, ◌||◌, ◌==◌, Option, none, some, List, [], ◌∷◌, Map,
  lookup, put, remove, drop, str_eq, if◌then◌else◌,
}
use workitem.Strings.{is_empty, str_lt}
use workitem.Model.Error.{Error, Result, fail, ok, refuse_if, ◌>>=◌, ◌>>◌}
use workitem.Model.Blocker.{Time, after}
use workitem.Jobs.Types.{JobState, terminal_job, Job}
use workitem.Jobs.Run.{JobRun, Position, Step, stamp, interrupted, step}

-- `stopping` says that the context of the registry has ended, and `health` is `r.err`.
pub record Registry : Type 0 where
  pub entries : Map JobRun
  pub closed : Bool
  pub stopping : Bool
  pub health : Option String

-- `time.Unix(0, 0)`, which a missing time stamp reads as.
abbrev pub unix_epoch : Time
unix_epoch = 62135596800000000000

abbrev pub as_time : Option Time → Time
as_time none = unix_epoch
as_time (some t) = t

abbrev pub job_over : JobRun → Bool
job_over j = terminal_job j.value.state

-- The finished jobs with their times.
unfoldable pub finished_jobs : Map JobRun → List (String × Time)
finished_jobs [] = []
finished_jobs ((id, j) ∷ rest) =
    let others = finished_jobs rest in
    if job_over j then (id, as_time j.value.finished_at) ∷ others else others

-- The newest first, and of equally new ones that with the greater id.
unfoldable pub finished_later : String × Time → String × Time → Bool
finished_later (id, t) (id', t') = if t == t' then str_lt id' id else after t t'

unfoldable pub insert_finished : String × Time → List (String × Time) → List (String × Time)
insert_finished x [] = x ∷ []
insert_finished x (y ∷ ys) =
    let rest = insert_finished x ys in if finished_later y x then y ∷ rest else x ∷ y ∷ ys

unfoldable pub sort_finished : List (String × Time) → List (String × Time)
sort_finished [] = []
sort_finished (x ∷ xs) = insert_finished x (sort_finished xs)

-- `coordinator.APIJobHistoryLimit`
abbrev pub api_job_history_limit : ℕ
api_job_history_limit = 500

unfoldable pub remove_all : Map JobRun → List (String × Time) → Map JobRun
remove_all m [] = m
remove_all m ((id, t) ∷ rest) = remove_all (remove m id) rest

unfoldable pub prune_to : ℕ → Map JobRun → Map JobRun
prune_to limit m = remove_all m (drop limit (sort_finished (finished_jobs m)))

unfoldable pub prune : Map JobRun → Map JobRun
prune m = prune_to api_job_history_limit m

abbrev pub pruned : Registry → Registry
pruned r = record r { entries = prune r.entries }

-- `persist` keeps the last error.
abbrev pub health_after : Option String → Option String → Option String
health_after health none = health
health_after health (some e) = some e

-- What `startKey` is asked for.
pub record Operation : Type 0 where
  pub kind : String
  pub key : String
  pub item_id : String
  pub repository_id : String

abbrev pub is_operation : Operation → JobRun → Bool
is_operation o j =
    str_eq j.key o.key
    && str_eq j.value.kind o.kind
    && str_eq j.value.item_id o.item_id
    && str_eq j.value.repository_id o.repository_id

-- A live job of the operation.
unfoldable pub find_live : Operation → Map JobRun → Option Job
find_live o [] = none
find_live o ((id, j) ∷ rest) =
    let others = find_live o rest in
    if is_operation o j && not (job_over j) then some j.value else others

abbrev pub new_job : Operation → String → Time → Job
new_job o id now = record {
  id = id;
  kind = o.kind;
  state = JobState.queued;
  item_id = o.item_id;
  repository_id = o.repository_id;
  phase = "";
  log_tail = "";
  approval = none;
  error = "";
  partial = none;
  warnings = [];
  created_at = stamp now;
  started_at = none;
  finished_at = none;
}

abbrev pub refused_job : Operation → String → Time → Job
refused_job o id now = record (new_job o id now) {
  state = JobState.cancelled;
  error = "daemon is stopping";
  finished_at = stamp now;
}

abbrev pub unsaved_job : Operation → String → Time → String → Job
unsaved_job o id now e = record (new_job o id now) {
  state = JobState.failed;
  error = e;
  finished_at = stamp now;
}

abbrev pub job_run : String → Job → Position → JobRun
job_run key value position = record {
  key = key;
  value = value;
  persist_error = none;
  answer = false;
  inbox = none;
  ended = false;
  position = position;
}

-- The job is registered where it could be saved.
unfoldable pub register : Registry → Operation → String → Time → Option String → Registry × Job
register r o id now none = (
  record r { entries = put r.entries id (job_run o.key (new_job o id now) Position.starting) },
  new_job o id now,
)
register r o id now (some e) = (record r { health = some e }, unsaved_job o id now e)

-- A live job of the operation is the answer.
unfoldable pub start_unless :
    Option Job → Registry → Operation → String → Time → Option String → Registry × Job
start_unless (some value) r o id now save = (r, value)
start_unless none r o id now save = register r o id now save

unfoldable pub start_key : Registry → Operation → String → Time → Option String → Registry × Job
start_key r o id now save =
    if r.closed || r.stopping
    then (
      record r {
        entries = put r.entries id (job_run "" (refused_job o id now) Position.over);
        health = health_after r.health save;
      },
      refused_job o id now,
    )
    else start_unless (find_live o (pruned r).entries) (pruned r) o id now save

abbrev pub found_job : Option JobRun → Result JobRun
found_job none = fail Error.job_not_found
found_job (some j) = ok j

unfoldable pub get_job : Registry → String → Registry × Result JobRun
get_job r id = (pruned r, found_job (lookup (pruned r).entries id))

unfoldable pub cancel_all : Map JobRun → Map JobRun
cancel_all [] = []
cancel_all ((id, j) ∷ rest) = (id, record j { ended = true }) ∷ cancel_all rest

-- `wait` up to the wait for the goroutines.
unfoldable pub close_registry : Registry → Registry
close_registry r = record r { closed = true; entries = cancel_all r.entries }

-- The loop of `list`.
unfoldable pub listed : String → Bool → Map JobRun → List Job
listed item running [] = []
listed item running ((id, j) ∷ rest) =
    let others = listed item running rest in
    if (is_empty item || str_eq j.value.item_id item) && (not running || not (job_over j))
    then j.value ∷ others
    else others

unfoldable pub insert_job : Job → List Job → List Job
insert_job v [] = v ∷ []
insert_job v (w ∷ ws) =
    let rest = insert_job v ws in
    if after (as_time w.created_at) (as_time v.created_at) then w ∷ rest else v ∷ w ∷ ws

unfoldable pub sort_jobs : List Job → List Job
sort_jobs [] = []
sort_jobs (v ∷ vs) = insert_job v (sort_jobs vs)

unfoldable pub list_jobs : Registry → String → Bool → Registry × List Job
list_jobs r item running = (pruned r, sort_jobs (listed item running (pruned r).entries))

-- A job that the daemon finds unfinished when it starts.
abbrev pub interrupted_job : Time → Job → Job
interrupted_job now v = record v {
  state = JobState.failed;
  error = interrupted;
  approval = none;
  finished_at = stamp now;
}

abbrev pub restored_job : Time → Job → Job
restored_job now v = if terminal_job v.state then v else interrupted_job now v

abbrev pub failed_save : Option String → Bool
failed_save none = false
failed_save (some e) = true

-- The loop of `newPersistentJobRegistry`.
unfoldable pub restore : (Job → Option String) → Time → Map JobRun → List Job → Result (Map JobRun)
restore save now m [] = ok m
restore save now m (v ∷ vs) = do
  refuse_if (is_empty v.id) Error.job_without_id
  refuse_if (not (terminal_job v.state) && failed_save (save (interrupted_job now v)))
      Error.job_not_saved
  restore save now (put m v.id (job_run "" (restored_job now v) Position.over)) vs

unfoldable pub restored : (Job → Option String) → Time → List Job → Result Registry
restored save now vs = do
  m ← restore save now [] vs
  ok (record { entries = prune m; closed = false; stopping = false; health = none })

-- A call of the registry, its pruning (which `get` and `list` do too), the end of its context, or a step of one of its jobs.
pub data Action : Type 0 where
  start : Operation → (id : String) (now : Time) (save : Option String) → Action
  prune_history close stop : Action
  on_job : String → Step → Action

abbrev pub changed_health : Option String → JobRun → JobRun → Option String
changed_health health j j' = elim j.persist_error [
  | some e ↦ health
  | none ↦ health_after health j'.persist_error
]

unfoldable pub job_after : Registry → String → JobRun → Option JobRun → Registry
job_after r id j none = r
job_after r id j (some j') = record r {
  entries = put r.entries id j';
  health = changed_health r.health j j';
}

unfoldable pub step_job : Registry → String → Step → Option JobRun → Registry
step_job r id s none = r
step_job r id s (some j) = job_after r id j (step s j)

unfoldable pub act : Registry → Action → Registry
act r (Action.start o id now save) = (start_key r o id now save).0
act r Action.prune_history = pruned r
act r Action.close = close_registry r
act r Action.stop = record r { stopping = true; entries = cancel_all r.entries }
act r (Action.on_job id s) = step_job r id s (lookup r.entries id)

unfoldable pub acts : Registry → List Action → Registry
acts r [] = r
acts r (a ∷ actions) = acts (act r a) actions
