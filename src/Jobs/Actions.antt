-- ===== src/Jobs/Actions.antt =====
-- The registry over every sequence of calls and steps.
use workitem.Common.{
  ◌≡◌, refl, sym, ap, ◌∙◌, String, true, false, not, ◌&&◌, ◌||◌, Option, none, some, List, [], ◌∷◌,
  Map, lookup, put, str_eq, str_eq_refl, Bool-cases, inl, inr,
}
use workitem.Strings.{is_empty}
use workitem.Model.Error.{ok, Ensures, Ensures-ok, Ensures-bind, Ensures-refuse}
use workitem.Model.Blocker.{Time}
use workitem.Jobs.Types.{terminal_job, Job}
use workitem.Jobs.Run.{JobRun, Position, Step, step}
use workitem.Jobs.Registry.{
  Registry, job_over, prune, pruned, Operation, is_operation, find_live, new_job, refused_job,
  job_run, register, start_unless, start_key, cancel_all, close_registry, interrupted_job,
  restored_job, failed_save, restore, restored, Action, job_after, step_job, act, acts,
}
use workitem.Jobs.Sound.{Sound, Identity, identity, After}
use workitem.Jobs.Steps.{step-Sound}
use workitem.Jobs.Kept.{Kept, step-Kept}
use workitem.Jobs.Single.{
  IsSingle, Refines-IsSingle, prune-Refines, cancel_all-Refines, put-IsSingle,
}

-- An operation as the identity of its jobs.
abbrev as_identity : Operation → Identity
as_identity o = record {
  key = o.key;
  kind = o.kind;
  item_id = o.item_id;
  repository_id = o.repository_id;
}

is_operation-identity :
    (o : Operation) (j : JobRun) → identity j ≡ as_identity o → is_operation o j ≡ true
is_operation-identity o j e =
    rw
      (
        ap (λ (i : Identity). i.key) e,
        ap (λ (i : Identity). i.kind) e,
        ap (λ (i : Identity). i.item_id) e,
        ap (λ (i : Identity). i.repository_id) e,
        str_eq_refl o.key,
        str_eq_refl o.kind,
        str_eq_refl o.item_id,
        str_eq_refl o.repository_id,
      )
      refl

-- Where no live job of the operation is found, there is none.
find_live-none :
    (o : Operation) (m : Map JobRun) (id : String) (j : JobRun)
    → find_live o m ≡ none
    → lookup m id ≡ some j
    → job_over j ≡ false
    → identity j ≡ as_identity o
    → ⊥
unfolding find_live lookup
find_live-none o [] id j none_live found live same = cc
find_live-none o ((key, k) ∷ rest) id j none_live found live same =
    elim (Bool-cases (is_operation o k && not (job_over k))) [
      | inl e ↦ let r : some k.value ≡ none = rw e at none_live in cc
      | inr e ↦
          let r : find_live o rest ≡ none = rw e at none_live in
          elim (Bool-cases (str_eq key id)) [
            | inl f ↦
                let q : some k ≡ some j = rw f at found in
                let k_is : k ≡ j = cc in
                let both : (is_operation o j && not (job_over j)) ≡ true =
                  rw (is_operation-identity o j same, live) refl in
                let both' : (is_operation o k && not (job_over k)) ≡ true = rw k_is both in cc
            | inr f ↦ find_live-none o rest id j r (rw f at found) live same
          ]
    ]

register-IsSingle :
    (r : Registry) (o : Operation) (id : String) (now : Time) (save : Option String)
    → find_live o r.entries ≡ none
    → IsSingle r.entries
    → IsSingle (register r o id now save).0.entries
unfolding register
register-IsSingle r o id now none none_live s =
    put-IsSingle r.entries id (job_run o.key (new_job o id now) Position.starting) s refl
      λ live b k found live_k same.
        absurd (find_live-none o r.entries b k none_live found live_k same)
register-IsSingle r o id now (some e) none_live s = s

start_unless-IsSingle :
    (found : Option Job) (r : Registry) (o : Operation) (id : String) (now : Time)
    (save : Option String)
    → find_live o r.entries ≡ found
    → IsSingle r.entries
    → IsSingle (start_unless found r o id now save).0.entries
unfolding start_unless
start_unless-IsSingle none r o id now save is s = register-IsSingle r o id now save is s
start_unless-IsSingle (some v) r o id now save is s = s

-- A job that is over may be written anywhere.
put_over-IsSingle :
    (m : Map JobRun) (id : String) (j : JobRun)
    → IsSingle m
    → Sound j
    → job_over j ≡ true
    → IsSingle (put m id j)
put_over-IsSingle m id j s h over = put-IsSingle m id j s h λ live. absurd (contrary over live)
  where
    contrary : job_over j ≡ true → job_over j ≡ false → ⊥
    contrary e f = cc

start_key-IsSingle :
    (r : Registry) (o : Operation) (id : String) (now : Time) (save : Option String)
    → IsSingle r.entries
    → IsSingle (start_key r o id now save).0.entries
unfolding start_key
start_key-IsSingle r o id now save s = elim (Bool-cases (r.closed || r.stopping)) [
  | inl e ↦
      rw e (
        put_over-IsSingle r.entries id (job_run "" (refused_job o id now) Position.over) s refl
          refl)
  | inr e ↦ rw e (
      start_unless-IsSingle (find_live o (pruned r).entries) (pruned r) o id now save refl
        (Refines-IsSingle r.entries (prune r.entries) (prune-Refines r.entries) s))
]

job_after-IsSingle :
    (r : Registry) (id : String) (j : JobRun) (o : Option JobRun)
    → IsSingle r.entries
    → lookup r.entries id ≡ some j
    → After Sound o
    → After (Kept j) o
    → IsSingle (job_after r id j o).entries
unfolding job_after
job_after-IsSingle r id j none s found h k = s
job_after-IsSingle r id j (some j') s found h k =
    put-IsSingle r.entries id j' s h λ live b kb found_b live_b same.
      s.single b id kb j found_b found live_b (was_live live) (same ∙ k.0)
  where
    was_live : job_over j' ≡ false → job_over j ≡ false
    was_live live = elim (Bool-cases (job_over j)) [
      | inr e ↦ e
      | inl e ↦ sym (ap (λ (v : Job). terminal_job v.state) (k.1 e)) ∙ live
    ]

step_job-IsSingle :
    (r : Registry) (id : String) (t : Step) (o : Option JobRun)
    → IsSingle r.entries
    → lookup r.entries id ≡ o
    → IsSingle (step_job r id t o).entries
unfolding step_job
step_job-IsSingle r id t none s found = s
step_job-IsSingle r id t (some j) s found =
    let h = s.sound id j found in
    job_after-IsSingle r id j (step t j) s found (step-Sound t j h) (step-Kept t j h)

act-IsSingle : (r : Registry) (a : Action) → IsSingle r.entries → IsSingle (act r a).entries
unfolding act close_registry
act-IsSingle r (Action.start o id now save) s = start_key-IsSingle r o id now save s
act-IsSingle r Action.prune_history s =
    Refines-IsSingle r.entries (prune r.entries) (prune-Refines r.entries) s
act-IsSingle r Action.close s =
    Refines-IsSingle r.entries (cancel_all r.entries) (cancel_all-Refines r.entries) s
act-IsSingle r Action.stop s =
    Refines-IsSingle r.entries (cancel_all r.entries) (cancel_all-Refines r.entries) s
act-IsSingle r (Action.on_job id t) s = step_job-IsSingle r id t (lookup r.entries id) s refl

pub acts-IsSingle :
    (r : Registry) (actions : List Action) → IsSingle r.entries → IsSingle (acts r actions).entries
unfolding acts
acts-IsSingle r [] s = s
acts-IsSingle r (a ∷ actions) s = acts-IsSingle (act r a) actions (act-IsSingle r a s)

restored_job-over : (now : Time) (v : Job) → terminal_job (restored_job now v).state ≡ true
restored_job-over now v = elim (Bool-cases (terminal_job v.state)) [
  | inl e ↦ rw e e
  | inr e ↦ rw e refl
]

restore-IsSingle :
    (save : Job → Option String) (now : Time) (m : Map JobRun) (vs : List Job)
    → IsSingle m
    → Ensures IsSingle (restore save now m vs)
unfolding restore
restore-IsSingle save now m [] s = s
restore-IsSingle save now m (v ∷ vs) s = Ensures-refuse IsSingle (is_empty v.id) _ _ λ _.
    Ensures-refuse IsSingle
      (not (terminal_job v.state) && failed_save (save (interrupted_job now v))) _ _
      λ _.
        let over = restored_job-over now v in
        restore-IsSingle save now (put m v.id (job_run "" (restored_job now v) Position.over)) vs
          (put_over-IsSingle m v.id (job_run "" (restored_job now v) Position.over) s over over)

restored-IsSingle :
    (save : Job → Option String) (now : Time) (vs : List Job)
    → Ensures (λ r. IsSingle r.entries) (restored save now vs)
unfolding restored lookup
restored-IsSingle save now vs =
    let Good : Registry → Type 0 = λ r. IsSingle r.entries in
    let empty : IsSingle [] = record {
      sound = λ id j found. cc;
      single = λ a b j k found_a found_b live_j live_k same. cc;
    } in
    Ensures-bind Good (restore save now [] vs) _ λ m run.
      Refines-IsSingle m (prune m) (prune-Refines m)
        (Ensures-ok IsSingle run (restore-IsSingle save now [] vs empty))

-- Whatever calls and steps of jobs follow the start of a daemon, no two live jobs in its registry
-- have the same key, kind, item and repository, and each job is in agreement with its goroutine: it
-- is over exactly when the goroutine has made its last change, or when it could not be saved.
pub acts-restored :
    (save : Job → Option String) (now : Time) (vs : List Job) (r : Registry) (actions : List Action)
    → restored save now vs ≡ ok r
    → IsSingle (acts r actions).entries
acts-restored save now vs r actions run =
    acts-IsSingle r actions
      (Ensures-ok (λ r. IsSingle r.entries) run (restored-IsSingle save now vs))
