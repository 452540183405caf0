-- ===== src/Jobs/Single.antt =====
-- At most one live job works on an operation.
use workitem.Common.{
  ◌≡◌, refl, sym, ap, ◌∙◌, subst, String, true, false, none, some, List, [], ◌∷◌, Map, lookup, put,
  remove, drop, lookup-put_self, lookup-put_ne, lookup-remove, str_eq, str_eq-cases, Bool-cases,
  inl, inr,
}
use workitem.Model.Blocker.{Time}
use workitem.Jobs.Run.{JobRun}
use workitem.Jobs.Registry.{
  job_over, finished_jobs, sort_finished, api_job_history_limit, remove_all, prune, prune_to,
  cancel_all,
}
use workitem.Jobs.Sound.{Sound, identity}

-- Every job is sound, and no two live jobs are of the same operation.
pub record IsSingle (m : Map JobRun) : Type 0 where
  pub sound : (id : String) (j : JobRun) → lookup m id ≡ some j → Sound j
  pub single :
      (a b : String) (j k : JobRun)
      → lookup m a ≡ some j
      → lookup m b ≡ some k
      → job_over j ≡ false
      → job_over k ≡ false
      → identity j ≡ identity k
      → a ≡ b

-- What a job has become of.
abbrev Becomes : JobRun → JobRun → Type 0
Becomes j j' =
    (Sound j → Sound j') × (identity j' ≡ identity j) × (job_over j' ≡ false → job_over j ≡ false)

-- Every job of `m'` has become of one of `m`.
abbrev Refines : Map JobRun → Map JobRun → Type 0
Refines m m' =
    (id : String) (j' : JobRun)
    → lookup m' id ≡ some j'
    → (j : JobRun) × (lookup m id ≡ some j) × Becomes j j'

pub Refines-IsSingle : (m m' : Map JobRun) → Refines m m' → IsSingle m → IsSingle m'
Refines-IsSingle m m' h s = record {
  sound = λ id j' found. let (j, old, become) = h id j' found in become.0 (s.sound id j old);
  single = λ a b j' k' found_a found_b live_j live_k same.
      let (j, old_j, become_j) = h a j' found_a in
      let (k, old_k, become_k) = h b k' found_b in
      s.single a b j k old_j old_k (become_j.2 live_j) (become_k.2 live_k)
        (sym become_j.1 ∙ same ∙ become_k.1);
}

Becomes-refl : (j : JobRun) → Becomes j j
Becomes-refl j = (λ s. s, refl, λ l. l)

remove_all-Refines :
    (l : List (String × Time)) (m : Map JobRun) (id : String) (j : JobRun)
    → lookup (remove_all m l) id ≡ some j
    → lookup m id ≡ some j
unfolding remove_all
remove_all-Refines [] m id j found = found
remove_all-Refines ((key, t) ∷ l) m id j found =
    let after : lookup (remove m key) id ≡ some j =
      remove_all-Refines l (remove m key) id j found in
    elim (Bool-cases (str_eq key id)) [
      | inl e ↦ let gone : none ≡ some j = sym (lookup-remove m key id ∙ rw e refl) ∙ after in cc
      | inr e ↦ sym (lookup-remove m key id ∙ rw e refl) ∙ after
    ]

pub prune-Refines : (m : Map JobRun) → Refines m (prune m)
unfolding prune prune_to
prune-Refines m id j found = (
  j,
  remove_all-Refines (drop api_job_history_limit (sort_finished (finished_jobs m))) m id j found,
  Becomes-refl j,
)

pub cancel_all-Refines : (m : Map JobRun) → Refines m (cancel_all m)
unfolding cancel_all lookup
cancel_all-Refines [] id j' found = cc
cancel_all-Refines ((key, j) ∷ rest) id j' found = elim (Bool-cases (str_eq key id)) [
  | inl e ↦
      let same : record j { ended = true } ≡ j' =
        let r : some (record j { ended = true }) ≡ some j' = rw e at found in cc in
      (j, rw e refl, subst (Becomes j) same (λ s. s, refl, λ l. l))
  | inr e ↦
      let (k, old, become) = cancel_all-Refines rest id j' (rw e at found) in (k, rw e old, become)
]

-- A write of a job that is alone on its operation, if it is live.
pub put-IsSingle :
    (m : Map JobRun) (id : String) (j : JobRun)
    → IsSingle m
    → Sound j
    → (job_over j ≡ false
        → (b : String) (k : JobRun) → lookup m b ≡ some k
        → job_over k ≡ false
        → identity k ≡ identity j
        → b ≡ id)
    → IsSingle (put m id j)
put-IsSingle m id j s h alone = record {
  sound = λ a k found. elim (str_eq-cases id a) [
    | inl p ↦ let same : j ≡ k = written a k p.0 found in subst Sound same h
    | inr p ↦ s.sound a k (sym (lookup-put_ne m id a j p.1) ∙ found)
  ];
  single = λ a b ja jb found_a found_b live_a live_b same. elim (str_eq-cases id a) [
    | inl p ↦ elim (str_eq-cases id b) [
      | inl q ↦ sym p.0 ∙ q.0
      | inr q ↦
          let ja' : j ≡ ja = written a ja p.0 found_a in
          sym (
            alone (ap job_over ja' ∙ live_a) b jb (sym (lookup-put_ne m id b j q.1) ∙ found_b)
              live_b (sym same ∙ ap identity (sym ja'))
            ∙ p.0)
    ]
    | inr p ↦ elim (str_eq-cases id b) [
      | inl q ↦
          let jb' : j ≡ jb = written b jb q.0 found_b in
          alone (ap job_over jb' ∙ live_b) a ja (sym (lookup-put_ne m id a j p.1) ∙ found_a) live_a
            (same ∙ ap identity (sym jb'))
          ∙ q.0
      | inr q ↦
          s.single a b ja jb (sym (lookup-put_ne m id a j p.1) ∙ found_a)
            (sym (lookup-put_ne m id b j q.1) ∙ found_b) live_a live_b same
    ]
  ];
}
  where
    written : (a : String) (k : JobRun) → id ≡ a → lookup (put m id j) a ≡ some k → j ≡ k
    written a k p found =
        let r : some j ≡ some k =
          sym (lookup-put_self m id j) ∙ ap (lookup (put m id j)) p ∙ found in
        cc
