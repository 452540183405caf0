-- ===== src/Jobs/Pruning.antt =====
-- What pruning the registry keeps.
use workitem.Common.{
  ℕ, ◌+◌, ◌≤◌, ◌≡◌, ◌⊎◌, refl, sym, ap, ◌∙◌, subst, String, true, false, none, some, List, [], ◌∷◌,
  Map, IsUnique, lookup, remove, lookup-remove, drop, length, length-drop, All, All-In, In, str_eq,
  str_eq-cases, str_eq_refl, ne→str_eq, Bool-cases, inl, inr, arith,
}
use workitem.Jobs.Run.{JobRun}
use workitem.Jobs.Registry.{job_over, as_time, finished_jobs, sort_finished, remove_all, prune_to}
use workitem.Jobs.Newest.{
  Finished, IsFinished, Differs, Distinct, NotLater, All-map, All-drop, Distinct-drop,
  All-sort_finished, sort_finished-Sorted, sort_finished-Distinct, length-sort_finished, str_eq-sym,
  In-sort_finished, drop-NotLater,
}

lookup_skip :
    (k : String) (v : JobRun) (rest : Map JobRun) (id : String) (j : JobRun)
    → lookup rest k ≡ none
    → lookup rest id ≡ some j
    → str_eq k id ≡ false
lookup_skip k v rest id j fresh found =
    ne→str_eq k id λ p. let r : none ≡ some j = sym fresh ∙ ap (lookup rest) p ∙ found in cc

finished_jobs-All : (m : Map JobRun) → IsUnique m → All (IsFinished m) (finished_jobs m)
unfolding finished_jobs lookup
finished_jobs-All [] u = tt
finished_jobs-All ((k, v) ∷ rest) u =
    let others : All (IsFinished ((k, v) ∷ rest)) (finished_jobs rest) =
      All-map (IsFinished rest) (IsFinished ((k, v) ∷ rest)) (finished_jobs rest)
        (λ x f. (f.0, rw (lookup_skip k v rest x.0 f.0 u.0 f.1) f.1, f.2, f.3))
        (finished_jobs-All rest u.1) in
    elim (Bool-cases (job_over v)) [
      | inl e ↦ rw e ((v, rw (str_eq_refl k) refl, e, refl), others)
      | inr e ↦ rw e others
    ]

finished_jobs-Distinct : (m : Map JobRun) → IsUnique m → Distinct (finished_jobs m)
unfolding finished_jobs
finished_jobs-Distinct [] u = tt
finished_jobs-Distinct ((k, v) ∷ rest) u = elim (Bool-cases (job_over v)) [
  | inl e ↦ rw e (
    All-map (IsFinished rest) (Differs k) (finished_jobs rest)
        (λ x f. lookup_skip k v rest x.0 f.0 u.0 f.1) (finished_jobs-All rest u.1),
    finished_jobs-Distinct rest u.1,
  )
  | inr e ↦ rw e (finished_jobs-Distinct rest u.1)
]

finished_jobs-In :
    (m : Map JobRun) (id : String) (j : JobRun)
    → lookup m id ≡ some j
    → job_over j ≡ true
    → In (id, as_time j.value.finished_at) (finished_jobs m)
unfolding finished_jobs lookup
finished_jobs-In [] id j found over = cc
finished_jobs-In ((k, v) ∷ rest) id j found over = elim (str_eq-cases k id) [
  | inl p ↦
      let same : v ≡ j = let r : some v ≡ some j = rw p.1 at found in cc in
      let over' : job_over v ≡ true = ap job_over same ∙ over in
      rw over' (inl (λ i. (sym p.0 i, as_time (sym same i).value.finished_at)))
  | inr p ↦
      let rest_in = finished_jobs-In rest id j (rw p.1 at found) over in
      elim (Bool-cases (job_over v)) [ inl e ↦ rw e (inr rest_in) | inr e ↦ rw e rest_in ]
]

lookup-remove_all :
    (l : List Finished) (m : Map JobRun) (id : String)
    → All (Differs id) l
    → lookup (remove_all m l) id ≡ lookup m id
unfolding remove_all
lookup-remove_all [] m id h = refl
lookup-remove_all ((k, t) ∷ l) m id h =
    lookup-remove_all l (remove m k) id h.1 ∙ lookup-remove m k id ∙ rw (str_eq-sym id k h.0) refl

remove_all-none :
    (l : List Finished) (m : Map JobRun) (id : String)
    → lookup m id ≡ none
    → lookup (remove_all m l) id ≡ none
unfolding remove_all
remove_all-none [] m id h = h
remove_all-none ((k, t) ∷ l) m id h =
    remove_all-none l (remove m k) id (
      lookup-remove m k id ∙ elim (Bool-cases (str_eq k id)) [ inl e ↦ rw e refl | inr e ↦ rw e h ])

remove_all-In :
    (l : List Finished) (m : Map JobRun) (x : Finished)
    → In x l
    → lookup (remove_all m l) x.0 ≡ none
unfolding remove_all
remove_all-In [] m x i = elim i [ ]
remove_all-In ((k, t) ∷ l) m x (inl p) =
    remove_all-none l (remove m k) x.0
      (lookup-remove m k x.0 ∙ rw (ap (λ (y : Finished). str_eq k y.0) p ∙ str_eq_refl k) refl)
remove_all-In ((k, t) ∷ l) m x (inr i) = remove_all-In l (remove m k) x i

finished_jobs-remove_le :
    (m : Map JobRun) (id : String) → length (finished_jobs (remove m id)) ≤ length (finished_jobs m)
unfolding finished_jobs remove
finished_jobs-remove_le [] id = omega arith
finished_jobs-remove_le ((k, v) ∷ rest) id =
    let below = finished_jobs-remove_le rest id in
    elim (Bool-cases (str_eq k id)) [
      | inl e ↦ elim (Bool-cases (job_over v)) [
        | inl f ↦ rw (e, f) (omega (arith, below))
        | inr f ↦ rw (e, f) below
      ]
      | inr e ↦ elim (Bool-cases (job_over v)) [
        | inl f ↦ rw (e, f) (omega (arith, below))
        | inr f ↦ rw (e, f) below
      ]
    ]

finished_jobs-remove :
    (m : Map JobRun) (id : String) (j : JobRun)
    → lookup m id ≡ some j
    → job_over j ≡ true
    → length (finished_jobs (remove m id)) + 1 ≤ length (finished_jobs m)
unfolding finished_jobs remove lookup
finished_jobs-remove [] id j found over = cc
finished_jobs-remove ((k, v) ∷ rest) id j found over = elim (Bool-cases (str_eq k id)) [
  | inl e ↦
      let same : v ≡ j = let r : some v ≡ some j = rw e at found in cc in
      let over' : job_over v ≡ true = ap job_over same ∙ over in
      let below = finished_jobs-remove_le rest id in rw (e, over') (omega (arith, below))
  | inr e ↦
      let below = finished_jobs-remove rest id j (rw e at found) over in
      elim (Bool-cases (job_over v)) [
        | inl f ↦ rw (e, f) (omega (arith, below))
        | inr f ↦ rw (e, f) below
      ]
]

remove_all-length :
    (l : List Finished) (m : Map JobRun)
    → Distinct l
    → All (IsFinished m) l
    → length (finished_jobs (remove_all m l)) + length l ≤ length (finished_jobs m)
unfolding remove_all
remove_all-length [] m d h = omega arith
remove_all-length ((k, t) ∷ l) m d h =
    let (j, found, over, time) = h.0 in
    let kept : All (IsFinished (remove m k)) l = still m k l d.0 h.1 in
    omega (arith, remove_all-length l (remove m k) d.1 kept, finished_jobs-remove m k j found over)
  where
    still :
        (m : Map JobRun) (k : String) (l : List Finished)
        → All (Differs k) l
        → All (IsFinished m) l
        → All (IsFinished (remove m k)) l
    still m k [] d h = tt
    still m k (x ∷ l) d h =
        ((h.0.0, lookup-remove m k x.0 ∙ rw d.0 h.0.1, h.0.2, h.0.3), still m k l d.1 h.1)

-- An id is not in a list, or it is that of an element.
id-cases :
    (id : String) (l : List Finished) → All (Differs id) l ⊎ ((x : Finished) × In x l × (x.0 ≡ id))
id-cases id [] = inl tt
id-cases id (x ∷ l) = elim (str_eq-cases id x.0) [
  | inl p ↦ inr (x, inl refl, sym p.0)
  | inr p ↦ elim (id-cases id l) [ inl h ↦ inl (p.1, h) | inr (y, i, e) ↦ inr (y, inr i, e) ]
]

module _ (limit : ℕ) (m : Map JobRun) (u : IsUnique m) where
  abbrev dropped : List Finished
  dropped = drop limit (sort_finished (finished_jobs m))

  dropped-All : All (IsFinished m) dropped
  dropped-All =
      All-drop (IsFinished m) limit (sort_finished (finished_jobs m))
        (All-sort_finished (IsFinished m) (finished_jobs m) (finished_jobs-All m u))

  prune_to-over :
      (id : String) (j : JobRun)
      → lookup m id ≡ some j
      → lookup (prune_to limit m) id ≡ none
      → job_over j ≡ true
  unfolding prune_to
  prune_to-over id j found gone = elim (id-cases id dropped) [
    | inl h ↦ let r : none ≡ some j = sym gone ∙ lookup-remove_all dropped m id h ∙ found in cc
    | inr (x, i, e) ↦
        let (k, found_k, over, time) = All-In (IsFinished m) dropped x dropped-All i in
        let same : some k ≡ some j = sym found_k ∙ ap (lookup m) e ∙ found in
        let same_k : k ≡ j = cc in ap job_over (sym same_k) ∙ over
  ]

  prune_to-length : length (finished_jobs (prune_to limit m)) ≤ limit
  unfolding prune_to
  prune_to-length =
      let all = finished_jobs m in
      omega (
        arith,
        remove_all-length dropped m
            (Distinct-drop limit (sort_finished all)
              (sort_finished-Distinct all (finished_jobs-Distinct m u)))
            dropped-All,
        length-drop limit (sort_finished all),
        length-sort_finished all,
      )

  prune_to-newest :
      (old new : String) (d k : JobRun)
      → lookup m old ≡ some d
      → lookup (prune_to limit m) old ≡ none
      → lookup m new ≡ some k
      → job_over k ≡ true
      → lookup (prune_to limit m) new ≡ some k
      → as_time d.value.finished_at ≤ as_time k.value.finished_at
  unfolding prune_to
  prune_to-newest old new d k found_d gone found_k over kept =
      let x : Finished = (new, as_time k.value.finished_at) in
      elim (drop-NotLater limit (sort_finished (finished_jobs m)) x
        (sort_finished-Sorted (finished_jobs m))
        (In-sort_finished x (finished_jobs m) (finished_jobs-In m new k found_k over))) [
          | inl i ↦ let r : none ≡ some k = sym (remove_all-In dropped m x i) ∙ kept in cc
          | inr later ↦ elim (id-cases old dropped) [
            | inl h ↦
                let r : none ≡ some d = sym gone ∙ lookup-remove_all dropped m old h ∙ found_d in cc
            | inr (y, i, e) ↦
                let (j, found_j, over_j, time) = All-In (IsFinished m) dropped y dropped-All i in
                let same : some j ≡ some d = sym found_j ∙ ap (lookup m) e ∙ found_d in
                let same_j : j ≡ d = cc in
                let time_d : y.1 ≡ as_time d.value.finished_at =
                  time ∙ ap (λ (j : JobRun). as_time j.value.finished_at) same_j in
                subst (λ t. t ≤ as_time k.value.finished_at) time_d
                  (All-In (NotLater x) dropped y later i)
          ]
        ]

  -- Where pruning a registry in which no id stands twice drops a job and keeps a finished one,
  -- the dropped job is finished and did not finish later than the kept one, and at most as many
  -- finished jobs as the limit are left.
  pub prune_to_lem :
      (old new : String) (d k : JobRun)
      → lookup m old ≡ some d
      → lookup (prune_to limit m) old ≡ none
      → lookup m new ≡ some k
      → job_over k ≡ true
      → lookup (prune_to limit m) new ≡ some k
      → (job_over d ≡ true)
        × (as_time d.value.finished_at ≤ as_time k.value.finished_at)
        × (length (finished_jobs (prune_to limit m)) ≤ limit)
  prune_to_lem old new d k found_d gone found_k over kept = (
    prune_to-over old d found_d gone,
    prune_to-newest old new d k found_d gone found_k over kept,
    prune_to-length,
  )
