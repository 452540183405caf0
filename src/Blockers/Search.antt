-- ===== src/Blockers/Search.antt =====
-- `blocks_transitively` decides `Waits`: enough fuel, soundness and completeness.
use workitem.Common.{
  ℕ, zero, suc, ◌+◌, ◌≤◌, ◌<◌, ◌≡◌, ◌∙◌, refl, sym, ap, ◌↔◌, ◌⊎◌, inl, inr, String, Bool, true,
  false, none, some, List, [], ◌∷◌, In, length, Map, lookup, contains, contains→In, In→contains,
  str_eq, str_eq_refl, ne→str_eq, str_eq-cases, Bool-cases, if◌then◌else◌, arith, subst,
}
use workitem.Model.Blocker.{Blocker, is_item}
use workitem.Model.Manifest.{Manifest}
use workitem.Blockers.Graph.{
  blockers_of, push_targets, search, unseen_blockers, search_fuel, blocks_transitively, targets,
  waits_on, Waits, direct, via,
}

-- `xs` pushed one after the other.
abbrev push_all : List String → List String → List String
push_all [] stack = stack
push_all (x ∷ xs) stack = push_all xs (x ∷ stack)

-- The inner loop in closed form.
push_targets_lem :
    (target : String) (bs : List Blocker) (stack : List String)
    → push_targets target bs stack
      ≡ (if contains (targets bs) target then none else some (push_all (targets bs) stack))
unfolding push_targets targets contains
push_targets_lem target [] stack = refl
push_targets_lem target (b ∷ bs) stack = elim (Bool-cases (is_item b.kind)) [
  | inr e ↦ rw e (push_targets_lem target bs stack)
  | inl e ↦ elim (str_eq-cases b.item_id target) [
    | inl p ↦ rw (e, p.0) (rw (str_eq_refl target))
    | inr p ↦
        rw (e, p.1, ne→str_eq target b.item_id (λ q. p.0 (sym q)))
          (push_targets_lem target bs (b.item_id ∷ stack))
  ]
]

push_all-keeps : (x : String) (xs stack : List String) → In x stack → In x (push_all xs stack)
push_all-keeps x [] stack m = m
push_all-keeps x (y ∷ xs) stack m = push_all-keeps x xs (y ∷ stack) (inr m)

push_all-adds : (x : String) (xs stack : List String) → In x xs → In x (push_all xs stack)
push_all-adds x [] stack m = elim m [ ]
push_all-adds x (y ∷ xs) stack (inl e) = push_all-keeps x xs (y ∷ stack) (inl e)
push_all-adds x (y ∷ xs) stack (inr m) = push_all-adds x xs (y ∷ stack) m

push_all-only :
    (x : String) (xs stack : List String) → In x (push_all xs stack) → In x xs ⊎ In x stack
push_all-only x [] stack m = inr m
push_all-only x (y ∷ xs) stack m = elim (push_all-only x xs (y ∷ stack) m) [
  | inl l ↦ inl (inr l)
  | inr (inl e) ↦ inl (inl e)
  | inr (inr r) ↦ inr r
]

length-push_all : (xs stack : List String) → length (push_all xs stack) ≡ length xs + length stack
length-push_all [] stack = omega arith
length-push_all (x ∷ xs) stack = omega (arith, length-push_all xs (x ∷ stack))

length-targets : (bs : List Blocker) → length (targets bs) ≤ length bs
unfolding targets
length-targets [] = omega arith
length-targets (b ∷ bs) = ground (arith, length-targets bs)

-- Marking an item as seen takes its blockers off what is left.
unseen_blockers-le :
    (m : Map Manifest) (id : String) (seen : List String)
    → unseen_blockers m (id ∷ seen) ≤ unseen_blockers m seen
unfolding unseen_blockers contains
unseen_blockers-le [] id seen = omega arith
unseen_blockers-le ((k, v) ∷ rest) id seen = ground (arith, unseen_blockers-le rest id seen)

blockers_of-cons :
    (id k : String) (v : Manifest) (rest : Map Manifest)
    → blockers_of ((k, v) ∷ rest) id ≡ (if str_eq k id then v.blockers else blockers_of rest id)
unfolding blockers_of lookup
blockers_of-cons id k v rest = elim (Bool-cases (str_eq k id)) [
  | inl e ↦ rw (e, blockers_of)
  | inr e ↦ rw (e, blockers_of)
]

unseen_blockers-visit :
    (m : Map Manifest) (id : String) (seen : List String)
    → contains seen id ≡ false
    → unseen_blockers m (id ∷ seen) + length (blockers_of m id) ≤ unseen_blockers m seen
unfolding unseen_blockers contains
unseen_blockers-visit [] id seen h = unfold blockers_of lookup in omega arith
unseen_blockers-visit ((k, v) ∷ rest) id seen h =
    rw (blockers_of-cons id k v rest) (elim (str_eq-cases k id) [
      | inl p ↦ rw p.0 (rw (str_eq_refl id) (rw h (omega (arith, unseen_blockers-le rest id seen))))
      | inr p ↦ rw p.1 (ground (arith, unseen_blockers-visit rest id seen h))
    ])

-- One round of the search, in its three cases.
module _ (fuel : ℕ) (m : Map Manifest) (target current : String) (seen stack : List String) where
  search_skip :
      contains seen current ≡ true
      → search (suc fuel) m target seen (current ∷ stack) ≡ search fuel m target seen stack
  unfolding search
  search_skip old = rw (old, search)

  search_met :
      contains seen current ≡ false
      → contains (waits_on m current) target ≡ true
      → search (suc fuel) m target seen (current ∷ stack) ≡ some true
  unfolding search
  search_met new met =
      rw (new, search) (rw (push_targets_lem target (blockers_of m current) stack) (rw met))

  search_visit :
      contains seen current ≡ false
      → contains (waits_on m current) target ≡ false
      → search (suc fuel) m target seen (current ∷ stack)
        ≡ search fuel m target (current ∷ seen) (push_all (waits_on m current) stack)
  unfolding search
  search_visit new missed =
      rw (new, search) (rw (push_targets_lem target (blockers_of m current) stack) (rw missed))

module _ (m : Map Manifest) (target : String) where
  -- With fuel above what is left to push and to pop, the loop ends.
  search_total :
      (fuel : ℕ) (seen stack : List String)
      → unseen_blockers m seen + length stack < fuel
      → (found : Bool) × (search fuel m target seen stack ≡ some found)
  search_total zero seen stack h = elim h [ ]
  search_total (suc fuel) seen [] h = (false, unfold search in refl)
  search_total (suc fuel) seen (current ∷ stack) h = elim (Bool-cases (contains seen current)) [
    | inl old ↦
        rw (search_skip fuel m target current seen stack old)
          (search_total fuel seen stack (omega arith))
    | inr new ↦ elim (Bool-cases (contains (waits_on m current) target)) [
      | inl met ↦ (true, search_met fuel m target current seen stack new met)
      | inr missed ↦ rw (search_visit fuel m target current seen stack new missed) (
          search_total fuel (current ∷ seen) (push_all (waits_on m current) stack) (
            omega (
              arith,
              unseen_blockers-visit m current seen new,
              length-push_all (waits_on m current) stack,
              length-targets (blockers_of m current),
            )))
    ]
  ]

  -- Every entry of the stack leads on from the start, so what it meets the start waits for.
  abbrev LeadsFrom : String → List String → Type 0
  LeadsFrom from stack =
      (x : String) → In x stack → Waits (waits_on m) x target → Waits (waits_on m) from target

  search_sound :
      (from : String) (fuel : ℕ) (seen stack : List String)
      → LeadsFrom from stack
      → search fuel m target seen stack ≡ some true
      → Waits (waits_on m) from target
  search_sound from zero seen stack lead h = unfold search in cc
  search_sound from (suc fuel) seen [] lead h = unfold search in cc
  search_sound from (suc fuel) seen (current ∷ stack) lead h =
      elim (Bool-cases (contains seen current)) [
        | inl old ↦
            search_sound from fuel seen stack (λ x i. lead x (inr i))
              (sym (search_skip fuel m target current seen stack old) ∙ h)
        | inr new ↦ elim (Bool-cases (contains (waits_on m current) target)) [
          | inl met ↦ lead current (inl refl) (direct (contains→In _ target met))
          | inr missed ↦
              search_sound from fuel (current ∷ seen) (push_all (waits_on m current) stack)
                (λ x i w. elim (push_all-only x (waits_on m current) stack i) [
                  | inl named ↦ lead current (inl refl) (via named w)
                  | inr old ↦ lead x (inr old) w
                ])
                (sym (search_visit fuel m target current seen stack new missed) ∙ h)
        ]
      ]

  -- What a seen item waits for is seen or on the stack, and is not the target.
  record IsExplored (from : String) (seen stack : List String) : Type 0 where
    start : In from seen ⊎ In from stack
    missed : (x : String) → In x seen → In target (waits_on m x) → ⊥
    covered : (x y : String) → In x seen → In y (waits_on m x) → In y seen ⊎ In y stack

  IsExplored-closed :
      (from : String) (seen : List String) {x y : String}
      → IsExplored from seen []
      → Waits (waits_on m) x y
      → y ≡ target
      → In x seen
      → ⊥
  IsExplored-closed from seen {x} e (direct {b = b} i) end here =
      e.missed x here (subst (λ t. In t (waits_on m x)) end i)
  IsExplored-closed from seen {x} e (via {b = b} i w) end here = elim (e.covered x b here i) [
    | inl next ↦ IsExplored-closed from seen e w end next
    | inr h ↦ elim h [ ]
  ]

  IsExplored-skip :
      (from current : String) (seen stack : List String)
      → In current seen
      → IsExplored from seen (current ∷ stack)
      → IsExplored from seen stack
  IsExplored-skip from current seen stack old e = record {
    start = elim e.start [
      | inl i ↦ inl i
      | inr (inl p) ↦ inl (subst (λ t. In t seen) (sym p) old)
      | inr (inr i) ↦ inr i
    ];
    missed = e.missed;
    covered = λ x y i j. elim (e.covered x y i j) [
      | inl k ↦ inl k
      | inr (inl p) ↦ inl (subst (λ t. In t seen) (sym p) old)
      | inr (inr k) ↦ inr k
    ];
  }

  IsExplored-visit :
      (from current : String) (seen stack : List String)
      → contains (waits_on m current) target ≡ false
      → IsExplored from seen (current ∷ stack)
      → IsExplored from (current ∷ seen) (push_all (waits_on m current) stack)
  IsExplored-visit from current seen stack missed e =
      let names = waits_on m current in
      let kept : (y : String)
          → In y seen ⊎ In y (current ∷ stack)
          → In y (current ∷ seen) ⊎ In y (push_all names stack) =
        λ y k. elim k [
          | inl i ↦ inl (inr i)
          | inr (inl p) ↦ inl (inl p)
          | inr (inr i) ↦ inr (push_all-keeps y names stack i)
        ] in
      record {
        start = kept from e.start;
        missed = λ x i j. elim i [
          | inl p ↦ cc (In→contains names target (subst (λ t. In target (waits_on m t)) p j))
          | inr i' ↦ e.missed x i' j
        ];
        covered = λ x y i j. elim i [
          | inl p ↦ inr (push_all-adds y names stack (subst (λ t. In y (waits_on m t)) p j))
          | inr i' ↦ kept y (e.covered x y i' j)
        ];
      }

  search_complete :
      (from : String) (fuel : ℕ) (seen stack : List String)
      → IsExplored from seen stack
      → search fuel m target seen stack ≡ some false
      → Waits (waits_on m) from target
      → ⊥
  search_complete from zero seen stack e h w = unfold search in cc
  search_complete from (suc fuel) seen [] e h w = elim e.start [
    | inl i ↦ IsExplored-closed from seen e w refl i
    | inr i ↦ elim i [ ]
  ]
  search_complete from (suc fuel) seen (current ∷ stack) e h w =
      elim (Bool-cases (contains seen current)) [
        | inl old ↦
            search_complete from fuel seen stack
              (IsExplored-skip from current seen stack (contains→In seen current old) e)
              (sym (search_skip fuel m target current seen stack old) ∙ h) w
        | inr new ↦ elim (Bool-cases (contains (waits_on m current) target)) [
          | inl met ↦ cc (search_met fuel m target current seen stack new met)
          | inr missed ↦
              search_complete from fuel (current ∷ seen) (push_all (waits_on m current) stack)
                (IsExplored-visit from current seen stack missed e)
                (sym (search_visit fuel m target current seen stack new missed) ∙ h) w
        ]
      ]

blocks_transitively_lem :
    (m : Map Manifest) (from target : String) (found : Bool)
    → search (search_fuel m) m target [] (from ∷ []) ≡ some found
    → blocks_transitively m from target ≡ found
unfolding blocks_transitively
blocks_transitively_lem m from target found run = rw (run, blocks_transitively)

-- The search always ends within `search_fuel`, and answers `true` exactly when the first item
-- waits for the second, directly or through other items.
pub blocks_transitively_iff :
    (by_id : Map Manifest) (from target : String)
    → (search (search_fuel by_id) by_id target [] (from ∷ [])
        ≡ some (blocks_transitively by_id from target))
      × ((blocks_transitively by_id from target ≡ true) ↔ Waits (waits_on by_id) from target)
blocks_transitively_iff m from target =
    let (found, run) = search_total m target (search_fuel m) [] (from ∷ []) (omega arith) in
    let value : blocks_transitively m from target ≡ found =
      blocks_transitively_lem m from target found run in
    let start : IsExplored m target from [] (from ∷ []) = record {
      start = inr (inl refl);
      missed = λ x i j. elim i [ ];
      covered = λ x y i j. elim i [ ];
    } in
    (
      rw value run,
      (
        λ yes_found.
            search_sound m target from (search_fuel m) [] (from ∷ [])
              (λ x i w. elim i [
                | inl p ↦ subst (λ t. Waits (waits_on m) t target) p w
                | inr n ↦ elim n [ ]
              ])
              (run ∙ ap some (sym value ∙ yes_found)),
        λ w. elim (Bool-cases (blocks_transitively m from target)) [
          | inl e ↦ e
          | inr e ↦ absurd (
              search_complete m target from (search_fuel m) [] (from ∷ []) start
                (run ∙ ap some (sym value ∙ e)) w)
        ],
      ),
    )
