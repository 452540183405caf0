-- ===== src/Domain/Limit.antt =====
-- The limit on deep work over the list of the items.
use workitem.Common.{
  ℕ, suc, ◌+◌, ◌≤◌, ◌<◌, ◌≡◌, ◌∙◌, refl, sym, ap, subst, true, false, ◌&&◌, List, [], ◌∷◌, ◌++◌,
  if◌then◌else◌, inl, inr, ◌⊎◌, Bool-cases, arith,
}
use workitem.Model.Error.{ok}
use workitem.Model.Manifest.{State, Manifest, is_active}
use workitem.Domain.Types.{ManifestCommand, CommandEvent}
use workitem.Domain.State.{deep_work_active, apply_state_set}
use workitem.Domain.Transition.{Transition, moved}

-- How many items of a list are active with deep work.
pub data ActiveDeep : List Manifest → ℕ → Type 0 where
  nothing : ActiveDeep [] 0
  counted :
      (m : Manifest) {ms : List Manifest} {n : ℕ}
      → m.state ≡ State.active
      → m.deep_work ≡ true
      → ActiveDeep ms n
      → ActiveDeep (m ∷ ms) (suc n)
  skipped :
      (m : Manifest) {ms : List Manifest} {n : ℕ}
      → (m.state ≡ State.active → m.deep_work ≡ true → ⊥)
      → ActiveDeep ms n
      → ActiveDeep (m ∷ ms) n

abbrev weight : Manifest → ℕ
weight m = if m.deep_work && is_active m.state then 1 else 0

active_state : (s : State) → is_active s ≡ true → s ≡ State.active
active_state State.active h = refl
active_state _ h = cc

weight-counted : (m : Manifest) → m.state ≡ State.active → m.deep_work ≡ true → weight m ≡ 1
weight-counted m s d = rw (d, ap is_active s) refl

weight-skipped : (m : Manifest) → (m.state ≡ State.active → m.deep_work ≡ true → ⊥) → weight m ≡ 0
weight-skipped m h = elim (Bool-cases m.deep_work) [
  | inr e ↦ rw e refl
  | inl e ↦ elim (Bool-cases (is_active m.state)) [
    | inr f ↦ rw (e, f) refl
    | inl f ↦ absurd (h (active_state m.state f) e)
  ]
]

-- The code counts them.
ActiveDeep-count : (ms : List Manifest) (n : ℕ) → ActiveDeep ms n → n ≡ deep_work_active ms
unfolding deep_work_active
ActiveDeep-count ms n nothing = refl
ActiveDeep-count ms n (counted m s d rest) =
    omega (arith, weight-counted m s d, ActiveDeep-count _ _ rest)
ActiveDeep-count ms n (skipped m h rest) =
    omega (arith, weight-skipped m h, ActiveDeep-count _ _ rest)

deep_work_active-append :
    (before after : List Manifest) (m : Manifest)
    → deep_work_active (before ++ m ∷ after)
      ≡ deep_work_active before + (weight m + deep_work_active after)
unfolding deep_work_active
deep_work_active-append [] after m = omega arith
deep_work_active-append (b ∷ before) after m = omega (arith, deep_work_active-append before after m)

weight-le : (m : Manifest) → weight m ≤ 1
weight-le m = ground arith

weight-not_deep : (m : Manifest) → m.deep_work ≡ false → weight m ≡ 0
weight-not_deep m d = rw d refl

weight-not_active : (m : Manifest) → is_active m.state ≡ false → weight m ≡ 0
weight-not_active m h = ground arith

-- A transition that is not a start leaves the item as it was or not active.
Transition-cases :
    {s t : State}
    → Transition s t
    → (s ≡ t) ⊎ ((s ≡ State.backlog) × (t ≡ State.active)) ⊎ (is_active t ≡ false)
Transition-cases Transition.stay = inl refl
Transition-cases Transition.start = inr (inl (refl, refl))
Transition-cases Transition.park = inr (inr refl)
Transition-cases (Transition.finish now) = inr (inr refl)
Transition-cases Transition.reopens = inr (inr refl)

module _ (c : ManifestCommand) (m : Manifest) (before after : List Manifest) (m' : Manifest)
    (events : List CommandEvent) (run : apply_state_set c m (before ++ m ∷ after) ≡ ok (m', events))
    (unforced : c.force ≡ false) where
  -- The weight of the item does not grow, unless it starts below the limit.
  weight-moved : (weight m' ≤ weight m) ⊎ (deep_work_active (before ++ m ∷ after) < c.max_active)
  weight-moved =
      let step = moved c m (before ++ m ∷ after) m' events run in
      elim (Transition-cases step.1) [
        | inl same ↦ inl (subst (λ x. weight x ≤ weight m) (sym (step.2 same).0) (omega arith))
        | inr (inl (from, to)) ↦ elim (Bool-cases m.deep_work) [
          | inl deep ↦ inr (step.3 from to deep unforced)
          | inr light ↦ inl (omega (arith, weight-not_deep m' (step.5 ∙ light)))
        ]
        | inr (inr ended) ↦ inl (omega (arith, weight-not_active m' ended))
      ]

  -- A successful state command without force, on an item of the list that the command is given,
  -- leaves no more items active with deep work than there were in it, or no more than the limit.
  pub apply_state_set-limit :
      (n n' : ℕ)
      → ActiveDeep (before ++ m ∷ after) n
      → ActiveDeep (before ++ m' ∷ after) n'
      → (n' ≤ n) ⊎ (n' ≤ c.max_active)
  apply_state_set-limit n n' old new =
      let counts = ActiveDeep-count (before ++ m ∷ after) n old in
      let counts' = ActiveDeep-count (before ++ m' ∷ after) n' new in
      let sum = deep_work_active-append before after m in
      let sum' = deep_work_active-append before after m' in
      elim weight-moved [
        | inl lighter ↦ inl (omega (arith, counts, counts', sum, sum', lighter))
        | inr below ↦ inr (omega (arith, counts, counts', sum, sum', below, weight-le m'))
      ]
