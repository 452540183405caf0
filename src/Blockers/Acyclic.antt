-- ===== src/Blockers/Acyclic.antt =====
-- Adding a blocker keeps the waiting relation free of cycles, and so does taking blockers away.
use workitem.Common.{
  ◌≡◌, refl, sym, subst, ◌≢◌, ◌⊎◌, inl, inr, String, some, List, [], ◌∷◌, ◌++◌, In, Map, lookup,
  put, lookup-put, str_eq, str_eq-cases, Bool-cases, if◌then◌else◌,
}
use workitem.Blockers.Graph.{targets, blockers_of, waits_on, Waits, direct, via, IsAcyclic}
use workitem.Model.Blocker.{Blocker, is_item}
use workitem.Model.Manifest.{Manifest}

-- With no new edge there is no new wait.
pub Waits-mono :
    {next next' : String → List String} {a b : String}
    → ((x y : String) → In y (next' x) → In y (next x))
    → Waits next' a b
    → Waits next a b
Waits-mono less (direct {a = x} {b = y} i) = direct (less x y i)
Waits-mono less (via {a = x} {b = y} i w) = via (less x y i) (Waits-mono less w)

pub IsAcyclic-mono :
    (next next' : String → List String)
    → ((x y : String) → In y (next' x) → In y (next x))
    → IsAcyclic next
    → IsAcyclic next'
IsAcyclic-mono next next' less h a w = h a (Waits-mono less w)

Waits-trans :
    {next : String → List String} {a b c : String}
    → Waits next a b
    → Waits next b c
    → Waits next a c
Waits-trans (direct i) w = via i w
Waits-trans (via i v) w = via i (Waits-trans v w)

-- The old edges `next`, the edges `next'` with one more, from `owner` to `target`.
module _ (next next' : String → List String) (owner target : String)
    (edge : (x y : String) → In y (next' x) → In y (next x) ⊎ (x ≡ owner) × (y ≡ target)) where
  abbrev Reaches : String → String → Type 0
  Reaches a b = (a ≡ b) ⊎ Waits next a b

  -- A wait over the new edges is an old one, or goes through the added edge.
  Waits-split :
      {a b : String} → Waits next' a b → Waits next a b ⊎ Reaches a owner × Reaches target b
  Waits-split (direct {a = x} {b = y} i) = elim (edge x y i) [
    | inl old ↦ inl (direct old)
    | inr (p, q) ↦ inr (inl p, inl (sym q))
  ]
  Waits-split (via {a = x} {b = y} {c = z} i w) = elim (edge x y i) [
    | inl old ↦ elim (Waits-split w) [
      | inl v ↦ inl (via old v)
      | inr (inl p, after) ↦ inr (inr (direct (subst (λ t. In t (next x)) p old)), after)
      | inr (inr v, after) ↦ inr (inr (via old v), after)
    ]
    | inr (p, q) ↦ elim (Waits-split w) [
      | inl v ↦ inr (inl p, inr (subst (λ t. Waits next t z) q v))
      | inr (_, after) ↦ inr (inl p, after)
    ]
  ]

  Reaches-trans : {a b c : String} → Reaches a b → Reaches b c → Reaches a c
  Reaches-trans {c = c} (inl p) r = subst (λ t. Reaches t c) (sym p) r
  Reaches-trans {a} (inr v) (inl q) = inr (subst (λ t. Waits next a t) q v)
  Reaches-trans (inr v) (inr w) = inr (Waits-trans v w)

  pub IsAcyclic-add_edge :
      target ≢ owner → (Waits next target owner → ⊥) → IsAcyclic next → IsAcyclic next'
  IsAcyclic-add_edge apart no_wait h a w = elim (Waits-split w) [
    | inl v ↦ h a v
    | inr (before, after) ↦ elim (Reaches-trans after before) [
      | inl p ↦ apart p
      | inr v ↦ no_wait v
    ]
  ]

-- The blockers of an item after a write of a manifest.
pub blockers_of-put :
    (by_id : Map Manifest) (key : String) (m : Manifest) (x : String)
    → blockers_of (put by_id key m) x ≡ (if str_eq key x then m.blockers else blockers_of by_id x)
unfolding blockers_of
blockers_of-put by_id key m x =
    rw (lookup-put by_id key x m, blockers_of)
      (elim (Bool-cases (str_eq key x)) [
        | inl e ↦ rw (e, blockers_of)
        | inr e ↦ rw (e, blockers_of)
      ])

pub targets-append :
    (bs : List Blocker) (b : Blocker) → targets (bs ++ b ∷ []) ≡ targets bs ++ targets (b ∷ [])
unfolding targets
targets-append [] b = refl
targets-append (x ∷ bs) b = elim (Bool-cases (is_item x.kind)) [
  | inl e ↦ rw e (rw (targets-append bs b))
  | inr e ↦ rw e (rw (targets-append bs b))
]

-- A write of a manifest whose blockers name no new item keeps the relation free of cycles.
pub put-IsAcyclic :
    (by_id : Map Manifest) (key : String) (m : Manifest)
    → ((y : String) → In y (targets m.blockers) → In y (waits_on by_id key))
    → IsAcyclic (waits_on by_id)
    → IsAcyclic (waits_on (put by_id key m))
put-IsAcyclic by_id key m less =
    IsAcyclic-mono (waits_on by_id) (waits_on (put by_id key m)) λ x y i.
      elim (str_eq-cases key x) [
        | inl p ↦
            subst (λ t. In y (waits_on by_id t)) p.0
              (less y (rw (blockers_of-put by_id key m x, p.1) at i))
        | inr p ↦ rw (blockers_of-put by_id key m x, p.1) at i
      ]

-- A write that adds one item blocker, to an item that does not wait for the owner.
pub put-IsAcyclic_add :
    (by_id : Map Manifest) (key target : String) (m : Manifest)
    → ((y : String) → In y (targets m.blockers) → In y (waits_on by_id key) ⊎ (y ≡ target))
    → target ≢ key
    → (Waits (waits_on by_id) target key → ⊥)
    → IsAcyclic (waits_on by_id)
    → IsAcyclic (waits_on (put by_id key m))
put-IsAcyclic_add by_id key target m added =
    IsAcyclic-add_edge (waits_on by_id) (waits_on (put by_id key m)) key target λ x y i.
      elim (str_eq-cases key x) [
        | inl p ↦ elim (added y (rw (blockers_of-put by_id key m x, p.1) at i)) [
          | inl old ↦ inl (subst (λ t. In y (waits_on by_id t)) p.0 old)
          | inr new ↦ inr (sym p.0, new)
        ]
        | inr p ↦ inl (rw (blockers_of-put by_id key m x, p.1) at i)
      ]

pub blockers_of_found :
    (by_id : Map Manifest) (x : String) (m : Manifest)
    → lookup by_id x ≡ some m
    → blockers_of by_id x ≡ m.blockers
unfolding blockers_of
blockers_of_found by_id x m e = rw (e, blockers_of)

pub blockers_of_same :
    (by_id by_id' : Map Manifest) (x : String)
    → lookup by_id x ≡ lookup by_id' x
    → blockers_of by_id x ≡ blockers_of by_id' x
unfolding blockers_of
blockers_of_same by_id by_id' x e = rw (e, blockers_of)

-- Nobody waits where there are no items.
pub IsAcyclic-nil : IsAcyclic (waits_on [])
unfolding blockers_of targets lookup
IsAcyclic-nil a (direct i) = elim i [ ]
IsAcyclic-nil a (via i w) = elim i [ ]
