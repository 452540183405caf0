-- ===== src/Common/Maps.antt =====
-- A bucket of the store or a Go map with string keys, as an association list.
use Prim.Native.String.{String}
use mathlib.Core.Path.{◌≡◌, refl, sym, ◌∙◌}
use mathlib.Core.Logic.{inl, inr}
use mathlib.Core.Bool.{false}
use mathlib.Core.List.{List, [], ◌∷◌, map}
use mathlib.Core.Option.{Option, none, some}
use workitem.Common.Tests.{
  if◌then◌else◌, str_eq, str_eq_iff, str_eq_refl, str_eq-cases, ne→str_eq, Bool-cases,
}
use workitem.Common.Lists.{All}

abbrev pub Map {ℓ} : Type ℓ → Type ℓ
Map V = List (String × V)

module _ {ℓ} {V : Type ℓ} where
  unfoldable pub lookup : Map V → String → Option V
  lookup [] key = none
  lookup ((k, v) ∷ rest) key = if str_eq k key then some v else lookup rest key

  -- Overwrites the value of a key in place, or adds the key at the end.
  unfoldable pub put : Map V → String → V → Map V
  put [] key value = (key, value) ∷ []
  put ((k, v) ∷ rest) key value =
      if str_eq k key then (k, value) ∷ rest else (k, v) ∷ put rest key value

  -- `delete(m, key)`
  unfoldable pub remove : Map V → String → Map V
  remove [] key = []
  remove ((k, v) ∷ rest) key =
      let rest' = remove rest key in if str_eq k key then rest' else (k, v) ∷ rest'

  pub lookup-remove :
      (m : Map V) (key other : String)
      → lookup (remove m key) other ≡ (if str_eq key other then none else lookup m other)
  unfolding lookup remove
  lookup-remove [] key other = elim (Bool-cases (str_eq key other)) [ inl e ↦ rw e | inr e ↦ rw e ]
  lookup-remove ((k, v) ∷ rest) key other = elim (str_eq-cases k key) [
    | inl p ↦ elim (Bool-cases (str_eq key other)) [
      | inl e ↦ rw p.1 (rw e (lookup-remove rest key other ∙ rw e))
      | inr e ↦ rw (p.1) (rw (p.0, e) (lookup-remove rest key other ∙ rw e))
    ]
    | inr p ↦ elim (str_eq-cases k other) [
      | inl q ↦ rw (p.1, q.1) (rw (ne→str_eq key other (λ r. p.0 (q.0 ∙ sym r))))
      | inr q ↦ rw p.1 (rw q.1 (lookup-remove rest key other))
    ]
  ]

  abbrev pub values : Map V → List V
  values = map (λ entry. entry.1)

  pub lookup-put_self :
      (m : Map V) (key : String) (value : V) → lookup (put m key value) key ≡ some value
  unfolding lookup put
  lookup-put_self [] key value = rw (str_eq_refl key)
  lookup-put_self ((k, v) ∷ rest) key value = elim (Bool-cases (str_eq k key)) [
    | inl e ↦ rw e (rw e)
    | inr e ↦ rw e (rw e (lookup-put_self rest key value))
  ]

  pub lookup-put_ne :
      (m : Map V) (key other : String) (value : V)
      → str_eq key other ≡ false
      → lookup (put m key value) other ≡ lookup m other
  unfolding lookup put
  lookup-put_ne [] key other value h = rw h
  lookup-put_ne ((k, v) ∷ rest) key other value h = elim (str_eq-cases k key) [
    | inl p ↦ rw p.1 (rw (p.0, h))
    | inr p ↦ elim (Bool-cases (str_eq k other)) [
      | inl e ↦ rw p.1 (rw e)
      | inr e ↦ rw p.1 (rw e (lookup-put_ne rest key other value h))
    ]
  ]

  pub lookup-put :
      (m : Map V) (key other : String) (value : V)
      → lookup (put m key value) other ≡ (if str_eq key other then some value else lookup m other)
  lookup-put m key other value = elim (str_eq-cases key other) [
    | inl p ↦ rw (p.1, ← p.0) (lookup-put_self m key value)
    | inr p ↦ rw p.1 (lookup-put_ne m key other value p.1)
  ]

  -- The last write of a key counts.
  pub put-put :
      (m : Map V) (key : String) (first second : V)
      → put (put m key first) key second ≡ put m key second
  unfolding put
  put-put [] key first second = rw (str_eq_refl key)
  put-put ((k, v) ∷ rest) key first second = elim (Bool-cases (str_eq k key)) [
    | inl e ↦ rw e (rw e)
    | inr e ↦ rw e (rw e (rw (put-put rest key first second)))
  ]

  -- No key stands twice.
  abbrev pub IsUnique : Map V → Type ℓ
  IsUnique [] = Unit
  IsUnique ((k, v) ∷ rest) = (lookup rest k ≡ none) × IsUnique rest

  pub put-IsUnique :
      (m : Map V) (key : String) (value : V) → IsUnique m → IsUnique (put m key value)
  unfolding lookup put
  put-IsUnique [] key value h = (refl, tt)
  put-IsUnique ((k, v) ∷ rest) key value h = elim (Bool-cases (str_eq k key)) [
    | inl e ↦ rw e h
    | inr e ↦ rw e (
      lookup-put_ne rest key k value (ne→str_eq key k (λ p. cc ((str_eq_iff k key).1 (sym p))))
          ∙ h.0,
      put-IsUnique rest key value h.1,
    )
  ]

-- A predicate on the entries survives a write that satisfies it.
pub put-All {ℓ κ} :
    {V : Type ℓ} (P : String × V → Type κ) (m : Map V) (key : String) (value : V)
    → All P m
    → P (key, value)
    → All P (put m key value)
unfolding put
put-All P [] key value h p = (p, tt)
put-All P ((k, v) ∷ rest) key value h p = elim (str_eq-cases k key) [
  | inl e ↦ rw (e.1, e.0) (p, h.1)
  | inr e ↦ rw e.1 (h.0, put-All P rest key value h.1 p)
]
