-- ===== src/Model/Prefixes.antt =====
-- The display prefixes of ids: unique where they can be, and no longer than that needs.
use workitem.Common.{
  ℕ, zero, suc, ◌+◌, ◌-◌, ◌≤◌, ◌<◌, ◌≡◌, ◌⊎◌, ◌∙◌, refl, ap, subst, true, false, List, [], ◌∷◌,
  length, ltb, ltb→le, ltb→lt, ◌==◌, inl, inr, Bool-cases, arith,
}
use workitem.Content.Bytes.{Bytes, take}
use workitem.Content.Cut.{length-take_le}
use workitem.Content.Equality.{eqb→eq}
use workitem.Model.Id.{matches, prefix_unique, lengthened, unique_id_prefix, at_most, at_least_one}

-- Where the loop starts, and where it ends.
abbrev pub prefix_start : ℕ → Bytes → ℕ
prefix_start min id = at_most (at_least_one min) (length id)

abbrev prefix_length : List Bytes → ℕ → Bytes → ℕ
prefix_length ids min id = lengthened (length id - prefix_start min id) id ids (prefix_start min id)

prefix_start_le : (min : ℕ) (id : Bytes) → prefix_start min id ≤ length id
prefix_start_le min id = elim (Bool-cases (ltb (length id) (at_least_one min))) [
  | inl e ↦ rw e (omega arith)
  | inr e ↦ rw e (ltb→le _ _ e)
]

at_least_one_le : (min m : ℕ) → 1 ≤ m → min ≤ m → at_least_one min ≤ m
at_least_one_le min m one le = elim (Bool-cases (ltb min 1)) [ inl e ↦ rw e one | inr e ↦ rw e le ]

at_most_le : (a b m : ℕ) → a ≤ m → at_most a b ≤ m
at_most_le a b m le = elim (Bool-cases (ltb b a)) [
  | inl e ↦ rw e (omega (arith, ltb→lt b a e))
  | inr e ↦ rw e le
]

prefix_start_low : (min : ℕ) (id : Bytes) (m : ℕ) → 1 ≤ m → min ≤ m → prefix_start min id ≤ m
prefix_start_low min id m one le =
    at_most_le (at_least_one min) (length id) m (at_least_one_le min m one le)

-- After its rounds the loop has met a unique prefix, or has come to the end.
lengthened_ends :
    (rounds : ℕ) (id : Bytes) (ids : List Bytes) (k : ℕ)
    → (lengthened rounds id ids k ≡ k + rounds)
      ⊎ (prefix_unique id ids (lengthened rounds id ids k) ≡ true)
unfolding lengthened
lengthened_ends zero id ids k = inl (omega arith)
lengthened_ends (suc rounds) id ids k = elim (Bool-cases (prefix_unique id ids k)) [
  | inl e ↦ rw e (inr e)
  | inr e ↦ rw e (elim (lengthened_ends rounds id ids (k + 1)) [
    | inl l ↦ inl (l ∙ omega arith)
    | inr u ↦ inr u
  ])
]

lengthened_le :
    (rounds : ℕ) (id : Bytes) (ids : List Bytes) (k : ℕ) → lengthened rounds id ids k ≤ k + rounds
unfolding lengthened
lengthened_le zero id ids k = omega arith
lengthened_le (suc rounds) id ids k = elim (Bool-cases (prefix_unique id ids k)) [
  | inl e ↦ rw e (omega arith)
  | inr e ↦ rw e (omega (arith, lengthened_le rounds id ids (k + 1)))
]

lengthened_shortest :
    (rounds : ℕ) (id : Bytes) (ids : List Bytes) (k m : ℕ)
    → k ≤ m
    → m < lengthened rounds id ids k
    → prefix_unique id ids m ≡ false
unfolding lengthened
lengthened_shortest zero id ids k m le lt = absurd (omega arith)
lengthened_shortest (suc rounds) id ids k m le lt = elim (Bool-cases (prefix_unique id ids k)) [
  | inl e ↦ absurd (after_unique (rw e at lt))
  | inr e ↦ elim (Bool-cases (k == m)) [
    | inl s ↦ subst (λ n. prefix_unique id ids n ≡ false) (eqb→eq k m s) e
    | inr s ↦ lengthened_shortest rounds id ids (k + 1) m (later s) (rw e at lt)
  ]
]
  where
    after_unique : m < k → ⊥
    after_unique h = omega arith

    later : (k == m) ≡ false → k + 1 ≤ m
    later h = ground arith

prefix_length_le : (ids : List Bytes) (min : ℕ) (id : Bytes) → prefix_length ids min id ≤ length id
prefix_length_le ids min id = omega (
  arith,
  prefix_start_le min id,
  lengthened_le (length id - prefix_start min id) id ids (prefix_start min id),
)

take_all : (s : Bytes) → take (length s) s ≡ s
take_all [] = refl
take_all (b ∷ s) = ap (λ t. b ∷ t) (take_all s)

-- The loop for an id ends with the whole id, or with a prefix that exactly one of the ids has.
pub unique_id_prefix-matches :
    (ids : List Bytes) (min : ℕ) (id : Bytes)
    → (unique_id_prefix ids min id ≡ id) ⊎ (matches (unique_id_prefix ids min id) ids ≡ 1)
unfolding unique_id_prefix prefix_unique
unique_id_prefix-matches ids min id =
    elim (lengthened_ends (length id - prefix_start min id) id ids (prefix_start min id)) [
      | inl l ↦
          let whole : prefix_length ids min id ≡ length id =
            l ∙ omega (arith, prefix_start_le min id) in
          inl (ap (λ n. take n id) whole ∙ take_all id)
      | inr u ↦ inr (eqb→eq _ _ u)
    ]

-- A shorter prefix, of at least one and at least `min` bytes, is not one that exactly one of the ids
-- has.
pub unique_id_prefix-length :
    (ids : List Bytes) (min : ℕ) (id : Bytes) (m : ℕ)
    → 1 ≤ m
    → min ≤ m
    → m < length (unique_id_prefix ids min id)
    → (matches (take m id) ids == 1) ≡ false
unfolding unique_id_prefix prefix_unique
unique_id_prefix-length ids min id m one le lt =
    lengthened_shortest (length id - prefix_start min id) id ids (prefix_start min id) m
      (prefix_start_low min id m one le)
      (subst (λ n. m < n)
        (length-take_le (prefix_length ids min id) id (prefix_length_le ids min id)) lt)
