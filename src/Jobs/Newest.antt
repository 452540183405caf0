-- ===== src/Jobs/Newest.antt =====
-- The order in which pruning the registry goes through the finished jobs.
use workitem.Common.{
  ℕ, zero, suc, ◌+◌, ◌≤◌, ◌≡◌, ◌⊎◌, refl, sym, ap, ◌∙◌, subst, String, true, false, some, List, [],
  ◌∷◌, Map, lookup, drop, length, All, In, str_eq, str_eq_refl, ne→str_eq, Bool-cases, inl, inr,
  arith,
}
use workitem.Content.Equality.{differ}
use workitem.Model.Blocker.{Time}
use workitem.Jobs.Run.{JobRun}
use workitem.Jobs.Registry.{job_over, as_time, finished_later, insert_finished, sort_finished}

abbrev pub Finished : Type 0
Finished = String × Time

-- An entry of the list stands for a finished job of the map.
abbrev pub IsFinished : Map JobRun → Finished → Type 0
IsFinished m (id, t) =
    (j : JobRun) × (lookup m id ≡ some j) × (job_over j ≡ true) × (t ≡ as_time j.value.finished_at)

abbrev pub Differs : String → Finished → Type 0
Differs id x = str_eq id x.0 ≡ false

-- No id stands twice.
abbrev pub Distinct : List Finished → Type 0
Distinct [] = Unit
Distinct ((id, t) ∷ rest) = All (Differs id) rest × Distinct rest

abbrev pub NotLater : Finished → Finished → Type 0
NotLater x y = y.1 ≤ x.1

-- The newest first.
abbrev pub Sorted : List Finished → Type 0
Sorted [] = Unit
Sorted (x ∷ rest) = All (NotLater x) rest × Sorted rest

pub All-map {ℓ} :
    {A : Type ℓ} (P Q : A → Type 0) (xs : List A) → ((x : A) → P x → Q x) → All P xs → All Q xs
All-map P Q [] f h = tt
All-map P Q (x ∷ xs) f h = (f x h.0, All-map P Q xs f h.1)

pub All-drop {ℓ} :
    {A : Type ℓ} (P : A → Type 0) (n : ℕ) (xs : List A) → All P xs → All P (drop n xs)
All-drop P zero xs h = h
All-drop P (suc n) [] h = tt
All-drop P (suc n) (x ∷ xs) h = All-drop P n xs h.1

pub Distinct-drop : (n : ℕ) (xs : List Finished) → Distinct xs → Distinct (drop n xs)
Distinct-drop zero xs h = h
Distinct-drop (suc n) [] h = tt
Distinct-drop (suc n) (x ∷ xs) h = Distinct-drop n xs h.1

module _ (P : Finished → Type 0) where
  All-insert_finished :
      (x : Finished) (ys : List Finished) → P x → All P ys → All P (insert_finished x ys)
  unfolding insert_finished
  All-insert_finished x [] p h = (p, tt)
  All-insert_finished x (y ∷ ys) p h = elim (Bool-cases (finished_later y x)) [
    | inl e ↦ rw e (h.0, All-insert_finished x ys p h.1)
    | inr e ↦ rw e (p, h)
  ]

  pub All-sort_finished : (xs : List Finished) → All P xs → All P (sort_finished xs)
  unfolding sort_finished
  All-sort_finished [] h = tt
  All-sort_finished (x ∷ xs) h =
      All-insert_finished x (sort_finished xs) h.0 (All-sort_finished xs h.1)

finished_later-NotLater : (y x : Finished) → finished_later y x ≡ true → NotLater y x
unfolding finished_later
finished_later-NotLater y x h = ground arith

not_later : (y x : Finished) → finished_later y x ≡ false → NotLater x y
unfolding finished_later
not_later y x h = ground arith

insert_finished-Sorted :
    (x : Finished) (ys : List Finished) → Sorted ys → Sorted (insert_finished x ys)
unfolding insert_finished
insert_finished-Sorted x [] h = (tt, tt)
insert_finished-Sorted x (y ∷ ys) h = elim (Bool-cases (finished_later y x)) [
  | inl e ↦ rw e (
    All-insert_finished (NotLater y) x ys (finished_later-NotLater y x e) h.0,
    insert_finished-Sorted x ys h.1,
  )
  | inr e ↦
      let first = not_later y x e in
      rw e (
        (first, All-map (NotLater y) (NotLater x) ys (λ z below. omega (arith, first, below)) h.0),
        h,
      )
]

pub str_eq-sym : (a b : String) → str_eq a b ≡ false → str_eq b a ≡ false
str_eq-sym a b h = ne→str_eq b a (λ p. differ (sym (str_eq_refl a) ∙ ap (str_eq a) (sym p) ∙ h))

insert_finished-Distinct :
    (x : Finished) (ys : List Finished)
    → All (Differs x.0) ys
    → Distinct ys
    → Distinct (insert_finished x ys)
unfolding insert_finished
insert_finished-Distinct x [] fresh h = (tt, tt)
insert_finished-Distinct x (y ∷ ys) fresh h = elim (Bool-cases (finished_later y x)) [
  | inl e ↦ rw e (
    All-insert_finished (Differs y.0) x ys (str_eq-sym x.0 y.0 fresh.0) h.0,
    insert_finished-Distinct x ys fresh.1 h.1,
  )
  | inr e ↦ rw e (fresh, h)
]

pub sort_finished-Sorted : (xs : List Finished) → Sorted (sort_finished xs)
unfolding sort_finished
sort_finished-Sorted [] = tt
sort_finished-Sorted (x ∷ xs) =
    insert_finished-Sorted x (sort_finished xs) (sort_finished-Sorted xs)

pub sort_finished-Distinct : (xs : List Finished) → Distinct xs → Distinct (sort_finished xs)
unfolding sort_finished
sort_finished-Distinct [] h = tt
sort_finished-Distinct (x ∷ xs) h =
    insert_finished-Distinct x (sort_finished xs) (All-sort_finished (Differs x.0) xs h.0)
      (sort_finished-Distinct xs h.1)

length-insert_finished :
    (x : Finished) (ys : List Finished) → length (insert_finished x ys) ≡ length ys + 1
unfolding insert_finished
length-insert_finished x [] = omega arith
length-insert_finished x (y ∷ ys) = elim (Bool-cases (finished_later y x)) [
  | inl e ↦ rw e (omega (arith, length-insert_finished x ys))
  | inr e ↦ rw e (omega arith)
]

pub length-sort_finished : (xs : List Finished) → length (sort_finished xs) ≡ length xs
unfolding sort_finished
length-sort_finished [] = refl
length-sort_finished (x ∷ xs) =
    omega (arith, length-insert_finished x (sort_finished xs), length-sort_finished xs)

In-insert_finished :
    (x z : Finished) (ys : List Finished) → (z ≡ x) ⊎ In z ys → In z (insert_finished x ys)
unfolding insert_finished
In-insert_finished x z [] h = h
In-insert_finished x z (y ∷ ys) h = elim (Bool-cases (finished_later y x)) [
  | inl e ↦ rw e (elim h [
    | inl p ↦ inr (In-insert_finished x z ys (inl p))
    | inr i ↦ elim i [ inl q ↦ inl q | inr r ↦ inr (In-insert_finished x z ys (inr r)) ]
  ])
  | inr e ↦ rw e h
]

pub In-sort_finished : (z : Finished) (xs : List Finished) → In z xs → In z (sort_finished xs)
unfolding sort_finished
In-sort_finished z [] i = i
In-sort_finished z (x ∷ xs) (inl p) = In-insert_finished x z (sort_finished xs) (inl p)
In-sort_finished z (x ∷ xs) (inr i) =
    In-insert_finished x z (sort_finished xs) (inr (In-sort_finished z xs i))

-- What is not dropped is not older than what is.
pub drop-NotLater :
    (n : ℕ) (xs : List Finished) (x : Finished)
    → Sorted xs
    → In x xs
    → In x (drop n xs) ⊎ All (NotLater x) (drop n xs)
drop-NotLater zero xs x h i = inl i
drop-NotLater (suc n) [] x h i = inl i
drop-NotLater (suc n) (y ∷ ys) x h (inl p) =
    inr (subst (λ y. All (NotLater y) (drop n ys)) (sym p) (All-drop (NotLater y) n ys h.0))
drop-NotLater (suc n) (y ∷ ys) x h (inr i) = drop-NotLater n ys x h.1 i
