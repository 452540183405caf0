-- ===== src/Queue/Order.antt =====
-- The ranking is a permutation that puts deferred candidates last.
use mathlib.Core.List.{Permᴰ}
use mathlib.Core.List.Permᴰ
use workitem.Common.{
  ◌≡◌, refl, subst, String, Bool, true, false, List, [], ◌∷◌, str_eq, inl, inr, Bool-cases, All,
}
use workitem.Model.Error.{ok, Ensures-ok, Ensures-if}
use workitem.Queue.Priority.{
  Candidate, effectively_deferred, less, insert, sort_stable, default_strategy, or_default, rank,
}

abbrev pub AllDeferred : List Candidate → Type 0
AllDeferred cs = All (λ d. effectively_deferred d ≡ true) cs

abbrev pub Behind : Bool → List Candidate → Type 0
Behind true cs = AllDeferred cs
Behind false cs = Unit

-- Behind a deferred candidate stand only deferred ones.
abbrev pub DeferredLast : List Candidate → Type 0
DeferredLast [] = Unit
DeferredLast (c ∷ cs) = Behind (effectively_deferred c) cs × DeferredLast cs

insert-Perm : (c : Candidate) (ds : List Candidate) → Permᴰ (insert c ds) (c ∷ ds)
unfolding insert
insert-Perm c [] = Permᴰ.refl (c ∷ [])
insert-Perm c (d ∷ ds) = elim (Bool-cases (less d c)) [
  | inl e ↦ rw e (Permᴰ.trans (Permᴰ.cons refl (insert-Perm c ds)) (Permᴰ.swap refl refl))
  | inr e ↦ rw e (Permᴰ.refl (c ∷ d ∷ ds))
]

sort_stable-Perm : (cs : List Candidate) → Permᴰ (sort_stable cs) cs
unfolding sort_stable
sort_stable-Perm [] = Permᴰ.refl []
sort_stable-Perm (c ∷ cs) =
    Permᴰ.trans (insert-Perm c (sort_stable cs)) (Permᴰ.cons refl (sort_stable-Perm cs))

less-deferred :
    (a b : Candidate)
    → effectively_deferred a ≡ false
    → effectively_deferred b ≡ true
    → (less a b ≡ true) × (less b a ≡ false)
unfolding less
less-deferred a b ea eb = (rw (ea, eb) refl, rw (ea, eb) refl)

insert-AllDeferred :
    (c : Candidate) (ds : List Candidate)
    → effectively_deferred c ≡ true
    → AllDeferred ds
    → AllDeferred (insert c ds)
unfolding insert
insert-AllDeferred c [] e all = (e, tt)
insert-AllDeferred c (d ∷ ds) e all = elim (Bool-cases (less d c)) [
  | inl l ↦ rw l (all.0, insert-AllDeferred c ds e all.1)
  | inr l ↦ rw l (e, all)
]

Behind-insert :
    (c d : Candidate) (ds : List Candidate) (b : Bool)
    → less d c ≡ true
    → effectively_deferred d ≡ b
    → Behind b ds
    → Behind b (insert c ds)
Behind-insert c d ds false l e all = tt
Behind-insert c d ds true l e all = elim (Bool-cases (effectively_deferred c)) [
  | inl f ↦ insert-AllDeferred c ds f all
  | inr f ↦ absurd (cc (l, (less-deferred c d f e).1))
]

Behind-front :
    (c d : Candidate) (ds : List Candidate) (b : Bool)
    → less d c ≡ false
    → effectively_deferred c ≡ b
    → Behind (effectively_deferred d) ds
    → Behind b (d ∷ ds)
Behind-front c d ds false l e behind = tt
Behind-front c d ds true l e behind = elim (Bool-cases (effectively_deferred d)) [
  | inl f ↦ (f, subst (λ b. Behind b ds) f behind)
  | inr f ↦ absurd (cc (l, (less-deferred d c f e).0))
]

Behind-nil : (b : Bool) → Behind b []
Behind-nil true = tt
Behind-nil false = tt

insert-DeferredLast :
    (c : Candidate) (ds : List Candidate) → DeferredLast ds → DeferredLast (insert c ds)
unfolding insert
insert-DeferredLast c [] last = (Behind-nil (effectively_deferred c), tt)
insert-DeferredLast c (d ∷ ds) (behind, last) = elim (Bool-cases (less d c)) [
  | inl l ↦
      rw l
        (Behind-insert c d ds (effectively_deferred d) l refl behind, insert-DeferredLast c ds last)
  | inr l ↦ rw l (Behind-front c d ds (effectively_deferred c) l refl behind, (behind, last))
]

sort_stable-DeferredLast : (cs : List Candidate) → DeferredLast (sort_stable cs)
unfolding sort_stable
sort_stable-DeferredLast [] = tt
sort_stable-DeferredLast (c ∷ cs) =
    insert-DeferredLast c (sort_stable cs) (sort_stable-DeferredLast cs)

-- A ranking holds the candidates that it was given, each as often, and no candidate that counts as
-- deferred stands in front of one that does not.
pub rank-DeferredLast :
    (strategy : String) (cs ranked : List Candidate)
    → rank strategy cs ≡ ok ranked
    → Permᴰ ranked cs × DeferredLast ranked
unfolding rank
rank-DeferredLast strategy cs ranked run =
    Ensures-ok (λ r. Permᴰ r cs × DeferredLast r) run
      (Ensures-if (λ r. Permᴰ r cs × DeferredLast r) (str_eq (or_default strategy) default_strategy)
        _ _ (λ _. (sort_stable-Perm cs, sort_stable-DeferredLast cs)) λ _. tt)
