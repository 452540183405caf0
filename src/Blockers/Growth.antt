-- ===== src/Blockers/Growth.antt =====
-- What a blocker command leaves behind: the blockers it appended, their events, and no cycle.
use workitem.Common.{
  ℕ, ◌+◌, ◌≡◌, ◌∙◌, refl, sym, ap, subst, inl, inr, String, false, some, List, [], ◌∷◌, ◌++◌, map,
  All, In, lookup, put, lookup-put_ne, length, ltb, str_eq, str_eq-cases, Bool-cases, if◌then◌else◌,
  arith,
}
use mathlib.Core.List.{append-nil, append_assoc}
use workitem.Model.Error.{ok, ok-of_bind, refuse_if-then}
use workitem.Model.Blocker.{Time, Blocker, validate_blocker}
use workitem.Model.Manifest.{Manifest, is_closed}
use workitem.Domain.Types.{ManifestCommand, CommandEvent, blocker_added, attention_read}
use workitem.Blockers.Graph.{blockers_of, waits_on, targets, IsAcyclic}
use workitem.Blockers.Acyclic.{IsAcyclic-mono, blockers_of-put, blockers_of_found, blockers_of_same}
use workitem.Blockers.Commands.{
  Adding, append_blocker, add_blockers, index_by_id, prepare_blocker, add_blocker,
  apply_blocker_add, blocker_event_data,
}
use workitem.Blockers.Adding.{MayAppend, add_blocker-cases, add_blockers-IsAdding}

abbrev pub added_events : List Blocker → List CommandEvent
added_events = map (λ b. blocker_added (blocker_event_data b))

abbrev pub with_blockers : Manifest → List Blocker → Manifest
with_blockers m bs = record m { blockers = bs }

-- The blockers that were appended between two states of the loop.
record Grown (now : Time) (s s' : Adding) : Type 0 where
  new : List Blocker
  manifest : s'.manifest ≡ with_blockers s.manifest (s.manifest.blockers ++ new)
  events : s'.events ≡ s.events ++ added_events new
  count : s'.added ≡ s.added + length new
  valid : All (λ b. validate_blocker b s.manifest.id now ≡ ok tt) new
  others : (x : String) → str_eq s.manifest.id x ≡ false → lookup s'.by_id x ≡ lookup s.by_id x

Grown-refl : (now : Time) (s : Adding) → Grown now s s
Grown-refl now s = record {
  new = [];
  manifest = rw (append-nil s.manifest.blockers);
  events = sym (append-nil s.events);
  count = omega arith;
  valid = tt;
  others = λ x e. refl;
}

Grown-append :
    (now : Time) (s s' : Adding) (b : Blocker)
    → MayAppend now s b
    → Grown now (append_blocker s b) s'
    → Grown now s s'
unfolding append_blocker
Grown-append now s s' b may g = record {
  new = b ∷ g.new;
  manifest =
      g.manifest ∙ ap (with_blockers s.manifest) (append_assoc s.manifest.blockers (b ∷ []) g.new);
  events =
      g.events
      ∙ append_assoc s.events (blocker_added (blocker_event_data b) ∷ []) (added_events g.new);
  count = omega (arith, g.count);
  valid = (may.valid, g.valid);
  others = λ x e. g.others x e ∙ lookup-put_ne s.by_id s.manifest.id x _ e;
}

add_blockers-Grown :
    (digest : String → ℕ → String) (c : ManifestCommand) (index : ℕ) (s s' : Adding)
    (bs : List Blocker)
    → add_blockers digest c index s bs ≡ ok s'
    → Grown c.created_at s s'
unfolding add_blockers
add_blockers-Grown digest c index s s' [] h =
    subst (Grown c.created_at s) (cc h) (Grown-refl c.created_at s)
add_blockers-Grown digest c index s s' (b ∷ bs) h =
    let stored = prepare_blocker digest c index b in
    let (t, first, rest) = ok-of_bind (add_blocker c.created_at s stored) _ h in
    let after = add_blockers-Grown digest c (index + 1) t s' bs rest in
    elim (add_blocker-cases c.created_at s t stored first) [
      | inl same ↦ subst (λ u. Grown c.created_at u s') same after
      | inr (e, may) ↦
          Grown-append c.created_at s s' stored may (subst (λ u. Grown c.created_at u s') e after)
    ]

module _ (digest : String → ℕ → String) (c : ManifestCommand) (m : Manifest)
    (all : List Manifest) where
  abbrev start : Adding
  start = record { manifest = m; by_id = index_by_id all; events = []; added = 0 }

  -- The final state of the loop behind a successful command.
  apply_blocker_add-loop :
      (m' : Manifest) (events : List CommandEvent)
      → apply_blocker_add digest c m all ≡ ok (m', events)
      → (s : Adding) × (add_blockers digest c 0 start c.blockers ≡ ok s)
        × (m' ≡ s.manifest)
        × (events
            ≡ (if ltb 0 s.added then s.events ++ attention_read c.created_at ∷ [] else s.events))
  unfolding apply_blocker_add
  apply_blocker_add-loop m' events h =
      let (_, h₁) = refuse_if-then (ltb (length c.blockers) 1) _ _ h in
      let (_, h₂) = refuse_if-then (is_closed m.state) _ _ h₁ in
      let (s, run, final) = ok-of_bind (add_blockers digest c 0 start c.blockers) _ h₂ in
      (s, run, cc final, cc final)

  events_end :
      (events : List CommandEvent) (added : ℕ) (new : List Blocker)
      → events ≡ added_events new
      → added ≡ length new
      → (if ltb 0 added then events ++ attention_read c.created_at ∷ [] else events)
        ≡ added_events new ++ (if ltb 0 (length new) then attention_read c.created_at ∷ [] else [])
  events_end events added new e n =
      rw (e, n)
        (elim (Bool-cases (ltb 0 (length new))) [
          | inl some_new ↦ rw some_new
          | inr none_new ↦ rw none_new (sym (append-nil (added_events new)))
        ])

  -- A successful command appends blockers that pass validation and changes nothing else of the
  -- item. Its events are one addition for each of them, in order, and behind those one read marker
  -- at the time of the command if there is any.
  pub apply_blocker_add_lem :
      (m' : Manifest) (events : List CommandEvent)
      → apply_blocker_add digest c m all ≡ ok (m', events)
      → (new : List Blocker) × (m' ≡ with_blockers m (m.blockers ++ new))
        × (events
            ≡ added_events new
              ++ (if ltb 0 (length new) then attention_read c.created_at ∷ [] else []))
        × All (λ b. validate_blocker b m.id c.created_at ≡ ok tt) new
  apply_blocker_add_lem m' events h =
      let (s, run, same, listed) = apply_blocker_add-loop m' events h in
      let g = add_blockers-Grown digest c 0 start s c.blockers run in
      (
        g.new,
        same ∙ g.manifest,
        listed ∙ events_end s.events s.added g.new g.events (omega (arith, g.count)),
        g.valid,
      )

  -- Where no item waits for itself, none does after a successful command.
  pub apply_blocker_add-IsAcyclic :
      (m' : Manifest) (events : List CommandEvent)
      → lookup (index_by_id all) m.id ≡ some m
      → IsAcyclic (waits_on (index_by_id all))
      → apply_blocker_add digest c m all ≡ ok (m', events)
      → IsAcyclic (waits_on (put (index_by_id all) m.id m'))
  apply_blocker_add-IsAcyclic m' events here acyclic h =
      let (s, run, same, _) = apply_blocker_add-loop m' events h in
      let g = add_blockers-Grown digest c 0 start s c.blockers run in
      let inv =
        add_blockers-IsAdding digest c 0 start s c.blockers run
          (record { current = here; acyclic = acyclic }) in
      let named : s.manifest.id ≡ m.id = ap (λ t. t.id) g.manifest in
      let edges : (x : String)
          → blockers_of (put (index_by_id all) m.id m') x ≡ blockers_of s.by_id x =
        λ x. elim (str_eq-cases m.id x) [
          | inl p ↦
              rw (blockers_of-put (index_by_id all) m.id m' x, p.1)
                (sym (
                  blockers_of_found s.by_id x s.manifest
                    (subst (λ t. lookup s.by_id t ≡ some s.manifest) (named ∙ p.0) inv.current)
                  ∙ ap (λ t. t.blockers) (sym same)))
          | inr p ↦
              rw (blockers_of-put (index_by_id all) m.id m' x, p.1)
                (blockers_of_same (index_by_id all) s.by_id x (sym (g.others x p.1)))
        ] in
      IsAcyclic-mono (waits_on s.by_id) (waits_on (put (index_by_id all) m.id m'))
        (λ x y i. subst (λ t. In y (targets t)) (edges x) i) inv.acyclic
