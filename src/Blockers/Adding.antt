-- ===== src/Blockers/Adding.antt =====
-- What `apply_blocker_add` does: no cycle, no second blocker on one item, and the events.
use workitem.Common.{
  ℕ, ◌+◌, ◌≡◌, ◌∙◌, sym, ap, subst, ◌⊎◌, inl, inr, String, true, false, some, List, [], ◌∷◌, ◌++◌,
  In, In-append, lookup, lookup-put_self, str_eq, str_eq_iff, Bool-cases, arith,
}
use workitem.Model.Error.{ok, ok-of_bind}
use workitem.Model.Blocker.{Time, Blocker, BlockerKind, is_item, validate_blocker, validate_kind}
use workitem.Domain.Types.{ManifestCommand}
use workitem.Blockers.Graph.{targets, blockers_of, waits_on, IsAcyclic, blocks_transitively}
use workitem.Blockers.Search.{blocks_transitively_iff}
use workitem.Blockers.Acyclic.{put-IsAcyclic, put-IsAcyclic_add, targets-append}
use workitem.Blockers.Commands.{
  Adding, has_item_blocker, append_blocker, check_target, add_blocker, add_blockers,
  prepare_blocker,
}

validate_kind-apart :
    (k : BlockerKind) (b : Blocker) (id : String) (now : Time)
    → validate_kind k b id now ≡ ok tt
    → is_item k ≡ true
    → str_eq b.item_id id ≡ false
unfolding validate_kind
validate_kind-apart BlockerKind.item b id now h item = ground arith
validate_kind-apart _ b id now h item = cc

-- A successful check of an item blocker is on another item.
validate_blocker-apart :
    (b : Blocker) (id : String) (now : Time)
    → validate_blocker b id now ≡ ok tt
    → is_item b.kind ≡ true
    → str_eq b.item_id id ≡ false
unfolding validate_blocker
validate_blocker-apart b id now h item = validate_kind-apart b.kind b id now (ground arith) item

-- Why a blocker may be appended.
pub record MayAppend (now : Time) (s : Adding) (b : Blocker) : Type 0 where
  pub valid : validate_blocker b s.manifest.id now ≡ ok tt
  pub fresh : is_item b.kind ≡ true → has_item_blocker s.manifest.blockers b.item_id ≡ false
  pub no_cycle : is_item b.kind ≡ true → blocks_transitively s.by_id b.item_id s.manifest.id ≡ false

check_target-cases :
    (s s' : Adding) (b : Blocker)
    → check_target s b ≡ ok s'
    → (s' ≡ s)
      ⊎ (s' ≡ append_blocker s b)
        × (has_item_blocker s.manifest.blockers b.item_id ≡ false)
        × (blocks_transitively s.by_id b.item_id s.manifest.id ≡ false)
unfolding check_target
check_target-cases s s' b h = ground arith

pub add_blocker-cases :
    (now : Time) (s s' : Adding) (b : Blocker)
    → add_blocker now s b ≡ ok s'
    → (s' ≡ s) ⊎ (s' ≡ append_blocker s b) × MayAppend now s b
unfolding add_blocker
add_blocker-cases now s s' b h =
    let (u, valid, rest) = ok-of_bind (validate_blocker b s.manifest.id now) _ h in
    elim (Bool-cases (is_item b.kind)) [
      | inr other ↦ inr (
        cc (rw other at rest),
        record {
          valid = valid;
          fresh = λ e. absurd (cc (sym other ∙ e));
          no_cycle = λ e. absurd (cc (sym other ∙ e));
        },
      )
      | inl item ↦ elim (check_target-cases s s' b (rw item at rest)) [
        | inl same ↦ inl same
        | inr (e, fresh, no_cycle) ↦
            inr (e, record { valid = valid; fresh = λ _. fresh; no_cycle = λ _. no_cycle })
      ]
    ]

-- What the loop keeps: the index holds the manifest as it stands, and has no cycle.
pub record IsAdding (s : Adding) : Type 0 where
  pub current : lookup s.by_id s.manifest.id ≡ some s.manifest
  pub acyclic : IsAcyclic (waits_on s.by_id)

waits_on-current :
    (s : Adding) → IsAdding s → waits_on s.by_id s.manifest.id ≡ targets s.manifest.blockers
unfolding blockers_of
waits_on-current s inv = ap targets (rw (inv.current, blockers_of))

named-append_item :
    (y : String) (bs : List Blocker) (b : Blocker)
    → In y (targets (bs ++ b ∷ []))
    → In y (targets bs) ⊎ (is_item b.kind ≡ true) × (y ≡ b.item_id)
unfolding targets
named-append_item y bs b i =
    elim (In-append y (targets bs) (targets (b ∷ [])) (rw (targets-append bs b) at i)) [
      | inl old ↦ inl old
      | inr new ↦ elim (Bool-cases (is_item b.kind)) [
        | inl e ↦ elim (rw e at new) [ inl p ↦ inr (e, p) | inr n ↦ elim n [ ] ]
        | inr e ↦ elim (rw e at new) [ ]
      ]
    ]

append_blocker-IsAdding :
    (now : Time) (s : Adding) (b : Blocker)
    → MayAppend now s b
    → IsAdding s
    → IsAdding (append_blocker s b)
unfolding append_blocker
append_blocker-IsAdding now s b may inv =
    let next = record s.manifest { blockers = s.manifest.blockers ++ b ∷ [] } in
    let old : (y : String)
        → In y (targets s.manifest.blockers)
        → In y (waits_on s.by_id s.manifest.id) =
      λ y i. subst (In y) (sym (waits_on-current s inv)) i in
    record {
      current = lookup-put_self s.by_id s.manifest.id _;
      acyclic = elim (Bool-cases (is_item b.kind)) [
        | inr other ↦
            put-IsAcyclic s.by_id s.manifest.id next
              (λ y i. elim (named-append_item y s.manifest.blockers b i) [
                | inl j ↦ old y j
                | inr (e, _) ↦ absurd (cc (sym other ∙ e))
              ])
              inv.acyclic
        | inl item ↦
            put-IsAcyclic_add s.by_id s.manifest.id b.item_id next
              (λ y i. elim (named-append_item y s.manifest.blockers b i) [
                | inl j ↦ inl (old y j)
                | inr (_, p) ↦ inr p
              ])
              (λ same. cc (
                sym (validate_blocker-apart b s.manifest.id now may.valid item)
                ∙ (str_eq_iff b.item_id s.manifest.id).1 same))
              (λ w. cc (
                sym (may.no_cycle item)
                ∙ (blocks_transitively_iff s.by_id b.item_id s.manifest.id).1.1 w))
              inv.acyclic
      ];
    }

pub add_blockers-IsAdding :
    (digest : String → ℕ → String) (c : ManifestCommand) (index : ℕ) (s s' : Adding)
    (bs : List Blocker)
    → add_blockers digest c index s bs ≡ ok s'
    → IsAdding s
    → IsAdding s'
unfolding add_blockers
add_blockers-IsAdding digest c index s s' [] h inv = subst IsAdding (cc h) inv
add_blockers-IsAdding digest c index s s' (b ∷ bs) h inv =
    let stored = prepare_blocker digest c index b in
    let (t, first, rest) = ok-of_bind (add_blocker c.created_at s stored) _ h in
    add_blockers-IsAdding digest c (index + 1) t s' bs rest
      (elim (add_blocker-cases c.created_at s t stored first) [
        | inl same ↦ subst IsAdding (sym same) inv
        | inr (e, may) ↦
            subst IsAdding (sym e) (append_blocker-IsAdding c.created_at s stored may inv)
      ])
