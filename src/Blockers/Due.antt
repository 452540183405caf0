-- ===== src/Blockers/Due.antt =====
-- Why a sweep clears a blocker, described apart from the code.
use workitem.Common.{
  ◌≤◌, ◌<◌, ◌≡◌, ◌≢◌, ◌∙◌, refl, sym, ap, subst, Bool, true, false, ltb, ltb→lt, ltb→le, Option,
  none, some, Map, lookup, inl, inr, Bool-cases, arith,
}
use workitem.Model.Blocker.{Time, BlockerKind, Blocker}
use workitem.Model.Manifest.{State, Manifest, is_closed}
use workitem.Domain.Types.{ClearCause}
use workitem.Blockers.Sweep.{is_over, time_cause, item_cause, sweep_cause}

module _ (by_id : Map Manifest) (now : Time) (requested : Option Time) where
  -- Why a blocker is due: its time has come; the item was prompted after the blocker was made, where
  -- its time has not come; or the item that it waits for is gone, or is closed.
  pub data Due (b : Blocker) (c : ClearCause) : Type 0 where
    expired :
        (until : Time)
        → b.kind ≡ BlockerKind.time
        → b.until ≡ some until
        → until ≤ now
        → c ≡ ClearCause.expired
        → Due b c
    prompted :
        (at : Time)
        → b.kind ≡ BlockerKind.time
        → ((until : Time) → b.until ≡ some until → now < until)
        → requested ≡ some at
        → b.created_at < at
        → c ≡ ClearCause.prompted at
        → Due b c
    missing :
        b.kind ≡ BlockerKind.item
        → lookup by_id b.item_id ≡ none
        → c ≡ ClearCause.item_missing
        → Due b c
    closed :
        (target : Manifest)
        → b.kind ≡ BlockerKind.item
        → lookup by_id b.item_id ≡ some target
        → target.state ≡ State.closed
        → c ≡ ClearCause.item_closed target.resolution
        → Due b c

  -- The code's cause is the one described.
  abbrev pub Agrees : Blocker → Option ClearCause → Type 0
  Agrees b none = (c : ClearCause) → Due b c → ⊥
  Agrees b (some c) = Due b c

  time_not_item : BlockerKind.time ≡ BlockerKind.item → ⊥
  time_not_item p = cc

  TimeIsOver : Option Time → Bool → Type 0
  TimeIsOver u true = (until : Time) × (u ≡ some until) × (until ≤ now)
  TimeIsOver u false = (until : Time) → u ≡ some until → now < until

  is_over-TimeIsOver : (u : Option Time) → TimeIsOver u (is_over u now)
  unfolding TimeIsOver
  is_over-TimeIsOver none = λ until p. cc
  is_over-TimeIsOver (some u) = elim (Bool-cases (ltb now u)) [
    | inl e ↦
        rw e (λ until p. let same : u ≡ until = cc in subst (λ t. now < t) same (ltb→lt now u e))
    | inr e ↦ rw e (u, refl, ltb→le now u e)
  ]

  -- A time blocker without a prompt that counts.
  time_blocker_kept :
      (b : Blocker)
      → b.kind ≡ BlockerKind.time
      → ((until : Time) → b.until ≡ some until → now < until)
      → ((at : Time) → requested ≡ some at → b.created_at < at → ⊥)
      → (c : ClearCause) → Due b c
      → ⊥
  time_blocker_kept b kind early late c (expired until k u le e) =
      let lt = early until u in omega (arith, lt, le)
  time_blocker_kept b kind early late c (prompted at k u r lt e) = late at r lt
  time_blocker_kept b kind early late c (missing k l e) = time_not_item (sym kind ∙ k)
  time_blocker_kept b kind early late c (closed target k l s e) = time_not_item (sym kind ∙ k)

  time_cause-Agrees :
      (b : Blocker) (r : Option Time)
      → requested ≡ r
      → b.kind ≡ BlockerKind.time
      → (over : Bool) → is_over b.until now ≡ over
      → TimeIsOver b.until over
      → Agrees b (time_cause b now r)
  unfolding time_cause TimeIsOver
  time_cause-Agrees b none is kind true e (until, u, le) = rw e (expired until kind u le refl)
  time_cause-Agrees b (some at) is kind true e (until, u, le) = rw e (expired until kind u le refl)
  time_cause-Agrees b none is kind false e early =
      rw e (time_blocker_kept b kind early λ at p lt. let q : none ≡ some at = sym is ∙ p in cc)
  time_cause-Agrees b (some at) is kind false e early = elim (Bool-cases (ltb b.created_at at)) [
    | inl f ↦ rw (e, f) (prompted at kind early is (ltb→lt b.created_at at f) refl)
    | inr f ↦
        rw (e, f)
          (time_blocker_kept b kind early λ at' p lt.
            let q : some at ≡ some at' = sym is ∙ p in
            let same : at ≡ at' = cc in
            let le = ltb→le b.created_at at f in omega (arith, same, le, lt))
  ]

  closed_item : (s : State) → is_closed s ≡ true → s ≡ State.closed
  closed_item State.closed h = refl
  closed_item _ h = cc

  item_cause-Agrees :
      (b : Blocker) (o : Option Manifest)
      → lookup by_id b.item_id ≡ o
      → b.kind ≡ BlockerKind.item
      → Agrees b (item_cause o)
  unfolding item_cause
  item_cause-Agrees b none is kind = missing kind is refl
  item_cause-Agrees b (some target) is kind = elim (Bool-cases (is_closed target.state)) [
    | inl e ↦ rw e (closed target kind is (closed_item target.state e) refl)
    | inr e ↦ rw e (open_target b target is kind e)
  ]
    where
      open_target :
          (b : Blocker) (target : Manifest)
          → lookup by_id b.item_id ≡ some target
          → b.kind ≡ BlockerKind.item
          → is_closed target.state ≡ false
          → (c : ClearCause) → Due b c
          → ⊥
      open_target b target is kind e c (expired until k u le p) = time_not_item (sym k ∙ kind)
      open_target b target is kind e c (prompted at k u r lt p) = time_not_item (sym k ∙ kind)
      open_target b target is kind e c (missing k l p) =
          let q : some target ≡ none = sym is ∙ l in cc
      open_target b target is kind e c (closed target' k l s p) =
          let q : some target ≡ some target' = sym is ∙ l in
          let same : target ≡ target' = cc in
          let r : true ≡ false =
            sym (ap is_closed s) ∙ ap (λ (m : Manifest). is_closed m.state) (sym same) ∙ e in
          cc

  other_kind :
      (b : Blocker)
      → b.kind ≢ BlockerKind.time
      → b.kind ≢ BlockerKind.item
      → (c : ClearCause) → Due b c
      → ⊥
  other_kind b t i c (expired until k u le p) = t k
  other_kind b t i c (prompted at k u r lt p) = t k
  other_kind b t i c (missing k l p) = i k
  other_kind b t i c (closed target k l s p) = i k

  -- The switch of the code.
  abbrev cause_at : Blocker → BlockerKind → Option ClearCause
  cause_at b BlockerKind.time = time_cause b now requested
  cause_at b BlockerKind.item = item_cause (lookup by_id b.item_id)
  cause_at b BlockerKind.external = none
  cause_at b (BlockerKind.other_kind k) = none

  cause_at-Agrees : (b : Blocker) (kind : BlockerKind) → b.kind ≡ kind → Agrees b (cause_at b kind)
  cause_at-Agrees b BlockerKind.time is =
      time_cause-Agrees b requested refl is (is_over b.until now) refl (is_over-TimeIsOver b.until)
  cause_at-Agrees b BlockerKind.item is = item_cause-Agrees b (lookup by_id b.item_id) refl is
  cause_at-Agrees b BlockerKind.external is =
      other_kind b (λ p. let q : BlockerKind.external ≡ BlockerKind.time = sym is ∙ p in cc)
        (λ p. let q : BlockerKind.external ≡ BlockerKind.item = sym is ∙ p in cc)
  cause_at-Agrees b (BlockerKind.other_kind k) is =
      other_kind b (λ p. let q : BlockerKind.other_kind k ≡ BlockerKind.time = sym is ∙ p in cc)
        (λ p. let q : BlockerKind.other_kind k ≡ BlockerKind.item = sym is ∙ p in cc)

  pub sweep_cause-Agrees : (b : Blocker) → Agrees b (sweep_cause by_id now requested b)
  unfolding sweep_cause
  sweep_cause-Agrees b = subst (Agrees b) (at_kind b.kind) (cause_at-Agrees b b.kind refl)
    where
      at_kind :
          (k : BlockerKind)
          → cause_at b k ≡ (elim k [
            | BlockerKind.time ↦ time_cause b now requested
            | BlockerKind.item ↦ item_cause (lookup by_id b.item_id)
            | BlockerKind.external ↦ none
            | BlockerKind.other_kind k ↦ none
          ])
      at_kind BlockerKind.time = refl
      at_kind BlockerKind.item = refl
      at_kind BlockerKind.external = refl
      at_kind (BlockerKind.other_kind k) = refl
