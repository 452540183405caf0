-- ===== src/Content/Equality.antt =====
-- What the comparisons of texts, tools and flags tell.
use workitem.Common.{
  ℕ, ◌≡◌, refl, sym, Bool, true, false, not, ◌&&◌, ◌||◌, [], ◌∷◌, ◌++◌, length, drop, str_eq,
  str_eq→eq, ◌==◌, arith,
}
use workitem.Content.Bytes.{Bytes, bytes_eq, has_prefix}
use workitem.Content.Types.{ContentTool, tool_eq}
use workitem.Content.Replace.{flags_differ}

pub differ : ¬ true ≡ false
differ h = cc

pub and_parts : (a b : Bool) → (a && b) ≡ true → (a ≡ true) × (b ≡ true)
and_parts true b h = (refl, h)
and_parts false b h = cc

pub or_parts : (a b : Bool) → (a || b) ≡ false → (a ≡ false) × (b ≡ false)
or_parts false b h = (refl, h)
or_parts true b h = cc

pub false_of_negated : (a : Bool) → not a ≡ true → a ≡ false
false_of_negated true h = cc
false_of_negated false h = refl

pub true_of_negated : (a : Bool) → not a ≡ false → a ≡ true
true_of_negated true h = refl
true_of_negated false h = cc

pub eqb→eq : (a b : ℕ) → (a == b) ≡ true → a ≡ b
eqb→eq a b h = ground arith

pub bytes_eq→eq : (s t : Bytes) → bytes_eq s t ≡ true → s ≡ t
unfolding bytes_eq
bytes_eq→eq [] [] h = refl
bytes_eq→eq [] (c ∷ t) h = cc
bytes_eq→eq (b ∷ s) [] h = cc
bytes_eq→eq (b ∷ s) (c ∷ t) h =
    let p = and_parts (b == c) (bytes_eq s t) h in λ i. eqb→eq b c p.0 i ∷ bytes_eq→eq s t p.1 i

-- What follows a prefix.
pub has_prefix→eq :
    (s prefix : Bytes) → has_prefix s prefix ≡ true → prefix ++ drop (length prefix) s ≡ s
unfolding has_prefix
has_prefix→eq s [] h = refl
has_prefix→eq [] (p ∷ prefix) h = cc
has_prefix→eq (b ∷ s) (p ∷ prefix) h =
    let q = and_parts (b == p) (has_prefix s prefix) h in
    λ i. sym (eqb→eq b p q.0) i ∷ has_prefix→eq s prefix q.1 i

pub tool_eq→eq : (a b : ContentTool) → tool_eq a b ≡ true → a ≡ b
unfolding tool_eq
tool_eq→eq a b h =
    let t = and_parts _ (bytes_eq a.output b.output) h in
    let r = and_parts _ (bytes_eq a.input b.input) t.0 in
    let q = and_parts _ (str_eq a.status b.status) r.0 in
    let p = and_parts (str_eq a.id b.id) (bytes_eq a.name b.name) q.0 in
    λ i. record {
      id = str_eq→eq a.id b.id p.0 i;
      name = bytes_eq→eq a.name b.name p.1 i;
      status = str_eq→eq a.status b.status q.1 i;
      input = bytes_eq→eq a.input b.input r.1 i;
      output = bytes_eq→eq a.output b.output t.1 i;
    }

pub flags_differ→eq : (a b : Bool) → flags_differ a b ≡ false → a ≡ b
flags_differ→eq true true h = refl
flags_differ→eq true false h = cc
flags_differ→eq false true h = cc
flags_differ→eq false false h = refl
