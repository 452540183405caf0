-- ===== src/Model/SlugForm.antt =====
-- The form of slugs: what they are made of, and how long they are.
use Prim.Native.Char.{Char, code}
use Prim.Native.String.count
use workitem.Common.{
  ℕ, ◌+◌, ◌≤◌, ◌<◌, ◌≡◌, refl, String, Bool, true, false, not, ◌&&◌, ◌||◌, Option, none, some, ltb,
  leb, ◌==◌, if◌then◌else◌, inl, inr, Bool-cases, arith,
}
use workitem.Strings.{
  is_empty, rune_count, all_runes, trim_left, trim_right, drop_last, trim, trim_hyphens, to_lower,
}
use workitem.Model.Label.{RuneClass, lower_or_digit}
use workitem.Model.Slug.{
  slug_class, slug_writes, slug_hyphen, write, written, slug_loop, slugify, max_slug_length,
}
use workitem.Content.Equality.{and_parts}

-- The runes that a slug is made of.
abbrev pub slug_rune : ℕ → Bool
slug_rune c = lower_or_digit c || c == b'-'

-- The three runs of the trimming shorten a text, and keep what every rune passes.
record Within (s t : String) : Type 0 where
  shorter : rune_count t ≤ rune_count s
  kept : all_runes slug_rune s ≡ true → all_runes slug_rune t ≡ true

written_le : (out : Option Char) → written out ≤ 1
written_le none = omega arith
written_le (some c) = omega arith

count-write :
    (out : Option Char) (s : String) → rune_count (write out s) ≡ written out + rune_count s
count-write none s = omega arith
count-write (some c) s = omega (arith, count.cons c s)

write-fits :
    (out : Option Char) (len : ℕ) (rest : String)
    → len < 60
    → (leb 60 (len + written out) ≡ false → len + written out + rune_count rest ≤ 60)
    → len + rune_count (write out (if leb 60 (len + written out) then "" else rest)) ≤ 60
write-fits out len rest lt h = elim (Bool-cases (leb 60 (len + written out))) [
  | inl e ↦ rw e (omega (arith, count-write out "", written_le out))
  | inr e ↦ rw e (omega (arith, count-write out rest, h e))
]

-- The loop writes at most as many runes as are left of the limit.
slug_loop-fits :
    (len : ℕ) (last_hyphen : Bool) (s : String)
    → len < 60
    → len + rune_count (slug_loop len last_hyphen s) ≤ 60
unfolding slug_loop
slug_loop-fits len last_hyphen String.[] lt = omega arith
slug_loop-fits len last_hyphen (String.◌∷◌ c s) lt =
    let class = slug_class (code c) in
    let out = slug_writes class (ltb 0 len) last_hyphen c in
    write-fits out len _ lt (λ e.
      slug_loop-fits (len + written out) (slug_hyphen class (ltb 0 len) last_hyphen) s (below _ e))
  where
    below : (n : ℕ) → leb 60 n ≡ false → n < 60
    below n h = ground arith

-- Every rune that is written is one of a slug.
abbrev IsSlugRune : Option Char → Type 0
IsSlugRune none = Unit
IsSlugRune (some c) = slug_rune (code c) ≡ true

not_kept : (b : Bool) → (if b then RuneClass.gap else RuneClass.other) ≡ RuneClass.kept → ⊥
not_kept true h = cc
not_kept false h = cc

slug_writes-IsSlugRune :
    (class : RuneClass) (started last_hyphen : Bool) (c : Char)
    → slug_class (code c) ≡ class
    → IsSlugRune (slug_writes class started last_hyphen c)
unfolding slug_class
slug_writes-IsSlugRune RuneClass.kept started last_hyphen c h =
    elim (Bool-cases (lower_or_digit (code c))) [
      | inl e ↦ rw e refl
      | inr e ↦ absurd (not_kept _ (rw e at h))
    ]
slug_writes-IsSlugRune RuneClass.gap started last_hyphen c h =
    elim (Bool-cases (started && not last_hyphen)) [ inl e ↦ rw e refl | inr e ↦ rw e tt ]
slug_writes-IsSlugRune RuneClass.other started last_hyphen c h = tt

write-slug :
    (out : Option Char) (stop : Bool) (rest : String)
    → IsSlugRune out
    → all_runes slug_rune rest ≡ true
    → all_runes slug_rune (write out (if stop then "" else rest)) ≡ true
unfolding all_runes
write-slug none true rest o h = refl
write-slug none false rest o h = h
write-slug (some c) true rest o h = rw o refl
write-slug (some c) false rest o h = rw (o, h) refl

slug_loop-slug :
    (len : ℕ) (last_hyphen : Bool) (s : String)
    → all_runes slug_rune (slug_loop len last_hyphen s) ≡ true
unfolding slug_loop all_runes
slug_loop-slug len last_hyphen String.[] = refl
slug_loop-slug len last_hyphen (String.◌∷◌ c s) =
    let class = slug_class (code c) in
    let out = slug_writes class (ltb 0 len) last_hyphen c in
    write-slug out (leb 60 (len + written out)) _
      (slug_writes-IsSlugRune class (ltb 0 len) last_hyphen c refl)
      (slug_loop-slug (len + written out) (slug_hyphen class (ltb 0 len) last_hyphen) s)

slug_tail :
    (c : Char) (s : String)
    → all_runes slug_rune (String.◌∷◌ c s) ≡ true
    → (slug_rune (code c) ≡ true) × (all_runes slug_rune s ≡ true)
unfolding all_runes
slug_tail c s h = and_parts (slug_rune (code c)) (all_runes slug_rune s) h

slug_cons :
    (c : Char) (s : String)
    → slug_rune (code c) ≡ true
    → all_runes slug_rune s ≡ true
    → all_runes slug_rune (String.◌∷◌ c s) ≡ true
unfolding all_runes
slug_cons c s h t = rw (h, t) refl

no_slug : all_runes slug_rune "" ≡ true
unfolding all_runes
no_slug = refl

trim_left-Within : (p : ℕ → Bool) (s : String) → Within s (trim_left p s)
unfolding trim_left
trim_left-Within p String.[] = record { shorter = omega arith; kept = λ h. h }
trim_left-Within p (String.◌∷◌ c s) = elim (Bool-cases (p (code c))) [
  | inl e ↦
      let ih = trim_left-Within p s in
      rw e (record {
        shorter = omega (arith, count.cons c s, ih.shorter);
        kept = λ h. ih.kept (slug_tail c s h).1;
      })
  | inr e ↦ rw e (record { shorter = omega arith; kept = λ h. h })
]

drop_last-Within :
    (p : ℕ → Bool) (c : Char) (s t : String)
    → Within s t
    → Within (String.◌∷◌ c s) (drop_last p c t)
drop_last-Within p c s t w = elim (Bool-cases (p (code c) && is_empty t)) [
  | inl e ↦ rw e (record { shorter = omega arith; kept = λ h. no_slug })
  | inr e ↦ rw e (record {
    shorter = omega (arith, count.cons c s, count.cons c t, w.shorter);
    kept = λ h. slug_cons c t (slug_tail c s h).0 (w.kept (slug_tail c s h).1);
  })
]

trim_right-Within : (p : ℕ → Bool) (s : String) → Within s (trim_right p s)
unfolding trim_right
trim_right-Within p String.[] = record { shorter = omega arith; kept = λ h. h }
trim_right-Within p (String.◌∷◌ c s) =
    drop_last-Within p c s (trim_right p s) (trim_right-Within p s)

trim_hyphens-Within : (s : String) → Within s (trim_hyphens s)
unfolding trim_hyphens trim
trim_hyphens-Within s =
    let l = trim_left-Within (λ c. c == b'-') s in
    let r = trim_right-Within (λ c. c == b'-') (trim_left (λ c. c == b'-') s) in
    record { shorter = omega (arith, l.shorter, r.shorter); kept = λ h. r.kept (l.kept h) }

or_item-IsSlug :
    (s : String)
    → rune_count s ≤ 60
    → all_runes slug_rune s ≡ true
    → (rune_count (if is_empty s then "item" else s) ≤ 60)
      × (all_runes slug_rune (if is_empty s then "item" else s) ≡ true)
      × (is_empty (if is_empty s then "item" else s) ≡ false)
unfolding all_runes is_empty
or_item-IsSlug s le h = elim (Bool-cases (is_empty s)) [
  | inl e ↦ rw e (omega arith, refl, refl)
  | inr e ↦ rw e (le, h, e)
]

-- A slug has at most 60 runes, each of them a small letter, a digit or a hyphen, and is not empty.
pub slugify_lem :
    (title : String)
    → (rune_count (slugify title) ≤ max_slug_length)
      × (all_runes slug_rune (slugify title) ≡ true)
      × (is_empty (slugify title) ≡ false)
unfolding slugify
slugify_lem title =
    let looped = slug_loop 0 false (to_lower title) in
    let w = trim_hyphens-Within looped in
    or_item-IsSlug (trim_hyphens looped)
      (omega (arith, w.shorter, slug_loop-fits 0 false (to_lower title) (omega arith)))
      (w.kept (slug_loop-slug 0 false (to_lower title)))
