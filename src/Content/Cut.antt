-- ===== src/Content/Cut.antt =====
-- Where texts are cut, and how long they are behind it.
use workitem.Common.{
  ℕ, zero, suc, ◌-◌, ◌≤◌, ◌<◌, ◌≡◌, ◌⊎◌, ◌∙◌, refl, ap, sym, subst, true, false, List, [], ◌∷◌,
  ◌++◌, length, length-drop, drop, ltb, leb, leb→le, ltb→le, inl, inr, Bool-cases, arith,
}
use workitem.Content.Bytes.{Bytes, take, byte_at, rune_start, rune_end, from_rune}
use workitem.Content.Apply.{bounded_content_text, bounded_thought, max_content_text_bytes, newest}

length-take : (n : ℕ) (s : Bytes) → length (take n s) ≤ n
length-take zero s = omega arith
length-take (suc n) [] = omega arith
length-take (suc n) (b ∷ s) = omega (arith, length-take n s)

take-drop : (n : ℕ) (s : Bytes) → s ≡ take n s ++ drop n s
take-drop zero s = refl
take-drop (suc n) [] = refl
take-drop (suc n) (b ∷ s) = ap (λ t. b ∷ t) (take-drop n s)

rune_end_le : (text : Bytes) (n : ℕ) → rune_end text n ≤ n
unfolding rune_end
rune_end_le text zero = omega arith
rune_end_le text (suc n) = elim (Bool-cases (rune_start (byte_at text (suc n)))) [
  | inl e ↦ rw e (omega arith)
  | inr e ↦ rw e (omega (arith, rune_end_le text n))
]

-- The cut stands in front of a rune, or at the start.
rune_end-start :
    (text : Bytes) (n : ℕ)
    → (rune_end text n ≡ 0) ⊎ (rune_start (byte_at text (rune_end text n)) ≡ true)
unfolding rune_end
rune_end-start text zero = inl refl
rune_end-start text (suc n) = elim (Bool-cases (rune_start (byte_at text (suc n)))) [
  | inl e ↦ rw e (inr e)
  | inr e ↦ rw e (rune_end-start text n)
]

length-from_rune : (s : Bytes) → length (from_rune s) ≤ length s
length-from_rune [] = omega arith
length-from_rune (b ∷ s) = elim (Bool-cases (rune_start b)) [
  | inl e ↦ rw e (omega arith)
  | inr e ↦ rw e (omega (arith, length-from_rune s))
]

pub bounded_content_text-fits : (text : Bytes) → length (bounded_content_text text).0 ≤ 262_144
unfolding bounded_content_text
bounded_content_text-fits text = elim (Bool-cases (leb (length text) 262_144)) [
  | inl e ↦ rw e (leb→le _ _ e)
  | inr e ↦ rw e (omega (arith, length-take (rune_end text 262_144) text, rune_end_le text 262_144))
]

pub bounded_content_text-whole :
    (text : Bytes) → length text ≤ 262_144 → bounded_content_text text ≡ (text, false)
unfolding bounded_content_text
bounded_content_text-whole text h = let e : leb (length text) 262_144 ≡ true = ground arith in rw e

pub bounded_thought-fits : (text : Bytes) → length (bounded_thought text) ≤ 65_536
unfolding bounded_thought
bounded_thought-fits text = elim (Bool-cases (leb (length text) 65_536)) [
  | inl e ↦ rw e (leb→le _ _ e)
  | inr e ↦ rw e (
      omega (
        arith,
        length-from_rune (drop (length text - 65_536) text),
        length-drop (length text - 65_536) text,
      ))
]

pub newest-fits : {A : Type 0} (n : ℕ) (xs : List A) → length (newest n xs) ≤ n
newest-fits n xs = elim (Bool-cases (ltb n (length xs))) [
  | inl e ↦ rw e (omega (arith, length-drop (length xs - n) xs))
  | inr e ↦ rw e (ltb→le _ _ e)
]

pub length-take_le : (n : ℕ) (s : Bytes) → n ≤ length s → length (take n s) ≡ n
length-take_le zero s h = refl
length-take_le (suc n) [] h = absurd (omega arith)
length-take_le (suc n) (b ∷ s) h = omega (arith, length-take_le n s (omega arith))

-- A text of at most 256 KiB is kept. A longer one is cut to a prefix of at most 256 KiB, and unless
-- nothing is left of it, the first byte behind the cut starts a rune.
pub bounded_content_text_lem :
    (text : Bytes)
    → ((bounded_content_text text).1 ≡ false)
        × ((bounded_content_text text).0 ≡ text)
        × (length text ≤ max_content_text_bytes)
      ⊎ ((bounded_content_text text).1 ≡ true)
        × (max_content_text_bytes < length text)
        × (length (bounded_content_text text).0 ≤ max_content_text_bytes)
        × (text ≡ (bounded_content_text text).0 ++ drop (length (bounded_content_text text).0) text)
        × ((length (bounded_content_text text).0 ≡ 0)
            ⊎ (rune_start (byte_at text (length (bounded_content_text text).0)) ≡ true))
unfolding bounded_content_text
bounded_content_text_lem text = elim (Bool-cases (leb (length text) max_content_text_bytes)) [
  | inl e ↦ rw e (inl (refl, refl, leb→le _ _ e))
  | inr e ↦ rw e (
      let over : max_content_text_bytes < length text = ground arith in
      let n = rune_end text max_content_text_bytes in
      let le = rune_end_le text max_content_text_bytes in
      let l : length (take n text) ≡ n = length-take_le n text (omega arith) in
      let pre : text ≡ take n text ++ drop (length (take n text)) text =
        take-drop n text ∙ ap (λ k. take n text ++ drop k text) (sym l) in
      let start : (length (take n text) ≡ 0)
          ⊎ (rune_start (byte_at text (length (take n text))) ≡ true) =
        subst (λ k. (k ≡ 0) ⊎ (rune_start (byte_at text k) ≡ true)) (sym l)
          (rune_end-start text max_content_text_bytes) in
      inr (refl, over, omega arith, pre, start))
]
