-- ===== src/Model/Decoding.antt =====
-- Ids are valid, and the number that they spell is that of their bytes.
use Prim.Native.Char.{Char, code}
use Prim.Native.String.count
use native.Mathlib.Nat.{mul_assoc, mul-le-mul_right}
use workitem.Common.{
  ℕ, zero, suc, ◌+◌, ◌*◌, ◌/◌, ◌%◌, ◌≤◌, ◌<◌, ◌≡◌, ◌∙◌, refl, ap, sym, subst, String, Bool, true,
  ◌&&◌, [], ◌∷◌, length, All, ◌==◌, if◌then◌else◌, inl, inr, Bool-cases, arith,
}
use workitem.Strings.{nth_rune, all_runes, rune_count}
use workitem.Model.Blocker.{valid_id, crockford_rune}
use workitem.Content.Bytes.{Bytes}
use workitem.Content.Equality.{and_parts, eqb→eq}
use workitem.Model.Id.{crockford, set_bytes, digit, encode_from, encode_base32_fixed}

-- The place of a rune in a text.
unfoldable place_in : String → ℕ → ℕ → ℕ
place_in String.[] c i = i
place_in (String.◌∷◌ d s) c i = if code d == c then i else place_in s c (i + 1)

-- The number that an id spells.
unfoldable decoded : String → ℕ → ℕ
unfolding place_in crockford
decoded String.[] n = n
decoded (String.◌∷◌ c s) n = decoded s (n * 32 + place_in crockford (code c) 0)

unfoldable pub decode : String → ℕ
unfolding decoded
decode id = decoded id 0

-- What holds of the numbers below a bound.
all_below : ℕ → (ℕ → Bool) → Bool
all_below zero p = true
all_below (suc n) p = all_below n p && p n

all_below_lem : (n : ℕ) (p : ℕ → Bool) (k : ℕ) → all_below n p ≡ true → k < n → p k ≡ true
unfolding all_below
all_below_lem zero p k h lt = absurd (omega arith)
all_below_lem (suc n) p k h lt =
    let q = and_parts (all_below n p) (p n) h in
    elim (Bool-cases (k == n)) [
      | inl e ↦ subst (λ m. p m ≡ true) (sym (eqb→eq k n e)) q.1
      | inr e ↦ all_below_lem n p k q.0 (ground arith)
    ]

digits_place : all_below 32 (λ d. place_in crockford (code (nth_rune crockford d)) 0 == d) ≡ true
unfolding all_below place_in crockford nth_rune
digits_place = refl

digits_crockford : all_below 32 (λ d. crockford_rune (code (nth_rune crockford d))) ≡ true
unfolding all_below crockford nth_rune
digits_crockford = refl

digit_lem : (n : ℕ) → digit n ≡ nth_rune crockford (n % 32)
unfolding digit
digit_lem n = elim (Bool-cases (n == 0)) [
  | inl e ↦ let z = eqb→eq n 0 e in rw e (ap (λ m. nth_rune crockford (m % 32)) (sym z))
  | inr e ↦ rw e refl
]

place_digit : (n : ℕ) → place_in crockford (code (digit n)) 0 ≡ n % 32
place_digit n =
    ap (λ c. place_in crockford (code c) 0) (digit_lem n)
    ∙ eqb→eq _ _ (
        all_below_lem 32 (λ d. place_in crockford (code (nth_rune crockford d)) 0 == d) (n % 32)
          digits_place (omega arith))

digit_crockford : (n : ℕ) → crockford_rune (code (digit n)) ≡ true
digit_crockford n =
    ap (λ c. crockford_rune (code c)) (digit_lem n)
    ∙ all_below_lem 32 (λ d. crockford_rune (code (nth_rune crockford d))) (n % 32) digits_crockford
        (omega arith)

-- How many numbers some places can spell.
spelled : ℕ → ℕ
spelled zero = 1
spelled (suc i) = 32 * spelled i

decoded_cons :
    (c : Char) (s : String) (m : ℕ)
    → decoded (String.◌∷◌ c s) m ≡ decoded s (m * 32 + place_in crockford (code c) 0)
unfolding decoded
decoded_cons c s m = refl

all_runes_cons :
    (c : Char) (s : String)
    → crockford_rune (code c) ≡ true
    → all_runes crockford_rune s ≡ true
    → all_runes crockford_rune (String.◌∷◌ c s) ≡ true
unfolding all_runes
all_runes_cons c s h t = rw (h, t) refl

encode_from-decoded :
    (i n : ℕ) (out : String) → n < spelled i → decoded (encode_from i n out) 0 ≡ decoded out n
unfolding encode_from spelled
encode_from-decoded zero n out h = let z : 0 ≡ n = omega arith in ap (decoded out) z
encode_from-decoded (suc i) n out h =
    encode_from-decoded i (n / 32) (String.◌∷◌ (digit n) out) (omega arith)
    ∙ decoded_cons (digit n) out (n / 32)
    ∙ ap (decoded out) (omega (arith, place_digit n))

encode_from-crockford :
    (i n : ℕ) (out : String)
    → all_runes crockford_rune out ≡ true
    → all_runes crockford_rune (encode_from i n out) ≡ true
unfolding encode_from
encode_from-crockford zero n out h = h
encode_from-crockford (suc i) n out h =
    encode_from-crockford i (n / 32) (String.◌∷◌ (digit n) out)
      (all_runes_cons (digit n) out (digit_crockford n) h)

encode_from-count : (i n : ℕ) (out : String) → rune_count (encode_from i n out) ≡ i + rune_count out
unfolding encode_from
encode_from-count zero n out = omega arith
encode_from-count (suc i) n out =
    encode_from-count i (n / 32) (String.◌∷◌ (digit n) out)
    ∙ omega (arith, count.cons (digit n) out)

-- Every id is valid.
pub encode_base32_fixed_valid : (b : Bytes) → valid_id (encode_base32_fixed b) ≡ true
unfolding valid_id encode_base32_fixed
encode_base32_fixed_valid b =
    rw (encode_from-crockford 26 (set_bytes b 0) "" refl, encode_from-count 26 (set_bytes b 0) "")
      refl

abbrev IsByte : ℕ → Type 0
IsByte b = b < 256

-- How many numbers some bytes can be.
room : ℕ → ℕ
room zero = 1
room (suc n) = 256 * room n

set_bytes-lt : (b : Bytes) (n : ℕ) → All IsByte b → suc (set_bytes b n) ≤ (n + 1) * room (length b)
unfolding room
set_bytes-lt [] n h = omega arith
set_bytes-lt (x ∷ b) n h =
    let rest = set_bytes-lt b (n * 256 + x) h.1 in
    let step : n * 256 + x + 1 ≤ (n + 1) * 256 = omega (arith, h.0) in
    let grown : (n * 256 + x + 1) * room (length b) ≤ (n + 1) * 256 * room (length b) =
      mul-le-mul_right (room (length b)) step in
    omega (arith, rest, grown, mul_assoc (n + 1) 256 (room (length b)))

room_fits : room 16 ≤ spelled 26
unfolding room spelled
room_fits = omega arith

-- What an id spells is the number of its bytes, where these are sixteen.
pub decode-encode_base32_fixed :
    (b : Bytes) → All IsByte b → length b ≡ 16 → decode (encode_base32_fixed b) ≡ set_bytes b 0
unfolding decode encode_base32_fixed decoded
decode-encode_base32_fixed b h l =
    let r : suc (set_bytes b 0) ≤ (0 + 1) * room 16 =
      subst (λ k. suc (set_bytes b 0) ≤ (0 + 1) * room k) l (set_bytes-lt b 0 h) in
    encode_from-decoded 26 (set_bytes b 0) "" (omega (arith, r, room_fits))
