-- ===== src/Content/Bytes.antt =====
-- Go strings as their bytes, for texts that are cut at a number of bytes
-- (agentdriver/protocol/content.go).
use Prim.Native.Char.{code}
use workitem.Common.{
  ℕ, zero, suc, ◌+◌, ◌-◌, ◌/◌, ◌%◌, ◌≡◌, refl, String, Bool, true, false, not, ◌&&◌, ◌||◌, List, [],
  ◌∷◌, ◌++◌, ltb, leb, ◌==◌, if◌then◌else◌,
}

abbrev pub Bytes : Type 0
Bytes = List ℕ

-- `utf8.RuneStart`
abbrev pub rune_start : ℕ → Bool
rune_start b = not (leb 0x80 b && ltb b 0xc0)

-- `s[i]`, and 0 out of range.
abbrev pub byte_at : Bytes → ℕ → ℕ
byte_at [] i = 0
byte_at (b ∷ s) zero = b
byte_at (b ∷ s) (suc i) = byte_at s i

-- `s[:n]`
abbrev pub take : ℕ → Bytes → Bytes
take zero s = []
take (suc n) [] = []
take (suc n) (b ∷ s) = b ∷ take n s

unfoldable pub bytes_eq : Bytes → Bytes → Bool
bytes_eq [] [] = true
bytes_eq [] (c ∷ t) = false
bytes_eq (b ∷ s) [] = false
bytes_eq (b ∷ s) (c ∷ t) = b == c && bytes_eq s t

abbrev pub no_bytes : Bytes → Bool
no_bytes [] = true
no_bytes (b ∷ s) = false

-- `strings.HasPrefix(s, prefix)`
unfoldable pub has_prefix : Bytes → Bytes → Bool
has_prefix s [] = true
has_prefix [] (p ∷ prefix) = false
has_prefix (b ∷ s) (p ∷ prefix) = b == p && has_prefix s prefix

-- The bytes of a Go string literal.
encode_rune : ℕ → Bytes
encode_rune c =
    if ltb c 0x80
    then c ∷ []
    else if ltb c 0x800
    then (0xc0 + c / 64) ∷ (0x80 + c % 64) ∷ []
    else if ltb c 0x10000
    then (0xe0 + c / 4096) ∷ (0x80 + c / 64 % 64) ∷ (0x80 + c % 64) ∷ []
    else (0xf0 + c / 262144) ∷ (0x80 + c / 4096 % 64) ∷ (0x80 + c / 64 % 64) ∷ (0x80 + c % 64) ∷ []

unfoldable pub utf8 : String → Bytes
unfolding encode_rune
utf8 String.[] = []
utf8 (String.◌∷◌ c s) = encode_rune (code c) ++ utf8 s

-- The loop of `boundedContentText` and of `boundedContentField`: the end of the text moves back to the
-- start of a rune.
unfoldable pub rune_end : Bytes → ℕ → ℕ
rune_end text zero = zero
rune_end text (suc n) =
    let before = rune_end text n in if rune_start (byte_at text (suc n)) then suc n else before

-- The loop of `boundedThought`: the text behind its first bytes that start no rune.
abbrev pub from_rune : Bytes → Bytes
from_rune [] = []
from_rune (b ∷ s) = let behind = from_rune s in if rune_start b then b ∷ s else behind

-- How many bytes of white space, as `unicode.IsSpace` has it, the text starts with.
unfoldable pub space_length : Bytes → ℕ
space_length s =
    let a = byte_at s 0 in
    let b = byte_at s 1 in
    let c = byte_at s 2 in
    if leb 0x09 a && leb a 0x0d || a == 0x20
    then 1
    else if a == 0xc2 && (b == 0x85 || b == 0xa0)
    then 2
    else if a == 0xe1 && b == 0x9a && c == 0x80
        || a == 0xe2
          && b == 0x80
          && (leb 0x80 c && leb c 0x8a || c == 0xa8 || c == 0xa9 || c == 0xaf)
        || a == 0xe2 && b == 0x81 && c == 0x9f
        || a == 0xe3 && b == 0x80 && c == 0x80
    then 3
    else 0

-- `strings.Join(strings.Fields(s), " ")` of a valid text. `space` is what stands before the next word,
-- and `skip` counts the bytes that are left of a run of white space.
unfoldable pub joined_fields : Bytes → Bool → ℕ → Bytes → Bytes
unfolding space_length
joined_fields space gap skip [] = []
joined_fields space gap (suc skip) (b ∷ s) = joined_fields space true skip s
joined_fields space gap zero (b ∷ s) =
    let rest = joined_fields space true (space_length (b ∷ s) - 1) s in
    let word = joined_fields (0x20 ∷ []) false zero s in
    if space_length (b ∷ s) == 0 then (if gap then space else []) ++ (b ∷ word) else rest

unfoldable pub joined_words : Bytes → Bytes
unfolding joined_fields
joined_words s = joined_fields [] true zero s

joined_words-test : joined_words (utf8 "  a\n b\u{a0}\u{2003}cö ") ≡ utf8 "a b cö"
unfolding joined_words utf8
joined_words-test = refl
