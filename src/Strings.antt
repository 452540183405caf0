-- ===== src/Strings.antt =====
-- The Go string functions that the program calls, on texts. A Go string that comes through JSON is
-- valid UTF-8, so a text is a list of runes; `len` counts the bytes of its UTF-8 form.
use Prim.Native.Char.{Char, code, nul}
use Prim.Native.String.{len, count}
use text.Mathlib.Text.{is_lt}
use Prim.Native.String.{compare as compare_text}
use workitem.Common.{
  ℕ, zero, suc, ◌-◌, ◌/◌, ◌%◌, String, Bool, true, false, ◌≡◌, refl, ◌&&◌, ◌||◌, ltb, leb, ◌==◌,
  if◌then◌else◌, not, str_eq,
}

-- `len(s)`
abbrev pub byte_length : String → ℕ
byte_length s = len s

-- `utf8.RuneCountInString(s)`
abbrev pub rune_count : String → ℕ
rune_count s = count s

-- `a < b` on Go strings: bytewise, which on UTF-8 is the order of the runes.
unfoldable pub str_lt : String → String → Bool
str_lt a b = is_lt (compare_text a b)

abbrev between : ℕ → ℕ → ℕ → Bool
between lo hi c = leb lo c && leb c hi

-- `unicode.IsControl`: category Cc.
unfoldable pub is_control : ℕ → Bool
is_control c = ltb c 0x20 || between 0x7f 0x9f c

-- `unicode.IsSpace`: the White_Space property.
unfoldable pub is_space : ℕ → Bool
is_space c =
    between 0x09 0x0d c
    || c == 0x20
    || c == 0x85
    || c == 0xa0
    || c == 0x1680
    || between 0x2000 0x200a c
    || c == 0x2028
    || c == 0x2029
    || c == 0x202f
    || c == 0x205f
    || c == 0x3000

-- Whether some rune, or every rune, passes a test.
unfoldable pub any_rune : (ℕ → Bool) → String → Bool
any_rune p String.[] = false
any_rune p (String.◌∷◌ c s) = p (code c) || any_rune p s

unfoldable pub all_runes : (ℕ → Bool) → String → Bool
all_runes p String.[] = true
all_runes p (String.◌∷◌ c s) = p (code c) && all_runes p s

-- `strings.IndexFunc(s, unicode.IsControl) >= 0`
unfoldable pub has_control : String → Bool
unfolding any_rune is_control
has_control s = any_rune is_control s

unfoldable pub is_empty : String → Bool
is_empty String.[] = true
is_empty (String.◌∷◌ c s) = false

-- `strings.TrimLeftFunc`, `strings.TrimRightFunc` and `strings.TrimFunc`
unfoldable pub trim_left : (ℕ → Bool) → String → String
trim_left p String.[] = ""
trim_left p (String.◌∷◌ c s) = if p (code c) then trim_left p s else String.◌∷◌ c s

abbrev pub drop_last : (ℕ → Bool) → Char → String → String
drop_last p c rest = if p (code c) && is_empty rest then "" else String.◌∷◌ c rest

unfoldable pub trim_right : (ℕ → Bool) → String → String
trim_right p String.[] = ""
trim_right p (String.◌∷◌ c s) = drop_last p c (trim_right p s)

unfoldable pub trim : (ℕ → Bool) → String → String
unfolding trim_left trim_right is_empty
trim p s = trim_right p (trim_left p s)

-- `strings.TrimSpace`
unfoldable pub trim_space : String → String
unfolding trim is_space
trim_space s = trim is_space s

-- `strings.Trim(s, "-")`
unfoldable pub trim_hyphens : String → String
unfolding trim
trim_hyphens s = trim (λ c. c == b'-') s

-- The first runes of a text, which in ASCII are its first bytes.
unfoldable pub take_runes : ℕ → String → String
take_runes zero s = ""
take_runes (suc n) String.[] = ""
take_runes (suc n) (String.◌∷◌ c s) = String.◌∷◌ c (take_runes n s)

-- `s + t`
unfoldable pub concat : String → String → String
concat String.[] t = t
concat (String.◌∷◌ c s) t = String.◌∷◌ c (concat s t)

unfoldable pub nth_rune : String → ℕ → Char
nth_rune String.[] i = nul
nth_rune (String.◌∷◌ c s) zero = c
nth_rune (String.◌∷◌ c s) (suc i) = nth_rune s i

-- `unicode.ToLower`, as far as the program's tests tell runes apart: the letters A to Z, and the two
-- other runes whose lower case is in ASCII. The rest, whose lower case is no ASCII rune and no white
-- space, is left as it is.
unfoldable pub lower_rune : Char → Char
unfolding nth_rune
lower_rune c =
    if leb b'A' (code c) && leb (code c) b'Z'
    then nth_rune "abcdefghijklmnopqrstuvwxyz" (code c - b'A')
    else (if code c == 0x130 then "i" else if code c == 0x212a then "k" else c)

-- `strings.ToLower`
unfoldable pub to_lower : String → String
unfolding lower_rune
to_lower String.[] = ""
to_lower (String.◌∷◌ c s) = String.◌∷◌ (lower_rune c) (to_lower s)

-- The decimal digits of a number below 10 ^ fuel, in front of `rest`.
decimal_from : ℕ → ℕ → String → String
decimal_from zero n rest = rest
decimal_from (suc fuel) n rest =
    let rest' = String.◌∷◌ (nth_rune "0123456789" (n % 10)) rest in
    let more = decimal_from fuel (n / 10) rest' in if n / 10 == 0 then rest' else more

-- `%d` of a number below 10 ^ 20, as every 64-bit number is.
unfoldable pub decimal : ℕ → String
unfolding decimal_from nth_rune
decimal n = decimal_from 20 n ""

trim_space-test : trim_space "  a b\n" ≡ "a b"
unfolding trim_space
trim_space-test = refl

-- `compactIdentifier(value, limit) == value` of internal/coordinator/projections.go: the function
-- trims, drops control characters and cuts off at `limit` bytes, each of which shortens the text.
unfoldable pub is_compact : String → ℕ → Bool
is_compact value limit =
    str_eq (trim_space value) value && not (has_control value) && leb (byte_length value) limit

lower_and_decimal : concat (to_lower "Add-API Ö") (decimal 10305) ≡ "add-api Ö10305"
unfolding concat to_lower decimal
lower_and_decimal = refl
