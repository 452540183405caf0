-- ===== src/Model/Id.antt =====
-- The ids of internal/model/id.go.
use workitem.Common.{
  ℕ, zero, suc, ◌+◌, ◌*◌, ◌-◌, ◌/◌, ◌%◌, ◌^◌, String, Bool, Option, none, some, List, [], ◌∷◌, ◌++◌,
  length, ltb, ◌==◌, if◌then◌else◌,
}
use Prim.Native.Char.{Char}
use workitem.Strings.{nth_rune}
use workitem.Model.Error.{Error, Result, ok, fail}
use workitem.Content.Bytes.{Bytes, take, has_prefix}

unfoldable pub crockford : String
crockford = "0123456789ABCDEFGHJKMNPQRSTVWXYZ"

-- `n.SetBytes(b)` behind the number of the bytes before.
abbrev pub set_bytes : Bytes → ℕ → ℕ
set_bytes [] n = n
set_bytes (b ∷ bytes) n = set_bytes bytes (n * 256 + b)

-- One rune of the result.
unfoldable pub digit : ℕ → Char
unfolding crockford nth_rune
digit n = if n == 0 then nth_rune crockford 0 else nth_rune crockford (n % 32)

-- The loop of `encodeBase32Fixed`, which fills in the places from the last one.
unfoldable pub encode_from : ℕ → ℕ → String → String
unfolding digit
encode_from zero n out = out
encode_from (suc i) n out = encode_from i (n / 32) (String.◌∷◌ (digit n) out)

unfoldable pub encode_base32_fixed : Bytes → String
unfolding encode_from
encode_base32_fixed b = encode_from 26 (set_bytes b 0) ""

-- `byte(ms >> 40)` and so on.
abbrev pub time_bytes : ℕ → Bytes
time_bytes ms =
    (ms / 2 ^ 40 % 256)
    ∷ (ms / 2 ^ 32 % 256)
    ∷ (ms / 2 ^ 24 % 256)
    ∷ (ms / 2 ^ 16 % 256)
    ∷ (ms / 2 ^ 8 % 256)
    ∷ (ms % 256)
    ∷ []

-- The clock and what is read of the entropy, ten bytes or an error, are arguments.
unfoldable pub new_id_with : ℕ → Option Bytes → Result String
unfolding encode_base32_fixed
new_id_with ms none = fail Error.entropy_failed
new_id_with ms (some entropy) = ok (encode_base32_fixed (time_bytes ms ++ entropy))

-- Ids as their bytes, for display. The loop over the ids in `prefixUnique`.
abbrev pub matches : Bytes → List Bytes → ℕ
matches p [] = 0
matches p (other ∷ ids) = let rest = matches p ids in if has_prefix other p then rest + 1 else rest

unfoldable pub prefix_unique : Bytes → List Bytes → ℕ → Bool
unfolding has_prefix
prefix_unique id ids prefix_len = matches (take prefix_len id) ids == 1

-- The loop of `UniqueIDPrefixes` for one id, on as many rounds as are left of its length.
unfoldable pub lengthened : ℕ → Bytes → List Bytes → ℕ → ℕ
unfolding prefix_unique
lengthened zero id ids prefix_len = prefix_len
lengthened (suc rounds) id ids prefix_len =
    let longer = lengthened rounds id ids (prefix_len + 1) in
    if prefix_unique id ids prefix_len then prefix_len else longer

abbrev pub at_most : ℕ → ℕ → ℕ
at_most a b = if ltb b a then b else a

abbrev pub at_least_one : ℕ → ℕ
at_least_one min = if ltb min 1 then 1 else min

-- `out[id]` of `UniqueIDPrefixes`
unfoldable pub unique_id_prefix : List Bytes → ℕ → Bytes → Bytes
unfolding lengthened
unique_id_prefix ids min id =
    let start = at_most (at_least_one min) (length id) in
    take (lengthened (length id - start) id ids start) id
