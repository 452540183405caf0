-- ===== src/Tests/Ids.antt =====
-- Ids: a coded one, and three that are shown by prefixes. And a slug.
use workitem.Common.{◌≡◌, ◌⊎◌, refl, true, false, some, List, [], ◌∷◌, ◌++◌, ◌==◌, ◌≤◌, arith}
use workitem.Strings.{nth_rune, rune_count, all_runes, is_empty}
use workitem.Model.Slug.{slugify}
use workitem.Model.SlugForm.{slug_rune, slugify_lem}
use workitem.Model.Error.{ok}
use workitem.Model.Blocker.{valid_id}
use workitem.Model.Id.{
  crockford, digit, encode_from, encode_base32_fixed, time_bytes, new_id_with, set_bytes, matches,
  prefix_unique, lengthened, unique_id_prefix,
}
use workitem.Model.Decoding.{decode, encode_base32_fixed_valid, decode-encode_base32_fixed}
use workitem.Model.Prefixes.{unique_id_prefix-matches, unique_id_prefix-length}
use workitem.Content.Bytes.{Bytes, take, utf8, has_prefix}

program : Unit {0}
unfolding crockford nth_rune digit encode_from encode_base32_fixed new_id_with has_prefix utf8
    prefix_unique lengthened unique_id_prefix
program = tt

abbrev entropy : Bytes
entropy = 1 ∷ 2 ∷ 3 ∷ 4 ∷ 5 ∷ 6 ∷ 7 ∷ 8 ∷ 9 ∷ 255 ∷ []

abbrev id_bytes : Bytes
id_bytes = time_bytes 1_700_000_000_000 ++ entropy

made : new_id_with 1_700_000_000_000 (some entropy) ≡ ok "01HF7YAT00041061050R3GG2FZ"
unfolding program
made = refl

encode_base32_fixed_valid_example : valid_id (encode_base32_fixed id_bytes) ≡ true
encode_base32_fixed_valid_example = encode_base32_fixed_valid id_bytes

decode-encode_base32_fixed_example : decode (encode_base32_fixed id_bytes) ≡ set_bytes id_bytes 0
decode-encode_base32_fixed_example = decode-encode_base32_fixed id_bytes (omega arith) refl

abbrev ids : List Bytes
ids = utf8 "01ABC" ∷ utf8 "01ABD" ∷ utf8 "02" ∷ []

shown : unique_id_prefix ids 2 (utf8 "02") ≡ utf8 "02"
unfolding program
shown = refl

shown_long : unique_id_prefix ids 2 (utf8 "01ABD") ≡ utf8 "01ABD"
unfolding program
shown_long = refl

unique_id_prefix-matches_example :
    (unique_id_prefix ids 2 (utf8 "02") ≡ utf8 "02")
    ⊎ (matches (unique_id_prefix ids 2 (utf8 "02")) ids ≡ 1)
unique_id_prefix-matches_example = unique_id_prefix-matches ids 2 (utf8 "02")

unique_id_prefix-length_example : (matches (take 3 (utf8 "01ABD")) ids == 1) ≡ false
unfolding program
unique_id_prefix-length_example =
    unique_id_prefix-length ids 2 (utf8 "01ABD") 3 (omega arith) (omega arith) (omega arith)

slugify_lem_example :
    (rune_count (slugify "Fix: the API!") ≤ 60)
    × (all_runes slug_rune (slugify "Fix: the API!") ≡ true)
    × (is_empty (slugify "Fix: the API!") ≡ false)
slugify_lem_example = slugify_lem "Fix: the API!"
