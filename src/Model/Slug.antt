-- ===== src/Model/Slug.antt =====
-- Slugs: internal/model/slug.go.
use Prim.Native.Char.{Char, code}
use workitem.Common.{
  ℕ, zero, suc, ◌+◌, ◌-◌, String, Bool, false, not, ◌&&◌, ◌||◌, Option, none, some, ltb, leb, ◌==◌,
  str_eq, if◌then◌else◌,
}
use workitem.Strings.{
  trim_space, trim_hyphens, to_lower, is_space, is_empty, byte_length, concat, take_runes,
}
use workitem.Model.Label.{RuneClass, lower_or_digit}

abbrev pub max_slug_length : ℕ
max_slug_length = 60

unfoldable pub slug_class : ℕ → RuneClass
slug_class c =
    if lower_or_digit c
    then RuneClass.kept
    else if is_space c || c == b'-' || c == b'_' || c == b'/' || c == b'.'
    then RuneClass.gap
    else RuneClass.other

-- One round of the loop: the rune that it writes, for `b.Len() > 0` and `lastHyphen`.
abbrev pub slug_writes : RuneClass → Bool → Bool → Char → Option Char
slug_writes RuneClass.kept started last_hyphen c = some c
slug_writes RuneClass.gap started last_hyphen c =
    if started && not last_hyphen then some "-" else none
slug_writes RuneClass.other started last_hyphen c = none

abbrev pub slug_hyphen : RuneClass → Bool → Bool → Bool
slug_hyphen RuneClass.kept started last_hyphen = false
slug_hyphen RuneClass.gap started last_hyphen = last_hyphen || started
slug_hyphen RuneClass.other started last_hyphen = last_hyphen

abbrev pub write : Option Char → String → String
write none rest = rest
write (some c) rest = String.◌∷◌ c rest

abbrev pub written : Option Char → ℕ
written none = 0
written (some c) = 1

-- The loop over the runes, for `b.Len()` and `lastHyphen`: what it still writes. It writes ASCII,
-- so each rune is a byte.
unfoldable pub slug_loop : ℕ → Bool → String → String
slug_loop len last_hyphen String.[] = ""
slug_loop len last_hyphen (String.◌∷◌ c s) =
    let class = slug_class (code c) in
    let out = slug_writes class (ltb 0 len) last_hyphen c in
    let rest = slug_loop (len + written out) (slug_hyphen class (ltb 0 len) last_hyphen) s in
    write out (if leb max_slug_length (len + written out) then "" else rest)

unfoldable pub slugify : String → String
slugify title =
    let slug = trim_hyphens (slug_loop 0 false (to_lower title)) in
    if is_empty slug then "item" else slug

-- The result and whether the input was a slug already; an empty input is none.
unfoldable pub normalize_slug_selector : String → String × Bool
normalize_slug_selector value =
    let value' = to_lower (trim_space value) in
    if is_empty value' then ("", false) else (slugify value', str_eq (slugify value') value')

abbrev pub branch_id_suffix_length : ℕ
branch_id_suffix_length = 8

-- `suffix[len(suffix)-8:]`, of an id in ASCII.
unfoldable pub drop_runes : ℕ → String → String
drop_runes zero s = s
drop_runes (suc n) String.[] = ""
drop_runes (suc n) (String.◌∷◌ c s) = drop_runes n s

unfoldable pub item_id_suffix : String → String
unfolding drop_runes
item_id_suffix id =
    let lowered = to_lower (trim_space id) in
    let suffix = drop_runes (byte_length lowered - branch_id_suffix_length) lowered in
    if is_empty suffix then "item" else suffix

unfoldable pub item_branch_name : String → String → String
item_branch_name slug id = concat "wi/" (concat (slugify slug) (concat "-" (item_id_suffix id)))

unfoldable pub id_derived_slug : String → String
id_derived_slug id = concat "item-" (item_id_suffix id)

abbrev or_unnamed : String → String
or_unnamed id = if is_empty (trim_space id) then "item" else trim_space id

-- `id[:12]`, of an id in ASCII.
unfoldable pub terminal_session_name : String → String
terminal_session_name id = concat "wi-" (take_runes 12 (or_unnamed id))
