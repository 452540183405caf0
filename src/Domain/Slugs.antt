-- ===== src/Domain/Slugs.antt =====
-- Slugs of open items: `uniqueCanonicalSlug` of internal/coordinator/domain.go.
use workitem.Common.{
  ℕ, zero, suc, ◌+◌, ◌-◌, String, not, ◌&&◌, List, [], ◌∷◌, contains, str_eq, if◌then◌else◌,
}
use workitem.Strings.{byte_length, concat, decimal, is_empty, take_runes, trim_hyphens}
use workitem.Model.Error.{Error, Result, ok, fail}
use workitem.Model.Manifest.{Manifest, is_closed}
use workitem.Model.Slug.{max_slug_length}

-- The set `used`: the slugs of the other items that are not closed.
unfoldable pub used_slugs : String → List Manifest → List String
unfolding is_empty
used_slugs item_id [] = []
used_slugs item_id (m ∷ ms) =
    let rest = used_slugs item_id ms in
    if not (str_eq m.id item_id) && not (is_closed m.state) && not (is_empty m.slug)
    then m.slug ∷ rest
    else rest

-- `strings.Trim(base[:min(len(base), limit)], "-") + suffix`. The base is a slug, so its runes are
-- its bytes.
unfoldable pub numbered_slug : String → ℕ → String
unfolding trim_hyphens take_runes concat decimal
numbered_slug base index =
    let suffix = String.◌∷◌ "-" (decimal index) in
    concat (trim_hyphens (take_runes (max_slug_length - byte_length suffix) base)) suffix

-- The loop, for the rounds that are left.
unfoldable pub free_slug : ℕ → List String → String → ℕ → Result String
free_slug zero used base index = fail Error.no_unique_slug
free_slug (suc rounds) used base index =
    let rest = free_slug rounds used base (index + 1) in
    if contains used (numbered_slug base index) then rest else ok (numbered_slug base index)

-- `index` runs from 2 to 10000.
abbrev pub slug_rounds : ℕ
slug_rounds = 9999

abbrev pub or_item : String → String
or_item base = if is_empty base then "item" else base

unfoldable pub unique_canonical_slug : String → String → List Manifest → Result String
unique_canonical_slug base item_id all =
    let used = used_slugs item_id all in
    let numbered = free_slug slug_rounds used (or_item base) 2 in
    if contains used (or_item base) then numbered else ok (or_item base)
