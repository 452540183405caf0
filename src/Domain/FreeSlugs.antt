-- ===== src/Domain/FreeSlugs.antt =====
-- The slug that `uniqueCanonicalSlug` finds.
use workitem.Common.{
  ℕ, suc, zero, ◌+◌, ◌-◌, ◌≡◌, ◌∙◌, refl, sym, ap, String, false, not, ◌&&◌, List, [], ◌∷◌,
  contains, In, inl, inr, Bool-cases, str_eq,
}
use workitem.Strings.{is_empty, concat, byte_length, decimal, take_runes, trim_hyphens}
use workitem.Model.Error.{Ensures, Ensures-if}
use workitem.Model.Manifest.{Manifest, is_closed}
use workitem.Model.Slug.{max_slug_length}
use workitem.Domain.Slugs.{
  used_slugs, numbered_slug, free_slug, slug_rounds, or_item, unique_canonical_slug,
}

-- A slug that is not empty and not used.
abbrev pub IsFree : List String → String → Type 0
IsFree used s = (contains used s ≡ false) × (is_empty s ≡ false)

concat-not_empty : (a b : String) → is_empty b ≡ false → is_empty (concat a b) ≡ false
unfolding concat is_empty
concat-not_empty String.[] b h = h
concat-not_empty (String.◌∷◌ c a) b h = refl

numbered_slug-not_empty : (base : String) (index : ℕ) → is_empty (numbered_slug base index) ≡ false
unfolding numbered_slug is_empty
numbered_slug-not_empty base index =
    concat-not_empty
      (trim_hyphens
        (take_runes (max_slug_length - byte_length (String.◌∷◌ "-" (decimal index))) base))
      (String.◌∷◌ "-" (decimal index)) refl

free_slug-IsFree :
    (rounds : ℕ) (used : List String) (base : String) (index : ℕ)
    → Ensures (IsFree used) (free_slug rounds used base index)
unfolding free_slug
free_slug-IsFree zero used base index = tt
free_slug-IsFree (suc rounds) used base index =
    Ensures-if (IsFree used) (contains used (numbered_slug base index)) _ _
      (λ _. free_slug-IsFree rounds used base (index + 1))
      λ free. (free, numbered_slug-not_empty base index)

item_not_empty : is_empty "item" ≡ false
unfolding is_empty
item_not_empty = refl

or_item-not_empty : (base : String) → is_empty (or_item base) ≡ false
or_item-not_empty base = elim (Bool-cases (is_empty base)) [
  | inl e ↦ rw e (item_not_empty)
  | inr e ↦ rw e e
]

pub unique_canonical_slug-IsFree :
    (base item_id : String) (all : List Manifest)
    → Ensures (IsFree (used_slugs item_id all)) (unique_canonical_slug base item_id all)
unfolding unique_canonical_slug
unique_canonical_slug-IsFree base item_id all =
    Ensures-if (IsFree (used_slugs item_id all)) (contains (used_slugs item_id all) (or_item base))
      _ _ (λ _. free_slug-IsFree slug_rounds (used_slugs item_id all) (or_item base) 2)
      λ free. (free, or_item-not_empty base)

-- The set `used` holds the slug of each other item that is not closed.
pub used_slugs-In :
    (item_id : String) (all : List Manifest) (o : Manifest)
    → In o all
    → str_eq o.id item_id ≡ false
    → is_closed o.state ≡ false
    → is_empty o.slug ≡ false
    → In o.slug (used_slugs item_id all)
unfolding used_slugs
used_slugs-In item_id [] o i other state named = elim i [ ]
used_slugs-In item_id (m ∷ ms) o (inl p) other state named =
    let id : str_eq m.id item_id ≡ false =
      ap (λ (m : Manifest). str_eq m.id item_id) (sym p) ∙ other in
    let state' : is_closed m.state ≡ false =
      ap (λ (m : Manifest). is_closed m.state) (sym p) ∙ state in
    let slug : is_empty m.slug ≡ false = ap (λ (m : Manifest). is_empty m.slug) (sym p) ∙ named in
    rw (id, state', slug) (inl (ap (λ (m : Manifest). m.slug) p))
used_slugs-In item_id (m ∷ ms) o (inr i) other state named =
    let rest = used_slugs-In item_id ms o i other state named in
    elim (Bool-cases
      (not (str_eq m.id item_id) && not (is_closed m.state) && not (is_empty m.slug))) [
        | inl e ↦ rw e (inr rest)
        | inr e ↦ rw e rest
      ]
