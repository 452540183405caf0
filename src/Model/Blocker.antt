-- ===== src/Model/Blocker.antt =====
-- Blockers: internal/model/lifecycle.go. An instant is a number of nanoseconds since Go's zero
-- time, 1 January of year 1 in UTC, so `IsZero` is `== 0` and `UTC` changes nothing.
use workitem.Common.{
  ℕ, String, Bool, true, false, not, ◌&&◌, ◌||◌, Option, none, some, List, [], ◌∷◌, ltb, leb, ◌==◌,
  if◌then◌else◌, length, Map, str_eq,
}
use Prim.Native.Char.{code}
use workitem.Strings.{byte_length, rune_count, has_control, all_runes, trim_space, is_empty}
use workitem.Model.Error.{Error, Result, ok, refuse_if, ◌>>◌}

abbrev pub Time : Type 0
Time = ℕ

-- `t.After(u)`
abbrev pub after : Time → Time → Bool
after t u = ltb u t

pub data BlockerKind : Type 0 where
  time item external : BlockerKind
  other_kind : String → BlockerKind

-- `meta` is a map with string keys; a nil map and an empty one are both `[]`.
pub record Blocker : Type 0 where
  pub id : String
  pub kind : BlockerKind
  pub until : Option Time
  pub item_id : String
  pub event : String
  pub label : String
  pub meta : Map String
  pub created_at : Time

abbrev pub is_time : BlockerKind → Bool
is_time BlockerKind.time = true
is_time _ = false

abbrev pub is_item : BlockerKind → Bool
is_item BlockerKind.item = true
is_item _ = false

abbrev pub is_external : BlockerKind → Bool
is_external BlockerKind.external = true
is_external _ = false

-- `until != nil && until.After(now)`
abbrev pub is_future : Option Time → Time → Bool
is_future none now = false
is_future (some until) now = after until now

unfoldable pub is_open : Blocker → Time → Bool
is_open b now = if is_time b.kind then is_future b.until now else true

unfoldable pub open_blockers : List Blocker → Time → List Blocker
unfolding is_open
open_blockers [] now = []
open_blockers (b ∷ bs) now =
    let rest = open_blockers bs now in if is_open b now then b ∷ rest else rest

unfoldable pub waiting : List Blocker → Time → Bool
unfolding open_blockers
waiting bs now = ltb 0 (length (open_blockers bs now))

abbrev max_blocker_event_length : ℕ
max_blocker_event_length = 200

abbrev max_blocker_label_length : ℕ
max_blocker_label_length = 40

abbrev max_blocker_meta_keys : ℕ
max_blocker_meta_keys = 16

abbrev max_blocker_meta_value : ℕ
max_blocker_meta_value = 256

unfoldable pub valid_blocker_kind : BlockerKind → Bool
valid_blocker_kind k = is_time k || is_item k || is_external k

abbrev lower_or_digit : ℕ → Bool
lower_or_digit c = leb b'a' c && leb c b'z' || leb b'0' c && leb c b'9'

-- `^[a-z0-9][a-z0-9_.-]{0,63}$`
unfoldable pub blocker_meta_key : String → Bool
unfolding all_runes
blocker_meta_key String.[] = false
blocker_meta_key (String.◌∷◌ c s) =
    lower_or_digit (code c)
    && all_runes (λ r. lower_or_digit r || r == b'_' || r == b'.' || r == b'-') s
    && leb (rune_count s) 63

abbrev pub crockford_rune : ℕ → Bool
crockford_rune c =
    leb b'0' c && leb c b'9'
    || leb b'A' c && leb c b'H'
    || c == b'J'
    || c == b'K'
    || c == b'M'
    || c == b'N'
    || leb b'P' c && leb c b'T'
    || leb b'V' c && leb c b'Z'

-- `^[0-9A-HJKMNP-TV-Z]{26}$`, of internal/model/id.go
unfoldable pub valid_id : String → Bool
unfolding all_runes
valid_id s = all_runes crockford_rune s && rune_count s == 26

-- The loop over `b.Meta`. Go visits a map in any order; only the choice of the error depends on it.
unfoldable pub validate_meta : Map String → Result (Unit {0})
unfolding blocker_meta_key has_control
validate_meta [] = ok tt
validate_meta ((key, value) ∷ rest) = do
  refuse_if (not (blocker_meta_key key)) Error.invalid_meta_key
  refuse_if (ltb max_blocker_meta_value (byte_length value) || has_control value)
      Error.invalid_meta_value
  validate_meta rest

abbrev is_none {ℓ} : {A : Type ℓ} → Option A → Bool
is_none none = true
is_none (some a) = false

-- The `switch b.Kind` of `ValidateBlocker`.
unfoldable pub validate_kind : BlockerKind → Blocker → String → Time → Result (Unit {0})
validate_kind BlockerKind.time b item_id now = do
  refuse_if (not (is_future b.until now)) Error.until_not_future
  refuse_if (not (is_empty b.item_id)) Error.time_names_item
validate_kind BlockerKind.item b item_id now = do
  refuse_if (not (valid_id b.item_id)) Error.invalid_item_id
  refuse_if (str_eq b.item_id item_id) Error.blocks_itself
  refuse_if (not (is_none b.until)) Error.item_has_time
validate_kind BlockerKind.external b item_id now = do
  refuse_if (is_empty (trim_space b.event)) Error.event_required
  refuse_if (not (is_none b.until) || not (is_empty b.item_id)) Error.external_has_time_or_item
validate_kind (BlockerKind.other_kind k) b item_id now = ok tt

unfoldable pub validate_blocker : Blocker → String → Time → Result (Unit {0})
validate_blocker b item_id now = do
  refuse_if (not (valid_blocker_kind b.kind)) Error.invalid_blocker_kind
  refuse_if (ltb max_blocker_event_length (byte_length b.event) || has_control b.event)
      Error.event_not_single_line
  refuse_if (not (is_external b.kind) && not (is_empty b.event)) Error.event_on_other_kind
  refuse_if (ltb max_blocker_label_length (rune_count b.label) || has_control b.label)
      Error.label_not_single_line
  refuse_if (ltb max_blocker_meta_keys (length b.meta)) Error.too_many_meta_keys
  validate_meta b.meta
  validate_kind b.kind b item_id now
