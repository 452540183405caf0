-- ===== src/Queue/Priority.antt =====
-- internal/priority/priority.go, with the one strategy that the program registers.
use workitem.Common.{
  ℕ, String, Bool, true, false, not, ◌&&◌, ◌||◌, Option, none, some, List, [], ◌∷◌, ltb, ◌==◌,
  str_eq, if◌then◌else◌,
}
use workitem.Strings.{str_lt, trim_space, is_empty}
use workitem.Model.Error.{Error, Result, ok, fail}
use workitem.Model.Blocker.{Time, after}

pub record Candidate : Type 0 where
  pub id : String
  pub deep_work : Bool
  pub base_order : ℕ
  pub state_changed_at : Time
  pub last_requested_at : Option Time
  pub last_completed_at : Option Time
  pub last_deferred_at : Option Time
  pub waiting : Bool
  pub unread : Bool

-- The closure `newer` of `Unread`.
abbrev pub newer : Option Time → Option Time → Bool
newer last_read_at none = false
newer none (some value) = true
newer (some read) (some value) = after value read

unfoldable pub unread : Option Time → Option Time → Option Time → Bool
unread last_completed_at last_read_at last_unread_at =
    newer last_read_at last_completed_at || newer last_read_at last_unread_at

abbrev pub eligible : Bool → Bool → Bool
eligible waiting unread = not waiting || unread

-- The sign that `compareTimePointers` returns.
pub data Sign : Type 0 where
  negative zero_sign positive : Sign

unfoldable pub compare_times : Bool → Option Time → Option Time → Sign
compare_times descending none none = Sign.zero_sign
compare_times descending (some a) none = Sign.negative
compare_times descending none (some b) = Sign.positive
compare_times descending (some a) (some b) =
    if a == b
    then Sign.zero_sign
    else if descending
    then (if after a b then Sign.negative else Sign.positive)
    else if ltb a b
    then Sign.negative
    else Sign.positive

unfoldable pub effectively_deferred : Candidate → Bool
effectively_deferred c = elim c.last_deferred_at [
  | none ↦ false
  | some deferred ↦ elim c.last_requested_at [
    | none ↦ true
    | some requested ↦ after deferred requested
  ]
]

-- What `Less` compares where the times do not decide.
abbrev pub less_base : Candidate → Candidate → Bool
less_base a b =
    if a.deep_work && not b.deep_work || not a.deep_work && b.deep_work
    then a.deep_work
    else if a.base_order == b.base_order
    then str_lt a.id b.id
    else ltb a.base_order b.base_order

abbrev pub by_sign : Sign → Bool → Bool
by_sign Sign.negative rest = true
by_sign Sign.zero_sign rest = rest
by_sign Sign.positive rest = false

abbrev pub less_of : Bool → Bool → Candidate → Candidate → Bool
less_of true true a b =
    by_sign (compare_times false a.last_deferred_at b.last_deferred_at) (less_base a b)
less_of false false a b =
    by_sign (compare_times true a.last_requested_at b.last_requested_at) (less_base a b)
less_of true false a b = false
less_of false true a b = true

unfoldable pub less : Candidate → Candidate → Bool
less a b = less_of (effectively_deferred a) (effectively_deferred b) a b

-- `sort.SliceStable`: a candidate goes behind those that are less than it, and stays in front of the
-- others that it stood in front of.
unfoldable pub insert : Candidate → List Candidate → List Candidate
insert c [] = c ∷ []
insert c (d ∷ ds) = let rest = insert c ds in if less d c then d ∷ rest else c ∷ d ∷ ds

unfoldable pub sort_stable : List Candidate → List Candidate
sort_stable [] = []
sort_stable (c ∷ cs) = insert c (sort_stable cs)

abbrev pub default_strategy : String
default_strategy = "recent-request"

abbrev pub or_default : String → String
or_default name = if is_empty (trim_space name) then default_strategy else trim_space name

unfoldable pub rank : String → List Candidate → Result (List Candidate)
unfolding sort_stable
rank strategy candidates =
    if str_eq (or_default strategy) default_strategy
    then ok (sort_stable candidates)
    else fail Error.unknown_strategy
