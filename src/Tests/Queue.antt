-- ===== src/Tests/Queue.antt =====
-- A queue of three candidates, one of them deferred.
use mathlib.Core.List.{Permᴰ}
use workitem.Common.{ℕ, ◌≡◌, refl, String, true, false, Option, none, some, [], ◌∷◌, str_eq}
use workitem.Strings.{str_lt, trim_space, is_empty}
use workitem.Model.Error.{ok}
use workitem.Queue.Priority.{
  Candidate, compare_times, effectively_deferred, less, insert, sort_stable, rank, unread,
}
use workitem.Queue.Select.{place, id_at, select_actionability}
use workitem.Queue.Order.{DeferredLast, rank-DeferredLast}
use workitem.Tests.Samples.{id_a, id_b, id_c}

program : Unit {0}
unfolding str_lt trim_space is_empty compare_times effectively_deferred less insert sort_stable rank
    unread place id_at select_actionability str_eq
program = tt

abbrev candidate : String → ℕ → Option ℕ → Candidate
candidate id requested deferred = record {
  id = id;
  deep_work = false;
  base_order = 0;
  state_changed_at = 1;
  last_requested_at = some requested;
  last_completed_at = none;
  last_deferred_at = deferred;
  waiting = false;
  unread = false;
}

-- The last request of a is the newest, but a was deferred after it.
abbrev a : Candidate
a = candidate id_a 30 (some 40)

abbrev b : Candidate
b = candidate id_b 10 none

abbrev c : Candidate
c = candidate id_c 20 (some 15)

three_ranked : rank "" (a ∷ b ∷ c ∷ []) ≡ ok (c ∷ b ∷ a ∷ [])
unfolding program
three_ranked = refl

unread_again : unread (some 50) (some 60) (some 70) ≡ true
unfolding program
unread_again = refl

last_wraps : (select_actionability (id_c ∷ id_b ∷ id_a ∷ []) id_a).work_item_id ≡ id_c
unfolding program
last_wraps = refl

rank-DeferredLast_example : Permᴰ (c ∷ b ∷ a ∷ []) (a ∷ b ∷ c ∷ []) × DeferredLast (c ∷ b ∷ a ∷ [])
rank-DeferredLast_example = rank-DeferredLast "" (a ∷ b ∷ c ∷ []) (c ∷ b ∷ a ∷ []) three_ranked
