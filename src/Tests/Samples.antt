-- ===== src/Tests/Samples.antt =====
-- Work items, blockers and commands for the tests.
use workitem.Common.{ℕ, String, false, none, some, List, [], ◌∷◌}
use workitem.Model.Blocker.{BlockerKind, Blocker}
use workitem.Model.Claim.{Checkout}
use workitem.Model.Manifest.{State, Manifest}
use workitem.Domain.Types.{CommandType, ManifestCommand}

abbrev pub id_a : String
id_a = "01HZZZZZZZZZZZZZZZZZZZZZZA"

abbrev pub id_b : String
id_b = "01HZZZZZZZZZZZZZZZZZZZZZZB"

abbrev pub id_c : String
id_c = "01HZZZZZZZZZZZZZZZZZZZZZZC"

abbrev pub on_item : String → Blocker
on_item target = record {
  id = "b1";
  kind = BlockerKind.item;
  until = none;
  item_id = target;
  event = "";
  label = "";
  meta = [];
  created_at = 10;
}

abbrev pub until : ℕ → Blocker
until t = record {
  id = "b2";
  kind = BlockerKind.time;
  until = some t;
  item_id = "";
  event = "";
  label = "";
  meta = [];
  created_at = 10;
}

abbrev pub no_checkout : Checkout
no_checkout = record {
  specification = record { kind = "managed-slot"; executor = "local"; branch = "wi/a" };
  claim_generation = 0;
  claim = none;
}

abbrev pub item : String → String → State → List Blocker → Manifest
item id slug state blockers = record {
  id = id;
  slug = slug;
  title = slug;
  state = state;
  state_changed_at = 1;
  created_at = 1;
  updated_at = 1;
  checkout = no_checkout;
  agent = "default";
  labels = [];
  deep_work = false;
  priority = 0;
  pinned = false;
  snoozed_until = none;
  resolution = "";
  blockers = blockers;
}

-- b waits for c, and c for nothing.
abbrev pub item_a : Manifest
item_a = item id_a "a" State.active []

abbrev pub item_b : Manifest
item_b = item id_b "b" State.active (on_item id_c ∷ [])

abbrev pub item_c : Manifest
item_c = item id_c "c" State.backlog []

abbrev pub items : List Manifest
items = item_a ∷ item_b ∷ item_c ∷ []

abbrev pub command : CommandType → String → ManifestCommand
command type item_id = record {
  id = "cmd-1";
  protocol_version = 3;
  type = type;
  item_id = item_id;
  expected_revision = some 3;
  actor = "user";
  labels = [];
  deep_work = none;
  target_state = State.backlog;
  title = "";
  edit = none;
  event_type = "";
  force = false;
  max_active = 1;
  resolution = "";
  blockers = [];
  blocker_id = "";
  created_at = 20;
}

abbrev pub add_command : String → List Blocker → ManifestCommand
add_command item_id blockers =
    let c = command CommandType.blocker_add item_id in record c { blockers = blockers }
