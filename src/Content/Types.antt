-- ===== src/Content/Types.antt =====
-- The snapshot and the events of agentdriver/protocol/content.go. Texts that are measured or cut are
-- bytes; ids and states are texts.
use workitem.Common.{ℕ, String, Bool, true, false, ◌&&◌, Option, none, List, [], ◌∷◌, str_eq}
use workitem.Content.Bytes.{Bytes, bytes_eq}

pub record PromptLink : Type 0 where
  pub request_id : String
  pub native_ids : List String

pub record ContentTool : Type 0 where
  pub id : String
  pub name : Bytes
  pub status : String
  pub input : Bytes
  pub output : Bytes

pub record Content : Type 0 where
  pub protocol_version : ℕ
  pub runtime_id : String
  pub work_item_id : String
  pub sequence : ℕ  -- uint64
  pub idle_guard : Bool
  pub message_id : String
  pub text : Bytes
  pub truncated : Bool
  pub activity : Bytes
  pub leaf_id : String
  pub saved_as : List String
  pub thought : Bytes
  pub error : Bytes
  pub tool : Option ContentTool
  pub tools : List ContentTool
  pub prompts : List PromptLink

-- The types of events, and any other text in the place of a type.
pub data ContentEventType : Type 0 where
  snapshot message_started message_delta message_replaced message_completed : ContentEventType
  message_saved tool_started tool_updated tool_completed tool_cleared : ContentEventType
  thought_delta prompt_saved activity_changed turn_settled other_type : ContentEventType

pub record ContentEvent : Type 0 where
  pub sequence : ℕ  -- uint64
  pub type : ContentEventType
  pub message_id : String
  pub text : Bytes
  pub truncated : Bool
  pub tool : Option ContentTool
  pub native_ids : List String
  pub request_id : String
  pub activity : Bytes
  pub leaf_id : String
  pub snapshot_content : Option Content

-- `ContentEvent{Type: type}`
abbrev pub event_of : ContentEventType → ContentEvent
event_of type = record {
  sequence = 0;
  type = type;
  message_id = "";
  text = [];
  truncated = false;
  tool = none;
  native_ids = [];
  request_id = "";
  activity = [];
  leaf_id = "";
  snapshot_content = none;
}

-- `a == b` on two tools
unfoldable pub tool_eq : ContentTool → ContentTool → Bool
tool_eq a b =
    str_eq a.id b.id
    && bytes_eq a.name b.name
    && str_eq a.status b.status
    && bytes_eq a.input b.input
    && bytes_eq a.output b.output

-- `reflect.DeepEqual` of two slices of strings. A nil and an empty slice are told apart by Go; here
-- the second one always has an element.
unfoldable pub ids_eq : List String → List String → Bool
ids_eq [] [] = true
ids_eq [] (y ∷ ys) = false
ids_eq (x ∷ xs) [] = false
ids_eq (x ∷ xs) (y ∷ ys) = str_eq x y && ids_eq xs ys
