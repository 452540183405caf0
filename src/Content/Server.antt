-- ===== src/Content/Server.antt =====
-- `ContentServer` of agentdriver/protocol/content.go, with the streams of its readers. The mutex makes
-- each call one step. A stream is the queue of one reader, what the goroutine `stream` is sending, and
-- the loop of `SubscribeContent` at the other end with the snapshot that its caller keeps. Go walks
-- the subscribers in any order; here each is treated on its own.
use workitem.Common.{
  ℕ, ◌+◌, ◌%◌, ◌^◌, String, Bool, false, not, ◌&&◌, ◌||◌, Option, none, some, List, [], ◌∷◌, ◌++◌,
  length, ltb, leb, ◌==◌, str_eq, if◌then◌else◌,
}
use workitem.Strings.{concat, decimal, is_empty, byte_length}
use workitem.Content.Bytes.{Bytes, no_bytes, bytes_eq, utf8, joined_words}
use workitem.Content.Types.{
  Content, ContentEvent, ContentEventType, ContentTool, PromptLink, event_of, ids_eq,
}
use workitem.Content.Apply.{apply_content, bounded_content_field, bounded_content_text}

pub record Stream : Type 0 where
  pub id : ℕ  -- the reader's address
  pub events : List ContentEvent
  pub queued : ℕ  -- int64
  pub sending : Option ContentEvent
  pub last : ℕ  -- uint64
  pub shown : Content
  -- The client has returned the error of a skipped event.
  pub skipped : Bool

pub record ContentServer : Type 0 where
  pub value : Content
  pub closed : Bool
  pub subscribers : List Stream

abbrev pub max_content_subscribers : ℕ
max_content_subscribers = 32

abbrev pub content_subscriber_buffer : ℕ
content_subscriber_buffer = 512

abbrev pub content_subscriber_bytes : ℕ
content_subscriber_bytes = 8_388_608

abbrev pub tool_size : Option ContentTool → ℕ
tool_size none = 0
tool_size (some tool) = length tool.input + length tool.output

abbrev pub content_event_size : ContentEvent → ℕ
content_event_size e = length e.text + tool_size e.tool

-- The loop of `publish`: a reader with a full queue is dropped.
unfoldable pub send_all : ContentEvent → List Stream → List Stream
send_all e [] = []
send_all e (s ∷ streams) =
    let rest = send_all e streams in
    if ltb content_subscriber_bytes (s.queued + content_event_size e)
      || leb content_subscriber_buffer (length s.events)
    then rest
    else record s { events = s.events ++ e ∷ []; queued = s.queued + content_event_size e } ∷ rest

abbrev pub numbered : Content → ContentEvent → ContentEvent
numbered v e = record e { sequence = (v.sequence + 1) % 2 ^ 64 }

unfoldable pub publish : ContentServer → ContentEvent → ContentServer
unfolding send_all
publish s e = record s {
  value = apply_content s.value (numbered s.value e);
  subscribers = send_all (numbered s.value e) s.subscribers;
}

-- `if changed { s.publish(event) }`
abbrev pub publish_if : Bool → ContentServer → ContentEvent → ContentServer
publish_if changed s e = if changed then publish s e else s

-- The types of the events of a driver.
pub data RuntimeEventType : Type 0 where
  message_started message_delta message_completed : RuntimeEventType
  tool_started tool_updated tool_completed agent_settled other_event : RuntimeEventType

-- The last tool of the message that an update is about.
unfoldable pub prior_tool : String → Bytes → List ContentTool → Option ContentTool
unfolding is_empty bytes_eq
prior_tool id name [] = none
prior_tool id name (t ∷ tools) = elim (prior_tool id name tools) [
  | some prior ↦ some prior
  | none ↦ if str_eq t.id id && (not (is_empty id) || bytes_eq t.name name) then some t else none
]

abbrev pub or_tool : Option ContentTool → ContentTool → ContentTool
or_tool none tool = tool
or_tool (some prior) tool = prior

abbrev pub new_tool : String → Bytes → String → ContentTool
new_tool id name status = record { id = id; name = name; status = status; input = []; output = [] }

abbrev pub live_id : Content → String
live_id v = concat "live-" (decimal ((v.sequence + 1) % 2 ^ 64))

-- What a driver reports: a text, and for a tool its id, name, input and output and whether it failed.
pub record Report : Type 0 where
  pub text : Bytes
  pub tool_id : String
  pub tool_name : Bytes
  pub input : Bytes
  pub output : Bytes
  pub failed : Bool

abbrev pub prior_of : ContentServer → Report → Option ContentTool
prior_of s r = prior_tool r.tool_id r.tool_name s.value.tools

abbrev pub completed_status : Report → String
completed_status r = if r.failed then "failed" else "completed"

unfoldable pub update_tool : ContentServer → RuntimeEventType → Report → ContentServer
unfolding utf8 prior_tool concat decimal
update_tool s message_started r = publish s (record (event_of ContentEventType.message_started) {
  message_id = live_id s.value;
  activity = utf8 "Assistant responding";
})
update_tool s message_delta r =
    publish_if (not s.value.truncated && not (no_bytes r.text)) s
      (record (event_of ContentEventType.message_delta) {
        message_id = s.value.message_id;
        text = r.text;
        activity = utf8 "Assistant responding";
      })
update_tool s message_completed r =
    publish s (record (event_of ContentEventType.message_completed) {
      message_id = s.value.message_id;
      activity = utf8 "Message saved";
    })
update_tool s tool_started r = publish s (record (event_of ContentEventType.tool_started) {
  tool =
      some (record (new_tool r.tool_id r.tool_name "running") {
        input = bounded_content_field r.input;
      });
  activity = utf8 "Tool running: " ++ r.tool_name;
})
update_tool s tool_updated r = publish s (record (event_of ContentEventType.tool_updated) {
  tool = some (record (or_tool (prior_of s r) (new_tool r.tool_id r.tool_name "running")) {
    output = bounded_content_field r.output;
  });
  activity = utf8 "Tool running: " ++ r.tool_name;
})
update_tool s tool_completed r = publish s (record (event_of ContentEventType.tool_completed) {
  tool = some (record (or_tool (prior_of s r) (new_tool r.tool_id r.tool_name "")) {
    status = completed_status r;
    output = bounded_content_field r.output;
  });
  activity = utf8 "Tool " ++ (utf8 (completed_status r) ++ (utf8 ": " ++ r.tool_name));
})
update_tool s agent_settled r =
    publish s (record (event_of ContentEventType.turn_settled) { activity = utf8 "Idle" })
update_tool s other_event r = s

unfoldable pub start_message : ContentServer → ContentServer
unfolding concat decimal
start_message s =
    publish s (record (event_of ContentEventType.message_started) { message_id = live_id s.value })

abbrev pub activity_event : Bytes → String → ContentEvent
activity_event activity leaf = record (event_of ContentEventType.activity_changed) {
  activity = activity;
  leaf_id = leaf;
}

unfoldable pub set_activity : ContentServer → Bytes → ContentServer
unfolding bounded_content_field bytes_eq
set_activity s activity =
    let bounded = bounded_content_field activity in
    publish_if (not (bytes_eq bounded s.value.activity)) s (activity_event bounded s.value.leaf_id)

abbrev pub or_bytes : Bytes → Bytes → Bytes
or_bytes s t = if no_bytes s then t else s

unfoldable pub set_branch : ContentServer → String → Bytes → ContentServer
unfolding bounded_content_field bytes_eq
set_branch s leaf activity =
    let next = or_bytes (bounded_content_field activity) s.value.activity in
    publish_if (not (str_eq leaf s.value.leaf_id) || not (bytes_eq next s.value.activity)) s
      (activity_event next leaf)

abbrev pub id_too_long : List String → Bool
id_too_long [] = false
id_too_long (id ∷ ids) = is_empty id || ltb 128 (byte_length id) || id_too_long ids

unfoldable pub valid_native_ids : List String → Bool
unfolding is_empty
valid_native_ids ids = not (length ids == 0) && not (ltb 16 (length ids)) && not (id_too_long ids)

unfoldable pub linked : String → List String → List PromptLink → Bool
unfolding ids_eq
linked request ids [] = false
linked request ids (link ∷ links) =
    str_eq link.request_id request && ids_eq link.native_ids ids || linked request ids links

unfoldable pub prompt_saved : ContentServer → String → List String → ContentServer
unfolding valid_native_ids linked is_empty
prompt_saved s request ids =
    publish_if
      (not (is_empty request || ltb 200 (byte_length request) || not (valid_native_ids ids))
        && not (linked request ids s.value.prompts))
      s (record (event_of ContentEventType.prompt_saved) { request_id = request; native_ids = ids })

unfoldable pub add_thought : ContentServer → Bytes → ContentServer
add_thought s text =
    publish_if (not (no_bytes text)) s (record (event_of ContentEventType.thought_delta) {
      message_id = s.value.message_id;
      text = text;
    })

unfoldable pub mark_saved : ContentServer → Bytes → List String → ContentServer
unfolding valid_native_ids bounded_content_text joined_words bytes_eq ids_eq
mark_saved s text ids =
    let live = joined_words s.value.text in
    publish_if
      (valid_native_ids ids
        && not (
            no_bytes live
            || not (bytes_eq live (joined_words (bounded_content_text text).0))
            || ids_eq s.value.saved_as ids))
      s
      (record (event_of ContentEventType.message_saved) {
        message_id = s.value.message_id;
        native_ids = ids;
      })
