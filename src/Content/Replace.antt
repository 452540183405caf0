-- ===== src/Content/Replace.antt =====
-- `publishSnapshot` of agentdriver/protocol/content.go.
use workitem.Common.{
  String, Bool, true, false, not, ◌&&◌, ◌||◌, Option, none, some, length, drop, str_eq,
  if◌then◌else◌,
}
use workitem.Content.Bytes.{Bytes, bytes_eq, has_prefix}
use workitem.Content.Types.{Content, ContentEvent, ContentEventType, ContentTool, event_of, tool_eq}
use workitem.Content.Apply.{bounded_content_field, bounded_content_text}
use workitem.Content.Server.{ContentServer, publish, publish_if, activity_event}

-- `a != b` on two flags
abbrev pub flags_differ : Bool → Bool → Bool
flags_differ true b = not b
flags_differ false b = b

abbrev pub added_event : Content → Bytes → ContentEvent
added_event current text = record (event_of ContentEventType.message_delta) {
  message_id = current.message_id;
  text = drop (length current.text) text;
}

abbrev pub replacing_event : Content → Bytes → Bool → ContentEvent
replacing_event current text truncated = record (event_of ContentEventType.message_replaced) {
  message_id = current.message_id;
  text = text;
  truncated = truncated;
}

-- A text that extends the current one, where neither was cut, is sent as what it adds.
abbrev pub text_event : Content → Bytes → Bool → ContentEvent
text_event current text truncated =
    if not truncated && not current.truncated && has_prefix text current.text
    then added_event current text
    else replacing_event current text truncated

abbrev pub started_kind : Option ContentTool → ContentTool → ContentEventType
started_kind none tool = ContentEventType.tool_started
started_kind (some current) tool =
    if str_eq current.id tool.id
    then ContentEventType.tool_updated
    else ContentEventType.tool_started

abbrev pub tool_kind : Option ContentTool → ContentTool → ContentEventType
tool_kind current tool =
    if str_eq tool.status "completed" || str_eq tool.status "failed"
    then ContentEventType.tool_completed
    else started_kind current tool

abbrev pub tool_changed : Option ContentTool → ContentTool → Bool
tool_changed none tool = true
tool_changed (some current) tool = not (tool_eq tool current)

abbrev pub tool_event : Option ContentTool → ContentTool → ContentEvent
tool_event current tool = record (event_of (tool_kind current tool)) { tool = some tool }

unfoldable pub publish_tool :
    ContentServer → Option ContentTool → Option ContentTool → ContentServer
unfolding tool_eq
publish_tool s none none = s
publish_tool s (some current) none = publish s (event_of ContentEventType.tool_cleared)
publish_tool s current (some tool) =
    publish_if (tool_changed current tool) s (tool_event current tool)

abbrev pub bounded_tool : Option ContentTool → Option ContentTool
bounded_tool none = none
bounded_tool (some tool) = some (record tool {
  input = bounded_content_field tool.input;
  output = bounded_content_field tool.output;
  name = bounded_content_field tool.name;
})

-- The first two steps. Here and above `current` is the snapshot at the start of the call.
unfoldable pub publish_activity : ContentServer → Content → String → Bytes → ContentServer
unfolding bytes_eq
publish_activity s current leaf activity =
    publish_if (not (str_eq leaf current.leaf_id) || not (bytes_eq activity current.activity)) s
      (activity_event activity leaf)

unfoldable pub publish_text : ContentServer → Content → Bytes → Bool → ContentServer
unfolding bytes_eq has_prefix
publish_text s current text truncated =
    publish_if (not (bytes_eq text current.text) || flags_differ truncated current.truncated) s
      (text_event current text truncated)

unfoldable pub publish_bounded :
    ContentServer → String → Bytes → Bool → Bytes → Option ContentTool → ContentServer
unfolding publish_activity publish_text publish_tool
publish_bounded s leaf text truncated activity tool =
    publish_tool (publish_text (publish_activity s s.value leaf activity) s.value text truncated)
      s.value.tool tool

unfoldable pub publish_snapshot :
    ContentServer → String → Bytes → Bytes → Option ContentTool → Bool → ContentServer
unfolding publish_bounded bounded_content_field bounded_content_text
publish_snapshot s leaf text activity tool truncated =
    let bounded = bounded_content_text text in
    publish_bounded s leaf bounded.0 (truncated || bounded.1) (bounded_content_field activity)
      (bounded_tool tool)
