-- ===== src/Content/Apply.antt =====
-- `ApplyContent`, with the bounds that it keeps.
use workitem.Common.{
  ℕ, ◌-◌, String, Bool, true, false, not, ◌&&◌, ◌||◌, Option, none, some, List, [], ◌∷◌, ◌++◌,
  length, drop, ltb, leb, str_eq, ◌≡◌, refl, Bool-cases, inl, inr, if◌then◌else◌,
}
use workitem.Strings.{is_empty}
use workitem.Content.Bytes.{Bytes, take, no_bytes, bytes_eq, rune_end, from_rune, utf8}
use workitem.Content.Types.{
  Content, ContentEvent, ContentEventType, ContentTool, PromptLink, snapshot, message_started,
  message_delta, message_replaced, message_completed, message_saved, tool_started, tool_updated,
  tool_completed, tool_cleared, thought_delta, prompt_saved, activity_changed, turn_settled,
  other_type,
}

abbrev pub max_content_text_bytes : ℕ
max_content_text_bytes = 262_144

unfoldable pub bounded_content_text : Bytes → Bytes × Bool
bounded_content_text text =
    if leb (length text) max_content_text_bytes
    then (text, false)
    else (take (rune_end text max_content_text_bytes) text, true)

-- The newest 64 KiB.
abbrev pub max_thought_bytes : ℕ
max_thought_bytes = 65_536

unfoldable pub bounded_thought : Bytes → Bytes
bounded_thought text =
    if leb (length text) max_thought_bytes
    then text
    else from_rune (drop (length text - max_thought_bytes) text)

abbrev pub max_content_field_bytes : ℕ
max_content_field_bytes = 65_536

unfoldable pub bounded_content_field : Bytes → Bytes
unfolding utf8
bounded_content_field value =
    if leb (length value) max_content_field_bytes
    then value
    else take (rune_end value max_content_field_bytes) value ++ utf8 "\n[content truncated]"

-- A slice without its oldest elements beyond a bound.
abbrev pub newest : {A : Type 0} → ℕ → List A → List A
newest bound xs = if ltb bound (length xs) then drop (length xs - bound) xs else xs

abbrev pub max_content_tools : ℕ
max_content_tools = 32

abbrev pub same_tool : ContentTool → ContentTool → Bool
same_tool tool other =
    not (is_empty tool.id) && str_eq other.id tool.id
    || is_empty tool.id && is_empty other.id && bytes_eq other.name tool.name

-- The loop of `upsertTool`, which comes from the end: the last such tool is replaced, if there is one.
abbrev pub replaced_in :
    Option (List ContentTool)
    → ContentTool
    → ContentTool
    → List ContentTool
    → Option (List ContentTool)
replaced_in (some replaced) tool t tools = some (t ∷ replaced)
replaced_in none tool t tools = if same_tool tool t then some (tool ∷ tools) else none

unfoldable pub replace_last : ContentTool → List ContentTool → Option (List ContentTool)
unfolding is_empty bytes_eq
replace_last tool [] = none
replace_last tool (t ∷ tools) = replaced_in (replace_last tool tools) tool t tools

abbrev pub or_appended :
    Option (List ContentTool) → List ContentTool → ContentTool → List ContentTool
or_appended (some replaced) tools tool = replaced
or_appended none tools tool = newest max_content_tools (tools ++ tool ∷ [])

unfoldable pub upsert_tool : List ContentTool → ContentTool → List ContentTool
unfolding replace_last
upsert_tool tools tool = or_appended (replace_last tool tools) tools tool

abbrev pub max_prompt_links : ℕ
max_prompt_links = 8

abbrev pub other_links : String → List PromptLink → List PromptLink
other_links request [] = []
other_links request (link ∷ links) =
    let rest = other_links request links in
    if str_eq link.request_id request then rest else link ∷ rest

unfoldable pub link_prompt : List PromptLink → PromptLink → List PromptLink
link_prompt links link = newest max_prompt_links (other_links link.request_id links ++ link ∷ [])

-- The end of `ApplyContent`.
abbrev pub settled : ContentEvent → Content → Content
settled e v = if no_bytes e.activity then v else record v { activity = e.activity }

abbrev pub with_text : Content → Bytes × Bool → Content
with_text v (text, truncated) = record v { text = text; truncated = truncated; saved_as = [] }

abbrev pub with_tool : Content → Option ContentTool → Content
with_tool v none = record v { tool = none }
with_tool v (some tool) = record v { tool = some tool; tools = upsert_tool v.tools tool }

-- The switch on the type of an event, behind the case of a snapshot.
unfoldable pub switched : ContentEventType → ContentEvent → Content → Content
unfolding bounded_content_text bounded_thought upsert_tool link_prompt is_empty
switched snapshot e v = settled e v
switched message_started e v = settled e (record v {
  message_id = e.message_id;
  text = [];
  truncated = false;
  tool = none;
  saved_as = [];
  thought = [];
  tools = [];
})
switched message_delta e v =
    settled e (if v.truncated then v else with_text v (bounded_content_text (v.text ++ e.text)))
switched message_replaced e v =
    let bounded = bounded_content_text e.text in
    let replaced = with_text v (bounded.0, bounded.1 || e.truncated) in
    settled e
      (if is_empty e.message_id then replaced else record replaced { message_id = e.message_id })
switched message_completed e v = settled e v
switched message_saved e v = settled e (record v { saved_as = e.native_ids })
switched tool_started e v = settled e (with_tool v e.tool)
switched tool_updated e v = settled e (with_tool v e.tool)
switched tool_completed e v = settled e (with_tool v e.tool)
switched tool_cleared e v = settled e (record v { tool = none; tools = [] })
switched thought_delta e v =
    settled e (record v { thought = bounded_thought (v.thought ++ e.text) })
switched prompt_saved e v = settled e (record v {
  prompts = link_prompt v.prompts (record { request_id = e.request_id; native_ids = e.native_ids });
})
switched activity_changed e v = record v { activity = e.activity; leaf_id = e.leaf_id }
switched turn_settled e v = settled e v
switched other_type e v = settled e v

abbrev pub is_snapshot : ContentEventType → Bool
is_snapshot type = elim type [ snapshot ↦ true | _ ↦ false ]

abbrev pub applied : Option Content → ContentEvent → Content → Content
applied (some content) e v = content
applied none e v = switched e.type e (record v { sequence = e.sequence })

unfoldable pub apply_content : Content → ContentEvent → Content
unfolding switched
apply_content v e = applied (if is_snapshot e.type then e.snapshot_content else none) e v

pub apply_content-plain :
    (v : Content) (e : ContentEvent)
    → e.snapshot_content ≡ none
    → apply_content v e ≡ switched e.type e (record v { sequence = e.sequence })
unfolding apply_content
apply_content-plain v e h = elim (Bool-cases (is_snapshot e.type)) [
  | inl t ↦ rw (t, h) refl
  | inr t ↦ rw t refl
]
