-- ===== src/Content/Bounds.antt =====
-- The bounds that every event keeps.
use workitem.Common.{
  ℕ, suc, String, ◌≤◌, ◌≡◌, refl, ap, sym, subst, Bool, true, false, Option, none, some, List, [],
  ◌∷◌, ◌++◌, length, if◌then◌else◌, inl, inr, Bool-cases, arith,
}
use workitem.Strings.{is_empty}
use workitem.Content.Bytes.{Bytes, no_bytes}
use workitem.Content.Types.{
  Content, ContentEvent, ContentEventType, ContentTool, PromptLink, snapshot, message_started,
  message_delta, message_replaced, message_completed, message_saved, tool_started, tool_updated,
  tool_completed, tool_cleared, thought_delta, prompt_saved, activity_changed, turn_settled,
  other_type,
}
use workitem.Content.Apply.{
  apply_content, switched, settled, with_text, with_tool, bounded_content_text, upsert_tool,
  replace_last, replaced_in, or_appended, same_tool, link_prompt, other_links, apply_content-plain,
}
use workitem.Content.Cut.{bounded_content_text-fits, bounded_thought-fits, newest-fits}

pub record IsBounded (v : Content) : Type 0 where
  pub text_fits : length v.text ≤ 262_144
  pub thought_fits : length v.thought ≤ 65_536
  pub tools_fit : length v.tools ≤ 32
  pub prompts_fit : length v.prompts ≤ 8

-- A replacement leaves the number of tools.
abbrev HasLength : ℕ → Option (List ContentTool) → Type 0
HasLength n none = Unit
HasLength n (some tools) = length tools ≡ n

replaced_in-HasLength :
    (o : Option (List ContentTool)) (tool t : ContentTool) (tools : List ContentTool)
    → HasLength (length tools) o
    → HasLength (length (t ∷ tools)) (replaced_in o tool t tools)
replaced_in-HasLength (some r) tool t tools h = ap suc h
replaced_in-HasLength none tool t tools h = elim (Bool-cases (same_tool tool t)) [
  | inl e ↦ rw e refl
  | inr e ↦ rw e tt
]

replace_last-HasLength :
    (tool : ContentTool) (tools : List ContentTool)
    → HasLength (length tools) (replace_last tool tools)
unfolding replace_last
replace_last-HasLength tool [] = tt
replace_last-HasLength tool (t ∷ tools) =
    replaced_in-HasLength (replace_last tool tools) tool t tools (replace_last-HasLength tool tools)

or_appended-fits :
    (o : Option (List ContentTool)) (tools : List ContentTool) (tool : ContentTool)
    → HasLength (length tools) o
    → length tools ≤ 32
    → length (or_appended o tools tool) ≤ 32
or_appended-fits none tools tool h le = newest-fits 32 (tools ++ tool ∷ [])
or_appended-fits (some r) tools tool h le = omega arith

upsert_tool-fits :
    (tools : List ContentTool) (tool : ContentTool)
    → length tools ≤ 32
    → length (upsert_tool tools tool) ≤ 32
unfolding upsert_tool
upsert_tool-fits tools tool =
    or_appended-fits (replace_last tool tools) tools tool (replace_last-HasLength tool tools)

settled-IsBounded : (e : ContentEvent) (v : Content) → IsBounded v → IsBounded (settled e v)
settled-IsBounded e v b = elim (Bool-cases (no_bytes e.activity)) [
  | inl n ↦ rw n b
  | inr n ↦ rw n (record {
    text_fits = b.text_fits;
    thought_fits = b.thought_fits;
    tools_fit = b.tools_fit;
    prompts_fit = b.prompts_fit;
  })
]

with_text-IsBounded :
    (v : Content) (text : Bytes) (truncated : Bool)
    → length text ≤ 262_144
    → IsBounded v
    → IsBounded (with_text v (text, truncated))
with_text-IsBounded v text truncated h b = record {
  text_fits = h;
  thought_fits = b.thought_fits;
  tools_fit = b.tools_fit;
  prompts_fit = b.prompts_fit;
}

with_tool-IsBounded :
    (v : Content) (tool : Option ContentTool) → IsBounded v → IsBounded (with_tool v tool)
with_tool-IsBounded v none b = record {
  text_fits = b.text_fits;
  thought_fits = b.thought_fits;
  tools_fit = b.tools_fit;
  prompts_fit = b.prompts_fit;
}
with_tool-IsBounded v (some tool) b = record {
  text_fits = b.text_fits;
  thought_fits = b.thought_fits;
  tools_fit = upsert_tool-fits v.tools tool b.tools_fit;
  prompts_fit = b.prompts_fit;
}

delta-IsBounded :
    (v : Content) (text : Bytes) (truncated : Bool)
    → IsBounded v
    → IsBounded (if truncated then v else with_text v (bounded_content_text text))
delta-IsBounded v text true b = b
delta-IsBounded v text false b =
    with_text-IsBounded v (bounded_content_text text).0 (bounded_content_text text).1
      (bounded_content_text-fits text) b

replaced-IsBounded :
    (v : Content) (id : String) (keep : Bool)
    → IsBounded v
    → IsBounded (if keep then v else record v { message_id = id })
replaced-IsBounded v id true b = b
replaced-IsBounded v id false b = record {
  text_fits = b.text_fits;
  thought_fits = b.thought_fits;
  tools_fit = b.tools_fit;
  prompts_fit = b.prompts_fit;
}

link_prompt-fits :
    (links : List PromptLink) (link : PromptLink) → length (link_prompt links link) ≤ 8
unfolding link_prompt
link_prompt-fits links link = newest-fits 8 (other_links link.request_id links ++ link ∷ [])

switched-IsBounded :
    (type : ContentEventType) (e : ContentEvent) (v : Content)
    → IsBounded v
    → IsBounded (switched type e v)
unfolding switched
switched-IsBounded snapshot e v b = settled-IsBounded e v b
switched-IsBounded message_started e v b = settled-IsBounded e _ (record {
  text_fits = omega arith;
  thought_fits = omega arith;
  tools_fit = omega arith;
  prompts_fit = b.prompts_fit;
})
switched-IsBounded message_delta e v b =
    settled-IsBounded e _ (delta-IsBounded v (v.text ++ e.text) v.truncated b)
switched-IsBounded message_replaced e v b = settled-IsBounded e _ (
    replaced-IsBounded _ e.message_id (is_empty e.message_id)
      (with_text-IsBounded v _ _ (bounded_content_text-fits e.text) b))
switched-IsBounded message_completed e v b = settled-IsBounded e v b
switched-IsBounded message_saved e v b = settled-IsBounded e _ (record {
  text_fits = b.text_fits;
  thought_fits = b.thought_fits;
  tools_fit = b.tools_fit;
  prompts_fit = b.prompts_fit;
})
switched-IsBounded tool_started e v b = settled-IsBounded e _ (with_tool-IsBounded v e.tool b)
switched-IsBounded tool_updated e v b = settled-IsBounded e _ (with_tool-IsBounded v e.tool b)
switched-IsBounded tool_completed e v b = settled-IsBounded e _ (with_tool-IsBounded v e.tool b)
switched-IsBounded tool_cleared e v b = settled-IsBounded e _ (record {
  text_fits = b.text_fits;
  thought_fits = b.thought_fits;
  tools_fit = omega arith;
  prompts_fit = b.prompts_fit;
})
switched-IsBounded thought_delta e v b = settled-IsBounded e _ (record {
  text_fits = b.text_fits;
  thought_fits = bounded_thought-fits (v.thought ++ e.text);
  tools_fit = b.tools_fit;
  prompts_fit = b.prompts_fit;
})
switched-IsBounded prompt_saved e v b = settled-IsBounded e _ (record {
  text_fits = b.text_fits;
  thought_fits = b.thought_fits;
  tools_fit = b.tools_fit;
  prompts_fit = link_prompt-fits v.prompts _;
})
switched-IsBounded activity_changed e v b = record {
  text_fits = b.text_fits;
  thought_fits = b.thought_fits;
  tools_fit = b.tools_fit;
  prompts_fit = b.prompts_fit;
}
switched-IsBounded turn_settled e v b = settled-IsBounded e v b
switched-IsBounded other_type e v b = settled-IsBounded e v b

-- An event that carries no snapshot keeps the bounds: 256 KiB of text, 64 KiB of thought, 32 tools and
-- 8 links.
pub apply_content-IsBounded :
    (v : Content) (e : ContentEvent)
    → e.snapshot_content ≡ none
    → IsBounded v
    → IsBounded (apply_content v e)
apply_content-IsBounded v e h b = subst IsBounded (sym (apply_content-plain v e h)) (
    switched-IsBounded e.type e _ (record {
      text_fits = b.text_fits;
      thought_fits = b.thought_fits;
      tools_fit = b.tools_fit;
      prompts_fit = b.prompts_fit;
    }))
