-- ===== src/Content/Whole.antt =====
-- What `publishSnapshot` leaves in the snapshot.
use workitem.Common.{
  ℕ, ◌+◌, ◌≤◌, ◌≡◌, ◌⊎◌, ◌∙◌, ◌%◌, ◌^◌, refl, ap, sym, subst, String, Bool, true, false, not, ◌&&◌,
  ◌||◌, Option, none, some, List, ◌++◌, length, drop, str_eq, str_eq→eq, inl, inr, Bool-cases,
}
use workitem.Strings.{is_empty}
use workitem.Content.Bytes.{Bytes, bytes_eq, has_prefix}
use workitem.Content.Types.{Content, ContentEventType, ContentTool, tool_eq}
use workitem.Content.Apply.{
  apply_content, apply_content-plain, switched, upsert_tool, bounded_content_text,
  bounded_content_field,
}
use workitem.Content.Server.{ContentServer, publish, numbered, activity_event}
use workitem.Content.Replace.{
  publish_snapshot, publish_bounded, publish_activity, publish_text, publish_tool, added_event,
  replacing_event, tool_event, tool_kind, flags_differ, bounded_tool,
}
use workitem.Content.Equality.{
  and_parts, or_parts, false_of_negated, true_of_negated, bytes_eq→eq, has_prefix→eq, tool_eq→eq,
  flags_differ→eq,
}
use workitem.Content.Cut.{bounded_content_text-fits, bounded_content_text-whole}

-- What a reader of the snapshot is shown.
pub record Shows (leaf : String) (activity text : Bytes) (truncated : Bool)
    (tool : Option ContentTool) (v : Content) : Type 0 where
  pub leaf_shown : v.leaf_id ≡ leaf
  pub activity_shown : v.activity ≡ activity
  pub text_shown : v.text ≡ text
  pub truncated_shown : v.truncated ≡ truncated
  pub tool_shown : v.tool ≡ tool

publish_activity-Shows :
    (s : ContentServer) (leaf : String) (activity : Bytes)
    → Shows leaf activity s.value.text s.value.truncated s.value.tool
        (publish_activity s s.value leaf activity).value
unfolding publish_activity publish switched
publish_activity-Shows s leaf activity =
    elim (Bool-cases
      (not (str_eq leaf s.value.leaf_id) || not (bytes_eq activity s.value.activity))) [
        | inl e ↦ rw e (
            subst (Shows leaf activity _ _ _)
              (sym (
                apply_content-plain s.value (numbered s.value (activity_event activity leaf)) refl))
              (record {
                leaf_shown = refl;
                activity_shown = refl;
                text_shown = refl;
                truncated_shown = refl;
                tool_shown = refl;
              }))
        | inr e ↦ rw e (
            let p = or_parts (not (str_eq leaf s.value.leaf_id)) _ e in
            record {
              leaf_shown = sym (str_eq→eq leaf _ (true_of_negated _ p.0));
              activity_shown = sym (bytes_eq→eq activity _ (true_of_negated _ p.1));
              text_shown = refl;
              truncated_shown = refl;
              tool_shown = refl;
            })
      ]

delta-Shows :
    (leaf : String) (activity text : Bytes) (tool : Option ContentTool) (v current : Content)
    → length text ≤ 262_144
    → has_prefix text current.text ≡ true
    → Shows leaf activity current.text false tool v
    → Shows leaf activity text false tool (apply_content v (numbered v (added_event current text)))
unfolding switched
delta-Shows leaf activity text tool v current fit pre h =
    let e = drop (length current.text) text in
    let whole : bounded_content_text (v.text ++ e) ≡ (text, false) =
      ap (λ t. bounded_content_text (t ++ e)) h.text_shown
      ∙ ap bounded_content_text (has_prefix→eq text current.text pre)
      ∙ bounded_content_text-whole text fit in
    subst (Shows leaf activity text false tool) (sym (apply_content-plain v _ refl)) (
      rw h.truncated_shown (record {
        leaf_shown = h.leaf_shown;
        activity_shown = h.activity_shown;
        text_shown = ap (λ p. p.0) whole;
        truncated_shown = ap (λ p. p.1) whole;
        tool_shown = h.tool_shown;
      }))

shown :
    {leaf : String} {activity text : Bytes} {truncated : Bool} {tool : Option ContentTool}
    {v : Content} {before : Bytes} {cut : Bool} {id : String} {sequence : ℕ} {saved : List String}
    {p : Bytes × Bool}
    → p ≡ (text, false)
    → Shows leaf activity before cut tool v
    → Shows leaf activity text truncated tool (record v {
      sequence = sequence;
      message_id = id;
      text = p.0;
      truncated = p.1 || truncated;
      saved_as = saved;
    })
shown {truncated = truncated} whole h = record {
  leaf_shown = h.leaf_shown;
  activity_shown = h.activity_shown;
  text_shown = ap (λ p. p.0) whole;
  truncated_shown = ap (λ p. p.1 || truncated) whole;
  tool_shown = h.tool_shown;
}

replaced-Shows :
    (leaf : String) (activity text : Bytes) (truncated : Bool) (tool : Option ContentTool)
    (v current : Content) (before : Bytes) (cut : Bool)
    → length text ≤ 262_144
    → Shows leaf activity before cut tool v
    → Shows leaf activity text truncated tool
        (apply_content v (numbered v (replacing_event current text truncated)))
unfolding switched
replaced-Shows leaf activity text truncated tool v current before cut fit h =
    let whole = bounded_content_text-whole text fit in
    subst (Shows leaf activity text truncated tool) (sym (apply_content-plain v _ refl))
      (elim (Bool-cases (is_empty current.message_id)) [
        | inl e ↦ rw e (shown whole h)
        | inr e ↦ rw e (shown whole h)
      ])

publish_text-Shows :
    (s : ContentServer) (current : Content) (leaf : String) (activity text : Bytes)
    (truncated : Bool) (tool : Option ContentTool)
    → length text ≤ 262_144
    → Shows leaf activity current.text current.truncated tool s.value
    → Shows leaf activity text truncated tool (publish_text s current text truncated).value
unfolding publish_text publish
publish_text-Shows s current leaf activity text truncated tool fit h =
    elim (Bool-cases
      (not (bytes_eq text current.text) || flags_differ truncated current.truncated)) [
        | inr e ↦ rw e (
            let p = or_parts (not (bytes_eq text current.text)) _ e in
            record {
              leaf_shown = h.leaf_shown;
              activity_shown = h.activity_shown;
              text_shown = h.text_shown ∙ sym (bytes_eq→eq text _ (true_of_negated _ p.0));
              truncated_shown = h.truncated_shown ∙ sym (flags_differ→eq truncated _ p.1);
              tool_shown = h.tool_shown;
            })
        | inl e ↦
            elim (Bool-cases
              (not truncated && not current.truncated && has_prefix text current.text)) [
                | inr n ↦ rw e (
                    rw n (
                      replaced-Shows leaf activity text truncated tool s.value current current.text
                        current.truncated fit h))
                | inl d ↦ rw e (
                    rw d (
                      let p = and_parts (not truncated && not current.truncated) _ d in
                      let q = and_parts (not truncated) _ p.0 in
                      subst
                        (λ b.
                          Shows leaf activity text b tool
                            (apply_content s.value (numbered s.value (added_event current text))))
                        (sym (false_of_negated _ q.0))
                        (delta-Shows leaf activity text tool s.value current fit p.1 (
                          subst (λ b. Shows leaf activity current.text b tool s.value)
                            (false_of_negated _ q.1) h))))
              ]
      ]

tool_kind-cases :
    (current : Option ContentTool) (tool : ContentTool)
    → (tool_kind current tool ≡ ContentEventType.tool_started)
      ⊎ (tool_kind current tool ≡ ContentEventType.tool_updated)
      ⊎ (tool_kind current tool ≡ ContentEventType.tool_completed)
tool_kind-cases none tool =
    elim (Bool-cases (str_eq tool.status "completed" || str_eq tool.status "failed")) [
      | inl e ↦ rw e (inr (inr refl))
      | inr e ↦ rw e (inl refl)
    ]
tool_kind-cases (some c) tool =
    elim (Bool-cases (str_eq tool.status "completed" || str_eq tool.status "failed")) [
      | inl e ↦ rw e (inr (inr refl))
      | inr e ↦ elim (Bool-cases (str_eq c.id tool.id)) [
        | inl f ↦ rw e (rw f (inr (inl refl)))
        | inr f ↦ rw e (rw f (inl refl))
      ]
    ]

with_tool-Shows :
    (leaf : String) (activity text : Bytes) (truncated : Bool) (before : Option ContentTool)
    (v : Content) (current : Option ContentTool) (tool : ContentTool)
    → Shows leaf activity text truncated before v
    → Shows leaf activity text truncated
        (some tool)
        (apply_content v (numbered v (tool_event current tool)))
unfolding switched
with_tool-Shows leaf activity text truncated before v current tool h =
    subst (Shows leaf activity text truncated (some tool)) (sym (apply_content-plain v _ refl)) (
      let s : Shows leaf activity text truncated (some tool) (record v {
        sequence = (v.sequence + 1) % 2 ^ 64;
        tool = some tool;
        tools = upsert_tool v.tools tool;
      }) =
        record {
          leaf_shown = h.leaf_shown;
          activity_shown = h.activity_shown;
          text_shown = h.text_shown;
          truncated_shown = h.truncated_shown;
          tool_shown = refl;
        } in
      elim (tool_kind-cases current tool) [
        | inl k ↦ rw k s
        | inr (inl k) ↦ rw k s
        | inr (inr k) ↦ rw k s
      ])

publish_tool-Shows :
    (s : ContentServer) (current tool : Option ContentTool) (leaf : String) (activity text : Bytes)
    (truncated : Bool)
    → Shows leaf activity text truncated current s.value
    → Shows leaf activity text truncated tool (publish_tool s current tool).value
unfolding publish_tool publish switched
publish_tool-Shows s none none leaf activity text truncated h = h
publish_tool-Shows s (some c) none leaf activity text truncated h =
    subst (Shows leaf activity text truncated none) (sym (apply_content-plain s.value _ refl))
      (record {
        leaf_shown = h.leaf_shown;
        activity_shown = h.activity_shown;
        text_shown = h.text_shown;
        truncated_shown = h.truncated_shown;
        tool_shown = refl;
      })
publish_tool-Shows s none (some t) leaf activity text truncated h =
    with_tool-Shows leaf activity text truncated none s.value none t h
publish_tool-Shows s (some c) (some t) leaf activity text truncated h =
    elim (Bool-cases (tool_eq t c)) [
      | inl e ↦ rw e (record {
        leaf_shown = h.leaf_shown;
        activity_shown = h.activity_shown;
        text_shown = h.text_shown;
        truncated_shown = h.truncated_shown;
        tool_shown = h.tool_shown ∙ ap some (sym (tool_eq→eq t c e));
      })
      | inr e ↦ rw e (with_tool-Shows leaf activity text truncated (some c) s.value (some c) t h)
    ]

-- Whatever the snapshot was, the call leaves a snapshot that shows the branch leaf, the activity and
-- the tool with their texts bounded, the text cut to the limit, and the mark of a text that was cut
-- here or before.
pub publish_snapshot-Shows :
    (s : ContentServer) (leaf : String) (text activity : Bytes) (tool : Option ContentTool)
    (truncated : Bool)
    → Shows leaf
        (bounded_content_field activity)
        (bounded_content_text text).0
        (truncated || (bounded_content_text text).1)
        (bounded_tool tool)
        (publish_snapshot s leaf text activity tool truncated).value
unfolding publish_snapshot publish_bounded
publish_snapshot-Shows s leaf text activity tool truncated =
    let moved = publish_activity-Shows s leaf (bounded_content_field activity) in
    publish_tool-Shows _ s.value.tool _ leaf _ _ _
      (publish_text-Shows _ s.value leaf _ _ _ s.value.tool (bounded_content_text-fits text) moved)
