-- ===== src/Content/Calls.antt =====
-- The calls of `ContentServer` in any order, with the steps of its streams.
use workitem.Common.{
  ℕ, ◌≡◌, refl, String, Bool, true, false, Option, none, some, List, [], ◌∷◌, arith,
}
use workitem.Content.Bytes.{Bytes}
use workitem.Content.Types.{Content, ContentEvent, ContentTool}
use workitem.Content.Server.{
  ContentServer, RuntimeEventType, Report, publish, publish_if, update_tool, start_message,
  set_activity, set_branch, prompt_saved, add_thought, mark_saved, message_started, message_delta,
  message_completed, tool_started, tool_updated, tool_completed, agent_settled, other_event,
}
use workitem.Content.Replace.{
  publish_snapshot, publish_bounded, publish_activity, publish_text, publish_tool, tool_event,
  tool_changed, text_event,
}
use workitem.Content.Streams.{subscribe, unsubscribe, take_event, send_event, close_content}

pub data ContentCall : Type 0 where
  update_tool_call : RuntimeEventType → Report → ContentCall
  start_message_call : ContentCall
  set_activity_call : Bytes → ContentCall
  set_branch_call : String → Bytes → ContentCall
  prompt_saved_call : String → List String → ContentCall
  thought_call : Bytes → ContentCall
  mark_saved_call : Bytes → List String → ContentCall
  publish_snapshot_call : String → Bytes → Bytes → Option ContentTool → Bool → ContentCall
  subscribe_call unsubscribe_call take_call send_call : ℕ → ContentCall
  close_call : ContentCall

unfoldable pub perform : ContentServer → ContentCall → ContentServer
unfolding update_tool start_message set_activity set_branch prompt_saved add_thought mark_saved
    publish_snapshot subscribe unsubscribe take_event send_event close_content
perform s (update_tool_call type r) = update_tool s type r
perform s start_message_call = start_message s
perform s (set_activity_call activity) = set_activity s activity
perform s (set_branch_call leaf activity) = set_branch s leaf activity
perform s (prompt_saved_call request ids) = prompt_saved s request ids
perform s (thought_call text) = add_thought s text
perform s (mark_saved_call text ids) = mark_saved s text ids
perform s (publish_snapshot_call leaf text activity tool truncated) =
    publish_snapshot s leaf text activity tool truncated
perform s (subscribe_call id) = subscribe s id
perform s (unsubscribe_call id) = unsubscribe s id
perform s (take_call id) = take_event s id
perform s (send_call id) = send_event s id
perform s close_call = close_content s

unfoldable pub perform_all : ContentServer → List ContentCall → ContentServer
unfolding perform
perform_all s [] = s
perform_all s (c ∷ calls) = perform_all (perform s c) calls

-- What `publish` keeps for an event without a snapshot, each method that publishes keeps.
module _ (P : ContentServer → Type 0)
    (keep : (s : ContentServer) (e : ContentEvent)
      → e.snapshot_content ≡ none
      → P s
      → P (publish s e)) where
  keep_if :
      (changed : Bool) (s : ContentServer) (e : ContentEvent)
      → e.snapshot_content ≡ none
      → P s
      → P (publish_if changed s e)
  keep_if true s e n p = keep s e n p
  keep_if false s e n p = p

  pub keep-update_tool :
      (s : ContentServer) (type : RuntimeEventType) (r : Report) → P s → P (update_tool s type r)
  unfolding update_tool
  keep-update_tool s message_started r p = keep s _ refl p
  keep-update_tool s message_delta r p = keep_if _ s _ refl p
  keep-update_tool s message_completed r p = keep s _ refl p
  keep-update_tool s tool_started r p = keep s _ refl p
  keep-update_tool s tool_updated r p = keep s _ refl p
  keep-update_tool s tool_completed r p = keep s _ refl p
  keep-update_tool s agent_settled r p = keep s _ refl p
  keep-update_tool s other_event r p = p

  pub keep-start_message : (s : ContentServer) → P s → P (start_message s)
  unfolding start_message
  keep-start_message s p = keep s _ refl p

  pub keep-set_activity : (s : ContentServer) (activity : Bytes) → P s → P (set_activity s activity)
  unfolding set_activity
  keep-set_activity s activity p = keep_if _ s _ refl p

  pub keep-set_branch :
      (s : ContentServer) (leaf : String) (activity : Bytes) → P s → P (set_branch s leaf activity)
  unfolding set_branch
  keep-set_branch s leaf activity p = keep_if _ s _ refl p

  pub keep-prompt_saved :
      (s : ContentServer) (request : String) (ids : List String)
      → P s
      → P (prompt_saved s request ids)
  unfolding prompt_saved
  keep-prompt_saved s request ids p = keep_if _ s _ refl p

  pub keep-add_thought : (s : ContentServer) (text : Bytes) → P s → P (add_thought s text)
  unfolding add_thought
  keep-add_thought s text p = keep_if _ s _ refl p

  pub keep-mark_saved :
      (s : ContentServer) (text : Bytes) (ids : List String) → P s → P (mark_saved s text ids)
  unfolding mark_saved
  keep-mark_saved s text ids p = keep_if _ s _ refl p

  keep-publish_tool :
      (s : ContentServer) (current tool : Option ContentTool)
      → P s
      → P (publish_tool s current tool)
  unfolding publish_tool
  keep-publish_tool s none none p = p
  keep-publish_tool s (some c) none p = keep s _ refl p
  keep-publish_tool s none (some t) p = keep_if (tool_changed none t) s (tool_event none t) refl p
  keep-publish_tool s (some c) (some t) p =
      keep_if (tool_changed (some c) t) s (tool_event (some c) t) refl p

  text_event-plain :
      (current : Content) (text : Bytes) (truncated : Bool)
      → (text_event current text truncated).snapshot_content ≡ none
  text_event-plain current text truncated = ground arith

  keep-publish_activity :
      (s : ContentServer) (current : Content) (leaf : String) (activity : Bytes)
      → P s
      → P (publish_activity s current leaf activity)
  unfolding publish_activity
  keep-publish_activity s current leaf activity p = keep_if _ s _ refl p

  keep-publish_text :
      (s : ContentServer) (current : Content) (text : Bytes) (truncated : Bool)
      → P s
      → P (publish_text s current text truncated)
  unfolding publish_text
  keep-publish_text s current text truncated p =
      keep_if _ s _ (text_event-plain current text truncated) p

  keep-publish_bounded :
      (s : ContentServer) (leaf : String) (text : Bytes) (truncated : Bool) (activity : Bytes)
      (tool : Option ContentTool)
      → P s
      → P (publish_bounded s leaf text truncated activity tool)
  unfolding publish_bounded
  keep-publish_bounded s leaf text truncated activity tool p =
      keep-publish_tool _ s.value.tool tool (
        keep-publish_text _ s.value text truncated
          (keep-publish_activity s s.value leaf activity p))

  pub keep-publish_snapshot :
      (s : ContentServer) (leaf : String) (text activity : Bytes) (tool : Option ContentTool)
      (truncated : Bool)
      → P s
      → P (publish_snapshot s leaf text activity tool truncated)
  unfolding publish_snapshot
  keep-publish_snapshot s leaf text activity tool truncated p =
      keep-publish_bounded s leaf _ _ _ _ p
