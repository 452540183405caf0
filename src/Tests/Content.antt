-- ===== src/Tests/Content.antt =====
-- The live content: a reader that joins in the middle of a message.
use workitem.Common.{
  ℕ, ◌||◌, ◌≡◌, ◌⊎◌, ◌<◌, ◌≤◌, refl, String, true, false, none, List, [], ◌∷◌, ◌++◌, map, length,
  drop, str_eq,
}
use workitem.Strings.{is_empty, concat, decimal}
use workitem.Content.Bytes.{
  Bytes, utf8, bytes_eq, has_prefix, rune_end, rune_start, byte_at, joined_words,
}
use workitem.Content.Types.{tool_eq, ids_eq}
use workitem.Content.Apply.{
  bounded_content_text, bounded_content_field, bounded_thought, upsert_tool, link_prompt, switched,
  apply_content, replace_last,
}
use workitem.Content.Server.{
  ContentServer, Report, publish, send_all, update_tool, prior_tool, start_message, set_activity,
  set_branch, prompt_saved, add_thought, mark_saved, valid_native_ids, linked, message_delta,
  tool_started, message_started,
}
use workitem.Content.Replace.{
  publish_snapshot, publish_bounded, publish_activity, publish_text, publish_tool, bounded_tool,
}
use workitem.Content.Streams.{
  listen_content, subscribe, unsubscribe, take_event, send_event, receive, close_content,
}
use workitem.Content.Calls.{
  ContentCall, perform, perform_all, update_tool_call, subscribe_call, take_call, send_call,
  mark_saved_call,
}
use workitem.Content.Cut.{bounded_content_text_lem}
use workitem.Content.Readers.{IsSound, perform_all-IsSound}
use workitem.Content.Whole.{Shows, publish_snapshot-Shows}

program : Unit {0}
unfolding utf8 bytes_eq has_prefix rune_end joined_words tool_eq ids_eq bounded_content_text
    bounded_content_field bounded_thought upsert_tool link_prompt switched apply_content
    replace_last publish send_all update_tool prior_tool start_message set_activity set_branch
    prompt_saved add_thought mark_saved valid_native_ids linked publish_snapshot publish_bounded
    publish_activity publish_text publish_tool subscribe unsubscribe take_event send_event receive
    close_content perform perform_all str_eq is_empty concat decimal
program = tt

abbrev says : String → Report
says text = record {
  text = utf8 text;
  tool_id = "t1";
  tool_name = utf8 "read";
  input = [];
  output = [];
  failed = false;
}

abbrev calls : List ContentCall
calls =
    update_tool_call message_started (says "")
    ∷ update_tool_call message_delta (says "He")
    ∷ subscribe_call 7
    ∷ update_tool_call message_delta (says "llo")
    ∷ update_tool_call tool_started (says "")
    ∷ take_call 7
    ∷ mark_saved_call (utf8 " Hello ") ("h1" ∷ [])
    ∷ send_call 7
    ∷ []

abbrev server : ContentServer
server = perform_all (listen_content "R" "I" true) calls

-- The reader has the whole text, and the tool and the saved entry are on the way to it.
reader_catches_up :
    map {B = Bytes × ℕ × ℕ} (λ s. (s.shown.text, s.last, length s.events)) server.subscribers
    ≡ (utf8 "Hello", 3, 2) ∷ []
unfolding program
reader_catches_up = refl

perform_all-IsSound_example : IsSound (perform_all (listen_content "R" "I" true) calls)
perform_all-IsSound_example = perform_all-IsSound "R" "I" true calls

publish_snapshot-Shows_example :
    Shows "leaf"
      (bounded_content_field (utf8 "Busy"))
      (bounded_content_text (utf8 "Hello you")).0
      (true || (bounded_content_text (utf8 "Hello you")).1)
      (bounded_tool none)
      (publish_snapshot server "leaf" (utf8 "Hello you") (utf8 "Busy") none true).value
publish_snapshot-Shows_example =
    publish_snapshot-Shows server "leaf" (utf8 "Hello you") (utf8 "Busy") none true

bounded_content_text_lem_example :
    ((bounded_content_text (utf8 "ab")).1 ≡ false)
      × ((bounded_content_text (utf8 "ab")).0 ≡ utf8 "ab")
      × (length (utf8 "ab") ≤ 262_144)
    ⊎ ((bounded_content_text (utf8 "ab")).1 ≡ true)
      × (262_144 < length (utf8 "ab"))
      × (length (bounded_content_text (utf8 "ab")).0 ≤ 262_144)
      × (utf8 "ab"
          ≡ (bounded_content_text (utf8 "ab")).0
            ++ drop (length (bounded_content_text (utf8 "ab")).0) (utf8 "ab"))
      × ((length (bounded_content_text (utf8 "ab")).0 ≡ 0)
          ⊎ (rune_start (byte_at (utf8 "ab") (length (bounded_content_text (utf8 "ab")).0)) ≡ true))
bounded_content_text_lem_example = bounded_content_text_lem (utf8 "ab")
