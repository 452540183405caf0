-- ===== src/Content/Streams.antt =====
-- The readers of `ContentServer`: `subscribe`, `stream`, `drop`, `Close`, and `SubscribeContent` at the
-- other end of a stream.
use workitem.Common.{
  ℕ, String, ◌+◌, ◌-◌, ◌%◌, ◌^◌, Bool, true, false, ◌&&◌, ◌||◌, not, Option, none, some, List, [],
  ◌∷◌, ◌++◌, length, leb, ◌==◌, if◌then◌else◌,
}
use workitem.Content.Types.{Content, ContentEvent}
use workitem.Content.Apply.{apply_content}
use workitem.Content.Server.{Stream, ContentServer, max_content_subscribers, content_event_size}

-- `ListenContent`, without the socket.
abbrev pub listen_content : String → String → Bool → ContentServer
listen_content runtime item idle = record {
  value = record {
    protocol_version = 1;
    runtime_id = runtime;
    work_item_id = item;
    sequence = 0;
    idle_guard = idle;
    message_id = "";
    text = [];
    truncated = false;
    activity = [];
    leaf_id = "";
    saved_as = [];
    thought = [];
    error = [];
    tool = none;
    tools = [];
    prompts = [];
  };
  closed = false;
  subscribers = [];
}

-- A new reader is sent the snapshot first, which its client takes over with its sequence number.
abbrev pub new_stream : ℕ → Content → Stream
new_stream id value = record {
  id = id;
  events = [];
  queued = 0;
  sending = none;
  last = value.sequence;
  shown = value;
  skipped = false;
}

-- `subscribe`, which adds no reader where it returns an error.
unfoldable pub subscribe : ContentServer → ℕ → ContentServer
subscribe s id =
    if s.closed || leb max_content_subscribers (length s.subscribers)
    then s
    else record s { subscribers = s.subscribers ++ new_stream id s.value ∷ [] }

abbrev pub without : ℕ → List Stream → List Stream
without id [] = []
without id (s ∷ streams) = let rest = without id streams in if s.id == id then rest else s ∷ rest

-- `unsubscribe` and `drop`
unfoldable pub unsubscribe : ContentServer → ℕ → ContentServer
unsubscribe s id = record s { subscribers = without id s.subscribers }

abbrev pub on_stream : ℕ → (Stream → Stream) → List Stream → List Stream
on_stream id f [] = []
on_stream id f (s ∷ streams) =
    let rest = on_stream id f streams in (if s.id == id then f s else s) ∷ rest

-- `event, open := <-reader.events`, once the last event is sent.
abbrev pub taken : Option ContentEvent → List ContentEvent → Stream → Stream
taken none (e ∷ events) s = record s { sending = some e; events = events }
taken none [] s = s
taken (some e) events s = s

unfoldable pub take_event : ContentServer → ℕ → ContentServer
take_event s id = record s {
  subscribers = on_stream id (λ t. taken t.sending t.events t) s.subscribers;
}

-- The loop of `SubscribeContent` for one event.
unfoldable pub receive : Stream → ContentEvent → Stream
receive s e =
    if e.sequence == (s.last + 1) % 2 ^ 64 && not s.skipped
    then record s { last = e.sequence; shown = apply_content s.shown e }
    else record s { skipped = true }

-- `send(event)` and `reader.queued.Add(-contentEventSize(event))`
abbrev pub delivered : Option ContentEvent → Stream → Stream
delivered none s = s
delivered (some e) s =
    receive (record s { sending = none; queued = s.queued - content_event_size e }) e

unfoldable pub send_event : ContentServer → ℕ → ContentServer
unfolding receive
send_event s id = record s { subscribers = on_stream id (λ t. delivered t.sending t) s.subscribers }

unfoldable pub close_content : ContentServer → ContentServer
close_content s = record s { closed = true; subscribers = [] }
