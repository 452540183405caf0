-- ===== src/Content/Readers.antt =====
-- The invariant of `ContentServer` and its readers, over any calls.
use workitem.Common.{
  ℕ, ◌+◌, ◌-◌, ◌%◌, ◌^◌, ◌≤◌, ◌<◌, ◌<◌, ◌≡◌, refl, ap, sym, subst, String, Bool, true, false, ◌||◌,
  Option, none, some, List, [], ◌∷◌, ◌++◌, length, length-append, All, ltb, leb, ◌==◌, inl, inr,
  Bool-cases, arith,
}
use workitem.Content.Types.{Content, ContentEvent}
use workitem.Content.Server.{
  Stream, ContentServer, content_event_size, content_subscriber_buffer, content_subscriber_bytes,
  max_content_subscribers, send_all, numbered, publish,
}
use workitem.Content.Streams.{
  listen_content, new_stream, subscribe, unsubscribe, without, on_stream, taken, take_event,
  receive, delivered, send_event, close_content,
}
use workitem.Content.Bounds.{IsBounded, apply_content-IsBounded}
use workitem.Content.Following.{in_flight, Track, Follows, send_all-Follows}
use workitem.Content.Calls.{
  ContentCall, perform, perform_all, update_tool_call, start_message_call, set_activity_call,
  set_branch_call, prompt_saved_call, thought_call, mark_saved_call, publish_snapshot_call,
  subscribe_call, unsubscribe_call, take_call, send_call, close_call, keep-update_tool,
  keep-start_message, keep-set_activity, keep-set_branch, keep-prompt_saved, keep-add_thought,
  keep-mark_saved, keep-publish_snapshot,
}

pub record IsSound (s : ContentServer) : Type 0 where
  pub bounded : IsBounded s.value
  pub readers : All (Follows s.value) s.subscribers
  pub few : length s.subscribers ≤ 32

length-send_all :
    (e : ContentEvent) (streams : List Stream) → length (send_all e streams) ≤ length streams
unfolding send_all
length-send_all e [] = omega arith
length-send_all e (s ∷ streams) =
    let ih = length-send_all e streams in
    elim (Bool-cases (
      ltb content_subscriber_bytes (s.queued + content_event_size e)
      || leb content_subscriber_buffer (length s.events))) [
        | inl b ↦ rw b (omega arith)
        | inr b ↦ rw b (omega arith)
      ]

publish-IsSound :
    (s : ContentServer) (e : ContentEvent)
    → e.snapshot_content ≡ none
    → IsSound s
    → IsSound (publish s e)
unfolding publish
publish-IsSound s e h p = record {
  bounded = apply_content-IsBounded s.value (numbered s.value e) h p.bounded;
  readers = send_all-Follows s.value (numbered s.value e) s.subscribers h refl p.readers;
  few = omega (arith, length-send_all (numbered s.value e) s.subscribers, p.few);
}

on_stream-All :
    (P : Stream → Type 0) (id : ℕ) (f : Stream → Stream) (streams : List Stream)
    → ((s : Stream) → P s → P (f s))
    → All P streams
    → All P (on_stream id f streams)
on_stream-All P id f [] h a = tt
on_stream-All P id f (s ∷ streams) h a = elim (Bool-cases (s.id == id)) [
  | inl e ↦ rw e (h s a.0, on_stream-All P id f streams h a.1)
  | inr e ↦ rw e (a.0, on_stream-All P id f streams h a.1)
]

length-on_stream :
    (id : ℕ) (f : Stream → Stream) (streams : List Stream)
    → length (on_stream id f streams) ≡ length streams
length-on_stream id f [] = refl
length-on_stream id f (s ∷ streams) = omega (arith, length-on_stream id f streams)

without-All :
    (P : Stream → Type 0) (id : ℕ) (streams : List Stream)
    → All P streams
    → All P (without id streams)
without-All P id [] a = tt
without-All P id (s ∷ streams) a = elim (Bool-cases (s.id == id)) [
  | inl e ↦ rw e (without-All P id streams a.1)
  | inr e ↦ rw e (a.0, without-All P id streams a.1)
]

length-without : (id : ℕ) (streams : List Stream) → length (without id streams) ≤ length streams
length-without id [] = omega arith
length-without id (s ∷ streams) = elim (Bool-cases (s.id == id)) [
  | inl e ↦ rw e (omega (arith, length-without id streams))
  | inr e ↦ rw e (omega (arith, length-without id streams))
]

snoc-All :
    (P : Stream → Type 0) (streams : List Stream) (s : Stream)
    → All P streams
    → P s
    → All P (streams ++ s ∷ [])
snoc-All P [] s a p = (p, tt)
snoc-All P (t ∷ streams) s a p = (a.0, snoc-All P streams s a.1 p)

taken-Follows :
    (v : Content) (sending : Option ContentEvent) (events : List ContentEvent) (s : Stream)
    → s.sending ≡ sending
    → s.events ≡ events
    → Follows v s
    → Follows v (taken sending events s)
taken-Follows v none [] s p q f = f
taken-Follows v (some e) events s p q f = f
taken-Follows v none (e ∷ events) s p q f = record {
  track = subst (Track v s.shown s.last s.queued) (λ i. in_flight (p i) (q i)) f.track;
  unskipped = f.unskipped;
  bytes_fit = f.bytes_fit;
  buffer_fits = omega (arith, ap length q, f.buffer_fits);
}

eq→eqb : (a b : ℕ) → a ≡ b → (a == b) ≡ true
eq→eqb a b h = ground arith

receive-Follows :
    (v : Content) (e : ContentEvent) (s : Stream)
    → Track v s.shown s.last (s.queued + content_event_size e) (e ∷ s.events)
    → s.sending ≡ none
    → s.skipped ≡ false
    → s.queued ≤ 8_388_608
    → length s.events ≤ 512
    → Follows v (receive s e)
unfolding receive
receive-Follows v e s t none_sending skip fit buffer =
    let b : (e.sequence == (s.last + 1) % 2 ^ 64) ≡ true = eq→eqb _ _ t.in_order.0 in
    rw (b, skip)
      (record {
        track =
            subst (Track v _ e.sequence s.queued) (λ i. in_flight (sym none_sending i) s.events)
              (record {
                replays = t.replays;
                in_order = t.in_order.1;
                counted = omega (arith, t.counted);
              });
        unskipped = refl;
        bytes_fit = fit;
        buffer_fits = buffer;
      })

delivered-Follows :
    (v : Content) (sending : Option ContentEvent) (s : Stream)
    → s.sending ≡ sending
    → Follows v s
    → Follows v (delivered sending s)
delivered-Follows v none s p f = f
delivered-Follows v (some e) s p f =
    let t : Track v s.shown s.last s.queued (e ∷ s.events) =
      subst (Track v s.shown s.last s.queued) (λ i. in_flight (p i) s.events) f.track in
    let back : s.queued ≡ s.queued - content_event_size e + content_event_size e =
      omega (arith, t.counted) in
    receive-Follows v e (record s { sending = none; queued = s.queued - content_event_size e })
      (subst (λ q. Track v s.shown s.last q (e ∷ s.events)) back t) refl f.unskipped
      (omega (arith, f.bytes_fit)) f.buffer_fits

new_stream-Follows : (v : Content) (id : ℕ) → Follows v (new_stream id v)
new_stream-Follows v id = record {
  track = record { replays = refl; in_order = refl; counted = refl };
  unskipped = refl;
  bytes_fit = omega arith;
  buffer_fits = omega arith;
}

room : (closed : Bool) (n : ℕ) → (closed || leb 32 n) ≡ false → n < 32
room true n h = cc
room false n h = ground arith

subscribe-IsSound : (s : ContentServer) (id : ℕ) → IsSound s → IsSound (subscribe s id)
unfolding subscribe
subscribe-IsSound s id p =
    elim (Bool-cases (s.closed || leb max_content_subscribers (length s.subscribers))) [
      | inl e ↦ rw e p
      | inr e ↦ rw e (record {
        bounded = p.bounded;
        readers =
            snoc-All (Follows s.value) s.subscribers _ p.readers (new_stream-Follows s.value id);
        few = omega (
          arith,
          room s.closed (length s.subscribers) e,
          length-append s.subscribers (new_stream id s.value ∷ []),
        );
      })
    ]

perform-IsSound : (s : ContentServer) (c : ContentCall) → IsSound s → IsSound (perform s c)
unfolding perform unsubscribe take_event send_event close_content
perform-IsSound s (update_tool_call type r) p = keep-update_tool IsSound publish-IsSound s type r p
perform-IsSound s start_message_call p = keep-start_message IsSound publish-IsSound s p
perform-IsSound s (set_activity_call activity) p =
    keep-set_activity IsSound publish-IsSound s activity p
perform-IsSound s (set_branch_call leaf activity) p =
    keep-set_branch IsSound publish-IsSound s leaf activity p
perform-IsSound s (prompt_saved_call request ids) p =
    keep-prompt_saved IsSound publish-IsSound s request ids p
perform-IsSound s (thought_call text) p = keep-add_thought IsSound publish-IsSound s text p
perform-IsSound s (mark_saved_call text ids) p =
    keep-mark_saved IsSound publish-IsSound s text ids p
perform-IsSound s (publish_snapshot_call leaf text activity tool truncated) p =
    keep-publish_snapshot IsSound publish-IsSound s leaf text activity tool truncated p
perform-IsSound s (subscribe_call id) p = subscribe-IsSound s id p
perform-IsSound s (unsubscribe_call id) p = record {
  bounded = p.bounded;
  readers = without-All (Follows s.value) id s.subscribers p.readers;
  few = omega (arith, length-without id s.subscribers, p.few);
}
perform-IsSound s (take_call id) p = record {
  bounded = p.bounded;
  readers =
      on_stream-All (Follows s.value) id (λ t. taken t.sending t.events t) s.subscribers
        (λ t f. taken-Follows s.value t.sending t.events t refl refl f) p.readers;
  few = omega (arith, length-on_stream id (λ t. taken t.sending t.events t) s.subscribers, p.few);
}
perform-IsSound s (send_call id) p = record {
  bounded = p.bounded;
  readers =
      on_stream-All (Follows s.value) id (λ t. delivered t.sending t) s.subscribers
        (λ t f. delivered-Follows s.value t.sending t refl f) p.readers;
  few = omega (arith, length-on_stream id (λ t. delivered t.sending t) s.subscribers, p.few);
}
perform-IsSound s close_call p = record { bounded = p.bounded; readers = tt; few = omega arith }

perform_all-keeps :
    (s : ContentServer) (calls : List ContentCall) → IsSound s → IsSound (perform_all s calls)
unfolding perform_all
perform_all-keeps s [] p = p
perform_all-keeps s (c ∷ calls) p = perform_all-keeps (perform s c) calls (perform-IsSound s c p)

-- After any calls of a new server and steps of its streams, in any order, the following holds. The text
-- of the snapshot has at most 256 KiB, its thought 64 KiB, and there are at most 32 tools, 8 links and
-- 32 readers. Each reader's client has met no gap, and comes to the server's snapshot by the events
-- that are on the way to it, whose sequence numbers follow one another; its queue has at most 512
-- events, and the count of its bytes is right and at most 8 MiB.
pub perform_all-IsSound :
    (runtime item : String) (idle : Bool) (calls : List ContentCall)
    → IsSound (perform_all (listen_content runtime item idle) calls)
perform_all-IsSound runtime item idle calls =
    perform_all-keeps (listen_content runtime item idle) calls (record {
      bounded = record {
        text_fits = omega arith;
        thought_fits = omega arith;
        tools_fit = omega arith;
        prompts_fit = omega arith;
      };
      readers = tt;
      few = omega arith;
    })
