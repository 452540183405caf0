-- ===== src/Content/Following.antt =====
-- What every reader of the live content has, whatever calls are made.
use workitem.Common.{
  ℕ, ◌+◌, ◌%◌, ◌^◌, ◌≤◌, ◌<◌, ◌≡◌, ◌∙◌, refl, ap, sym, subst, String, Bool, true, false, Option,
  none, some, List, [], ◌∷◌, ◌++◌, length, length-append, All, ltb, leb, if◌then◌else◌, inl, inr,
  Bool-cases, ltb→le, arith,
}
use workitem.Strings.{is_empty}
use workitem.Content.Bytes.{Bytes, no_bytes}
use workitem.Content.Types.{
  Content, ContentEvent, ContentEventType, ContentTool, snapshot, message_started, message_delta,
  message_replaced, message_completed, message_saved, tool_started, tool_updated, tool_completed,
  tool_cleared, thought_delta, prompt_saved, activity_changed, turn_settled, other_type,
}
use workitem.Content.Apply.{
  apply_content, apply_content-plain, switched, settled, with_text, with_tool,
}
use workitem.Content.Server.{
  Stream, content_event_size, content_subscriber_buffer, content_subscriber_bytes, send_all,
}

-- What a reader shows behind some events.
abbrev pub show_all : Content → List ContentEvent → Content
show_all v [] = v
show_all v (e ∷ events) = show_all (apply_content v e) events

-- The sequence numbers follow one another, from behind `last` up to `end`.
abbrev pub InOrder : ℕ → List ContentEvent → ℕ → Type 0
InOrder last [] end = last ≡ end
InOrder last (e ∷ events) end = (e.sequence ≡ (last + 1) % 2 ^ 64) × InOrder e.sequence events end

abbrev pub sizes : List ContentEvent → ℕ
sizes [] = 0
sizes (e ∷ events) = content_event_size e + sizes events

-- The events on the way to a client.
abbrev pub in_flight : Option ContentEvent → List ContentEvent → List ContentEvent
in_flight none events = events
in_flight (some e) events = e ∷ events

pub record Track (v shown : Content) (last queued : ℕ) (flight : List ContentEvent) : Type 0 where
  pub replays : show_all shown flight ≡ v
  pub in_order : InOrder last flight v.sequence
  pub counted : queued ≡ sizes flight

-- A client that has reported no gap reaches the server's snapshot by the events on the way to it, and
-- its queue is within its bounds.
pub record Follows (v : Content) (s : Stream) : Type 0 where
  pub track : Track v s.shown s.last s.queued (in_flight s.sending s.events)
  pub unskipped : s.skipped ≡ false
  pub bytes_fit : s.queued ≤ 8_388_608
  pub buffer_fits : length s.events ≤ 512

show_all-snoc :
    (v : Content) (events : List ContentEvent) (e : ContentEvent)
    → show_all v (events ++ e ∷ []) ≡ apply_content (show_all v events) e
show_all-snoc v [] e = refl
show_all-snoc v (d ∷ events) e = show_all-snoc (apply_content v d) events e

snoc-InOrder :
    (last : ℕ) (events : List ContentEvent) (end : ℕ) (e : ContentEvent)
    → InOrder last events end
    → e.sequence ≡ (end + 1) % 2 ^ 64
    → InOrder last (events ++ e ∷ []) e.sequence
snoc-InOrder last [] end e o h = (h ∙ ap (λ n. (n + 1) % 2 ^ 64) (sym o), refl)
snoc-InOrder last (d ∷ events) end e o h = (o.0, snoc-InOrder d.sequence events end e o.1 h)

sizes-snoc :
    (events : List ContentEvent) (e : ContentEvent)
    → sizes (events ++ e ∷ []) ≡ sizes events + content_event_size e
sizes-snoc [] e = omega arith
sizes-snoc (d ∷ events) e = omega (arith, sizes-snoc events e)

in_flight-snoc :
    (sending : Option ContentEvent) (events : List ContentEvent) (e : ContentEvent)
    → in_flight sending (events ++ e ∷ []) ≡ in_flight sending events ++ e ∷ []
in_flight-snoc none events e = refl
in_flight-snoc (some d) events e = refl

-- Every event but a snapshot gives the snapshot its sequence number.
settled-sequence : (e : ContentEvent) (v : Content) → (settled e v).sequence ≡ v.sequence
settled-sequence e v = elim (Bool-cases (no_bytes e.activity)) [
  | inl n ↦ rw n refl
  | inr n ↦ rw n refl
]

delta-sequence :
    (v : Content) (text : Bytes × Bool) (truncated : Bool)
    → (if truncated then v else with_text v text).sequence ≡ v.sequence
delta-sequence v text true = refl
delta-sequence v text false = refl

replaced-sequence :
    (v : Content) (id : String) (keep : Bool)
    → (if keep then v else record v { message_id = id }).sequence ≡ v.sequence
replaced-sequence v id true = refl
replaced-sequence v id false = refl

with_tool-sequence :
    (v : Content) (tool : Option ContentTool) → (with_tool v tool).sequence ≡ v.sequence
with_tool-sequence v none = refl
with_tool-sequence v (some tool) = refl

switched-sequence :
    (type : ContentEventType) (e : ContentEvent) (v : Content)
    → (switched type e v).sequence ≡ v.sequence
unfolding switched
switched-sequence snapshot e v = settled-sequence e v
switched-sequence message_started e v = settled-sequence e _
switched-sequence message_delta e v = settled-sequence e _ ∙ delta-sequence v _ v.truncated
switched-sequence message_replaced e v =
    settled-sequence e _ ∙ replaced-sequence _ e.message_id (is_empty e.message_id)
switched-sequence message_completed e v = settled-sequence e v
switched-sequence message_saved e v = settled-sequence e _
switched-sequence tool_started e v = settled-sequence e _ ∙ with_tool-sequence v e.tool
switched-sequence tool_updated e v = settled-sequence e _ ∙ with_tool-sequence v e.tool
switched-sequence tool_completed e v = settled-sequence e _ ∙ with_tool-sequence v e.tool
switched-sequence tool_cleared e v = settled-sequence e _
switched-sequence thought_delta e v = settled-sequence e _
switched-sequence prompt_saved e v = settled-sequence e _
switched-sequence activity_changed e v = refl
switched-sequence turn_settled e v = settled-sequence e v
switched-sequence other_type e v = settled-sequence e v

pub apply_content-sequence :
    (v : Content) (e : ContentEvent)
    → e.snapshot_content ≡ none
    → (apply_content v e).sequence ≡ e.sequence
apply_content-sequence v e h =
    ap (λ w. w.sequence) (apply_content-plain v e h) ∙ switched-sequence e.type e _

Track-snoc :
    (v shown : Content) (last queued : ℕ) (flight : List ContentEvent) (e : ContentEvent)
    → e.snapshot_content ≡ none
    → e.sequence ≡ (v.sequence + 1) % 2 ^ 64
    → Track v shown last queued flight
    → Track (apply_content v e) shown last (queued + content_event_size e) (flight ++ e ∷ [])
Track-snoc v shown last queued flight e h n t = record {
  replays = show_all-snoc shown flight e ∙ ap (λ w. apply_content w e) t.replays;
  in_order =
      subst (InOrder last (flight ++ e ∷ [])) (sym (apply_content-sequence v e h))
        (snoc-InOrder last flight v.sequence e t.in_order n);
  counted = omega (arith, t.counted, sizes-snoc flight e);
}

below : (events : List ContentEvent) → leb 512 (length events) ≡ false → length events < 512
below events h = ground arith

pub send_all-Follows :
    (v : Content) (e : ContentEvent) (streams : List Stream)
    → e.snapshot_content ≡ none
    → e.sequence ≡ (v.sequence + 1) % 2 ^ 64
    → All (Follows v) streams
    → All (Follows (apply_content v e)) (send_all e streams)
unfolding send_all
send_all-Follows v e [] h n f = tt
send_all-Follows v e (s ∷ streams) h n f =
    let rest = send_all-Follows v e streams h n f.1 in
    elim (Bool-cases (ltb content_subscriber_bytes (s.queued + content_event_size e))) [
      | inl b ↦ rw b rest
      | inr b ↦ elim (Bool-cases (leb content_subscriber_buffer (length s.events))) [
        | inl c ↦ rw b (rw c rest)
        | inr c ↦ rw b (
            rw c (
              record {
                track =
                    subst (Track _ s.shown s.last _) (sym (in_flight-snoc s.sending s.events e))
                      (Track-snoc v s.shown s.last s.queued _ e h n f.0.track);
                unskipped = f.0.unskipped;
                bytes_fit = ltb→le _ _ b;
                buffer_fits = omega (arith, below s.events c, length-append s.events (e ∷ []));
              },
              rest,
            ))
      ]
    ]
