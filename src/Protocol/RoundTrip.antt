-- ===== src/Protocol/RoundTrip.antt =====
-- internal/protocol/present.go and internal/canonical/sse.go: the decoder on what the gateway
-- writes.
use llm2api.Prelude.{
  ℕ, suc, ◌+◌, ◌≤◌, ◌≡◌, refl, ap, ◌∙◌, Bool, true, false, Option, none, some, List, [], ◌∷◌, ◌++◌,
  length, All, map, arith,
}
use llm2api.Canonical.Sse.{
  SseDecoder, SseEvent, ok, process_line, consume, feed, check_buffer, and_then, prepend,
}
use llm2api.Canonical.Sse.Stream.{feed-append}
use llm2api.Canonical.Sse.Chunks.{with_buffer, Outcome, consume_step, consume_empty}
use llm2api.Protocol.Present.{
  write_sse, write_named_sse, done_mark, Frame, plain, named, finished, write, write_all,
}
use llm2api.Protocol.Lines.{
  is_line, idle, scan_line-is_line, decoding, within_limit, data_line, event_line, process_data,
  process_event, process_end,
}

-- The event that a frame stands for.
abbrev pub event_of : List ℕ → Frame → SseEvent
event_of id (plain encoded) = record {
  event = [];
  data_bytes = encoded;
  id = id;
  retry_milliseconds = none;
}
event_of id (named event encoded) = record {
  event = event;
  data_bytes = encoded;
  id = id;
  retry_milliseconds = none;
}
event_of id finished = record {
  event = [];
  data_bytes = done_mark;
  id = id;
  retry_milliseconds = none;
}

-- The encodings are without line ends and the lines fit the decoder.
abbrev pub Fits : ℕ → Frame → Type 0
Fits most (plain encoded) = (is_line encoded ≡ true) × (length encoded + 6 ≤ most)
Fits most (named event encoded) =
    ((is_line event ≡ true) × (length event + 7 ≤ most))
    × ((is_line encoded ≡ true) × (length encoded + 6 ≤ most))
Fits most finished = 12 ≤ most

empty_line : is_line [] ≡ true
unfolding is_line
empty_line = refl

-- A line takes one round.
line_step :
    (fuel : ℕ) (d : SseDecoder) (xs rest : List ℕ)
    → is_line xs ≡ true
    → consume (suc fuel) (with_buffer d (xs ++ 10 ∷ rest)) false
      ≡ and_then (process_line (with_buffer d rest) xs) (λ d'. consume fuel d' false)
line_step fuel d xs rest h =
    consume_step fuel (with_buffer d (xs ++ 10 ∷ rest)) false xs rest
      (scan_line-is_line [] xs rest empty_line h)

abbrev after_line : Option SseEvent → Outcome → Outcome
after_line e r = (r.0, prepend e r.1)

module _ (most : ℕ) (id event x : List ℕ) (first : Bool) where
  abbrev ended : Outcome
  ended = (
    idle most id false,
    ok (record { event = event; data_bytes = x; id = id; retry_milliseconds = none } ∷ []),
  )

  data_consumed :
      (k : ℕ)
      → is_line x ≡ true
      → length x + 6 ≤ most
      → consume
          (suc (suc k))
          (decoding most id event [] false first (data_line x ++ 10 ∷ 10 ∷ []))
          false
        ≡ ended
  unfolding is_line
  data_consumed k h l =
      line_step (suc k) (decoding most id event [] false first []) (data_line x) (10 ∷ []) h
      ∙ ap (λ r. and_then r (λ d'. consume (suc k) d' false))
          (process_data most id event x (10 ∷ []) first l)
      ∙ ap (after_line none) (
          line_step k (decoding most id event x true false []) [] [] refl
          ∙ ap (λ r. and_then r (λ d'. consume k d' false)) (process_end most id event x [] false)
          ∙ ap
              (after_line (
                some
                  (record { event = event; data_bytes = x; id = id; retry_milliseconds = none })))
              (consume_empty k _ false refl))

frame_consumed :
    (most : ℕ) (id : List ℕ) (first : Bool) (f : Frame) (k : ℕ)
    → Fits most f
    → consume (suc (suc (suc k))) (with_buffer (idle most id first) (write f)) false
      ≡ (idle most id false, ok (event_of id f ∷ []))
unfolding write_sse write_named_sse is_line
frame_consumed most id first (plain x) k (h, l) = data_consumed most id [] x first (suc k) h l
frame_consumed most id first finished k l = data_consumed most id [] done_mark first (suc k) refl l
frame_consumed most id first (named e x) k ((h, l), (h', l')) =
    line_step (suc (suc k)) (decoding most id [] [] false first []) (event_line e)
      (data_line x ++ 10 ∷ 10 ∷ []) h
    ∙ ap (λ r. and_then r (λ d'. consume (suc (suc k)) d' false))
        (process_event most id [] e (data_line x ++ 10 ∷ 10 ∷ []) first l)
    ∙ ap (after_line none) (data_consumed most id e x false k h' l')

check_idle :
    (most : ℕ) (id : List ℕ) (es : List SseEvent)
    → check_buffer (idle most id false, ok es) ≡ (idle most id false, ok es)
check_idle most id es = rw (within_limit 0 most (omega arith)) refl

feed_nothing :
    (most : ℕ) (id : List ℕ) (first : Bool)
    → feed (idle most id first) [] ≡ (idle most id first, ok [])
unfolding feed
feed_nothing most id first = refl

-- The decoder on a frame.
feed_frame :
    (most : ℕ) (id : List ℕ) (first : Bool) (f : Frame)
    → Fits most f
    → feed (idle most id first) (write f) ≡ (idle most id false, ok (event_of id f ∷ []))
unfolding feed write_sse write_named_sse
feed_frame most id first (plain x) h =
    ap check_buffer (frame_consumed most id first (plain x) _ h) ∙ check_idle most id _
feed_frame most id first finished h =
    ap check_buffer (frame_consumed most id first finished _ h) ∙ check_idle most id _
feed_frame most id first (named e x) h =
    ap check_buffer (frame_consumed most id first (named e x) _ h) ∙ check_idle most id _

-- For any number of calls of WriteSSE, WriteNamedSSE and WriteSSEDone whose encoded values and event
-- names have no line ends and whose lines fit the decoder's limit: what they write, fed to a decoder
-- that is between two events, gives back exactly their events, in order and with the decoder's last
-- ID, and leaves the decoder between two events.
pub feed-write_all :
    (most : ℕ) (id : List ℕ) (fs : List Frame) (first : Bool)
    → All (Fits most) fs
    → (later : Bool) × (feed (idle most id first) (write_all fs)
        ≡ (idle most id later, ok (map (event_of id) fs)))
unfolding write_all
feed-write_all most id [] first h = (first, feed_nothing most id first)
feed-write_all most id (f ∷ fs) first (h, hs) =
    let one = feed_frame most id first f h in
    let (later, rest) = feed-write_all most id fs false hs in
    let next : feed (feed (idle most id first) (write f)).0 (write_all fs)
        ≡ (idle most id later, ok (map (event_of id) fs)) =
      ap (λ r. feed r.0 (write_all fs)) one ∙ rest in
    (
      later,
      feed-append (idle most id first) (write f) (write_all fs) (event_of id f ∷ [])
            (map (event_of id) fs) (ap (λ r. r.1) one) (ap (λ r. r.1) next)
          ∙ ap (λ r. (r.0, ok (event_of id f ∷ map (event_of id) fs))) next,
    )
