-- ===== src/Canonical/Tests.antt =====
-- The theorems about the event stream at a concrete input: the field "data: hi", cut after its CR.
use llm2api.Prelude.{◌≡◌, refl, true, false, none, List, [], ◌∷◌, ◌++◌, ℕ, pos, arith}
use llm2api.Canonical.Sse.{
  ok, SseEvent, SseDecoder, new_sse_decoder, feed, close, consume, scan_line, after_return,
  drop_return, process_line, process_text, consume_field, set_field, append_data, dispatch, cut,
  value_of, same_bytes, trim_mark,
}
use llm2api.Canonical.Sse.Bounds.{IsBounded, Respects, calls-IsBounded}
use llm2api.Canonical.Sse.Stream.{feed-append}

abbrev fresh : SseDecoder
fresh = record {
  max_event_bytes = 64;
  buffer = [];
  data_bytes = [];
  event = [];
  id = [];
  retry = none;
  seen_data = false;
  first_line = true;
  closed = false;
}

made : new_sse_decoder (pos 64) ≡ fresh
unfolding new_sse_decoder
made = refl

abbrev chunk : List ℕ
chunk = 100 ∷ 97 ∷ 116 ∷ 97 ∷ 58 ∷ 32 ∷ 104 ∷ 105 ∷ 13 ∷ []

abbrev more : List ℕ
more = 10 ∷ 10 ∷ []

abbrev hi : SseEvent
hi = record { event = []; data_bytes = 104 ∷ 105 ∷ []; id = []; retry_milliseconds = none }

waits : (feed fresh chunk).1 ≡ ok []
unfolding feed consume scan_line after_return drop_return
waits = refl

dispatches : (feed (feed fresh chunk).0 more).1 ≡ ok (hi ∷ [])
unfolding feed consume scan_line after_return drop_return process_line process_text consume_field
    set_field append_data dispatch cut value_of same_bytes trim_mark
dispatches = refl

feed-append_example :
    feed fresh (chunk ++ more) ≡ ((feed (feed fresh chunk).0 more).0, ok ([] ++ hi ∷ []))
feed-append_example = feed-append fresh chunk more [] (hi ∷ []) waits dispatches

fresh-IsBounded : IsBounded 64 fresh
fresh-IsBounded = record { limit = refl; data_le = omega arith; unseen = λ h. refl }

calls-IsBounded_example : Respects 64 (feed fresh chunk) × Respects 64 (close fresh)
calls-IsBounded_example = calls-IsBounded fresh chunk fresh-IsBounded
