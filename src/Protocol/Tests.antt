-- ===== src/Protocol/Tests.antt =====
-- What the gateway writes at concrete inputs: an empty object, a named number and the end mark.
use llm2api.Prelude.{◌≡◌, refl, Bool, true, List, [], ◌∷◌, map, arith}
use llm2api.Canonical.Sse.{ok, feed}
use llm2api.Protocol.Present.{Frame, plain, named, finished, write_all}
use llm2api.Protocol.Lines.{is_line, idle}
use llm2api.Protocol.RoundTrip.{event_of, feed-write_all}

abbrev frames : List Frame
frames = plain (123 ∷ 125 ∷ []) ∷ named (112 ∷ []) (49 ∷ []) ∷ finished ∷ []

feed-write_all_example :
    (later : Bool) × (feed (idle 64 [] true) (write_all frames)
      ≡ (idle 64 [] later, ok (map (event_of []) frames)))
unfolding is_line
feed-write_all_example =
    feed-write_all 64 [] frames true
      ((refl, omega arith), (((refl, omega arith), (refl, omega arith)), (omega arith, tt)))
