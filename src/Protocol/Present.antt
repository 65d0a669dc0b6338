-- ===== src/Protocol/Present.antt =====
-- internal/protocol/present.go: the server-sent events that the gateway writes. The JSON encoding of
-- a value is a parameter: an event has the encoded bytes.
use llm2api.Prelude.{ℕ, List, [], ◌∷◌, ◌++◌}

-- "data: " and two line feeds
unfoldable pub write_sse : List ℕ → List ℕ
write_sse encoded = 100 ∷ 97 ∷ 116 ∷ 97 ∷ 58 ∷ 32 ∷ encoded ++ 10 ∷ 10 ∷ []

-- "event: " and a line feed before it
unfoldable pub write_named_sse : List ℕ → List ℕ → List ℕ
write_named_sse event encoded =
    101 ∷ 118 ∷ 101 ∷ 110 ∷ 116 ∷ 58 ∷ 32 ∷ event ++ 10 ∷ write_sse encoded

-- The end mark in brackets.
abbrev pub done_mark : List ℕ
done_mark = 91 ∷ 68 ∷ 79 ∷ 78 ∷ 69 ∷ 93 ∷ []

abbrev pub write_sse_done : List ℕ
write_sse_done = write_sse done_mark

-- A call of one of the three.
pub data Frame : Type 0 where
  plain : (encoded : List ℕ) → Frame
  named : (event encoded : List ℕ) → Frame
  finished : Frame

abbrev pub write : Frame → List ℕ
write (plain encoded) = write_sse encoded
write (named event encoded) = write_named_sse event encoded
write finished = write_sse_done

unfoldable pub write_all : List Frame → List ℕ
write_all [] = []
write_all (f ∷ fs) = write f ++ write_all fs
