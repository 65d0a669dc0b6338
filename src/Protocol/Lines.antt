-- ===== src/Protocol/Lines.antt =====
-- internal/protocol/present.go and internal/canonical/sse.go: the decoder on
-- single lines of what the gateway writes.
use mathlib.Core.List.{append_assoc}
use llm2api.Prelude.{
  ℕ, ◌+◌, ◌≤◌, ◌≡◌, refl, sym, ap, ◌∙◌, Bool, true, false, ◌&&◌, not, none, some, List, [], ◌∷◌,
  ◌++◌, length, ltb, ◌==◌, arith,
}
use llm2api.Canonical.Sse.{
  SseDecoder, ok, drop_return, scan_line, process_line, process_text, consume_field, append_data,
  field_result, cut, dispatch, trim_mark, value_of, set_field, same_bytes,
}

-- Bytes without a line feed or a carriage return.
unfoldable pub is_line : List ℕ → Bool
is_line [] = true
is_line (b ∷ bs) = not (b == 10) && not (b == 13) && is_line bs

-- The decoder between two events, with the last ID that it has seen.
abbrev pub idle : ℕ → List ℕ → Bool → SseDecoder
idle most id first = record {
  max_event_bytes = most;
  buffer = [];
  data_bytes = [];
  event = [];
  id = id;
  retry = none;
  seen_data = false;
  first_line = first;
  closed = false;
}

pub is_line-append :
    (xs : List ℕ) (b : ℕ)
    → is_line xs ≡ true
    → (b == 10) ≡ false
    → (b == 13) ≡ false
    → is_line (xs ++ b ∷ []) ≡ true
unfolding is_line
is_line-append [] b h e f = ground arith
is_line-append (x ∷ xs) b h e f = ground (arith, is_line-append xs b)

pub drop_return-is_line : (xs : List ℕ) → is_line xs ≡ true → drop_return xs ≡ xs
unfolding is_line drop_return
drop_return-is_line [] h = refl
drop_return-is_line (b ∷ []) h = ground arith
drop_return-is_line (b ∷ c ∷ bs) h = ground (arith, drop_return-is_line (c ∷ bs))

pub append_nil : (xs : List ℕ) → xs ++ [] ≡ xs
append_nil [] = refl
append_nil (x ∷ xs) = ap (λ ys. x ∷ ys) (append_nil xs)

-- A line without line ends is cut off before its line feed.
pub scan_line-is_line :
    (before xs rest : List ℕ)
    → is_line before ≡ true
    → is_line xs ≡ true
    → scan_line before (xs ++ 10 ∷ rest) false ≡ some (before ++ xs, rest)
unfolding scan_line is_line
scan_line-is_line before [] rest h k =
    ap (λ l. some (l, rest)) (drop_return-is_line before h ∙ sym (append_nil before))
scan_line-is_line before (b ∷ xs) rest h k = ground (
  arith,
  scan_line-is_line (before ++ b ∷ []) xs rest,
  is_line-append before b h,
  append_assoc before (b ∷ []) xs,
)

-- A decoder within an event.
abbrev pub decoding : ℕ → List ℕ → List ℕ → List ℕ → Bool → Bool → List ℕ → SseDecoder
decoding most id event data_bytes seen first buffer = record {
  max_event_bytes = most;
  buffer = buffer;
  data_bytes = data_bytes;
  event = event;
  id = id;
  retry = none;
  seen_data = seen;
  first_line = first;
  closed = false;
}

pub within_limit : (n most : ℕ) → n ≤ most → ltb most n ≡ false
within_limit n most h = ground arith

abbrev pub data_line : List ℕ → List ℕ
data_line x = 100 ∷ 97 ∷ 116 ∷ 97 ∷ 58 ∷ 32 ∷ x

abbrev pub event_line : List ℕ → List ℕ
event_line x = 101 ∷ 118 ∷ 101 ∷ 110 ∷ 116 ∷ 58 ∷ 32 ∷ x

module _ (most : ℕ) (id event x buffer : List ℕ) (first : Bool) where
  pub append_first :
      length x ≤ most
      → append_data (decoding most id event [] false false buffer) x
        ≡ (decoding most id event x true false buffer, none)
  unfolding append_data
  append_first h = rw (within_limit (0 + length x) most (omega (arith, h))) refl

  pub process_data :
      length x + 6 ≤ most
      → process_line (decoding most id event [] false first buffer) (data_line x)
        ≡ (decoding most id event x true false buffer, ok none)
  unfolding process_line process_text consume_field cut trim_mark value_of set_field same_bytes
  process_data h = go first
    where
      go :
          (b : Bool)
          → process_line (decoding most id event [] false b buffer) (data_line x)
            ≡ (decoding most id event x true false buffer, ok none)
      go true =
          rw (within_limit (length (data_line x)) most (omega arith))
            (ap field_result (append_first (omega arith)))
      go false =
          rw (within_limit (length (data_line x)) most (omega arith))
            (ap field_result (append_first (omega arith)))

  pub process_event :
      length x + 7 ≤ most
      → process_line (decoding most id event [] false first buffer) (event_line x)
        ≡ (decoding most id x [] false false buffer, ok none)
  unfolding process_line process_text consume_field cut trim_mark value_of set_field same_bytes
  process_event h = go first
    where
      go :
          (b : Bool)
          → process_line (decoding most id event [] false b buffer) (event_line x)
            ≡ (decoding most id x [] false false buffer, ok none)
      go true = rw (within_limit (length (event_line x)) most (omega arith)) refl
      go false = rw (within_limit (length (event_line x)) most (omega arith)) refl

  -- The empty line that ends an event.
  pub process_end : process_line (decoding most id event x true false buffer) [] ≡ (
    decoding most id [] [] false false buffer,
    ok (some (record { event = event; data_bytes = x; id = id; retry_milliseconds = none })),
  )
  unfolding process_line process_text dispatch
  process_end = rw (within_limit 0 most (omega arith)) refl
