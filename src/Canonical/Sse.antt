-- ===== src/Canonical/Sse.antt =====
-- internal/canonical/sse.go: the incremental decoder of server-sent events.
-- Bytes are numbers: 10 is LF, 13 CR, 32 a space, 58 a colon. A call returns the decoder it leaves
-- behind also where it fails.
use llm2api.Prelude.{
  ℕ, zero, suc, ◌+◌, ◌-◌, ◌*◌, ◌^◌, Bool, true, false, ◌&&◌, ◌||◌, not, Option, none, some, List,
  [], ◌∷◌, ◌++◌, length, ℤ, pos, negsuc, ltb, leb, ◌==◌, if◌then◌else◌,
}
pub mod Lines
pub mod Bounds
pub mod Chunks
pub mod Stream

pub data SseError : Type 0 where
  decoder_closed line_too_long event_too_long : SseError

pub data Result {ℓ} (A : Type ℓ) : Type ℓ where
  ok : A → Result A
  err : SseError → Result A

pub record SseEvent : Type 0 where
  pub event : List ℕ
  pub data_bytes : List ℕ
  pub id : List ℕ
  pub retry_milliseconds : Option ℕ

pub record SseDecoder : Type 0 where
  pub max_event_bytes : ℕ
  pub buffer : List ℕ
  pub data_bytes : List ℕ
  pub event : List ℕ
  pub id : List ℕ
  pub retry : Option ℕ
  pub seen_data : Bool
  pub first_line : Bool
  pub closed : Bool

abbrev pub default_max_sse_event_bytes : ℕ
default_max_sse_event_bytes = 1048576

abbrev decoder_of : ℕ → SseDecoder
decoder_of most = record {
  max_event_bytes = most;
  buffer = [];
  data_bytes = [];
  event = [];
  id = [];
  retry = none;
  seen_data = false;
  first_line = true;
  closed = false;
}

unfoldable pub new_sse_decoder : ℤ → SseDecoder
new_sse_decoder (negsuc n) = decoder_of default_max_sse_event_bytes
new_sse_decoder (pos zero) = decoder_of default_max_sse_event_bytes
new_sse_decoder (pos (suc n)) = decoder_of (suc n)

abbrev pub is_empty : List ℕ → Bool
is_empty [] = true
is_empty (b ∷ bs) = false

-- buffer[:index] before a line feed, less a carriage return at its end.
unfoldable pub drop_return : List ℕ → List ℕ
drop_return [] = []
drop_return (b ∷ []) = if b == 13 then [] else b ∷ []
drop_return (b ∷ c ∷ bs) = b ∷ drop_return (c ∷ bs)

-- The line that a carriage return ends, and what follows it.
unfoldable pub after_return : List ℕ → List ℕ → Bool → Option (List ℕ × List ℕ)
after_return line [] at_eof = if at_eof then some (line, []) else none
after_return line (b ∷ bs) at_eof = some (line, if b == 10 then bs else b ∷ bs)

-- The loop over the buffer, split at the index: the line and buffer[consumed:].
unfoldable pub scan_line : List ℕ → List ℕ → Bool → Option (List ℕ × List ℕ)
scan_line before [] at_eof = if at_eof && not (is_empty before) then some (before, []) else none
scan_line before (b ∷ bs) at_eof =
    let next = scan_line (before ++ b ∷ []) bs at_eof in
    if b == 10
    then some (drop_return before, bs)
    else if b == 13
    then after_return before bs at_eof
    else next

abbrev pub next_sse_line : List ℕ → Bool → Option (List ℕ × List ℕ)
next_sse_line buffer at_eof = scan_line [] buffer at_eof

-- bytes.TrimPrefix(line, "\xef\xbb\xbf")
unfoldable pub trim_mark : List ℕ → List ℕ
trim_mark (a ∷ b ∷ c ∷ bs) = if a == 239 && b == 187 && c == 191 then bs else a ∷ b ∷ c ∷ bs
trim_mark [] = []
trim_mark (a ∷ []) = a ∷ []
trim_mark (a ∷ b ∷ []) = a ∷ b ∷ []

-- bytes.Cut at the first colon; no value where there is none.
unfoldable pub cut : List ℕ → List ℕ × Option (List ℕ)
cut [] = ([], none)
cut (b ∷ bs) = let rest = cut bs in if b == 58 then ([], some bs) else (b ∷ rest.0, rest.1)

unfoldable pub same_bytes : List ℕ → List ℕ → Bool
same_bytes [] [] = true
same_bytes [] (b ∷ bs) = false
same_bytes (a ∷ cs) [] = false
same_bytes (a ∷ cs) (b ∷ bs) = (a == b) && same_bytes cs bs

unfoldable pub has_zero : List ℕ → Bool
has_zero [] = false
has_zero (b ∷ bs) = if b == 0 then true else has_zero bs

-- strconv.ParseInt in base 10 with 64 bits, where the caller keeps what is not negative.
unfoldable pub digits : List ℕ → ℕ → Option ℕ
digits [] n = some n
digits (b ∷ bs) n =
    let rest = digits bs (n * 10 + (b - 48)) in if leb 48 b && leb b 57 then rest else none

abbrev pub within : ℕ → Option ℕ → Option ℕ
within most none = none
within most (some n) = if leb n most then some n else none

unfoldable pub parse_milliseconds : List ℕ → Option ℕ
parse_milliseconds [] = none
parse_milliseconds (b ∷ bs) =
    if b == 43
    then (if is_empty bs then none else within 9223372036854775807 (digits bs 0))
    else if b == 45
    then (if is_empty bs then none else within 0 (digits bs 0))
    else within 9223372036854775807 (digits (b ∷ bs) 0)

-- The value: nothing without a colon, and less one space after it.
unfoldable pub value_of : Option (List ℕ) → List ℕ
value_of none = []
value_of (some []) = []
value_of (some (b ∷ bs)) = if b == 32 then bs else b ∷ bs

abbrev pub data_name : List ℕ
data_name = 100 ∷ 97 ∷ 116 ∷ 97 ∷ []

abbrev pub event_name : List ℕ
event_name = 101 ∷ 118 ∷ 101 ∷ 110 ∷ 116 ∷ []

abbrev pub id_name : List ℕ
id_name = 105 ∷ 100 ∷ []

abbrev pub retry_name : List ℕ
retry_name = 114 ∷ 101 ∷ 116 ∷ 114 ∷ 121 ∷ []

unfoldable pub append_data : SseDecoder → List ℕ → SseDecoder × Option SseError
append_data d value =
    let additional_bytes = if d.seen_data then length value + 1 else length value in
    if ltb d.max_event_bytes (length d.data_bytes + additional_bytes)
    then (d, some event_too_long)
    else (
      record d {
        data_bytes = (if d.seen_data then d.data_bytes ++ 10 ∷ [] else d.data_bytes) ++ value;
        seen_data = true;
      },
      none,
    )

abbrev pub kept_retry : Option ℕ → Option ℕ → Option ℕ
kept_retry none old = old
kept_retry (some n) old = some n

-- The switch on the field's name.
unfoldable pub set_field : SseDecoder → List ℕ → List ℕ → SseDecoder × Option SseError
set_field d field value =
    if same_bytes field data_name
    then append_data d value
    else if same_bytes field event_name
    then (record d { event = value }, none)
    else if same_bytes field id_name
    then (if has_zero value then (d, none) else (record d { id = value }, none))
    else if same_bytes field retry_name
    then (record d { retry = kept_retry (parse_milliseconds value) d.retry }, none)
    else (d, none)

-- On a line that is not empty.
unfoldable pub consume_field : SseDecoder → List ℕ → SseDecoder × Option SseError
consume_field d [] = (d, none)
consume_field d (b ∷ bs) =
    if b == 58 then (d, none) else set_field d (cut (b ∷ bs)).0 (value_of (cut (b ∷ bs)).1)

unfoldable pub dispatch : SseDecoder → SseDecoder × Option SseEvent
dispatch d = if not d.seen_data then (record d { event = []; retry = none }, none) else (
  record d { data_bytes = []; event = []; retry = none; seen_data = false },
  some (record {
    event = d.event;
    data_bytes = d.data_bytes;
    id = d.id;
    retry_milliseconds = d.retry;
  }),
)

abbrev pub event_result : SseDecoder × Option SseEvent → SseDecoder × Result (Option SseEvent)
event_result r = (r.0, ok r.1)

abbrev pub field_result : SseDecoder × Option SseError → SseDecoder × Result (Option SseEvent)
field_result (d, none) = (d, ok none)
field_result (d, some e) = (d, err e)

unfoldable pub process_text : SseDecoder → List ℕ → SseDecoder × Result (Option SseEvent)
process_text d text =
    if is_empty text then event_result (dispatch d) else field_result (consume_field d text)

-- One round of the loop of `consumeLines`, once the line is cut off the buffer.
unfoldable pub process_line : SseDecoder → List ℕ → SseDecoder × Result (Option SseEvent)
process_line d line =
    if ltb d.max_event_bytes (length line)
    then (d, err line_too_long)
    else process_text (record d { first_line = false })
        (if d.first_line then trim_mark line else line)

abbrev pub prepend : Option SseEvent → Result (List SseEvent) → Result (List SseEvent)
prepend none r = r
prepend (some e) (ok es) = ok (e ∷ es)
prepend (some e) (err k) = err k

-- The events of a round before those of the rounds that follow.
abbrev pub and_then :
    SseDecoder × Result (Option SseEvent)
    → (SseDecoder → SseDecoder × Result (List SseEvent))
    → SseDecoder × Result (List SseEvent)
and_then (d, err e) k = (d, err e)
and_then (d, ok e) k = let (d', es) = k d in (d', prepend e es)

-- On fuel: a line takes at least one byte off the buffer (`Sse/Lines`).
unfoldable pub consume : ℕ → SseDecoder → Bool → SseDecoder × Result (List SseEvent)
consume zero d at_eof = (d, ok [])
consume (suc fuel) d at_eof = elim (next_sse_line d.buffer at_eof) [
  | none ↦ (d, ok [])
  | some (line, rest) ↦
      and_then (process_line (record d { buffer = rest }) line) (λ d'. consume fuel d' at_eof)
]

abbrev pub consume_lines : SseDecoder → Bool → SseDecoder × Result (List SseEvent)
consume_lines d at_eof = consume (length d.buffer) d at_eof

abbrev pub check_buffer : SseDecoder × Result (List SseEvent) → SseDecoder × Result (List SseEvent)
check_buffer (d, err e) = (d, err e)
check_buffer (d, ok es) =
    if ltb d.max_event_bytes (length d.buffer) then (d, err line_too_long) else (d, ok es)

unfoldable pub feed : SseDecoder → List ℕ → SseDecoder × Result (List SseEvent)
feed d chunk =
    if d.closed
    then (d, err decoder_closed)
    else if is_empty chunk
    then (d, ok [])
    else check_buffer (consume_lines (record d { buffer = d.buffer ++ chunk }) false)

abbrev pub snoc_event : Option SseEvent → List SseEvent → List SseEvent
snoc_event none es = es
snoc_event (some e) es = es ++ e ∷ []

abbrev pub last_event : SseDecoder × Result (List SseEvent) → SseDecoder × Result (List SseEvent)
last_event (d, err e) = (d, err e)
last_event (d, ok es) = let (d', e) = dispatch d in (d', ok (snoc_event e es))

-- `Close`.
unfoldable pub close : SseDecoder → SseDecoder × Result (List SseEvent)
close d =
    if d.closed
    then (d, err decoder_closed)
    else last_event (consume_lines (record d { closed = true }) true)
