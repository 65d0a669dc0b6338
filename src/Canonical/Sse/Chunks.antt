-- ===== src/Canonical/Sse/Chunks.antt =====
-- internal/canonical/sse.go: how the stream is cut into chunks makes no difference.
use mathlib.Core.Path.{subst}
use llm2api.Prelude.{
  ℕ, zero, suc, ◌+◌, ◌≤◌, ◌<◌, ◌≡◌, refl, ap, sym, ◌∙◌, Bool, true, false, Option, none, some, List,
  [], ◌∷◌, ◌++◌, length, length-append, arith, ltb, Bool-cases, Option-cases, inl, inr,
}
use llm2api.Canonical.Sse.{
  Result, ok, err, SseError, SseEvent, SseDecoder, append_data, set_field, consume_field, dispatch,
  process_text, process_line, scan_line, consume, field_result, and_then, prepend, next_sse_line,
}
use llm2api.Canonical.Sse.Lines.{scan_line-shorter, scan_line-append}

abbrev pub Outcome : Type 0
Outcome = SseDecoder × Result (List SseEvent)

abbrev pub with_buffer : SseDecoder → List ℕ → SseDecoder
with_buffer d b = record d { buffer = b }

-- A line is processed without regard to the buffer.
consume_field-with_buffer :
    (d : SseDecoder) (line b : List ℕ)
    → consume_field (with_buffer d b) line
      ≡ (with_buffer (consume_field d line).0 b, (consume_field d line).1)
unfolding consume_field set_field append_data
consume_field-with_buffer d [] b = refl
consume_field-with_buffer d (c ∷ cs) b = ground arith

field_result-with_buffer :
    (r : SseDecoder × Option SseError) (b : List ℕ)
    → field_result (with_buffer r.0 b, r.1) ≡ (with_buffer (field_result r).0 b, (field_result r).1)
field_result-with_buffer (d, none) b = refl
field_result-with_buffer (d, some e) b = refl

process_text-with_buffer :
    (d : SseDecoder) (text b : List ℕ)
    → process_text (with_buffer d b) text
      ≡ (with_buffer (process_text d text).0 b, (process_text d text).1)
unfolding process_text dispatch
process_text-with_buffer d [] b = ground arith
process_text-with_buffer d (c ∷ cs) b =
    ap field_result (consume_field-with_buffer d (c ∷ cs) b)
    ∙ field_result-with_buffer (consume_field d (c ∷ cs)) b

process_line-with_buffer :
    (d : SseDecoder) (line b : List ℕ)
    → process_line (with_buffer d b) line
      ≡ (with_buffer (process_line d line).0 b, (process_line d line).1)
unfolding process_line
process_line-with_buffer d line b = elim (Bool-cases (ltb d.max_event_bytes (length line))) [
  | inl e ↦ rw e refl
  | inr e ↦ rw e (process_text-with_buffer (record d { first_line = false }) _ b)
]

process_line-buffer : (d : SseDecoder) (line : List ℕ) → (process_line d line).0.buffer ≡ d.buffer
process_line-buffer d line = ap (λ r. r.0.buffer) (process_line-with_buffer d line d.buffer)

and_then-cong :
    (r : SseDecoder × Result (Option SseEvent)) (k l : SseDecoder → Outcome)
    → k r.0 ≡ l r.0
    → and_then r k ≡ and_then r l
and_then-cong (d, err e) k l h = refl
and_then-cong (d, ok e) k l h = ap (λ x. (x.0, prepend e x.1)) h

no_line : (at_eof : Bool) → next_sse_line [] at_eof ≡ none
unfolding scan_line
no_line true = refl
no_line false = refl

-- On an empty buffer there is nothing to do.
pub consume_empty :
    (fuel : ℕ) (d : SseDecoder) (at_eof : Bool) → d.buffer ≡ [] → consume fuel d at_eof ≡ (d, ok [])
unfolding consume
consume_empty zero d at_eof h = refl
consume_empty (suc fuel) d at_eof h =
    rw (ap (λ b. next_sse_line b at_eof) h ∙ no_line at_eof, consume) refl

empty : (bs : List ℕ) → length bs ≤ 0 → bs ≡ []
empty [] h = refl
empty (b ∷ bs) h = ground arith

-- Any fuel from the length of the buffer on gives the same.
pub consume_fuel :
    (f g : ℕ) (d : SseDecoder) (at_eof : Bool)
    → length d.buffer ≤ f
    → length d.buffer ≤ g
    → consume f d at_eof ≡ consume g d at_eof
unfolding consume
consume_fuel zero g d at_eof h i =
    consume_empty zero d at_eof (empty d.buffer h)
    ∙ sym (consume_empty g d at_eof (empty d.buffer h))
consume_fuel f zero d at_eof h i =
    consume_empty f d at_eof (empty d.buffer i)
    ∙ sym (consume_empty zero d at_eof (empty d.buffer i))
consume_fuel (suc f) (suc g) d at_eof h i = elim (Option-cases (next_sse_line d.buffer at_eof)) [
  | inl e ↦ rw (e, consume) refl
  | inr ((line, rest), e) ↦
      rw (e, consume)
        (and_then-cong (process_line (with_buffer d rest) line) _ _ (
          consume_fuel f g _ at_eof
            (omega (
              arith,
              shorter rest line e,
              ap length (process_line-buffer (with_buffer d rest) line),
            ))
            (omega (
              arith,
              shorter rest line e,
              ap length (process_line-buffer (with_buffer d rest) line),
            ))))
]
  where
    shorter :
        (rest line : List ℕ)
        → next_sse_line d.buffer at_eof ≡ some (line, rest)
        → length rest < length d.buffer
    shorter rest line e = omega (arith, scan_line-shorter [] d.buffer at_eof line rest e)

abbrev pub prefix : List SseEvent → Outcome → Outcome
prefix es (d, ok fs) = (d, ok (es ++ fs))
prefix es (d, err k) = (d, err k)

prefix-nil : (r : Outcome) → prefix [] r ≡ r
prefix-nil (d, ok fs) = refl
prefix-nil (d, err k) = refl

abbrev cons_event : Option SseEvent → List SseEvent → List SseEvent
cons_event none es = es
cons_event (some e) es = e ∷ es

prepend-prefix :
    (e : Option SseEvent) (es : List SseEvent) (r : Outcome)
    → ((prefix es r).0, prepend e (prefix es r).1) ≡ prefix (cons_event e es) r
prepend-prefix none es (d, ok fs) = refl
prepend-prefix none es (d, err k) = refl
prepend-prefix (some e) es (d, ok fs) = refl
prepend-prefix (some e) es (d, err k) = refl

-- A round that succeeds with those that follow it.
prepend-ok :
    (e : Option SseEvent) (r : Result (List SseEvent)) (es : List SseEvent)
    → prepend e r ≡ ok es
    → (fs : List SseEvent) × (r ≡ ok fs) × (es ≡ cons_event e fs)
prepend-ok none (ok fs) es h = (fs, refl, ground arith)
prepend-ok none (err k) es h = ground arith
prepend-ok (some e) (ok fs) es h = (fs, refl, ground arith)
prepend-ok (some e) (err k) es h = ground arith

-- What is left to do once `x` came out of the bytes so far and `more` bytes arrive.
abbrev pub continued : ℕ → Outcome → List ℕ → Outcome
continued h x more = consume h (with_buffer x.0 (x.0.buffer ++ more)) false

consume_stopped :
    (g h : ℕ) (d : SseDecoder) (x : Outcome) (more : List ℕ) (es : List SseEvent)
    → length d.buffer + length more ≤ g
    → length x.0.buffer + length more ≤ h
    → ◌≡◌ {A = Outcome} x (d, ok [])
    → x.1 ≡ ok es
    → continued g (d, ok []) more ≡ prefix es (continued h x more)
consume_stopped g h d x more es q r e s =
    consume_fuel g h _ false (omega (arith, q, length-append d.buffer more))
      (omega (arith, r, ap (λ y. length y.0.buffer) e, length-append d.buffer more))
    ∙ sym (prefix-nil _)
    ∙ ap (λ y. prefix [] (continued h y more)) (sym e)
    ∙ ap (λ fs. prefix fs (continued h x more)) (nothing (ap (λ y. y.1) (sym e) ∙ s))
  where
    nothing : ok [] ≡ ok es → [] ≡ es
    nothing t = ground arith

pub consume_step :
    (fuel : ℕ) (d : SseDecoder) (at_eof : Bool) (line rest : List ℕ)
    → next_sse_line d.buffer at_eof ≡ some (line, rest)
    → consume (suc fuel) d at_eof
      ≡ and_then (process_line (with_buffer d rest) line) (λ d'. consume fuel d' at_eof)
unfolding consume
consume_step fuel d at_eof line rest e = rw (e, consume) refl

consume-none :
    (fuel : ℕ) (d : SseDecoder) (at_eof : Bool)
    → next_sse_line d.buffer at_eof ≡ none
    → consume (suc fuel) d at_eof ≡ (d, ok [])
unfolding consume
consume-none fuel d at_eof e = rw (e, consume) refl

and_then-append :
    (f g h : ℕ) (p : SseDecoder × Result (Option SseEvent)) (more : List ℕ) (es : List SseEvent)
    → ((fs : List SseEvent)
        → (consume f p.0 false).1 ≡ ok fs
        → length (consume f p.0 false).0.buffer + length more ≤ h
        → continued g (p.0, ok []) more ≡ prefix fs (continued h (consume f p.0 false) more))
    → (and_then p (λ d'. consume f d' false)).1 ≡ ok es
    → length (and_then p (λ d'. consume f d' false)).0.buffer + length more ≤ h
    → and_then (with_buffer p.0 (p.0.buffer ++ more), p.1) (λ d'. consume g d' false)
      ≡ prefix es (continued h (and_then p (λ d'. consume f d' false)) more)
and_then-append f g h (c, err k) more es later e r = ground arith
and_then-append f g h (c, ok o) more es later e r =
    let (fs, done, same) = prepend-ok o (consume f c false).1 es e in
    ap (λ y. (y.0, prepend o y.1)) (later fs done r)
    ∙ prepend-prefix o fs (continued h (consume f c false) more)
    ∙ ap (λ gs. prefix gs (continued h (consume f c false) more)) (sym same)

-- Reading what arrives first, and then the rest, is reading all of it.
pub consume-append :
    (f g h : ℕ) (d : SseDecoder) (more : List ℕ) (es : List SseEvent)
    → length d.buffer ≤ f
    → length d.buffer + length more ≤ g
    → (consume f d false).1 ≡ ok es
    → length (consume f d false).0.buffer + length more ≤ h
    → continued g (d, ok []) more ≡ prefix es (continued h (consume f d false) more)
consume-append zero g h d more es p q e r =
    consume_stopped g h d _ more es q r (consume_empty zero d false (empty d.buffer p)) e
consume-append (suc f) zero h d more es p q e r =
    consume_stopped zero h d _ more es q r
      (consume_empty (suc f) d false (empty d.buffer (omega (arith, q)))) e
consume-append (suc f) (suc g) h d more es p q e r =
    elim (Option-cases (next_sse_line d.buffer false)) [
      | inl n ↦ consume_stopped (suc g) h d _ more es q r (consume-none f d false n) e
      | inr ((line, rest), n) ↦
          let out = process_line (with_buffer d rest) line in
          let kept = process_line-buffer (with_buffer d rest) line in
          let shorter = scan_line-shorter [] d.buffer false line rest n in
          let same = consume_step f d false line rest n in
          consume_step g (with_buffer d (d.buffer ++ more)) false line (rest ++ more)
            (scan_line-append [] d.buffer more line rest n)
          ∙ ap (λ x. and_then x (λ d'. consume g d' false))
              (process_line-with_buffer (with_buffer d rest) line (rest ++ more)
                ∙ ap (λ b. (with_buffer out.0 (b ++ more), out.1)) (sym kept))
          ∙ and_then-append f g h out more es
              (λ fs done left.
                consume-append f g h out.0 more fs (omega (arith, p, shorter, ap length kept))
                  (omega (arith, q, shorter, ap length kept)) done left)
              (ap (λ x. x.1) (sym same) ∙ e)
              (subst (λ x. length x.0.buffer + length more ≤ h) same r)
          ∙ ap (λ x. prefix es (continued h x more)) (sym same)
    ]
