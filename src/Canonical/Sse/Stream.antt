-- ===== src/Canonical/Sse/Stream.antt =====
-- internal/canonical/sse.go: `Feed` over a stream of chunks.
use mathlib.Core.List.{append_assoc, append-nil}
use mathlib.Core.Path.{subst}
use llm2api.Prelude.{
  ℕ, ◌≡◌, refl, ap, sym, ◌∙◌, Bool, true, false, List, [], ◌∷◌, ◌++◌, length, length-append, arith,
  ltb, if◌then◌else◌, Bool-cases, inl, inr,
}
use llm2api.Canonical.Sse.{
  Result, ok, err, SseEvent, SseDecoder, consume_lines, feed, check_buffer, decoder_closed,
}
use llm2api.Canonical.Sse.Chunks.{Outcome, with_buffer, prefix, continued, consume-append}

check-ok :
    (r : Outcome) (es : List SseEvent)
    → (check_buffer r).1 ≡ ok es
    → (r.1 ≡ ok es) × ((check_buffer r).0 ≡ r.0)
check-ok (d, err k) es h = ground arith
check-ok (d, ok fs) es h = elim (Bool-cases (ltb d.max_event_bytes (length d.buffer))) [
  | inl e ↦ ground (arith, e)
  | inr e ↦ (ground (arith, e), rw e refl)
]

check-prefix :
    (r : Outcome) (es fs : List SseEvent)
    → (check_buffer r).1 ≡ ok fs
    → check_buffer (prefix es r) ≡ ((check_buffer r).0, ok (es ++ fs))
check-prefix (d, err k) es fs h = ground arith
check-prefix (d, ok gs) es fs h = elim (Bool-cases (ltb d.max_event_bytes (length d.buffer))) [
  | inl e ↦ ground (arith, e)
  | inr e ↦ rw (e, same e) refl
]
  where
    same : ltb d.max_event_bytes (length d.buffer) ≡ false → gs ≡ fs
    same e = ground (arith, e, h)

if_false : (b : Bool) (x y : Outcome) → b ≡ false → (if b then x else y) ≡ y
if_false false x y h = refl
if_false true x y h = ground arith

closed_fails :
    (b : Bool) (d : SseDecoder) (y : Outcome) (es : List SseEvent)
    → (if b then (d, err decoder_closed) else y).1 ≡ ok es
    → b ≡ false
closed_fails false d y es h = refl
closed_fails true d y es h = ground arith

-- A call that succeeds was made before `Close`.
feed-closed :
    (d : SseDecoder) (chunk : List ℕ) (es : List SseEvent)
    → (feed d chunk).1 ≡ ok es
    → d.closed ≡ false
unfolding feed
feed-closed d chunk es h = closed_fails d.closed d _ es h

feed_some :
    (d : SseDecoder) (b : ℕ) (bs : List ℕ)
    → d.closed ≡ false
    → feed d (b ∷ bs) ≡ check_buffer (consume_lines (with_buffer d (d.buffer ++ b ∷ bs)) false)
unfolding feed
feed_some d b bs h = if_false d.closed _ _ h

feed_none : (d : SseDecoder) → d.closed ≡ false → ◌≡◌ {A = Outcome} (feed d []) (d, ok [])
unfolding feed
feed_none d h = if_false d.closed _ _ h

outcome : (r : Outcome) (es : List SseEvent) → r.1 ≡ ok es → ◌≡◌ {A = Outcome} r (r.0, ok es)
outcome (d, x) es h = ap pair h
  where
    pair : Result (List SseEvent) → Outcome
    pair y = (d, y)

ok-injective : (es fs : List SseEvent) → ok es ≡ ok fs → es ≡ fs
ok-injective es fs h = ground arith

module _ (d : SseDecoder) (es fs : List SseEvent) where
  -- After an empty chunk.
  feed_none-append :
      (more : List ℕ)
      → (feed d []).1 ≡ ok es
      → (feed (feed d []).0 more).1 ≡ ok fs
      → feed d more ≡ ((feed (feed d []).0 more).0, ok (es ++ fs))
  feed_none-append more h i =
      let stays = feed_none d (feed-closed d [] es h) in
      let nothing = ok-injective [] es (ap (λ r. r.1) (sym stays) ∙ h) in
      let same = ap (λ r. r.0) stays in
      outcome (feed d more) fs (subst (λ x. (feed x more).1 ≡ ok fs) same i)
      ∙ ap (λ x. after (feed x more) ([] ++ fs)) (sym same)
      ∙ ap (λ gs. after (feed (feed d []).0 more) (gs ++ fs)) nothing
    where
      after : Outcome → List SseEvent → Outcome
      after r gs = (r.0, ok gs)

  feed_some-append :
      (b c : ℕ) (bs cs : List ℕ)
      → (feed d (b ∷ bs)).1 ≡ ok es
      → (feed (feed d (b ∷ bs)).0 (c ∷ cs)).1 ≡ ok fs
      → feed d (b ∷ bs ++ c ∷ cs) ≡ ((feed (feed d (b ∷ bs)).0 (c ∷ cs)).0, ok (es ++ fs))
  feed_some-append b c bs cs h i =
      let opened = feed-closed d (b ∷ bs) es h in
      let first = feed_some d b bs opened in
      let read = consume_lines (with_buffer d (d.buffer ++ b ∷ bs)) false in
      let (done, left) = check-ok read es (ap (λ r. r.1) (sym first) ∙ h) in
      let same : (feed d (b ∷ bs)).0 ≡ read.0 = ap (λ r. r.0) first ∙ left in
      let second =
        feed_some (feed d (b ∷ bs)).0 c cs (feed-closed (feed d (b ∷ bs)).0 (c ∷ cs) fs i)
        ∙ ap (λ x. check_buffer (consume_lines (with_buffer x (x.buffer ++ c ∷ cs)) false)) same in
      feed_some d b (bs ++ c ∷ cs) opened
      ∙ ap check_buffer (
          ap (λ x. consume_lines (with_buffer d x) false)
            (sym (append_assoc d.buffer (b ∷ bs) (c ∷ cs)))
          ∙ consume-append (length (d.buffer ++ b ∷ bs)) (length (d.buffer ++ b ∷ bs ++ c ∷ cs))
              (length (read.0.buffer ++ c ∷ cs)) (with_buffer d (d.buffer ++ b ∷ bs)) (c ∷ cs) es
              (omega arith) (omega (arith, length-append (d.buffer ++ b ∷ bs) (c ∷ cs))) done
              (omega (arith, length-append read.0.buffer (c ∷ cs))))
      ∙ check-prefix (continued (length (read.0.buffer ++ c ∷ cs)) read (c ∷ cs)) es fs
          (ap (λ r. r.1) (sym second) ∙ i)
      ∙ ap (λ r. after r (es ++ fs)) (sym second)
    where
      after : Outcome → List SseEvent → Outcome
      after r gs = (r.0, ok gs)

  -- Before an empty chunk.
  feed-append_none :
      (chunk : List ℕ)
      → (feed d chunk).1 ≡ ok es
      → (feed (feed d chunk).0 []).1 ≡ ok fs
      → feed d (chunk ++ []) ≡ ((feed (feed d chunk).0 []).0, ok (es ++ fs))
  feed-append_none chunk h i =
      let stays = feed_none (feed d chunk).0 (feed-closed (feed d chunk).0 [] fs i) in
      let nothing = ok-injective [] fs (ap (λ r. r.1) (sym stays) ∙ i) in
      ap (feed d) (append-nil chunk)
      ∙ outcome (feed d chunk) es h
      ∙ ap (λ x. after x es) (sym (ap (λ r. r.0) stays))
      ∙ ap (after (feed (feed d chunk).0 []).0) (sym (append-nil es))
      ∙ ap (λ gs. after (feed (feed d chunk).0 []).0 (es ++ gs)) nothing
    where
      after : SseDecoder → List SseEvent → Outcome
      after x gs = (x, ok gs)

-- Where `Feed` takes two chunks one after the other without an error, feeding them as one chunk
-- gives the same decoder and the events of both calls in order.
pub feed-append :
    (d : SseDecoder) (chunk more : List ℕ) (es fs : List SseEvent)
    → (feed d chunk).1 ≡ ok es
    → (feed (feed d chunk).0 more).1 ≡ ok fs
    → feed d (chunk ++ more) ≡ ((feed (feed d chunk).0 more).0, ok (es ++ fs))
feed-append d [] more es fs h i = feed_none-append d es fs more h i
feed-append d (b ∷ bs) [] es fs h i = feed-append_none d es fs (b ∷ bs) h i
feed-append d (b ∷ bs) (c ∷ cs) es fs h i = feed_some-append d es fs b c bs cs h i
