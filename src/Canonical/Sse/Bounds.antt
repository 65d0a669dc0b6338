-- ===== src/Canonical/Sse/Bounds.antt =====
-- internal/canonical/sse.go: the limit on the bytes of an event.
use llm2api.Prelude.{
  ℕ, zero, suc, ◌≤◌, ◌≡◌, refl, Bool, true, false, Option, none, some, List, [], ◌∷◌, ◌++◌, All,
  length, length-append, arith, ltb, ◌==◌, if◌then◌else◌, Bool-cases, Option-cases, inl, inr,
}
use llm2api.Canonical.Sse.{
  Result, ok, err, SseError, SseEvent, SseDecoder, append_data, set_field, consume_field, dispatch,
  process_text, process_line, consume, feed, close, field_result, and_then, check_buffer,
  last_event, snoc_event, prepend, next_sse_line, same_bytes, cut, value_of, data_name, is_empty,
}

-- The data so far is within the limit, and there is none before a data field.
pub record IsBounded (most : ℕ) (d : SseDecoder) : Type 0 where
  pub limit : d.max_event_bytes ≡ most
  pub data_le : length d.data_bytes ≤ most
  pub unseen : d.seen_data ≡ false → d.data_bytes ≡ []

abbrev pub Fits : ℕ → Option SseEvent → Type 0
Fits most none = Unit {0}
Fits most (some e) = length e.data_bytes ≤ most

-- What a call returns keeps to the limit: the decoder, and every event.
abbrev pub AllFit : ℕ → Result (List SseEvent) → Type 0
AllFit most (err e) = Unit {0}
AllFit most (ok es) = All (λ e. length e.data_bytes ≤ most) es

abbrev pub AllFitLine : ℕ → Result (Option SseEvent) → Type 0
AllFitLine most (err e) = Unit {0}
AllFitLine most (ok e) = Fits most e

-- A call's result keeps to the limit.
abbrev pub Respects : ℕ → SseDecoder × Result (List SseEvent) → Type 0
Respects most r = IsBounded most r.0 × AllFit most r.1

either :
    (P : SseDecoder × Result (List SseEvent) → Type 0) (b : Bool)
    (x y : SseDecoder × Result (List SseEvent))
    → P x
    → P y
    → P (if b then x else y)
either P true x y p q = p
either P false x y p q = q

module _ (most : ℕ) where
  append_data-IsBounded :
      (d : SseDecoder) (value : List ℕ) → IsBounded most d → IsBounded most (append_data d value).0
  unfolding append_data
  append_data-IsBounded d value v = record {
    limit = ground (arith, v.limit);
    data_le = ground (
      arith,
      v.limit,
      v.data_le,
      v.unseen,
      length-append (d.data_bytes ++ 10 ∷ []) value,
      length-append d.data_bytes (10 ∷ []),
      length-append d.data_bytes value,
    );
    unseen = ground (arith, v.unseen);
  }

  set_field-IsBounded :
      (d : SseDecoder) (field value : List ℕ)
      → IsBounded most d
      → IsBounded most (set_field d field value).0
  unfolding set_field
  set_field-IsBounded d field value v = elim (Bool-cases (same_bytes field data_name)) [
    | inl e ↦ rw e (append_data-IsBounded d value v)
    | inr e ↦ record {
      limit = ground (arith, e, v.limit);
      data_le = ground (arith, e, v.data_le);
      unseen = ground (arith, e, v.unseen);
    }
  ]

  consume_field-IsBounded :
      (d : SseDecoder) (line : List ℕ) → IsBounded most d → IsBounded most (consume_field d line).0
  unfolding consume_field
  consume_field-IsBounded d [] v = v
  consume_field-IsBounded d (b ∷ bs) v = elim (Bool-cases (b == 58)) [
    | inl e ↦ rw e v
    | inr e ↦ rw e (set_field-IsBounded d (cut (b ∷ bs)).0 (value_of (cut (b ∷ bs)).1) v)
  ]

  dispatch-IsBounded :
      (d : SseDecoder) → IsBounded most d → IsBounded most (dispatch d).0 × Fits most (dispatch d).1
  unfolding dispatch
  dispatch-IsBounded d v = elim (Bool-cases d.seen_data) [
    | inl e ↦
        rw e (record { limit = v.limit; data_le = omega arith; unseen = λ h. refl }, v.data_le)
    | inr e ↦ rw e (record { limit = v.limit; data_le = v.data_le; unseen = λ h. v.unseen e }, tt)
  ]

  field_result-IsBounded :
      (r : SseDecoder × Option SseError)
      → IsBounded most r.0
      → IsBounded most (field_result r).0 × AllFitLine most (field_result r).1
  field_result-IsBounded (d, none) v = (v, tt)
  field_result-IsBounded (d, some e) v = (v, tt)

  process_text-IsBounded :
      (d : SseDecoder) (text : List ℕ)
      → IsBounded most d
      → IsBounded most (process_text d text).0 × AllFitLine most (process_text d text).1
  unfolding process_text
  process_text-IsBounded d [] v = dispatch-IsBounded d v
  process_text-IsBounded d (b ∷ bs) v =
      field_result-IsBounded _ (consume_field-IsBounded d (b ∷ bs) v)

  process_line-IsBounded :
      (d : SseDecoder) (line : List ℕ)
      → IsBounded most d
      → IsBounded most (process_line d line).0 × AllFitLine most (process_line d line).1
  unfolding process_line
  process_line-IsBounded d line v = elim (Bool-cases (ltb d.max_event_bytes (length line))) [
    | inl e ↦ rw e (v, tt)
    | inr e ↦ rw e (process_text-IsBounded _ _ (kept v))
  ]
    where
      kept : IsBounded most d → IsBounded most (record d { first_line = false })
      kept w = record { limit = w.limit; data_le = w.data_le; unseen = w.unseen }

  prepend-AllFit :
      (e : Option SseEvent) (r : Result (List SseEvent))
      → Fits most e
      → AllFit most r
      → AllFit most (prepend e r)
  prepend-AllFit none r f g = g
  prepend-AllFit (some e) (ok es) f g = (f, g)
  prepend-AllFit (some e) (err k) f g = tt

  and_then-IsBounded :
      (r : SseDecoder × Result (Option SseEvent))
      (k : SseDecoder → SseDecoder × Result (List SseEvent))
      → IsBounded most r.0 × AllFitLine most r.1
      → ((d : SseDecoder) → IsBounded most d → IsBounded most (k d).0 × AllFit most (k d).1)
      → IsBounded most (and_then r k).0 × AllFit most (and_then r k).1
  and_then-IsBounded (d, err e) k v f = (v.0, tt)
  and_then-IsBounded (d, ok e) k v f = ((f d v.0).0, prepend-AllFit e (k d).1 v.1 (f d v.0).1)

  consume-IsBounded :
      (fuel : ℕ) (d : SseDecoder) (at_eof : Bool)
      → IsBounded most d
      → IsBounded most (consume fuel d at_eof).0 × AllFit most (consume fuel d at_eof).1
  unfolding consume
  consume-IsBounded zero d at_eof v = (v, tt)
  consume-IsBounded (suc fuel) d at_eof v = elim (Option-cases (next_sse_line d.buffer at_eof)) [
    | inl e ↦ rw (e, consume) (v, tt)
    | inr ((line, rest), e) ↦
        rw (e, consume)
          (and_then-IsBounded (process_line (record d { buffer = rest }) line) _
            (process_line-IsBounded _ line (cut_off rest))
            (λ d' w. consume-IsBounded fuel d' at_eof w))
  ]
    where
      cut_off : (rest : List ℕ) → IsBounded most (record d { buffer = rest })
      cut_off rest = record { limit = v.limit; data_le = v.data_le; unseen = v.unseen }

  check_buffer-IsBounded :
      (r : SseDecoder × Result (List SseEvent)) → Respects most r → Respects most (check_buffer r)
  check_buffer-IsBounded (d, err e) v = v
  check_buffer-IsBounded (d, ok es) v =
      elim (Bool-cases (ltb d.max_event_bytes (length d.buffer))) [
        | inl e ↦ rw e (v.0, tt)
        | inr e ↦ rw e v
      ]

  AllFit-snoc :
      (e : Option SseEvent) (es : List SseEvent)
      → Fits most e
      → AllFit most (ok es)
      → AllFit most (ok (snoc_event e es))
  AllFit-snoc none es f g = g
  AllFit-snoc (some e) [] f g = (f, tt)
  AllFit-snoc (some e) (x ∷ es) f g = (g.0, AllFit-snoc (some e) es f g.1)

  last_event-IsBounded :
      (r : SseDecoder × Result (List SseEvent)) → Respects most r → Respects most (last_event r)
  last_event-IsBounded (d, err e) v = v
  last_event-IsBounded (d, ok es) v =
      let (after, fits) = dispatch-IsBounded d v.0 in
      (after, AllFit-snoc (dispatch d).1 es fits v.1)

-- A decoder whose data is within the limit stays so over `Feed` and over `Close`, and the data of
-- every event that either returns is within the limit.
pub calls-IsBounded :
    (d : SseDecoder) (chunk : List ℕ)
    → IsBounded d.max_event_bytes d
    → Respects d.max_event_bytes (feed d chunk) × Respects d.max_event_bytes (close d)
unfolding feed close
calls-IsBounded d chunk v = (fed, closed)
  where
    with_chunk : IsBounded d.max_event_bytes (record d { buffer = d.buffer ++ chunk })
    with_chunk = record { limit = v.limit; data_le = v.data_le; unseen = v.unseen }

    shut : IsBounded d.max_event_bytes (record d { closed = true })
    shut = record { limit = v.limit; data_le = v.data_le; unseen = v.unseen }

    fed : Respects d.max_event_bytes (feed d chunk)
    fed =
        either (Respects d.max_event_bytes) d.closed _ _ (v, tt)
          (either (Respects d.max_event_bytes) (is_empty chunk) _ _ (v, tt)
            (check_buffer-IsBounded d.max_event_bytes _
              (consume-IsBounded d.max_event_bytes _ _ false with_chunk)))

    closed : Respects d.max_event_bytes (close d)
    closed =
        either (Respects d.max_event_bytes) d.closed _ _ (v, tt)
          (last_event-IsBounded d.max_event_bytes _
            (consume-IsBounded d.max_event_bytes _ _ true shut))
