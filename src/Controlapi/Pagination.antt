-- ===== src/Controlapi/Pagination.antt =====
-- internal/controlapi/pagination.go: the page of a list that a query asks for.
-- The two numbers of a query are what strconv.Atoi makes of its text: an int64, or none for an error,
-- also for a number outside that range. An int has 64 bits: sums and products wrap around, and slicing from a negative index panics.
use native.Mathlib.Nat.{add-mul}
use llm2api.Prelude.{
  ℕ, zero, suc, ◌+◌, ◌-◌, ◌*◌, ◌%◌, ◌≤◌, ◌<◌, ◌≡◌, refl, ap, sym, ◌∙◌, Option, none, some, List, [],
  ◌∷◌, ℤ, pos, negsuc, ltb, length, if◌then◌else◌, Bool-cases, signed64, add64, inl, inr, arith,
}

unfoldable pub positive_query_integer : Option ℤ → ℕ → ℕ
positive_query_integer none fallback = fallback
positive_query_integer (some (negsuc n)) fallback = fallback
positive_query_integer (some (pos zero)) fallback = fallback
positive_query_integer (some (pos (suc n))) fallback = suc n

pub record ListQuery : Type 0 where
  pub page : ℕ
  pub page_size : ℕ

unfoldable pub parse_list_query : Option ℤ → Option ℤ → ListQuery
parse_list_query page page_size =
    let size = positive_query_integer page_size 20 in
    record { page = positive_query_integer page 1; page_size = if ltb 100 size then 100 else size }

pub record PageView {ℓ} (A : Type ℓ) : Type ℓ where
  pub items : List A
  pub page : ℕ
  pub page_size : ℕ
  pub total : ℕ

-- (query.Page - 1) * query.PageSize as the 64 bits of an int.
abbrev pub start_bits : ListQuery → ℕ
start_bits q = (q.page + 18446744073709551615) * q.page_size % 18446744073709551616

module _ {ℓ} {A : Type ℓ} where
  abbrev pub drop : ℕ → List A → List A
  drop zero xs = xs
  drop (suc n) [] = []
  drop (suc n) (x ∷ xs) = drop n xs

  abbrev pub take : ℕ → List A → List A
  take zero xs = []
  take (suc n) [] = []
  take (suc n) (x ∷ xs) = x ∷ take n xs

  -- items[start:end] for a start and an end within the list.
  abbrev pub slice : List A → ℕ → ℕ → List A
  slice items start end = take (end - start) (drop start items)

  -- From a start that is at most the number of items; `none` is the panic, for a sum that wraps.
  abbrev pub page_of : List A → ListQuery → ℕ → ℤ → Option (PageView A)
  page_of items q start (negsuc n) = none
  page_of items q start (pos n) = some (record {
    items = slice items start (if ltb (length items) n then length items else n);
    page = q.page;
    page_size = q.page_size;
    total = length items;
  })

  abbrev pub page_from : List A → ListQuery → ℤ → Option (PageView A)
  page_from items q (negsuc n) = none
  page_from items q (pos n) =
      let start = if ltb (length items) n then length items else n in
      page_of items q start (add64 (pos start) (pos q.page_size))

  -- The start and the end are ints, whose arithmetic wraps around. A page and a size are not negative
  -- here, and below 2^63. A negative start panics, since the size is added to it.
  unfoldable pub paginate : List A → ListQuery → Option (PageView A)
  paginate items q = page_from items q (signed64 (start_bits q))

  take_all : (n : ℕ) (xs : List A) → length xs ≤ n → take n xs ≡ xs
  take_all zero [] h = refl
  take_all zero (x ∷ xs) h = absurd (omega (arith, h))
  take_all (suc n) [] h = refl
  take_all (suc n) (x ∷ xs) h = ap (◌∷◌ x) (take_all n xs (omega (arith, h)))

  drop_all : (n : ℕ) (xs : List A) → length xs ≤ n → drop n xs ≡ []
  drop_all zero [] h = refl
  drop_all zero (x ∷ xs) h = absurd (omega (arith, h))
  drop_all (suc n) [] h = refl
  drop_all (suc n) (x ∷ xs) h = drop_all n xs (omega (arith, h))

  length-drop : (n : ℕ) (xs : List A) → length (drop n xs) ≡ length xs - n
  length-drop zero xs = omega arith
  length-drop (suc n) [] = omega arith
  length-drop (suc n) (x ∷ xs) = omega (arith, length-drop n xs)

  take_none : (n : ℕ) → take n [] ≡ []
  take_none zero = refl
  take_none (suc n) = refl

  -- Cutting both ends off at the length changes nothing.
  clamped :
      (start size : ℕ) (xs : List A)
      → (let from = if ltb (length xs) start then length xs else start in
          slice xs from (if ltb (length xs) (from + size) then length xs else from + size))
        ≡ take size (drop start xs)
  clamped start size xs = elim (Bool-cases (ltb (length xs) start)) [
    | inl e ↦ rw e (
        ap (take _) (drop_all (length xs) xs (omega arith))
        ∙ take_none _
        ∙ sym (take_none size)
        ∙ ap (take size) (sym (drop_all start xs (ground (arith, e)))))
    | inr e ↦ rw e (elim (Bool-cases (ltb (length xs) (start + size))) [
      | inl f ↦ rw f (
          take_all _ (drop start xs) (omega (arith, length-drop start xs))
          ∙ sym (take_all size (drop start xs) (ground (arith, f, length-drop start xs))))
      | inr f ↦ rw f (ap (λ n. take n (drop start xs)) (omega arith))
    ])
  ]

  module _ (items : List A) (q : ListQuery) where
    abbrev pub view : List A → Option (PageView A)
    view xs =
        some (record { items = xs; page = q.page; page_size = q.page_size; total = length items })

    -- A page from a start of no sign, where the sums of the code do not wrap.
    page_from-pos :
        (n : ℕ)
        → length items + q.page_size < 9223372036854775808
        → page_from items q (pos n) ≡ view (take q.page_size (drop n items))
    page_from-pos n h =
        rw (no_wrap (if ltb (length items) n then length items else n) (ground arith))
          (ap view (clamped n q.page_size items))
      where
        no_wrap :
            (start : ℕ)
            → start ≤ length items
            → add64 (pos start) (pos q.page_size) ≡ pos (start + q.page_size)
        no_wrap start i = ground (arith, h, i)

    start_bits_lem : 1 ≤ q.page → start_bits q ≡ (q.page - 1) * q.page_size % 18446744073709551616
    start_bits_lem h =
        let same : q.page + 18446744073709551615 ≡ q.page - 1 + 18446744073709551616 =
          omega arith in
        let shifted : (q.page + 18446744073709551615) * q.page_size
            ≡ (q.page - 1) * q.page_size + 18446744073709551616 * q.page_size =
          ap (λ n. n * q.page_size) same ∙ add-mul (q.page - 1) 18446744073709551616 q.page_size in
        omega (arith, shifted)

    -- From the product modulo 2^64 on, below 2^63.
    paged :
        (n : ℕ)
        → start_bits q ≡ n
        → n < 9223372036854775808
        → length items + q.page_size < 9223372036854775808
        → paginate items q ≡ view (take q.page_size (drop n items))
    unfolding paginate
    paged n e h i =
        let sign : signed64 (start_bits q) ≡ pos n = ground (arith, e, h) in
        rw (paginate, sign) (page_from-pos n i)

    panics : 9223372036854775808 ≤ start_bits q → paginate items q ≡ none
    unfolding paginate
    panics h =
        let sign : signed64 (start_bits q) ≡ negsuc (18446744073709551615 - start_bits q) =
          ground (arith, h) in
        rw (paginate, sign) refl

-- What a query asks for: the page is at least 1, and its size between 1 and 100.
parse_list_query_lem :
    (page page_size : Option ℤ)
    → (1 ≤ (parse_list_query page page_size).page)
      × ((parse_list_query page page_size).page_size ≤ 100)
unfolding parse_list_query positive_query_integer
parse_list_query_lem page page_size = ground arith

module _ {ℓ} {A : Type ℓ} where
  -- For a query as it is parsed from any two numbers, and fewer than 2^63 - 100 items: where the
  -- product of the earlier pages and the size stays below 2^63, the page has the items from there
  -- on, at most as many as the size, which is at most 100, and the total is that of all items; where
  -- the product modulo 2^64 is 2^63 or more, the call panics.
  pub paginate_lem :
      (items : List A) (page page_size : Option ℤ)
      → length items + 100 < 9223372036854775808
      → (let q = parse_list_query page page_size in
          (q.page_size ≤ 100)
          × ((q.page - 1) * q.page_size < 9223372036854775808
              → paginate items q
                ≡ view items q (take q.page_size (drop ((q.page - 1) * q.page_size) items)))
          × (9223372036854775808 ≤ (q.page - 1) * q.page_size % 18446744073709551616
              → paginate items q ≡ none))
  paginate_lem items page page_size h =
      let q = parse_list_query page page_size in
      let (first, small) = parse_list_query_lem page page_size in
      let bits = start_bits_lem items q first in
      (
        small,
        λ i.
            paged items q ((q.page - 1) * q.page_size) (omega (arith, bits, i)) i
              (omega (arith, h, small)),
        λ i. panics items q (omega (arith, bits, i)),
      )
