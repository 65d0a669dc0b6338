-- ===== src/Controlapi/Tests.antt =====
-- Pagination at a concrete query: the second page of two of five items.
use llm2api.Prelude.{ℕ, ◌-◌, ◌*◌, ◌%◌, ◌≤◌, ◌<◌, ◌≡◌, some, none, pos, List, [], ◌∷◌, arith}
use llm2api.Controlapi.Pagination.{take, drop, view, paginate, paginate_lem, parse_list_query}

abbrev five : List ℕ
five = 1 ∷ 2 ∷ 3 ∷ 4 ∷ 5 ∷ []

paginate_lem_example :
    (let q = parse_list_query (some (pos 2)) (some (pos 2)) in
      (q.page_size ≤ 100)
      × ((q.page - 1) * q.page_size < 9223372036854775808
          → paginate five q
            ≡ view five q (take q.page_size (drop ((q.page - 1) * q.page_size) five)))
      × (9223372036854775808 ≤ (q.page - 1) * q.page_size % 18446744073709551616
          → paginate five q ≡ none))
paginate_lem_example = paginate_lem five (some (pos 2)) (some (pos 2)) (omega arith)
