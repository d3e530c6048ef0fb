-- ===== src/Export/Query/Whole.antt =====
-- An export holds the first thousand transactions, if each has a height of its own.
use aura_explorer_api.Prelude.{
  ℕ, zero, suc, ◌+◌, ◌*◌, ◌≡◌, ◌∙◌, sym, ap, refl, true, false, ltb, ltb_irrefl, ltb_trans, ◌≤◌,
  Option, none, some, List, [], ◌++◌, length, length-append, take, drop, take-add, take_short,
  take_all, length-take_le, keep_if, Bool-cases, inl, inr, arith,
}
use mathlib.Core.List.{append_assoc, append-nil}
use aura_explorer_api.Prelude.Pages.{
  Order, is_beyond, Ordered, last_key, last_key_of_full, next_page,
}
use aura_explorer_api.Exec.{ok}
use aura_explorer_api.Export.Query.{Bounds, Source, Found, add_page, query_loop, query_data}

-- `height: { _lt: $heightLT }`
abbrev pub below : Order
below = record {
  beyond = λ k h. ltb h k;
  irrefl = ltb_irrefl;
  trans = λ a b c h h'. ltb_trans c b a h' h;
}

module _ {Row : Type 0} (src : Source Row) (plain : src.method_id ≡ none) where
  query_loop-zero :
      (limit total : ℕ) (bounds : Bounds) (found : Found Row)
      → query_loop src limit total zero bounds found ≡ ok found
  unfolding query_loop
  query_loop-zero limit total bounds found = refl

  module _ (limit total left : ℕ) (bounds : Bounds) (found : Found Row) (page : List Row)
      (answer : src.fetch bounds ≡ ok (some page))
      (room : ltb (length found.rows) total ≡ true) where
    query_loop-last :
        ltb (length page) limit ≡ true
        → query_loop src limit total (suc left) bounds found ≡ ok (add_page src page [] found)
    unfolding query_loop
    query_loop-last short = ground (arith, plain)

    query_loop-next :
        ltb (length page) limit ≡ false
        → query_loop src limit total (suc left) bounds found
          ≡ query_loop src limit total left
              (record bounds { height_lt = last_key src.height page })
              (add_page src page [] found)
    unfolding query_loop
    query_loop-next full = ground (arith, plain)

  module _ (n total : ℕ) (bounds : Bounds) (table : List Row)
      (ordered : Ordered src.height below table)
      (answers : (after : Option ℕ)
        → src.fetch (record bounds { height_lt = after })
          ≡ ok (some (take (suc n) (keep_if (is_beyond src.height below after) table)))) where
    query_loop_all :
        (left : ℕ) (after : Option ℕ) (rest rs : List Row)
        → keep_if (is_beyond src.height below after) table ≡ rest
        → length rs + left * suc n ≡ total
        → query_loop src
            (suc n)
            total
            left
            (record bounds { height_lt = after })
            (record { rows = rs; methods = [] })
          ≡ ok (record { rows = rs ++ take (left * suc n) rest; methods = [] })
    query_loop_all zero after rest rs h e =
        let none_left : 0 * suc n ≡ 0 = omega arith in
        query_loop-zero (suc n) total (record bounds { height_lt = after })
          (record { rows = rs; methods = [] })
        ∙ ap (λ xs. ok (record { rows = xs; methods = [] }))
            (sym (append-nil rs) ∙ ap (λ m. rs ++ take m rest) (sym none_left))
    query_loop_all (suc left) after rest rs h e =
        let page = take (suc n) rest in
        let answer = answers after ∙ ap (λ xs. ok (some (take (suc n) xs))) h in
        let more : suc left * suc n ≡ suc n + left * suc n = grind arith in
        let room : ltb (length rs) total ≡ true = ground (arith, more) in
        let bound = record bounds { height_lt = after } in
        let found : Found Row = record { rows = rs; methods = [] } in
        elim (Bool-cases (ltb (length page) (suc n))) [
          | inl short ↦
              let whole : page ≡ rest = take_short (suc n) rest (λ e. ground arith) in
              let fits : length rest ≤ suc left * suc n = ground (arith, ap length whole, more) in
              query_loop-last (suc n) total left bound found page answer room short
              ∙ ap (λ xs. ok (record { rows = rs ++ xs; methods = [] }))
                  (whole ∙ sym (take_all (suc left * suc n) rest fits))
          | inr full ↦
              let e' : length page ≡ suc n = ground (arith, length-take_le (suc n) rest) in
              let (k, last) = last_key_of_full src.height n rest e' in
              let left_rows = drop (suc n) rest in
              let beyond = next_page src.height below table after rest (suc n) k ordered h last in
              query_loop-next (suc n) total left bound found page answer room full
              ∙ rw last (
                  query_loop_all left (some k) left_rows (rs ++ page) beyond
                    (omega (arith, length-append rs page, more)))
              ∙ ap (λ xs. ok (record { rows = xs; methods = [] }))
                  (append_assoc rs page (take (left * suc n) left_rows)
                    ∙ ap (λ xs. rs ++ xs)
                        (sym (take-add (suc n) (left * suc n) rest)
                          ∙ ap (λ m. take m rest) (sym more)))
        ]

  -- If every transaction has a height of its own, and the indexer answers a query with the first
  -- hundred transactions below the height that is asked for, in descending order, then an export
  -- without methods holds the first thousand transactions within its bounds, each once.
  pub query_data_all :
      (bounds : Bounds) (table : List Row)
      → Ordered src.height below table
      → ((after : Option ℕ)
          → src.fetch (record bounds { height_lt = after })
            ≡ ok (some (take 100 (keep_if (is_beyond src.height below after) table))))
      → query_data src bounds
        ≡ ok (record {
          rows = take 1000 (keep_if (is_beyond src.height below bounds.height_lt) table);
          methods = [];
        })
  unfolding query_data
  query_data_all bounds table ordered answers =
      query_loop_all 99 1000 bounds table ordered answers 10 bounds.height_lt _ [] refl refl
