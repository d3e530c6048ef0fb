-- ===== src/Repository/Builder/Pages.antt =====
-- The pages of a listing, one by one and together.
use aura_explorer_api.Prelude.{
  ℕ, zero, suc, ◌+◌, ◌*◌, ◌≤◌, ◌<◌, ◌≡◌, inl, inr, refl, ap, sym, ◌∙◌, Bool, true, not, List, [],
  ◌∷◌, ◌++◌, arith, length, take, drop, take-add, drop-drop, take_all, count_if, keep_if, All,
  Bool-cases,
}
use aura_explorer_api.Exec.{Result, ok}
use aura_explorer_api.Exec.Results.{and_then, map_ok, map_ok-eq-ok}
use aura_explorer_api.Repository.{Keyed, Repository}
use aura_explorer_api.Repository.Builder.{Builder, Listing, finalize_result}

module _ {Row : Type 0} where
  -- A client that asks for page after page.
  abbrev pub page_by_page : (ℕ → Result (Listing Row)) → ℕ → ℕ → ℕ → Result (List Row)
  page_by_page get limit zero offset = ok []
  page_by_page get limit (suc rounds) offset =
      and_then (get offset)
        (λ l. map_ok (λ rest. l.rows ++ rest) (page_by_page get limit rounds (offset + limit)))

  count_if-all : (xs : List Row) → count_if (λ _. true) xs ≡ length xs
  count_if-all [] = refl
  count_if-all (x ∷ xs) = omega (arith, count_if-all xs)

  count_if-kept :
      (w : Row → Bool) (xs : List Row) → count_if (λ _. true) (keep_if w xs) ≡ count_if w xs
  count_if-kept w [] = refl
  count_if-kept w (x ∷ xs) = ground (arith, count_if-kept w xs)

  passes_of_count :
      (p : Row → Bool) (xs : List Row) → count_if (λ x. not (p x)) xs ≡ 0 → All (λ x. p x ≡ true) xs
  passes_of_count p [] h = tt
  passes_of_count p (x ∷ xs) h = (ground arith, passes_of_count p xs (ground arith))

  none_kept : (w : Row → Bool) (xs : List Row) → count_if (λ x. not (w x)) (keep_if w xs) ≡ 0
  none_kept w [] = refl
  none_kept w (x ∷ xs) = elim (Bool-cases (w x)) [
    | inl e ↦ rw (keep_if, e, count_if, e) (omega (arith, none_kept w xs))
    | inr e ↦ rw (keep_if, e) (none_kept w xs)
  ]

module _ {Row Order : Type 0} {keyed : Keyed Row} (builder : Builder Row Order)
    (repo : Repository keyed) (order : Order) (w : Row → Bool) (limit : ℕ) (ts : List Row) where
  abbrev pub all_rows : List Row
  all_rows = builder.sorted order (repo.find w ts)

  -- The sorted rows are those of the condition.
  pub all_rows-kept : (p : Row → Bool) → count_if p all_rows ≡ count_if p (keep_if w ts)
  all_rows-kept p = builder.count-sorted order p (repo.find w ts) ∙ repo.count-find w p ts

  -- A page has no more of any rows than the table has under the condition.
  pub page-kept_le :
      (p : Row → Bool) (offset : ℕ) (l : Listing Row)
      → finalize_result builder repo order w limit offset ts ≡ ok l
      → count_if p l.rows ≤ count_if p (keep_if w ts)
  page-kept_le p offset l h =
      let (xs, paged, made) = map_ok-eq-ok _ _ l h in
      let rows : l.rows ≡ xs = ap (λ (o : Listing Row). o.rows) made in
      rw rows
        (omega (arith, builder.count-page_le p limit offset all_rows xs paged, all_rows-kept p))

  -- The rows of a page satisfy the condition.
  pub page-All :
      (offset : ℕ) (l : Listing Row)
      → finalize_result builder repo order w limit offset ts ≡ ok l
      → All (λ r. w r ≡ true) l.rows
  page-All offset l h =
      passes_of_count w l.rows
        (omega (arith, page-kept_le (λ r. not (w r)) offset l h, none_kept w ts))

  length-all_rows : length all_rows ≡ repo.count w ts
  length-all_rows =
      sym (count_if-all all_rows)
      ∙ all_rows-kept (λ _. true)
      ∙ count_if-kept w ts
      ∙ sym (repo.count_lem w ts)

  module _ (some_limit : 0 < limit) where
    page_by_page-rows :
        (rounds offset : ℕ)
        → page_by_page (λ o. finalize_result builder repo order w limit o ts) limit rounds offset
          ≡ ok (take (rounds * limit) (drop offset all_rows))
    page_by_page-rows zero offset = let e : 0 * limit ≡ 0 = omega arith in rw e refl
    page_by_page-rows (suc rounds) offset =
        let e : suc rounds * limit ≡ limit + rounds * limit = grind arith in
        rw
          (
            builder.page_lem limit offset all_rows some_limit,
            page_by_page-rows rounds (offset + limit),
            e,
            take-add,
            drop-drop,
          )
          refl

    page_by_page_whole :
        (rounds : ℕ)
        → repo.count w ts ≤ rounds * limit
        → page_by_page (λ o. finalize_result builder repo order w limit o ts) limit rounds 0
          ≡ ok all_rows
    page_by_page_whole rounds enough =
        let whole = take_all (rounds * limit) all_rows (rw length-all_rows enough) in
        page_by_page-rows rounds 0 ∙ ap ok whole

    -- Page after page, until as many rows are asked for as the first page counts, comes every row that
    -- satisfies the condition, as often as the table has it, and no other.
    pub page_by_page_all :
        (p : Row → Bool) (rounds : ℕ) (l : Listing Row)
        → finalize_result builder repo order w limit 0 ts ≡ ok l
        → l.count ≤ rounds * limit
        → (rs : List Row) × (page_by_page
              (λ o. finalize_result builder repo order w limit o ts)
              limit
              rounds
              0
            ≡ ok rs)
          × (count_if p rs ≡ count_if p (keep_if w ts))
    page_by_page_all p rounds l first enough =
        let answered = rw (builder.page_lem limit 0 all_rows some_limit) at first in
        let counted : repo.count w ts ≡ l.count = cc in
        (all_rows, page_by_page_whole rounds (rw counted enough), all_rows-kept p)

    -- A first page that all rows fit has them all.
    pub page_whole :
        (p : Row → Bool) (l : Listing Row)
        → finalize_result builder repo order w limit 0 ts ≡ ok l
        → l.count ≤ limit
        → count_if p l.rows ≡ count_if p (keep_if w ts)
    page_whole p l first enough =
        let answered = rw (builder.page_lem limit 0 all_rows some_limit) at first in
        let counted : repo.count w ts ≡ l.count = cc in
        let rows : l.rows ≡ take limit all_rows = cc in
        let fits : length all_rows ≤ limit = rw (length-all_rows, counted) enough in
        rw (rows, take_all limit all_rows fits) (all_rows-kept p)
