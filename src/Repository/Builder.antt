-- ===== src/Repository/Builder.antt =====
-- TypeORM's SelectQueryBuilder, as the paged listings use it: a condition, an order, LIMIT and OFFSET,
-- and the number of all rows. The library is an interface with its documented behaviour as laws.
pub mod Pages
use aura_explorer_api.Prelude.{
  ℕ, ◌≤◌, ◌<◌, ◌≡◌, String, Bool, true, Option, List, take, drop, count_if, truthy, text_or_empty,
  if◌then◌else◌,
}
use aura_explorer_api.Exec.{Result, ok}
use aura_explorer_api.Exec.Results.{map_ok}
use aura_explorer_api.Repository.{Keyed, Repository}

-- A query sorts the rows that it has by one of its orders, and a page is cut out of them. A limit of 0
-- is left to TypeORM; in any case a page has no row that the query does not have.
pub record Builder (Row Order : Type 0) : Type 0 where
  pub sorted : Order → List Row → List Row
  pub page : ℕ → ℕ → List Row → Result (List Row)
  pub count-sorted :
      (o : Order) (p : Row → Bool) (ts : List Row) → count_if p (sorted o ts) ≡ count_if p ts
  pub page_lem :
      (limit offset : ℕ) (ts : List Row)
      → 0 < limit
      → page limit offset ts ≡ ok (take limit (drop offset ts))
  pub count-page_le :
      (p : Row → Bool) (limit offset : ℕ) (ts xs : List Row)
      → page limit offset ts ≡ ok xs
      → count_if p xs ≤ count_if p ts

-- A page, and the number of all rows.
pub record Listing (Row : Type 0) : Type 0 where
  pub rows : List Row
  pub count : ℕ

-- A condition that is there only with a text.
abbrev pub if_given : Option String → (String → Bool) → Bool
if_given given p = if truthy given then p (text_or_empty given) else true

module _ {Row Order : Type 0} {keyed : Keyed Row} (builder : Builder Row Order)
    (repo : Repository keyed) where
  -- `_finalizeResult` of the repositories.
  abbrev pub finalize_result : Order → (Row → Bool) → ℕ → ℕ → List Row → Result (Listing Row)
  finalize_result order w limit offset ts =
      map_ok (λ page. record { rows = page; count = repo.count w ts })
        (builder.page limit offset (builder.sorted order (repo.find w ts)))
