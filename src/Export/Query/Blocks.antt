-- ===== src/Export/Query/Blocks.antt =====
-- What an export misses where a page ends within a block.
use aura_explorer_api.Prelude.{
  ℕ, zero, suc, ◌≡◌, ◌<◌, ◌∙◌, sym, ap, refl, true, false, ltb, none, some, List, [], ◌∷◌, ◌++◌,
  length, All, All-append, Bool-cases, Option-cases, inl, inr, arith, ◌⊎◌,
}
use mathlib.Core.List.{append_assoc, append-nil}
use aura_explorer_api.Prelude.Pages.{last_key}
use aura_explorer_api.Exec.{ok, Result-cases}
use aura_explorer_api.Repository.Rows.{All-imp}
use aura_explorer_api.Export.Query.{
  Bounds, Method, Source, Found, add_page, page_methods, query_loop, query_data,
}

module _ {Row : Type 0} (src : Source Row) where
  -- No answer holds a transaction at or above the height that is asked for.
  abbrev pub HonoursHeight : Type 0
  HonoursHeight =
      (bounds : Bounds) (k : ℕ) (page : List Row)
      → bounds.height_lt ≡ some k
      → src.fetch bounds ≡ ok (some page)
      → All (λ r. src.height r < k) page

  abbrev pub AllBelow : ℕ → List Row → Type 0
  AllBelow k rows = All (λ r. src.height r < k) rows

  last_key_below :
      (k k' : ℕ) (page : List Row) → AllBelow k page → last_key src.height page ≡ some k' → k' < k
  last_key_below k k' [] h e = cc
  last_key_below k k' (r ∷ rest) (h, hs) e = ground (arith, last_key_below k k' rest hs)

  last_key_of_long :
      (n : ℕ) (page : List Row)
      → ltb (length page) (suc n) ≡ false
      → (k : ℕ) × (last_key src.height page ≡ some k)
  last_key_of_long n [] h = absurd (ground arith)
  last_key_of_long n (r ∷ rest) h = elim (Option-cases (last_key src.height rest)) [
    | inl empty ↦ rw empty (src.height r, refl)
    | inr (k, found) ↦ rw found (k, refl)
  ]

  -- The outcomes of one turn of the loop that ends with a result.
  abbrev Turn : ℕ → ℕ → ℕ → Bounds → Found Row → Found Row → Type 0
  Turn limit total left bounds found result =
      (result ≡ found)
      ⊎ ((page : List Row) × (methods : List Method) × (src.fetch bounds ≡ ok (some page))
          × (((ltb (length page) limit ≡ true) × (result ≡ add_page src page methods found))
              ⊎ ((ltb (length page) limit ≡ false)
                  × (query_loop src limit total left
                        (record bounds { height_lt = last_key src.height page })
                        (add_page src page methods found)
                      ≡ ok result))))

  query_loop-Turn :
      (limit total left : ℕ) (bounds : Bounds) (found result : Found Row)
      → query_loop src limit total (suc left) bounds found ≡ ok result
      → Turn limit total left bounds found result
  unfolding query_loop
  query_loop-Turn limit total left bounds found result done =
      elim (Bool-cases (ltb (length found.rows) total)) [
        | inr full ↦ inl (ground arith)
        | inl room ↦ elim (Result-cases (src.fetch bounds)) [
          | inr (e, failed) ↦ absurd (ground arith)
          | inl (none, answer) ↦ inl (ground arith)
          | inl (some page, answer) ↦ elim (Result-cases (page_methods src page)) [
            | inr (e, failed) ↦ absurd (ground arith)
            | inl (methods, asked) ↦ elim (Bool-cases (ltb (length page) limit)) [
              | inl short ↦ inr (page, methods, answer, inl (short, ground arith))
              | inr long ↦ inr (page, methods, answer, inr (long, ground arith))
            ]
          ]
        ]
      ]

  query_loop-long :
      (limit total left : ℕ) (bounds : Bounds) (found result : Found Row) (page : List Row)
      → ltb (length found.rows) total ≡ true
      → src.fetch bounds ≡ ok (some page)
      → ltb (length page) limit ≡ false
      → query_loop src limit total (suc left) bounds found ≡ ok result
      → (methods : List Method) × (query_loop src limit total left
            (record bounds { height_lt = last_key src.height page })
            (add_page src page methods found)
          ≡ ok result)
  unfolding query_loop
  query_loop-long limit total left bounds found result page room answer long done =
      elim (Result-cases (page_methods src page)) [
        | inr (e, failed) ↦ absurd (ground arith)
        | inl (methods, asked) ↦ (methods, ground arith)
      ]

  -- Rows that were found, and after them rows below a height only.
  abbrev pub OnlyBelow : ℕ → List Row → List Row → Type 0
  OnlyBelow k rows all = (more : List Row) × (all ≡ rows ++ more) × AllBelow k more

  OnlyBelow-refl : (k : ℕ) (rows all : List Row) → all ≡ rows → OnlyBelow k rows all
  OnlyBelow-refl k rows all same = ([], same ∙ sym (append-nil rows), tt)

  OnlyBelow-append :
      (k k' : ℕ) (rows page all : List Row)
      → AllBelow k page
      → k' < k
      → OnlyBelow k' (rows ++ page) all
      → OnlyBelow k rows all
  OnlyBelow-append k k' rows page all low less (more, whole, lower) = (
    page ++ more,
    whole ∙ append_assoc rows page more,
    All-append (λ r. src.height r < k) page more low
        (All-imp (λ r. src.height r < k') (λ r. src.height r < k) more (λ r h. omega arith) lower),
  )

  query_loop_end :
      (limit total : ℕ) (bounds : Bounds) (found result : Found Row)
      → query_loop src limit total zero bounds found ≡ ok result
      → result.rows ≡ found.rows
  unfolding query_loop
  query_loop_end limit total bounds found result done =
      let same : found ≡ result = cc in ap (λ (f : Found Row). f.rows) (sym same)

  module _ (honours : HonoursHeight) (n total : ℕ) where
    query_loop_below :
        (left k : ℕ) (bounds : Bounds) (found result : Found Row)
        → bounds.height_lt ≡ some k
        → query_loop src (suc n) total left bounds found ≡ ok result
        → OnlyBelow k found.rows result.rows
    query_loop_below zero k bounds found result h done =
        OnlyBelow-refl k found.rows result.rows
          (query_loop_end (suc n) total bounds found result done)
    query_loop_below (suc left) k bounds found result h done =
        elim (query_loop-Turn (suc n) total left bounds found result done) [
          | inl same ↦ OnlyBelow-refl k found.rows result.rows (ap (λ (f : Found Row). f.rows) same)
          | inr (page, methods, answer, inl (short, last)) ↦
              (page, ap (λ (f : Found Row). f.rows) last, honours bounds k page h answer)
          | inr (page, methods, answer, inr (long, next)) ↦
              let low = honours bounds k page h answer in
              let (k', key) = last_key_of_long n page long in
              OnlyBelow-append k k' found.rows page result.rows low
                (last_key_below k k' page low key)
                (query_loop_below left k' _ (add_page src page methods found) result key next)
        ]

  -- If no answer of the indexer holds a transaction at or above the height that is asked for, and the
  -- first page is full, then all that an export holds after that page lies below the height of the
  -- last transaction of the page: no other transaction of its block is exported.
  pub query_data_after_page :
      (bounds : Bounds) (page : List Row) (result : Found Row)
      → HonoursHeight
      → src.fetch bounds ≡ ok (some page)
      → ltb (length page) 100 ≡ false
      → query_data src bounds ≡ ok result
      → (k : ℕ) × (last_key src.height page ≡ some k) × OnlyBelow k page result.rows
  unfolding query_data
  query_data_after_page bounds page result honours answer long done =
      let (k, key) = last_key_of_long 99 page long in
      let (methods, next) =
        query_loop-long 100 1000 9 bounds (record { rows = []; methods = [] }) result page refl
          answer long done in
      (k, key, query_loop_below honours 99 1000 9 k _ _ result key next)
