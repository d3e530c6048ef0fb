-- ===== src/Token/Paging.antt =====
-- `getDataWithPagination` of src/components/queues/token/token.processor.ts: the answers of the
-- indexer to one query, page by page. Every page is asked for above the key of the last item.
pub mod Complete
use aura_explorer_api.Prelude.{
  ℕ, zero, suc, ◌≡◌, Bool, true, false, Option, none, some, List, [], ◌∷◌, ◌++◌, map, length, ◌==◌,
  nat_eq,
}
use aura_explorer_api.Prelude.Pages.{last_key}
use aura_explorer_api.Exec.{failure, Result, ok, err}
use aura_explorer_api.Exec.Results.{map_ok}

-- INDEXER_API_V2.MAX_REQUEST
abbrev pub max_request : ℕ
max_request = 100

-- What the loop does with the items of a page. `prepare` is what it adds to an asset.
pub record Paged (Item : Type 0) : Type 0 where
  pub id : Item → ℕ
  pub prepare : Item → Item
  pub without_id : Item → Item
  pub id-prepare : (x : Item) → id (prepare x) ≡ id x

-- The answer to a query: none if it failed, and then the list of the items, which may be missing.
abbrev pub Answer : Type 0 → Type 0
Answer Item = Option (Option (List Item))

abbrev pub new_data : {Item : Type 0} → Answer Item → Result (List Item)
new_data none = err (failure "Cannot destructure property 'data' of null")
new_data (some none) = ok []
new_data (some (some items)) = ok items

module _ {Item : Type 0} (paged : Paged Item) where
  -- `newData[newData.length - 1]?.id`
  abbrev pub last_id : List Item → Option ℕ
  last_id items = last_key paged.id items

  abbrev pub append_page : List Item → Option (Result (List Item)) → Option (Result (List Item))
  append_page page none = none
  append_page page (some r) = some (map_ok (λ rest. page ++ rest) r)

  abbrev pub with_items :
      Result (List Item) → (List Item → Option (Result (List Item))) → Option (Result (List Item))
  with_items (err e) next = some (err e)
  with_items (ok items) next = next items

  -- The loop, for a number of rounds: none if more are needed.
  unfoldable pub read_pages :
      ℕ → ℕ → (Option ℕ → Answer Item) → Option ℕ → Option (Result (List Item))
  read_pages limit zero fetch after = none
  read_pages limit (suc rounds) fetch after = with_items (new_data (fetch after)) (λ items.
      elim (length items == limit) [
        | true ↦
            append_page (map paged.prepare items)
              (read_pages limit rounds fetch (last_id (map paged.prepare items)))
        | false ↦ some (ok (map paged.prepare items))
      ])

  abbrev pub without_ids : Option (Result (List Item)) → Option (Result (List Item))
  without_ids none = none
  without_ids (some r) = some (map_ok (map paged.without_id) r)

  unfoldable pub get_data_with_pagination :
      ℕ → (Option ℕ → Answer Item) → Option (Result (List Item))
  get_data_with_pagination rounds fetch = without_ids (read_pages max_request rounds fetch none)
