-- ===== src/Token/Holders.antt =====
-- The numbers of holders: `getHolders`, `getHolderWithPagination`, `getNewCw20Info` and the jobs that
-- store them, of src/components/queues/token/token.processor.ts.
pub mod Counted
use aura_explorer_api.Prelude.{
  ℕ, zero, suc, String, ◌+◌, ◌*◌, ◌==◌, nat_eq, Bool, true, false, not, ◌||◌, ltb, Option, none,
  some, List, [], ◌∷◌, ◌++◌, map, length, take, drop, first, truthy, text_or_empty, is_value,
  if◌then◌else◌, refl, string_eq,
}
use aura_explorer_api.Exec.{failure, Result, ok, err, Exec, pure, gets, lift, ◌>>=◌, ◌>>◌}
use aura_explorer_api.Exec.Results.{map_ok}
use aura_explorer_api.Repository.Batch.{transaction}
use aura_explorer_api.Entities.{Explorer, Asset}
use aura_explorer_api.Token.{
  Market, HolderStatistic, Cw20Contract, TokenServices, on_assets, on_statistics, logged,
}
use aura_explorer_api.Token.Paging.{Paged, get_data_with_pagination, max_request}
use aura_explorer_api.Token.Assets.{
  all_pages, is_of_type, ibc_type, native_type, cw20_type, erc20_type, get_new_erc20_info,
}

-- The sub-queries `total_holder_${index}`, each for the denom of its asset.
abbrev pub sub_queries : ℕ → List Asset → List (ℕ × Option String)
sub_queries index [] = []
sub_queries index (a ∷ rest) = (index, a.denom) ∷ sub_queries (suc index) rest

-- `{ ...totalHolders, ...holders }`, read with the last answer first.
abbrev pub spread : Option (List (ℕ × ℕ)) → List (ℕ × ℕ) → List (ℕ × ℕ)
spread none totals = totals
spread (some holders) totals = holders ++ totals

abbrev pub total_holder : ℕ → List (ℕ × ℕ) → Option ℕ
total_holder i [] = none
total_holder i ((j, n) ∷ rest) = if j == i then some n else total_holder i rest

module _ (env : TokenServices) (explorer : Explorer) where
  abbrev pub after_answer :
      Result (Option (List (ℕ × ℕ)))
      → (Option (List (ℕ × ℕ)) → Option (Result (List (ℕ × ℕ))))
      → Option (Result (List (ℕ × ℕ)))
  after_answer (err e) next = some (err e)
  after_answer (ok holders) next = next holders

  abbrev pub page_queries : ℕ → ℕ → List Asset → List (ℕ × Option String)
  page_queries limit page assets =
      sub_queries (page * limit) (take limit (drop (page * limit) assets))

  -- The loop for a number of rounds, from a page on: none if more rounds are needed.
  unfoldable pub holder_pages :
      ℕ → ℕ → ℕ → List Asset → List (ℕ × ℕ) → Option (Result (List (ℕ × ℕ)))
  holder_pages limit zero page assets totals = none
  holder_pages limit (suc rounds) page assets totals =
      after_answer (env.fetch_holders explorer (page_queries limit page assets)) (λ holders.
        elim (ltb (suc page * limit) (length assets)) [
          | true ↦ holder_pages limit rounds (suc page) assets (spread holders totals)
          | false ↦ some (ok (spread holders totals))
        ])

  unfoldable pub get_holder_with_pagination : List Asset → Option (Result (List (ℕ × ℕ)))
  get_holder_with_pagination assets = holder_pages max_request env.rounds 0 assets []

  abbrev pub new_statistic : ℕ → Asset → ℕ → HolderStatistic
  new_statistic now a count = record {
    id = 0;
    total_holder = some count;
    date = now;
    asset_id = a.id;
  }

  -- `totalHolders[…].aggregate.count` of every asset.
  abbrev pub statistics_of : ℕ → ℕ → List (ℕ × ℕ) → List Asset → Result (List HolderStatistic)
  statistics_of now index totals [] = ok []
  statistics_of now index totals (a ∷ rest) = elim (total_holder index totals) [
    | none ↦ err (failure "Cannot read properties of undefined (reading 'aggregate')")
    | some count ↦
        map_ok (λ later. new_statistic now a count ∷ later)
          (statistics_of now (suc index) totals rest)
  ]

  unfoldable pub get_holders : List String → ℕ → Exec Market (List HolderStatistic)
  get_holders types now = do
    assets ← gets (λ s. env.assets.find (is_of_type types explorer.id) s.assets)
    totals ← lift (all_pages (get_holder_with_pagination assets))
    lift (statistics_of now 0 totals assets)

  unfoldable pub sync_native_asset_holder : ℕ → Exec Market (Unit {0})
  sync_native_asset_holder now = logged (do
    statistics ← get_holders (ibc_type ∷ native_type ∷ []) now
    on_statistics (env.upsert_statistics statistics))

  unfoldable pub sync_erc20_asset_holder : ℕ → Exec Market (Unit {0})
  sync_erc20_asset_holder now = logged (do
    assets ← get_new_erc20_info env explorer
    statistics ← get_holders (erc20_type ∷ []) now
    on_assets (transaction env.assets.save assets)
    on_statistics (env.upsert_statistics statistics))

  abbrev pub paged_cw20 : Paged Cw20Contract
  paged_cw20 = record {
    id = λ a. a.id;
    prepare = λ a. a;
    without_id = λ a. record a { id = 0 };
    id-prepare = λ a. refl;
  }

  abbrev pub contract_of : List Cw20Contract → Asset → Option Cw20Contract
  contract_of contracts a = first (λ c. is_value a.denom c.address) contracts

  abbrev logo_of : Option Cw20Contract → Option String
  logo_of none = some ""
  logo_of (some c) = some (text_or_empty c.logo_url)

  abbrev symbol_of : Option Cw20Contract → Option String
  symbol_of none = some ""
  symbol_of (some c) = some (text_or_empty c.symbol)

  abbrev pub lacks_image : Asset → Bool
  lacks_image a = not (truthy a.image) || not (truthy a.symbol)

  abbrev pub with_image : List Cw20Contract → Asset → Asset
  with_image contracts a =
      if lacks_image a
      then record a {
        image = logo_of (contract_of contracts a);
        symbol = symbol_of (contract_of contracts a);
      }
      else a

  -- The assets that got a new image, and the statistics that the indexer has.
  abbrev pub new_images : List Cw20Contract → List Asset → List Asset
  new_images contracts [] = []
  new_images contracts (a ∷ rest) =
      if lacks_image a
      then with_image contracts a ∷ new_images contracts rest
      else new_images contracts rest

  abbrev statistic_of : Asset → Option Cw20Contract → List HolderStatistic → List HolderStatistic
  statistic_of a none later = later
  statistic_of a (some c) later = elim c.holders [
    | none ↦ later
    | some (count, day) ↦
        record { id = 0; total_holder = some count; date = day; asset_id = a.id } ∷ later
  ]

  abbrev pub cw20_statistics : List Cw20Contract → List Asset → List HolderStatistic
  cw20_statistics contracts [] = []
  cw20_statistics contracts (a ∷ rest) =
      statistic_of a (contract_of contracts a) (cw20_statistics contracts rest)

  unfoldable pub get_new_cw20_info : Exec Market (List Asset × List HolderStatistic)
  get_new_cw20_info = do
    assets ← gets (λ s. env.assets.find (is_of_type (cw20_type ∷ []) explorer.id) s.assets)
    contracts ←
        lift (all_pages (get_data_with_pagination paged_cw20 env.rounds (env.fetch_cw20 explorer)))
    pure (new_images contracts assets, cw20_statistics contracts assets)

  abbrev store_cw20 : List Asset × List HolderStatistic → Exec Market (Unit {0})
  store_cw20 (assets, statistics) = do
    on_assets (transaction env.assets.save assets)
    on_statistics (env.upsert_statistics statistics)

  unfoldable pub sync_cw20_asset_holder : Exec Market (Unit {0})
  sync_cw20_asset_holder = logged (get_new_cw20_info >>= store_cw20)

unfoldable pub clean_asset_holder : TokenServices → Exec Market (Unit {0})
clean_asset_holder env = logged (do on_statistics (env.statistics.delete env.is_old); pure tt)
