-- ===== src/Export/Service/Columns.antt =====
-- The files of the exports have the members that their columns show.
use aura_explorer_api.Prelude.{
  ℕ, String, ◌≡◌, refl, ap, sym, subst, ◌∙◌, true, string_eq, Option, none, some, List, [], ◌∷◌,
  map, All, All-append, is_value,
}
use aura_explorer_api.Exec.{ok}
use aura_explorer_api.Exec.Results.{
  map_each, and_then-eq-ok, map_ok-eq-ok, All-map, All-map_each, All-take,
}
use aura_explorer_api.Entities.{Explorer, Asset}
use aura_explorer_api.Export.Query.{query_data, export_limit_record}
use aura_explorer_api.Export.Convert.{Event, AccountRow}
use aura_explorer_api.Export.Rows.{
  Row, executed_row, coin_row, token_row, nft_row, evm_row, erc20_row,
}
use aura_explorer_api.Export.{
  ExportType, executed_txs, aura_txs, fts_txs, nft_txs, evm_executed_txs, erc20_txs, ExportParams,
  ExportServices,
}
use aura_explorer_api.Export.Service.{
  Csv, event_rows, account_rows, executed, coin_transfer, token_transfer, nft_transfer,
  evm_executed, erc20_transfer, export_transaction_data_to_csv, is_user, tags_of, is_coin_asset,
  evm_source, erc20_source, bounds_of, native_asset, export_by, with_explorer,
}
use aura_explorer_api.Export.Rows.Shown.{
  shows, coin_row-shows, token_row-shows, nft_row-shows, evm_row-shows, erc20_row-shows,
}

abbrev pub IsShown : Csv → Type 0
IsShown csv = All (λ row. shows csv.fields row ≡ true) csv.rows

All-event_rows :
    (P : Row → Type 0) (env : ExportServices) (f : AccountRow → Event → Row) (txs : List AccountRow)
    → ((tx : AccountRow) (e : Event) → P (f tx e))
    → All P (event_rows env f txs)
All-event_rows P env f [] h = tt
All-event_rows P env f (tx ∷ txs) h =
    All-append P (map (f tx) tx.events) (event_rows env f txs) (All-map P (f tx) tx.events (h tx))
      (All-event_rows P env f txs h)

module _ (env : ExportServices) (p : ExportParams) (user : Option ℕ) (explorer : Explorer) where
  executed-IsShown : (csv : Csv) → executed env p explorer ≡ ok csv → IsShown csv
  unfolding executed
  executed-IsShown csv done =
      let (txs, _, made) = map_ok-eq-ok _ (account_rows env executed_txs explorer p []) csv done in
      subst IsShown (sym made) (All-map _ (executed_row env) txs (λ tx. refl))

  coin_transfer-IsShown :
      (assets : List Asset) (csv : Csv)
      → coin_transfer env p user explorer assets ≡ ok csv
      → IsShown csv
  unfolding coin_transfer
  coin_transfer-IsShown assets csv done =
      let (txs, _, rest) =
        and_then-eq-ok
          (account_rows env aura_txs explorer p
            (env.assets.find (is_coin_asset env explorer.id) assets))
          _ csv done in
      let (tags, _, made) = map_ok-eq-ok _ (tags_of env user explorer.chain_id) csv rest in
      subst IsShown (sym made) (
        All-take _ export_limit_record (event_rows env (coin_row env tags p.address) txs) (
          All-event_rows _ env (coin_row env tags p.address) txs
            (coin_row-shows env tags (is_user env user) p.address)))

  token_transfer-IsShown : (csv : Csv) → token_transfer env p user explorer ≡ ok csv → IsShown csv
  unfolding token_transfer
  token_transfer-IsShown csv done =
      let (txs, _, rest) = and_then-eq-ok (account_rows env fts_txs explorer p []) _ csv done in
      let (tags, _, made) = map_ok-eq-ok _ (tags_of env user explorer.chain_id) csv rest in
      subst IsShown (sym made) (
        All-event_rows _ env (token_row env tags p.address) txs
          (token_row-shows env tags (is_user env user) p.address))

  nft_transfer-IsShown : (csv : Csv) → nft_transfer env p user explorer ≡ ok csv → IsShown csv
  unfolding nft_transfer
  nft_transfer-IsShown csv done =
      let (txs, _, rest) = and_then-eq-ok (account_rows env nft_txs explorer p []) _ csv done in
      let (tags, _, made) = map_ok-eq-ok _ (tags_of env user explorer.chain_id) csv rest in
      subst IsShown (sym made) (
        All-event_rows _ env (nft_row env tags p.address) txs
          (nft_row-shows env tags (is_user env user) p.address))

  evm_executed-IsShown :
      (assets : List Asset) (csv : Csv)
      → evm_executed env p user explorer assets ≡ ok csv
      → IsShown csv
  unfolding evm_executed
  evm_executed-IsShown assets csv done =
      let (found, _, after_query) =
        and_then-eq-ok (query_data (evm_source env explorer p) (bounds_of env p)) _ csv done in
      let (asset, _, after_asset) =
        and_then-eq-ok
          (native_asset env explorer
            (env.assets.find_one (λ a. is_value a.denom explorer.minimal_denom) assets))
          _ csv after_query in
      let (tags, _, after_tags) =
        and_then-eq-ok (tags_of env user explorer.chain_id) _ csv after_asset in
      let (rows, converted, made) =
        map_ok-eq-ok _ (map_each (evm_row env explorer tags found.methods asset.symbol) found.rows)
          csv after_tags in
      subst IsShown (sym made) (
        All-map_each _ (evm_row env explorer tags found.methods asset.symbol) found.rows rows
          (evm_row-shows env tags (is_user env user) explorer found.methods asset.symbol) converted)

  erc20_transfer-IsShown : (csv : Csv) → erc20_transfer env p user explorer ≡ ok csv → IsShown csv
  unfolding erc20_transfer
  erc20_transfer-IsShown csv done =
      let (found, _, after_query) =
        and_then-eq-ok (query_data (erc20_source env explorer p) (bounds_of env p)) _ csv done in
      let (tags, _, after_tags) =
        and_then-eq-ok (tags_of env user explorer.chain_id) _ csv after_query in
      let (rows, converted, made) =
        map_ok-eq-ok _ (map_each (erc20_row env p.evm_address tags found.methods) found.rows) csv
          after_tags in
      subst IsShown (sym made) (
        All-map_each _ (erc20_row env p.evm_address tags found.methods) found.rows rows
          (erc20_row-shows env tags (is_user env user) p.evm_address found.methods) converted)

  export_by-IsShown :
      (mode : ExportType) (assets : List Asset) (csv : Csv)
      → export_by env mode p user explorer assets ≡ ok csv
      → IsShown csv
  export_by-IsShown executed_txs assets csv done = executed-IsShown csv done
  export_by-IsShown aura_txs assets csv done = coin_transfer-IsShown assets csv done
  export_by-IsShown fts_txs assets csv done = token_transfer-IsShown csv done
  export_by-IsShown nft_txs assets csv done = nft_transfer-IsShown csv done
  export_by-IsShown evm_executed_txs assets csv done = evm_executed-IsShown assets csv done
  export_by-IsShown erc20_txs assets csv done = erc20_transfer-IsShown csv done

with_explorer-IsShown :
    (env : ExportServices) (p : ExportParams) (user : Option ℕ) (assets : List Asset)
    (explorer : Option Explorer) (csv : Csv)
    → with_explorer env p user assets explorer ≡ ok (some csv)
    → IsShown csv
with_explorer-IsShown env p user assets none csv done = cc
with_explorer-IsShown env p user assets (some explorer) csv done =
    let (csv', made, same) =
      map_ok-eq-ok (λ csv. some csv) (export_by env p.data_type p user explorer assets) (some csv)
        done in
    let one : csv' ≡ csv = cc in
    export_by-IsShown env p user explorer p.data_type assets csv (made ∙ ap ok one)

-- Whatever is exported, by whom and in what range: every column of the file shows a member that each
-- of its rows has.
pub export_transaction_data_to_csv-IsShown :
    (env : ExportServices) (chain_id : String) (p : ExportParams) (user : Option ℕ)
    (assets : List Asset) (csv : Csv)
    → export_transaction_data_to_csv env chain_id p user assets ≡ ok (some csv)
    → IsShown csv
unfolding export_transaction_data_to_csv
export_transaction_data_to_csv-IsShown env chain_id p user assets csv done =
    with_explorer-IsShown env p user assets (env.find_explorer chain_id) csv done
