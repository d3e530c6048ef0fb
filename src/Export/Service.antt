-- ===== src/Export/Service.antt =====
-- ExportCsvService of src/components/export-csv/services/export-csv.service.ts.
pub mod Columns
use aura_explorer_api.Prelude.{
  ℕ, String, ◌+◌, ◌-◌, ltb, Bool, true, false, not, ◌==◌, nat_eq, ◌&&◌, Option, none, some, List,
  [], ◌∷◌, ◌++◌, map, take, is_value, is_some, any, if◌then◌else◌, text_or_empty, string_eq,
}
use aura_explorer_api.Prelude.Text.{◌<>◌, text_or_null}
use aura_explorer_api.Exec.{failure, entity_not_found, Result, ok, err}
use aura_explorer_api.Exec.Results.{and_then, map_ok, map_each}
use aura_explorer_api.Entities.{Explorer, Asset}
use aura_explorer_api.NameTag.{PrivateNameTag}
use aura_explorer_api.Export.Query.{Bounds, Method, Source, Found, query_data, export_limit_record}
use aura_explorer_api.Export.Convert.{Event, AccountRow, convert_data_account_transaction}
use aura_explorer_api.Export.Rows.{
  Row, Column, Tags, executed_header, evm_executed_header, coin_transfer_header,
  token_transfer_header, nft_transfer_header, executed_row, coin_row, token_row, nft_row, evm_row,
  erc20_row, prefix_8,
}
use aura_explorer_api.Export.{
  ExportType, executed_txs, aura_txs, fts_txs, nft_txs, evm_executed_txs, erc20_txs, RangeType,
  date, height, ExportParams, AccountTx, EvmTx, EvmRef, Erc20Activity, ExportServices,
}

pub record Csv : Type 0 where
  pub rows : List Row
  pub file_name : String
  pub fields : List Column

module _ (env : ExportServices) where
  abbrev plus_one : Option ℕ → Option ℕ
  plus_one none = none
  plus_one (some n) = some (n + 1)

  -- `+min > 1 ? +min - 1 : 0`
  abbrev before_min : Option ℕ → ℕ
  before_min none = 0
  before_min (some n) = if ltb 1 n then n - 1 else 0

  -- The variables of all queries; NaN is sent as null.
  unfoldable pub bounds_of : ExportParams → Bounds
  bounds_of p = elim p.range_type [
    | height ↦ record {
      height_lt = plus_one (env.number p.max);
      height_gt = some (before_min (env.number p.min));
      start_time = none;
      end_time = none;
    }
    | date ↦ record {
      height_lt = none;
      height_gt = none;
      start_time = some p.min;
      end_time = some p.max;
    }
  ]

  abbrev pub account_source : ExportType → Explorer → ExportParams → Source AccountTx
  account_source mode explorer p = record {
    height = λ tx. tx.height;
    method_id = none;
    fetch = env.fetch_account_txs mode explorer p;
    fetch_methods = env.fetch_methods;
  }

  abbrev pub evm_source : Explorer → ExportParams → Source EvmTx
  evm_source explorer p = record {
    height = λ tx. tx.height;
    method_id = some (λ tx. prefix_8 tx.input);
    fetch = env.fetch_evm_txs explorer p;
    fetch_methods = env.fetch_methods;
  }

  abbrev input_of : Option EvmRef → Option String
  input_of none = none
  input_of (some evm) = evm.input

  abbrev pub erc20_source : Explorer → ExportParams → Source Erc20Activity
  erc20_source explorer p = record {
    height = λ tx. tx.height;
    method_id = some (λ tx. prefix_8 (input_of tx.evm_transaction));
    fetch = env.fetch_erc20 explorer p;
    fetch_methods = env.fetch_methods;
  }

  -- `if (userId)`: none, and the key 0, are no user.
  abbrev pub is_user : Option ℕ → Bool
  is_user none = false
  is_user (some i) = not (i == 0)

  abbrev decrypted : PrivateNameTag → Result PrivateNameTag
  decrypted t = map_ok (λ n. record t { name_tag = n }) (env.decrypt t.name_tag)

  abbrev pub tags_of : Option ℕ → String → Result Tags
  tags_of none chain_id = ok none
  tags_of (some i) chain_id =
      if i == 0
      then ok none
      else and_then (env.get_name_tags i chain_id)
          (λ tags. map_ok (λ read. some read) (map_each decrypted tags))

  -- The converted transactions of an account.
  abbrev pub account_rows :
      ExportType → Explorer → ExportParams → List Asset → Result (List AccountRow)
  account_rows mode explorer p assets =
      and_then (query_data (account_source mode explorer p) (bounds_of p))
        (λ found. convert_data_account_transaction env explorer mode p.address assets found.rows)

  unfoldable pub executed : ExportParams → Explorer → Result Csv
  executed p explorer =
      map_ok
        (λ txs. record {
          rows = map (executed_row env) txs;
          file_name = "export-account-executed-" <> (p.address <> ".csv");
          fields = executed_header;
        })
        (account_rows executed_txs explorer p [])

  -- One row for each transfer of each transaction.
  abbrev pub event_rows : (AccountRow → Event → Row) → List AccountRow → List Row
  event_rows f [] = []
  event_rows f (tx ∷ rest) = map (f tx) tx.events ++ event_rows f rest

  abbrev pub is_coin_asset : ℕ → Asset → Bool
  is_coin_asset explorer a =
      any (is_value a.type) ("IBC_TOKEN" ∷ "NATIVE" ∷ [])
      && (is_some a.name && is_value a.explorer_id explorer)

  unfoldable pub coin_transfer : ExportParams → Option ℕ → Explorer → List Asset → Result Csv
  coin_transfer p user explorer assets =
      and_then
        (account_rows aura_txs explorer p (env.assets.find (is_coin_asset explorer.id) assets))
        (λ txs.
          map_ok
            (λ tags. record {
              rows = take export_limit_record (event_rows (coin_row env tags p.address) txs);
              file_name = "export-account-native-transfer-" <> (p.address <> ".csv");
              fields = coin_transfer_header (is_user user);
            })
            (tags_of user explorer.chain_id))

  unfoldable pub token_transfer : ExportParams → Option ℕ → Explorer → Result Csv
  token_transfer p user explorer = and_then (account_rows fts_txs explorer p []) (λ txs.
      map_ok
        (λ tags. record {
          rows = event_rows (token_row env tags p.address) txs;
          file_name = "export-account-cw20-transfer-" <> (p.address <> ".csv");
          fields = token_transfer_header (is_user user);
        })
        (tags_of user explorer.chain_id))

  unfoldable pub nft_transfer : ExportParams → Option ℕ → Explorer → Result Csv
  nft_transfer p user explorer = and_then (account_rows nft_txs explorer p []) (λ txs.
      map_ok
        (λ tags. record {
          rows = event_rows (nft_row env tags p.address) txs;
          file_name = "export-account-nft-transfer-" <> (p.address <> ".csv");
          fields = nft_transfer_header (is_user user);
        })
        (tags_of user explorer.chain_id))

  abbrev pub native_asset : Explorer → Option Asset → Result Asset
  native_asset explorer none = err (entity_not_found "Asset")
  native_asset explorer (some a) = ok a

  -- `${payload.evmAddress}`
  abbrev evm_file : String → Option String → String
  evm_file name none = name <> "undefined.csv"
  evm_file name (some address) = name <> (address <> ".csv")

  unfoldable pub evm_executed : ExportParams → Option ℕ → Explorer → List Asset → Result Csv
  evm_executed p user explorer assets =
      and_then (query_data (evm_source explorer p) (bounds_of p)) (λ found.
        and_then
          (native_asset explorer
            (env.assets.find_one (λ a. is_value a.denom explorer.minimal_denom) assets))
          (λ asset. and_then (tags_of user explorer.chain_id) (λ tags.
            map_ok
              (λ rows. record {
                rows = rows;
                file_name = evm_file "export-account-evm-executed-" p.evm_address;
                fields = evm_executed_header (is_user user);
              })
              (map_each (evm_row env explorer tags found.methods asset.symbol) found.rows))))

  unfoldable pub erc20_transfer : ExportParams → Option ℕ → Explorer → Result Csv
  erc20_transfer p user explorer =
      and_then (query_data (erc20_source explorer p) (bounds_of p)) (λ found.
        and_then (tags_of user explorer.chain_id) (λ tags.
          map_ok
            (λ rows. record {
              rows = rows;
              file_name = evm_file "export-account-erc20-transfer-" p.evm_address;
              fields = token_transfer_header (is_user user);
            })
            (map_each (erc20_row env p.evm_address tags found.methods) found.rows)))

  abbrev pub export_by : ExportType → ExportParams → Option ℕ → Explorer → List Asset → Result Csv
  export_by executed_txs p user explorer assets = executed p explorer
  export_by aura_txs p user explorer assets = coin_transfer p user explorer assets
  export_by fts_txs p user explorer assets = token_transfer p user explorer
  export_by nft_txs p user explorer assets = nft_transfer p user explorer
  export_by evm_executed_txs p user explorer assets = evm_executed p user explorer assets
  export_by erc20_txs p user explorer assets = erc20_transfer p user explorer

  abbrev pub with_explorer :
      ExportParams → Option ℕ → List Asset → Option Explorer → Result (Option Csv)
  with_explorer p user assets none = ok none
  with_explorer p user assets (some explorer) =
      map_ok (λ csv. some csv) (export_by p.data_type p user explorer assets)

  -- Without an explorer the error is logged and nothing is answered. The errors of an export are those
  -- of a promise that is not awaited inside the try block, so they reach the caller.
  unfoldable pub export_transaction_data_to_csv :
      String → ExportParams → Option ℕ → List Asset → Result (Option Csv)
  export_transaction_data_to_csv chain_id p user assets =
      with_explorer p user assets (env.find_explorer chain_id)
