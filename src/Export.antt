-- ===== src/Export.antt =====
-- Exports to CSV: what src/components/export-csv/services/export-csv.service.ts reads and answers.
pub mod Query
pub mod Convert
pub mod Rows
pub mod Service
use aura_explorer_api.Prelude.{ℕ, String, Option, List}
use aura_explorer_api.Exec.{Result}
use aura_explorer_api.Repository.{Repository}
use aura_explorer_api.Entities.{Explorer, Asset, asset_keyed}
use aura_explorer_api.NameTag.{PrivateNameTag}
use aura_explorer_api.WatchList.Settings.{Json}
use aura_explorer_api.Notification.Message.{Message}
use aura_explorer_api.Notification.Texts.Coins.{Coin}
use aura_explorer_api.Export.Query.{Bounds, Method}

-- TYPE_EXPORT
pub data ExportType : Type 0 where
  executed_txs aura_txs fts_txs nft_txs evm_executed_txs erc20_txs : ExportType

-- RANGE_EXPORT
pub data RangeType : Type 0 where
  date height : RangeType

-- ExportCsvParamDto
pub record ExportParams : Type 0 where
  pub data_type : ExportType
  pub address : String
  pub evm_address : Option String
  pub range_type : RangeType
  pub min : String
  pub max : String

pub record Cw20Ref : Type 0 where
  pub decimal : Option ℕ
  pub symbol : Option String
  pub address : Option String

-- A transaction or an activity as the four queries for Cosmos accounts list it. What a query does not
-- ask for is undefined; `tx_…` are the members of `tx`, `fee` is `fee[0]`, its denom and its amount.
pub record AccountTx : Type 0 where
  pub code : Option ℕ
  pub hash : Option String
  pub tx_hash : Option String
  pub messages : Option (List Message)
  pub tx_messages : Option (List Message)
  pub fee : Option (Option String × Option String)
  pub height : ℕ
  pub timestamp : Option String
  pub tx_timestamp : Option String
  pub evm_hash : Option String
  pub coin_transfers : Option (List Coin)
  pub from : Option String
  pub to : Option String
  pub amount : Option String
  pub cw20_contract : Option Cw20Ref
  pub cw721_token_id : Option (Option String)
  pub cw721_address : Option String

-- The Cosmos transaction of an EVM transaction; `value` is undefined where its first message has none,
-- and absent where there is no such message.
pub record OuterTx : Type 0 where
  pub hash : Option String
  pub timestamp : Option String
  pub value : Option (Option String)

pub record EvmTx : Type 0 where
  pub hash : Option String
  pub input : Option String
  pub height : ℕ
  pub from : Option String
  pub to : Option String
  pub transaction : Option OuterTx

pub record EvmRef : Type 0 where
  pub message_type : Option String
  pub input : Option String
  pub timestamp : Option String

pub record Erc20Activity : Type 0 where
  pub tx_hash : Option String
  pub height : ℕ
  pub from : Option String
  pub to : Option String
  pub amount : Option String
  pub evm_transaction : Option EvmRef
  pub erc20_contract : Option Cw20Ref

-- The assets; the explorer of a chain; `getNameTags` for the first 500 tags of a user on a chain, an SQL
-- query, and the cipher; JSON.parse; `balanceOf` of floats, of a text, of `Number(a) || 0`, of a text with
-- a decimal, where both may be undefined, and of a value that may be undefined;
-- `Math.floor(new Date(t).getTime() / 1000)`; `Number` of a text, without a value where it is no natural
-- number; and the answers of the indexer.
pub record ExportServices : Type 0 where
  pub assets : Repository asset_keyed
  pub find_explorer : String → Option Explorer
  pub get_name_tags : ℕ → String → Result (List PrivateNameTag)
  pub decrypt : String → Result String
  pub parse : String → Option Json
  pub balance_of : String → ℕ → String
  pub coin_amount : Option String → ℕ → String
  pub token_amount : Option String → Option ℕ → String
  pub evm_amount : Option String → ℕ → String
  pub unix_time : Option String → String
  pub number : String → Option ℕ
  pub fetch_account_txs :
      ExportType → Explorer → ExportParams → Bounds → Result (Option (List AccountTx))
  pub fetch_evm_txs : Explorer → ExportParams → Bounds → Result (Option (List EvmTx))
  pub fetch_erc20 : Explorer → ExportParams → Bounds → Result (Option (List Erc20Activity))
  pub fetch_methods : List String → Result (Option (List Method))
