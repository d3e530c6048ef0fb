-- ===== src/Token.antt =====
-- The assets and their holders: the tables that src/components/queues/token/token.processor.ts
-- writes, and what its jobs take from outside.
pub mod Paging
pub mod Assets
pub mod Holders
pub mod Prices
use aura_explorer_api.Prelude.{
  ℕ, ◌*◌, ◌≡◌, Option, none, some, String, List, length, take, drop, refl, keep_if, count_if, not,
  Bool, false, ◌==◌, string_eq,
}
use aura_explorer_api.Exec.{Result, Exec, try_catch, pure}
use aura_explorer_api.Repository.{Keyed, Repository}
use aura_explorer_api.Entities.{Explorer, Asset, asset_keyed}
use aura_explorer_api.Token.Paging.{Answer}

-- TokenHolderStatistic; its column token_market_id is never set.
pub record HolderStatistic : Type 0 where
  pub id : ℕ
  pub total_holder : Option ℕ
  pub date : ℕ
  pub asset_id : ℕ

-- A row of the sync points that has the type FIRST_TIME_SYNC_ASSETS.
pub record FirstSync : Type 0 where
  pub id : ℕ
  pub explorer_id : ℕ

abbrev pub statistic_keyed : Keyed HolderStatistic
statistic_keyed = record {
  id = λ a. a.id;
  with_id = λ n a. record a { id = n };
  id-with_id = λ n a. refl;
}

abbrev pub first_keyed : Keyed FirstSync
first_keyed = record {
  id = λ a. a.id;
  with_id = λ n a. record a { id = n };
  id-with_id = λ n a. refl;
}

pub record Market : Type 0 where
  pub assets : List Asset
  pub statistics : List HolderStatistic
  pub points : List FirstSync

-- An asset as the indexer has it, with what the job adds to it: the supply as a number, the explorer,
-- and at an ERC-20 token the type. `contract_updated_at` is `evm_smart_contract.updated_at`.
pub record IndexedAsset : Type 0 where
  pub id : ℕ
  pub decimal : Option ℕ
  pub denom : Option String
  pub name : Option String
  pub symbol : Option String
  pub supply : Option String
  pub type : Option String
  pub updated_at : Option String
  pub contract_updated_at : Option String
  pub total_supply : Option String
  pub explorer_id : Option ℕ

-- A contract of the query CW20_HOLDER_STAT: the url of its logo, and the count and the day of its
-- last statistic.
pub record Cw20Contract : Type 0 where
  pub id : ℕ
  pub address : String
  pub logo_url : Option String
  pub symbol : Option String
  pub holders : Option (ℕ × ℕ)

pub record Erc20Contract : Type 0 where
  pub id : ℕ
  pub address : String
  pub name : Option String
  pub symbol : Option String

-- A coin of Coingecko's markets, its numbers as texts.
pub record CoinMarket : Type 0 where
  pub id : String
  pub current_price : Option String
  pub price_change_percentage_24h : Option String
  pub market_cap : Option String
  pub total_volume : Option String

-- `coinId: Not('')`, which no row without a value satisfies.
abbrev pub has_coin_id : Asset → Bool
has_coin_id a = elim a.coin_id [ none ↦ false | some c ↦ not (c == "") ]

-- The repositories; the two statements of a query builder; the answers of the indexer, where `none`
-- stands for a failed request; Coingecko; and `balanceOf`, `Number(x?.toFixed(6))` of floats as
-- texts. `rounds` bounds the pages of one query.
pub record TokenServices : Type 0 where
  pub assets : Repository asset_keyed
  pub statistics : Repository statistic_keyed
  pub points : Repository first_keyed
  pub store_asset : List IndexedAsset → List Asset → Result (Unit {0}) × List Asset
  pub upsert_statistics :
      List HolderStatistic → List HolderStatistic → Result (Unit {0}) × List HolderStatistic
  pub fetch_assets : Explorer → Option ℕ → Option ℕ → Answer IndexedAsset
  pub fetch_new_erc20 : Explorer → Option ℕ → Option ℕ → Answer IndexedAsset
  pub fetch_erc20 : Explorer → Option ℕ → Answer Erc20Contract
  pub fetch_cw20 : Explorer → Option ℕ → Answer Cw20Contract
  pub fetch_holders : Explorer → List (ℕ × Option String) → Result (Option (List (ℕ × ℕ)))
  pub coin_markets : List String → Option (List CoinMarket)
  pub balance_of : String → ℕ → String
  pub fixed_6 : Option String → String
  pub ancient8_chain_ids : List String
  pub coingecko_max_request : ℕ
  -- `created_at: LessThan(…)` of two days ago, a column that the database fills.
  pub is_old : HolderStatistic → Bool
  pub rounds : ℕ

module _ {A : Type 0} where
  abbrev pub on_assets : (List Asset → Result A × List Asset) → Exec Market A
  on_assets f s = ((f s.assets).0, record s { assets = (f s.assets).1 })

  abbrev pub on_statistics :
      (List HolderStatistic → Result A × List HolderStatistic) → Exec Market A
  on_statistics f s = ((f s.statistics).0, record s { statistics = (f s.statistics).1 })

  abbrev pub on_points : (List FirstSync → Result A × List FirstSync) → Exec Market A
  on_points f s = ((f s.points).0, record s { points = (f s.points).1 })

-- A job logs what it throws.
abbrev pub logged : Exec Market (Unit {0}) → Exec Market (Unit {0})
logged m = try_catch m (λ _. pure tt)
