-- ===== src/Token/Prices.antt =====
-- The prices of assets: `syncCW20TokenPrice`, `syncCoingeckoPrice` and `updateTokenMarketsData` of
-- src/components/queues/token/token.processor.ts.
pub mod Requested
use aura_explorer_api.Prelude.{
  ℕ, zero, suc, String, ◌+◌, ◌*◌, ◌/◌, ◌-◌, ◌==◌, nat_eq, string_eq, Bool, true, false, Option,
  none, some, List, [], ◌∷◌, ◌++◌, map, length, take, drop, leb, if◌then◌else◌, keep_if, any,
  is_value, text_or_empty,
}
use aura_explorer_api.Exec.{Result, ok, err, Exec, pure, gets, ◌>>=◌, ◌>>◌}
use aura_explorer_api.Repository.Batch.{transaction}
use aura_explorer_api.Entities.{Asset}
use aura_explorer_api.Token.{Market, CoinMarket, TokenServices, has_coin_id, on_assets}

-- `Math.ceil(n / limit)`
abbrev pub ceil_div : ℕ → ℕ → ℕ
ceil_div n limit = (n + (limit - 1)) / limit

abbrev pub with_page : List String → List (List String) → List (List String)
with_page [] later = later
with_page (c ∷ cs) later = (c ∷ cs) ∷ later

abbrev pub insert_by_id : Asset → List Asset → List Asset
insert_by_id a [] = a ∷ []
insert_by_id a (b ∷ rest) =
    let later = insert_by_id a rest in if leb a.id b.id then a ∷ b ∷ rest else b ∷ later

-- `order: { id: 'ASC' }`
unfoldable pub by_id : List Asset → List Asset
by_id [] = []
by_id (a ∷ rest) = insert_by_id a (by_id rest)

module _ (env : TokenServices) where
  abbrev pub update_token_markets_data : Asset → CoinMarket → Asset
  update_token_markets_data a m = record a {
    current_price = some (env.fixed_6 m.current_price);
    price_change_percentage_24h = some (env.fixed_6 m.price_change_percentage_24h);
    market_cap = some (env.fixed_6 m.market_cap);
    total_volume = some (env.fixed_6 m.total_volume);
  }

  -- The assets of each coin of the answer, with its market.
  abbrev pub coin_markets_of : List CoinMarket → List Asset → List Asset
  coin_markets_of [] assets = []
  coin_markets_of (m ∷ rest) assets =
      map (λ a. update_token_markets_data a m) (keep_if (λ a. is_value a.coin_id m.id) assets)
      ++ coin_markets_of rest assets

  abbrev markets_of : Option (List CoinMarket) → List Asset → List Asset
  markets_of none assets = []
  markets_of (some answer) assets = coin_markets_of answer assets

  abbrev save_markets : List Asset → Exec Market (Unit {0})
  save_markets [] = pure tt
  save_markets (a ∷ rest) = on_assets (transaction env.assets.save (a ∷ rest))

  unfoldable pub sync_coingecko_price : List String → Exec Market (Unit {0})
  sync_coingecko_price ids = do
    assets ← gets (λ s. env.assets.find (λ a. any (is_value a.coin_id) ids) s.assets)
    save_markets (markets_of (env.coin_markets ids) assets)

  abbrev pub count_assets_having_coin_id : Market → ℕ
  count_assets_having_coin_id s = env.assets.count has_coin_id s.assets

  abbrev pub get_assets_having_coin_id : ℕ → ℕ → Market → List String
  get_assets_having_coin_id limit page s =
      map (λ a. text_or_empty a.coin_id)
        (take limit (drop (page * limit) (by_id (env.assets.find has_coin_id s.assets))))

  abbrev pub pages_from : ℕ → ℕ → Market → List (List String)
  pages_from zero i s = []
  pages_from (suc n) i s =
      with_page (get_assets_having_coin_id env.coingecko_max_request i s) (pages_from n (suc i) s)

  -- The lists of coins that `syncCW20TokenPrice` hands to `syncCoingeckoPrice`, which it does not
  -- await: what is handed on depends on the coins alone, which no price changes.
  unfoldable pub sync_cw20_token_price : Market → List (List String)
  sync_cw20_token_price s =
      pages_from (ceil_div (count_assets_having_coin_id s) env.coingecko_max_request) 0 s
