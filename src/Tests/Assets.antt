-- ===== src/Tests/Assets.antt =====
-- The jobs of assets and holders on a small market.
use aura_explorer_api.Prelude.{
  ℕ, String, ◌≡◌, refl, false, Option, none, some, List, [], ◌∷◌, ◌++◌, take, is_value, keep_if,
  ◌==◌, string_eq, count_if, arith,
}
use aura_explorer_api.Exec.{ok}
use aura_explorer_api.Repository.Memory.{memory}
use aura_explorer_api.Entities.{Asset, asset_keyed}
use aura_explorer_api.Tests.{aura}
use aura_explorer_api.Token.{
  Market, FirstSync, Erc20Contract, TokenServices, statistic_keyed, first_keyed,
}
use aura_explorer_api.Token.Paging.{get_data_with_pagination, read_pages}
use aura_explorer_api.Token.Paging.Complete.{is_above, get_data_with_pagination_all}
use aura_explorer_api.Token.Assets.{paged_erc20, sync_asset}
use aura_explorer_api.Token.Assets.Missed.{with_old, sync_asset_missed}
use aura_explorer_api.Token.Holders.{get_holders}
use aura_explorer_api.Token.Holders.Counted.{answer_of, get_holders_all}
use aura_explorer_api.Token.Prices.{sync_cw20_token_price, by_id}
use aura_explorer_api.Token.Prices.Requested.{joined, sync_cw20_token_price_all}

-- Every denom has three holders, and the indexer fails where all assets are asked for.
abbrev three : Option String → ℕ
three denom = 3

abbrev market_env : TokenServices
market_env = record {
  assets = memory asset_keyed;
  statistics = memory statistic_keyed;
  points = memory first_keyed;
  store_asset = λ new t. (ok tt, t);
  upsert_statistics = λ new t. (ok tt, t ++ new);
  fetch_assets = λ e from after. elim from [ none ↦ none | some t ↦ some (some []) ];
  fetch_new_erc20 = λ e from after. some none;
  fetch_erc20 = λ e after. some none;
  fetch_cw20 = λ e after. some none;
  fetch_holders = λ e qs. ok (some (answer_of three qs));
  coin_markets = λ ids. none;
  balance_of = λ amount decimal. amount;
  fixed_6 = λ n. "0";
  ancient8_chain_ids = "a8" ∷ [];
  coingecko_max_request = 1;
  is_old = λ h. false;
  rounds = 5;
}

abbrev asset : ℕ → String → Asset
asset id denom = record {
  id = id;
  coin_id = some denom;
  symbol = none;
  name = none;
  image = none;
  current_price = none;
  price_change_percentage_24h = none;
  verify_status = none;
  verify_text = none;
  denom = some denom;
  decimal = none;
  official_site = none;
  social_profiles = none;
  type = some "NATIVE";
  total_supply = none;
  total_volume = none;
  market_cap = none;
  explorer_id = some 7;
}

abbrev market : Market
market = record { assets = asset 1 "uaura" ∷ asset 2 "ibc/1" ∷ []; statistics = []; points = [] }

abbrev contract : ℕ → Erc20Contract
contract id = record { id = id; address = "0x1"; name = none; symbol = none }

abbrev contracts : List Erc20Contract
contracts = contract 3 ∷ contract 8 ∷ []

get_data_with_pagination_all_example :
    get_data_with_pagination (paged_erc20 market_env aura) 3 (λ after.
      some (some (take 100 (keep_if (is_above (paged_erc20 market_env aura) after) contracts))))
    ≡ some (ok (contract 0 ∷ contract 0 ∷ []))
get_data_with_pagination_all_example =
    get_data_with_pagination_all (paged_erc20 market_env aura) contracts _ 3 ((refl, tt), (tt, tt))
      (λ after. refl) (omega arith)

get_holders_all_example : get_holders market_env aura ("NATIVE" ∷ []) 50 market ≡ (
  ok (
      record { id = 0; total_holder = some 3; date = 50; asset_id = 1 }
      ∷ record { id = 0; total_holder = some 3; date = 50; asset_id = 2 }
      ∷ []),
  market,
)
get_holders_all_example =
    get_holders_all three market_env aura (λ qs. refl) ("NATIVE" ∷ []) 50 market (omega arith)

abbrev first_point : FirstSync
first_point = record { id = 1; explorer_id = 7 }

-- Another asset was stored since, and another chain has had its first run.
abbrev much_later : Market
much_later = record market {
  assets = asset 9 "ibc/9" ∷ market.assets;
  points = first_point ∷ record { id = 2; explorer_id = 8 } ∷ [];
}

sync_asset_missed_example :
    (sync_asset market_env aura 100000 market
      ≡ (ok tt, record market { points = first_point ∷ [] }))
    × (sync_asset (with_old market_env (λ after. some (some []))) aura 200000 much_later
        ≡ sync_asset market_env aura 200000 much_later)
unfolding sync_asset get_data_with_pagination read_pages
sync_asset_missed_example =
    sync_asset_missed market_env aura market 100000 200000 first_point (first_point ∷ [])
      (λ after. some (some [])) refl refl refl refl much_later (omega arith)

sync_cw20_token_price_all_example :
    (count_if (λ x. x == "ibc/1") (joined (sync_cw20_token_price market_env market))
      ≡ count_if (λ a. is_value a.coin_id "ibc/1") market.assets)
    × (count_if (λ x. x == "") (joined (sync_cw20_token_price market_env market)) ≡ 0)
sync_cw20_token_price_all_example =
    sync_cw20_token_price_all market_env market (omega arith) "ibc/1" refl

-- A row without a value is not asked for, and the coins are asked for by their keys.
sync_cw20_token_price_test :
    sync_cw20_token_price market_env (record market {
      assets =
          asset 2 "ibc/1"
          ∷ record (asset 3 "") { coin_id = none }
          ∷ asset 4 ""
          ∷ asset 1 "uaura"
          ∷ [];
    })
    ≡ ("uaura" ∷ []) ∷ ("ibc/1" ∷ []) ∷ []
unfolding sync_cw20_token_price by_id
sync_cw20_token_price_test = refl
