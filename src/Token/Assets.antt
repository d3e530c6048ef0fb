-- ===== src/Token/Assets.antt =====
-- The synchronisation of assets: `syncAsset`, `syncOnlyErc20` and `getNewErc20Info` of
-- src/components/queues/token/token.processor.ts.
pub mod Missed
use aura_explorer_api.Prelude.{
  ℕ, String, ◌-◌, ◌==◌, nat_eq, string_eq, Bool, true, false, not, ◌&&◌, ◌||◌, Option, none, some,
  List, [], ◌∷◌, map, first, any, truthy, text_or_empty, is_value, refl, if◌then◌else◌,
}
use aura_explorer_api.Exec.{failure, Result, ok, err, Exec, pure, gets, lift, or_raise, ◌>>=◌, ◌>>◌}
use aura_explorer_api.Repository.Batch.{transaction}
use aura_explorer_api.Entities.{Explorer, Asset}
use aura_explorer_api.Notification.Texts.Coins.{or_number}
use aura_explorer_api.Token.{
  Market, FirstSync, IndexedAsset, Erc20Contract, TokenServices, on_assets, on_points, logged,
}
use aura_explorer_api.Token.Paging.{Paged, get_data_with_pagination}

-- A query that still has pages after all rounds has no answer.
abbrev pub all_pages : {A : Type 0} → Option (Result A) → Result A
all_pages none = err (failure "more pages than rounds")
all_pages (some r) = r

-- ASSETS_TYPE
abbrev pub ibc_type : String
ibc_type = "IBC_TOKEN"

abbrev pub cw20_type : String
cw20_type = "CW20_TOKEN"

abbrev pub native_type : String
native_type = "NATIVE"

abbrev pub erc20_type : String
erc20_type = "ERC20_TOKEN"

-- `where: { type: In(types), explorer: { id } }`
abbrev pub is_of_type : List String → ℕ → Asset → Bool
is_of_type types explorer a = any (is_value a.type) types && is_value a.explorer_id explorer

module _ (env : TokenServices) (explorer : Explorer) where
  -- `balanceOf(total_supply || 0, decimal || explorer.decimal)`
  abbrev pub supply_of : IndexedAsset → String
  supply_of a =
      env.balance_of (if truthy a.supply then text_or_empty a.supply else "0")
        (or_number a.decimal explorer.decimal)

  abbrev pub paged_assets : Paged IndexedAsset
  paged_assets = record {
    id = λ a. a.id;
    prepare = λ a. record a { total_supply = some (supply_of a); explorer_id = some explorer.id };
    without_id = λ a. record a { id = 0 };
    id-prepare = λ a. refl;
  }

  abbrev pub paged_new_erc20 : Paged IndexedAsset
  paged_new_erc20 = record {
    id = λ a. a.id;
    prepare = λ a. a;
    without_id = λ a. record a { id = 0 };
    id-prepare = λ a. refl;
  }

  abbrev pub paged_erc20 : Paged Erc20Contract
  paged_erc20 = record {
    id = λ a. a.id;
    prepare = λ a. a;
    without_id = λ a. record a { id = 0 };
    id-prepare = λ a. refl;
  }

  abbrev pub erc20_asset : IndexedAsset → IndexedAsset
  erc20_asset a = record a {
    updated_at = a.contract_updated_at;
    type = some erc20_type;
    total_supply = some (supply_of a);
    explorer_id = some explorer.id;
  }

  -- No list and an empty one are the same to the caller.
  unfoldable pub sync_only_erc20 : Option ℕ → Exec Market (List IndexedAsset)
  sync_only_erc20 from = do
    contracts ← lift (
        all_pages
          (get_data_with_pagination paged_new_erc20 env.rounds (env.fetch_new_erc20 explorer from)))
    pure (map erc20_asset contracts)

  abbrev pub list_asset : Option ℕ → Exec Market (List IndexedAsset)
  list_asset from =
      if any (λ c. c == explorer.chain_id) env.ancient8_chain_ids
      then sync_only_erc20 from
      else lift (
          all_pages
            (get_data_with_pagination paged_assets env.rounds (env.fetch_assets explorer from)))

  abbrev pub store_listed : List IndexedAsset → Exec Market (Unit {0})
  store_listed [] = pure tt
  store_listed (a ∷ rest) = on_assets (env.store_asset (a ∷ rest))

  abbrev pub is_first_sync : FirstSync → Bool
  is_first_sync p = p.explorer_id == explorer.id

  -- From when on assets are asked for: what changed in the last minute, or all at the first time.
  abbrev pub sync_from : ℕ → Option FirstSync → Exec Market (Option ℕ)
  sync_from now (some _) = pure (some (now - 60000))
  sync_from now none = do
    on_points (env.points.insert (record { id = 0; explorer_id = explorer.id }))
    pure none

  abbrev pub sync_listed : ℕ → Exec Market (Unit {0})
  sync_listed now = do
    point ← gets (λ s. env.points.find_one is_first_sync s.points)
    from ← sync_from now point
    assets ← list_asset from
    store_listed assets

  unfoldable pub sync_asset : ℕ → Exec Market (Unit {0})
  unfolding sync_only_erc20
  sync_asset now = logged (sync_listed now)

  -- An asset of the table that has no name or no symbol gets those of its contract.
  abbrev pub named_by : Asset → Option Erc20Contract → List Asset → List Asset
  named_by a none rest = rest
  named_by a (some c) rest =
      record a { symbol = some (text_or_empty c.symbol); name = some (text_or_empty c.name) } ∷ rest

  abbrev pub named : List Erc20Contract → List Asset → List Asset
  named contracts [] = []
  named contracts (a ∷ rest) =
      if not (truthy a.name) || not (truthy a.symbol)
      then named_by a (first (λ c. is_value a.denom c.address) contracts) (named contracts rest)
      else named contracts rest

  unfoldable pub get_new_erc20_info : Exec Market (List Asset)
  get_new_erc20_info = do
    assets ← gets (λ s. env.assets.find (is_of_type (erc20_type ∷ []) explorer.id) s.assets)
    contracts ←
        lift
          (all_pages (get_data_with_pagination paged_erc20 env.rounds (env.fetch_erc20 explorer)))
    pure (named contracts assets)
