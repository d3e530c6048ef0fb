-- ===== src/Campaign.antt =====
-- The quests of a campaign: Micro3CampaignService of src/micro3-campaign/micro3-campaign.service.ts.
pub mod Earned
use aura_explorer_api.Prelude.{
  ℕ, String, ◌==◌, nat_eq, string_eq, Bool, true, false, leb, ltb, not, ◌&&◌, Option, none, some,
  List, [], ◌∷◌, ◌++◌, length, keep_if, is_value, if◌then◌else◌,
}
use aura_explorer_api.Prelude.Text.{◌<>◌}
use aura_explorer_api.Exec.{failure, entity_not_found, Result, ok, err}
use aura_explorer_api.Exec.Results.{and_then, map_ok}
use aura_explorer_api.Entities.{Explorer}

-- What `parseInt` gives: NaN, a number below 0, which is -(n + 1), or another.
pub data Amount : Type 0 where
  nan : Amount
  minus : ℕ → Amount
  plus : ℕ → Amount

-- `n >= amount`
abbrev pub reaches : ℕ → Amount → Bool
reaches n nan = false
reaches n (minus _) = true
reaches n (plus a) = leb a n

-- `Number(amount) || 10`
abbrev pub or_ten : Amount → Amount
or_ten nan = plus 10
or_ten (minus n) = minus n
or_ten (plus n) = plus (if n == 0 then 10 else n)

-- ACTION_TYPE
pub data ActionType : Type 0 where
  mint_nft hold_aura add_liquidity swap punkga : ActionType

abbrev pub action_type : String → Option ActionType
action_type s =
    if s == "mint-nft"
    then some mint_nft
    else if s == "hold-aura"
    then some hold_aura
    else if s == "add-lp"
    then some add_liquidity
    else if s == "swap-halo"
    then some swap
    else if s == "punka-cp"
    then some punkga
    else none

-- CampaignParamDto, its texts in lower case.
pub record CampaignParams : Type 0 where
  pub chain_id : String
  pub action : String
  pub address : String
  pub amount : Amount
  pub uni_version : Amount

pub record Balance : Type 0 where
  pub type : Option String
  pub denom : Option String
  pub amount : String

-- HALO_ACTION_TYPE
pub data HaloAction : Type 0 where
  add_pool swap_pool : HaloAction

-- The answer to a request: none if it failed, and then what was asked for, which may be missing.
abbrev pub Answer : Type 0 → Type 0
Answer A = Option (Option A)

-- The explorers, the answers of the indexer, of Halo Trade and of Punkga, and whether a balance, a
-- float, is at least an amount of coins with the decimals: `Number(b) >= Number(a) * 10 ** d`. A quest
-- at Halo Trade is asked for by the domain of the chain.
pub record CampaignServices : Type 0 where
  pub find_explorer : String → Option Explorer
  pub fetch_balances : Explorer → String → Answer (List Balance)
  pub fetch_mints : Explorer → String → Amount → Answer (List String)
  pub fetch_pools : String → Answer (List String)
  pub fetch_senders : String → HaloAction → String → Option (List String)
  pub fetch_halo : String → HaloAction → String → Answer (List String)
  pub fetch_levels : String → Answer (List ℕ)
  pub covers : String → Amount → ℕ → Bool

-- `verifyQuest` answers with a result, or with the message of an error.
pub data Outcome : Type 0 where
  verified invalid_action not_enough : Outcome

abbrev pub answer : Bool → Outcome
answer true = verified
answer false = not_enough

module _ (env : CampaignServices) where
  -- The domain of a chain at Halo Trade.
  abbrev pub domain : Explorer → String
  domain e =
      if e.chain_db == "xstaxy"
      then "staging."
      else if e.chain_db == "auratestnet"
      then "dev."
      else e.chain_db <> "."

  abbrev pub first_level : List ℕ → Amount → Bool
  first_level [] amount = false
  first_level (level ∷ _) amount = reaches level amount

  abbrev pub level_reached : Amount → Answer (List ℕ) → Result Bool
  level_reached amount none = ok false
  level_reached amount (some none) =
      err (failure "Cannot read properties of undefined (reading 'length')")
  level_reached amount (some (some levels)) = ok (first_level levels amount)

  unfoldable pub verify_punkga : CampaignParams → Result Bool
  verify_punkga q = level_reached q.amount (env.fetch_levels q.address)

  abbrev pub is_enough : Explorer → Amount → Balance → Bool
  is_enough e amount b =
      is_value b.type "NATIVE"
      && (is_value b.denom e.minimal_denom && env.covers b.amount amount e.decimal)

  abbrev pub any_enough : Explorer → Amount → Answer (List Balance) → Bool
  any_enough e amount (some (some balances)) =
      ltb 0 (length (keep_if (is_enough e amount) balances))
  any_enough e amount _ = false

  unfoldable pub verify_hold_aura : Explorer → CampaignParams → Result Bool
  verify_hold_aura e q = ok (any_enough e q.amount (env.fetch_balances e q.address))

  abbrev pub mints_reached : Amount → Answer (List String) → Result Bool
  mints_reached amount none = err (failure "Cannot read properties of null (reading 'data')")
  mints_reached amount (some none) = ok false
  mints_reached amount (some (some mints)) = ok (reaches (length mints) amount)

  unfoldable pub verify_mint_nft : Explorer → CampaignParams → Result Bool
  verify_mint_nft e q = mints_reached q.amount (env.fetch_mints e q.address (or_ten q.amount))

  abbrev pub senders_or_none : Option (List String) → List String
  senders_or_none none = []
  senders_or_none (some senders) = senders

  -- The senders in the last transactions of each pool; a pool whose request failed has none.
  unfoldable pub senders_of : String → HaloAction → List String → List String
  senders_of chain action [] = []
  senders_of chain action (pool ∷ pools) =
      senders_or_none (env.fetch_senders chain action pool) ++ senders_of chain action pools

  abbrev pub pool_senders : String → HaloAction → Answer (List String) → Option (List String)
  pool_senders chain action (some (some pools)) = some (senders_of chain action pools)
  pool_senders chain action _ = none

  unfoldable pub get_sender_from_halo : String → HaloAction → Option (List String)
  get_sender_from_halo chain action = pool_senders chain action (env.fetch_pools chain)

  abbrev pub sent_often : CampaignParams → Option (List String) → Result Bool
  sent_often q none = err (failure "Cannot read properties of null (reading 'filter')")
  sent_often q (some senders) =
      ok (reaches (length (keep_if (λ s. s == q.address) senders)) q.amount)

  unfoldable pub verify_with_uni_v2 : String → HaloAction → CampaignParams → Result Bool
  verify_with_uni_v2 chain action q = sent_often q (get_sender_from_halo chain action)

  abbrev pub halo_reached : Amount → Answer (List String) → Bool
  halo_reached amount (some (some found)) = reaches (length found) amount
  halo_reached amount _ = false

  unfoldable pub verify_with_uni_v3 : String → HaloAction → CampaignParams → Result Bool
  verify_with_uni_v3 chain action q =
      ok (halo_reached q.amount (env.fetch_halo chain action q.address))

  abbrev pub by_version : Amount → Result Bool → Result Bool → Result Bool
  by_version (plus n) v2 v3 = if n == 2 then v2 else v3
  by_version _ v2 v3 = v3

  unfoldable pub verify_action_halo : String → HaloAction → CampaignParams → Result Bool
  verify_action_halo chain action q =
      by_version q.uni_version (verify_with_uni_v2 chain action q)
        (verify_with_uni_v3 chain action q)

  unfoldable pub verify : Explorer → CampaignParams → ActionType → Result Bool
  verify e q mint_nft = verify_mint_nft e q
  verify e q hold_aura = verify_hold_aura e q
  verify e q add_liquidity = verify_action_halo (domain e) add_pool q
  verify e q swap = verify_action_halo (domain e) swap_pool q
  verify e q punkga = verify_punkga q

  abbrev pub by_action : Explorer → CampaignParams → Option ActionType → Result Outcome
  by_action e q none = ok invalid_action
  by_action e q (some action) = map_ok answer (verify e q action)

  abbrev pub on_chain : CampaignParams → Option Explorer → Result Outcome
  on_chain q none = err (entity_not_found "Explorer")
  on_chain q (some e) = by_action e q (action_type q.action)

  unfoldable pub verify_quest : CampaignParams → Result Outcome
  verify_quest q = on_chain q (env.find_explorer q.chain_id)
