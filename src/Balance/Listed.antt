-- ===== src/Balance/Listed.antt =====
-- `getTotalBalanceByListAddress` of AccountService.
pub mod Own
use aura_explorer_api.Prelude.{
  ℕ, String, ◌==◌, string_eq, Bool, true, false, Option, none, some, List, [], ◌∷◌, map, first, any,
  keep_if,
}
use aura_explorer_api.Exec.{failure, bad_request, message, Result, ok, err}
use aura_explorer_api.Exec.Results.{and_then, map_ok, map_each}
use aura_explorer_api.Entities.{Explorer}
use aura_explorer_api.Balance.{
  RpcClient, Floats, DenomAmount, AccountRow, Delegation, Unbonding, Validator, BalanceServices,
  AccountBalance,
}
use aura_explorer_api.Balance.Parts.{
  as_bad_request, balances_amount, available_amount, delegated_amount, unbonding_amount,
  reward_amount, commission_amount, delegated_vesting, total,
}

-- What the queries that did not fail answered, as `Promise.allSettled` and its filter leave it.
unfoldable pub fulfilled : {A : Type 0} → (String → Result A) → List String → List A
fulfilled ask [] = []
fulfilled ask (a ∷ rest) = elim (ask a) [
  | ok x ↦ x ∷ fulfilled ask rest
  | err e ↦ fulfilled ask rest
]

-- The first answer in which an item is of the address.
unfoldable pub answer_of : {A : Type 0} → (A → String) → String → List (List A) → Option (List A)
answer_of delegator address answers =
    first (λ items. any (λ x. delegator x == address) items) answers

-- A null among the accounts ends the request with all addresses and the amount 0.
pub data Balances (fl : Floats) : Type 0 where
  balances : List (AccountBalance fl) → Balances fl
  no_account : List String → Balances fl

module _ (env : BalanceServices) where
  -- The last argument is the chain, by which the RPC of the node is found.
  -- `throw new InternalServerErrorException(error)` where something was thrown.
  abbrev as_internal_error : {A : Type 0} → Result A → Result A
  as_internal_error (ok a) = ok a
  as_internal_error (err e) = err (failure (message e))

  abbrev execute_by : Option RpcClient → String → String → Result (Option String)
  execute_by none path request = ok none
  execute_by (some client) path request = client.execute path request

  -- `queryComosRPC` of RpcUtil: undefined where the chain has no client.
  unfoldable pub query_cosmos_rpc : String → String → String → Result (Option String)
  query_cosmos_rpc path request chain =
      as_internal_error
        (execute_by (first (λ (c : RpcClient). c.chain_id == chain) env.clients) path request)

  -- A query to the node of a chain, decoded.
  abbrev decoded : {A : Type 0} → (String → Result A) → Option String → Result A
  decoded decode none = err (failure "Cannot read properties of undefined")
  decoded decode (some value) = decode value

  abbrev query_request : {A : Type 0} → String → (String → Result A) → String → String → Result A
  query_request path decode address chain =
      as_bad_request
        (and_then (query_cosmos_rpc path (env.encode_request address) chain) (decoded decode))

  unfoldable pub query_delegator_delegations_requests : String → String → Result (List Delegation)
  query_delegator_delegations_requests =
      query_request "/cosmos.staking.v1beta1.Query/DelegatorDelegations" env.decode_delegations

  unfoldable pub query_delegator_unbonding_delegations_requests :
      String → String → Result (List Unbonding)
  query_delegator_unbonding_delegations_requests =
      query_request "/cosmos.staking.v1beta1.Query/DelegatorUnbondingDelegations"
        env.decode_unbondings

  unfoldable pub query_delegation_total_rewards_requests :
      String → String → Result (List DenomAmount)
  query_delegation_total_rewards_requests =
      query_request "/cosmos.distribution.v1beta1.Query/DelegationTotalRewards" env.decode_rewards

  unfoldable pub query_validator_commission_requests :
      String → String → Result (Option (List DenomAmount))
  query_validator_commission_requests =
      query_request "/cosmos.distribution.v1beta1.Query/ValidatorCommission" env.decode_commission

  unfoldable pub get_delegator_delegations : List String → String → List (List Delegation)
  get_delegator_delegations addresses chain =
      fulfilled (λ a. query_delegator_delegations_requests a chain) addresses

  unfoldable pub get_delegator_unbonding_delegations : List String → String → List (List Unbonding)
  get_delegator_unbonding_delegations addresses chain =
      fulfilled (λ a. query_delegator_unbonding_delegations_requests a chain) addresses

module _ (fl : Floats) (env : BalanceServices) (explorer : Explorer) where
  open fl use {Float, zero_float, balance_of, balance_of_text}

  abbrev or_no_items : {A : Type 0} → Option (List A) → List A
  or_no_items none = []
  or_no_items (some xs) = xs

  -- Rewards are asked for where there are delegations.
  abbrev stake_reward : String → List Delegation → Result Float
  stake_reward address [] = ok zero_float
  stake_reward address (_ ∷ _) =
      map_ok (λ rewards. reward_amount fl explorer.minimal_denom (some rewards))
        (query_delegation_total_rewards_requests env address explorer.chain_id)

  abbrev commission_of : List Validator → Result (Option String)
  commission_of [] = ok (some "0")
  commission_of (v ∷ _) =
      map_ok (λ c. commission_amount explorer.minimal_denom c)
        (query_validator_commission_requests env v.operator_address explorer.chain_id)

  abbrev listed_total :
      AccountRow → List Delegation → List Unbonding → Float → Option String → Float
  listed_total row delegations unbondings reward commission =
      let balance = balances_amount fl explorer.minimal_denom row.balances in
      let available = available_amount fl explorer.minimal_denom row.spendable_balances in
      total fl available (delegated_amount fl delegations) (unbonding_amount fl unbondings)
        (balance_of reward 18) (balance_of_text commission 18)
        (delegated_vesting fl balance available)

  unfoldable pub build_account_balance_result :
      List (List Delegation)
      → List (List Unbonding)
      → Option (List Validator)
      → AccountRow
      → Result (AccountBalance fl)
  build_account_balance_result all_delegations all_unbondings validators row =
      let delegations =
        or_no_items (answer_of (λ (d : Delegation). d.delegator) row.address all_delegations) in
      let unbondings =
        or_no_items (answer_of (λ (u : Unbonding). u.delegator) row.address all_unbondings) in
      and_then (stake_reward row.address delegations) (λ reward.
        map_ok
          (λ commission. record {
            address = row.address;
            amount = listed_total row delegations unbondings reward commission;
          })
          (commission_of
            (keep_if (λ v. v.account_address == row.address) (or_no_items validators))))

  -- The accounts before the first null, and whether there is one.
  abbrev some_rows : List (Option AccountRow) → Option (List AccountRow)
  some_rows [] = some []
  some_rows (none ∷ rest) = none
  some_rows (some row ∷ rest) = elim (some_rows rest) [
    | none ↦ none
    | some rows ↦ some (row ∷ rows)
  ]

  abbrev build_all :
      List String → Option (List Validator) → Option (List AccountRow) → Result (Balances fl)
  build_all addresses validators none = ok (no_account addresses)
  build_all addresses validators (some rows) =
      map_ok (λ done. balances done)
        (map_each
          (build_account_balance_result (get_delegator_delegations env addresses explorer.chain_id)
            (get_delegator_unbonding_delegations env addresses explorer.chain_id) validators)
          rows)

  abbrev pub listed : List String → Result (Balances fl)
  listed addresses = and_then (env.fetch_accounts explorer addresses) (λ rows.
      and_then (env.fetch_all_validators explorer addresses)
        (λ validators. build_all addresses validators (some_rows (or_no_items rows))))

module _ (fl : Floats) (env : BalanceServices) where
  abbrev on_chain : List String → Option Explorer → Result (Balances fl)
  on_chain addresses none =
      err (bad_request "Cannot read properties of undefined (reading 'chainDb')")
  on_chain addresses (some explorer) = as_bad_request (listed fl env explorer addresses)

  unfoldable pub get_total_balance_by_list_address : String → List String → Result (Balances fl)
  get_total_balance_by_list_address chain addresses = on_chain addresses (env.find_explorer chain)
