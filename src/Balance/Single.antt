-- ===== src/Balance/Single.antt =====
-- `getTotalBalanceByAddress` of AccountService.
pub mod Pages
use aura_explorer_api.Prelude.{
  ℕ, zero, suc, String, Bool, true, false, Option, none, some, List, [], ◌∷◌, ◌++◌, truthy,
  text_or_empty,
}
use aura_explorer_api.Exec.{failure, Result, ok, err}
use aura_explorer_api.Exec.Results.{and_then, map_ok}
use aura_explorer_api.Balance.{
  Floats, DenomAmount, AccountRow, Delegation, Unbonding, Validator, Page, BalanceServices,
  AccountBalance,
}
use aura_explorer_api.Balance.Parts.{
  balances_amount, available_amount, delegated_amount, unbonding_amount, reward_amount,
  commission_amount, delegated_vesting, total, as_bad_request,
}

module _ {A : Type 0} where
  abbrev pub with_page :
      Option (Page A) → (Page A → Option (Result (List A))) → Option (Result (List A))
  with_page none next = some (err (failure "Cannot read properties of null"))
  with_page (some p) next = next p

  abbrev pub append_page : List A → Option (Result (List A)) → Option (Result (List A))
  append_page items none = none
  append_page items (some r) = some (map_ok (λ rest. items ++ rest) r)

  -- The page under a key and all that follow it: none if there are more pages than rounds.
  unfoldable pub pages_from :
      (Option String → Option (Page A)) → ℕ → Option String → Option (Result (List A))
  pages_from fetch zero key = none
  pages_from fetch (suc rounds) key = with_page (fetch key) (λ p. elim (truthy p.next_key) [
    | true ↦ append_page p.items (pages_from fetch rounds p.next_key)
    | false ↦ some (ok p.items)
  ])

  abbrev pub ended : Option (Result (List A)) → Result (List A)
  ended none = err (failure "more pages than rounds")
  ended (some r) = r

module _ (fl : Floats) (env : BalanceServices) (address : String) where
  open fl use {Float, zero_float, parse_float}

  abbrev rewards_total : Option (Option (List DenomAmount)) → Option (List DenomAmount)
  rewards_total none = none
  rewards_total (some rewards) = rewards

  -- Rewards are asked for where there are delegations.
  abbrev pub stake_reward : List Delegation → Float
  stake_reward [] = zero_float
  stake_reward (_ ∷ _) =
      reward_amount fl env.minimal_denom (rewards_total (env.fetch_rewards address))

  abbrev pub commission : Option (List Validator) → Option String
  commission (some (v ∷ _)) =
      commission_amount env.minimal_denom (rewards_total (env.fetch_commission v.operator_address))
  commission _ = some "0"

  abbrev pub account_total :
      AccountRow → Option (List Validator) → List Delegation → List Unbonding → Float
  account_total row validators delegations unbondings =
      let balance = balances_amount fl env.minimal_denom row.balances in
      let available = available_amount fl env.minimal_denom row.spendable_balances in
      total fl available (delegated_amount fl delegations) (unbonding_amount fl unbondings)
        (stake_reward delegations) (parse_float (commission validators))
        (delegated_vesting fl balance available)

  abbrev account_balance :
      Option (List Validator) → Option (List AccountRow) → Result (AccountBalance fl)
  account_balance validators (some (row ∷ _)) =
      and_then (ended (pages_from (env.delegations_page address) env.rounds none)) (λ delegations.
        map_ok
          (λ unbondings. record {
            address = address;
            amount = account_total row validators delegations unbondings;
          })
          (ended (pages_from (env.unbonding_page address) env.rounds none)))
  account_balance validators _ = ok (record { address = address; amount = zero_float })

  unfoldable pub get_total_balance_by_address : Result (AccountBalance fl)
  get_total_balance_by_address = as_bad_request (
      and_then (env.fetch_account address) (λ rows.
        and_then (env.fetch_validators address) (λ validators. account_balance validators rows)))
