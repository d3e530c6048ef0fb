-- ===== src/Tests/Balances.antt =====
-- Balances of accounts.
use aura_explorer_api.Prelude.{
  ℕ, String, ◌≡◌, ◌+◌, ◌-◌, refl, subst, Bool-cases, inl, inr, true, ltb, Option, none, some, List,
  [], ◌∷◌, ◌==◌, string_eq, is_value, arith, if◌then◌else◌,
}
use aura_explorer_api.Exec.{failure, Result, ok, err}
use aura_explorer_api.Tests.{aura}
use aura_explorer_api.Balance.{
  RpcClient, Floats, DenomAmount, AccountRow, Delegation, Unbonding, Page, BalanceServices,
}
use aura_explorer_api.Balance.Single.{pages_from, get_total_balance_by_address}
use aura_explorer_api.Balance.Single.Pages.{get_total_balance_by_address_all}
use aura_explorer_api.Balance.Listed.{
  query_delegator_delegations_requests, query_delegator_unbonding_delegations_requests,
  query_cosmos_rpc, query_delegation_total_rewards_requests, query_validator_commission_requests,
  fulfilled, answer_of, balances, get_delegator_delegations, get_delegator_unbonding_delegations,
  build_account_balance_result, get_total_balance_by_list_address,
}
use aura_explorer_api.Balance.Listed.Own.{AllOf, build_account_balance_result_alone}
use aura_explorer_api.Balance.Parts.{as_bad_request}

abbrev number : Option String → ℕ
number s = if is_value s "5" then 5 else if is_value s "7" then 7 else 0

abbrev naturals : Floats
naturals = record {
  Float = ℕ;
  zero_float = 0;
  add = λ a b. a + b;
  sub = λ a b. a - b;
  positive = λ a. ltb 0 a;
  parse_float = number;
  parse_int = number;
  balance_of = λ a decimal. a;
  balance_of_text = λ s decimal. number s;
}

abbrev coin : String → List DenomAmount
coin amount = record { denom = some "uaura"; amount = some amount } ∷ []

abbrev account : String → AccountRow
account a = record { address = a; balances = some (coin "7"); spendable_balances = some (coin "5") }

abbrev stake : String → String → Delegation
stake d amount = record { delegator = d; amount = some amount }

abbrev first_page : Page Delegation
first_page = record { items = stake "a1" "5" ∷ []; next_key = some "k" }

abbrev last_page : Page Delegation
last_page = record { items = stake "a1" "7" ∷ []; next_key = none }

abbrev unbonded : Page Unbonding
unbonded = record {
  items = record { delegator = "a1"; entries = some (some "5" ∷ some "7" ∷ []) } ∷ [];
  next_key = none;
}

-- a1 has two pages of delegations; the node knows those of a1 and a2, and fails for the others.
abbrev staked : String → Result (List Delegation)
staked d =
    if d == "a1"
    then ok (stake d "5" ∷ stake d "7" ∷ [])
    else if d == "a2"
    then ok (stake d "7" ∷ [])
    else err (failure "timeout")

abbrev node : RpcClient
node = record { chain_id = "aura_6322"; execute = λ path request. ok (some request) }

abbrev lcd : BalanceServices
lcd = record {
  minimal_denom = "uaura";
  find_explorer = λ chain. some aura;
  fetch_account = λ a. ok (some (account a ∷ []));
  fetch_validators = λ a. ok none;
  fetch_accounts = λ e as_listed. ok (some (some (account "a1") ∷ some (account "a2") ∷ []));
  fetch_all_validators = λ e as_listed. ok none;
  delegations_page = λ a key. if is_value key "k" then some last_page else some first_page;
  unbonding_page = λ a key. some unbonded;
  fetch_rewards = λ a. some (some (coin "5"));
  fetch_commission = λ a. none;
  clients = node ∷ [];
  encode_request = λ a. a;
  decode_delegations = staked;
  decode_unbondings = λ value. ok [];
  decode_rewards = λ value. ok (coin "7");
  decode_commission = λ value. ok none;
  rounds = 2;
}

get_total_balance_by_address_all_example :
    get_total_balance_by_address naturals lcd "a1" ≡ ok (record { address = "a1"; amount = 36 })
get_total_balance_by_address_all_example =
    get_total_balance_by_address_all naturals lcd "a1" (account "a1") [] none first_page
      (last_page ∷ []) unbonded [] refl refl (refl, refl, (refl, refl)) (omega arith) (refl, refl)
      (omega arith)

get_total_balance_by_address_test :
    get_total_balance_by_address naturals lcd "a1" ≡ ok (record { address = "a1"; amount = 36 })
unfolding get_total_balance_by_address pages_from
get_total_balance_by_address_test = refl

staked_own :
    (d : String) (xs : List Delegation)
    → staked d ≡ ok xs
    → AllOf (λ (x : Delegation). x.delegator) d xs
staked_own d xs h =
    let of_d : List Delegation → Type 0 = AllOf (λ (x : Delegation). x.delegator) d in
    let own : (d == d) ≡ true = (string_eq.beq_iff d d).1 refl in
    elim (Bool-cases (d == "a1")) [
      | inl first ↦
          let h' : ok (stake d "5" ∷ stake d "7" ∷ []) ≡ ok xs = rw first at h in
          let same : stake d "5" ∷ stake d "7" ∷ [] ≡ xs = cc in subst of_d same (own, (own, tt))
      | inr other ↦ elim (Bool-cases (d == "a2")) [
        | inl second ↦
            let h' : ok (stake d "7" ∷ []) ≡ ok xs = rw (other, second) at h in
            let same : stake d "7" ∷ [] ≡ xs = cc in subst of_d same (own, tt)
        | inr unknown ↦ let h' = rw (other, unknown) at h in cc
      ]
    ]

sent : {A : Type 0} (r : Result A) (x : A) → as_bad_request r ≡ ok x → r ≡ ok x
sent (ok a) x h = h
sent (err e) x h = cc

answered_own :
    (d : String) (xs : List Delegation)
    → query_delegator_delegations_requests lcd d aura.chain_id ≡ ok xs
    → AllOf (λ (x : Delegation). x.delegator) d xs
unfolding query_delegator_delegations_requests query_cosmos_rpc
answered_own d xs h = staked_own d xs (sent (staked d) xs h)

unbonded_own :
    (d : String) (xs : List Unbonding)
    → query_delegator_unbonding_delegations_requests lcd d aura.chain_id ≡ ok xs
    → AllOf (λ (x : Unbonding). x.delegator) d xs
unfolding query_delegator_unbonding_delegations_requests query_cosmos_rpc
unbonded_own d xs h =
    let same : [] ≡ xs = cc in subst (AllOf (λ (x : Unbonding). x.delegator) d) same tt

build_account_balance_result_alone_example :
    build_account_balance_result naturals lcd aura
      (get_delegator_delegations lcd ("a3" ∷ "a1" ∷ "a2" ∷ []) "aura_6322")
      (get_delegator_unbonding_delegations lcd ("a3" ∷ "a1" ∷ "a2" ∷ []) "aura_6322")
      none
      (account "a2")
    ≡ build_account_balance_result naturals lcd aura
        (get_delegator_delegations lcd ("a2" ∷ []) "aura_6322")
        (get_delegator_unbonding_delegations lcd ("a2" ∷ []) "aura_6322")
        none
        (account "a2")
build_account_balance_result_alone_example =
    build_account_balance_result_alone naturals lcd aura (account "a2") ("a3" ∷ "a1" ∷ "a2" ∷ [])
      none answered_own unbonded_own refl

get_total_balance_by_list_address_test :
    get_total_balance_by_list_address naturals lcd "aura_6322" ("a3" ∷ "a1" ∷ "a2" ∷ [])
    ≡ ok (
        balances
          (record { address = "a1"; amount = 26 } ∷ record { address = "a2"; amount = 21 } ∷ []))
unfolding get_total_balance_by_list_address get_delegator_delegations
    get_delegator_unbonding_delegations build_account_balance_result answer_of fulfilled
    query_delegator_delegations_requests query_cosmos_rpc query_delegation_total_rewards_requests
    query_delegator_unbonding_delegations_requests query_validator_commission_requests
get_total_balance_by_list_address_test = refl
