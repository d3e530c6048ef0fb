-- ===== src/Balance.antt =====
-- The balances of accounts: what AccountService of src/components/account/services/account.service.ts
-- asks for.
pub mod Parts
pub mod Single
pub mod Listed
use aura_explorer_api.Prelude.{ℕ, String, Bool, Option, List}
use aura_explorer_api.Exec.{Result}
use aura_explorer_api.Entities.{Explorer}

-- The numbers of JavaScript and what the service does with them: `parseFloat`, `parseInt`, a sum, a
-- difference, `> 0`, and `balanceOf` of a number and of a text.
pub record Floats : Type 1 where
  pub Float : Type 0
  pub zero_float : Float
  pub add : Float → Float → Float
  pub sub : Float → Float → Float
  pub positive : Float → Bool
  pub parse_float : Option String → Float
  pub parse_int : Option String → Float
  pub balance_of : Float → ℕ → Float
  pub balance_of_text : Option String → ℕ → Float

pub record DenomAmount : Type 0 where
  pub denom : Option String
  pub amount : Option String

-- An account of the indexer.
pub record AccountRow : Type 0 where
  pub address : String
  pub balances : Option (List DenomAmount)
  pub spendable_balances : Option (List DenomAmount)

-- A delegation and an unbonding delegation: the delegator, and the amount or the balances of its
-- entries.
pub record Delegation : Type 0 where
  pub delegator : String
  pub amount : Option String

pub record Unbonding : Type 0 where
  pub delegator : String
  pub entries : Option (List (Option String))

pub record Validator : Type 0 where
  pub account_address : String
  pub operator_address : String

-- A page of the LCD and the key of the next one.
pub record Page (A : Type 0) : Type 0 where
  pub items : List A
  pub next_key : Option String

-- A client of the node of a chain: the value of the response to a query, which `execute` may fail to
-- give and the response may lack.
pub record RpcClient : Type 0 where
  pub chain_id : String
  pub execute : String → String → Result (Option String)

-- The answers of the LCD, none where a request failed, and of the indexer; the clients of the nodes, and
-- what @cosmjs and cosmjs-types encode and decode. A page is asked for by its key, the first one
-- without. `rounds` bounds the pages of one query.
pub record BalanceServices : Type 0 where
  pub minimal_denom : String
  pub find_explorer : String → Option Explorer
  pub fetch_account : String → Result (Option (List AccountRow))
  pub fetch_validators : String → Result (Option (List Validator))
  pub fetch_accounts : Explorer → List String → Result (Option (List (Option AccountRow)))
  pub fetch_all_validators : Explorer → List String → Result (Option (List Validator))
  pub delegations_page : String → Option String → Option (Page Delegation)
  pub unbonding_page : String → Option String → Option (Page Unbonding)
  pub fetch_rewards : String → Option (Option (List DenomAmount))
  pub fetch_commission : String → Option (Option (List DenomAmount))
  pub clients : List RpcClient
  pub encode_request : String → String
  pub decode_delegations : String → Result (List Delegation)
  pub decode_unbondings : String → Result (List Unbonding)
  pub decode_rewards : String → Result (List DenomAmount)
  pub decode_commission : String → Result (Option (List DenomAmount))
  pub rounds : ℕ

pub record AccountBalance (fl : Floats) : Type 0 where
  pub address : String
  pub amount : fl.Float
