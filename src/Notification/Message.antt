-- ===== src/Notification/Message.antt =====
-- `getTypeTxMsg` of src/shared/helpers/transaction.helper.ts: the types of a transaction's messages as
-- a text, with the names of types in src/shared/constants/transaction.ts.
pub mod Shown
use aura_explorer_api.Prelude.{
  ℕ, suc, String, ◌==◌, string_eq, Option, none, some, List, [], ◌∷◌, leb, ltb, length, first,
  truthy, text_or_empty, if◌then◌else◌,
}
use aura_explorer_api.Prelude.Text.{◌<>◌, last_part}
use aura_explorer_api.Exec.{failure, Result, ok, err}
use aura_explorer_api.Exec.Results.{and_then, map_ok}
use aura_explorer_api.WatchList.Settings.{Json, Fields, Items, get, json_truthy}

-- TYPE_TRANSACTION: a label and its value.
abbrev pub type_transaction : List (String × String)
type_transaction =
    ("/ibc.applications.transfer.v1.MsgTransfer", "IBC Transfer")
    ∷ ("/ibc.core.channel.v1.MsgRecvPacket", "IBC Received")
    ∷ ("/ibc.core.channel.v1.MsgAcknowledgement", "IBC Acknowledgement")
    ∷ ("/ibc.core.client.v1.MsgUpdateClient", "IBC Update Client")
    ∷ ("/ibc.core.channel.v1.MsgTimeout", "IBC Timeout")
    ∷ ("/ibc.core.channel.v1.MsgChannelOpenInit", "IBC Channel Open Init")
    ∷ ("/ibc.core.connection.v1.MsgConnectionOpenInit", "IBC Connect Open Init")
    ∷ ("/ibc.core.client.v1.MsgCreateClient", "IBC Create Client")
    ∷ ("/ibc.core.channel.v1.MsgChannelOpenAck", "IBC Channel Open Ack")
    ∷ ("/ibc.core.connection.v1.MsgConnectionOpenTry", "Connection Open Try")
    ∷ ("/cosmos.bank.v1beta1.MsgSend", "Send")
    ∷ ("/cosmos.bank.v1beta1.MsgMultiSend", "Multisend")
    ∷ ("/cosmos.staking.v1beta1.MsgDelegate", "Delegate")
    ∷ ("/cosmos.staking.v1beta1.MsgUndelegate", "Undelegate")
    ∷ ("/cosmos.staking.v1beta1.MsgBeginRedelegate", "Redelegate")
    ∷ ("/cosmos.distribution.v1beta1.MsgWithdrawDelegatorReward", "Get Reward")
    ∷ ("/tendermint.liquidity.v1beta1.MsgSwapWithinBatch", "Swap Within Batch")
    ∷ ("/tendermint.liquidity.v1beta1.MsgDepositWithinBatch", "Deposit Within Batch")
    ∷ ("/cosmos.staking.v1beta1.MsgEditValidator", "Edit Validator")
    ∷ ("/cosmos.staking.v1beta1.MsgCreateValidator", "Create Validator")
    ∷ ("/cosmos.slashing.v1beta1.MsgUnjail", "Unjail")
    ∷ ("/cosmwasm.wasm.v1.MsgStoreCode", "Store Code")
    ∷ ("/cosmwasm.wasm.v1.MsgInstantiateContract", "Instantiate Contract")
    ∷ ("/cosmwasm.wasm.v1.MsgInstantiateContract2", "Instantiate Contract")
    ∷ ("/cosmwasm.wasm.v1.MsgExecuteContract", "Execute Contract")
    ∷ ("/cosmos.distribution.v1beta1.MsgSetWithdrawAddress", "Set Withdraw Address")
    ∷ ("/osmosis.gamm.v1beta1.MsgJoinPool", "Join pool")
    ∷ ("/osmosis.lockup.MsgLockTokens", "Lock Tokens (Start Farming)")
    ∷ ("/osmosis.gamm.v1beta1.MsgJoinSwapExternAmountIn", "Join Swap Extern Amount In")
    ∷ ("/osmosis.gamm.v1beta1.MsgSwapExactAmountIn", "Swap Exact Amount In")
    ∷ ("/osmosis.lockup.MsgBeginUnlocking", "Begin Unlocking")
    ∷ ("/cosmos.gov.v1beta1.MsgVote", "Vote")
    ∷ ("/cosmos.gov.v1.MsgVote", "Vote")
    ∷ ("/cosmos.vesting.v1beta1.MsgCreateVestingAccount", "Vesting")
    ∷ ("/cosmos.gov.v1beta1.MsgDeposit", "Deposit")
    ∷ ("/cosmos.gov.v1.MsgDeposit", "Deposit")
    ∷ ("/cosmos.gov.v1beta1.MsgSubmitProposal", "Submit Proposal")
    ∷ ("/cosmos.gov.v1.MsgSubmitProposal", "Submit Proposal")
    ∷ (
      "/cosmos.distribution.v1beta1.MsgWithdrawValidatorCommission",
      "Withdraw Validator Commission",
    )
    ∷ ("/cosmos.vesting.v1beta1.MsgCreatePeriodicVestingAccount", "Periodic Vesting")
    ∷ ("/cosmos.feegrant.v1beta1.BasicAllowance", "Basic")
    ∷ ("/cosmos.feegrant.v1beta1.PeriodicAllowance", "Periodic")
    ∷ ("/cosmos.feegrant.v1beta1.MsgGrantAllowance", "Grant Allowance")
    ∷ ("/cosmos.feegrant.v1beta1.MsgRevokeAllowance", "Revoke Allowance")
    ∷ ("/cosmos.authz.v1beta1.MsgGrant", "Grant Authz")
    ∷ ("/cosmos.authz.v1beta1.MsgExec", "Execute Authz")
    ∷ ("/cosmos.authz.v1beta1.MsgRevoke", "Revoke Authz")
    ∷ ("/cosmwasm.wasm.v1.MsgMigrateContract", "Migrate Contract")
    ∷ ("FAILED", "Fail")
    ∷ ("/ethermint.evm.v1.MsgEthereumTx", "EthereumTx")
    ∷ []

-- A message as GraphQL or the LCD lists it; the fields that are not asked for are undefined. The
-- fields of an object are in the order of Object.keys.
pub record Message : Type 0 where
  pub type : Option String
  pub at_type : Option String
  pub sender : Option String
  pub content : Fields
  pub msg : Option Json

abbrev pub execute_contract : String
execute_contract = "/cosmwasm.wasm.v1.MsgExecuteContract"

-- `Object.keys(value)[0]`, written into a text; null has no keys and throws.
abbrev pub first_key : Option Json → Option String
first_key none = none
first_key (some Json.null) = none
first_key (some (Json.bool b)) = some "undefined"
first_key (some (Json.num n)) = some "undefined"
first_key (some (Json.text s)) = some (if s == "" then "undefined" else "0")
first_key (some (Json.arr Items.no_item)) = some "undefined"
first_key (some (Json.arr (Items.item _ _))) = some "0"
first_key (some (Json.obj Fields.end)) = some "undefined"
first_key (some (Json.obj (Fields.field k _ _))) = some k

-- `a || b`
abbrev pub or_text : Option String → Option String → Option String
or_text a b = if truthy a then a else b

abbrev pub or_json : Option Json → Option Json → Option Json
or_json a b = if json_truthy a then a else b

abbrev pub label_value : String → Option String
label_value t = elim (first (λ (entry : String × String). entry.0 == t) type_transaction) [
  | none ↦ none
  | some entry ↦ some entry.1
]

-- `parse` is JSON.parse, without a value where it throws.
module _ (parse : String → Option Json) where
  abbrev pub parsed : Option Json → Option Json
  parsed (some (Json.text s)) = elim (parse s) [ none ↦ some (Json.text s) | some v ↦ some v ]
  parsed j = j

  -- The type of a contract call is undefined where its action cannot be read.
  abbrev contract_type : Message → String
  contract_type m = elim (first_key (parsed (or_json (get "msg" m.content) m.msg))) [
    | none ↦ "undefined"
    | some action ↦ "Contract: " <> action
  ]

  -- A message without a type throws.
  abbrev type_of : Message → Option String → Result String
  type_of m none = err (failure "Cannot read properties of undefined (reading 'split')")
  type_of m (some t) =
      if t == execute_contract
      then ok (contract_type m)
      else ok (text_or_empty (or_text (label_value t) (some (last_part t))))

  unfoldable pub message_type : Message → Result String
  message_type m = type_of m (or_text m.type m.at_type)

  -- `result += …`, with a comma where there is something before it.
  abbrev pub add_type : String → String → String
  add_type result type = if result == "" then result <> type else result <> (", " <> type)

  -- The first five types are shown.
  unfoldable pub add_types : ℕ → String → List Message → Result String
  add_types index result [] = ok result
  add_types index result (m ∷ ms) =
      and_then (message_type m)
        (λ type. add_types (suc index) (if leb index 4 then add_type result type else result) ms)

  abbrev pub with_more : List Message → String → String
  with_more ms result = if ltb 5 (length ms) then result <> ", ..." else result

  unfoldable pub get_type_tx_msg : List Message → Result String
  get_type_tx_msg ms = map_ok (with_more ms) (add_types 0 "" ms)
