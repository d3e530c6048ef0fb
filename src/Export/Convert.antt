-- ===== src/Export/Convert.antt =====
-- `convertDataAccountTransaction`, `getTypeTx` and `getFunctionNameByMethodId` of
-- src/shared/helpers/transaction.helper.ts. Of a converted transaction the members that no export reads
-- are left out: its own type, amount, denom, addresses, action and limit.
use aura_explorer_api.Prelude.{
  ℕ, String, ◌||◌, not, ◌==◌, string_eq, nat_eq, Option, none, some, List, [], ◌∷◌, first, truthy,
  text_or_empty, is_value, if◌then◌else◌,
}
use aura_explorer_api.Prelude.Text.{
  ◌<>◌, contains, last_part, starts_with, replace_first, second_word, before_parenthesis,
}
use aura_explorer_api.Exec.{failure, Result, ok, err}
use aura_explorer_api.Exec.Results.{and_then, map_ok, map_each, collect}
use aura_explorer_api.Entities.{Explorer, Asset}
use aura_explorer_api.WatchList.Settings.{Json, get}
use aura_explorer_api.Notification.Message.{
  Message, execute_contract, first_key, or_text, label_value, parsed, get_type_tx_msg,
}
use aura_explorer_api.Notification.Texts.Coins.{
  Coin, same_denom, ibc_symbol, symbol_of, decimal_of, own_denom, or_number,
}
use aura_explorer_api.Export.Query.{Method}
use aura_explorer_api.Export.{
  ExportType, executed_txs, aura_txs, fts_txs, nft_txs, AccountTx, Cw20Ref, ExportServices,
}

abbrev pub null_address : String
null_address = "Null address"

-- A transfer of a converted transaction.
pub record Event : Type 0 where
  pub from_address : Option String
  pub to_address : Option String
  pub amount : Option String
  pub denom : Option String
  pub denom_origin : Option String
  pub token_id : Option String
  pub contract_address : Option String

pub record AccountRow : Type 0 where
  pub tx_hash : Option String
  pub evm_tx_hash : Option String
  pub status : String
  pub fee : String
  pub height : ℕ
  pub timestamp : Option String
  pub contract_address : Option String
  pub events : List Event
  pub messages : Option (List Message)
  pub types : String

-- `type.replace('Msg', '')` of a type that starts so.
abbrev without_msg : String → String
without_msg t = if starts_with "Msg" t then replace_first "Msg" "" t else t

abbrev pub or_messages : Option (List Message) → Option (List Message) → Option (List Message)
or_messages none b = b
or_messages (some ms) b = some ms

module _ (env : ExportServices) where
  -- The type of a contract call stays that of its message where its action cannot be read.
  abbrev call_type : Message → String
  call_type m = elim (first_key (parsed env.parse (get "msg" m.content))) [
    | none ↦ execute_contract
    | some action ↦ "Contract: " <> action
  ]

  abbrev type_at : Message → Option Json → Result String
  type_at m (some (Json.text t)) =
      if t == execute_contract
      then ok (call_type m)
      else ok (without_msg (text_or_empty (or_text (label_value t) (some (last_part t)))))
  type_at m _ = err (failure "Cannot read properties of undefined (reading 'split')")

  -- The type that `getTypeTx` gives to a transaction with these messages.
  unfoldable pub get_type_tx : Option (List Message) → Result String
  get_type_tx none = err (failure "Cannot read properties of undefined (reading '0')")
  get_type_tx (some []) = err (failure "Cannot read properties of undefined (reading 'split')")
  get_type_tx (some (m ∷ _)) = type_at m (get "@type" m.content)

  module _ (explorer : Explorer) where
    abbrev fee_decimal : Option String → ℕ
    fee_decimal denom =
        if is_value denom explorer.evm_denom then explorer.evm_decimal else explorer.decimal

    abbrev pub fee_of : Option (Option String × Option String) → String
    fee_of none = env.balance_of "0" explorer.decimal
    fee_of (some (denom, amount)) =
        env.balance_of (if truthy amount then text_or_empty amount else "0") (fee_decimal denom)

    abbrev pub status_of : Option ℕ → String
    status_of code = if is_value code 0 then "Success" else "Fail"

    -- The symbol of a coin by its asset, if there is one.
    abbrev asset_symbol : Coin → Option Asset → Option String
    asset_symbol coin none = elim coin.denom [
      | none ↦ none
      | some d ↦ if contains "ibc" d then some d else none
    ]
    asset_symbol coin (some a) =
        if is_value a.type "IBC_TOKEN" then ibc_symbol a.symbol else elim coin.denom [
          | none ↦ none
          | some d ↦ if contains "ibc" d then some d else a.symbol
        ]

    abbrev pub coin_symbol : List Asset → Coin → Option Asset → Option String
    coin_symbol assets coin asset =
        or_text (asset_symbol coin asset)
          (symbol_of (first (λ (a : Asset). is_value a.denom explorer.minimal_denom) assets))

    abbrev coin_event : List Asset → Coin → Option Asset → Event
    coin_event assets coin asset = record {
      from_address = coin.from;
      to_address = coin.to;
      amount = some (env.coin_amount coin.amount (or_number (decimal_of asset) explorer.decimal));
      denom = coin_symbol assets coin asset;
      denom_origin = own_denom explorer coin.denom;
      token_id = none;
      contract_address = none;
    }

    -- A coin that the address sent or received; its type is read first, which can throw.
    abbrev pub coin_events : String → List Asset → AccountTx → Coin → Result (List Event)
    coin_events address assets tx coin =
        if is_value coin.to address || is_value coin.from address
        then map_ok
            (λ _.
              coin_event assets coin (first (λ (a : Asset). same_denom a.denom coin.denom) assets)
              ∷ [])
            (get_type_tx tx.messages)
        else ok []

    abbrev all_coins : Option (List Coin) → List Coin
    all_coins none = []
    all_coins (some coins) = coins

    abbrev contract_decimal : Option Cw20Ref → Option ℕ
    contract_decimal none = none
    contract_decimal (some c) = c.decimal

    abbrev contract_symbol : Option Cw20Ref → Option String
    contract_symbol none = none
    contract_symbol (some c) = c.symbol

    abbrev contract_at : Option Cw20Ref → Option String
    contract_at none = none
    contract_at (some c) = c.address

    abbrev or_null_address : Option String → Option String
    or_null_address a = or_text a (some null_address)

    abbrev pub token_event : AccountTx → Event
    token_event tx = record {
      from_address = or_null_address tx.from;
      to_address = or_null_address tx.to;
      amount =
          some
            (env.token_amount (or_text tx.amount (some "0")) (contract_decimal tx.cw20_contract));
      denom = contract_symbol tx.cw20_contract;
      denom_origin = none;
      token_id = none;
      contract_address = contract_at tx.cw20_contract;
    }

    abbrev pub nft_event : AccountTx → Option (Option String) → Result (List Event)
    nft_event tx none = err (failure "Cannot read properties of undefined (reading 'token_id')")
    nft_event tx (some token_id) = ok (
        record {
          from_address = or_null_address tx.from;
          to_address = or_null_address tx.to;
          amount = none;
          denom = none;
          denom_origin = none;
          token_id = token_id;
          contract_address = tx.cw721_address;
        }
        ∷ [])

    -- The transfers by the kind of the export: none for executed transactions, whose type is read.
    unfoldable pub events_of : ExportType → String → List Asset → AccountTx → Result (List Event)
    events_of executed_txs address assets tx = map_ok (λ _. []) (get_type_tx tx.messages)
    events_of aura_txs address assets tx =
        collect (coin_events address assets tx) (all_coins tx.coin_transfers)
    events_of fts_txs address assets tx =
        map_ok (λ _. token_event tx ∷ []) (get_type_tx tx.tx_messages)
    events_of nft_txs address assets tx =
        and_then (get_type_tx tx.tx_messages) (λ _. nft_event tx tx.cw721_token_id)
    events_of _ address assets tx = ok []

    -- Messages that are there have a first one, whose type is read.
    abbrev first_message_read : Option (List Message) → Result (Unit {0})
    first_message_read (some []) =
        err (failure "Cannot read properties of undefined (reading 'type')")
    first_message_read _ = ok tt

    -- Without a transfer, the type is that of the first message.
    abbrev fallback_read : ExportType → List Event → Option (List Message) → Result (Unit {0})
    fallback_read executed_txs events messages = ok tt
    fallback_read mode [] none = err (failure "Cannot read properties of undefined (reading '0')")
    fallback_read mode _ _ = ok tt

    abbrev types_of : Option (List Message) → Result String
    types_of none = ok ""
    types_of (some ms) = get_type_tx_msg env.parse ms

    abbrev first_contract : List Event → Option String
    first_contract [] = none
    first_contract (e ∷ _) = e.contract_address

    abbrev evm_hash_of : ExportType → AccountTx → Option String
    evm_hash_of executed_txs tx = or_text tx.evm_hash (some "")
    evm_hash_of _ tx = none

    abbrev pub account_row :
        ExportType → AccountTx → Option (List Message) → String → List Event → AccountRow
    account_row mode tx messages types events = record {
      tx_hash = or_text tx.hash tx.tx_hash;
      evm_tx_hash = evm_hash_of mode tx;
      status = status_of tx.code;
      fee = fee_of tx.fee;
      height = tx.height;
      timestamp = or_text tx.timestamp tx.tx_timestamp;
      contract_address = first_contract events;
      events = events;
      messages = messages;
      types = types;
    }

    unfoldable pub convert_transaction :
        ExportType → String → List Asset → AccountTx → Result AccountRow
    convert_transaction mode address assets tx =
        let messages = or_messages tx.messages tx.tx_messages in
        and_then (first_message_read messages) (λ _. and_then (types_of messages) (λ types.
          and_then (events_of mode address assets tx) (λ events.
            map_ok (λ _. account_row mode tx messages types events)
              (fallback_read mode events messages))))

    unfoldable pub convert_data_account_transaction :
        ExportType → String → List Asset → List AccountTx → Result (List AccountRow)
    convert_data_account_transaction mode address assets txs =
        map_each (convert_transaction mode address assets) txs

-- EvmMethod
abbrev pub default_method : String
default_method = "Send"

abbrev pub creation_id : String
creation_id = "60806040"

abbrev pub creation_method : String
creation_method = "Create Contract"

abbrev topic_of : Option Method → Option String
topic_of none = none
topic_of (some m) = m.human_readable_topic

abbrev method_in : Option String → Result String
method_in none = err (failure "Cannot read properties of undefined (reading 'substring')")
method_in (some word) = ok (before_parenthesis word)

unfoldable pub get_function_name_by_method_id : Option String → List Method → Result String
get_function_name_by_method_id id methods =
    if not (truthy id)
    then ok default_method
    else if is_value id creation_id
    then ok creation_method
    else let topic = topic_of (first (λ (m : Method). is_value id m.function_id) methods) in
      if not (truthy topic)
      then ok (text_or_empty id)
      else method_in (second_word (text_or_empty topic))
