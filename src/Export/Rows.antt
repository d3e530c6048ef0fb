-- ===== src/Export/Rows.antt =====
-- The rows of the exports and the columns of their files, TX_HEADER of src/shared/constants/common.ts.
pub mod Shown
use aura_explorer_api.Prelude.{
  ℕ, String, Bool, true, false, ◌||◌, ◌&&◌, not, ◌==◌, string_eq, Option, none, some, List, [], ◌∷◌,
  ◌++◌, map, first, any, truthy, text_or_empty, is_value, is_some, if◌then◌else◌,
}
use aura_explorer_api.Prelude.Text.{join, prefix}
use aura_explorer_api.Exec.{failure, Result, ok, err}
use aura_explorer_api.Exec.Results.{and_then, map_ok}
use aura_explorer_api.Entities.{Explorer}
use aura_explorer_api.NameTag.{PrivateNameTag}
use aura_explorer_api.Notification.Message.{Message}
use aura_explorer_api.Export.Query.{Method}
use aura_explorer_api.Export.Convert.{Event, AccountRow, get_function_name_by_method_id}
use aura_explorer_api.Export.{EvmTx, OuterTx, EvmRef, Erc20Activity, Cw20Ref, ExportServices}

-- A member of a row: a text that may be undefined, or a number.
pub data Cell : Type 0 where
  text : Option String → Cell
  number : ℕ → Cell

-- An object, its members in the order in which they are written.
abbrev pub Row : Type 0
Row = List (String × Cell)

-- A column of a file: its heading, and the member that it shows.
pub record Column : Type 0 where
  pub heading : String
  pub member : String

abbrev pub plain : String → Column
plain name = record { heading = name; member = name }

abbrev pub time_columns : List Column
time_columns =
    record { heading = "Timestamp (UTC)"; member = "Timestamp" } ∷ plain "UnixTimestamp" ∷ []

abbrev pub message_columns : List Column
message_columns = plain "TxHash" ∷ plain "MessageRaw" ∷ plain "Message" ∷ []

-- The columns of the two addresses, without their private tags and with them.
abbrev pub address_columns : Bool → List Column
address_columns false = plain "FromAddress" ∷ plain "ToAddress" ∷ []
address_columns true =
    plain "FromAddress"
    ∷ plain "FromAddressPrivateNameTag"
    ∷ plain "ToAddress"
    ∷ plain "ToAddressPrivateNameTag"
    ∷ []

-- EXECUTED
abbrev pub executed_header : List Column
executed_header =
    message_columns
    ++ plain "Result" ∷ []
    ++ time_columns
    ++ plain "Fee" ∷ plain "BlockHeight" ∷ plain "EvmTxHash" ∷ []

-- EVM_EXECUTED and EVM_EXECUTED_NAMETAG
abbrev pub evm_executed_header : Bool → List Column
evm_executed_header tags =
    (plain "EvmTxHash" ∷ plain "Method" ∷ plain "Height" ∷ [])
    ++ time_columns
    ++ address_columns tags
    ++ plain "Amount" ∷ plain "Symbol" ∷ plain "CosmosTxHash" ∷ []

-- COIN_TRANSFER and COIN_TRANSFER_NAMETAG
abbrev pub coin_transfer_header : Bool → List Column
coin_transfer_header tags =
    message_columns
    ++ time_columns
    ++ address_columns tags
    ++ plain "AmountIn" ∷ plain "AmountOut" ∷ plain "Symbol" ∷ plain "Denom" ∷ []

-- TOKEN_TRANSFER and TOKEN_TRANSFER_NAMETAG
abbrev pub token_transfer_header : Bool → List Column
token_transfer_header tags =
    message_columns
    ++ time_columns
    ++ address_columns tags
    ++ plain "AmountIn" ∷ plain "AmountOut" ∷ plain "Symbol" ∷ plain "TokenContractAddress" ∷ []

-- NFT_TRANSFER and NFT_TRANSFER_NAMETAG
abbrev pub nft_transfer_header : Bool → List Column
nft_transfer_header tags =
    message_columns
    ++ time_columns
    ++ address_columns tags
    ++ plain "TokenIdIn" ∷ plain "TokenIdOut" ∷ plain "NFTContractAddress" ∷ []

-- The tags of the user with their texts decrypted; none for an export without a user.
abbrev pub Tags : Type 0
Tags = Option (List PrivateNameTag)

-- `x === address`, where both may be undefined.
abbrev same_text : Option String → Option String → Bool
same_text (some a) (some b) = a == b
same_text none none = true
same_text _ _ = false

abbrev pub is_tag_at : Option String → PrivateNameTag → Bool
is_tag_at address t =
    is_value address t.address || (truthy t.evm_address && same_text t.evm_address address)

abbrev found_text : Option PrivateNameTag → String
found_text none = ""
found_text (some t) = t.name_tag

-- `lstPrivateName?.find(…)?.nameTag || ''`
abbrev pub tag_at : Tags → Option String → Cell
tag_at none address = text (some "")
tag_at (some tags) address = text (some (found_text (first (is_tag_at address) tags)))

abbrev type_or_empty : Message → String
type_or_empty m = text_or_empty m.type

-- `lstTypeTemp?.map((item) => item.type)?.toString()`
abbrev pub message_raw : Option (List Message) → Cell
message_raw none = text none
message_raw (some ms) = text (some (join "," (map type_or_empty ms)))

abbrev pub text_if : Bool → Option String → Cell
text_if b t = if b then text t else text (some "")

abbrev pub prefix_8 : Option String → Option String
prefix_8 none = none
prefix_8 (some input) = some (prefix 8 input)

module _ (env : ExportServices) where
  abbrev pub unix_of : Option String → Cell
  unix_of t = text (some (env.unix_time t))

  abbrev pub executed_row : AccountRow → Row
  executed_row tx =
      ("TxHash", text tx.tx_hash)
      ∷ ("EvmTxHash", text tx.evm_tx_hash)
      ∷ ("MessageRaw", message_raw tx.messages)
      ∷ ("Message", text (some tx.types))
      ∷ ("Result", text (some tx.status))
      ∷ ("Timestamp", text tx.timestamp)
      ∷ ("UnixTimestamp", unix_of tx.timestamp)
      ∷ ("Fee", text (some tx.fee))
      ∷ ("BlockHeight", number tx.height)
      ∷ []

  -- What the rows of transfers share.
  abbrev pub transfer_start : Tags → AccountRow → Event → Row
  transfer_start tags tx e =
      ("TxHash", text tx.tx_hash)
      ∷ ("MessageRaw", message_raw tx.messages)
      ∷ ("Message", text (some tx.types))
      ∷ ("Timestamp", text tx.timestamp)
      ∷ ("UnixTimestamp", unix_of tx.timestamp)
      ∷ ("FromAddress", text e.from_address)
      ∷ ("FromAddressPrivateNameTag", tag_at tags e.from_address)
      ∷ ("ToAddress", text e.to_address)
      ∷ ("ToAddressPrivateNameTag", tag_at tags e.to_address)
      ∷ []

  abbrev amount_cells : String → Event → Row
  amount_cells address e =
      ("AmountIn", text_if (is_value e.to_address address) e.amount)
      ∷ ("AmountOut", text_if (not (is_value e.to_address address)) e.amount)
      ∷ ("Symbol", text e.denom)
      ∷ []

  abbrev or_empty : Option String → Option String
  or_empty t = some (text_or_empty t)

  abbrev pub coin_row : Tags → String → AccountRow → Event → Row
  coin_row tags address tx e =
      transfer_start tags tx e
      ++ amount_cells address e
      ++ ("Denom", text (or_empty e.denom_origin)) ∷ []

  abbrev pub token_row : Tags → String → AccountRow → Event → Row
  token_row tags address tx e =
      transfer_start tags tx e
      ++ amount_cells address e
      ++ ("TokenContractAddress", text tx.contract_address) ∷ []

  abbrev pub nft_row : Tags → String → AccountRow → Event → Row
  nft_row tags address tx e =
      transfer_start tags tx e
      ++ ("TokenIdIn", text_if (is_value e.to_address address) e.token_id)
        ∷ ("TokenIdOut", text_if (not (is_value e.to_address address)) e.token_id)
        ∷ ("NFTContractAddress", text e.contract_address)
        ∷ []

  abbrev outer_time : Option OuterTx → Option String
  outer_time none = none
  outer_time (some o) = o.timestamp

  abbrev outer_hash : Option OuterTx → Option String
  outer_hash none = none
  outer_hash (some o) = o.hash

  -- `tx.transaction?.transaction_messages[0].content.data.value`
  abbrev pub outer_value : Option OuterTx → Result (Option String)
  outer_value none = ok none
  outer_value (some o) = elim o.value [
    | none ↦ err (failure "Cannot read properties of undefined (reading 'content')")
    | some v ↦ ok v
  ]

  abbrev pub evm_cells : Explorer → Tags → Option String → EvmTx → String → Option String → Row
  evm_cells explorer tags symbol tx method value =
      ("EvmTxHash", text tx.hash)
      ∷ ("Method", text (some method))
      ∷ ("Height", number tx.height)
      ∷ ("Timestamp", text (outer_time tx.transaction))
      ∷ ("UnixTimestamp", unix_of (outer_time tx.transaction))
      ∷ ("FromAddress", text tx.from)
      ∷ ("FromAddressPrivateNameTag", tag_at tags tx.from)
      ∷ ("ToAddress", text tx.to)
      ∷ ("ToAddressPrivateNameTag", tag_at tags tx.to)
      ∷ ("Amount", text (some (env.evm_amount value explorer.evm_decimal)))
      ∷ ("Symbol", text symbol)
      ∷ ("CosmosTxHash", text (outer_hash tx.transaction))
      ∷ []

  unfoldable pub evm_row : Explorer → Tags → List Method → Option String → EvmTx → Result Row
  evm_row explorer tags methods symbol tx =
      and_then (get_function_name_by_method_id (prefix_8 tx.input) methods) (λ method.
        map_ok (λ value. evm_cells explorer tags symbol tx method value)
          (outer_value tx.transaction))

  abbrev pub erc20_cells : Option String → Tags → Erc20Activity → EvmRef → Cw20Ref → String → Row
  erc20_cells address tags tx evm c method =
      ("TxHash", text tx.tx_hash)
      ∷ ("MessageRaw", text evm.message_type)
      ∷ ("Message", text (some method))
      ∷ ("Timestamp", text evm.timestamp)
      ∷ ("UnixTimestamp", unix_of evm.timestamp)
      ∷ ("FromAddress", text tx.from)
      ∷ ("FromAddressPrivateNameTag", tag_at tags tx.from)
      ∷ ("ToAddress", text tx.to)
      ∷ ("ToAddressPrivateNameTag", tag_at tags tx.to)
      ∷ (
        "AmountIn",
        text_if (same_text tx.to address) (some (env.token_amount tx.amount c.decimal)),
      )
      ∷ (
        "AmountOut",
        text_if (not (same_text tx.to address)) (some (env.token_amount tx.amount c.decimal)),
      )
      ∷ ("Symbol", text c.symbol)
      ∷ ("TokenContractAddress", text c.address)
      ∷ []

  abbrev pub with_contract :
      Option String → Tags → Erc20Activity → EvmRef → String → Option Cw20Ref → Result Row
  with_contract address tags tx evm method none =
      err (failure "Cannot read properties of null (reading 'symbol')")
  with_contract address tags tx evm method (some c) = ok (erc20_cells address tags tx evm c method)

  abbrev pub with_evm :
      Option String → Tags → List Method → Erc20Activity → Option EvmRef → Result Row
  with_evm address tags methods tx none =
      err (failure "Cannot read properties of null (reading 'transaction_message')")
  with_evm address tags methods tx (some evm) =
      and_then (get_function_name_by_method_id (prefix_8 evm.input) methods)
        (λ method. with_contract address tags tx evm method tx.erc20_contract)

  -- The address is the EVM address of the request.
  unfoldable pub erc20_row : Option String → Tags → List Method → Erc20Activity → Result Row
  erc20_row address tags methods tx = with_evm address tags methods tx tx.evm_transaction
