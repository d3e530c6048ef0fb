-- ===== src/Tests/Exports.antt =====
-- Exports of a few transactions.
use aura_explorer_api.Prelude.{
  ℕ, zero, suc, ◌≡◌, refl, Option, none, some, List, [], ◌∷◌, take, keep_if, All, subst, ◌≤◌,
}
use aura_explorer_api.Prelude.Pages.{last_key, is_beyond}
use aura_explorer_api.Exec.{Result, ok}
use aura_explorer_api.Repository.Memory.{memory}
use aura_explorer_api.Entities.{asset_keyed}
use aura_explorer_api.WatchList.Settings.{Json, Fields}
use aura_explorer_api.Notification.Message.{Message, message_type, add_types, get_type_tx_msg}
use aura_explorer_api.Tests.{aura}
use aura_explorer_api.Export.{ExportParams, executed_txs, height, AccountTx, ExportServices}
use aura_explorer_api.Export.Query.{Bounds, Source, query_loop, query_data}
use aura_explorer_api.Export.Query.Whole.{below, query_data_all}
use aura_explorer_api.Export.Query.Blocks.{OnlyBelow, HonoursHeight, query_data_after_page}
use aura_explorer_api.Export.Convert.{
  get_type_tx, events_of, convert_transaction, convert_data_account_transaction,
  get_function_name_by_method_id, AccountRow,
}
use aura_explorer_api.Export.Rows.{executed_row, executed_header}
use aura_explorer_api.Export.Service.{Csv, bounds_of, executed, export_transaction_data_to_csv}
use aura_explorer_api.Export.Service.Columns.{IsShown, export_transaction_data_to_csv-IsShown}

abbrev all : Bounds
all = record { height_lt = none; height_gt = none; start_time = none; end_time = none }

-- Transactions that are their heights.
abbrev heights : List ℕ → Source ℕ
heights table = record {
  height = λ h. h;
  method_id = none;
  fetch = λ b. ok (some (take 100 (keep_if (is_beyond (λ h. h) below b.height_lt) table)));
  fetch_methods = λ ids. ok none;
}

query_data_all_example :
    query_data (heights (9 ∷ 4 ∷ [])) all ≡ ok (record { rows = 9 ∷ 4 ∷ []; methods = [] })
query_data_all_example =
    query_data_all (heights (9 ∷ 4 ∷ [])) refl all (9 ∷ 4 ∷ []) ((refl, tt), (tt, tt))
      (λ after. refl)

-- A block of many transactions, of which a page holds a hundred.
abbrev copies : ℕ → List ℕ
copies zero = []
copies (suc n) = 7 ∷ copies n

abbrev fetch_block : Option ℕ → Result (Option (List ℕ))
fetch_block none = ok (some (copies 100))
fetch_block (some k) = ok (some [])

abbrev one_block : Source ℕ
one_block = record {
  height = λ h. h;
  method_id = none;
  fetch = λ b. fetch_block b.height_lt;
  fetch_methods = λ ids. ok none;
}

one_block-HonoursHeight : HonoursHeight one_block
one_block-HonoursHeight bounds k page h answer =
    let answer' : fetch_block (some k) ≡ ok (some page) = rw h at answer in
    let empty : [] ≡ page = cc in subst (λ xs. All (λ r. suc r ≤ k) xs) empty tt

one_block_runs : query_data one_block all ≡ ok (record { rows = copies 100; methods = [] })
unfolding query_data query_loop
one_block_runs = refl

query_data_after_page_example :
    (k : ℕ) × (last_key (λ (h : ℕ). h) (copies 100) ≡ some k)
    × OnlyBelow one_block k (copies 100) (copies 100)
query_data_after_page_example =
    query_data_after_page one_block all (copies 100) (record { rows = copies 100; methods = [] })
      one_block-HonoursHeight refl refl one_block_runs

abbrev send : Message
send = record {
  type = some "/cosmos.bank.v1beta1.MsgSend";
  at_type = none;
  sender = none;
  content = Fields.field "@type" (Json.text "/cosmos.bank.v1beta1.MsgSend") Fields.end;
  msg = none;
}

abbrev sent : AccountTx
sent = record {
  code = some 0;
  hash = some "A1";
  tx_hash = none;
  messages = some (send ∷ []);
  tx_messages = none;
  fee = some (some "uaura", some "200");
  height = 50;
  timestamp = some "2024";
  tx_timestamp = none;
  evm_hash = none;
  coin_transfers = none;
  from = none;
  to = none;
  amount = none;
  cw20_contract = none;
  cw721_token_id = none;
  cw721_address = none;
}

abbrev exports : ExportServices
exports = record {
  assets = memory asset_keyed;
  find_explorer = λ chain_id. some aura;
  get_name_tags = λ i chain_id. ok [];
  decrypt = λ s. ok s;
  parse = λ s. none;
  balance_of = λ amount decimal. amount;
  coin_amount = λ amount decimal. "0";
  token_amount = λ amount decimal. "0";
  evm_amount = λ amount decimal. "0";
  unix_time = λ t. "0";
  number = λ s. some 9;
  fetch_account_txs = λ mode explorer p b. ok (some (sent ∷ []));
  fetch_evm_txs = λ explorer p b. ok none;
  fetch_erc20 = λ explorer p b. ok none;
  fetch_methods = λ ids. ok (some []);
}

abbrev params : ExportParams
params = record {
  data_type = executed_txs;
  address = "aura1short";
  evm_address = none;
  range_type = height;
  min = "9";
  max = "9";
}

get_type_tx_test : get_type_tx exports (some (send ∷ [])) ≡ ok "Send"
unfolding get_type_tx
get_type_tx_test = refl

abbrev converted : AccountRow
converted = record {
  tx_hash = some "A1";
  evm_tx_hash = some "";
  status = "Success";
  fee = "200";
  height = 50;
  timestamp = some "2024";
  contract_address = none;
  events = [];
  messages = some (send ∷ []);
  types = "Send";
}

abbrev file : Csv
file = record {
  rows = executed_row exports converted ∷ [];
  file_name = "export-account-executed-aura1short.csv";
  fields = executed_header;
}

file_runs : export_transaction_data_to_csv exports "aura_6322" params none [] ≡ ok (some file)
unfolding export_transaction_data_to_csv executed bounds_of query_data query_loop
    convert_data_account_transaction convert_transaction events_of get_type_tx get_type_tx_msg
    add_types message_type
file_runs = refl

export_transaction_data_to_csv-IsShown_example : IsShown file
export_transaction_data_to_csv-IsShown_example =
    export_transaction_data_to_csv-IsShown exports "aura_6322" params none [] file file_runs

get_function_name_by_method_id_test :
    (get_function_name_by_method_id (some "60806040") [] ≡ ok "Create Contract")
    × (get_function_name_by_method_id none [] ≡ ok "Send")
    × (get_function_name_by_method_id (some "a9059cbb") (
          record {
            function_id = "a9059cbb";
            human_readable_topic = some "function transfer(address,uint256)";
          }
          ∷ [])
        ≡ ok "transfer")
unfolding get_function_name_by_method_id
get_function_name_by_method_id_test = (refl, refl, refl)
