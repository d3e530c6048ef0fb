-- ===== src/Tests/Jobs.antt =====
-- The theorems on the notification jobs, at a desk where Ann watches an address that executes a
-- transaction and receives coins, and where another user has a token.
use aura_explorer_api.Prelude.{
  ℕ, String, ◌≡◌, ◌⊎◌, refl, true, false, none, some, [], ◌∷◌, arith, nat_eq, string_eq,
  text_or_empty,
}
use aura_explorer_api.Exec.{Exception, ok, err, pure, ◌>>=◌}
use aura_explorer_api.Exec.Results.{map_each}
use aura_explorer_api.Repository.Memory.{memory}
use aura_explorer_api.Entities.{NotificationToken, token_keyed}
use aura_explorer_api.WatchList.{WatchListRow}
use aura_explorer_api.WatchList.Settings.{Json, Fields}
use aura_explorer_api.Notification.{block_limit_notification, limit_users, count_all, count_one}
use aura_explorer_api.Notification.Message.{Message, get_type_tx_msg, message_type, add_types}
use aura_explorer_api.Notification.Texts.{
  TextServices, Notice, notice_keyed, ExecutedTx, executed, execution, get_name_tag,
  process_executed_notification,
}
use aura_explorer_api.Entities.{asset_keyed}
use aura_explorer_api.Notification.Desk.{
  SyncPoint, SyncPointType, executed_height, coin_transfer_height, token_transfer_height,
  nft_transfer_height, point_keyed, Desk, JobServices,
}
use aura_explorer_api.Notification.Processor.{
  Prepared, find_daily, query_watch_list, pre_process_notification, push_all, process_notification,
}
use aura_explorer_api.Notification.Processor.Jobs.{
  is_point_of, notification_executed, notification_coin_transfer, notification_token_transfer,
  notification_nft_transfer,
}
use aura_explorer_api.Notification.Processor.Pushes.{Pushes}
use aura_explorer_api.Notification.Processor.Allowed.{IsAllowed}
use aura_explorer_api.Notification.Processor.Recipients.{jobs-Pushes}
use aura_explorer_api.Notification.Processor.Stalled.{jobs_stalled}
use aura_explorer_api.Notification.Processor.Delivery.{Stored, process_notification-Stored, moved}
use aura_explorer_api.Notification.Processor.Unreadable.{create_name_tag_empty-stalls}
use aura_explorer_api.NameTag.{account, stored, PrivateNameTag}
use aura_explorer_api.NameTag.Private.{
  TagRequest, validate, validate_create, validate_name, create_name_tag,
}
use aura_explorer_api.NameTag.Address.{
  verify, is_valid_bench32_address, type_mismatch, length_without,
}
use aura_explorer_api.Tests.{aura, tags, ctx}
use aura_explorer_api.Tests.Notices.{env as limits, daily, row, board}

abbrev send : Message
send = record {
  type = some "/cosmos.bank.v1beta1.MsgSend";
  at_type = none;
  sender = some "aura1short";
  content = Fields.end;
  msg = none;
}

abbrev call : Message
call = record send {
  type = some "/cosmwasm.wasm.v1.MsgExecuteContract";
  content = Fields.field "msg" (Json.obj (Fields.field "mint" Json.null Fields.end)) Fields.end;
}

abbrev unknown : Message
unknown = record send { type = none; at_type = some "/a.b.MsgNew" }

shown_types :
    map_each (message_type (λ s. none)) (send ∷ call ∷ unknown ∷ [])
    ≡ ok ("Send" ∷ "Contract: mint" ∷ "MsgNew" ∷ [])
unfolding message_type
shown_types = refl

get_type_tx_msg_test :
    get_type_tx_msg (λ s. none) (send ∷ call ∷ unknown ∷ send ∷ send ∷ call ∷ [])
    ≡ ok "Send, Contract: mint, MsgNew, Send, Send, ..."
unfolding get_type_tx_msg add_types message_type
get_type_tx_msg_test = refl

abbrev tx : ExecutedTx
tx = record { hash = "A1"; height = 50; transaction_messages = some (call ∷ []) }

abbrev texts : TextServices
texts = record {
  parse = λ s. none;
  balance_of = λ a d. text_or_empty a;
  stringify_media = λ url type. text_or_empty url;
}

abbrev jobs : JobServices
jobs = record {
  limits = limits;
  tags = tags;
  texts = texts;
  sync_points = memory point_keyed;
  tokens = memory token_keyed;
  notices = memory notice_keyed;
  assets = memory asset_keyed;
  fetch_executed = λ e above. ok (tx ∷ []);
  fetch_coins = λ e above. ok [];
  fetch_tokens = λ e above. ok [];
  fetch_nfts = λ e above. ok [];
  total_blocks = λ chain. ok (some 40);
  is_expired = λ n. false;
}

abbrev switches : Fields
switches = Fields.field "transactionExecuted" (Json.bool true) (
    Fields.field "nativeCoinReceived"
      (Json.obj (
        Fields.field "turnOn" (Json.bool true)
          (Fields.field "inactiveAutoRestake" (Json.bool true) Fields.end)))
      (Fields.field "nativeCoinSent" (Json.obj (Fields.field "turnOn" (Json.bool false) Fields.end))
        Fields.end))

abbrev pub watched : WatchListRow
watched = record row { settings = some switches }

abbrev token_of_user : ℕ → NotificationToken
token_of_user u = record { id = u; user_id = some u; notification_token = "fcm"; active = true }

abbrev point : SyncPointType → SyncPoint
point type = record { id = 1; type = type; point = some 40; explorer_id = some 7 }

abbrev desk : Desk
desk = record {
  board = record board { watch_lists = watched ∷ [] };
  book = record { private_tags = []; public_tags = [] };
  sync_points = point executed_height ∷ [];
  tokens = token_of_user 1 ∷ token_of_user 2 ∷ [];
  notices = [];
  assets = [];
  pushed = [];
}

abbrev pub notice : Notice
notice = record {
  id = 0;
  title = "Executed";
  content = "New Contract: mint transaction initiated by aura1short ";
  details = execution "Contract: mint" "aura1short" "";
  image = none;
  tx_hash = "A1";
  height = some 50;
  type = executed;
  user_id = 1;
  is_read = false;
  explorer_id = 7;
}

notification_executed_test :
    (notification_executed jobs aura desk).1.pushed ≡ record { token = "fcm"; notice = notice } ∷ []
unfolding notification_executed query_watch_list find_daily pre_process_notification
    process_notification push_all process_executed_notification get_type_tx_msg add_types
    message_type get_name_tag block_limit_notification limit_users count_all count_one
notification_executed_test = refl

jobs-Pushes_example :
    Pushes (IsAllowed jobs aura desk) desk (notification_executed jobs aura desk).1
    × Pushes (IsAllowed jobs aura desk) desk (notification_coin_transfer jobs aura desk).1
    × Pushes (IsAllowed jobs aura desk) desk (notification_token_transfer jobs aura desk).1
    × Pushes (IsAllowed jobs aura desk) desk (notification_nft_transfer jobs aura desk).1
jobs-Pushes_example = jobs-Pushes jobs aura desk

process_notification-Stored_example :
    ((process_notification jobs aura
        (notice ∷ [])
        (token_of_user 1 ∷ [])
        (point executed_height)
        50
        desk).1.sync_points
      ≡ desk.sync_points)
    ⊎ (((process_notification jobs aura
            (notice ∷ [])
            (token_of_user 1 ∷ [])
            (point executed_height)
            50
            desk).1.sync_points
          ≡ moved jobs aura (point executed_height) 50 desk.sync_points)
        × Stored notice_keyed
            (notice ∷ [])
            []
            (process_notification jobs aura
              (notice ∷ [])
              (token_of_user 1 ∷ [])
              (point executed_height)
              50
              desk).1.notices)
process_notification-Stored_example =
    process_notification-Stored jobs aura (notice ∷ []) (token_of_user 1 ∷ [])
      (point executed_height) 50 desk

-- Ann's daily activity has no explorer, and there are the four sync points.
abbrev stalled : Desk
stalled = record desk {
  board = record board {
    watch_lists = watched ∷ [];
    activities = record daily { explorer_id = none } ∷ [];
  };
  sync_points =
      point executed_height
      ∷ point coin_transfer_height
      ∷ point token_transfer_height
      ∷ point nft_transfer_height
      ∷ [];
}

stalled_points :
    (type : SyncPointType)
    → (p : SyncPoint) × (jobs.sync_points.find_one (is_point_of jobs aura type) stalled.sync_points
        ≡ some p)
stalled_points executed_height = (point executed_height, refl)
stalled_points coin_transfer_height = (point coin_transfer_height, refl)
stalled_points token_transfer_height = (point token_transfer_height, refl)
stalled_points nft_transfer_height = (point nft_transfer_height, refl)

jobs_stalled_example :
    (notification_executed jobs aura stalled ≡ (ok tt, stalled))
    × (notification_coin_transfer jobs aura stalled ≡ (ok tt, stalled))
    × (notification_token_transfer jobs aura stalled ≡ (ok tt, stalled))
    × (notification_nft_transfer jobs aura stalled ≡ (ok tt, stalled))
jobs_stalled_example =
    jobs_stalled jobs aura 1 stalled (omega arith) (omega arith) refl stalled_points

-- Another user gives the watched address a tag without a text.
abbrev untitled : TagRequest
untitled = record {
  address = some "aura1short";
  evm_address = none;
  type = some account;
  name_tag = some "";
  is_favorite = none;
  note = none;
}

abbrev untitled_tag : PrivateNameTag
untitled_tag = record {
  id = 1;
  type = some account;
  is_favorite = false;
  name_tag = "";
  note = none;
  address = "aura1short";
  evm_address = none;
  created_by = 1;
  explorer_id = 7;
}

abbrev untitled_desk : Desk
untitled_desk = record desk { book = record { private_tags = untitled_tag ∷ []; public_tags = [] } }

untitled_done :
    create_name_tag tags ctx untitled desk.book ≡ (ok (stored untitled_tag), untitled_desk.book)
unfolding create_name_tag validate validate_create validate_name verify is_valid_bench32_address
    type_mismatch length_without
untitled_done = refl

create_name_tag_empty-stalls_example :
    (e : Exception) × ((pre_process_notification jobs aura [] (some "aura1short" ∷ [])
          >>= λ (p : Prepared String). pure tt)
        untitled_desk
      ≡ (err e, untitled_desk))
create_name_tag_empty-stalls_example =
    create_name_tag_empty-stalls jobs aura [] (some "aura1short" ∷ []) (λ p. pure tt) ctx untitled
      desk.book untitled_tag untitled_desk refl refl untitled_done refl
