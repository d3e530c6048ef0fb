-- ===== src/Tests/Notices.antt =====
-- The theorems on the daily limit of notifications, at a board where Ann has had 99 of 100.
use aura_explorer_api.Prelude.{◌≡◌, true, false, none, some, [], ◌∷◌, nat_eq}
use aura_explorer_api.Repository.Memory.{memory}
use aura_explorer_api.Entities.{daily_notifications, UserActivity, user_keyed, activity_keyed}
use aura_explorer_api.NameTag.{account}
use aura_explorer_api.WatchList.{WatchListRow, watch_keyed}
use aura_explorer_api.Notification.{Board, NotificationServices, count_all}
use aura_explorer_api.Notification.Counting.{counted, counted-count_all}
use aura_explorer_api.Tests.{ann}

abbrev pub env : NotificationServices
env = record {
  users = memory user_keyed;
  activities = memory activity_keyed;
  watch_lists = memory watch_keyed;
  limit_notifications = 100;
}

abbrev pub daily : UserActivity
daily = record {
  id = 9;
  type = daily_notifications;
  send_mail_attempt = 0;
  last_send_mail_attempt = none;
  total = 99;
  user_id = some 1;
  explorer_id = some 7;
}

abbrev pub row : WatchListRow
row = record {
  id = 1;
  address = "aura1short";
  evm_address = none;
  type = some account;
  favorite = false;
  tracking = true;
  note = none;
  settings = none;
  user_id = 1;
  explorer_id = 7;
}

abbrev pub board : Board
board = record { users = ann ∷ []; activities = daily ∷ []; watch_lists = row ∷ [] }

counted-count_all_test : counted 1 (count_all [] (1 ∷ 3 ∷ 1 ∷ [])) ≡ 2
counted-count_all_test = counted-count_all 1 [] (1 ∷ 3 ∷ 1 ∷ [])
