-- ===== src/Tests/Inbox.antt =====
-- The theorems on the grouping and the texts of coin transfers, and on the reading of notifications.
use aura_explorer_api.Prelude.{
  ◌≡◌, refl, ◌==◌, String, true, none, some, Option, List, [], ◌∷◌, nat_eq, string_eq, count_if,
}
use aura_explorer_api.Exec.{ok}
use aura_explorer_api.Repository.Memory.{memory}
use aura_explorer_api.Entities.{activity_keyed}
use aura_explorer_api.Notification.Groups.{Transfer, get_tx_notify_sent, get_tx_notify_received}
use aura_explorer_api.Notification.Groups.Partition.{all_activities, count_if-all_activities}
use aura_explorer_api.Notification.Texts.{notice_keyed, TagLists}
use aura_explorer_api.Notification.Texts.Coins.{CoinDetail, process_coin_transfer_notification}
use aura_explorer_api.Notification.Texts.Restake.{
  coin_notices, process_coin_transfer_notification-groups,
}
use aura_explorer_api.Notification.Service.{Inbox, InboxServices, read_notification}
use aura_explorer_api.Notification.Inbox.{is_foreign, read_notification_takes}
use aura_explorer_api.Tests.{aura, tags, ctx}
use aura_explorer_api.Tests.Jobs.{watched, notice}

abbrev coins : String → Option String → Transfer CoinDetail
coins amount to = record {
  tx_hash = "A1";
  from = some "aura1long";
  to = to;
  height = 50;
  detail = record { amount = amount; denom = some "AURA"; tx_msg = none; image = "" };
}

abbrev two_coins : List (Transfer CoinDetail)
two_coins = coins "2" (some "aura1short") ∷ coins "3" none ∷ []

count_if-all_activities_example :
    (count_if
        (λ (t : Transfer CoinDetail). t.height == 50)
        (all_activities (get_tx_notify_sent two_coins))
      ≡ 2)
    × (count_if
          (λ (t : Transfer CoinDetail). t.height == 50)
          (all_activities (get_tx_notify_received two_coins))
        ≡ 1)
count_if-all_activities_example = count_if-all_activities (λ t. t.height == 50) two_coins

abbrev no_tags : TagLists
no_tags = record { privates = []; publics = [] }

process_coin_transfer_notification-groups_example :
    (process_coin_transfer_notification no_tags aura
        (get_tx_notify_received two_coins)
        (watched ∷ [])
      ≡ ok (coin_notices no_tags aura (get_tx_notify_received two_coins) (watched ∷ [])))
    × (process_coin_transfer_notification no_tags aura (get_tx_notify_sent two_coins) []
        ≡ ok (coin_notices no_tags aura (get_tx_notify_sent two_coins) []))
process_coin_transfer_notification-groups_example =
    process_coin_transfer_notification-groups no_tags aura two_coins (watched ∷ []) (watched ∷ [])
      [] refl refl

abbrev post : Inbox
post = record {
  notices = record notice { id = 1; user_id = 5 } ∷ record notice { id = 2 } ∷ [];
  activities = [];
}

abbrev post_services : InboxServices
post_services = record {
  notices = memory notice_keyed;
  activities = memory activity_keyed;
  find_explorer = tags.find_explorer;
}

abbrev taken_post : Inbox
taken_post = record post {
  notices = record notice { id = 1; is_read = true } ∷ record notice { id = 2 } ∷ [];
}

read_notification_runs : read_notification post_services ctx 1 post ≡ (ok 1, taken_post)
unfolding read_notification
read_notification_runs = refl

read_notification_takes_example : count_if (is_foreign post_services ctx 1) taken_post.notices ≡ 0
read_notification_takes_example =
    read_notification_takes post_services ctx 1 1 post taken_post read_notification_runs
