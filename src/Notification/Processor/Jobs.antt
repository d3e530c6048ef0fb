-- ===== src/Notification/Processor/Jobs.antt =====
-- The jobs of src/components/queues/notification/notification.processor.ts. Each of the four that
-- notify starts from its sync point; what a job throws is logged.
use aura_explorer_api.Prelude.{
  ℕ, String, Bool, false, ◌&&◌, ◌==◌, is_value, nat_eq, Option, none, some, List, [], ◌∷◌, ◌++◌,
  map, keep_if,
}
use aura_explorer_api.Exec.{
  failure, Result, ok, err, Exec, pure, gets, lift, ◌>>=◌, ◌>>◌, try_catch,
}
use aura_explorer_api.Exec.Results.{and_then, map_ok, map_each, keep_if_ok}
use aura_explorer_api.Repository.Batch.{transaction}
use aura_explorer_api.Entities.{
  daily_notifications, activity_eq, Explorer, UserActivity, NotificationToken,
}
use aura_explorer_api.WatchList.{WatchListRow}
use aura_explorer_api.WatchList.Settings.{get, json_truthy}
use aura_explorer_api.Notification.{on_activities}
use aura_explorer_api.Notification.Message.{Message}
use aura_explorer_api.Notification.Groups.{Transfer}
use aura_explorer_api.Notification.Texts.{
  TextServices, Notice, TagLists, ExecutedTx, process_executed_notification,
}
use aura_explorer_api.Notification.Texts.Coins.{
  CoinDetail, CoinTx, member, is_ibc_asset, convert_data_coin_transfer,
  process_coin_transfer_notification,
}
use aura_explorer_api.Notification.Texts.Tokens.{
  Cw20Detail, Cw721Detail, process_token_transfer_notification, process_nft_transfer_notification,
}
use aura_explorer_api.Notification.Desk.{
  SyncPointType, executed_height, coin_transfer_height, token_transfer_height, nft_transfer_height,
  point_eq, SyncPoint, Desk, JobServices, on_notices, on_board,
}
use aura_explorer_api.Notification.Processor.{
  query_watch_list, update_block_notification, Prepared, pre_process_notification,
  process_notification,
}

-- `!!item.settings && item.settings[key]`
abbrev pub is_on : String → WatchListRow → Bool
is_on key w = elim w.settings [ none ↦ false | some fs ↦ json_truthy (get key fs) ]

-- `!!item.settings && item.settings[key].turnOn`
abbrev pub is_turned_on : String → WatchListRow → Result Bool
is_turned_on key w = elim w.settings [
  | none ↦ ok false
  | some fs ↦ map_ok json_truthy (member "turnOn" (get key fs))
]

-- The senders of a transaction's messages; `...undefined` throws.
abbrev pub senders : ExecutedTx → Result (List (Option String))
senders tx = elim tx.transaction_messages [
  | none ↦ err (failure "undefined is not iterable")
  | some ms ↦ ok (map (λ (m : Message). m.sender) ms)
]

abbrev pub joined : {A : Type 0} → List (List A) → List A
joined [] = []
joined (xs ∷ rest) = xs ++ joined rest

abbrev pub parties : {A : Type 0} → List (Transfer A) → List (Option String)
parties {A} ts = map (λ (t : Transfer A). t.from) ts ++ map (λ (t : Transfer A). t.to) ts

-- The notifications of a job, for the watched addresses whose settings ask for them.
module _ (texts : TextServices) (explorer : Explorer) (ws : List WatchListRow) where
  abbrev pub executed_texts : List ExecutedTx → TagLists → Result (List Notice)
  executed_texts txs tags =
      process_executed_notification tags explorer texts txs
        (keep_if (is_on "transactionExecuted") ws)

  abbrev pub coin_texts : Prepared CoinDetail → Result (List Notice)
  coin_texts ready = and_then (keep_if_ok (is_turned_on "nativeCoinReceived") ws) (λ receivers.
      and_then
        (process_coin_transfer_notification ready.tags explorer ready.notify_received receivers)
        (λ received. and_then (keep_if_ok (is_turned_on "nativeCoinSent") ws) (λ senders.
          map_ok (λ sent. sent ++ received)
            (process_coin_transfer_notification ready.tags explorer ready.notify_sent senders))))

  abbrev pub token_texts : Prepared Cw20Detail → Result (List Notice)
  token_texts ready =
      and_then
        (process_token_transfer_notification texts ready.tags explorer ready.notify_sent
          (keep_if (is_on "tokenSent") ws))
        (λ sent.
          map_ok (λ received. received ++ sent)
            (process_token_transfer_notification texts ready.tags explorer ready.notify_received
              (keep_if (is_on "tokenReceived") ws)))

  abbrev pub nft_texts : Prepared Cw721Detail → Result (List Notice)
  nft_texts ready =
      and_then
        (process_nft_transfer_notification texts ready.tags explorer ready.notify_sent
          (keep_if (is_on "nftSent") ws))
        (λ sent.
          map_ok (λ received. sent ++ received)
            (process_nft_transfer_notification texts ready.tags explorer ready.notify_received
              (keep_if (is_on "nftReceived") ws)))

module _ (env : JobServices) (explorer : Explorer) where
  abbrev pub is_point_of : SyncPointType → SyncPoint → Bool
  is_point_of type p = p.type == type && is_value p.explorer_id explorer.id

  -- What a job does with the answer of the indexer, for watched addresses and from a sync point.
  abbrev pub Announce : Type 0 → Type 0
  Announce R = SyncPoint → List WatchListRow → List R → Exec Desk (Unit {0})

  module _ {R : Type 0} (fetch : Option ℕ → Result (List R)) (announce : Announce R) where
    abbrev pub with_watched : SyncPoint → List WatchListRow → Exec Desk (Unit {0})
    with_watched p [] = pure tt
    with_watched p (w ∷ ws) = lift (fetch p.point) >>= announce p (w ∷ ws)

    abbrev pub from_point : SyncPointType → Option SyncPoint → Exec Desk (Unit {0})
    from_point type none = update_block_notification env explorer type none
    from_point type (some p) = query_watch_list env explorer >>= with_watched p

    -- What the four jobs have in common.
    abbrev pub job : SyncPointType → Exec Desk (Unit {0})
    job type =
        try_catch
          (gets (λ s. env.sync_points.find_one (is_point_of type) s.sync_points)
            >>= from_point type)
          (λ _. pure tt)

  -- The notifications are sent and stored, or the job ends with what their texts throw.
  abbrev pub send_texts :
      Result (List Notice) → List NotificationToken → SyncPoint → ℕ → Exec Desk (Unit {0})
  send_texts notices tokens p height =
      lift notices >>= (λ ns. process_notification env explorer ns tokens p height)

  abbrev pub announce_executed :
      SyncPoint → List WatchListRow → List ExecutedTx → Exec Desk (Unit {0})
  announce_executed p ws [] = pure tt
  announce_executed p ws (tx ∷ txs) = do
    addresses ← lift (map_each senders (tx ∷ txs))
    ready ← pre_process_notification env explorer {A = Unit {0}} [] (joined addresses)
    send_texts (executed_texts env.texts explorer ws (tx ∷ txs) ready.tags) ready.tokens p tx.height

  unfoldable pub notification_executed : Exec Desk (Unit {0})
  notification_executed = job (env.fetch_executed explorer) announce_executed executed_height

  abbrev pub announce_coins :
      SyncPoint → List WatchListRow → List (Transfer CoinDetail) → ℕ → Exec Desk (Unit {0})
  announce_coins p ws rows height = do
    ready ← pre_process_notification env explorer rows (parties rows)
    send_texts (coin_texts env.texts explorer ws ready) ready.tokens p height

  abbrev pub convert_and_announce :
      SyncPoint → List WatchListRow → List CoinTx → Exec Desk (Unit {0})
  convert_and_announce p ws [] = pure tt
  convert_and_announce p ws (tx ∷ txs) = do
    assets ← gets (λ s. env.assets.find (is_ibc_asset explorer.id) s.assets)
    announce_coins p ws (convert_data_coin_transfer env.texts explorer assets (tx ∷ txs)) tx.height

  unfoldable pub notification_coin_transfer : Exec Desk (Unit {0})
  notification_coin_transfer =
      job (env.fetch_coins explorer) convert_and_announce coin_transfer_height

  abbrev pub announce_tokens :
      SyncPoint → List WatchListRow → List (Transfer Cw20Detail) → Exec Desk (Unit {0})
  announce_tokens p ws [] = pure tt
  announce_tokens p ws (t ∷ ts) = do
    ready ← pre_process_notification env explorer (t ∷ ts) (parties (t ∷ ts))
    send_texts (token_texts env.texts explorer ws ready) ready.tokens p t.height

  unfoldable pub notification_token_transfer : Exec Desk (Unit {0})
  notification_token_transfer =
      job (env.fetch_tokens explorer) announce_tokens token_transfer_height

  abbrev pub announce_nfts :
      SyncPoint → List WatchListRow → List (Transfer Cw721Detail) → Exec Desk (Unit {0})
  announce_nfts p ws [] = pure tt
  announce_nfts p ws (t ∷ ts) = do
    ready ← pre_process_notification env explorer (t ∷ ts) (parties (t ∷ ts))
    send_texts (nft_texts env.texts explorer ws ready) ready.tokens p t.height

  unfoldable pub notification_nft_transfer : Exec Desk (Unit {0})
  notification_nft_transfer = job (env.fetch_nfts explorer) announce_nfts nft_transfer_height

abbrev pub is_daily : UserActivity → Bool
is_daily a = a.type == daily_notifications

module _ (env : JobServices) where
  -- Every daily activity is saved with the total zero.
  abbrev pub reset_activities : Exec Desk (Unit {0})
  reset_activities s =
      on_board
        (on_activities (
          transaction env.limits.activities.save (
            map (λ (a : UserActivity). record a { total = 0 })
              (env.limits.activities.find is_daily s.board.activities))))
        s

  unfoldable pub reset_notification : Exec Desk (Unit {0})
  reset_notification =
      try_catch (do reset_activities; on_notices (env.notices.delete env.is_expired); pure tt)
        (λ _. pure tt)
