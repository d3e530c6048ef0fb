-- ===== src/Notification/Processor/Recipients.antt =====
-- Who is sent the notifications of the jobs of
-- src/components/queues/notification/notification.processor.ts.
use aura_explorer_api.Prelude.{
  ℕ, String, ◌≡◌, refl, Option, none, List, [], ◌∷◌, All, nat_eq, Option-cases, inl, inr,
}
use aura_explorer_api.Exec.{Result, Exec, gets, ◌>>=◌, Result-cases}
use aura_explorer_api.Exec.Results.{keep_if_ok-keeps, map_each}
use aura_explorer_api.Entities.{Explorer}
use aura_explorer_api.WatchList.{WatchListRow}
use aura_explorer_api.Notification.Groups.{Transfer}
use aura_explorer_api.Notification.Texts.{Notice, ExecutedTx}
use aura_explorer_api.Notification.Texts.Coins.{CoinTx, is_ibc_asset, convert_data_coin_transfer}
use aura_explorer_api.Notification.Texts.Tokens.{Cw20Detail, Cw721Detail}
use aura_explorer_api.Notification.Desk.{
  SyncPoint, SyncPointType, executed_height, coin_transfer_height, token_transfer_height,
  nft_transfer_height, Desk, JobServices,
}
use aura_explorer_api.Notification.Processor.{
  tag_lists, token_has_quota, new_point, query_watch_list, allowed_tokens, process_notification,
  pre_process_notification, Prepared, prepared, update_block_notification,
}
use aura_explorer_api.Notification.Processor.Allowed.{
  IsAllowed, IsKnown, HasQuota, found-IsKnown, process_notification_lem,
}
use aura_explorer_api.Notification.Processor.Pushes.{
  Pushes, none_pushed, lift_pushed, quiet_pushed, try_pushed,
}
use aura_explorer_api.Notification.Processor.Jobs.{
  notification_executed, notification_coin_transfer, notification_token_transfer,
  notification_nft_transfer, job, Announce, from_point, with_watched, is_point_of,
  announce_executed, convert_and_announce, announce_tokens, announce_nfts, senders, joined, parties,
  send_texts, executed_texts, coin_texts, token_texts, nft_texts,
}

module _ (env : JobServices) (explorer : Explorer) (start : Desk) where
  -- What comes after the preparation may push to the tokens that it allows.
  prepared_pushed :
      {A : Type 0} (ts : List (Transfer A)) (addresses : List (Option String))
      (f : Prepared A → Exec Desk (Unit {0}))
      → ((ready : Prepared A)
          → All (HasQuota env explorer start) ready.tokens
          → Pushes (IsAllowed env explorer start) start (f ready start).1)
      → Pushes
          (IsAllowed env explorer start)
          start
          ((pre_process_notification env explorer ts addresses >>= f) start).1
  unfolding pre_process_notification
  prepared_pushed ts addresses f later =
      elim (Result-cases (tag_lists env explorer addresses start.book)) [
        | inr (e, failed) ↦ rw failed (none_pushed (IsAllowed env explorer start) start start refl)
        | inl (tags, read) ↦ elim (Result-cases (allowed_tokens env explorer start)) [
          | inr (e, failed) ↦
              rw (read, failed) (none_pushed (IsAllowed env explorer start) start start refl)
          | inl (tokens, kept) ↦
              rw (read, kept)
                (later (prepared env explorer ts tags tokens) (
                  keep_if_ok-keeps (token_has_quota env explorer start) (IsKnown env explorer start)
                    (env.tokens.find (λ t. t.active) start.tokens) tokens kept
                    (found-IsKnown env explorer start)))
        ]
      ]

  update_block_notification_quiet :
      (type : SyncPointType)
      → (update_block_notification env explorer type none start).1.pushed ≡ start.pushed
  unfolding update_block_notification
  update_block_notification_quiet type = elim (Result-cases (env.total_blocks explorer.chain_id)) [
    | inr (e, failed) ↦ rw failed refl
    | inl (height, done) ↦
        elim (Result-cases
          (env.sync_points.insert (new_point env explorer type height) start.sync_points).0) [
            | inr (e, failed) ↦ rw (done, failed) refl
            | inl (p, added) ↦ rw (done, added) refl
          ]
  ]

  -- A job pushes what it announces.
  module _ {R : Type 0} (fetch : Option ℕ → Result (List R)) (announce : Announce env explorer R)
      (announced : (p : SyncPoint) (ws : List WatchListRow) (rs : List R)
        → Pushes (IsAllowed env explorer start) start (announce p ws rs start).1) where
    with_watched_pushed :
        (p : SyncPoint) (ws : List WatchListRow)
        → Pushes
            (IsAllowed env explorer start)
            start
            (with_watched env explorer fetch announce p ws start).1
    with_watched_pushed p [] = none_pushed (IsAllowed env explorer start) start start refl
    with_watched_pushed p (w ∷ ws) =
        lift_pushed (IsAllowed env explorer start) (fetch p.point) (announce p (w ∷ ws)) start
          (λ rs _. announced p (w ∷ ws) rs)

    job_pushed :
        (type : SyncPointType)
        → Pushes (IsAllowed env explorer start) start (job env explorer fetch announce type start).1
    unfolding query_watch_list
    job_pushed type =
        try_pushed (IsAllowed env explorer start)
          (gets (λ s. env.sync_points.find_one (is_point_of env explorer type) s.sync_points)
            >>= from_point env explorer fetch announce type)
          start
          (elim (Option-cases
            (env.sync_points.find_one (is_point_of env explorer type) start.sync_points)) [
              | inl missing ↦ rw missing (
                  quiet_pushed (IsAllowed env explorer start)
                    (update_block_notification env explorer type none) start
                    (update_block_notification_quiet type))
              | inr (p, found) ↦ rw found (
                  lift_pushed (IsAllowed env explorer start) (query_watch_list env explorer start).0
                    (with_watched env explorer fetch announce p) start
                    (λ ws _. with_watched_pushed p ws))
            ])

  send_texts_pushed :
      {A : Type 0} (texts : Prepared A → Result (List Notice)) (ready : Prepared A) (p : SyncPoint)
      (height : ℕ)
      → All (HasQuota env explorer start) ready.tokens
      → Pushes
          (IsAllowed env explorer start)
          start
          (send_texts env explorer (texts ready) ready.tokens p height start).1
  send_texts_pushed texts ready p height quota =
      lift_pushed (IsAllowed env explorer start) (texts ready)
        (λ ns. process_notification env explorer ns ready.tokens p height) start
        (λ ns _. process_notification_lem env explorer start ns ready.tokens p height start quota)

  transfers_pushed :
      {A : Type 0} (texts : Prepared A → Result (List Notice)) (ts : List (Transfer A))
      (addresses : List (Option String)) (p : SyncPoint) (height : ℕ)
      → Pushes
          (IsAllowed env explorer start)
          start
          ((pre_process_notification env explorer ts addresses
              >>= (λ ready. send_texts env explorer (texts ready) ready.tokens p height))
            start).1
  transfers_pushed texts ts addresses p height =
      prepared_pushed ts addresses
        (λ ready. send_texts env explorer (texts ready) ready.tokens p height)
        (λ ready quota. send_texts_pushed texts ready p height quota)

  announce_executed_pushed :
      (p : SyncPoint) (ws : List WatchListRow) (txs : List ExecutedTx)
      → Pushes
          (IsAllowed env explorer start)
          start
          (announce_executed env explorer p ws txs start).1
  announce_executed_pushed p ws [] = none_pushed (IsAllowed env explorer start) start start refl
  announce_executed_pushed p ws (tx ∷ txs) =
      let texts : Prepared (Unit {0}) → Result (List Notice) =
        λ ready. executed_texts env.texts explorer ws (tx ∷ txs) ready.tags in
      lift_pushed (IsAllowed env explorer start) (map_each senders (tx ∷ txs))
        (λ addresses.
          pre_process_notification env explorer {A = Unit {0}} [] (joined addresses)
          >>= (λ ready. send_texts env explorer (texts ready) ready.tokens p tx.height))
        start (λ addresses _. transfers_pushed texts [] (joined addresses) p tx.height)

  convert_and_announce_pushed :
      (p : SyncPoint) (ws : List WatchListRow) (txs : List CoinTx)
      → Pushes
          (IsAllowed env explorer start)
          start
          (convert_and_announce env explorer p ws txs start).1
  convert_and_announce_pushed p ws [] = none_pushed (IsAllowed env explorer start) start start refl
  convert_and_announce_pushed p ws (tx ∷ txs) =
      let assets = env.assets.find (is_ibc_asset explorer.id) start.assets in
      let rows = convert_data_coin_transfer env.texts explorer assets (tx ∷ txs) in
      transfers_pushed (coin_texts env.texts explorer ws) rows (parties rows) p tx.height

  announce_tokens_pushed :
      (p : SyncPoint) (ws : List WatchListRow) (ts : List (Transfer Cw20Detail))
      → Pushes (IsAllowed env explorer start) start (announce_tokens env explorer p ws ts start).1
  announce_tokens_pushed p ws [] = none_pushed (IsAllowed env explorer start) start start refl
  announce_tokens_pushed p ws (t ∷ ts) =
      transfers_pushed (token_texts env.texts explorer ws) (t ∷ ts) (parties (t ∷ ts)) p t.height

  announce_nfts_pushed :
      (p : SyncPoint) (ws : List WatchListRow) (ts : List (Transfer Cw721Detail))
      → Pushes (IsAllowed env explorer start) start (announce_nfts env explorer p ws ts start).1
  announce_nfts_pushed p ws [] = none_pushed (IsAllowed env explorer start) start start refl
  announce_nfts_pushed p ws (t ∷ ts) =
      transfers_pushed (nft_texts env.texts explorer ws) (t ∷ ts) (parties (t ∷ ts)) p t.height

  -- Whatever fails, each of the four jobs hands messages to Firebase only for tokens that an active
  -- row of the table has for the user of the notification, and only for users who were below the daily
  -- limit when the job started.
  pub jobs-Pushes :
      Pushes (IsAllowed env explorer start) start (notification_executed env explorer start).1
      × Pushes
          (IsAllowed env explorer start)
          start
          (notification_coin_transfer env explorer start).1
      × Pushes
          (IsAllowed env explorer start)
          start
          (notification_token_transfer env explorer start).1
      × Pushes (IsAllowed env explorer start) start (notification_nft_transfer env explorer start).1
  unfolding notification_executed notification_coin_transfer notification_token_transfer
      notification_nft_transfer
  jobs-Pushes = (
    job_pushed (env.fetch_executed explorer) (announce_executed env explorer)
        announce_executed_pushed executed_height,
    job_pushed (env.fetch_coins explorer) (convert_and_announce env explorer)
        convert_and_announce_pushed coin_transfer_height,
    job_pushed (env.fetch_tokens explorer) (announce_tokens env explorer) announce_tokens_pushed
        token_transfer_height,
    job_pushed (env.fetch_nfts explorer) (announce_nfts env explorer) announce_nfts_pushed
        nft_transfer_height,
  )
