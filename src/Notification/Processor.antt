-- ===== src/Notification/Processor.antt =====
-- The steps that the jobs of src/components/queues/notification/notification.processor.ts share: who
-- still has a quota, what is read before the texts are made, and what is sent and stored afterwards.
-- The jobs are in Processor/Jobs.antt.
pub mod Jobs
pub mod Pushes
pub mod Allowed
pub mod Recipients
pub mod Delivery
pub mod Stalled
pub mod Unreadable
pub mod Reset
use aura_explorer_api.Prelude.{
  ℕ, String, Bool, true, false, not, ◌&&◌, ◌==◌, nat_eq, Option, none, some, List, [], ◌∷◌, ◌++◌,
  map, any, ltb, leb, length, is_value, string_eq, if◌then◌else◌, ◌≡◌, ◌↔◌, refl, arith, Eq,
}
use aura_explorer_api.Exec.{
  Exception, failure, Result, ok, err, Exec, pure, gets, lift, continue, ◌>>=◌, ◌>>◌, try_catch,
}
use aura_explorer_api.Exec.Results.{map_each, and_then, map_ok, keep_if_ok}
use aura_explorer_api.Repository.{Keyed, Repository}
use aura_explorer_api.Repository.Batch.{transaction}
use aura_explorer_api.Entities.{
  daily_notifications, activity_eq, Explorer, NotificationToken, UserActivity, token_keyed,
}
use aura_explorer_api.NameTag.{readable, PrivateNameTag, PublicNameTag, Book, TagServices}
use aura_explorer_api.WatchList.{WatchListRow}
use aura_explorer_api.Notification.{Board, NotificationServices, block_limit_notification}
use aura_explorer_api.Notification.Groups.{
  Transfer, Group, get_tx_notify_sent, get_tx_notify_received,
}
use aura_explorer_api.Notification.Texts.{TextServices, Notice, notice_keyed, TagLists, ExecutedTx}
use aura_explorer_api.Notification.Texts.Coins.{CoinTx}
use aura_explorer_api.Entities.{Asset, asset_keyed}
use aura_explorer_api.Notification.Texts.Tokens.{Cw20Detail, Cw721Detail}
use aura_explorer_api.Notification.Desk.{
  Desk, JobServices, Push, SyncPoint, SyncPointType, coin_transfer_height, executed_height,
  nft_transfer_height, on_board, on_notices, on_points, point_eq, point_keyed, point_rank_iff,
  token_transfer_height,
}

-- `userActivities.find(…)`, which throws at a daily activity without an explorer.
unfoldable pub find_daily : ℕ → List UserActivity → Result (Option UserActivity)
find_daily explorer [] = ok none
find_daily explorer (a ∷ rows) =
    let rest = find_daily explorer rows in
    if a.type == daily_notifications
    then elim a.explorer_id [
      | none ↦ err (failure "Cannot read properties of null (reading 'id')")
      | some e ↦ if e == explorer then ok (some a) else rest
    ]
    else rest

abbrev pub below : ℕ → Option UserActivity → Bool
below limit none = true
below limit (some a) = not (leb limit a.total)

-- The filter on a token throws where the token has no user.
abbrev pub is_owned : ℕ → NotificationToken → Result Bool
is_owned user t = elim t.user_id [
  | none ↦ err (failure "Cannot read properties of null (reading 'id')")
  | some u ↦ ok (u == user)
]

abbrev pub send_notification : Notice → List NotificationToken → Exec Desk (Unit {0})
send_notification n ts s = (
  ok tt,
  record s {
    pushed =
        s.pushed
        ++ map (λ (t : NotificationToken). record { token = t.notification_token; notice = n }) ts;
  },
)

unfoldable pub push_all : List NotificationToken → List Notice → Exec Desk (Unit {0})
push_all tokens [] = pure tt
push_all tokens (n ∷ ns) = do
  mine ← lift (keep_if_ok (is_owned n.user_id) tokens)
  send_notification n mine
  push_all tokens ns

-- What `preProcessNotification` returns.
pub record Prepared (A : Type 0) : Type 0 where
  pub tags : TagLists
  pub tokens : List NotificationToken
  pub notify_received : List (Group A)
  pub notify_sent : List (Group A)

module _ (env : JobServices) (explorer : Explorer) where
  -- The activities that are joined to a row by its user.
  abbrev pub activities_of : ℕ → Desk → List UserActivity
  activities_of user s =
      env.limits.activities.find (λ a. is_value a.user_id user) s.board.activities

  abbrev pub has_quota : ℕ → Desk → Result Bool
  has_quota user s =
      map_ok (below env.limits.limit_notifications) (find_daily explorer.id (activities_of user s))

  abbrev pub is_tracked_on : WatchListRow → Bool
  is_tracked_on w = w.tracking && w.explorer_id == explorer.id

  unfoldable pub query_watch_list : Exec Desk (List WatchListRow)
  query_watch_list s = (
    keep_if_ok (λ w. has_quota w.user_id s)
        (env.limits.watch_lists.find is_tracked_on s.board.watch_lists),
    s,
  )

  abbrev pub update_point : SyncPoint → Option ℕ → Exec Desk ℕ
  update_point p height =
      on_points (
        env.sync_points.update (λ q. q.id == p.id) (λ (q : SyncPoint). record q { point = height }))

  abbrev pub new_point : SyncPointType → Option ℕ → SyncPoint
  new_point type height = record {
    id = 0;
    type = type;
    point = height;
    explorer_id = some explorer.id;
  }

  unfoldable pub update_block_notification : SyncPointType → Option SyncPoint → Exec Desk (Unit {0})
  update_block_notification type none = do
    height ← lift (env.total_blocks explorer.chain_id)
    on_points (env.sync_points.insert (new_point type height))
    pure tt
  update_block_notification type (some p) = do
    height ← lift (env.total_blocks explorer.chain_id)
    update_point p height
    pure tt

  -- `address: In(list)`
  abbrev pub is_listed : List (Option String) → String → Bool
  is_listed addresses a = any (λ o. is_value o a) addresses

  abbrev pub is_private_on : List (Option String) → PrivateNameTag → Bool
  is_private_on addresses t = is_listed addresses t.address && t.explorer_id == explorer.id

  -- The private tags of all users, decrypted, and the public ones.
  abbrev pub tag_lists : List (Option String) → Book → Result TagLists
  tag_lists addresses book =
      map_ok
        (λ privates. record {
          privates = privates;
          publics =
              env.tags.public_tags.find
                (λ t. is_listed addresses t.address && t.explorer_id == explorer.id)
                book.public_tags;
        })
        (map_each (readable env.tags)
          (env.tags.private_tags.find (is_private_on addresses) book.private_tags))

  -- A token without a user is kept.
  abbrev pub token_has_quota : Desk → NotificationToken → Result Bool
  token_has_quota s t = elim t.user_id [ none ↦ ok true | some u ↦ has_quota u s ]

  abbrev pub allowed_tokens : Desk → Result (List NotificationToken)
  allowed_tokens s = keep_if_ok (token_has_quota s) (env.tokens.find (λ t. t.active) s.tokens)

  abbrev pub prepared :
      {A : Type 0} → List (Transfer A) → TagLists → List NotificationToken → Prepared A
  prepared transfers tags tokens = record {
    tags = tags;
    tokens = tokens;
    notify_received = get_tx_notify_received transfers;
    notify_sent = get_tx_notify_sent transfers;
  }

  -- Without transfers there are no groups.
  unfoldable pub pre_process_notification :
      {A : Type 0} → List (Transfer A) → List (Option String) → Exec Desk (Prepared A)
  pre_process_notification transfers addresses s = (
    and_then (tag_lists addresses s.book)
        (λ tags. map_ok (prepared transfers tags) (allowed_tokens s)),
    s,
  )

  abbrev pub send_and_store : List NotificationToken → List Notice → Exec Desk (Unit {0})
  send_and_store tokens [] = pure tt
  send_and_store tokens (n ∷ ns) = do
    push_all tokens (n ∷ ns)
    on_notices (transaction env.notices.insert (n ∷ ns))

  -- `height` is that of the first entry of the response.
  unfoldable pub process_notification :
      List Notice → List NotificationToken → SyncPoint → ℕ → Exec Desk (Unit {0})
  process_notification notices tokens point height = do
    send_and_store tokens notices
    update_point point (some height)
    on_board
        (block_limit_notification env.limits explorer.id (map (λ (n : Notice). n.user_id) notices))
