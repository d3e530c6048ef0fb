-- ===== src/Notification.antt =====
-- The daily limit on notifications: `blockLimitNotification` of
-- src/components/queues/notification/notification.processor.ts. It counts the notifications of each
-- user, and stops the tracking of the addresses of a user who has had enough.
pub mod Counting
pub mod Blocking
pub mod Message
pub mod Groups
pub mod Texts
pub mod Desk
pub mod Processor
pub mod Service
pub mod Inbox
use aura_explorer_api.Prelude.{
  ℕ, ◌+◌, Bool, true, false, ◌&&◌, ◌==◌, nat_eq, Option, none, some, List, [], ◌∷◌, ltb, leb,
  is_value, if◌then◌else◌,
}
use aura_explorer_api.Exec.{Exception, Result, ok, err, Exec, pure, gets, continue, ◌>>=◌, ◌>>◌}
use aura_explorer_api.Repository.{Repository}
use aura_explorer_api.Entities.{
  daily_notifications, activity_eq, User, UserActivity, user_keyed, activity_keyed,
}
use aura_explorer_api.WatchList.{WatchListRow, watch_keyed}

-- The tables that the step reads and writes.
pub record Board : Type 0 where
  pub users : List User
  pub activities : List UserActivity
  pub watch_lists : List WatchListRow

pub record NotificationServices : Type 0 where
  pub users : Repository user_keyed
  pub activities : Repository activity_keyed
  pub watch_lists : Repository watch_keyed
  pub limit_notifications : ℕ

module _ {A : Type 0} where
  abbrev pub on_activities : (List UserActivity → Result A × List UserActivity) → Exec Board A
  on_activities f s = ((f s.activities).0, record s { activities = (f s.activities).1 })

-- `counts`, an object with the users' keys for its keys, which `Object.entries` lists in ascending
-- order.
abbrev Counts : Type 0
Counts = List (ℕ × ℕ)

unfoldable pub count_one : ℕ → Counts → Counts
count_one u [] = (u, 1) ∷ []
count_one u ((v, n) ∷ t) =
    let rest = count_one u t in
    if u == v then (v, n + 1) ∷ t else if ltb u v then (u, 1) ∷ (v, n) ∷ t else (v, n) ∷ rest

unfoldable pub count_all : Counts → List ℕ → Counts
count_all counts [] = counts
count_all counts (u ∷ us) = count_all (count_one u counts) us

abbrev pub is_daily_of : ℕ → ℕ → UserActivity → Bool
is_daily_of u explorer a =
    is_value a.user_id u && a.type == daily_notifications && is_value a.explorer_id explorer

abbrev pub is_watched_by : ℕ → ℕ → WatchListRow → Bool
is_watched_by u explorer w = w.user_id == u && w.explorer_id == explorer

abbrev pub is_tracked_by : ℕ → ℕ → WatchListRow → Bool
is_tracked_by u explorer w = w.tracking && is_watched_by u explorer w

module _ (env : NotificationServices) (explorer : ℕ) where
  -- The update is not awaited: if it fails, the loop goes on.
  abbrev pub stop_tracking : ℕ → Exec Board (Unit {0})
  stop_tracking u s = (
    ok tt,
    record s {
      watch_lists =
          (env.watch_lists.update (is_watched_by u explorer)
            (λ (w : WatchListRow). record w { tracking = false }) s.watch_lists).1;
    },
  )

  abbrev pub user_key : Option User → Option ℕ
  user_key none = none
  user_key (some u) = some u.id

  -- The activity that is made where there is none has no explorer, and starts at one.
  abbrev pub first_activity : Option User → UserActivity
  first_activity u = record {
    id = 0;
    type = daily_notifications;
    send_mail_attempt = 0;
    last_send_mail_attempt = none;
    total = 1;
    user_id = user_key u;
    explorer_id = none;
  }

  abbrev pub limit_user : ℕ → ℕ → Option UserActivity → Exec Board (Unit {0})
  limit_user u count none s =
      (do
        on_activities
            (env.activities.insert (first_activity (env.users.find_one (λ q. q.id == u) s.users)))
        pure tt)
        s
  limit_user u count (some a) s =
      (do
        on_activities (
            env.activities.update (λ q. q.id == a.id)
              (λ (q : UserActivity). record q { total = a.total + count }))
        if leb env.limit_notifications (a.total + count) then stop_tracking u else pure tt)
        s

  abbrev pub count_user : ℕ × ℕ → Exec Board (Unit {0})
  count_user (u, count) s =
      limit_user u count (env.activities.find_one (is_daily_of u explorer) s.activities) s

  unfoldable pub limit_users : Counts → Exec Board (Unit {0})
  limit_users [] = pure tt
  limit_users (entry ∷ entries) = count_user entry >> limit_users entries

  unfoldable pub block_limit_notification : List ℕ → Exec Board (Unit {0})
  block_limit_notification user_ids = limit_users (count_all [] user_ids)
