-- ===== src/Notification/Service.antt =====
-- src/components/notification/services/notification.service.ts: what a user reads of the
-- notifications, and how they are marked as read. `getNotifications`, a paged listing, is left out.
use aura_explorer_api.Prelude.{ℕ, Bool, true, not, ◌&&◌, ◌==◌, nat_eq, Option, List, String}
use aura_explorer_api.Exec.{entity_not_found, Result, Exec, gets, or_raise, ◌>>=◌}
use aura_explorer_api.Repository.{Repository}
use aura_explorer_api.Entities.{activity_eq, Explorer, UserActivity, activity_keyed}
use aura_explorer_api.NameTag.{Context}
use aura_explorer_api.Notification.{is_daily_of}
use aura_explorer_api.Notification.Texts.{Notice, notice_keyed}

-- The tables of the service.
pub record Inbox : Type 0 where
  pub notices : List Notice
  pub activities : List UserActivity

pub record InboxServices : Type 0 where
  pub notices : Repository notice_keyed
  pub activities : Repository activity_keyed
  pub find_explorer : String → Option Explorer

module _ {A : Type 0} where
  abbrev on_notices : (List Notice → Result A × List Notice) → Exec Inbox A
  on_notices f s = ((f s.notices).0, record s { notices = (f s.notices).1 })

module _ (env : InboxServices) (ctx : Context) where
  abbrev find_explorer : Exec Inbox Explorer
  find_explorer s = or_raise (entity_not_found "Explorer") (env.find_explorer ctx.chain_id) s

  abbrev pub read_by : Notice → Notice
  read_by n = record n { user_id = ctx.user_id; is_read = true }

  -- The row is found by its key alone, and the update writes the user of the request into it.
  unfoldable pub read_notification : ℕ → Exec Inbox ℕ
  read_notification id = on_notices (env.notices.update (λ n. n.id == id) read_by)

  abbrev pub is_unread_of : ℕ → ℕ → Notice → Bool
  is_unread_of user explorer n = n.user_id == user && n.explorer_id == explorer && not n.is_read

  unfoldable pub read_all_notification : Exec Inbox ℕ
  read_all_notification = do
    explorer ← find_explorer
    on_notices (
        env.notices.update (is_unread_of ctx.user_id explorer.id)
          (λ (n : Notice). record n { is_read = true }))

  unfoldable pub get_daily_quota_notification : Exec Inbox (Option UserActivity)
  get_daily_quota_notification = do
    explorer ← find_explorer
    gets (λ s. env.activities.find_one (is_daily_of ctx.user_id explorer.id) s.activities)
