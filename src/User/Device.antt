-- ===== src/User/Device.antt =====
-- The devices that get notifications: `registerNotificationToken` and `deleteNotificationToken` of
-- UserService. The daily count of notifications is an activity of its own for each explorer.
use aura_explorer_api.Prelude.{
  ℕ, String, Bool, true, Option, none, some, ◌&&◌, ◌==◌, nat_eq, string_eq, is_value, truthy,
  text_or_empty, if◌then◌else◌,
}
use aura_explorer_api.Exec.{failure, ok, Exec, pure, gets, or_raise, ◌>>=◌, ◌>>◌}
use aura_explorer_api.Entities.{
  daily_notifications, activity_eq, User, UserActivity, NotificationToken,
}
use aura_explorer_api.Account.{Database, Services, on_activities, on_tokens}
use aura_explorer_api.User.{find_explorer}

abbrev user_id_of : Option User → Option ℕ
user_id_of none = none
user_id_of (some u) = some u.id

abbrev pub is_daily : ℕ → ℕ → UserActivity → Bool
is_daily i explorer a =
    is_value a.user_id i && a.type == daily_notifications && is_value a.explorer_id explorer

abbrev pub is_device : ℕ → String → NotificationToken → Bool
is_device i token t = is_value t.user_id i && t.notification_token == token

module _ (app : Services) where
  abbrev ensure_daily : ℕ → ℕ → Option User → Exec Database (Unit {0})
  ensure_daily i explorer u s = elim (app.activities.find_one (is_daily i explorer) s.activities) [
    | some _ ↦ (ok tt, s)
    | none ↦
        (do
          on_activities (
              app.activities.insert (record {
                id = 0;
                type = daily_notifications;
                send_mail_attempt = 0;
                last_send_mail_attempt = none;
                total = 0;
                user_id = user_id_of u;
                explorer_id = some explorer;
              }))
          pure tt)
          s
  ]

  abbrev ensure_device : ℕ → String → Option User → Exec Database NotificationToken
  ensure_device i token u s =
      elim (app.notification_tokens.find_one (is_device i token) s.notification_tokens) [
        | some t ↦ (ok t, s)
        | none ↦
            on_tokens
              (app.notification_tokens.insert (record {
                id = 0;
                user_id = user_id_of u;
                notification_token = token;
                active = true;
              }))
              s
      ]

  pub register_notification_token :
      String → ℕ → Option String → Exec Database (Option NotificationToken)
  register_notification_token chain i token = do
    explorer ← find_explorer app chain
    u ← gets (λ s. app.users.find_one (λ u. u.id == i) s.users)
    ensure_daily i explorer.id u
    if truthy token
        then (do t ← ensure_device i (text_or_empty token) u; pure (some t))
        else pure none

  -- Without such a token TypeORM refuses to delete by an undefined key.
  pub delete_notification_token : ℕ → String → Exec Database ℕ
  delete_notification_token i token = do
    found ← gets (λ s. app.notification_tokens.find_one (is_device i token) s.notification_tokens)
    t ← or_raise (failure "Empty criteria(s) are not allowed for the delete method.") found
    on_tokens (app.notification_tokens.delete (λ q. q.id == t.id))
