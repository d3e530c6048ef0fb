-- ===== src/User/Password.antt =====
-- The passwords of UserService: `resetPassword`, `changePassword` and `verifyPassword`.
pub mod Reset
pub mod Change
pub mod Atomic
use aura_explorer_api.Prelude.{
  ℕ, String, Bool, true, false, not, Option, none, some, ◌&&◌, ◌+◌, ◌*◌, ◌/◌, ◌==◌, nat_eq,
  string_eq, is_value, is_some, truthy, text_or_empty, if◌then◌else◌, ltb,
}
use aura_explorer_api.Exec.{
  Exception, bad_request, unauthorized, failure, Result, ok, err, Exec, pure, raise, gets, lift,
  or_raise, raise_if, continue, ◌>>=◌, ◌>>◌,
}
use aura_explorer_api.Entities.{
  google, password, provider_eq, send_mail_reset_password, User, UserActivity,
}
use aura_explorer_api.Account.{Database, Moment, Services, on_users}
use aura_explorer_api.User.Mail.{is_activity, time_of}

-- `resetPasswordToken !== null && resetPasswordToken !== given`
abbrev pub token_mismatch : Option String → String → Bool
token_mismatch none given = false
token_mismatch (some t) given = not (t == given)

abbrev pub one_day : ℕ
one_day = 86400000

-- The link of the last mail is older than a day; without a mail there is nothing to expire.
abbrev pub link_expired : ℕ → Option UserActivity → Bool
link_expired now none = false
link_expired now (some a) = ltb (time_of a.last_send_mail_attempt + one_day) now

-- The column `last_required_login` is a datetime of whole seconds: the database rounds the time.
abbrev pub to_seconds : ℕ → ℕ
to_seconds now = (now + 500) / 1000 * 1000

module _ (app : Services) where
  -- The user with the new password, and without the token that was used.
  abbrev pub reset_user : Moment → User → String → User
  reset_user m u pass = record u {
    encrypted_password = some (app.hash m.salt pass);
    reset_password_token = none;
    provider = some password;
    last_required_login = some (to_seconds m.now);
  }

  unfoldable pub reset_password : Moment → String → String → String → Exec Database (Unit {0})
  reset_password m email token pass = do
    found ← gets (λ s. app.users.find_one (λ u. u.email == email) s.users)
    u ← or_raise (bad_request "User not registered with us before") found
    raise_if (token_mismatch u.reset_password_token token) (bad_request "Invalid token")
    last ←
        gets (λ s. app.activities.find_one (is_activity u.id send_mail_reset_password) s.activities)
    raise_if (link_expired m.now last) (bad_request "Reset password link expired.")
    on_users (app.users.save (reset_user m u pass))
    pure tt

  unfoldable pub verify_password : String → Option String → Exec Database Bool
  verify_password pass hashed s = elim (app.compare pass hashed) [
    | ok matches ↦ (ok matches, s)
    | err _ ↦ (err (bad_request "Something went wrong."), s)
  ]

  -- The user as `changePassword` leaves it, before the time of the required login is set.
  unfoldable pub new_password : Moment → User → Option String → String → Exec Database User
  unfolding verify_password
  new_password m u old pass =
      if is_value u.provider google && not (is_some u.encrypted_password)
      then pure
          (record u { encrypted_password = some (app.hash m.salt pass); provider = some password })
      else if is_value u.provider password
      then (do
        raise_if (not (truthy old)) (bad_request "Old password can not be empty.")
        matches_old ← verify_password (text_or_empty old) u.encrypted_password
        same_as_old ← verify_password pass u.encrypted_password
        raise_if (not matches_old) (unauthorized "Incorrect old password.")
        raise_if same_as_old (bad_request "New password must be different from current password.")
        pure (record u { encrypted_password = some (app.hash m.salt pass) }))
      else raise (bad_request "Something went wrong.")

  unfoldable pub change_password : Moment → ℕ → Option String → String → Exec Database (Unit {0})
  unfolding new_password
  change_password m i old pass = do
    found ← gets (λ s. app.users.find_one (λ u. u.id == i) s.users)
    u ← or_raise (failure "Cannot read properties of undefined (reading 'provider')") found
    u' ← new_password m u old pass
    on_users (app.users.save (record u' { last_required_login = some (to_seconds m.now) }))
    pure tt
