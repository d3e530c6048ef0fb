-- ===== src/User.antt =====
-- UserService of src/components/user/user.service.ts: the users' rows, roles and activation.
-- The mails are in User/Mail.antt, the passwords in User/Password.antt and the devices that get
-- notifications in User/Device.antt.
pub mod Mail
pub mod Password
pub mod Device
use aura_explorer_api.Prelude.{
  ℕ, String, Bool, true, false, not, Option, none, some, ◌&&◌, ◌==◌, nat_eq, string_eq, is_value,
  is_some, if◌then◌else◌, ltb, ◌*◌, List,
}
use aura_explorer_api.Exec.{
  Exception, bad_request, unauthorized, not_found, entity_not_found, failure, message, Result, ok,
  err, Exec, pure, raise, gets, lift, or_raise, raise_if, continue, ◌>>=◌, ◌>>◌, try_catch,
}
use aura_explorer_api.Entities.{
  Role, plain, admin, banned, role_eq, Provider, password, Site, main_site, admin_site, site_eq,
  User, UserActivity, send_mail_verify, Explorer,
}
use aura_explorer_api.Account.{
  MailJob, Database, Moment, Services, on_users, on_activities, on_mail,
}

-- CreateUserDto; UpdateUserDto names the user by `id` and carries `name` alone.
pub record CreateUser : Type 0 where
  pub email : String
  pub name : String
  pub provider : Provider
  pub role : Role
  pub verified_at : Option ℕ

abbrev pub new_user : User
new_user = record {
  id = 0;
  email = "";
  name = none;
  role = none;
  provider = none;
  encrypted_password = none;
  verification_token = none;
  verified_at = none;
  reset_password_token = none;
  last_required_login = none;
}

-- `a > b` for a date that may be null, which counts as the time 0.
abbrev pub later_than : Option ℕ → ℕ → Bool
later_than none t = ltb t 0
later_than (some d) t = ltb t d

abbrev pub verification_token_length : ℕ
verification_token_length = 20

abbrev pub reset_password_token_length : ℕ
reset_password_token_length = 21

-- The outcomes of activation, MSGS_ACTIVE_USER.
pub data Activation : Type 0 where
  sa001 ea001 ea002 ea003 : Activation

-- `checkRole`: `!user`, a banned role, then the admin site.
unfoldable pub check_role : {S : Type 0} → Option User → Site → Exec S (Unit {0})
check_role none site s = (err (unauthorized "You have not permission!"), s)
check_role (some u) site s =
    if is_value u.role banned
    then (err (unauthorized "You have been banned."), s)
    else if site == admin_site && is_value u.role plain
    then (err (unauthorized "You have not permission!"), s)
    else (ok tt, s)

-- `checkLastRequiredLogin`, with `secondsToDate`.
unfoldable pub check_last_required_login : {S : Type 0} → User → ℕ → Exec S (Unit {0})
check_last_required_login u jwt_iat s =
    if later_than u.last_required_login (jwt_iat * 1000)
    then (err (unauthorized "You need to log in again using new password."), s)
    else (ok tt, s)

module _ (app : Services) where
  unfoldable pub find_one_by_id : ℕ → Exec Database (Option User)
  find_one_by_id i = gets (λ s. app.users.find_one (λ u. u.id == i) s.users)

  unfoldable pub find_one_by_email : String → Exec Database (Option User)
  find_one_by_email e = gets (λ s. app.users.find_one (λ u. u.email == e) s.users)

  pub find_all : Exec Database (List User)
  find_all = gets (λ s. app.users.find (λ _. true) s.users)

  unfoldable pub create : CreateUser → Exec Database User
  create dto = on_users (
      app.users.insert (record new_user {
        email = dto.email;
        name = some dto.name;
        provider = some dto.provider;
        role = some dto.role;
        verified_at = dto.verified_at;
      }))

  pub update_user : ℕ → String → Exec Database User
  update_user i name = do
    found ← gets (λ s. app.users.find_one (λ u. u.id == i) s.users)
    u ← or_raise (not_found "User not found") found
    on_users (app.users.save (record u { name = some name }))

  pub delete_user : ℕ → Exec Database ℕ
  delete_user i = do
    found ← gets (λ s. app.users.find_one (λ u. u.id == i) s.users)
    u ← or_raise (not_found "User not found") found
    on_users (app.users.delete (λ q. q.id == i))

  unfoldable pub save_user : User → Exec Database User
  save_user u = on_users (app.users.save u)

  -- `findOneOrFail({ chainId })`
  abbrev pub find_explorer : String → Exec Database Explorer
  find_explorer chain s =
      or_raise (entity_not_found "Explorer")
        (app.explorers.find_one (λ e. e.chain_id == chain) s.explorers) s

  abbrev activate : Moment → String → User → Exec Database Activation
  activate m token u =
      if is_some u.verified_at
      then pure ea001
      else if is_value u.verification_token token
      then (do on_users (app.users.save (record u { verified_at = some m.now })); pure sa001)
      else pure ea003

  abbrev activate_found : Moment → String → Option User → Exec Database Activation
  activate_found m token none = pure ea002
  activate_found m token (some u) = activate m token u

  -- `activeUser`; the explorer's URL comes back beside the outcome.
  pub active_user : Moment → String → String → String → Exec Database (Activation × String)
  active_user m email token chain = do
    found ← gets (λ s.
        app.users.find_one (λ u. u.email == email && is_value u.verification_token token) s.users)
    explorer ← find_explorer chain
    outcome ← activate_found m token found
    pure (outcome, explorer.explorer_url)
