-- ===== src/Auth.antt =====
-- Authentication: src/auth/jwt (sessions), src/auth/password (login by password), src/auth/role (the
-- guard of a route) and src/auth/google (login by Google, in Auth/Google.antt).
pub mod Google
pub mod Sessions
pub mod Roles
use aura_explorer_api.Prelude.{
  ℕ, String, Bool, true, false, not, Option, none, some, ◌&&◌, ◌||◌, ◌==◌, nat_eq, string_eq,
  is_value, is_some, if◌then◌else◌, List, [], ◌∷◌,
}
use aura_explorer_api.Exec.{
  Exception, bad_request, unauthorized, Result, ok, err, Exec, pure, raise, gets, lift, or_raise,
  raise_if, continue, ◌>>=◌, ◌>>◌,
}
use aura_explorer_api.Entities.{Role, role_eq, main_site, User}
use aura_explorer_api.Account.{Claims, Tokens, Database, Services}
use aura_explorer_api.User.{
  check_role, check_last_required_login, find_one_by_id, find_one_by_email,
}

-- What a valid access token puts into the request.
pub record Principal : Type 0 where
  pub id : ℕ
  pub email : String

-- `roles.includes(userRole)`, where no role is the empty text, which no role equals.
unfoldable pub match_roles : List Role → Option Role → Bool
match_roles [] role = false
match_roles (r ∷ roles) role = is_value role r || match_roles roles role

abbrev pub role_of : Option User → Option Role
role_of none = none
role_of (some u) = u.role

module _ (app : Services) where
  -- `login` of JwtAuthService.
  abbrev pub login : User → Tokens
  login u = record {
    access_token = app.sign_access u.id u.email;
    refresh_token = app.sign_refresh u.id u.email;
  }

  unfoldable pub refresh_token : String → Exec Database Tokens
  unfolding find_one_by_email check_last_required_login
  refresh_token token = do
    claims ← lift (app.verify_token token)
    found ← find_one_by_email app claims.email
    u ← or_raise (unauthorized "User not found in DB.") found
    check_last_required_login u claims.iat
    pure (login u)

  -- `validate` of JwtAuthStrategy, on the decoded payload of an access token. A user that is not
  -- there has been refused by `check_role`.
  unfoldable pub validate_payload : Claims → Exec Database Principal
  unfolding find_one_by_id check_role check_last_required_login
  validate_payload claims = do
    found ← find_one_by_id app claims.sub
    check_role found main_site
    u ← or_raise (unauthorized "You have not permission!") found
    check_last_required_login u claims.iat
    pure (record { id = claims.sub; email = claims.email })

  -- `validate` of PasswordAuthService.
  unfoldable pub validate_password : String → String → Exec Database User
  validate_password email pass = do
    found ←
        gets
          (λ s. app.users.find_one (λ u. u.email == email && is_some u.encrypted_password) s.users)
    u ← or_raise (unauthorized "EU002") found
    raise_if (not (is_some u.verified_at)) (unauthorized "EU001")
    valid ← lift (app.compare pass u.encrypted_password)
    raise_if (not valid) (unauthorized "EU002")
    pure u

  pub login_with_password : String → String → Exec Database Tokens
  unfolding validate_password
  login_with_password email pass = do u ← validate_password email pass; pure (login u)

  -- `canActivate` of RoleGuard: the roles that a route requires, and the email of the request.
  unfoldable pub can_activate : Option (List Role) → String → Exec Database Bool
  unfolding match_roles find_one_by_email
  can_activate none email s = (ok true, s)
  can_activate (some roles) email s =
      (do found ← find_one_by_email app email; pure (match_roles roles (role_of found))) s
