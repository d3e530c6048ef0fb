-- ===== src/Auth/Google.antt =====
-- GoogleOAuthService of src/auth/google/google-oauth.service.ts. The check of the identity token by
-- google-auth-library is a parameter: it gives the profile of the Google account or throws.
use aura_explorer_api.Prelude.{
  String, Option, none, some, ◌||◌, ◌==◌, nat_eq, string_eq, is_some, if◌then◌else◌,
}
use aura_explorer_api.Exec.{
  bad_request, failure, message, Result, ok, Exec, pure, raise, gets, lift, or_raise, ◌>>=◌, ◌>>◌,
  try_catch,
}
use aura_explorer_api.Entities.{
  Role, plain, admin, role_eq, google, Site, main_site, admin_site, site_eq, User,
}
use aura_explorer_api.Account.{Tokens, Database, Moment, Services}
use aura_explorer_api.User.{create, save_user, check_role}
use aura_explorer_api.Auth.{login}

pub record Profile : Type 0 where
  pub email : String
  pub name : String

module _ (app : Services) (verify_id_token : String → Result Profile) (admin_email : String) where
  abbrev pub initial_role : String → Role
  initial_role email = if admin_email == email then admin else plain

  -- A new user is created at the main site, and at the admin site for the initial admin alone.
  abbrev pub find_or_create : Moment → Profile → Site → Option User → Exec Database (Option User)
  find_or_create m p site (some u) s = (ok (some u), s)
  find_or_create m p site none s =
      if site == main_site || initial_role p.email == admin
      then (do
        u ← create app (record {
          email = p.email;
          name = p.name;
          provider = google;
          role = initial_role p.email;
          verified_at = some m.now;
        })
        pure (some u))
          s
      else (ok none, s)

  -- Accounts that are not verified become so.
  abbrev pub ensure_verified : Moment → User → Exec Database User
  ensure_verified m u s =
      if is_some u.verified_at
      then (ok u, s)
      else (do
        save_user app (record u { verified_at = some m.now })
        pure (record u { verified_at = some m.now }))
          s

  abbrev pub admin_checked : Site → User → Exec Database (Unit {0})
  admin_checked main_site u s = (ok tt, s)
  admin_checked admin_site u s = check_role (some u) admin_site s

  abbrev pub finish : Moment → Site → User → Exec Database User
  finish m site given = do u ← ensure_verified m given; admin_checked site u; pure u

  abbrev pub complete : Moment → Profile → Site → Option User → Exec Database User
  complete m p site found = do
    created ← find_or_create m p site found
    given ← or_raise (failure "Cannot read properties of undefined (reading 'verifiedAt')") created
    finish m site given

  abbrev pub authenticated : Moment → String → Site → Exec Database User
  authenticated m token site = do
    p ← lift (verify_id_token token)
    found ← gets (λ s. app.users.find_one (λ u. u.email == p.email) s.users)
    complete m p site found

  unfoldable pub authenticate : Moment → String → Site → Exec Database User
  authenticate m token site =
      try_catch (authenticated m token site) (λ e. raise (bad_request (message e)))

  pub google_login : Moment → String → Site → Exec Database Tokens
  unfolding authenticate
  google_login m token site = do u ← authenticate m token site; pure (login app u)
