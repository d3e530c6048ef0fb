-- ===== src/Auth/Sessions.antt =====
-- Sessions across a change of password: a reset ends the sessions that are older, and lets the user
-- in with the new password.
use aura_explorer_api.Prelude.{
  ℕ, ◌+◌, ◌*◌, ◌≤◌, ◌≡◌, refl, String, Bool, true, some, arith, ◌==◌, string_eq, nat_eq, ◌&&◌,
  is_some, Option-cases, inl, inr,
}
use aura_explorer_api.Exec.{unauthorized, ok, err}
use aura_explorer_api.Repository.Rows.{IsOnly, IsOnly-eq, save-IsOnly, save-found-again}
use aura_explorer_api.Entities.{User}
use aura_explorer_api.Account.{Claims, Database, Moment, Services}
use aura_explorer_api.User.{later_than}
use aura_explorer_api.User.Password.{reset_user, reset_password}
use aura_explorer_api.User.Password.Reset.{reset_password-IsReset}
use aura_explorer_api.Auth.{refresh_token, validate_password}

abbrev pub has_email : String → User → Bool
has_email email u = u.email == email

module _ (app : Services) (claims : Claims) (token : String) (s : Database) where
  -- A refresh token that was issued before the time of the required login is refused.
  refresh_token_refused :
      (u : User)
      → app.verify_token token ≡ ok claims
      → IsOnly (has_email claims.email) u s.users
      → later_than u.last_required_login (claims.iat * 1000) ≡ true
      → (x : String) × (refresh_token app token s ≡ (err (unauthorized x), s))
  unfolding refresh_token
  refresh_token_refused u verified only late =
      elim (Option-cases (app.users.find_one (has_email claims.email) s.users)) [
        | inl missing ↦ ("User not found in DB.", rw (verified, missing))
        | inr (b, found) ↦
            let same : b ≡ u = IsOnly-eq _ u b s.users only (app.users.find_one-some _ _ b found) in
            ("You need to log in again using new password.", rw (verified, found, same, late))
      ]

module _ (app : Services) (m : Moment) (email token pass : String) (s s' : Database) (u : User)
    (only : IsOnly (has_email email) u s.users)
    (done : reset_password app m email token pass s ≡ (ok tt, s')) where
  -- The reset was of the account that the email belongs to.
  reset_found :
      (app.users.find_one (has_email email) s.users ≡ some u)
      × (x : User) × (app.users.save (reset_user app m u pass) s.users ≡ (ok x, s'.users))
  reset_found =
      let r = reset_password-IsReset app m email token pass s s' done in
      let same : r.account ≡ u =
        IsOnly-eq _ u r.account s.users only (app.users.find_one-some _ _ r.account r.found) in
      (rw (← same) r.found, r.saved, rw (← same) r.stored)

  reset-IsOnly : IsOnly (has_email email) (reset_user app m u pass) s'.users
  reset-IsOnly =
      let (found, x, stored) = reset_found in
      save-IsOnly app.users (has_email email) s.users s'.users u (reset_user app m u pass) x found
        refl only stored

  new_login_found :
      app.users.find_one (λ q. q.email == email && is_some q.encrypted_password) s'.users
      ≡ some (reset_user app m u pass)
  new_login_found =
      let (found, x, stored) = reset_found in
      let own = (app.users.find_one-some (has_email email) s.users u found).1 in
      let (b, again) =
        save-found-again app.users (has_email email)
          (λ q. q.email == email && is_some q.encrypted_password) s.users s'.users u
          (reset_user app m u pass) x found refl stored (rw own) in
      let (mem, holds) = app.users.find_one-some _ s'.users b again in
      let same : b ≡ reset_user app m u pass =
        IsOnly-eq _ _ b s'.users reset-IsOnly (mem, ground arith) in
      rw (← same) again

  -- After a reset of the password every refresh token of the account whose time of issue, in whole
  -- seconds, is half a second or more before the reset is refused. The email belongs to one account.
  pub reset_password-revokes :
      (claims : Claims) (old : String)
      → app.verify_token old ≡ ok claims
      → claims.email ≡ email
      → claims.iat * 1000 + 500 ≤ m.now
      → (x : String) × (refresh_token app old s' ≡ (err (unauthorized x), s'))
  reset_password-revokes claims old verified same before =
      refresh_token_refused app claims old s' (reset_user app m u pass) verified
        (rw same reset-IsOnly) (ground arith)

  -- After a reset of the password the new password lets the user in, if the account is verified.
  pub reset_password-validate_password :
      (t : ℕ)
      → u.verified_at ≡ some t
      → validate_password app email pass s' ≡ (ok (reset_user app m u pass), s')
  unfolding validate_password
  reset_password-validate_password t verified = rw (new_login_found, verified, app.compare-hash)
