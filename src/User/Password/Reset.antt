-- ===== src/User/Password/Reset.antt =====
-- What it takes to reset a password, and what a reset leaves behind.
use aura_explorer_api.Prelude.{
  ◌≡◌, ◌⊎◌, inl, inr, refl, String, false, Option, none, some, arith, ◌==◌, string_eq, eq_iff,
}
use aura_explorer_api.Exec.{ok, pure, ◌>>◌}
use aura_explorer_api.Exec.Inversion.{or_raise-eq-ok, raise_if-eq-ok}
use aura_explorer_api.Entities.{send_mail_reset_password, User, UserActivity}
use aura_explorer_api.Account.{Database, Moment, Services, on_users, on_users-eq-ok}
use aura_explorer_api.User.Mail.{is_activity}
use aura_explorer_api.User.Password.{token_mismatch, link_expired, reset_user, reset_password}

module _ (app : Services) (m : Moment) (email token pass : String) (s : Database) where
  abbrev last_mail : User → Option UserActivity
  last_mail u = app.activities.find_one (is_activity u.id send_mail_reset_password) s.activities

  -- What a reset that succeeded has found and done.
  pub record IsReset (s' : Database) : Type 0 where
    pub account : User
    pub saved : User
    pub found : app.users.find_one (λ u. u.email == email) s.users ≡ some account
    pub matched :
        (account.reset_password_token ≡ none) ⊎ (account.reset_password_token ≡ some token)
    pub in_time : link_expired m.now (last_mail account) ≡ false
    pub stored : app.users.save (reset_user app m account pass) s.users ≡ (ok saved, s'.users)
    pub others : s' ≡ record s { users = s'.users }

  matched_of_mismatch :
      (o : Option String) → token_mismatch o token ≡ false → (o ≡ none) ⊎ (o ≡ some token)
  matched_of_mismatch none h = inl refl
  matched_of_mismatch (some t) h = inr (ground (arith, eq_iff t token))

  -- The last step of a reset, once the user is found and the checks have passed.
  saved-IsReset :
      (u : User) (s' : Database)
      → app.users.find_one (λ q. q.email == email) s.users ≡ some u
      → token_mismatch u.reset_password_token token ≡ false
      → link_expired m.now (last_mail u) ≡ false
      → (on_users (app.users.save (reset_user app m u pass)) >> pure tt) s ≡ (ok tt, s')
      → IsReset s'
  saved-IsReset u s' found right in_time h =
      let (x, t, stored, e) =
        on_users-eq-ok (app.users.save (reset_user app m u pass)) (pure tt) s s' tt h in
      let same : s' ≡ record s { users = t } = cc in
      rw same (record {
        account = u;
        saved = x;
        found = found;
        matched = matched_of_mismatch u.reset_password_token right;
        in_time = in_time;
        stored = stored;
        others = refl;
      })

  -- A reset that succeeds was of the account that the email finds, whose stored token was null or the
  -- given one, and whose link had not expired. It stores the new password, clears the token, requires
  -- a new login, and touches nothing but the users.
  pub reset_password-IsReset :
      (s' : Database) → reset_password app m email token pass s ≡ (ok tt, s') → IsReset s'
  unfolding reset_password
  reset_password-IsReset s' h =
      let (u, found, h1) = or_raise-eq-ok _ _ _ s s' tt h in
      let (right, h2) = raise_if-eq-ok _ _ _ s s' tt h1 in
      let (in_time, h3) = raise_if-eq-ok _ _ _ s s' tt h2 in
      saved-IsReset u s' found right in_time h3
