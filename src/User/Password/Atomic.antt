-- ===== src/User/Password/Atomic.antt =====
-- A request on a password that fails leaves the database as it was.
use aura_explorer_api.Prelude.{
  ℕ, ◌≡◌, ◌⊎◌, inl, inr, refl, String, Bool, Option, some, ◌==◌, nat_eq, string_eq, Bool-cases,
  Option-cases,
}
use aura_explorer_api.Exec.{ok, Result-cases, Exec, pure, ◌>>◌}
use aura_explorer_api.Repository.Rows.{save-found}
use aura_explorer_api.Entities.{User, send_mail_reset_password}
use aura_explorer_api.Account.{Database, Moment, Services, on_users}
use aura_explorer_api.User.Mail.{is_activity}
use aura_explorer_api.User.Password.{
  to_seconds, token_mismatch, link_expired, reset_user, reset_password, new_password,
  change_password,
}
use aura_explorer_api.User.Password.Change.{new_password_lem, new_password_state}

-- What a request does: it succeeds, or the database is the same.
abbrev pub IsAtomic : Exec Database (Unit {0}) → Database → Type 0
IsAtomic m s = ((m s).0 ≡ ok tt) ⊎ ((m s).1 ≡ s)

module _ (app : Services) (m : Moment) (s : Database) where
  -- Saving a user that was found is atomic.
  save-IsAtomic :
      (w : User → Bool) (u v : User)
      → app.users.find_one w s.users ≡ some u
      → v.id ≡ u.id
      → IsAtomic (on_users (app.users.save v) >> pure tt) s
  save-IsAtomic w u v found same = elim (save-found app.users w s.users u v found same) [
    | inl (e, failed) ↦ rw failed (inr refl)
    | inr (x, saved) ↦ rw saved (inl refl)
  ]

  -- A reset of a password succeeds, or leaves the database as it was.
  reset_password-IsAtomic :
      (email token pass : String) → IsAtomic (reset_password app m email token pass) s
  unfolding reset_password
  reset_password-IsAtomic email token pass =
      elim (Option-cases (app.users.find_one (λ u. u.email == email) s.users)) [
        | inl missing ↦ rw missing (inr refl)
        | inr (u, found) ↦ elim (Bool-cases (token_mismatch u.reset_password_token token)) [
          | inl wrong ↦ rw (found, wrong) (inr refl)
          | inr right ↦
              let last =
                app.activities.find_one (is_activity u.id send_mail_reset_password) s.activities in
              elim (Bool-cases (link_expired m.now last)) [
                | inl late ↦ rw (found, right, late) (inr refl)
                | inr in_time ↦
                    rw (found, right, in_time)
                      (save-IsAtomic (λ q. q.email == email) u (reset_user app m u pass) found refl)
              ]
        ]
      ]

  -- A change of a password succeeds, or leaves the database as it was.
  change_password-IsAtomic :
      (i : ℕ) (old : Option String) (pass : String) → IsAtomic (change_password app m i old pass) s
  unfolding change_password
  change_password-IsAtomic i old pass =
      elim (Option-cases (app.users.find_one (λ u. u.id == i) s.users)) [
        | inl missing ↦ rw missing (inr refl)
        | inr (u, found) ↦
            let state = new_password_state app m old pass u s in
            elim (Result-cases (new_password app m u old pass s).0) [
              | inr (e, failed) ↦ rw (found, failed, state) (inr refl)
              | inl (v, allowed) ↦
                  let whole : new_password app m u old pass s ≡ (ok v, s) = cc in
                  rw (found, whole)
                    (save-IsAtomic (λ q. q.id == i) u
                      (record v { last_required_login = some (to_seconds m.now) }) found
                      (new_password_lem app m old pass u v s s whole).2)
            ]
      ]

  -- A reset or a change of a password succeeds, or leaves the database as it was.
  pub password_requests-IsAtomic :
      (email token pass : String) (i : ℕ) (old : Option String)
      → IsAtomic (reset_password app m email token pass) s
        × IsAtomic (change_password app m i old pass) s
  password_requests-IsAtomic email token pass i old =
      (reset_password-IsAtomic email token pass, change_password-IsAtomic i old pass)
