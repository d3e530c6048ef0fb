-- ===== src/User/Password/Change.antt =====
-- What it takes to change a password.
use aura_explorer_api.Prelude.{
  ℕ, ◌≡◌, ◌⊎◌, refl, subst, String, true, false, Option, none, some, arith, ◌==◌, nat_eq, truthy,
  text_or_empty,
}
use aura_explorer_api.Exec.{ok, pure, ◌>>◌}
use aura_explorer_api.Exec.Inversion.{or_raise-eq-ok, bind-eq-ok}
use aura_explorer_api.Entities.{google, password, provider_eq, User}
use aura_explorer_api.Account.{Database, Moment, Services, on_users, on_users-eq-ok}
use aura_explorer_api.User.Password.{to_seconds, new_password, change_password}

module _ (app : Services) (m : Moment) (old : Option String) (pass : String) where
  -- A first password for an account of Google, or a new one for the owner of the old one.
  abbrev pub MayChange : User → Type 0
  MayChange u =
      ((u.provider ≡ some google) × (u.encrypted_password ≡ none))
      ⊎ ((u.provider ≡ some password)
          × (truthy old ≡ true)
          × (app.compare (text_or_empty old) u.encrypted_password ≡ ok true)
          × (app.compare pass u.encrypted_password ≡ ok false))

  pub new_password_lem :
      (u u' : User) (s s' : Database)
      → new_password app m u old pass s ≡ (ok u', s')
      → MayChange u
        × (s' ≡ s)
        × (u'.id ≡ u.id)
        × (u'.encrypted_password ≡ some (app.hash m.salt pass))
        × (u'.provider ≡ some password)
  unfolding new_password
  new_password_lem u u' s s' h = ground arith

  pub new_password_state : (u : User) (s : Database) → (new_password app m u old pass s).1 ≡ s
  unfolding new_password
  new_password_state u s = ground arith

  -- What a change of password that succeeded has found and done.
  abbrev pub IsChanged : ℕ → Database → Database → Type 0
  IsChanged i s s' =
      (u : User) × (u' : User) × (x : User) × (app.users.find_one (λ q. q.id == i) s.users ≡ some u)
      × MayChange u
      × (u'.encrypted_password ≡ some (app.hash m.salt pass))
      × (u'.last_required_login ≡ some (to_seconds m.now))
      × (u'.id ≡ u.id)
      × (app.users.save u' s.users ≡ (ok x, s'.users))
      × (s' ≡ record s { users = s'.users })

  saved_change :
      (i : ℕ) (u v : User) (s s' : Database)
      → app.users.find_one (λ q. q.id == i) s.users ≡ some u
      → MayChange u
      → v.encrypted_password ≡ some (app.hash m.salt pass)
      → v.id ≡ u.id
      → (on_users (app.users.save (record v { last_required_login = some (to_seconds m.now) }))
            >> pure tt)
          s
        ≡ (ok tt, s')
      → IsChanged i s s'
  saved_change i u v s s' found may hash id h =
      let v' = record v { last_required_login = some (to_seconds m.now) } in
      let (x, t, stored, e) = on_users-eq-ok (app.users.save v') (pure tt) s s' tt h in
      let same : s' ≡ record s { users = t } = cc in
      rw same (u, v', x, found, may, hash, refl, id, stored, refl)

  -- A change of password that succeeds was allowed, and puts the new password in place of the old
  -- one; it also requires a new login.
  pub change_password_sound :
      (i : ℕ) (s s' : Database)
      → change_password app m i old pass s ≡ (ok tt, s')
      → IsChanged i s s'
  unfolding change_password
  change_password_sound i s s' h =
      let (u, found, h1) = or_raise-eq-ok _ _ _ s s' tt h in
      let (v, s1, changed, h2) = bind-eq-ok (new_password app m u old pass) _ s s' tt h1 in
      let (may, same, id, hash, _) = new_password_lem u v s s1 changed in
      saved_change i u v s s' found may hash id (
        subst
          (λ z.
            (on_users (app.users.save (record v { last_required_login = some (to_seconds m.now) }))
                >> pure tt)
              z
            ≡ (ok tt, s'))
          same h2)
