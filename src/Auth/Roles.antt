-- ===== src/Auth/Roles.antt =====
-- Who gets in: the roles at the admin site, banned users, and the guard of a route.
use mathlib.Core.List.{Memᴰ}
use aura_explorer_api.Prelude.{
  ◌*◌, ◌≡◌, ◌≢◌, ◌↔◌, inl, inr, refl, String, true, false, Option, none, some, List, [], ◌∷◌, arith,
  ◌==◌, nat_eq, is_some, Bool-cases, Option-cases, string_eq,
}
use aura_explorer_api.Exec.{Result, ok, pure, lift, bad_request, message, ◌>>◌}
use aura_explorer_api.Exec.Inversion.{or_raise-eq-ok, bind-eq-ok, rethrow-eq-ok}
use aura_explorer_api.Entities.{
  Role, plain, banned, role_eq, Site, main_site, admin_site, site_eq, User,
}
use aura_explorer_api.Account.{Claims, Database, Moment, Services}
use aura_explorer_api.User.{check_role, later_than, save_user}
use aura_explorer_api.Auth.{Principal, validate_payload, match_roles, can_activate}
use aura_explorer_api.Auth.Google.{
  Profile, authenticated, finish, complete, authenticate, find_or_create, ensure_verified,
}

-- `checkRole` lets exactly these users in.
abbrev pub Admitted : Site → User → Type 0
Admitted main_site u = u.role ≢ some banned
Admitted admin_site u = (u.role ≢ some banned) × (u.role ≢ some plain)

check_role-Admitted :
    {S : Type 0} (u : User) (site : Site) (s s' : S)
    → check_role (some u) site s ≡ (ok tt, s')
    → Admitted site u × (s' ≡ s)
unfolding check_role
check_role-Admitted u main_site s s' h = ground arith
check_role-Admitted u admin_site s s' h = ground arith

-- An access token lets a request in only if its user is there, is not banned, and has not been
-- required to log in since the token was issued; then the request is that user's, and nothing is
-- written.
pub validate_payload_sound :
    (app : Services) (claims : Claims) (s s' : Database) (p : Principal)
    → validate_payload app claims s ≡ (ok p, s')
    → (u : User) × (app.users.find_one (λ q. q.id == claims.sub) s.users ≡ some u)
      × (u.role ≢ some banned)
      × (later_than u.last_required_login (claims.iat * 1000) ≡ false)
      × (p.id ≡ claims.sub)
      × (s' ≡ s)
unfolding validate_payload
validate_payload_sound app claims s s' p h =
    elim (Option-cases (app.users.find_one (λ q. q.id == claims.sub) s.users)) [
      | inl missing ↦ let h' = rw missing at h in cc
      | inr (u, found) ↦
          let h' = rw found at h in
          (u, found, ground arith, ground arith, ground arith, ground arith)
    ]

match_roles_sound :
    (roles : List Role) (r : Role) → match_roles roles (some r) ≡ true → Memᴰ r roles
unfolding match_roles
match_roles_sound [] r h = cc
match_roles_sound (q ∷ roles) r h = elim (Bool-cases (role_eq.beq r q)) [
  | inl same ↦ Memᴰ.head ((role_eq.beq_iff r q).0 same)
  | inr other ↦ Memᴰ.tail (match_roles_sound roles r (rw other at h))
]

match_roles_complete :
    (roles : List Role) (r : Role) → Memᴰ r roles → match_roles roles (some r) ≡ true
unfolding match_roles
match_roles_complete [] r m = elim m [ ]
match_roles_complete (q ∷ roles) r (Memᴰ.head e) = rw ((role_eq.beq_iff r q).1 e)
match_roles_complete (q ∷ roles) r (Memᴰ.tail m) = ground (arith, match_roles_complete roles r m)

match_roles-none : (roles : List Role) → match_roles roles none ≡ false
unfolding match_roles
match_roles-none [] = refl
match_roles-none (q ∷ roles) = match_roles-none roles

module _ (app : Services) (roles : List Role) (email : String) (s : Database) where
  -- The user of a request has one of the roles that the route requires.
  abbrev pub HasRole : Type 0
  HasRole =
      (u : User) × (r : Role) × (app.users.find_one (λ q. q.email == email) s.users ≡ some u)
      × (u.role ≡ some r)
      × Memᴰ r roles

  can_activate_sound : can_activate app (some roles) email s ≡ (ok true, s) → HasRole
  unfolding can_activate
  can_activate_sound h = elim (Option-cases (app.users.find_one (λ q. q.email == email) s.users)) [
    | inl missing ↦ let h' = rw (missing, match_roles-none roles) at h in cc
    | inr (u, found) ↦
        let h' = rw found at h in
        elim (Option-cases u.role) [
          | inl nothing ↦ let h2 = rw (nothing, match_roles-none roles) at h' in cc
          | inr (r, role) ↦
              let h2 = rw role at h' in (u, r, found, role, match_roles_sound roles r (cc))
        ]
  ]

  -- A route that requires roles is open exactly to the users that are there and have one of them.
  pub can_activate_iff : (can_activate app (some roles) email s ≡ (ok true, s)) ↔ HasRole
  unfolding can_activate
  can_activate_iff = (
    can_activate_sound,
    λ (u, r, found, role, mem). rw (found, role, match_roles_complete roles r mem),
  )

module _ (app : Services) (verify : String → Result Profile) (admin_email : String)
    (m : Moment) where
  ensure_verified_lem :
      (u u' : User) (s s' : Database)
      → ensure_verified app verify admin_email m u s ≡ (ok u', s')
      → is_some u'.verified_at ≡ true
  ensure_verified_lem u u' s s' h = elim (Bool-cases (is_some u.verified_at)) [
    | inl verified ↦ let h' = rw verified at h in let same : u ≡ u' = cc in rw (← same) verified
    | inr open_ ↦
        let (x, s1, saved, h') =
          bind-eq-ok (save_user app (record u { verified_at = some m.now }))
            (λ _. pure (record u { verified_at = some m.now })) s s' u' (rw open_ at h) in
        ground arith
  ]

  finish_sound :
      (given u : User) (s s' : Database)
      → finish app verify admin_email m admin_site given s ≡ (ok u, s')
      → Admitted admin_site u × (is_some u.verified_at ≡ true)
  finish_sound given u s s' h =
      let (v, s1, verified, h1) =
        bind-eq-ok (ensure_verified app verify admin_email m given)
          (λ v. check_role (some v) admin_site >> pure v) s s' u h in
      let (done, s2, checked, h2) =
        bind-eq-ok (check_role (some v) admin_site) (λ _. pure v) s1 s' u h1 in
      let same : v ≡ u = cc in
      let (may, _) = check_role-Admitted v admin_site s1 s2 checked in
      rw (← same) (may, ensure_verified_lem given v s s1 verified)

  complete_sound :
      (p : Profile) (found : Option User) (u : User) (s s' : Database)
      → complete app verify admin_email m p admin_site found s ≡ (ok u, s')
      → Admitted admin_site u × (is_some u.verified_at ≡ true)
  complete_sound p found u s s' h =
      let (created, s1, _, h1) =
        bind-eq-ok (find_or_create app verify admin_email m p admin_site found) _ s s' u h in
      let (given, _, h2) = or_raise-eq-ok _ created _ s1 s' u h1 in finish_sound given u s1 s' h2

  -- Who comes in at the admin site by a Google account is verified, not banned and no plain user.
  pub authenticate_admin :
      (token : String) (s s' : Database) (u : User)
      → authenticate app verify admin_email m token admin_site s ≡ (ok u, s')
      → (u.role ≢ some banned) × (u.role ≢ some plain) × (is_some u.verified_at ≡ true)
  unfolding authenticate
  authenticate_admin token s s' u h =
      let h0 =
        rethrow-eq-ok (authenticated app verify admin_email m token admin_site)
          (λ e. bad_request (message e)) s s' u h in
      let (p, s1, _, h1) = bind-eq-ok (lift (verify token)) _ s s' u h0 in
      let ((not_banned, not_plain), verified) = complete_sound p _ u s1 s' h1 in
      (not_banned, not_plain, verified)
