-- ===== src/Tests/Access.antt =====
-- The theorems on who gets in.
use aura_explorer_api.Prelude.{◌≡◌, ◌≢◌, refl, String, true, some, nat_eq, is_some, string_eq}
use aura_explorer_api.Exec.{Result, ok}
use aura_explorer_api.Entities.{User, plain, admin, banned, admin_site}
use aura_explorer_api.User.{check_role, check_last_required_login}
use aura_explorer_api.Auth.{validate_payload}
use aura_explorer_api.Auth.Google.{Profile, authenticate}
use aura_explorer_api.Auth.Roles.{authenticate_admin}
use aura_explorer_api.Tests.{app, ann, with_user, at_time, issued}

payload_done :
    validate_payload app issued (with_user ann)
    ≡ (ok (record { id = 1; email = "ann@aura.network" }), with_user ann)
unfolding validate_payload check_role check_last_required_login
payload_done = refl

abbrev verify_id_token : String → Result Profile
verify_id_token token = ok (record { email = "ann@aura.network"; name = "Ann" })

abbrev chief : User
chief = record ann { role = some admin }

google_done :
    authenticate app verify_id_token "root@aura.network"
      (at_time 5000)
      "g"
      admin_site
      (with_user chief)
    ≡ (ok chief, with_user chief)
unfolding authenticate check_role
google_done = refl

authenticate_admin_example :
    (chief.role ≢ some banned) × (chief.role ≢ some plain) × (is_some chief.verified_at ≡ true)
authenticate_admin_example =
    authenticate_admin app verify_id_token "root@aura.network" (at_time 5000) "g" (with_user chief)
      (with_user chief) chief google_done
