-- ===== src/Tests/Accounts.antt =====
-- The theorems on mails and passwords at an account of the small installation.
use aura_explorer_api.Prelude.{
  String, ◌≡◌, ◌⊎◌, ◌≤◌, refl, none, some, [], ◌∷◌, length, arith, nat_eq, string_eq,
}
use aura_explorer_api.Exec.{Exception, Result, ok, err, bad_request, unauthorized, failure}
use aura_explorer_api.Entities.{User}
use aura_explorer_api.Account.{Database}
use aura_explorer_api.User.Mail.Limit.{resends, resends_daily_limit}
use aura_explorer_api.User.Password.{reset_password, change_password, reset_user}
use aura_explorer_api.Auth.{refresh_token, validate_password}
use aura_explorer_api.Auth.Sessions.{reset_password-revokes, reset_password-validate_password}
use aura_explorer_api.User.Mail.{create_user_with_password}
use aura_explorer_api.User.Mail.Registration.{
  IsRegistered, IsOrphaned, create_user_with_password-cases,
}
use aura_explorer_api.Tests.{app, ann, activity, with_user, at_time, issued}

-- Ann as she is before she follows the link of her first mail.
abbrev fresh : User
fresh = record ann { verified_at = none }

-- Of three requests the last goes beyond the fifth mail of the day.
resends_daily_limit_example :
    length
      (resends app fresh
        (at_time 400000 ∷ at_time 800000 ∷ at_time 1200000 ∷ [])
        (with_user fresh)).mail_jobs
    ≤ 2
resends_daily_limit_example =
    resends_daily_limit app fresh (λ r t e h. cc) 0
      (at_time 400000 ∷ at_time 800000 ∷ at_time 1200000 ∷ []) (activity 3) (with_user fresh)
      (λ h. refl, tt) ((refl, omega arith), ((refl, omega arith), ((refl, omega arith), tt)))

abbrev once_reset : Database
once_reset = record (with_user ann) { users = reset_user app (at_time 5000) ann "new-Pass2" ∷ [] }

reset_done :
    reset_password app (at_time 5000) "ann@aura.network" "r" "new-Pass2" (with_user ann)
    ≡ (ok tt, once_reset)
unfolding reset_password
reset_done = refl

reset_password-revokes_example :
    (x : String) × (refresh_token app "refresh" once_reset ≡ (err (unauthorized x), once_reset))
reset_password-revokes_example =
    reset_password-revokes app (at_time 5000) "ann@aura.network" "r" "new-Pass2" (with_user ann)
      once_reset ann (λ h. refl, tt) reset_done issued "refresh" refl refl (omega arith)

reset_password-validate_password_example :
    validate_password app "ann@aura.network" "new-Pass2" once_reset
    ≡ (ok (reset_user app (at_time 5000) ann "new-Pass2"), once_reset)
reset_password-validate_password_example =
    reset_password-validate_password app (at_time 5000) "ann@aura.network" "r" "new-Pass2"
      (with_user ann) once_reset ann (λ h. refl, tt) reset_done 10 refl

abbrev no_token : User
no_token = record ann { reset_password_token = none }

abbrev changed : User
changed = record ann { encrypted_password = some "new-Pass2"; last_required_login = some 5000 }

change_done :
    change_password app (at_time 5000) 1 (some "old-Pass1") "new-Pass2" (with_user ann)
    ≡ (ok tt, with_user changed)
unfolding change_password
change_done = refl

-- The database refuses the COMMIT of the registration.
abbrev refused : Result (Unit {0})
refused = err (failure "Deadlock found")

abbrev registration_of_bob : Result (Unit {0}) × Database
registration_of_bob =
    create_user_with_password app refused (at_time 5000) "bob@aura.network" "Bob-Pass3"
      (with_user ann)

create_user_with_password-cases_example :
    (registration_of_bob ≡ (
      err (bad_request "We have some errors when register your account. Please try again later."),
      with_user ann,
    ))
    ⊎ (((e : Exception) × (refused ≡ err e)
          × (registration_of_bob.0
              ≡ err (
                  bad_request
                    "We have some errors when register your account. Please try again later."))
          × IsOrphaned app refused
              (at_time 5000)
              "bob@aura.network"
              "Bob-Pass3"
              (with_user ann)
              registration_of_bob.1)
        ⊎ ((registration_of_bob.0 ≡ ok tt)
            × (refused ≡ ok tt)
            × IsRegistered app refused
                (at_time 5000)
                "bob@aura.network"
                "Bob-Pass3"
                (with_user ann)
                registration_of_bob.1))
create_user_with_password-cases_example =
    create_user_with_password-cases app refused (at_time 5000) "bob@aura.network" "Bob-Pass3"
      (with_user ann)

create_user_with_password_test :
    (registration_of_bob.1.users ≡ ann ∷ []) × (length registration_of_bob.1.mail_jobs ≡ 1)
unfolding create_user_with_password
create_user_with_password_test = (refl, refl)
