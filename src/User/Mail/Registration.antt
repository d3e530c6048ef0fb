-- ===== src/User/Mail/Registration.antt =====
-- Registration with a password: `createUserWithPassword` of src/components/user/user.service.ts is
-- one transaction.
use aura_explorer_api.Prelude.{◌≡◌, ◌⊎◌, inl, inr, refl, String, none, some, [], ◌∷◌, ◌++◌}
use aura_explorer_api.Exec.{Exception, Result, ok, err, bad_request, Result-cases}
use aura_explorer_api.Repository.Rows.{Inserted-cases}
use aura_explorer_api.Entities.{
  User, UserActivity, plain, password, send_mail_verify, user_keyed, activity_keyed,
}
use aura_explorer_api.Account.{Database, Moment, Services, Queued-cases}
use aura_explorer_api.User.{new_user, verification_token_length}
use aura_explorer_api.User.Mail.{
  mail_job, new_activity, save_new_user, rolled_back, create_user_with_password,
}

module _ (app : Services) (commit : Result (Unit {0})) (m : Moment) (email pass : String)
    (s : Database) where
  abbrev pub registered : User
  registered = record new_user {
    encrypted_password = some (app.hash m.salt pass);
    email = email;
    provider = some password;
    role = some plain;
    verification_token = some (m.random_token verification_token_length);
  }

  -- The user, its first activity and its mail are there together.
  abbrev pub IsRegistered : Database → Type 0
  IsRegistered s' =
      (u : User) × (a : UserActivity) × (u ≡ record registered { id = u.id })
      × (a ≡ record {
        id = a.id;
        type = send_mail_verify;
        send_mail_attempt = 1;
        last_send_mail_attempt = some m.now;
        total = 0;
        user_id = some u.id;
        explorer_id = none;
      })
      × (s' ≡ record s {
        users = s.users ++ u ∷ [];
        activities = s.activities ++ a ∷ [];
        mail_jobs =
            s.mail_jobs ++ record { user = u; url = none; mail_type = send_mail_verify } ∷ [];
      })

  -- The mail of a user is queued, and there is no such user.
  abbrev pub IsOrphaned : Database → Type 0
  IsOrphaned s' =
      (u : User) × (u ≡ record registered { id = u.id })
      × (s' ≡ record s {
        mail_jobs =
            s.mail_jobs ++ record { user = u; url = none; mail_type = send_mail_verify } ∷ [];
      })

  -- The transaction's body fails, or all of it is done.
  save_new_user-cases :
      ((e : Exception) × ((save_new_user app m registered s).0 ≡ err e)
        × ((save_new_user app m registered s).1.mail_jobs ≡ s.mail_jobs)
        × ((save_new_user app m registered s).1.explorers ≡ s.explorers)
        × ((save_new_user app m registered s).1.notification_tokens ≡ s.notification_tokens))
      ⊎ (((save_new_user app m registered s).0 ≡ ok tt)
          × IsRegistered (save_new_user app m registered s).1)
  save_new_user-cases =
      elim (Inserted-cases user_keyed registered s.users _
        (app.users.insert_lem registered s.users)) [
          | inl (e, failed) ↦ rw failed (inl (e, refl, refl, refl, refl))
          | inr (u, inserted, same, _) ↦
              let counter = new_activity send_mail_verify 1 (some m.now) (some u.id) in
              elim (Inserted-cases activity_keyed counter s.activities _
                (app.activities.insert_lem counter s.activities)) [
                  | inl (e, failed) ↦ rw (inserted, failed) (inl (e, refl, refl, refl, refl))
                  | inr (a, counted, like, _) ↦
                      let job = mail_job u none send_mail_verify in
                      elim (Queued-cases job s.mail_jobs _ (app.enqueue_lem job s.mail_jobs)) [
                        | inl (e, failed) ↦
                            rw (inserted, counted, failed) (inl (e, refl, refl, refl, refl))
                        | inr queued ↦
                            rw (inserted, counted, queued) (inr (refl, (u, a, same, like, refl)))
                      ]
                ]
        ]

  rolled_back-cases :
      let o = rolled_back app s commit (save_new_user app m registered) s in
      ((e : Exception) × (o ≡ (err e, s)))
      ⊎ (((e : Exception) × (o.0 ≡ err e) × (commit ≡ err e) × IsOrphaned o.1)
          ⊎ ((o.0 ≡ ok tt) × (commit ≡ ok tt) × IsRegistered o.1))
  rolled_back-cases = elim save_new_user-cases [
    | inl (e, failed, mails, explorers, tokens) ↦
        inl (e, rw (failed, mails, explorers, tokens) refl)
    | inr (done, all) ↦ elim (Result-cases commit) [
      | inr (e, refused) ↦
          let (u, a, same, counted, after) = all in
          inr (inl (e, rw (done, refused) refl, refused, (u, same, rw (done, refused, after) refl)))
      | inl (x, there) ↦ inr (inr (rw (done, there) refl, there, rw (done, there) all))
    ]
  ]

  -- A registration does one of three things. It registers the user, counts the first mail and queues
  -- it, and the COMMIT has succeeded; or it fails with one message and changes nothing; or, where the
  -- COMMIT fails, it fails with that message and leaves the mail queued, without the user.
  pub create_user_with_password-cases :
      let o = create_user_with_password app commit m email pass s in
      (o ≡ (
        err (bad_request "We have some errors when register your account. Please try again later."),
        s,
      ))
      ⊎ (((e : Exception) × (commit ≡ err e)
            × (o.0
                ≡ err (
                    bad_request
                      "We have some errors when register your account. Please try again later."))
            × IsOrphaned o.1)
          ⊎ ((o.0 ≡ ok tt) × (commit ≡ ok tt) × IsRegistered o.1))
  unfolding create_user_with_password
  create_user_with_password-cases = elim rolled_back-cases [
    | inl (e, failed) ↦ rw failed (inl refl)
    | inr (inl (e, failed, refused, orphaned)) ↦ rw failed (inr (inl (e, refused, refl, orphaned)))
    | inr (inr (done, there, all)) ↦ rw done (inr (inr (refl, there, all)))
  ]
