-- ===== src/User/Mail.antt =====
-- The mails of UserService: registration, the limit on mails, and the mails to verify an account and
-- to reset a password. A method that changes an entity in memory before it throws is an action on
-- that entity, so that what was not saved is not in the database.
pub mod Limit
pub mod Registration
use aura_explorer_api.Prelude.{
  ℕ, String, Bool, true, false, not, Option, none, some, ◌&&◌, ◌+◌, ◌-◌, ◌==◌, nat_eq, string_eq,
  is_value, is_some, if◌then◌else◌, ltb, leb,
}
use aura_explorer_api.Exec.{
  Exception, bad_request, entity_not_found, failure, message, Result, ok, err, Exec, pure, raise,
  gets, lift, or_raise, raise_if, continue, ◌>>=◌, ◌>>◌, try_catch,
}
use aura_explorer_api.Entities.{
  plain, password, provider_eq, ActivityType, send_mail_verify, send_mail_reset_password,
  activity_eq, User, UserActivity, Explorer,
}
use aura_explorer_api.Account.{
  MailJob, Database, Moment, Services, on_users, on_activities, on_mail,
}
use aura_explorer_api.User.{
  new_user, verification_token_length, reset_password_token_length, find_explorer,
}
use aura_explorer_api.Prelude.Text.{◌<>◌}

-- A date that may be null, as a time: `new Date(null)` and a comparison with null take it for 0.
abbrev pub time_of : Option ℕ → ℕ
time_of none = 0
time_of (some t) = t

abbrev pub five_minutes : ℕ
five_minutes = 300000

abbrev pub five_times : ℕ
five_times = 5

unfoldable pub increase_send_mail_attempt : Moment → UserActivity → UserActivity
increase_send_mail_attempt m a = record a {
  send_mail_attempt =
      if ltb (time_of a.last_send_mail_attempt) m.midnight then 1 else a.send_mail_attempt + 1;
  last_send_mail_attempt = some m.now;
}

abbrev support_email : String
support_email = "support@aura.netwwork"

abbrev pub daily_limit_message : String → String
daily_limit_message type =
    "You have reached the maximum number of "
    <> (type
        <> (" email sent per day. Kindly come back tomorrow or contact us via mailbox ["
            <> (support_email <> "] for special case!")))

-- `lastSentMail > fiveMinutesAgo` is written `now < lastSentMail + 5 minutes`.
unfoldable pub limit_send_mail : Moment → String → Exec UserActivity (Unit {0})
limit_send_mail m type a =
    let a' = increase_send_mail_attempt m a in
    if ltb m.now (time_of a.last_send_mail_attempt + five_minutes)
    then (
      err (
          bad_request
            "Only can do resend email after 5 minute, please wait and click Resend again."),
      a',
    )
    else if ltb five_times a'.send_mail_attempt
    then (err (bad_request (daily_limit_message type)), a')
    else (ok tt, a')

abbrev pub mail_job : User → Option String → ActivityType → MailJob
mail_job u url type = record { user = u; url = url; mail_type = type }

abbrev pub new_activity : ActivityType → ℕ → Option ℕ → Option ℕ → UserActivity
new_activity type attempt last owner = record {
  id = 0;
  type = type;
  send_mail_attempt = attempt;
  last_send_mail_attempt = last;
  total = 0;
  user_id = owner;
  explorer_id = none;
}

abbrev pub is_activity : ℕ → ActivityType → UserActivity → Bool
is_activity i type a = is_value a.user_id i && a.type == type

module _ (app : Services) where
  -- The rows that the transaction saves: the user, and the activity by the relation's cascade.
  abbrev pub save_new_user : Moment → User → Exec Database (Unit {0})
  save_new_user m u = do
    saved ← on_users (app.users.insert u)
    on_activities
        (app.activities.insert (new_activity send_mail_verify 1 (some m.now) (some saved.id)))
    on_mail (app.enqueue (mail_job saved none send_mail_verify))

  -- A failed transaction leaves the tables as they were, whether its body fails or its COMMIT, which
  -- follows the body. What the body has queued stays queued.
  abbrev pub settled : Database → Result (Unit {0}) → Result (Unit {0}) → Exec Database (Unit {0})
  settled before (err e) commit s =
      (err e, record s { users = before.users; activities = before.activities })
  settled before (ok x) (err e) s =
      (err e, record s { users = before.users; activities = before.activities })
  settled before (ok x) (ok y) s = (ok x, s)

  abbrev pub rolled_back :
      Database → Result (Unit {0}) → Exec Database (Unit {0}) → Exec Database (Unit {0})
  rolled_back before commit body s = settled before (body s).0 commit (body s).1

  -- `commit` is what the database answers to the COMMIT of the transaction.
  unfoldable pub create_user_with_password :
      Result (Unit {0}) → Moment → String → String → Exec Database (Unit {0})
  create_user_with_password commit m email pass s =
      let u = record new_user {
        encrypted_password = some (app.hash m.salt pass);
        email = email;
        provider = some password;
        role = some plain;
        verification_token = some (m.random_token verification_token_length);
      } in
      try_catch (rolled_back s commit (save_new_user m u))
        (λ _.
          raise
            (bad_request "We have some errors when register your account. Please try again later."))
        s

  abbrev resend : Moment → User → Exec Database (Unit {0})
  resend m u = do
    found ← gets (λ s. app.activities.find_one (is_activity u.id send_mail_verify) s.activities)
    activity ←
        or_raise (failure "Cannot read properties of undefined (reading 'lastSendMailAttempt')")
          found
    lift (limit_send_mail m "verification" activity).0
    on_mail (app.enqueue (mail_job u none send_mail_verify))
    on_activities (app.activities.save (limit_send_mail m "verification" activity).1)
    pure tt

  unfoldable pub resend_verification_email : Moment → Option User → Exec Database (Unit {0})
  resend_verification_email m given = do
    u ← or_raise (bad_request "User have not registered.") given
    raise_if (is_some u.verified_at) (bad_request "User already verified.")
    raise_if (not (is_value u.provider password))
        (bad_request "User have not registered with password.")
    try_catch (resend m u) (λ e. raise (bad_request (message e)))

  abbrev six_minutes : ℕ
  six_minutes = 360000

  -- An activity that is there, or a new one, which is saved.
  pub find_or_create_user_activity : Moment → User → ActivityType → Exec Database UserActivity
  find_or_create_user_activity m u type s =
      elim (app.activities.find_one (is_activity u.id type) s.activities) [
        | some a ↦ (ok a, s)
        | none ↦
            on_activities
              (app.activities.insert (new_activity type 0 (some (m.now - six_minutes)) (some u.id)))
              s
      ]

  pub send_reset_password_email : Moment → String → Option User → Exec Database (Unit {0})
  send_reset_password_email m chain given = do
    u ← or_raise (bad_request "User have not registered.") given
    raise_if (not (is_some u.verified_at)) (bad_request "EU001")
    let u' = record u { reset_password_token = some (m.random_token reset_password_token_length) }
    explorer ← find_explorer app chain
    activity ← find_or_create_user_activity m u' send_mail_reset_password
    lift (limit_send_mail m "password recovery" activity).0
    on_mail (app.enqueue (mail_job u' (some explorer.explorer_url) send_mail_reset_password))
    on_users (app.users.save u')
    on_activities (app.activities.save (limit_send_mail m "password recovery" activity).1)
    pure tt
