-- ===== src/User/Mail/Limit.antt =====
-- The limit on verification mails: what one request does, and how many mails a day can bring.
use aura_explorer_api.Prelude.{
  String, ℕ, ◌+◌, ◌-◌, ◌≤◌, ◌≡◌, refl, ap, sym, subst, true, none, some, List, [], ◌∷◌, ◌++◌, arith,
  ltb, if◌then◌else◌, length, length-append, All, Bool-cases, Option-cases, inl, inr, ◌⊎◌, nat_eq,
  ◌==◌, is_some, is_value, ◌≢◌,
}
use aura_explorer_api.Exec.{Exception, Result, ok, err, Result-cases, pure, ◌>>◌}
use aura_explorer_api.Repository.Rows.{All-mem, All-update_where, save-found}
use aura_explorer_api.Entities.{send_mail_verify, password, provider_eq, User, UserActivity}
use aura_explorer_api.Account.{Database, Moment, Services, Queued-cases, on_mail, on_activities}
use aura_explorer_api.User.Mail.{
  time_of, five_minutes, five_times, increase_send_mail_attempt, limit_send_mail, is_activity,
  mail_job, resend, resend_verification_email,
}

-- The limit lets a request through or throws, and counts the attempt in memory either way.
limit_send_mail_lem :
    (m : Moment) (type : String) (a : UserActivity)
    → ((limit_send_mail m type a).1 ≡ increase_send_mail_attempt m a)
      × (((e : Exception) × ((limit_send_mail m type a).0 ≡ err e))
          ⊎ (((limit_send_mail m type a).0 ≡ ok tt)
              × (time_of a.last_send_mail_attempt + five_minutes ≤ m.now)
              × ((increase_send_mail_attempt m a).send_mail_attempt ≤ five_times)))
unfolding limit_send_mail
limit_send_mail_lem m type a =
    elim (Bool-cases (ltb m.now (time_of a.last_send_mail_attempt + five_minutes))) [
      | inl early ↦ rw early (refl, inl (_, refl))
      | inr due ↦
          elim (Bool-cases (ltb five_times (increase_send_mail_attempt m a).send_mail_attempt)) [
            | inl over ↦ rw (due, over) (refl, inl (_, refl))
            | inr under ↦ rw (due, under) (refl, inr (refl, ground arith, ground arith))
          ]
    ]

module _ (app : Services) (u : User) (m : Moment) (s : Database) where
  -- A request that got through: the limit let it, one mail is queued and the attempt is counted.
  abbrev pub Sent : Database → Type 0
  Sent s' =
      (a : UserActivity) × (app.activities.find_one (is_activity u.id send_mail_verify) s.activities
        ≡ some a)
      × (time_of a.last_send_mail_attempt + five_minutes ≤ m.now)
      × ((increase_send_mail_attempt m a).send_mail_attempt ≤ five_times)
      × (s'.activities ≡ (app.activities.save (increase_send_mail_attempt m a) s.activities).1)
      × (s'.mail_jobs ≡ s.mail_jobs ++ mail_job u none send_mail_verify ∷ [])

  -- The part of `resend` behind the limit, with the activity that is to be saved.
  resend_tail :
      (a : UserActivity)
      → let s' =
          (on_mail (app.enqueue (mail_job u none send_mail_verify))
              >> (on_activities (app.activities.save a) >> pure tt))
            s in
        (s'.1 ≡ s)
        ⊎ ((s'.1.activities ≡ (app.activities.save a s.activities).1)
            × (s'.1.mail_jobs ≡ s.mail_jobs ++ mail_job u none send_mail_verify ∷ []))
  resend_tail a =
      elim (Queued-cases (mail_job u none send_mail_verify) s.mail_jobs _
        (app.enqueue_lem (mail_job u none send_mail_verify) s.mail_jobs)) [
          | inl (e, failed) ↦ rw failed (inl refl)
          | inr queued ↦ elim (Result-cases (app.activities.save a s.activities).0) [
            | inl (r, saved) ↦ rw (queued, saved) (inr (refl, refl))
            | inr (e, failed) ↦ rw (queued, failed) (inr (refl, refl))
          ]
        ]

  resend_lem : ((resend app m u s).1 ≡ s) ⊎ Sent (resend app m u s).1
  resend_lem =
      elim (Option-cases
        (app.activities.find_one (is_activity u.id send_mail_verify) s.activities)) [
          | inl missing ↦ rw missing (inl refl)
          | inr (a, found) ↦
              let (counted, cases) = limit_send_mail_lem m "verification" a in
              elim cases [
                | inl (e, refused) ↦ rw (found, refused) (inl refl)
                | inr (passed, due, under) ↦
                    rw (found, passed, counted)
                      (elim (resend_tail (increase_send_mail_attempt m a)) [
                        | inl same ↦ inl same
                        | inr (saved, queued) ↦ inr (a, refl, due, under, saved, queued)
                      ])
              ]
        ]

  resend_verification_email_lem :
      let s' = (resend_verification_email app m (some u) s).1 in (s' ≡ s) ⊎ Sent s'
  unfolding resend_verification_email
  resend_verification_email_lem = elim (Bool-cases (is_some u.verified_at)) [
    | inl verified ↦ rw verified (inl refl)
    | inr open_ ↦ elim (Bool-cases (is_value u.provider password)) [
      | inr other ↦ rw (open_, other) (inl refl)
      | inl own ↦
          rw (open_, own)
            (elim (Result-cases (resend app m u s).0) [
              | inl (r, done) ↦ rw done resend_lem
              | inr (e, failed) ↦ rw failed resend_lem
            ])
    ]
  ]

-- Requests one after the other, each from the database that the one before it left.
pub resends : Services → User → List Moment → Database → Database
resends app u [] s = s
resends app u (m ∷ ms) s = resends app u ms (resend_verification_email app m (some u) s).1

-- The mails that an activity counts for the day that began at `midnight`.
abbrev pub used : ℕ → UserActivity → ℕ
used midnight a = if ltb (time_of a.last_send_mail_attempt) midnight then 0 else a.send_mail_attempt

-- All rows that count the verification mails of the user are the row `a`.
abbrev pub IsCounter : User → UserActivity → List UserActivity → Type 0
IsCounter u a t = All (λ q. is_activity u.id send_mail_verify q ≡ true → q ≡ a) t

-- The moments of one day.
abbrev pub OnDay : ℕ → List Moment → Type 0
OnDay midnight ms = All (λ m. (m.midnight ≡ midnight) × (midnight ≤ m.now)) ms

-- The database does not fail to save an activity.
abbrev pub SavesActivities : Services → Type 0
SavesActivities app =
    (r : UserActivity) (t : List UserActivity) (e : Exception) → (app.activities.save r t).0 ≢ err e

module _ (app : Services) (u : User) (saves : SavesActivities app) where
  -- Saving the counted attempt makes the new activity the counter.
  save-IsCounter :
      (m : Moment) (a : UserActivity) (t : List UserActivity)
      → app.activities.find_one (is_activity u.id send_mail_verify) t ≡ some a
      → IsCounter u a t
      → IsCounter u
          (increase_send_mail_attempt m a)
          (app.activities.save (increase_send_mail_attempt m a) t).1
  unfolding increase_send_mail_attempt
  save-IsCounter m a t found only =
      let a' = increase_send_mail_attempt m a in
      elim (save-found app.activities _ t a a' found refl) [
        | inl (e, failed) ↦
            absurd (saves a' t e (ap (λ (o : Result UserActivity × List UserActivity). o.0) failed))
        | inr (x, saved) ↦ rw saved (
            All-update_where (λ q. is_activity u.id send_mail_verify q ≡ true → q ≡ a)
              (λ q. is_activity u.id send_mail_verify q ≡ true → q ≡ a') (λ q. q.id == a.id)
              (λ _. a') t (λ q h e _. refl) (λ q h other holds. let same = h holds in ground arith)
              only)
      ]

  used-increase :
      (midnight : ℕ) (m : Moment) (a : UserActivity)
      → m.midnight ≡ midnight
      → midnight ≤ m.now
      → used midnight (increase_send_mail_attempt m a) ≡ used midnight a + 1
  unfolding increase_send_mail_attempt
  used-increase midnight m a e h = ground arith

  -- A request that got through leaves a counter with one mail more, and at most five.
  Sent-IsCounter :
      (midnight : ℕ) (m : Moment) (a : UserActivity) (s s' : Database)
      → IsCounter u a s.activities
      → m.midnight ≡ midnight
      → midnight ≤ m.now
      → Sent app u m s s'
      → (a' : UserActivity) × IsCounter u a' s'.activities
        × (used midnight a' ≡ used midnight a + 1)
        × (used midnight a' ≤ five_times)
        × (length s'.mail_jobs ≡ length s.mail_jobs + 1)
  Sent-IsCounter midnight m a s s' only e h (b, found, due, under, saved, queued) =
      let (mem, holds) = app.activities.find_one-some _ _ _ found in
      let same : b ≡ a = All-mem _ s.activities b only mem holds in
      (
        increase_send_mail_attempt m b,
        rw saved (save-IsCounter m b s.activities found (rw same only)),
        rw (← same) (used-increase midnight m b e h),
        ground arith,
        rw queued (length-append s.mail_jobs _),
      )

  -- Whatever requests to resend the verification mail a user makes on one day, at most the mails
  -- that the counter leaves of five are queued, so five at most. The user has one counter, and the
  -- database saves what it is given; requests may fail otherwise.
  pub resends_daily_limit :
      (midnight : ℕ) (ms : List Moment) (a : UserActivity) (s : Database)
      → IsCounter u a s.activities
      → OnDay midnight ms
      → length (resends app u ms s).mail_jobs ≤ length s.mail_jobs + (five_times - used midnight a)
  unfolding resends
  resends_daily_limit midnight [] a s only day = omega arith
  resends_daily_limit midnight (m ∷ ms) a s only (today, later) =
      let s' = (resend_verification_email app m (some u) s).1 in
      elim (resend_verification_email_lem app u m s) [
        | inl same ↦
            subst
              (λ x.
                length (resends app u ms x).mail_jobs
                ≤ length s.mail_jobs + (five_times - used midnight a))
              (sym same) (resends_daily_limit midnight ms a s only later)
        | inr passed ↦
            let (a', only', one_more, within, queued) =
              Sent-IsCounter midnight m a s s' only today.0 today.1 passed in
            omega (arith, resends_daily_limit midnight ms a' s' only' later)
      ]
