-- ===== src/Account.antt =====
-- The state that the user and authentication services share, and what they take from outside.
-- `Database` holds the tables that they read and write, and the jobs of the mail queue
-- (src/components/user/user.service.ts, its constructor).
use aura_explorer_api.Prelude.{
  ℕ, String, ◌≡◌, ◌⊎◌, inl, inr, ap, Bool, true, Option, some, List, [], ◌∷◌, ◌++◌,
}
use aura_explorer_api.Exec.{Exception, Result, ok, err, Exec, Result-cases, ◌>>◌}
use aura_explorer_api.Repository.{Repository}
use aura_explorer_api.Entities.{
  ActivityType, User, UserActivity, Explorer, NotificationToken, user_keyed, activity_keyed,
  explorer_keyed, token_keyed,
}

-- The data of a job of the send-mail queue.
pub record MailJob : Type 0 where
  pub user : User
  pub url : Option String
  pub mail_type : ActivityType

pub record Database : Type 0 where
  pub users : List User
  pub activities : List UserActivity
  pub explorers : List Explorer
  pub notification_tokens : List NotificationToken
  pub mail_jobs : List MailJob

-- What a request finds outside: the clock (one reading serves the whole request), the last
-- midnight of the server, and the random values that it draws.
pub record Moment : Type 0 where
  pub now : ℕ
  pub midnight : ℕ
  pub salt : String
  pub random_token : ℕ → String

abbrev pub Queued : MailJob → List MailJob → Result (Unit {0}) × List MailJob → Type 0
Queued j q (err e, q') = q' ≡ q
Queued j q (ok _, q') = q' ≡ q ++ j ∷ []

-- The payload of a token, with its time of issue in seconds.
pub record Claims : Type 0 where
  pub sub : ℕ
  pub email : String
  pub iat : ℕ

pub record Tokens : Type 0 where
  pub access_token : String
  pub refresh_token : String

-- The repositories, bcrypt, the mail queue (bull) and the signing of tokens (@nestjs/jwt).
pub record Services : Type 0 where
  pub users : Repository user_keyed
  pub activities : Repository activity_keyed
  pub explorers : Repository explorer_keyed
  pub notification_tokens : Repository token_keyed
  pub hash : String → String → String
  pub compare : String → Option String → Result Bool
  pub enqueue : MailJob → List MailJob → Result (Unit {0}) × List MailJob
  pub sign_access : ℕ → String → String
  pub sign_refresh : ℕ → String → String
  pub verify_token : String → Result Claims
  -- A queued job is added at the end or not at all, and a password matches its own hash.
  pub enqueue_lem : (j : MailJob) (q : List MailJob) → Queued j q (enqueue j q)
  pub compare-hash : (salt p : String) → compare p (some (hash salt p)) ≡ ok true

module _ {A : Type 0} where
  abbrev pub on_users : (List User → Result A × List User) → Exec Database A
  on_users f s = ((f s.users).0, record s { users = (f s.users).1 })

  abbrev pub on_activities : (List UserActivity → Result A × List UserActivity) → Exec Database A
  on_activities f s = ((f s.activities).0, record s { activities = (f s.activities).1 })

  abbrev pub on_tokens :
      (List NotificationToken → Result A × List NotificationToken) → Exec Database A
  on_tokens f s =
      ((f s.notification_tokens).0, record s { notification_tokens = (f s.notification_tokens).1 })

  abbrev pub on_mail : (List MailJob → Result A × List MailJob) → Exec Database A
  on_mail f s = ((f s.mail_jobs).0, record s { mail_jobs = (f s.mail_jobs).1 })

pub Queued-cases :
    (j : MailJob) (q : List MailJob) (o : Result (Unit {0}) × List MailJob)
    → Queued j q o
    → ((e : Exception) × (o ≡ (err e, q))) ⊎ (o ≡ (ok tt, q ++ j ∷ []))
Queued-cases j q (err e, q') h = inl (e, ap (λ x. (err e, x)) h)
Queued-cases j q (ok _, q') h = inr (ap (λ x. (ok tt, x)) h)

-- A block that returned, and that began with a write to the users.
pub on_users-eq-ok :
    {A B : Type 0} (f : List User → Result A × List User) (n : Exec Database B) (s s'' : Database)
    (b : B)
    → (on_users f >> n) s ≡ (ok b, s'')
    → (a : A) × (t : List User) × (f s.users ≡ (ok a, t))
      × (n (record s { users = t }) ≡ (ok b, s''))
on_users-eq-ok f n s s'' b h = elim (Result-cases (f s.users).0) [
  | inl (a, done) ↦ (a, (f s.users).1, ap (λ r. (r, (f s.users).1)) done, rw done at h)
  | inr (e, failed) ↦ let h' = rw failed at h in cc
]
