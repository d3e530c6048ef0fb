-- ===== src/Notification/Processor/Allowed.antt =====
-- Whom `processNotification` of src/components/queues/notification/notification.processor.ts sends
-- messages to.
use aura_explorer_api.Prelude.{
  ℕ, ◌≡◌, ◌<◌, ◌==◌, ◌&&◌, refl, Bool, true, some, is_value, count_if, count_if-keep_if, String,
  string_eq, List, [], ◌∷◌, ◌++◌, map, All, arith, nat_eq, Option-cases, inl, inr,
}
use aura_explorer_api.Exec.{ok, Exec, ◌>>◌, Result-cases}
use aura_explorer_api.Exec.Results.{keep_if_ok, keep_if_ok-keeps}
use aura_explorer_api.Repository.Rows.{All-imp}
use aura_explorer_api.Entities.{Explorer, NotificationToken}
use aura_explorer_api.Repository.Batch.{transaction}
use aura_explorer_api.Notification.{block_limit_notification}
use aura_explorer_api.Notification.Texts.{Notice}
use aura_explorer_api.Notification.Desk.{SyncPoint, Desk, Push, JobServices, on_notices, on_board}
use aura_explorer_api.Notification.Processor.{
  has_quota, is_owned, token_has_quota, update_point, push_all, send_and_store,
  process_notification,
}
use aura_explorer_api.Notification.Processor.Pushes.{
  Pushes, none_pushed, then_pushed, bind_pushed, quiet_pushed,
}

-- A list counts each of its elements.
count_if-All :
    {A : Type 0} (xs : List A) → All (λ x. (p : A → Bool) → p x ≡ true → 0 < count_if p xs) xs
count_if-All [] = tt
count_if-All (x ∷ xs) = (
  λ p h. ground arith,
  All-imp _ _ xs (λ y more p h. let n = more p h in ground arith) (count_if-All xs),
)

module _ (env : JobServices) (explorer : Explorer) (start : Desk) where
  -- An active row of the table has the token for the user.
  abbrev pub IsListed : ℕ → String → Type 0
  IsListed user token =
      0
      < count_if (λ t. t.active && (is_value t.user_id user && t.notification_token == token))
          start.tokens

  -- A message to an active token of the table that belongs to the user of its notification, who was
  -- below the limit at the start.
  abbrev pub IsAllowed : Push → Type 0
  IsAllowed q =
      IsListed q.notice.user_id q.token × (has_quota env explorer q.notice.user_id start ≡ ok true)

  -- The table has the token for its user.
  abbrev pub IsKnown : NotificationToken → Type 0
  IsKnown t = (user : ℕ) → t.user_id ≡ some user → IsListed user t.notification_token

  abbrev pub HasQuota : NotificationToken → Type 0
  HasQuota t = IsKnown t × (token_has_quota env explorer start t ≡ ok true)

  -- What the query for active tokens finds is in the table.
  pub found-IsKnown : All IsKnown (env.tokens.find (λ t. t.active) start.tokens)
  found-IsKnown =
      let found = env.tokens.find (λ t. t.active) start.tokens in
      All-imp (λ t. (p : NotificationToken → Bool) → p t ≡ true → 0 < count_if p found) IsKnown
        found
        (λ t counted user mine.
          let p : NotificationToken → Bool =
            λ q. is_value q.user_id user && q.notification_token == t.notification_token in
          let own : p t ≡ true = rw mine (
            ground (
              arith,
              nat_eq.beq_iff user user,
              string_eq.beq_iff t.notification_token t.notification_token,
            )) in
          omega (
            arith,
            counted p own,
            env.tokens.count-find (λ q. q.active) p start.tokens,
            count_if-keep_if (λ q. q.active) p start.tokens,
          ))
        (count_if-All found)

  owned-IsAllowed :
      (n : Notice) (t : NotificationToken)
      → HasQuota t
      → is_owned n.user_id t ≡ ok true
      → IsAllowed (record { token = t.notification_token; notice = n })
  owned-IsAllowed n t quota own = elim (Option-cases t.user_id) [
    | inl e ↦ let h = rw e at own in cc
    | inr (u, e) ↦
        let h = rw e at own in
        let same : u ≡ n.user_id = ground arith in
        let q = rw e at quota.1 in (rw (← same) (quota.0 u e), rw (← same) q)
  ]

  send-All :
      (n : Notice) (ts : List NotificationToken)
      → All (λ t. HasQuota t × (is_owned n.user_id t ≡ ok true)) ts
      → All IsAllowed
          (map (λ (t : NotificationToken). record { token = t.notification_token; notice = n }) ts)
  send-All n [] h = tt
  send-All n (t ∷ ts) ((quota, own), h) = (owned-IsAllowed n t quota own, send-All n ts h)

  push_all_lem :
      (tokens : List NotificationToken) (ns : List Notice) (s : Desk)
      → All HasQuota tokens
      → Pushes IsAllowed s (push_all tokens ns s).1
  unfolding push_all
  push_all_lem tokens [] s quota = none_pushed IsAllowed s s refl
  push_all_lem tokens (n ∷ ns) s quota =
      elim (Result-cases (keep_if_ok (is_owned n.user_id) tokens)) [
        | inr (e, failed) ↦ rw failed (none_pushed IsAllowed s s refl)
        | inl (mine, kept) ↦ rw kept (
            let sent =
              map (λ (t : NotificationToken). record { token = t.notification_token; notice = n })
                mine in
            then_pushed IsAllowed s (record s { pushed = s.pushed ++ sent })
              (push_all tokens ns (record s { pushed = s.pushed ++ sent })).1
              (sent, refl, send-All n mine (keep_if_ok-keeps _ HasQuota tokens mine kept quota))
              (push_all_lem tokens ns (record s { pushed = s.pushed ++ sent }) quota))
      ]

  abbrev store : List Notice → Exec Desk (Unit {0})
  store ns = on_notices (transaction env.notices.insert ns)

  send_and_store_lem :
      (tokens : List NotificationToken) (ns : List Notice) (s : Desk)
      → All HasQuota tokens
      → Pushes IsAllowed s (send_and_store env explorer tokens ns s).1
  send_and_store_lem tokens [] s quota = none_pushed IsAllowed s s refl
  send_and_store_lem tokens (n ∷ ns) s quota =
      bind_pushed IsAllowed (push_all tokens (n ∷ ns)) (λ _. store (n ∷ ns)) s
        (push_all_lem tokens (n ∷ ns) s quota)
        (λ _. quiet_pushed IsAllowed (store (n ∷ ns)) (push_all tokens (n ∷ ns) s).1 refl)

  abbrev settle : List Notice → SyncPoint → ℕ → Exec Desk (Unit {0})
  settle ns p height =
      update_point env explorer p (some height)
      >> on_board
          (block_limit_notification env.limits explorer.id (map (λ (n : Notice). n.user_id) ns))

  settle_quiet :
      (ns : List Notice) (p : SyncPoint) (height : ℕ) (s : Desk)
      → (settle ns p height s).1.pushed ≡ s.pushed
  settle_quiet ns p height s = elim (Result-cases (update_point env explorer p (some height) s).0) [
    | inl (n, done) ↦ rw done refl
    | inr (e, failed) ↦ rw failed refl
  ]

  pub process_notification_lem :
      (ns : List Notice) (tokens : List NotificationToken) (p : SyncPoint) (height : ℕ) (s : Desk)
      → All HasQuota tokens
      → Pushes IsAllowed s (process_notification env explorer ns tokens p height s).1
  unfolding process_notification
  process_notification_lem ns tokens p height s quota =
      let m = send_and_store env explorer tokens ns in
      bind_pushed IsAllowed m (λ _. settle ns p height) s (send_and_store_lem tokens ns s quota)
        (λ _.
          quiet_pushed IsAllowed (settle ns p height) (m s).1 (settle_quiet ns p height (m s).1))
