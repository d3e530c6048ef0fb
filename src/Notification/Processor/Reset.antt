-- ===== src/Notification/Processor/Reset.antt =====
-- What `resetNotification` of src/components/queues/notification/notification.processor.ts leaves of the
-- daily quotas.
use aura_explorer_api.Prelude.{
  ℕ, ◌<◌, ◌≡◌, ◌≢◌, ◌∙◌, inl, inr, refl, ap, Bool, true, false, ◌&&◌, ◌==◌, nat_eq, List, [], ◌∷◌,
  map, arith, any, count_if, count_if-keep_if, count_if_both_le, ltb, All, Bool-cases,
}
use aura_explorer_api.Exec.{Exception, Result, ok, err, Result-cases}
use aura_explorer_api.Repository.{update_where, Repository}
use aura_explorer_api.Repository.Rows.{Written-cases, All-update_where}
use aura_explorer_api.Repository.Batch.{write_each, IsSavable, IsSavable-save}
use aura_explorer_api.Entities.{daily_notifications, activity_eq, UserActivity, activity_keyed}
use aura_explorer_api.Notification.Desk.{Desk, JobServices}
use aura_explorer_api.Notification.Processor.Jobs.{is_daily, reset_notification}

-- A daily activity that counts some notification.
abbrev pub is_used : UserActivity → Bool
is_used a = a.type == daily_notifications && ltb 0 a.total

abbrev zero_total : UserActivity → UserActivity
zero_total a = record a { total = 0 }

abbrev has_id : ℕ → UserActivity → Bool
has_id n a = a.id == n

-- The used activities are among those still to be saved.
abbrev IsPending : List UserActivity → List UserActivity → Type 0
IsPending rs t = All (λ q. is_used q ≡ true → any (has_id q.id) rs ≡ true) t

IsPending-save :
    (r : UserActivity) (rs t : List UserActivity)
    → is_used r ≡ false
    → IsPending (r ∷ rs) t
    → IsPending rs (update_where (has_id r.id) (λ _. r) t)
IsPending-save r rs t unused pending =
    All-update_where (λ q. is_used q ≡ true → any (has_id q.id) (r ∷ rs) ≡ true)
      (λ q. is_used q ≡ true → any (has_id q.id) rs ≡ true) (has_id r.id) (λ _. r) t
      (λ q h here used. cc) (λ q h other used. let known = h used in ground arith) pending

no_pending : (t : List UserActivity) → IsPending [] t → count_if is_used t ≡ 0
no_pending [] h = refl
no_pending (q ∷ t) (h, hs) = elim (Bool-cases (is_used q)) [
  | inl e ↦ let wrong = h e in cc
  | inr e ↦ ground (arith, no_pending t hs)
]

module _ (repo : Repository activity_keyed) where
  -- The database does not fail to save.
  abbrev pub Saves : Type 0
  Saves = (r : UserActivity) (t : List UserActivity) (e : Exception) → (repo.save r t).0 ≢ err e

  save_each-is_used :
      (rs t : List UserActivity)
      → Saves
      → IsSavable repo is_used t rs
      → IsPending rs t
      → ((write_each repo.save rs t).0 ≡ ok tt)
        × (count_if is_used (write_each repo.save rs t).1 ≡ 0)
  save_each-is_used [] t saves savable pending = (refl, no_pending t pending)
  save_each-is_used (r ∷ rs) t saves ((there, unused), savable) pending =
      elim (Written-cases activity_keyed t (update_where (has_id r.id) (λ _. r) t) (repo.save r t)
        (repo.save_lem r t there)) [
          | inl (e, failed) ↦
              absurd
                (saves r t e (ap (λ (o : Result UserActivity × List UserActivity). o.0) failed))
          | inr (x, done) ↦ rw done (
              save_each-is_used rs (update_where (has_id r.id) (λ _. r) t) saves
                (IsSavable-save repo is_used r rs t savable) (IsPending-save r rs t unused pending))
        ]

  found-IsSavable :
      (t xs : List UserActivity)
      → ((n : ℕ) → 0 < count_if (has_id n) xs → 0 < count_if (has_id n) t)
      → IsSavable repo is_used t (map zero_total xs)
  found-IsSavable t [] h = tt
  found-IsSavable t (a ∷ xs) h =
      ((h a.id (ground arith), ground arith), found-IsSavable t xs (λ n more. h n (ground arith)))

  zeroed-any :
      (n : ℕ) (xs : List UserActivity)
      → 0 < count_if (has_id n) xs
      → any (has_id n) (map zero_total xs) ≡ true
  zeroed-any n [] h = absurd (omega arith)
  zeroed-any n (a ∷ xs) h = elim (Bool-cases (a.id == n)) [
    | inl e ↦ rw e refl
    | inr e ↦ rw e (zeroed-any n xs (ground arith))
  ]

  count_if-found :
      (n : ℕ) (t : List UserActivity)
      → count_if (has_id n) (repo.find is_daily t) ≡ count_if (λ a. is_daily a && has_id n a) t
  count_if-found n t =
      repo.count-find is_daily (has_id n) t ∙ count_if-keep_if is_daily (has_id n) t

  All-found :
      (t xs : List UserActivity)
      → ((n : ℕ)
          → 0 < count_if (λ a. is_daily a && has_id n a) xs
          → any (has_id n) (map zero_total (repo.find is_daily t)) ≡ true)
      → IsPending (map zero_total (repo.find is_daily t)) xs
  All-found t [] h = tt
  All-found t (a ∷ xs) h =
      (λ used. h a.id (ground arith), All-found t xs (λ n more. h n (ground arith)))

  saved-is_used :
      (t : List UserActivity)
      → Saves
      → let rs = map zero_total (repo.find is_daily t) in
        ((write_each repo.save rs t).0 ≡ ok tt)
        × (count_if is_used (write_each repo.save rs t).1 ≡ 0)
  saved-is_used t saves =
      save_each-is_used (map zero_total (repo.find is_daily t)) t saves
        (found-IsSavable t (repo.find is_daily t) (λ n more.
          omega (arith, more, count_if-found n t, count_if_both_le is_daily (has_id n) t)))
        (All-found t t
          (λ n more. zeroed-any n (repo.find is_daily t) (omega (arith, more, count_if-found n t))))

-- If the database does not fail to save the activities, then after the daily reset no daily activity
-- counts a notification, whatever fails in the cleaning up that follows.
pub reset_notification-is_used :
    (env : JobServices) (s : Desk)
    → ((r : UserActivity) (t : List UserActivity) (e : Exception)
        → (env.limits.activities.save r t).0 ≢ err e)
    → count_if is_used (reset_notification env s).1.board.activities ≡ 0
unfolding reset_notification
reset_notification-is_used env s saves =
    let (fine, unused) = saved-is_used env.limits.activities s.board.activities saves in
    elim (Result-cases (env.notices.delete env.is_expired s.notices).0) [
      | inl (n, cleaned) ↦ rw (fine, cleaned) unused
      | inr (e, failed) ↦ rw (fine, failed) unused
    ]
