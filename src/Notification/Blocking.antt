-- ===== src/Notification/Blocking.antt =====
-- What `blockLimitNotification` of src/components/queues/notification/notification.processor.ts does
-- to the tracking of addresses.
use aura_explorer_api.Prelude.{
  ℕ, ◌+◌, ◌≤◌, ◌≡◌, ◌≢◌, inl, inr, refl, ap, Bool, true, false, Option, none, some, List, [], ◌∷◌,
  arith, ◌==◌, nat_eq, leb, count_if, count_if-snoc, All, Bool-cases,
}
use aura_explorer_api.Exec.{Exception, Result, err, Result-cases}
use aura_explorer_api.Repository.{update_where}
use aura_explorer_api.Repository.Rows.{Written-cases, Inserted-cases, count_if-update_where_off}
use aura_explorer_api.Entities.{activity_eq, UserActivity, activity_keyed}
use aura_explorer_api.WatchList.{WatchListRow, watch_keyed}
use aura_explorer_api.Notification.{
  Board, NotificationServices, Counts, is_daily_of, is_watched_by, is_tracked_by, stop_tracking,
  first_activity, limit_user, count_user, limit_users, count_all, block_limit_notification,
}

abbrev raised : ℕ → UserActivity → UserActivity → UserActivity
raised count a q = record q { total = a.total + count }

abbrev untracked : WatchListRow → WatchListRow
untracked w = record w { tracking = false }

untracked-off :
    (i e u c : ℕ) (t : List WatchListRow)
    → All
        (λ q.
          is_watched_by u c q ≡ true
          → is_tracked_by i e (untracked q) ≡ true
          → is_tracked_by i e q ≡ true)
        t
untracked-off i e u c [] = tt
untracked-off i e u c (q ∷ t) = (λ on counted. cc, untracked-off i e u c t)

untracked-none :
    (u c : ℕ) (t : List WatchListRow)
    → count_if (is_tracked_by u c) (update_where (is_watched_by u c) untracked t) ≡ 0
untracked-none u c [] = refl
untracked-none u c (w ∷ t) = ground (arith, untracked-none u c t)

module _ (env : NotificationServices) (explorer : ℕ) where
  -- No user tracks more on any chain.
  abbrev pub TracksNoMore : Board → Board → Type 0
  TracksNoMore s s' =
      (i e : ℕ)
      → count_if (is_tracked_by i e) s'.watch_lists ≤ count_if (is_tracked_by i e) s.watch_lists

  stop_tracking_lem : (u : ℕ) (s : Board) → TracksNoMore s (stop_tracking env explorer u s).1
  stop_tracking_lem u s i e =
      elim (Written-cases watch_keyed s.watch_lists _ _
        (env.watch_lists.update_lem (is_watched_by u explorer) untracked s.watch_lists)) [
          | inl (x, failed) ↦ rw failed (omega arith)
          | inr (n, done) ↦ rw done (
              count_if-update_where_off (is_tracked_by i e) (is_watched_by u explorer) untracked
                s.watch_lists (untracked-off i e u explorer s.watch_lists))
        ]

  limit_user_lem :
      (u count : ℕ) (found : Option UserActivity) (s : Board)
      → TracksNoMore s (limit_user env explorer u count found s).1
  limit_user_lem u count none s i e =
      let new = first_activity env explorer (env.users.find_one (λ q. q.id == u) s.users) in
      elim (Result-cases (env.activities.insert new s.activities).0) [
        | inr (x, failed) ↦ rw failed (omega arith)
        | inl (r, done) ↦ rw done (omega arith)
      ]
  limit_user_lem u count (some a) s i e =
      elim (Result-cases
        (env.activities.update (λ q. q.id == a.id) (raised count a) s.activities).0) [
          | inr (x, failed) ↦ rw failed (omega arith)
          | inl (n, done) ↦ elim (Bool-cases (leb env.limit_notifications (a.total + count))) [
            | inr below ↦ rw (done, below) (omega arith)
            | inl reached ↦
                rw (done, reached)
                  (stop_tracking_lem u
                    (record s {
                      activities =
                          (env.activities.update (λ q. q.id == a.id) (raised count a)
                            s.activities).1;
                    })
                    i e)
          ]
        ]

  limit_users_lem :
      (entries : Counts) (s : Board) → TracksNoMore s (limit_users env explorer entries s).1
  unfolding limit_users
  limit_users_lem [] s i e = omega arith
  limit_users_lem ((u, count) ∷ entries) s i e =
      let found = env.activities.find_one (is_daily_of u explorer) s.activities in
      let first = limit_user_lem u count found s i e in
      elim (Result-cases (count_user env explorer (u, count) s).0) [
        | inr (x, failed) ↦ rw failed first
        | inl (_, done) ↦
            let later = limit_users_lem entries (count_user env explorer (u, count) s).1 i e in
            rw done (omega (arith, first, later))
      ]

  -- Whatever notifications were sent and whatever fails, counting them starts the tracking of no
  -- address: no user has more tracked addresses on any chain than before.
  pub block_limit_notification-TracksNoMore :
      (user_ids : List ℕ) (s : Board)
      → TracksNoMore s (block_limit_notification env explorer user_ids s).1
  unfolding block_limit_notification
  block_limit_notification-TracksNoMore user_ids s = limit_users_lem (count_all [] user_ids) s

  -- A user whose counted notifications reach the limit has no tracked address on the chain any more,
  -- if the database does not fail to write.
  pub count_user_stops :
      (u count : ℕ) (s : Board) (a : UserActivity)
      → env.activities.find_one (is_daily_of u explorer) s.activities ≡ some a
      → env.limit_notifications ≤ a.total + count
      → ((w : UserActivity → Bool) (f : UserActivity → UserActivity) (t : List UserActivity)
            (x : Exception)
          → (env.activities.update w f t).0 ≢ err x)
      → ((w : WatchListRow → Bool) (f : WatchListRow → WatchListRow) (t : List WatchListRow)
            (x : Exception)
          → (env.watch_lists.update w f t).0 ≢ err x)
      → count_if (is_tracked_by u explorer) (count_user env explorer (u, count) s).1.watch_lists ≡ 0
  count_user_stops u count s a found reached counts stops =
      let full : leb env.limit_notifications (a.total + count) ≡ true = ground arith in
      elim (Result-cases
        (env.activities.update (λ q. q.id == a.id) (raised count a) s.activities).0) [
          | inr (x, failed) ↦ absurd (counts _ _ _ x failed)
          | inl (n, done) ↦
              elim (Written-cases watch_keyed s.watch_lists _ _
                (env.watch_lists.update_lem (is_watched_by u explorer) untracked s.watch_lists)) [
                  | inl (x, failed) ↦
                      absurd (stops _ _ _ x (ap (λ (o : Result ℕ × List WatchListRow). o.0) failed))
                  | inr (k, stopped) ↦
                      rw (found, done, full, stopped) (untracked-none u explorer s.watch_lists)
                ]
        ]

  -- A user without a daily activity for the chain is not limited, however many notifications were
  -- sent: no address stops being tracked, and there is still no such activity afterwards.
  pub count_user_without_activity :
      (u count : ℕ) (s : Board)
      → env.activities.find_one (is_daily_of u explorer) s.activities ≡ none
      → ((count_user env explorer (u, count) s).1.watch_lists ≡ s.watch_lists)
        × (count_if (is_daily_of u explorer) (count_user env explorer (u, count) s).1.activities
            ≡ 0)
  count_user_without_activity u count s missing =
      let new = first_activity env explorer (env.users.find_one (λ q. q.id == u) s.users) in
      let before = env.activities.find_one-none _ s.activities missing in
      elim (Inserted-cases activity_keyed new s.activities _
        (env.activities.insert_lem new s.activities)) [
          | inl (x, failed) ↦ rw (missing, failed) (refl, before)
          | inr (r, done, same, _) ↦
              rw (missing, done)
                (
                  refl,
                  rw count_if-snoc
                      (ground (arith, before, ap (λ (q : UserActivity). q.explorer_id) same)),
                )
        ]
