-- ===== src/Notification/Processor/Stalled.antt =====
-- A daily activity without an explorer, which `blockLimitNotification` makes, and the jobs of
-- src/components/queues/notification/notification.processor.ts.
use aura_explorer_api.Prelude.{
  ℕ, ◌<◌, ◌≡◌, ◌∙◌, refl, ap, Bool, true, not, ◌&&◌, ◌==◌, nat_eq, Option, some, List, [], ◌∷◌,
  arith, is_value, is_some, count_if, count_if-keep_if, Bool-cases, Option-cases, inl, inr,
}
use aura_explorer_api.Exec.{Exception, failure, Result, ok, err, Result-cases}
use aura_explorer_api.Exec.Results.{keep_if_ok}
use aura_explorer_api.Entities.{daily_notifications, activity_eq, Explorer, UserActivity}
use aura_explorer_api.WatchList.{WatchListRow}
use aura_explorer_api.Notification.Desk.{
  SyncPoint, SyncPointType, executed_height, coin_transfer_height, token_transfer_height,
  nft_transfer_height, Desk, JobServices,
}
use aura_explorer_api.Notification.Processor.{
  find_daily, activities_of, has_quota, is_tracked_on, query_watch_list,
}
use aura_explorer_api.Notification.Processor.Jobs.{
  is_point_of, Announce, job, announce_executed, convert_and_announce, announce_tokens,
  announce_nfts, notification_executed, notification_coin_transfer, notification_token_transfer,
  notification_nft_transfer,
}

-- A daily activity of an explorer, and one of none.
abbrev pub is_placed : UserActivity → Bool
is_placed a = a.type == daily_notifications && is_some a.explorer_id

abbrev pub is_unplaced : UserActivity → Bool
is_unplaced a = a.type == daily_notifications && not (is_some a.explorer_id)

find_daily_throws :
    (explorer : ℕ) (rows : List UserActivity)
    → 0 < count_if is_unplaced rows
    → count_if is_placed rows ≡ 0
    → (e : Exception) × (find_daily explorer rows ≡ err e)
unfolding find_daily
find_daily_throws explorer [] some_unplaced no_placed = absurd (omega arith)
find_daily_throws explorer (a ∷ rows) some_unplaced no_placed =
    elim (Bool-cases (a.type == daily_notifications)) [
      | inl daily ↦ elim (Option-cases a.explorer_id) [
        | inl unplaced ↦
            (failure "Cannot read properties of null (reading 'id')", rw (daily, unplaced) refl)
        | inr (x, placed) ↦ absurd (ground arith)
      ]
      | inr other ↦
          let (e, throws) = find_daily_throws explorer rows (ground arith) (ground arith) in
          (e, rw other throws)
    ]

keep_if_ok_throws :
    {A : Type 0} (p : A → Result Bool) (v : A → Bool) (xs : List A)
    → ((x : A) → v x ≡ true → (e : Exception) × (p x ≡ err e))
    → 0 < count_if v xs
    → (e : Exception) × (keep_if_ok p xs ≡ err e)
keep_if_ok_throws p v [] throws h = absurd (omega arith)
keep_if_ok_throws p v (x ∷ xs) throws h = elim (Result-cases (p x)) [
  | inr (e, failed) ↦ (e, rw failed refl)
  | inl (b, done) ↦ elim (Bool-cases (v x)) [
    | inl on ↦ let (e, failed) = throws x on in cc
    | inr off ↦
        let (e, later) = keep_if_ok_throws p v xs throws (ground arith) in
        (e, rw (done, later) refl)
  ]
]

module _ (env : JobServices) (explorer : Explorer) (u : ℕ) (s : Desk) where
  abbrev pub joined_count : (UserActivity → Bool) → ℕ
  joined_count v = count_if (λ a. is_value a.user_id u && v a) s.board.activities

  count_if-activities_of :
      (v : UserActivity → Bool) → count_if v (activities_of env explorer u s) ≡ joined_count v
  count_if-activities_of v =
      env.limits.activities.count-find (λ a. is_value a.user_id u) v s.board.activities
      ∙ count_if-keep_if (λ (a : UserActivity). is_value a.user_id u) v s.board.activities

  abbrev pub is_row : WatchListRow → Bool
  is_row w = w.user_id == u

  module _
      (tracked : 0 < count_if (λ w. is_tracked_on env explorer w && is_row w) s.board.watch_lists)
      (unplaced : 0 < joined_count is_unplaced) (placed : joined_count is_placed ≡ 0) where
    has_quota_throws : (e : Exception) × (has_quota env explorer u s ≡ err e)
    has_quota_throws =
        let (e, throws) =
          find_daily_throws explorer.id (activities_of env explorer u s)
            (rw (count_if-activities_of is_unplaced) unplaced)
            (count_if-activities_of is_placed ∙ placed) in
        (e, rw throws refl)

    query_watch_list_throws : (e : Exception) × (query_watch_list env explorer s ≡ (err e, s))
    unfolding query_watch_list
    query_watch_list_throws =
        let rows = env.limits.watch_lists.find (is_tracked_on env explorer) s.board.watch_lists in
        let found =
          env.limits.watch_lists.count-find (is_tracked_on env explorer) is_row
            s.board.watch_lists in
        let kept = count_if-keep_if (is_tracked_on env explorer) is_row s.board.watch_lists in
        let (e, throws) =
          keep_if_ok_throws (λ (w : WatchListRow). has_quota env explorer w.user_id s) is_row rows
            (λ w mine.
              let (e, t) = has_quota_throws in
              let same : w.user_id ≡ u = ground arith in (e, rw same t))
            (rw (found, kept) tracked) in
        (e, ap (λ r. (r, s)) throws)

    job_stalled :
        {R : Type 0} (fetch : Option ℕ → Result (List R)) (announce : Announce env explorer R)
        (type : SyncPointType) (p : SyncPoint)
        → env.sync_points.find_one (is_point_of env explorer type) s.sync_points ≡ some p
        → job env explorer fetch announce type s ≡ (ok tt, s)
    job_stalled fetch announce type p found =
        let (e, throws) = query_watch_list_throws in rw (found, throws) refl

    -- The jobs stop for a whole chain as soon as one user who tracks an address on it has a daily
    -- activity without an explorer and none with one: once they have their sync points, each of the
    -- four jobs changes nothing, sends nothing and stores nothing, whoever else is watching.
    pub jobs_stalled :
        ((type : SyncPointType)
          → (p : SyncPoint) × (env.sync_points.find_one
                (is_point_of env explorer type)
                s.sync_points
              ≡ some p))
        → (notification_executed env explorer s ≡ (ok tt, s))
          × (notification_coin_transfer env explorer s ≡ (ok tt, s))
          × (notification_token_transfer env explorer s ≡ (ok tt, s))
          × (notification_nft_transfer env explorer s ≡ (ok tt, s))
    unfolding notification_executed notification_coin_transfer notification_token_transfer
        notification_nft_transfer
    jobs_stalled points = (
      job_stalled (env.fetch_executed explorer) (announce_executed env explorer) executed_height
          (points executed_height).0 (points executed_height).1,
      job_stalled (env.fetch_coins explorer) (convert_and_announce env explorer)
          coin_transfer_height (points coin_transfer_height).0 (points coin_transfer_height).1,
      job_stalled (env.fetch_tokens explorer) (announce_tokens env explorer) token_transfer_height
          (points token_transfer_height).0 (points token_transfer_height).1,
      job_stalled (env.fetch_nfts explorer) (announce_nfts env explorer) nft_transfer_height
          (points nft_transfer_height).0 (points nft_transfer_height).1,
    )
