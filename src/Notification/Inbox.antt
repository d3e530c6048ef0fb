-- ===== src/Notification/Inbox.antt =====
-- The notifications of others, and the operations of
-- src/components/notification/services/notification.service.ts.
use aura_explorer_api.Prelude.{
  ℕ, ◌≡◌, ◌≢◌, refl, ap, Bool, true, false, not, ◌&&◌, ◌==◌, nat_eq, List, arith, keep_if, count_if,
  All, inl, inr, Option-cases, [], ◌∷◌,
}
use aura_explorer_api.Exec.{Result, ok}
use aura_explorer_api.Repository.{update_where}
use aura_explorer_api.Repository.Rows.{Written-cases, keep_if-update_where}
use aura_explorer_api.NameTag.{Context}
use aura_explorer_api.Notification.Texts.{Notice, notice_keyed}
use aura_explorer_api.Notification.Service.{
  Inbox, InboxServices, read_notification, read_all_notification, is_unread_of, read_by,
}

abbrev pub is_notice_of : ℕ → Notice → Bool
is_notice_of user n = n.user_id == user

module _ (env : InboxServices) (ctx : Context) where
  read-All_others :
      (user explorer : ℕ) (t : List Notice)
      → ctx.user_id ≢ user
      → All
          (λ n.
            is_unread_of env ctx ctx.user_id explorer n ≡ true
            → (is_notice_of user n ≡ false)
              × (is_notice_of user (record n { is_read = true }) ≡ false))
          t
  read-All_others user explorer [] other = tt
  read-All_others user explorer (n ∷ t) other =
      (λ mine. (ground arith, ground arith), read-All_others user explorer t other)

  -- Whoever marks all as read, the notifications of every other user stay as they are.
  pub read_all_notification_others :
      (user : ℕ) (s : Inbox)
      → ctx.user_id ≢ user
      → keep_if (is_notice_of user) (read_all_notification env ctx s).1.notices
        ≡ keep_if (is_notice_of user) s.notices
  unfolding read_all_notification
  read_all_notification_others user s other = elim (Option-cases (env.find_explorer ctx.chain_id)) [
    | inl missing ↦ rw missing refl
    | inr (explorer, found) ↦
        let w = is_unread_of env ctx ctx.user_id explorer.id in
        let read = λ (n : Notice). record n { is_read = true } in
        elim (Written-cases notice_keyed s.notices (update_where w read s.notices) _
          (env.notices.update_lem w read s.notices)) [
            | inl (e, failed) ↦ rw (found, failed) refl
            | inr (k, done) ↦
                rw (found, done)
                  (keep_if-update_where (is_notice_of user) w read s.notices
                    (read-All_others user explorer.id s.notices other))
          ]
  ]

  abbrev pub is_foreign : ℕ → Notice → Bool
  is_foreign id n = n.id == id && not (n.user_id == ctx.user_id)

  taken :
      (id : ℕ) (t : List Notice)
      → count_if (is_foreign id) (update_where (λ n. n.id == id) (read_by env ctx) t) ≡ 0
  taken id [] = refl
  taken id (n ∷ t) = ground (arith, taken id t)

  -- Marking one notification as read takes it over: whoever it was for, a call that succeeds leaves
  -- no notification with the given key to anyone but the user of the request.
  pub read_notification_takes :
      (id k : ℕ) (s s' : Inbox)
      → read_notification env ctx id s ≡ (ok k, s')
      → count_if (is_foreign id) s'.notices ≡ 0
  unfolding read_notification
  read_notification_takes id k s s' h =
      elim (Written-cases notice_keyed s.notices
        (update_where (λ n. n.id == id) (read_by env ctx) s.notices) _
        (env.notices.update_lem (λ n. n.id == id) (read_by env ctx) s.notices)) [
          | inl (e, failed) ↦ let h' = rw failed at h in cc
          | inr (j, done) ↦
              let h' = rw done at h in
              let same = ap (λ (o : Result ℕ × Inbox). o.1.notices) h' in
              rw (← same) (taken id s.notices)
        ]
