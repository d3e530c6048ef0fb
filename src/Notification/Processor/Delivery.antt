-- ===== src/Notification/Processor/Delivery.antt =====
-- What `processNotification` of src/components/queues/notification/notification.processor.ts stores
-- before it moves the sync point.
use mathlib.Core.List.{append_assoc, append-nil}
use aura_explorer_api.Prelude.{
  ℕ, ◌≡◌, ◌⊎◌, ◌∙◌, inl, inr, refl, sym, ap, ◌==◌, nat_eq, some, List, [], ◌∷◌, ◌++◌,
}
use aura_explorer_api.Exec.{Exception, Result, ok, err, Result-cases}
use aura_explorer_api.Exec.Results.{keep_if_ok}
use aura_explorer_api.Repository.{Keyed, Repository, update_where}
use aura_explorer_api.Repository.Rows.{Inserted-cases, Written-cases}
use aura_explorer_api.Repository.Batch.{write_each, transaction}
use aura_explorer_api.Entities.{Explorer, NotificationToken}
use aura_explorer_api.Notification.Texts.{Notice, notice_keyed}
use aura_explorer_api.Notification.Desk.{SyncPoint, point_keyed, Desk, JobServices}
use aura_explorer_api.Notification.Processor.{
  push_all, is_owned, send_notification, send_and_store, process_notification,
}

module _ {Row : Type 0} (keyed : Keyed Row) where
  -- Rows as they were given, under the keys that the database chose.
  abbrev pub Rekeyed : List Row → List Row → Type 0
  Rekeyed [] [] = Unit
  Rekeyed (r ∷ rs) (q ∷ qs) = (q ≡ keyed.with_id (keyed.id q) r) × Rekeyed rs qs
  Rekeyed _ _ = ⊥

  abbrev pub Stored : List Row → List Row → List Row → Type 0
  Stored rs t t' = (new : List Row) × (t' ≡ t ++ new) × Rekeyed rs new

  write_each-insert :
      (repo : Repository keyed) (rs t : List Row)
      → ((e : Exception) × ((write_each repo.insert rs t).0 ≡ err e))
        ⊎ (((write_each repo.insert rs t).0 ≡ ok tt) × Stored rs t (write_each repo.insert rs t).1)
  write_each-insert repo [] t = inr (refl, ([], sym (append-nil t), tt))
  write_each-insert repo (r ∷ rs) t =
      elim (Inserted-cases keyed r t (repo.insert r t) (repo.insert_lem r t)) [
        | inl (e, failed) ↦ inl (e, rw failed refl)
        | inr (q, done, same, _) ↦ rw done (elim (write_each-insert repo rs (t ++ q ∷ [])) [
          | inl failed ↦ inl failed
          | inr (fine, (new, all, rest)) ↦
              inr (fine, (q ∷ new, all ∙ append_assoc t (q ∷ []) new, (same, rest)))
        ])
      ]

  -- All the rows are stored, or none.
  pub transaction-insert :
      (repo : Repository keyed) (rs t : List Row)
      → ((e : Exception) × (transaction repo.insert rs t ≡ (err e, t)))
        ⊎ (((transaction repo.insert rs t).0 ≡ ok tt)
            × Stored rs t (transaction repo.insert rs t).1)
  transaction-insert repo rs t = elim (write_each-insert repo rs t) [
    | inl (e, failed) ↦ inl (e, rw failed refl)
    | inr (fine, stored) ↦ rw fine (inr (refl, stored))
  ]

module _ (env : JobServices) (explorer : Explorer) where
  push_all-tables :
      (tokens : List NotificationToken) (ns : List Notice) (s : Desk)
      → ((push_all tokens ns s).1.sync_points ≡ s.sync_points)
        × ((push_all tokens ns s).1.notices ≡ s.notices)
  unfolding push_all
  push_all-tables tokens [] s = (refl, refl)
  push_all-tables tokens (n ∷ ns) s = elim (Result-cases (keep_if_ok (is_owned n.user_id) tokens)) [
    | inr (e, failed) ↦ rw failed (refl, refl)
    | inl (mine, kept) ↦ rw kept (push_all-tables tokens ns (send_notification n mine s).1)
  ]

  -- Either everything is stored and nothing was thrown, or something was thrown.
  abbrev Sent : List Notice → Desk → Result (Unit {0}) × Desk → Type 0
  Sent ns s o =
      (o.1.sync_points ≡ s.sync_points)
      × (((e : Exception) × (o.0 ≡ err e))
          ⊎ ((o.0 ≡ ok tt) × Stored notice_keyed ns s.notices o.1.notices))

  send_and_store-Sent :
      (tokens : List NotificationToken) (ns : List Notice) (s : Desk)
      → Sent ns s (send_and_store env explorer tokens ns s)
  send_and_store-Sent tokens [] s = (refl, inr (refl, ([], sym (append-nil s.notices), tt)))
  send_and_store-Sent tokens (n ∷ ns) s =
      let (points, notices) = push_all-tables tokens (n ∷ ns) s in
      let t = (push_all tokens (n ∷ ns) s).1.notices in
      elim (Result-cases (push_all tokens (n ∷ ns) s).0) [
        | inr (e, failed) ↦ rw failed (points, inl (e, refl))
        | inl (_, pushed) ↦ elim (transaction-insert notice_keyed env.notices (n ∷ ns) t) [
          | inl (e, failed) ↦ rw pushed (points, inl (e, ap (λ o. o.0) failed))
          | inr (fine, (new, all, rest)) ↦
              rw pushed (points, inr (fine, (new, all ∙ ap (λ x. x ++ new) notices, rest)))
        ]
      ]

  abbrev pub moved : SyncPoint → ℕ → List SyncPoint → List SyncPoint
  moved p height =
      update_where (λ q. q.id == p.id) (λ (q : SyncPoint). record q { point = some height })

  -- Whatever fails, the sync point moves only after every notification of the run has been stored:
  -- either the sync points are as before, so that the next run fetches the same transactions again, or
  -- each notification is a new row as it was made and the sync point has the new height.
  pub process_notification-Stored :
      (ns : List Notice) (tokens : List NotificationToken) (p : SyncPoint) (height : ℕ) (s : Desk)
      → ((process_notification env explorer ns tokens p height s).1.sync_points ≡ s.sync_points)
        ⊎ (((process_notification env explorer ns tokens p height s).1.sync_points
              ≡ moved p height s.sync_points)
            × Stored notice_keyed ns s.notices
                (process_notification env explorer ns tokens p height s).1.notices)
  unfolding process_notification
  process_notification-Stored ns tokens p height s =
      let s1 = (send_and_store env explorer tokens ns s).1 in
      let (points, sent) = send_and_store-Sent tokens ns s in
      elim sent [
        | inl (e, failed) ↦ rw failed (inl points)
        | inr (fine, stored) ↦
            elim (Written-cases point_keyed s1.sync_points (moved p height s1.sync_points) _ (
              env.sync_points.update_lem (λ q. q.id == p.id)
                (λ (q : SyncPoint). record q { point = some height }) s1.sync_points)) [
                  | inl (e, failed) ↦ rw (fine, failed) (inl points)
                  | inr (k, done) ↦ rw (fine, done) (inr (ap (moved p height) points, stored))
                ]
      ]
