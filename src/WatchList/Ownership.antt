-- ===== src/WatchList/Ownership.antt =====
-- `update` and `remove` of src/components/watch-list/watch-list.service.ts and the rows of the
-- other users.
use aura_explorer_api.Prelude.{
  ℕ, ◌≡◌, ◌≢◌, ◌⊎◌, inl, inr, refl, ap, Bool, true, false, ◌==◌, nat_eq, some, arith, keep_if, All,
  Option-cases,
}
use aura_explorer_api.Exec.{Result-cases}
use aura_explorer_api.Repository.{update_where, delete_where}
use aura_explorer_api.Repository.Rows.{
  UniqueIds, Written-cases, keep_if-update_where, keep_if-delete_where, All-imp,
}
use aura_explorer_api.Entities.{Explorer}
use aura_explorer_api.NameTag.{Context}
use aura_explorer_api.WatchList.{
  WatchListRow, watch_keyed, WatchStore, WatchServices, WatchRequest, is_mine, is_mine_on,
  validate_address, updated_watch, update_watch, update, remove,
}

abbrev pub is_of : ℕ → WatchListRow → Bool
is_of i w = w.user_id == i

module _ (env : WatchServices) (ctx : Context) (id : ℕ) (s : WatchStore) where
  abbrev Removed : WatchStore → Type 0
  Removed s' =
      (w : WatchListRow) × (env.watch_lists.find_one (is_mine env ctx id) s.watch_lists ≡ some w)
      × (s' ≡ record s { watch_lists = delete_where (λ q. q.id == w.id) s.watch_lists })

  remove-cases : ((remove env ctx id s).1 ≡ s) ⊎ Removed (remove env ctx id s).1
  unfolding remove
  remove-cases = elim (Option-cases (env.watch_lists.find_one (is_mine env ctx id) s.watch_lists)) [
    | inl missing ↦ rw missing (inl refl)
    | inr (w, found) ↦
        elim (Written-cases watch_keyed s.watch_lists _ _
          (env.watch_lists.delete_lem (λ q. q.id == w.id) s.watch_lists)) [
            | inl (e, failed) ↦ rw (found, failed) (inl refl)
            | inr (n, done) ↦ rw (found, done) (inr (w, refl, refl))
          ]
  ]

  abbrev Updated : WatchRequest → WatchStore → Type 0
  Updated req s' =
      (explorer : Explorer) × (w : WatchListRow) × (env.watch_lists.find_one
          (is_mine_on env ctx id explorer.id) s.watch_lists
        ≡ some w)
      × (s' ≡ record s {
        watch_lists = update_where (λ q. q.id == id) (updated_watch env ctx req) s.watch_lists;
      })

  validate_address_same :
      (req : WatchRequest) (explorer : Explorer)
      → (validate_address env ctx req explorer false s).1 ≡ s
  unfolding validate_address
  validate_address_same req explorer = ground arith

  update_watch-cases :
      (req : WatchRequest)
      → ((update_watch env ctx id req s).1 ≡ s) ⊎ Updated req (update_watch env ctx id req s).1
  update_watch-cases req = elim (Option-cases (env.tags.find_explorer ctx.chain_id)) [
    | inl missing ↦ rw missing (inl refl)
    | inr (explorer, known) ↦
        elim (Option-cases
          (env.watch_lists.find_one (is_mine_on env ctx id explorer.id) s.watch_lists)) [
            | inl missing ↦ rw (known, missing) (inl refl)
            | inr (w, found) ↦
                let state = validate_address_same req explorer in
                elim (Result-cases (validate_address env ctx req explorer false s).0) [
                  | inr (e, failed) ↦ rw (known, found, failed, state) (inl refl)
                  | inl (_, passed) ↦
                      elim (Written-cases watch_keyed s.watch_lists _ _ (
                        env.watch_lists.update_lem (λ q. q.id == id) (updated_watch env ctx req)
                          s.watch_lists)) [
                            | inl (e, failed) ↦ rw (known, found, passed, state, failed) (inl refl)
                            | inr (n, done) ↦
                                rw (known, found, passed, state, done)
                                  (inr (explorer, w, found, refl))
                          ]
                ]
          ]
  ]

  update-cases :
      (req : WatchRequest)
      → ((update env ctx id req s).1 ≡ s) ⊎ Updated req (update env ctx id req s).1
  unfolding update
  update-cases req = elim (Result-cases (update_watch env ctx id req s).0) [
    | inl (r, done) ↦ rw done (update_watch-cases req)
    | inr (e, failed) ↦ rw failed (update_watch-cases req)
  ]

  module _ (unique : UniqueIds watch_keyed s.watch_lists) (other : ℕ)
      (stranger : other ≢ ctx.user_id) where
    found-not_other :
        (p : WatchListRow → Bool) (w : WatchListRow)
        → env.watch_lists.find_one p s.watch_lists ≡ some w
        → w.user_id ≡ ctx.user_id
        → All (λ q. (q.id == w.id) ≡ true → is_of other q ≡ false) s.watch_lists
    found-not_other p w found mine =
        let (mem, _) = env.watch_lists.find_one-some p s.watch_lists w found in
        All-imp (λ q. (q.id == w.id) ≡ true → q ≡ w) _ s.watch_lists
          (λ q only at.
            let same : q ≡ w = only (ground arith) in
            ground (arith, ap (λ (x : WatchListRow). x.user_id) same))
          (unique w mem)

    -- When keys are unique: whatever address a user asks to be removed, the watch list of every
    -- other user stays as it is.
    remove_others :
        keep_if (is_of other) (remove env ctx id s).1.watch_lists
        ≡ keep_if (is_of other) s.watch_lists
    remove_others = elim remove-cases [
      | inl same ↦ rw same
      | inr (w, found, e) ↦
          let (_, holds) = env.watch_lists.find_one-some _ s.watch_lists w found in
          rw e (keep_if-delete_where _ _ _ (found-not_other _ w found (ground arith)))
    ]

    -- When keys are unique: whatever change of a watched address a user asks for, the watch list of
    -- every other user stays as it is.
    update_others :
        (req : WatchRequest)
        → keep_if (is_of other) (update env ctx id req s).1.watch_lists
          ≡ keep_if (is_of other) s.watch_lists
    update_others req = elim (update-cases req) [
      | inl same ↦ rw same
      | inr (explorer, w, found, e) ↦
          let (_, holds) = env.watch_lists.find_one-some _ s.watch_lists w found in
          rw e (
            keep_if-update_where _ _ _ _ (
              All-imp (λ q. (q.id == w.id) ≡ true → is_of other q ≡ false)
                (λ q.
                  (q.id == id) ≡ true
                  → (is_of other q ≡ false) × (is_of other (updated_watch env ctx req q) ≡ false))
                s.watch_lists
                (λ q h at.
                  let q_other : is_of other q ≡ false = h (ground arith) in (q_other, q_other))
                (found-not_other _ w found (ground arith))))
    ]

    -- When keys are unique: whatever change or removal of a watched address a user asks for, the watch
    -- list of every other user stays as it is.
    pub watch_requests_others :
        (req : WatchRequest)
        → (keep_if (is_of other) (update env ctx id req s).1.watch_lists
            ≡ keep_if (is_of other) s.watch_lists)
          × (keep_if (is_of other) (remove env ctx id s).1.watch_lists
              ≡ keep_if (is_of other) s.watch_lists)
    watch_requests_others req = (update_others req, remove_others)
