-- ===== src/WatchList/Limit.antt =====
-- Creating a watched address keeps the configured limit.
use aura_explorer_api.Prelude.{
  ℕ, ◌≤◌, ◌<◌, ◌≡◌, ◌⊎◌, inl, inr, refl, ap, Bool, true, nat_eq, leb, [], ◌∷◌, ◌++◌, arith,
  count_if, count_if-snoc, Bool-cases, Option-cases,
}
use aura_explorer_api.Exec.{Result-cases}
use aura_explorer_api.Repository.Rows.{Inserted-cases}
use aura_explorer_api.Entities.{Explorer}
use aura_explorer_api.NameTag.{Context}
use aura_explorer_api.WatchList.{
  WatchListRow, WatchStore, WatchServices, WatchRequest, watch_keyed, is_counted, new_watch,
  validate_address, insert_watch, create_watch, create,
}

module _ (env : WatchServices) (ctx : Context) (req : WatchRequest) where
  -- A creation leaves the store alone, or adds a row of the user to a list that had room for it.
  abbrev pub Created : WatchStore → WatchStore → Type 0
  Created s s' =
      (explorer : Explorer) × (r : WatchListRow) × (count_if
          (is_counted env ctx ctx.user_id explorer.id) s.watch_lists
        < env.limit_address)
      × (r ≡ record (new_watch env ctx req explorer) { id = r.id })
      × (s' ≡ record s { watch_lists = s.watch_lists ++ r ∷ [] })

  insert_watch-cases :
      (explorer : Explorer) (s : WatchStore)
      → ((insert_watch env ctx req explorer s).1 ≡ s)
        ⊎ Created s (insert_watch env ctx req explorer s).1
  insert_watch-cases explorer s =
      let p = is_counted env ctx ctx.user_id explorer.id in
      elim (Bool-cases (leb env.limit_address (env.watch_lists.count p s.watch_lists))) [
        | inl full ↦ rw full (inl refl)
        | inr room ↦
            elim (Inserted-cases watch_keyed (new_watch env ctx req explorer) s.watch_lists _
              (env.watch_lists.insert_lem (new_watch env ctx req explorer) s.watch_lists)) [
                | inl (e, failed) ↦ rw (room, failed) (inl refl)
                | inr (r, done, same, _) ↦
                    rw (room, done)
                      (inr (
                        explorer,
                        r,
                        ground (arith, env.watch_lists.count_lem p s.watch_lists),
                        same,
                        refl,
                      ))
              ]
      ]

  validate_address_state :
      (explorer : Explorer) (t : Bool) (s : WatchStore)
      → (validate_address env ctx req explorer t s).1 ≡ s
  unfolding validate_address
  validate_address_state explorer t s = ground arith

  create_watch-cases :
      (s : WatchStore)
      → ((create_watch env ctx req s).1 ≡ s) ⊎ Created s (create_watch env ctx req s).1
  create_watch-cases s = elim (Option-cases (env.tags.find_explorer ctx.chain_id)) [
    | inl missing ↦ rw missing (inl refl)
    | inr (explorer, found) ↦
        let state = validate_address_state explorer true s in
        elim (Result-cases (validate_address env ctx req explorer true s).0) [
          | inr (e, failed) ↦ rw (found, failed, state) (inl refl)
          | inl (_, passed) ↦ rw (found, passed, state) (insert_watch-cases explorer s)
        ]
  ]

  create-cases :
      (s : WatchStore) → ((create env ctx req s).1 ≡ s) ⊎ Created s (create env ctx req s).1
  unfolding create
  create-cases s = elim (Result-cases (create_watch env ctx req s).0) [
    | inl (r, done) ↦ rw done (create_watch-cases s)
    | inr (e, failed) ↦ rw failed (create_watch-cases s)
  ]

  -- No user watches more addresses on a chain than the limit.
  abbrev pub WithinLimit : WatchStore → Type 0
  WithinLimit s =
      (i explorer : ℕ) → count_if (is_counted env ctx i explorer) s.watch_lists ≤ env.limit_address

  Created-WithinLimit : (s s' : WatchStore) → Created s s' → WithinLimit s → WithinLimit s'
  Created-WithinLimit s s' (explorer, r, room, same, e) limited i c =
      rw (ap (λ (z : WatchStore). z.watch_lists) e, count_if-snoc)
        (elim (Bool-cases (is_counted env ctx i c r)) [
          | inr other ↦ rw other (omega (arith, limited i c))
          | inl counted ↦
              let owner : ctx.user_id ≡ i =
                ground (arith, ap (λ (w : WatchListRow). w.user_id) same) in
              let chain : explorer.id ≡ c =
                ground (arith, ap (λ (w : WatchListRow). w.explorer_id) same) in
              rw (counted, ← owner, ← chain) (omega arith)
        ])

  -- Whatever is asked and whatever fails, a creation keeps the limit of every user on every
  -- chain, if it held before.
  pub create-WithinLimit : (s : WatchStore) → WithinLimit s → WithinLimit (create env ctx req s).1
  create-WithinLimit s limited = elim (create-cases s) [
    | inl same ↦ rw same limited
    | inr created ↦ Created-WithinLimit s _ created limited
  ]
