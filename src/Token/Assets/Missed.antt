-- ===== src/Token/Assets/Missed.antt =====
-- What a failure of the first synchronisation of assets leaves.
use aura_explorer_api.Prelude.{
  ℕ, ◌≡◌, ◌==◌, nat_eq, string_eq, true, false, zero, suc, Option, none, some, List, [], ◌∷◌, ◌++◌,
  any, ◌<◌, ◌≤◌, count_if, count_if-snoc, inl, inr, arith, ap, refl, nat_beq_iff,
}
use aura_explorer_api.Exec.{Exception, failure, ok, err}
use aura_explorer_api.Repository.Rows.{Inserted-cases, find_one_of_count}
use aura_explorer_api.Entities.{Explorer}
use aura_explorer_api.Token.{Market, FirstSync, IndexedAsset, TokenServices, first_keyed}
use aura_explorer_api.Token.Paging.{Paged, Answer, read_pages, get_data_with_pagination}
use aura_explorer_api.Token.Assets.{paged_assets, is_first_sync, sync_asset, all_pages}

-- The same services, but the indexer answers otherwise where all assets are asked for.
abbrev pub with_old : TokenServices → (Option ℕ → Answer IndexedAsset) → TokenServices
with_old env old = record env {
  fetch_assets =
      λ e from after. elim from [ none ↦ old after | some t ↦ env.fetch_assets e (some t) after ];
}

failed_query :
    {Item : Type 0} (paged : Paged Item) (fetch : Option ℕ → Answer Item) (rounds : ℕ)
    → fetch none ≡ none
    → (e : Exception) × (all_pages (get_data_with_pagination paged rounds fetch) ≡ err e)
unfolding get_data_with_pagination read_pages
failed_query paged fetch zero h = (failure "more pages than rounds", refl)
failed_query paged fetch (suc rounds) h =
    (failure "Cannot destructure property 'data' of null", rw h refl)

module _ (env : TokenServices) (explorer : Explorer) (s : Market) where
  abbrev point : FirstSync
  point = record { id = 0; explorer_id = explorer.id }

  point_counted :
      (r : FirstSync) (pts : List FirstSync)
      → env.points.insert point s.points ≡ (ok r, pts)
      → 0 < count_if (is_first_sync env explorer) pts
  point_counted r pts done =
      elim (Inserted-cases first_keyed point s.points (env.points.insert point s.points)
        (env.points.insert_lem point s.points)) [
          | inl (e, failed) ↦ cc
          | inr (x, made, as_given, fresh) ↦
              let rows : pts ≡ s.points ++ x ∷ [] = cc in
              let mine : is_first_sync env explorer x ≡ true =
                (nat_beq_iff _ _).1 (ap (λ (p : FirstSync). p.explorer_id) as_given) in
              rw (rows, count_if-snoc (is_first_sync env explorer) s.points x, mine) (omega arith)
        ]

  module _ (now later : ℕ) (r : FirstSync) (pts : List FirstSync)
      (old : Option ℕ → Answer IndexedAsset)
      (no_erc20_chain : any (λ c. c == explorer.chain_id) env.ancient8_chain_ids ≡ false)
      (first_time : env.points.find_one (is_first_sync env explorer) s.points ≡ none)
      (saved : env.points.insert point s.points ≡ (ok r, pts))
      (fails : env.fetch_assets explorer none none ≡ none) where
    first_run : sync_asset env explorer now s ≡ (ok tt, record s { points = pts })
    unfolding sync_asset
    first_run =
        let (e, failed) =
          failed_query (paged_assets env explorer) (env.fetch_assets explorer none) env.rounds
            fails in
        rw (first_time, saved, no_erc20_chain, failed) refl

    later_run :
        (s2 : Market)
        → 0 < count_if (is_first_sync env explorer) s2.points
        → sync_asset (with_old env old) explorer later s2 ≡ sync_asset env explorer later s2
    unfolding sync_asset
    later_run s2 kept =
        let (q, found) = find_one_of_count env.points (is_first_sync env explorer) s2.points kept in
        rw (found, no_erc20_chain) refl

    -- If the first synchronisation of a chain saves its sync point and the indexer then fails, no
    -- asset is stored and the job ends as if it had succeeded; and every later run, on a state that
    -- has lost no sync point of the chain since, does the same whatever the indexer answers to the
    -- question for all assets. This is of a chain that is not one of Ancient8's.
    pub sync_asset_missed :
        (s2 : Market)
        → count_if (is_first_sync env explorer) (sync_asset env explorer now s).1.points
          ≤ count_if (is_first_sync env explorer) s2.points
        → (sync_asset env explorer now s ≡ (ok tt, record s { points = pts }))
          × (sync_asset (with_old env old) explorer later s2 ≡ sync_asset env explorer later s2)
    sync_asset_missed s2 kept =
        let kept2 = rw first_run at kept in
        let there = point_counted r pts saved in (first_run, later_run s2 (omega arith))
