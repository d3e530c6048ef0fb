-- ===== src/Token/Holders/Counted.antt =====
-- Every asset gets the number of its own holders, however many pages the question takes.
use aura_explorer_api.Prelude.{
  ℕ, zero, suc, String, ◌+◌, ◌*◌, ◌-◌, ◌≡◌, ◌<◌, ◌≤◌, ◌∙◌, sym, ap, refl, nat_eq, true, false, ltb,
  Option, none, some, List, [], ◌∷◌, ◌++◌, map, length, take, drop, Bool-cases, inl, inr, arith,
}
use aura_explorer_api.Exec.{ok}
use aura_explorer_api.Entities.{Explorer, Asset}
use aura_explorer_api.Token.{HolderStatistic, Market, TokenServices}
use aura_explorer_api.Token.Paging.{max_request}
use aura_explorer_api.Token.Assets.{is_of_type}
use aura_explorer_api.Token.Holders.{
  sub_queries, total_holder, page_queries, holder_pages, get_holder_with_pagination, new_statistic,
  statistics_of, get_holders,
}

module _ (holders : Option String → ℕ) where
  -- The number of holders of the asset at an index.
  abbrev holders_at : ℕ → List Asset → Option ℕ
  holders_at i [] = none
  holders_at zero (a ∷ rest) = some (holders a.denom)
  holders_at (suc i) (a ∷ rest) = holders_at i rest

  abbrev pub answer_of : List (ℕ × Option String) → List (ℕ × ℕ)
  answer_of [] = []
  answer_of ((i, denom) ∷ rest) = (i, holders denom) ∷ answer_of rest

  holders_at-drop : (k i : ℕ) (xs : List Asset) → holders_at i (drop k xs) ≡ holders_at (k + i) xs
  holders_at-drop zero i xs = let e : 0 + i ≡ i = omega arith in rw e refl
  holders_at-drop (suc k) i [] = refl
  holders_at-drop (suc k) i (x ∷ xs) =
      let e : suc k + i ≡ suc (k + i) = omega arith in rw e (holders_at-drop k i xs)

  holders_at-take : (n i : ℕ) (xs : List Asset) → i < n → holders_at i (take n xs) ≡ holders_at i xs
  holders_at-take zero i xs h = absurd (omega arith)
  holders_at-take (suc n) i [] h = refl
  holders_at-take (suc n) zero (x ∷ xs) h = refl
  holders_at-take (suc n) (suc i) (x ∷ xs) h = holders_at-take n i xs (omega arith)

  total_holder-answer_of :
      (k i j : ℕ) (xs : List Asset)
      → i ≡ k + j
      → total_holder i (answer_of (sub_queries k xs)) ≡ holders_at j xs
  total_holder-answer_of k i j [] e = refl
  total_holder-answer_of k i zero (x ∷ xs) e = ground arith
  total_holder-answer_of k i (suc j) (x ∷ xs) e =
      ground (arith, total_holder-answer_of (suc k) i j xs (omega arith))

  total_holder_below :
      (k i : ℕ) (xs : List Asset) → i < k → total_holder i (answer_of (sub_queries k xs)) ≡ none
  total_holder_below k i [] h = refl
  total_holder_below k i (x ∷ xs) h = ground (arith, total_holder_below (suc k) i xs (omega arith))

  total_holder-append_none :
      (i : ℕ) (xs ys : List (ℕ × ℕ))
      → total_holder i xs ≡ none
      → total_holder i (xs ++ ys) ≡ total_holder i ys
  total_holder-append_none i [] ys h = refl
  total_holder-append_none i ((j, n) ∷ xs) ys h = ground (arith, total_holder-append_none i xs ys)

  total_holder-append_some :
      (i n : ℕ) (xs ys : List (ℕ × ℕ))
      → total_holder i xs ≡ some n
      → total_holder i (xs ++ ys) ≡ some n
  total_holder-append_some i n [] ys h = cc
  total_holder-append_some i n ((j, m) ∷ xs) ys h =
      ground (arith, total_holder-append_some i n xs ys)

  holders_at-some : (i : ℕ) (xs : List Asset) → i < length xs → (n : ℕ) × (holders_at i xs ≡ some n)
  holders_at-some i [] h = absurd (omega arith)
  holders_at-some zero (x ∷ xs) h = (holders x.denom, refl)
  holders_at-some (suc i) (x ∷ xs) h = holders_at-some i xs (omega arith)

  le_pages : (page limit : ℕ) → 0 < limit → page ≤ page * limit
  le_pages page limit h = grind arith

  pages_suc : (page limit : ℕ) → suc page * limit ≡ page * limit + limit
  pages_suc page limit = grind arith

  -- What has been asked for below an index.
  abbrev CountedBelow : ℕ → List Asset → List (ℕ × ℕ) → Type 0
  CountedBelow k assets totals =
      (i : ℕ) → i < k → i < length assets → total_holder i totals ≡ holders_at i assets

  CountedBelow-spread :
      (limit page : ℕ) (assets : List Asset) (totals : List (ℕ × ℕ))
      → CountedBelow (page * limit) assets totals
      → CountedBelow (suc page * limit) assets (
          answer_of (sub_queries (page * limit) (take limit (drop (page * limit) assets)))
          ++ totals)
  CountedBelow-spread limit page assets totals h i below inside =
      elim (Bool-cases (ltb i (page * limit))) [
        | inl old ↦
            let i_old : i < page * limit = ground arith in
            total_holder-append_none i _ totals
              (total_holder_below (page * limit) i (take limit (drop (page * limit) assets)) i_old)
            ∙ h i i_old inside
        | inr new ↦
            let k = page * limit in
            let from : k ≤ i = ground arith in
            let j = i - k in
            let split : i ≡ k + j = omega (arith) in
            let short : j < limit = omega (arith, pages_suc page limit) in
            let (n, there) = holders_at-some i assets inside in
            let here : total_holder i (answer_of (sub_queries k (take limit (drop k assets))))
                ≡ holders_at i assets =
              total_holder-answer_of k i j (take limit (drop k assets)) split
              ∙ holders_at-take limit j (drop k assets) short
              ∙ holders_at-drop k j assets
              ∙ ap (λ m. holders_at m assets) (sym split) in
            total_holder-append_some i n _ totals (here ∙ there) ∙ sym there
      ]

  module _ (env : TokenServices) (explorer : Explorer)
      (answers : (qs : List (ℕ × Option String))
        → env.fetch_holders explorer qs ≡ ok (some (answer_of qs))) where
    module _ (limit rounds page : ℕ) (assets : List Asset) (totals : List (ℕ × ℕ)) where
      abbrev after_page : List (ℕ × ℕ)
      after_page = answer_of (page_queries env explorer limit page assets) ++ totals

      holder_pages-last :
          ltb (suc page * limit) (length assets) ≡ false
          → holder_pages env explorer limit (suc rounds) page assets totals ≡ some (ok after_page)
      unfolding holder_pages
      holder_pages-last done =
          rw (answers (page_queries env explorer limit page assets)) (ground arith)

      holder_pages-next :
          ltb (suc page * limit) (length assets) ≡ true
          → holder_pages env explorer limit (suc rounds) page assets totals
            ≡ holder_pages env explorer limit rounds (suc page) assets after_page
      unfolding holder_pages
      holder_pages-next more =
          rw (answers (page_queries env explorer limit page assets)) (ground arith)

    holder_pages_all :
        (limit rounds page : ℕ) (assets : List Asset) (totals : List (ℕ × ℕ))
        → 0 < limit
        → length assets < rounds + page
        → page * limit ≤ length assets
        → CountedBelow (page * limit) assets totals
        → (all : List (ℕ × ℕ)) × (holder_pages env explorer limit rounds page assets totals
            ≡ some (ok all))
          × CountedBelow (length assets) assets all
    holder_pages_all limit zero page assets totals positive few inside h =
        absurd (omega (arith, le_pages page limit positive))
    holder_pages_all limit (suc rounds) page assets totals positive few inside h =
        let counted = CountedBelow-spread limit page assets totals h in
        let next = after_page limit rounds page assets totals in
        elim (Bool-cases (ltb (suc page * limit) (length assets))) [
          | inl more ↦
              let (all, done, counts) =
                holder_pages_all limit rounds (suc page) assets next positive (omega arith)
                  (ground arith) counted in
              (all, holder_pages-next limit rounds page assets totals more ∙ done, counts)
          | inr done ↦
              let enough : length assets ≤ suc page * limit = ground arith in
              (
                next,
                holder_pages-last limit rounds page assets totals done,
                λ i _ below. counted i (omega arith) below,
              )
        ]

    statistics_of-map :
        (now k : ℕ) (totals : List (ℕ × ℕ)) (xs : List Asset)
        → ((i j : ℕ) → i ≡ k + j → j < length xs → total_holder i totals ≡ holders_at j xs)
        → statistics_of env explorer now k totals xs
          ≡ ok (map (λ a. new_statistic env explorer now a (holders a.denom)) xs)
    statistics_of-map now k totals [] h = refl
    statistics_of-map now k totals (x ∷ xs) h =
        let later =
          statistics_of-map now (suc k) totals xs
            (λ i j e below. h i (suc j) (omega arith) (omega arith)) in
        let here : total_holder k totals ≡ some (holders x.denom) =
          h k 0 (omega arith) (omega arith) in
        ground (arith, here, later)

    -- The statistic of an asset: the number of the holders of its denom, at the time of the run.
    abbrev pub holders_now : ℕ → Asset → HolderStatistic
    holders_now now a = record {
      id = 0;
      total_holder = some (holders a.denom);
      date = now;
      asset_id = a.id;
    }

    -- If the indexer counts the holders of every denom that it is asked for, and there are more
    -- rounds than assets of the given types, then the question ends, and every asset of those types
    -- gets one statistic: the number of the holders of its own denom.
    pub get_holders_all :
        (types : List String) (now : ℕ) (s : Market)
        → length (env.assets.find (is_of_type types explorer.id) s.assets) < env.rounds
        → get_holders env explorer types now s ≡ (
          ok (map (holders_now now) (env.assets.find (is_of_type types explorer.id) s.assets)),
          s,
        )
    unfolding get_holders get_holder_with_pagination
    get_holders_all types now s few =
        let assets = env.assets.find (is_of_type types explorer.id) s.assets in
        let (all, done, counts) =
          holder_pages_all max_request env.rounds 0 assets [] (omega arith) (omega arith)
            (omega arith) (λ i below _. absurd (omega arith)) in
        rw
          (
            done,
            statistics_of-map now 0 all assets
                (λ i j e below. let same : i ≡ j = omega arith in rw same (counts j below below)),
          )
          refl
