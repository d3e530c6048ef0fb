-- ===== src/Token/Prices/Requested.antt =====
-- The coins whose prices are asked for.
use aura_explorer_api.Prelude.{
  take-add, drop-drop, take_all, ℕ, zero, suc, String, ◌+◌, ◌*◌, ◌-◌, ◌≡◌, ◌<◌, ◌≤◌, ◌∙◌, sym, ap,
  refl, List, [], ◌∷◌, ◌++◌, map, length, take, drop, arith, text_or_empty, Bool, true, false, ◌==◌,
  ◌&&◌, string_eq, leb, is_value, count_if, count_if-keep_if, Bool-cases, Option-cases, inl, inr,
}
use mathlib.Core.List.{map-append}
use native.Mathlib.Nat.{mod-lt, mod-add-div'}
use aura_explorer_api.Entities.{Asset}
use aura_explorer_api.Token.{Market, TokenServices, has_coin_id}
use aura_explorer_api.Token.Prices.{
  insert_by_id, by_id, get_assets_having_coin_id, with_page, pages_from, ceil_div,
  sync_cw20_token_price, count_assets_having_coin_id,
}

abbrev pub joined : List (List String) → List String
joined [] = []
joined (xs ∷ rest) = xs ++ joined rest

joined-with_page :
    (xs : List String) (rest : List (List String)) → joined (with_page xs rest) ≡ xs ++ joined rest
joined-with_page [] rest = refl
joined-with_page (x ∷ xs) rest = refl

-- The order keeps every asset.
count_if-insert_by_id :
    (p : Asset → Bool) (a : Asset) (xs : List Asset)
    → count_if p (insert_by_id a xs) ≡ count_if p (a ∷ xs)
count_if-insert_by_id p a [] = refl
count_if-insert_by_id p a (b ∷ rest) = elim (Bool-cases (leb a.id b.id)) [
  | inl e ↦ rw e refl
  | inr e ↦ rw e (omega (arith, count_if-insert_by_id p a rest))
]

count_if-by_id : (p : Asset → Bool) (xs : List Asset) → count_if p (by_id xs) ≡ count_if p xs
unfolding by_id
count_if-by_id p [] = refl
count_if-by_id p (a ∷ rest) =
    omega (arith, count_if-insert_by_id p a (by_id rest), count_if-by_id p rest)

count_if-all : {A : Type 0} (xs : List A) → count_if (λ _. true) xs ≡ length xs
count_if-all [] = refl
count_if-all (x ∷ xs) = omega (arith, count_if-all xs)

count_if-map :
    {A B : Type 0} (f : A → B) (p : B → Bool) (xs : List A)
    → count_if p (map f xs) ≡ count_if (λ x. p (f x)) xs
count_if-map f p [] = refl
count_if-map f p (x ∷ xs) = omega (arith, count_if-map f p xs)

count_if-same :
    {A : Type 0} (p q : A → Bool) (xs : List A)
    → ((x : A) → p x ≡ q x)
    → count_if p xs ≡ count_if q xs
count_if-same p q [] h = refl
count_if-same p q (x ∷ xs) h = rw (h x, count_if-same p q xs h) refl

count_if-nothing : {A : Type 0} (xs : List A) → count_if (λ _. false) xs ≡ 0
count_if-nothing [] = refl
count_if-nothing (x ∷ xs) = omega (arith, count_if-nothing xs)

-- An asset with a coin has the given one, or none that is empty.
coin_of :
    (c : String)
    → (c == "") ≡ false
    → (a : Asset) → (has_coin_id a && text_or_empty a.coin_id == c) ≡ is_value a.coin_id c
coin_of c given a = elim (Option-cases a.coin_id) [
  | inl e ↦ rw e refl
  | inr (t, e) ↦ rw e (elim (Bool-cases (t == c)) [
    | inr other ↦ rw other (ground arith)
    | inl same ↦
        let it : t ≡ c = (string_eq.beq_iff t c).0 same in
        let full : (t == "") ≡ false = rw it given in rw (same, full) refl
  ])
]

no_empty_coin : (a : Asset) → (has_coin_id a && text_or_empty a.coin_id == "") ≡ false
no_empty_coin a = elim (Option-cases a.coin_id) [
  | inl e ↦ rw e refl
  | inr (t, e) ↦
      rw e (elim (Bool-cases (t == "")) [ inl blank ↦ rw blank refl | inr full ↦ rw full refl ])
]

module _ (env : TokenServices) (s : Market) where
  abbrev texts : List Asset → List String
  texts xs = map (λ a. text_or_empty a.coin_id) xs

  abbrev limit : ℕ
  limit = env.coingecko_max_request

  abbrev coins : List Asset
  coins = by_id (env.assets.find has_coin_id s.assets)

  joined-pages_from :
      (n i : ℕ) → joined (pages_from env n i s) ≡ texts (take (n * limit) (drop (i * limit) coins))
  joined-pages_from zero i = let e : 0 * limit ≡ 0 = omega arith in rw e refl
  joined-pages_from (suc n) i =
      let page = get_assets_having_coin_id env limit i s in
      let left = drop (i * limit) coins in
      let e : suc n * limit ≡ limit + n * limit = grind arith in
      let e' : suc i * limit ≡ i * limit + limit = grind arith in
      joined-with_page page (pages_from env n (suc i) s)
      ∙ ap (λ xs. page ++ xs) (joined-pages_from n (suc i))
      ∙ ap (λ m. texts (take limit left) ++ texts (take (n * limit) (drop m coins))) e'
      ∙ ap (λ xs. texts (take limit left) ++ texts (take (n * limit) xs))
          (sym (drop-drop (i * limit) limit coins))
      ∙ sym (
          map-append (λ (a : Asset). text_or_empty a.coin_id) (take limit left)
            (take (n * limit) (drop limit left)))
      ∙ ap texts (sym (take-add limit (n * limit) left))
      ∙ ap (λ m. texts (take m left)) (sym e)

  le-ceil_div : (n m : ℕ) → 0 < m → n ≤ ceil_div n m * m
  le-ceil_div n m h = omega (arith, mod-add-div' (n + (m - 1)) m, mod-lt (n + (m - 1)) h)

  count-coins :
      (p : Asset → Bool) → count_if p coins ≡ count_if (λ a. has_coin_id a && p a) s.assets
  count-coins p =
      count_if-by_id p (env.assets.find has_coin_id s.assets)
      ∙ (env.assets.count-find has_coin_id p s.assets ∙ count_if-keep_if has_coin_id p s.assets)

  length-coins : length coins ≡ count_if has_coin_id s.assets
  length-coins =
      sym (count_if-all coins)
      ∙ (count-coins (λ _. true)
          ∙ count_if-same (λ a. has_coin_id a && true) has_coin_id s.assets (λ a. ground arith))

  joined-requests :
      0 < env.coingecko_max_request → joined (sync_cw20_token_price env s) ≡ texts coins
  unfolding sync_cw20_token_price
  joined-requests positive =
      let n = count_assets_having_coin_id env s in
      let pages = ceil_div n limit in
      let e : 0 * limit ≡ 0 = omega arith in
      let enough : length coins ≤ pages * limit = omega (
        arith,
        length-coins,
        env.assets.count_lem has_coin_id s.assets,
        le-ceil_div n limit positive,
      ) in
      joined-pages_from pages 0
      ∙ ap (λ m. texts (take (pages * limit) (drop m coins))) e
      ∙ ap texts (take_all (pages * limit) coins enough)

  -- If Coingecko may be asked for at least one coin at once, the requests for prices name together
  -- every coin as often as the table has assets with it, and no empty text: no page is missed and none
  -- is asked twice.
  pub sync_cw20_token_price_all :
      0 < env.coingecko_max_request
      → (coin : String) → (coin == "") ≡ false
      → (count_if (λ x. x == coin) (joined (sync_cw20_token_price env s))
          ≡ count_if (λ a. is_value a.coin_id coin) s.assets)
        × (count_if (λ x. x == "") (joined (sync_cw20_token_price env s)) ≡ 0)
  sync_cw20_token_price_all positive coin given =
      let text : Asset → String = λ a. text_or_empty a.coin_id in
      let all = joined-requests positive in
      let named = λ (x : String).
        ap (count_if (λ y. y == x)) all
        ∙ (count_if-map text (λ y. y == x) coins ∙ count-coins (λ a. text a == x)) in
      (
        named coin
            ∙ count_if-same (λ a. has_coin_id a && text a == coin) (λ a. is_value a.coin_id coin)
                s.assets (coin_of coin given),
        named ""
            ∙ (count_if-same (λ a. has_coin_id a && text a == "") (λ _. false) s.assets
                  no_empty_coin
                ∙ count_if-nothing s.assets),
      )
