-- ===== src/Campaign/Earned.antt =====
-- When a quest is verified.
use aura_explorer_api.Prelude.{
  ℕ, String, ◌+◌, ◌≡◌, ◌≢◌, ◌↔◌, subst, ◌≤◌, ◌∙◌, ap, refl, ◌==◌, nat_eq, string_eq, Bool, true,
  false, Option, none, some, List, [], ◌∷◌, length, keep_if, count_if, count_if-append, Bool-cases,
  inl, inr, arith, ◌⊎◌, is_value, ltb,
}
use aura_explorer_api.Exec.{Result, ok, err}
use aura_explorer_api.Exec.Results.{map_ok}
use aura_explorer_api.Entities.{Explorer}
use aura_explorer_api.Campaign.{
  Amount, nan, minus, plus, reaches, or_ten, ActionType, mint_nft, hold_aura, add_liquidity, swap,
  punkga, action_type, CampaignParams, Balance, HaloAction, add_pool, swap_pool, Answer,
  CampaignServices, verified, answer, domain, is_enough, senders_of, get_sender_from_halo,
  verify_punkga, verify_hold_aura, verify_mint_nft, verify_with_uni_v2, verify_with_uni_v3,
  verify_action_halo, verify, verify_quest, mints_reached, any_enough, halo_reached, level_reached,
  sent_often, pool_senders, by_version, first_level, senders_or_none,
}

-- A number that is asked for: none is reached where it cannot be read, and one below 0 always.
abbrev pub Reaches : ℕ → Amount → Type 0
Reaches n nan = ⊥
Reaches n (minus _) = Unit
Reaches n (plus a) = a ≤ n

-- The first level of a user counts.
abbrev pub FirstReaches : List ℕ → Amount → Type 0
FirstReaches [] a = ⊥
FirstReaches (level ∷ _) a = Reaches level a

reaches_iff : (n : ℕ) (a : Amount) → (reaches n a ≡ true) ↔ Reaches n a
reaches_iff n nan = (λ h. cc, λ h. absurd h)
reaches_iff n (minus m) = (λ h. tt, λ h. refl)
reaches_iff n (plus a) = ground arith

-- A test of an answer holds exactly if the answer is there and what it says satisfies the condition.
module _ {A : Type 0} (P : A → Type 0) (f : Answer A → Result Bool) where
  answer_iff :
      f none ≢ ok true
      → f (some none) ≢ ok true
      → ((x : A) → (f (some (some x)) ≡ ok true) ↔ P x)
      → (a : Answer A) → (f a ≡ ok true) ↔ ((x : A) × (a ≡ some (some x)) × P x)
  answer_iff failed missing good none = (λ h. absurd (failed h), λ p. let e = p.1 in cc)
  answer_iff failed missing good (some none) = (λ h. absurd (missing h), λ p. let e = p.1 in cc)
  answer_iff failed missing good (some (some x)) = (
    λ h. (x, refl, (good x).0 h),
    λ p. let e = p.1 in let same : p.0 ≡ x = cc in (good x).1 (subst P same p.2),
  )

ok_iff : (b : Bool) → (ok b ≡ ok true) ↔ (b ≡ true)
ok_iff b = (λ h. cc, λ h. cc)

module _ (env : CampaignServices) (e : Explorer) (q : CampaignParams) where
  -- How often the address sent a transaction of a pool.
  abbrev times_in : Option (List String) → ℕ
  times_in none = 0
  times_in (some senders) = count_if (λ s. s == q.address) senders

  abbrev times : HaloAction → String → ℕ
  times action pool = times_in (env.fetch_senders (domain env e) action pool)

  abbrev pub all_times : HaloAction → List String → ℕ
  all_times action [] = 0
  all_times action (pool ∷ pools) = times action pool + all_times action pools

  -- A balance in the coin of the chain covers the amount.
  abbrev HasCovering : List Balance → Type 0
  HasCovering [] = ⊥
  HasCovering (b ∷ balances) =
      ((b.type ≡ some "NATIVE")
        × (b.denom ≡ some e.minimal_denom)
        × (env.covers b.amount q.amount e.decimal ≡ true))
      ⊎ HasCovering balances

  abbrev is_second : Amount → Bool
  is_second (plus n) = n == 2
  is_second _ = false

  abbrev EarnedAtHalo : HaloAction → Bool → Type 0
  EarnedAtHalo action true =
      (pools : List String) × (env.fetch_pools (domain env e) ≡ some (some pools))
      × Reaches (all_times action pools) q.amount
  EarnedAtHalo action false =
      (found : List String) × (env.fetch_halo (domain env e) action q.address ≡ some (some found))
      × Reaches (length found) q.amount

  -- What each quest wants.
  abbrev pub Earned : ActionType → Type 0
  Earned mint_nft =
      (mints : List String) × (env.fetch_mints e q.address (or_ten q.amount) ≡ some (some mints))
      × Reaches (length mints) q.amount
  Earned hold_aura =
      (balances : List Balance) × (env.fetch_balances e q.address ≡ some (some balances))
      × HasCovering balances
  Earned add_liquidity = EarnedAtHalo add_pool (is_second q.uni_version)
  Earned swap = EarnedAtHalo swap_pool (is_second q.uni_version)
  Earned punkga =
      (levels : List ℕ) × (env.fetch_levels q.address ≡ some (some levels))
      × FirstReaches levels q.amount

  ok_reaches_iff : (n : ℕ) → (ok (reaches n q.amount) ≡ ok true) ↔ Reaches n q.amount
  ok_reaches_iff n = (
    λ h. (reaches_iff n q.amount).0 ((ok_iff (reaches n q.amount)).0 h),
    λ h. (ok_iff (reaches n q.amount)).1 ((reaches_iff n q.amount).1 h),
  )

  verify_mint_nft_iff : (verify_mint_nft env e q ≡ ok true) ↔ Earned mint_nft
  unfolding verify_mint_nft
  verify_mint_nft_iff =
      answer_iff (λ mints. Reaches (length mints) q.amount) (mints_reached env q.amount)
        (λ h. ground arith) (λ h. ground arith) (λ mints. ok_reaches_iff (length mints)) _

  length-keep_if : {A : Type 0} (p : A → Bool) (xs : List A) → length (keep_if p xs) ≡ count_if p xs
  length-keep_if p [] = refl
  length-keep_if p (x ∷ xs) = ground (arith, length-keep_if p xs)

  is_value_iff : (o : Option String) (text : String) → (is_value o text ≡ true) ↔ (o ≡ some text)
  is_value_iff none text = (λ h. cc, λ h. cc)
  is_value_iff (some t) text =
      (λ h. ap some ((string_eq.beq_iff t text).0 h), λ h. (string_eq.beq_iff t text).1 (cc))

  is_enough_iff :
      (b : Balance)
      → (is_enough env e q.amount b ≡ true) ↔ (
          (b.type ≡ some "NATIVE")
          × (b.denom ≡ some e.minimal_denom)
          × (env.covers b.amount q.amount e.decimal ≡ true))
  is_enough_iff b = (
    λ h. (
      (is_value_iff b.type "NATIVE").0 (ground arith),
      (is_value_iff b.denom e.minimal_denom).0 (ground arith),
      ground arith,
    ),
    λ (native, own, covered).
        rw
          (
            (is_value_iff b.type "NATIVE").1 native,
            (is_value_iff b.denom e.minimal_denom).1 own,
            covered,
          )
          refl,
  )

  any_enough_iff :
      (balances : List Balance)
      → (ltb 0 (length (keep_if (is_enough env e q.amount) balances)) ≡ true) ↔ HasCovering balances
  any_enough_iff [] = (λ h. cc, λ h. absurd h)
  any_enough_iff (b ∷ balances) = elim (Bool-cases (is_enough env e q.amount b)) [
    | inl enough ↦ (λ h. inl ((is_enough_iff b).0 enough), λ h. rw (keep_if, enough) (ground arith))
    | inr short ↦ (
      λ h. inr ((any_enough_iff balances).0 (rw (keep_if, short) at h)),
      λ h. elim h [
        | inl here ↦ let enough = (is_enough_iff b).1 here in cc
        | inr there ↦ rw (keep_if, short) ((any_enough_iff balances).1 there)
      ],
    )
  ]

  verify_hold_aura_iff : (verify_hold_aura env e q ≡ ok true) ↔ Earned hold_aura
  unfolding verify_hold_aura
  verify_hold_aura_iff =
      answer_iff HasCovering (λ a. ok (any_enough env e q.amount a)) (λ h. ground arith)
        (λ h. ground arith)
        (λ balances. (
          λ h. (any_enough_iff balances).0 ((ok_iff _).0 h),
          λ h. (ok_iff _).1 ((any_enough_iff balances).1 h),
        ))
        _

  count_if-senders_or_none :
      (o : Option (List String))
      → count_if (λ s. s == q.address) (senders_or_none env o) ≡ times_in o
  count_if-senders_or_none none = refl
  count_if-senders_or_none (some senders) = refl

  count_if-senders_of :
      (action : HaloAction) (pools : List String)
      → count_if (λ s. s == q.address) (senders_of env (domain env e) action pools)
        ≡ all_times action pools
  unfolding senders_of
  count_if-senders_of action [] = refl
  count_if-senders_of action (pool ∷ pools) =
      let here = env.fetch_senders (domain env e) action pool in
      count_if-append (λ s. s == q.address) (senders_or_none env here)
        (senders_of env (domain env e) action pools)
      ∙ ap (λ n. n + count_if (λ s. s == q.address) (senders_of env (domain env e) action pools))
          (count_if-senders_or_none here)
      ∙ ap (λ n. times action pool + n) (count_if-senders_of action pools)

  verify_with_uni_v3_iff :
      (action : HaloAction)
      → (verify_with_uni_v3 env (domain env e) action q ≡ ok true) ↔ EarnedAtHalo action false
  unfolding verify_with_uni_v3
  verify_with_uni_v3_iff action =
      answer_iff (λ found. Reaches (length found) q.amount) (λ a. ok (halo_reached env q.amount a))
        (λ h. ground arith) (λ h. ground arith) (λ found. ok_reaches_iff (length found)) _

  verify_with_uni_v2_iff :
      (action : HaloAction)
      → (verify_with_uni_v2 env (domain env e) action q ≡ ok true) ↔ EarnedAtHalo action true
  unfolding verify_with_uni_v2 get_sender_from_halo
  verify_with_uni_v2_iff action =
      answer_iff (λ pools. Reaches (all_times action pools) q.amount)
        (λ a. sent_often env q (pool_senders env (domain env e) action a)) (λ h. ground arith)
        (λ h. ground arith)
        (λ pools.
          let found = senders_of env (domain env e) action pools in
          let counted : length (keep_if (λ s. s == q.address) found) ≡ all_times action pools =
            length-keep_if (λ s. s == q.address) found ∙ count_if-senders_of action pools in
          subst
            (λ n.
              (ok (reaches (length (keep_if (λ s. s == q.address) found)) q.amount) ≡ ok true)
              ↔ Reaches n q.amount)
            counted (ok_reaches_iff (length (keep_if (λ s. s == q.address) found))))
        _

  by_version_iff :
      (action : HaloAction) (version : Amount)
      → (by_version env version
            (verify_with_uni_v2 env (domain env e) action q)
            (verify_with_uni_v3 env (domain env e) action q)
          ≡ ok true)
        ↔ EarnedAtHalo action (is_second version)
  by_version_iff action nan = verify_with_uni_v3_iff action
  by_version_iff action (minus n) = verify_with_uni_v3_iff action
  by_version_iff action (plus n) = elim (Bool-cases (n == 2)) [
    | inl second ↦ rw (second, EarnedAtHalo) (verify_with_uni_v2_iff action)
    | inr other ↦ rw (other, EarnedAtHalo) (verify_with_uni_v3_iff action)
  ]

  verify_action_halo_iff :
      (action : HaloAction)
      → (verify_action_halo env (domain env e) action q ≡ ok true)
        ↔ EarnedAtHalo action (is_second q.uni_version)
  unfolding verify_action_halo
  verify_action_halo_iff action = by_version_iff action q.uni_version

  first_level_iff :
      (levels : List ℕ)
      → (ok (first_level env levels q.amount) ≡ ok true) ↔ FirstReaches levels q.amount
  first_level_iff [] = (λ h. cc, λ h. absurd h)
  first_level_iff (level ∷ rest) = ok_reaches_iff level

  verify_punkga_iff : (verify_punkga env q ≡ ok true) ↔ Earned punkga
  unfolding verify_punkga
  verify_punkga_iff =
      answer_iff (λ levels. FirstReaches levels q.amount) (level_reached env q.amount)
        (λ h. ground arith) (λ h. ground arith) first_level_iff _

  verify_iff : (action : ActionType) → (verify env e q action ≡ ok true) ↔ Earned action
  unfolding verify
  verify_iff mint_nft = verify_mint_nft_iff
  verify_iff hold_aura = verify_hold_aura_iff
  verify_iff add_liquidity = verify_action_halo_iff add_pool
  verify_iff swap = verify_action_halo_iff swap_pool
  verify_iff punkga = verify_punkga_iff

  -- A result is answered as verified exactly if it is true.
  answer-verified : (r : Result Bool) → (map_ok answer r ≡ ok verified) ↔ (r ≡ ok true)
  answer-verified (err x) = (λ h. cc, λ h. cc)
  answer-verified (ok true) = (λ h. refl, λ h. refl)
  answer-verified (ok false) = (λ h. ground arith, λ h. cc)

  -- For a known chain and a known action: a quest is answered as verified exactly if what the action
  -- wants is there. That is as many mints, as many transactions at Halo Trade or as high a first level
  -- as the amount, or a balance in the coin of the chain that covers it; at the second version of Halo
  -- Trade the transactions of the address are counted over all pools whose request succeeded. A number
  -- below 0 is always reached, and one that cannot be read never.
  pub verify_quest_iff :
      (action : ActionType)
      → env.find_explorer q.chain_id ≡ some e
      → action_type q.action ≡ some action
      → (verify_quest env q ≡ ok verified) ↔ Earned action
  unfolding verify_quest
  verify_quest_iff action known named =
      rw (known, named)
        (
          λ h. (verify_iff action).0 ((answer-verified (verify env e q action)).0 h),
          λ h. (answer-verified (verify env e q action)).1 ((verify_iff action).1 h),
        )
