-- ===== src/Balance/Listed/Own.antt =====
-- The balance of a listed account is the one it has alone.
use aura_explorer_api.Prelude.{
  String, ◌≡◌, ◌∙◌, ◌==◌, string_eq, refl, sym, ap, true, false, Option, none, some, List, [], ◌∷◌,
  first, any, All, Bool-cases, inl, inr,
}
use aura_explorer_api.Exec.{Exception, Result, ok, err, Result-cases}
use aura_explorer_api.Entities.{Explorer}
use aura_explorer_api.Balance.{
  Floats, AccountRow, Delegation, Unbonding, Validator, BalanceServices,
}
use aura_explorer_api.Balance.Listed.{
  query_delegator_delegations_requests, query_delegator_unbonding_delegations_requests, fulfilled,
  answer_of, get_delegator_delegations, get_delegator_unbonding_delegations,
  build_account_balance_result,
}

eq_true : (a b : String) → (a == b) ≡ true → a ≡ b
eq_true a b = (string_eq.beq_iff a b).0

same_true : (a : String) → (a == a) ≡ true
same_true a = (string_eq.beq_iff a a).1 refl

module _ {A : Type 0} (delegator : A → String) where
  -- All items are of the address.
  abbrev pub AllOf : String → List A → Type 0
  AllOf a xs = All (λ x. (delegator x == a) ≡ true) xs

  any_other :
      (a d : String) (xs : List A)
      → AllOf d xs
      → (d == a) ≡ false
      → any (λ x. delegator x == a) xs ≡ false
  any_other a d [] h other = refl
  any_other a d (x ∷ xs) (here, later) other =
      let e : delegator x ≡ d = eq_true (delegator x) d here in
      rw (e, other, any_other a d xs later other) refl

  -- What there is of one's own.
  abbrev own_of : Result (List A) → Option (List A)
  own_of (ok (x ∷ xs)) = some (x ∷ xs)
  own_of _ = none

  -- An answer without an item of the address is passed over.
  answer_of_skips :
      (a : String) (xs : List A) (answers : List (List A))
      → any (λ x. delegator x == a) xs ≡ false
      → answer_of delegator a (xs ∷ answers) ≡ answer_of delegator a answers
  unfolding answer_of
  answer_of_skips a xs answers h = rw (first, h) refl

  answer_of_found :
      (a : String) (x : A) (xs : List A) (answers : List (List A))
      → (delegator x == a) ≡ true
      → answer_of delegator a ((x ∷ xs) ∷ answers) ≡ some (x ∷ xs)
  unfolding answer_of
  answer_of_found a x xs answers h = rw (first, h) refl

  module _ (ask : String → Result (List A)) where
    -- All that is answered for a delegator is of the delegator.
    abbrev pub AnswersOwn : Type 0
    AnswersOwn = (d : String) (xs : List A) → ask d ≡ ok xs → AllOf d xs

    abbrev found : String → List String → Option (List A)
    found a addresses = answer_of delegator a (fulfilled ask addresses)

    found_err :
        (a d : String) (rest : List String) (e : Exception)
        → ask d ≡ err e
        → found a (d ∷ rest) ≡ found a rest
    unfolding fulfilled
    found_err a d rest e h = rw (fulfilled, h) refl

    fulfilled_ok :
        (d : String) (rest : List String) (xs : List A)
        → ask d ≡ ok xs
        → fulfilled ask (d ∷ rest) ≡ xs ∷ fulfilled ask rest
    unfolding fulfilled
    fulfilled_ok d rest xs h = rw (fulfilled, h) refl

    found_skips :
        (a d : String) (rest : List String) (xs : List A)
        → ask d ≡ ok xs
        → any (λ x. delegator x == a) xs ≡ false
        → found a (d ∷ rest) ≡ found a rest
    found_skips a d rest xs done h =
        ap (answer_of delegator a) (fulfilled_ok d rest xs done)
        ∙ answer_of_skips a xs (fulfilled ask rest) h

    found_other :
        AnswersOwn
        → (a d : String) (rest : List String) → (d == a) ≡ false
        → found a (d ∷ rest) ≡ found a rest
    found_other own a d rest other = elim (Result-cases (ask d)) [
      | inr (e, failed) ↦ found_err a d rest e failed
      | inl (xs, done) ↦ found_skips a d rest xs done (any_other a d xs (own d xs done) other)
    ]

    -- Nothing is found where there is nothing of one's own.
    found_none :
        AnswersOwn
        → (a : String) (addresses : List String) → own_of (ask a) ≡ none
        → found a addresses ≡ none
    unfolding answer_of fulfilled
    found_none own a [] h = refl
    found_none own a (d ∷ rest) h = elim (Bool-cases (d == a)) [
      | inr other ↦ found_other own a d rest other ∙ found_none own a rest h
      | inl same ↦
          let to_a : ask d ≡ ask a = ap ask (eq_true d a same) in
          elim (Result-cases (ask a)) [
            | inr (e, failed) ↦ found_err a d rest e (to_a ∙ failed) ∙ found_none own a rest h
            | inl ([], done) ↦ found_skips a d rest [] (to_a ∙ done) refl ∙ found_none own a rest h
            | inl (x ∷ xs, done) ↦ let h' = rw done at h in cc
          ]
    ]

    -- What is found for an address that was asked for is what was answered for it.
    pub found_own :
        AnswersOwn
        → (a : String) (addresses : List String) → any (λ d. d == a) addresses ≡ true
        → found a addresses ≡ own_of (ask a)
    found_own own a [] h = cc
    found_own own a (d ∷ rest) h = elim (Bool-cases (d == a)) [
      | inr other ↦
          let h' : any (λ d. d == a) rest ≡ true = rw other at h in
          found_other own a d rest other ∙ found_own own a rest h'
      | inl same ↦
          let to_a : ask d ≡ ask a = ap ask (eq_true d a same) in
          elim (Result-cases (ask a)) [
            | inr (e, failed) ↦
                found_none own a (d ∷ rest) (ap own_of failed) ∙ sym (ap own_of failed)
            | inl ([], done) ↦ found_none own a (d ∷ rest) (ap own_of done) ∙ sym (ap own_of done)
            | inl (x ∷ xs, done) ↦
                ap (answer_of delegator a) (fulfilled_ok d rest (x ∷ xs) (to_a ∙ done))
                ∙ answer_of_found a x xs (fulfilled ask rest) (own a (x ∷ xs) done).0
                ∙ sym (ap own_of done)
          ]
    ]

    pub found_alone :
        AnswersOwn
        → (a : String) (addresses : List String) → any (λ d. d == a) addresses ≡ true
        → found a addresses ≡ found a (a ∷ [])
    found_alone own a addresses h =
        let alone : any (λ d. d == a) (a ∷ []) ≡ true = rw (same_true a) refl in
        found_own own a addresses h ∙ sym (found_own own a (a ∷ []) alone)

module _ (fl : Floats) (env : BalanceServices) (explorer : Explorer) where
  -- If the response to a query for a delegator holds what is the delegator's only, the balance of an
  -- account in a list of addresses is the one computed for the account alone, whichever queries for the
  -- other addresses failed.
  pub build_account_balance_result_alone :
      (row : AccountRow) (addresses : List String) (validators : Option (List Validator))
      → AnswersOwn
          (λ x. x.delegator)
          (λ d. query_delegator_delegations_requests env d explorer.chain_id)
      → AnswersOwn
          (λ x. x.delegator)
          (λ d. query_delegator_unbonding_delegations_requests env d explorer.chain_id)
      → any (λ d. d == row.address) addresses ≡ true
      → build_account_balance_result fl env explorer
          (get_delegator_delegations env addresses explorer.chain_id)
          (get_delegator_unbonding_delegations env addresses explorer.chain_id)
          validators
          row
        ≡ build_account_balance_result fl env explorer
            (get_delegator_delegations env (row.address ∷ []) explorer.chain_id)
            (get_delegator_unbonding_delegations env (row.address ∷ []) explorer.chain_id)
            validators
            row
  unfolding build_account_balance_result get_delegator_delegations
      get_delegator_unbonding_delegations
  build_account_balance_result_alone row addresses validators own_d own_u asked =
      let same_d =
        found_alone (λ (x : Delegation). x.delegator)
          (λ d. query_delegator_delegations_requests env d explorer.chain_id) own_d row.address
          addresses asked in
      let same_u =
        found_alone (λ (x : Unbonding). x.delegator)
          (λ d. query_delegator_unbonding_delegations_requests env d explorer.chain_id) own_u
          row.address addresses asked in
      rw (same_d, same_u) refl
