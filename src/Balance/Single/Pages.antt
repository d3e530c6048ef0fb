-- ===== src/Balance/Single/Pages.antt =====
-- However many pages the delegations and the unbonding delegations take, all of them count.
use aura_explorer_api.Prelude.{
  ℕ, zero, suc, String, ◌≡◌, ◌≤◌, ap, refl, true, false, Option, none, some, List, [], ◌∷◌, ◌++◌,
  length, truthy, arith, map, sym, ◌∙◌, Option-cases, inl, inr, if◌then◌else◌,
}
use aura_explorer_api.Exec.{ok}
use aura_explorer_api.Balance.{
  Floats, AccountRow, Delegation, Unbonding, Validator, Page, BalanceServices,
}
use aura_explorer_api.Balance.Parts.{
  delegated_from, entries_from, unbonding_from, balances_amount, available_amount,
}
use aura_explorer_api.Balance.Single.{
  with_page, pages_from, stake_reward, commission, get_total_balance_by_address,
}

module _ {A : Type 0} (fetch : Option String → Option (Page A)) where
  -- A page, and under the key that each page names the next one. The last page names none.
  abbrev pub Linked : Option String → Page A → List (Page A) → Type 0
  Linked key p [] = (fetch key ≡ some p) × (truthy p.next_key ≡ false)
  Linked key p (q ∷ rest) =
      (fetch key ≡ some p) × (truthy p.next_key ≡ true) × Linked p.next_key q rest

  abbrev pub items_of : List (Page A) → List A
  items_of [] = []
  items_of (p ∷ rest) = p.items ++ items_of rest

  append-nil : (xs : List A) → xs ++ [] ≡ xs
  append-nil [] = refl
  append-nil (x ∷ xs) = ap (λ rest. x ∷ rest) (append-nil xs)

  pages_from-Linked :
      (rounds : ℕ) (key : Option String) (p : Page A) (rest : List (Page A))
      → Linked key p rest
      → suc (length rest) ≤ rounds
      → pages_from fetch rounds key ≡ some (ok (items_of (p ∷ rest)))
  unfolding pages_from
  pages_from-Linked zero key p rest h enough = absurd (omega arith)
  pages_from-Linked (suc rounds) key p [] (here, last) enough =
      rw (with_page, here, last, append-nil p.items) refl
  pages_from-Linked (suc rounds) key p (q ∷ rest) (here, more, later) enough =
      rw (with_page, here, more, pages_from-Linked rounds p.next_key q rest later (omega arith))
        refl

-- The entries of unbonding delegations, where they have any.
abbrev pub entries_in : List Unbonding → List (Option String)
entries_in [] = []
entries_in (u ∷ rest) = elim u.entries [ none ↦ [] | some entries ↦ entries ] ++ entries_in rest

module _ (fl : Floats) where
  open fl use {Float, zero_float, add, sub, positive, parse_float, parse_int}

  -- A sum of texts that are read as integers, in their order.
  abbrev pub sum_from : Float → List (Option String) → Float
  sum_from sum [] = sum
  sum_from sum (amount ∷ rest) = sum_from (add sum (parse_int amount)) rest

  sum_from-append :
      (xs ys : List (Option String)) (sum : Float)
      → sum_from sum (xs ++ ys) ≡ sum_from (sum_from sum xs) ys
  sum_from-append [] ys sum = refl
  sum_from-append (x ∷ xs) ys sum = sum_from-append xs ys (add sum (parse_int x))

  delegated_from-sum :
      (ds : List Delegation) (sum : Float)
      → delegated_from fl sum ds ≡ sum_from sum (map (λ d. d.amount) ds)
  delegated_from-sum [] sum = refl
  delegated_from-sum (d ∷ rest) sum = delegated_from-sum rest (add sum (parse_int d.amount))

  entries_from-sum :
      (xs : List (Option String)) (sum : Float) → entries_from fl sum xs ≡ sum_from sum xs
  entries_from-sum [] sum = refl
  entries_from-sum (x ∷ xs) sum = entries_from-sum xs (add sum (parse_int x))

  unbonding_from-sum :
      (us : List Unbonding) (sum : Float) → unbonding_from fl sum us ≡ sum_from sum (entries_in us)
  unbonding_from-sum [] sum = refl
  unbonding_from-sum (u ∷ rest) sum = elim (Option-cases u.entries) [
    | inl e ↦ rw e (unbonding_from-sum rest sum)
    | inr (xs, e) ↦ rw e (
        unbonding_from-sum rest (entries_from fl sum xs)
        ∙ ap (λ n. sum_from n (entries_in rest)) (entries_from-sum xs sum)
        ∙ sym (sum_from-append xs (entries_in rest) sum))
  ]

module _ (fl : Floats) (env : BalanceServices) (address : String) where
  open fl use {zero_float, add, sub, positive, parse_float}

  -- If the LCD links the pages of both queries, and there are at least as many rounds as pages, the
  -- request for the balance of an account ends. Its amount is the available amount, the amounts of
  -- the delegations of all pages, the amounts of all entries of the unbonding delegations of all
  -- pages, the reward, the commission, and the rest of a positive balance over what is available.
  pub get_total_balance_by_address_all :
      (row : AccountRow) (others : List AccountRow) (validators : Option (List Validator))
      (d : Page Delegation) (ds : List (Page Delegation)) (u : Page Unbonding)
      (us : List (Page Unbonding))
      → env.fetch_account address ≡ ok (some (row ∷ others))
      → env.fetch_validators address ≡ ok validators
      → Linked (env.delegations_page address) none d ds
      → suc (length ds) ≤ env.rounds
      → Linked (env.unbonding_page address) none u us
      → suc (length us) ≤ env.rounds
      → let staked = items_of (env.delegations_page address) (d ∷ ds) in
        let unbonded = items_of (env.unbonding_page address) (u ∷ us) in
        let balance = balances_amount fl env.minimal_denom row.balances in
        let available = available_amount fl env.minimal_denom row.spendable_balances in
        get_total_balance_by_address fl env address
        ≡ ok (record {
          address = address;
          amount =
              add
                (add
                  (add
                    (add
                      (add available (sum_from fl zero_float (map (λ x. x.amount) staked)))
                      (sum_from fl zero_float (entries_in unbonded)))
                    (stake_reward fl env address staked))
                  (parse_float (commission fl env address validators)))
                (if positive balance then sub balance available else zero_float);
        })
  unfolding get_total_balance_by_address
  get_total_balance_by_address_all row others validators d ds u us known asked hd nd hu nu =
      rw
        (
          known,
          asked,
          pages_from-Linked (env.delegations_page address) env.rounds none d ds hd nd,
          pages_from-Linked (env.unbonding_page address) env.rounds none u us hu nu,
          delegated_from-sum fl (items_of (env.delegations_page address) (d ∷ ds)) zero_float,
          unbonding_from-sum fl (items_of (env.unbonding_page address) (u ∷ us)) zero_float,
        )
        refl
