-- ===== src/Soulbound/Contracts/Counted.antt =====
-- The numbers that `getContracts` shows are those of the table.
use aura_explorer_api.Prelude.{
  ℕ, ◌+◌, ◌≤◌, ◌≡◌, refl, ap, ◌∙◌, inl, inr, String, Bool, true, false, not, ◌&&◌, ◌==◌, string_eq,
  nat_eq, eq_iff, arith, Option, some, List, [], ◌∷◌, map, All, Bool-cases, keep_if, count_if,
}
use aura_explorer_api.Exec.{ok}
use aura_explorer_api.NameTag.Address.{includes}
use aura_explorer_api.Repository.Rows.{All-imp}
use aura_explorer_api.Soulbound.{
  Status, equipped, status_eq, SoulboundToken, Vault, SoulboundServices, Cw4973Contract,
}
use aura_explorer_api.Soulbound.Contracts.{
  ContractParas, SoulboundContract, ContractsPage, StatusCount, is_group, add_to_group,
  group_by_status, Quantities, add_quantities, quantities_of, with_quantities, addresses_of,
  or_null_text, count_status, contracts_of_page, get_contracts,
}

-- The sum of the quantities of the groups whose key satisfies a condition.
abbrev sum_if : (String → Status → Bool) → List StatusCount → ℕ
sum_if p [] = 0
sum_if p (g ∷ gs) =
    elim (p g.contract_address g.status) [ true ↦ g.quantity | false ↦ 0 ] + sum_if p gs

abbrev of_token : (String → Status → Bool) → SoulboundToken → Bool
of_token p t = p t.contract_address t.status

group_key :
    (a : String) (st : Status) (g : StatusCount)
    → is_group a st g ≡ true
    → (g.contract_address ≡ a) × (g.status ≡ st)
group_key a st g h = (
  (string_eq.beq_iff g.contract_address a).0 (ground arith),
  (status_eq.beq_iff g.status st).0 (ground arith),
)

sum_if-add_to_group :
    (p : String → Status → Bool) (t : SoulboundToken) (gs : List StatusCount)
    → sum_if p (add_to_group t gs) ≡ elim (of_token p t) [ true ↦ 1 | false ↦ 0 ] + sum_if p gs
sum_if-add_to_group p t [] = refl
sum_if-add_to_group p t (g ∷ gs) = elim (Bool-cases (is_group t.contract_address t.status g)) [
  | inl same ↦
      let (here, there) = group_key t.contract_address t.status g same in
      let key : p g.contract_address g.status ≡ p t.contract_address t.status =
        rw (here, there) refl in
      rw (add_to_group, same, sum_if, key) (ground arith)
  | inr other ↦ rw (add_to_group, other) (ground (arith, sum_if-add_to_group p t gs))
]

sum_if-group_by_status :
    (p : String → Status → Bool) (ts : List SoulboundToken)
    → sum_if p (group_by_status ts) ≡ count_if (of_token p) ts
sum_if-group_by_status p [] = refl
sum_if-group_by_status p (t ∷ ts) =
    sum_if-add_to_group p t (group_by_status ts)
    ∙ ap (λ n. elim (of_token p t) as (λ _. ℕ) [ true ↦ 1 | false ↦ 0 ] + n)
        (sum_if-group_by_status p ts)

abbrev has_key : String → Status → SoulboundToken → Bool
has_key a st t = t.contract_address == a && t.status == st

token_key :
    (a : String) (st : Status) (t : SoulboundToken)
    → has_key a st t ≡ true
    → (t.contract_address ≡ a) × (t.status ≡ st)
token_key a st t h = (
  (string_eq.beq_iff t.contract_address a).0 (ground arith),
  (status_eq.beq_iff t.status st).0 (ground arith),
)

-- A token of another key adds no group of this one.
count_if-add_other :
    (a : String) (st : Status) (t : SoulboundToken) (gs : List StatusCount)
    → has_key a st t ≡ false
    → count_if (is_group a st) (add_to_group t gs) ≡ count_if (is_group a st) gs
count_if-add_other a st t [] h = ground arith
count_if-add_other a st t (g ∷ gs) h = elim (Bool-cases (is_group t.contract_address t.status g)) [
  | inl same ↦ rw (add_to_group, same) refl
  | inr other ↦ rw (add_to_group, other, count_if-add_other a st t gs h) refl
]

-- There is one group at most for a contract and a status.
count_if-add_to_group :
    (a : String) (st : Status) (t : SoulboundToken) (gs : List StatusCount)
    → count_if (is_group a st) gs ≤ 1
    → count_if (is_group a st) (add_to_group t gs) ≤ 1
count_if-add_to_group a st t [] h = ground arith
count_if-add_to_group a st t (g ∷ gs) h =
    elim (Bool-cases (is_group t.contract_address t.status g)) [
      | inl same ↦ rw (add_to_group, same) h
      | inr other ↦
          rw (add_to_group, other)
            (elim (Bool-cases (has_key a st t)) [
              | inr away ↦ rw (count_if-add_other a st t gs away) h
              | inl mine ↦
                  let (here, there) = token_key a st t mine in
                  let apart : is_group a st g ≡ false = rw (here, there) at other in
                  ground (arith, count_if-add_to_group a st t gs)
            ])
    ]

-- Of the contract, and equipped or not.
abbrev is_claimed : String → String → Status → Bool
is_claimed a address st = address == a && st == equipped

abbrev is_unclaimed : String → String → Status → Bool
is_unclaimed a address st = address == a && not (st == equipped)

abbrev loop_of : String → Quantities → List StatusCount → Quantities
loop_of a q gs = add_quantities q (keep_if (λ g. g.contract_address == a) gs)

loop_of-unclaimed :
    (a : String) (gs : List StatusCount) (q : Quantities)
    → (loop_of a q gs).unclaimed ≡ q.unclaimed + sum_if (is_unclaimed a) gs
loop_of-unclaimed a [] q = omega arith
loop_of-unclaimed a (g ∷ gs) q = elim (Bool-cases (g.contract_address == a)) [
  | inr other ↦ rw (keep_if, other) (ground (arith, loop_of-unclaimed a gs q))
  | inl here ↦ elim (Bool-cases (g.status == equipped)) [
    | inl e ↦
        rw (keep_if, here, add_quantities, e)
          (ground (arith, loop_of-unclaimed a gs (record q { claimed = g.quantity })))
    | inr e ↦
        rw (keep_if, here, add_quantities, e)
          (ground
            (arith, loop_of-unclaimed a gs (record q { unclaimed = q.unclaimed + g.quantity })))
  ]
]

loop_of-without :
    (a : String) (gs : List StatusCount) (q : Quantities)
    → count_if (is_group a equipped) gs ≡ 0
    → ((loop_of a q gs).claimed ≡ q.claimed) × (sum_if (is_claimed a) gs ≡ 0)
loop_of-without a [] q h = (refl, refl)
loop_of-without a (g ∷ gs) q h = elim (Bool-cases (g.contract_address == a)) [
  | inr other ↦ rw (keep_if, other) (ground (arith, loop_of-without a gs q))
  | inl here ↦ elim (Bool-cases (g.status == equipped)) [
    | inl e ↦ absurd (ground arith)
    | inr e ↦
        rw (keep_if, here, add_quantities, e)
          (ground (arith, loop_of-without a gs (record q { unclaimed = q.unclaimed + g.quantity })))
  ]
]

loop_of-claimed :
    (a : String) (gs : List StatusCount) (q : Quantities)
    → count_if (is_group a equipped) gs ≤ 1
    → q.claimed ≡ 0
    → (loop_of a q gs).claimed ≡ sum_if (is_claimed a) gs
loop_of-claimed a [] q h z = z
loop_of-claimed a (g ∷ gs) q h z = elim (Bool-cases (g.contract_address == a)) [
  | inr other ↦ rw (keep_if, other) (ground (arith, loop_of-claimed a gs q))
  | inl here ↦ elim (Bool-cases (g.status == equipped)) [
    | inl e ↦
        rw (keep_if, here, add_quantities, e)
          (ground (arith, loop_of-without a gs (record q { claimed = g.quantity })))
    | inr e ↦
        rw (keep_if, here, add_quantities, e)
          (ground (arith, loop_of-claimed a gs (record q { unclaimed = q.unclaimed + g.quantity })))
  ]
]

count_if-group_by_status :
    (a : String) (st : Status) (ts : List SoulboundToken)
    → count_if (is_group a st) (group_by_status ts) ≤ 1
count_if-group_by_status a st [] = omega arith
count_if-group_by_status a st (t ∷ ts) =
    count_if-add_to_group a st t (group_by_status ts) (count_if-group_by_status a st ts)

-- What the table has of a contract.
abbrev pub counted : List SoulboundToken → String → Quantities
counted tokens a = record {
  claimed = count_if (of_token (is_claimed a)) tokens;
  unclaimed = count_if (of_token (is_unclaimed a)) tokens;
}

quantities_of-counted :
    (ts : List SoulboundToken) (a : String) → quantities_of (group_by_status ts) a ≡ counted ts a
quantities_of-counted ts a =
    let start : Quantities = record { claimed = 0; unclaimed = 0 } in
    let gs = group_by_status ts in
    let claimed =
      loop_of-claimed a gs start (count_if-group_by_status a equipped ts) refl
      ∙ sum_if-group_by_status (is_claimed a) ts in
    let unclaimed = loop_of-unclaimed a gs start in
    let sum = sum_if-group_by_status (is_unclaimed a) ts in ground (arith, claimed, unclaimed, sum)

-- The tokens of other contracts do not matter.
counted-keep_if :
    (w : SoulboundToken → Bool) (a : String) (ts : List SoulboundToken)
    → ((t : SoulboundToken) → t.contract_address ≡ a → w t ≡ true)
    → (p : String → Status → Bool) → ((b : String) (st : Status) → p b st ≡ true → b ≡ a)
    → count_if (of_token p) (keep_if w ts) ≡ count_if (of_token p) ts
counted-keep_if w a [] on p only = refl
counted-keep_if w a (t ∷ ts) on p only = elim (Bool-cases (w t)) [
  | inl e ↦ rw (keep_if, e, count_if, counted-keep_if w a ts on p only) refl
  | inr e ↦ elim (Bool-cases (of_token p t)) [
    | inl here ↦ let h = on t (only t.contract_address t.status here) in cc
    | inr away ↦ rw (keep_if, e, count_if, away) (omega (arith, counted-keep_if w a ts on p only))
  ]
]

includes-addresses_of :
    (ys : List String) (cs : List Cw4973Contract)
    → ((a : String) → includes (addresses_of cs) a ≡ true → includes ys a ≡ true)
    → All (λ (c : Cw4973Contract). includes ys c.address ≡ true) cs
unfolding includes
includes-addresses_of ys [] h = tt
includes-addresses_of ys (c ∷ cs) h = (
  h c.address (ground (arith, eq_iff c.address c.address)),
  includes-addresses_of ys cs (λ a on. h a (ground arith)),
)

map-All : {A B : Type 0} (f g : A → B) (xs : List A) → All (λ x. f x ≡ g x) xs → map f xs ≡ map g xs
map-All f g [] h = refl
map-All f g (x ∷ xs) (h, hs) = rw (h, map-All f g xs hs) refl

module _ (env : SoulboundServices) where
  count_status-counted :
      (addresses : List String) (ts : List SoulboundToken) (a : String)
      → includes addresses a ≡ true
      → quantities_of (count_status env addresses ts) a ≡ counted ts a
  unfolding count_status
  count_status-counted addresses ts a on =
      let w : SoulboundToken → Bool = λ t. includes addresses t.contract_address in
      let kept : (t : SoulboundToken) → t.contract_address ≡ a → w t ≡ true = λ t e. rw e on in
      let same =
        λ (p : String → Status → Bool) (only : (b : String) (st : Status) → p b st ≡ true → b ≡ a).
          env.tokens.count-find w (of_token p) ts ∙ counted-keep_if w a ts kept p only in
      let claimed = same (is_claimed a) (λ b st h. (string_eq.beq_iff b a).0 (ground arith)) in
      let unclaimed = same (is_unclaimed a) (λ b st h. (string_eq.beq_iff b a).0 (ground arith)) in
      quantities_of-counted (env.tokens.find w ts) a ∙ rw (claimed, unclaimed) refl

  abbrev pub shown_contract : List SoulboundToken → Cw4973Contract → SoulboundContract
  shown_contract ts c = record {
    minter = c.minter;
    address = c.address;
    total =
        count_if (λ t. t.contract_address == c.address && t.status == equipped) ts
        + count_if (λ t. t.contract_address == c.address && not (t.status == equipped)) ts;
    claimed_qty = count_if (λ t. t.contract_address == c.address && t.status == equipped) ts;
    unclaimed_qty =
        count_if (λ t. t.contract_address == c.address && not (t.status == equipped)) ts;
  }

  contracts_of_page-counted :
      (page : ContractsPage) (ts : List SoulboundToken)
      → contracts_of_page env page ts ≡ map (shown_contract ts) page.cw721_contract
  contracts_of_page-counted page ts = go page.cw721_contract
    where
      go :
          (cs : List Cw4973Contract)
          → contracts_of_page env (record page { cw721_contract = cs }) ts
            ≡ map (shown_contract ts) cs
      go [] = refl
      go (c ∷ cs) = map-All _ _ (c ∷ cs) (
          All-imp _ _ (c ∷ cs)
            (λ (x : Cw4973Contract) on.
              ap (with_quantities x) (count_status-counted (addresses_of (c ∷ cs)) ts x.address on))
            (includes-addresses_of (addresses_of (c ∷ cs)) (c ∷ cs) (λ a on. on)))

  -- Each contract of the indexer's page is shown with as many claimed tokens as the table has equipped
  -- ones at its address, as many unclaimed ones as the table has others there, whatever their status,
  -- and as many in total as there are of both; nothing is changed.
  pub get_contracts-counted :
      (fetch : String → Option String → ℕ → ℕ → Option ContractsPage) (req : ContractParas)
      (page : ContractsPage) (s : Vault)
      → fetch req.minter_address (or_null_text req.keyword) req.limit req.offset ≡ some page
      → get_contracts env fetch req s ≡ (
        ok (record {
          contracts = map (shown_contract s.tokens) page.cw721_contract;
          count = page.count;
        }),
        s,
      )
  unfolding get_contracts
  get_contracts-counted fetch req page s h = rw (h, contracts_of_page-counted page s.tokens) refl
