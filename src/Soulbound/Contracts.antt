-- ===== src/Soulbound/Contracts.antt =====
-- `getContracts` of src/components/soulbound-token/services/soulbound-token.service.ts, with
-- `countStatus` of repositories/soulbound-token.repository.ts: the contracts of a minter, with the
-- numbers of their tokens.
pub mod Counted
use aura_explorer_api.Prelude.{
  ℕ, ◌+◌, String, Bool, true, false, ◌&&◌, ◌==◌, string_eq, Option, none, some, List, [], ◌∷◌, map,
  keep_if, truthy, if◌then◌else◌,
}
use aura_explorer_api.Exec.{failure, ok, err, Exec}
use aura_explorer_api.NameTag.Address.{includes}
use aura_explorer_api.Soulbound.{
  Status, equipped, status_eq, SoulboundToken, Vault, SoulboundServices, Cw4973Contract,
}

-- SoulboundContractParasDto.
pub record ContractParas : Type 0 where
  pub minter_address : String
  pub keyword : Option String
  pub limit : ℕ
  pub offset : ℕ

-- SoulboundContractOutputDto, with what the indexer has of the contract.
pub record SoulboundContract : Type 0 where
  pub minter : String
  pub address : String
  pub total : ℕ
  pub claimed_qty : ℕ
  pub unclaimed_qty : ℕ

-- The indexer's page of contracts, and the number of all.
pub record ContractsPage : Type 0 where
  pub cw721_contract : List Cw4973Contract
  pub count : ℕ

pub record Contracts : Type 0 where
  pub contracts : List SoulboundContract
  pub count : ℕ

-- A row of `countStatus`.
pub record StatusCount : Type 0 where
  pub contract_address : String
  pub status : Status
  pub quantity : ℕ

abbrev pub is_group : String → Status → StatusCount → Bool
is_group address status g = g.contract_address == address && g.status == status

-- GROUP BY contract_address, status, with COUNT.
abbrev pub add_to_group : SoulboundToken → List StatusCount → List StatusCount
add_to_group t [] =
    record { contract_address = t.contract_address; status = t.status; quantity = 1 } ∷ []
add_to_group t (g ∷ gs) =
    let rest = add_to_group t gs in
    elim (is_group t.contract_address t.status g) [
      | true ↦ record g { quantity = g.quantity + 1 } ∷ gs
      | false ↦ g ∷ rest
    ]

abbrev pub group_by_status : List SoulboundToken → List StatusCount
group_by_status [] = []
group_by_status (t ∷ ts) = add_to_group t (group_by_status ts)

pub record Quantities : Type 0 where
  pub claimed : ℕ
  pub unclaimed : ℕ

-- One turn of the loop over the groups of a contract.
abbrev pub add_quantity : Quantities → StatusCount → Quantities
add_quantity q g =
    if g.status == equipped
    then record q { claimed = g.quantity }
    else record q { unclaimed = q.unclaimed + g.quantity }

abbrev pub add_quantities : Quantities → List StatusCount → Quantities
add_quantities q [] = q
add_quantities q (g ∷ gs) = add_quantities (add_quantity q g) gs

abbrev pub quantities_of : List StatusCount → String → Quantities
quantities_of status address =
    add_quantities (record { claimed = 0; unclaimed = 0 })
      (keep_if (λ g. g.contract_address == address) status)

abbrev pub with_quantities : Cw4973Contract → Quantities → SoulboundContract
with_quantities c q = record {
  minter = c.minter;
  address = c.address;
  total = q.claimed + q.unclaimed;
  claimed_qty = q.claimed;
  unclaimed_qty = q.unclaimed;
}

abbrev pub addresses_of : List Cw4973Contract → List String
addresses_of cs = map (λ (c : Cw4973Contract). c.address) cs

-- `keyword ? keyword : null`
abbrev pub or_null_text : Option String → Option String
or_null_text k = if truthy k then k else none

module _ (env : SoulboundServices) where
  pub count_status : List String → List SoulboundToken → List StatusCount
  count_status addresses tokens =
      group_by_status (env.tokens.find (λ t. includes addresses t.contract_address) tokens)

  -- The contracts of the page. Where there are none, nothing is counted.
  abbrev pub contracts_of_page : ContractsPage → List SoulboundToken → List SoulboundContract
  contracts_of_page page tokens = elim page.cw721_contract [
    | [] ↦ []
    | c ∷ cs ↦
        map
          (λ (x : Cw4973Contract).
            with_quantities x
              (quantities_of (count_status (addresses_of (c ∷ cs)) tokens) x.address))
          (c ∷ cs)
  ]

  abbrev pub contracts_in : Option ContractsPage → Exec Vault Contracts
  contracts_in none s = (err (failure "Cannot read properties of null (reading 'data')"), s)
  contracts_in (some page) s =
      (ok (record { contracts = contracts_of_page page s.tokens; count = page.count }), s)

  -- `fetch` is the indexer: none where the query failed.
  unfoldable pub get_contracts :
      (String → Option String → ℕ → ℕ → Option ContractsPage) → ContractParas → Exec Vault Contracts
  get_contracts fetch req =
      contracts_in (fetch req.minter_address (or_null_text req.keyword) req.limit req.offset)
