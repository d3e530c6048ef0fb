-- ===== src/Balance/Parts.antt =====
-- The parts of a balance that both queries of AccountService share.
use aura_explorer_api.Prelude.{
  String, string_eq, Option, none, some, List, [], ◌∷◌, first, is_value, if◌then◌else◌,
}
use aura_explorer_api.Exec.{bad_request, message, Result, ok, err}
use aura_explorer_api.Balance.{Floats, DenomAmount, Delegation, Unbonding}

-- `throw new BadRequestException(err)` where something was thrown.
abbrev pub as_bad_request : {A : Type 0} → Result A → Result A
as_bad_request (ok a) = ok a
as_bad_request (err e) = err (bad_request (message e))

-- The first coin of a list, if it has the denom.
abbrev pub first_amount : String → Option (List DenomAmount) → Option (Option String)
first_amount denom (some (c ∷ _)) = if is_value c.denom denom then some c.amount else none
first_amount denom _ = none

module _ (fl : Floats) where
  open fl use {Float, zero_float, add, sub, positive, parse_float, parse_int}

  -- The last balance in the denom.
  abbrev balance_from : Float → String → List DenomAmount → Float
  balance_from found denom [] = found
  balance_from found denom (c ∷ rest) =
      balance_from (if is_value c.denom denom then parse_float c.amount else found) denom rest

  abbrev pub balances_amount : String → Option (List DenomAmount) → Float
  balances_amount denom none = zero_float
  balances_amount denom (some coins) = balance_from zero_float denom coins

  abbrev coin_amount : Option DenomAmount → Float
  coin_amount none = zero_float
  coin_amount (some c) = parse_float c.amount

  -- The first spendable balance in the denom.
  abbrev pub available_amount : String → Option (List DenomAmount) → Float
  available_amount denom none = zero_float
  available_amount denom (some coins) = coin_amount (first (λ c. is_value c.denom denom) coins)

  abbrev pub delegated_from : Float → List Delegation → Float
  delegated_from sum [] = sum
  delegated_from sum (d ∷ rest) = delegated_from (add sum (parse_int d.amount)) rest

  abbrev pub delegated_amount : List Delegation → Float
  delegated_amount ds = delegated_from zero_float ds

  abbrev pub entries_from : Float → List (Option String) → Float
  entries_from sum [] = sum
  entries_from sum (b ∷ rest) = entries_from (add sum (parse_int b)) rest

  abbrev entries_of : Float → Option (List (Option String)) → Float
  entries_of sum none = sum
  entries_of sum (some entries) = entries_from sum entries

  abbrev pub unbonding_from : Float → List Unbonding → Float
  unbonding_from sum [] = sum
  unbonding_from sum (u ∷ rest) = unbonding_from (entries_of sum u.entries) rest

  abbrev pub unbonding_amount : List Unbonding → Float
  unbonding_amount us = unbonding_from zero_float us

  -- What the first reward amounts to.
  abbrev pub reward_amount : String → Option (List DenomAmount) → Float
  reward_amount denom rewards = elim (first_amount denom rewards) [
    | none ↦ zero_float
    | some amount ↦ parse_int amount
  ]

  abbrev pub delegated_vesting : Float → Float → Float
  delegated_vesting balance available =
      if positive balance then sub balance available else zero_float

  abbrev pub total : Float → Float → Float → Float → Float → Float → Float
  total available delegated unbonding reward commission vesting =
      add (add (add (add (add available delegated) unbonding) reward) commission) vesting

-- What the first commission amounts to, or '0'.
abbrev pub commission_amount : String → Option (List DenomAmount) → Option String
commission_amount denom commission = elim (first_amount denom commission) [
  | none ↦ some "0"
  | some amount ↦ amount
]
