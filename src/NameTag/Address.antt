-- ===== src/NameTag/Address.antt =====
-- Checking an address: `isValidBench32Address` of src/shared/utils/service.util.ts and `verify` of
-- src/shared/utils/verify-address.util.ts.
pub mod Verdict
use Prim.Native.String.{count}
use text.Mathlib.Text.{find?}
use aura_explorer_api.Prelude.{
  ℕ, String, Bool, true, false, not, ◌&&◌, ◌||◌, ◌==◌, ◌-◌, nat_eq, string_eq, Option, none, some,
  List, [], ◌∷◌, truthy, text_or_empty, is_value, is_some, if◌then◌else◌,
}
use aura_explorer_api.Exec.{Exception, Result, ok, err}
use aura_explorer_api.NameTag.{
  NameTagType, account, contract, type_eq, TagError, invalid_format, invalid_type_address,
  invalid_evm_format, TagServices,
}
use aura_explorer_api.Entities.{Explorer}

-- EVM_EXTENSIONS: the addresses of precompiled contracts.
unfoldable pub evm_extensions : List String
evm_extensions =
    "0x0000000000000000000000000000000000000001" ∷ "0x0000000000000000000000000000000000000002"
    ∷ "0x0000000000000000000000000000000000000003" ∷ "0x0000000000000000000000000000000000000004"
    ∷ "0x0000000000000000000000000000000000000005" ∷ "0x0000000000000000000000000000000000000006"
    ∷ "0x0000000000000000000000000000000000000007" ∷ "0x0000000000000000000000000000000000000008"
    ∷ "0x0000000000000000000000000000000000000009" ∷ "0x0000000000000000000000000000000000000400"
    ∷ "0x0000000000000000000000000000000000000800" ∷ "0x0000000000000000000000000000000000000801"
    ∷ "0x0000000000000000000000000000000000000802" ∷ "0x0000000000000000000000000000000000000803"
    ∷ "0x0000000000000000000000000000000000000804" ∷ []

unfoldable pub includes : List String → String → Bool
includes [] x = false
includes (y ∷ ys) x = y == x || includes ys x

abbrev pub contract_length : ℕ
contract_length = 59

abbrev pub account_length : ℕ
account_length = 39

-- `address.replace(prefix, '').length`: the first occurrence is removed, if there is one.
unfoldable pub length_without : String → String → ℕ
length_without address prefix =
    if is_some (find? address prefix) then count address - count prefix else count address

module _ (env : TagServices) where
  -- The three results of the `switch` on the type, for an address that decodes.
  abbrev of_type : Option NameTagType → ℕ → Bool
  of_type none n = true
  of_type (some account) n = n == account_length
  of_type (some contract) n = n == contract_length

  -- An address that does not decode, or has another prefix, throws inside and is not valid.
  unfoldable pub is_valid_bench32_address : String → String → Option NameTagType → Bool
  is_valid_bench32_address address prefix type =
      if address == "" then false else elim (env.decode_prefix address) [
        | none ↦ false
        | some decoded ↦ (prefix == decoded) && of_type type (count address - count decoded)
      ]

  -- Without an EVM address the length of the address tells the type.
  unfoldable pub type_mismatch : ℕ → Option NameTagType → Bool
  type_mismatch n type =
      (n == contract_length && not (is_value type contract))
      || (n == account_length && not (is_value type account))

  -- With an EVM address the chain tells it.
  abbrev pub evm_verdict : Option NameTagType → Bool → Option TagError
  evm_verdict type is_contract =
      if (is_value type contract && not is_contract) || (is_value type account && is_contract)
      then some invalid_type_address
      else none

  abbrev pub verify_evm : String → Option NameTagType → Explorer → Result (Option TagError)
  verify_evm evm type explorer =
      if env.is_evm_address evm
      then elim (env.has_evm_code evm explorer.chain_id) [
        | err e ↦ err e
        | ok code ↦ ok (evm_verdict type (code || includes evm_extensions evm))
      ]
      else ok (some invalid_evm_format)

  -- `verify`: none is `false`, no error.
  unfoldable pub verify :
      Option String → Option String → Option NameTagType → Explorer → Result (Option TagError)
  unfolding is_valid_bench32_address type_mismatch
  verify address evm type explorer =
      if not (truthy address)
      then ok none
      else if not (is_valid_bench32_address (text_or_empty address) explorer.address_prefix none)
      then ok (some invalid_format)
      else if truthy evm
      then verify_evm (text_or_empty evm) type explorer
      else if type_mismatch (length_without (text_or_empty address) explorer.address_prefix) type
      then ok (some invalid_type_address)
      else ok none
