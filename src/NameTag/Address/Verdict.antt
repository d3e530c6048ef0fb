-- ===== src/NameTag/Address/Verdict.antt =====
-- Which addresses `verify` accepts, in terms of the kind of account that the address stands for.
use aura_explorer_api.Prelude.{
  String, ◌≡◌, ◌↔◌, ◌⊎◌, inl, inr, sym, ◌∙◌, Bool-cases, Bool, true, false, ◌||◌, Option, none,
  some, arith, truthy, text_or_empty, Option-cases, refl, ap, string_eq, ◌==◌,
}
use aura_explorer_api.Exec.{ok, Result-cases}
use aura_explorer_api.Entities.{Explorer}
use aura_explorer_api.NameTag.{NameTagType, account, contract, TagServices}
use aura_explorer_api.NameTag.Address.{
  length_without, includes, evm_extensions, is_valid_bench32_address, type_mismatch, evm_verdict,
  verify_evm, verify,
}

module _ (env : TagServices) (address : String) (evm : Option String) (type : Option NameTagType)
    (explorer : Explorer) where
  -- Without an EVM address: an address of the length of a contract is declared a contract, one of
  -- the length of an account is declared an account.
  abbrev pub FitsLength : Type 0
  FitsLength =
      (truthy evm ≡ false)
      × (length_without address explorer.address_prefix ≡ 59 → type ≡ some contract)
      × (length_without address explorer.address_prefix ≡ 39 → type ≡ some account)

  -- With one: it is well formed, and what is declared agrees with what stands at it on the chain.
  abbrev pub FitsChain : Type 0
  FitsChain =
      (code : Bool) × (truthy evm ≡ true)
      × (env.is_evm_address (text_or_empty evm) ≡ true)
      × (env.has_evm_code (text_or_empty evm) explorer.chain_id ≡ ok code)
      × (type ≡ some contract → (code || includes evm_extensions (text_or_empty evm)) ≡ true)
      × (type ≡ some account → (code || includes evm_extensions (text_or_empty evm)) ≡ false)

  abbrev pub IsAccepted : Type 0
  IsAccepted = (env.decode_prefix address ≡ some explorer.address_prefix) × (FitsLength ⊎ FitsChain)

  fits_length_sound :
      type_mismatch env (length_without address explorer.address_prefix) type ≡ false
      → truthy evm ≡ false
      → FitsLength
  unfolding type_mismatch
  fits_length_sound h bare = ground arith

  fits_length_complete :
      FitsLength → type_mismatch env (length_without address explorer.address_prefix) type ≡ false
  unfolding type_mismatch
  fits_length_complete (_, c, a) = grind arith

  evm_verdict-none :
      (is_contract : Bool)
      → (evm_verdict env type is_contract ≡ none) ↔ (
          (type ≡ some contract → is_contract ≡ true) × (type ≡ some account → is_contract ≡ false))
  evm_verdict-none true = (λ h. ground arith, λ h. grind arith)
  evm_verdict-none false = (λ h. ground arith, λ h. grind arith)

  fits_chain_sound :
      truthy evm ≡ true → verify_evm env (text_or_empty evm) type explorer ≡ ok none → FitsChain
  fits_chain_sound given h = elim (Bool-cases (env.is_evm_address (text_or_empty evm))) [
    | inr bad ↦ let h' = rw bad at h in cc
    | inl form ↦ elim (Result-cases (env.has_evm_code (text_or_empty evm) explorer.chain_id)) [
      | inr (e, failed) ↦ let h' = rw (form, failed) at h in cc
      | inl (code, onchain) ↦
          let h' = rw (form, onchain) at h in
          let (c, a) =
            (evm_verdict-none (code || includes evm_extensions (text_or_empty evm))).0 (cc) in
          (code, given, form, onchain, c, a)
    ]
  ]

  fits_chain_complete : FitsChain → verify_evm env (text_or_empty evm) type explorer ≡ ok none
  fits_chain_complete (code, given, form, onchain, c, a) = rw (
    form,
    onchain,
    (evm_verdict-none (code || includes evm_extensions (text_or_empty evm))).1 (c, a),
  )

  -- `verify` behind the check of the format.
  verify_chain :
      truthy (some address) ≡ true
      → is_valid_bench32_address env address explorer.address_prefix none ≡ true
      → truthy evm ≡ true
      → verify env (some address) evm type explorer
        ≡ verify_evm env (text_or_empty evm) type explorer
  unfolding verify
  verify_chain given good with_evm = rw (given, good, with_evm)

  verify_length_sound :
      truthy (some address) ≡ true
      → is_valid_bench32_address env address explorer.address_prefix none ≡ true
      → truthy evm ≡ false
      → verify env (some address) evm type explorer ≡ ok none
      → type_mismatch env (length_without address explorer.address_prefix) type ≡ false
  unfolding verify
  verify_length_sound given good without h = ground arith

  verify_length_complete :
      truthy (some address) ≡ true
      → is_valid_bench32_address env address explorer.address_prefix none ≡ true
      → truthy evm ≡ false
      → type_mismatch env (length_without address explorer.address_prefix) type ≡ false
      → verify env (some address) evm type explorer ≡ ok none
  unfolding verify
  verify_length_complete given good without h = ground arith

  verify-valid :
      truthy (some address) ≡ true
      → verify env (some address) evm type explorer ≡ ok none
      → is_valid_bench32_address env address explorer.address_prefix none ≡ true
  unfolding verify
  verify-valid given h = ground arith

  -- A given address has the format of a chain exactly if it decodes to the prefix of the chain.
  is_valid_bench32_address_iff :
      truthy (some address) ≡ true
      → (is_valid_bench32_address env address explorer.address_prefix none ≡ true)
        ↔ (env.decode_prefix address ≡ some explorer.address_prefix)
  unfolding is_valid_bench32_address
  is_valid_bench32_address_iff given =
      let there : (address == "") ≡ false = ground arith in
      elim (Option-cases (env.decode_prefix address)) [
        | inl broken ↦ rw (there, broken) (λ h. cc, λ h. cc)
        | inr (decoded, prefix) ↦
            rw (there, prefix)
              (
                λ h.
                    ap some
                      (sym ((string_eq.beq_iff explorer.address_prefix decoded).0 (ground arith))),
                λ h.
                    let same : explorer.address_prefix ≡ decoded = cc in
                    rw ((string_eq.beq_iff explorer.address_prefix decoded).1 same) refl,
              )
      ]

  verify_sound :
      truthy (some address) ≡ true
      → verify env (some address) evm type explorer ≡ ok none
      → IsAccepted
  verify_sound given h =
      let good = verify-valid given h in
      let decoded = (is_valid_bench32_address_iff given).0 good in
      elim (Bool-cases (truthy evm)) [
        | inl with_evm ↦
            (decoded, inr (fits_chain_sound with_evm (sym (verify_chain given good with_evm) ∙ h)))
        | inr without ↦
            (decoded, inl (fits_length_sound (verify_length_sound given good without h) without))
      ]

  verify_complete :
      truthy (some address) ≡ true
      → IsAccepted
      → verify env (some address) evm type explorer ≡ ok none
  verify_complete given (decoded, inl fits) =
      verify_length_complete given ((is_valid_bench32_address_iff given).1 decoded) fits.0
        (fits_length_complete fits)
  verify_complete given (decoded, inr fits) =
      verify_chain given ((is_valid_bench32_address_iff given).1 decoded) fits.1
      ∙ fits_chain_complete fits

  -- A given address is accepted exactly if it decodes to the prefix of the chain, and the declared
  -- type fits: without an EVM address the length of the address, with one, which is well formed, what
  -- stands at it on the chain.
  pub verify_iff :
      truthy (some address) ≡ true
      → (verify env (some address) evm type explorer ≡ ok none) ↔ IsAccepted
  verify_iff given = (verify_sound given, verify_complete given)
