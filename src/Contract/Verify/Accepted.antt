-- ===== src/Contract/Verify/Accepted.antt =====
-- A request for a verification is sent as the status of the code says.
use aura_explorer_api.Prelude.{
  ◌⊎◌, if◌then◌else◌, Bool-cases, inl, inr, string_eq, ◌≡◌, refl, ℕ, String, ◌==◌, List, [], ◌∷◌,
  ◌++◌,
}
use aura_explorer_api.Exec.{Result-cases, Result, ok}
use aura_explorer_api.Contract.{
  get_code_detail, Code, CodeIdVerification, ContractServices, contract_not_exist,
  contract_verified_verifying,
}
use aura_explorer_api.Contract.Verify.{
  status_first, verify_first, VerifyCodeIdParams, Posted, posted, Verdict, mistake, CodeStatus,
  missing, status, verify_code_id, verify_contract_status, verify_unless, newest_status, forward,
}
use aura_explorer_api.Exec.Results.{map_ok-eq-ok}

-- The code and the request are sent to the service that verifies.
abbrev pub Sends : VerifyCodeIdParams → List Posted → ℕ → List Posted → Type 0
Sends request sent code_id sent' =
    (p : Posted) × (sent' ≡ sent ++ p ∷ [])
    × (p.properties.code_id ≡ code_id)
    × (p.properties.commit ≡ request.commit)
    × (p.properties.contract_url ≡ request.url)

-- What a request answers and what it has sent, for the status that the code has.
abbrev pub Follows :
    VerifyCodeIdParams → List Posted → CodeStatus → Result Verdict × List Posted → Type 0
Follows request sent missing o = o ≡ (ok (mistake contract_not_exist), sent)
Follows request sent (status code_id outcome) o =
    let refused : Type 0 = o ≡ (ok (mistake contract_verified_verifying), sent) in
    if outcome == "FAIL"
    then Sends request sent code_id o.1
    else if outcome == "UNVERIFIED"
    then Sends request sent code_id o.1 ⊎ refused
    else refused

module _ (env : ContractServices) (chain : String) (request : VerifyCodeIdParams) where
  forward-sends : (p : Posted) (sent : List Posted) → (forward env p sent).1 ≡ sent ++ p ∷ []
  forward-sends p sent = elim (Result-cases (env.post p.url p.properties)) [
    | inl (reply, done) ↦ rw done refl
    | inr (e, failed) ↦ rw failed refl
  ]

  verify_first-Follows :
      (sent : List Posted) (codes : List Code)
      → Follows request sent
          (status_first env codes)
          (verify_first env (env.find_explorer chain) request codes sent)
  verify_first-Follows sent [] = refl
  verify_first-Follows sent (code ∷ others) = verified code.code_id_verifications
    where
      p : Posted
      p = posted env (env.find_explorer chain) request code

      verified :
          (vs : List CodeIdVerification)
          → Follows request sent
              (status code.code_id (newest_status env vs))
              (verify_unless env vs (forward env p) sent)
      verified [] = inl (p, forward-sends p sent, refl, refl, refl)
      verified (v ∷ _) = elim (Bool-cases (v.verification_status == "FAIL")) [
        | inl failed ↦ rw failed (p, forward-sends p sent, refl, refl, refl)
        | inr other ↦ elim (Bool-cases (v.verification_status == "UNVERIFIED")) [
          | inl unverified ↦ rw (other, unverified) (inr refl)
          | inr submitted ↦ rw (other, submitted) refl
        ]
      ]

  -- A request for a code that is not there sends nothing, one for a code whose status is 'FAIL' sends
  -- the code and the request to the service that verifies, one for a code with another status is
  -- refused and sends nothing, and at 'UNVERIFIED' it does the one or the other.
  pub verify_code_id-Follows :
      (sent : List Posted) (now : CodeStatus)
      → verify_contract_status env chain request.code_id ≡ ok now
      → Follows request sent now (verify_code_id env chain request sent)
  unfolding verify_code_id verify_contract_status
  verify_code_id-Follows sent now h =
      let (codes, known, same) =
        map_ok-eq-ok (status_first env)
          (get_code_detail env (env.find_explorer chain) request.code_id) now h in
      rw (same, known) (verify_first-Follows sent codes)
