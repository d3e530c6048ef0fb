-- ===== src/Contract/Verify.antt =====
-- `verifyCodeId` and `verifyContractStatus` of ContractService.
pub mod Accepted
use aura_explorer_api.Prelude.{
  ℕ, String, ◌==◌, string_eq, Option, none, some, List, [], ◌∷◌, ◌++◌, if◌then◌else◌,
}
use aura_explorer_api.Prelude.Text.{◌<>◌}
use aura_explorer_api.Exec.{Result, ok, Exec, pure, lift, ◌>>=◌}
use aura_explorer_api.Exec.Results.{map_ok}
use aura_explorer_api.Entities.{Explorer}
use aura_explorer_api.Contract.{
  CodeIdVerification, Code, VerifyProperties, CodeError, contract_not_exist,
  contract_verified_verifying, ContractServices, get_code_detail,
}

-- VerifyCodeIdParamsDto.
pub record VerifyCodeIdParams : Type 0 where
  pub code_id : ℕ
  pub commit : String
  pub url : String
  pub compiler_version : String
  pub wasm_file : String

-- A request that was sent to the service that verifies, at an address that may be undefined.
pub record Posted : Type 0 where
  pub url : Option String
  pub properties : VerifyProperties

pub data Verdict : Type 0 where
  mistake : CodeError → Verdict
  answered : String → Verdict

pub data CodeStatus : Type 0 where
  missing : CodeStatus
  status : ℕ → String → CodeStatus

module _ (env : ContractServices) where
  -- The key of the address in the configuration.
  abbrev url_key : Option Explorer → String
  url_key none = "undefined_VERIFY_CONTRACT_URL"
  url_key (some e) =
      if e.address_prefix == "aura"
      then "VERIFY_CONTRACT_URL"
      else env.to_upper e.address_prefix <> "_VERIFY_CONTRACT_URL"

  abbrev properties_of : VerifyCodeIdParams → Code → VerifyProperties
  properties_of request code = record {
    code_id = code.code_id;
    commit = request.commit;
    compiler_version = request.compiler_version;
    contract_url = request.url;
    wasm_file = request.wasm_file;
  }

  abbrev pub posted : Option Explorer → VerifyCodeIdParams → Code → Posted
  posted explorer request code = record {
    url = env.config (url_key explorer);
    properties = properties_of request code;
  }

  abbrev pub send : Posted → Exec (List Posted) String
  send p sent = (env.post p.url p.properties, sent ++ p ∷ [])

  abbrev pub forward : Posted → Exec (List Posted) Verdict
  forward p = do reply ← send p; pure (answered reply)

  abbrev pub verify_unless :
      List CodeIdVerification → Exec (List Posted) Verdict → Exec (List Posted) Verdict
  verify_unless [] act sent = act sent
  verify_unless (v ∷ _) act sent =
      if v.verification_status == "FAIL"
      then act sent
      else (ok (mistake contract_verified_verifying), sent)

  abbrev pub verify_first :
      Option Explorer → VerifyCodeIdParams → List Code → Exec (List Posted) Verdict
  verify_first explorer request [] sent = (ok (mistake contract_not_exist), sent)
  verify_first explorer request (code ∷ _) sent =
      verify_unless code.code_id_verifications (forward (posted explorer request code)) sent

  unfoldable pub verify_code_id : String → VerifyCodeIdParams → Exec (List Posted) Verdict
  verify_code_id chain request =
      lift (get_code_detail env (env.find_explorer chain) request.code_id)
      >>= verify_first (env.find_explorer chain) request

  abbrev pub newest_status : List CodeIdVerification → String
  newest_status [] = "UNVERIFIED"
  newest_status (v ∷ _) = v.verification_status

  abbrev pub status_first : List Code → CodeStatus
  status_first [] = missing
  status_first (code ∷ _) = status code.code_id (newest_status code.code_id_verifications)

  unfoldable pub verify_contract_status : String → ℕ → Result CodeStatus
  verify_contract_status chain code_id =
      map_ok status_first (get_code_detail env (env.find_explorer chain) code_id)
