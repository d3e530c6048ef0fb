-- ===== src/Contract.antt =====
-- The verification of contracts and the detail of a soulbound token: ContractService of
-- src/components/contract/services/contract.service.ts, with the errors and steps of
-- shared/constants/common.ts. Contract/Verify.antt has the requests for a verification,
-- Contract/Steps.antt its progress and Contract/Detail.antt the detail of a token.
pub mod Verify
pub mod Steps
pub mod Detail
use aura_explorer_api.Prelude.{ℕ, String, Option, none, some, List}
use aura_explorer_api.Exec.{failure, Result, ok, err}
use aura_explorer_api.Entities.{Explorer}

-- What the indexer holds of the newest step of a verification.
pub record VerifyStep : Type 0 where
  pub step : ℕ
  pub msg_code : Option String
  pub result : Option String

pub record CodeIdVerification : Type 0 where
  pub verification_status : String
  pub verify_step : Option VerifyStep

-- A code of the indexer, with its verifications, the newest first.
pub record Code : Type 0 where
  pub code_id : ℕ
  pub code_id_verifications : List CodeIdVerification

-- What is sent to the service that verifies.
pub record VerifyProperties : Type 0 where
  pub code_id : ℕ
  pub commit : String
  pub compiler_version : String
  pub contract_url : String
  pub wasm_file : String

-- The errors of ERROR_MAP that the service answers with.
pub data CodeError : Type 0 where
  contract_not_exist contract_verified_verifying infrastructure_error : CodeError

-- The chains, what the indexer answers for a code of a chain's database (none where it fails), the
-- configuration, `toUpperCase`, and the service that verifies.
pub record ContractServices : Type 0 where
  pub find_explorer : String → Option Explorer
  pub fetch_codes : Option String → ℕ → Option (List Code)
  pub fetch_verifications : Option String → ℕ → Option (List CodeIdVerification)
  pub config : String → Option String
  pub to_upper : String → String
  pub post : Option String → VerifyProperties → Result String

-- `explorer?.chainDb`
abbrev pub database : Option Explorer → Option String
database none = none
database (some e) = some e.chain_db

-- An answer that is null has no rows to read.
abbrev pub rows_of : {A : Type 0} → Option (List A) → Result (List A)
rows_of none = err (failure "Cannot read properties of null (reading 'data')")
rows_of (some rows) = ok rows

abbrev pub get_code_detail : ContractServices → Option Explorer → ℕ → Result (List Code)
get_code_detail env explorer code_id = rows_of (env.fetch_codes (database explorer) code_id)
