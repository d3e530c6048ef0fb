-- ===== src/Contract/Steps.antt =====
-- `getVerifyCodeStep` of ContractService: the steps of a verification as they are shown.
pub mod Progress
use aura_explorer_api.Prelude.{
  ℕ, ◌+◌, String, Bool, ◌==◌, nat_eq, string_eq, ltb, ◌&&◌, is_value, Option, none, some, List, [],
  ◌∷◌, if◌then◌else◌,
}
use aura_explorer_api.Exec.{failure, Result, ok, err}
use aura_explorer_api.Exec.Results.{and_then}
use aura_explorer_api.Contract.{
  VerifyStep, CodeIdVerification, CodeError, infrastructure_error, ContractServices, database,
  rows_of,
}

-- An entry of VERIFY_STEP.
pub record StepName : Type 0 where
  pub name : String
  pub msg_code : String

abbrev pub step_names : List StepName
step_names =
    record { name = "Code ID valid"; msg_code = "S001" }
    ∷ record { name = "Compiler image format"; msg_code = "S002" }
    ∷ record { name = "Code ID verification session valid"; msg_code = "S003" }
    ∷ record { name = "Get Code ID data hash"; msg_code = "S004" }
    ∷ record { name = "Get source code"; msg_code = "S005" }
    ∷ record { name = "Compile source code"; msg_code = "S006" }
    ∷ record { name = "Compare data hash"; msg_code = "S007" }
    ∷ record { name = "Internal process"; msg_code = "S008" }
    ∷ []

-- VerifyCodeStepOutputDto.
pub record VerifyCodeStep : Type 0 where
  pub code_id : ℕ
  pub check_id : ℕ
  pub check_name : String
  pub result : Option String
  pub msg_code : Option String

pub record VerifyCodeSteps : Type 0 where
  pub steps : List VerifyCodeStep
  pub error : Option CodeError

module _ (code_id : ℕ) (now : VerifyStep) where
  abbrev pub entry : ℕ → StepName → Option String → Option String → VerifyCodeStep
  entry step_id n msg_code result = record {
    code_id = code_id;
    check_id = step_id;
    check_name = n.name;
    result = result;
    msg_code = msg_code;
  }

  abbrev pub verify_step_of : ℕ → StepName → VerifyCodeStep
  verify_step_of step_id n =
      if step_id == now.step
      then entry step_id n now.msg_code now.result
      else if ltb step_id now.step
      then entry step_id n (some n.msg_code) (some "Success")
      else entry step_id n none (some "Pending")

  -- The loop over VERIFY_STEP, at the given number of the step.
  unfoldable pub steps_from : ℕ → List StepName → List VerifyCodeStep
  steps_from step_id [] = []
  steps_from step_id (n ∷ rest) = verify_step_of step_id n ∷ steps_from (step_id + 1) rest

  abbrev pub infrastructure_failed : String → Bool
  infrastructure_failed status = now.step == 4 && is_value now.result "Success" && status == "FAIL"

  abbrev pub shown : String → VerifyCodeSteps
  shown status = record {
    steps = steps_from 1 step_names;
    error = if infrastructure_failed status then some infrastructure_error else none;
  }

-- The newest verification is read where there is none, too.
abbrev pub newest_steps : ℕ → List CodeIdVerification → Result VerifyCodeSteps
newest_steps code_id [] =
    err (failure "Cannot read properties of undefined (reading 'verify_step')")
newest_steps code_id (v ∷ _) = elim v.verify_step [
  | none ↦ err (failure "Cannot read properties of null (reading 'step')")
  | some now ↦ ok (shown code_id now v.verification_status)
]

unfoldable pub get_verify_code_step : ContractServices → String → ℕ → Result VerifyCodeSteps
get_verify_code_step env chain code_id =
    and_then (rows_of (env.fetch_verifications (database (env.find_explorer chain)) code_id))
      (newest_steps code_id)
