-- ===== src/Contract/Steps/Progress.antt =====
-- What is shown of the steps before the one that is reported, of that one and of those after it.
use aura_explorer_api.Prelude.{
  is_value, Bool, true, false, string_eq, ◌↔◌, if◌then◌else◌, ℕ, zero, suc, ◌+◌, ◌-◌, ◌≡◌, ◌≤◌, ◌<◌,
  refl, ap, arith, nat_eq, Option, none, some, List, [], ◌∷◌, ◌++◌, map, take, drop, String,
}
use aura_explorer_api.Exec.{ok}
use aura_explorer_api.Contract.{
  infrastructure_error, VerifyStep, CodeIdVerification, CodeError, ContractServices, database,
}
use aura_explorer_api.Contract.Steps.{
  infrastructure_failed, StepName, step_names, VerifyCodeStep, entry, steps_from,
  get_verify_code_step,
}

pub record Numbered : Type 0 where
  pub number : ℕ
  pub label : StepName

abbrev pub number_from : ℕ → List StepName → List Numbered
number_from n [] = []
number_from n (x ∷ xs) = record { number = n; label = x } ∷ number_from (n + 1) xs

module _ (code_id : ℕ) (now : VerifyStep) where
  -- A step that is done, the one that is reported, and one that is to come.
  abbrev pub finished : Numbered → VerifyCodeStep
  finished x = entry code_id now x.number x.label (some x.label.msg_code) (some "Success")

  abbrev pub reported : Numbered → VerifyCodeStep
  reported x = entry code_id now x.number x.label now.msg_code now.result

  abbrev pub waiting : Numbered → VerifyCodeStep
  waiting x = entry code_id now x.number x.label none (some "Pending")

  -- The steps of a list as they stand when the one after the first `done` of them is reported.
  abbrev pub progress : ℕ → List Numbered → List VerifyCodeStep
  progress done xs =
      map finished (take done xs)
      ++ (map reported (take 1 (drop done xs)) ++ map waiting (drop (suc done) xs))

  steps_from-later :
      (n : ℕ) (xs : List StepName)
      → now.step < n
      → steps_from code_id now n xs ≡ map waiting (number_from n xs)
  unfolding steps_from
  steps_from-later n [] h = refl
  steps_from-later n (x ∷ xs) h = ground (arith, steps_from-later (n + 1) xs)

  steps_from-progress :
      (done n : ℕ) (xs : List StepName)
      → n + done ≡ now.step
      → steps_from code_id now n xs ≡ progress done (number_from n xs)
  unfolding steps_from
  steps_from-progress zero n [] h = refl
  steps_from-progress (suc done) n [] h = refl
  steps_from-progress zero n (x ∷ xs) h = ground (arith, steps_from-later (n + 1) xs)
  steps_from-progress (suc done) n (x ∷ xs) h = ground (arith, steps_from-progress done (n + 1) xs)

-- The fourth step succeeded and the verification failed.
abbrev pub IsOverload : VerifyStep → String → Type 0
IsOverload now outcome = (now.step ≡ 4) × (now.result ≡ some "Success") × (outcome ≡ "FAIL")

is_value_iff : (o : Option String) (s : String) → (is_value o s ≡ true) ↔ (o ≡ some s)
is_value_iff none s = (λ h. cc, λ h. cc)
is_value_iff (some t) s =
    (λ h. ap some ((string_eq.beq_iff t s).0 h), λ h. (string_eq.beq_iff t s).1 (cc))

infrastructure_failed_iff :
    (code_id : ℕ) (now : VerifyStep) (outcome : String)
    → (infrastructure_failed code_id now outcome ≡ true) ↔ IsOverload now outcome
infrastructure_failed_iff code_id now outcome =
    let named = is_value_iff now.result "Success" in
    let failed = string_eq.beq_iff outcome "FAIL" in
    (λ h. ground (arith, named, failed), λ h. ground (arith, named, failed))

error_iff :
    (b : Bool)
    → ((if b then some infrastructure_error else none) ≡ some infrastructure_error) ↔ (b ≡ true)
error_iff true = (λ h. refl, λ h. refl)
error_iff false = (λ h. cc, λ h. cc)

module _ (env : ContractServices) (chain : String) (code_id : ℕ) where
  -- If the newest verification of a code reports a step, then the steps before it are shown as done,
  -- that one as it is reported and those after it as pending, and an overload is reported exactly if
  -- the fourth step succeeded and the verification failed.
  pub get_verify_code_step-progress :
      (v : CodeIdVerification) (others : List CodeIdVerification) (now : VerifyStep)
      → env.fetch_verifications (database (env.find_explorer chain)) code_id ≡ some (v ∷ others)
      → v.verify_step ≡ some now
      → 1 ≤ now.step
      → (shown_error : Option CodeError) × (get_verify_code_step env chain code_id
          ≡ ok (record {
            steps = progress code_id now (now.step - 1) (number_from 1 step_names);
            error = shown_error;
          }))
        × ((shown_error ≡ some infrastructure_error) ↔ IsOverload now v.verification_status)
  unfolding get_verify_code_step
  get_verify_code_step-progress v others now known reporting started = (
    if infrastructure_failed code_id now v.verification_status
        then some infrastructure_error
        else none,
    rw (known, reporting, steps-started) refl,
    (λ h. to.0 (test.0 h), λ h. test.1 (to.1 h)),
  )
    where
      to :
          (infrastructure_failed code_id now v.verification_status ≡ true)
          ↔ IsOverload now v.verification_status
      to = infrastructure_failed_iff code_id now v.verification_status

      test :
          ((if infrastructure_failed code_id now v.verification_status
              then some infrastructure_error
              else none)
            ≡ some infrastructure_error)
          ↔ (infrastructure_failed code_id now v.verification_status ≡ true)
      test = error_iff (infrastructure_failed code_id now v.verification_status)

      steps-started :
          steps_from code_id now 1 step_names
          ≡ progress code_id now (now.step - 1) (number_from 1 step_names)
      steps-started = steps_from-progress code_id now (now.step - 1) 1 step_names (omega arith)
