-- ===== src/Tests/Contracts.antt =====
-- Contracts: the verification of codes and the detail of a token.
use aura_explorer_api.Prelude.{
  if◌then◌else◌, false, ◌≡◌, ◌↔◌, refl, String, true, Option, none, some, List, [], ◌∷◌, arith,
  string_eq, ◌==◌,
}
use aura_explorer_api.Exec.{ok}
use aura_explorer_api.Tests.{aura}
use aura_explorer_api.Soulbound.{SoulboundToken, Vault, unclaim, soulbound_keyed}
use aura_explorer_api.Soulbound.Create.{transform}
use aura_explorer_api.Repository.Rows.{UniqueIds}
use aura_explorer_api.Contract.{
  VerifyStep, CodeIdVerification, Code, ContractServices, CodeError, infrastructure_error,
}
use aura_explorer_api.Contract.Verify.{
  VerifyCodeIdParams, answered, status, verify_code_id, verify_contract_status,
}
use aura_explorer_api.Contract.Steps.{step_names, get_verify_code_step}
use aura_explorer_api.Contract.Steps.Progress.{
  progress, number_from, IsOverload, get_verify_code_step-progress,
}
use aura_explorer_api.Contract.Detail.{
  Json, DetailServices, ContractRow, Nft, detail, with_ipfs, cw4973_media_info, get_cw4973_detail,
}
use aura_explorer_api.Contract.Detail.Kept.{later, get_cw4973_detail_again}
use aura_explorer_api.Contract.Detail.Untouched.{Keeps, get_cw4973_detail-Keeps}
use aura_explorer_api.Tests.Bound.{env}
use mathlib.Core.List.{Memᴰ}

-- The verification of the code failed at its fourth step, though that step succeeded.
abbrev overload : VerifyStep
overload = record { step = 4; msg_code = some "S004"; result = some "Success" }

abbrev failed : CodeIdVerification
failed = record { verification_status = "FAIL"; verify_step = some overload }

abbrev code_of : List CodeIdVerification → Code
code_of vs = record { code_id = 7; code_id_verifications = vs }

abbrev indexer : List CodeIdVerification → ContractServices
indexer vs = record {
  find_explorer = λ chain. some aura;
  fetch_codes = λ db id. some (code_of vs ∷ []);
  fetch_verifications = λ db id. some vs;
  config = λ key. if key == "VERIFY_CONTRACT_URL" then some "https://verify" else none;
  to_upper = λ s. s;
  post = λ url p. ok "started";
}

abbrev request : VerifyCodeIdParams
request = record {
  code_id = 7;
  commit = "c0ffee";
  url = "https://git/contract";
  compiler_version = "0.14";
  wasm_file = "contract.wasm";
}

failed_status : verify_contract_status (indexer (failed ∷ [])) "aura_6322" 7 ≡ ok (status 7 "FAIL")
unfolding verify_contract_status
failed_status = refl

verify_code_id_test : verify_code_id (indexer []) "aura_6322" request [] ≡ (
  ok (answered "started"),
  record {
    url = some "https://verify";
    properties = record {
      code_id = 7;
      commit = "c0ffee";
      compiler_version = "0.14";
      contract_url = "https://git/contract";
      wasm_file = "contract.wasm";
    };
  }
      ∷ [],
)
unfolding verify_code_id
verify_code_id_test = refl

get_verify_code_step-progress_example :
    (shown_error : Option CodeError) × (get_verify_code_step (indexer (failed ∷ [])) "aura_6322" 7
      ≡ ok (record {
        steps = progress 7 overload 3 (number_from 1 step_names);
        error = shown_error;
      }))
    × ((shown_error ≡ some infrastructure_error) ↔ IsOverload overload "FAIL")
get_verify_code_step-progress_example =
    get_verify_code_step-progress (indexer (failed ∷ [])) "aura_6322" 7 failed [] overload refl refl
      (omega arith)

-- Texts that stand for themselves.
abbrev texts : Json
texts = record {
  Value = String;
  empty = "{}";
  is_true = λ d. true;
  stringify = λ d. d;
  parse = λ s. ok s;
  parse-stringify = λ d. refl;
  stringify-empty = refl;
}

abbrev contract : ContractRow
contract = record { address = "abt"; name = some "N"; minter = none }

abbrev gateway : DetailServices texts
gateway = record {
  fetch_contracts = λ a. some (contract ∷ []);
  fetch_media = λ owner. none;
  fetch_ipfs = λ url. if url == "https://gateway/ipfs/a" then some "[1]" else none;
}

abbrev undocumented : SoulboundToken
undocumented = record {
  id = 3;
  contract_address = "abt";
  token_id = "t3";
  token_uri = "ipfs://a";
  token_img = none;
  img_type = none;
  token_name = none;
  animation_url = none;
  receiver_address = "bob";
  status = unclaim;
  signature = "s";
  pub_key = "key";
  picked = true;
  is_notify = false;
  ipfs = none;
}

abbrev documented : SoulboundToken
documented = record undocumented { id = 4; token_id = "t4"; ipfs = some "[2]" }

abbrev shelf : Vault
shelf = record { tokens = undocumented ∷ documented ∷ []; rejects = [] }

abbrev filled : Vault
filled = record { tokens = with_ipfs "[1]" undocumented ∷ documented ∷ []; rejects = [] }

shelf_unique : UniqueIds soulbound_keyed shelf.tokens
shelf_unique r (Memᴰ.head e) = rw e (λ h. refl, (λ h. cc, tt))
shelf_unique r (Memᴰ.tail (Memᴰ.head e)) = rw e (λ h. cc, (λ h. refl, tt))
shelf_unique r (Memᴰ.tail (Memᴰ.tail m)) = elim m [ ]

abbrev shown : Nft texts
shown = record {
  id = 3;
  contract_address = "abt";
  token_id = "t3";
  token_uri = "ipfs://a";
  token_name = "N";
  token_name_ipfs = "";
  animation_url = "";
  token_img = "";
  img_type = "";
  receiver_address = "bob";
  status = unclaim;
  picked = true;
  signature = "s";
  pub_key = "key";
  minter_address = "";
  ipfs = some "[1]";
}

get_cw4973_detail_runs :
    get_cw4973_detail texts env gateway "abt" "t3" shelf ≡ (ok (detail shown), filled)
unfolding get_cw4973_detail cw4973_media_info transform
get_cw4973_detail_runs = refl

get_cw4973_detail_again_example :
    get_cw4973_detail texts env (later texts env gateway (λ url. none)) "abt" "t3" filled
    ≡ (ok (detail shown), filled)
get_cw4973_detail_again_example =
    get_cw4973_detail_again texts env gateway "abt" "t3" shelf (λ url. none) filled contract []
      (with_ipfs "[1]" undocumented) shown refl (omega arith) get_cw4973_detail_runs refl refl

get_cw4973_detail-Keeps_example :
    Keeps shelf (get_cw4973_detail texts env gateway "abt" "t3" shelf).1
get_cw4973_detail-Keeps_example =
    get_cw4973_detail-Keeps texts env gateway "abt" "t3" shelf shelf_unique
