-- ===== src/Tests/Bound.antt =====
-- The theorems on soulbound tokens, at a vault with one token of Ann's and one of another receiver.
use aura_explorer_api.Prelude.{
  if◌then◌else◌, ℕ, String, ◌≡◌, ◌≤◌, refl, true, false, none, some, [], ◌∷◌, arith, count_if, ◌==◌,
  string_eq,
}
use aura_explorer_api.Prelude.Text.{◌<>◌}
use aura_explorer_api.Exec.{failure, ok, err}
use aura_explorer_api.Repository.Memory.{memory}
use aura_explorer_api.Soulbound.{
  Status, unclaim, equipped, SoulboundToken, soulbound_keyed, reject_keyed, Vault,
  SoulboundServices, Signed, TokenUpdated, mistake, written, reject_abt_token, rejected_token,
  is_picked, trim, trim_start, trim_end,
}
use aura_explorer_api.Soulbound.Service.{picked_nft, reject_token, check_reject_token}
use aura_explorer_api.NameTag.Address.{includes}
use aura_explorer_api.NameTag.Format.{is_space}
use aura_explorer_api.Soulbound.Picks.{picked_nft-WithinPicks}
use aura_explorer_api.Soulbound.Rejections.{reject_token-check_reject_token}

abbrev pub env : SoulboundServices
env = record {
  tokens = memory soulbound_keyed;
  rejects = memory reject_keyed;
  address_of_key = λ k. if k == "key" then ok "ann" else err (failure "invalid key");
  serialize_sign_doc = λ d. d.payload;
  check_signature = λ s m k. ok true;
  contracts_at = λ c. ok (record { minter = "mint"; address = "abt" } ∷ []);
  contracts_of = λ m. ok (record { minter = "mint"; address = "abt" } ∷ []);
  query_nft = λ c t. ok tt;
  contracts_of_at = λ m c. ok (record { minter = m; address = c } ∷ []);
  chain_id = "aura_6322";
  sha256 = λ m. "2c26b46b";
  base64 = λ m. m;
  json_text = λ m. "\"" <> (m <> "\"");
  ipfs_url = "https://gateway/";
  fetch_document = λ url.
      some (record {
        has_image = true;
        image = some "ipfs://i";
        name = some "N";
        animation_url = none;
      });
  content_type = λ url. some "image/png";
  stringify = λ d. "{}";
  undefined_matches = false;
}

abbrev pub token : ℕ → String → Status → SoulboundToken
token id receiver status = record {
  id = id;
  contract_address = "abt";
  token_id = "t1";
  token_uri = "ipfs://a";
  token_img = none;
  img_type = none;
  token_name = none;
  animation_url = none;
  receiver_address = receiver;
  status = status;
  signature = "";
  pub_key = "";
  picked = false;
  is_notify = true;
  ipfs = none;
}

abbrev pub vault : Vault
vault = record { tokens = token 1 "ann" unclaim ∷ token 2 "bob" equipped ∷ []; rejects = [] }

abbrev pub signed : Signed
signed = record { signature = "s"; msg = "m"; pub_key = "key" }

picked_nft-WithinPicks_example :
    count_if (is_picked "ann") (picked_nft env signed "t1" "abt" true vault).1.tokens ≤ 5
picked_nft-WithinPicks_example =
    picked_nft-WithinPicks env vault (λ n. ground arith) (λ a. ground arith) signed "t1" "abt" true
      "ann"

abbrev pub request : TokenUpdated
request = record {
  token_id = "t1";
  contract_address = "abt";
  receiver_address = "ann";
  reject_all = true;
}

abbrev pub after : Vault
after = record {
  tokens = rejected_token (token 1 "ann" unclaim) ∷ token 2 "bob" equipped ∷ [];
  rejects = record { id = 1; account_address = "ann"; reject_address = "mint" } ∷ [];
}

reject_done : reject_token env request vault ≡ (ok (written 1), after)
unfolding reject_token includes
reject_done = refl

trim_ann : trim "ann" ≡ "ann"
unfolding trim_start trim_end is_space
trim_ann = refl

reject_token-check_reject_token_example :
    check_reject_token env "ann" "mint" after ≡ (ok (mistake reject_abt_token), after)
reject_token-check_reject_token_example =
    reject_token-check_reject_token env request (record { minter = "mint"; address = "abt" }) []
      vault after (written 1) refl refl reject_done trim_ann (λ h. cc)
