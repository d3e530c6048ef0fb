-- ===== src/Tests/Minting.antt =====
-- The theorems on the creation of soulbound tokens and on their synchronisation with the chain.
use aura_explorer_api.Prelude.{
  ◌≡◌, ◌≤◌, refl, String, true, false, none, some, List, [], ◌∷◌, ◌++◌, nat_eq, string_eq, ◌==◌,
  count_if,
}
use aura_explorer_api.Exec.{ok}
use aura_explorer_api.NameTag.Format.{is_space}
use aura_explorer_api.Soulbound.{
  SoulboundToken, Vault, Cw4973Contract, created, unclaim, unequipped, trim, trim_start, trim_end,
}
use aura_explorer_api.Soulbound.Service.{verify_signature}
use aura_explorer_api.Soulbound.Create.{
  CreateToken, create, create_message_to_sign, create_token_id, transform,
}
use aura_explorer_api.Soulbound.Create.Offered.{Offered, create-Offered}
use aura_explorer_api.Soulbound.Sync.{
  Take, Activity, take, unequip, handle_sync_cw4973_nft_status, sync_all,
}
use aura_explorer_api.Soulbound.Sync.Once.{has_key, create-handle_sync_cw4973_nft_status}
use aura_explorer_api.Soulbound.Sync.Unequipped.{is_stale, handle_sync_cw4973_nft_status-is_stale}
use aura_explorer_api.Soulbound.Sync.Job.{
  SyncServices, height_keyed, last_height, handle_job_sync_cw4973_status,
}
use aura_explorer_api.Repository.Memory.{memory}
use aura_explorer_api.Tests.Bound.{env, vault, signed}

abbrev request : CreateToken
request = record {
  signed = signed;
  receiver_address = "bob ";
  contract_address = "abt";
  token_uri = "ipfs://a";
}

abbrev made : SoulboundToken
made = record {
  id = 3;
  contract_address = "abt";
  token_id = "2c26b46b";
  token_uri = "ipfs://a";
  token_img = some "ipfs://i";
  img_type = some "image/png";
  token_name = some "N";
  animation_url = none;
  receiver_address = "bob";
  status = unclaim;
  signature = "s";
  pub_key = "key";
  picked = false;
  is_notify = true;
  ipfs = some "{}";
}

abbrev minted : Vault
minted = record vault { tokens = vault.tokens ++ made ∷ [] }

create_message_to_sign_test :
    create_message_to_sign env "bob" "mint" "u"
    ≡ "{\"account_number\":\"0\",\"chain_id\":\"\",\"fee\":{\"amount\":[],\"gas\":\"0\"},\"memo\":\"\",\"msgs\":[{\"type\":\"sign/MsgSignData\",\"value\":{\"data\":\"Agreement(string chain_id,address active,address passive,string tokenURI)aura_6322bobmintu\",\"signer\":\"mint\"}}],\"sequence\":\"0\"}"
unfolding create_message_to_sign
create_message_to_sign_test = refl

create_runs : create env request vault ≡ (ok (created made), minted)
unfolding create verify_signature create_token_id transform trim_start trim_end is_space
create_runs = refl

create-Offered_example :
    (address : String) × (verify_signature env request.signed ≡ some address)
    × ((trim request.receiver_address == address) ≡ false)
    × (c : Cw4973Contract) × (cs : List Cw4973Contract) × (env.contracts_of_at address
          request.contract_address
        ≡ ok (c ∷ cs))
    × Offered env request vault minted made c
create-Offered_example = create-Offered env request vault minted made create_runs

transform_test :
    (transform env "ipfs://a" ≡ "https://gateway/ipfs/a")
    × (transform env "https://ipfs.io/ipfs/a" ≡ "https://gateway/ipfs/a")
unfolding transform
transform_test = (refl, refl)

-- Bob takes the token that was made for him, and lays it aside again.
abbrev taking : Take
taking = record { signature = "s"; pub_key = "key"; from = "ann"; uri = "ipfs://a" }

abbrev history : List Activity
history =
    record { message = ok (take taking); contract_address = "abt"; sender = "bob"; height = 5 }
    ∷ record {
      message = ok (unequip made.token_id);
      contract_address = "abt";
      sender = "bob";
      height = 6;
    }
    ∷ []

sync_all_test :
    (sync_all env history minted).1.tokens
    ≡ vault.tokens ++ record made { status = unequipped; picked = false } ∷ []
unfolding sync_all handle_sync_cw4973_nft_status create_token_id transform
sync_all_test = refl

handle_sync_cw4973_nft_status-is_stale_example :
    count_if is_stale (handle_sync_cw4973_nft_status env "abt" "bob" (take taking) minted).1.tokens
    ≤ 0
handle_sync_cw4973_nft_status-is_stale_example =
    handle_sync_cw4973_nft_status-is_stale env "abt" "bob" (take taking) minted

abbrev sync_services : SyncServices
sync_services = record {
  soulbound = env;
  points = memory height_keyed;
  fetch = λ above. ok history;
}

handle_job_sync_cw4973_status_test :
    (handle_job_sync_cw4973_status sync_services
      (record { vault = minted; points = record { id = 1; point = 4 } ∷ [] })).1.points
    ≡ record { id = 1; point = 6 } ∷ []
unfolding handle_job_sync_cw4973_status last_height sync_all handle_sync_cw4973_nft_status
    create_token_id transform
handle_job_sync_cw4973_status_test = refl

signed_by_ann : verify_signature env request.signed ≡ some "ann"
unfolding verify_signature
signed_by_ann = refl

create-handle_sync_cw4973_nft_status_example :
    count_if
      (has_key 3)
      (handle_sync_cw4973_nft_status env "abt" "bob" (take taking) minted).1.tokens
    ≡ 1
unfolding trim_start trim_end is_space
create-handle_sync_cw4973_nft_status_example =
    create-handle_sync_cw4973_nft_status env request vault minted made "ann"
      (record { minter = "ann"; address = "abt" }) [] taking 3 create_runs signed_by_ann refl refl
      refl
