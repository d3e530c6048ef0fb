-- ===== src/Tests/Listings.antt =====
-- The theorems on listings, at the vault of Bound.antt and the tags of Tags.antt.
use aura_explorer_api.Prelude.{
  ℕ, String, ◌≡◌, ◌<◌, refl, true, Option, none, some, List, [], ◌∷◌, All, arith, count_if, ◌==◌,
  string_eq,
}
use aura_explorer_api.Exec.{ok}
use aura_explorer_api.Repository.Memory.{table_order}
use aura_explorer_api.Repository.Builder.{Listing}
use aura_explorer_api.Repository.Builder.Pages.{page_by_page}
use aura_explorer_api.NameTag.Address.{includes}
use aura_explorer_api.NameTag.Private.Listing.{NameTags, get_name_tags}
use aura_explorer_api.NameTag.Private.Listing.Own.{IsOwn, get_name_tags-IsOwn}
use aura_explorer_api.NameTag.Private.Listing.Found.{is_tag, create_name_tag-get_name_tags}
use aura_explorer_api.Soulbound.{
  unclaim, SoulboundToken, Cw4973Contract, Vault, written, rejected_token,
}
use aura_explorer_api.Soulbound.Service.{reject_token}
use aura_explorer_api.Soulbound.Contracts.{ContractParas, ContractsPage, get_contracts}
use aura_explorer_api.Soulbound.Contracts.Counted.{get_contracts-counted}
use aura_explorer_api.Soulbound.Listing.{
  ListingServices, TokenParas, ReceiverTokenParas, get_tokens, get_token_by_receiver_address,
}
use aura_explorer_api.Soulbound.Listing.Paged.{get_tokens_all}
use aura_explorer_api.Soulbound.Listing.Open.{is_open, reject_token-get_token_by_receiver_address}
use aura_explorer_api.Tests.{aura, tags, ctx}
use aura_explorer_api.Tests.Bound.{env, token, vault, request as rejection, after}
use aura_explorer_api.Tests.Tags.{book, request, vault_tag, with_vault, create_done}

abbrev lists : ListingServices
lists = record {
  builder = table_order;
  lower_like = λ c k. c == k;
  lower_like_lower = λ c k. c == k;
  has_status = λ st text. true;
  fetch_media = λ owner. some (
      record {
        token_id = "t1";
        image_url = some "https://i";
        image_type = some "image/png";
        animation_url = none;
        animation_type = none;
      }
      ∷ []);
}

abbrev abt : Cw4973Contract
abt = record { minter = "mint"; address = "abt" }

abbrev fetch : String → Option String → ℕ → ℕ → Option ContractsPage
fetch minter address limit offset = some (record { cw721_contract = abt ∷ []; count = 1 })

abbrev of_minter : ContractParas
of_minter = record { minter_address = "mint"; keyword = some ""; limit = 10; offset = 0 }

get_contracts-counted_example : get_contracts env fetch of_minter vault ≡ (
  ok (record {
    contracts =
        record {
          minter = abt.minter;
          address = "abt";
          total = 2;
          claimed_qty = 1;
          unclaimed_qty = 1;
        }
        ∷ [];
    count = 1;
  }),
  vault,
)
get_contracts-counted_example =
    get_contracts-counted env fetch of_minter (record { cw721_contract = abt ∷ []; count = 1 })
      vault refl

abbrev of_contract : TokenParas
of_contract = record { contract_address = "abt"; keyword = some "t1"; status = none }

abbrev first_page : Listing SoulboundToken
first_page = record { rows = token 1 "ann" unclaim ∷ []; count = 2 }

first_page_done : get_tokens lists env of_contract 1 0 vault ≡ (ok first_page, vault)
unfolding get_tokens
first_page_done = refl

get_tokens_pages_test :
    (ts : List SoulboundToken) × (page_by_page
        (λ o. (get_tokens lists env of_contract 1 o vault).0)
        1
        2
        0
      ≡ ok ts)
    × (count_if (λ t. t.receiver_address == "bob") ts ≡ 1)
get_tokens_pages_test =
    get_tokens_all lists env (λ t. t.receiver_address == "bob") of_contract 1 2 vault vault
      first_page (omega arith) first_page_done (omega arith)

abbrev of_ann : ReceiverTokenParas
of_ann = record { receiver_address = "ann"; keyword = none; is_equip_token = none }

abbrev other : SoulboundToken
other = record (token 3 "ann" unclaim) { contract_address = "art"; token_id = "t3" }

abbrev two_contracts : Vault
two_contracts = record vault { tokens = token 1 "ann" unclaim ∷ other ∷ [] }

abbrev rejected_one : Vault
rejected_one = record after { tokens = rejected_token (token 1 "ann" unclaim) ∷ other ∷ [] }

rejected_one_done : reject_token env rejection two_contracts ≡ (ok (written 1), rejected_one)
unfolding reject_token includes
rejected_one_done = refl

other_left :
    get_token_by_receiver_address lists env of_ann 10 0 rejected_one
    ≡ (ok (record { rows = other ∷ []; count = 1 }), rejected_one)
unfolding get_token_by_receiver_address
other_left = refl

reject_token-get_token_by_receiver_address_example :
    count_if (is_open ("abt" ∷ [])) (other ∷ []) ≡ 0
reject_token-get_token_by_receiver_address_example =
    reject_token-get_token_by_receiver_address lists env rejection abt [] (abt ∷ []) two_contracts
      rejected_one rejected_one (written 1) of_ann 10 0 (record { rows = other ∷ []; count = 1 })
      refl refl refl rejected_one_done refl other_left

abbrev vaults : NameTags
vaults = record { tags = vault_tag ∷ []; count = 1; count_favorite = 0 }

vaults_done :
    get_name_tags table_order tags ctx (some "vault") 10 0 with_vault ≡ (ok vaults, with_vault)
unfolding get_name_tags
vaults_done = refl

get_name_tags-IsOwn_example : All (IsOwn 1 (some aura) (some "vault")) (vault_tag ∷ [])
get_name_tags-IsOwn_example =
    get_name_tags-IsOwn table_order tags ctx (some "vault") 10 0 with_vault with_vault vaults
      vaults_done

create_name_tag-get_name_tags_example : 0 < count_if (is_tag 3 "vault") (vault_tag ∷ [])
create_name_tag-get_name_tags_example =
    create_name_tag-get_name_tags table_order tags ctx request aura book with_vault with_vault
      vault_tag 10 vaults refl refl create_done (omega arith) vaults_done (omega arith)
