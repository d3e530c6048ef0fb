-- ===== src/Tests/Tags.antt =====
-- The theorems on name tags, at a table with a tag of Ann's and one of another user.
use mathlib.Core.List.{Memᴰ}
use aura_explorer_api.Prelude.{ℕ, ◌≡◌, ◌↔◌, refl, false, none, some, [], ◌∷◌, arith, keep_if}
use aura_explorer_api.Exec.{ok}
use aura_explorer_api.Repository.Rows.{UniqueIds}
use aura_explorer_api.NameTag.{account, stored, PrivateNameTag, Book, private_keyed}
use aura_explorer_api.NameTag.Address.{
  verify, is_valid_bench32_address, type_mismatch, length_without,
}
use aura_explorer_api.NameTag.Address.Verdict.{IsAccepted, verify_iff}
use aura_explorer_api.NameTag.Private.{
  TagRequest, is_owned, validate, validate_create, validate_name, create_name_tag, update_name_tag,
  delete_name_tag,
}
use aura_explorer_api.NameTag.Private.Limit.{IsValid, create_name_tag-IsValid}
use aura_explorer_api.NameTag.Private.Ownership.{name_tag_requests_others}
use aura_explorer_api.NameTag.Public.{PublicRequest}
use aura_explorer_api.NameTag.Format.{matches_name_tag, is_tag_char, is_space, all_codes}
use aura_explorer_api.Tests.{tags, ctx, aura}

abbrev pub tag : ℕ → ℕ → PrivateNameTag
tag id owner = record {
  id = id;
  type = some account;
  is_favorite = false;
  name_tag = "exchange";
  note = none;
  address = "aura1old";
  evm_address = none;
  created_by = owner;
  explorer_id = 7;
}

abbrev pub book : Book
book = record { private_tags = tag 1 1 ∷ tag 2 5 ∷ []; public_tags = [] }

book-IsValid : IsValid tags book
book-IsValid = record {
  limited = λ i e. ground arith;
  one_for_address = λ i a. ground arith;
  one_for_text = λ i e c. ground arith;
}

abbrev pub request : TagRequest
request = record {
  address = some "aura1short";
  evm_address = none;
  type = some account;
  name_tag = some "vault";
  is_favorite = none;
  note = none;
}

create_name_tag-IsValid_example : IsValid tags (create_name_tag tags ctx request book).1
create_name_tag-IsValid_example = create_name_tag-IsValid tags ctx request book book-IsValid

book-UniqueIds : UniqueIds private_keyed book.private_tags
book-UniqueIds r (Memᴰ.head e) = rw e (λ h. refl, (λ h. cc, tt))
book-UniqueIds r (Memᴰ.tail (Memᴰ.head e)) = rw e (λ h. cc, (λ h. refl, tt))
book-UniqueIds r (Memᴰ.tail (Memᴰ.tail m)) = elim m [ ]

name_tag_requests_others_example :
    (keep_if (is_owned 5) (update_name_tag tags ctx 1 request book).1.private_tags ≡ tag 2 5 ∷ [])
    × (keep_if (is_owned 5) (delete_name_tag tags ctx 1 book).1.private_tags ≡ tag 2 5 ∷ [])
name_tag_requests_others_example =
    name_tag_requests_others tags ctx 1 book book-UniqueIds 5 (λ h. ground arith) request

verify_iff_example :
    (verify tags (some "aura1short") (some "0x0000000000000000000000000000000000000400") none aura
      ≡ ok none)
    ↔ IsAccepted tags "aura1short" (some "0x0000000000000000000000000000000000000400") none aura
verify_iff_example =
    verify_iff tags "aura1short" (some "0x0000000000000000000000000000000000000400") none aura refl

abbrev pub vault_tag : PrivateNameTag
vault_tag = record {
  id = 3;
  type = some account;
  is_favorite = false;
  name_tag = "vault";
  note = none;
  address = "aura1short";
  evm_address = none;
  created_by = 1;
  explorer_id = 7;
}

abbrev pub with_vault : Book
with_vault = record book { private_tags = tag 1 1 ∷ tag 2 5 ∷ vault_tag ∷ [] }

pub create_done : create_name_tag tags ctx request book ≡ (ok (stored vault_tag), with_vault)
unfolding create_name_tag validate validate_create validate_name verify is_valid_bench32_address
    type_mismatch length_without matches_name_tag is_tag_char is_space all_codes
create_done = refl

abbrev public_request : PublicRequest
public_request = record {
  id = 0;
  type = some account;
  address = some "aura1short";
  evm_address = none;
  name_tag = "Binance";
  enterprise_url = some "https://binance.com";
}
