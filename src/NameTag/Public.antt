-- ===== src/NameTag/Public.antt =====
-- PublicNameTagService of src/components/public-name-tag/services/public-name-tag.service.ts.
pub mod Addresses
pub mod Listing
use aura_explorer_api.Prelude.{
  ℕ, String, Bool, true, false, not, ◌&&◌, ◌==◌, nat_eq, string_eq, Option, none, some, truthy,
  text_or_empty, is_some, if◌then◌else◌,
}
use aura_explorer_api.Exec.{
  bad_request, entity_not_found, failure, message, Result, ok, err, Exec, pure, raise, or_raise,
  ◌>>=◌, try_catch,
}
use aura_explorer_api.Entities.{Explorer}
use aura_explorer_api.NameTag.{
  NameTagType, TagError, duplicate_address, duplicate_tag, invalid_name_tag, invalid_url,
  required_address, Reply, refused, stored, PublicNameTag, Book, TagServices, Context, on_public,
  or_null,
}
use aura_explorer_api.NameTag.Format.{matches_name_tag, matches_url}
use aura_explorer_api.NameTag.Address.{verify}

-- StorePublicNameTagParamsDto and UpdatePublicNameTagParamsDto.
pub record PublicRequest : Type 0 where
  pub id : ℕ
  pub type : Option NameTagType
  pub address : Option String
  pub evm_address : Option String
  pub name_tag : String
  pub enterprise_url : Option String

abbrev pub has_address : String → PublicNameTag → Bool
has_address address t = t.address == address

abbrev pub is_tagged : ℕ → ℕ → String → PublicNameTag → Bool
is_tagged id explorer tag t = t.name_tag == tag && (not (t.id == id) && t.explorer_id == explorer)

module _ (env : TagServices) (ctx : Context) where
  unfoldable pub validate_public_create : PublicRequest → Explorer → Book → Result (Option TagError)
  validate_public_create req explorer b =
      elim (verify env req.address req.evm_address req.type explorer) [
        | err e ↦ err e
        | ok (some x) ↦ ok (some x)
        | ok none ↦
            if is_some
              (env.public_tags.find_one (has_address (text_or_empty req.address)) b.public_tags)
            then ok (some duplicate_address)
            else ok none
      ]

  abbrev validate_tag : PublicRequest → Explorer → Book → Option TagError
  validate_tag req explorer b =
      if is_some
        (env.public_tags.find_one (is_tagged req.id explorer.id req.name_tag) b.public_tags)
      then some duplicate_tag
      else none

  -- `validate`. A chain that is not known is noticed only where its key is read.
  unfoldable pub validate_public : PublicRequest → Bool → Book → Result (Option TagError)
  unfolding validate_public_create
  validate_public req is_create b =
      if not (matches_name_tag req.name_tag)
      then ok (some invalid_name_tag)
      else if truthy req.enterprise_url && not (matches_url (text_or_empty req.enterprise_url))
      then ok (some invalid_url)
      else if is_create && not (truthy req.address)
      then ok (some required_address)
      else elim (env.find_explorer ctx.chain_id) [
        | none ↦ err (failure "Cannot read properties of undefined")
        | some explorer ↦
            elim (if is_create then validate_public_create req explorer b else ok none) [
              | err e ↦ err e
              | ok (some x) ↦ ok (some x)
              | ok none ↦ ok (validate_tag req explorer b)
            ]
      ]

  abbrev pub answered : {A : Type 0} → Option TagError → Exec Book (Reply A) → Exec Book (Reply A)
  answered none m s = m s
  answered (some x) m s = (ok (refused x), s)

  abbrev pub new_public_tag : ℕ → PublicRequest → Explorer → PublicNameTag
  new_public_tag user_id req explorer = record {
    id = 0;
    type = req.type;
    name_tag = req.name_tag;
    address = text_or_empty req.address;
    evm_address = req.evm_address;
    updated_by = user_id;
    enterprise_url = req.enterprise_url;
    explorer_id = explorer.id;
  }

  abbrev pub store_public : ℕ → PublicRequest → Exec Book (Reply PublicNameTag)
  store_public user_id req = do
    explorer ← or_raise (entity_not_found "Explorer") (env.find_explorer ctx.chain_id)
    saved ← on_public (env.public_tags.insert (new_public_tag user_id req explorer))
    pure (stored saved)

  unfoldable pub create_public_name_tag : ℕ → PublicRequest → Exec Book (Reply PublicNameTag)
  create_public_name_tag user_id req = do
    error ← (λ s. (validate_public req true s, s))
    answered error (try_catch (store_public user_id req) (λ e. raise (bad_request (message e))))

  abbrev pub updated_public_tag : ℕ → PublicRequest → PublicNameTag → PublicNameTag
  updated_public_tag user_id req t = record t {
    name_tag = req.name_tag;
    updated_by = user_id;
    enterprise_url = or_null req.enterprise_url t.enterprise_url;
    evm_address = or_null req.evm_address t.evm_address;
  }

  abbrev pub put_public : ℕ → PublicRequest → Exec Book (Reply ℕ)
  put_public user_id req = do
    n ← on_public (env.public_tags.update (λ q. q.id == req.id) (updated_public_tag user_id req))
    pure (stored n)

  unfoldable pub update_public_name_tag : ℕ → PublicRequest → Exec Book (Reply ℕ)
  update_public_name_tag user_id req = do
    error ← (λ s. (validate_public req false s, s))
    answered error (try_catch (put_public user_id req) (λ e. raise (bad_request (message e))))

  -- A failure to delete is logged, and the answer is empty.
  pub delete_public_name_tag : ℕ → Exec Book (Option ℕ)
  delete_public_name_tag id =
      try_catch (do n ← on_public (env.public_tags.delete (λ q. q.id == id)); pure (some n))
        (λ _. pure none)
