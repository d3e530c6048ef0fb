-- ===== src/NameTag.antt =====
-- Name tags: the tables that the name tag services and the watch list share, and what they take from
-- outside. The entities are src/shared/entities/{private-name-tag,public-name-tag}.entity.ts.
pub mod Format
pub mod Address
pub mod Encryption
pub mod Private
pub mod Public
use aura_explorer_api.Prelude.{
  false, ℕ, String, ◌≡◌, ◌↔◌, refl, Bool, true, Option, none, some, List, arith, Eq, ◌==◌, nat_eq,
  string_eq,
}
use aura_explorer_api.Exec.{Exception, ok, err, Result, Exec}
use aura_explorer_api.Repository.{Keyed, Repository}
use aura_explorer_api.Entities.{Explorer}
use aura_explorer_api.Exec.Results.{map_ok}

-- NAME_TAG_TYPE
pub data NameTagType : Type 0 where
  account contract : NameTagType

abbrev type_rank : NameTagType → ℕ
type_rank account = 0
type_rank contract = 1

pub type_rank_iff : (a b : NameTagType) → ((type_rank a == type_rank b) ≡ true) ↔ (a ≡ b)
type_rank_iff a b = ground arith

instance abbrev pub type_eq : Eq NameTagType
type_eq = record { beq = λ a b. type_rank a == type_rank b; beq_iff = type_rank_iff }

-- The errors of ADMIN_ERROR_MAP that the services answer with.
pub data TagError : Type 0 where
  duplicate_address duplicate_tag duplicate_private_tag invalid_format : TagError
  invalid_type_address invalid_evm_format invalid_name_tag invalid_url : TagError
  limit_private_name_tag required_address : TagError

-- An answer that is no exception: an error of the map, or what was stored.
pub data Reply (A : Type 0) : Type 0 where
  refused : TagError → Reply A
  stored : A → Reply A

pub record PrivateNameTag : Type 0 where
  pub id : ℕ
  pub type : Option NameTagType
  pub is_favorite : Bool
  pub name_tag : String
  pub note : Option String
  pub address : String
  pub evm_address : Option String
  pub created_by : ℕ
  pub explorer_id : ℕ

pub record PublicNameTag : Type 0 where
  pub id : ℕ
  pub type : Option NameTagType
  pub name_tag : String
  pub address : String
  pub evm_address : Option String
  pub updated_by : ℕ
  pub enterprise_url : Option String
  pub explorer_id : ℕ

abbrev pub private_keyed : Keyed PrivateNameTag
private_keyed = record {
  id = λ t. t.id;
  with_id = λ n t. record t { id = n };
  id-with_id = λ n t. refl;
}

abbrev pub public_keyed : Keyed PublicNameTag
public_keyed = record {
  id = λ t. t.id;
  with_id = λ n t. record t { id = n };
  id-with_id = λ n t. refl;
}

pub record Book : Type 0 where
  pub private_tags : List PrivateNameTag
  pub public_tags : List PublicNameTag

-- The repositories, EncryptionService with what NameTag/Encryption.antt shows of it, the check of addresses
-- (bech32, web3-validator and the node's RPC), and the configured limit on private tags.
pub record TagServices : Type 0 where
  pub private_tags : Repository private_keyed
  pub public_tags : Repository public_keyed
  pub find_explorer : String → Option Explorer
  pub encrypt : String → String
  pub decrypt : String → Result String
  pub decode_prefix : String → Option String
  pub is_evm_address : String → Bool
  pub has_evm_code : String → String → Result Bool
  pub limited_private_name_tag : ℕ
  pub decrypt-encrypt : (x : String) → (x == "") ≡ false → decrypt (encrypt x) ≡ ok x
  pub decrypt-encrypt_empty : (e : Exception) × (decrypt (encrypt "") ≡ err e)

-- A tag with its text decrypted.
abbrev pub readable : TagServices → PrivateNameTag → Result PrivateNameTag
readable env t = map_ok (λ n. record t { name_tag = n }) (env.decrypt t.name_tag)

-- RequestContext: the user of the request and its chain.
pub record Context : Type 0 where
  pub user_id : ℕ
  pub chain_id : String

module _ {A : Type 0} where
  abbrev pub on_private : (List PrivateNameTag → Result A × List PrivateNameTag) → Exec Book A
  on_private f s = ((f s.private_tags).0, record s { private_tags = (f s.private_tags).1 })

  abbrev pub on_public : (List PublicNameTag → Result A × List PublicNameTag) → Exec Book A
  on_public f s = ((f s.public_tags).0, record s { public_tags = (f s.public_tags).1 })

-- An update leaves a column alone where its new value is undefined.
abbrev pub or_old {ℓ} : {A : Type ℓ} → Option A → A → A
or_old none old = old
or_old (some a) old = a

abbrev pub or_null {ℓ} : {A : Type ℓ} → Option A → Option A → Option A
or_null none old = old
or_null (some a) old = some a
