-- ===== src/Soulbound.antt =====
-- Soulbound tokens: the tables and the conditions of the queries of
-- src/components/soulbound-token/services/soulbound-token.service.ts and of
-- repositories/soulbound-token.repository.ts. The operations are in Soulbound/Service.antt,
-- `create` in Soulbound/Create.antt, the listings in Soulbound/Listing.antt and Soulbound/Contracts.antt,
-- and the synchronisation with the chain in Soulbound/Sync.antt.
pub mod Service
pub mod Create
pub mod Contracts
pub mod Listing
pub mod Sync
pub mod Picks
pub mod Rejections
use aura_explorer_api.Prelude.{
  ℕ, String, Bool, true, false, not, ◌&&◌, ◌||◌, ◌==◌, nat_eq, string_eq, Option, none, some, List,
  [], ◌∷◌, map, refl, leb, ltb, if◌then◌else◌, truthy, ◌≡◌, ◌↔◌, arith, Eq,
}
use aura_explorer_api.Exec.{
  Exception, Result, ok, err, Exec, pure, raise, gets, lift, continue, ◌>>=◌, ◌>>◌, try_catch,
}
use aura_explorer_api.Repository.{Keyed, Repository}
use Prim.Native.Char.{code}
use Prim.Native.String
use aura_explorer_api.NameTag.Address.{includes}
use aura_explorer_api.NameTag.Format.{is_space}

-- SOULBOUND_TOKEN_STATUS
pub data Status : Type 0 where
  unclaim equipped unequipped pending rejected : Status

abbrev status_rank : Status → ℕ
status_rank unclaim = 0
status_rank equipped = 1
status_rank unequipped = 2
status_rank pending = 3
status_rank rejected = 4

pub status_rank_iff : (a b : Status) → ((status_rank a == status_rank b) ≡ true) ↔ (a ≡ b)
status_rank_iff a b = ground arith

instance abbrev pub status_eq : Eq Status
status_eq = record { beq = λ a b. status_rank a == status_rank b; beq_iff = status_rank_iff }

pub record SoulboundToken : Type 0 where
  pub id : ℕ
  pub contract_address : String
  pub token_id : String
  pub token_uri : String
  pub token_img : Option String
  pub img_type : Option String
  pub token_name : Option String
  pub animation_url : Option String
  pub receiver_address : String
  pub status : Status
  pub signature : String
  pub pub_key : String
  pub picked : Bool
  pub is_notify : Bool
  pub ipfs : Option String

pub record SoulboundRejectList : Type 0 where
  pub id : ℕ
  pub account_address : String
  pub reject_address : String

abbrev pub soulbound_keyed : Keyed SoulboundToken
soulbound_keyed = record {
  id = λ t. t.id;
  with_id = λ n t. record t { id = n };
  id-with_id = λ n t. refl;
}

abbrev pub reject_keyed : Keyed SoulboundRejectList
reject_keyed = record {
  id = λ t. t.id;
  with_id = λ n t. record t { id = n };
  id-with_id = λ n t. refl;
}

pub record Vault : Type 0 where
  pub tokens : List SoulboundToken
  pub rejects : List SoulboundRejectList

-- A contract of the indexer, with its minter.
pub record Cw4973Contract : Type 0 where
  pub minter : String
  pub address : String

-- The document of a token on IPFS. `has_image` is `hasOwnProperty('image')`.
pub record Document : Type 0 where
  pub has_image : Bool
  pub image : Option String
  pub name : Option String
  pub animation_url : Option String

-- The document that is signed for a message. `amount` of the fee is empty, and there is one message.
pub record SignDoc : Type 0 where
  pub chain_id : String
  pub account_number : String
  pub sequence : String
  pub gas : String
  pub type : String
  pub signer : String
  pub payload : String
  pub memo : String

-- The repositories, @cosmjs (the address of a public key, the text of a document, and the check of a
-- signature on the hash of a text by a key),
-- the indexer's contracts by address, by minter and by both, and the query to the contract on the
-- chain; js-sha256, base64 of a text, and a text in JSON; the URL of the IPFS gateway, what the
-- gateway answers for a document and for the type of an image, JSON.stringify of a document, and
-- whether a condition on a value that is undefined holds for every row in TypeORM or for none.
pub record SoulboundServices : Type 0 where
  pub tokens : Repository soulbound_keyed
  pub rejects : Repository reject_keyed
  pub address_of_key : String → Result String
  pub serialize_sign_doc : SignDoc → String
  pub check_signature : String → String → String → Result Bool
  pub contracts_at : String → Result (List Cw4973Contract)
  pub contracts_of : String → Result (List Cw4973Contract)
  pub query_nft : String → String → Result (Unit {0})
  pub contracts_of_at : String → String → Result (List Cw4973Contract)
  pub chain_id : String
  pub sha256 : String → String
  pub base64 : String → String
  pub json_text : String → String
  pub ipfs_url : String
  pub fetch_document : String → Option Document
  pub content_type : String → Option String
  pub stringify : Document → String
  pub undefined_matches : Bool

-- `trim` of a text: without the white space at both ends.
unfoldable pub trim_start : String → String
trim_start String.[] = ""
trim_start (String.◌∷◌ c s) = if is_space (code c) then trim_start s else String.◌∷◌ c s

unfoldable pub trim_end : String → String
trim_end String.[] = ""
trim_end (String.◌∷◌ c s) =
    let rest = trim_end s in if rest == "" && is_space (code c) then "" else String.◌∷◌ c rest

abbrev pub trim : String → String
trim s = trim_end (trim_start s)

trim_test : trim "  aura1 x " ≡ "aura1 x"
unfolding trim_start trim_end is_space
trim_test = refl

-- The errors of ERROR_MAP that the service answers with.
pub data SoulboundError : Type 0 where
  your_address_invalid token_not_exist picked_token_oversize : SoulboundError
  take_self_token reject_abt_token : SoulboundError
  token_uri_invalid verify_img_type dup_entry_token minter_or_contract_address_invalid :
      SoulboundError

-- An answer: an error of the map, what was written or created, or nothing.
pub data Answer : Type 0 where
  mistake : SoulboundError → Answer
  written : ℕ → Answer
  created : SoulboundToken → Answer
  nothing : Answer

-- VerifySignatureParasDto.
pub record Signed : Type 0 where
  pub signature : String
  pub msg : String
  pub pub_key : String

-- TokenUpdatedParasDto.
pub record TokenUpdated : Type 0 where
  pub token_id : String
  pub contract_address : String
  pub receiver_address : String
  pub reject_all : Bool

abbrev pub picked_token_max : ℕ
picked_token_max = 5

module _ {A : Type 0} where
  abbrev pub on_tokens : (List SoulboundToken → Result A × List SoulboundToken) → Exec Vault A
  on_tokens f s = ((f s.tokens).0, record s { tokens = (f s.tokens).1 })

  abbrev pub on_rejects :
      (List SoulboundRejectList → Result A × List SoulboundRejectList) → Exec Vault A
  on_rejects f s = ((f s.rejects).0, record s { rejects = (f s.rejects).1 })

-- The conditions of the queries.
abbrev pub is_token : String → String → SoulboundToken → Bool
is_token id contract t = t.token_id == id && t.contract_address == contract

abbrev pub is_picked : String → SoulboundToken → Bool
is_picked receiver t = t.receiver_address == receiver && t.picked

abbrev pub is_noticed : String → SoulboundToken → Bool
is_noticed receiver t = t.receiver_address == receiver && t.is_notify && t.status == unclaim

abbrev pub is_kept : String → SoulboundToken → Bool
is_kept receiver t = t.receiver_address == receiver && not (t.status == rejected)

-- The tokens that a rejection is about.
abbrev pub is_rejectable : TokenUpdated → List String → SoulboundToken → Bool
is_rejectable req contracts t =
    includes contracts t.contract_address
    && t.status == unclaim
    && t.receiver_address == req.receiver_address
    && (req.reject_all || t.token_id == req.token_id)

abbrev pub rejected_token : SoulboundToken → SoulboundToken
rejected_token t = record t { status = rejected; is_notify = false }
