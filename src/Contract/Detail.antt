-- ===== src/Contract/Detail.antt =====
-- `getCW4973Detail` and `cw4973MediaInfo` of ContractService. The document of a token is fetched once
-- and kept in the column `ipfs`.
pub mod Kept
pub mod Untouched
use aura_explorer_api.Prelude.{
  ℕ, String, Bool, true, false, not, ◌&&◌, ◌||◌, ◌==◌, nat_eq, string_eq, ◌≡◌, Option, none, some,
  List, [], ◌∷◌, first, truthy, is_value, text_or_empty, if◌then◌else◌,
}
use aura_explorer_api.Exec.{failure, Result, ok, err, Exec, pure, lift, ◌>>=◌, ◌>>◌}
use aura_explorer_api.Exec.Results.{map_ok}
use aura_explorer_api.Contract.{rows_of}
use aura_explorer_api.Soulbound.{
  Status, SoulboundToken, Vault, SoulboundServices, is_token, on_tokens,
}
use aura_explorer_api.Soulbound.Create.{transform}

-- JSON of JavaScript: its values, the value `{}`, what counts as true, and their texts.
pub record Json : Type 1 where
  pub Value : Type 0
  pub empty : Value
  pub is_true : Value → Bool
  pub stringify : Value → String
  pub parse : String → Result Value
  pub parse-stringify : (d : Value) → parse (stringify d) ≡ ok d
  pub stringify-empty : stringify empty ≡ "{}"

-- A contract of the indexer, of which the name and the minter may be null.
pub record ContractRow : Type 0 where
  pub address : String
  pub name : Option String
  pub minter : Option String

-- A token of the indexer with the media of its document.
pub record MediaInfo : Type 0 where
  pub token_id : String
  pub image_url : Option String
  pub image_type : Option String
  pub animation_url : Option String
  pub animation_type : Option String

-- The indexer's contracts at an address and tokens of an owner, none where a query failed, and what the
-- IPFS gateway answers within the time and the retries.
pub record DetailServices (json : Json) : Type 0 where
  pub fetch_contracts : String → Option (List ContractRow)
  pub fetch_media : String → Option (List MediaInfo)
  pub fetch_ipfs : String → Option json.Value

-- What is answered. A number 0 and the value false, which the source writes as '', stay as they are.
pub record Nft (json : Json) : Type 0 where
  pub id : ℕ
  pub contract_address : String
  pub token_id : String
  pub token_uri : String
  pub token_name : String
  pub token_name_ipfs : String
  pub animation_url : String
  pub token_img : String
  pub img_type : String
  pub receiver_address : String
  pub status : Status
  pub picked : Bool
  pub signature : String
  pub pub_key : String
  pub minter_address : String
  pub ipfs : Option json.Value

-- No contract, no token, or the token.
pub data Detail (json : Json) : Type 0 where
  no_contract : Detail json
  no_token : Detail json
  detail : Nft json → Detail json

-- A document is there unless it is missing or empty.
abbrev pub has_document : SoulboundToken → Bool
has_document t = not (not (truthy t.ipfs) || is_value t.ipfs "{}")

abbrev pub with_ipfs : String → SoulboundToken → SoulboundToken
with_ipfs document t = record t { ipfs = some document }

-- The medium of a token, and the column of the table where the indexer has none.
abbrev shown_or : {A : Type 0} → A → (MediaInfo → A) → Option MediaInfo → A
shown_or old new none = old
shown_or old new (some m) = new m

abbrev pub with_media : Option MediaInfo → SoulboundToken → SoulboundToken
with_media media t = record t {
  token_img = shown_or t.token_img (λ m. some (text_or_empty m.image_url)) media;
  animation_url = shown_or t.animation_url (λ m. some (text_or_empty m.animation_url)) media;
  img_type =
      shown_or t.img_type (λ m. if truthy m.animation_type then m.animation_type else m.image_type)
        media;
}

module _ (json : Json) where
  open json use {Value, empty, is_true, parse}

  abbrev pub document_of : Option Value → Value
  document_of none = empty
  document_of (some d) = d

  abbrev unless_false : Value → Option Value
  unless_false d = if is_true d then some d else none

  abbrev pub nft_of : ContractRow → SoulboundToken → Value → Nft json
  nft_of c t d = record {
    id = t.id;
    contract_address = c.address;
    token_id = t.token_id;
    token_uri = t.token_uri;
    token_name = text_or_empty c.name;
    token_name_ipfs = text_or_empty t.token_name;
    animation_url = text_or_empty t.animation_url;
    token_img = text_or_empty t.token_img;
    img_type = text_or_empty t.img_type;
    receiver_address = t.receiver_address;
    status = t.status;
    picked = t.picked;
    signature = t.signature;
    pub_key = t.pub_key;
    minter_address = text_or_empty c.minter;
    ipfs = unless_false d;
  }

  abbrev pub answer : ContractRow → SoulboundToken → Result (Detail json)
  answer c t = map_ok (λ d. detail (nft_of c t d)) (parse (text_or_empty t.ipfs))

module _ (json : Json) (env : SoulboundServices) (detail_env : DetailServices json) where
  open json use {stringify}

  -- A query that failed answers null, and the token stays as it is.
  abbrev media_of : SoulboundToken → Option (List MediaInfo) → Option MediaInfo
  media_of t none = none
  media_of t (some media) = first (λ (m : MediaInfo). m.token_id == t.token_id) media

  unfoldable pub cw4973_media_info : SoulboundToken → SoulboundToken
  cw4973_media_info t = with_media (media_of t (detail_env.fetch_media t.receiver_address)) t

  -- What the gateway has for the token, or `{}`.
  abbrev pub fetched : SoulboundToken → String
  fetched t = stringify (document_of json (detail_env.fetch_ipfs (transform env t.token_uri)))

  abbrev pub fill_ipfs : SoulboundToken → Exec Vault SoulboundToken
  fill_ipfs t s =
      if has_document t
      then (ok t, s)
      else (do
        on_tokens (env.tokens.update (λ r. r.id == t.id) (with_ipfs (fetched t)))
        pure (with_ipfs (fetched t) t))
          s

  abbrev pub detail_of : ContractRow → Option SoulboundToken → Exec Vault (Detail json)
  detail_of c none = pure no_token
  detail_of c (some found) = do
    filled ← fill_ipfs (cw4973_media_info found)
    lift (answer json c filled)

  abbrev pub detail_in : String → List ContractRow → Exec Vault (Detail json)
  detail_in token_id [] s = (ok no_contract, s)
  detail_in token_id (c ∷ _) s =
      detail_of c (env.tokens.find_one (is_token token_id c.address) s.tokens) s

  unfoldable pub get_cw4973_detail : String → String → Exec Vault (Detail json)
  get_cw4973_detail contract_address token_id =
      lift (rows_of (detail_env.fetch_contracts contract_address)) >>= detail_in token_id
