-- ===== src/Soulbound/Create.antt =====
-- `create` of src/components/soulbound-token/services/soulbound-token.service.ts, with `transform` of
-- src/shared/utils/contract.util.ts.
pub mod Offered
use aura_explorer_api.Prelude.{
  String, Bool, true, false, not, ◌&&◌, ◌==◌, string_eq, Option, none, some, List, [], ◌∷◌, truthy,
  text_or_empty, if◌then◌else◌,
}
use aura_explorer_api.Prelude.Text.{◌<>◌, contains, replace_first}
use aura_explorer_api.Exec.{
  Exception, dup_entry, Result, ok, err, Exec, pure, lift, continue, ◌>>=◌, try_catch,
}
use aura_explorer_api.Soulbound.{
  SoulboundToken, Vault, SoulboundServices, Cw4973Contract, Document, Answer, mistake, created,
  nothing, Signed, unclaim, trim, on_tokens, take_self_token, token_uri_invalid, verify_img_type,
  dup_entry_token, minter_or_contract_address_invalid,
}
use aura_explorer_api.Soulbound.Service.{verify_signature, signed_by}

-- CreateSoulboundTokenParamsDto.
pub record CreateToken : Type 0 where
  pub signed : Signed
  pub receiver_address : String
  pub contract_address : String
  pub token_uri : String

module _ (env : SoulboundServices) where
  unfoldable pub transform : String → String
  transform value =
      if not (contains "https://ipfs.io/" value)
      then env.ipfs_url <> replace_first "://" "/" value
      else replace_first "https://ipfs.io/" env.ipfs_url value

  -- The texts of the agreement are put together without a separator.
  abbrev agreement : String → String → String → String
  agreement active passive uri =
      "Agreement(string chain_id,address active,address passive,string tokenURI)"
      <> (env.chain_id <> (active <> (passive <> uri)))

  -- JSON.stringify of the document that signs the agreement.
  unfoldable pub create_message_to_sign : String → String → String → String
  create_message_to_sign active passive uri =
      "{\"account_number\":\"0\",\"chain_id\":\"\",\"fee\":{\"amount\":[],\"gas\":\"0\"},"
      <> ("\"memo\":\"\",\"msgs\":[{\"type\":\"sign/MsgSignData\",\"value\":{\"data\":"
          <> (env.json_text (env.base64 (agreement active passive uri))
              <> (",\"signer\":" <> (env.json_text passive <> "}}],\"sequence\":\"0\"}"))))

  unfoldable pub create_token_id : String → String → String → String
  create_token_id active passive uri = env.sha256 (create_message_to_sign active passive uri)

  -- `!!ipfs.animation_url ? ipfs.animation_url : ipfs.image`
  abbrev pub image_url : Document → Option String
  image_url d = if truthy d.animation_url then d.animation_url else d.image

  abbrev pub image_type : Option String → Option String
  image_type url = if truthy url then env.content_type (transform (text_or_empty url)) else none

  module _ (req : CreateToken) where
    abbrev pub new_token : Cw4973Contract → Document → SoulboundToken
    new_token c d = record {
      id = 0;
      contract_address = c.address;
      token_id = create_token_id (trim req.receiver_address) c.minter req.token_uri;
      token_uri = req.token_uri;
      token_img = d.image;
      img_type = image_type (image_url d);
      token_name = d.name;
      animation_url = d.animation_url;
      receiver_address = trim req.receiver_address;
      status = unclaim;
      signature = req.signed.signature;
      pub_key = req.signed.pub_key;
      picked = false;
      is_notify = true;
      ipfs = some (env.stringify d);
    }

    -- An error of the database other than a duplicate is logged, and nothing is answered.
    abbrev pub save_error : Exception → Exec Vault Answer
    save_error (dup_entry _) = pure (mistake dup_entry_token)
    save_error _ = pure nothing

    abbrev pub save_token : SoulboundToken → Exec Vault Answer
    save_token t = try_catch (do r ← on_tokens (env.tokens.insert t); pure (created r)) save_error

    -- The two checks of the document, and what follows them.
    abbrev pub if_checked : Bool → Bool → SoulboundToken → Exec Vault Answer
    if_checked false _ t = pure (mistake token_uri_invalid)
    if_checked true true t = pure (mistake verify_img_type)
    if_checked true false t = save_token t

    abbrev pub is_untyped : Document → Bool
    is_untyped d = truthy (image_url d) && not (truthy (image_type (image_url d)))

    abbrev pub create_document : Cw4973Contract → Option Document → Exec Vault Answer
    create_document c none = pure (mistake token_uri_invalid)
    create_document c (some d) = if_checked d.has_image (is_untyped d) (new_token c d)

    abbrev pub create_in : List Cw4973Contract → Exec Vault Answer
    create_in [] = pure (mistake minter_or_contract_address_invalid)
    create_in (c ∷ _) = create_document c (env.fetch_document (transform req.token_uri))

    abbrev pub create_by : String → Exec Vault Answer
    create_by address =
        if trim req.receiver_address == address
        then pure (mistake take_self_token)
        else lift (env.contracts_of_at address req.contract_address) >>= create_in

    unfoldable pub create : Exec Vault Answer
    create = signed_by env (verify_signature env req.signed) create_by
