-- ===== src/Notification/Texts/Tokens.antt =====
-- The notifications of tokens: `processTokenTransferNotification` and `processNftTransferNotification`
-- of src/components/queues/notification/utils/notification.util.ts.
use aura_explorer_api.Prelude.{
  ℕ, String, false, string_eq, Option, none, some, List, [], ◌∷◌, length, take, keep_if, is_value,
  text_or_empty, if◌then◌else◌,
}
use aura_explorer_api.Prelude.Text.{◌<>◌, join, text_or_null}
use aura_explorer_api.Exec.{failure, Result, ok, err}
use aura_explorer_api.Exec.Results.{and_then, map_ok, map_each, collect}
use aura_explorer_api.Entities.{Explorer}
use aura_explorer_api.WatchList.{WatchListRow}
use aura_explorer_api.Notification.Message.{or_text}
use aura_explorer_api.Notification.Groups.{Transfer, Group}
use aura_explorer_api.Notification.Texts.{
  TextServices, Notice, transfers, token_transfer, nft_transfer, TagLists, tag_of, is_party, more,
  direction, first_height,
}
use aura_explorer_api.Notification.Texts.Coins.{or_number}

pub record Cw20Contract : Type 0 where
  pub symbol : Option String
  pub decimal : Option ℕ
  pub logo_url : Option String

pub record Cw20Detail : Type 0 where
  pub amount : Option String
  pub cw20_contract : Option Cw20Contract

-- A token with the address and the type of its image and of its animation, kept outside the chain.
pub record Cw721Token : Type 0 where
  pub token_id : Option String
  pub image_url : Option String
  pub image_type : Option String
  pub animation_url : Option String
  pub animation_type : Option String

pub record Cw721Detail : Type 0 where
  pub cw721_token : Option Cw721Token

-- What an undefined part of a path reads as.
abbrev pub undefined_read : {A : Type 0} → Result A
undefined_read = err (failure "Cannot read properties of undefined")

module _ (env : TextServices) (tags : TagLists) (explorer : Explorer) where
  abbrev pub token_shown : Transfer Cw20Detail → Option Cw20Contract → Result String
  token_shown t none = undefined_read
  token_shown t (some c) =
      ok (env.balance_of t.detail.amount (or_number c.decimal 6) <> (" " <> text_or_null c.symbol))

  abbrev logo_of : Option Cw20Contract → Option String
  logo_of none = none
  logo_of (some c) = c.logo_url

  abbrev pub token_image : List (Transfer Cw20Detail) → Result (Option String)
  token_image [] = undefined_read
  token_image (t ∷ _) = ok (logo_of t.detail.cw20_contract)

  abbrev pub token_notice : Group Cw20Detail → String → WatchListRow → Option String → Notice
  token_notice g shown w image = record {
    id = 0;
    title = if is_value g.to w.address then "Token Received" else "Token Sent";
    content =
        shown
        <> (" "
            <> (more 2 g.activities
                <> (direction g w <> (" by " <> (w.address <> tag_of tags explorer w)))));
    details = transfers shown (length g.activities) g.from g.to w.address (tag_of tags explorer w);
    image = image;
    tx_hash = g.tx_hash;
    height = first_height g.activities;
    type = token_transfer;
    user_id = w.user_id;
    is_read = false;
    explorer_id = explorer.id;
  }

  abbrev pub token_of : Group Cw20Detail → String → WatchListRow → Result (List Notice)
  token_of g shown w =
      map_ok (λ image. token_notice g shown w image ∷ []) (token_image g.activities)

  -- The first three transfers are shown.
  unfoldable pub process_token_transfer_notification :
      List (Group Cw20Detail) → List WatchListRow → Result (List Notice)
  process_token_transfer_notification gs ws =
      collect
        (λ g.
          and_then
            (map_each (λ (t : Transfer Cw20Detail). token_shown t t.detail.cw20_contract)
              (take 3 g.activities))
            (λ shown. collect (token_of g (join ", " shown)) (keep_if (is_party g) ws)))
        gs

  abbrev pub token_id_shown : Option Cw721Token → Result String
  token_id_shown none = undefined_read
  token_id_shown (some t) = ok (text_or_empty t.token_id)

  abbrev media_image : Cw721Token → String
  media_image t =
      env.stringify_media (or_text t.image_url t.animation_url)
        (or_text t.image_type t.animation_type)

  abbrev pub nft_image : List (Transfer Cw721Detail) → Result String
  nft_image [] = undefined_read
  nft_image (t ∷ _) = elim t.detail.cw721_token [
    | none ↦ undefined_read
    | some k ↦ ok (media_image k)
  ]

  abbrev pub nft_notice : Group Cw721Detail → String → WatchListRow → String → Notice
  nft_notice g shown w image = record {
    id = 0;
    title = if is_value g.to w.address then "NFT Received" else "NFT Sent";
    content =
        "NFT id "
        <> (shown
            <> (" "
                <> (more 2 g.activities
                    <> (direction g w <> (" by " <> (w.address <> tag_of tags explorer w))))));
    details = transfers shown (length g.activities) g.from g.to w.address (tag_of tags explorer w);
    image = some image;
    tx_hash = g.tx_hash;
    height = first_height g.activities;
    type = nft_transfer;
    user_id = w.user_id;
    is_read = false;
    explorer_id = explorer.id;
  }

  abbrev pub nft_of : Group Cw721Detail → String → WatchListRow → Result (List Notice)
  nft_of g shown w = map_ok (λ image. nft_notice g shown w image ∷ []) (nft_image g.activities)

  -- The first two tokens are shown.
  unfoldable pub process_nft_transfer_notification :
      List (Group Cw721Detail) → List WatchListRow → Result (List Notice)
  process_nft_transfer_notification gs ws =
      collect
        (λ g.
          and_then
            (map_each (λ (t : Transfer Cw721Detail). token_id_shown t.detail.cw721_token)
              (take 2 g.activities))
            (λ shown. collect (nft_of g (join ", " shown)) (keep_if (is_party g) ws)))
        gs
