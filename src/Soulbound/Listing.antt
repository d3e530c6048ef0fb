-- ===== src/Soulbound/Listing.antt =====
-- The listings of src/components/soulbound-token/services/soulbound-token.service.ts (`getTokens`,
-- `getTokenByReceiverAddress`, `getTokenPickedByAddress`, with `cw4973MediaInfo`) and the queries of
-- repositories/soulbound-token.repository.ts that they send. The outputs show all columns but a few.
pub mod Paged
pub mod Open
use aura_explorer_api.Prelude.{
  ℕ, ◌≤◌, ◌<◌, ◌≡◌, String, Bool, true, false, ◌&&◌, ◌||◌, ◌==◌, string_eq, Option, none, some,
  List, [], ◌∷◌, map, first, take, drop, count_if, truthy, text_or_empty, is_value, if◌then◌else◌,
}
use aura_explorer_api.Exec.{Result, ok, err, Exec}
use aura_explorer_api.Exec.Results.{map_ok}
use aura_explorer_api.Soulbound.{
  Status, unclaim, equipped, unequipped, status_eq, SoulboundToken, Vault, SoulboundServices,
}
use aura_explorer_api.Repository.Builder.{Builder, Listing, if_given, finalize_result}
use aura_explorer_api.Contract.Detail.{MediaInfo, with_media}

-- The orders of the queries: by `created_at` from the newest; by `is_notify`, the status and
-- `updated_at`; and by `updated_at` from the oldest.
pub data SortedBy : Type 0 where
  created notified updated : SortedBy

-- MySQL and the indexer. `lower_like` is `LOWER(column) LIKE '%keyword%'`, `lower_like_lower` the same
-- with `LOWER(keyword)`, `has_status` the comparison with a text. `fetch_media` has none where the query
-- failed.
pub record ListingServices : Type 0 where
  pub builder : Builder SoulboundToken SortedBy
  pub lower_like : String → String → Bool
  pub lower_like_lower : String → String → Bool
  pub has_status : Status → String → Bool
  pub fetch_media : String → Option (List MediaInfo)

-- TokenParasDto.
pub record TokenParas : Type 0 where
  pub contract_address : String
  pub keyword : Option String
  pub status : Option String

-- ReceiverTokenParasDto; `is_equip_token` is a text.
pub record ReceiverTokenParas : Type 0 where
  pub receiver_address : String
  pub keyword : Option String
  pub is_equip_token : Option String

module _ (lists : ListingServices) where
  abbrev column_like : Option String → String → Bool
  column_like none k = false
  column_like (some c) k = lists.lower_like_lower c k

  abbrev pub is_listed_token : TokenParas → SoulboundToken → Bool
  is_listed_token req t =
      t.contract_address == req.contract_address
      && if_given req.keyword (λ k.
        lists.lower_like t.receiver_address k
        || lists.lower_like t.token_uri k
        || lists.lower_like t.token_id k)
      && if_given req.status (lists.has_status t.status)

  abbrev pub is_of_receiver : ReceiverTokenParas → SoulboundToken → Bool
  is_of_receiver req t =
      t.receiver_address == req.receiver_address
      && if_given req.keyword (λ k. lists.lower_like t.token_id k || column_like t.token_name k)
      && (if is_value req.is_equip_token "true"
          then t.status == equipped
          else t.status == unclaim || t.status == unequipped)

  abbrev pub is_picked_of : String → SoulboundToken → Bool
  is_picked_of receiver t = t.receiver_address == receiver && t.picked

  abbrev media_of : SoulboundToken → Option (List MediaInfo) → Option MediaInfo
  media_of t none = none
  media_of t (some media) = first (λ (m : MediaInfo). m.token_id == t.token_id) media

  abbrev pub media_info : Option (List MediaInfo) → List SoulboundToken → List SoulboundToken
  media_info media ts = map (λ t. with_media (media_of t media) t) ts

  module _ (env : SoulboundServices) where
    unfoldable pub get_tokens : TokenParas → ℕ → ℕ → Exec Vault (Listing SoulboundToken)
    get_tokens req limit offset s = (
      finalize_result lists.builder env.tokens SortedBy.created (is_listed_token req) limit offset
          s.tokens,
      s,
    )

    abbrev pub with_media_info : String → Listing SoulboundToken → Listing SoulboundToken
    with_media_info owner l = record l { rows = media_info (lists.fetch_media owner) l.rows }

    unfoldable pub get_token_by_receiver_address :
        ReceiverTokenParas → ℕ → ℕ → Exec Vault (Listing SoulboundToken)
    get_token_by_receiver_address req limit offset s = (
      map_ok (with_media_info req.receiver_address) (
          finalize_result lists.builder env.tokens SortedBy.notified (is_of_receiver req) limit
            offset s.tokens),
      s,
    )

    unfoldable pub get_token_picked_by_address : String → ℕ → Exec Vault (Listing SoulboundToken)
    get_token_picked_by_address receiver limit s = (
      map_ok (with_media_info receiver) (
          finalize_result lists.builder env.tokens SortedBy.updated (is_picked_of receiver) limit 0
            s.tokens),
      s,
    )
