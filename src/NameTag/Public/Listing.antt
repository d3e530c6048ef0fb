-- ===== src/NameTag/Public/Listing.antt =====
-- The listings of src/components/public-name-tag/services/public-name-tag.service.ts, with the queries
-- of repositories/public-name-tag.repository.ts that they send. The outputs show some columns.
use aura_explorer_api.Prelude.{
  ℕ, zero, suc, String, Bool, true, ◌&&◌, ◌||◌, ◌==◌, nat_eq, Option, none, some, List, ltb, length,
  if◌then◌else◌,
}
use aura_explorer_api.Prelude.Pages.{last_key}
use aura_explorer_api.Exec.{
  bad_request, entity_not_found, message, Result, Exec, gets, lift, or_raise, raise, try_catch,
  ◌>>=◌,
}
use aura_explorer_api.Exec.Results.{map_ok}
use aura_explorer_api.Repository.Builder.{Builder, Listing, if_given, finalize_result}
use aura_explorer_api.NameTag.{PublicNameTag, Book, TagServices, Context}

-- MySQL: `lower_like` is `LOWER(column) LIKE LOWER('%keyword%')`, false of a column that is null, `like`
-- leaves the case to the database. `page_beyond` is the query of the main site, with a limit and a
-- condition and without an order.
pub record PublicListings : Type 0 where
  pub builder : Builder PublicNameTag (Unit {0})
  pub lower_like : Option String → String → Bool
  pub like : String → String → Bool
  pub page_beyond : ℕ → (PublicNameTag → Bool) → List PublicNameTag → Result (List PublicNameTag)

pub record MainSite : Type 0 where
  pub name_tags : List PublicNameTag
  pub count : ℕ
  pub next_key : Option ℕ

-- `nextKey || null`
abbrev pub or_null_key : Option ℕ → Option ℕ
or_null_key none = none
or_null_key (some zero) = none
or_null_key (some (suc k)) = some (suc k)

-- `Number(limit) || 500`, and 500 at most; a limit that is no number is none.
abbrev pub page_limit : Option ℕ → ℕ
page_limit none = 500
page_limit (some zero) = 500
page_limit (some (suc n)) = if ltb 500 (suc n) then 500 else suc n

abbrev pub is_after : Option ℕ → PublicNameTag → Bool
is_after none t = true
is_after (some zero) t = true
is_after (some (suc k)) t = ltb (suc k) t.id

module _ (lists : PublicListings) (env : TagServices) where
  abbrev pub is_public_listed : Option String → ℕ → PublicNameTag → Bool
  is_public_listed keyword explorer t =
      t.explorer_id == explorer
      && if_given keyword (λ k.
        lists.lower_like (some t.address) k
        || lists.lower_like t.evm_address k
        || lists.like t.name_tag k)

  unfoldable pub get_public_name_tags :
      Context → Option String → ℕ → ℕ → Exec Book (Listing PublicNameTag)
  get_public_name_tags ctx keyword limit offset =
      try_catch
        (do
          explorer ← or_raise (entity_not_found "Explorer") (env.find_explorer ctx.chain_id)
          tags ← gets (λ (b : Book). b.public_tags)
          lift (
              finalize_result lists.builder env.public_tags tt
                (is_public_listed keyword explorer.id) limit offset tags))
        (λ e. raise (bad_request (message e)))

  unfoldable pub get_public_name_tags_detail : ℕ → Exec Book (Option PublicNameTag)
  get_public_name_tags_detail id =
      gets (λ b. env.public_tags.find_one (λ t. t.id == id) b.public_tags)

  abbrev pub main_site : List PublicNameTag → MainSite
  main_site ts = record {
    name_tags = ts;
    count = length ts;
    next_key = or_null_key (last_key (λ (t : PublicNameTag). t.id) ts);
  }

  abbrev pub page_of_site :
      Option ℕ → Option ℕ → ℕ → List PublicNameTag → Result (List PublicNameTag)
  page_of_site limit next_key explorer ts =
      lists.page_beyond (page_limit limit) (λ t. t.explorer_id == explorer && is_after next_key t)
        ts

  unfoldable pub get_name_tag_main_site : Option ℕ → Option ℕ → String → Exec Book MainSite
  get_name_tag_main_site limit next_key chain_id =
      try_catch
        (do
          explorer ← or_raise (entity_not_found "Explorer") (env.find_explorer chain_id)
          tags ← gets (λ (b : Book). b.public_tags)
          lift (map_ok main_site (page_of_site limit next_key explorer.id tags)))
        (λ e. raise (bad_request (message e)))
