-- ===== src/NameTag/Private/Listing.antt =====
-- `getNameTags` of src/components/private-name-tag/services/private-name-tag.service.ts, with the query
-- of repositories/private-name-tag.repository.ts that it sends.
pub mod Own
pub mod Found
use aura_explorer_api.Prelude.{
  ℕ, String, Bool, true, false, ◌&&◌, ◌||◌, ◌==◌, nat_eq, string_eq, Option, none, some, List,
  is_value,
}
use aura_explorer_api.Exec.{
  Exception, bad_request, message, Result, ok, err, Exec, raise, try_catch,
}
use aura_explorer_api.Exec.Results.{and_then, map_ok, map_each}
use aura_explorer_api.Repository.Builder.{Builder, Listing, if_given, finalize_result}
use aura_explorer_api.Entities.{Explorer}
use aura_explorer_api.NameTag.{readable, PrivateNameTag, Book, TagServices, Context}

-- The tags that are shown, their number, and the number of the user's favourites.
pub record NameTags : Type 0 where
  pub tags : List PrivateNameTag
  pub count : ℕ
  pub count_favorite : ℕ

-- The chain of a tag, by the key of its explorer.
abbrev pub is_on_chain : Option Explorer → ℕ → Bool
is_on_chain none explorer_id = false
is_on_chain (some e) explorer_id = explorer_id == e.id

-- The favourites of a user, whatever their chain.
abbrev pub is_favorite_of : ℕ → PrivateNameTag → Bool
is_favorite_of user t = t.is_favorite && t.created_by == user

-- The query sorts by `is_favorite` and `updated_at`.
module _ (builder : Builder PrivateNameTag (Unit {0})) (env : TagServices) (ctx : Context) where
  -- A keyword is compared with the addresses, and encrypted with the text of the tag.
  abbrev pub is_listed_tag : Option String → PrivateNameTag → Bool
  is_listed_tag keyword t =
      t.created_by == ctx.user_id
      && is_on_chain (env.find_explorer ctx.chain_id) t.explorer_id
      && if_given keyword
          (λ k. t.address == k || is_value t.evm_address k || t.name_tag == env.encrypt k)

  abbrev pub listed_tags :
      Option String → ℕ → ℕ → List PrivateNameTag → Result (Listing PrivateNameTag)
  listed_tags keyword limit offset ts =
      finalize_result builder env.private_tags tt (is_listed_tag keyword) limit offset ts

  abbrev pub with_texts : Book → Listing PrivateNameTag → Result NameTags
  with_texts b l =
      map_ok
        (λ tags. record {
          tags = tags;
          count = l.count;
          count_favorite = env.private_tags.count (is_favorite_of ctx.user_id) b.private_tags;
        })
        (map_each (readable env) l.rows)

  unfoldable pub get_name_tags : Option String → ℕ → ℕ → Exec Book NameTags
  get_name_tags keyword limit offset =
      try_catch
        (λ b. (and_then (listed_tags keyword limit offset b.private_tags) (with_texts b), b))
        (λ e. raise (bad_request (message e)))
