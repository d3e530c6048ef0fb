-- ===== src/NameTag/Private.antt =====
-- PrivateNameTagService of src/components/private-name-tag/services/private-name-tag.service.ts. The
-- tags of a user are stored encrypted, and every user may have a limited number for each chain.
pub mod Limit
pub mod Ownership
pub mod Reading
pub mod Listing
use aura_explorer_api.Prelude.{
  ℕ, String, Bool, true, false, not, ◌&&◌, ◌||◌, ◌==◌, nat_eq, string_eq, Option, none, some, leb,
  List, map, truthy, text_or_empty, is_value, is_some, if◌then◌else◌,
}
use aura_explorer_api.Exec.{
  Exception, bad_request, not_found, entity_not_found, message, Result, ok, err, Exec, pure, raise,
  gets, lift, or_raise, continue, ◌>>=◌, ◌>>◌, try_catch,
}
use aura_explorer_api.Entities.{Explorer}
use aura_explorer_api.NameTag.{
  readable, NameTagType, TagError, duplicate_address, duplicate_private_tag, invalid_name_tag,
  limit_private_name_tag, required_address, Reply, refused, stored, PrivateNameTag, Book,
  TagServices, Context, on_private, or_old, or_null,
}
use aura_explorer_api.NameTag.Format.{matches_name_tag}
use aura_explorer_api.NameTag.Address.{verify}

-- CreatePrivateNameTagParamsDto and UpdatePrivateNameTagParamsDto; an update has no address, and a
-- creation always has a text, since MaxLength refuses a request without one.
pub record TagRequest : Type 0 where
  pub address : Option String
  pub evm_address : Option String
  pub type : Option NameTagType
  pub name_tag : Option String
  pub is_favorite : Option Bool
  pub note : Option String

-- The conditions of the queries.
abbrev pub is_owned : ℕ → PrivateNameTag → Bool
is_owned i t = t.created_by == i

abbrev pub is_counted : ℕ → ℕ → PrivateNameTag → Bool
is_counted i explorer t = t.created_by == i && t.explorer_id == explorer

abbrev pub is_at : ℕ → String → PrivateNameTag → Bool
is_at i address t = t.created_by == i && t.address == address

-- The tags of a user on a chain with this encrypted text, but for the tag `id`.
abbrev pub is_named : ℕ → ℕ → ℕ → String → PrivateNameTag → Bool
is_named id i explorer cipher t =
    not (t.id == id) && (t.created_by == i && (t.name_tag == cipher && t.explorer_id == explorer))

module _ (env : TagServices) (ctx : Context) where
  -- The checks that are made on creation alone.
  unfoldable pub validate_create : TagRequest → Explorer → Book → Result (Option TagError)
  validate_create req explorer b =
      if not (truthy req.address)
      then ok (some required_address)
      else elim (verify env req.address req.evm_address req.type explorer) [
        | err e ↦ err e
        | ok (some x) ↦ ok (some x)
        | ok none ↦
            if leb env.limited_private_name_tag
              (env.private_tags.count (is_counted ctx.user_id explorer.id) b.private_tags)
            then ok (some limit_private_name_tag)
            else if is_some (
                env.private_tags.find_one (is_at ctx.user_id (text_or_empty req.address))
                  b.private_tags)
            then ok (some duplicate_address)
            else ok none
      ]

  unfoldable pub validate_name : ℕ → TagRequest → Explorer → Book → Option TagError
  validate_name id req explorer b =
      if is_some (
        env.private_tags.find_one
          (is_named id ctx.user_id explorer.id (env.encrypt (text_or_empty req.name_tag)))
          b.private_tags)
      then some duplicate_private_tag
      else none

  -- `validate`: none is `false`, no error.
  unfoldable pub validate : ℕ → TagRequest → Bool → Book → Result (Option TagError)
  unfolding validate_create validate_name
  validate id req is_create b = elim (env.find_explorer ctx.chain_id) [
    | none ↦ err (entity_not_found "Explorer")
    | some explorer ↦
        if truthy req.name_tag && not (matches_name_tag (text_or_empty req.name_tag))
        then ok (some invalid_name_tag)
        else elim (if is_create then validate_create req explorer b else ok none) [
          | err e ↦ err e
          | ok (some x) ↦ ok (some x)
          | ok none ↦ ok (validate_name id req explorer b)
        ]
  ]

  abbrev pub new_tag : TagRequest → Explorer → PrivateNameTag
  new_tag req explorer = record {
    id = 0;
    type = req.type;
    is_favorite = or_old req.is_favorite false;
    name_tag = env.encrypt (text_or_empty req.name_tag);
    note = req.note;
    address = text_or_empty req.address;
    evm_address = req.evm_address;
    created_by = ctx.user_id;
    explorer_id = explorer.id;
  }

  -- What is answered to an error of `validate`, or what is done without one.
  abbrev pub unless_refused :
      {A : Type 0} → Option TagError → Exec Book (Reply A) → Exec Book (Reply A)
  unless_refused none m s = m s
  unless_refused (some x) m s = (ok (refused x), s)

  abbrev pub store : TagRequest → Explorer → Exec Book (Reply PrivateNameTag)
  store req explorer = do
    saved ← on_private (env.private_tags.insert (new_tag req explorer))
    pure (stored saved)

  abbrev pub create : TagRequest → Exec Book (Reply PrivateNameTag)
  create req = do
    explorer ← or_raise (entity_not_found "Explorer") (env.find_explorer ctx.chain_id)
    error ← (λ s. (validate 0 req true s, s))
    unless_refused error (store req explorer)

  unfoldable pub create_name_tag : TagRequest → Exec Book (Reply PrivateNameTag)
  create_name_tag req = try_catch (create req) (λ e. raise (bad_request (message e)))

  -- The new text of a tag: an empty one is stored as it is.
  abbrev pub new_text : Option String → String → String
  new_text none old = old
  new_text (some s) old = if s == "" then s else env.encrypt s

  -- `{ ...entity, ...req }`
  abbrev pub updated_tag : TagRequest → PrivateNameTag → PrivateNameTag
  updated_tag req t = record t {
    evm_address = or_null req.evm_address t.evm_address;
    type = or_null req.type t.type;
    is_favorite = or_old req.is_favorite t.is_favorite;
    note = or_null req.note t.note;
    name_tag = new_text req.name_tag t.name_tag;
    created_by = ctx.user_id;
  }

  abbrev pub is_mine : ℕ → PrivateNameTag → Bool
  is_mine id t = t.id == id && t.created_by == ctx.user_id

  abbrev pub update_found : ℕ → TagRequest → Exec Book (Reply ℕ)
  update_found id req = do
    found ← gets (λ s. env.private_tags.find_one (is_mine id) s.private_tags)
    t ← or_raise (not_found "Private Name Tag not found") found
    n ←
        try_catch (on_private (env.private_tags.update (λ q. q.id == id) (λ _. updated_tag req t)))
          (λ e. raise (bad_request (message e)))
    pure (stored n)

  unfoldable pub update_name_tag : ℕ → TagRequest → Exec Book (Reply ℕ)
  update_name_tag id req = do
    error ←
        (λ s. (validate id (record req { address = some ""; evm_address = some "" }) false s, s))
    unless_refused error (update_found id req)

  abbrev pub delete_found : ℕ → Exec Book ℕ
  delete_found id = do
    found ← gets (λ s. env.private_tags.find_one (is_mine id) s.private_tags)
    t ← or_raise (not_found "Don't have Owner Private Name Tag") found
    on_private (env.private_tags.delete (λ q. q.id == id))

  unfoldable pub delete_name_tag : ℕ → Exec Book ℕ
  delete_name_tag id = try_catch (delete_found id) (λ e. raise (bad_request (message e)))

  unfoldable pub get_name_tags_detail : ℕ → Exec Book PrivateNameTag
  get_name_tags_detail id = do
    found ← gets (λ s. env.private_tags.find_one (is_mine id) s.private_tags)
    t ← or_raise (not_found "Private Name Tag not found") found
    lift (readable env t)
