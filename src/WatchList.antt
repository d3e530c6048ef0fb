-- ===== src/WatchList.antt =====
-- WatchListService of src/components/watch-list/watch-list.service.ts: the addresses that a user
-- watches. The name tags beside them are those of NameTag.antt; the settings are in
-- WatchList/Settings.antt.
pub mod Settings
pub mod Search
pub mod Limit
pub mod Ownership
use aura_explorer_api.Prelude.{
  ℕ, String, Bool, true, false, not, ◌&&◌, ◌||◌, ◌==◌, nat_eq, string_eq, Option, none, some, List,
  [], ◌∷◌, map, refl, leb, truthy, text_or_empty, is_value, is_some, if◌then◌else◌, length, first,
}
use aura_explorer_api.Exec.{
  Exception, bad_request, unauthorized, not_found, entity_not_found, dup_entry, failure, message,
  Result, ok, err, Exec, pure, raise, gets, lift, or_raise, raise_if, continue, ◌>>=◌, ◌>>◌,
  try_catch,
}
use aura_explorer_api.Repository.{Keyed, Repository}
use aura_explorer_api.Entities.{Explorer}
use aura_explorer_api.NameTag.{
  readable, NameTagType, TagError, PrivateNameTag, PublicNameTag, Book, TagServices, Context,
  or_old, or_null,
}
use aura_explorer_api.NameTag.Address.{verify}
use Settings.{Fields, count_settings}
use aura_explorer_api.Exec.Results.{map_each}

pub record WatchListRow : Type 0 where
  pub id : ℕ
  pub address : String
  pub evm_address : Option String
  pub type : Option NameTagType
  pub favorite : Bool
  pub tracking : Bool
  pub note : Option String
  pub settings : Option Fields
  pub user_id : ℕ
  pub explorer_id : ℕ

abbrev pub watch_keyed : Keyed WatchListRow
watch_keyed = record {
  id = λ w. w.id;
  with_id = λ n w. record w { id = n };
  id-with_id = λ n w. refl;
}

-- The store of the service: its own table, and those of the name tags, which it only reads.
pub record WatchStore : Type 0 where
  pub watch_lists : List WatchListRow
  pub book : Book

pub record WatchServices : Type 0 where
  pub watch_lists : Repository watch_keyed
  pub tags : TagServices
  pub limit_address : ℕ
  pub err_limit_address : String

-- CreateWatchListDto and UpdateWatchListDto.
pub record WatchRequest : Type 0 where
  pub address : Option String
  pub evm_address : Option String
  pub type : Option NameTagType
  pub favorite : Option Bool
  pub tracking : Option Bool
  pub note : Option String
  pub settings : Option Fields

-- WatchListDetailResponse, as far as the service fills it.
pub record WatchDetail : Type 0 where
  pub watched : WatchListRow
  pub group_tracking : ℕ
  pub public_name_tag : Option String
  pub private_name_tag : Option String

module _ {A : Type 0} where
  abbrev pub on_watch : (List WatchListRow → Result A × List WatchListRow) → Exec WatchStore A
  on_watch f s = ((f s.watch_lists).0, record s { watch_lists = (f s.watch_lists).1 })

-- `tag || null`
abbrev pub or_nothing : String → Option String
or_nothing s = if s == "" then none else some s

module _ (env : WatchServices) (ctx : Context) where
  abbrev pub find_explorer : Exec WatchStore Explorer
  find_explorer s = or_raise (entity_not_found "Explorer") (env.tags.find_explorer ctx.chain_id) s

  abbrev verdict : Result (Option TagError) → Exec WatchStore (Unit {0})
  verdict (err e) s = (err e, s)
  verdict (ok none) s = (ok tt, s)
  verdict (ok (some x)) s = (err (bad_request "address"), s)

  -- `validateAddress`
  unfoldable pub validate_address : WatchRequest → Explorer → Bool → Exec WatchStore (Unit {0})
  validate_address req explorer is_create = do
    raise_if (is_create && not (truthy req.address)) (bad_request "Address is required.")
    verdict (verify env.tags req.address req.evm_address req.type explorer)

  abbrev pub is_counted : ℕ → ℕ → WatchListRow → Bool
  is_counted i explorer w = w.user_id == i && w.explorer_id == explorer

  abbrev pub new_watch : WatchRequest → Explorer → WatchListRow
  new_watch req explorer = record {
    id = 0;
    address = text_or_empty req.address;
    evm_address = req.evm_address;
    type = req.type;
    favorite = or_old req.favorite false;
    tracking = or_old req.tracking false;
    note = or_null req.note (some "");
    settings = req.settings;
    user_id = ctx.user_id;
    explorer_id = explorer.id;
  }

  abbrev pub insert_watch : WatchRequest → Explorer → Exec WatchStore WatchListRow
  insert_watch req explorer = do
    total ← gets (λ s. env.watch_lists.count (is_counted ctx.user_id explorer.id) s.watch_lists)
    raise_if (leb env.limit_address total) (bad_request env.err_limit_address)
    on_watch (env.watch_lists.insert (new_watch req explorer))

  abbrev pub create_watch : WatchRequest → Exec WatchStore WatchListRow
  create_watch req = do
    explorer ← find_explorer
    validate_address req explorer true
    insert_watch req explorer

  abbrev create_error : Exception → Exception
  create_error (entity_not_found m) = bad_request m
  create_error (dup_entry _) = bad_request "This address has already been added to watch list."
  create_error e = e

  unfoldable pub create : WatchRequest → Exec WatchStore WatchListRow
  create req = try_catch (create_watch req) (λ e. raise (create_error e))

  abbrev pub is_mine : ℕ → WatchListRow → Bool
  is_mine id w = w.id == id && w.user_id == ctx.user_id

  abbrev pub is_mine_on : ℕ → ℕ → WatchListRow → Bool
  is_mine_on id explorer w = w.id == id && (w.user_id == ctx.user_id && w.explorer_id == explorer)

  unfoldable pub find_one : ℕ → Exec WatchStore (Option WatchListRow)
  find_one id = gets (λ s. env.watch_lists.find_one (is_mine id) s.watch_lists)

  abbrev pub updated_watch : WatchRequest → WatchListRow → WatchListRow
  updated_watch req w = record w {
    address = or_old req.address w.address;
    evm_address = or_null req.evm_address w.evm_address;
    type = or_null req.type w.type;
    favorite = or_old req.favorite w.favorite;
    tracking = or_old req.tracking w.tracking;
    note = or_null req.note w.note;
    settings = or_null req.settings w.settings;
  }

  abbrev pub update_watch : ℕ → WatchRequest → Exec WatchStore ℕ
  update_watch id req = do
    explorer ← find_explorer
    found ← gets (λ s. env.watch_lists.find_one (is_mine_on id explorer.id) s.watch_lists)
    w ← or_raise (entity_not_found "WatchList") found
    validate_address req explorer false
    on_watch (env.watch_lists.update (λ q. q.id == id) (updated_watch req))

  abbrev update_error : Exception → Exception
  update_error (entity_not_found _) = bad_request "Address not found."
  update_error (dup_entry _) = bad_request "This address has already been added to watch list."
  update_error e = e

  unfoldable pub update : ℕ → WatchRequest → Exec WatchStore ℕ
  update id req = try_catch (update_watch id req) (λ e. raise (update_error e))

  unfoldable pub remove : ℕ → Exec WatchStore ℕ
  remove id = do
    found ← gets (λ s. env.watch_lists.find_one (is_mine id) s.watch_lists)
    w ← or_raise (bad_request "Address not found.") found
    on_watch (env.watch_lists.delete (λ q. q.id == w.id))

  -- The tags of an address among those that were found, the private ones decrypted.
  abbrev pub public_tag_of : List PublicNameTag → String → Option String
  public_tag_of tags address = elim (first (λ t. t.address == address) tags) [
    | none ↦ none
    | some t ↦ or_nothing t.name_tag
  ]

  abbrev pub private_tag_of : List PrivateNameTag → String → Option String
  private_tag_of tags address = elim (first (λ t. t.address == address) tags) [
    | none ↦ none
    | some t ↦ or_nothing t.name_tag
  ]

  abbrev any_address : List WatchListRow → String → Bool
  any_address ws a = is_some (first (λ w. w.address == a) ws)

  abbrev pub detail : List PublicNameTag → List PrivateNameTag → WatchListRow → WatchDetail
  detail publics privates w = record {
    watched = w;
    group_tracking = count_settings w.settings;
    public_name_tag = public_tag_of publics w.address;
    private_name_tag = private_tag_of privates w.address;
  }

  -- `findAll` without a keyword.
  unfoldable pub find_all : Exec WatchStore (List WatchDetail)
  find_all = do
    explorer ← find_explorer
    ws ← gets (λ s. env.watch_lists.find (is_counted ctx.user_id explorer.id) s.watch_lists)
    publics ←
        gets (λ s. env.tags.public_tags.find (λ t. any_address ws t.address) s.book.public_tags)
    privates ← gets (λ s.
        env.tags.private_tags.find (λ t. any_address ws t.address && t.created_by == ctx.user_id)
          s.book.private_tags)
    decoded ← lift (map_each (readable env.tags) privates)
    pure (map (detail publics decoded) ws)
