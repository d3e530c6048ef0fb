-- ===== src/WatchList/Search.antt =====
-- `filterWatchList` of src/components/watch-list/watch-list.service.ts: the search in a watch list by an
-- address or by the text of a name tag.
use aura_explorer_api.Prelude.{
  ℕ, String, Bool, ◌&&◌, ◌||◌, ◌==◌, nat_eq, string_eq, Option, none, some, List, [], ◌∷◌, map,
  length, is_value, if◌then◌else◌,
}
use aura_explorer_api.Exec.{Result, ok, Exec, ◌>>=◌}
use aura_explorer_api.Entities.{Explorer}
use aura_explorer_api.NameTag.{PrivateNameTag, PublicNameTag, Context}
use aura_explorer_api.NameTag.Address.{is_valid_bench32_address}
use aura_explorer_api.WatchList.{
  WatchListRow, WatchStore, WatchServices, WatchDetail, find_explorer, or_nothing,
}
use aura_explorer_api.WatchList.Settings.{count_settings}
use aura_explorer_api.Exec.Results.{map_each, map_ok}

-- An answer: its entries, which may be undefined, and their number.
pub record Found : Type 0 where
  pub entries : List (Option WatchDetail)
  pub count : ℕ

module _ (env : WatchServices) (ctx : Context) where
  abbrev stands_at : String → String → Option String → Bool
  stands_at keyword address evm = address == keyword || is_value evm keyword

  -- The row is looked for on every chain.
  abbrev pub is_watched_at : String → WatchListRow → Bool
  is_watched_at keyword w = stands_at keyword w.address w.evm_address && w.user_id == ctx.user_id

  abbrev pub is_public_at : String → ℕ → PublicNameTag → Bool
  is_public_at keyword explorer t =
      stands_at keyword t.address t.evm_address && t.explorer_id == explorer

  abbrev pub is_private_at : String → ℕ → PrivateNameTag → Bool
  is_private_at keyword explorer t =
      stands_at keyword t.address t.evm_address
      && t.created_by == ctx.user_id
      && t.explorer_id == explorer

  abbrev public_text : Option PublicNameTag → Option String
  public_text none = none
  public_text (some t) = or_nothing t.name_tag

  abbrev private_text : Option PrivateNameTag → Result (Option String)
  private_text none = ok none
  private_text (some t) = map_ok (λ n. some n) (env.tags.decrypt t.name_tag)

  abbrev pub detail_at : WatchListRow → Option PublicNameTag → Option String → WatchDetail
  detail_at w public private = record {
    watched = w;
    group_tracking = count_settings w.settings;
    public_name_tag = public_text public;
    private_name_tag = private;
  }

  -- Where nothing was found, the answer has one undefined entry.
  abbrev pub found_at : String → ℕ → Option WatchListRow → Exec WatchStore Found
  found_at keyword explorer none s = (ok (record { entries = none ∷ []; count = 0 }), s)
  found_at keyword explorer (some w) s =
      let public =
        env.tags.public_tags.find_one (is_public_at keyword explorer) s.book.public_tags in
      let private =
        env.tags.private_tags.find_one (is_private_at keyword explorer) s.book.private_tags in
      (
        map_ok (λ text. record { entries = some (detail_at w public text) ∷ []; count = 1 })
            (private_text private),
        s,
      )

  abbrev pub search_address : String → ℕ → Exec WatchStore Found
  search_address keyword explorer s =
      found_at keyword explorer (env.watch_lists.find_one (is_watched_at keyword) s.watch_lists) s

  abbrev public_address : Option PublicNameTag → Option String
  public_address none = none
  public_address (some t) = some t.address

  abbrev private_address : Option PrivateNameTag → Option String
  private_address none = none
  private_address (some t) = some t.address

  -- `In([public?.address, private?.address])`: what is undefined matches no address.
  abbrev pub is_tagged : ℕ → Option PublicNameTag → Option PrivateNameTag → WatchListRow → Bool
  is_tagged explorer public private w =
      (is_value (public_address public) w.address || is_value (private_address private) w.address)
      && w.user_id == ctx.user_id
      && w.explorer_id == explorer

  abbrev public_of : Option PublicNameTag → WatchListRow → Option String
  public_of none w = none
  public_of (some t) w = if w.address == t.address then some t.name_tag else none

  abbrev private_of : Option PrivateNameTag → WatchListRow → Result (Option String)
  private_of none w = ok none
  private_of (some t) w =
      if w.address == t.address then map_ok (λ n. some n) (env.tags.decrypt t.name_tag) else ok none

  abbrev pub tagged_detail :
      Option PublicNameTag → Option PrivateNameTag → WatchListRow → Result WatchDetail
  tagged_detail public private w =
      map_ok
        (λ text. record {
          watched = w;
          group_tracking = count_settings w.settings;
          public_name_tag = public_of public w;
          private_name_tag = text;
        })
        (private_of private w)

  abbrev pub search_tag : String → ℕ → Exec WatchStore Found
  search_tag keyword explorer s =
      let encrypted = env.tags.encrypt keyword in
      let public =
        env.tags.public_tags.find_one (λ t. t.name_tag == keyword && t.explorer_id == explorer)
          s.book.public_tags in
      let private =
        env.tags.private_tags.find_one
          (λ t. t.created_by == ctx.user_id && t.name_tag == encrypted && t.explorer_id == explorer)
          s.book.private_tags in
      let rows = env.watch_lists.find (is_tagged explorer public private) s.watch_lists in
      (
        map_ok (λ entries. record { entries = map (λ d. some d) entries; count = length rows })
            (map_each (tagged_detail public private) rows),
        s,
      )

  abbrev pub search_on : String → Explorer → Exec WatchStore Found
  search_on keyword explorer =
      if is_valid_bench32_address env.tags keyword explorer.address_prefix none
        || env.tags.is_evm_address keyword
      then search_address keyword explorer.id
      else search_tag keyword explorer.id

  unfoldable pub filter_watch_list : String → Exec WatchStore Found
  filter_watch_list keyword = find_explorer env ctx >>= search_on keyword
