-- ===== src/Tests/Watches.antt =====
-- The theorems on watch lists, at a list with a row of Ann's and one of another user.
use mathlib.Core.List.{Memᴰ}
use aura_explorer_api.Prelude.{
  ℕ, ◌≡◌, refl, true, false, none, some, [], ◌∷◌, arith, count_if, ◌≤◌, nat_eq,
}
use aura_explorer_api.Repository.Memory.{memory}
use aura_explorer_api.Repository.Rows.{UniqueIds}
use aura_explorer_api.NameTag.{account}
use aura_explorer_api.WatchList.{
  WatchListRow, watch_keyed, WatchStore, WatchServices, WatchRequest, is_counted, create,
}
use aura_explorer_api.Exec.{ok}
use aura_explorer_api.NameTag.Address.{is_valid_bench32_address}
use aura_explorer_api.WatchList.Search.{filter_watch_list}
use aura_explorer_api.WatchList.Limit.{create-WithinLimit}
use aura_explorer_api.Tests.{tags, ctx}

abbrev env : WatchServices
env = record {
  watch_lists = memory watch_keyed;
  tags = tags;
  limit_address = 2;
  err_limit_address = "You have reached out of 2 max limitation of address.";
}

abbrev row : ℕ → ℕ → WatchListRow
row id owner = record {
  id = id;
  address = "aura1short";
  evm_address = none;
  type = some account;
  favorite = false;
  tracking = true;
  note = none;
  settings = none;
  user_id = owner;
  explorer_id = 7;
}

abbrev store : WatchStore
store = record {
  watch_lists = row 1 1 ∷ row 2 5 ∷ [];
  book = record { private_tags = []; public_tags = [] };
}

abbrev request : WatchRequest
request = record {
  address = some "aura1short";
  evm_address = none;
  type = some account;
  favorite = some true;
  tracking = none;
  note = none;
  settings = none;
}

create-WithinLimit_example :
    count_if (is_counted env ctx 1 7) (create env ctx request store).1.watch_lists ≤ 2
create-WithinLimit_example = create-WithinLimit env ctx request store (λ i e. ground arith) 1 7

store-UniqueIds : UniqueIds watch_keyed store.watch_lists
store-UniqueIds r (Memᴰ.head e) = rw e (λ h. refl, (λ h. cc, tt))
store-UniqueIds r (Memᴰ.tail (Memᴰ.head e)) = rw e (λ h. cc, (λ h. refl, tt))
store-UniqueIds r (Memᴰ.tail (Memᴰ.tail m)) = elim m [ ]

-- A search by a private tag finds the watched address of the tag, and one by an address that nobody
-- watches answers with one undefined entry.
abbrev tagged : WatchStore
tagged = record store {
  book = record {
    private_tags =
        record {
          id = 1;
          type = some account;
          is_favorite = false;
          name_tag = "mine";
          note = none;
          address = "aura1short";
          evm_address = none;
          created_by = 1;
          explorer_id = 7;
        }
        ∷ [];
    public_tags = [];
  };
}

filter_watch_list_test :
    (filter_watch_list env ctx "mine" tagged ≡ (
      ok (record {
        entries =
            some (record {
              watched = row 1 1;
              group_tracking = 0;
              public_name_tag = none;
              private_name_tag = some "mine";
            })
            ∷ [];
        count = 1;
      }),
      tagged,
    ))
    × (filter_watch_list env ctx "aura1short" (record tagged { watch_lists = [] })
        ≡ (ok (record { entries = none ∷ []; count = 0 }), record tagged { watch_lists = [] }))
unfolding filter_watch_list is_valid_bench32_address
filter_watch_list_test = (refl, refl)
