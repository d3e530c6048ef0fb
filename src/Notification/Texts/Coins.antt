-- ===== src/Notification/Texts/Coins.antt =====
-- The notifications of coins: `convertDataCoinTransfer` and `processCoinTransferNotification` of
-- src/components/queues/notification/utils/notification.util.ts.
use aura_explorer_api.Prelude.{
  ℕ, String, Bool, true, false, not, ◌&&◌, ◌==◌, nat_eq, string_eq, Option, none, some, List, [],
  ◌∷◌, ◌++◌, map, length, first, take, keep_if, is_value, is_some, if◌then◌else◌,
}
use aura_explorer_api.Prelude.Text.{◌<>◌, join, text_or_null, contains}
use aura_explorer_api.Exec.{failure, Result, ok, err}
use aura_explorer_api.Exec.Results.{and_then, map_ok, collect}
use aura_explorer_api.Entities.{Explorer, Asset}
use aura_explorer_api.WatchList.{WatchListRow}
use aura_explorer_api.WatchList.Settings.{Json, Fields, Items, get, json_truthy}
use aura_explorer_api.Notification.Message.{Message, or_text}
use aura_explorer_api.Notification.Groups.{Transfer, Group}
use aura_explorer_api.Notification.Texts.{
  TextServices, Notice, transfers, coin_transfer, TagLists, tag_of, is_party, more, direction,
  first_height,
}

-- A coin of a transaction, its amount written out.
pub record CoinDetail : Type 0 where
  pub amount : String
  pub denom : Option String
  pub tx_msg : Option Message
  pub image : String

-- `settings[key]` of settings that may be null, and `value[key]`.
abbrev pub setting : String → Option Fields → Result (Option Json)
setting key none = err (failure "Cannot read properties of null")
setting key (some fs) = ok (get key fs)

abbrev pub member : String → Option Json → Result (Option Json)
member key none = err (failure "Cannot read properties of undefined")
member key (some Json.null) = err (failure "Cannot read properties of null")
member key (some (Json.obj fs)) = ok (get key fs)
member key (some _) = ok none

-- `'type_url' in msgs[0]`, where there is one.
abbrev has_type_url : Option Json → Result Bool
has_type_url (some (Json.arr (Items.item (Json.obj fs) _))) = ok (is_some (get "type_url" fs))
has_type_url (some (Json.arr (Items.item (Json.arr _) _))) = ok false
has_type_url (some (Json.arr (Items.item _ _))) = err (failure "Cannot use 'in' operator")
has_type_url (some (Json.text s)) =
    if s == "" then ok false else err (failure "Cannot use 'in' operator")
has_type_url _ = ok false

abbrev pub is_restake_tx : Option Message → Result Bool
is_restake_tx none = ok false
is_restake_tx (some m) =
    if is_value m.type "/cosmos.authz.v1beta1.MsgExec"
    then has_type_url (get "msgs" m.content)
    else ok false

-- `address === party && settings[key].inactiveAutoRestake && isRestakeTx`
abbrev pub is_silent : String → Option String → WatchListRow → Bool → Result Bool
is_silent key party w restake =
    if is_value party w.address
    then and_then (setting key w.settings)
        (λ v. map_ok (λ inactive. json_truthy inactive && restake) (member "inactiveAutoRestake" v))
    else ok false

module _ (tags : TagLists) (explorer : Explorer) where
  abbrev pub coin_shown : Group CoinDetail → String
  coin_shown g = join ", " (
      map (λ (t : Transfer CoinDetail). t.detail.amount <> (" " <> text_or_null t.detail.denom))
        (take 3 g.activities))

  abbrev pub coin_notice : Group CoinDetail → WatchListRow → Notice
  coin_notice g w = record {
    id = 0;
    title = if is_value g.to w.address then "Coin Received" else "Coin Sent";
    content =
        coin_shown g
        <> (" "
            <> (more 3 g.activities
                <> (direction g w <> (" by " <> (w.address <> tag_of tags explorer w)))));
    details =
        transfers (coin_shown g) (length g.activities) g.from g.to w.address
          (tag_of tags explorer w);
    image = g.image;
    tx_hash = g.tx_hash;
    height = first_height g.activities;
    type = coin_transfer;
    user_id = w.user_id;
    is_read = false;
    explorer_id = explorer.id;
  }

  abbrev pub coin_of : Group CoinDetail → WatchListRow → Result (List Notice)
  coin_of g w = and_then (is_restake_tx g.tx_msg) (λ restake.
      and_then (is_silent "nativeCoinReceived" g.to w restake) (λ received.
        map_ok (λ sent. if not sent && not received then coin_notice g w ∷ [] else [])
          (is_silent "nativeCoinSent" g.from w restake)))

  unfoldable pub process_coin_transfer_notification :
      List (Group CoinDetail) → List WatchListRow → Result (List Notice)
  process_coin_transfer_notification gs ws =
      collect (λ g. collect (coin_of g) (keep_if (is_party g) ws)) gs

pub record Coin : Type 0 where
  pub from : Option String
  pub to : Option String
  pub amount : Option String
  pub denom : Option String

pub record CoinTx : Type 0 where
  pub hash : String
  pub height : ℕ
  pub transaction_messages : Option (List Message)
  pub coin_transfers : Option (List Coin)

abbrev pub is_ibc_asset : ℕ → Asset → Bool
is_ibc_asset explorer a =
    is_value a.type "IBC_TOKEN" && is_some a.name && is_value a.explorer_id explorer

-- `k.denom === coin.denom`
abbrev pub same_denom : Option String → Option String → Bool
same_denom none none = true
same_denom none (some _) = false
same_denom (some d) o = is_value o d

-- The symbol with the prefix ibc/, undefined without an asset.
abbrev pub ibc_symbol : Option String → Option String
ibc_symbol none = none
ibc_symbol (some s) = some (if contains "ibc" s then s else "ibc/" <> s)

abbrev pub symbol_of : Option Asset → Option String
symbol_of none = none
symbol_of (some a) = a.symbol

-- `dataIBC['decimal'] || explorer.decimal`
abbrev pub or_number : Option ℕ → ℕ → ℕ
or_number none d = d
or_number (some n) d = if n == 0 then d else n

abbrev pub decimal_of : Option Asset → Option ℕ
decimal_of none = none
decimal_of (some a) = a.decimal

abbrev pub own_denom : Explorer → Option String → Option String
own_denom explorer none = none
own_denom explorer (some d) = some (if contains "ibc" d then d else explorer.minimal_denom)

abbrev first_message : Option (List Message) → Option Message
first_message (some (m ∷ _)) = some m
first_message _ = none

module _ (env : TextServices) (explorer : Explorer) (assets : List Asset) where
  -- An asset has no field logo, so there is no image.
  abbrev coin_detail : CoinTx → Coin → Option Asset → CoinDetail
  coin_detail tx coin asset = record {
    amount = env.balance_of coin.amount (or_number (decimal_of asset) explorer.decimal);
    denom = or_text (ibc_symbol (symbol_of asset)) (own_denom explorer coin.denom);
    tx_msg = first_message tx.transaction_messages;
    image = "";
  }

  abbrev coin_row : CoinTx → Coin → Transfer CoinDetail
  coin_row tx coin = record {
    tx_hash = tx.hash;
    from = coin.from;
    to = coin.to;
    height = tx.height;
    detail = coin_detail tx coin (first (λ (a : Asset). same_denom a.denom coin.denom) assets);
  }

  abbrev coin_rows : CoinTx → Option (List Coin) → List (Transfer CoinDetail)
  coin_rows tx none = []
  coin_rows tx (some coins) = map (coin_row tx) coins

  -- `assets` are the IBC assets of the explorer that have a name.
  unfoldable pub convert_data_coin_transfer : List CoinTx → List (Transfer CoinDetail)
  convert_data_coin_transfer [] = []
  convert_data_coin_transfer (tx ∷ txs) =
      coin_rows tx tx.coin_transfers ++ convert_data_coin_transfer txs
