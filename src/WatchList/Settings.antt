-- ===== src/WatchList/Settings.antt =====
-- The settings of a watched address, a JSON value, and `countTrueValues` of
-- src/components/watch-list/watch-list.service.ts, which counts the settings that are on.
use aura_explorer_api.Prelude.{
  ℕ, ◌+◌, String, Bool, true, false, not, Option, none, some, ◌==◌, nat_eq, string_eq, ◌≡◌,
  if◌then◌else◌, arith,
}

mutual
  pub data Json : Type 0 where
    null : Json
    bool : Bool → Json
    num : ℕ → Json
    text : String → Json
    arr : Items → Json
    obj : Fields → Json

  pub data Items : Type 0 where
    no_item : Items
    item : Json → Items → Items

  pub data Fields : Type 0 where
    end : Fields
    field : String → Json → Fields → Fields

-- `settings[key]`, or undefined.
abbrev pub get : String → Fields → Option Json
get key end = none
get key (field k v fs) = let rest = get key fs in if k == key then some v else rest

-- `!!value`
abbrev pub json_truthy : Option Json → Bool
json_truthy none = false
json_truthy (some null) = false
json_truthy (some (bool b)) = b
json_truthy (some (num n)) = not (n == 0)
json_truthy (some (text s)) = not (s == "")
json_truthy (some (arr _)) = true
json_truthy (some (obj _)) = true

abbrev is_true : Json → Bool
is_true (bool true) = true
is_true _ = false

-- `value?.turnOn === true`
unfoldable pub turned_on : Fields → Bool
turned_on end = false
turned_on (field k v fs) = if k == "turnOn" then is_true v else turned_on fs

mutual
  count_value : Json → ℕ
  count_value (bool true) = 1
  count_value (obj fs) = if turned_on fs then count_fields fs else 0
  count_value _ = 0

  count_fields : Fields → ℕ
  count_fields end = 0
  count_fields (field k v fs) =
      (if k == "inactiveAutoRestake" then 0 else count_value v) + count_fields fs

unfoldable pub count_true_values : Fields → ℕ
unfolding count_fields count_value turned_on
count_true_values fs = count_fields fs

-- Settings that are null count as none.
abbrev pub count_settings : Option Fields → ℕ
count_settings none = 0
count_settings (some fs) = count_true_values fs

-- The settings that the API documents (WATCH_LIST.SETTINGS_EXAMPLE).
pub record Coin : Type 0 where
  pub turn_on : Bool
  pub inactive_auto_restake : Bool

pub record WatchSettings : Type 0 where
  pub transaction_executed : Bool
  pub token_sent : Bool
  pub token_received : Bool
  pub nft_sent : Bool
  pub nft_received : Bool
  pub native_coin_sent : Coin
  pub native_coin_received : Coin

abbrev coin_json : Coin → Json
coin_json c = obj (
    field "turnOn" (bool c.turn_on)
      (field "inactiveAutoRestake" (bool c.inactive_auto_restake) end))

unfoldable pub settings_json : WatchSettings → Fields
settings_json s = field "transactionExecuted" (bool s.transaction_executed) (
    field "tokenSent" (bool s.token_sent) (
      field "tokenReceived" (bool s.token_received) (
        field "nftSent" (bool s.nft_sent) (
          field "nftReceived" (bool s.nft_received) (
            field "nativeCoinSent" (coin_json s.native_coin_sent)
              (field "nativeCoinReceived" (coin_json s.native_coin_received) end))))))

abbrev pub one_if : Bool → ℕ
one_if true = 1
one_if false = 0

-- Of settings in the documented form, `countTrueValues` counts the kinds of event that are on: each
-- coin group counts once, by its switch, whatever its setting for automatic restaking.
pub count_true_values-settings_json :
    (s : WatchSettings)
    → count_true_values (settings_json s)
      ≡ one_if s.transaction_executed
        + one_if s.token_sent
        + one_if s.token_received
        + one_if s.nft_sent
        + one_if s.nft_received
        + one_if s.native_coin_sent.turn_on
        + one_if s.native_coin_received.turn_on
unfolding count_true_values settings_json
count_true_values-settings_json s = ground arith
