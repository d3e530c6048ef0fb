-- ===== src/Notification/Texts/Restake.antt =====
-- `processCoinTransferNotification` of src/components/queues/notification/utils/notification.util.ts on
-- the groups that `getTxNotifySent` and `getTxNotifyReceived` make, and the setting for automatic
-- restaking.
use aura_explorer_api.Prelude.{
  String, ◌≡◌, refl, ap, Bool, true, false, ◌&&◌, Option, none, some, List, [], ◌∷◌, ◌++◌, map,
  keep_if, All, is_value, string_eq, Bool-cases, Option-cases, inl, inr,
}
use aura_explorer_api.Exec.{ok}
use aura_explorer_api.Exec.Results.{collect, collect-singles, keep_if_ok, keep_if_ok-All, map_ok}
use aura_explorer_api.Repository.Rows.{All-imp}
use aura_explorer_api.Entities.{Explorer}
use aura_explorer_api.WatchList.{WatchListRow}
use aura_explorer_api.WatchList.Settings.{Json, get, json_truthy}
use aura_explorer_api.Notification.Groups.{
  Transfer, Group, sent_group, received_group, Key, group_keys, get_tx_notify_sent,
  get_tx_notify_received,
}
use aura_explorer_api.Notification.Texts.{Notice, TagLists, is_party}
use aura_explorer_api.Notification.Texts.Coins.{
  CoinDetail, coin_notice, coin_of, is_silent, member, process_coin_transfer_notification,
}
use aura_explorer_api.Notification.Processor.Jobs.{is_turned_on}

and_false : (b : Bool) → (b && false) ≡ false
and_false true = refl
and_false false = refl

keep_if-All :
    {A : Type 0} (P : A → Type 0) (p : A → Bool) (xs : List A) → All P xs → All P (keep_if p xs)
keep_if-All P p [] h = tt
keep_if-All P p (x ∷ xs) (h, hs) = elim (Bool-cases (p x)) [
  | inl e ↦ rw (e, All) (h, keep_if-All P p xs hs)
  | inr e ↦ rw (e, All) (keep_if-All P p xs hs)
]

-- Where one field can be read, every field can.
member-readable :
    (k l : String) (v : Option Json) (b : Bool)
    → map_ok json_truthy (member k v) ≡ ok b
    → (x : Option Json) × (member l v ≡ ok x)
member-readable k l none b h = cc
member-readable k l (some Json.null) b h = cc
member-readable k l (some (Json.bool _)) b h = (none, refl)
member-readable k l (some (Json.num _)) b h = (none, refl)
member-readable k l (some (Json.text _)) b h = (none, refl)
member-readable k l (some (Json.arr _)) b h = (none, refl)
member-readable k l (some (Json.obj fs)) b h = (get l fs, refl)

-- Without a restaking transaction no coin is silent, where the switch can be read.
turned_on-silent :
    (key : String) (party : Option String) (w : WatchListRow)
    → is_turned_on key w ≡ ok true
    → is_silent key party w false ≡ ok false
turned_on-silent key party w on = elim (Option-cases w.settings) [
  | inl e ↦ let h = rw e at on in cc
  | inr (fs, e) ↦
      let h = rw e at on in
      let (x, readable) = member-readable "turnOn" "inactiveAutoRestake" (get key fs) true h in
      elim (Bool-cases (is_value party w.address)) [
        | inr other ↦ rw other refl
        | inl here ↦ rw (here, e, readable) (ap ok (and_false (json_truthy x)))
      ]
]

-- One notification for every group and every watched address in it.
abbrev pub coin_notices :
    TagLists → Explorer → List (Group CoinDetail) → List WatchListRow → List Notice
coin_notices tags explorer [] ws = []
coin_notices tags explorer (g ∷ gs) ws =
    map (coin_notice tags explorer g) (keep_if (is_party g) ws) ++ coin_notices tags explorer gs ws

module _ (tags : TagLists) (explorer : Explorer) (ts : List (Transfer CoinDetail))
    (ws : List WatchListRow) where
  coin_of-received :
      (k : Key) (w : WatchListRow)
      → is_turned_on "nativeCoinReceived" w ≡ ok true
      → coin_of tags explorer (received_group ts k) w
        ≡ ok (coin_notice tags explorer (received_group ts k) w ∷ [])
  coin_of-received (h, a) w on = rw (turned_on-silent "nativeCoinReceived" (some a) w on) refl

  coin_of-sent :
      (k : Key) (w : WatchListRow)
      → is_turned_on "nativeCoinSent" w ≡ ok true
      → coin_of tags explorer (sent_group ts k) w
        ≡ ok (coin_notice tags explorer (sent_group ts k) w ∷ [])
  coin_of-sent (h, a) w on = rw (turned_on-silent "nativeCoinSent" (some a) w on) refl

  collect-group :
      (key : String) (group : Key → Group CoinDetail)
      → ((k : Key) (w : WatchListRow)
          → is_turned_on key w ≡ ok true
          → coin_of tags explorer (group k) w ≡ ok (coin_notice tags explorer (group k) w ∷ []))
      → All (λ w. Unit {0} × (is_turned_on key w ≡ ok true)) ws
      → (ks : List Key)
      → collect (λ g. collect (coin_of tags explorer g) (keep_if (is_party g) ws)) (map group ks)
        ≡ ok (coin_notices tags explorer (map group ks) ws)
  collect-group key group single on [] = refl
  collect-group key group single on (k ∷ ks) =
      let here =
        collect-singles (coin_of tags explorer (group k)) (coin_notice tags explorer (group k))
          (keep_if (is_party (group k)) ws)
          (keep_if-All _ (is_party (group k)) ws (All-imp _ _ ws (λ w h. single k w h.1) on)) in
      rw (here, collect-group key group single on ks) refl

module _ (tags : TagLists) (explorer : Explorer) (ts : List (Transfer CoinDetail)) where
  -- Whatever the settings for automatic restaking say and whatever messages the transactions have,
  -- every group of coins is announced to every watched address in it whose switch is on, if the
  -- switches can be read: the setting inactiveAutoRestake has no effect.
  pub process_coin_transfer_notification-groups :
      (watched receivers senders : List WatchListRow)
      → keep_if_ok (is_turned_on "nativeCoinReceived") watched ≡ ok receivers
      → keep_if_ok (is_turned_on "nativeCoinSent") watched ≡ ok senders
      → (process_coin_transfer_notification tags explorer (get_tx_notify_received ts) receivers
          ≡ ok (coin_notices tags explorer (get_tx_notify_received ts) receivers))
        × (process_coin_transfer_notification tags explorer (get_tx_notify_sent ts) senders
            ≡ ok (coin_notices tags explorer (get_tx_notify_sent ts) senders))
  unfolding process_coin_transfer_notification get_tx_notify_received get_tx_notify_sent
  process_coin_transfer_notification-groups watched receivers senders received sent = (
    collect-group tags explorer ts receivers "nativeCoinReceived" (received_group ts)
        (coin_of-received tags explorer ts receivers) (keep_if_ok-All _ watched receivers received)
        (group_keys (λ t. t.to) ts),
    collect-group tags explorer ts senders "nativeCoinSent" (sent_group ts)
        (coin_of-sent tags explorer ts senders) (keep_if_ok-All _ watched senders sent)
        (group_keys (λ t. t.from) ts),
  )
