-- ===== src/Notification/Texts.antt =====
-- The texts of the notifications: src/components/queues/notification/utils/notification.util.ts, with
-- the constants NOTIFICATION of src/shared/constants/common.ts. The notifications of executed
-- transactions are here, those of coins and tokens in Texts/Coins.antt and Texts/Tokens.antt.
pub mod Coins
pub mod Tokens
pub mod Restake
use aura_explorer_api.Prelude.{
  ℕ, String, Bool, true, false, not, ◌&&◌, ◌||◌, ◌==◌, nat_eq, string_eq, Option, none, some, List,
  [], ◌∷◌, ◌++◌, map, ltb, length, first, any, take, keep_if, truthy, is_value, is_some, refl,
  if◌then◌else◌,
}
use aura_explorer_api.Prelude.Text.{◌<>◌, join, text_or_null, contains}
use aura_explorer_api.Exec.{failure, Result, ok, err}
use aura_explorer_api.Exec.Results.{and_then, map_ok, collect}
use aura_explorer_api.Repository.{Keyed}
use aura_explorer_api.Entities.{Explorer}
use aura_explorer_api.NameTag.{PrivateNameTag, PublicNameTag}
use aura_explorer_api.WatchList.{WatchListRow}
use aura_explorer_api.WatchList.Settings.{Json, Fields, Items, get, json_truthy}
use aura_explorer_api.Notification.Message.{Message, get_type_tx_msg, or_text}
use aura_explorer_api.Notification.Groups.{Transfer, Group}

-- What JavaScript makes of numbers and JSON texts: JSON.parse, which may throw; the text of
-- `balanceOf(Number(amount) || 0, decimal)`, a quotient of floats; JSON.stringify of { image, type }.
pub record TextServices : Type 0 where
  pub parse : String → Option Json
  pub balance_of : Option String → ℕ → String
  pub stringify_media : Option String → Option String → String

-- NOTIFICATION.TYPE
pub data NoticeType : Type 0 where
  executed coin_transfer token_transfer nft_transfer : NoticeType

-- The field data of a notification's body.
pub data Details : Type 0 where
  execution : (type sender name_tag : String) → Details
  transfers :
      (shown : String) (num : ℕ) (from to : Option String) (address name_tag : String) → Details

-- The entity Notification, whose fields NotificationDto fills.
pub record Notice : Type 0 where
  pub id : ℕ
  pub title : String
  pub content : String
  pub details : Details
  pub image : Option String
  pub tx_hash : String
  pub height : Option ℕ
  pub type : NoticeType
  pub user_id : ℕ
  pub is_read : Bool
  pub explorer_id : ℕ

abbrev pub notice_keyed : Keyed Notice
notice_keyed = record {
  id = λ n. n.id;
  with_id = λ i n. record n { id = i };
  id-with_id = λ i n. refl;
}

-- Private and public name tags, the private ones decrypted.
pub record TagLists : Type 0 where
  pub privates : List PrivateNameTag
  pub publics : List PublicNameTag

abbrev tag_part : Option String → List String
tag_part t = if truthy t then text_or_null t ∷ [] else []

abbrev private_text : Option PrivateNameTag → Option String
private_text none = none
private_text (some t) = some t.name_tag

abbrev public_text : Option PublicNameTag → Option String
public_text none = none
public_text (some t) = some t.name_tag

-- `(private / public)`, or nothing.
abbrev phrase : Option String → Option String → String
phrase private public =
    let parts = tag_part private ++ tag_part public in
    if ltb 0 (length parts) then "(" <> (join " / " parts <> ")") else ""

abbrev is_private_tag : ℕ → String → ℕ → PrivateNameTag → Bool
is_private_tag user address explorer t =
    t.created_by == user && t.address == address && t.explorer_id == explorer

abbrev is_public_tag : String → ℕ → PublicNameTag → Bool
is_public_tag address explorer t = t.address == address && t.explorer_id == explorer

unfoldable pub get_name_tag : TagLists → Explorer → String → ℕ → String
get_name_tag tags explorer address user =
    phrase (private_text (first (is_private_tag user address explorer.id) tags.privates))
      (public_text (first (is_public_tag address explorer.id) tags.publics))

-- A transaction that succeeded.
pub record ExecutedTx : Type 0 where
  pub hash : String
  pub height : ℕ
  pub transaction_messages : Option (List Message)

abbrev pub messages_of : Option (List Message) → List Message
messages_of none = []
messages_of (some ms) = ms

abbrev pub is_executed_by : WatchListRow → ExecutedTx → Bool
is_executed_by w tx =
    any (λ (m : Message). is_value m.sender w.address) (messages_of tx.transaction_messages)

module _ (tags : TagLists) (explorer : Explorer) where
  abbrev pub tag_of : WatchListRow → String
  tag_of w = get_name_tag tags explorer w.address w.user_id

  abbrev pub executed_notice : ExecutedTx → WatchListRow → String → Notice
  executed_notice tx w type = record {
    id = 0;
    title = "Executed";
    content =
        "New " <> (type <> (" transaction initiated by " <> (w.address <> (" " <> tag_of w))));
    details = execution type w.address (tag_of w);
    image = none;
    tx_hash = tx.hash;
    height = some tx.height;
    type = executed;
    user_id = w.user_id;
    is_read = false;
    explorer_id = explorer.id;
  }

  module _ (env : TextServices) where
    abbrev pub executed_by : ExecutedTx → WatchListRow → Result (List Notice)
    executed_by tx w =
        if is_executed_by w tx
        then map_ok (λ type. executed_notice tx w type ∷ [])
            (get_type_tx_msg env.parse (messages_of tx.transaction_messages))
        else ok []

    unfoldable pub process_executed_notification :
        List ExecutedTx → List WatchListRow → Result (List Notice)
    process_executed_notification txs ws = collect (λ tx. collect (executed_by tx) ws) txs

-- `tx.address === element.address` for the sender or the receiver of a group.
abbrev pub is_party : {A : Type 0} → Group A → WatchListRow → Bool
is_party g w = is_value g.from w.address || is_value g.to w.address

-- `more n` is the text that says that there are more than `n`.
abbrev pub more : {A : Type 0} → ℕ → List A → String
more n xs = if ltb n (length xs) then "and more " else ""

abbrev pub direction : {A : Type 0} → Group A → WatchListRow → String
direction g w = if is_value g.to w.address then "received" else "sent"

abbrev pub first_height : {A : Type 0} → List (Transfer A) → Option ℕ
first_height [] = none
first_height (t ∷ _) = some t.height
