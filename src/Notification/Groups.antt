-- ===== src/Notification/Groups.antt =====
-- `getTxNotifySent` and `getTxNotifyReceived` of
-- src/components/queues/notification/utils/notification.util.ts: the transfers of one transaction that
-- have one sender, or one receiver, are announced together.
pub mod Apart
pub mod Partition
use aura_explorer_api.Prelude.{
  ℕ, String, Bool, true, false, not, ◌&&◌, ◌==◌, string_eq, Option, none, some, List, [], ◌∷◌, map,
  first, is_some, is_value, truthy, keep_if, if◌then◌else◌,
}
use aura_explorer_api.Notification.Message.{Message}

-- A transfer, with the details that depend on what is transferred.
pub record Transfer (A : Type 0) : Type 0 where
  pub tx_hash : String
  pub from : Option String
  pub to : Option String
  pub height : ℕ
  pub detail : A

-- A group. `processCoinTransferNotification` also reads the fields tx_msg and image.
pub record Group (A : Type 0) : Type 0 where
  pub tx_hash : String
  pub from : Option String
  pub to : Option String
  pub activities : List (Transfer A)
  pub tx_msg : Option Message
  pub image : Option String

-- The transaction and the party that a group stands for. The source keeps it as a JSON text, and two
-- such texts are equal exactly if the two parts are.
abbrev pub Key : Type 0
Key = String × String

abbrev pub same_key : Key → Key → Bool
same_key (h, a) (k, b) = h == k && a == b

-- `Array.from(new Set(keys))`: each key where it comes first.
unfoldable pub distinct : List Key → List Key
distinct [] = []
distinct (k ∷ ks) = k ∷ keep_if (λ q. not (same_key q k)) (distinct ks)

module _ {A : Type 0} where
  -- `party` is the sender or the receiver of a transfer.
  module _ (party : Transfer A → Option String) where
    abbrev pub has_party : Transfer A → Bool
    has_party t = truthy (party t)

    -- `JSON.stringify({ tx_hash, party })` of a transfer with a party.
    abbrev pub key_of : Transfer A → Key
    key_of t = elim (party t) [ none ↦ (t.tx_hash, "") | some a ↦ (t.tx_hash, a) ]

    abbrev pub is_in : Key → Transfer A → Bool
    is_in (h, a) t = t.tx_hash == h && is_value (party t) a

    unfoldable pub group_keys : List (Transfer A) → List Key
    group_keys ts = distinct (map key_of (keep_if has_party ts))

  abbrev pub sent_group : List (Transfer A) → Key → Group A
  sent_group ts (h, a) = record {
    tx_hash = h;
    from = some a;
    to = none;
    activities = keep_if (is_in (λ t. t.from) (h, a)) ts;
    tx_msg = none;
    image = none;
  }

  abbrev pub received_group : List (Transfer A) → Key → Group A
  received_group ts (h, a) = record {
    tx_hash = h;
    from = none;
    to = some a;
    activities = keep_if (is_in (λ t. t.to) (h, a)) ts;
    tx_msg = none;
    image = none;
  }

  unfoldable pub get_tx_notify_sent : List (Transfer A) → List (Group A)
  get_tx_notify_sent ts = map (sent_group ts) (group_keys (λ t. t.from) ts)

  unfoldable pub get_tx_notify_received : List (Transfer A) → List (Group A)
  get_tx_notify_received ts = map (received_group ts) (group_keys (λ t. t.to) ts)
