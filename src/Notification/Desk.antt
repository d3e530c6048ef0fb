-- ===== src/Notification/Desk.antt =====
-- The state of the jobs of src/components/queues/notification/notification.processor.ts, and what they
-- take from outside. A sync point is a row of src/shared/entities/sync-point.entity.ts.
use aura_explorer_api.Prelude.{
  ℕ, String, Bool, true, ◌==◌, nat_eq, Option, List, string_eq, ◌≡◌, ◌↔◌, refl, arith, Eq,
}
use aura_explorer_api.Exec.{Result, Exec}
use aura_explorer_api.Repository.{Keyed, Repository}
use aura_explorer_api.Entities.{activity_eq, Explorer, NotificationToken, token_keyed}
use aura_explorer_api.NameTag.{Book, TagServices}
use aura_explorer_api.Notification.{Board, NotificationServices}
use aura_explorer_api.Notification.Groups.{Transfer}
use aura_explorer_api.Notification.Texts.{TextServices, Notice, notice_keyed, ExecutedTx}
use aura_explorer_api.Notification.Texts.Coins.{CoinTx}
use aura_explorer_api.Entities.{Asset, asset_keyed}
use aura_explorer_api.Notification.Texts.Tokens.{Cw20Detail, Cw721Detail}

-- The members of SYNC_POINT_TYPE that the jobs use.
pub data SyncPointType : Type 0 where
  executed_height coin_transfer_height token_transfer_height nft_transfer_height : SyncPointType

abbrev point_rank : SyncPointType → ℕ
point_rank executed_height = 0
point_rank coin_transfer_height = 1
point_rank token_transfer_height = 2
point_rank nft_transfer_height = 3

pub point_rank_iff : (a b : SyncPointType) → ((point_rank a == point_rank b) ≡ true) ↔ (a ≡ b)
point_rank_iff a b = ground arith

instance abbrev pub point_eq : Eq SyncPointType
point_eq = record { beq = λ a b. point_rank a == point_rank b; beq_iff = point_rank_iff }

pub record SyncPoint : Type 0 where
  pub id : ℕ
  pub type : SyncPointType
  pub point : Option ℕ
  pub explorer_id : Option ℕ

abbrev pub point_keyed : Keyed SyncPoint
point_keyed = record {
  id = λ p. p.id;
  with_id = λ n p. record p { id = n };
  id-with_id = λ n p. refl;
}

-- A message that was handed to Firebase. Whether it arrives is not awaited.
pub record Push : Type 0 where
  pub token : String
  pub notice : Notice

-- The tables, and all that was handed to Firebase.
pub record Desk : Type 0 where
  pub board : Board
  pub book : Book
  pub sync_points : List SyncPoint
  pub tokens : List NotificationToken
  pub notices : List Notice
  pub assets : List Asset
  pub pushed : List Push

-- The repositories, the answers of the indexer above a height, with what is absent as the empty list,
-- and whether the database counts a notification as older than the configured number of days.
pub record JobServices : Type 0 where
  pub limits : NotificationServices
  pub tags : TagServices
  pub texts : TextServices
  pub sync_points : Repository point_keyed
  pub tokens : Repository token_keyed
  pub notices : Repository notice_keyed
  pub assets : Repository asset_keyed
  pub fetch_executed : Explorer → Option ℕ → Result (List ExecutedTx)
  pub fetch_coins : Explorer → Option ℕ → Result (List CoinTx)
  pub fetch_tokens : Explorer → Option ℕ → Result (List (Transfer Cw20Detail))
  pub fetch_nfts : Explorer → Option ℕ → Result (List (Transfer Cw721Detail))
  pub total_blocks : String → Result (Option ℕ)
  pub is_expired : Notice → Bool

module _ {A : Type 0} where
  abbrev pub on_points : (List SyncPoint → Result A × List SyncPoint) → Exec Desk A
  on_points f s = ((f s.sync_points).0, record s { sync_points = (f s.sync_points).1 })

  abbrev pub on_notices : (List Notice → Result A × List Notice) → Exec Desk A
  on_notices f s = ((f s.notices).0, record s { notices = (f s.notices).1 })

  abbrev pub on_board : Exec Board A → Exec Desk A
  on_board f s = ((f s.board).0, record s { board = (f s.board).1 })
