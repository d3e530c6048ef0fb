-- ===== src/Entities.antt =====
-- The rows of the tables that users and their activities live in, from src/shared/entities, and the
-- enumerations of src/shared/constants/common.ts. A column that may be null is an Option, a relation
-- is the key of the other row, and a Date is its time in milliseconds. The columns created_at and
-- updated_at, which the database fills, are left out.
use aura_explorer_api.Prelude.{ℕ, String, ◌≡◌, ◌↔◌, Bool, true, Option, arith, Eq, ◌==◌, nat_eq}
use aura_explorer_api.Repository.{Keyed}
use mathlib.Core.Path.{refl}

-- USER_ROLE
pub data Role : Type 0 where
  plain admin banned : Role

-- PROVIDER
pub data Provider : Type 0 where
  facebook google password : Provider

-- SITE
pub data Site : Type 0 where
  main_site admin_site : Site

-- USER_ACTIVITIES
pub data ActivityType : Type 0 where
  send_mail_verify send_mail_reset_password daily_notifications : ActivityType

abbrev role_rank : Role → ℕ
role_rank plain = 0
role_rank admin = 1
role_rank banned = 2

abbrev provider_rank : Provider → ℕ
provider_rank facebook = 0
provider_rank google = 1
provider_rank password = 2

abbrev site_rank : Site → ℕ
site_rank main_site = 0
site_rank admin_site = 1

abbrev activity_rank : ActivityType → ℕ
activity_rank send_mail_verify = 0
activity_rank send_mail_reset_password = 1
activity_rank daily_notifications = 2

pub role_rank_iff : (a b : Role) → ((role_rank a == role_rank b) ≡ true) ↔ (a ≡ b)
role_rank_iff a b = ground arith

pub provider_rank_iff : (a b : Provider) → ((provider_rank a == provider_rank b) ≡ true) ↔ (a ≡ b)
provider_rank_iff a b = ground arith

pub site_rank_iff : (a b : Site) → ((site_rank a == site_rank b) ≡ true) ↔ (a ≡ b)
site_rank_iff a b = ground arith

pub activity_rank_iff :
    (a b : ActivityType) → ((activity_rank a == activity_rank b) ≡ true) ↔ (a ≡ b)
activity_rank_iff a b = ground arith

instance abbrev pub role_eq : Eq Role
role_eq = record { beq = λ a b. role_rank a == role_rank b; beq_iff = role_rank_iff }

instance abbrev pub provider_eq : Eq Provider
provider_eq = record {
  beq = λ a b. provider_rank a == provider_rank b;
  beq_iff = provider_rank_iff;
}

instance abbrev pub site_eq : Eq Site
site_eq = record { beq = λ a b. site_rank a == site_rank b; beq_iff = site_rank_iff }

instance abbrev pub activity_eq : Eq ActivityType
activity_eq = record {
  beq = λ a b. activity_rank a == activity_rank b;
  beq_iff = activity_rank_iff;
}

pub record User : Type 0 where
  pub id : ℕ
  pub email : String
  pub name : Option String
  pub role : Option Role
  pub provider : Option Provider
  pub encrypted_password : Option String
  pub verification_token : Option String
  pub verified_at : Option ℕ
  pub reset_password_token : Option String
  pub last_required_login : Option ℕ

pub record UserActivity : Type 0 where
  pub id : ℕ
  pub type : ActivityType
  pub send_mail_attempt : ℕ
  pub last_send_mail_attempt : Option ℕ
  pub total : ℕ
  pub user_id : Option ℕ
  pub explorer_id : Option ℕ

pub record Explorer : Type 0 where
  pub id : ℕ
  pub chain_id : String
  pub address_prefix : String
  pub minimal_denom : String
  pub decimal : ℕ
  pub explorer_url : String
  pub chain_db : String
  pub evm_denom : String
  pub evm_decimal : ℕ

pub record NotificationToken : Type 0 where
  pub id : ℕ
  pub user_id : Option ℕ
  pub notification_token : String
  pub active : Bool

-- A decimal column is the text of its number. The market columns are those of Coingecko.
pub record Asset : Type 0 where
  pub id : ℕ
  pub coin_id : Option String
  pub symbol : Option String
  pub name : Option String
  pub image : Option String
  pub current_price : Option String
  pub price_change_percentage_24h : Option String
  pub verify_status : Option String
  pub verify_text : Option String
  pub denom : Option String
  pub decimal : Option ℕ
  pub official_site : Option String
  pub social_profiles : Option String
  pub type : Option String
  pub total_supply : Option String
  pub total_volume : Option String
  pub market_cap : Option String
  pub explorer_id : Option ℕ

abbrev pub user_keyed : Keyed User
user_keyed = record {
  id = λ u. u.id;
  with_id = λ n u. record u { id = n };
  id-with_id = λ n u. refl;
}

abbrev pub activity_keyed : Keyed UserActivity
activity_keyed = record {
  id = λ u. u.id;
  with_id = λ n u. record u { id = n };
  id-with_id = λ n u. refl;
}

abbrev pub explorer_keyed : Keyed Explorer
explorer_keyed = record {
  id = λ u. u.id;
  with_id = λ n u. record u { id = n };
  id-with_id = λ n u. refl;
}

abbrev pub token_keyed : Keyed NotificationToken
token_keyed = record {
  id = λ u. u.id;
  with_id = λ n u. record u { id = n };
  id-with_id = λ n u. refl;
}

abbrev pub asset_keyed : Keyed Asset
asset_keyed = record {
  id = λ a. a.id;
  with_id = λ n a. record a { id = n };
  id-with_id = λ n a. refl;
}
