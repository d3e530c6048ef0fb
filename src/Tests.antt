-- ===== src/Tests.antt =====
-- A small installation on which the theorems are applied: repositories in memory, a password that is
-- its own hash, and tokens that are texts.
pub mod Accounts
pub mod Access
pub mod Tags
pub mod Watches
pub mod Bound
pub mod Contracts
pub mod Notices
pub mod Jobs
pub mod Inbox
pub mod Minting
pub mod Assets
pub mod Exports
pub mod Quests
pub mod Balances
pub mod Listings
use aura_explorer_api.Prelude.{
  ℕ, String, ◌≡◌, refl, ap, Bool, true, false, Option, none, some, List, [], ◌∷◌, ◌++◌, ◌==◌,
  string_eq, arith, eq_iff, if◌then◌else◌,
}
use aura_explorer_api.Exec.{Exception, failure, Result, ok, err}
use aura_explorer_api.Repository.Memory.{memory}
use aura_explorer_api.Entities.{
  plain, password, User, UserActivity, Explorer, send_mail_verify, send_mail_reset_password,
  user_keyed, activity_keyed, explorer_keyed, token_keyed,
}
use aura_explorer_api.Account.{MailJob, Database, Moment, Claims, Services}
use aura_explorer_api.NameTag.{private_keyed, public_keyed, TagServices, Context}

abbrev compare_text : String → Option String → Result Bool
compare_text p none = err (failure "data and hash arguments required")
compare_text p (some h) = ok (p == h)

pub compare_text-same : (p : String) → compare_text p (some p) ≡ ok true
compare_text-same p = ground (arith, eq_iff p p)

-- Ann's access and refresh tokens were issued in second 2.
abbrev pub issued : Claims
issued = record { sub = 1; email = "ann@aura.network"; iat = 2 }

abbrev pub app : Services
app = record {
  users = memory user_keyed;
  activities = memory activity_keyed;
  explorers = memory explorer_keyed;
  notification_tokens = memory token_keyed;
  hash = λ salt p. p;
  compare = compare_text;
  enqueue = λ j q. (ok tt, q ++ j ∷ []);
  sign_access = λ i e. "access";
  sign_refresh = λ i e. "refresh";
  verify_token = λ t. if t == "refresh" then ok issued else err (failure "jwt malformed");
  enqueue_lem = λ j q. refl;
  compare-hash = λ salt p. compare_text-same p;
}

abbrev pub ann : User
ann = record {
  id = 1;
  email = "ann@aura.network";
  name = some "Ann";
  role = some plain;
  provider = some password;
  encrypted_password = some "old-Pass1";
  verification_token = some "v";
  verified_at = some 10;
  reset_password_token = some "r";
  last_required_login = none;
}

abbrev pub activity : ℕ → UserActivity
activity attempt = record {
  id = 4;
  type = send_mail_verify;
  send_mail_attempt = attempt;
  last_send_mail_attempt = some 1000;
  total = 0;
  user_id = some 1;
  explorer_id = none;
}

abbrev pub with_user : User → Database
with_user u = record {
  users = u ∷ [];
  activities = activity 3 ∷ [];
  explorers = [];
  notification_tokens = [];
  mail_jobs = [];
}

abbrev pub at_time : ℕ → Moment
at_time now = record { now = now; midnight = 0; salt = "s"; random_token = λ n. "t" }

abbrev pub aura : Explorer
aura = record {
  id = 7;
  chain_id = "aura_6322";
  address_prefix = "aura";
  minimal_denom = "uaura";
  decimal = 6;
  explorer_url = "https://aurascan.io";
  chain_db = "xstaxy";
  evm_denom = "aaura";
  evm_decimal = 18;
}

abbrev pub read_text : String → Result String
read_text s =
    if s == "" then err (failure "Cannot read properties of null (reading 'toString')") else ok s

pub read_text_lem : (s : String) → (s == "") ≡ false → read_text s ≡ ok s
read_text_lem s h = rw h refl

abbrev pub tags : TagServices
tags = record {
  private_tags = memory private_keyed;
  public_tags = memory public_keyed;
  find_explorer = λ c. if c == "aura_6322" then some aura else none;
  encrypt = λ s. s;
  decrypt = read_text;
  decode_prefix = λ a. if a == "aura1short" then some "aura" else none;
  is_evm_address = λ a. a == "0x0000000000000000000000000000000000000400";
  has_evm_code = λ a c. ok false;
  limited_private_name_tag = 2;
  decrypt-encrypt = read_text_lem;
  decrypt-encrypt_empty = (failure "Cannot read properties of null (reading 'toString')", refl);
}

abbrev pub ctx : Context
ctx = record { user_id = 1; chain_id = "aura_6322" }
