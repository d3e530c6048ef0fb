-- ===== src/Tests/Quests.antt =====
-- Quests of a campaign.
use aura_explorer_api.Prelude.{
  String, ◌≡◌, ◌↔◌, refl, true, Option, none, some, List, [], ◌∷◌, ◌==◌, string_eq, if◌then◌else◌,
}
use aura_explorer_api.Exec.{ok}
use aura_explorer_api.Tests.{aura}
use aura_explorer_api.Campaign.{
  CampaignParams, CampaignServices, plus, minus, swap, verified, verify_quest, verify,
  get_sender_from_halo, senders_of, verify_action_halo, verify_with_uni_v2, not_enough,
}
use aura_explorer_api.Campaign.Earned.{Earned, verify_quest_iff}

-- Two pools with transactions and one without an answer; 0xa sent two and one of them.
abbrev senders : String → Option (List String)
senders pool =
    if pool == "1"
    then some ("0xa" ∷ "0xb" ∷ "0xa" ∷ [])
    else if pool == "2"
    then some ("0xa" ∷ [])
    else none

abbrev halo : CampaignServices
halo = record {
  find_explorer = λ chain_id. some aura;
  fetch_balances = λ e address. none;
  fetch_mints = λ e address limit. none;
  fetch_pools = λ chain. some (some ("1" ∷ "2" ∷ "3" ∷ []));
  fetch_senders = λ chain action pool. senders pool;
  fetch_halo = λ chain action address. none;
  fetch_levels = λ address. none;
  covers = λ balance amount decimal. true;
}

abbrev swapped : CampaignParams
swapped = record {
  chain_id = "aura_6322";
  action = "swap-halo";
  address = "0xa";
  amount = plus 3;
  uni_version = plus 2;
}

verify_quest_iff_example : (verify_quest halo swapped ≡ ok verified) ↔ Earned halo aura swapped swap
verify_quest_iff_example = verify_quest_iff halo aura swapped swap refl refl

verify_quest_test :
    (verify_quest halo swapped ≡ ok verified)
    × (verify_quest halo (record swapped { amount = plus 4 }) ≡ ok not_enough)
    × (verify_quest halo (record swapped { amount = minus 0; address = "0xz" }) ≡ ok verified)
unfolding verify_quest verify verify_action_halo verify_with_uni_v2 get_sender_from_halo senders_of
verify_quest_test = (refl, refl, refl)
