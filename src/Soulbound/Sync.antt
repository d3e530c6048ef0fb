-- ===== src/Soulbound/Sync.antt =====
-- The synchronisation of soulbound tokens with the chain:
-- src/components/queues/cw4973/cw4973.processor.ts.
pub mod Unequipped
pub mod Once
pub mod Job
use aura_explorer_api.Prelude.{
  ℕ, String, Bool, true, false, ◌&&◌, ◌||◌, ◌==◌, nat_eq, string_eq, Option, none, some, List, [],
  ◌∷◌, map, any, length, keep_if, ltb, if◌then◌else◌,
}
use aura_explorer_api.Exec.{
  Exception, Result, ok, err, Exec, pure, gets, lift, continue, ◌>>=◌, ◌>>◌, try_catch,
}
use aura_explorer_api.Repository.{Keyed, Repository}
use aura_explorer_api.Repository.Batch.{transaction}
use aura_explorer_api.Soulbound.{
  SoulboundToken, Vault, SoulboundServices, Document, picked_token_max, status_eq, unclaim,
  equipped, unequipped, is_token, on_tokens,
}
use aura_explorer_api.Soulbound.Create.{transform, create_token_id, image_type, image_url}

-- The message `take` of the contract.
pub record Take : Type 0 where
  pub signature : String
  pub pub_key : String
  pub from : String
  pub uri : String

-- A message has one action; of the others only `take` and `unequip` are read.
pub data TokenMessage : Type 0 where
  take : Take → TokenMessage
  unequip : String → TokenMessage
  other : TokenMessage

abbrev pub taken_signature : TokenMessage → Option String
taken_signature (take t) = some t.signature
taken_signature _ = none

abbrev pub unequipped_id : TokenMessage → Option String
unequipped_id (unequip id) = some id
unequipped_id _ = none

-- An activity of the indexer, with its first message: reading it may throw.
pub record Activity : Type 0 where
  pub message : Result TokenMessage
  pub contract_address : String
  pub sender : String
  pub height : ℕ

module _ (env : SoulboundServices) where
  module _ (contract receiver : String) where
    abbrev image_of : Option Document → Option String
    image_of none = none
    image_of (some d) = image_url env d

    abbrev document_text : (Document → Option String) → Option Document → Option String
    document_text f none = none
    document_text f (some d) = f d

    -- A token that was taken without having been created here.
    abbrev pub taken_token : Take → Option Document → SoulboundToken
    taken_token t d = record {
      id = 0;
      contract_address = contract;
      token_id = create_token_id env receiver t.from t.uri;
      token_uri = t.uri;
      token_img = document_text (λ d. d.image) d;
      img_type = image_type env (image_of d);
      token_name = document_text (λ d. d.name) d;
      animation_url = document_text (λ d. d.animation_url) d;
      receiver_address = receiver;
      status = unclaim;
      signature = t.signature;
      pub_key = t.pub_key;
      picked = false;
      is_notify = false;
      ipfs = none;
    }

    -- What the insertion throws is logged.
    abbrev pub insert_missing : Take → Option SoulboundToken → Exec Vault (Unit {0})
    insert_missing t (some _) = pure tt
    insert_missing t none =
        try_catch
          (do
            on_tokens (env.tokens.insert (taken_token t (env.fetch_document (transform env t.uri))))
            pure tt)
          (λ _. pure tt)

    abbrev pub insert_taken : TokenMessage → Exec Vault (Unit {0})
    insert_taken (take t) s =
        insert_missing t
          (env.tokens.find_one (is_token (create_token_id env receiver t.from t.uri) contract)
            s.tokens)
          s
    insert_taken _ s = (ok tt, s)

    -- A condition of `where` on a value that may be undefined.
    abbrev pub is_where : Option String → String → Bool
    is_where none v = env.undefined_matches
    is_where (some x) v = v == x

    abbrev pub is_synced : TokenMessage → SoulboundToken → Bool
    is_synced m t =
        (is_where (taken_signature m) t.signature && t.contract_address == contract)
        || (is_where (unequipped_id m) t.token_id && t.contract_address == contract)

    abbrev pub is_held_by : String → SoulboundToken → Bool
    is_held_by a t = t.receiver_address == a && (t.status == equipped || t.status == unequipped)

    abbrev pub equip : List SoulboundToken → SoulboundToken → SoulboundToken
    equip infos t = record t {
      picked =
          (ltb (length (keep_if (is_held_by t.receiver_address) infos)) picked_token_max
            && t.status == unclaim)
          || t.picked;
      status = equipped;
    }

    abbrev pub unequip_token : SoulboundToken → SoulboundToken
    unequip_token t = record t { status = unequipped; picked = false }

    -- Every token that was found and was not taken by the message ends unequipped.
    abbrev pub synced : TokenMessage → List SoulboundToken → SoulboundToken → SoulboundToken
    synced (take m) infos t = if t.signature == m.signature then equip infos t else unequip_token t
    synced _ infos t = unequip_token t

    abbrev pub infos_of : List SoulboundToken → List SoulboundToken → List SoulboundToken
    infos_of found t =
        env.tokens.find
          (λ q. any (λ (f : SoulboundToken). f.receiver_address == q.receiver_address) found) t

    abbrev pub synced_rows : TokenMessage → List SoulboundToken → List SoulboundToken
    synced_rows m t =
        let found = env.tokens.find (is_synced m) t in map (synced m (infos_of found t)) found

    -- The save is not awaited: if it fails, the handler has ended already.
    abbrev pub save_synced : TokenMessage → Exec Vault (Unit {0})
    save_synced m s =
        (ok tt, (on_tokens (transaction env.tokens.save (synced_rows m s.tokens)) s).1)

    unfoldable pub handle_sync_cw4973_nft_status : TokenMessage → Exec Vault (Unit {0})
    handle_sync_cw4973_nft_status m = try_catch (do insert_taken m; save_synced m) (λ _. pure tt)

  -- One activity after the other; a message that cannot be read ends the job.
  unfoldable pub sync_all : List Activity → Exec Vault (Unit {0})
  sync_all [] = pure tt
  sync_all (a ∷ rest) = do
    m ← lift a.message
    handle_sync_cw4973_nft_status a.contract_address a.sender m
    sync_all rest
