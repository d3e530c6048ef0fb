-- ===== src/Soulbound/Service.antt =====
-- The operations of src/components/soulbound-token/services/soulbound-token.service.ts with the
-- updates of its repository, and `verifySignatue` of src/shared/utils/contract.util.ts.
use aura_explorer_api.Prelude.{
  ℕ, String, Bool, false, ◌&&◌, ◌==◌, nat_eq, string_eq, Option, none, some, List, [], ◌∷◌, map,
  leb, ltb, if◌then◌else◌,
}
use aura_explorer_api.Exec.{Result, ok, err, Exec, pure, gets, lift, ◌>>=◌, ◌>>◌, try_catch}
use aura_explorer_api.Soulbound.{
  Cw4973Contract, SignDoc, status_eq, SoulboundToken, SoulboundRejectList, Vault, SoulboundServices,
  trim, Answer, Signed, TokenUpdated, picked_token_max, is_token, is_picked, is_noticed, is_kept,
  is_rejectable, rejected_token, on_tokens, on_rejects, pending, your_address_invalid,
  token_not_exist, picked_token_oversize, take_self_token, reject_abt_token, mistake, written,
  nothing,
}

module _ (env : SoulboundServices) where
  pub create_sign_message_by_data : String → String → SignDoc
  create_sign_message_by_data address text = record {
    chain_id = "";
    account_number = "0";
    sequence = "0";
    gas = "0";
    type = "sign/MsgSignData";
    signer = address;
    payload = env.base64 text;
    memo = "";
  }

  abbrev signature_valid : String → Signed → Result Bool
  signature_valid a q =
      env.check_signature q.signature (env.serialize_sign_doc (create_sign_message_by_data a q.msg))
        q.pub_key

  -- `verifySignatue`: the address of the key, if it signed the message.
  unfoldable pub verify_signature : Signed → Option String
  verify_signature q = elim (env.address_of_key q.pub_key) [
    | err _ ↦ none
    | ok a ↦ elim (signature_valid a q) [ err _ ↦ none | ok valid ↦ if valid then some a else none ]
  ]

  -- Who did not sign is refused.
  abbrev pub signed_by : Option String → (String → Exec Vault Answer) → Exec Vault Answer
  signed_by none act s = (ok (mistake your_address_invalid), s)
  signed_by (some address) act s = act address s

  abbrev pub pending_token : Signed → SoulboundToken → SoulboundToken
  pending_token q t = record t { status = pending; signature = q.signature; pub_key = q.pub_key }

  abbrev pub put_pending : Signed → String → Option SoulboundToken → Exec Vault Answer
  put_pending q address none s = (ok (mistake token_not_exist), s)
  put_pending q address (some t) s =
      if t.receiver_address == address
      then (do
        n ← on_tokens (env.tokens.update (λ r. r.id == t.id) (λ _. pending_token q t))
        pure (written n))
          s
      else (ok (mistake your_address_invalid), s)

  unfoldable pub update_token : Signed → String → String → Exec Vault Answer
  update_token q id contract s =
      signed_by (verify_signature q)
        (λ address s. put_pending q address (env.tokens.find_one (is_token id contract) s.tokens) s)
        s

  pub get_notify_by_receiver_address : String → Exec Vault ℕ
  get_notify_by_receiver_address receiver =
      gets (λ s. env.tokens.count (is_noticed receiver) s.tokens)

  pub count_token_by_receiver_address : String → Exec Vault ℕ
  count_token_by_receiver_address receiver =
      gets (λ s. env.tokens.count (is_kept receiver) s.tokens)

  pub update_notify : TokenUpdated → Exec Vault Answer
  update_notify req = do
    n ← on_tokens (
        env.tokens.update (is_token req.token_id req.contract_address)
          (λ t. record t { is_notify = false }))
    pure (written n)

  abbrev pub rejection : TokenUpdated → String → SoulboundRejectList
  rejection req minter = record {
    id = 0;
    account_address = req.receiver_address;
    reject_address = minter;
  }

  -- With `rejectAll` the minter is blocked, and the contracts are all of the minter's.
  abbrev pub block_minter : TokenUpdated → List Cw4973Contract → Exec Vault (List String)
  block_minter req [] s = (ok (req.contract_address ∷ []), s)
  block_minter req (c ∷ _) s =
      (do
        all ← lift (env.contracts_of c.minter)
        on_rejects (env.rejects.insert (rejection req c.minter))
        pure (map (λ (x : Cw4973Contract). x.address) all))
        s

  abbrev pub rejected_contracts : TokenUpdated → Exec Vault (List String)
  rejected_contracts req s =
      if req.reject_all
      then (do found ← lift (env.contracts_at req.contract_address); block_minter req found) s
      else (ok (req.contract_address ∷ []), s)

  unfoldable pub reject_token : TokenUpdated → Exec Vault Answer
  reject_token req = do
    contracts ← rejected_contracts req
    n ← on_tokens (env.tokens.update (is_rejectable req contracts) rejected_token)
    pure (written n)

  abbrev pub is_blocked : String → String → SoulboundRejectList → Bool
  is_blocked receiver minter r = r.account_address == receiver && r.reject_address == minter

  -- `checkRejectToken`; without an answer nothing forbids the token.
  unfoldable pub check_reject_token : String → String → Exec Vault Answer
  check_reject_token receiver minter s =
      if trim receiver == minter
      then (ok (mistake take_self_token), s)
      else if ltb 0 (env.rejects.count (is_blocked (trim receiver) minter) s.rejects)
      then (ok (mistake reject_abt_token), s)
      else (ok nothing, s)

  abbrev pub put_picked : Bool → String → SoulboundToken → Exec Vault Answer
  put_picked picked address t s =
      if address == t.receiver_address
      then (do
        n ← on_tokens (
            env.tokens.update (λ r. r.id == t.id)
              (λ (r : SoulboundToken). record r { picked = picked }))
        pure (written n))
          s
      else (ok nothing, s)

  abbrev pub pick_found : Bool → String → SoulboundToken → Exec Vault Answer
  pick_found picked address t s =
      if leb picked_token_max (env.tokens.count (is_picked t.receiver_address) s.tokens) && picked
      then (ok (mistake picked_token_oversize), s)
      else try_catch
          (do lift (env.query_nft t.contract_address t.token_id); put_picked picked address t)
          (λ _. pure (mistake token_not_exist)) s

  abbrev pub pick : Bool → String → Option SoulboundToken → Exec Vault Answer
  pick picked address none s = (ok (mistake token_not_exist), s)
  pick picked address (some t) s = pick_found picked address t s

  unfoldable pub picked_nft : Signed → String → String → Bool → Exec Vault Answer
  picked_nft q id contract picked s =
      signed_by (verify_signature q)
        (λ address s. pick picked address (env.tokens.find_one (is_token id contract) s.tokens) s) s
