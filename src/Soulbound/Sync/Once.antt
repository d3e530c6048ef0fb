-- ===== src/Soulbound/Sync/Once.antt =====
-- A token that was created by the service and is then taken on the chain.
use aura_explorer_api.Prelude.{
  ℕ, ◌<◌, ◌≡◌, refl, ap, inl, inr, String, Bool, true, ◌==◌, nat_eq, string_eq, eq_iff, some, List,
  [], ◌∷◌, ◌++◌, map, arith, count_if, count_if-snoc, count_if-keep_if, count_if_both_le,
  Bool-cases, Option-cases,
}
use aura_explorer_api.Exec.{ok}
use aura_explorer_api.Repository.Batch.{AreKnown, transaction-keys}
use aura_explorer_api.Soulbound.{
  SoulboundToken, Vault, SoulboundServices, Cw4973Contract, created, trim, is_token,
}
use aura_explorer_api.Soulbound.Service.{verify_signature}
use aura_explorer_api.Soulbound.Create.{CreateToken, create, create_token_id}
use aura_explorer_api.Soulbound.Create.Offered.{create-Offered}
use aura_explorer_api.Soulbound.Sync.{
  Take, TokenMessage, take, unequip, other, is_synced, synced, infos_of, synced_rows, save_synced,
  handle_sync_cw4973_nft_status,
}

abbrev pub has_key : ℕ → SoulboundToken → Bool
has_key n q = q.id == n

module _ (env : SoulboundServices) (contract receiver : String) where
  synced-id :
      (m : TokenMessage) (infos : List SoulboundToken) (t : SoulboundToken)
      → (synced env contract receiver m infos t).id ≡ t.id
  synced-id (take k) infos t = elim (Bool-cases (t.signature == k.signature)) [
    | inl e ↦ rw e refl
    | inr e ↦ rw e refl
  ]
  synced-id (unequip id) infos t = refl
  synced-id other infos t = refl

  rows-AreKnown :
      (m : TokenMessage) (infos t xs : List SoulboundToken)
      → ((n : ℕ) → 0 < count_if (has_key n) xs → 0 < count_if (has_key n) t)
      → AreKnown env.tokens t (map (synced env contract receiver m infos) xs)
  rows-AreKnown m infos t [] h = tt
  rows-AreKnown m infos t (x ∷ xs) h = (
    (rw (synced-id m infos x) (h x.id (ground arith)), refl),
    rows-AreKnown m infos t xs (λ n more. h n (ground arith)),
  )

  -- What is found and saved again has the keys that it had.
  save_synced-keys :
      (m : TokenMessage) (s : Vault) (n : ℕ)
      → count_if (has_key n) (save_synced env contract receiver m s).1.tokens
        ≡ count_if (has_key n) s.tokens
  save_synced-keys m s n =
      let w = is_synced env contract receiver m in
      let found = env.tokens.find w s.tokens in
      transaction-keys env.tokens n (synced_rows env contract receiver m s.tokens) s.tokens (
        rows-AreKnown m (infos_of env contract receiver found s.tokens) s.tokens found (λ k more.
          omega (
            arith,
            more,
            env.tokens.count-find w (has_key k) s.tokens,
            count_if-keep_if w (has_key k) s.tokens,
            count_if_both_le w (has_key k) s.tokens,
          )))

  -- The take of a token that the table has inserts nothing.
  handle-known :
      (t : Take) (s : Vault) (n : ℕ)
      → 0 < count_if (is_token (create_token_id env receiver t.from t.uri) contract) s.tokens
      → count_if
          (has_key n)
          (handle_sync_cw4973_nft_status env contract receiver (take t) s).1.tokens
        ≡ count_if (has_key n) s.tokens
  unfolding handle_sync_cw4973_nft_status
  handle-known t s n there =
      let w = is_token (create_token_id env receiver t.from t.uri) contract in
      elim (Option-cases (env.tokens.find_one w s.tokens)) [
        | inl nowhere ↦ absurd (omega (arith, there, env.tokens.find_one-none w s.tokens nowhere))
        | inr (q, found) ↦ rw found (save_synced-keys (take t) s n)
      ]

is_token_of :
    (id contract : String) (r : SoulboundToken)
    → r.token_id ≡ id
    → r.contract_address ≡ contract
    → is_token id contract r ≡ true
is_token_of id contract r e f =
    ground (arith, (eq_iff r.token_id id).1 e, (eq_iff r.contract_address contract).1 f)

-- Once the service has created a token for a contract of the signer, the synchronisation of the message
-- by which the receiver takes it, from the contract's minter and with the same document, neither
-- adds a row to the table nor removes one: the token is not there twice.
pub create-handle_sync_cw4973_nft_status :
    (env : SoulboundServices) (req : CreateToken) (s s' : Vault) (r : SoulboundToken)
    (address : String) (c : Cw4973Contract) (cs : List Cw4973Contract) (t : Take) (n : ℕ)
    → create env req s ≡ (ok (created r), s')
    → verify_signature env req.signed ≡ some address
    → env.contracts_of_at address req.contract_address ≡ ok (c ∷ cs)
    → t.from ≡ c.minter
    → t.uri ≡ req.token_uri
    → count_if
        (has_key n)
        (handle_sync_cw4973_nft_status env c.address
          (trim req.receiver_address)
          (take t)
          s').1.tokens
      ≡ count_if (has_key n) s'.tokens
create-handle_sync_cw4973_nft_status env req s s' r address c cs t n done signer known from uri =
    let (a', signer', _, c', cs', known', offered) = create-Offered env req s s' r done in
    let same_signer : a' ≡ address = cc in
    let known2 = rw same_signer at known' in
    let same : c' ≡ c = cc in
    let id = ap (λ (q : SoulboundToken). q.token_id) offered.made in
    let place = ap (λ (q : SoulboundToken). q.contract_address) offered.made in
    let id' = rw (same, ← from, ← uri) at id in
    let place' = rw same at place in
    let w = is_token (create_token_id env (trim req.receiver_address) t.from t.uri) c.address in
    let here : w r ≡ true = is_token_of _ c.address r id' place' in
    let rows : s'.tokens ≡ s.tokens ++ r ∷ [] = ap (λ (v : Vault). v.tokens) offered.added in
    let there : 0 < count_if w s'.tokens = rw (rows, count_if-snoc, here) (omega arith) in
    handle-known env c.address (trim req.receiver_address) t s' n there
