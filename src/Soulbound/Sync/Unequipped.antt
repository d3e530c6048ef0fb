-- ===== src/Soulbound/Sync/Unequipped.antt =====
-- Unequipped tokens and the handler of src/components/queues/cw4973/cw4973.processor.ts.
use aura_explorer_api.Prelude.{
  ℕ, ◌≤◌, ◌<◌, ◌≡◌, refl, ap, String, Bool, false, ◌&&◌, ◌==◌, nat_eq, string_eq, Option, none,
  some, List, [], ◌∷◌, map, arith, count_if, count_if-snoc, count_if-keep_if, count_if_both_le,
  Bool-cases, inl, inr,
}
use aura_explorer_api.Exec.{Result-cases}
use aura_explorer_api.Repository.Rows.{Inserted-cases}
use aura_explorer_api.Repository.Batch.{IsSavable, transaction-count_if}
use aura_explorer_api.Soulbound.{
  SoulboundToken, soulbound_keyed, Vault, SoulboundServices, status_eq, unequipped,
}
use aura_explorer_api.Soulbound.Create.{transform}
use aura_explorer_api.Soulbound.Sync.{
  Take, TokenMessage, take, unequip, other, taken_token, insert_missing, insert_taken, is_synced,
  synced, infos_of, synced_rows, save_synced, handle_sync_cw4973_nft_status,
}

-- An unequipped token that is still picked.
abbrev pub is_stale : SoulboundToken → Bool
is_stale t = t.status == unequipped && t.picked

module _ (env : SoulboundServices) (contract receiver : String) where
  synced_lem :
      (m : TokenMessage) (infos : List SoulboundToken) (t : SoulboundToken)
      → ((synced env contract receiver m infos t).id ≡ t.id)
        × (is_stale (synced env contract receiver m infos t) ≡ false)
  synced_lem (take k) infos t = elim (Bool-cases (t.signature == k.signature)) [
    | inl e ↦ rw e (refl, refl)
    | inr e ↦ rw e (refl, refl)
  ]
  synced_lem (unequip id) infos t = (refl, refl)
  synced_lem other infos t = (refl, refl)

  rows-IsSavable :
      (m : TokenMessage) (infos t xs : List SoulboundToken)
      → ((n : ℕ)
          → 0 < count_if (λ (q : SoulboundToken). q.id == n) xs
          → 0 < count_if (λ (q : SoulboundToken). q.id == n) t)
      → IsSavable env.tokens is_stale t (map (synced env contract receiver m infos) xs)
  rows-IsSavable m infos t [] h = tt
  rows-IsSavable m infos t (x ∷ xs) h =
      let (same, off) = synced_lem m infos x in
      (
        (rw same (h x.id (ground arith)), off),
        rows-IsSavable m infos t xs (λ n more. h n (ground arith)),
      )

  save_synced-is_stale :
      (m : TokenMessage) (s : Vault)
      → count_if is_stale (save_synced env contract receiver m s).1.tokens
        ≤ count_if is_stale s.tokens
  save_synced-is_stale m s =
      let found = env.tokens.find (is_synced env contract receiver m) s.tokens in
      transaction-count_if env.tokens is_stale (synced_rows env contract receiver m s.tokens)
        s.tokens
        (rows-IsSavable m (infos_of env contract receiver found s.tokens) s.tokens found (λ n more.
          omega (
            arith,
            more,
            env.tokens.count-find (is_synced env contract receiver m)
                (λ (q : SoulboundToken). q.id == n) s.tokens,
            count_if-keep_if (is_synced env contract receiver m) (λ (q : SoulboundToken). q.id == n)
                s.tokens,
            count_if_both_le (is_synced env contract receiver m) (λ (q : SoulboundToken). q.id == n)
                s.tokens,
          )))

  insert_missing-is_stale :
      (t : Take) (found : Option SoulboundToken) (s : Vault)
      → count_if is_stale (insert_missing env contract receiver t found s).1.tokens
        ≤ count_if is_stale s.tokens
  insert_missing-is_stale t (some _) s = omega arith
  insert_missing-is_stale t none s =
      let new = taken_token env contract receiver t (env.fetch_document (transform env t.uri)) in
      elim (Inserted-cases soulbound_keyed new s.tokens _ (env.tokens.insert_lem new s.tokens)) [
        | inl (e, failed) ↦ rw failed (omega arith)
        | inr (r, done, same, _) ↦
            rw (done, count_if-snoc)
              (let fresh : r.picked ≡ false = ap (λ (x : SoulboundToken). x.picked) same in
                ground (arith, fresh))
      ]

  insert_taken-is_stale :
      (m : TokenMessage) (s : Vault)
      → count_if is_stale (insert_taken env contract receiver m s).1.tokens
        ≤ count_if is_stale s.tokens
  insert_taken-is_stale (take t) s = insert_missing-is_stale t _ s
  insert_taken-is_stale (unequip id) s = omega arith
  insert_taken-is_stale other s = omega arith

  -- Whatever message is synchronised and whatever fails, no token becomes one that is unequipped and
  -- still picked: there are no more of them than before.
  pub handle_sync_cw4973_nft_status-is_stale :
      (m : TokenMessage) (s : Vault)
      → count_if is_stale (handle_sync_cw4973_nft_status env contract receiver m s).1.tokens
        ≤ count_if is_stale s.tokens
  unfolding handle_sync_cw4973_nft_status
  handle_sync_cw4973_nft_status-is_stale m s =
      let before = insert_taken-is_stale m s in
      let s1 = (insert_taken env contract receiver m s).1 in
      elim (Result-cases (insert_taken env contract receiver m s).0) [
        | inr (e, failed) ↦ rw failed before
        | inl (_, done) ↦ rw done (omega (arith, before, save_synced-is_stale m s1))
      ]
