-- ===== src/Soulbound/Rejections.antt =====
-- Rejecting tokens: `rejectToken` and `checkRejectToken` of
-- src/components/soulbound-token/services/soulbound-token.service.ts.
use aura_explorer_api.Prelude.{
  ◌<◌, ◌≡◌, ◌≢◌, inl, inr, refl, ap, sym, ◌∙◌, String, Bool, true, false, not, List, [], ◌∷◌, ◌++◌,
  arith, count_if, count_if-snoc, keep_if, All, ◌&&◌, ◌||◌, ◌==◌, nat_eq, string_eq, Bool-cases,
  eq_iff,
}
use aura_explorer_api.Exec.{Result, ok, Result-cases, Exec, pure, lift, ◌>>=◌}
use aura_explorer_api.Exec.Inversion.{bind-eq-ok}
use aura_explorer_api.Repository.Rows.{Written-cases, Inserted-cases, keep_if-update_where}
use aura_explorer_api.Soulbound.{
  unclaim, rejected, status_eq, SoulboundToken, SoulboundRejectList, soulbound_keyed, reject_keyed,
  Vault, SoulboundServices, Cw4973Contract, TokenUpdated, Answer, mistake, written,
  reject_abt_token, is_rejectable, rejected_token, trim, on_tokens,
}
use aura_explorer_api.Soulbound.Service.{
  rejection, block_minter, rejected_contracts, reject_token, check_reject_token, is_blocked,
}

-- The tokens of other receivers, and those of this one that are no longer open or rejected.
abbrev pub is_settled : String → SoulboundToken → Bool
is_settled receiver t =
    not (t.receiver_address == receiver)
    || (not (t.status == unclaim) && not (t.status == rejected))

rejectable_not_settled :
    (req : TokenUpdated) (cs : List String) (t : List SoulboundToken)
    → All
        (λ q.
          is_rejectable req cs q ≡ true
          → (is_settled req.receiver_address q ≡ false)
            × (is_settled req.receiver_address (rejected_token q) ≡ false))
        t
rejectable_not_settled req cs [] = tt
rejectable_not_settled req cs (q ∷ t) = (λ on. ground arith, rejectable_not_settled req cs t)

module _ (env : SoulboundServices) (req : TokenUpdated) where
  -- Blocking a minter writes to the list of rejections alone.
  block_minter_tokens :
      (found : List Cw4973Contract) (s : Vault) → (block_minter env req found s).1.tokens ≡ s.tokens
  block_minter_tokens [] s = refl
  block_minter_tokens (c ∷ _) s = elim (Result-cases (env.contracts_of c.minter)) [
    | inr (e, failed) ↦ rw failed refl
    | inl (all, listed) ↦
        elim (Result-cases (env.rejects.insert (rejection env req c.minter) s.rejects).0) [
          | inr (e, failed) ↦ rw (listed, failed) refl
          | inl (r, done) ↦ rw (listed, done) refl
        ]
  ]

  rejected_contracts_tokens : (s : Vault) → (rejected_contracts env req s).1.tokens ≡ s.tokens
  rejected_contracts_tokens s = elim (Bool-cases req.reject_all) [
    | inr one ↦ rw one refl
    | inl all ↦ elim (Result-cases (env.contracts_at req.contract_address)) [
      | inr (e, failed) ↦ rw (all, failed) refl
      | inl (found, done) ↦ rw (all, done) (block_minter_tokens found s)
    ]
  ]

  abbrev put_rejected : List String → Exec Vault Answer
  put_rejected cs =
      on_tokens (env.tokens.update (is_rejectable req cs) rejected_token) >>= λ n. pure (written n)

  put_rejected_settled :
      (cs : List String) (s : Vault)
      → keep_if (is_settled req.receiver_address) (put_rejected cs s).1.tokens
        ≡ keep_if (is_settled req.receiver_address) s.tokens
  put_rejected_settled cs s =
      elim (Written-cases soulbound_keyed s.tokens _ _
        (env.tokens.update_lem (is_rejectable req cs) rejected_token s.tokens)) [
          | inl (e, failed) ↦ rw failed refl
          | inr (n, done) ↦
              rw done (keep_if-update_where _ _ _ _ (rejectable_not_settled req cs s.tokens))
        ]

  -- Whatever is asked and whatever fails, a rejection changes no token of another receiver, and none
  -- of this receiver's that is pending, equipped or unequipped.
  pub reject_token_settled :
      (s : Vault)
      → keep_if (is_settled req.receiver_address) (reject_token env req s).1.tokens
        ≡ keep_if (is_settled req.receiver_address) s.tokens
  unfolding reject_token
  reject_token_settled s =
      let same = ap (keep_if (is_settled req.receiver_address)) (rejected_contracts_tokens s) in
      elim (Result-cases (rejected_contracts env req s).0) [
        | inr (e, failed) ↦ rw failed same
        | inl (cs, done) ↦ rw done (put_rejected_settled cs (rejected_contracts env req s).1 ∙ same)
      ]

  put_rejected_rejects : (cs : List String) (s : Vault) → (put_rejected cs s).1.rejects ≡ s.rejects
  put_rejected_rejects cs s =
      elim (Result-cases (env.tokens.update (is_rejectable req cs) rejected_token s.tokens).0) [
        | inr (e, failed) ↦ rw failed refl
        | inl (n, done) ↦ rw done refl
      ]

  block_minter_listed :
      (c : Cw4973Contract) (cs : List Cw4973Contract) (s s' : Vault) (out : List String)
      → block_minter env req (c ∷ cs) s ≡ (ok out, s')
      → 0 < count_if (is_blocked env req.receiver_address c.minter) s'.rejects
  block_minter_listed c cs s s' out h =
      let (all, s1, listed, h1) = bind-eq-ok (lift (env.contracts_of c.minter)) _ s s' out h in
      elim (Inserted-cases reject_keyed (rejection env req c.minter) s1.rejects _
        (env.rejects.insert_lem (rejection env req c.minter) s1.rejects)) [
          | inl (e, failed) ↦ let h2 = rw failed at h1 in cc
          | inr (r, inserted, same, _) ↦
              let h2 = rw inserted at h1 in
              let after : s'.rejects ≡ s1.rejects ++ r ∷ [] =
                ap (λ (o : Result (List String) × Vault). o.1.rejects) (sym h2) in
              let mine : is_blocked env req.receiver_address c.minter r ≡ true = ground (
                arith,
                ap (λ (x : SoulboundRejectList). x.account_address) same,
                ap (λ (x : SoulboundRejectList). x.reject_address) same,
                eq_iff r.account_address req.receiver_address,
                eq_iff r.reject_address c.minter,
              ) in
              rw (after, count_if-snoc, mine) (omega arith)
        ]

  module _ (c : Cw4973Contract) (cs : List Cw4973Contract) (s s' : Vault) (a : Answer)
      (all : req.reject_all ≡ true) (known : env.contracts_at req.contract_address ≡ ok (c ∷ cs))
      (done : reject_token env req s ≡ (ok a, s')) where
    -- The minter is on the receiver's list of rejections.
    reject_token_listed : 0 < count_if (is_blocked env req.receiver_address c.minter) s'.rejects
    unfolding reject_token
    reject_token_listed =
        let (out, s1, first, h1) =
          bind-eq-ok (rejected_contracts env req) put_rejected s s' a done in
        let kept : s'.rejects ≡ s1.rejects =
          ap (λ (o : Result Answer × Vault). o.1.rejects) (sym h1) ∙ put_rejected_rejects out s1 in
        rw kept (block_minter_listed c cs s s1 out (rw (all, known) at first))

    -- After a rejection that succeeds with `rejectAll`, for a contract that the indexer knows, a check
    -- of the contract's minter for the receiver answers that the receiver has rejected it. The
    -- receiver's address has no space around it and is not the minter's.
    pub reject_token-check_reject_token :
        trim req.receiver_address ≡ req.receiver_address
        → req.receiver_address ≢ c.minter
        → check_reject_token env req.receiver_address c.minter s'
          ≡ (ok (mistake reject_abt_token), s')
    unfolding check_reject_token
    reject_token-check_reject_token tidy other = rw tidy (
        ground (
          arith,
          reject_token_listed,
          eq_iff req.receiver_address c.minter,
          env.rejects.count_lem (is_blocked env req.receiver_address c.minter) s'.rejects,
        ))
