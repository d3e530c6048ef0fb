-- ===== src/Soulbound/Listing/Open.antt =====
-- What a rejection leaves of the listing of a receiver.
use aura_explorer_api.Prelude.{
  ◌≤◌, ◌≡◌, refl, ap, sym, inl, inr, Bool, true, ◌&&◌, ◌==◌, string_eq, nat_eq, String, Option,
  List, [], ◌∷◌, arith, count_if, keep_if, Bool-cases, ℕ,
}
use aura_explorer_api.Exec.{Result, ok}
use aura_explorer_api.Exec.Results.{map_ok-eq-ok}
use aura_explorer_api.Exec.Inversion.{bind-eq-ok}
use aura_explorer_api.Repository.{update_where}
use aura_explorer_api.Repository.Builder.{Listing}
use aura_explorer_api.Repository.Builder.Pages.{page-kept_le}
use aura_explorer_api.Repository.Rows.{Written-cases}
use aura_explorer_api.NameTag.Address.{includes}
use aura_explorer_api.Soulbound.{
  unclaim, status_eq, SoulboundToken, soulbound_keyed, Vault, SoulboundServices, Cw4973Contract,
  TokenUpdated, Answer, is_rejectable, rejected_token, on_rejects,
}
use aura_explorer_api.Soulbound.Service.{rejection, block_minter, rejected_contracts, reject_token}
use aura_explorer_api.Soulbound.Listing.{
  ListingServices, SortedBy, ReceiverTokenParas, is_of_receiver, media_info,
  get_token_by_receiver_address,
}
use aura_explorer_api.Soulbound.Contracts.{addresses_of}
use aura_explorer_api.Contract.Detail.{MediaInfo}

-- A token of one of the contracts that can still be claimed.
abbrev pub is_open : List String → SoulboundToken → Bool
is_open contracts t = includes contracts t.contract_address && t.status == unclaim

count_if-media_info :
    (lists : ListingServices) (contracts : List String) (media : Option (List MediaInfo))
    (ts : List SoulboundToken)
    → count_if (is_open contracts) (media_info lists media ts) ≡ count_if (is_open contracts) ts
count_if-media_info lists contracts media [] = refl
count_if-media_info lists contracts media (t ∷ ts) =
    rw (media_info, count_if-media_info lists contracts media ts) refl

-- A rejection leaves none of the tokens that it is about.
count_if-rejected :
    (req : TokenUpdated) (contracts : List String) (ts : List SoulboundToken)
    → count_if
        (is_rejectable req contracts)
        (update_where (is_rejectable req contracts) rejected_token ts)
      ≡ 0
count_if-rejected req contracts [] = refl
count_if-rejected req contracts (t ∷ ts) = elim (Bool-cases (is_rejectable req contracts t)) [
  | inl e ↦ rw (update_where, e) (ground (arith, count_if-rejected req contracts ts))
  | inr e ↦ rw (update_where, e) (ground (arith, count_if-rejected req contracts ts))
]

module _ (req : TokenUpdated) (contracts : List String) (all : req.reject_all ≡ true) where
  count_if-open_le :
      (w : SoulboundToken → Bool) (ts : List SoulboundToken)
      → ((t : SoulboundToken) → w t ≡ true → (t.receiver_address == req.receiver_address) ≡ true)
      → count_if (is_open contracts) (keep_if w ts) ≤ count_if (is_rejectable req contracts) ts
  count_if-open_le w [] mine = omega arith
  count_if-open_le w (t ∷ ts) mine = elim (Bool-cases (w t)) [
    | inl e ↦
        let h = mine t e in
        rw (keep_if, e, count_if, h, all) (ground (arith, count_if-open_le w ts mine))
    | inr e ↦ rw (keep_if, e, count_if) (ground (arith, count_if-open_le w ts mine))
  ]

module _ (lists : ListingServices) (env : SoulboundServices) (req : TokenUpdated) where
  reject_token_none_left :
      (contracts : List String) (s s1 s' : Vault) (a : Answer)
      → rejected_contracts env req s ≡ (ok contracts, s1)
      → reject_token env req s ≡ (ok a, s')
      → count_if (is_rejectable req contracts) s'.tokens ≡ 0
  unfolding reject_token
  reject_token_none_left contracts s s1 s' a found done =
      let h = rw found at done in
      elim (Written-cases soulbound_keyed s1.tokens _ _
        (env.tokens.update_lem (is_rejectable req contracts) rejected_token s1.tokens)) [
          | inl (e, failed) ↦ let h' = rw failed at h in cc
          | inr (n, wrote) ↦
              let h' = rw wrote at h in
              let after = ap (λ (o : Result Answer × Vault). o.1.tokens) (sym h') in
              rw after (count_if-rejected req contracts s1.tokens)
        ]

  block_minter_contracts :
      (c : Cw4973Contract) (cs found : List Cw4973Contract) (s s1 : Vault) (out : List String)
      → env.contracts_of c.minter ≡ ok found
      → block_minter env req (c ∷ cs) s ≡ (ok out, s1)
      → out ≡ addresses_of found
  block_minter_contracts c cs found s s1 out listed h =
      let h1 = rw listed at h in
      let (r, s2, inserted, h2) =
        bind-eq-ok (on_rejects (env.rejects.insert (rejection env req c.minter))) _ s s1 out h1 in
      cc

  -- A page of the listing has no more open tokens than the table has of the receiver's.
  get_token_by_receiver_address-open :
      (contracts : List String) (s s2 : Vault) (q : ReceiverTokenParas) (limit offset : ℕ)
      (l : Listing SoulboundToken)
      → req.reject_all ≡ true
      → q.receiver_address ≡ req.receiver_address
      → get_token_by_receiver_address lists env q limit offset s ≡ (ok l, s2)
      → count_if (is_open contracts) l.rows ≤ count_if (is_rejectable req contracts) s.tokens
  unfolding get_token_by_receiver_address
  get_token_by_receiver_address-open contracts s s2 q limit offset l all same shown =
      let w = is_of_receiver lists q in
      let p = is_open contracts in
      let (l1, listed, whole) =
        map_ok-eq-ok _ _ l (ap (λ (o : Result (Listing SoulboundToken) × Vault). o.0) shown) in
      let media = lists.fetch_media q.receiver_address in
      let rows : l.rows ≡ media_info lists media l1.rows =
        ap (λ (o : Listing SoulboundToken). o.rows) whole in
      let on_page =
        page-kept_le lists.builder env.tokens SortedBy.notified w limit s.tokens p offset l1
          listed in
      let mine =
        count_if-open_le req contracts all w s.tokens (λ t on. rw (← same) (ground arith)) in
      rw (rows, count_if-media_info lists contracts media l1.rows) (omega (arith, on_page, mine))

  -- Once a receiver has rejected all tokens of the minter of a contract, and the minter's contracts are
  -- those that the indexer answered, then whatever page of the receiver's listing is asked for, with
  -- whatever keyword, it holds no token of these contracts that can still be claimed.
  pub reject_token-get_token_by_receiver_address :
      (c : Cw4973Contract) (cs found : List Cw4973Contract) (s s' s2 : Vault) (a : Answer)
      (q : ReceiverTokenParas) (limit offset : ℕ) (l : Listing SoulboundToken)
      → req.reject_all ≡ true
      → env.contracts_at req.contract_address ≡ ok (c ∷ cs)
      → env.contracts_of c.minter ≡ ok found
      → reject_token env req s ≡ (ok a, s')
      → q.receiver_address ≡ req.receiver_address
      → get_token_by_receiver_address lists env q limit offset s' ≡ (ok l, s2)
      → count_if (is_open (addresses_of found)) l.rows ≡ 0
  unfolding reject_token
  reject_token-get_token_by_receiver_address c cs found s s' s2 a q limit offset l all known listed
        done same shown =
      let (out, s1, gathered, _) = bind-eq-ok (rejected_contracts env req) _ s s' a done in
      let blocked = rw (all, known) at gathered in
      let contracts = block_minter_contracts c cs found s s1 out listed blocked in
      let none_left = reject_token_none_left out s s1 s' a gathered done in
      let shown_le = get_token_by_receiver_address-open out s' s2 q limit offset l all same shown in
      rw (← contracts) (omega (arith, none_left, shown_le))
