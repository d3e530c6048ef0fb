-- ===== src/Soulbound/Picks.antt =====
-- The limit on picked tokens: `pickedNft` of
-- src/components/soulbound-token/services/soulbound-token.service.ts.
use mathlib.Core.List.{Memᴰ}
use aura_explorer_api.Prelude.{
  ◌≤◌, ◌<◌, ◌≡◌, ◌⊎◌, inl, inr, refl, ap, String, Bool, true, false, arith, count_if, leb, ◌&&◌,
  ◌==◌, nat_eq, string_eq, Bool-cases, Option-cases, eq_iff,
}
use aura_explorer_api.Exec.{Result-cases}
use aura_explorer_api.Repository.{update_where}
use aura_explorer_api.Repository.Rows.{
  DistinctIds, Written-cases, count_if-IsOnly, count_if-update_where_le, count_if-update_where_off,
  All-imp,
}
use aura_explorer_api.Soulbound.{
  SoulboundToken, soulbound_keyed, Vault, SoulboundServices, Signed, picked_token_max, is_token,
  is_picked,
}
use aura_explorer_api.Soulbound.Service.{verify_signature, put_picked, pick_found, pick, picked_nft}

module _ (env : SoulboundServices) (s : Vault) where
  -- No receiver shows more tokens than the limit.
  abbrev pub WithinPicks : Vault → Type 0
  WithinPicks v = (a : String) → count_if (is_picked a) v.tokens ≤ picked_token_max

  -- What picking a token, or taking the pick back, writes.
  abbrev pub Picked : Bool → Vault → Type 0
  Picked picked s' =
      (t : SoulboundToken) × Memᴰ t s.tokens
      × ((picked ≡ false) ⊎ (count_if (is_picked t.receiver_address) s.tokens < picked_token_max))
      × (s' ≡ record s {
        tokens =
            update_where (λ r. r.id == t.id) (λ (r : SoulboundToken). record r { picked = picked })
              s.tokens;
      })

  put_picked-cases :
      (picked : Bool) (address : String) (t : SoulboundToken)
      → ((put_picked env picked address t s).1 ≡ s)
        ⊎ ((put_picked env picked address t s).1 ≡ record s {
          tokens =
              update_where
                (λ r. r.id == t.id)
                (λ (r : SoulboundToken). record r { picked = picked })
                s.tokens;
        })
  put_picked-cases picked address t = elim (Bool-cases (address == t.receiver_address)) [
    | inr other ↦ rw other (inl refl)
    | inl own ↦
        elim (Written-cases soulbound_keyed s.tokens _ _ (
          env.tokens.update_lem (λ r. r.id == t.id)
            (λ (r : SoulboundToken). record r { picked = picked }) s.tokens)) [
              | inl (e, failed) ↦ rw (own, failed) (inl refl)
              | inr (n, done) ↦ rw (own, done) (inr refl)
            ]
  ]

  pick_found-cases :
      (picked : Bool) (address : String) (t : SoulboundToken)
      → Memᴰ t s.tokens
      → ((pick_found env picked address t s).1 ≡ s)
        ⊎ Picked picked (pick_found env picked address t s).1
  pick_found-cases picked address t mem =
      elim (Bool-cases (
        leb picked_token_max (env.tokens.count (is_picked t.receiver_address) s.tokens)
        && picked)) [
          | inl full ↦ rw full (inl refl)
          | inr room ↦ elim (Result-cases (env.query_nft t.contract_address t.token_id)) [
            | inr (e, failed) ↦ rw (room, failed) (inl refl)
            | inl (_, there) ↦
                let may : (picked ≡ false)
                    ⊎ (count_if (is_picked t.receiver_address) s.tokens < picked_token_max) =
                  elim (Bool-cases picked) [
                    | inr back ↦ inl back
                    | inl on ↦ inr (
                        ground
                          (arith, env.tokens.count_lem (is_picked t.receiver_address) s.tokens))
                  ] in
                rw (room, there)
                  (elim (Result-cases (put_picked env picked address t s).0) [
                    | inr (e, failed) ↦ rw failed (elim (put_picked-cases picked address t) [
                      | inl same ↦ inl same
                      | inr wrote ↦ inr (t, mem, may, wrote)
                    ])
                    | inl (r, done) ↦ rw done (elim (put_picked-cases picked address t) [
                      | inl same ↦ inl same
                      | inr wrote ↦ inr (t, mem, may, wrote)
                    ])
                  ])
          ]
        ]

  pick-cases :
      (picked : Bool) (address : String) (q : SoulboundToken → Bool)
      → let s' = (pick env picked address (env.tokens.find_one q s.tokens) s).1 in
        (s' ≡ s) ⊎ Picked picked s'
  pick-cases picked address q = elim (Option-cases (env.tokens.find_one q s.tokens)) [
    | inl missing ↦ rw missing (inl refl)
    | inr (t, found) ↦
        rw found (pick_found-cases picked address t (env.tokens.find_one-some q s.tokens t found).0)
  ]

  pub picked_nft-cases :
      (signed : Signed) (id contract : String) (picked : Bool)
      → let s' = (picked_nft env signed id contract picked s).1 in (s' ≡ s) ⊎ Picked picked s'
  unfolding picked_nft
  picked_nft-cases signed id contract picked = elim (Option-cases (verify_signature env signed)) [
    | inl refused ↦ rw refused (inl refl)
    | inr (address, signer) ↦ rw signer (pick-cases picked address (is_token id contract))
  ]

  module _ (distinct : DistinctIds soulbound_keyed s.tokens) (limited : WithinPicks s) where
    -- A write that picks counts for the receiver of the token alone, and once.
    written-WithinPicks :
        (picked : Bool) (t : SoulboundToken) (a : String)
        → Memᴰ t s.tokens
        → (picked ≡ false) ⊎ (count_if (is_picked t.receiver_address) s.tokens < picked_token_max)
        → count_if (is_picked a) (
            update_where
              (λ r. r.id == t.id)
              (λ (r : SoulboundToken). record r { picked = picked })
              s.tokens)
          ≤ picked_token_max
    written-WithinPicks picked t a mem room =
        elim (Bool-cases (t.receiver_address == a && picked)) [
          | inl on ↦
              let raised =
                count_if-update_where_le (is_picked a) (λ r. r.id == t.id)
                  (λ (r : SoulboundToken). record r { picked = picked }) s.tokens in
              let once = distinct t.id in
              let same : t.receiver_address ≡ a = ground (arith, eq_iff t.receiver_address a) in
              elim room [
                | inl back ↦ absurd (ground arith)
                | inr below ↦ let below' = rw same at below in omega (arith, raised, once, below')
              ]
          | inr off ↦
              let lowered =
                count_if-update_where_off (is_picked a) (λ r. r.id == t.id)
                  (λ (r : SoulboundToken). record r { picked = picked }) s.tokens
                  (All-imp (λ q. (q.id == t.id) ≡ true → q ≡ t)
                    (λ q.
                      (q.id == t.id) ≡ true
                      → is_picked a (record q { picked = picked }) ≡ true
                      → is_picked a q ≡ true)
                    s.tokens
                    (λ q only at counted.
                      let same : q ≡ t = only at in
                      ground (arith, ap (λ (x : SoulboundToken). x.receiver_address) same))
                    (count_if-IsOnly (λ r. r.id == t.id) t s.tokens (distinct t.id) mem
                      (ground arith))) in
              omega (arith, lowered, limited a)
        ]

    -- When keys are distinct: whatever is asked and whatever fails, no receiver has more than five
    -- picked tokens if none had before.
    pub picked_nft-WithinPicks :
        (signed : Signed) (id contract : String) (picked : Bool)
        → WithinPicks (picked_nft env signed id contract picked s).1
    picked_nft-WithinPicks signed id contract picked =
        elim (picked_nft-cases signed id contract picked) [
          | inl same ↦ rw same limited
          | inr (t, mem, room, e) ↦ rw e (λ a. written-WithinPicks picked t a mem room)
        ]
