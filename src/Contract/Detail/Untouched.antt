-- ===== src/Contract/Detail/Untouched.antt =====
-- What a request for the detail of a token leaves as it is.
use mathlib.Core.List.{Memᴰ}
use aura_explorer_api.Prelude.{
  All, ◌⊎◌, ◌≡◌, inl, inr, refl, sym, ap, subst, String, Bool, false, Bool-cases, Option, none,
  some, List, [], ◌∷◌, map, ◌==◌, nat_eq, Option-cases,
}
use aura_explorer_api.Repository.{update_where}
use aura_explorer_api.Repository.Members.{mem-update_where_off}
use aura_explorer_api.Repository.Rows.{IsOnly-eq, UniqueIds}
use aura_explorer_api.Soulbound.{
  SoulboundToken, soulbound_keyed, Vault, SoulboundServices, is_token,
}
use aura_explorer_api.Contract.Detail.{
  Json, ContractRow, DetailServices, has_document, with_ipfs, cw4973_media_info, detail_of,
  get_cw4973_detail,
}
use aura_explorer_api.Contract.Detail.Kept.{fill_ipfs-Filled, after_fill}

-- The tokens without their documents.
abbrev pub bare : List SoulboundToken → List SoulboundToken
bare tokens = map (with_ipfs "") tokens

bare-update_where :
    (w : SoulboundToken → Bool) (document : String) (ts : List SoulboundToken)
    → bare (update_where w (with_ipfs document) ts) ≡ bare ts
bare-update_where w document [] = refl
bare-update_where w document (t ∷ ts) = elim (Bool-cases (w t)) [
  | inl on ↦ rw (on, bare-update_where w document ts) refl
  | inr off ↦ rw (off, bare-update_where w document ts) refl
]

All-of : {A : Type 0} (P : A → Type 0) (xs : List A) → ((x : A) → Memᴰ x xs → P x) → All P xs
All-of P [] h = tt
All-of P (x ∷ xs) h = (h x (Memᴰ.head refl), All-of P xs (λ y m. h y (Memᴰ.tail m)))

-- No column but that of the document has changed, and no document that was there.
abbrev pub Keeps : Vault → Vault → Type 0
Keeps s s' =
    (bare s'.tokens ≡ bare s.tokens)
    × All (λ t. (has_document t ≡ false) ⊎ Memᴰ t s'.tokens) s.tokens

Keeps-refl : (s : Vault) → Keeps s s
Keeps-refl s =
    (refl, All-of (λ t. (has_document t ≡ false) ⊎ Memᴰ t s.tokens) s.tokens (λ t m. inr m))

Keeps-write :
    (s : Vault) (t : SoulboundToken) (document : String)
    → UniqueIds soulbound_keyed s.tokens
    → Memᴰ t s.tokens
    → has_document t ≡ false
    → Keeps s (record s { tokens = update_where (λ r. r.id == t.id) (with_ipfs document) s.tokens })
Keeps-write s t document unique here missing =
    let w : SoulboundToken → Bool = λ r. r.id == t.id in
    let after = update_where w (with_ipfs document) s.tokens in
    (
      bare-update_where w document s.tokens,
      All-of (λ r. (has_document r ≡ false) ⊎ Memᴰ r after) s.tokens
          (λ r m. elim (Bool-cases (w r)) [
            | inr off ↦ inr (mem-update_where_off w (with_ipfs document) r s.tokens m off)
            | inl on ↦
                let same : r ≡ t = IsOnly-eq w t r s.tokens (unique t here) (m, on) in
                inl (rw same missing)
          ]),
    )

module _ (json : Json) (env : SoulboundServices) (asked : DetailServices json) where
  detail_of-Keeps :
      (c : ContractRow) (found : Option SoulboundToken) (s : Vault)
      → UniqueIds soulbound_keyed s.tokens
      → ((t : SoulboundToken) → found ≡ some t → Memᴰ t s.tokens)
      → Keeps s (detail_of json env asked c found s).1
  unfolding cw4973_media_info
  detail_of-Keeps c none s unique here = Keeps-refl s
  detail_of-Keeps c (some t) s unique here =
      elim (fill_ipfs-Filled json env asked (cw4973_media_info json env asked t) s) [
        | inl (there, done) ↦
            subst (Keeps s) (sym (ap (λ o. (after_fill json env asked c o).1) done)) (Keeps-refl s)
        | inr (inl (e, failed)) ↦
            subst (Keeps s) (sym (ap (λ o. (after_fill json env asked c o).1) failed))
              (Keeps-refl s)
        | inr (inr (missing, done)) ↦
            subst (Keeps s) (sym (ap (λ o. (after_fill json env asked c o).1) done))
              (Keeps-write s t _ unique (here t refl) missing)
      ]

  -- Whatever is asked and whatever fails, a request for the detail of a token writes to no column but
  -- that of the document, and leaves every token that has a document as it is, if keys are unique.
  pub get_cw4973_detail-Keeps :
      (contract_address token_id : String) (s : Vault)
      → UniqueIds soulbound_keyed s.tokens
      → Keeps s (get_cw4973_detail json env asked contract_address token_id s).1
  unfolding get_cw4973_detail
  get_cw4973_detail-Keeps contract_address token_id s unique =
      elim (Option-cases (asked.fetch_contracts contract_address)) [
        | inl failed ↦ rw failed (Keeps-refl s)
        | inr ([], known) ↦ rw known (Keeps-refl s)
        | inr (c ∷ others, known) ↦ rw known (
            detail_of-Keeps c (env.tokens.find_one (is_token token_id c.address) s.tokens) s unique
              (λ t e. (env.tokens.find_one-some (is_token token_id c.address) s.tokens t e).0))
      ]
