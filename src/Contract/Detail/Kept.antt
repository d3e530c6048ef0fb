-- ===== src/Contract/Detail/Kept.antt =====
-- A document that was fetched is kept: later requests answer with it.
use mathlib.Core.List.{Memᴰ}
use aura_explorer_api.Prelude.{
  subst, ◌≤◌, ◌≡◌, ◌⊎◌, inl, inr, refl, sym, ap, ◌∙◌, String, Bool, true, false, Bool-cases, Option,
  none, some, List, ◌∷◌, count_if, ◌==◌, nat_eq,
}
use aura_explorer_api.Exec.{continue, lift, Result, ok, err, Exception}
use aura_explorer_api.Repository.{update_where}
use aura_explorer_api.Repository.Rows.{Written-cases, count_if-IsOnly, IsOnly, IsOnly-eq}
use aura_explorer_api.Soulbound.{
  SoulboundToken, soulbound_keyed, Vault, SoulboundServices, is_token,
}
use aura_explorer_api.Contract.Detail.{
  Json, ContractRow, DetailServices, Nft, Detail, detail, has_document, with_ipfs,
  cw4973_media_info, fetched, fill_ipfs, answer, detail_of, get_cw4973_detail,
}
use aura_explorer_api.Repository.Members.{mem-update_where}

module _ (json : Json) (env : SoulboundServices) (asked : DetailServices json) where
  -- What filling in the document of a token does.
  abbrev pub Filled : SoulboundToken → Vault → Result SoulboundToken × Vault → Type 0
  Filled t s o =
      ((has_document t ≡ true) × (o ≡ (ok t, s)))
      ⊎ ((e : Exception) × (o ≡ (err e, s)))
      ⊎ ((has_document t ≡ false)
          × (o ≡ (
            ok (with_ipfs (fetched json env asked t) t),
            record s {
              tokens =
                  update_where (λ r. r.id == t.id) (with_ipfs (fetched json env asked t)) s.tokens;
            },
          )))

  pub fill_ipfs-Filled :
      (t : SoulboundToken) (s : Vault) → Filled t s (fill_ipfs json env asked t s)
  fill_ipfs-Filled t s = elim (Bool-cases (has_document t)) [
    | inl there ↦ inl (there, rw there refl)
    | inr missing ↦
        elim (Written-cases soulbound_keyed s.tokens _ _ (
          env.tokens.update_lem (λ r. r.id == t.id) (with_ipfs (fetched json env asked t))
            s.tokens)) [
              | inl (e, failed) ↦ inr (inl (e, rw (missing, failed) refl))
              | inr (n, done) ↦ inr (inr (missing, rw (missing, done) refl))
            ]
  ]

  -- A token that has a document is answered from the table.
  detail_of-settled :
      (c : ContractRow) (t : SoulboundToken) (s : Vault)
      → has_document t ≡ true
      → detail_of json env asked c (some t) s
        ≡ (answer json c (cw4973_media_info json env asked t), s)
  unfolding cw4973_media_info
  detail_of-settled c t s there = rw there refl

  -- An answer with a token comes from the token that was found, which had a document or got one.
  abbrev Answered : ContractRow → Option SoulboundToken → Vault → Nft json → Vault → Type 0
  Answered c found s n s' =
      (t : SoulboundToken) × (found ≡ some t)
      × ((s' ≡ s) × (answer json c (cw4973_media_info json env asked t) ≡ ok (detail n))
          ⊎ (document : String) × (s' ≡ record s {
            tokens = update_where (λ r. r.id == t.id) (with_ipfs document) s.tokens;
          })
            × (answer json c (with_ipfs document (cw4973_media_info json env asked t))
                ≡ ok (detail n)))

  -- What is made of the filled token.
  abbrev pub after_fill : ContractRow → Result SoulboundToken × Vault → Result (Detail json) × Vault
  after_fill c o = continue o.0 (λ filled. lift (answer json c filled)) o.1

  detail_of-Answered :
      (c : ContractRow) (found : Option SoulboundToken) (s s' : Vault) (n : Nft json)
      → detail_of json env asked c found s ≡ (ok (detail n), s')
      → Answered c found s n s'
  unfolding cw4973_media_info
  detail_of-Answered c none s s' n h = cc
  detail_of-Answered c (some t) s s' n h =
      let info = cw4973_media_info json env asked t in
      elim (fill_ipfs-Filled info s) [
        | inl (there, done) ↦
            let ran = sym (ap (after_fill c) done) ∙ h in
            (t, refl, inl (sym (ap (λ o. o.1) ran), ap (λ o. o.0) ran))
        | inr (inl (e, failed)) ↦ let ran = sym (ap (after_fill c) failed) ∙ h in cc
        | inr (inr (missing, done)) ↦
            let ran = sym (ap (after_fill c) done) ∙ h in
            (t, refl, inr (fetched json env asked info, sym (ap (λ o. o.1) ran), ap (λ o. o.0) ran))
      ]

module _ (json : Json) (env : SoulboundServices) (asked : DetailServices json) where
  -- The same services, when the gateway answers otherwise.
  abbrev pub later : (String → Option json.Value) → DetailServices json
  later gateway = record asked { fetch_ipfs = gateway }

  -- Of the rows after a write of documents the only one with the key is the one that was written.
  written_token :
      (w : SoulboundToken → Bool) (t t' : SoulboundToken) (document : String) (s : Vault)
      → ((q : SoulboundToken) → w (with_ipfs document q) ≡ w q)
      → IsOnly w t s.tokens
      → Memᴰ t' (update_where (λ r. r.id == t.id) (with_ipfs document) s.tokens)
      → w t' ≡ true
      → t' ≡ with_ipfs document t
  written_token w t t' document s keeps only there holds =
      let (q, here, made) =
        mem-update_where (λ r. r.id == t.id) (with_ipfs document) t' s.tokens there in
      elim made [
        | inl (on, e) ↦
            let of_q : w q ≡ true = sym (keeps q) ∙ (sym (ap w e) ∙ holds) in
            e ∙ ap (with_ipfs document) (IsOnly-eq w t q s.tokens only (here, of_q))
        | inr (off, e) ↦
            let same : q ≡ t = IsOnly-eq w t q s.tokens only (here, sym (ap w e) ∙ holds) in
            let on : (q.id == t.id) ≡ true = (nat_eq.beq_iff q.id t.id).1 (ap (λ r. r.id) same) in
            cc
      ]

  again :
      (gateway : String → Option json.Value) (s s' : Vault) (c : ContractRow) (id : String)
      (t' : SoulboundToken) (n : Nft json)
      → count_if (is_token id c.address) s.tokens ≤ 1
      → detail_of json env asked c (env.tokens.find_one (is_token id c.address) s.tokens) s
        ≡ (ok (detail n), s')
      → env.tokens.find_one (is_token id c.address) s'.tokens ≡ some t'
      → has_document t' ≡ true
      → detail_of json env (later gateway) c (some t') s' ≡ (ok (detail n), s')
  unfolding cw4973_media_info
  again gateway s s' c id t' n unique first_answer found there =
      let w = is_token id c.address in
      let (t, was, made) =
        detail_of-Answered json env asked c (env.tokens.find_one w s.tokens) s s' n first_answer in
      let settled = detail_of-settled json env (later gateway) c t' s' there in
      let (here, holds) = env.tokens.find_one-some w s'.tokens t' found in
      let only =
        count_if-IsOnly w t s.tokens unique (env.tokens.find_one-some w s.tokens t was).0
          (env.tokens.find_one-some w s.tokens t was).1 in
      let answer_for = λ (r : SoulboundToken). answer json c (cw4973_media_info json env asked r) in
      elim made [
        | inl (unchanged, answered) ↦
            let same : some t' ≡ some t =
              sym found ∙ (ap (λ v. env.tokens.find_one w v.tokens) unchanged ∙ was) in
            let e : t' ≡ t = cc in settled ∙ ap (λ r. (r, s')) (ap answer_for e ∙ answered)
        | inr (document, written, answered) ↦
            let e : t' ≡ with_ipfs document t =
              written_token w t t' document s (λ q. refl) only
                (subst (λ v. Memᴰ t' v.tokens) written here) holds in
            settled ∙ ap (λ r. (r, s')) (ap answer_for e ∙ answered)
      ]

  module _ (contract_address token_id : String) (s : Vault) where
    -- If a request for the detail of a token, of which the table has one at most, answers with the token
    -- and leaves it with a document, then the same request answers the same and changes nothing,
    -- whatever the gateway then answers.
    pub get_cw4973_detail_again :
        (gateway : String → Option json.Value) (s' : Vault) (c : ContractRow)
        (others : List ContractRow) (t : SoulboundToken) (n : Nft json)
        → asked.fetch_contracts contract_address ≡ some (c ∷ others)
        → count_if (is_token token_id c.address) s.tokens ≤ 1
        → get_cw4973_detail json env asked contract_address token_id s ≡ (ok (detail n), s')
        → env.tokens.find_one (is_token token_id c.address) s'.tokens ≡ some t
        → has_document t ≡ true
        → get_cw4973_detail json env (later gateway) contract_address token_id s'
          ≡ (ok (detail n), s')
    unfolding get_cw4973_detail
    get_cw4973_detail_again gateway s' c others t n known unique first_answer found there =
        rw (known, found)
          (again gateway s s' c token_id t n unique (rw known at first_answer) found there)
