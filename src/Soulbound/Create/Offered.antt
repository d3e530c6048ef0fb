-- ===== src/Soulbound/Create/Offered.antt =====
-- What `create` of src/components/soulbound-token/services/soulbound-token.service.ts stores.
use aura_explorer_api.Prelude.{
  ◌≡◌, ◌∙◌, ap, sym, String, Bool, true, false, ◌==◌, string_eq, Option, none, some, List, [], ◌∷◌,
  ◌++◌, Bool-cases, Option-cases, ℕ, refl, truthy, text_or_empty, if◌then◌else◌, arith, inl, inr,
}
use aura_explorer_api.Exec.{
  Exception, bad_request, unauthorized, not_found, entity_not_found, dup_entry, failure, Result, ok,
  Result-cases,
}
use aura_explorer_api.Repository.Rows.{Inserted-cases}
use aura_explorer_api.Soulbound.{
  SoulboundToken, soulbound_keyed, Vault, SoulboundServices, Cw4973Contract, Document, Answer,
  created, trim, unclaim,
}
use aura_explorer_api.Soulbound.Service.{verify_signature}
use aura_explorer_api.Soulbound.Create.{
  CreateToken, new_token, save_error, save_token, if_checked, is_untyped, create_document,
  create_in, create, transform, create_token_id,
}

module _ (env : SoulboundServices) (req : CreateToken) (s s' : Vault) (r : SoulboundToken) where
  -- What is shown of a document: its animation, or else its image.
  abbrev pub shown_url : Document → Option String
  shown_url d = if truthy d.animation_url then d.animation_url else d.image

  -- The token of a contract and a document.
  abbrev pub offered_token : Cw4973Contract → Document → ℕ → SoulboundToken
  offered_token c d id = record {
    id = id;
    contract_address = c.address;
    token_id = create_token_id env (trim req.receiver_address) c.minter req.token_uri;
    token_uri = req.token_uri;
    token_img = d.image;
    img_type =
        if truthy (shown_url d)
        then env.content_type (transform env (text_or_empty (shown_url d)))
        else none;
    token_name = d.name;
    animation_url = d.animation_url;
    receiver_address = trim req.receiver_address;
    status = unclaim;
    signature = req.signed.signature;
    pub_key = req.signed.pub_key;
    picked = false;
    is_notify = true;
    ipfs = some (env.stringify d);
  }

  -- The document at the URI has an image, what is shown of it has a type where there is a URL, and
  -- the token of the contract and the document was added.
  pub record Offered (c : Cw4973Contract) : Type 0 where
    pub document : Document
    pub fetched : env.fetch_document (transform env req.token_uri) ≡ some document
    pub with_image : document.has_image ≡ true
    pub with_type : truthy (shown_url document) ≡ true → truthy r.img_type ≡ true
    pub made : r ≡ offered_token c document r.id
    pub added : s' ≡ record s { tokens = s.tokens ++ r ∷ [] }

  untyped-not :
      (d : Document)
      → is_untyped env req d ≡ false
      → truthy (shown_url d) ≡ true
      → truthy (
          if truthy (shown_url d)
          then env.content_type (transform env (text_or_empty (shown_url d)))
          else none)
        ≡ true
  untyped-not d typed shown = ground arith

  save_error-not : (e : Exception) → save_error env req e s ≡ (ok (created r), s') → ⊥
  save_error-not (bad_request m) h = cc
  save_error-not (unauthorized m) h = cc
  save_error-not (not_found m) h = cc
  save_error-not (entity_not_found m) h = cc
  save_error-not (dup_entry m) h = cc
  save_error-not (failure m) h = cc

  save_token-Offered :
      (c : Cw4973Contract) (d : Document)
      → env.fetch_document (transform env req.token_uri) ≡ some d
      → d.has_image ≡ true
      → is_untyped env req d ≡ false
      → save_token env req (new_token env req c d) s ≡ (ok (created r), s')
      → Offered c
  save_token-Offered c d fetched has_image typed h =
      let new = new_token env req c d in
      elim (Inserted-cases soulbound_keyed new s.tokens _ (env.tokens.insert_lem new s.tokens)) [
        | inl (e, failed) ↦ absurd (save_error-not e (rw failed at h))
        | inr (x, done, same, _) ↦
            let h' = rw done at h in
            let it : x ≡ r = cc in
            let state = ap (λ (o : Result Answer × Vault). o.1) h' in
            let made : r ≡ offered_token c d r.id = rw (← it) same in
            let type = ap (λ (t : SoulboundToken). t.img_type) made in
            record {
              document = d;
              fetched = fetched;
              with_image = has_image;
              with_type = λ shown. rw type (untyped-not d typed shown);
              made = made;
              added = rw (← it) (sym state);
            }
      ]

  if_checked-Offered :
      (there untyped : Bool) (c : Cw4973Contract) (d : Document)
      → env.fetch_document (transform env req.token_uri) ≡ some d
      → d.has_image ≡ there
      → is_untyped env req d ≡ untyped
      → if_checked env req there untyped (new_token env req c d) s ≡ (ok (created r), s')
      → Offered c
  if_checked-Offered false untyped c d fetched image test h = cc
  if_checked-Offered true true c d fetched image test h = cc
  if_checked-Offered true false c d fetched image test h =
      save_token-Offered c d fetched image test h

  create_document-Offered :
      (c : Cw4973Contract) (o : Option Document)
      → env.fetch_document (transform env req.token_uri) ≡ o
      → create_document env req c o s ≡ (ok (created r), s')
      → Offered c
  create_document-Offered c none fetched h = cc
  create_document-Offered c (some d) fetched h =
      if_checked-Offered d.has_image (is_untyped env req d) c d fetched refl refl h

  create_in-Offered :
      (contracts : List Cw4973Contract)
      → create_in env req contracts s ≡ (ok (created r), s')
      → (c : Cw4973Contract) × (cs : List Cw4973Contract) × (contracts ≡ c ∷ cs) × Offered c
  create_in-Offered [] h = cc
  create_in-Offered (c ∷ cs) h = (
    c,
    cs,
    refl,
    create_document-Offered c (env.fetch_document (transform env req.token_uri)) refl h,
  )

  -- A creation that answers with a token was signed by the minter of a contract at the given address
  -- and is for another receiver than the signer. The document at the token's URI has an image, and
  -- its animation, or else its image, has a type where it has a URL. The token is added, unclaimed
  -- and to be announced, with the columns of the request, the contract and the document; nothing else
  -- is changed.
  pub create-Offered :
      create env req s ≡ (ok (created r), s')
      → (address : String) × (verify_signature env req.signed ≡ some address)
        × ((trim req.receiver_address == address) ≡ false)
        × (c : Cw4973Contract) × (cs : List Cw4973Contract) × (env.contracts_of_at address
              req.contract_address
            ≡ ok (c ∷ cs))
        × Offered c
  unfolding create
  create-Offered h = elim (Option-cases (verify_signature env req.signed)) [
    | inl refused ↦ let h' = rw refused at h in cc
    | inr (address, signer) ↦ elim (Bool-cases (trim req.receiver_address == address)) [
      | inl self ↦ let h' = rw (signer, self) at h in cc
      | inr another ↦ elim (Result-cases (env.contracts_of_at address req.contract_address)) [
        | inr (e, failed) ↦ let h' = rw (signer, another, failed) at h in cc
        | inl (contracts, found) ↦
            let (c, cs, same, offered) =
              create_in-Offered contracts (rw (signer, another, found) at h) in
            (address, signer, another, c, cs, found ∙ ap ok same, offered)
      ]
    ]
  ]
