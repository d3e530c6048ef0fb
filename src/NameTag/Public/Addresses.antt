-- ===== src/NameTag/Public/Addresses.antt =====
-- The addresses of public name tags: creating and updating in
-- src/components/public-name-tag/services/public-name-tag.service.ts.
use aura_explorer_api.Prelude.{
  ℕ, ◌≤◌, ◌≡◌, ◌⊎◌, inl, inr, refl, ap, String, true, none, some, [], ◌∷◌, ◌++◌, arith, count_if,
  count_if-snoc, string_eq, nat_eq, text_or_empty, Bool-cases, Option-cases, eq_iff,
}
use aura_explorer_api.Exec.{ok, Result-cases}
use aura_explorer_api.Repository.Rows.{Inserted-cases}
use aura_explorer_api.Entities.{Explorer}
use aura_explorer_api.NameTag.{PublicNameTag, Book, TagServices, Context, public_keyed}
use aura_explorer_api.NameTag.Public.{
  PublicRequest, has_address, validate_public_create, validate_public, new_public_tag, store_public,
  create_public_name_tag,
}

module _ (env : TagServices) (ctx : Context) (user_id : ℕ) (req : PublicRequest) (b : Book) where
  -- A creation leaves the table alone, or adds a tag for an address that had none.
  abbrev pub Published : Book → Type 0
  Published b' =
      (explorer : Explorer) × (r : PublicNameTag) × (count_if
          (has_address (text_or_empty req.address)) b.public_tags
        ≡ 0)
      × (r ≡ record (new_public_tag env ctx user_id req explorer) { id = r.id })
      × (b' ≡ record b { public_tags = b.public_tags ++ r ∷ [] })

  validate_public_create-none :
      (explorer : Explorer)
      → validate_public_create env ctx req explorer b ≡ ok none
      → env.public_tags.find_one (has_address (text_or_empty req.address)) b.public_tags ≡ none
  unfolding validate_public_create
  validate_public_create-none explorer h = ground arith

  validate_public-none :
      (explorer : Explorer)
      → env.find_explorer ctx.chain_id ≡ some explorer
      → validate_public env ctx req true b ≡ ok none
      → validate_public_create env ctx req explorer b ≡ ok none
  validate_public-none explorer found h = unfold validate_public in ground arith

  store_public-cases :
      validate_public env ctx req true b ≡ ok none
      → ((store_public env ctx user_id req b).1 ≡ b)
        ⊎ Published (store_public env ctx user_id req b).1
  store_public-cases passed = elim (Option-cases (env.find_explorer ctx.chain_id)) [
    | inl missing ↦ rw missing (inl refl)
    | inr (explorer, found) ↦
        let fresh =
          env.public_tags.find_one-none _ b.public_tags
            (validate_public_create-none explorer (validate_public-none explorer found passed)) in
        elim (Inserted-cases public_keyed (new_public_tag env ctx user_id req explorer)
          b.public_tags _
          (env.public_tags.insert_lem (new_public_tag env ctx user_id req explorer)
            b.public_tags)) [
              | inl (e, failed) ↦ rw (found, failed) (inl refl)
              | inr (r, done, same, _) ↦ rw (found, done) (inr (explorer, r, fresh, same, refl))
            ]
  ]

  create_public_name_tag-cases :
      ((create_public_name_tag env ctx user_id req b).1 ≡ b)
      ⊎ Published (create_public_name_tag env ctx user_id req b).1
  unfolding create_public_name_tag
  create_public_name_tag-cases = elim (Result-cases (validate_public env ctx req true b)) [
    | inr (e, failed) ↦ rw failed (inl refl)
    | inl (some x, refused) ↦ rw refused (inl refl)
    | inl (none, passed) ↦ rw passed (elim (Result-cases (store_public env ctx user_id req b).0) [
      | inl (r, done) ↦ rw done (store_public-cases passed)
      | inr (e, failed) ↦ rw failed (store_public-cases passed)
    ])
  ]

  -- Whatever is asked and whatever fails, a creation leaves at most one public tag for every
  -- address, if there was at most one before.
  pub create_public_name_tag_unique :
      ((a : String) → count_if (has_address a) b.public_tags ≤ 1)
      → (a : String)
      → count_if (has_address a) (create_public_name_tag env ctx user_id req b).1.public_tags ≤ 1
  create_public_name_tag_unique unique a = elim create_public_name_tag-cases [
    | inl same ↦ rw same (unique a)
    | inr (explorer, r, fresh, same, e) ↦
        let place : r.address ≡ text_or_empty req.address =
          ap (λ (t : PublicNameTag). t.address) same in
        rw (ap (λ (z : Book). z.public_tags) e, count_if-snoc)
          (elim (Bool-cases (has_address a r)) [
            | inr other ↦ rw other (omega (arith, unique a))
            | inl counted ↦
                let here : text_or_empty req.address ≡ a = ground (arith, eq_iff r.address a) in
                rw (counted, ← here) (omega (arith, fresh))
          ])
  ]
