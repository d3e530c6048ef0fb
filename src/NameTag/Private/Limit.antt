-- ===== src/NameTag/Private/Limit.antt =====
-- What creating a private name tag does to the table, and the bounds that it keeps.
use aura_explorer_api.Prelude.{
  ℕ, ◌≤◌, ◌<◌, ◌≡◌, ◌⊎◌, inl, inr, refl, ap, String, true, nat_eq, string_eq, none, some, [], ◌∷◌,
  ◌++◌, arith, truthy, text_or_empty, count_if, count_if-snoc, Bool-cases, Option-cases, eq_iff,
}
use aura_explorer_api.Exec.{ok, Result-cases}
use aura_explorer_api.Repository.Rows.{Inserted-cases}
use aura_explorer_api.Entities.{Explorer}
use aura_explorer_api.NameTag.{PrivateNameTag, Book, TagServices, Context, private_keyed}
use aura_explorer_api.NameTag.Address.{verify}
use aura_explorer_api.NameTag.Private.{
  TagRequest, is_counted, is_at, is_named, validate_create, validate_name, validate, new_tag, store,
  create, create_name_tag,
}

module _ (env : TagServices) (ctx : Context) (req : TagRequest) (b : Book) where
  -- What `validate` has established when it lets a creation through.
  abbrev pub Validated : Explorer → Type 0
  Validated explorer =
      (truthy req.address ≡ true)
      × (verify env req.address req.evm_address req.type explorer ≡ ok none)
      × (count_if (is_counted ctx.user_id explorer.id) b.private_tags
          < env.limited_private_name_tag)
      × (count_if (is_at ctx.user_id (text_or_empty req.address)) b.private_tags ≡ 0)
      × (count_if (is_named 0 ctx.user_id explorer.id (env.encrypt (text_or_empty req.name_tag)))
            b.private_tags
          ≡ 0)

  validate_create-none :
      (explorer : Explorer)
      → validate_create env ctx req explorer b ≡ ok none
      → (truthy req.address ≡ true)
        × (verify env req.address req.evm_address req.type explorer ≡ ok none)
        × (env.private_tags.count (is_counted ctx.user_id explorer.id) b.private_tags
            < env.limited_private_name_tag)
        × (env.private_tags.find_one (is_at ctx.user_id (text_or_empty req.address)) b.private_tags
            ≡ none)
  unfolding validate_create
  validate_create-none explorer h = ground arith

  validate_name-none :
      (explorer : Explorer)
      → validate_name env ctx 0 req explorer b ≡ none
      → env.private_tags.find_one
          (is_named 0 ctx.user_id explorer.id (env.encrypt (text_or_empty req.name_tag)))
          b.private_tags
        ≡ none
  unfolding validate_name
  validate_name-none explorer h = ground arith

  validate-none :
      (explorer : Explorer)
      → env.find_explorer ctx.chain_id ≡ some explorer
      → validate env ctx 0 req true b ≡ ok none
      → (validate_create env ctx req explorer b ≡ ok none)
        × (validate_name env ctx 0 req explorer b ≡ none)
  validate-none explorer found h = unfold validate in ground arith

  validate-Validated :
      (explorer : Explorer)
      → env.find_explorer ctx.chain_id ≡ some explorer
      → validate env ctx 0 req true b ≡ ok none
      → Validated explorer
  validate-Validated explorer found h =
      let (created, named) = validate-none explorer found h in
      let (given, verified, below, fresh) = validate_create-none explorer created in
      (
        given,
        verified,
        omega
            (arith, env.private_tags.count_lem (is_counted ctx.user_id explorer.id) b.private_tags),
        env.private_tags.find_one-none _ b.private_tags fresh,
        env.private_tags.find_one-none _ b.private_tags (validate_name-none explorer named),
      )

  -- A creation leaves the table alone, or adds the requested tag to a table that had room for it.
  abbrev pub Created : Book → Type 0
  Created b' =
      (explorer : Explorer) × (r : PrivateNameTag) × Validated explorer
      × (r ≡ record (new_tag env ctx req explorer) { id = r.id })
      × (b' ≡ record b { private_tags = b.private_tags ++ r ∷ [] })

  store-cases :
      (explorer : Explorer)
      → Validated explorer
      → ((store env ctx req explorer b).1 ≡ b) ⊎ Created (store env ctx req explorer b).1
  store-cases explorer v =
      elim (Inserted-cases private_keyed (new_tag env ctx req explorer) b.private_tags _
        (env.private_tags.insert_lem (new_tag env ctx req explorer) b.private_tags)) [
          | inl (e, failed) ↦ rw failed (inl refl)
          | inr (r, done, same, _) ↦ rw done (inr (explorer, r, v, same, refl))
        ]

  create-cases : ((create env ctx req b).1 ≡ b) ⊎ Created (create env ctx req b).1
  create-cases = elim (Option-cases (env.find_explorer ctx.chain_id)) [
    | inl missing ↦ rw missing (inl refl)
    | inr (explorer, found) ↦ elim (Result-cases (validate env ctx 0 req true b)) [
      | inr (e, failed) ↦ rw (found, failed) (inl refl)
      | inl (some x, answered) ↦ rw (found, answered) (inl refl)
      | inl (none, passed) ↦
          rw (found, passed) (store-cases explorer (validate-Validated explorer found passed))
    ]
  ]

  pub create_name_tag-cases :
      ((create_name_tag env ctx req b).1 ≡ b) ⊎ Created (create_name_tag env ctx req b).1
  unfolding create_name_tag
  create_name_tag-cases = elim (Result-cases (create env ctx req b).0) [
    | inl (r, done) ↦ rw done create-cases
    | inr (e, failed) ↦ rw failed create-cases
  ]

module _ (env : TagServices) where
  -- No user has more tags on a chain than the limit, two tags for one address, or two tags with one
  -- text on a chain.
  pub record IsValid (b : Book) : Type 0 where
    pub limited :
        (i explorer : ℕ)
        → count_if (is_counted i explorer) b.private_tags ≤ env.limited_private_name_tag
    pub one_for_address : (i : ℕ) (a : String) → count_if (is_at i a) b.private_tags ≤ 1
    pub one_for_text :
        (i explorer : ℕ) (c : String) → count_if (is_named 0 i explorer c) b.private_tags ≤ 1

  module _ (ctx : Context) (req : TagRequest) (b : Book) (valid : IsValid b) where
    -- A new row counts once more where it counts, and nowhere did a row count before that excludes it.
    module _ (explorer : Explorer) (r : PrivateNameTag) (v : Validated env ctx req b explorer)
        (same : r ≡ record (new_tag env ctx req explorer) { id = r.id }) where
      limited-snoc :
          (i e : ℕ)
          → count_if (is_counted i e) (b.private_tags ++ r ∷ []) ≤ env.limited_private_name_tag
      limited-snoc i e = elim (Bool-cases (is_counted i e r)) [
        | inr other ↦ rw (count_if-snoc, other) (omega (arith, valid.limited i e))
        | inl counted ↦
            let owner : ctx.user_id ≡ i =
              ground (arith, ap (λ (t : PrivateNameTag). t.created_by) same) in
            let chain : explorer.id ≡ e =
              ground (arith, ap (λ (t : PrivateNameTag). t.explorer_id) same) in
            rw (count_if-snoc, counted, ← owner, ← chain) (omega (arith, v.2))
      ]

      one_for_address-snoc :
          (i : ℕ) (a : String) → count_if (is_at i a) (b.private_tags ++ r ∷ []) ≤ 1
      one_for_address-snoc i a = elim (Bool-cases (is_at i a r)) [
        | inr other ↦ rw (count_if-snoc, other) (omega (arith, valid.one_for_address i a))
        | inl counted ↦
            let owner : ctx.user_id ≡ i =
              ground (arith, ap (λ (t : PrivateNameTag). t.created_by) same) in
            let place : text_or_empty req.address ≡ a =
              ground (arith, eq_iff r.address a, ap (λ (t : PrivateNameTag). t.address) same) in
            rw (count_if-snoc, counted, ← owner, ← place) (omega (arith, v.3))
      ]

      one_for_text-snoc :
          (i e : ℕ) (c : String) → count_if (is_named 0 i e c) (b.private_tags ++ r ∷ []) ≤ 1
      one_for_text-snoc i e c = elim (Bool-cases (is_named 0 i e c r)) [
        | inr other ↦ rw (count_if-snoc, other) (omega (arith, valid.one_for_text i e c))
        | inl counted ↦
            let owner : ctx.user_id ≡ i =
              ground (arith, ap (λ (t : PrivateNameTag). t.created_by) same) in
            let chain : explorer.id ≡ e =
              ground (arith, ap (λ (t : PrivateNameTag). t.explorer_id) same) in
            let text : env.encrypt (text_or_empty req.name_tag) ≡ c =
              ground (arith, eq_iff r.name_tag c, ap (λ (t : PrivateNameTag). t.name_tag) same) in
            rw (count_if-snoc, counted, ← owner, ← chain, ← text) (omega (arith, v.4))
      ]

    -- Whatever is asked and whatever fails, a creation keeps the limit and the uniqueness of
    -- addresses and texts, if they held before.
    pub create_name_tag-IsValid : IsValid (create_name_tag env ctx req b).1
    create_name_tag-IsValid = elim (create_name_tag-cases env ctx req b) [
      | inl same ↦ rw same valid
      | inr (explorer, r, v, same, e) ↦ rw e (record {
        limited = limited-snoc explorer r v same;
        one_for_address = one_for_address-snoc explorer r v same;
        one_for_text = one_for_text-snoc explorer r v same;
      })
    ]
