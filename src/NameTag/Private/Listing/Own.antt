-- ===== src/NameTag/Private/Listing/Own.antt =====
-- The listing of private name tags shows the user's own, and those that were looked for.
use aura_explorer_api.Prelude.{
  ℕ, String, ◌≡◌, ◌⊎◌, inl, inr, refl, ap, sym, ◌∙◌, true, false, ◌||◌, ◌==◌, nat_eq, string_eq,
  eq_iff, arith, Option, none, some, List, [], ◌∷◌, All, Bool-cases, is_value, truthy,
  text_or_empty,
}
use aura_explorer_api.Exec.{Result, ok, bad_request, message}
use aura_explorer_api.Exec.Inversion.{rethrow-eq-ok}
use aura_explorer_api.Exec.Results.{and_then, and_then-eq-ok, map_ok-eq-ok, map_each, map_each-cons}
use aura_explorer_api.Repository.Builder.{Builder}
use aura_explorer_api.Repository.Builder.Pages.{page-All}
use aura_explorer_api.Entities.{Explorer}
use aura_explorer_api.NameTag.{readable, PrivateNameTag, Book, TagServices, Context}
use aura_explorer_api.NameTag.Private.Listing.{
  NameTags, is_on_chain, is_listed_tag, listed_tags, with_texts, get_name_tags,
}

All-map_each_of :
    {A B : Type 0} (P : A → Type 0) (Q : B → Type 0) (f : A → Result B) (xs : List A) (ys : List B)
    → ((x : A) (y : B) → P x → f x ≡ ok y → Q y)
    → All P xs
    → map_each f xs ≡ ok ys
    → All Q ys
All-map_each_of P Q f [] ys h all e = let same : [] ≡ ys = cc in rw (← same) tt
All-map_each_of P Q f (x ∷ xs) ys h (here, all) e =
    let (y, rest, made, later, whole) = map_each-cons f x xs ys e in
    rw whole (h x y here made, All-map_each_of P Q f xs rest h all later)

-- The text of a request, in one of an address of the tag or in its text.
abbrev pub Matches : Option String → PrivateNameTag → Type 0
Matches keyword t =
    (truthy keyword ≡ false)
    ⊎ (t.address ≡ text_or_empty keyword)
    ⊎ (t.evm_address ≡ some (text_or_empty keyword))
    ⊎ (t.name_tag ≡ text_or_empty keyword)

abbrev pub IsOwn : ℕ → Option Explorer → Option String → PrivateNameTag → Type 0
IsOwn user chain keyword t =
    (t.created_by ≡ user) × (is_on_chain chain t.explorer_id ≡ true) × Matches keyword t

module _ (builder : Builder PrivateNameTag (Unit {0})) (env : TagServices) (ctx : Context) where
  -- What a keyword selects is there to be seen, in the text once it is decrypted.
  selected-Matches :
      (k n : String) (t : PrivateNameTag)
      → (k == "") ≡ false
      → (t.address == k || is_value t.evm_address k || t.name_tag == env.encrypt k) ≡ true
      → env.decrypt t.name_tag ≡ ok n
      → Matches (some k) (record t { name_tag = n })
  selected-Matches k n t given on opened = elim (Bool-cases (t.address == k)) [
    | inl at ↦ inr (inl ((eq_iff t.address k).0 at))
    | inr elsewhere ↦ elim (Bool-cases (t.name_tag == env.encrypt k)) [
      | inl named ↦
          let same : t.name_tag ≡ env.encrypt k = (eq_iff t.name_tag (env.encrypt k)).0 named in
          let text = sym opened ∙ ap env.decrypt same ∙ env.decrypt-encrypt k given in
          let plain : n ≡ k = cc in inr (inr (inr plain))
      | inr unnamed ↦ inr (inr (inl (evm_is t.evm_address k (ground arith))))
    ]
  ]
    where
      evm_is : (o : Option String) (k : String) → is_value o k ≡ true → o ≡ some k
      evm_is none k h = cc
      evm_is (some a) k h = ap some ((eq_iff a k).0 h)

  listed-Matches :
      (keyword : Option String) (n : String) (t : PrivateNameTag)
      → is_listed_tag builder env ctx keyword t ≡ true
      → env.decrypt t.name_tag ≡ ok n
      → Matches keyword (record t { name_tag = n })
  listed-Matches none n t on opened = inl refl
  listed-Matches (some k) n t on opened = elim (Bool-cases (k == "")) [
    | inl empty ↦ inl (rw empty refl)
    | inr given ↦ let on' = rw given at on in selected-Matches k n t given (ground arith) opened
  ]

  readable-IsOwn :
      (keyword : Option String) (t t' : PrivateNameTag)
      → is_listed_tag builder env ctx keyword t ≡ true
      → readable env t ≡ ok t'
      → IsOwn ctx.user_id (env.find_explorer ctx.chain_id) keyword t'
  readable-IsOwn keyword t t' on read =
      let (n, opened, made) = map_ok-eq-ok _ (env.decrypt t.name_tag) t' read in
      let mine : t.created_by ≡ ctx.user_id =
        (nat_eq.beq_iff t.created_by ctx.user_id).0 (ground arith) in
      let chain : is_on_chain (env.find_explorer ctx.chain_id) t.explorer_id ≡ true =
        ground arith in
      rw made (mine, chain, listed-Matches keyword n t on opened)

  -- Every tag that a listing shows is the user's own, on the chain of the request, and has
  -- the keyword, if one is given, for its
  -- address, its EVM address or its decrypted text.
  pub get_name_tags-IsOwn :
      (keyword : Option String) (limit offset : ℕ) (b b' : Book) (l : NameTags)
      → get_name_tags builder env ctx keyword limit offset b ≡ (ok l, b')
      → All (IsOwn ctx.user_id (env.find_explorer ctx.chain_id) keyword) l.tags
  unfolding get_name_tags
  get_name_tags-IsOwn keyword limit offset b b' l h =
      let query = listed_tags builder env ctx keyword limit offset b.private_tags in
      let done =
        rethrow-eq-ok
          (λ b. (
            and_then (listed_tags builder env ctx keyword limit offset b.private_tags)
                (with_texts builder env ctx b),
            b,
          ))
          (λ e. bad_request (message e)) b b' l h in
      let (page, found, shown) =
        and_then-eq-ok query (with_texts builder env ctx b) l
          (ap (λ (o : Result NameTags × Book). o.0) done) in
      let (ts, read, made) = map_ok-eq-ok _ _ l shown in
      let tags : l.tags ≡ ts = ap (λ (o : NameTags). o.tags) made in
      let selected =
        page-All builder env.private_tags tt (is_listed_tag builder env ctx keyword) limit
          b.private_tags offset page found in
      rw tags
        (All-map_each_of _ _ (readable env) page.rows ts (readable-IsOwn keyword) selected read)
