-- ===== src/NameTag/Private/Listing/Found.antt =====
-- A private name tag that was created is found by its text.
use aura_explorer_api.Prelude.{
  ℕ, ◌≤◌, ◌<◌, String, ◌≡◌, inl, inr, ap, sym, ◌∙◌, Bool, true, false, ◌&&◌, ◌==◌, nat_eq,
  string_eq, eq_iff, arith, some, List, [], ◌∷◌, count_if, count_if-keep_if, Bool-cases,
  text_or_empty,
}
use aura_explorer_api.Exec.{Result, ok, bad_request, message}
use aura_explorer_api.Exec.Inversion.{rethrow-eq-ok}
use aura_explorer_api.Exec.Results.{and_then, and_then-eq-ok, map_ok-eq-ok, map_each, map_each-cons}
use aura_explorer_api.Repository.Rows.{count_if_pos_of_mem}
use aura_explorer_api.Repository.Builder.{Builder}
use aura_explorer_api.Repository.Builder.Pages.{page_whole}
use aura_explorer_api.Entities.{Explorer}
use aura_explorer_api.NameTag.{readable, stored, PrivateNameTag, Book, TagServices, Context}
use aura_explorer_api.NameTag.Private.{TagRequest, create_name_tag}
use aura_explorer_api.NameTag.Private.Reading.{create_name_tag-found}
use aura_explorer_api.NameTag.Private.Listing.{
  NameTags, is_listed_tag, listed_tags, with_texts, get_name_tags,
}

-- What a loop makes of the items of one kind is of another kind.
count_if-map_each_le :
    {A B : Type 0} (p : A → Bool) (q : B → Bool) (f : A → Result B) (xs : List A) (ys : List B)
    → ((x : A) (y : B) → p x ≡ true → f x ≡ ok y → q y ≡ true)
    → map_each f xs ≡ ok ys
    → count_if p xs ≤ count_if q ys
count_if-map_each_le p q f [] ys h e = omega arith
count_if-map_each_le p q f (x ∷ xs) ys h e =
    let (y, rest, made, later, whole) = map_each-cons f x xs ys e in
    let after = count_if-map_each_le p q f xs rest h later in
    rw whole (elim (Bool-cases (p x)) [
      | inl on ↦ rw (count_if, on, h x y on made) (omega (arith, after))
      | inr off ↦ rw (count_if, off) (ground arith)
    ])

-- A tag with a key and a text.
abbrev pub is_tag : ℕ → String → PrivateNameTag → Bool
is_tag id text t = t.id == id && t.name_tag == text

module _ (builder : Builder PrivateNameTag (Unit {0})) (env : TagServices) (ctx : Context) where
  readable-is_tag :
      (id : ℕ) (text : String) (t t' : PrivateNameTag)
      → (text == "") ≡ false
      → is_tag id (env.encrypt text) t ≡ true
      → readable env t ≡ ok t'
      → is_tag id text t' ≡ true
  readable-is_tag id text t t' given on read =
      let (n, opened, made) = map_ok-eq-ok _ (env.decrypt t.name_tag) t' read in
      let same : t.name_tag ≡ env.encrypt text =
        (eq_iff t.name_tag (env.encrypt text)).0 (ground arith) in
      let text_is = sym opened ∙ ap env.decrypt same ∙ env.decrypt-encrypt text given in
      let plain : n ≡ text = cc in rw (made, plain) (ground (arith, eq_iff text text))

  module _ (req : TagRequest) (explorer : Explorer) (b b' b'' : Book) (t : PrivateNameTag)
      (limit : ℕ) (l : NameTags) (known : env.find_explorer ctx.chain_id ≡ some explorer)
      (given : (text_or_empty req.name_tag == "") ≡ false)
      (created : create_name_tag env ctx req b ≡ (ok (stored t), b')) where
    created-is_listed_tag :
        (is_listed_tag builder env ctx req.name_tag t
          && is_tag t.id (env.encrypt (text_or_empty req.name_tag)) t)
        ≡ true
    created-is_listed_tag =
        let text = text_or_empty req.name_tag in
        let (same, _) = create_name_tag-found env ctx req b b' t explorer known created in
        let mine : t.created_by ≡ ctx.user_id = ap (λ (q : PrivateNameTag). q.created_by) same in
        let chain : t.explorer_id ≡ explorer.id = ap (λ (q : PrivateNameTag). q.explorer_id) same in
        let name : t.name_tag ≡ env.encrypt text = ap (λ (q : PrivateNameTag). q.name_tag) same in
        rw (known, name) (ground (arith, eq_iff (env.encrypt text) (env.encrypt text)))

    -- A private tag that was created with a text that is not empty is in the listing for this text, its
    -- text decrypted, if all that the listing counts fits its first page.
    pub create_name_tag-get_name_tags :
        0 < limit
        → get_name_tags builder env ctx req.name_tag limit 0 b' ≡ (ok l, b'')
        → l.count ≤ limit
        → 0 < count_if (is_tag t.id (text_or_empty req.name_tag)) l.tags
    unfolding get_name_tags
    create_name_tag-get_name_tags some_limit h fits =
        let text = text_or_empty req.name_tag in
        let w = is_listed_tag builder env ctx req.name_tag in
        let p = is_tag t.id (env.encrypt text) in
        let query = listed_tags builder env ctx req.name_tag limit 0 b'.private_tags in
        let done =
          rethrow-eq-ok
            (λ b. (
              and_then (listed_tags builder env ctx req.name_tag limit 0 b.private_tags)
                  (with_texts builder env ctx b),
              b,
            ))
            (λ e. bad_request (message e)) b' b'' l h in
        let (page, found, shown) =
          and_then-eq-ok query (with_texts builder env ctx b') l
            (ap (λ (o : Result NameTags × Book). o.0) done) in
        let (ts, read, made) = map_ok-eq-ok _ _ l shown in
        let tags : l.tags ≡ ts = ap (λ (o : NameTags). o.tags) made in
        let count : l.count ≡ page.count = ap (λ (o : NameTags). o.count) made in
        let whole =
          page_whole builder env.private_tags tt w limit b'.private_tags some_limit p page found
            (rw (← count) fits) in
        let (_, row) = create_name_tag-found env ctx req b b' t explorer known created in
        let there = (env.private_tags.find_one-some _ b'.private_tags t row).0 in
        let kept = count_if-keep_if w p b'.private_tags in
        let here =
          count_if_pos_of_mem (λ q. w q && p q) b'.private_tags t there created-is_listed_tag in
        let opened =
          count_if-map_each_le p (is_tag t.id text) (readable env) page.rows ts
            (λ x y on made. readable-is_tag t.id text x y given on made) read in
        rw tags (omega (arith, whole, kept, here, opened))
