-- ===== src/NameTag/Private/Reading.antt =====
-- Reading back a private name tag that was created.
use mathlib.Core.List.{Memᴰ}
use aura_explorer_api.Prelude.{
  String, false, string_eq, ◌<◌, ◌≡◌, inl, inr, refl, ap, sym, ◌∙◌, true, ◌==◌, nat_eq, Option,
  none, some, List, [], ◌∷◌, ◌++◌, arith, count_if, count_if-snoc, text_or_empty,
}
use aura_explorer_api.Exec.{Result, ok, bad_request, message}
use aura_explorer_api.Exec.Inversion.{bind-eq-ok, rethrow-eq-ok}
use aura_explorer_api.Repository.Rows.{
  Inserted-cases, IsOnly, IsOnly-eq, count_if-IsOnly, find_one_of_count,
}
use aura_explorer_api.Entities.{Explorer}
use aura_explorer_api.NameTag.{
  readable, TagError, Reply, stored, PrivateNameTag, Book, TagServices, Context, private_keyed,
}
use aura_explorer_api.NameTag.Private.{
  TagRequest, is_mine, validate, new_tag, unless_refused, store, create, create_name_tag,
  get_name_tags_detail,
}
use aura_explorer_api.Exec.Results.{map_ok}

mem_snoc : (t : List PrivateNameTag) (r : PrivateNameTag) → Memᴰ r (t ++ r ∷ [])
mem_snoc [] r = Memᴰ.head refl
mem_snoc (q ∷ t) r = Memᴰ.tail (mem_snoc t r)

module _ (env : TagServices) (ctx : Context) where
  -- The last row is the only one under its key.
  snoc-found :
      (r : PrivateNameTag) (t : List PrivateNameTag)
      → count_if (λ q. q.id == r.id) t ≡ 0
      → r.created_by ≡ ctx.user_id
      → env.private_tags.find_one (is_mine env ctx r.id) (t ++ r ∷ []) ≡ some r
  snoc-found r t fresh own =
      let there : 0 < count_if (is_mine env ctx r.id) (t ++ r ∷ []) =
        rw count_if-snoc (ground arith) in
      let (x, found) =
        find_one_of_count env.private_tags (is_mine env ctx r.id) (t ++ r ∷ []) there in
      let (mem, holds) = env.private_tags.find_one-some _ _ x found in
      let only : IsOnly (λ q. q.id == r.id) r (t ++ r ∷ []) =
        count_if-IsOnly (λ q. q.id == r.id) r (t ++ r ∷ []) (rw count_if-snoc (ground arith))
          (mem_snoc t r) (ground arith) in
      let same : x ≡ r = IsOnly-eq (λ q. q.id == r.id) r x (t ++ r ∷ []) only (mem, ground arith) in
      found ∙ ap some same

  module _ (req : TagRequest) (b b' : Book) (t : PrivateNameTag) (explorer : Explorer)
      (known : env.find_explorer ctx.chain_id ≡ some explorer) where
    -- The tag that was stored is the requested one, under a key that was not in use.
    store-found :
        store env ctx req explorer b ≡ (ok (stored t), b')
        → (t ≡ record (new_tag env ctx req explorer) { id = t.id })
          × (env.private_tags.find_one (is_mine env ctx t.id) b'.private_tags ≡ some t)
    store-found h =
        elim (Inserted-cases private_keyed (new_tag env ctx req explorer) b.private_tags _
          (env.private_tags.insert_lem (new_tag env ctx req explorer) b.private_tags)) [
            | inl (e, failed) ↦ let h' = rw failed at h in cc
            | inr (r, done, same, fresh) ↦
                let h' = rw done at h in
                let is_t : r ≡ t = ground arith in
                let rows : b.private_tags ++ r ∷ [] ≡ b'.private_tags =
                  ap (λ (o : Result (Reply PrivateNameTag) × Book). o.1.private_tags) h' in
                rw (← is_t, ← rows)
                  (
                    same,
                    snoc-found r b.private_tags fresh
                        (ground (arith, ap (λ (x : PrivateNameTag). x.created_by) same)),
                  )
          ]

    create-found :
        (error : Option TagError)
        → unless_refused env ctx error (store env ctx req explorer) b ≡ (ok (stored t), b')
        → (t ≡ record (new_tag env ctx req explorer) { id = t.id })
          × (env.private_tags.find_one (is_mine env ctx t.id) b'.private_tags ≡ some t)
    create-found none h = store-found h
    create-found (some x) h = cc

    -- A tag that was created is found as it was requested, with its text encrypted.
    pub create_name_tag-found :
        create_name_tag env ctx req b ≡ (ok (stored t), b')
        → (t ≡ record (new_tag env ctx req explorer) { id = t.id })
          × (env.private_tags.find_one (is_mine env ctx t.id) b'.private_tags ≡ some t)
    unfolding create_name_tag
    create_name_tag-found h =
        let h0 =
          rethrow-eq-ok (create env ctx req) (λ e. bad_request (message e)) b b' (stored t) h in
        let h1 = rw known at h0 in
        let (error, b1, checked, h2) =
          bind-eq-ok (λ s. (validate env ctx 0 req true s, s)) _ b b' (stored t) h1 in
        let here : b1 ≡ b = ap (λ (o : Result (Option TagError) × Book). o.1) (sym checked) in
        create-found error (rw here at h2)

    -- A tag that was created with a text that is not empty is read back as it was requested: its text is
    -- decrypted to the text of the request.
    pub create_name_tag-get_name_tags_detail :
        (text_or_empty req.name_tag == "") ≡ false
        → create_name_tag env ctx req b ≡ (ok (stored t), b')
        → get_name_tags_detail env ctx t.id b' ≡ (
          ok (record (new_tag env ctx req explorer) {
            id = t.id;
            name_tag = text_or_empty req.name_tag;
          }),
          b',
        )
    unfolding get_name_tags_detail
    create_name_tag-get_name_tags_detail given h =
        let (same, found) = create_name_tag-found h in
        let as_requested =
          λ (n : String). record (new_tag env ctx req explorer) { id = t.id; name_tag = n } in
        let read : readable env t ≡ ok (as_requested (text_or_empty req.name_tag)) =
          ap (readable env) same
          ∙ ap (map_ok as_requested) (env.decrypt-encrypt (text_or_empty req.name_tag) given) in
        rw found (ap (λ x. (x, b')) read)
