-- ===== src/Notification/Processor/Unreadable.antt =====
-- What a private name tag whose text cannot be decrypted does to the notification jobs.
use mathlib.Core.List.{Memᴰ}
use aura_explorer_api.Prelude.{
  ◌<◌, ◌+◌, ◌≡◌, refl, ap, sym, ◌∙◌, subst, String, Bool, true, false, nat_eq, inl, inr, Option,
  some, List, [], ◌∷◌, arith, count_if, keep_if, text_or_empty,
}
use aura_explorer_api.Exec.{Exception, Result, ok, err, Exec, ◌>>=◌, Result-cases}
use aura_explorer_api.Exec.Results.{map_each}
use aura_explorer_api.Entities.{Explorer}
use aura_explorer_api.NameTag.{PrivateNameTag, Book, Context, readable, stored}
use aura_explorer_api.NameTag.Private.{TagRequest, create_name_tag}
use aura_explorer_api.NameTag.Private.Reading.{create_name_tag-found}
use aura_explorer_api.Notification.Groups.{Transfer}
use aura_explorer_api.Notification.Desk.{Desk, JobServices}
use aura_explorer_api.Notification.Processor.{
  Prepared, is_listed, is_private_on, tag_lists, pre_process_notification,
}

abbrev is_err : {A : Type 0} → Result A → Bool
is_err (ok a) = false
is_err (err e) = true

module _ {A B : Type 0} (f : A → Result B) where
  map_each-fails_later :
      (x : A) (xs : List A) (y : B)
      → f x ≡ ok y
      → (e : Exception) × (map_each f xs ≡ err e)
      → (e : Exception) × (map_each f (x ∷ xs) ≡ err e)
  map_each-fails_later x xs y done (e, failed) = (e, rw (done, failed) refl)

  map_each-fails :
      (xs : List A)
      → 0 < count_if (λ x. is_err (f x)) xs
      → (e : Exception) × (map_each f xs ≡ err e)
  map_each-fails [] h = absurd (omega arith)
  map_each-fails (x ∷ xs) h = elim (Result-cases (f x)) [
    | inr (e, failed) ↦ (e, rw failed refl)
    | inl (y, done) ↦
        let h' : 0 < 0 + count_if (λ x. is_err (f x)) xs = rw done at h in
        map_each-fails_later x xs y done (map_each-fails xs (omega arith))
  ]

count_if-keep_if_pos :
    {A : Type 0} (p w : A → Bool) (x : A) (xs : List A)
    → Memᴰ x xs
    → p x ≡ true
    → w x ≡ true
    → 0 < count_if p (keep_if w xs)
count_if-keep_if_pos p w x [] m holds on = elim m [ ]
count_if-keep_if_pos p w x (y ∷ xs) (Memᴰ.head e) holds on =
    let here : p y ≡ true = rw (← e) holds in
    let kept : w y ≡ true = rw (← e) on in rw (keep_if, kept, count_if, here) (omega arith)
count_if-keep_if_pos p w x (y ∷ xs) (Memᴰ.tail m) holds on =
    let later = count_if-keep_if_pos p w x xs m holds on in ground arith

module _ (env : JobServices) (explorer : Explorer) where
  tag_lists-fails :
      (addresses : List (Option String)) (book : Book) (t : PrivateNameTag) (e : Exception)
      → Memᴰ t book.private_tags
      → is_private_on env explorer addresses t ≡ true
      → env.tags.decrypt t.name_tag ≡ err e
      → (e' : Exception) × (tag_lists env explorer addresses book ≡ err e')
  tag_lists-fails addresses book t e there on failed =
      let p : PrivateNameTag → Bool = λ q. is_err (readable env.tags q) in
      let w = is_private_on env explorer addresses in
      let unread : p t ≡ true = rw failed refl in
      let kept = count_if-keep_if_pos p w t book.private_tags there unread on in
      let found =
        subst (λ n. 0 < n) (sym (env.tags.private_tags.count-find w p book.private_tags)) kept in
      let (e', stopped) = map_each-fails (readable env.tags) _ found in (e', rw stopped refl)

  module _ {A : Type 0} (ts : List (Transfer A)) (addresses : List (Option String))
      (f : Prepared A → Exec Desk (Unit {0})) where
    pre_process_notification-fails :
        (s : Desk) (t : PrivateNameTag) (e : Exception)
        → Memᴰ t s.book.private_tags
        → is_private_on env explorer addresses t ≡ true
        → env.tags.decrypt t.name_tag ≡ err e
        → (e' : Exception) × ((pre_process_notification env explorer ts addresses >>= f) s
            ≡ (err e', s))
    unfolding pre_process_notification
    pre_process_notification-fails s t e there on failed =
        let (e', stopped) = tag_lists-fails addresses s.book t e there on failed in
        (e', rw stopped refl)

    -- Once a user has created a private tag with an empty text on the chain, whatever a job would do
    -- after the preparation for addresses with that of the tag, it fails and does nothing: nobody is
    -- notified, and no sync point moves.
    pub create_name_tag_empty-stalls :
        (ctx : Context) (req : TagRequest) (b : Book) (t : PrivateNameTag) (s : Desk)
        → env.tags.find_explorer ctx.chain_id ≡ some explorer
        → text_or_empty req.name_tag ≡ ""
        → create_name_tag env.tags ctx req b ≡ (ok (stored t), s.book)
        → is_listed env explorer addresses (text_or_empty req.address) ≡ true
        → (e : Exception) × ((pre_process_notification env explorer ts addresses >>= f) s
            ≡ (err e, s))
    create_name_tag_empty-stalls ctx req b t s known empty created listed =
        let (same, found) =
          create_name_tag-found env.tags ctx req b s.book t explorer known created in
        let there = (env.tags.private_tags.find_one-some _ s.book.private_tags t found).0 in
        let (e, unread) = env.tags.decrypt-encrypt_empty in
        let text : t.name_tag ≡ env.tags.encrypt "" =
          ap (λ (q : PrivateNameTag). q.name_tag) same ∙ ap env.tags.encrypt empty in
        let at : t.address ≡ text_or_empty req.address =
          ap (λ (q : PrivateNameTag). q.address) same in
        let chain : t.explorer_id ≡ explorer.id = ap (λ (q : PrivateNameTag). q.explorer_id) same in
        let on : is_private_on env explorer addresses t ≡ true =
          rw (at, listed) ((nat_eq.beq_iff t.explorer_id explorer.id).1 chain) in
        pre_process_notification-fails s t e there on (ap env.tags.decrypt text ∙ unread)
