-- ===== src/NameTag/Private/Ownership.antt =====
-- A user changes and deletes no tags but his own.
use aura_explorer_api.Prelude.{
  ℕ, ◌≡◌, ◌≢◌, ◌⊎◌, inl, inr, refl, ap, true, false, ◌==◌, nat_eq, none, some, arith, keep_if, All,
  Option-cases,
}
use aura_explorer_api.Exec.{Result-cases}
use aura_explorer_api.Repository.{update_where, delete_where}
use aura_explorer_api.Repository.Rows.{
  UniqueIds, Written-cases, keep_if-update_where, keep_if-delete_where, All-imp,
}
use aura_explorer_api.NameTag.{PrivateNameTag, Book, TagServices, Context, private_keyed}
use aura_explorer_api.NameTag.Private.{
  TagRequest, is_owned, is_mine, validate, updated_tag, update_found, update_name_tag,
  delete_name_tag,
}

module _ (env : TagServices) (ctx : Context) (id : ℕ) (b : Book) where
  -- The tag with the key `id` is the user's own.
  abbrev pub Mine : PrivateNameTag → Type 0
  Mine t = env.private_tags.find_one (is_mine env ctx id) b.private_tags ≡ some t

  abbrev pub Updated : TagRequest → Book → Type 0
  Updated req b' =
      (t : PrivateNameTag) × Mine t
      × (b' ≡ record b {
        private_tags =
            update_where (λ q. q.id == id) (λ _. updated_tag env ctx req t) b.private_tags;
      })

  abbrev pub Deleted : Book → Type 0
  Deleted b' =
      (t : PrivateNameTag) × Mine t
      × (b' ≡ record b { private_tags = delete_where (λ q. q.id == id) b.private_tags })

  update_found-cases :
      (req : TagRequest)
      → ((update_found env ctx id req b).1 ≡ b) ⊎ Updated req (update_found env ctx id req b).1
  update_found-cases req =
      elim (Option-cases (env.private_tags.find_one (is_mine env ctx id) b.private_tags)) [
        | inl missing ↦ rw missing (inl refl)
        | inr (t, found) ↦
            elim (Written-cases private_keyed b.private_tags _ _ (
              env.private_tags.update_lem (λ q. q.id == id) (λ _. updated_tag env ctx req t)
                b.private_tags)) [
                  | inl (e, failed) ↦ rw (found, failed) (inl refl)
                  | inr (n, done) ↦ rw (found, done) (inr (t, refl, refl))
                ]
      ]

  update_name_tag-cases :
      (req : TagRequest)
      → ((update_name_tag env ctx id req b).1 ≡ b)
        ⊎ Updated req (update_name_tag env ctx id req b).1
  unfolding update_name_tag
  update_name_tag-cases req =
      elim (Result-cases
        (validate env ctx id (record req { address = some ""; evm_address = some "" }) false b)) [
          | inr (e, failed) ↦ rw failed (inl refl)
          | inl (some x, answered) ↦ rw answered (inl refl)
          | inl (none, passed) ↦ rw passed (update_found-cases req)
        ]

  delete_name_tag-cases :
      ((delete_name_tag env ctx id b).1 ≡ b) ⊎ Deleted (delete_name_tag env ctx id b).1
  unfolding delete_name_tag
  delete_name_tag-cases =
      elim (Option-cases (env.private_tags.find_one (is_mine env ctx id) b.private_tags)) [
        | inl missing ↦ rw missing (inl refl)
        | inr (t, found) ↦
            elim (Written-cases private_keyed b.private_tags _ _
              (env.private_tags.delete_lem (λ q. q.id == id) b.private_tags)) [
                | inl (e, failed) ↦ rw (found, failed) (inl refl)
                | inr (n, done) ↦ rw (found, done) (inr (t, refl, refl))
              ]
      ]

  module _ (unique : UniqueIds private_keyed b.private_tags) (other : ℕ)
      (stranger : other ≢ ctx.user_id) where
    -- The rows with the key of a tag of the user's are the user's.
    Mine-not-owned :
        (t : PrivateNameTag)
        → Mine t
        → All (λ q. (q.id == id) ≡ true → is_owned other q ≡ false) b.private_tags
    Mine-not-owned t found =
        let (mem, holds) = env.private_tags.find_one-some _ b.private_tags t found in
        All-imp (λ q. (q.id == t.id) ≡ true → q ≡ t) _ b.private_tags
          (λ q only at.
            let same : q ≡ t = only (ground arith) in
            ground (arith, ap (λ (x : PrivateNameTag). x.created_by) same))
          (unique t mem)

    -- When keys are unique: whatever a user asks to be changed, the tags of every other user stay as they are.
    update_name_tag_others :
        (req : TagRequest)
        → keep_if (is_owned other) (update_name_tag env ctx id req b).1.private_tags
          ≡ keep_if (is_owned other) b.private_tags
    update_name_tag_others req = elim (update_name_tag-cases req) [
      | inl same ↦ rw same
      | inr (t, found, e) ↦ rw e (
          keep_if-update_where _ _ _ _
            (All-imp _ _ b.private_tags (λ q h at. (h at, ground arith)) (Mine-not-owned t found)))
    ]

    -- When keys are unique: whatever tag a user asks to be deleted, the tags of every other user stay as they are.
    delete_name_tag_others :
        keep_if (is_owned other) (delete_name_tag env ctx id b).1.private_tags
        ≡ keep_if (is_owned other) b.private_tags
    delete_name_tag_others = elim delete_name_tag-cases [
      | inl same ↦ rw same
      | inr (t, found, e) ↦ rw e (keep_if-delete_where _ _ _ (Mine-not-owned t found))
    ]

    -- When keys are unique: whatever change or deletion of a private tag a user asks for, the tags of
    -- every other user stay as they are.
    pub name_tag_requests_others :
        (req : TagRequest)
        → (keep_if (is_owned other) (update_name_tag env ctx id req b).1.private_tags
            ≡ keep_if (is_owned other) b.private_tags)
          × (keep_if (is_owned other) (delete_name_tag env ctx id b).1.private_tags
              ≡ keep_if (is_owned other) b.private_tags)
    name_tag_requests_others req = (update_name_tag_others req, delete_name_tag_others)
