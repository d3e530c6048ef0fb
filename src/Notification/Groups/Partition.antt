-- ===== src/Notification/Groups/Partition.antt =====
-- The groups of transfers hold every transfer with a party once.
use aura_explorer_api.Prelude.{
  ◌+◌, ◌≡◌, ◌∙◌, refl, sym, ap, String, Bool, true, false, not, string_eq, Option, List, [], ◌∷◌,
  ◌++◌, map, arith, keep_if, any, count_if, count_if-append, truthy, eq_iff, Bool-cases,
  Option-cases, inl, inr, All,
}
use mathlib.Core.List.{append_assoc}
use aura_explorer_api.Notification.Groups.Apart.{Apart, distinct-Apart}
use aura_explorer_api.Notification.Groups.{
  Transfer, Group, Key, same_key, distinct, has_party, key_of, is_in, group_keys, sent_group,
  received_group, get_tx_notify_sent, get_tx_notify_received,
}

-- All the transfers of the groups, group by group.
abbrev pub all_activities : {A : Type 0} → List (Group A) → List (Transfer A)
all_activities [] = []
all_activities (g ∷ gs) = g.activities ++ all_activities gs

module _ {A : Type 0} (party : Transfer A → Option String) where
  is_in-same :
      (k q : Key) (t : Transfer A)
      → is_in party k t ≡ true
      → is_in party q t ≡ true
      → same_key q k ≡ true
  is_in-same (h, a) (i, b) t x y = elim (Option-cases (party t)) [
    | inl e ↦ ground arith
    | inr (c, e) ↦ ground (
      arith,
      eq_iff t.tx_hash h,
      eq_iff t.tx_hash i,
      eq_iff c a,
      eq_iff c b,
      eq_iff b a,
      eq_iff i h,
    )
  ]

  same-is_in :
      (k q : Key) (t : Transfer A) → same_key q k ≡ true → is_in party q t ≡ is_in party k t
  same-is_in (h, a) (i, b) t same =
      let p = (eq_iff i h).0 (ground arith) in
      let q = (eq_iff b a).0 (ground arith) in rw (p, q) refl

  -- Which transfers some key stands for.
  abbrev covered : List Key → Transfer A → Bool
  covered ks t = any (λ k. is_in party k t) ks

  other-covered :
      (k : Key) (ks : List Key) (t : Transfer A)
      → All (λ q. same_key q k ≡ false) ks
      → is_in party k t ≡ true
      → covered ks t ≡ false
  other-covered k [] t h here = refl
  other-covered k (q ∷ ks) t (h, hs) here = elim (Bool-cases (is_in party q t)) [
    | inl there ↦ let same = is_in-same k q t here there in cc
    | inr e ↦ rw e (other-covered k ks t hs here)
  ]

  -- The transfers of the keys, key by key.
  abbrev gathered : List Key → List (Transfer A) → List (Transfer A)
  gathered [] ts = []
  gathered (k ∷ ks) ts = keep_if (is_in party k) ts ++ gathered ks ts

  count_if-split :
      (p : Transfer A → Bool) (k : Key) (ks : List Key)
      → All (λ q. same_key q k ≡ false) ks
      → (ts : List (Transfer A))
      → count_if p (keep_if (is_in party k) ts) + count_if p (keep_if (covered ks) ts)
        ≡ count_if p (keep_if (covered (k ∷ ks)) ts)
  count_if-split p k ks apart [] = refl
  count_if-split p k ks apart (t ∷ ts) =
      let later = count_if-split p k ks apart ts in
      elim (Bool-cases (is_in party k t)) [
        | inl e ↦ let other = other-covered k ks t apart e in ground (arith, later, other)
        | inr e ↦ elim (Bool-cases (covered ks t)) [
          | inl c ↦ ground (arith, later)
          | inr c ↦ ground (arith, later)
        ]
      ]

  count_if-uncovered :
      (p : Transfer A → Bool) (ts : List (Transfer A)) → count_if p (keep_if (covered []) ts) ≡ 0
  count_if-uncovered p [] = refl
  count_if-uncovered p (t ∷ ts) = count_if-uncovered p ts

  count_if-gathered :
      (p : Transfer A → Bool) (ks : List Key) (ts : List (Transfer A))
      → Apart ks
      → count_if p (gathered ks ts) ≡ count_if p (keep_if (covered ks) ts)
  count_if-gathered p [] ts h = sym (count_if-uncovered p ts)
  count_if-gathered p (k ∷ ks) ts (h, hs) = omega (
    arith,
    count_if-append p (keep_if (is_in party k) ts) (gathered ks ts),
    count_if-gathered p ks ts hs,
    count_if-split p k ks h ts,
  )

  covered-keep_if :
      (k : Key) (ks : List Key) (t : Transfer A)
      → is_in party k t ≡ false
      → covered (keep_if (λ q. not (same_key q k)) ks) t ≡ covered ks t
  covered-keep_if k [] t out = refl
  covered-keep_if k (q ∷ ks) t out = elim (Bool-cases (same_key q k)) [
    | inl e ↦
        let gone = same-is_in k q t e ∙ out in ground (arith, gone, covered-keep_if k ks t out)
    | inr e ↦ ground (arith, covered-keep_if k ks t out)
  ]

  covered-distinct : (ks : List Key) (t : Transfer A) → covered (distinct ks) t ≡ covered ks t
  unfolding distinct
  covered-distinct [] t = refl
  covered-distinct (k ∷ ks) t = elim (Bool-cases (is_in party k t)) [
    | inl e ↦ rw e refl
    | inr e ↦ rw e (covered-keep_if k (distinct ks) t e ∙ covered-distinct ks t)
  ]

  abbrev keys : List (Transfer A) → List Key
  keys ts = map (key_of party) (keep_if (has_party party) ts)

  key_of-is_in : (t : Transfer A) → has_party party t ≡ true → is_in party (key_of party t) t ≡ true
  key_of-is_in t h = elim (Option-cases (party t)) [
    | inl e ↦ ground arith
    | inr (a, e) ↦ ground (arith, eq_iff t.tx_hash t.tx_hash, eq_iff a a)
  ]

  -- A transfer without a party has no key.
  key_of-other :
      (u t : Transfer A)
      → has_party party u ≡ true
      → has_party party t ≡ false
      → is_in party (key_of party u) t ≡ false
  key_of-other u t h out = elim (Option-cases (party u)) [
    | inl e ↦ ground arith
    | inr (a, e) ↦ elim (Option-cases (party t)) [
      | inl e' ↦ ground arith
      | inr (b, e') ↦ ground (arith, eq_iff a "", eq_iff b "", eq_iff b a)
    ]
  ]

  -- Every transfer with a party has its key among the keys, and no other has one.
  covered-out :
      (t : Transfer A) (ts : List (Transfer A))
      → has_party party t ≡ false
      → covered (keys ts) t ≡ false
  covered-out t [] out = refl
  covered-out t (u ∷ ts) out = elim (Bool-cases (has_party party u)) [
    | inl e ↦ ground (arith, key_of-other u t e out, covered-out t ts out)
    | inr e ↦ ground (arith, covered-out t ts out)
  ]

  covered-in :
      (t : Transfer A) (before ts : List (Transfer A))
      → has_party party t ≡ true
      → covered (keys (before ++ t ∷ ts)) t ≡ true
  covered-in t [] ts h = ground (arith, key_of-is_in t h)
  covered-in t (u ∷ before) ts h = elim (Bool-cases (has_party party u)) [
    | inl e ↦ ground (arith, covered-in t before ts h)
    | inr e ↦ ground (arith, covered-in t before ts h)
  ]

  keep_if-covered :
      (before ts : List (Transfer A))
      → keep_if (covered (distinct (keys (before ++ ts)))) ts ≡ keep_if (has_party party) ts
  keep_if-covered before [] = refl
  keep_if-covered before (t ∷ ts) =
      let step = append_assoc before (t ∷ []) ts in
      let rest = rw step at (keep_if-covered (before ++ t ∷ []) ts) in
      let known = covered-distinct (keys (before ++ t ∷ ts)) t in
      elim (Bool-cases (has_party party t)) [
        | inl e ↦ let yes = known ∙ covered-in t before ts e in ground (arith, yes, rest)
        | inr e ↦ let no = known ∙ covered-out t (before ++ t ∷ ts) e in ground (arith, no, rest)
      ]

  -- Whatever is counted, the transfers of the keys have as many as the transfers with a party.
  count_if-gathered-keys :
      (p : Transfer A → Bool) (ts : List (Transfer A))
      → count_if p (gathered (group_keys party ts) ts) ≡ count_if p (keep_if (has_party party) ts)
  unfolding group_keys
  count_if-gathered-keys p ts =
      count_if-gathered p (distinct (keys ts)) ts (distinct-Apart (keys ts))
      ∙ ap (count_if p) (keep_if-covered [] ts)

module _ {A : Type 0} (p : Transfer A → Bool) (ts : List (Transfer A)) where
  sent-gathered :
      (ks : List Key)
      → all_activities (map (sent_group ts) ks) ≡ gathered (λ (t : Transfer A). t.from) ks ts
  sent-gathered [] = refl
  sent-gathered (k ∷ ks) =
      ap (λ rest. keep_if (is_in (λ (t : Transfer A). t.from) k) ts ++ rest) (sent-gathered ks)

  received-gathered :
      (ks : List Key)
      → all_activities (map (received_group ts) ks) ≡ gathered (λ (t : Transfer A). t.to) ks ts
  received-gathered [] = refl
  received-gathered (k ∷ ks) =
      ap (λ rest. keep_if (is_in (λ (t : Transfer A). t.to) k) ts ++ rest) (received-gathered ks)

  -- Whatever is counted, the groups by senders hold as many transfers as have a sender, and the
  -- groups by receivers as many as have a receiver: none is lost and none is announced twice.
  pub count_if-all_activities :
      (count_if p (all_activities (get_tx_notify_sent ts))
        ≡ count_if p (keep_if (λ t. truthy t.from) ts))
      × (count_if p (all_activities (get_tx_notify_received ts))
          ≡ count_if p (keep_if (λ t. truthy t.to) ts))
  unfolding get_tx_notify_sent get_tx_notify_received
  count_if-all_activities = (
    ap (count_if p) (sent-gathered (group_keys (λ (t : Transfer A). t.from) ts))
        ∙ count_if-gathered-keys _ p ts,
    ap (count_if p) (received-gathered (group_keys (λ (t : Transfer A). t.to) ts))
        ∙ count_if-gathered-keys _ p ts,
  )
