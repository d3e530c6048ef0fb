-- ===== src/Repository/Rows.antt =====
-- Lemmas on the rows of a table: membership, and what a write leaves.
use mathlib.Core.List.{Memᴰ}
use aura_explorer_api.Prelude.{
  ℕ, ◌≤◌, ◌+◌, ◌<◌, ◌≡◌, refl, Bool, true, false, List, [], ◌∷◌, ◌++◌, arith, count_if, keep_if,
  All, Bool-cases, Option-cases, inl, inr, ◌⊎◌, ap, sym, some, nat_beq_iff, nat_eq, ◌==◌,
}
use aura_explorer_api.Exec.{Exception, Result, ok, err}
use aura_explorer_api.Repository.{Keyed, Repository, update_where, delete_where, Inserted, Written}

module _ {Row : Type 0} where
  pub All-mem : (P : Row → Type 0) (t : List Row) (r : Row) → All P t → Memᴰ r t → P r
  All-mem P [] r h m = elim m [ ]
  All-mem P (q ∷ t) r h (Memᴰ.head e) = rw e h.0
  All-mem P (q ∷ t) r h (Memᴰ.tail m) = All-mem P t r h.1 m

  pub count_if_pos_of_mem :
      (w : Row → Bool) (t : List Row) (r : Row) → Memᴰ r t → w r ≡ true → 0 < count_if w t
  count_if_pos_of_mem w [] r m h = elim m [ ]
  count_if_pos_of_mem w (q ∷ t) r (Memᴰ.head e) h = rw (← e) (rw h (omega arith))
  count_if_pos_of_mem w (q ∷ t) r (Memᴰ.tail m) h = omega (arith, count_if_pos_of_mem w t r m h)

  -- A write keeps what it gives to the rows that it changes and what the others had.
  pub All-update_where :
      (P Q : Row → Type 0) (w : Row → Bool) (f : Row → Row) (t : List Row)
      → ((q : Row) → P q → w q ≡ true → Q (f q))
      → ((q : Row) → P q → w q ≡ false → Q q)
      → All P t
      → All Q (update_where w f t)
  All-update_where P Q w f [] on off h = tt
  All-update_where P Q w f (q ∷ t) on off h = elim (Bool-cases (w q)) [
    | inl e ↦ rw e (on q h.0 e, All-update_where P Q w f t on off h.1)
    | inr e ↦ rw e (off q h.0 e, All-update_where P Q w f t on off h.1)
  ]

-- The laws on writes, as the two outcomes that a write can have.
module _ {Row : Type 0} (keyed : Keyed Row) where
  pub Written-cases :
      {A : Type 0} (t new : List Row) (o : Result A × List Row)
      → Written keyed t new o
      → ((e : Exception) × (o ≡ (err e, t))) ⊎ ((a : A) × (o ≡ (ok a, new)))
  Written-cases t new (err e, t') h = inl (e, ap (λ x. (err e, x)) h)
  Written-cases t new (ok a, t') h = inr (a, ap (λ x. (ok a, x)) h)

  pub Inserted-cases :
      (r : Row) (t : List Row) (o : Result Row × List Row)
      → Inserted keyed r t o
      → ((e : Exception) × (o ≡ (err e, t)))
        ⊎ ((r' : Row) × (o ≡ (ok r', t ++ r' ∷ []))
            × (r' ≡ keyed.with_id (keyed.id r') r)
            × (count_if (λ q. keyed.id q == keyed.id r') t ≡ 0))
  Inserted-cases r t (err e, t') h = inl (e, ap (λ x. (err e, x)) h)
  Inserted-cases r t (ok r', t') h = inr (r', ap (λ x. (ok r', x)) h.0, h.1, h.2)

-- Saving a row that was found fails and changes nothing, or puts it in place of the rows with its key.
module _ {Row : Type 0} {keyed : Keyed Row} (repo : Repository keyed) where
  pub save-found :
      (w : Row → Bool) (t : List Row) (a r : Row)
      → repo.find_one w t ≡ some a
      → keyed.id r ≡ keyed.id a
      → ((e : Exception) × (repo.save r t ≡ (err e, t)))
        ⊎ ((x : Row) × (repo.save r t
              ≡ (ok x, update_where (λ q. keyed.id q == keyed.id r) (λ _. r) t)))
  save-found w t a r found same = Written-cases keyed t _ (repo.save r t) (
      repo.save_lem r t (
        count_if_pos_of_mem (λ q. keyed.id q == keyed.id r) t a (repo.find_one-some w t a found).0
          ((nat_beq_iff _ _).1 (sym same))))

-- Every row that satisfies `w` is the row `r`: what a unique index on the columns of `w` gives.
abbrev pub IsOnly : {Row : Type 0} → (Row → Bool) → Row → List Row → Type 0
IsOnly w r t = All (λ q. w q ≡ true → q ≡ r) t

pub IsOnly-eq :
    {Row : Type 0} (w : Row → Bool) (a b : Row) (t : List Row)
    → IsOnly w a t
    → Memᴰ b t × (w b ≡ true)
    → b ≡ a
IsOnly-eq w a b t only (mem, holds) = All-mem _ t b only mem holds

-- Some row satisfies `w` after a write that gives a row that does to a row that is there.
pub count_if-update_where :
    {Row : Type 0} (w v : Row → Bool) (r : Row) (t : List Row)
    → 0 < count_if v t
    → w r ≡ true
    → 0 < count_if w (update_where v (λ _. r) t)
count_if-update_where w v r [] h holds = h
count_if-update_where w v r (q ∷ t) h holds = elim (Bool-cases (v q)) [
  | inl e ↦ rw (e, holds) (omega arith)
  | inr e ↦ omega (arith, count_if-update_where w v r t (ground arith) holds)
]

module _ {Row : Type 0} {keyed : Keyed Row} (repo : Repository keyed) where
  -- A saved row takes the place of the only row that was found.
  pub save-IsOnly :
      (w : Row → Bool) (t t' : List Row) (a r x : Row)
      → repo.find_one w t ≡ some a
      → keyed.id r ≡ keyed.id a
      → IsOnly w a t
      → repo.save r t ≡ (ok x, t')
      → IsOnly w r t'
  save-IsOnly w t t' a r x found same only done = elim (save-found repo w t a r found same) [
    | inl (e, failed) ↦ cc
    | inr (y, saved) ↦
        let e : t' ≡ update_where (λ q. keyed.id q == keyed.id r) (λ _. r) t = cc in
        rw e (
          All-update_where (λ q. w q ≡ true → q ≡ a) (λ q. w q ≡ true → q ≡ r) _ (λ _. r) t
            (λ q h _ _. refl) (λ q h other holds. ground (arith, ap keyed.id (h holds))) only)
  ]

  -- What satisfies `w` is found, if there is such a row.
  pub find_one_of_count :
      (w : Row → Bool) (t : List Row) → 0 < count_if w t → (r : Row) × (repo.find_one w t ≡ some r)
  find_one_of_count w t h = elim (Option-cases (repo.find_one w t)) [
    | inl missing ↦ absurd (omega (arith, repo.find_one-none w t missing))
    | inr found ↦ found
  ]

  pub save-found-again :
      (w v : Row → Bool) (t t' : List Row) (a r x : Row)
      → repo.find_one w t ≡ some a
      → keyed.id r ≡ keyed.id a
      → repo.save r t ≡ (ok x, t')
      → v r ≡ true
      → (b : Row) × (repo.find_one v t' ≡ some b)
  save-found-again w v t t' a r x found same done holds =
      elim (save-found repo w t a r found same) [
        | inl (e, failed) ↦ cc
        | inr (y, saved) ↦
            let e : t' ≡ update_where (λ q. keyed.id q == keyed.id r) (λ _. r) t = cc in
            find_one_of_count v t' (
              rw e (
                count_if-update_where v _ r t
                  (count_if_pos_of_mem (λ q. keyed.id q == keyed.id r) t a
                    (repo.find_one-some w t a found).0 ((nat_beq_iff _ _).1 (sym same)))
                  holds))
      ]

-- No two rows of a table have one key.
abbrev pub UniqueIds : {Row : Type 0} → Keyed Row → List Row → Type 0
UniqueIds {Row} keyed t = (r : Row) → Memᴰ r t → IsOnly (λ q. keyed.id q == keyed.id r) r t

-- Rows that a write neither takes away nor brings in are as before.
module _ {Row : Type 0} (p w : Row → Bool) where
  pub keep_if-update_where :
      (f : Row → Row) (t : List Row)
      → All (λ q. w q ≡ true → (p q ≡ false) × (p (f q) ≡ false)) t
      → keep_if p (update_where w f t) ≡ keep_if p t
  keep_if-update_where f [] h = refl
  keep_if-update_where f (q ∷ t) (h, hs) = elim (Bool-cases (w q)) [
    | inl on ↦ ground (arith, (h on).0, (h on).1, keep_if-update_where f t hs)
    | inr off ↦ ground (arith, keep_if-update_where f t hs)
  ]

  pub keep_if-delete_where :
      (t : List Row)
      → All (λ q. w q ≡ true → p q ≡ false) t
      → keep_if p (delete_where w t) ≡ keep_if p t
  keep_if-delete_where [] h = refl
  keep_if-delete_where (q ∷ t) (h, hs) = elim (Bool-cases (w q)) [
    | inl on ↦ ground (arith, h on, keep_if-delete_where t hs)
    | inr off ↦ ground (arith, keep_if-delete_where t hs)
  ]

pub All-imp :
    {Row : Type 0} (P Q : Row → Type 0) (t : List Row) → ((q : Row) → P q → Q q) → All P t → All Q t
All-imp P Q [] f h = tt
All-imp P Q (q ∷ t) f (h, hs) = (f q h, All-imp P Q t f hs)

-- Keys are counted once: what a primary key gives.
abbrev pub DistinctIds : {Row : Type 0} → Keyed Row → List Row → Type 0
DistinctIds keyed t = (n : ℕ) → count_if (λ q. keyed.id q == n) t ≤ 1

module _ {Row : Type 0} (w : Row → Bool) where
  count_if-none : (r : Row) (t : List Row) → count_if w t ≡ 0 → IsOnly w r t
  count_if-none r [] h = tt
  count_if-none r (q ∷ t) h = elim (Bool-cases (w q)) [
    | inl on ↦ absurd (ground arith)
    | inr off ↦ (λ on. ground arith, count_if-none r t (ground arith))
  ]

  pub count_if-IsOnly :
      (r : Row) (t : List Row) → count_if w t ≤ 1 → Memᴰ r t → w r ≡ true → IsOnly w r t
  count_if-IsOnly r [] h m holds = tt
  count_if-IsOnly r (q ∷ t) h (Memᴰ.head e) holds =
      let here : w q ≡ true = rw (← e) holds in (λ on. sym e, count_if-none r t (ground arith))
  count_if-IsOnly r (q ∷ t) h (Memᴰ.tail m) holds =
      let later = count_if_pos_of_mem w t r m holds in
      elim (Bool-cases (w q)) [
        | inl on ↦ absurd (ground arith)
        | inr off ↦ (λ on. ground arith, count_if-IsOnly r t (ground arith) m holds)
      ]

-- How far a write can raise a count.
module _ {Row : Type 0} (p w : Row → Bool) (f : Row → Row) where
  pub count_if-update_where_le :
      (t : List Row) → count_if p (update_where w f t) ≤ count_if p t + count_if w t
  count_if-update_where_le [] = omega arith
  count_if-update_where_le (q ∷ t) = ground (arith, count_if-update_where_le t)

  pub count_if-update_where_off :
      (t : List Row)
      → All (λ q. w q ≡ true → p (f q) ≡ true → p q ≡ true) t
      → count_if p (update_where w f t) ≤ count_if p t
  count_if-update_where_off [] h = omega arith
  count_if-update_where_off (q ∷ t) (h, hs) = ground (arith, h, count_if-update_where_off t hs)
